-- ===== src/SimpleContainer/Selection.antt =====
-- simple_container_V2.h: how the `grab` with a selection function divides the container.
use thread_component.Prelude.{
  ℕ, ◌≤◌, ◌<◌, ◌≡◌, refl, sym, subst, ◌∙◌, inl, inr, true, false, List, [], ◌∷◌, ◌++◌, append-nil,
  append_assoc, arith, leb, length, length-append, take, drop, min, Bool-cases,
}
use thread_component.SimpleContainer.{
  Select, skip, grab, stop, stop_and_requeue, throws, Grabbed, returned, threw, SelectionFn,
  grab_loop, requeue_unlocked,
}

-- `whole` divided in two, each part in the order of the whole.
pub data Split {ℓ} {A : Type ℓ} : List A → List A → List A → Type ℓ where
  done : Split [] [] []
  pick :
      {x : A} {picked rest whole : List A}
      → Split picked rest whole
      → Split (x ∷ picked) rest (x ∷ whole)
  pass :
      {x : A} {picked rest whole : List A}
      → Split picked rest whole
      → Split picked (x ∷ rest) (x ∷ whole)

module _ {ℓ} {A : Type ℓ} where
  pub Split-none : (xs : List A) → Split [] xs xs
  Split-none [] = done
  Split-none (x ∷ xs) = pass (Split-none xs)

  -- The three ways in which a selection ends: the picked items are returned; they go to the back
  -- of the container and nothing is returned; or an exception passes and they are gone.
  pub data Ends (kept picked rest : List A) (r : Grabbed A × List A) : Type ℓ where
    gives : r ≡ (returned picked, kept ++ rest) → Ends kept picked rest r
    requeues : r ≡ (returned [], (kept ++ rest) ++ picked) → Ends kept picked rest r
    loses : r ≡ (threw, kept ++ rest) → Ends kept picked rest r

  requeue-append : (taken items : List A) → requeue_unlocked taken true items ≡ items ++ taken
  unfolding requeue_unlocked
  requeue-append [] items = sym (append-nil items)
  requeue-append (x ∷ taken) items = refl

  -- What a run of the loop does with the elements from the iterator on.
  pub record Divides (count : ℕ) (passed taken current : List A) (r : Grabbed A × List A)
      : Type ℓ where
    pub picked : List A
    pub rest : List A
    pub split : Split picked rest current
    pub few : length taken < count → length (taken ++ picked) ≤ count
    pub ends : Ends passed (taken ++ picked) rest r

  Ends-eq :
      {kept kept' picked picked' rest rest' : List A} {r : Grabbed A × List A}
      → kept ++ rest ≡ kept' ++ rest'
      → picked ≡ picked'
      → Ends kept picked rest r
      → Ends kept' picked' rest' r
  Ends-eq k p (gives e) = gives (e ∙ rw (k, p))
  Ends-eq k p (requeues e) = requeues (e ∙ rw (k, p))
  Ends-eq k p (loses e) = loses (e ∙ rw k)

  module _ (count : ℕ) (passed taken current : List A) (x : A) {r : Grabbed A × List A} where
    Divides-skip :
        Divides count (passed ++ x ∷ []) taken current r
        → Divides count passed taken (x ∷ current) r
    Divides-skip d = record {
      picked = d.picked;
      rest = x ∷ d.rest;
      split = pass d.split;
      few = d.few;
      ends = Ends-eq (append_assoc passed (x ∷ []) d.rest) refl d.ends;
    }

    Divides-grab :
        leb count (length (taken ++ x ∷ [])) ≡ false
        → Divides count passed (taken ++ x ∷ []) current r
        → Divides count passed taken (x ∷ current) r
    Divides-grab h d = record {
      picked = x ∷ d.picked;
      rest = d.rest;
      split = pick d.split;
      few = λ _.
          subst (λ l. length l ≤ count) (append_assoc taken (x ∷ []) d.picked)
            (d.few (ground arith));
      ends = Ends-eq refl (append_assoc taken (x ∷ []) d.picked) d.ends;
    }

    -- The loop ends here, with the element in the container.
    Divides-end : Ends passed taken (x ∷ current) r → Divides count passed taken (x ∷ current) r
    Divides-end e = record {
      picked = [];
      rest = x ∷ current;
      split = Split-none (x ∷ current);
      few = λ h. omega (arith, length-append {ℓ} taken []);
      ends = Ends-eq refl (sym (append-nil taken)) e;
    }

    -- The loop ends here, with the element taken.
    Divides-full :
        r ≡ (returned (taken ++ x ∷ []), passed ++ current)
        → Divides count passed taken (x ∷ current) r
    Divides-full e = record {
      picked = x ∷ [];
      rest = current;
      split = pick (Split-none current);
      few = λ h. omega (arith, length-append taken (x ∷ []));
      ends = gives e;
    }

module _ {ℓ κ} {A : Type ℓ} {S : Type κ} (fn : SelectionFn A S) where
  -- One round of the loop, for each answer.
  grab_loop-round :
      (s : S) (count : ℕ) (passed taken current : List A) (x : A)
      → (let s' = (fn s x).1 in
          Divides count
            (passed ++ x ∷ [])
            taken
            current
            (grab_loop fn s' count (passed ++ x ∷ []) taken current))
      → (let s' = (fn s x).1 in
          Divides count passed
            (taken ++ x ∷ [])
            current
            (grab_loop fn s' count passed (taken ++ x ∷ []) current))
      → (a : Select) → (fn s x).0 ≡ a
      → Divides count passed taken (x ∷ current) (grab_loop fn s count passed taken (x ∷ current))
  unfolding grab_loop
  grab_loop-round s count passed taken current x sk gr skip e =
      rw (e, grab_loop) (Divides-skip count passed taken current x sk)
  grab_loop-round s count passed taken current x sk gr grab e =
      elim (Bool-cases (leb count (length (taken ++ x ∷ [])))) [
        | inl full ↦ rw (e, grab_loop, full) (Divides-full count passed taken current x refl)
        | inr more ↦ rw (e, grab_loop, more) (Divides-grab count passed taken current x more gr)
      ]
  grab_loop-round s count passed taken current x sk gr stop e =
      rw (e, grab_loop) (Divides-end count passed taken current x (gives refl))
  grab_loop-round s count passed taken current x sk gr stop_and_requeue e =
      rw (e, grab_loop, requeue-append taken (passed ++ x ∷ current))
        (Divides-end count passed taken current x (requeues refl))
  grab_loop-round s count passed taken current x sk gr throws e =
      rw (e, grab_loop) (Divides-end count passed taken current x (loses refl))

  pub grab_loop-Divides :
      (s : S) (count : ℕ) (passed taken current : List A)
      → Divides count passed taken current (grab_loop fn s count passed taken current)
  unfolding grab_loop
  grab_loop-Divides s count passed taken [] = record {
    picked = [];
    rest = [];
    split = done;
    few = λ h. omega (arith, length-append {ℓ} taken []);
    ends = gives (rw (append-nil taken, append-nil passed));
  }
  grab_loop-Divides s count passed taken (x ∷ current) =
      let s' = (fn s x).1 in
      grab_loop-round s count passed taken current x
        (grab_loop-Divides s' count (passed ++ x ∷ []) taken current)
        (grab_loop-Divides s' count passed (taken ++ x ∷ []) current) (fn s x).0 refl

-- The elements that a selection runs over, and those before them.
abbrev pub before_offset {ℓ} : {A : Type ℓ} → ℕ → List A → List A
before_offset offset m_items = take (min offset (length m_items)) m_items

abbrev pub from_offset {ℓ} : {A : Type ℓ} → ℕ → List A → List A
from_offset offset m_items = drop (min offset (length m_items)) m_items
