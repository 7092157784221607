-- ===== src/SimpleContainer/Conservation.antt =====
-- simple_container_V2.h: what the `grab` with a selection function keeps, returns and loses.
use mathlib.Core.List.{Perm, perm_middle, perm_append_comm}
use mathlib.Core.List.Perm
use thread_component.Prelude.{
  ℕ, ◌≤◌, ◌<◌, ◌≡◌, ◌≢◌, ap, subst, inl, inr, Option, none, some, List, [], ◌∷◌, ◌++◌, append_assoc,
  arith, length, take-append-drop, min, Bool-cases, ◌==◌,
}
use thread_component.SimpleContainer.Selection.{
  Split, done, pick, pass, Split-none, Ends, gives, requeues, loses, grab_loop-Divides,
  before_offset, from_offset,
}
use thread_component.SimpleContainer.{
  grab, throws, Grabbed, returned, threw, SelectionFn, grab_loop, grab_select,
}

module _ {ℓ} {A : Type ℓ} where
  Split-perm : {picked rest whole : List A} → Split picked rest whole → Perm (picked ++ rest) whole
  Split-perm done = Perm.refl []
  Split-perm (pick {x} s) = Perm.cons x (Split-perm s)
  Split-perm {picked} (pass {x} {rest = rest} s) =
      Perm.trans (perm_middle picked rest) (Perm.cons x (Split-perm s))

  -- A selection from `offset` on, of at most `count` items.
  pub record Selects (count offset : ℕ) (m_items : List A) (r : Grabbed A × List A) : Type ℓ where
    pub picked : List A
    pub rest : List A
    pub split : Split picked rest (from_offset offset m_items)
    pub few : length picked ≤ count
    pub ends : Ends (before_offset offset m_items) picked rest r

  Selects-nothing :
      (count offset : ℕ) (m_items : List A) → Selects count offset m_items (returned [], m_items)
  Selects-nothing count offset m_items = record {
    picked = [];
    rest = from_offset offset m_items;
    split = Split-none (from_offset offset m_items);
    few = omega arith;
    ends = gives (rw (take-append-drop (min offset (length m_items)) m_items));
  }

  -- The items that a call gives to its caller.
  abbrev pub given : Grabbed A → List A
  given (returned items) = items
  given threw = []

  Selects-perm :
      {count offset : ℕ} {m_items : List A} (r : Grabbed A × List A)
      → Selects count offset m_items r
      → r.0 ≢ threw
      → Perm (given r.0 ++ r.1) m_items
  Selects-perm {offset = offset} {m_items} r s n = go s.ends
    where
      kept : List A
      kept = before_offset offset m_items

      all : Perm (s.picked ++ (kept ++ s.rest)) m_items
      all =
          subst (Perm (s.picked ++ (kept ++ s.rest)))
            (take-append-drop (min offset (length m_items)) m_items)
            (Perm.trans (perm_append_comm s.picked (kept ++ s.rest)) (
              rw (append_assoc kept s.rest s.picked) (
                Perm.append_left kept
                  (Perm.trans (perm_append_comm s.rest s.picked) (Split-perm s.split)))))

      go : Ends kept s.picked s.rest r → Perm (given r.0 ++ r.1) m_items
      go (gives e) = rw e all
      go (requeues e) = rw e (Perm.trans (perm_append_comm (kept ++ s.rest) s.picked) all)
      go (loses e) = absurd (n (ap (λ (q : Grabbed A × List A). q.0) e))

module _ {ℓ κ} {A : Type ℓ} {S : Type κ} where
  -- Whatever the selection function answers, the items from the offset on are divided in two, in
  -- order, with at most `count` picked. The items before the offset stay where they are, the others
  -- stay behind them, and the picked ones are returned, or go to the back of the container (with
  -- nothing returned), or are lost when the selection function throws.
  pub grab_select-Selects :
      (count : ℕ) (fn : Option (SelectionFn A S)) (s : S) (offset : ℕ) (m_items : List A)
      → Selects count offset m_items (grab_select count fn s offset m_items)
  unfolding grab_select
  grab_select-Selects count none s offset m_items = Selects-nothing count offset m_items
  grab_select-Selects count (some fn) s offset m_items = elim (Bool-cases (count == 0)) [
    | inl zero ↦ rw zero (Selects-nothing count offset m_items)
    | inr more ↦ rw more (
        let d =
          grab_loop-Divides fn s count (before_offset offset m_items) []
            (from_offset offset m_items) in
        record {
          picked = d.picked;
          rest = d.rest;
          split = d.split;
          few = d.few (ground arith);
          ends = d.ends;
        })
  ]

  -- Unless the selection function throws, no item is lost or made up: those returned and those
  -- left are those that were there.
  pub grab_select-perm :
      (count : ℕ) (fn : Option (SelectionFn A S)) (s : S) (offset : ℕ) (m_items : List A)
      → (grab_select count fn s offset m_items).0 ≢ threw
      → let r = grab_select count fn s offset m_items in Perm (given r.0 ++ r.1) m_items
  grab_select-perm count fn s offset m_items n =
      Selects-perm (grab_select count fn s offset m_items)
        (grab_select-Selects count fn s offset m_items) n

  -- The exception of a selection function destroys what was taken before it: where the function
  -- takes the first item, of several that may be taken, and throws on the second, the first is gone.
  pub grab_select_throw_loses :
      (count : ℕ) (fn : SelectionFn A S) (s : S) (x y : A) (m_items : List A)
      → 1 < count
      → (fn s x).0 ≡ grab
      → (fn (fn s x).1 y).0 ≡ throws
      → grab_select count (some fn) s 0 (x ∷ y ∷ m_items) ≡ (threw, y ∷ m_items)
  unfolding grab_select grab_loop
  grab_select_throw_loses count fn s x y m_items h e f = ground arith
