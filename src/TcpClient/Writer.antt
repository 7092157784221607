-- ===== src/TcpClient/Writer.antt =====
-- cTCPClient_V2.h: the writer puts on the wire what was pushed, in order.
use thread_component.Prelude.{
  ℕ, zero, suc, ◌+◌, ◌≡◌, refl, sym, ap, ◌∙◌, subst, Bool, true, false, Option, none, some, List,
  [], ◌∷◌, ◌++◌, is_nil, length, take, drop, ltb, arith, if◌then◌else◌, append_assoc,
  take-append-drop, drop_all, ◌||◌, not, ◌==◌, Bool-cases, inl, inr,
}
use thread_component.TcpClient.Client.{
  Client, WriterPc, waiting, locked, popping, sending, loading, calling, failing, ended, broken,
  testing, SendResult, takes, interrupted, error, writer_move,
}

abbrev pub flatten : List (List ℕ) → List ℕ
flatten [] = []
flatten (x ∷ xs) = x ++ flatten xs

pub flatten-append : (xs ys : List (List ℕ)) → flatten (xs ++ ys) ≡ flatten xs ++ flatten ys
flatten-append [] ys = refl
flatten-append (x ∷ xs) ys =
    ap (λ zs. x ++ zs) (flatten-append xs ys) ∙ sym (append_assoc x (flatten xs) (flatten ys))

drop_nil : (n : ℕ) → drop {A = ℕ} n [] ≡ []
drop_nil zero = refl
drop_nil (suc n) = refl

drop-drop : (m n : ℕ) (xs : List ℕ) → drop n (drop m xs) ≡ drop (m + n) xs
drop-drop zero n xs = let e : n ≡ 0 + n = omega arith in ap (λ k. drop k xs) e
drop-drop (suc m) n [] = drop_nil n ∙ sym (drop_nil (suc m + n))
drop-drop (suc m) n (x ∷ xs) =
    let e : suc (m + n) ≡ suc m + n = omega arith in drop-drop m n xs ∙ ap (λ k. drop k (x ∷ xs)) e

-- What the writer still has to send of its payload.
abbrev pub rest_of : WriterPc → List ℕ
rest_of (sending payload total) = drop total payload
rest_of (loading payload total) = drop total payload
rest_of (calling payload total fd) = drop total payload
rest_of _ = []

-- What was pushed is what is on the wire, what the writer holds, and then `later`.
abbrev pub IsSplit : List (List ℕ) → List ℕ → WriterPc → List ℕ → Type 0
IsSplit pushed wire pc later = flatten pushed ≡ wire ++ (rest_of pc ++ later)

-- A writer past the test of the flag has an element to take; none has met an empty queue.
abbrev pub IsFed : WriterPc → Bool → List (List ℕ) → Type 0
IsFed locked stop queue = stop ≡ false → is_nil queue ≡ false
IsFed popping stop queue = is_nil queue ≡ false
IsFed broken stop queue = ⊥
IsFed _ stop queue = Unit

-- Where the queue was not cleared since the test of the flag.
abbrev pub IsIntact : WriterPc → Bool → Type 0
IsIntact popping stop = Unit
IsIntact failing stop = ⊥
IsIntact _ stop = stop ≡ false

abbrev pub IsOrderedAt : WriterPc → Bool → List (List ℕ) → List ℕ → List (List ℕ) → Type 0
IsOrderedAt pc stop queue wire pushed =
    ((IsIntact pc stop → IsSplit pushed wire pc (flatten queue))
      × ((later : List ℕ) × IsSplit pushed wire pc later))
    × IsFed pc stop queue

abbrev pub IsOrdered : Client → List (List ℕ) → Type 0
IsOrdered s pushed = IsOrderedAt s.writer s.stop_requested s.queue s.wire pushed

module _ (wire : List ℕ) (pushed : List (List ℕ)) where
  test_flag :
      (stop : Bool) (queue : List (List ℕ))
      → IsOrderedAt testing stop queue wire pushed
      → IsOrderedAt (if stop then ended else waiting) stop queue wire pushed
  test_flag true queue h = h
  test_flag false queue h = h

  wait :
      (stop : Bool) (queue : List (List ℕ))
      → IsOrderedAt waiting stop queue wire pushed
      → IsOrderedAt (if stop || not (is_nil queue) then locked else waiting) stop queue wire pushed
  wait true queue (h, _) = (h, λ e. absurd (ground (arith, e)))
  wait false [] h = h
  wait false (x ∷ queue) (h, _) = (h, λ _. refl)

  test_locked :
      (stop : Bool) (queue : List (List ℕ))
      → IsOrderedAt locked stop queue wire pushed
      → IsOrderedAt (if stop then ended else popping) stop queue wire pushed
  test_locked true queue (h, _) = (h, tt)
  test_locked false queue ((a, b), f) = ((λ _. a refl, b), f refl)

  test_sent :
      (more stop : Bool) (payload : List ℕ) (total : ℕ) (queue : List (List ℕ))
      → (more ≡ false → drop total payload ≡ [])
      → IsOrderedAt (sending payload total) stop queue wire pushed
      → IsOrderedAt (if more then loading payload total else testing) stop queue wire pushed
  test_sent true stop payload total queue e h = h
  test_sent false stop payload total queue e ((a, (later, b)), _) =
      let none_left = λ (xs : List ℕ). ap (λ ys. wire ++ (ys ++ xs)) (e refl) in
      ((λ s. a s ∙ none_left (flatten queue), (later, b ∙ none_left later)), tt)

  fail :
      (stop : Bool) (payload : List ℕ) (total : ℕ) (queue : List (List ℕ))
      → IsOrderedAt (sending payload total) stop queue wire pushed
      → IsOrderedAt failing stop queue wire pushed
  fail stop payload total queue ((_, (later, b)), _) =
      ((λ e. absurd e, (drop total payload ++ later, b)), tt)

  load :
      (o : Option ℕ) (stop : Bool) (payload : List ℕ) (total : ℕ) (queue : List (List ℕ))
      → IsOrderedAt (loading payload total) stop queue wire pushed
      → IsOrderedAt
          (elim o [ none ↦ failing | some fd ↦ calling payload total fd ])
          stop
          queue
          wire
          pushed
  load none stop payload total queue h = fail stop payload total queue h
  load (some fd) stop payload total queue h = h

taken_more :
    (wire : List ℕ) (n total : ℕ) (payload later : List ℕ)
    → wire ++ (drop total payload ++ later)
      ≡ (wire ++ take n (drop total payload)) ++ (drop (total + n) payload ++ later)
taken_more wire n total payload later =
    let d = drop total payload in
    let split =
      ap (λ xs. xs ++ later) (sym (take-append-drop n d))
      ∙ append_assoc (take n d) (drop n d) later
      ∙ ap (λ xs. take n d ++ (xs ++ later)) (drop-drop total n payload) in
    ap (λ xs. wire ++ xs) split
    ∙ sym (append_assoc wire (take n d) (drop (total + n) payload ++ later))

all_sent :
    (total : ℕ) (payload : List ℕ) → ltb total (length payload) ≡ false → drop total payload ≡ []
all_sent total payload e = drop_all total payload (ground (arith, e))

pop-IsOrdered :
    (s : Client) (queue : List (List ℕ)) (c : SendResult) (pushed : List (List ℕ))
    → s.queue ≡ queue
    → IsOrderedAt popping s.stop_requested queue s.wire pushed
    → IsOrdered (writer_move c popping (record s { queue = queue })) pushed
unfolding writer_move
pop-IsOrdered s [] c pushed e (_, f) = absurd (ground (arith, f))
pop-IsOrdered s (x ∷ queue) c pushed e ((a, b), f) = ((λ _. a tt, (flatten queue, a tt)), tt)

take_more :
    (wire : List ℕ) (pushed : List (List ℕ)) (stop : Bool) (n : ℕ) (payload : List ℕ) (total fd : ℕ)
    (queue : List (List ℕ))
    → IsOrderedAt (calling payload total fd) stop queue wire pushed
    → IsOrderedAt
        (sending payload (total + n))
        stop
        queue
        (wire ++ take n (drop total payload))
        pushed
take_more wire pushed stop n payload total fd queue ((a, (later, b)), _) = (
  (
    λ i. a i ∙ taken_more wire n total payload (flatten queue),
    (later, b ∙ taken_more wire n total payload later),
  ),
  tt,
)

pub writer_move-IsOrdered :
    (c : SendResult) (pc : WriterPc) (s : Client) (pushed : List (List ℕ))
    → s.writer ≡ pc
    → IsOrderedAt pc s.stop_requested s.queue s.wire pushed
    → IsOrdered (writer_move c pc s) pushed
unfolding writer_move
writer_move-IsOrdered c testing s pushed e h = test_flag s.wire pushed s.stop_requested s.queue h
writer_move-IsOrdered c waiting s pushed e h = wait s.wire pushed s.stop_requested s.queue h
writer_move-IsOrdered c locked s pushed e h = test_locked s.wire pushed s.stop_requested s.queue h
writer_move-IsOrdered c popping s pushed e h = pop-IsOrdered s s.queue c pushed refl h
writer_move-IsOrdered c (sending p t) s pushed e h =
    test_sent s.wire pushed (ltb t (length p)) s.stop_requested p t s.queue (all_sent t p) h
writer_move-IsOrdered c (loading p t) s pushed e h =
    load s.wire pushed s.socket s.stop_requested p t s.queue h
writer_move-IsOrdered (takes n) (calling p t fd) s pushed e h = elim (Bool-cases (n == 0)) [
  | inl nothing ↦ rw nothing (fail s.wire pushed s.stop_requested p t s.queue h)
  | inr something ↦ rw something (take_more s.wire pushed s.stop_requested n p t fd s.queue h)
]
writer_move-IsOrdered interrupted (calling p t fd) s pushed e h = h
writer_move-IsOrdered error (calling p t fd) s pushed e h =
    fail s.wire pushed s.stop_requested p t s.queue h
writer_move-IsOrdered c failing s pushed e ((_, b), _) = ((λ i. absurd (ground (arith, i)), b), tt)
writer_move-IsOrdered c ended s pushed e h =
    subst (λ pc. IsOrderedAt pc s.stop_requested s.queue s.wire pushed) (sym e) h
writer_move-IsOrdered c broken s pushed e (_, f) = absurd f
