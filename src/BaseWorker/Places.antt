-- ===== src/BaseWorker/Places.antt =====
-- cBaseWorker_V2.h: where the threads of a worker stand, and how many are live.
use thread_component.Prelude.{ℕ, ◌+◌, ◌≡◌, Bool, true, false, not, List, [], ◌∷◌, ◌++◌, arith}
use thread_component.BaseWorker.{
  State, unknown, starting, running, stopping, stopped, Pc, pre_run, check, enter, body, exited,
}

-- A start withdraws the stop request, and a thread that stops was asked to.
unfoldable pub known : State → Bool → Bool
known unknown stop = false
known starting stop = not stop
known stopping stop = stop
known _ stop = true

module _ {E : Type 0} where
  -- A thread is live until its last `setState(Stopped)`.
  abbrev pub live : Pc E → ℕ
  live exited = 0
  live _ = 1

  abbrev pub live_count : List (Pc E) → ℕ
  live_count [] = 0
  live_count (pc ∷ pcs) = live pc + live_count pcs

  -- Where a live thread can stand in each state, with and without a stop request.
  unfoldable pub fits : State → Bool → Pc E → Bool
  fits starting stop body = false
  fits starting stop exited = true
  fits starting stop _ = not stop
  fits running stop pre_run = false
  fits running stop check = false
  fits running stop enter = false
  fits running stop _ = true
  fits stopping stop exited = true
  fits stopping stop _ = stop
  fits stopped stop exited = true
  fits stopped stop _ = false
  fits unknown stop _ = false

  abbrev pub All : (Pc E → Bool) → List (Pc E) → Type 0
  All p [] = Unit
  All p (pc ∷ pcs) = (p pc ≡ true) × All p pcs

  pub live_count-append :
      (xs ys : List (Pc E)) → live_count (xs ++ ys) ≡ live_count xs + live_count ys
  live_count-append [] ys = omega arith
  live_count-append (x ∷ xs) ys = omega (arith, live_count-append xs ys)

  pub All-append-left : (p : Pc E → Bool) (xs ys : List (Pc E)) → All p (xs ++ ys) → All p xs
  All-append-left p [] ys h = tt
  All-append-left p (x ∷ xs) ys h = (h.0, All-append-left p xs ys h.1)

  pub All-append-right : (p : Pc E → Bool) (xs ys : List (Pc E)) → All p (xs ++ ys) → All p ys
  All-append-right p [] ys h = h
  All-append-right p (x ∷ xs) ys h = All-append-right p xs ys h.1

  pub All-append : (p : Pc E → Bool) (xs ys : List (Pc E)) → All p xs → All p ys → All p (xs ++ ys)
  All-append p [] ys h k = k
  All-append p (x ∷ xs) ys h k = (h.0, All-append p xs ys h.1 k)

  pub All-imp :
      (p q : Pc E → Bool)
      → ((pc : Pc E) → p pc ≡ true → q pc ≡ true)
      → (xs : List (Pc E)) → All p xs
      → All q xs
  All-imp p q f [] h = tt
  All-imp p q f (x ∷ xs) h = (f x h.0, All-imp p q f xs h.1)

  -- A thread that has exited stands well in every state.
  pub exited-fits :
      (st : State) (b : Bool) (pc : Pc E) → known st b ≡ true → live pc ≡ 0 → fits st b pc ≡ true
  unfolding fits known
  exited-fits st b exited k h = ground arith
  exited-fits st b _ k h = absurd (omega arith)

  pub All-exited :
      (st : State) (b : Bool) (xs : List (Pc E))
      → known st b ≡ true
      → live_count xs ≡ 0
      → All (fits st b) xs
  All-exited st b [] k h = tt
  All-exited st b (x ∷ xs) k h =
      (exited-fits st b x k (omega (arith, h)), All-exited st b xs k (omega (arith, h)))
