-- ===== src/BaseWorker/Stopping.antt =====
-- cBaseWorker_V2.h: how a thread of `threadRunner` ends.
use thread_component.Prelude.{
  ℕ, ◌≤◌, ◌<◌, ◌≡◌, ◌⊎◌, inl, inr, refl, Bool, Option, some, List, [], ◌∷◌, arith, length,
  if◌then◌else◌, Bool-cases,
}
use thread_component.BaseWorker.{
  stopped, Worker, Pc, pre_run, check, enter, body, finish, exited, caught, Choice, completes,
  refuses, raises, continue_running, thread_step,
}
use thread_component.BaseWorker.Places.{live}

module _ {E : Type 0} where
  -- The thread's own steps, with no step of a caller between.
  unfoldable pub thread_run : List (Choice E) → Pc E → Worker E → Pc E × Worker E
  thread_run [] pc w = (pc, w)
  thread_run (c ∷ cs) pc w = let (pc', w') = thread_step c pc w in thread_run cs pc' w'

  rank : Pc E → ℕ
  rank pre_run = 6
  rank check = 5
  rank enter = 4
  rank body = 3
  rank (caught e) = 2
  rank finish = 1
  rank exited = 0

  thread_run_ended : (cs : List (Choice E)) (w : Worker E) → thread_run cs exited w ≡ (exited, w)
  unfolding thread_run thread_step
  thread_run_ended [] w = refl
  thread_run_ended (c ∷ cs) w = thread_run_ended cs w

  -- A live thread comes nearer to its end, or reaches it and stops the worker.
  thread_step-rank :
      (c : Choice E) (pc : Pc E) (w : Worker E)
      → live pc ≡ 1
      → ((live (thread_step c pc w).0 ≡ 1) × (rank (thread_step c pc w).0 < rank pc))
        ⊎ (((thread_step c pc w).0 ≡ exited) × ((thread_step c pc w).1.state ≡ stopped))
  unfolding thread_step rank
  thread_step-rank completes pre_run w l = inl (refl, omega arith)
  thread_step-rank refuses pre_run w l = inl (refl, omega arith)
  thread_step-rank (raises e) pre_run w l = inl (refl, omega arith)
  thread_step-rank c check w l = inl (ground arith, ground arith)
  thread_step-rank c enter w l = inl (refl, omega arith)
  thread_step-rank completes body w l = inl (refl, omega arith)
  thread_step-rank refuses body w l = inl (refl, omega arith)
  thread_step-rank (raises e) body w l = inl (refl, omega arith)
  thread_step-rank c (caught e) w l = inl (refl, omega arith)
  thread_step-rank c finish w l = inr (refl, refl)
  thread_step-rank c exited w l = absurd (omega arith)

  rank-le : (pc : Pc E) → rank pc ≤ 6
  unfolding rank
  rank-le exited = omega arith
  rank-le _ = omega arith

  rank-pos : (pc : Pc E) → live pc ≡ 1 → 0 < rank pc
  unfolding rank
  rank-pos exited l = omega arith
  rank-pos _ l = omega arith

  thread_run-cons :
      (c : Choice E) (cs : List (Choice E)) (pc : Pc E) (w : Worker E)
      → thread_run (c ∷ cs) pc w ≡ thread_run cs (thread_step c pc w).0 (thread_step c pc w).1
  unfolding thread_run
  thread_run-cons c cs pc w = refl

  ends :
      (cs : List (Choice E)) (pc : Pc E) (w : Worker E)
      → live pc ≡ 1
      → rank pc ≤ length cs
      → ((thread_run cs pc w).0 ≡ exited) × ((thread_run cs pc w).1.state ≡ stopped)
  ends [] pc w l h = absurd (omega (arith, rank-pos pc l))
  ends (c ∷ cs) pc w l h = elim (thread_step-rank c pc w l) [
    | inl (l', r) ↦
        rw (thread_run-cons c cs pc w)
          (ends cs (thread_step c pc w).0 (thread_step c pc w).1 l' (omega arith))
    | inr (x, st) ↦
        rw (thread_run-cons c cs pc w, x, thread_run_ended cs (thread_step c pc w).1) (refl, st)
  ]

  -- Whichever way `preRun` and `run` end, six steps of its own or more, with no step of a caller
  -- between them, bring a live thread to its end, and it leaves the worker stopped.
  pub thread_run_ends :
      (cs : List (Choice E)) (pc : Pc E) (w : Worker E)
      → live pc ≡ 1
      → 6 ≤ length cs
      → ((thread_run cs pc w).0 ≡ exited) × ((thread_run cs pc w).1.state ≡ stopped)
  thread_run_ends cs pc w l h = ends cs pc w l (omega (arith, rank-le pc))

  -- The whole life of a thread whose `preRun` ends by `p` and whose `run`, if it comes to it, by `r`.
  abbrev pub life : Choice E → Choice E → List (Choice E)
  life p r = p ∷ r ∷ r ∷ r ∷ r ∷ r ∷ []

  -- The exception that such a thread leaves behind, if the worker had `old`, and whether a stop was
  -- requested before the test of the flag.
  unfoldable pub exception_after : Choice E → Choice E → Bool → Option E → Option E
  exception_after (raises e) r stop old = some e
  exception_after refuses r stop old = old
  exception_after completes (raises e) stop old = if stop then old else some e
  exception_after completes _ stop old = old

  -- An exception of `preRun`, or of `run` where no stop came first, is kept; a thread that ends
  -- otherwise keeps what was there. In every case the worker is stopped, and the flag and the handle
  -- are as they were.
  pub thread_run_exception :
      (p r : Choice E) (w : Worker E)
      → thread_run (life p r) pre_run w ≡ (
        exited,
        record w {
          state = stopped;
          last_unhandled_exception =
              exception_after p r w.stop_requested w.last_unhandled_exception;
        },
      )
  unfolding thread_run thread_step exception_after continue_running
  thread_run_exception (raises e) r w = refl
  thread_run_exception refuses r w = refl
  thread_run_exception completes (raises e) w = elim (Bool-cases w.stop_requested) [
    | inl stop ↦ rw (stop, continue_running, thread_step) refl
    | inr go ↦ rw (go, continue_running, thread_step) refl
  ]
  thread_run_exception completes _ w = ground arith
