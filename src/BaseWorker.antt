-- ===== src/BaseWorker.antt =====
-- cBaseWorker_V2.h: a worker thread with a state behind a mutex.
-- Each block that holds `m_stateMutex`, and each access of the atomic flag, is one step on the
-- worker. The thread of `threadRunner` is a program counter with a step function; the environment
-- chooses how `preRun` and `run` end. Whatever callers and threads do is a sequence of such steps.
-- An exception of the mutex itself, the names of workers and the hook `stopTriggered`, which the
-- derived classes define, are left out.
pub mod System
pub mod Places
pub mod Invariant
pub mod Transitions
pub mod Stopping
pub mod Api
pub mod Heartbeat
mod Tests
use thread_component.Prelude.{
  ℕ, zero, suc, Bool, true, false, Option, none, some, List, ◌&&◌, ◌||◌, not, if◌then◌else◌,
}

-- `enm_State`.
pub data State : Type 0 where
  unknown starting running stopping stopped : State

abbrev pub is_stopped : State → Bool
is_stopped stopped = true
is_stopped _ = false

abbrev pub is_running_state : State → Bool
is_running_state running = true
is_running_state _ = false

-- The fields behind `m_stateMutex`, with the atomic flag and whether `m_thread` is joinable. `E` is
-- the type of exceptions.
pub record Worker (E : Type 0) : Type 0 where
  pub state : State
  pub stop_requested : Bool
  pub joinable : Bool
  pub last_unhandled_exception : Option E

-- Where the thread of `threadRunner` stands: before `preRun`, before the test of the flag, before
-- `setState(Running)`, before `run`, in the handler, before the last `setState(Stopped)`, at its end.
pub data Pc (E : Type 0) : Type 0 where
  pre_run check enter body finish exited : Pc E
  caught : E → Pc E

-- How `preRun` or `run` ends: `refuses` is the `false` of `preRun`.
pub data Choice (E : Type 0) : Type 0 where
  completes refuses : Choice E
  raises : E → Choice E

module _ {E : Type 0} where
  -- The constructor.
  abbrev pub new : Worker E
  new = record {
    state = stopped;
    stop_requested = false;
    joinable = false;
    last_unhandled_exception = none;
  }

  pub set_state : State → Worker E → Worker E
  set_state s w = record w { state = s }

  -- The locked part of `requestStop`: the flag tells whether `stopTriggered` is called.
  unfoldable pub stop_in : State → Worker E → Worker E × Bool
  stop_in starting w = (record w { state = stopping; stop_requested = true }, true)
  stop_in running w = (record w { state = stopping; stop_requested = true }, true)
  stop_in stopping w = (record w { stop_requested = true }, true)
  stop_in _ w = (record w { stop_requested = true }, false)

  unfoldable pub request_stop : Worker E → Worker E × Bool
  unfolding stop_in
  request_stop w = stop_in w.state w

  unfoldable pub retire : Worker E → Worker E × Bool
  unfolding request_stop
  retire w = request_stop w

  -- The locked part of `startThread`; `spawned` tells whether the thread could be created. If it was
  -- not, the handler has yet to set the state back. The result is `false` where nothing is started.
  unfoldable pub start_locked : Bool → Worker E → Worker E × Bool
  start_locked spawned w = if not (is_stopped w.state) || w.joinable then (w, false) else (
    record w {
      stop_requested = false;
      last_unhandled_exception = none;
      state = starting;
      joinable = spawned;
    },
    true,
  )

  -- The locked parts of `joinFinishedThread` and `joinThread`: the flag tells whether there is a
  -- thread to join.
  unfoldable pub take_finished : Worker E → Worker E × Bool
  take_finished w =
      if is_stopped w.state && w.joinable then (record w { joinable = false }, true) else (w, false)

  unfoldable pub take_thread : Worker E → Worker E × Bool
  take_thread w = if w.joinable then (record w { joinable = false }, true) else (w, false)

  unfoldable pub get_state : Worker E → State
  get_state w = w.state

  unfoldable pub is_running : Worker E → Bool
  unfolding get_state
  is_running w = elim (get_state w) [ starting ↦ true | running ↦ true | _ ↦ false ]

  unfoldable pub has_stopped : Worker E → Bool
  unfolding get_state
  has_stopped w = is_stopped (get_state w)

  unfoldable pub continue_running : Worker E → Bool
  continue_running w = not w.stop_requested

  -- One step of `threadRunner`.
  unfoldable pub thread_step : Choice E → Pc E → Worker E → Pc E × Worker E
  unfolding set_state continue_running
  thread_step completes pre_run w = (check, w)
  thread_step refuses pre_run w = (finish, w)
  thread_step (raises e) pre_run w = (caught e, w)
  thread_step c check w = (if continue_running w then enter else finish, w)
  thread_step c enter w = (body, set_state running w)
  thread_step (raises e) body w = (caught e, w)
  thread_step _ body w = (finish, w)
  thread_step c (caught e) w = (finish, record w { last_unhandled_exception = some e })
  thread_step c finish w = (exited, set_state stopped w)
  thread_step c exited w = (exited, w)
