-- ===== src/BaseWorker/Heartbeat.antt =====
-- cBaseWorker_V2.h: the heartbeat. Time points of the steady clock are counted in nanoseconds.
use thread_component.Prelude.{
  ℕ, zero, suc, ◌+◌, ◌-◌, ◌*◌, ◌/◌, ◌%◌, ◌^◌, ◌≤◌, ◌<◌, ◌≡◌, false, arith, leb, if◌then◌else◌,
}
use thread_component.Prelude.Int.{ℤ, pos, negsuc, neg}

abbrev pub ns_per_ms : ℕ
ns_per_ms = 1000000

-- The fields behind `m_heartBeatMutex`; the period is in milliseconds.
pub record Heartbeat : Type 0 where
  pub heart_beat : ℕ
  pub heart_beat_period : ℤ

-- `duration_cast` of a difference of time points, which rounds towards zero.
pub ms_between : ℕ → ℕ → ℤ
ms_between later earlier =
    if leb earlier later
    then pos ((later - earlier) / ns_per_ms)
    else neg ((earlier - later) / ns_per_ms)

-- What the constructor, and `startThread` after it has made its thread, do at time `now`.
unfoldable pub reset_heartbeat : ℕ → Heartbeat
reset_heartbeat now = record { heart_beat = now; heart_beat_period = pos 0 }

pub update_heartbeat : ℕ → Heartbeat → Heartbeat
unfolding ms_between
update_heartbeat heart_beat h = record {
  heart_beat = heart_beat;
  heart_beat_period = ms_between heart_beat h.heart_beat;
}

-- `UpdateHeartBeat`, kept for callers of the older class.
pub update_heart_beat : ℕ → Heartbeat → Heartbeat
unfolding update_heartbeat
update_heart_beat heart_beat h = update_heartbeat heart_beat h

pub last_heartbeat : Heartbeat → ℕ
last_heartbeat h = h.heart_beat

-- The cast of `HeartBeatPeriod` to 64 unsigned bits.
pub to_uint64 : ℤ → ℕ
to_uint64 (pos n) = n % 2 ^ 64
to_uint64 (negsuc n) = 2 ^ 64 - 1 - n % 2 ^ 64

-- The wrapper `HeartBeatPeriod`.
pub period_count : Heartbeat → ℕ
unfolding to_uint64
period_count h = to_uint64 h.heart_beat_period

-- After a beat that is not older than the last, and within 2^64 milliseconds of it, the last beat is
-- the new one, and `HeartBeatPeriod` is the whole milliseconds between the two.
pub period_count-update :
    (t : ℕ) (h : Heartbeat)
    → h.heart_beat ≤ t
    → t - h.heart_beat < 2 ^ 64 * ns_per_ms
    → (last_heartbeat (update_heartbeat t h) ≡ t)
      × (period_count (update_heartbeat t h) * ns_per_ms ≤ t - h.heart_beat)
      × (t - h.heart_beat < (period_count (update_heartbeat t h) + 1) * ns_per_ms)
unfolding last_heartbeat update_heartbeat period_count
period_count-update t h le lt = ground arith

to_uint64-neg : (n : ℕ) → 0 < n → n ≤ 2 ^ 63 → 2 ^ 63 ≤ to_uint64 (neg n)
unfolding to_uint64
to_uint64-neg zero h k = absurd (omega arith)
to_uint64-neg (suc n) h k = omega arith

-- After a beat that is older than the last by a millisecond or more (and by less than 2^63
-- milliseconds), `HeartBeatPeriod` wraps around to 2^63 or more.
pub period_count_wraps :
    (t : ℕ) (h : Heartbeat)
    → t + ns_per_ms ≤ h.heart_beat
    → h.heart_beat - t < 2 ^ 63 * ns_per_ms
    → 2 ^ 63 ≤ period_count (update_heart_beat t h)
unfolding update_heart_beat period_count
period_count_wraps t h le lt =
    let behind : leb h.heart_beat t ≡ false = ground arith in
    rw behind (to_uint64-neg ((h.heart_beat - t) / ns_per_ms) (omega arith) (omega arith))
