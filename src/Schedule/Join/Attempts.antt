-- ===== src/Schedule/Join/Attempts.antt =====
-- How often a node tries to join with nobody at its button.
use radio_sensors.Prelude.{
  leb, ltb, ◌&&◌, ℕ, ◌+◌, ◌≤◌, ◌≡◌, Bool, false, List, [], ◌∷◌, arith, if◌then◌else◌, sub32,
  Bool-cases, inl, inr,
}
use radio_sensors.Schedule.Join.{
  JoinRetrySchedule, due, attempted, burst_interval_ms, burst_attempts_limit,
  provisional_interval_ms,
}

-- The node's loop: at each poll it tries when an attempt is due.
pub poll : JoinRetrySchedule → Bool → ℕ → JoinRetrySchedule
poll s provisional now = if due s now provisional then attempted s now false else s

pub attempts : JoinRetrySchedule → Bool → List ℕ → ℕ
attempts s provisional [] = 0
attempts s provisional (now ∷ rest) =
    (if due s now provisional then 1 else 0) + attempts (poll s provisional now) provisional rest

-- A schedule that has made no attempt, or at most twelve of a burst.
pub record IsWithin (s : JoinRetrySchedule) : Type 0 where
  pub limit : s.burst_attempts ≤ burst_attempts_limit
  pub fresh : s.attempted_once ≡ false → s.burst_attempts ≡ 0

pub attempted-IsWithin :
    (s : JoinRetrySchedule) (now : ℕ) (button : Bool)
    → IsWithin s
    → IsWithin (attempted s now button)
unfolding attempted
attempted-IsWithin s now button v = record { limit = ground arith; fresh = λ e. cc }

poll-IsWithin :
    (s : JoinRetrySchedule) (provisional : Bool) (now : ℕ)
    → IsWithin s
    → IsWithin (poll s provisional now)
unfolding poll
poll-IsWithin s provisional now v = elim (Bool-cases (due s now provisional)) [
  | inl e ↦ rw e (attempted-IsWithin s now false v)
  | inr e ↦ rw e v
]

poll_counts :
    (s : JoinRetrySchedule) (now : ℕ)
    → IsWithin s
    → (if due s now false then 1 else 0) + s.burst_attempts ≡ (poll s false now).burst_attempts
unfolding poll due attempted
poll_counts s now v = ground (arith, v.fresh)

-- An unconfigured node makes at most the rest of its twelve attempts, however long it is polled,
-- until somebody presses the button.
pub attempts-le-burst :
    (s : JoinRetrySchedule) (polls : List ℕ)
    → IsWithin s
    → attempts s false polls + s.burst_attempts ≤ burst_attempts_limit
unfolding attempts
attempts-le-burst s [] v = omega (arith, v.limit)
attempts-le-burst s (now ∷ rest) v = omega (
  arith,
  poll_counts s now v,
  attempts-le-burst (poll s false now) rest (poll-IsWithin s false now v),
)

-- After an attempt the next one waits five minutes while the burst lasts; after the burst, a
-- provisional node waits an hour and an unconfigured one for its button.
pub due-attempted :
    (s : JoinRetrySchedule) (at now : ℕ) (button provisional : Bool)
    → due (attempted s at button) now provisional ≡ (
        if ltb (if button then 1 else s.burst_attempts + 1) burst_attempts_limit
        then leb burst_interval_ms (sub32 now at)
        else provisional && leb provisional_interval_ms (sub32 now at))
unfolding due attempted
due-attempted s at now button provisional = ground arith
