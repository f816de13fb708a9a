-- ===== src/Schedule/Retry/Delays.antt =====
-- The delays between attempts while the gateway is silent.
use Prim.Native.Nat.{min}
use radio_sensors.Prelude.{
  ℕ, zero, suc, ◌+◌, ◌≤◌, ◌<◌, ◌≡◌, refl, Bool, true, false, ◌&&◌, ◌⊎◌, inr, List, [], ◌∷◌, arith,
  leb, ◌==◌, if◌then◌else◌, sub32, All, ap, ◌∙◌, length,
}
use radio_sensors.Schedule.Retry.{
  RadioRetryBackoff, new_backoff, allowed, failed, delays, silent_day_ms, silent_day_delay_ms,
  HintedSessionPolicy, session_allowed, session_finished, minimum_interval_ms, last_level,
}

-- While it waits, the delay is that of the level, or an hour after a silent day.
pub record IsPaced (b : RadioRetryBackoff) : Type 0 where
  pub level_le : b.failure_level ≤ last_level
  pub paced :
      (b.waiting ≡ false)
      ⊎ (b.delay_ms ≡ (if b.silent_for_day then silent_day_delay_ms else delays b.failure_level))

delays_bounds : (n : ℕ) → (60000 ≤ delays n) × (delays n ≤ 900000) × (delays n ≤ delays (suc n))
delays_bounds zero = omega arith
delays_bounds (suc zero) = omega arith
delays_bounds (suc (suc n)) = omega arith

pub new_backoff-IsPaced : (enabled : Bool) → IsPaced (new_backoff enabled)
unfolding new_backoff
new_backoff-IsPaced enabled = ground arith

pub failed-IsPaced : (b : RadioRetryBackoff) (now : ℕ) → IsPaced b → IsPaced (failed b now)
unfolding failed
failed-IsPaced b now v = record { level_le = ground arith; paced = inr refl }

-- A failure delays the next attempt by a minute at least and an hour at most, and by no less than
-- the failure before it in the same outage; the attempt is allowed when that delay is over.
pub failed_delay :
    (b : RadioRetryBackoff) (at now : ℕ)
    → IsPaced b
    → b.enabled ≡ true
    → let f = failed b at in
      (60000 ≤ f.delay_ms)
      × (f.delay_ms ≤ silent_day_delay_ms)
      × ((if b.waiting then b.delay_ms else 0) ≤ f.delay_ms)
      × (allowed f now ≡ leb f.delay_ms (sub32 now at))
unfolding failed allowed
failed_delay b at now v e =
    ground
      (arith, delays_bounds b.failure_level, delays_bounds (b.failure_level + 1), delays_bounds 0)

-- The failures of an outage, in order.
pub outage : RadioRetryBackoff → List ℕ → RadioRetryBackoff
outage b [] = b
outage b (now ∷ rest) = outage (failed b now) rest

-- A later failure of an outage, within a day of its first.
failed_early :
    (b : RadioRetryBackoff) (now : ℕ)
    → b.waiting ≡ true
    → b.silent_for_day ≡ false
    → b.failure_level ≤ last_level
    → sub32 now b.first_failed_at < silent_day_ms
    → let f = failed b now in
      (f.waiting ≡ true)
      × (f.silent_for_day ≡ false)
      × (f.failure_level ≡ min last_level (b.failure_level + 1))
      × (f.delay_ms ≡ delays f.failure_level)
      × (f.first_failed_at ≡ b.first_failed_at)
unfolding failed
failed_early b now w s l h = ground arith

outage_early :
    (b : RadioRetryBackoff) (rest : List ℕ)
    → b.waiting ≡ true
    → b.silent_for_day ≡ false
    → b.failure_level ≤ last_level
    → b.delay_ms ≡ delays b.failure_level
    → All (λ t. sub32 t b.first_failed_at < silent_day_ms) rest
    → (outage b rest).delay_ms ≡ delays (min last_level (b.failure_level + length rest))
unfolding outage
outage_early b [] w s l d h = d ∙ ap delays (omega arith)
outage_early b (now ∷ rest) w s l d h =
    let f = failed_early b now w s l h.0 in
    outage_early (failed b now) rest f.0 f.1 (omega (arith, f.2)) f.3 (rw f.4 h.1)
    ∙ ap delays (omega (arith, f.2))

delays-min :
    (n : ℕ)
    → delays (min last_level n) ≡ (if n == 0 then 60000 else if n == 1 then 300000 else 900000)
delays-min zero = refl
delays-min (suc zero) = refl
delays-min (suc (suc n)) =
    let top : min last_level (suc (suc n)) ≡ last_level = omega arith in rw top (ground arith)

-- In an outage that begins at `start`, the delays of the failures within the next day are one
-- minute, five minutes, and then fifteen minutes each.
pub delay-outage :
    (b : RadioRetryBackoff) (start : ℕ) (rest : List ℕ)
    → b.waiting ≡ false
    → All (λ t. sub32 t start < silent_day_ms) rest
    → (outage b (start ∷ rest)).delay_ms
      ≡ (if length rest == 0 then 60000 else if length rest == 1 then 300000 else 900000)
unfolding outage failed
delay-outage b start rest w h =
    outage_early (failed b start) rest (ground arith) (ground arith) (ground arith) (ground arith)
      (rw first_set h)
    ∙ ap delays (ground arith)
    ∙ delays-min (length rest)
  where
    first_set : (failed b start).first_failed_at ≡ start
    first_set = ground arith

outage_latched :
    (b : RadioRetryBackoff) (rest : List ℕ)
    → b.waiting ≡ true
    → b.silent_for_day ≡ true
    → b.delay_ms ≡ silent_day_delay_ms
    → (outage b rest).delay_ms ≡ silent_day_delay_ms
unfolding outage failed
outage_latched b [] w s d = d
outage_latched b (now ∷ rest) w s d =
    outage_latched (failed b now) rest (ground arith) (ground arith) (ground arith)

-- Once a failure comes a day after the first of its outage, the delay is an hour, and it stays an
-- hour at every later failure of the outage, also when the elapsed time wraps.
pub delay-outage_silent :
    (b : RadioRetryBackoff) (now : ℕ) (rest : List ℕ)
    → b.waiting ≡ true
    → silent_day_ms ≤ sub32 now b.first_failed_at
    → (outage b (now ∷ rest)).delay_ms ≡ silent_day_delay_ms
unfolding outage failed
delay-outage_silent b now rest w h =
    outage_latched (failed b now) rest (ground arith) (ground arith) (ground arith)

-- A hinted session is allowed after another exactly when five minutes are over and, where the
-- gateway did not answer, the delay of that failure too.
pub session_allowed-finished :
    (p : HintedSessionPolicy) (at now : ℕ) (answered : Bool)
    → p.unanswered.enabled ≡ true
    → session_allowed (session_finished p at answered) now
      ≡ leb minimum_interval_ms (sub32 now at)
        && (if answered then true else leb (failed p.unanswered at).delay_ms (sub32 now at))
unfolding session_allowed session_finished
session_allowed-finished p at now true e = ground arith
session_allowed-finished p at now false e = ground arith
