-- ===== src/Platform/Breaker.antt =====
-- internal/platform/cache/redisx/breaker.go: the circuit breaker in front of Redis. Instants are
-- nanoseconds; each atomic access is a step of its own in the code, and here each operation is one.
pub mod Trips
mod Tests
use binno_pta_2026_evaluatio.Prelude.{
  ℕ, suc, ◌+◌, ◌*◌, Bool, true, false, List, [], ◌∷◌, ltb, leb, ◌==◌, if◌then◌else◌,
}

-- `breakerClosed`, `breakerOpen` and `breakerHalfOpen`.
pub data BreakerState : Type 0 where
  closed tripped half_open : BreakerState

pub record Breaker : Type 0 where
  pub state : BreakerState
  pub open_until : ℕ
  pub failures : ℕ
  pub threshold : ℕ
  pub cooldown : ℕ

abbrev pub default_failure_threshold : ℕ
default_failure_threshold = 5

abbrev pub default_cooldown : ℕ
default_cooldown = 2 * 1000000000

-- `newBreaker`; a setting below zero is 0 here, which the source treats alike.
unfoldable pub new_breaker : ℕ → ℕ → Breaker
new_breaker threshold cooldown = record {
  state = closed;
  open_until = 0;
  failures = 0;
  threshold = if threshold == 0 then default_failure_threshold else threshold;
  cooldown = if cooldown == 0 then default_cooldown else cooldown;
}

allow_in : BreakerState → ℕ → Breaker → Bool × Breaker
allow_in closed now b = (true, b)
allow_in tripped now b =
    if ltb now b.open_until then (false, b) else (true, record b { state = half_open })
allow_in half_open now b = (false, b)

-- `allow`.
unfoldable pub allow : ℕ → Breaker → Bool × Breaker
unfolding allow_in
allow now b = allow_in b.state now b

-- `succeed`.
unfoldable pub succeed : Breaker → Breaker
succeed b = record b { failures = 0; state = closed }

-- `trip`.
unfoldable pub trip : ℕ → Breaker → Breaker
trip now b = record b { open_until = now + b.cooldown; failures = 0; state = tripped }

count_failure : ℕ → Breaker → Breaker
unfolding trip
count_failure now b =
    if leb b.threshold (suc b.failures) then trip now b else record b { failures = suc b.failures }

fail_in : BreakerState → ℕ → Breaker → Breaker
unfolding count_failure
fail_in half_open now b = trip now b
fail_in closed now b = count_failure now b
fail_in tripped now b = count_failure now b

-- `fail`.
unfoldable pub fail : ℕ → Breaker → Breaker
unfolding fail_in
fail now b = fail_in b.state now b

-- `record` of the hook: how a call ended, and whether Redis was unavailable to it.
unfoldable pub record_outcome : ℕ → Bool → Breaker → Breaker
unfolding fail succeed
record_outcome now true b = fail now b
record_outcome now false b = succeed b

-- What calls do to the breaker: one asks to be let through, and one that was ends. Calls overlap.
pub data Event : Type 0 where
  asked : ℕ → Event
  ended : ℕ → Bool → Event

unfoldable pub step : Event → Breaker → Breaker
step (asked now) b = (allow now b).1
step (ended now unavailable) b = record_outcome now unavailable b

unfoldable pub run : List Event → Breaker → Breaker
unfolding step
run [] b = b
run (e ∷ es) b = run es (step e b)
