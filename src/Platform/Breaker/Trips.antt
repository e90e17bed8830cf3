-- ===== src/Platform/Breaker/Trips.antt =====
-- When the breaker of internal/platform/cache/redisx/breaker.go opens, and whom it lets through.
use binno_pta_2026_evaluatio.Prelude.{
  ℕ, suc, ◌+◌, ◌≤◌, ◌<◌, ◌≡◌, refl, true, false, List, [], ◌∷◌, length, map, arith,
}
use binno_pta_2026_evaluatio.Platform.Breaker.{
  Breaker, closed, tripped, half_open, allow, succeed, fail, trip, record_outcome, Event, asked,
  ended, step, run,
}

-- The count stays below the threshold, so that it never comes near the end of an int64.
abbrev pub IsBounded : Breaker → Type 0
IsBounded b = b.failures < b.threshold

step-IsBounded : (e : Event) (b : Breaker) → IsBounded b → IsBounded (step e b)
unfolding step allow fail succeed trip record_outcome
step-IsBounded (asked now) b h = ground arith
step-IsBounded (ended now unavailable) b h = ground arith

-- However calls overlap and end, a count of failures below the threshold stays below it.
pub run-IsBounded : (es : List Event) (b : Breaker) → IsBounded b → IsBounded (run es b)
unfolding run
run-IsBounded [] b h = h
run-IsBounded (e ∷ es) b h = run-IsBounded es (step e b) (step-IsBounded e b h)

-- Calls that fail one after another.
abbrev pub fail_all : List ℕ → Breaker → Breaker
fail_all [] b = b
fail_all (now ∷ times) b = fail_all times (fail now b)

fail_below :
    (now : ℕ) (b : Breaker)
    → b.state ≡ closed
    → suc b.failures < b.threshold
    → fail now b ≡ record b { failures = suc b.failures }
unfolding fail
fail_below now b shut h = ground arith

fail_last :
    (now : ℕ) (b : Breaker)
    → b.state ≡ closed
    → suc b.failures ≡ b.threshold
    → fail now b ≡ trip now b
unfolding fail
fail_last now b shut h = ground arith

fail_all_below :
    (times : List ℕ) (b : Breaker)
    → b.state ≡ closed
    → b.failures + length times < b.threshold
    → fail_all times b ≡ record b { failures = b.failures + length times }
fail_all_below [] b shut h = ground arith
fail_all_below (now ∷ times) b shut h = rw (fail_below now b shut (omega (arith, h))) (
    grind (
      arith,
      fail_all_below times (record b { failures = suc b.failures }) shut (omega (arith, h)),
    ))

-- A closed breaker stays closed for as many failures in a row as leave the count below the
-- threshold; the one that reaches the threshold opens it for the cooldown, and until that is over
-- no call is let through.
pub fail_all_lem :
    (times : List ℕ) (last now : ℕ) (b : Breaker)
    → b.state ≡ closed
    → suc (b.failures + length times) ≡ b.threshold
    → now < last + b.cooldown
    → (fail_all times b ≡ record b { failures = b.failures + length times })
      × (fail last (fail_all times b) ≡ trip last b)
      × (allow now (fail last (fail_all times b)) ≡ (false, trip last b))
unfolding trip allow
fail_all_lem times last now b shut h early =
    let before = fail_all_below times b shut (omega (arith, h)) in
    let opened : fail last (fail_all times b) ≡ trip last b =
      rw before (fail_last last (record b { failures = b.failures + length times }) shut h) in
    (before, opened, rw opened (ground (arith, early)))

-- An open breaker lets one call through when its cooldown is over, and no other one, whenever it
-- asks, until a call ends.
pub single_probe :
    (now : ℕ) (later : List ℕ) (b : Breaker)
    → b.state ≡ tripped
    → b.open_until ≤ now
    → (allow now b ≡ (true, record b { state = half_open }))
      × (run (map asked later) (record b { state = half_open }) ≡ record b { state = half_open })
unfolding allow run step
single_probe now [] b isopen due = (ground arith, refl)
single_probe now (t ∷ later) b isopen due = (ground arith, (single_probe now later b isopen due).1)
