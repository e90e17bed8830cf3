-- ===== src/Platform/Breaker/Tests.antt =====
-- Witnesses for the circuit breaker.
use binno_pta_2026_evaluatio.Prelude.{ℕ, List, ◌≡◌, refl, [], ◌∷◌}
use binno_pta_2026_evaluatio.Platform.Breaker.{Breaker, closed, tripped, new_breaker}

abbrev fresh : Breaker
fresh = record { state = closed; open_until = 0; failures = 0; threshold = 3; cooldown = 10 }

abbrev two_times : List ℕ
two_times = 1 ∷ 2 ∷ []

abbrev cooling : Breaker
cooling = record fresh { state = tripped; open_until = 12 }

fresh-new : new_breaker 3 10 ≡ fresh
unfolding new_breaker
fresh-new = refl
