-- ===== src/Platform/Mutation/Tests.antt =====
-- Witnesses for the idempotent routes: a handler that counts its runs, and one that refuses.
use binno_pta_2026_evaluatio.Prelude.{ℕ, suc, ◌≡◌, refl, some, [], ◌∷◌, arith}
use binno_pta_2026_evaluatio.Platform.Redis.{empty_redis}
use binno_pta_2026_evaluatio.Platform.Idempotency.{reserve}
use binno_pta_2026_evaluatio.Platform.Mutation.{
  Request, problem, answer, repeated, Server, Handler, serve_idempotent,
}
use binno_pta_2026_evaluatio.Platform.Mutation.Replays.{
  later, serve_idempotent_once, serve_idempotent_during,
}

abbrev counting : Handler ℕ
counting key q n = (record { status = 201; body = key }, suc n, 40)

abbrev refusing : Handler ℕ
refusing key q n = (record { status = 409; body = "no" }, n, 40)

abbrev post : Request
post = record {
  subject = "u1";
  module_name = "orders";
  action = "create";
  key = "k";
  body = some (1 ∷ 2 ∷ []);
}

abbrev server : Server ℕ
server = record { app = 6; redis = empty_redis; audit = [] }

serve_idempotent_once_example :
    let (first, s1) = serve_idempotent counting "k" "f1" post server in
    (first ≡ answer (record { status = 201; body = "k" }))
    × (s1.app ≡ 7)
    × (serve_idempotent counting "k" "f1" post (later 1000 s1)
        ≡ (repeated (record { status = 201; body = "k" }), later 1000 s1))
    × (serve_idempotent counting "k" "f2" post (later 1000 s1) ≡ (problem 422, later 1000 s1))
serve_idempotent_once_example =
    serve_idempotent_once counting "k" "f1" "f2" post post 1000 server refl refl refl refl refl
      (omega arith) (omega arith)

serve_idempotent_during_example :
    let during = later 1000 (record server { redis = (reserve "k" "f1" server.redis).1 }) in
    serve_idempotent counting "k" "f1" post during ≡ (problem 409, during)
serve_idempotent_during_example =
    serve_idempotent_during counting "k" "f1" post 1000 server refl refl refl (omega arith)
