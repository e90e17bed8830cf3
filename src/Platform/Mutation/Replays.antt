-- ===== src/Platform/Mutation/Replays.antt =====
-- How often a handler behind middleware_mutation.go runs.
use text.Mathlib.TextPositions.{eq_refl}
use binno_pta_2026_evaluatio.Prelude.{
  ℕ, ◌+◌, ◌<◌, ◌≡◌, sym, true, false, none, [], String, str_eq, arith,
}
use binno_pta_2026_evaluatio.Platform.Redis.{command, get_key}
use binno_pta_2026_evaluatio.Platform.Idempotency.{
  reserve, save_response, release, response_ttl, reservation_ttl, legacy_fingerprint,
}
use binno_pta_2026_evaluatio.Platform.Mutation.{
  Request, problem, answer, repeated, Server, Handler, is_success, serve_idempotent, served,
  run_handler, booked, passed,
}

abbrev pub later : {W : Type 0} → ℕ → Server W → Server W
later n s = record s { redis = passed n s.redis }

module _ {W : Type 0} (h : Handler W) (key : String) where
  -- A key that no request holds is acquired.
  serve-free :
      (fingerprint : String) (q : Request) (s : Server W)
      → s.redis.outages ≡ []
      → get_key s.redis.now key s.redis.reservations ≡ none
      → ((serve_idempotent h key fingerprint q s).0 ≡ answer (h key q s.app).0)
        × ((serve_idempotent h key fingerprint q s).1.app ≡ (h key q s.app).1)
  unfolding serve_idempotent served run_handler reserve command
  serve-free fingerprint q s up free = (ground (arith, free), ground (arith, free))

  -- A first request that succeeded, its answer, and the same request again.
  serve-again :
      (fingerprint : String) (q again : Request) (elapsed : ℕ) (s : Server W)
      → s.redis.outages ≡ []
      → get_key s.redis.now key s.redis.reservations ≡ none
      → is_success (h key q s.app).0.status ≡ true
      → (h key q s.app).2 < reservation_ttl
      → elapsed < response_ttl
      → let s1 = later elapsed (serve_idempotent h key fingerprint q s).1 in
        serve_idempotent h key fingerprint again s1 ≡ (repeated (h key q s.app).0, s1)
  unfolding serve_idempotent served run_handler booked reserve save_response command
  serve-again fingerprint q again elapsed s up free fine quick soon =
      ground (arith, free, fine, eq_refl key, eq_refl fingerprint)

  -- Another body under the key of a request that succeeded.
  serve-other :
      (fingerprint other : String) (q again : Request) (elapsed : ℕ) (s : Server W)
      → s.redis.outages ≡ []
      → get_key s.redis.now key s.redis.reservations ≡ none
      → is_success (h key q s.app).0.status ≡ true
      → (h key q s.app).2 < reservation_ttl
      → elapsed < response_ttl
      → str_eq fingerprint legacy_fingerprint ≡ false
      → str_eq fingerprint other ≡ false
      → let s1 = later elapsed (serve_idempotent h key fingerprint q s).1 in
        serve_idempotent h key other again s1 ≡ (problem 422, s1)
  unfolding serve_idempotent served run_handler booked reserve save_response command
  serve-other fingerprint other q again elapsed s up free fine quick soon modern differ =
      ground (arith, free, fine, eq_refl key, modern, differ)

  -- A request that failed frees its key.
  serve-failed :
      (fingerprint other : String) (q again : Request) (elapsed : ℕ) (s : Server W)
      → s.redis.outages ≡ []
      → get_key s.redis.now key s.redis.reservations ≡ none
      → is_success (h key q s.app).0.status ≡ false
      → let s1 = later elapsed (serve_idempotent h key fingerprint q s).1 in
        (s1.app ≡ (h key q s.app).1)
        × (get_key s1.redis.now key s1.redis.reservations ≡ none)
        × (s1.redis.outages ≡ [])
  unfolding serve_idempotent served run_handler booked reserve release command
  serve-failed fingerprint other q again elapsed s up free bad =
      (ground (arith, free, bad), ground (arith, free, bad, eq_refl key), ground (arith, free, bad))

  -- While the handler of the first request runs.
  serve-during :
      (fingerprint : String) (again : Request) (elapsed : ℕ) (s : Server W)
      → s.redis.outages ≡ []
      → get_key s.redis.now key s.redis.reservations ≡ none
      → get_key (s.redis.now + elapsed) key s.redis.responses ≡ none
      → elapsed < reservation_ttl
      → let s1 = later elapsed (record s { redis = (reserve key fingerprint s.redis).1 }) in
        serve_idempotent h key fingerprint again s1 ≡ (problem 409, s1)
  unfolding serve_idempotent served reserve command
  serve-during fingerprint again elapsed s up free fresh quick =
      ground (arith, free, fresh, eq_refl key, eq_refl fingerprint)

-- With Redis reachable, and a first request under a free key that succeeds within five minutes: for a
-- day the same body under the key is answered by its response, and another body by 422, and
-- neither runs the handler or changes anything.
pub serve_idempotent_once :
    {W : Type 0} (h : Handler W) (key fingerprint other : String) (q again : Request) (elapsed : ℕ)
    (s : Server W)
    → s.redis.outages ≡ []
    → get_key s.redis.now key s.redis.reservations ≡ none
    → str_eq fingerprint legacy_fingerprint ≡ false
    → str_eq fingerprint other ≡ false
    → is_success (h key q s.app).0.status ≡ true
    → (h key q s.app).2 < reservation_ttl
    → elapsed < response_ttl
    → let (response, app, took) = h key q s.app in
      let (first, s1) = serve_idempotent h key fingerprint q s in
      (first ≡ answer response)
      × (s1.app ≡ app)
      × (serve_idempotent h key fingerprint again (later elapsed s1)
          ≡ (repeated response, later elapsed s1))
      × (serve_idempotent h key other again (later elapsed s1) ≡ (problem 422, later elapsed s1))
serve_idempotent_once h key fingerprint other q again elapsed s up free modern differ fine quick
      soon =
    let (first, app) = serve-free h key fingerprint q s up free in
    (
      first,
      app,
      serve-again h key fingerprint q again elapsed s up free fine quick soon,
      serve-other h key fingerprint other q again elapsed s up free fine quick soon modern differ,
    )

-- With Redis reachable, and a first request under a free key with no response kept for it: while its
-- handler runs, for up to five minutes, the same request is refused by 409 and changes nothing.
pub serve_idempotent_during :
    {W : Type 0} (h : Handler W) (key fingerprint : String) (again : Request) (elapsed : ℕ)
    (s : Server W)
    → s.redis.outages ≡ []
    → get_key s.redis.now key s.redis.reservations ≡ none
    → get_key (s.redis.now + elapsed) key s.redis.responses ≡ none
    → elapsed < reservation_ttl
    → let during = later elapsed (record s { redis = (reserve key fingerprint s.redis).1 }) in
      serve_idempotent h key fingerprint again during ≡ (problem 409, during)
serve_idempotent_during h key fingerprint again elapsed s up free fresh quick =
    serve-during h key fingerprint again elapsed s up free fresh quick

-- With Redis reachable: a first request under a free key that fails leaves the key free, so that the
-- next request under it, with any body, runs the handler on the state that the first one left.
pub serve_idempotent_retry :
    {W : Type 0} (h : Handler W) (key fingerprint other : String) (q again : Request) (elapsed : ℕ)
    (s : Server W)
    → s.redis.outages ≡ []
    → get_key s.redis.now key s.redis.reservations ≡ none
    → is_success (h key q s.app).0.status ≡ false
    → let (response, app, took) = h key q s.app in
      let (first, s1) = serve_idempotent h key fingerprint q s in
      (first ≡ answer response)
      × ((serve_idempotent h key other again (later elapsed s1)).0 ≡ answer (h key again app).0)
      × ((serve_idempotent h key other again (later elapsed s1)).1.app ≡ (h key again app).1)
serve_idempotent_retry h key fingerprint other q again elapsed s up free bad =
    let (first, app) = serve-free h key fingerprint q s up free in
    let (kept, gone, quiet) = serve-failed h key fingerprint other q again elapsed s up free bad in
    let s1 : Server _ = later elapsed (serve_idempotent h key fingerprint q s).1 in
    let (second, app2) = serve-free h key other again s1 quiet gone in
    (first, rw (sym kept) second, rw (sym kept) app2)
