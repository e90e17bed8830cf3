-- ===== src/Platform/Mutation.antt =====
-- `Mutating` of internal/platform/httpx/middleware_mutation.go: a route that changes state runs once
-- for each idempotency key of a caller_name. A problem document is kept as its status.
pub mod Replays
mod Tests
use Prim.Native.String.{◌++◌ as concat}
use binno_pta_2026_evaluatio.Prelude.{
  ℕ, suc, ◌+◌, ◌^◌, ◌≡◌, Bool, true, false, not, ◌&&◌, Option, none, some, List, [], ◌∷◌, ◌++◌,
  String, str_eq, if◌then◌else◌, ltb, leb, length, Result, ok, err,
}
use binno_pta_2026_evaluatio.Platform.Redis.{Redis, Response}
use binno_pta_2026_evaluatio.Platform.Idempotency.{
  StoreError, unavailable, Outcome, acquired, replay, in_flight, mismatch, reserve, save_response,
  release,
}

-- The body is the bytes that are read, or none where reading fails.
pub record Request : Type 0 where
  pub subject : String
  pub module_name : String
  pub action : String
  pub key : String
  pub body : Option (List ℕ)

-- `AccessRecord`, as far as the request and its answer determine it.
pub record AccessRecord : Type 0 where
  pub module_name : String
  pub action : String
  pub status : ℕ

-- What the client is sent.
pub data RouteReply : Type 0 where
  problem : ℕ → RouteReply
  answer : Response → RouteReply
  repeated : Response → RouteReply

-- The handler's state, beside Redis and the audit log.
pub record Server (W : Type 0) : Type 0 where
  pub app : W
  pub redis : Redis
  pub audit : List AccessRecord

-- A handler, given the operation key: its response, the state after it, and how long it takes.
abbrev pub Handler : Type 0 → Type 0
Handler W = String → Request → W → Response × W × ℕ

abbrev pub max_fingerprint_body : ℕ
max_fingerprint_body = 2 ^ 20

-- `fingerprintBody`: the fingerprint, or the status of the refusal; `digest` is the printed SHA-256.
pub fingerprint_body : (List ℕ → String) → Option (List ℕ) → Result ℕ String
fingerprint_body digest none = err 400
fingerprint_body digest (some bytes) =
    if ltb max_fingerprint_body (length bytes) then err 413 else ok (digest bytes)

abbrev caller_name : String → String
caller_name subject = if str_eq subject "" then "anonymous" else subject

-- `scopedKey`.
unfoldable pub scoped_key : Request → String
scoped_key q =
    concat (caller_name q.subject)
      (concat ":" (concat q.module_name (concat ":" (concat q.action (concat ":" q.key)))))

abbrev pub is_success : ℕ → Bool
is_success status = leb 200 status && ltb status 300

abbrev pub passed : ℕ → Redis → Redis
passed n r = record r { now = r.now + n }

-- The bookkeeping after the handler; its errors are logged only.
booked : String → Response → Redis → Redis
booked key response r =
    if is_success response.status then (save_response key response r).1 else (release key r).1

abbrev pub status_of : RouteReply → ℕ
status_of (problem status) = status
status_of (answer response) = response.status
status_of (repeated response) = response.status

module _ {W : Type 0} where
  -- The rest of `serveIdempotent` once the key is acquired.
  unfoldable pub run_handler : Handler W → String → Request → Server W → RouteReply × Server W
  unfolding booked
  run_handler h key q s =
      let (response, app, n) = h key q s.app in
      (answer response, record s { app = app; redis = booked key response (passed n s.redis) })

  served :
      Handler W → String → Request → Result StoreError Outcome → Server W → RouteReply × Server W
  served h key q (err unavailable) s = (problem 503, s)
  served h key q (ok acquired) s = run_handler h key q s
  served h key q (ok (replay response)) s = (repeated response, s)
  served h key q (ok in_flight) s = (problem 409, s)
  served h key q (ok mismatch) s = (problem 422, s)

  -- `serveIdempotent`.
  unfoldable pub serve_idempotent :
      Handler W → String → String → Request → Server W → RouteReply × Server W
  unfolding served
  serve_idempotent h key fingerprint q s =
      let (outcome, redis) = reserve key fingerprint s.redis in
      served h key q outcome (record s { redis = redis })

  audited : Request → RouteReply × Server W → RouteReply × Server W
  audited q (reply, s) = (
    reply,
    record s {
      audit =
          s.audit
          ++ (record { module_name = q.module_name; action = q.action; status = status_of reply })
            ∷ [];
    },
  )

  fingerprinted : Handler W → Request → Result ℕ String → Server W → RouteReply × Server W
  fingerprinted h q (err status) s = (problem status, s)
  fingerprinted h q (ok fingerprint) s = serve_idempotent h (scoped_key q) fingerprint q s

  -- `Mutating`, where the route has its support.
  unfoldable pub mutating :
      (List ℕ → String) → Handler W → Request → Server W → RouteReply × Server W
  unfolding fingerprint_body fingerprinted audited
  mutating digest h q s = audited q (
      if str_eq q.key ""
      then (problem 400, s)
      else fingerprinted h q (fingerprint_body digest q.body) s)
