-- ===== src/Platform/Idempotency.antt =====
-- internal/platform/cache/idempotency/idempotency.go: the reservations of idempotency keys and the
-- responses kept for them. A kept response stands as it is: its JSON is not modelled.
use binno_pta_2026_evaluatio.Prelude.{
  ℕ, ◌+◌, ◌*◌, Bool, true, false, not, ◌&&◌, Option, none, some, String, str_eq,
}
use binno_pta_2026_evaluatio.Platform.Io.{Io, done, ◌>>=◌, ◌>>◌}
use binno_pta_2026_evaluatio.Platform.Redis.{
  Redis, Response, Keys, get_key, set_key, del_key, command,
}

abbrev pub response_ttl : ℕ
response_ttl = 24 * 60 * 60 * 1000000000

abbrev pub reservation_ttl : ℕ
reservation_ttl = 5 * 60 * 1000000000

-- `ErrUnavailable`.
pub data StoreError : Type 0 where
  unavailable : StoreError

pub data Outcome : Type 0 where
  acquired : Outcome
  replay : Response → Outcome
  in_flight mismatch : Outcome

abbrev pub legacy_fingerprint : String
legacy_fingerprint = "1"

abbrev take_key : String → String → Redis → Bool × Redis
take_key key fingerprint r = elim (get_key r.now key r.reservations) [
  | some _ ↦ (false, r)
  | none ↦ (
    true,
    record r {
      reservations = set_key key fingerprint (some (r.now + reservation_ttl)) r.reservations;
    },
  )
]

abbrev outcome_of : Option Response → Outcome
outcome_of none = in_flight
outcome_of (some response) = replay response

compared : String → String → Option String → Io Redis StoreError Outcome
compared key fingerprint none = done in_flight
compared key fingerprint (some seen) =
    elim (not (str_eq seen legacy_fingerprint) && not (str_eq seen fingerprint)) [
      | true ↦ done mismatch
      | false ↦ command unavailable (λ r. (outcome_of (get_key r.now key r.responses), r))
    ]

reserved : String → String → Bool → Io Redis StoreError Outcome
unfolding compared
reserved key fingerprint true = done acquired
reserved key fingerprint false = do
  seen ← command unavailable (λ r. (get_key r.now key r.reservations, r))
  compared key fingerprint seen

-- `Reserve`.
unfoldable pub reserve : String → String → Io Redis StoreError Outcome
unfolding reserved
reserve key fingerprint = do
  taken ← command unavailable (take_key key fingerprint)
  reserved key fingerprint taken

-- `EXPIRE` of a key that is there.
abbrev prolonged : String → ℕ → Option String → Keys String → Keys String
prolonged key until none f = f
prolonged key until (some v) f = set_key key v (some until) f

-- `SaveResponse`.
unfoldable pub save_response : String → Response → Io Redis StoreError (Unit {0})
save_response key response = do
  command unavailable (λ r.
      (tt, record r { responses = set_key key response (some (r.now + response_ttl)) r.responses }))
  command unavailable (λ r. (
    tt,
    record r {
      reservations =
          prolonged key (r.now + response_ttl) (get_key r.now key r.reservations) r.reservations;
    },
  ))

-- `Release`.
unfoldable pub release : String → Io Redis StoreError (Unit {0})
release key = command unavailable λ r. (tt, record r { reservations = del_key key r.reservations })
