-- ===== src/Platform/Redis.antt =====
-- The Redis commands that internal/platform/cache calls: each family of keys, told apart by its
-- prefix, is a map of its own, and an entry counts until its expiry.
use binno_pta_2026_evaluatio.Prelude.{
  ℕ, suc, Bool, true, false, Option, none, some, List, [], ◌∷◌, String, str_eq, if◌then◌else◌, ltb,
  ok, err,
}
use binno_pta_2026_evaluatio.Platform.Io.{Io}

pub record Stored (A : Type 0) : Type 0 where
  pub value : A
  pub expires_at : Option ℕ

-- `StoredResponse` of the idempotency store.
pub record Response : Type 0 where
  pub status : ℕ
  pub body : String

abbrev pub Keys : Type 0 → Type 0
Keys A = String → Option (Stored A)

-- `outages` says of the commands to come whether they fail; beyond its end they go through.
pub record Redis : Type 0 where
  pub now : ℕ
  pub outages : List Bool
  pub codes : Keys String
  pub attempts : Keys ℕ
  pub cooldowns : Keys (Unit {0})
  pub reservations : Keys String
  pub responses : Keys Response
  pub windows : Keys ℕ

abbrev pub has_time : ℕ → Option ℕ → Bool
has_time now none = true
has_time now (some t) = ltb now t

module _ {A : Type 0} where
  abbrev pub live_value : ℕ → Option (Stored A) → Option A
  live_value now none = none
  live_value now (some e) = if has_time now e.expires_at then some e.value else none

  -- `GET`.
  abbrev pub get_key : ℕ → String → Keys A → Option A
  get_key now k f = live_value now (f k)

  -- `SET` and `DEL`.
  abbrev pub set_key : String → A → Option ℕ → Keys A → Keys A
  set_key k v expires_at f j =
      if str_eq k j then some (record { value = v; expires_at = expires_at }) else f j

  abbrev pub del_key : String → Keys A → Keys A
  del_key k f j = if str_eq k j then none else f j

  abbrev expiry_of : ℕ → Option (Stored A) → Option ℕ
  expiry_of now none = none
  expiry_of now (some e) = if has_time now e.expires_at then e.expires_at else none

  -- The expiry that `INCR` keeps: none for a key that it creates.
  abbrev pub kept_expiry : ℕ → String → Keys A → Option ℕ
  kept_expiry now k f = expiry_of now (f k)

abbrev next_count : Option ℕ → ℕ
next_count none = 1
next_count (some n) = suc n

-- `INCR`: what it answers.
abbrev pub incr_count : ℕ → String → Keys ℕ → ℕ
incr_count now k f = next_count (get_key now k f)

abbrev answered : {E A : Type 0} → E → List Bool → (Redis → A × Redis) → Io Redis E A
answered e [] f r = let (a, r') = f r in (ok a, r')
answered e (false ∷ rest) f r = let (a, r') = f (record r { outages = rest }) in (ok a, r')
answered e (true ∷ rest) f r = (err e, record r { outages = rest })

-- One command, or its failure, which changes no key.
unfoldable pub command : {E A : Type 0} → E → (Redis → A × Redis) → Io Redis E A
command e f r = answered e r.outages f r

-- A store with no keys.
abbrev pub empty_redis : Redis
empty_redis = record {
  now = 0;
  outages = [];
  codes = λ _. none;
  attempts = λ _. none;
  cooldowns = λ _. none;
  reservations = λ _. none;
  responses = λ _. none;
  windows = λ _. none;
}
