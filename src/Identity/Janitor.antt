-- ===== src/Identity/Janitor.antt =====
-- internal/modules/identity/janitor.go: refresh tokens past their expiry are deleted in batches, with
-- the statement of store/queries.sql.go.
pub mod Pruning
use binno_pta_2026_evaluatio.Prelude.{
  ℕ, zero, suc, ◌+◌, ◌-◌, ◌≤◌, ◌<◌, ◌≡◌, ◌≢◌, refl, sym, ap, ◌∙◌, Bool, true, false, not, ◌&&◌,
  Option, none, some, List, [], ◌∷◌, map, if◌then◌else◌, ltb, leb, ◌==◌, Result, ok, err,
}
use binno_pta_2026_evaluatio.Platform.Io.{Io}
use binno_pta_2026_evaluatio.Identity.Tables.{RefreshToken, IdentityError, Accounts, statement}

abbrev pub is_expired : ℕ → RefreshToken → Bool
is_expired cutoff t = ltb t.expires_at cutoff

abbrev earlier : RefreshToken → Option RefreshToken → RefreshToken
earlier t none = t
earlier t (some u) = if leb t.expires_at u.expires_at then t else u

-- The expired row that comes first by `expires_at`.
first_expired : ℕ → List RefreshToken → Option RefreshToken
first_expired cutoff [] = none
first_expired cutoff (t ∷ ts) =
    let rest = first_expired cutoff ts in
    if is_expired cutoff t then some (earlier t rest) else rest

abbrev is_picked : ℕ → ℕ → RefreshToken → Bool
is_picked cutoff id t = (t.id == id) && is_expired cutoff t

without : ℕ → ℕ → List RefreshToken → List RefreshToken
without cutoff id [] = []
without cutoff id (t ∷ ts) = if is_picked cutoff id t then ts else t ∷ without cutoff id ts

abbrev parent_unless : ℕ → Option ℕ → Option ℕ
parent_unless id none = none
parent_unless id (some from) = if from == id then none else some from

-- `ON DELETE SET NULL` of the table.
abbrev orphaned : ℕ → RefreshToken → RefreshToken
orphaned id t = record t { rotated_from = parent_unless id t.rotated_from }

deleted : ℕ → Option RefreshToken → List RefreshToken → List RefreshToken
unfolding without
deleted cutoff none ts = ts
deleted cutoff (some t) ts = map (orphaned t.id) (without cutoff t.id ts)

abbrev hit : Option RefreshToken → ℕ
hit none = 0
hit (some _) = 1

-- The rows that are left and how many are gone, with `LIMIT n`.
delete_expired : ℕ → ℕ → List RefreshToken → ℕ × List RefreshToken
unfolding first_expired deleted
delete_expired cutoff zero ts = (0, ts)
delete_expired cutoff (suc n) ts =
    let first = first_expired cutoff ts in
    let (removed, rest) = delete_expired cutoff n (deleted cutoff first ts) in
    (hit first + removed, rest)

-- `PruneExpiredSessions`.
unfoldable pub prune_expired_sessions : ℕ → ℕ → Io Accounts IdentityError ℕ
unfolding delete_expired
prune_expired_sessions cutoff batch = statement λ s.
    let (removed, rest) = delete_expired cutoff batch s.tokens in
    (ok removed, record s { tokens = rest })

-- The batch that `NewJanitor` settles on.
abbrev pub janitor_batch : ℕ → ℕ
janitor_batch batch = if batch == 0 then 1000 else batch

-- How `RunOnce` ends: the rows it removed, and its error.
pub record Pruned : Type 0 where
  pub removed : ℕ
  pub failure : Option IdentityError

-- One round of the loop of `RunOnce`, with the rounds to come.
after_round :
    (ℕ → Accounts → Option (Pruned × Accounts))
    → ℕ
    → ℕ
    → Result IdentityError ℕ × Accounts
    → Option (Pruned × Accounts)
after_round again batch pruned (err e, s) = some (record { removed = pruned; failure = some e }, s)
after_round again batch pruned (ok n, s) = elim (ltb n batch) [
  | true ↦ some (record { removed = pruned + n; failure = none }, s)
  | false ↦ again (pruned + n) s
]

-- The loop of `RunOnce`, on fuel.
unfoldable pub run_rounds : ℕ → ℕ → ℕ → Accounts → Option (Pruned × Accounts)
unfolding after_round
run_rounds zero batch pruned s = none
run_rounds (suc fuel) batch pruned s =
    after_round (run_rounds fuel batch) batch pruned (prune_expired_sessions s.clock batch s)

-- `RunOnce`.
unfoldable pub prune_all : ℕ → ℕ → Accounts → Option (Pruned × Accounts)
prune_all fuel batch s = run_rounds fuel (janitor_batch batch) 0 s
