-- ===== src/Identity/Janitor/Pruning.antt =====
-- What the janitor of internal/modules/identity/janitor.go leaves.
use binno_pta_2026_evaluatio.Prelude.{
  ℕ, zero, suc, ◌+◌, ◌≤◌, ◌<◌, ◌≡◌, ◌≢◌, refl, sym, ◌∙◌, true, none, some, List, [], ◌∷◌, map,
  if◌then◌else◌, ltb, ok, err, arith, count_rows, Bool-cases, Option-cases, inl, inr, ◌⊎◌, ==-self,
  Result-cases,
}
use binno_pta_2026_evaluatio.Identity.Tables.{RefreshToken, IdentityError, Accounts, statement}
use binno_pta_2026_evaluatio.Identity.Janitor.{
  is_expired, first_expired, is_picked, without, orphaned, deleted, delete_expired,
  prune_expired_sessions, janitor_batch, Pruned, after_round, run_rounds, prune_all,
}

abbrev pub expired_count : ℕ → List RefreshToken → ℕ
expired_count cutoff ts = count_rows (is_expired cutoff) ts

-- The ids of the rows that have not expired, in order.
abbrev pub lasting : ℕ → List RefreshToken → List ℕ
lasting cutoff [] = []
lasting cutoff (t ∷ ts) =
    if is_expired cutoff t then lasting cutoff ts else t.id ∷ lasting cutoff ts

map-orphaned :
    (cutoff id : ℕ) (ts : List RefreshToken)
    → (expired_count cutoff (map (orphaned id) ts) ≡ expired_count cutoff ts)
      × (lasting cutoff (map (orphaned id) ts) ≡ lasting cutoff ts)
map-orphaned cutoff id [] = (refl, refl)
map-orphaned cutoff id (t ∷ ts) =
    let (a, b) = map-orphaned cutoff id ts in (ground (arith, a), ground (arith, b))

without-lasting :
    (cutoff id : ℕ) (ts : List RefreshToken)
    → lasting cutoff (without cutoff id ts) ≡ lasting cutoff ts
unfolding without
without-lasting cutoff id [] = refl
without-lasting cutoff id (t ∷ ts) = ground (arith, without-lasting cutoff id ts)

-- Some expired row has the id.
abbrev Holds : ℕ → ℕ → List RefreshToken → Type 0
Holds cutoff id [] = ⊥
Holds cutoff id (t ∷ ts) = (is_picked cutoff id t ≡ true) ⊎ Holds cutoff id ts

first_expired-some :
    (cutoff : ℕ) (ts : List RefreshToken) {t : RefreshToken}
    → first_expired cutoff ts ≡ some t
    → Holds cutoff t.id ts
unfolding first_expired
first_expired-some cutoff [] h = cc
first_expired-some cutoff (x ∷ ts) {t = t} h = elim (Bool-cases (is_picked cutoff t.id x)) [
  | inl here ↦ inl here
  | inr there ↦ inr (first_expired-some cutoff ts {t = t} (ground (arith, there, ==-self t.id)))
]

first_expired-none :
    (cutoff : ℕ) (ts : List RefreshToken)
    → first_expired cutoff ts ≡ none
    → expired_count cutoff ts ≡ 0
unfolding first_expired
first_expired-none cutoff [] h = refl
first_expired-none cutoff (x ∷ ts) h = ground (arith, first_expired-none cutoff ts)

without-count :
    (cutoff id : ℕ) (ts : List RefreshToken)
    → Holds cutoff id ts
    → suc (expired_count cutoff (without cutoff id ts)) ≡ expired_count cutoff ts
unfolding without
without-count cutoff id [] h = elim h [ ]
without-count cutoff id (t ∷ ts) (inl here) = ground (arith, here)
without-count cutoff id (t ∷ ts) (inr there) = ground (arith, without-count cutoff id ts there)

-- `LIMIT n` rows go, as far as there are expired ones; the others stay in their order.
delete_expired-lem :
    (cutoff n : ℕ) (ts : List RefreshToken)
    → let (removed, rest) = delete_expired cutoff n ts in
      (removed ≤ n)
      × (removed + expired_count cutoff rest ≡ expired_count cutoff ts)
      × (removed < n → expired_count cutoff rest ≡ 0)
      × (lasting cutoff rest ≡ lasting cutoff ts)
unfolding delete_expired deleted
delete_expired-lem cutoff zero ts = (omega arith, omega arith, λ h. absurd (omega arith), refl)
delete_expired-lem cutoff (suc n) ts = elim (Option-cases (first_expired cutoff ts)) [
  | inl nothing ↦
      let (few, sum, last, kept) = delete_expired-lem cutoff n ts in
      let empty = first_expired-none cutoff ts nothing in
      (
        ground (arith, nothing, few),
        ground (arith, nothing, sum),
        λ h. ground (arith, nothing, sum, empty),
        ground (arith, nothing, kept),
      )
  | inr (t, first) ↦
      let (few, sum, last, kept) = delete_expired-lem cutoff n (deleted cutoff (some t) ts) in
      let (count, lasts) = map-orphaned cutoff t.id (without cutoff t.id ts) in
      let one = without-count cutoff t.id ts (first_expired-some cutoff ts first) in
      (
        ground (arith, first, few),
        ground (arith, first, sum, count, one),
        λ h. ground (arith, first, last),
        ground (arith, first, kept, lasts, without-lasting cutoff t.id ts),
      )
]

prune-ok :
    (cutoff batch : ℕ) (s : Accounts) {n : ℕ}
    → (prune_expired_sessions cutoff batch s).0 ≡ ok n
    → (n ≡ (delete_expired cutoff batch s.tokens).0)
      × ((prune_expired_sessions cutoff batch s).1.tokens
          ≡ (delete_expired cutoff batch s.tokens).1)
unfolding prune_expired_sessions statement
prune-ok cutoff batch s h = (ground arith, ground arith)

prune-err :
    (cutoff batch : ℕ) (s : Accounts) {e : IdentityError}
    → (prune_expired_sessions cutoff batch s).0 ≡ err e
    → ((prune_expired_sessions cutoff batch s).1.tokens ≡ s.tokens) × (s.faults ≢ [])
unfolding prune_expired_sessions statement
prune-err cutoff batch s h = (ground arith, λ up. ground arith)

prune-frame :
    (cutoff batch : ℕ) (s : Accounts)
    → ((prune_expired_sessions cutoff batch s).1.clock ≡ s.clock)
      × (s.faults ≡ [] → (prune_expired_sessions cutoff batch s).1.faults ≡ [])
unfolding prune_expired_sessions statement
prune-frame cutoff batch s = (ground arith, λ up. ground arith)

-- How a pass that began with these rows, and had removed some before, may end.
abbrev pub Ends : ℕ → ℕ → List RefreshToken → Pruned → Accounts → Type 0
Ends pruned cutoff ts p s' =
    (lasting cutoff s'.tokens ≡ lasting cutoff ts)
    × (p.removed + expired_count cutoff s'.tokens ≡ pruned + expired_count cutoff ts)
    × (p.failure ≡ none → expired_count cutoff s'.tokens ≡ 0)

Ends-next :
    (pruned n cutoff : ℕ) (ts rest : List RefreshToken) (p : Pruned) (s' : Accounts)
    → lasting cutoff rest ≡ lasting cutoff ts
    → n + expired_count cutoff rest ≡ expired_count cutoff ts
    → Ends (pruned + n) cutoff rest p s'
    → Ends pruned cutoff ts p s'
Ends-next pruned n cutoff ts rest p s' kept sum (lasts, count, none_left) =
    (lasts ∙ kept, omega arith, none_left)

run_rounds-Ends :
    (fuel batch pruned cutoff : ℕ) (s : Accounts)
    → s.clock ≡ cutoff
    → 0 < batch
    → expired_count cutoff s.tokens < fuel
    → (p : Pruned) × (s' : Accounts) × (run_rounds fuel batch pruned s ≡ some (p, s'))
      × Ends pruned cutoff s.tokens p s'
      × (s.faults ≡ [] → p.failure ≡ none)
unfolding run_rounds after_round
run_rounds-Ends zero batch pruned cutoff s at some_rows enough = absurd (omega arith)
run_rounds-Ends (suc fuel) batch pruned cutoff s at some_rows enough =
    elim (Result-cases (prune_expired_sessions s.clock batch s).0) [
      | inr (e, down) ↦
          let (same, faulty) = prune-err s.clock batch s down in
          (
            record { removed = pruned; failure = some e },
            (prune_expired_sessions s.clock batch s).1,
            ground (arith, down),
            (rw same refl, rw same refl, λ h. cc),
            λ up. absurd (faulty up),
          )
      | inl (n, gone) ↦
          let s1 : Accounts = (prune_expired_sessions s.clock batch s).1 in
          let (count, left) = prune-ok s.clock batch s gone in
          let (few, sum, last, kept) = delete_expired-lem s.clock batch s.tokens in
          let (still, alive) = prune-frame s.clock batch s in
          let kept1 : lasting cutoff s1.tokens ≡ lasting cutoff s.tokens = rw (left, sym at) kept in
          let sum1 : n + expired_count cutoff s1.tokens ≡ expired_count cutoff s.tokens =
            rw (left, sym at, count) sum in
          let last1 : n < batch → expired_count cutoff s1.tokens ≡ 0 =
            λ h. rw (left, sym at) (last (omega arith)) in
          elim (Bool-cases (ltb n batch)) [
            | inl short ↦ (
              record { removed = pruned + n; failure = none },
              s1,
              ground (arith, gone, short),
              (kept1, omega arith, λ h. last1 (ground (arith, short))),
              λ up. refl,
            )
            | inr full ↦
                let more : batch ≤ n = ground (arith, full) in
                let (p, s', ran, ends, fine) =
                  run_rounds-Ends fuel batch (pruned + n) cutoff s1 (still ∙ at) some_rows
                    (omega arith) in
                (
                  p,
                  s',
                  ground (arith, gone, full, ran),
                  Ends-next pruned n cutoff s.tokens s1.tokens p s' kept1 sum1 ends,
                  λ up. fine (alive up),
                )
          ]
    ]

-- A pass of the janitor, whose clock stands still and whose statements go through, returns on fuel
-- for one round more than rows have expired. It removes all expired rows and reports their number, and
-- keeps all others in their order.
pub prune_all_returns :
    (fuel batch : ℕ) (s : Accounts)
    → s.faults ≡ []
    → expired_count s.clock s.tokens < fuel
    → (s' : Accounts) × (prune_all fuel batch s
        ≡ some (record { removed = expired_count s.clock s.tokens; failure = none }, s'))
      × (expired_count s.clock s'.tokens ≡ 0)
      × (lasting s.clock s'.tokens ≡ lasting s.clock s.tokens)
unfolding prune_all
prune_all_returns fuel batch s up enough =
    let (p, s', ran, (lasts, count, none_left), fine) =
      run_rounds-Ends fuel (janitor_batch batch) 0 s.clock s refl (ground arith) enough in
    let empty = none_left (fine up) in
    let all : p.removed ≡ expired_count s.clock s.tokens = omega arith in
    (s', ground (arith, ran, fine up, all), empty, lasts)
