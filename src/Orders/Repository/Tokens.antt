-- ===== src/Orders/Repository/Tokens.antt =====
-- The confirmation token of `ConfirmToken` in internal/modules/orders/repository.go.
use binno_pta_2026_evaluatio.Prelude.{
  ℕ, ◌≤◌, ◌≡◌, refl, sym, Bool, true, false, not, none, some, List, [], ◌∷◌, String, str_eq, arith,
  ok, err, ◌⊎◌, inl, inr, Option-cases, Result-cases, >>=-eq-ok, map_err, map_err-eq-ok, or_throw,
  or_throw-eq-ok, reject_if, reject_if-eq-ok, ok-injective, find_row, update_rows, subst,
}
use binno_pta_2026_evaluatio.Db.{Db, Driver, Order, ConfirmToken}
use binno_pta_2026_evaluatio.Tx.{Ending, commit, rollback}
use binno_pta_2026_evaluatio.Tx.Dedup.{is_bad_key, add_receipt, reserve_for, reserve_for_lem}
use binno_pta_2026_evaluatio.Orders.Status.{Status, token_confirm, transition_for}
use binno_pta_2026_evaluatio.Orders.Status.Paths.{next_status}
use binno_pta_2026_evaluatio.Orders.Errors.{Error, conflict, gone, not_found, map_dedup_error}
use binno_pta_2026_evaluatio.Orders.Repository.{
  run_transition, confirm_token, confirm_body, confirm_claimed, token_command, get_order, has_id,
  is_live_token, consume_confirm_token, token_error,
}
use binno_pta_2026_evaluatio.Orders.Repository.Runs.{Ran, run_events}
use binno_pta_2026_evaluatio.Orders.Repository.Replay.{
  IsFree, IsBound, reserve_for-cases, Ran-of_claimed,
}

-- The tokens after the update of `ConsumeConfirmToken`.
abbrev pub spent : ℕ → String → List ConfirmToken → List ConfirmToken
spent at hash = update_rows (is_live_token at hash) (λ t. record t { used_at = some at })

consume_lem :
    (at : ℕ) (hash : String) (db : Db) {t : ConfirmToken} {db' : Db}
    → consume_confirm_token at hash db ≡ ok (t, db')
    → (u : ConfirmToken) × (find_row (is_live_token at hash) db.tokens ≡ some u)
      × (t ≡ record u { used_at = some at })
      × (db' ≡ record db { tokens = spent at hash db.tokens })
unfolding consume_confirm_token
consume_lem at hash db h = elim (Option-cases (find_row (is_live_token at hash) db.tokens)) [
  | inl missing ↦ absurd (ground (arith, missing))
  | inr (u, found) ↦ (u, found, ground (arith, found), ground (arith, found))
]

spent-gone :
    (at later : ℕ) (hash : String) (ts : List ConfirmToken)
    → at ≤ later
    → find_row (is_live_token later hash) (spent at hash ts) ≡ none
spent-gone at later hash [] h = refl
spent-gone at later hash (t ∷ ts) h = ground (arith, spent-gone at later hash ts h)

-- A confirmation by token that was no replay: a live token of the named order was spent, and the
-- order went from its status to the one that the trigger leads to.
pub record Confirmed (d : Driver) (key hash id : String) (order at : ℕ) (db db' : Db) : Type 0 where
  pub free : IsFree key db
  pub token : ConfirmToken
  pub live : find_row (is_live_token at hash) db.tokens ≡ some token
  pub named : str_eq (d.uuid_text token.order_id) id ≡ true
  pub from : Status
  pub to : Status
  pub next : next_status token_confirm from ≡ some to
  pub ran :
      Ran token.order_id from to
        (run_events token.order_id from token_confirm (token_command id at))
        (record (add_receipt key order at db) { tokens = spent at hash db.tokens })
        db'

Confirmed-of_parts :
    (d : Driver) (key hash id : String) (order at : ℕ) (db db1 db2 db3 db4 db' : Db)
    (t u : ConfirmToken) (o : Order)
    → IsFree key db
    → db1 ≡ add_receipt key order at db
    → find_row (is_live_token at hash) db1.tokens ≡ some u
    → t ≡ record u { used_at = some at }
    → db2 ≡ record db1 { tokens = spent at hash db1.tokens }
    → str_eq (d.uuid_text t.order_id) id ≡ true
    → find_row (has_id t.order_id) db3.orders ≡ some o
    → db3 ≡ db2
    → db4 ≡ db'
    → run_transition d o token_confirm (token_command id at) db3 ≡ ok (tt, db4)
    → Confirmed d key hash id order at db db'
Confirmed-of_parts d key hash id order at db db1 db2 db3 db4 db' t u o free claimed live same spent2
      named row same3 same4 ran =
    let (s, s', next, done) =
      Ran-of_claimed d u.order_id o (token_command id at) db3 db3 db4 db' (rw same at row) refl
        same4 ran in
    record {
      free = free;
      token = u;
      live = rw claimed at live;
      named = rw same at named;
      from = s;
      to = s';
      next = next;
      ran = rw (same3, spent2, claimed) at done;
    }

claimed-Confirmed :
    (d : Driver) (digest : String → String) (key id token : String) (order at : ℕ) (db db1 : Db)
    {end : Ending (Unit {0})} {db' : Db}
    → IsFree key db
    → db1 ≡ add_receipt key order at db
    → confirm_claimed d digest id token at false db1 ≡ ok (end, db')
    → (end ≡ commit tt) × Confirmed d key (digest token) id order at db db'
unfolding confirm_claimed
claimed-Confirmed d digest key id token order at db db1 {end = end} {db' = db'} free claimed h =
    let (t, db2, spent1, h1) =
      >>=-eq-ok (map_err token_error (consume_confirm_token at (digest token))) _ db1 h in
    let (_, db3, checked, h2) =
      >>=-eq-ok (reject_if (not (str_eq (d.uuid_text t.order_id) id)) conflict) _ db2 h1 in
    let (o, db4, found, h3) = >>=-eq-ok (or_throw (get_order t.order_id db3) not_found) _ db3 h2 in
    let (_, db5, ran, h4) =
      >>=-eq-ok (run_transition d o token_confirm (token_command id at)) _ db4 h3 in
    let (u, live, same, spent2) =
      consume_lem at (digest token) db1 {t = t} {db' = db2}
        (map_err-eq-ok token_error (consume_confirm_token at (digest token)) db1 spent1) in
    let (named, same3) =
      reject_if-eq-ok (not (str_eq (d.uuid_text t.order_id) id)) conflict db2 checked in
    let (row, same4) = or_throw-eq-ok (get_order t.order_id db3) not_found db3 found in
    let (result, final) = ok-injective h4 in
    (
      sym result,
      Confirmed-of_parts d key (digest token) id order at db db1 db2 db3 db5 db' t u o free claimed
          live same spent2 (ground (arith, named)) row same3 final (cc (ran, same4)),
    )

abbrev IsEnded : Driver → String → String → String → ℕ → ℕ → Db → Ending (Unit {0}) → Db → Type 0
IsEnded d key hash id order at db (commit _) db' = Confirmed d key hash id order at db db'
IsEnded d key hash id order at db (rollback _) db' = IsBound key order db

by_replay :
    (d : Driver) (digest : String → String) (key id token : String) (order at : ℕ) (db db1 db' : Db)
    (end : Ending (Unit {0})) (replay : Bool)
    → reserve_for key order at db ≡ ok (replay, db1)
    → confirm_claimed d digest id token at replay db1 ≡ ok (end, db')
    → IsEnded d key (digest token) id order at db end db'
unfolding confirm_claimed
by_replay d digest key id token order at db db1 db' end false reserved h =
    elim (reserve_for-cases key order at db reserved) [
      | inl (_, free, claimed) ↦
          (let (committed, confirmed) =
              claimed-Confirmed d digest key id token order at db db1 {end = end} {db' = db'} free
                claimed h in
            rw committed confirmed)
      | inr (again, _, _) ↦ absurd (ground (arith, again))
    ]
by_replay d digest key id token order at db db1 db' end true reserved h =
    elim (reserve_for-cases key order at db reserved) [
      | inl (fresh, _, _) ↦ absurd (ground (arith, fresh))
      | inr (_, bound, _) ↦ (let (result, _) = ok-injective h in rw (← result) bound)
    ]

body-IsEnded :
    (d : Driver) (digest : String → String) (key id token : String) (order at : ℕ) (db db' : Db)
    (end : Ending (Unit {0}))
    → confirm_body d digest key id token order at db ≡ ok (end, db')
    → IsEnded d key (digest token) id order at db end db'
unfolding confirm_body
body-IsEnded d digest key id token order at db db' end h =
    let (replay, db1, reserved, h1) =
      >>=-eq-ok (map_err map_dedup_error (reserve_for key order at)) _ db h in
    by_replay d digest key id token order at db db1 db' end replay
      (map_err-eq-ok map_dedup_error (reserve_for key order at) db reserved) h1

-- What a confirmation by token that succeeds did: nothing as a replay, else it confirmed.
pub confirm_token_lem :
    (d : Driver) (digest : String → String) (key id token : String) (at : ℕ) (db : Db) {db' : Db}
    → confirm_token d digest key id token at db ≡ (ok tt, db')
    → (order : ℕ) × (d.parse_uuid id ≡ some order)
      × ((IsBound key order db × (db' ≡ db)) ⊎ Confirmed d key (digest token) id order at db db')
unfolding confirm_token transition_for
confirm_token_lem d digest key id token at db {db' = db'} h =
    elim (Option-cases (d.parse_uuid id)) [
      | inl malformed ↦ absurd (ground (arith, malformed))
      | inr (order, parsed) ↦ elim (Result-cases (confirm_body d digest key id token order at db)) [
        | inl ((commit u, db1), e) ↦ (
          order,
          parsed,
          inr (
              subst (Confirmed d key (digest token) id order at db) (ground (arith, parsed, e))
                (body-IsEnded d digest key id token order at db db1 (commit u) e)),
        )
        | inl ((rollback u, db1), e) ↦ (
          order,
          parsed,
          inl (
            body-IsEnded d digest key id token order at db db1 (rollback u) e,
            ground (arith, parsed, e),
          ),
        )
        | inr (x, e) ↦ absurd (ground (arith, parsed, e))
      ]
    ]

-- A confirmation by token that succeeds under a free key spends a live token whose order is the
-- one named in the request, and moves that order along the table.
pub confirm_token-Confirmed :
    (d : Driver) (digest : String → String) (key id token : String) (order at : ℕ) (db : Db)
    {db' : Db}
    → IsFree key db
    → d.parse_uuid id ≡ some order
    → confirm_token d digest key id token at db ≡ (ok tt, db')
    → Confirmed d key (digest token) id order at db db'
confirm_token-Confirmed d digest key id token order at db {db' = db'} free parsed h =
    let (order', parsed', done) = confirm_token_lem d digest key id token at db {db' = db'} h in
    let same : order' ≡ order = ground (arith, parsed, parsed') in
    elim done [
      | inl ((r, bound, _), _) ↦ absurd (ground (arith, free, bound))
      | inr confirmed ↦ rw same at confirmed
    ]

token_gone :
    (d : Driver) (digest : String → String) (key id token : String) (order at : ℕ) (db : Db)
    → is_bad_key key ≡ false
    → IsFree key db
    → d.parse_uuid id ≡ some order
    → find_row (is_live_token at (digest token)) db.tokens ≡ none
    → confirm_token d digest key id token at db ≡ (err gone, db)
unfolding confirm_token transition_for confirm_body confirm_claimed consume_confirm_token
token_gone d digest key id token order at db filled free parsed missing =
    ground (arith, parsed, filled, free, missing, reserve_for_lem key order at db)

Confirmed-tokens :
    (d : Driver) (key hash id : String) (order at later : ℕ) (db db' : Db)
    → Confirmed d key hash id order at db db'
    → at ≤ later
    → find_row (is_live_token later hash) db'.tokens ≡ none
Confirmed-tokens d key hash id order at later db db' c h =
    rw (c.ran.tokens) (spent-gone at later hash db.tokens h)

-- A token confirms once: after a confirmation under a free key, the same token is gone for every
-- later request under another free key of at most 512 characters, whatever order that names, and the
-- request changes no table.
pub confirm_token_once :
    (d : Driver) (digest : String → String) (key again id other token : String)
    (order second at later : ℕ) (db : Db) {db' : Db}
    → IsFree key db
    → d.parse_uuid id ≡ some order
    → confirm_token d digest key id token at db ≡ (ok tt, db')
    → at ≤ later
    → is_bad_key again ≡ false
    → IsFree again db'
    → d.parse_uuid other ≡ some second
    → confirm_token d digest again other token later db' ≡ (err gone, db')
confirm_token_once d digest key again id other token order second at later db {db' = db'} free
      parsed h late filled fresh parsed2 =
    token_gone d digest again other token second later db' filled fresh parsed2 (
      Confirmed-tokens d key (digest token) id order at later db db'
        (confirm_token-Confirmed d digest key id token order at db {db' = db'} free parsed h) late)

-- A `ConfirmToken` that reports an error leaves every table as it was.
pub confirm_token_atomic :
    (d : Driver) (digest : String → String) (key id token : String) (at : ℕ) (db : Db) {e : Error}
    {db' : Db}
    → confirm_token d digest key id token at db ≡ (err e, db')
    → db' ≡ db
unfolding confirm_token transition_for
confirm_token_atomic d digest key id token at db h = elim (Option-cases (d.parse_uuid id)) [
  | inl malformed ↦ ground (arith, malformed)
  | inr (order, parsed) ↦ elim (Result-cases (confirm_body d digest key id token order at db)) [
    | inl ((commit _, db1), e) ↦ ground (arith, parsed, e)
    | inl ((rollback _, db1), e) ↦ ground (arith, parsed, e)
    | inr (x, e) ↦ ground (arith, parsed, e)
  ]
]
