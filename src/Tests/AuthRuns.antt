-- ===== src/Tests/AuthRuns.antt =====
-- pkg/auth at concrete inputs.
use openvaultdb_go.Base.{
  ℕ, String, List, [], ◌∷◌, map, true, false, none, some, ok, err, ◌≡◌, refl, ◌≢◌, ◌↔◌, All, lookup,
  insert, remove, split, trim_space, arith, eq_iff, Result, subst, ok-injective, get_elem?, ap,
}
use openvaultdb_go.Auth.Capability.{is_known, parse_capability, parse_capabilities, to_string}
use openvaultdb_go.Auth.Capability.RoundTrip.{IsWellFormed, parse_capability_iff}
use openvaultdb_go.Auth.Capability.Lists.{entries, parse_capabilities_iff}
use openvaultdb_go.Auth.Grant.{validate_identity, expired, revoked, Grant, Principal, allows}
use openvaultdb_go.Auth.Grant.Authority.{Authorized, allows_iff}
use openvaultdb_go.Auth.Store.{
  StoreError, put_code, new_grant_id, saved, write_failed, exchange_code, save_locked, invalid_code,
  lookup_token, new_token,
}
use openvaultdb_go.Auth.Store.Admin.{create_grant, revoke_grant}
use openvaultdb_go.Auth.Store.Open.{empty_store}
use openvaultdb_go.Auth.Store.Calls.{Call, exchanges, revokes, creates, puts, run, step}
use openvaultdb_go.Auth.Store.Codes.{IsIssued, exchange_code-once, exchange_code_ok}
use openvaultdb_go.Auth.Store.Lookup.{IsConsistent}
use openvaultdb_go.Auth.Store.Histories.{run-IsConsistent}
use openvaultdb_go.Auth.Store.Settlement.{Settled, exchange_code-Settled}
use openvaultdb_go.Auth.Store.Linked.{IsLinked}
use openvaultdb_go.Auth.Store.Linked.Reach.{Reach, start, next, Reach-IsLinked}
use openvaultdb_go.Auth.Store.Revocation.{revoke_grant-final}
use openvaultdb_go.Auth.Middleware.{
  public_path, bearer_token, Config, middleware, Authenticates, middleware_sound,
}
use openvaultdb_go.Tests.Fixtures.{refs, hash, read_users, alice, store, env}

abbrev holder : Principal String
holder = record { owner = false; grant = some alice }

allows_iff_example :
    (allows (some holder) "db" "records:read" "users" ≡ true)
    ↔ Authorized holder "db" "records:read" "users"
allows_iff_example = allows_iff holder "db" "records:read" "users"

allows-users : allows (some holder) "db" "records:read" "users" ≡ true
unfolding allows
allows-users = refl

-- The code is gone after its first use, though another client tried it.
exchange_code-once_example :
    let s = (exchange_code hash "c1" "other" env store).0 in
    exchange_code hash "c1" "app" env s ≡ (s, err invalid_code)
exchange_code-once_example = exchange_code-once hash "c1" "other" "app" env env store

abbrev issued : Grant String
issued = record {
  subject = none;
  actor = none;
  id = "g2";
  label = "";
  token_hash = "ovdb_aa";
  principal_type = "application";
  principal_id = "app";
  database_id = "db";
  capabilities = read_users ∷ [];
  issued_at = 11;
  expires_at = 3600000000011;
  revoked_at = none;
}

exchange_code_ok_example : IsIssued hash "c1" "app" env store "ovdb_aa" issued
unfolding exchange_code save_locked lookup remove
exchange_code_ok_example = exchange_code_ok hash "c1" "app" env store "ovdb_aa" issued refl

one_entry : (k h : String) (n p : ℕ) → lookup h ((k, n) ∷ []) ≡ some p → (k ≡ h) × (n ≡ p)
unfolding lookup
one_entry k h n p e = ground (arith, eq_iff k h)

store-IsConsistent : IsConsistent store
store-IsConsistent = record {
  by_hash = λ h p e.
      let (same, here) = one_entry "t1" h 0 p e in
      (alice, subst (λ p. get_elem? store.heap p ≡ some alice) here refl, same);
  by_id = λ i p e.
      let (same, here) = one_entry "g1" i 0 p e in
      (alice, subst (λ p. get_elem? store.heap p ≡ some alice) here refl, same);
}

store-IsLinked : IsLinked store
unfolding lookup
store-IsLinked h p e =
    let (same, here) = one_entry "t1" h 0 p e in
    (alice, subst (λ p. get_elem? store.heap p ≡ some alice) here refl, ap some here)

exchange_code-Settled_example :
    let r = exchange_code hash "c1" "app" env store in
    Settled hash env (new_token (some "aa")) store r.0 r.1
exchange_code-Settled_example = exchange_code-Settled hash "c1" "app" env store store-IsConsistent

-- The save of the revocation fails, and another token is issued afterwards.
abbrev later : List (Call String)
later = creates alice "t2" env ∷ []

revoke_grant-final_example :
    lookup_token hash "t1" 70 (run refs hash later (revoke_grant "g1" 60 61 write_failed store).0)
    ≡ none
unfolding lookup_token lookup expired revoked
revoke_grant-final_example =
    revoke_grant-final refs hash "t1" alice 59 70 60 61 write_failed store later store-IsLinked refl
      (t2-other, tt)
  where
    t2-other : ◌≢◌ {A = String} "t2" "t1"
    t2-other e = absurd (ground (arith, (eq_iff "t2" "t1").1 e))

abbrev create_alice : Call String
create_alice = creates alice "t1" (record env { id_bytes = some "g1" })

abbrev put_c1 : Call String
put_c1 = puts "c1" "app" "" "db" (read_users ∷ []) 5

abbrev exchange_c1 : Call String
exchange_c1 = exchanges "c1" "app" env

fresh :
    {id : String} (m : List (String × ℕ))
    → lookup "g2" m ≡ none
    → ◌≡◌ {A = Result StoreError String} (ok "g2") (ok id)
    → lookup id m ≡ none
fresh m absent same = subst (λ k. lookup k m ≡ none) (ok-injective same) absent

-- A grant is created, a code is put and exchanged, and the first grant is revoked.
abbrev linked_history : Reach refs hash (
    run refs hash (create_alice ∷ put_c1 ∷ exchange_c1 ∷ revokes "g1" 30 31 saved ∷ []) empty_store)
unfolding run step lookup insert put_code create_grant validate_identity new_grant_id save_locked
linked_history =
    next (revokes "g1" 30 31 saved)
      (next exchange_c1 (next put_c1 (next create_alice start (λ id drawn. refl)) tt)
        (λ id drawn. fresh (("g1", 0) ∷ []) refl drawn))
      tt

Reach-IsLinked_example : IsLinked (
    run refs hash (create_alice ∷ put_c1 ∷ exchange_c1 ∷ revokes "g1" 30 31 saved ∷ []) empty_store)
Reach-IsLinked_example = Reach-IsLinked refs hash _ linked_history

abbrev config : Config String
config = record { owner_token = "root"; store = some store }

middleware_sound_example :
    (bearer_token "Bearer t1" ≢ "")
    × ((q : Principal String) × (some holder ≡ some q) × Authenticates hash config "Bearer t1" 60 q)
unfolding middleware lookup_token lookup expired revoked public_path bearer_token trim_space
middleware_sound_example =
    middleware_sound hash config "/v1/records" "Bearer t1" 60 (some holder) refl refl

parse_capability_iff_example :
    (parse_capability "records:read:users" ≡ ok read_users)
    ↔ (IsWellFormed read_users × (to_string read_users ≡ "records:read:users"))
parse_capability_iff_example = parse_capability_iff "records:read:users" read_users

parse_capabilities_iff_example :
    (parse_capabilities "records:read:users, " ≡ ok (read_users ∷ [])) ↔ (
      All IsWellFormed (read_users ∷ [])
      × (map to_string (read_users ∷ []) ≡ entries (split "," "records:read:users, "))
      × ((read_users ∷ []) ≢ []))
parse_capabilities_iff_example = parse_capabilities_iff "records:read:users, " (read_users ∷ [])

parse-users : parse_capabilities "records:read:users, " ≡ ok (read_users ∷ [])
unfolding parse_capabilities split trim_space parse_capability is_known
parse-users = refl

abbrev used_and_revoked : List (Call String)
used_and_revoked = exchanges "c1" "app" env ∷ revokes "g1" 12 13 write_failed ∷ []

run-IsConsistent_example : IsConsistent (run refs hash used_and_revoked store)
run-IsConsistent_example = run-IsConsistent refs hash used_and_revoked store store-IsConsistent
