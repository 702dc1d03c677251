-- ===== src/Auth/Store.antt =====
-- pkg/auth/store.go. The two maps of the store share their `*Grant` values, so they hold places of a
-- heap; the codes map holds values. Each method takes the readings of the clock that it makes, the
-- random texts that it draws and how its save ends. The temporary file of a save is not modelled:
-- nothing reads it. SHA-256 is the parameter `hash`.
pub mod Admin
pub mod Open
pub mod Codes
pub mod Settlement
pub mod Lookup
pub mod Calls
pub mod Histories
pub mod Linked
pub mod Dead
pub mod Revocation
use Prim.Native.String.{len, slice}
use openvaultdb_go.Base.{
  ℕ, ◌+◌, ◌*◌, String, List, [], ◌∷◌, ◌++◌, Bool, true, false, not, ◌&&◌, ◌||◌, ◌==◌, ltb, leb,
  if◌then◌else◌, Option, none, some, Result, ok, err, ◌>>=◌, ◌>>◌, require, get_elem?, set, length,
  lookup, insert, remove, ◌⊕◌,
}
use openvaultdb_go.Auth.Capability.{Capability}
use openvaultdb_go.Auth.Grant.{
  PrincipalRefs, Grant, expired, revoked, IdentityError, validate_identity,
}

-- A nanosecond count of an hour, and of five minutes.
abbrev pub token_ttl : ℕ
token_ttl = 3600 * 1_000_000_000

abbrev code_ttl : ℕ
code_ttl = 5 * 60 * 1_000_000_000

pub record AuthCode : Type 0 where
  pub client_id : String
  pub redirect_uri : String
  pub database_id : String
  pub capabilities : List Capability
  pub expires : ℕ

pub record Store (Ref : Type 0) : Type 0 where
  pub heap : List (Grant Ref)
  pub grants : List (String × ℕ)  -- by token hash
  pub grants_by_id : List (String × ℕ)
  pub codes : List (String × AuthCode)
  pub file : Option (List (Grant Ref))  -- what the grants file holds

-- How the file operations of a save end.
pub data SaveOutcome : Type 0 where
  saved marshal_failed mkdir_failed write_failed rename_failed : SaveOutcome

pub data StoreError : Type 0 where
  invalid_code no_entropy : StoreError
  save_failed : SaveOutcome → StoreError
  bad_identity : IdentityError → StoreError
  unreadable unparsable : StoreError

-- What one minting call reads from outside: the clock when it checks, issues and saves, the
-- hexadecimal texts of the random bytes, and the end of the save.
pub record Environment : Type 0 where
  pub checked_at : ℕ
  pub issued_at : ℕ
  pub saved_at : ℕ
  pub token_bytes : Option String
  pub id_bytes : Option String
  pub outcome : SaveOutcome

abbrev pub or_err {ℓ κ} : {E : Type ℓ} {A : Type κ} → E → Option A → Result E A
or_err e none = err e
or_err e (some a) = ok a

unfoldable pub new_token : Option String → Result StoreError String
new_token bytes = do hex ← or_err no_entropy bytes; ok ("ovdb_" ⊕ hex)

unfoldable pub new_grant_id : Option String → Result StoreError String
new_grant_id bytes = or_err no_entropy bytes

abbrev keep_cell : {Ref : Type 0} → ℕ → Option (Grant Ref) → List (Grant Ref) → List (Grant Ref)
keep_cell now none rest = rest
keep_cell now (some g) rest = if not (revoked g) && expired g now then rest else g ∷ rest

-- The loop of `saveLocked`: the grants that are written.
unfoldable kept_grants :
    {Ref : Type 0} → List (Grant Ref) → ℕ → List (String × ℕ) → List (Grant Ref)
kept_grants heap now [] = []
kept_grants heap now ((h, p) ∷ m) = keep_cell now (get_elem? heap p) (kept_grants heap now m)

unfoldable pub save_locked :
    {Ref : Type 0} → SaveOutcome → ℕ → Store Ref → Store Ref × Result StoreError (Unit {0})
unfolding kept_grants
save_locked saved now s = (record s { file = some (kept_grants s.heap now s.grants) }, ok tt)
save_locked failed now s = (s, err (save_failed failed))

unfoldable pub put_code :
    {Ref : Type 0} → String → String → String → String → List Capability → ℕ → Store Ref → Store Ref
put_code code client redirect database caps now s = record s {
  codes =
      insert code
        (record {
          client_id = client;
          redirect_uri = redirect;
          database_id = database;
          capabilities = caps;
          expires = now + code_ttl;
        })
        s.codes;
}

-- A new object, entered in both maps.
unfoldable pub enter : {Ref : Type 0} → Grant Ref → Store Ref → Store Ref
enter g s = record s {
  heap = s.heap ++ g ∷ [];
  grants = insert g.token_hash (length s.heap) s.grants;
  grants_by_id = insert g.id (length s.heap) s.grants_by_id;
}

unfoldable pub withdraw : {Ref : Type 0} → Grant Ref → Store Ref → Store Ref
withdraw g s = record s {
  grants = remove g.token_hash s.grants;
  grants_by_id = remove g.id s.grants_by_id;
}

-- Keeps the new grant if the save went well, and takes it out of the maps otherwise.
settle {κ} :
    {Ref : Type 0} {A : Type κ}
    → Grant Ref
    → A
    → Store Ref × Result StoreError (Unit {0})
    → Store Ref × Result StoreError A
unfolding withdraw
settle g result (s, ok _) = (s, ok result)
settle g result (s, err e) = (withdraw g s, err e)

unfoldable pub enter_and_save {κ} :
    {Ref : Type 0} {A : Type κ}
    → Environment
    → Grant Ref
    → A
    → Store Ref
    → Store Ref × Result StoreError A
unfolding enter settle
enter_and_save env g result s = settle g result (save_locked env.outcome env.saved_at (enter g s))

abbrev pub live : {Ref : Type 0} → ℕ → Option (Grant Ref) → Option (Grant Ref)
live now none = none
live now (some g) = if expired g now || revoked g then none else some g

abbrev pub cell : {Ref : Type 0} → List (Grant Ref) → Option ℕ → Option (Grant Ref)
cell heap none = none
cell heap (some p) = get_elem? heap p

module _ (hash : String → String) where
  abbrev minted : {Ref : Type 0} → AuthCode → Environment → String → String → Grant Ref
  minted c env token id = record {
    subject = none;
    actor = none;
    id = id;
    label = "";
    token_hash = hash token;
    principal_type = "application";
    principal_id = c.client_id;
    database_id = c.database_id;
    capabilities = c.capabilities;
    issued_at = env.issued_at;
    expires_at = env.issued_at + token_ttl;
    revoked_at = none;
  }

  mint_with :
      {Ref : Type 0}
      → AuthCode
      → Environment
      → Result StoreError String
      → Result StoreError String
      → Store Ref
      → Store Ref × Result StoreError (String × Grant Ref)
  unfolding enter_and_save
  mint_with c env (err e) id s = (s, err e)
  mint_with c env (ok token) (err e) s = (s, err e)
  mint_with c env (ok token) (ok id) s =
      let g = minted c env token id in enter_and_save env g (token, g) s

  exchange_found :
      {Ref : Type 0}
      → Option AuthCode
      → String
      → String
      → Environment
      → Store Ref
      → Store Ref × Result StoreError (String × Grant Ref)
  unfolding mint_with new_token new_grant_id
  exchange_found none code client env s = (s, err invalid_code)
  exchange_found (some c) code client env s =
      let spent = record s { codes = remove code s.codes } in
      if ltb c.expires env.checked_at || not (c.client_id == client)
      then (spent, err invalid_code)
      else mint_with c env (new_token env.token_bytes) (new_grant_id env.id_bytes) spent

  unfoldable pub exchange_code :
      {Ref : Type 0}
      → String
      → String
      → Environment
      → Store Ref
      → Store Ref × Result StoreError (String × Grant Ref)
  unfolding exchange_found
  exchange_code code client env s = exchange_found (lookup code s.codes) code client env s

  -- `Lookup`: nothing for a token that is unknown, expired or revoked.
  unfoldable pub lookup_token : {Ref : Type 0} → String → ℕ → Store Ref → Option (Grant Ref)
  lookup_token token now s = live now (cell s.heap (lookup (hash token) s.grants))
