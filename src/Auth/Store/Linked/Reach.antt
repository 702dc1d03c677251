-- ===== src/Auth/Store/Linked/Reach.antt =====
-- pkg/auth/store.go: the stores that a history of calls reaches, if no grant ID is drawn twice.
use openvaultdb_go.Base.{
  String, not, ◌==◌, ◌||◌, ltb, ◌≡◌, refl, sym, inl, inr, Option, none, some, Bool-cases, lookup,
  remove, ok, err, Result,
}
use openvaultdb_go.Auth.Grant.{PrincipalRefs, IdentityError, Grant}
use openvaultdb_go.Auth.Store.{
  Store, StoreError, AuthCode, Environment, enter_and_save, put_code, mint_with, exchange_code,
  exchange_found, minted, new_token, new_grant_id,
}
use openvaultdb_go.Auth.Store.Open.{empty_store}
use openvaultdb_go.Auth.Store.Admin.{create_grant, create_with, filled_in, revoke_grant}
use openvaultdb_go.Auth.Store.Calls.{Call, puts, exchanges, creates, revokes, step}
use openvaultdb_go.Auth.Store.Linked.{
  some-ne-none, IsLinked, settle-IsLinked, revoke_found-IsLinked,
}

module _ (P : PrincipalRefs) (hash : String → String) where
  open P use {Ref}

  -- The ID that the call draws, if it draws one, is not in use.
  abbrev IsFresh : Call Ref → Store Ref → Type 0
  IsFresh (exchanges code client env) s =
      (id : String) → new_grant_id env.id_bytes ≡ ok id → lookup id s.grants_by_id ≡ none
  IsFresh (creates g token env) s =
      (id : String) → new_grant_id env.id_bytes ≡ ok id → lookup id s.grants_by_id ≡ none
  IsFresh _ s = Unit

  -- The stores that histories with fresh IDs reach from an empty one.
  pub data Reach : Store Ref → Type 0 where
    start : Reach empty_store
    next : {s : Store Ref} (c : Call Ref) → Reach s → IsFresh c s → Reach (step P hash c s)

  mint_with-IsLinked :
      (c : AuthCode) (env : Environment) (t i : Result StoreError String) (s : Store Ref)
      → ((id : String) → i ≡ ok id → lookup id s.grants_by_id ≡ none)
      → IsLinked s
      → IsLinked (mint_with hash c env t i s).0
  unfolding mint_with enter_and_save
  mint_with-IsLinked c env (err e) i s n l = l
  mint_with-IsLinked c env (ok t) (err e) s n l = l
  mint_with-IsLinked c env (ok t) (ok i) s n l =
      let g : Grant Ref = minted hash c env t i in
      let result : String × Grant Ref = (t, g) in
      settle-IsLinked env.outcome env.saved_at g result s (n i refl) l

  exchange_found-IsLinked :
      (o : Option AuthCode) (code client : String) (env : Environment) (s : Store Ref)
      → ((id : String) → new_grant_id env.id_bytes ≡ ok id → lookup id s.grants_by_id ≡ none)
      → IsLinked s
      → IsLinked (exchange_found hash o code client env s).0
  unfolding exchange_found
  exchange_found-IsLinked none code client env s n l = l
  exchange_found-IsLinked (some c) code client env s n l =
      let spent : Store Ref = record s { codes = remove code s.codes } in
      elim (Bool-cases (ltb c.expires env.checked_at || not (c.client_id == client))) [
        | inl refused ↦ rw refused l
        | inr good ↦ rw good (
            mint_with-IsLinked c env (new_token env.token_bytes) (new_grant_id env.id_bytes) spent n
              l)
      ]

  create_with-IsLinked :
      (g : Grant Ref) (token : String) (env : Environment) (v : Result IdentityError (Unit {0}))
      (i : Result StoreError String) (s : Store Ref)
      → ((id : String) → i ≡ ok id → lookup id s.grants_by_id ≡ none)
      → IsLinked s
      → IsLinked (create_with P hash g token env v i s).0
  unfolding create_with enter_and_save
  create_with-IsLinked g token env (err e) i s n l = l
  create_with-IsLinked g token env (ok u) (err e) s n l = l
  create_with-IsLinked g token env (ok u) (ok i) s n l =
      let f : Grant Ref = filled_in P hash g token i env.issued_at in
      settle-IsLinked env.outcome env.saved_at f f s (n i refl) l

  step-IsLinked :
      (c : Call Ref) (s : Store Ref) → IsFresh c s → IsLinked s → IsLinked (step P hash c s)
  unfolding step put_code exchange_code create_grant revoke_grant
  step-IsLinked (puts code client redirect database caps now) s f l = l
  step-IsLinked (exchanges code client env) s f l =
      exchange_found-IsLinked (lookup code s.codes) code client env s f l
  step-IsLinked (creates g token env) s f l = create_with-IsLinked g token env _ _ s f l
  step-IsLinked (revokes id now saved_at outcome) s f l =
      revoke_found-IsLinked (lookup id s.grants_by_id) now saved_at outcome s l

  -- In every store that a history of calls reaches from an empty store, if no grant ID is drawn
  -- that is in use, each grant that a hash leads to is the one that its own ID leads to: revoking
  -- by ID reaches the object that bearer tokens resolve to.
  pub Reach-IsLinked : (s : Store Ref) → Reach s → IsLinked s
  unfolding lookup
  Reach-IsLinked s start = λ h p e. absurd (some-ne-none (sym e))
  Reach-IsLinked s (next {s = t} c r f) = step-IsLinked c t f (Reach-IsLinked t r)
