-- ===== src/Auth/Store/Admin.antt =====
-- pkg/auth/store.go: `CreateGrant`, `ListGrants` and `RevokeGrant`, the owner's operations.
use openvaultdb_go.Base.{
  ℕ, String, List, [], ◌∷◌, ltb, if◌then◌else◌, Option, none, some, Result, ok, err, get_elem?, set,
  lookup,
}
use openvaultdb_go.Auth.Grant.{PrincipalRefs, Grant, revoked, IdentityError, validate_identity}
use openvaultdb_go.Auth.Store.{
  Store, StoreError, bad_identity, SaveOutcome, Environment, new_grant_id, enter_and_save,
  save_locked, cell,
}

module _ (P : PrincipalRefs) (hash : String → String) where
  open P use {Ref, kind, ref_id}

  abbrev actor_kind : Option Ref → String
  actor_kind none = "application"
  actor_kind (some a) = kind a

  abbrev actor_id : Option Ref → String → String
  actor_id none given = given
  actor_id (some a) given = ref_id a

  -- The fields that `CreateGrant` fills in.
  unfoldable pub filled_in : Grant Ref → String → String → ℕ → Grant Ref
  filled_in g token id now = record g {
    id = id;
    token_hash = hash token;
    principal_type = actor_kind g.actor;
    principal_id = actor_id g.actor g.principal_id;
    issued_at = now;
  }

  unfoldable pub create_with :
      Grant Ref
      → String
      → Environment
      → Result IdentityError (Unit {0})
      → Result StoreError String
      → Store Ref
      → Store Ref × Result StoreError (Grant Ref)
  unfolding filled_in enter_and_save
  create_with g token env (err e) id s = (s, err (bad_identity e))
  create_with g token env (ok _) (err e) s = (s, err e)
  create_with g token env (ok _) (ok id) s =
      let f = filled_in g token id env.issued_at in enter_and_save env f f s

  unfoldable pub create_grant :
      Grant Ref → String → Environment → Store Ref → Store Ref × Result StoreError (Grant Ref)
  unfolding create_with
  create_grant g token env s =
      create_with g token env (validate_identity P (some g)) (new_grant_id env.id_bytes) s

module _ {Ref : Type 0} where
  -- A stable sort by the issue time: one of the orders that `sort.Slice` may leave.
  unfoldable insert_by_issue : Grant Ref → List (Grant Ref) → List (Grant Ref)
  insert_by_issue g [] = g ∷ []
  insert_by_issue g (h ∷ hs) =
      if ltb h.issued_at g.issued_at then h ∷ insert_by_issue g hs else g ∷ h ∷ hs

  abbrev consider : Option (Grant Ref) → List (Grant Ref) → List (Grant Ref)
  consider none rest = rest
  consider (some g) rest = insert_by_issue g rest

  list_entries : List (Grant Ref) → List (String × ℕ) → List (Grant Ref)
  list_entries heap [] = []
  list_entries heap ((h, p) ∷ m) = consider (get_elem? heap p) (list_entries heap m)

  unfoldable list_grants : Store Ref → List (Grant Ref)
  unfolding list_entries insert_by_issue
  list_grants s = list_entries s.heap s.grants

  -- The write through the shared pointer; the save's own result is dropped.
  unfoldable pub revoke_at :
      ℕ → Grant Ref → ℕ → ℕ → SaveOutcome → Store Ref → Store Ref × Option (Grant Ref)
  unfolding save_locked
  revoke_at p g now saved_at outcome s =
      let g' = record g { revoked_at = some now } in
      if revoked g
      then (s, some g)
      else ((save_locked outcome saved_at (record s { heap = set s.heap p g' })).0, some g')

  unfoldable pub revoke_found :
      Option ℕ
      → Option (Grant Ref)
      → ℕ
      → ℕ
      → SaveOutcome
      → Store Ref
      → Store Ref × Option (Grant Ref)
  unfolding revoke_at
  revoke_found (some p) (some g) now saved_at outcome s = revoke_at p g now saved_at outcome s
  revoke_found _ _ now saved_at outcome s = (s, none)

  unfoldable pub revoke_grant :
      String → ℕ → ℕ → SaveOutcome → Store Ref → Store Ref × Option (Grant Ref)
  unfolding revoke_found
  revoke_grant id now saved_at outcome s =
      let p = lookup id s.grants_by_id in revoke_found p (cell s.heap p) now saved_at outcome s
