-- ===== src/Auth/Store/Open.antt =====
-- pkg/auth/store.go: `OpenStore`. Reading and decoding the file end in one of three ways.
use Prim.Native.String.{len, slice}
use openvaultdb_go.Base.{
  ℕ, Option, List, [], ◌∷◌, ◌++◌, ◌&&◌, ◌==◌, leb, if◌then◌else◌, none, some, Result, ok, err,
  ◌>>=◌, length, insert,
}
use openvaultdb_go.Auth.Grant.{PrincipalRefs, Grant, expired, IdentityError, validate_identity}
use openvaultdb_go.Auth.Store.{Store, StoreError, bad_identity, unreadable, unparsable}

abbrev pub empty_store : {Ref : Type 0} → Store Ref
empty_store = record { heap = []; grants = []; grants_by_id = []; codes = []; file = none }

-- The grants file: absent, not readable, not decodable, or the entries that it holds: a JSON
-- null decodes as no grant.
data FileContent (Ref : Type 0) : Type 0 where
  absent read_failed parse_failed : FileContent Ref
  holds : List (Option (Grant Ref)) → FileContent Ref

-- A grant from before the ID field gets one from its hash.
unfoldable with_id : {Ref : Type 0} → Grant Ref → Grant Ref
with_id g =
    if g.id == "" && leb 12 (len g.token_hash) then record g { id = slice g.token_hash 0 12 } else g

unfoldable admit : {Ref : Type 0} → Grant Ref → Store Ref → Store Ref
admit g s = record s {
  heap = s.heap ++ g ∷ [];
  grants = insert g.token_hash (length s.heap) s.grants;
  grants_by_id = if g.id == "" then s.grants_by_id else insert g.id (length s.heap) s.grants_by_id;
}

-- The grants of a file whose entries all are.
decoded : {Ref : Type 0} → List (Option (Grant Ref)) → List (Grant Ref)
decoded [] = []
decoded (none ∷ gs) = decoded gs
decoded (some g ∷ gs) = g ∷ decoded gs

module _ (P : PrincipalRefs) where
  open P use {Ref}

  abbrev wrap_identity : Result IdentityError (Unit {0}) → Result StoreError (Unit {0})
  wrap_identity (ok u) = ok u
  wrap_identity (err e) = err (bad_identity e)

  -- One round of the loop: an invalid identity ends the opening, an expired grant is dropped.
  load_grants : ℕ → List (Option (Grant Ref)) → Store Ref → Result StoreError (Store Ref)
  load_grants now [] s = ok s
  load_grants now (none ∷ gs) s =
      wrap_identity (validate_identity P none) >>= λ _. load_grants now gs s
  load_grants now (some g ∷ gs) s = wrap_identity (validate_identity P (some g)) >>= λ _.
      load_grants now gs (if expired (with_id g) now then s else admit (with_id g) s)

  unfoldable open_store : FileContent Ref → ℕ → Result StoreError (Store Ref)
  unfolding load_grants with_id admit decoded
  open_store absent now = ok empty_store
  open_store read_failed now = err unreadable
  open_store parse_failed now = err unparsable
  open_store (holds gs) now = load_grants now gs (record empty_store { file = some (decoded gs) })
