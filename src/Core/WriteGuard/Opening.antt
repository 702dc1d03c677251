-- ===== src/Core/WriteGuard/Opening.antt =====
-- pkg/core/core.go, write_guard.go: what the guards are given when a database is opened.
use openvaultdb_go.Base.{
  String, List, [], ◌∷◌, Bool, ◌&&◌, ◌==◌, if◌then◌else◌, Option, none, some, Result, ok, err, ◌>>◌,
  ◌>>=◌, ◌≡◌, sym, ap, lookup, >>=-eq-ok, ok-injective, ok≢err, subst,
}
use openvaultdb_go.Schema.Declarations.{Field, Collection}
use openvaultdb_go.Core.Collections.{
  Manifest, CollectionNames, NamesConflict, fields_of, insert_key, sorted_keys,
  new_collection_names,
}
use openvaultdb_go.Core.Collections.Declared.{IsDeclared, new_collection_names_ok}
use openvaultdb_go.Core.WriteGuard.{Guarded, is_document_engine, is_key_column_spelling}

pub data OpenError : Type 0 where
  names_conflict : NamesConflict → OpenError
  field_names_conflict : String → String → OpenError

field_names : List (String × Field) → List String
field_names [] = []
field_names ((name, f) ∷ fs) = insert_key name (field_names fs)

first_spelling : List String → Option String
first_spelling [] = none
first_spelling (s ∷ ss) =
    let rest = first_spelling ss in if is_key_column_spelling s then some s else rest

check_collections : List (String × Collection) → List String → Result OpenError (Unit {0})
unfolding field_names first_spelling
check_collections cs [] = ok tt
check_collections cs (key ∷ keys) =
    elim (first_spelling (field_names (fields_of (lookup key cs)))) [
      | none ↦ check_collections cs keys
      | some s ↦ err (field_names_conflict key s)
    ]

-- `checkFieldNames`.
unfoldable check_field_names : Manifest → Result OpenError (Unit {0})
unfolding check_collections
check_field_names m = elim m.collections [
  | none ↦ ok tt
  | some cs ↦ if is_document_engine m.engine then ok tt else check_collections cs (sorted_keys cs)
]

with_names : Result NamesConflict CollectionNames → Result OpenError CollectionNames
with_names (ok names) = ok names
with_names (err e) = err (names_conflict e)

-- The part of `openConfigured` that the guards rest on, with whether the manifest has a read-only
-- PostgreSQL storage.
unfoldable pub open_guarded : Manifest → Bool → Result OpenError Guarded
unfolding with_names check_field_names
open_guarded m read_only = do
  names ← with_names (new_collection_names m)
  if m.engine == "postgres" && read_only then ok tt else check_field_names m
  ok (record {
    engine = m.engine;
    native_postgres = m.engine == "postgres" && read_only;
    document_engine = is_document_engine m.engine;
    names = names;
  })

with_names_ok :
    (r : Result NamesConflict CollectionNames) (names : CollectionNames)
    → with_names r ≡ ok names
    → r ≡ ok names
unfolding with_names
with_names_ok (ok n) names h = ap ok (ok-injective h)
with_names_ok (err e) names h = absurd (ok≢err (sym h))

pub open_guarded-IsDeclared :
    (m : Manifest) (read_only : Bool) (d : Guarded)
    → open_guarded m read_only ≡ ok d
    → IsDeclared m d.names
unfolding open_guarded
open_guarded-IsDeclared m read_only d h =
    let (names, a, h1) = >>=-eq-ok (with_names (new_collection_names m)) _ h in
    let (_, _, h2) =
      >>=-eq-ok (if m.engine == "postgres" && read_only then ok tt else check_field_names m) _ h1 in
    subst (IsDeclared m) (ap (λ g. g.names) (ok-injective h2))
      (new_collection_names_ok m names (with_names_ok _ names a))
