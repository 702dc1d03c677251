-- ===== src/Core/WriteGuard.antt =====
-- pkg/core/write_guard.go, query_fields.go, query_guard.go: what refuses a batch before the adapter is
-- asked anything, and the batch that the adapter is given.
pub mod Opening
pub mod Columns
pub mod Sound
use openvaultdb_go.Base.{
  ℕ, suc, ◌+◌, String, List, [], ◌∷◌, Bool, true, false, not, ◌&&◌, ◌||◌, ◌==◌, ltb, if◌then◌else◌,
  Option, none, some, Result, ok, err, ◌>>◌, ◌>>=◌, require, lookup, bytes, split, trim_space, map,
}
use openvaultdb_go.Auth.Middleware.{strip_fold}
use openvaultdb_go.Schema.Values.{Fields, end, field}
use openvaultdb_go.JoinExec.Names.{Unicode, is_field_name, every}
use openvaultdb_go.Core.Key.{Keys}
use openvaultdb_go.Core.Updates.{UpdateOp}
use openvaultdb_go.Core.Batch.{Op}
use openvaultdb_go.Core.Collections.{CollectionNames, insert_key, adapter_key}

-- What the guards know of a database. Opening records the class of its engine.
pub record Guarded : Type 0 where
  pub engine : String
  pub native_postgres : Bool
  pub document_engine : Bool
  pub names : CollectionNames

pub data WriteRefusal : Type 0 where
  nested undeclared collection_too_long empty_path invalid_field field_too_long : WriteRefusal
  invalid_map_key key_update key_column_case no_field empty_write : WriteRefusal

pub data GuardError : Type 0 where
  refused : ℕ → WriteRefusal → GuardError

abbrev Check : Type 0
Check = Result WriteRefusal (Unit {0})

-- `documentEngines`: the engines that never write a name into SQL text.
unfoldable pub is_document_engine : String → Bool
is_document_engine engine = engine == "ingitdb" || engine == "firestore"

-- `nameLimits`: 0 is no limit.
name_limit : Guarded → ℕ
name_limit d = if d.engine == "postgres" then 63 else 0

unfoldable pub name_too_long : Guarded → String → Bool
unfolding name_limit
name_too_long d name = ltb 0 (name_limit d) && ltb (name_limit d) (bytes name)

collection_too_long_for : Guarded → String → Bool
unfolding name_too_long
collection_too_long_for d name = not d.native_postgres && name_too_long d name

unfoldable pub is_given {ℓ} : {A : Type ℓ} → Option A → Bool
is_given none = false
is_given (some a) = true

-- `GuardCollection`.
unfoldable pub guard_collection : Guarded → String → Check
unfolding collection_too_long_for is_given
guard_collection d name =
    if d.document_engine
    then ok tt
    else require (not (collection_too_long_for d name)) collection_too_long
      >> require (is_given (lookup name d.names.canonical)) undeclared

-- `strings.EqualFold` with the key column: no other character folds to those of "id".
unfoldable pub folds_to_id : String → Bool
folds_to_id name = elim (strip_fold "id" name) [ none ↦ false | some rest ↦ rest == "" ]

unfoldable pub is_key_column_spelling : String → Bool
unfolding folds_to_id
is_key_column_spelling name = not (name == "id") && folds_to_id name

unfoldable pub none_too_long : Guarded → List String → Bool
unfolding name_too_long
none_too_long d [] = true
none_too_long d (s ∷ ss) = not (name_too_long d s) && none_too_long d ss

unfoldable pub no_key_spelling : List String → Bool
unfolding is_key_column_spelling
no_key_spelling [] = true
no_key_spelling (s ∷ ss) = not (is_key_column_spelling s) && no_key_spelling ss

unfoldable pub head_of : List String → String
head_of [] = ""
head_of (s ∷ ss) = s

unfoldable pub is_nil {ℓ} : {A : Type ℓ} → List A → Bool
is_nil [] = true
is_nil (a ∷ rest) = false

module _ {Float : Type 0} where
  -- The keys of an object, in order.
  names_of : Fields Float → List String
  names_of end = []
  names_of (field name v m) = insert_key name (names_of m)

  pub given_names : Option (Fields Float) → List String
  unfolding names_of
  given_names none = []
  given_names (some m) = names_of m

module _ (U : Unicode) where
  open U use {is_control_point}

  -- `ValidateFieldName` has the expression and the bound of pkg/joinexec/walk.go.
  unfoldable pub all_plain : List String → Bool
  all_plain [] = true
  all_plain (s ∷ ss) = is_field_name U s && all_plain ss

  -- `validateMapKey`.
  is_map_key : String → Bool
  is_map_key key = not (trim_space key == "") && every (λ c. not (is_control_point c)) key

  rest_fits : Bool → List String → Bool
  unfolding is_map_key
  rest_fits document [] = true
  rest_fits document (s ∷ ss) =
      (if document then is_map_key s else is_field_name U s) && rest_fits document ss

  unfoldable pub validate_field_path : Guarded → List String → Check
  unfolding none_too_long rest_fits
  validate_field_path d [] = err empty_path
  validate_field_path d (s ∷ ss) = do
    require (is_field_name U s) invalid_field
    require (none_too_long d (s ∷ ss)) field_too_long
    require (rest_fits d.document_engine ss) invalid_map_key

  unfoldable pub validate_update_path : Guarded → List String → Check
  unfolding validate_field_path folds_to_id head_of
  validate_update_path d path = do
    validate_field_path d path
    require (d.document_engine || not (folds_to_id (head_of (split "." (head_of path))))) key_update

  module _ {Float : Type 0} where
    unfoldable pub validate_data_keys : Guarded → Option (Fields Float) → Check
    unfolding given_names all_plain none_too_long no_key_spelling
    validate_data_keys d m = do
      require (all_plain (given_names m)) invalid_field
      require (none_too_long d (given_names m)) field_too_long
      require (d.document_engine || no_key_spelling (given_names m)) key_column_case

    unfoldable pub validate_update : Guarded → UpdateOp Float → Check
    unfolding validate_update_path is_nil
    validate_update d u = do
      require (not (u.field_name == "" && is_nil u.field_path)) no_field
      if u.field_name == "" then ok tt else validate_update_path d (u.field_name ∷ [])
      if is_nil u.field_path then ok tt else validate_update_path d u.field_path

    unfoldable pub validate_updates : Guarded → List (UpdateOp Float) → Check
    unfolding validate_update
    validate_updates d [] = ok tt
    validate_updates d (u ∷ us) = validate_update d u >> validate_updates d us

module _ (K : Keys) where
  open K use {Key, parent, collection}

  -- `GuardKey`.
  unfoldable pub guard_key : Guarded → Option Key → Check
  unfolding guard_collection is_given
  guard_key d none = ok tt
  guard_key d (some k) = do
    require (not (is_given (parent k) && not d.document_engine)) nested
    guard_collection d (collection k)

  unfoldable pub adapted : CollectionNames → Option Key → Option Key
  adapted names none = none
  adapted names (some k) = some (adapter_key K names k)

  module _ {Float : Type 0} where
    unfoldable pub adapter_op : CollectionNames → Op Key Float → Op Key Float
    unfolding adapted
    adapter_op names o = record o { key = adapted names o.key }

    -- `adapterOps`.
    unfoldable pub adapter_ops : CollectionNames → List (Op Key Float) → List (Op Key Float)
    unfolding adapter_op
    adapter_ops names ops = map (adapter_op names) ops

unfoldable pub numbered : ℕ → Check → Result GuardError (Unit {0})
numbered i (ok u) = ok u
numbered i (err e) = err (refused i e)

module _ (U : Unicode) (K : Keys) {Float : Type 0} where
  open K use {Key}

  unfoldable pub guard_op : Guarded → Op Key Float → Check
  unfolding guard_key validate_data_keys validate_updates is_nil
  guard_op d o = do
    guard_key K d o.key
    validate_data_keys U d o.fields
    require (not (o.op == "update" && is_nil o.updates && not d.document_engine)) empty_write
    validate_updates U d o.updates

  unfoldable pub guard_from : Guarded → ℕ → List (Op Key Float) → Result GuardError (Unit {0})
  unfolding guard_op numbered
  guard_from d i [] = ok tt
  guard_from d i (o ∷ os) = numbered i (guard_op d o) >> guard_from d (i + 1) os

  -- `guardWrite`.
  unfoldable pub guard_write : Guarded → List (Op Key Float) → Result GuardError (Unit {0})
  unfolding guard_from
  guard_write d ops = guard_from d 0 ops
