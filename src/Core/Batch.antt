-- ===== src/Core/Batch.antt =====
-- pkg/core/core.go: `validateOps`, the simulation of a write batch that decides whether any of it is
-- written. The driver, the manifest and the key type of dal-go are parameters.
pub mod Refinement
pub mod Accepted
use openvaultdb_go.Base.{
  ℕ, suc, String, List, [], ◌∷◌, Bool, true, false, ◌&&◌, not, ◌==◌, if◌then◌else◌, Option, none,
  some, Result, ok, err, ◌>>=◌, ◌>>◌, require, lookup, insert, ◌≡◌,
}
use openvaultdb_go.Auth.Middleware.{strip_fold}
use openvaultdb_go.Schema.Values.{Floats, Value, Fields, end, field}
use openvaultdb_go.Schema.Declarations.{Mode, mode_schemaless, Collection}
use openvaultdb_go.Schema.Records.{Violation, validate_record}
use openvaultdb_go.Core.Key.{Keys}
use openvaultdb_go.Core.Updates.{UpdateOp, UpdateError, apply_updates}

pub record Op (Key : Type 0) (Float : Type 0) : Type 0 where
  pub op : String
  pub key : Option Key
  pub fields : Option (Fields Float)
  pub updates : List (UpdateOp Float)

pub record StagedState (Float : Type 0) : Type 0 where
  pub fields : Option (Fields Float)
  pub exists : Bool

-- The errors of a batch; `read_failed` stands for what the driver answered.
pub data BatchError : Type 0 where
  key_required read_failed empty_write : ℕ → BatchError
  already_exists missing_record : String → BatchError
  update_failed : ℕ → ℕ × UpdateError → BatchError
  unknown_op : ℕ → String → BatchError
  invalid : Violation → BatchError

abbrev pub Stage : Type 0 → Type 0
Stage Float = List (String × StagedState Float)

-- The mount of a database, as a batch meets it: the store does not change during the validation.
pub record Mount (Key : Type 0) (Float : Type 0) : Type 0 where
  pub schema_mode : Mode
  pub is_document_engine : Bool
  pub schema_collection : String → Option Collection
  pub stored : Key → Result (Unit {0}) (Option (Fields Float))  -- `Get`; none is ErrNotFound
  pub key_text : Key → String  -- `record.Key.String`
  pub json_copy : Fields Float → Option (Fields Float)  -- `json.Marshal`, then `json.Unmarshal`
  pub now : String

module _ (K : Keys) (F : Floats) (D : Mount K.Key F.Float) where
  open K use {Key, collection}
  open F use {Float}
  open D use {schema_mode, is_document_engine, schema_collection, stored, key_text, json_copy, now}

  copied : Fields Float → Option (Fields Float) → Fields Float
  copied m none = m
  copied m (some c) = c

  deep_copy : Option (Fields Float) → Option (Fields Float)
  unfolding copied
  deep_copy none = none
  deep_copy (some m) = some (copied m (json_copy m))

  -- `strings.EqualFold(name, keyColumn)`: no character but the ASCII letters folds to those of "id".
  is_key_column : Option String → Bool
  is_key_column none = false
  is_key_column (some rest) = rest == ""

  only_key : Fields Float → Bool
  unfolding is_key_column
  only_key end = true
  only_key (field name v m) = is_key_column (strip_fold "id" name) && only_key m

  sets_no_column : Option (Fields Float) → Bool
  unfolding only_key
  sets_no_column none = not is_document_engine
  sets_no_column (some m) = not is_document_engine && only_key m

  -- `load`: the staged state of the key, read from the store at its first use.
  unfoldable pub read_state : Key → Result (Unit {0}) (StagedState Float)
  read_state k = do
    found ← stored k
    ok (elim found [
      | none ↦ record { fields = none; exists = false }
      | some m ↦ record { fields = some m; exists = true }
    ])

  unfoldable pub load : Key → Stage Float → Result (Unit {0}) (StagedState Float)
  unfolding read_state
  load k stage = elim (lookup (key_text k) stage) [ some st ↦ ok st | none ↦ read_state k ]

  pub or_empty : Option (Fields Float) → Fields Float
  or_empty none = end
  or_empty (some m) = m

  updated : ℕ → Result (ℕ × UpdateError) (Fields Float) → Result BatchError (StagedState Float)
  updated i (ok m) = ok record { fields = some m; exists = true }
  updated i (err e) = err (update_failed i e)

  -- The `switch` of one operation.
  unfoldable pub stage_op :
      ℕ → Op Key Float → String → StagedState Float → Result BatchError (StagedState Float)
  unfolding deep_copy sets_no_column or_empty updated
  stage_op i o ks st =
      if o.op == "set"
      then (require (not (st.exists && sets_no_column o.fields)) (empty_write i)
          >> ok record { fields = deep_copy o.fields; exists = true })
      else (if o.op == "insert"
          then (require (not st.exists) (already_exists ks)
              >> ok record { fields = deep_copy o.fields; exists = true })
          else (if o.op == "update"
              then (require st.exists (missing_record ks)
                  >> updated i (apply_updates F now o.updates (or_empty st.fields)))
              else (if o.op == "delete"
                  then ok record { fields = none; exists = false }
                  else err (unknown_op i o.op))))

  -- The simulated batch: the staged states by key text, and the collection of each.
  abbrev pub Simulation : Type 0
  Simulation = Stage Float × List (String × String)

  loaded : {A : Type 0} → ℕ → Result (Unit {0}) A → Result BatchError A
  loaded i (ok a) = ok a
  loaded i (err e) = err (read_failed i)

  unfoldable pub simulate_op : ℕ → Op Key Float → Simulation → Result BatchError Simulation
  unfolding loaded
  simulate_op i o (stage, leaf_by_key) = elim o.key [
    | none ↦ err (key_required i)
    | some k ↦ do
      st ← loaded i (load k stage)
      after ← stage_op i o (key_text k) st
      ok (insert (key_text k) after stage, insert (key_text k) (collection k) leaf_by_key)
  ]

  unfoldable pub simulate : ℕ → List (Op Key Float) → Simulation → Result BatchError Simulation
  simulate i [] sim = ok sim
  simulate i (o ∷ os) sim = do next ← simulate_op i o sim; simulate (suc i) os next

  leaf_of : Option String → String
  leaf_of none = ""
  leaf_of (some leaf) = leaf

  checked : Result Violation (Unit {0}) → Result BatchError (Unit {0})
  checked (ok u) = ok u
  checked (err v) = err (invalid v)

  unfoldable pub check_state :
      String → StagedState Float → List (String × String) → Result BatchError (Unit {0})
  unfolding leaf_of checked or_empty
  check_state ks st leaf_by_key =
      if st.exists
      then checked (
          validate_record F schema_mode (schema_collection (leaf_of (lookup ks leaf_by_key)))
            (or_empty st.fields))
      else ok tt

  unfoldable pub check_states : Stage Float → List (String × String) → Result BatchError (Unit {0})
  check_states [] leaf_by_key = ok tt
  check_states ((ks, st) ∷ stage) leaf_by_key = do
    check_state ks st leaf_by_key
    check_states stage leaf_by_key

  pub is_schemaless : Mode → Bool
  is_schemaless mode_schemaless = true
  is_schemaless _ = false

  unfoldable pub validate_ops : List (Op Key Float) → Result BatchError (Unit {0})
  unfolding is_schemaless
  validate_ops ops = do
    (stage, leaf_by_key) ← simulate 0 ops ([], [])
    if is_schemaless schema_mode then ok tt else check_states stage leaf_by_key
