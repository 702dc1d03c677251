-- ===== src/Core/Updates.antt =====
-- pkg/core/updates.go: the field updates of a batch, as simulated before the driver is given them
-- (`applyUpdates`) and as converted for the driver (`toDalUpdates`).
pub mod Paths
pub mod Framing
pub mod Driver
use openvaultdb_go.Base.{
  ℕ, suc, String, List, [], ◌∷◌, Bool, true, false, ◌&&◌, ◌||◌, not, ◌==◌, if◌then◌else◌, Option,
  none, some, Result, ok, err, ◌>>=◌, ◌>>◌, require, ℤ,
}
use openvaultdb_go.Schema.Values.{
  Floats, Value, Fields, null, object, float, text, end, get, put, drop, as_float,
}

pub record UpdateOp (Float : Type 0) : Type 0 where
  pub field_name : String
  pub field_path : List String
  pub value : Value Float
  pub delete : Bool
  pub transform : String
  pub server_timestamp : Bool

-- The errors of one update; the position of the update is put before them.
pub data UpdateError : Type 0 where
  both_targets no_target empty_segment increment_not_number : UpdateError
  unknown_transform not_an_object increment_of_non_number : String → UpdateError

-- `update.Update`: what a field is set to, and the field.
pub data DalValue (Float : Type 0) : Type 0 where
  delete_field server_timestamp_value : DalValue Float
  increment_by : ℤ → DalValue Float
  plain : Value Float → DalValue Float

pub data DalUpdate (Float : Type 0) : Type 0 where
  by_field_path : List String → DalValue Float → DalUpdate Float
  by_field_name : String → DalValue Float → DalUpdate Float

abbrev pub Outcome : Type 0 → Type 0
Outcome A = Result UpdateError A

-- The object that the walk goes on in: none when it stops without a change.
child_map :
    {Float : Type 0} → Bool → String → Option (Value Float) → Outcome (Option (Fields Float))
child_map create seg none = ok (if create then some end else none)
child_map create seg (some null) = ok (if create then some end else none)
child_map create seg (some (object c)) = ok (some c)
child_map create seg (some v) = if create then err (not_an_object seg) else ok none

-- `parentAtPath` and the change `f` of the parent's leaf: the path is its first segment and the rest.
unfoldable pub at_parent :
    {Float : Type 0}
    → Bool
    → (String → Fields Float → Outcome (Fields Float))
    → String
    → List String
    → Fields Float
    → Outcome (Fields Float)
unfolding child_map
at_parent create f leaf [] m = f leaf m
at_parent create f seg (next ∷ rest) m = do
  child ← child_map create seg (get seg m)
  elim child [
    | none ↦ ok m
    | some c ↦ do changed ← at_parent create f next rest c; ok (put seg (object changed) m)
  ]

unfoldable pub set_at_path :
    {Float : Type 0} → String → List String → Value Float → Fields Float → Outcome (Fields Float)
set_at_path seg rest v m = at_parent true (λ leaf parent. ok (put leaf v parent)) seg rest m

unfoldable pub delete_at_path :
    {Float : Type 0} → String → List String → Fields Float → Outcome (Fields Float)
delete_at_path seg rest m = at_parent false (λ leaf parent. ok (drop leaf parent)) seg rest m

module _ (F : Floats) where
  open F use {Float, add, zero_float, to_int}

  -- The number that an increment starts from.
  current_number : String → Option (Value Float) → Outcome Float
  current_number leaf none = ok zero_float
  current_number leaf (some null) = ok zero_float
  current_number leaf (some v) = elim (as_float F v) [
    | none ↦ err (increment_of_non_number leaf)
    | some x ↦ ok x
  ]

  unfoldable pub increment_leaf : Float → String → Fields Float → Outcome (Fields Float)
  unfolding current_number
  increment_leaf d leaf parent = do
    current ← current_number leaf (get leaf parent)
    ok (put leaf (float (add current d)) parent)

  unfoldable pub increment_at_path :
      String → List String → Value Float → Fields Float → Outcome (Fields Float)
  increment_at_path seg rest delta m = elim (as_float F delta) [
    | none ↦ err increment_not_number
    | some d ↦ at_parent true (increment_leaf d) seg rest m
  ]

  all_named : List String → Bool
  all_named [] = true
  all_named (s ∷ ss) = not (s == "") && all_named ss

  no_path : List String → Bool
  no_path [] = true
  no_path (s ∷ ss) = false

  -- The path of an update, its first segment and the rest.
  unfoldable pub target : UpdateOp Float → Outcome (String × List String)
  unfolding all_named no_path
  target u = do
    require (u.field_name == "" || no_path u.field_path) both_targets
    elim u.field_path [
      | [] ↦ if u.field_name == "" then err no_target else ok (u.field_name, [])
      | seg ∷ rest ↦ do require (all_named (seg ∷ rest)) empty_segment; ok (seg, rest)
    ]

  -- The `switch` of `applyUpdates`.
  unfoldable pub write_at :
      String → UpdateOp Float → String → List String → Fields Float → Outcome (Fields Float)
  write_at now u seg rest m =
      if u.delete
      then delete_at_path seg rest m
      else (if u.server_timestamp
          then set_at_path seg rest (text now) m
          else (if u.transform == "increment"
              then increment_at_path seg rest u.value m
              else (if u.transform == ""
                  then set_at_path seg rest u.value m
                  else err (unknown_transform u.transform))))

  unfoldable pub apply_update : String → UpdateOp Float → Fields Float → Outcome (Fields Float)
  apply_update now u m = do (seg, rest) ← target u; write_at now u seg rest m

  at_update : {A : Type 0} → ℕ → Outcome A → Result (ℕ × UpdateError) A
  at_update i (ok a) = ok a
  at_update i (err e) = err (i, e)

  apply_from :
      ℕ → String → List (UpdateOp Float) → Fields Float → Result (ℕ × UpdateError) (Fields Float)
  unfolding at_update
  apply_from i now [] m = ok m
  apply_from i now (u ∷ us) m = do
    changed ← at_update i (apply_update now u m)
    apply_from (suc i) now us changed

  unfoldable pub apply_updates :
      String → List (UpdateOp Float) → Fields Float → Result (ℕ × UpdateError) (Fields Float)
  unfolding apply_from
  apply_updates now us m = apply_from 0 now us m

  dal_value : UpdateOp Float → Outcome (DalValue Float)
  dal_value u =
      if u.delete
      then ok delete_field
      else (if u.server_timestamp
          then ok server_timestamp_value
          else (if u.transform == "increment"
              then elim (as_float F u.value) [
                | none ↦ err increment_not_number
                | some n ↦ ok (increment_by (to_int n))
              ]
              else (if u.transform == ""
                  then ok (plain u.value)
                  else err (unknown_transform u.transform))))

  unfoldable pub to_dal_update : UpdateOp Float → Outcome (DalUpdate Float)
  unfolding dal_value no_path
  to_dal_update u = do
    require (u.field_name == "" || no_path u.field_path) both_targets
    require (not (u.field_name == "" && no_path u.field_path)) no_target
    v ← dal_value u
    ok (if no_path u.field_path then by_field_name u.field_name v else by_field_path u.field_path v)

  dal_from : ℕ → List (UpdateOp Float) → Result (ℕ × UpdateError) (List (DalUpdate Float))
  unfolding at_update
  dal_from i [] = ok []
  dal_from i (u ∷ us) = do d ← at_update i (to_dal_update u); ds ← dal_from (suc i) us; ok (d ∷ ds)

  unfoldable pub to_dal_updates :
      List (UpdateOp Float) → Result (ℕ × UpdateError) (List (DalUpdate Float))
  unfolding dal_from
  to_dal_updates us = dal_from 0 us
