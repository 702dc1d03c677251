-- ===== src/Tests/CoreRuns.antt =====
-- pkg/core and pkg/schema at concrete inputs.
use openvaultdb_go.Base.{
  ◌≤◌, String, List, [], ◌∷◌, ◌++◌, length, true, false, none, some, ok, ◌≡◌, refl, ◌≢◌, ◌↔◌, ◌==◌,
  if◌then◌else◌, arith, eq_iff, Memᴰ, ℤ, lookup, insert, split, trim_space, ◌⊕◌,
}
use openvaultdb_go.Core.Key.{parse_key, validate_segment}
use openvaultdb_go.Core.Key.Paths.{IsSafeSegment, path_parts, follow, Stays}
use openvaultdb_go.Core.Key.Safety.{validate_segment_iff}
use openvaultdb_go.Core.Key.Containment.{parse_key-contained}
use openvaultdb_go.Schema.Values.{Fields, end, field, text, object, get, put}
use openvaultdb_go.Schema.Decimals.{valid_decimal_text}
use openvaultdb_go.Schema.Decimals.Bounds.{IsDecimal, valid_decimal_text-IsDecimal}
use openvaultdb_go.Schema.Declarations.{mode_strict, type_string, Field, Collection}
use openvaultdb_go.Schema.Records.{
  validate_record, validate_fields, check_declared, check_known, value_matches_field,
  value_matches_type,
}
use openvaultdb_go.Schema.Records.Conforms.{Accepts, validate_record_iff}
use openvaultdb_go.Core.Updates.{
  write_at, set_at_path, at_parent, UpdateOp, DalUpdate, target, apply_update, apply_updates,
  to_dal_updates,
}
use openvaultdb_go.Core.Updates.Paths.{Diverge, read_at}
use openvaultdb_go.Core.Updates.Framing.{Written, apply_update-elsewhere, apply_update-Written}
use openvaultdb_go.Core.Updates.Driver.{apply_updates→to_dal_updates}
use openvaultdb_go.Core.Batch.{
  Op, StagedState, Mount, simulate, simulate_op, load, read_state, stage_op, check_states,
  check_state, validate_ops, is_schemaless,
}
use openvaultdb_go.Core.Batch.Refinement.{Planned}
use openvaultdb_go.Core.Batch.Accepted.{Conforms, validate_ops_sound}
use openvaultdb_go.Tests.Fixtures.{KeyPath, keys, floats}

abbrev contact : KeyPath
contact = (("contacts", "c1"), ("spaces", "s1") ∷ [])

-- From the record of the space, the way to the contact stays in the space's directory.
parse_key-contained_example :
    (below : List String) × (follow ("data" ∷ []) (path_parts ("spaces" ∷ "s1" ∷ []))
      ≡ below ++ "data" ∷ [])
    × (2 ≤ length below)
    × Stays (below ++ "data" ∷ []) (below ++ "data" ∷ []) (path_parts ("contacts" ∷ "c1" ∷ []))
unfolding parse_key
parse_key-contained_example =
    parse_key-contained keys ("spaces" ∷ "s1" ∷ []) ("contacts" ∷ "c1" ∷ []) ("data" ∷ [])
      {k = contact} refl

validate_segment_iff_example : (validate_segment "../x" ≡ ok tt) ↔ IsSafeSegment "../x"
validate_segment_iff_example = validate_segment_iff "../x"

valid_decimal_text-IsDecimal_example : IsDecimal "-12.50" 6 2
unfolding valid_decimal_text trim_space split
valid_decimal_text-IsDecimal_example =
    valid_decimal_text-IsDecimal "-12.50" 6 2 (omega arith) (omega arith) refl

abbrev name_field : Field
name_field = record {
  type = type_string;
  required = true;
  decimal = none;
  native_type = "";
  primary_key = false;
  nullable = false;
}

abbrev people : Collection
people = record { fields = ("name", name_field) ∷ []; references = []; source = none }

abbrev ann : Fields ℤ
ann = field "name" (text "Ann") (field "address" (object (field "city" (text "Cork") end)) end)

validate_record_iff_example :
    (validate_record floats mode_strict (some people) ann ≡ ok tt)
    ↔ Accepts floats mode_strict (some people) ann
validate_record_iff_example = validate_record_iff floats mode_strict (some people) ann

abbrev move : UpdateOp ℤ
move = record {
  field_name = "";
  field_path = "address" ∷ "city" ∷ [];
  value = text "Bray";
  delete = false;
  transform = "";
  server_timestamp = false;
}

abbrev moved : Fields ℤ
moved = field "name" (text "Ann") (field "address" (object (field "city" (text "Bray") end)) end)

apply_update-elsewhere_example : read_at "name" [] moved ≡ read_at "name" [] ann
unfolding target apply_update Diverge get put write_at set_at_path at_parent
apply_update-elsewhere_example =
    apply_update-elsewhere floats "now" move "address" ("city" ∷ []) "name" [] ann moved refl refl
      address-other
  where
    address-other : ◌≢◌ {A = String} "address" "name"
    address-other e = absurd (ground (arith, (eq_iff "address" "name").1 e))

apply_update-Written_example : Written floats "now" move (read_at "address" ("city" ∷ []) moved)
unfolding target apply_update get put write_at set_at_path at_parent
apply_update-Written_example =
    apply_update-Written floats "now" move "address" ("city" ∷ []) ann moved refl refl

apply_updates→to_dal_updates_example :
    (ds : List (DalUpdate ℤ)) × (to_dal_updates floats (move ∷ []) ≡ ok ds)
unfolding apply_updates apply_update get put target write_at set_at_path at_parent
apply_updates→to_dal_updates_example =
    apply_updates→to_dal_updates floats "now" (move ∷ []) ann moved refl

-- A mount without records, and a batch that inserts one and then moves it.
abbrev mount : Mount KeyPath ℤ
mount = record {
  schema_mode = mode_strict;
  is_document_engine = true;
  schema_collection = λ name. if name == "contacts" then some people else none;
  stored = λ k. ok none;
  key_text = λ k. k.0.0 ⊕ "/" ⊕ k.0.1;
  json_copy = λ m. some m;
  now = "now";
}

abbrev bob : Fields ℤ
bob = field "name" (text "Bob") end

abbrev inserts : Op KeyPath ℤ
inserts = record { op = "insert"; key = some contact; fields = some bob; updates = [] }

abbrev rename : UpdateOp ℤ
rename = record {
  field_name = "name";
  field_path = [];
  value = text "Rob";
  delete = false;
  transform = "";
  server_timestamp = false;
}

abbrev renames : Op KeyPath ℤ
renames = record { op = "update"; key = some contact; fields = none; updates = rename ∷ [] }

abbrev batch : List (Op KeyPath ℤ)
batch = inserts ∷ renames ∷ []

validate_ops_sound_example :
    (st : StagedState ℤ) × Planned keys floats mount 0 batch "contacts/c1" st
    × (is_schemaless keys floats mount mode_strict ≡ false
        → Conforms keys floats mount "contacts/c1" st)
unfolding validate_ops simulate simulate_op load read_state stage_op lookup insert check_states
    check_state validate_record validate_fields check_declared check_known get put apply_updates
    apply_update target write_at set_at_path at_parent value_matches_field value_matches_type
validate_ops_sound_example =
    validate_ops_sound keys floats mount batch inserts contact refl (Memᴰ.head refl) refl
