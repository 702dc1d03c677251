-- ===== src/Schema/Records.antt =====
-- pkg/schema/schema.go: `ValidateRecord`, the values that a schema mode lets a record hold.
pub mod Conforms
pub mod Types
use openvaultdb_go.Base.{
  ℕ, String, List, [], ◌∷◌, Bool, true, false, not, ◌&&◌, ◌||◌, ◌==◌, if◌then◌else◌, Option, none,
  some, Result, ok, err, ◌>>=◌, ◌>>◌, require, ℤ, pos,
}
use openvaultdb_go.Schema.Values.{
  Floats, Value, Fields, null, bool, text, array, object, end, field, get, as_float,
}
use openvaultdb_go.Schema.Declarations.{
  Mode, mode_strict, mode_partial, mode_schemaless, mode_other, FieldType, type_string, type_number,
  type_decimal, type_integer, type_boolean, type_object, type_array, type_any, type_other, Decimal,
  Field, Collection, is_declared,
}
use openvaultdb_go.Schema.Decimals.{valid_decimal_text}

-- A violation names the field, but for `no_schema` and `unknown_mode`.
pub data Violation : Type 0 where
  no_schema unknown_mode : Violation
  field_missing wrong_type unknown_field : String → Violation

module _ (F : Floats) where
  open F use {Float, is_integral}

  is_number : Option Float → Bool
  is_number none = false
  is_number (some f) = true

  is_integer : Option Float → Bool
  is_integer none = false
  is_integer (some f) = is_integral f

  unfoldable pub value_matches_type : Value Float → FieldType → Bool
  unfolding is_number is_integer
  value_matches_type v type_any = true
  value_matches_type (text s) type_string = true
  value_matches_type (bool b) type_boolean = true
  value_matches_type (object m) type_object = true
  value_matches_type (array xs) type_array = true
  value_matches_type v type_number = is_number (as_float F v)
  value_matches_type v type_integer = is_integer (as_float F v)
  value_matches_type _ _ = false

  decimal_matches : Value Float → Option Decimal → Bool
  decimal_matches (text s) (some d) = valid_decimal_text s d.precision d.scale
  decimal_matches _ _ = false

  type_matches : Value Float → FieldType → Option Decimal → Bool
  unfolding value_matches_type decimal_matches
  type_matches v type_decimal d = decimal_matches v d
  type_matches v t d = value_matches_type v t

  unfoldable pub value_matches_field : Value Float → Field → Bool
  unfolding type_matches
  value_matches_field v f = type_matches v f.type f.decimal

  check_value : String → Field → Option (Value Float) → Result Violation (Unit {0})
  check_value name f none = require (not f.required) (field_missing name)
  check_value name f (some null) = require (not f.required) (field_missing name)
  check_value name f (some v) = require (value_matches_field v f) (wrong_type name)

  unfoldable pub check_declared : List (String × Field) → Fields Float → Result Violation (Unit {0})
  unfolding check_value
  check_declared [] m = ok tt
  check_declared ((name, f) ∷ fs) m = do check_value name f (get name m); check_declared fs m

  unfoldable pub check_known : List (String × Field) → Fields Float → Result Violation (Unit {0})
  check_known declared end = ok tt
  check_known declared (field name v m) = do
    require (name == "id" || is_declared name declared) (unknown_field name)
    check_known declared m

  unfoldable pub validate_fields : Collection → Fields Float → Bool → Result Violation (Unit {0})
  unfolding check_declared check_known
  validate_fields col m reject_unknown = do
    check_declared col.fields m
    if reject_unknown then check_known col.fields m else ok tt

  unfoldable pub validate_record :
      Mode → Option Collection → Fields Float → Result Violation (Unit {0})
  unfolding validate_fields
  validate_record mode_schemaless col m = ok tt
  validate_record mode_partial none m = ok tt
  validate_record mode_partial (some col) m = validate_fields col m false
  validate_record mode_strict none m = err no_schema
  validate_record mode_strict (some col) m = validate_fields col m true
  validate_record (mode_other s) col m = err unknown_mode
