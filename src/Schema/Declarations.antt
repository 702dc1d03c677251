-- ===== src/Schema/Declarations.antt =====
-- pkg/schema/schema.go: modes, field types, declared fields, collections and references, and their
-- validation. A map is visited in the order of its list; a nil `*Schemas` is `none`.
use openvaultdb_go.Base.{
  String, List, [], ◌∷◌, Bool, true, false, not, ◌||◌, ◌==◌, if◌then◌else◌, Option, none, some,
  Result, ok, err, ◌>>=◌, ◌>>◌, require, lookup, length, eqb, ℤ, pos, ltb_ℤ, eqb_ℤ,
}

pub data Mode : Type 0 where
  mode_strict mode_partial mode_schemaless : Mode
  mode_other : String → Mode

pub data FieldType : Type 0 where
  type_string type_number type_decimal type_integer type_boolean type_object type_array type_any :
      FieldType
  type_other : String → FieldType

data SchemaError : Type 0 where
  mode_required unknown_mode unknown_type decimal_missing unbounded_metadata decimal_metadata :
      SchemaError
  decimal_misplaced no_fields empty_field_name mixed_reference reference_lengths : SchemaError
  undeclared_collection undeclared_field undeclared_target : SchemaError

unfoldable validate_mode : Mode → Result SchemaError (Unit {0})
validate_mode (mode_other s) = err (if s == "" then mode_required else unknown_mode)
validate_mode _ = ok tt

unfoldable validate_type : FieldType → Result SchemaError (Unit {0})
validate_type (type_other s) = err unknown_type
validate_type _ = ok tt

pub record Decimal : Type 0 where
  pub precision : ℤ
  pub scale : ℤ
  pub unbounded : Bool
  pub storage : String

pub record Field : Type 0 where
  pub type : FieldType
  pub required : Bool
  pub decimal : Option Decimal
  pub native_type : String
  pub primary_key : Bool
  pub nullable : Bool

unfoldable validate_decimal : Decimal → Result SchemaError (Unit {0})
validate_decimal d =
    if d.unbounded
    then require
        (not (
          not (eqb_ℤ d.precision (pos 0))
          || not (eqb_ℤ d.scale (pos 0))
          || not (d.storage == "text")))
        unbounded_metadata
    else require
        (not (
          ltb_ℤ d.precision (pos 1)
          || ltb_ℤ (pos 1000) d.precision
          || ltb_ℤ d.scale (pos 0)
          || ltb_ℤ d.precision d.scale
          || not (d.storage == "text")))
        decimal_metadata

-- The metadata that goes with a type: required of a decimal, refused of any other.
unfoldable validate_metadata : FieldType → Option Decimal → Result SchemaError (Unit {0})
unfolding validate_decimal
validate_metadata type_decimal none = err decimal_missing
validate_metadata type_decimal (some d) = validate_decimal d
validate_metadata _ none = ok tt
validate_metadata _ (some d) = err decimal_misplaced

unfoldable validate_field : Field → Result SchemaError (Unit {0})
unfolding validate_type validate_metadata
validate_field f = do validate_type f.type; validate_metadata f.type f.decimal

pub record NativeCollectionSource : Type 0 where
  pub schema : String
  pub name : String

pub record Reference : Type 0 where
  pub field : String
  pub fields : List String
  pub collection : String
  pub target_field : String
  pub target_fields : List String

pub record Collection : Type 0 where
  pub fields : List (String × Field)
  pub references : List Reference
  pub source : Option NativeCollectionSource

record Schemas : Type 0 where
  pub collections : List (String × Collection)

-- `(*Schemas).Collection`.
unfoldable collection_of : Option Schemas → String → Option Collection
collection_of none name = none
collection_of (some s) name = lookup name s.collections

abbrev pub is_declared {ℓ} : {A : Type ℓ} → String → List (String × A) → Bool
is_declared name m = elim (lookup name m) [ none ↦ false | some v ↦ true ]

unfoldable validate_fields_of : List (String × Field) → Result SchemaError (Unit {0})
unfolding validate_field
validate_fields_of [] = ok tt
validate_fields_of ((name, f) ∷ fs) = do
  require (not (name == "")) empty_field_name
  validate_field f
  validate_fields_of fs

abbrev is_empty {ℓ} : {A : Type ℓ} → List A → Bool
is_empty [] = true
is_empty (x ∷ xs) = false

-- The two ways to write a reference: one field and its target, or lists of both.
unfoldable reference_pairs : Reference → Result SchemaError (List String × List String)
reference_pairs r =
    if not (r.field == "") || not (r.target_field == "")
    then (do
      require
          (not (
            not (is_empty r.fields)
            || not (is_empty r.target_fields)
            || r.field == ""
            || r.target_field == ""))
          mixed_reference
      ok (r.field ∷ [], r.target_field ∷ []))
    else ok (r.fields, r.target_fields)

-- The loop `for i, field := range fields` over lists of the same length.
unfoldable validate_pairs :
    Collection → Collection → List String → List String → Result SchemaError (Unit {0})
validate_pairs col target (f ∷ fs) (t ∷ ts) = do
  require (is_declared f col.fields) undeclared_field
  require (is_declared t target.fields) undeclared_target
  validate_pairs col target fs ts
validate_pairs col target _ _ = ok tt

abbrev or_err {ℓ κ} : {E : Type ℓ} {A : Type κ} → E → Option A → Result E A
or_err e none = err e
or_err e (some a) = ok a

unfoldable validate_reference : Schemas → Collection → Reference → Result SchemaError (Unit {0})
unfolding reference_pairs validate_pairs
validate_reference s col r = do
  (fields, targets) ← reference_pairs r
  require (not (is_empty fields || not (eqb (length fields) (length targets)))) reference_lengths
  target ← or_err undeclared_collection (lookup r.collection s.collections)
  validate_pairs col target fields targets

unfoldable validate_references :
    Schemas → Collection → List Reference → Result SchemaError (Unit {0})
unfolding validate_reference
validate_references s col [] = ok tt
validate_references s col (r ∷ rs) = do validate_reference s col r; validate_references s col rs

unfoldable validate_collections :
    Schemas → List (String × Collection) → Result SchemaError (Unit {0})
unfolding validate_fields_of validate_references
validate_collections s [] = ok tt
validate_collections s ((name, col) ∷ cols) = do
  require (not (is_empty col.fields)) no_fields
  validate_fields_of col.fields
  validate_references s col col.references
  validate_collections s cols

unfoldable validate_schemas : Option Schemas → Result SchemaError (Unit {0})
unfolding validate_collections
validate_schemas none = ok tt
validate_schemas (some s) = validate_collections s s.collections
