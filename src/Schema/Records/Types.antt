-- ===== src/Schema/Records/Types.antt =====
-- pkg/schema/schema.go: which values a declared field type holds, told apart from the code's tests.
use openvaultdb_go.Base.{
  String, Bool, true, ◌≡◌, refl, sym, ap, ◌∙◌, ◌↔◌, Option, none, some, some-injective,
}
use openvaultdb_go.Schema.Values.{
  Floats, Value, Fields, Items, null, bool, float, natural, negative, number, text, array, object,
  as_float,
}
use openvaultdb_go.Schema.Declarations.{
  FieldType, type_string, type_number, type_decimal, type_integer, type_boolean, type_object,
  type_array, type_any, type_other, Decimal, Field,
}
use openvaultdb_go.Schema.Decimals.{valid_decimal_text}
use openvaultdb_go.Schema.Records.{
  value_matches_type, type_matches, value_matches_field, decimal_matches, is_number, is_integer,
}

module _ (F : Floats) where
  open F use {Float, is_integral, of_ℕ, of_neg, of_text}

  -- The values that stand for a number, and the float64 that they stand for.
  abbrev pub Represents : Value Float → Float → Type 0
  Represents (float g) f = g ≡ f
  Represents (natural n) f = of_ℕ n ≡ f
  Represents (negative n) f = of_neg n ≡ f
  Represents (number s) f = of_text s ≡ some f
  Represents _ f = ⊥

  as_float_iff : (v : Value Float) (f : Float) → (as_float F v ≡ some f) ↔ Represents v f
  unfolding as_float
  as_float_iff (float g) f = (λ h. some-injective h, λ h. ap some h)
  as_float_iff (natural n) f = (λ h. some-injective h, λ h. ap some h)
  as_float_iff (negative n) f = (λ h. some-injective h, λ h. ap some h)
  as_float_iff (number s) f = (λ h. h, λ h. h)
  as_float_iff null f = (λ h. cc, λ h. elim h [ ])
  as_float_iff (bool b) f = (λ h. cc, λ h. elim h [ ])
  as_float_iff (text s) f = (λ h. cc, λ h. elim h [ ])
  as_float_iff (array xs) f = (λ h. cc, λ h. elim h [ ])
  as_float_iff (object m) f = (λ h. cc, λ h. elim h [ ])

  -- The values of a field type. A decimal is a text, within the bounds that its field declares.
  abbrev pub HasType : Value Float → FieldType → Option Decimal → Type 0
  HasType v type_any d = Unit
  HasType v type_string d = (s : String) × (v ≡ text s)
  HasType v type_boolean d = (b : Bool) × (v ≡ bool b)
  HasType v type_object d = (m : Fields Float) × (v ≡ object m)
  HasType v type_array d = (xs : Items Float) × (v ≡ array xs)
  HasType v type_number d = (f : Float) × Represents v f
  HasType v type_integer d = (f : Float) × Represents v f × (is_integral f ≡ true)
  HasType v type_decimal d =
      (s : String) × (b : Decimal) × (v ≡ text s)
      × (d ≡ some b)
      × (valid_decimal_text s b.precision b.scale ≡ true)
  HasType v (type_other name) d = ⊥

  is_number_iff : (o : Option Float) → (is_number F o ≡ true) ↔ ((f : Float) × (o ≡ some f))
  unfolding is_number
  is_number_iff none = (λ h. cc, λ (f, e). cc)
  is_number_iff (some f) = (λ h. (f, refl), λ h. refl)

  is_integer_iff :
      (o : Option Float)
      → (is_integer F o ≡ true) ↔ ((f : Float) × (o ≡ some f) × (is_integral f ≡ true))
  unfolding is_integer
  is_integer_iff none = (λ h. cc, λ (f, e, _). cc)
  is_integer_iff (some f) = (λ h. (f, refl, h), λ (g, e, h). ap (is_integer F) e ∙ h)

  type_matches-number :
      (v : Value Float) (d : Option Decimal)
      → type_matches F v type_number d ≡ is_number F (as_float F v)
  unfolding type_matches value_matches_type
  type_matches-number null d = refl
  type_matches-number (bool b) d = refl
  type_matches-number (float f) d = refl
  type_matches-number (natural n) d = refl
  type_matches-number (negative n) d = refl
  type_matches-number (number s) d = refl
  type_matches-number (text s) d = refl
  type_matches-number (array xs) d = refl
  type_matches-number (object m) d = refl

  type_matches-integer :
      (v : Value Float) (d : Option Decimal)
      → type_matches F v type_integer d ≡ is_integer F (as_float F v)
  unfolding type_matches value_matches_type
  type_matches-integer null d = refl
  type_matches-integer (bool b) d = refl
  type_matches-integer (float f) d = refl
  type_matches-integer (natural n) d = refl
  type_matches-integer (negative n) d = refl
  type_matches-integer (number s) d = refl
  type_matches-integer (text s) d = refl
  type_matches-integer (array xs) d = refl
  type_matches-integer (object m) d = refl

  type_matches→HasType :
      (v : Value Float) (t : FieldType) (d : Option Decimal)
      → type_matches F v t d ≡ true
      → HasType v t d
  unfolding type_matches value_matches_type decimal_matches
  type_matches→HasType v type_any d h = tt
  type_matches→HasType (text s) type_string d h = (s, refl)
  type_matches→HasType (bool b) type_boolean d h = (b, refl)
  type_matches→HasType (object m) type_object d h = (m, refl)
  type_matches→HasType (array xs) type_array d h = (xs, refl)
  type_matches→HasType v type_number d h =
      let (f, e) = (is_number_iff (as_float F v)).0 (sym (type_matches-number v d) ∙ h) in
      (f, (as_float_iff v f).0 e)
  type_matches→HasType v type_integer d h =
      let (f, e, whole) = (is_integer_iff (as_float F v)).0 (sym (type_matches-integer v d) ∙ h) in
      (f, (as_float_iff v f).0 e, whole)
  type_matches→HasType (text s) type_decimal (some d) h = (s, d, refl, refl, h)
  type_matches→HasType v t d h = cc

  HasType→type_matches :
      (v : Value Float) (t : FieldType) (d : Option Decimal)
      → HasType v t d
      → type_matches F v t d ≡ true
  unfolding type_matches value_matches_type decimal_matches
  HasType→type_matches v type_any d h = any_value v
    where
      any_value : (v : Value Float) → type_matches F v type_any d ≡ true
      any_value v = refl
  HasType→type_matches v type_string d (s, e) = ap (λ v. type_matches F v type_string d) e
  HasType→type_matches v type_boolean d (b, e) = ap (λ v. type_matches F v type_boolean d) e
  HasType→type_matches v type_object d (m, e) = ap (λ v. type_matches F v type_object d) e
  HasType→type_matches v type_array d (xs, e) = ap (λ v. type_matches F v type_array d) e
  HasType→type_matches v type_number d (f, e) =
      type_matches-number v d ∙ (is_number_iff (as_float F v)).1 (f, (as_float_iff v f).1 e)
  HasType→type_matches v type_integer d (f, e, whole) =
      type_matches-integer v d
      ∙ (is_integer_iff (as_float F v)).1 (f, (as_float_iff v f).1 e, whole)
  HasType→type_matches v type_decimal d (s, b, e, bounds, valid) =
      ap (λ v. type_matches F v type_decimal d) e
      ∙ ap (type_matches F (text s) type_decimal) bounds
      ∙ valid
  HasType→type_matches v (type_other name) d h = elim h [ ]

  -- A value matches a field exactly when it is of the field's type.
  pub value_matches_field_iff :
      (v : Value Float) (f : Field)
      → (value_matches_field F v f ≡ true) ↔ HasType v f.type f.decimal
  unfolding value_matches_field
  value_matches_field_iff v f =
      (type_matches→HasType v f.type f.decimal, HasType→type_matches v f.type f.decimal)
