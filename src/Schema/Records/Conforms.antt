-- ===== src/Schema/Records/Conforms.antt =====
-- pkg/schema/schema.go: what `ValidateRecord` accepts, in each mode.
use openvaultdb_go.Base.{
  String, List, [], ◌∷◌, Bool, true, false, not, ◌||◌, ◌==◌, ◌≡◌, ◌≢◌, refl, sym, ap, ◌∙◌, ◌↔◌, ◌⊎◌,
  Option, none, some, ok, require, require_iff, >>-ok_iff, arith, eq_iff, All, inl, inr, Memᴰ,
  Bool-cases, lookup,
}
use openvaultdb_go.Schema.Values.{Floats, Value, Fields, null, end, field, get}
use openvaultdb_go.Schema.Declarations.{
  Mode, mode_strict, mode_partial, mode_schemaless, mode_other, Field, Collection, is_declared,
}
use openvaultdb_go.Schema.Records.{
  field_missing, wrong_type, value_matches_field, check_value, check_declared, check_known,
  validate_fields, validate_record,
}
use openvaultdb_go.Schema.Records.Types.{HasType, value_matches_field_iff}

module _ (F : Floats) where
  open F use {Float}

  -- A declared field is present with a value of its type, or is not required and missing or null.
  abbrev Fits : Fields Float → String × Field → Type 0
  Fits m (name, f) =
      (((get name m ≡ none) ⊎ (get name m ≡ some null)) × (f.required ≡ false))
      ⊎ ((v : Value Float) × (get name m ≡ some v) × (v ≢ null) × HasType F v f.type f.decimal)

  -- Every field of the record is declared, or is "id".
  abbrev OnlyKnown : List (String × Field) → Fields Float → Type 0
  OnlyKnown declared end = Unit
  OnlyKnown declared (field name v m) =
      ((name ≡ "id") ⊎ ((f : Field) × Memᴰ (name, f) declared)) × OnlyKnown declared m

  abbrev pub Accepts : Mode → Option Collection → Fields Float → Type 0
  Accepts mode_schemaless col m = Unit
  Accepts mode_partial none m = Unit
  Accepts mode_partial (some col) m = All (Fits m) col.fields
  Accepts mode_strict none m = ⊥
  Accepts mode_strict (some col) m = All (Fits m) col.fields × OnlyKnown col.fields m
  Accepts (mode_other s) col m = ⊥

  not-true : {b : Bool} → not b ≡ true → b ≡ false
  not-true h = ground arith

  true-not : {b : Bool} → b ≡ false → not b ≡ true
  true-not h = ground arith

  check_value-absent :
      (name : String) (f : Field) (o : Option (Value Float))
      → ((o ≡ none) ⊎ (o ≡ some null))
      → check_value F name f o ≡ require (not f.required) (field_missing name)
  unfolding check_value
  check_value-absent name f o (inl e) = ap (check_value F name f) e
  check_value-absent name f o (inr e) = ap (check_value F name f) e

  check_value-present :
      (name : String) (f : Field) (v : Value Float)
      → v ≢ null
      → check_value F name f (some v) ≡ require (value_matches_field F v f) (wrong_type name)
  unfolding check_value
  check_value-present name f null h = absurd (h refl)
  check_value-present name f v h = refl

  check_value→Fits :
      (name : String) (f : Field) (o : Option (Value Float))
      → check_value F name f o ≡ ok tt
      → (((o ≡ none) ⊎ (o ≡ some null)) × (f.required ≡ false))
        ⊎ ((v : Value Float) × (o ≡ some v) × (v ≢ null) × HasType F v f.type f.decimal)
  unfolding check_value
  check_value→Fits name f none h = inl (inl refl, not-true ((require_iff _ _).0 h))
  check_value→Fits name f (some null) h = inl (inr refl, not-true ((require_iff _ _).0 h))
  check_value→Fits name f (some v) h =
      inr (v, refl, (λ e. cc), (value_matches_field_iff F v f).0 ((require_iff _ _).0 h))

  check_value-Fits :
      (m : Fields Float) (name : String) (f : Field)
      → (check_value F name f (get name m) ≡ ok tt) ↔ Fits m (name, f)
  check_value-Fits m name f = (
    check_value→Fits name f (get name m),
    λ fits. elim fits [
      | inl (ab, opt) ↦
          check_value-absent name f (get name m) ab ∙ (require_iff _ _).1 (true-not opt)
      | inr (v, there, present, fit) ↦
          ap (check_value F name f) there
          ∙ check_value-present name f v present
          ∙ (require_iff _ _).1 ((value_matches_field_iff F v f).1 fit)
    ],
  )

  check_declared_iff :
      (fs : List (String × Field)) (m : Fields Float)
      → (check_declared F fs m ≡ ok tt) ↔ All (Fits m) fs
  unfolding check_declared
  check_declared_iff [] m = (λ h. tt, λ h. refl)
  check_declared_iff ((name, f) ∷ fs) m = (
    λ h.
        let (x, y) = (>>-ok_iff _ _).0 h in
        ((check_value-Fits m name f).0 x, (check_declared_iff fs m).0 y),
    λ (x, y). (>>-ok_iff _ _).1 ((check_value-Fits m name f).1 x, (check_declared_iff fs m).1 y),
  )

  or_iff : {b c : Bool} → (b || c ≡ true) ↔ ((b ≡ true) ⊎ (c ≡ true))
  or_iff = ground arith

  is_declared_iff :
      (name : String) (declared : List (String × Field))
      → (is_declared name declared ≡ true) ↔ ((f : Field) × Memᴰ (name, f) declared)
  unfolding lookup
  is_declared_iff name [] = (λ h. cc, λ (f, m). elim m [ ])
  is_declared_iff name ((k, f) ∷ declared) =
      let (to, from) = is_declared_iff name declared in
      elim (Bool-cases (k == name)) [
        | inl same ↦
            rw (same, is_declared, lookup)
              (λ h. (f, Memᴰ.head (ap (λ k. (k, f)) (sym ((eq_iff k name).0 same)))), λ m. refl)
        | inr other ↦
            rw (other, is_declared, lookup)
              (
                λ h. let (g, m) = to h in (g, Memᴰ.tail m),
                λ (g, m). from (g, later k name f g declared other m),
              )
      ]
    where
      later :
          (k name : String) (f g : Field) (declared : List (String × Field))
          → k == name ≡ false
          → Memᴰ (name, g) ((k, f) ∷ declared)
          → Memᴰ (name, g) declared
      later k name f g declared other (Memᴰ.head e) =
          absurd (ground (arith, eq_iff k name, sym (ap (λ p. p.0) e), other))
      later k name f g declared other (Memᴰ.tail m) = m

  known_iff :
      (name : String) (declared : List (String × Field))
      → (name == "id" || is_declared name declared ≡ true)
        ↔ ((name ≡ "id") ⊎ ((f : Field) × Memᴰ (name, f) declared))
  known_iff name declared = (
    λ h. elim (or_iff.0 h) [
      | inl e ↦ inl ((eq_iff _ _).0 e)
      | inr d ↦ inr ((is_declared_iff name declared).0 d)
    ],
    λ h. elim h [
      | inl e ↦ or_iff.1 (inl ((eq_iff _ _).1 e))
      | inr d ↦ or_iff.1 (inr ((is_declared_iff name declared).1 d))
    ],
  )

  check_known_iff :
      (declared : List (String × Field)) (m : Fields Float)
      → (check_known F declared m ≡ ok tt) ↔ OnlyKnown declared m
  unfolding check_known
  check_known_iff declared end = (λ h. tt, λ h. refl)
  check_known_iff declared (field name v m) = (
    λ h.
        let (x, y) = (>>-ok_iff _ _).0 h in
        ((known_iff name declared).0 ((require_iff _ _).0 x), (check_known_iff declared m).0 y),
    λ (x, y).
        (>>-ok_iff _ _).1
          ((require_iff _ _).1 ((known_iff name declared).1 x), (check_known_iff declared m).1 y),
  )

  both_iff :
      (col : Collection) (m : Fields Float)
      → (validate_fields F col m true ≡ ok tt) ↔ (All (Fits m) col.fields × OnlyKnown col.fields m)
  unfolding validate_fields
  both_iff col m = (
    λ h.
        let (x, y) = (>>-ok_iff _ _).0 h in
        ((check_declared_iff _ m).0 x, (check_known_iff _ m).0 y),
    λ (x, y). (>>-ok_iff _ _).1 ((check_declared_iff _ m).1 x, (check_known_iff _ m).1 y),
  )

  declared_iff :
      (col : Collection) (m : Fields Float)
      → (validate_fields F col m false ≡ ok tt) ↔ All (Fits m) col.fields
  unfolding validate_fields
  declared_iff col m = (
    λ h. (check_declared_iff _ m).0 ((>>-ok_iff _ _).0 h).0,
    λ x. (>>-ok_iff _ _).1 ((check_declared_iff _ m).1 x, refl),
  )

  -- `ValidateRecord` accepts a record exactly when the mode is schemaless; or partial and every
  -- declared field, if there is a declaration, fits; or strict, declared, every declared field
  -- fits and no field but "id" is undeclared. A field fits when it has a value, not null, that is
  -- of its type, or is not required and missing or null. A text, a truth value, an object and an
  -- array are of the type of that name; a number is a float64 or what converts to one, an integer
  -- such a number without a fraction, a decimal a text within the bounds declared.
  pub validate_record_iff :
      (mode : Mode) (col : Option Collection) (m : Fields Float)
      → (validate_record F mode col m ≡ ok tt) ↔ Accepts mode col m
  unfolding validate_record
  validate_record_iff mode_schemaless col m = (λ h. tt, λ h. refl)
  validate_record_iff mode_partial none m = (λ h. tt, λ h. refl)
  validate_record_iff mode_partial (some col) m = declared_iff col m
  validate_record_iff mode_strict none m = (λ h. cc, λ h. elim h [ ])
  validate_record_iff mode_strict (some col) m = both_iff col m
  validate_record_iff (mode_other s) col m = (λ h. cc, λ h. elim h [ ])
