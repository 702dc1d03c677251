-- ===== src/Schema/Values.antt =====
-- The decoded JSON values that records hold (`any` in Go), and the field types of pkg/schema. Go's
-- float64 is a parameter with the operations that the program uses of it.
use openvaultdb_go.Base.{ℕ, ℤ, String, Bool, Option, none, some, ◌==◌, if◌then◌else◌}

-- What the program uses of float64. An integer type is converted to it, a `json.Number` parsed.
pub record Floats : Type 1 where
  pub Float : Type 0
  pub of_ℕ : ℕ → Float
  pub of_neg : ℕ → Float  -- the negative integer -n
  pub of_text : String → Option Float  -- `json.Number.Float64`
  pub is_integral : Float → Bool  -- `f == math.Trunc(f)`
  pub to_int : Float → ℤ  -- `int(f)`
  pub add : Float → Float → Float
  pub zero_float : Float

-- A value as `encoding/json` and the drivers make it. An object is a mutable `map[string]any`; a
-- value holds its own copy of it here.
mutual
  pub data Value (Float : Type 0) : Type 0 where
    null : Value Float
    bool : Bool → Value Float
    float : Float → Value Float
    natural : ℕ → Value Float  -- an int, int64, uint64 of this value
    negative : ℕ → Value Float  -- an int or int64 of the value -n
    number : String → Value Float  -- a `json.Number`
    text : String → Value Float
    array : Items Float → Value Float
    object : Fields Float → Value Float

  pub data Items (Float : Type 0) : Type 0 where
    nil : Items Float
    cons : Value Float → Items Float → Items Float

  pub data Fields (Float : Type 0) : Type 0 where
    end : Fields Float
    field : String → Value Float → Fields Float → Fields Float

module _ {Float : Type 0} where
  -- `m[name]`, and `ok`.
  unfoldable pub get : String → Fields Float → Option (Value Float)
  get name end = none
  get name (field k v m) = if k == name then some v else get name m

  -- `m[name] = v`.
  unfoldable pub put : String → Value Float → Fields Float → Fields Float
  put name v end = field name v end
  put name v (field k w m) = if k == name then field name v m else field k w (put name v m)

  -- `delete(m, name)`.
  unfoldable pub drop : String → Fields Float → Fields Float
  drop name end = end
  drop name (field k w m) = let rest = drop name m in if k == name then rest else field k w rest

module _ (F : Floats) where
  open F use {Float, of_ℕ, of_neg, of_text}

  -- `asFloat` and `toFloat`, which differ in the integer types that they list only.
  unfoldable pub as_float : Value Float → Option Float
  as_float (float f) = some f
  as_float (natural n) = some (of_ℕ n)
  as_float (negative n) = some (of_neg n)
  as_float (number s) = of_text s
  as_float _ = none
