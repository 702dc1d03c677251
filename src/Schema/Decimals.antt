-- ===== src/Schema/Decimals.antt =====
-- pkg/schema/schema.go: `validDecimalText`, the lexemes of an exact decimal field.
pub mod Digits
pub mod Bounds
use Prim.Native.Char.{len_utf8, len_utf8_def}
use Prim.Native.String.{len}
use Prim.Native.String.len
use Prim.Native.Nat.{compare, Ordering}
use native.Mathlib.Nat.{pow-suc, mul-le-mul_right}
use openvaultdb_go.Base.{
  ℕ, suc, ◌+◌, ◌-◌, ◌*◌, ◌^◌, ◌<◌, ◌≤◌, ◌≡◌, refl, ap, ◌∙◌, arith, ℤ, pos, ◌-ℤ◌, ltb_ℤ, eqb_ℤ,
  String, Char, code, List, [], ◌∷◌, Bool, true, false, not, ◌&&◌, ◌||◌, ◌==◌, ltb, leb, eqb,
  if◌then◌else◌, split, trim_space,
}

pub is_digit : Char → Bool
is_digit c = leb b'0' (code c) && leb (code c) b'9'

pub all_digits : String → Bool
unfolding is_digit
all_digits String.[] = true
all_digits (String.◌∷◌ c s) = is_digit c && all_digits s

pub parts_digits : List String → Bool
unfolding all_digits
parts_digits [] = true
parts_digits (p ∷ ps) = all_digits p && parts_digits ps

unfoldable pub signless : String → String
signless String.[] = ""
signless (String.◌∷◌ c s) = if eqb (code c) b'-' || eqb (code c) b'+' then s else String.◌∷◌ c s

-- `strings.TrimLeft(s, "0")`.
unfoldable pub trim_zeros : String → String
trim_zeros String.[] = ""
trim_zeros (String.◌∷◌ c s) =
    let rest = trim_zeros s in if eqb (code c) b'0' then rest else String.◌∷◌ c s

-- The integer digits fit the precision less the scale.
unfoldable pub fits_integer : String → ℤ → ℤ → Bool
unfolding trim_zeros
fits_integer whole precision scale =
    let trimmed = trim_zeros whole in
    let digits = if trimmed == "" then "0" else trimmed in
    not (not (digits == "0") && ltb_ℤ (precision -ℤ scale) (pos (len digits)))

-- What is checked of the parts around the decimal point.
unfoldable pub valid_parts : Bool → List String → ℤ → ℤ → Bool
unfolding parts_digits fits_integer
valid_parts unbounded [] precision scale = false
valid_parts unbounded (whole ∷ []) precision scale =
    if whole == ""
    then false
    else if not (parts_digits (whole ∷ []))
    then false
    else if unbounded
    then true
    else fits_integer whole precision scale
valid_parts unbounded (whole ∷ fraction ∷ []) precision scale =
    if (whole == "" && fraction == "") || (not unbounded && ltb_ℤ scale (pos (len fraction)))
    then false
    else if not (parts_digits (whole ∷ fraction ∷ []))
    then false
    else if unbounded
    then true
    else fits_integer whole precision scale
valid_parts unbounded _ precision scale = false

unfoldable pub valid_decimal_text : String → ℤ → ℤ → Bool
unfolding valid_parts signless
valid_decimal_text value precision scale =
    let unbounded = eqb_ℤ precision (pos 0) && eqb_ℤ scale (pos 0) in
    if value == "" || not (trim_space value == value)
    then false
    else if unbounded && (value == "NaN" || value == "Infinity" || value == "-Infinity")
    then true
    else valid_parts unbounded (split "." (signless value)) precision scale
