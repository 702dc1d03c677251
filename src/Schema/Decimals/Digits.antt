-- ===== src/Schema/Decimals/Digits.antt =====
-- pkg/schema/schema.go: the number that the whole part of a decimal text denotes, and its bound.
use Prim.Native.Char.{len_utf8, len_utf8_def, width}
use Prim.Native.String.{len}
use Prim.Native.String.len
use Prim.Native.Nat.{compare, Ordering}
use native.Mathlib.Nat.{pow-suc, mul-le-mul_right, pow-le-pow_right, lt_of_lt_of_le, one-le-pow}
use openvaultdb_go.Base.{
  ℕ, suc, ◌+◌, ◌-◌, ◌*◌, ◌^◌, ◌<◌, ◌≤◌, ◌≡◌, ◌≢◌, refl, ap, ◌∙◌, arith, pos, ◌-ℤ◌, ltb_ℤ,
  Bool-cases, inl, inr, eq_iff, String, Char, code, Bool, true, false, not, ◌&&◌, ◌==◌, eqb,
}
use text.Mathlib.TextLemmas.{head-eq_of_cons-eq}
use openvaultdb_go.Schema.Decimals.{is_digit, all_digits, trim_zeros, fits_integer}

-- The number that a text of digits denotes.
pub digits_value : String → ℕ
digits_value String.[] = 0
digits_value (String.◌∷◌ c s) = (code c - 48) * 10 ^ len s + digits_value s

compare-lt : (a b : ℕ) → a < b → compare a b ≡ Ordering.lt
compare-lt a b h = ground arith

len_utf8-digit : (c : Char) → is_digit c ≡ true → len_utf8 c ≡ 1
unfolding is_digit
len_utf8-digit c h =
    let narrow : width (compare (code c) 128) (compare (code c) 2048) (compare (code c) 65536) ≡ 1 =
      rw (compare-lt (code c) 128 (ground arith)) refl in
    (λ i. len_utf8_def c i) ∙ narrow

len-digit : (c : Char) (s : String) → is_digit c ≡ true → len (String.◌∷◌ c s) ≡ suc (len s)
unfolding is_digit
len-digit c s h = (λ i. len.cons c s i) ∙ ap (λ n. n + len s) (len_utf8-digit c h) ∙ omega arith

digits_value-lt : (s : String) → all_digits s ≡ true → digits_value s < 10 ^ len s
unfolding digits_value all_digits
digits_value-lt String.[] h = omega arith
digits_value-lt (String.◌∷◌ c s) h =
    let d : code c - 48 ≤ 9 = unfold is_digit in (ground arith) in
    let small : digits_value s < 10 ^ len s = digits_value-lt s (ground arith) in
    rw (len-digit c s (ground arith), pow-suc) (omega (arith, mul-le-mul_right (10 ^ len s) d))

trim_zeros-value : (s : String) → digits_value (trim_zeros s) ≡ digits_value s
unfolding digits_value trim_zeros
trim_zeros-value String.[] = refl
trim_zeros-value (String.◌∷◌ c s) = ground (arith, trim_zeros-value s)

trim_zeros-digits : (s : String) → all_digits s ≡ true → all_digits (trim_zeros s) ≡ true
unfolding all_digits trim_zeros
trim_zeros-digits String.[] h = refl
trim_zeros-digits (String.◌∷◌ c s) h = ground (arith, trim_zeros-digits s)

not-true : {b : Bool} → not b ≡ true → b ≡ false
not-true h = ground arith

-- What is left of a text without its leading zeros is never "0".
trim_zeros-ne : (s : String) → trim_zeros s ≢ "0"
unfolding trim_zeros
trim_zeros-ne String.[] = ground (arith, eq_iff "" "0")
trim_zeros-ne (String.◌∷◌ c s) = elim (Bool-cases (eqb (code c) b'0')) [
  | inl nought ↦ rw nought (trim_zeros-ne s)
  | inr other ↦ rw other (λ e. other_head (code c) other (ap code (head-eq_of_cons-eq e)))
]
  where
    other_head : (n : ℕ) → eqb n b'0' ≡ false → n ≢ b'0'
    other_head n h = ground arith

zero-lt-power : (n : ℕ) → digits_value "" < 10 ^ n
unfolding digits_value
zero-lt-power n = one-le-pow n 10 (omega arith)

trimmed_short :
    (trimmed : String) (p s : ℕ)
    → s ≤ p
    → trimmed ≢ "0"
    → not (not (trimmed == "0") && ltb_ℤ (pos p -ℤ pos s) (pos (len trimmed))) ≡ true
    → len trimmed ≤ p - s
trimmed_short trimmed p s h n fit = ground (arith, eq_iff trimmed "0")

pub fits_integer-lt :
    (whole : String) (p s : ℕ)
    → s ≤ p
    → all_digits whole ≡ true
    → fits_integer whole (pos p) (pos s) ≡ true
    → digits_value whole < 10 ^ (p - s)
unfolding fits_integer
fits_integer-lt whole p s h d fit = elim (Bool-cases (trim_zeros whole == "")) [
  | inl all_zero ↦ rw (← trim_zeros-value whole, (eq_iff _ _).0 all_zero) (zero-lt-power (p - s))
  | inr rest ↦
      let short : len (trim_zeros whole) ≤ p - s =
        trimmed_short (trim_zeros whole) p s h (trim_zeros-ne whole) (rw rest at fit) in
      rw (← trim_zeros-value whole) (
        lt_of_lt_of_le (digits_value-lt (trim_zeros whole) (trim_zeros-digits whole d))
          (pow-le-pow_right {n = 10} (zero-lt-ten) short))
]
  where
    zero-lt-ten : 0 < 10
    zero-lt-ten = omega arith
