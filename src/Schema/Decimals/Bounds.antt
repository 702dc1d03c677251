-- ===== src/Schema/Decimals/Bounds.antt =====
-- pkg/schema/schema.go: the numbers that an accepted decimal text denotes fit the declared precision.
use Prim.Native.String.{len}
use openvaultdb_go.Base.{
  ℕ, ◌-◌, ◌^◌, ◌<◌, ◌≤◌, ◌≡◌, ◌≢◌, ◌⊎◌, ◌⊕◌, Every, join, join-split, singleton-append, sym,
  eqb_iff, refl, ap, arith, pos, eqb_ℤ, Bool-cases, inl, inr, eq_iff, String, Char, code, List, [],
  ◌∷◌, Bool, true, false, not, ◌&&◌, ◌||◌, ◌==◌, eqb, if◌then◌else◌, split, trim_space,
}
use text.Mathlib.TextEquality.{Char-path}
use text.Mathlib.TextLemmas.{nil-append}
use openvaultdb_go.Schema.Decimals.{
  is_digit, all_digits, parts_digits, signless, valid_parts, valid_decimal_text,
}
use openvaultdb_go.Schema.Decimals.Digits.{digits_value, fits_integer-lt}

-- A value that a bounded decimal field accepts: a sign or none, then digits around at most one
-- point, at least one, as many behind it as the scale allows, and a whole part below 10 to the power
-- of precision less scale.
pub record IsDecimal (value : String) (precision scale : ℕ) : Type 0 where
  pub sign : String
  pub body : String
  pub whole : String
  pub fraction : String
  pub signed : value ≡ sign ⊕ body
  pub one_sign : (sign ≡ "") ⊎ ((sign ≡ "-") ⊎ (sign ≡ "+"))
  pub pointed : ((body ≡ whole) × (fraction ≡ "")) ⊎ (body ≡ whole ⊕ "." ⊕ fraction)
  pub whole_digits : Every (λ c. (48 ≤ code c) × (code c ≤ 57)) whole
  pub fraction_digits : Every (λ c. (48 ≤ code c) × (code c ≤ 57)) fraction
  pub has_digit : (whole ≢ "") ⊎ (fraction ≢ "")
  pub fraction_fits : len fraction ≤ scale
  pub whole_fits : digits_value whole < 10 ^ (precision - scale)

all_digits-Every : (s : String) → all_digits s ≡ true → Every (λ c. (48 ≤ code c) × (code c ≤ 57)) s
unfolding all_digits is_digit
all_digits-Every String.[] h = tt
all_digits-Every (String.◌∷◌ c s) h =
    ((ground arith, ground arith), all_digits-Every s (ground arith))

-- The sign that a text begins with, if it does.
sign_of :
    (s : String)
    → (sign : String) × ((sign ≡ "") ⊎ ((sign ≡ "-") ⊎ (sign ≡ "+"))) × (s ≡ sign ⊕ signless s)
unfolding signless
sign_of String.[] = ("", inl refl, sym (nil-append ""))
sign_of (String.◌∷◌ c s) = elim (Bool-cases (eqb (code c) b'-' || eqb (code c) b'+')) [
  | inl met ↦ (String.◌∷◌ c "", inr (which c met), rw met (sym (singleton-append c s)))
  | inr other ↦ ("", inl refl, rw other (sym (nil-append (String.◌∷◌ c s))))
]
  where
    which :
        (c : Char)
        → (eqb (code c) b'-' || eqb (code c) b'+') ≡ true
        → (String.◌∷◌ c "" ≡ "-") ⊎ (String.◌∷◌ c "" ≡ "+")
    which c h = elim (Bool-cases (eqb (code c) b'-')) [
      | inl minus ↦ inl (ap (λ c. String.◌∷◌ c "") (Char-path c "-" ((eqb_iff _ _).0 minus)))
      | inr other ↦
          inr
            (ap (λ c. String.◌∷◌ c "") (Char-path c "+" ((eqb_iff _ _).0 (ground (arith, other)))))
    ]

empty-ne : (s : String) → s == "" ≡ false → s ≢ ""
empty-ne s h = ground (arith, eq_iff s "")

one_digit : (w f : String) (b : Bool) → ((w == "" && f == "") || b) ≡ false → (w ≢ "") ⊎ (f ≢ "")
one_digit w f b h = elim (Bool-cases (w == "")) [
  | inl bare ↦ inr (empty-ne f (ground (arith, bare)))
  | inr held ↦ inl (empty-ne w held)
]

refused-not : {a : Bool} (b : Bool) → (if a then false else b) ≡ true → a ≡ false
refused-not b h = ground arith

valid_parts_sound :
    (value : String) (ps : List String) (p s : ℕ)
    → s ≤ p
    → join "." ps ≡ signless value
    → valid_parts false ps (pos p) (pos s) ≡ true
    → IsDecimal value p s
unfolding valid_parts parts_digits join
valid_parts_sound value [] p s h e v = cc
valid_parts_sound value (w ∷ []) p s h e v =
    let (sign, one, signed) = sign_of value in
    record {
      sign = sign;
      body = signless value;
      whole = w;
      fraction = "";
      signed = signed;
      one_sign = one;
      pointed = inl (sym e, refl);
      whole_digits = all_digits-Every w (ground arith);
      fraction_digits = tt;
      has_digit = inl (empty-ne w (refused-not _ v));
      fraction_fits = omega arith;
      whole_fits = fits_integer-lt w p s h (ground arith) (ground arith);
    }
valid_parts_sound value (w ∷ f ∷ []) p s h e v =
    let (sign, one, signed) = sign_of value in
    record {
      sign = sign;
      body = signless value;
      whole = w;
      fraction = f;
      signed = signed;
      one_sign = one;
      pointed = inr (sym e);
      whole_digits = all_digits-Every w (ground arith);
      fraction_digits = all_digits-Every f (ground arith);
      has_digit = one_digit w f _ (refused-not _ v);
      fraction_fits = ground arith;
      whole_fits = fits_integer-lt w p s h (ground arith) (ground arith);
    }
valid_parts_sound value (w ∷ f ∷ g ∷ ps) p s h e v = cc

bounded_flag : (p s : ℕ) → 0 < p → (eqb_ℤ (pos p) (pos 0) && eqb_ℤ (pos s) (pos 0)) ≡ false
bounded_flag p s h = ground arith

accepted :
    (refused special : Bool) {b : Bool}
    → (if refused then false else if false && special then true else b) ≡ true
    → b ≡ true
accepted refused special h = ground arith

-- A text that a bounded decimal field accepts, its scale at most its precision, is a sign or none,
-- then digits around at most one point, at least one digit in all, no more of them behind the
-- point than the scale, and the number before the point is below 10 to the power of precision less
-- scale.
pub valid_decimal_text-IsDecimal :
    (value : String) (precision scale : ℕ)
    → 0 < precision
    → scale ≤ precision
    → valid_decimal_text value (pos precision) (pos scale) ≡ true
    → IsDecimal value precision scale
unfolding valid_decimal_text
valid_decimal_text-IsDecimal value p s bounded h v =
    valid_parts_sound value (split "." (signless value)) p s h (join-split "." (signless value)) (
      accepted (value == "" || not (trim_space value == value))
        (value == "NaN" || value == "Infinity" || value == "-Infinity")
        (rw (bounded_flag p s bounded) at v))
