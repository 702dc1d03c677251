-- ===== src/Core/Quoting/RoundTrip.antt =====
-- pkg/core/write_guard.go: what `SQLiteLogicalName` undoes.
use text.Mathlib.TextEquality.{Char-path}
use text.Mathlib.TextLemmas.{cons-append}
use openvaultdb_go.Base.{
  String, Char, Bool, true, false, eqb_iff, if◌then◌else◌, Option, none, some, ◌≡◌, refl, ◌≢◌, ◌↔◌,
  sym, ap, ◌∙◌, ◌⊕◌, singleton-append, eq_iff, arith, Bool-cases, some-injective, none≢some,
  if_true, if_false, inl, inr,
}
use openvaultdb_go.Core.Quoting.{
  is_quote, prepend, before_quote, unquote, not_blank, and_then, sqlite_logical_name,
}

-- Each quote doubled.
double : String → String
double String.[] = ""
double (String.◌∷◌ c s) =
    let rest = double s in
    if is_quote c then String.◌∷◌ c (String.◌∷◌ c rest) else String.◌∷◌ c rest

-- A name as a quoted identifier.
pub quoted : String → String
unfolding double
quoted name = "\"" ⊕ double name ⊕ "\""

quote_unique : (c d : Char) → is_quote c ≡ true → is_quote d ≡ true → c ≡ d
unfolding is_quote
quote_unique c d h k = Char-path c d ((eqb_iff _ _).0 h ∙ sym ((eqb_iff _ _).0 k))

prepend-eq-some :
    (c : Char) (o : Option String) (r : String)
    → prepend c o ≡ some r
    → (t : String) × (o ≡ some t) × (String.◌∷◌ c t ≡ r)
prepend-eq-some c none r h = absurd (none≢some h)
prepend-eq-some c (some t) r h = (t, refl, some-injective h)

double_quote :
    (c : Char) (s : String)
    → is_quote c ≡ true
    → double (String.◌∷◌ c s) ≡ String.◌∷◌ c (String.◌∷◌ c (double s))
unfolding double
double_quote c s e = if_true _ _ e

double_other :
    (c : Char) (s : String) → is_quote c ≡ false → double (String.◌∷◌ c s) ≡ String.◌∷◌ c (double s)
unfolding double
double_other c s e = if_false _ _ e

-- What is read of a text that starts with a quote, and of one that does not.
unquote_quote :
    (waiting : Bool) (c : Char) (s : String)
    → is_quote c ≡ true
    → unquote waiting (String.◌∷◌ c s)
      ≡ (if waiting then prepend c (unquote false s) else unquote true s)
unfolding unquote
unquote_quote false c s e = if_true _ _ e
unquote_quote true c s e = if_true _ _ e

unquote_other :
    (waiting : Bool) (c : Char) (s : String)
    → is_quote c ≡ false
    → unquote waiting (String.◌∷◌ c s) ≡ (if waiting then none else prepend c (unquote false s))
unfolding unquote
unquote_other false c s e = if_false _ _ e
unquote_other true c s e = if_false _ _ e

unquote-double : (l : String) → unquote false (double l) ≡ some l
unfolding unquote double
unquote-double String.[] = refl
unquote-double (String.◌∷◌ c s) = elim (Bool-cases (is_quote c)) [
  | inl e ↦
      ap (unquote false) (double_quote c s e)
      ∙ unquote_quote false c (String.◌∷◌ c (double s)) e
      ∙ unquote_quote true c (double s) e
      ∙ ap (prepend c) (unquote-double s)
  | inr e ↦
      ap (unquote false) (double_other c s e)
      ∙ unquote_other false c (double s) e
      ∙ ap (prepend c) (unquote-double s)
]

double-unquote :
    (waiting : Bool) (c : Char) (s l : String)
    → is_quote c ≡ true
    → unquote waiting s ≡ some l
    → (if waiting then String.◌∷◌ c s else s) ≡ double l
unfolding unquote double
double-unquote false c String.[] l e h = ap double (some-injective h)
double-unquote true c String.[] l e h = absurd (none≢some h)
double-unquote false c (String.◌∷◌ d s) l e h = elim (Bool-cases (is_quote d)) [
  | inl f ↦ double-unquote true d s l f (sym (unquote_quote false d s f) ∙ h)
  | inr f ↦
      let (t, p, q) = prepend-eq-some d (unquote false s) l (sym (unquote_other false d s f) ∙ h) in
      ap (String.◌∷◌ d) (double-unquote false c s t e p) ∙ sym (double_other d t f) ∙ ap double q
]
double-unquote true c (String.◌∷◌ d s) l e h = elim (Bool-cases (is_quote d)) [
  | inl f ↦
      let (t, p, q) = prepend-eq-some d (unquote false s) l (sym (unquote_quote true d s f) ∙ h) in
      ap (λ x. String.◌∷◌ x (String.◌∷◌ d s)) (quote_unique c d e f)
      ∙ ap (λ x. String.◌∷◌ d (String.◌∷◌ d x)) (double-unquote false c s t e p)
      ∙ sym (double_quote d t f)
      ∙ ap double q
  | inr f ↦ absurd (none≢some (sym (unquote_other true d s f) ∙ h))
]

before_quote_closed : (c : Char) (s : String) → before_quote c (s ⊕ "\"") ≡ some (String.◌∷◌ c s)
unfolding before_quote
before_quote_closed c String.[] = refl
before_quote_closed c (String.◌∷◌ d s) =
    ap (before_quote c) (cons-append d s "\"") ∙ ap (prepend c) (before_quote_closed d s)

before_quote_sound :
    (c : Char) (s r : String) → before_quote c s ≡ some r → String.◌∷◌ c s ≡ r ⊕ "\""
unfolding before_quote
before_quote_sound c String.[] r h = elim (Bool-cases (is_quote c)) [
  | inl e ↦
      ap (λ x. String.◌∷◌ x "") (quote_unique c "\"" e refl)
      ∙ ap (λ x. x ⊕ "\"") (some-injective (sym (if_true _ _ e) ∙ h))
  | inr e ↦ absurd (none≢some (sym (if_false _ _ e) ∙ h))
]
before_quote_sound c (String.◌∷◌ d s) r h =
    let (t, p, q) = prepend-eq-some c (before_quote d s) r h in
    ap (String.◌∷◌ c) (before_quote_sound d s t p)
    ∙ sym (cons-append c t "\"")
    ∙ ap (λ x. x ⊕ "\"") q

and_then-eq-some {ℓ κ} :
    {A : Type ℓ} {B : Type κ} (o : Option A) (k : A → Option B) (b : B)
    → and_then o k ≡ some b
    → (a : A) × (o ≡ some a) × (k a ≡ some b)
and_then-eq-some none k b h = absurd (none≢some h)
and_then-eq-some (some a) k b h = (a, refl, h)

not_blank_iff : (s t : String) → (not_blank s ≡ some t) ↔ ((t ≢ "") × (s ≡ t))
unfolding not_blank
not_blank_iff s t = (λ h. ground (arith, eq_iff s ""), λ h. ground (arith, eq_iff s ""))

double-starts :
    (name : String) → name ≢ "" → (d : Char) × (s : String) × (double name ≡ String.◌∷◌ d s)
double-starts String.[] h = absurd (h refl)
double-starts (String.◌∷◌ c s) h = elim (Bool-cases (is_quote c)) [
  | inl e ↦ (c, _, double_quote c s e)
  | inr e ↦ (c, _, double_other c s e)
]

quoted_lem : (name : String) → quoted name ≡ String.◌∷◌ "\"" (double name ⊕ "\"")
unfolding quoted
quoted_lem name = singleton-append "\"" (double name ⊕ "\"")

logical_name_of_quoted : (name : String) → name ≢ "" → sqlite_logical_name (quoted name) ≡ some name
unfolding sqlite_logical_name
logical_name_of_quoted name h =
    let (d, s, e) = double-starts name h in
    ap sqlite_logical_name (
      quoted_lem name
      ∙ ap (λ x. String.◌∷◌ "\"" (x ⊕ "\"")) e
      ∙ ap (String.◌∷◌ "\"") (cons-append d s "\""))
    ∙ ap (λ x. and_then (and_then x (unquote false)) not_blank) (before_quote_closed d s)
    ∙ ap (λ x. and_then (unquote false x) not_blank) (sym e)
    ∙ ap (λ x. and_then x not_blank) (unquote-double name)
    ∙ (not_blank_iff name name).1 (h, refl)

logical_name_sound :
    (name logical : String)
    → sqlite_logical_name name ≡ some logical
    → (logical ≢ "") × (name ≡ quoted logical)
unfolding sqlite_logical_name
logical_name_sound String.[] logical h = absurd (none≢some h)
logical_name_sound (String.◌∷◌ c String.[]) logical h = absurd (none≢some h)
logical_name_sound (String.◌∷◌ c (String.◌∷◌ d s)) logical h = elim (Bool-cases (is_quote c)) [
  | inr e ↦ absurd (none≢some (sym (if_false _ _ e) ∙ h))
  | inl e ↦
      let (u, a, b) =
        and_then-eq-some (and_then (before_quote d s) (unquote false)) not_blank logical
          (sym (if_true _ _ e) ∙ h) in
      let (t, p, q) = and_then-eq-some (before_quote d s) (unquote false) u a in
      let (ne, same) = (not_blank_iff u logical).0 b in
      (
        ne,
        ap (λ x. String.◌∷◌ x (String.◌∷◌ d s)) (quote_unique c "\"" e refl)
            ∙ ap (String.◌∷◌ "\"") (
                before_quote_sound d s t p
                ∙ ap (λ x. x ⊕ "\"") (double-unquote false "\"" t u refl q ∙ ap double same))
            ∙ sym (quoted_lem logical),
      )
]

-- A name has a logical name exactly when it is that name, which is not empty, between quotes and
-- with each quote in it doubled.
pub sqlite_logical_name_iff :
    (name logical : String)
    → (sqlite_logical_name name ≡ some logical) ↔ ((logical ≢ "") × (name ≡ quoted logical))
sqlite_logical_name_iff name logical = (
  logical_name_sound name logical,
  λ (ne, e). ap sqlite_logical_name e ∙ logical_name_of_quoted logical ne,
)
