-- ===== src/Base/Texts.antt =====
-- The parts of Go's `strings` that the program uses, over the code points of a text.
use Prim.Native.Nat.{ℕ, ◌+◌}
use Prim.Native.Char.{Char, code}
use Prim.Native.String.{String}
use Prim.Native.String
use mathlib.Core.Path.{◌≡◌, refl, ap, sym, ◌∙◌}
use mathlib.Core.Logic.{◌≢◌, inl, inr}
use mathlib.Core.Bool.{Bool, true, false, ◌&&◌, ◌||◌}
use mathlib.Core.List.{List, [], ◌∷◌, ◌++◌}
use native.Mathlib.Omega.{arith}
use text.Mathlib.TextEquality.{Char-path}
use text.Mathlib.TextLemmas.{nil-append, cons-append}
use openvaultdb_go.Base.Lists.{All}
use openvaultdb_go.Base.Tests.{eqb, eqb_iff, leb, ltb, if◌then◌else◌, Bool-cases}

infixr 66 ◌⊕◌
abbrev pub ◌⊕◌ : String → String → String
s ⊕ t = String.◌++◌ s t

pub singleton-append : (c : Char) (t : String) → String.◌∷◌ c "" ⊕ t ≡ String.◌∷◌ c t
singleton-append c t = cons-append c "" t ∙ ap (String.◌∷◌ c) (nil-append t)

abbrev pub onto_first : Char → List String → List String
onto_first c [] = String.◌∷◌ c "" ∷ []
onto_first c (w ∷ ws) = String.◌∷◌ c w ∷ ws

-- `strings.Split` at a separator of one character.
unfoldable pub split : Char → String → List String
split sep String.[] = "" ∷ []
split sep (String.◌∷◌ c s) =
    let rest = split sep s in if eqb (code c) (code sep) then "" ∷ rest else onto_first c rest

-- `strings.Join`.
unfoldable pub join : String → List String → String
join sep [] = ""
join sep (w ∷ []) = w
join sep (w ∷ ws) = w ⊕ sep ⊕ join sep ws

pub onto_first-ne-nil : (c : Char) (ws : List String) → onto_first c ws ≢ []
onto_first-ne-nil c [] = cc
onto_first-ne-nil c (w ∷ ws) = cc

onto_first-append :
    (c : Char) (ws vs : List String) → ws ≢ [] → onto_first c (ws ++ vs) ≡ onto_first c ws ++ vs
onto_first-append c [] vs h = absurd (h refl)
onto_first-append c (w ∷ ws) vs h = refl

split-ne-nil : (sep : Char) (s : String) → split sep s ≢ []
unfolding split
split-ne-nil sep String.[] = cc
split-ne-nil sep (String.◌∷◌ c s) = elim (Bool-cases (eqb (code c) (code sep))) [
  | inl same ↦ rw same (λ e. cc)
  | inr other ↦ rw other (onto_first-ne-nil c (split sep s))
]

eqb_self : (n : ℕ) → eqb n n ≡ true
eqb_self n = ground arith

pub split-append :
    (sep : Char) (s t : String) → split sep (s ⊕ String.◌∷◌ sep t) ≡ split sep s ++ split sep t
unfolding split
split-append sep String.[] t = rw nil-append (rw (eqb_self (code sep)) refl)
split-append sep (String.◌∷◌ c s) t = rw cons-append (elim (Bool-cases (eqb (code c) (code sep))) [
  | inl same ↦ rw same (ap (λ ws. "" ∷ ws) (split-append sep s t))
  | inr other ↦ rw other (
      ap (onto_first c) (split-append sep s t)
      ∙ onto_first-append c (split sep s) (split sep t) (split-ne-nil sep s))
])

pub join-onto_first :
    (sep : String) (c : Char) (ws : List String)
    → ws ≢ []
    → join sep (onto_first c ws) ≡ String.◌∷◌ c (join sep ws)
unfolding join
join-onto_first sep c [] h = absurd (h refl)
join-onto_first sep c (w ∷ []) h = refl
join-onto_first sep c (w ∷ v ∷ ws) h = rw cons-append

pub join-nil_cons :
    (sep : String) (ws : List String) → ws ≢ [] → join sep ("" ∷ ws) ≡ sep ⊕ join sep ws
unfolding join
join-nil_cons sep [] h = absurd (h refl)
join-nil_cons sep (w ∷ ws) h = rw nil-append

-- Joining what `split` cut gives the text back.
pub join-split : (sep : Char) (s : String) → join (String.◌∷◌ sep "") (split sep s) ≡ s
unfolding split
join-split sep String.[] = unfold join in refl
join-split sep (String.◌∷◌ c s) = elim (Bool-cases (eqb (code c) (code sep))) [
  | inl same ↦ rw same (
      join-nil_cons (String.◌∷◌ sep "") (split sep s) (split-ne-nil sep s)
      ∙ (rw (cons-append, nil-append, join-split sep s)
          (ap (λ d. String.◌∷◌ d s) (sym (Char-path c sep ((eqb_iff _ _).0 same))))))
  | inr other ↦ rw other (
      join-onto_first (String.◌∷◌ sep "") c (split sep s) (split-ne-nil sep s)
      ∙ ap (String.◌∷◌ c) (join-split sep s))
]

-- `unicode.IsSpace`.
unfoldable is_space : Char → Bool
is_space c =
    let n = code c in
    (leb 9 n && leb n 13)
    || eqb n 32
    || eqb n 0x85
    || eqb n 0xa0
    || eqb n 0x1680
    || (leb 0x2000 n && leb n 0x200a)
    || eqb n 0x2028
    || eqb n 0x2029
    || eqb n 0x202f
    || eqb n 0x205f
    || eqb n 0x3000

unfoldable trim_left : String → String
trim_left String.[] = ""
trim_left (String.◌∷◌ c s) = let rest = trim_left s in if is_space c then rest else String.◌∷◌ c s

abbrev keep_right : Bool → Char → String → String
keep_right space c String.[] = if space then "" else String.◌∷◌ c ""
keep_right space c (String.◌∷◌ d s) = String.◌∷◌ c (String.◌∷◌ d s)

unfoldable trim_right : String → String
unfolding is_space
trim_right String.[] = ""
trim_right (String.◌∷◌ c s) = keep_right (is_space c) c (trim_right s)

-- `strings.TrimSpace`.
unfoldable pub trim_space : String → String
unfolding trim_left trim_right is_space
trim_space s = trim_right (trim_left s)

-- The number of bytes of a text in UTF-8.
unfoldable width : Char → ℕ
width c =
    if ltb (code c) 0x80
    then 1
    else (if ltb (code c) 0x800 then 2 else (if ltb (code c) 0x10000 then 3 else 4))

unfoldable pub bytes : String → ℕ
unfolding width
bytes String.[] = 0
bytes (String.◌∷◌ c s) = width c + bytes s

-- Every character of a text.
abbrev pub Every {κ} : (Char → Type κ) → String → Type κ
Every P String.[] = Unit
Every P (String.◌∷◌ c s) = P c × Every P s

abbrev pub Lacks : Char → String → Type 0
Lacks sep s = Every (λ c. eqb (code c) (code sep) ≡ false) s

pub split_of_Lacks : (sep : Char) (s : String) → Lacks sep s → split sep s ≡ s ∷ []
unfolding split
split_of_Lacks sep String.[] h = refl
split_of_Lacks sep (String.◌∷◌ c s) (p, h) = rw (p, split_of_Lacks sep s h) refl

-- No piece holds the separator.
pub split-Lacks : (sep : Char) (s : String) → All (Lacks sep) (split sep s)
unfolding split
split-Lacks sep String.[] = (tt, tt)
split-Lacks sep (String.◌∷◌ c s) = elim (Bool-cases (eqb (code c) (code sep))) [
  | inl same ↦ rw same (tt, split-Lacks sep s)
  | inr other ↦ rw other (onto_first-Lacks sep c (split sep s) other (split-Lacks sep s))
]
  where
    onto_first-Lacks :
        (sep c : Char) (ws : List String)
        → eqb (code c) (code sep) ≡ false
        → All (Lacks sep) ws
        → All (Lacks sep) (onto_first c ws)
    onto_first-Lacks sep c [] p h = ((p, tt), tt)
    onto_first-Lacks sep c (w ∷ ws) p (q, h) = ((p, q), h)
