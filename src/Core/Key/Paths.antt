-- ===== src/Core/Key/Paths.antt =====
-- pkg/core/key.go: what a file system makes of a segment, told apart from the code's own cutting.
use mathlib.Core.List.{tail}
use openvaultdb_go.Base.{
  ◌≤◌, String, Char, code, List, [], ◌∷◌, ◌++◌, Bool, true, false, ◌||◌, ◌==◌, ◌≡◌, refl, sym, ap,
  ◌∙◌, ◌≢◌, ◌↔◌, inl, inr, if◌then◌else◌, eqb, arith, eq_iff, Bool-cases, Every, All, Memᴰ, split,
  onto_first, runs, drop_empty, fields_func,
}

-- A text with each backslash turned into a slash.
unfoldable pub slashed : String → String
slashed String.[] = ""
slashed (String.◌∷◌ c s) = String.◌∷◌ (if eqb (code c) 92 then "/" else c) (slashed s)

-- The components of a segment, also the empty ones: both slashes separate.
unfoldable pub parts : String → List String
unfolding slashed
parts s = split "/" (slashed s)

unfoldable pub path_parts : List String → List String
path_parts [] = []
path_parts (s ∷ ss) = parts s ++ path_parts ss

-- The directory that a component leads to, innermost name first.
unfoldable pub enter_dir : String → List String → List String
enter_dir name dir =
    if name == "" || name == "." then dir else if name == ".." then tail dir else name ∷ dir

unfoldable pub follow : List String → List String → List String
unfolding enter_dir
follow dir [] = dir
follow dir (name ∷ names) = follow (enter_dir name dir) names

abbrev pub IsBelow : List String → List String → Type 0
IsBelow base dir = (below : List String) × (dir ≡ below ++ base)

-- On the way through the components, no directory lies outside `base`.
unfoldable pub Stays : List String → List String → List String → Type 0
unfolding enter_dir
Stays base dir [] = IsBelow base dir
Stays base dir (name ∷ names) = IsBelow base dir × Stays base (enter_dir name dir) names

abbrev pub IsPlain : String → Type 0
IsPlain part = (part ≢ ".") × (part ≢ "..")

-- A segment that is safe on a file system.
pub record IsSafeSegment (s : String) : Type 0 where
  pub no_control : Every (λ c. (32 ≤ code c) × (code c ≢ 127)) s
  pub has_name : (name : String) × Memᴰ name (parts s) × (name ≢ "")
  pub no_relative : All IsPlain (parts s)

or_true : (b : Bool) → (b || true) ≡ true
or_true b = ground arith

or_false : (b : Bool) → (b || false) ≡ b
or_false b = ground arith

-- A rule that cuts at the two slashes cuts into the parts.
runs-parts :
    (separates : Char → Bool)
    → ((c : Char) → separates c ≡ (eqb (code c) 47 || eqb (code c) 92))
    → (s : String) → runs separates s ≡ parts s
unfolding runs parts slashed split
runs-parts separates h String.[] = refl
runs-parts separates h (String.◌∷◌ c s) =
    let cut : Bool → List String = λ b. if b then "" ∷ parts s else onto_first c (parts s) in
    rw (h c) (elim (Bool-cases (eqb (code c) 92)) [
      | inl back ↦ rw (back, runs-parts separates h s) (ap cut (or_true (eqb (code c) 47)))
      | inr other ↦ rw (other, runs-parts separates h s) (ap cut (or_false (eqb (code c) 47)))
    ])

pub fields_func-parts :
    (separates : Char → Bool)
    → ((c : Char) → separates c ≡ (eqb (code c) 47 || eqb (code c) 92))
    → (s : String) → fields_func separates s ≡ drop_empty (parts s)
unfolding fields_func
fields_func-parts separates h s = ap drop_empty (runs-parts separates h s)

-- Dropping the empty parts keeps the plain ones, and leaves one if there is one.
pub drop_empty-All : (ws : List String) → All IsPlain (drop_empty ws) ↔ All IsPlain ws
unfolding drop_empty
drop_empty-All [] = (λ h. h, λ h. h)
drop_empty-All (w ∷ ws) = elim (Bool-cases (w == "")) [
  | inl bare ↦
      rw (bare, drop_empty)
        (
          λ h. (blank w ((eq_iff w "").0 bare), (drop_empty-All ws).0 h),
          λ (_, h). (drop_empty-All ws).1 h,
        )
  | inr held ↦
      rw (held, drop_empty)
        (λ (p, h). (p, (drop_empty-All ws).0 h), λ (p, h). (p, (drop_empty-All ws).1 h))
]
  where
    blank : (w : String) → w ≡ "" → IsPlain w
    blank w e = (
      λ dot. absurd (ground (arith, (eq_iff "" ".").1 (sym e ∙ dot))),
      λ dots. absurd (ground (arith, (eq_iff "" "..").1 (sym e ∙ dots))),
    )

abbrev pub HasName : List String → Type 0
HasName ws = (name : String) × Memᴰ name ws × (name ≢ "")

pub drop_empty-HasName : (ws : List String) → (drop_empty ws ≢ []) ↔ HasName ws
unfolding drop_empty
drop_empty-HasName [] = (λ h. absurd (h refl), λ (name, m, _). elim m [ ])
drop_empty-HasName (w ∷ ws) = elim (Bool-cases (w == "")) [
  | inl bare ↦
      rw (bare, drop_empty)
        (
          λ h. let (name, m, n) = (drop_empty-HasName ws).0 h in (name, Memᴰ.tail m, n),
          λ (name, m, n). (drop_empty-HasName ws).1 (later w ws name ((eq_iff w "").0 bare) n m),
        )
  | inr held ↦
      rw (held, drop_empty)
        (
          λ h. (w, Memᴰ.head refl, λ e. absurd (ground (arith, (eq_iff w "").1 e, held))),
          λ h. (λ e. cc),
        )
]
  where
    later :
        (w : String) (ws : List String) (name : String)
        → w ≡ ""
        → name ≢ ""
        → Memᴰ name (w ∷ ws)
        → HasName ws
    later w ws name bare n (Memᴰ.head e) = absurd (n (e ∙ bare))
    later w ws name bare n (Memᴰ.tail m) = (name, m, n)
