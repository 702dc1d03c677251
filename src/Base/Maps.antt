-- ===== src/Base/Maps.antt =====
-- A Go map with string keys, as an association list: the order of the list stands for the order in
-- which a `range` happens to visit the entries. `insert` replaces in place, so keys stay distinct.
use Prim.Native.String.{String}
use mathlib.Core.Path.{◌≡◌, refl}
use mathlib.Core.Logic.{◌≢◌, ◌⊎◌}
use text.Mathlib.TextPositions.{eq_refl}
use mathlib.Core.Bool.{false}
use mathlib.Core.List.{List, [], ◌∷◌}
use mathlib.Core.Option.{Option, none, some}
use native.Mathlib.Omega.{arith}
use text.Mathlib.Text.{◌==◌}
use text.Mathlib.TextEquality.{eq_iff}
use openvaultdb_go.Base.Tests.{if◌then◌else◌}

pub not_same : {a b : String} → (a == b) ≡ false → a ≢ b
not_same {a = a} {b = b} known e = ground (arith, eq_iff a b)

module _ {κ} {Val : Type κ} where
  unfoldable pub lookup : String → List (String × Val) → Option Val
  lookup x [] = none
  lookup x ((y, new) ∷ entries) = if y == x then some new else lookup x entries

  unfoldable pub insert : String → Val → List (String × Val) → List (String × Val)
  insert x new [] = (x, new) ∷ []
  insert x new ((y, old) ∷ entries) =
      if y == x then (x, new) ∷ entries else (y, old) ∷ insert x new entries

  unfoldable pub remove : String → List (String × Val) → List (String × Val)
  remove x [] = []
  remove x ((y, old) ∷ entries) =
      let rest = remove x entries in if y == x then rest else (y, old) ∷ rest

  pub lookup-insert :
      (x y : String) (new : Val) (entries : List (String × Val))
      → lookup y (insert x new entries) ≡ (if x == y then some new else lookup y entries)
  unfolding lookup insert
  lookup-insert x y new [] = refl
  lookup-insert x y new ((z, old) ∷ entries) =
      ground (arith, eq_iff x y, eq_iff z x, eq_iff z y, lookup-insert x y new entries)

  lookup-remove :
      (x y : String) (entries : List (String × Val))
      → lookup y (remove x entries) ≡ (if x == y then none else lookup y entries)
  unfolding lookup remove
  lookup-remove x y [] = ground arith
  lookup-remove x y ((z, old) ∷ entries) =
      ground (arith, eq_iff x y, eq_iff z x, eq_iff z y, lookup-remove x y entries)

  pub lookup-insert_cases :
      (x y : String) (new old : Val) (entries : List (String × Val))
      → lookup y (insert x new entries) ≡ some old
      → ((x ≡ y) × (new ≡ old)) ⊎ ((x ≢ y) × (lookup y entries ≡ some old))
  lookup-insert_cases x y new old entries known =
      ground (arith, lookup-insert x y new entries, eq_iff x y)

  pub lookup-remove-some :
      (x y : String) (old : Val) (entries : List (String × Val))
      → lookup y (remove x entries) ≡ some old
      → lookup y entries ≡ some old
  lookup-remove-some x y old entries known = ground (arith, lookup-remove x y entries)

  pub lookup-insert_self :
      (x : String) (new : Val) (entries : List (String × Val))
      → lookup x (insert x new entries) ≡ some new
  lookup-insert_self x new entries = simp (lookup-insert, eq_refl)

  pub lookup-insert_ne :
      (x y : String) (new : Val) (entries : List (String × Val))
      → x ≢ y
      → lookup y (insert x new entries) ≡ lookup y entries
  lookup-insert_ne x y new entries known = ground (arith, lookup-insert x y new entries, eq_iff x y)

  pub lookup-remove_self :
      (x : String) (entries : List (String × Val)) → lookup x (remove x entries) ≡ none
  lookup-remove_self x entries = simp (lookup-remove, eq_refl)

  pub lookup-remove_ne :
      (x y : String) (entries : List (String × Val))
      → x ≢ y
      → lookup y (remove x entries) ≡ lookup y entries
  lookup-remove_ne x y entries known = ground (arith, lookup-remove x y entries, eq_iff x y)

  -- Putting a key in and taking it out again leaves the map, if the key was not there.
  pub remove-insert :
      (x y : String) (new : Val) (entries : List (String × Val))
      → lookup x entries ≡ none
      → lookup y (remove x (insert x new entries)) ≡ lookup y entries
  remove-insert x y new entries known =
      ground
        (arith, lookup-remove x y (insert x new entries), lookup-insert x y new entries, eq_iff x y)
