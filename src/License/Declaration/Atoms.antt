-- ===== src/License/Declaration/Atoms.antt =====
-- pkg/license/declaration.go: what a publisher's SPDX declaration can say.
use openvaultdb_go.Base.{
  bytes, ◌≤◌, String, List, [], ◌∷◌, length, Bool, true, false, not, ◌&&◌, ◌||◌, leb, leb→le, ok,
  ◌≡◌, sym, ◌≢◌, ◌⊎◌, ◌==◌, Bool-cases, join, inl, inr, ◌↔◌, All, arith, eq_iff, require_iff,
}
use openvaultdb_go.License.Declaration.{
  publisher, holds, atoms_valid, known_atoms, split_and, validate_spdx, is_directory, is_profile,
  atom_shape,
}
use openvaultdb_go.License.Declaration.Joined.{join-split_and}

-- No two of the texts are the same.
unfoldable pub Distinct : List String → Type 0
Distinct [] = Unit
Distinct (a ∷ atoms) = All (λ b. a ≢ b) atoms × Distinct atoms

-- One of the texts is this one.
unfoldable pub Among : String → List String → Type 0
Among a [] = ⊥
Among a (b ∷ bs) = (a ≡ b) ⊎ Among a bs

holds→Among : (a : String) (bs : List String) → holds a bs ≡ true → Among a bs
unfolding holds Among
holds→Among a [] h = cc
holds→Among a (b ∷ bs) h = elim (Bool-cases (b == a)) [
  | inl same ↦ inl (sym ((eq_iff b a).0 same))
  | inr other ↦ inr (holds→Among a bs (ground (arith, other)))
]

and_iff : (a b : Bool) → (a && b ≡ true) ↔ ((a ≡ true) × (b ≡ true))
and_iff a b = ground arith

or_iff : (a b : Bool) → (a || b ≡ true) ↔ ((a ≡ true) ⊎ (b ≡ true))
or_iff a b = ground arith

not_held : {b : Bool} → not b ≡ true → b ≡ false
not_held h = ground arith

-- An atom that is not held differs from each that is.
holds-head :
    (a b : String) (seen : List String)
    → holds a (b ∷ seen) ≡ false
    → (b ≢ a) × (holds a seen ≡ false)
unfolding holds
holds-head a b seen h = (λ e. absurd (ground (arith, (eq_iff b a).1 e)), ground arith)

atoms_valid-All :
    (seen atoms : List String)
    → atoms_valid seen atoms ≡ true
    → All (λ a. Among a known_atoms) atoms × Distinct atoms × All (λ a. holds a seen ≡ false) atoms
unfolding atoms_valid Distinct
atoms_valid-All seen [] h = (tt, tt, tt)
atoms_valid-All seen (a ∷ atoms) h =
    let (front, rest) =
      (and_iff (holds a known_atoms && not (holds a seen)) (atoms_valid (a ∷ seen) atoms)).0 h in
    let (known, fresh) = (and_iff (holds a known_atoms) (not (holds a seen))).0 front in
    let (all, apart, unseen) = atoms_valid-All (a ∷ seen) atoms rest in
    (
      (holds→Among a known_atoms known, all),
      (heads atoms unseen, apart),
      (not_held fresh, tails atoms unseen),
    )
  where
    heads : (xs : List String) → All (λ x. holds x (a ∷ seen) ≡ false) xs → All (λ x. a ≢ x) xs
    heads [] h = tt
    heads (x ∷ xs) (p, h) = ((holds-head x a seen p).0, heads xs h)

    tails :
        (xs : List String)
        → All (λ x. holds x (a ∷ seen) ≡ false) xs
        → All (λ x. holds x seen ≡ false) xs
    tails [] h = tt
    tails (x ∷ xs) (p, h) = ((holds-head x a seen p).1, tails xs h)

-- What a publisher may declare: one of the atoms that are listed, or from two to four of them, no
-- two the same, between which stands " AND ".
pub data IsExpression (value : String) : Type 0 where
  atom : Among value known_atoms → IsExpression value
  all_of :
      (atoms : List String)
      → value ≡ join " AND " atoms
      → 2 ≤ length atoms
      → length atoms ≤ 4
      → All (λ a. Among a known_atoms) atoms
      → Distinct atoms
      → IsExpression value

-- What passes as the SPDX declaration of a publisher has at most 64 bytes, and is one of the known
-- atoms, or from two to four of them, no two the same, joined by " AND ".
pub validate_spdx-publisher :
    (value : String)
    → validate_spdx value publisher ≡ ok tt
    → (bytes value ≤ 64) × IsExpression value
unfolding validate_spdx is_directory is_profile
validate_spdx-publisher value h =
    let atoms = split_and value in
    let single = atom_shape value && (false || holds value known_atoms) in
    let counted = leb 2 (length atoms) && leb (length atoms) 4 in
    let several = counted && atoms_valid [] atoms in
    let (short, forms) =
      (and_iff (leb (bytes value) 64) (single || several)).0 ((require_iff _ _).0 h) in
    (
      leb→le (bytes value) 64 short,
      elim ((or_iff single several).0 forms) [
        | inl one ↦ atom (
            holds→Among value known_atoms
              ((and_iff (atom_shape value) (holds value known_atoms)).0 one).1)
        | inr many ↦
            let (counts, valid) = (and_iff counted (atoms_valid [] atoms)).0 many in
            let (two, four) = (and_iff (leb 2 (length atoms)) (leb (length atoms) 4)).0 counts in
            let (known, apart, _) = atoms_valid-All [] atoms valid in
            all_of atoms (sym (join-split_and value)) (leb→le 2 _ two) (leb→le _ 4 four) known apart
      ],
    )
