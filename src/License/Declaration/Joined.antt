-- ===== src/License/Declaration/Joined.antt =====
-- pkg/license/declaration.go: the pieces of a value, joined again with the separator.
use text.Mathlib.TextEquality.{Char-path}
use text.Mathlib.TextLemmas.{nil-append, cons-append}
use openvaultdb_go.Base.{
  ℕ, zero, suc, String, [], true, ◌≡◌, refl, sym, ap, ◌∙◌, ◌≢◌, Bool-cases, inl, inr, eqb_iff, ◌⊕◌,
  join, join-nil_cons, join-onto_first, onto_first-ne-nil, arith,
}
use openvaultdb_go.License.Declaration.{has_prefix, pieces, split_and}

-- A text without its first characters.
skip_chars : ℕ → String → String
skip_chars zero s = s
skip_chars (suc n) String.[] = ""
skip_chars (suc n) (String.◌∷◌ c s) = skip_chars n s

chars : String → ℕ
chars String.[] = zero
chars (String.◌∷◌ c s) = suc (chars s)

has_prefix-append : (p s : String) → has_prefix p s ≡ true → p ⊕ skip_chars (chars p) s ≡ s
unfolding has_prefix skip_chars chars
has_prefix-append String.[] s h = nil-append s
has_prefix-append (String.◌∷◌ d p) String.[] h = cc
has_prefix-append (String.◌∷◌ d p) (String.◌∷◌ c s) h =
    cons-append d p (skip_chars (chars p) s)
    ∙ ap (String.◌∷◌ d) (has_prefix-append p s (ground arith))
    ∙ ap (λ x. String.◌∷◌ x s) (Char-path d c ((eqb_iff _ _).0 (ground arith)))

pieces-ne-nil : (sep : String) (more skip : ℕ) (s : String) → pieces sep more skip s ≢ []
unfolding pieces
pieces-ne-nil sep more skip String.[] = cc
pieces-ne-nil sep more (suc skip) (String.◌∷◌ c s) = pieces-ne-nil sep more skip s
pieces-ne-nil sep more zero (String.◌∷◌ c s) = elim (Bool-cases (has_prefix sep (String.◌∷◌ c s))) [
  | inl met ↦ rw (met, pieces) (λ e. cc)
  | inr other ↦ rw (other, pieces) (onto_first-ne-nil c (pieces sep more zero s))
]

join-pieces :
    (sep : String) (more skip : ℕ) (s : String)
    → chars sep ≡ suc more
    → join sep (pieces sep more skip s) ≡ skip_chars skip s
unfolding pieces skip_chars
join-pieces sep more zero String.[] long = unfold join in refl
join-pieces sep more (suc skip) String.[] long = unfold join in refl
join-pieces sep more (suc skip) (String.◌∷◌ c s) long = join-pieces sep more skip s long
join-pieces sep more zero (String.◌∷◌ c s) long =
    elim (Bool-cases (has_prefix sep (String.◌∷◌ c s))) [
      | inl met ↦
          rw (met, pieces)
            (join-nil_cons sep (pieces sep more more s) (pieces-ne-nil sep more more s)
              ∙ ap (λ t. sep ⊕ t) (join-pieces sep more more s long)
              ∙ ap (λ n. sep ⊕ skip_chars n (String.◌∷◌ c s)) (sym long)
              ∙ has_prefix-append sep (String.◌∷◌ c s) met)
      | inr other ↦
          rw (other, pieces)
            (join-onto_first sep c (pieces sep more zero s) (pieces-ne-nil sep more zero s)
              ∙ ap (String.◌∷◌ c) (join-pieces sep more zero s long))
    ]

-- Joining the pieces of `strings.Split(value, " AND ")` gives the value back.
pub join-split_and : (value : String) → join " AND " (split_and value) ≡ value
unfolding split_and chars skip_chars
join-split_and value = join-pieces " AND " 4 0 value refl
