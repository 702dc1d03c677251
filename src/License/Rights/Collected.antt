-- ===== src/License/Rights/Collected.antt =====
-- pkg/license/rights.go: the loop of `Inventory` over the rights that it is given.
use openvaultdb_go.Base.{
  bytes, none≢some, ℕ, ◌+◌, String, List, [], ◌∷◌, true, not, ◌==◌, ltb, Option, none, some, ok,
  ◌>>=◌, ◌≡◌, refl, sym, ap, ◌∙◌, subst, ◌⊎◌, inl, inr, eq_iff, All, lookup, insert,
  lookup-insert_cases, lookup-insert_self, lookup-insert_ne, require->>-eq-ok, >>=-eq-ok,
  ok-injective, require, ◌>>◌, if-both,
}
use openvaultdb_go.License.Declaration.{conflicting, too_large}
use openvaultdb_go.License.Rights.{
  SourceRight, max_evidence_bytes, encoding, same_right, comma, or_not_encodable, collect_rights,
}

module _ {Html : Type 0} (encode : SourceRight Html → Option String)
    (encode_all : List (SourceRight Html) → Option String) where
  -- A right that stands for another one: of the same source, with the same encoding.
  unfoldable pub StandsFor : SourceRight Html → SourceRight Html → Type 0
  StandsFor r q =
      (q.source_id ≡ r.source_id)
      × (encoding encode encode_all (encode q) ≡ encoding encode encode_all (encode r))

  unfoldable pub IsKeyed : List (String × SourceRight Html) → Type 0
  IsKeyed by_id = (id : String) (q : SourceRight Html) → lookup id by_id ≡ some q → q.source_id ≡ id

  insert-IsKeyed :
      (r : SourceRight Html) (by_id : List (String × SourceRight Html))
      → IsKeyed by_id
      → IsKeyed (insert r.source_id r by_id)
  unfolding IsKeyed
  insert-IsKeyed r by_id keyed id q h = elim (lookup-insert_cases r.source_id id r q by_id h) [
    | inl (same, eq) ↦ ap (λ q. q.source_id) (sym eq) ∙ same
    | inr (ne, old) ↦ keyed id q old
  ]

  -- One round of the loop.
  collected :
      (r : SourceRight Html) (rights : List (SourceRight Html))
      (by_id out : List (String × SourceRight Html)) (used : ℕ)
      → collect_rights encode encode_all (r ∷ rights) by_id used ≡ ok out
      → ((prior : SourceRight Html) × (lookup r.source_id by_id ≡ some prior)
          × (same_right encode encode_all prior r ≡ true)
          × (collect_rights encode encode_all rights by_id used ≡ ok out))
        ⊎ ((lookup r.source_id by_id ≡ none)
            × ((more : ℕ) × (collect_rights encode encode_all rights
                    (insert r.source_id r by_id)
                    more
                  ≡ ok out)))
  unfolding collect_rights
  collected r rights by_id out used h = go (lookup r.source_id by_id) refl h
    where
      go :
          (o : Option (SourceRight Html))
          → lookup r.source_id by_id ≡ o
          → elim o [
            | some prior ↦
                require (same_right encode encode_all prior r) conflicting
                >> collect_rights encode encode_all rights by_id used
            | none ↦ or_not_encodable encode encode_all (encode r) >>= λ text.
                require
                  (not (ltb max_evidence_bytes (used + comma encode encode_all by_id + bytes text)))
                  too_large
                >> collect_rights encode encode_all rights
                    (insert r.source_id r by_id)
                    (used + comma encode encode_all by_id + bytes text)
          ]
            ≡ ok out
          → ((prior : SourceRight Html) × (lookup r.source_id by_id ≡ some prior)
              × (same_right encode encode_all prior r ≡ true)
              × (collect_rights encode encode_all rights by_id used ≡ ok out))
            ⊎ ((lookup r.source_id by_id ≡ none)
                × ((more : ℕ) × (collect_rights encode encode_all rights
                        (insert r.source_id r by_id)
                        more
                      ≡ ok out)))
      go (some prior) e h =
          let (same, rest) = require->>-eq-ok _ conflicting _ h in inl (prior, e, same, rest)
      go none e h =
          let (text, _, rest) = >>=-eq-ok (or_not_encodable encode encode_all (encode r)) _ h in
          let (_, done) = require->>-eq-ok _ too_large _ rest in inr (e, (_, done))

  -- What is in the map stays there.
  collect_rights-keeps :
      (rights : List (SourceRight Html)) (by_id out : List (String × SourceRight Html)) (used : ℕ)
      (id : String) (q : SourceRight Html)
      → collect_rights encode encode_all rights by_id used ≡ ok out
      → lookup id by_id ≡ some q
      → lookup id out ≡ some q
  unfolding collect_rights
  collect_rights-keeps [] by_id out used id q h there =
      subst (λ m. lookup id m ≡ some q) (ok-injective h) there
  collect_rights-keeps (r ∷ rights) by_id out used id q h there =
      elim (collected r rights by_id out used h) [
        | inl (prior, _, _, rest) ↦ collect_rights-keeps rights by_id out used id q rest there
        | inr (absent, (more, rest)) ↦
            collect_rights-keeps rights (insert r.source_id r by_id) out more id q rest (
              lookup-insert_ne r.source_id id r by_id
                (λ e. absurd (none≢some (sym absent ∙ ap (λ k. lookup k by_id) e ∙ there)))
              ∙ there)
      ]

  pub collect_rights-StandsFor :
      (rights : List (SourceRight Html)) (by_id out : List (String × SourceRight Html)) (used : ℕ)
      → IsKeyed by_id
      → collect_rights encode encode_all rights by_id used ≡ ok out
      → All (λ r. (q : SourceRight Html) × (lookup r.source_id out ≡ some q) × StandsFor r q) rights
  unfolding collect_rights StandsFor IsKeyed same_right
  collect_rights-StandsFor [] by_id out used keyed h = tt
  collect_rights-StandsFor (r ∷ rights) by_id out used keyed h =
      elim (collected r rights by_id out used h) [
        | inl (prior, there, same, rest) ↦ (
          (
            prior,
            collect_rights-keeps rights by_id out used r.source_id prior rest there,
            (keyed r.source_id prior there, (eq_iff _ _).0 same),
          ),
          collect_rights-StandsFor rights by_id out used keyed rest,
        )
        | inr (absent, (more, rest)) ↦ (
          (
            r,
            collect_rights-keeps rights (insert r.source_id r by_id) out more r.source_id r rest
                (lookup-insert_self r.source_id r by_id),
            (refl, refl),
          ),
          collect_rights-StandsFor rights (insert r.source_id r by_id) out more
              (insert-IsKeyed r by_id keyed) rest,
        )
      ]

  -- The map holds nothing but what was given.
  insert-All :
      (P : SourceRight Html → Type 0) (id : String) (r : SourceRight Html)
      (by_id : List (String × SourceRight Html))
      → P r
      → All (λ e. P e.1) by_id
      → All (λ e. P e.1) (insert id r by_id)
  unfolding insert
  insert-All P id r [] p h = (p, tt)
  insert-All P id r ((k, q) ∷ by_id) p (first, h) =
      if-both (All (λ e. P e.1)) (k == id) (p, h) (first, insert-All P id r by_id p h)

  pub collect_rights-All :
      (P : SourceRight Html → Type 0) (rights : List (SourceRight Html))
      (by_id out : List (String × SourceRight Html)) (used : ℕ)
      → All P rights
      → All (λ e. P e.1) by_id
      → collect_rights encode encode_all rights by_id used ≡ ok out
      → All (λ e. P e.1) out
  unfolding collect_rights
  collect_rights-All P [] by_id out used given held h =
      subst (All (λ e. P e.1)) (ok-injective h) held
  collect_rights-All P (r ∷ rights) by_id out used (p, given) held h =
      elim (collected r rights by_id out used h) [
        | inl (prior, _, _, rest) ↦ collect_rights-All P rights by_id out used given held rest
        | inr (absent, (more, rest)) ↦
            collect_rights-All P rights (insert r.source_id r by_id) out more given
              (insert-All P r.source_id r by_id p held) rest
      ]
