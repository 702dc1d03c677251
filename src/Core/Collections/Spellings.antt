-- ===== src/Core/Collections/Spellings.antt =====
-- pkg/core/collection_names.go: what one spelling adds to the names of a mount.
use openvaultdb_go.Base.{
  String, List, [], ◌∷◌, ◌++◌, true, ◌==◌, Option, none, some, ok, ◌≡◌, refl, sym, ap, ◌∙◌, ◌↔◌,
  ◌⊎◌, inl, inr, lookup, insert, lookup-insert, eq_iff, arith, require->>-eq-ok, ok-injective,
  if_true, if_false, subst, Bool-cases, some-injective, none≢some, lookup-insert_cases,
  lookup-insert_self, not_same,
}
use openvaultdb_go.Core.Collections.{
  CollectionNames, canonical_of, is_free, listed, add_spelling, declare_spelling,
}

-- Of a list.
unfoldable pub Among : String → List String → Type 0
Among s [] = ⊥
Among s (t ∷ ts) = (s ≡ t) ⊎ Among s ts

listed_iff : (s : String) (ts : List String) → (listed s ts ≡ true) ↔ Among s ts
unfolding listed Among
listed_iff s [] = ground arith
listed_iff s (t ∷ ts) = ground (arith, eq_iff t s, listed_iff s ts)

Among-append : (s : String) (ts us : List String) → Among s (ts ++ us) ↔ (Among s ts ⊎ Among s us)
unfolding Among
Among-append s [] us = ground arith
Among-append s (t ∷ ts) us = ground (arith, Among-append s ts us)

-- The key is one of the manifest, or the name of the table that such a key is quoted.
unfoldable pub IsSpelling : String → String → String → String → Type 0
IsSpelling engine key s canonical =
    (canonical_of engine key ≡ canonical) × ((s ≡ canonical) ⊎ (s ≡ key))

is_free_lem :
    (o : Option String) (canonical c : String)
    → is_free o canonical ≡ true
    → o ≡ some c
    → c ≡ canonical
unfolding is_free
is_free_lem none canonical c h k = absurd (none≢some k)
is_free_lem (some other) canonical c h k = sym (some-injective k) ∙ (eq_iff other canonical).0 h

-- What is added to the canonical names, and what to the lists of their spellings.
pub declare_spelling-canonical :
    (canonical s t c : String) (names after : CollectionNames)
    → declare_spelling canonical s names ≡ ok after
    → (lookup t after.canonical ≡ some c)
      ↔ ((lookup t names.canonical ≡ some c) ⊎ ((t ≡ s) × (canonical ≡ c)))
unfolding declare_spelling
declare_spelling-canonical canonical s t c names after h =
    let (free, same) = require->>-eq-ok (is_free (lookup s names.canonical) canonical) _ _ h in
    let e = ap (λ n. lookup t n.canonical) (ok-injective same) in
    rw (sym e) (
      λ k. elim (lookup-insert_cases s t canonical c names.canonical k) [
        | inl (a, b) ↦ inr (sym a, b)
        | inr (a, b) ↦ inl b
      ],
      λ k. elim k [
        | inr (a, b) ↦
            subst (λ x. lookup x (insert s canonical names.canonical) ≡ some c) (sym a)
              (lookup-insert_self s canonical names.canonical ∙ ap some b)
        | inl a ↦ elim (Bool-cases (s == t)) [
          | inl b ↦
              let st = (eq_iff s t).0 b in
              lookup-insert s t canonical names.canonical
              ∙ if_true _ _ b
              ∙ ap some (
                  sym (
                    is_free_lem (lookup s names.canonical) canonical c free
                      (ap (λ x. lookup x names.canonical) st ∙ a)))
          | inr b ↦ lookup-insert s t canonical names.canonical ∙ if_false _ _ b ∙ a
        ]
      ],
    )

-- The spellings under a canonical name.
unfoldable pub spellings_of : Option (List String) → List String
spellings_of none = []
spellings_of (some ss) = ss

add_spelling_iff :
    (s t : String) (o : Option (List String))
    → Among t (add_spelling s o) ↔ (Among t (spellings_of o) ⊎ (t ≡ s))
unfolding add_spelling Among spellings_of
add_spelling_iff s t none = ground arith
add_spelling_iff s t (some ss) = elim (Bool-cases (listed s ss)) [
  | inl e ↦ rw e (
    λ h. inl h,
    λ h. elim h [ inl a ↦ a | inr a ↦ subst (λ x. Among x ss) (sym a) ((listed_iff s ss).0 e) ],
  )
  | inr e ↦ rw e (ground (arith, Among-append t ss (s ∷ [])))
]

-- Every name is listed under the canonical name that it has.
unfoldable pub IsListed : CollectionNames → Type 0
IsListed names =
    (t c : String)
    → (lookup t names.canonical ≡ some c) ↔ Among t (spellings_of (lookup c names.spellings))

declare_spelling-spellings :
    (canonical s t c : String) (names after : CollectionNames)
    → declare_spelling canonical s names ≡ ok after
    → Among t (spellings_of (lookup c after.spellings))
      ↔ (Among t (spellings_of (lookup c names.spellings)) ⊎ ((t ≡ s) × (canonical ≡ c)))
unfolding declare_spelling spellings_of
declare_spelling-spellings canonical s t c names after h =
    let (free, same) = require->>-eq-ok (is_free (lookup s names.canonical) canonical) _ _ h in
    let e = ap (λ n. lookup c n.spellings) (ok-injective same) in
    let new = add_spelling s (lookup canonical names.spellings) in
    let added = add_spelling_iff s t (lookup canonical names.spellings) in
    rw (sym e) (elim (Bool-cases (canonical == c)) [
      | inl a ↦
          subst
            (λ x.
              Among t (spellings_of (lookup x (insert canonical new names.spellings)))
              ↔ (Among t (spellings_of (lookup x names.spellings)) ⊎ ((t ≡ s) × (canonical ≡ x))))
            ((eq_iff canonical c).0 a)
            (rw (lookup-insert_self canonical new names.spellings) (
              λ k. elim (added.0 k) [ inl b ↦ inl b | inr b ↦ inr (b, refl) ],
              λ k. elim k [ inl b ↦ added.1 (inl b) | inr (b, d) ↦ added.1 (inr b) ],
            ))
      | inr a ↦
          rw (lookup-insert canonical c new names.spellings, a)
            (λ k. inl k, λ k. elim k [ inl b ↦ b | inr (b, d) ↦ absurd (not_same a d) ])
    ])

pub declare_spelling-IsListed :
    (canonical s : String) (names after : CollectionNames)
    → declare_spelling canonical s names ≡ ok after
    → IsListed names
    → IsListed after
unfolding IsListed
declare_spelling-IsListed canonical s names after h l t c =
    let a = declare_spelling-canonical canonical s t c names after h in
    let b = declare_spelling-spellings canonical s t c names after h in
    let d = l t c in
    (
      λ k. b.1 (elim (a.0 k) [ inl e ↦ inl (d.0 e) | inr e ↦ inr e ]),
      λ k. a.1 (elim (b.0 k) [ inl e ↦ inl (d.1 e) | inr e ↦ inr e ]),
    )
