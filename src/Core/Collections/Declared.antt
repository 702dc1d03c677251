-- ===== src/Core/Collections/Declared.antt =====
-- pkg/core/collection_names.go: which names a mount declares, and what they are spellings of.
use openvaultdb_go.Base.{
  String, List, [], ◌∷◌, none, some, ok, ◌≡◌, refl, sym, ap, ◌∙◌, ◌↔◌, ◌⊎◌, inl, inr, lookup,
  insert, arith, >>=-eq-ok, ok-injective, Option-cases, if-both, subst, none≢some,
}
use openvaultdb_go.Schema.Declarations.{Collection}
use openvaultdb_go.Core.Collections.{
  Manifest, CollectionNames, canonical_of, sorted_keys, insert_key, declare_spelling, first_or_same,
  kept_first, declare_keys, new_collection_names, collection_spellings, before,
}
use openvaultdb_go.Core.Collections.Spellings.{
  Among, IsSpelling, spellings_of, IsListed, declare_spelling-canonical, declare_spelling-IsListed,
}

-- A key of the list gives the name this canonical name.
Given : Manifest → List String → String → String → Type 0
Given m keys t c = (key : String) × Among key keys × IsSpelling m.engine key t c

declare_keys_lem :
    (m : Manifest) (cs : List (String × Collection)) (keys : List String)
    (declared_by : List (String × String)) (names after : CollectionNames)
    → declare_keys m cs keys declared_by names ≡ ok after
    → IsListed names
    → IsListed after
      × ((t c : String)
          → (lookup t after.canonical ≡ some c)
            ↔ ((lookup t names.canonical ≡ some c) ⊎ Given m keys t c))
unfolding declare_keys Given Among IsSpelling
declare_keys_lem m cs [] declared_by names after h l =
    subst
      (λ n.
        IsListed n
        × ((t c : String)
            → (lookup t n.canonical ≡ some c)
              ↔ ((lookup t names.canonical ≡ some c) ⊎ Given m [] t c)))
      (ok-injective h)
      (l, λ t c. (λ k. inl k, λ k. elim k [ inl a ↦ a | inr (key, a, b) ↦ absurd a ]))
declare_keys_lem m cs (key ∷ keys) declared_by names after h l =
    let own = canonical_of m.engine key in
    let first = lookup own declared_by in
    let (_, _, h1) = >>=-eq-ok (first_or_same cs key first) _ h in
    let (n1, a1, h2) = >>=-eq-ok (declare_spelling own own names) _ h1 in
    let (n2, a2, h3) = >>=-eq-ok (declare_spelling own key n1) _ h2 in
    let l2 =
      declare_spelling-IsListed own key n1 n2 a2
        (declare_spelling-IsListed own own names n1 a1 l) in
    let (l3, rest) =
      declare_keys_lem m cs keys (insert own (kept_first key first) declared_by) n2 after h3 l2 in
    (
      l3,
      λ t c.
          let s1 = declare_spelling-canonical own own t c names n1 a1 in
          let s2 = declare_spelling-canonical own key t c n1 n2 a2 in
          let s3 = rest t c in
          (
            λ k. elim (s3.0 k) [
              | inr (other, a, b) ↦ inr (other, inr a, b)
              | inl k2 ↦ elim (s2.0 k2) [
                | inr (a, b) ↦ inr (key, inl refl, (b, inr a))
                | inl k1 ↦ elim (s1.0 k1) [
                  | inl k0 ↦ inl k0
                  | inr (a, b) ↦ inr (key, inl refl, (b, inl (a ∙ b)))
                ]
              ]
            ],
            λ k. elim k [
              | inl k0 ↦ s3.1 (inl (s2.1 (inl (s1.1 (inl k0)))))
              | inr (other, inr a, b) ↦ s3.1 (inr (other, a, b))
              | inr (other, inl e, (b, inl a)) ↦
                  let same = ap (canonical_of m.engine) (sym e) ∙ b in
                  s3.1 (inl (s2.1 (inl (s1.1 (inr (a ∙ sym same, same))))))
              | inr (other, inl e, (b, inr a)) ↦
                  s3.1 (inl (s2.1 (inr (a ∙ e, ap (canonical_of m.engine) (sym e) ∙ b))))
            ],
          ),
    )

insert_key_iff :
    (k l : String) (ls : List String) → Among k (insert_key l ls) ↔ ((k ≡ l) ⊎ Among k ls)
unfolding insert_key Among
insert_key_iff k l [] = ground arith
insert_key_iff k l (h ∷ hs) =
    if-both (λ r. Among k r ↔ ((k ≡ l) ⊎ Among k (h ∷ hs))) (before l h) ((λ x. x), (λ x. x))
      (ground (arith, insert_key_iff k l hs))

-- The keys of the manifest, in any order.
pub keys_of : List (String × Collection) → List String
keys_of [] = []
keys_of ((k, c) ∷ cs) = k ∷ keys_of cs

sorted_keys_iff :
    (k : String) (cs : List (String × Collection)) → Among k (sorted_keys cs) ↔ Among k (keys_of cs)
unfolding sorted_keys keys_of Among
sorted_keys_iff k [] = ground arith
sorted_keys_iff k ((l, c) ∷ cs) =
    let a = insert_key_iff k l (sorted_keys cs) in
    let b = sorted_keys_iff k cs in
    (
      λ h. elim (a.0 h) [ inl e ↦ inl e | inr e ↦ inr (b.0 e) ],
      λ h. elim h [ inl e ↦ a.1 (inl e) | inr e ↦ a.1 (inr (b.1 e)) ],
    )

pub declared_keys : Manifest → List String
declared_keys m = elim m.collections [ none ↦ [] | some cs ↦ keys_of cs ]

-- What the names say of a text, and what the spellings of a declared name are.
pub record IsDeclared (m : Manifest) (names : CollectionNames) : Type 0 where
  pub meaning :
      (t c : String)
      → (lookup t names.canonical ≡ some c)
        ↔ ((key : String) × Among key (declared_keys m) × IsSpelling m.engine key t c)
  pub spellings :
      (t u c : String)
      → lookup t names.canonical ≡ some c
      → Among u (collection_spellings names t) ↔ (lookup u names.canonical ≡ some c)

listed-spellings :
    (names : CollectionNames) (t u c : String)
    → IsListed names
    → lookup t names.canonical ≡ some c
    → Among u (collection_spellings names t) ↔ (lookup u names.canonical ≡ some c)
unfolding collection_spellings IsListed spellings_of
listed-spellings names t u c l h = rw (h, collection_spellings) ((l u c).1, (l u c).0)

nothing_declared : CollectionNames
nothing_declared = record { canonical = []; spellings = [] }

declare_keys-IsDeclared :
    (m : Manifest) (cs : List (String × Collection)) (keys : List String) (names : CollectionNames)
    → ((k : String) → Among k keys ↔ Among k (declared_keys m))
    → declare_keys m cs keys [] nothing_declared ≡ ok names
    → IsDeclared m names
unfolding nothing_declared IsListed Among spellings_of lookup Given
declare_keys-IsDeclared m cs keys names same h =
    let empty : IsListed nothing_declared = λ t c. (λ k. absurd (none≢some k), λ k. absurd k) in
    let (l, known) = declare_keys_lem m cs keys [] nothing_declared names h empty in
    record {
      meaning = λ t c. (
        λ k. elim ((known t c).0 k) [
          | inl none_yet ↦ absurd (none≢some none_yet)
          | inr (key, a, b) ↦ (key, (same key).0 a, b)
        ],
        λ (key, a, b). (known t c).1 (inr (key, (same key).1 a, b)),
      );
      spellings = λ t u c k. listed-spellings names t u c l k;
    }

-- When the names of a manifest are accepted, a text has a canonical name exactly when some key of
-- the manifest has that canonical name and the text is the name itself or the key: no text has
-- two. And the spellings of a declared name are the texts with the same canonical name.
pub new_collection_names_ok :
    (m : Manifest) (names : CollectionNames)
    → new_collection_names m ≡ ok names
    → IsDeclared m names
unfolding new_collection_names declared_keys nothing_declared
new_collection_names_ok m names h = elim (Option-cases m.collections) [
  | inl e ↦
      declare_keys-IsDeclared m [] [] names (λ k. rw (e, declared_keys) (λ x. x, λ x. x))
        (rw (e, new_collection_names) at h)
  | inr (cs, e) ↦
      declare_keys-IsDeclared m cs (sorted_keys cs) names
        (λ k. rw (e, declared_keys) (sorted_keys_iff k cs)) (rw (e, new_collection_names) at h)
]

-- A declared name leads to one that leads to itself.
pub canonical-lookup :
    (m : Manifest) (names : CollectionNames) (t c : String)
    → IsDeclared m names
    → lookup t names.canonical ≡ some c
    → lookup c names.canonical ≡ some c
unfolding IsSpelling
canonical-lookup m names t c d h =
    let (key, among, spelt) = (d.meaning t c).0 h in
    (d.meaning c c).1 (key, among, (spelt.0, inl refl))
