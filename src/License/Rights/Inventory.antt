-- ===== src/License/Rights/Inventory.antt =====
-- pkg/license/rights.go: the size and the content of an inventory.
use openvaultdb_go.Base.{
  bytes, none≢some, some-injective, ℕ, ◌≤◌, String, List, [], ◌∷◌, true, not, ◌==◌, ltb, Option,
  none, some, ok, ◌≡◌, refl, sym, ap, ◌∙◌, subst, inl, inr, arith, All, Memᴰ, lookup,
  require->>-eq-ok, >>=-eq-ok, ok-injective, Bool-cases, if-both, if_true, if_false,
}
use openvaultdb_go.License.Declaration.{too_large}
use openvaultdb_go.License.Rights.{
  SourceRight, max_evidence_bytes, or_not_encodable, collect_rights, before, insert_sorted,
  sorted_rights, inventory,
}
use openvaultdb_go.License.Rights.Collected.{
  StandsFor, IsKeyed, collect_rights-StandsFor, collect_rights-All,
}

module _ {Html : Type 0} (encode : SourceRight Html → Option String)
    (encode_all : List (SourceRight Html) → Option String) where
  insert_sorted-self :
      (r : SourceRight Html) (rs : List (SourceRight Html))
      → Memᴰ r (insert_sorted encode encode_all r rs)
  unfolding insert_sorted
  insert_sorted-self r [] = Memᴰ.head refl
  insert_sorted-self r (q ∷ qs) =
      if-both (Memᴰ r) (before encode encode_all r.source_id q.source_id) (Memᴰ.head refl)
        (Memᴰ.tail (insert_sorted-self r qs))

  insert_sorted-mem :
      (r q : SourceRight Html) (rs : List (SourceRight Html))
      → Memᴰ q rs
      → Memᴰ q (insert_sorted encode encode_all r rs)
  unfolding insert_sorted
  insert_sorted-mem r q [] m = elim m [ ]
  insert_sorted-mem r q (p ∷ ps) (Memᴰ.head e) =
      if-both (Memᴰ q) (before encode encode_all r.source_id p.source_id) (Memᴰ.tail (Memᴰ.head e))
        (Memᴰ.head e)
  insert_sorted-mem r q (p ∷ ps) (Memᴰ.tail m) =
      if-both (Memᴰ q) (before encode encode_all r.source_id p.source_id) (Memᴰ.tail (Memᴰ.tail m))
        (Memᴰ.tail (insert_sorted-mem r q ps m))

  insert_sorted-All :
      (P : SourceRight Html → Type 0) (r : SourceRight Html) (rs : List (SourceRight Html))
      → P r
      → All P rs
      → All P (insert_sorted encode encode_all r rs)
  unfolding insert_sorted
  insert_sorted-All P r [] p h = (p, tt)
  insert_sorted-All P r (q ∷ qs) p (first, h) =
      if-both (All P) (before encode encode_all r.source_id q.source_id) (p, (first, h))
        (first, insert_sorted-All P r qs p h)

  sorted_rights-All :
      (P : SourceRight Html → Type 0) (by_id : List (String × SourceRight Html))
      → All (λ e. P e.1) by_id
      → All P (sorted_rights encode encode_all by_id)
  unfolding sorted_rights
  sorted_rights-All P [] h = tt
  sorted_rights-All P ((id, r) ∷ by_id) (p, h) =
      insert_sorted-All P r (sorted_rights encode encode_all by_id) p (sorted_rights-All P by_id h)

  All-given : (rights : List (SourceRight Html)) → All (λ q. Memᴰ q rights) rights
  All-given [] = tt
  All-given (r ∷ rights) = (Memᴰ.head refl, later rights (All-given rights))
    where
      later :
          (qs : List (SourceRight Html))
          → All (λ q. Memᴰ q rights) qs
          → All (λ q. Memᴰ q (r ∷ rights)) qs
      later [] h = tt
      later (q ∷ qs) (m, h) = (Memᴰ.tail m, later qs h)

  sorted_rights-mem :
      (by_id : List (String × SourceRight Html)) (id : String) (q : SourceRight Html)
      → lookup id by_id ≡ some q
      → Memᴰ q (sorted_rights encode encode_all by_id)
  unfolding lookup sorted_rights
  sorted_rights-mem [] id q h = cc
  sorted_rights-mem ((k, r) ∷ by_id) id q h = elim (Bool-cases (k == id)) [
    | inl same ↦
        subst
          (λ q. Memᴰ q (insert_sorted encode encode_all r (sorted_rights encode encode_all by_id)))
          (some-injective (sym (if_true (some r) (lookup id by_id) same) ∙ h))
          (insert_sorted-self r _)
    | inr ne ↦
        insert_sorted-mem r q _
          (sorted_rights-mem by_id id q (sym (if_false (some r) (lookup id by_id) ne) ∙ h))
  ]

  represented :
      (rights : List (SourceRight Html)) (by_id : List (String × SourceRight Html))
      → All
          (λ r.
            (q : SourceRight Html) × (lookup r.source_id by_id ≡ some q)
            × StandsFor encode encode_all r q)
          rights
      → All
          (λ r.
            (q : SourceRight Html) × Memᴰ q (sorted_rights encode encode_all by_id)
            × StandsFor encode encode_all r q)
          rights
  represented [] by_id h = tt
  represented (r ∷ rights) by_id ((q, there, same), h) =
      ((q, sorted_rights-mem by_id r.source_id q there, same), represented rights by_id h)

  within : (n limit : ℕ) → not (ltb limit n) ≡ true → n ≤ limit
  within n limit h = ground arith

  or_not_encodable_ok :
      (o : Option String) (text : String)
      → or_not_encodable encode encode_all o ≡ ok text
      → o ≡ some text
  unfolding or_not_encodable
  or_not_encodable_ok none text h = cc
  or_not_encodable_ok (some t) text h = ap some (ok-injective h)

  -- The encoding of an inventory succeeds, has the number of bytes that is answered and no more
  -- than 262144 of them, and the inventory holds, of the rights that were given and nothing else,
  -- for each of them one of the same source with the same encoding.
  pub inventory_ok :
      (rights out : List (SourceRight Html)) (n : ℕ)
      → inventory encode encode_all rights ≡ ok (out, n)
      → ((text : String) × (encode_all out ≡ some text) × (bytes text ≡ n) × (bytes text ≤ 262144))
        × All (λ r. (q : SourceRight Html) × Memᴰ q out × StandsFor encode encode_all r q) rights
        × All (λ q. Memᴰ q rights) out
  unfolding inventory IsKeyed lookup
  inventory_ok rights out n h =
      let (by_id, c, rest) = >>=-eq-ok (collect_rights encode encode_all rights [] 2) _ h in
      let sorted = sorted_rights encode encode_all by_id in
      let (text, encoded, rest) =
        >>=-eq-ok (or_not_encodable encode encode_all (encode_all sorted)) _ rest in
      let (small, done) = require->>-eq-ok _ too_large _ rest in
      let same = ok-injective done in
      (
        (
          text,
          ap encode_all (sym (ap (λ p. p.0) same))
              ∙ or_not_encodable_ok (encode_all sorted) text encoded,
          ap (λ p. p.1) same,
          within (bytes text) max_evidence_bytes small,
        ),
        subst
            (λ p.
              All (λ r. (q : SourceRight Html) × Memᴰ q p.0 × StandsFor encode encode_all r q)
                rights)
            same
            (represented rights by_id
              (collect_rights-StandsFor encode encode_all rights [] by_id 2 nothing_keyed c)),
        subst (λ p. All (λ q. Memᴰ q rights) p.0) same
            (sorted_rights-All (λ q. Memᴰ q rights) by_id
              (collect_rights-All encode encode_all (λ q. Memᴰ q rights) rights [] by_id 2
                (All-given rights) tt c)),
      )
    where
      nothing_keyed : IsKeyed encode encode_all []
      nothing_keyed id q h = absurd (none≢some h)
