-- ===== src/Core/Key/Chains.antt =====
-- pkg/core/key.go: a parsed key read back, from the leaf to the root.
use openvaultdb_go.Base.{
  ℕ, zero, suc, String, List, [], ◌∷◌, ◌++◌, Bool, true, not, ◌&&◌, ◌≡◌, refl, sym, ap, ◌∙◌, Option,
  none, some, ok, require->>-eq-ok, >>=-eq-ok, ok-injective, arith, append_assoc, append-nil,
  Option-cases, inl, inr,
}
use openvaultdb_go.Core.Key.{
  Keys, is_nil, build_key, is_even, built, extend, parse_key, validate_segments, root_from,
  root_collection, names_from, chains_from, collection_chains,
}

-- The collection names of a key path: every other segment.
pub collections : List String → List String
collections [] = []
collections (c ∷ []) = []
collections (c ∷ i ∷ rest) = c ∷ collections rest

-- The first of a list, or a default.
pub first_or : String → List String → String
first_or d [] = d
first_or d (s ∷ ss) = s

first_or-collections :
    (segments : List String)
    → is_even segments ≡ true
    → first_or "" (collections segments) ≡ first_or "" segments
unfolding first_or collections is_even
first_or-collections [] e = refl
first_or-collections (c ∷ []) e = cc
first_or-collections (c ∷ i ∷ rest) e = refl

module _ (K : Keys) where
  open K use {Key, new_key, new_child, parent, collection, depth}

  names : Key → List String → List String
  names k acc = names_from K (depth k) k acc

  names_from-root :
      (n : ℕ) (k : Key) (acc : List String)
      → parent k ≡ none
      → names_from K n k acc ≡ collection k ∷ acc
  unfolding names_from
  names_from-root zero k acc h = refl
  names_from-root (suc n) k acc h = rw (h, names_from) refl

  names-child :
      (k p : Key) (acc : List String)
      → parent k ≡ some p
      → names k acc ≡ names p (collection k ∷ acc)
  unfolding names names_from
  names-child k p acc h = rw (K.parent-depth k p h) (rw (h, names_from) refl)

  names_of : Option Key → List String → List String
  names_of none acc = acc
  names_of (some k) acc = names k acc

  names-extend :
      (o : Option Key) (c i : String) (acc : List String)
      → names (extend K o c i) acc ≡ names_of o (c ∷ acc)
  unfolding extend names_of names
  names-extend none c i acc =
      names_from-root (depth (new_key c i)) (new_key c i) acc (K.parent-new_key c i)
      ∙ ap (λ d. d ∷ acc) (K.collection-new_key c i)
  names-extend (some k) c i acc =
      names-child (new_child k c i) k acc (K.parent-new_child k c i)
      ∙ ap (λ d. names_from K (depth k) k (d ∷ acc)) (K.collection-new_child k c i)

  names_from-append :
      (n : ℕ) (k : Key) (xs ys : List String)
      → names_from K n k (xs ++ ys) ≡ names_from K n k xs ++ ys
  unfolding names_from
  names_from-append zero k xs ys = refl
  names_from-append (suc n) k xs ys = elim (Option-cases (parent k)) [
    | inl root ↦ rw (root, names_from) refl
    | inr (p, up) ↦ rw (up, names_from) (names_from-append n p (collection k ∷ xs) ys)
  ]

  names_of-append :
      (o : Option Key) (xs ys : List String) → names_of o (xs ++ ys) ≡ names_of o xs ++ ys
  unfolding names_of names
  names_of-append none xs ys = refl
  names_of-append (some k) xs ys = names_from-append (depth k) k xs ys

  names-build :
      (o : Option Key) (segments : List String)
      → names_of (build_key K o segments) [] ≡ names_of o [] ++ collections segments
  unfolding build_key collections names_of
  names-build o [] = sym (append-nil _)
  names-build o (c ∷ []) = sym (append-nil _)
  names-build o (c ∷ i ∷ rest) =
      names-build (some (extend K o c i)) rest
      ∙ ap (λ l. l ++ collections rest) (names-extend o c i [] ∙ names_of-append o [] (c ∷ []))
      ∙ append_assoc (names_of o []) (c ∷ []) (collections rest)

  parse_key-built :
      (segments : List String) {k : Key}
      → parse_key K segments ≡ ok k
      → build_key K none segments ≡ some k
  unfolding parse_key
  parse_key-built segments h =
      let (even, h₁) = require->>-eq-ok _ _ _ h in
      let (u, valid, h₂) = >>=-eq-ok (validate_segments segments) _ h₁ in
      built-some (build_key K none segments) h₂
    where
      built-some : (o : Option Key) {k : Key} → built K o ≡ ok k → o ≡ some k
      built-some none h = unfold built in cc
      built-some (some k) h = unfold built in (ap some (ok-injective h))

  parse_key-even :
      (segments : List String) {k : Key} → parse_key K segments ≡ ok k → is_even segments ≡ true
  unfolding parse_key
  parse_key-even segments h =
      let (both, rest) = require->>-eq-ok (not (is_nil segments) && is_even segments) _ _ h in
      and_right _ _ both
    where
      and_right : (a b : Bool) → (a && b) ≡ true → b ≡ true
      and_right a b h = ground arith

  -- The collection chains of a parsed key are those of every other segment, root first.
  pub collection_chains-parse_key :
      (segments : List String) {k : Key}
      → parse_key K segments ≡ ok k
      → collection_chains K k ≡ chains_from "" (collections segments)
  unfolding collection_chains names_of names
  collection_chains-parse_key segments {k} h =
      ap (chains_from "")
        (ap (λ o. names_of o []) (sym (parse_key-built segments h)) ∙ names-build none segments)

  first_or-names_from :
      (n : ℕ) (k : Key) (d : String) (acc : List String)
      → first_or d (names_from K n k acc) ≡ collection (root_from K n k)
  unfolding first_or names_from root_from
  first_or-names_from zero k d acc = refl
  first_or-names_from (suc n) k d acc = elim (Option-cases (parent k)) [
    | inl root ↦ rw (root, names_from, root_from) refl
    | inr (p, up) ↦ rw (up, names_from, root_from) (first_or-names_from n p d (collection k ∷ acc))
  ]

  -- The root collection of a parsed key, the one that a capability scopes, is its first segment.
  pub root_collection-parse_key :
      (segments : List String) {k : Key}
      → parse_key K segments ≡ ok k
      → root_collection K k ≡ first_or "" segments
  unfolding root_collection names_of names
  root_collection-parse_key segments {k} h =
      sym (first_or-names_from (depth k) k "" [])
      ∙ ap (first_or "")
          (ap (λ o. names_of o []) (sym (parse_key-built segments h)) ∙ names-build none segments)
      ∙ first_or-collections segments (parse_key-even segments h)
