-- ===== src/Core/WriteGuard/Sound.antt =====
-- pkg/core/write_guard.go, collection_names.go: what reaches an adapter that writes names into SQL.
use openvaultdb_go.Base.{
  ℕ, ◌+◌, String, List, [], ◌∷◌, Bool, true, false, not, ◌&&◌, ◌||◌, ◌==◌, Option, none, some, ok,
  ◌≡◌, refl, sym, ap, ◌∙◌, inl, inr, arith, lookup, All, Bool-cases, Result-cases, eq_iff, ok≢err,
  none≢some, require->>-eq-ok, require-eq-ok, >>=-eq-ok, some-injective, subst,
}
use openvaultdb_go.JoinExec.Names.{Unicode}
use openvaultdb_go.Core.Key.{Keys}
use openvaultdb_go.Core.Batch.{Op}
use openvaultdb_go.Core.Collections.{Manifest, CollectionNames, adapter_key}
use openvaultdb_go.Core.Collections.Declared.{IsDeclared, canonical-lookup}
use openvaultdb_go.Core.WriteGuard.Opening.{open_guarded, open_guarded-IsDeclared}
use openvaultdb_go.Core.WriteGuard.{
  Guarded, none_too_long, is_given, is_nil, no_key_spelling, all_plain, guard_collection,
  given_names, validate_data_keys, guard_key, guard_op, numbered, guard_from, guard_write, adapted,
  adapter_op, adapter_ops,
}
use openvaultdb_go.Core.WriteGuard.Columns.{
  IsColumn, columns-IsColumn, IsPlainUpdate, validate_updates-IsPlainUpdate,
}

given-some {ℓ} : {A : Type ℓ} (o : Option A) → is_given o ≡ true → (a : A) × (o ≡ some a)
unfolding is_given
given-some none h = cc
given-some (some a) h = (a, refl)

given-none {ℓ} : {A : Type ℓ} (o : Option A) → not (is_given o && true) ≡ true → o ≡ none
unfolding is_given
given-none none h = refl
given-none (some a) h = cc

module _ (K : Keys) where
  open K use {Key, parent, collection}

  -- A key without a parent, in a collection by its canonical name.
  pub IsCanonical : CollectionNames → Key → Type 0
  IsCanonical names k =
      (parent k ≡ none) × (lookup (collection k) names.canonical ≡ some (collection k))

  adapter_key-IsCanonical :
      (m : Manifest) (names : CollectionNames) (k : Key) (c : String)
      → IsDeclared m names
      → parent k ≡ none
      → lookup (collection k) names.canonical ≡ some c
      → IsCanonical names (adapter_key K names k)
  unfolding adapter_key IsCanonical
  adapter_key-IsCanonical m names k c d p l =
      rw (p, l, adapter_key)
        (elim (Bool-cases (c == collection k)) [
          | inl e ↦ rw e (p, l ∙ ap some ((eq_iff c (collection k)).0 e))
          | inr e ↦ rw e (
            K.parent-new_key c (K.key_id k),
            rw (K.collection-new_key c (K.key_id k))
                (canonical-lookup m names (collection k) c d l),
          )
        ])

  guard_key_ok :
      (d : Guarded) (k : Key)
      → d.document_engine ≡ false
      → guard_key K d (some k) ≡ ok tt
      → (parent k ≡ none) × ((c : String) × (lookup (collection k) d.names.canonical ≡ some c))
  unfolding guard_key guard_collection
  guard_key_ok d k e h =
      let (a, b) =
        require->>-eq-ok (not (is_given (parent k) && true)) _ _
          (rw (e, guard_key, guard_collection) at h) in
      let (_, f) = require->>-eq-ok _ _ _ b in
      (given-none (parent k) a, given-some _ (require-eq-ok _ _ f))

module _ (K : Keys) (d : Guarded) where
  open K use {Key}

  adapted-IsCanonical :
      (m : Manifest) (key : Option Key) (k : Key)
      → IsDeclared m d.names
      → d.document_engine ≡ false
      → guard_key K d key ≡ ok tt
      → adapted K d.names key ≡ some k
      → IsCanonical K d.names k
  unfolding adapted
  adapted-IsCanonical m none k known e h a = absurd (none≢some a)
  adapted-IsCanonical m (some j) k known e h a =
      let (p, (c, l)) = guard_key_ok K d j e h in
      subst (IsCanonical K d.names) (some-injective a)
        (adapter_key-IsCanonical K m d.names j c known p l)

module _ (U : Unicode) (K : Keys) (d : Guarded) {Float : Type 0} where
  open K use {Key}

  -- What the adapter is given of one operation.
  pub record IsSafe (o : Op Key Float) : Type 0 where
    pub keyed : (k : Key) → o.key ≡ some k → IsCanonical K d.names k
    pub columns : All (IsColumn U d) (given_names o.fields)
    pub updated : All (IsPlainUpdate U d) o.updates

  guard_op-IsSafe :
      (m : Manifest) (o : Op Key Float)
      → IsDeclared m d.names
      → d.document_engine ≡ false
      → guard_op U K d o ≡ ok tt
      → IsSafe (adapter_op K d.names o)
  unfolding guard_op adapter_op validate_data_keys is_nil
  guard_op-IsSafe m o known e h =
      let (_, a, h1) = >>=-eq-ok (guard_key K d o.key) _ h in
      let (_, b, h2) = >>=-eq-ok (validate_data_keys U d o.fields) _ h1 in
      let (_, h3) =
        require->>-eq-ok (not (o.op == "update" && is_nil o.updates && not d.document_engine)) _ _
          h2 in
      let (plain, b1) = require->>-eq-ok (all_plain U (given_names o.fields)) _ _ b in
      let (short, b2) = require->>-eq-ok (none_too_long d (given_names o.fields)) _ _ b1 in
      let other =
        require-eq-ok (d.document_engine || no_key_spelling (given_names o.fields)) _ b2 in
      record {
        keyed = λ k f. adapted-IsCanonical K d m o.key k known e a f;
        columns = columns-IsColumn U d (given_names o.fields) plain short (ground arith);
        updated = validate_updates-IsPlainUpdate U d o.updates e h3;
      }

  guard_from-IsSafe :
      (m : Manifest) (i : ℕ) (ops : List (Op Key Float))
      → IsDeclared m d.names
      → d.document_engine ≡ false
      → guard_from U K d i ops ≡ ok tt
      → All IsSafe (adapter_ops K d.names ops)
  unfolding guard_from adapter_ops numbered
  guard_from-IsSafe m i [] known e h = tt
  guard_from-IsSafe m i (o ∷ os) known e h = elim (Result-cases (guard_op U K d o)) [
    | inl (_, a) ↦ (
      guard_op-IsSafe m o known e a,
      guard_from-IsSafe m (i + 1) os known e (rw (a, guard_from) at h),
    )
    | inr (why, a) ↦ absurd (ok≢err (sym (rw (a, guard_from) at h)))
  ]

  -- On an engine whose adapter writes names into SQL: when the guards of an opened database accept
  -- a batch, each key that the adapter is given has no parent, and a collection by its canonical
  -- name, which the database declares. Each column of the data is a plain name that the server
  -- keeps whole and is no other spelling of the key column, and each update starts at a field with
  -- such a name that does not begin with the key column.
  pub guard_write-IsSafe :
      (m : Manifest) (read_only : Bool) (ops : List (Op Key Float))
      → open_guarded m read_only ≡ ok d
      → d.document_engine ≡ false
      → guard_write U K d ops ≡ ok tt
      → All IsSafe (adapter_ops K d.names ops)
  unfolding guard_write
  guard_write-IsSafe m read_only ops opened e h =
      guard_from-IsSafe m 0 ops (open_guarded-IsDeclared m read_only d opened) e h
