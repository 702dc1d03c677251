-- ===== src/Auth/Store/Lookup.antt =====
-- pkg/auth/store.go: what a bearer token resolves to, and the shape of the store that every
-- operation keeps.
use openvaultdb_go.Base.{
  ℕ, String, List, [], ◌∷◌, ◌++◌, false, ◌==◌, ◌≡◌, refl, sym, ap, ◌∙◌, subst, inl, inr, none, some,
  arith, Bool-cases, Option-cases, get_elem?, length, get_elem?-lt, get_elem?-append,
  get_elem?-append_length, lookup, insert, remove, lookup-insert, remove-insert,
  lookup-insert_cases, lookup-remove-some, if◌then◌else◌, ok, err, Result,
}
use openvaultdb_go.Auth.Capability.{Capability}
use openvaultdb_go.Auth.Grant.{Grant, expired, revoked}
use openvaultdb_go.Auth.Store.{
  Store, StoreError, SaveOutcome, Environment, cell, live, enter, withdraw, save_locked, settle,
  enter_and_save, put_code, lookup_token, saved,
}

-- Every entry of the two maps points to an object that carries the entry's key.
pub record IsConsistent {Ref : Type 0} (s : Store Ref) : Type 0 where
  pub by_hash :
      (h : String) (p : ℕ)
      → lookup h s.grants ≡ some p
      → (g : Grant Ref) × (get_elem? s.heap p ≡ some g) × (g.token_hash ≡ h)
  pub by_id :
      (i : String) (p : ℕ)
      → lookup i s.grants_by_id ≡ some p
      → (g : Grant Ref) × (get_elem? s.heap p ≡ some g) × (g.id ≡ i)

module _ {Ref : Type 0} where
  -- A cell that is there stays there when the heap grows.
  pub get_elem?-grow :
      (heap : List (Grant Ref)) (g : Grant Ref) (p : ℕ) {f : Grant Ref}
      → get_elem? heap p ≡ some f
      → get_elem? (heap ++ g ∷ []) p ≡ some f
  get_elem?-grow heap g p h = get_elem?-append heap (g ∷ []) p (get_elem?-lt heap p h) ∙ h

  module _ (heap : List (Grant Ref)) (g : Grant Ref) (key : Grant Ref → String)
      (m : List (String × ℕ)) where
    insert-keyed :
        ((k : String) (p : ℕ)
          → lookup k m ≡ some p
          → (f : Grant Ref) × (get_elem? heap p ≡ some f) × (key f ≡ k))
        → (k : String) (p : ℕ) → lookup k (insert (key g) (length heap) m) ≡ some p
        → (f : Grant Ref) × (get_elem? (heap ++ g ∷ []) p ≡ some f) × (key f ≡ k)
    insert-keyed old k p h = elim (lookup-insert_cases (key g) k (length heap) p m h) [
      | inl (same, here) ↦ (
        g,
        subst (λ q. get_elem? (heap ++ g ∷ []) q ≡ some g) here (get_elem?-append_length heap g),
        same,
      )
      | inr (other, before) ↦
          let (f, at_p, keyed) = old k p before in (f, get_elem?-grow heap g p at_p, keyed)
    ]

    remove-keyed :
        (i : String)
        → ((k : String) (p : ℕ)
            → lookup k m ≡ some p
            → (f : Grant Ref) × (get_elem? heap p ≡ some f) × (key f ≡ k))
        → (k : String) (p : ℕ) → lookup k (remove i m) ≡ some p
        → (f : Grant Ref) × (get_elem? heap p ≡ some f) × (key f ≡ k)
    remove-keyed i old k p h = old k p (lookup-remove-some i k p m h)

  enter-IsConsistent : (g : Grant Ref) (s : Store Ref) → IsConsistent s → IsConsistent (enter g s)
  unfolding enter
  enter-IsConsistent g s c = record {
    by_hash = insert-keyed s.heap g (λ f. f.token_hash) s.grants c.by_hash;
    by_id = insert-keyed s.heap g (λ f. f.id) s.grants_by_id c.by_id;
  }

  withdraw-IsConsistent :
      (g : Grant Ref) (s : Store Ref) → IsConsistent s → IsConsistent (withdraw g s)
  unfolding withdraw
  withdraw-IsConsistent g s c = record {
    by_hash = remove-keyed s.heap g (λ f. f.token_hash) s.grants g.token_hash c.by_hash;
    by_id = remove-keyed s.heap g (λ f. f.id) s.grants_by_id g.id c.by_id;
  }

  pub save_locked-IsConsistent :
      (o : SaveOutcome) (now : ℕ) (s : Store Ref)
      → IsConsistent s
      → IsConsistent (save_locked o now s).0
  unfolding save_locked
  save_locked-IsConsistent saved now s c = record { by_hash = c.by_hash; by_id = c.by_id }
  save_locked-IsConsistent _ now s c = c

  settle-IsConsistent {κ} :
      {A : Type κ} (g : Grant Ref) (a : A) (r : Store Ref × Result StoreError (Unit {0}))
      → IsConsistent r.0
      → IsConsistent (settle g a r).0
  unfolding settle
  settle-IsConsistent g a (s, ok u) c = c
  settle-IsConsistent g a (s, err e) c = withdraw-IsConsistent g s c

  pub enter_and_save-IsConsistent {κ} :
      {A : Type κ} (env : Environment) (g : Grant Ref) (a : A) (s : Store Ref)
      → IsConsistent s
      → IsConsistent (enter_and_save env g a s).0
  unfolding enter_and_save
  enter_and_save-IsConsistent env g a s c =
      settle-IsConsistent g a _
        (save_locked-IsConsistent env.outcome env.saved_at _ (enter-IsConsistent g s c))

  pub put_code-IsConsistent :
      (code client redirect database : String) (caps : List Capability) (now : ℕ) (s : Store Ref)
      → IsConsistent s
      → IsConsistent (put_code code client redirect database caps now s)
  unfolding put_code
  put_code-IsConsistent code client redirect database caps now s c = record {
    by_hash = c.by_hash;
    by_id = c.by_id;
  }

  cell-grow :
      (s : Store Ref) (g : Grant Ref) (h : String)
      → IsConsistent s
      → cell (s.heap ++ g ∷ []) (lookup h s.grants) ≡ cell s.heap (lookup h s.grants)
  cell-grow s g h c = elim (Option-cases (lookup h s.grants)) [
    | inl absent ↦ rw absent refl
    | inr (p, there) ↦
        let (f, at_p, keyed) = c.by_hash h p there in
        rw there (get_elem?-grow s.heap g p at_p ∙ sym at_p)
  ]

  module _ (hash : String → String) where
    pub lookup_token-enter :
        (token : String) (now : ℕ) (g : Grant Ref) (s : Store Ref)
        → IsConsistent s
        → lookup_token hash token now (enter g s) ≡ (
            if g.token_hash == hash token then live now (some g) else lookup_token hash token now s)
    unfolding lookup_token enter
    lookup_token-enter token now g s c = elim (Bool-cases (g.token_hash == hash token)) [
      | inl same ↦ rw (lookup-insert, same, get_elem?-append_length s.heap g) refl
      | inr other ↦ rw (lookup-insert, other) (ap (live now) (cell-grow s g (hash token) c))
    ]

    -- Entering an object under a new hash and taking it out again leaves every token as it was.
    pub lookup_token-withdraw :
        (token : String) (now : ℕ) (g : Grant Ref) (s : Store Ref)
        → IsConsistent s
        → lookup g.token_hash s.grants ≡ none
        → lookup_token hash token now (withdraw g (enter g s)) ≡ lookup_token hash token now s
    unfolding lookup_token enter withdraw
    lookup_token-withdraw token now g s c fresh =
        rw (remove-insert g.token_hash (hash token) (length s.heap) s.grants fresh)
          (ap (live now) (cell-grow s g (hash token) c))

    -- The grant that a token resolves to is stored under the token's hash, has not expired and is
    -- not revoked.
    pub lookup_token_sound :
        (token : String) (now : ℕ) (s : Store Ref) (g : Grant Ref)
        → IsConsistent s
        → lookup_token hash token now s ≡ some g
        → (g.token_hash ≡ hash token) × (expired g now ≡ false) × (revoked g ≡ false)
    unfolding lookup_token
    lookup_token_sound token now s g c e = elim (Option-cases (lookup (hash token) s.grants)) [
      | inl absent ↦ ground (arith, absent)
      | inr (p, there) ↦
          let (f, at_p, keyed) = c.by_hash (hash token) p there in
          ground (arith, there, at_p, keyed)
    ]
