-- ===== src/Auth/Store/Dead.antt =====
-- pkg/auth/store.go: hashes that no later operation on the maps makes usable again.
use openvaultdb_go.Base.{
  ℕ, String, Bool, true, false, ◌≡◌, refl, sym, ◌∙◌, subst, ◌≢◌, ◌⊎◌, inl, inr, Option, none, some,
  arith, eqb, eqb_iff, Bool-cases, Option-cases, get_elem?, set, get_elem?-lt, get_elem?-set_self,
  get_elem?-set_ne, lookup, lookup-insert_ne, lookup-remove_ne, ok, err, Result,
}
use openvaultdb_go.Auth.Grant.{Grant, revoked}
use openvaultdb_go.Auth.Store.{
  Store, StoreError, SaveOutcome, Environment, cell, enter, withdraw, settle, save_locked,
  enter_and_save, saved, lookup_token,
}
use openvaultdb_go.Auth.Store.Admin.{revoke_found, revoke_at}
use openvaultdb_go.Auth.Store.Lookup.{get_elem?-grow}

module _ {Ref : Type 0} where
  -- The hash leads nowhere, or to an object that is marked revoked.
  abbrev pub IsDead : String → Store Ref → Type 0
  IsDead h s =
      (lookup h s.grants ≡ none)
      ⊎ ((p : ℕ) × (g : Grant Ref) × (lookup h s.grants ≡ some p)
          × (get_elem? s.heap p ≡ some g)
          × (revoked g ≡ true))

  pub IsDead-refused :
      (hash : String → String) (token : String) (now : ℕ) (s : Store Ref)
      → IsDead (hash token) s
      → lookup_token hash token now s ≡ none
  unfolding lookup_token
  IsDead-refused hash token now s (inl absent) = rw absent refl
  IsDead-refused hash token now s (inr (p, g, there, at_p, r)) =
      rw (there, at_p) (ground (arith, r))

  enter-IsDead :
      (h : String) (g : Grant Ref) (s : Store Ref)
      → g.token_hash ≢ h
      → IsDead h s
      → IsDead h (enter g s)
  unfolding enter
  enter-IsDead h g s n (inl absent) = inl (lookup-insert_ne _ _ _ s.grants n ∙ absent)
  enter-IsDead h g s n (inr (p, f, there, at_p, r)) =
      inr (p, f, lookup-insert_ne _ _ _ s.grants n ∙ there, get_elem?-grow s.heap g p at_p, r)

  withdraw-IsDead :
      (h : String) (g : Grant Ref) (s : Store Ref)
      → g.token_hash ≢ h
      → IsDead h s
      → IsDead h (withdraw g s)
  unfolding withdraw
  withdraw-IsDead h g s n (inl absent) = inl (lookup-remove_ne _ _ s.grants n ∙ absent)
  withdraw-IsDead h g s n (inr (p, f, there, at_p, r)) =
      inr (p, f, lookup-remove_ne _ _ s.grants n ∙ there, at_p, r)

  pub save_locked-IsDead :
      (h : String) (o : SaveOutcome) (at : ℕ) (s : Store Ref)
      → IsDead h s
      → IsDead h (save_locked o at s).0
  unfolding save_locked
  save_locked-IsDead h saved at s d = d
  save_locked-IsDead h _ at s d = d

  settle-IsDead {κ} :
      {A : Type κ} (h : String) (g : Grant Ref) (a : A)
      (r : Store Ref × Result StoreError (Unit {0}))
      → g.token_hash ≢ h
      → IsDead h r.0
      → IsDead h (settle g a r).0
  unfolding settle
  settle-IsDead h g a (s, ok u) n d = d
  settle-IsDead h g a (s, err e) n d = withdraw-IsDead h g s n d

  pub enter_and_save-IsDead {κ} :
      {A : Type κ} (h : String) (env : Environment) (g : Grant Ref) (a : A) (s : Store Ref)
      → g.token_hash ≢ h
      → IsDead h s
      → IsDead h (enter_and_save env g a s).0
  unfolding enter_and_save
  enter_and_save-IsDead h env g a s n d =
      settle-IsDead h g a _ n
        (save_locked-IsDead h env.outcome env.saved_at _ (enter-IsDead h g s n d))

  set-IsDead :
      (h : String) (q : ℕ) (f : Grant Ref) (now : ℕ) (s : Store Ref)
      → get_elem? s.heap q ≡ some f
      → IsDead h s
      → IsDead h (record s { heap = set s.heap q (record f { revoked_at = some now }) })
  set-IsDead h q f now s at_q (inl absent) = inl absent
  set-IsDead h q f now s at_q (inr (p, g, there, at_p, r)) = elim (Bool-cases (eqb p q)) [
    | inl same ↦
        let f' : Grant Ref = record f { revoked_at = some now } in
        inr (
          p,
          f',
          there,
          subst (λ k. get_elem? (set s.heap q f') k ≡ some f') (sym ((eqb_iff p q).0 same))
              (get_elem?-set_self s.heap q f' (get_elem?-lt s.heap q at_q)),
          (unfold revoked in refl),
        )
    | inr other ↦ inr (
      p,
      g,
      there,
      get_elem?-set_ne s.heap _ (λ e. true-ne-false (sym ((eqb_iff p q).1 (sym e)) ∙ other)) ∙ at_p,
      r,
    )
  ]
    where
      true-ne-false : ◌≢◌ {A = Bool} true false
      true-ne-false = cc

  -- The write of a revocation keeps the dead dead, also through another entry of the same object.
  revoke_at-IsDead :
      (h : String) (q : ℕ) (f : Grant Ref) (now at : ℕ) (o : SaveOutcome) (s : Store Ref)
      → get_elem? s.heap q ≡ some f
      → IsDead h s
      → IsDead h (revoke_at q f now at o s).0
  unfolding revoke_at
  revoke_at-IsDead h q f now at o s at_q d = elim (Bool-cases (revoked f)) [
    | inl already ↦ rw already d
    | inr open_grant ↦ rw open_grant (save_locked-IsDead h o at _ (set-IsDead h q f now s at_q d))
  ]

  pub revoke_found-IsDead :
      (h : String) (q : Option ℕ) (now at : ℕ) (o : SaveOutcome) (s : Store Ref)
      → IsDead h s
      → IsDead h (revoke_found q (cell s.heap q) now at o s).0
  unfolding revoke_found
  revoke_found-IsDead h none now at o s d = d
  revoke_found-IsDead h (some q) now at o s d = elim (Option-cases (get_elem? s.heap q)) [
    | inl dangling ↦ rw dangling d
    | inr (f, at_q) ↦ rw at_q (revoke_at-IsDead h q f now at o s at_q d)
  ]
