-- ===== src/Auth/Store/Histories.antt =====
-- pkg/auth/store.go: the entries of the store point to the grants that they name, whatever the calls.
use openvaultdb_go.Base.{
  some-injective, ℕ, String, List, [], ◌∷◌, ◌≡◌, refl, sym, ap, ◌∙◌, subst, ◌≢◌, inl, inr, Option,
  none, some, arith, eqb, eqb_iff, Bool-cases, Option-cases, get_elem?, set, get_elem?-lt,
  get_elem?-set_self, get_elem?-set_ne, lookup, ok, err, Result,
}
use openvaultdb_go.Auth.Grant.{PrincipalRefs, IdentityError, Grant, revoked}
use openvaultdb_go.Auth.Store.{Store, StoreError, SaveOutcome, Environment, cell}
use openvaultdb_go.Auth.Store.Admin.{
  create_grant, create_with, filled_in, revoke_grant, revoke_found, revoke_at,
}
use openvaultdb_go.Auth.Store.Lookup.{
  IsConsistent, enter_and_save-IsConsistent, save_locked-IsConsistent, put_code-IsConsistent,
}
use openvaultdb_go.Auth.Store.Settlement.{exchange_code-IsConsistent}
use openvaultdb_go.Auth.Store.Calls.{Call, puts, exchanges, creates, revokes, step, run}

module _ {Ref : Type 0} where
  -- Writing a grant with the same key in its cell.
  keyed-set :
      (key : Grant Ref → String) (heap : List (Grant Ref)) (q : ℕ) (f f' : Grant Ref)
      → get_elem? heap q ≡ some f
      → key f' ≡ key f
      → (k : String) (p : ℕ) → (g : Grant Ref) × (get_elem? heap p ≡ some g) × (key g ≡ k)
      → (g : Grant Ref) × (get_elem? (set heap q f') p ≡ some g) × (key g ≡ k)
  keyed-set key heap q f f' at_q same k p (g, at_p, named) = elim (Bool-cases (eqb p q)) [
    | inl here ↦
        let p≡q = (eqb_iff p q).0 here in
        (
          f',
          subst (λ k. get_elem? (set heap q f') k ≡ some f') (sym p≡q)
              (get_elem?-set_self heap q f' (get_elem?-lt heap q at_q)),
          same ∙ ap key (some-injective (sym at_q ∙ ap (get_elem? heap) (sym p≡q) ∙ at_p)) ∙ named,
        )
    | inr other ↦
        let apart : q ≢ p = λ d. ground arith in (g, get_elem?-set_ne heap f' apart ∙ at_p, named)
  ]

  revoke_at-IsConsistent :
      (q : ℕ) (f : Grant Ref) (now at : ℕ) (o : SaveOutcome) (s : Store Ref)
      → get_elem? s.heap q ≡ some f
      → IsConsistent s
      → IsConsistent (revoke_at q f now at o s).0
  unfolding revoke_at
  revoke_at-IsConsistent q f now at o s at_q c = elim (Bool-cases (revoked f)) [
    | inl already ↦ rw already c
    | inr open_grant ↦
        let f' : Grant Ref = record f { revoked_at = some now } in
        let s' : Store Ref = record s { heap = set s.heap q f' } in
        let c' : IsConsistent s' = record {
          by_hash =
              λ h p e. keyed-set (λ g. g.token_hash) s.heap q f f' at_q refl h p (c.by_hash h p e);
          by_id = λ i p e. keyed-set (λ g. g.id) s.heap q f f' at_q refl i p (c.by_id i p e);
        } in
        rw open_grant (save_locked-IsConsistent o at s' c')
  ]

  revoke_found-IsConsistent :
      (q : Option ℕ) (now at : ℕ) (o : SaveOutcome) (s : Store Ref)
      → IsConsistent s
      → IsConsistent (revoke_found q (cell s.heap q) now at o s).0
  unfolding revoke_found
  revoke_found-IsConsistent none now at o s c = c
  revoke_found-IsConsistent (some q) now at o s c = elim (Option-cases (get_elem? s.heap q)) [
    | inl dangling ↦ rw dangling c
    | inr (f, at_q) ↦ rw at_q (revoke_at-IsConsistent q f now at o s at_q c)
  ]

module _ (P : PrincipalRefs) (hash : String → String) where
  open P use {Ref}

  create_with-IsConsistent :
      (g : Grant Ref) (token : String) (env : Environment) (v : Result IdentityError (Unit {0}))
      (i : Result StoreError String) (s : Store Ref)
      → IsConsistent s
      → IsConsistent (create_with P hash g token env v i s).0
  unfolding create_with
  create_with-IsConsistent g token env (err e) i s c = c
  create_with-IsConsistent g token env (ok u) (err e) s c = c
  create_with-IsConsistent g token env (ok u) (ok i) s c =
      let f : Grant Ref = filled_in P hash g token i env.issued_at in
      enter_and_save-IsConsistent env f f s c

  step-IsConsistent :
      (c : Call Ref) (s : Store Ref) → IsConsistent s → IsConsistent (step P hash c s)
  unfolding step create_grant revoke_grant
  step-IsConsistent (puts code client redirect database caps now) s k =
      put_code-IsConsistent code client redirect database caps now s k
  step-IsConsistent (exchanges code client env) s k =
      exchange_code-IsConsistent hash code client env s k
  step-IsConsistent (creates g token env) s k = create_with-IsConsistent g token env _ _ s k
  step-IsConsistent (revokes id now saved_at outcome) s k =
      revoke_found-IsConsistent (lookup id s.grants_by_id) now saved_at outcome s k

  -- Every history of calls, with saves that succeed or fail, keeps a store in which each entry by
  -- hash and each entry by ID points to a grant that carries this hash or this ID.
  pub run-IsConsistent :
      (cs : List (Call Ref)) (s : Store Ref) → IsConsistent s → IsConsistent (run P hash cs s)
  unfolding run
  run-IsConsistent [] s k = k
  run-IsConsistent (c ∷ cs) s k = run-IsConsistent cs (step P hash c s) (step-IsConsistent c s k)
