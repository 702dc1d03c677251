-- ===== src/Auth/Store/Revocation.antt =====
-- pkg/auth/store.go: a revoked grant stays refused, whatever calls follow.
use openvaultdb_go.Base.{
  some-injective, ℕ, String, List, [], ◌∷◌, ◌≡◌, refl, sym, ap, ◌∙◌, ◌≢◌, inl, inr, Option, none,
  some, arith, ltb, not, ◌==◌, ◌||◌, All, Bool-cases, get_elem?, set, get_elem?-lt,
  get_elem?-set_self, lookup, remove, ok, err, Result,
}
use openvaultdb_go.Auth.Grant.{PrincipalRefs, IdentityError, Grant, revoked}
use openvaultdb_go.Auth.Store.{
  Store, StoreError, AuthCode, SaveOutcome, Environment, cell, live, put_code, mint_with,
  exchange_code, exchange_found, lookup_token, minted, new_token, new_grant_id,
}
use openvaultdb_go.Auth.Store.Admin.{
  create_grant, create_with, filled_in, revoke_grant, revoke_found, revoke_at,
}
use openvaultdb_go.Auth.Store.Dead.{
  IsDead, IsDead-refused, enter_and_save-IsDead, revoke_found-IsDead, save_locked-IsDead,
}
use openvaultdb_go.Auth.Store.Calls.{Call, puts, exchanges, creates, revokes, step, run}
use openvaultdb_go.Auth.Store.Linked.{IsLinked}

live-some :
    {Ref : Type 0} (now : ℕ) (o : Option (Grant Ref)) {g : Grant Ref}
    → live now o ≡ some g
    → o ≡ some g
live-some now none e = cc
live-some now (some f) e = ground arith

live_entry :
    {Ref : Type 0} (now : ℕ) (heap : List (Grant Ref)) (o : Option ℕ) {g : Grant Ref}
    → live now (cell heap o) ≡ some g
    → (p : ℕ) × (o ≡ some p) × (get_elem? heap p ≡ some g)
live_entry now heap none e = absurd (cc)
live_entry now heap (some p) e = (p, refl, live-some now (get_elem? heap p) e)

module _ (P : PrincipalRefs) (hash : String → String) where
  open P use {Ref}

  -- The call issues no token of this hash.
  abbrev Avoids : String → Call Ref → Type 0
  Avoids h (exchanges code client env) =
      (token : String) → new_token env.token_bytes ≡ ok token → hash token ≢ h
  Avoids h (creates g token env) = hash token ≢ h
  Avoids h _ = Unit

  mint_with-IsDead :
      (h : String) (c : AuthCode) (env : Environment) (t i : Result StoreError String)
      (s : Store Ref)
      → ((token : String) → t ≡ ok token → hash token ≢ h)
      → IsDead h s
      → IsDead h (mint_with hash c env t i s).0
  unfolding mint_with
  mint_with-IsDead h c env (err e) i s n d = d
  mint_with-IsDead h c env (ok t) (err e) s n d = d
  mint_with-IsDead h c env (ok t) (ok i) s n d =
      let g : Grant Ref = minted hash c env t i in
      let result : String × Grant Ref = (t, g) in
      enter_and_save-IsDead h env g result s (n t refl) d

  exchange_found-IsDead :
      (h : String) (o : Option AuthCode) (code client : String) (env : Environment) (s : Store Ref)
      → ((token : String) → new_token env.token_bytes ≡ ok token → hash token ≢ h)
      → IsDead h s
      → IsDead h (exchange_found hash o code client env s).0
  unfolding exchange_found
  exchange_found-IsDead h none code client env s n d = d
  exchange_found-IsDead h (some c) code client env s n d =
      elim (Bool-cases (ltb c.expires env.checked_at || not (c.client_id == client))) [
        | inl refused ↦ rw refused d
        | inr good ↦
            let spent : Store Ref = record s { codes = remove code s.codes } in
            rw good (
              mint_with-IsDead h c env (new_token env.token_bytes) (new_grant_id env.id_bytes) spent
                n d)
      ]

  create_with-IsDead :
      (h : String) (g : Grant Ref) (token : String) (env : Environment)
      (v : Result IdentityError (Unit {0})) (i : Result StoreError String) (s : Store Ref)
      → hash token ≢ h
      → IsDead h s
      → IsDead h (create_with P hash g token env v i s).0
  unfolding create_with
  create_with-IsDead h g token env (err e) i s n d = d
  create_with-IsDead h g token env (ok u) (err e) s n d = d
  create_with-IsDead h g token env (ok u) (ok i) s n d =
      let f : Grant Ref = filled_in P hash g token i env.issued_at in
      enter_and_save-IsDead h env f f s n d

  step-IsDead :
      (h : String) (c : Call Ref) (s : Store Ref)
      → Avoids h c
      → IsDead h s
      → IsDead h (step P hash c s)
  unfolding step put_code exchange_code create_grant revoke_grant
  step-IsDead h (puts code client redirect database caps now) s a d = d
  step-IsDead h (exchanges code client env) s a d =
      exchange_found-IsDead h (lookup code s.codes) code client env s a d
  step-IsDead h (creates g token env) s a d = create_with-IsDead h g token env _ _ s a d
  step-IsDead h (revokes id now saved_at outcome) s a d =
      revoke_found-IsDead h (lookup id s.grants_by_id) now saved_at outcome s d

  run-IsDead :
      (h : String) (cs : List (Call Ref)) (s : Store Ref)
      → All (Avoids h) cs
      → IsDead h s
      → IsDead h (run P hash cs s)
  unfolding run
  run-IsDead h [] s a d = d
  run-IsDead h (c ∷ cs) s (a, as') d = run-IsDead h cs (step P hash c s) as' (step-IsDead h c s a d)

  revoke_at-dies :
      (h : String) (p : ℕ) (g : Grant Ref) (now at : ℕ) (o : SaveOutcome) (s : Store Ref)
      → lookup h s.grants ≡ some p
      → get_elem? s.heap p ≡ some g
      → IsDead h (revoke_at p g now at o s).0
  unfolding revoke_at
  revoke_at-dies h p g now at o s there at_p = elim (Bool-cases (revoked g)) [
    | inl already ↦ rw already (inr (p, g, there, at_p, already))
    | inr open_grant ↦
        let g' : Grant Ref = record g { revoked_at = some now } in
        let s' : Store Ref = record s { heap = set s.heap p g' } in
        rw open_grant (
          save_locked-IsDead h o at s' (
            inr (
              p,
              g',
              there,
              get_elem?-set_self s.heap p g' (get_elem?-lt s.heap p at_p),
              (unfold revoked in refl),
            )))
  ]

  revoke_grant-dies :
      (h id : String) (p : ℕ) (g : Grant Ref) (now at : ℕ) (o : SaveOutcome) (s : Store Ref)
      → lookup h s.grants ≡ some p
      → lookup id s.grants_by_id ≡ some p
      → get_elem? s.heap p ≡ some g
      → IsDead h (revoke_grant id now at o s).0
  unfolding revoke_grant revoke_found
  revoke_grant-dies h id p g now at o s there by_id at_p =
      rw (by_id, at_p) (revoke_at-dies h p g now at o s there at_p)

  -- Once a grant that a token resolves to is revoked, also when the save of the revocation fails,
  -- the token is refused after every further history of calls, if none of them issues a token of
  -- the same hash. Every entry of the store must be found under its own grant's ID.
  pub revoke_grant-final :
      (token : String) (g : Grant Ref) (before after revoked_at saved_at : ℕ) (o : SaveOutcome)
      (s : Store Ref) (cs : List (Call Ref))
      → IsLinked s
      → lookup_token hash token before s ≡ some g
      → All (Avoids (hash token)) cs
      → lookup_token hash token after (run P hash cs (revoke_grant g.id revoked_at saved_at o s).0)
        ≡ none
  unfolding lookup_token
  revoke_grant-final token g before after revoked_at saved_at o s cs linked e a =
      let (p, there, at_p) = live_entry before s.heap (lookup (hash token) s.grants) e in
      let (f, at_p', by_id) = linked (hash token) p there in
      let same : f ≡ g = some-injective (sym at_p' ∙ at_p) in
      let by_id' : lookup g.id s.grants_by_id ≡ some p =
        ap (λ x. lookup x.id s.grants_by_id) (sym same) ∙ by_id in
      let s' = (revoke_grant g.id revoked_at saved_at o s).0 in
      IsDead-refused hash token after (run P hash cs s') (
        run-IsDead (hash token) cs s' a
          (revoke_grant-dies (hash token) g.id p g revoked_at saved_at o s there by_id' at_p))
