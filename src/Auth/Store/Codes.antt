-- ===== src/Auth/Store/Codes.antt =====
-- pkg/auth/store.go: one-time authorization codes, `PutCode` and `ExchangeCode`.
use openvaultdb_go.Base.{
  ℕ, ◌+◌, ◌≤◌, String, not, ◌||◌, ◌==◌, ◌≡◌, refl, sym, ap, ◌∙◌, ◌⊎◌, inl, inr, ◌≢◌, Option, none,
  some, eq_iff, arith, Bool-cases, lookup, ltb, lookup-remove_self, ok, err, ok-injective, Result,
}
use openvaultdb_go.Auth.Grant.{Grant}
use openvaultdb_go.Auth.Store.{
  Store, StoreError, invalid_code, AuthCode, SaveOutcome, saved, Environment, minted, mint_with,
  exchange_found, exchange_code, new_token, new_grant_id, enter, withdraw, enter_and_save, settle,
  save_locked, lookup_token,
}

module _ {Ref : Type 0} where
  enter_and_save-codes {κ} :
      {A : Type κ} (env : Environment) (g : Grant Ref) (a : A) (s : Store Ref)
      → (enter_and_save env g a s).0.codes ≡ s.codes
  unfolding enter_and_save enter withdraw save_locked
  enter_and_save-codes env g a s =
      elim env.outcome
        as (λ o. (settle g a (save_locked o env.saved_at (enter g s))).0.codes ≡ s.codes) [
          | saved ↦ refl
          | _ ↦ refl
        ]

module _ {Ref : Type 0} (hash : String → String) where
  mint_with-codes :
      (c : AuthCode) (env : Environment) (t i : Result StoreError String) (s : Store Ref)
      → (mint_with hash c env t i s).0.codes ≡ s.codes
  unfolding mint_with
  mint_with-codes c env (err e) i s = refl
  mint_with-codes c env (ok t) (err e) s = refl
  mint_with-codes c env (ok t) (ok i) s = enter_and_save-codes env (minted hash c env t i) _ s

  exchange_found-spends :
      (o : Option AuthCode) (code client : String) (env : Environment) (s : Store Ref)
      → lookup code s.codes ≡ o
      → lookup code (exchange_found hash o code client env s).0.codes ≡ none
  unfolding exchange_found
  exchange_found-spends none code client env s e = e
  exchange_found-spends (some c) code client env s e =
      elim (Bool-cases (ltb c.expires env.checked_at || not (c.client_id == client))) [
        | inl refused ↦ rw refused (lookup-remove_self code s.codes)
        | inr good ↦
            rw good
              (ap (lookup code) (mint_with-codes c env _ _ _) ∙ lookup-remove_self code s.codes)
      ]

  -- However an exchange ends, the code is spent: exchanging it again, by any client at any time,
  -- is refused as an invalid code and changes nothing.
  pub exchange_code-once :
      (code client client' : String) (env env' : Environment) (s : Store Ref)
      → let s' = (exchange_code hash code client env s).0 in
        exchange_code hash code client' env' s' ≡ (s', err invalid_code)
  unfolding exchange_code
  exchange_code-once code client client' env env' s =
      rw (exchange_found-spends (lookup code s.codes) code client env s refl) refl

  settle_cases {κ} :
      {A : Type κ} (o : SaveOutcome) (at : ℕ) (g : Grant Ref) (a : A) (s : Store Ref)
      → (((settle g a (save_locked o at (enter g s))).1 ≡ ok a)
          × ((tok : String) (now : ℕ)
              → lookup_token hash tok now (settle g a (save_locked o at (enter g s))).0
                ≡ lookup_token hash tok now (enter g s)))
        ⊎ ((e : StoreError) × ((settle g a (save_locked o at (enter g s))).1 ≡ err e)
            × ((settle g a (save_locked o at (enter g s))).0 ≡ withdraw g (enter g s)))
  unfolding settle save_locked lookup_token
  settle_cases saved at g a s = inl (refl, λ tok now. refl)
  settle_cases _ at g a s = inr (_, refl, refl)

  -- A save that goes well leaves the new grant in the maps, one that fails takes it out again.
  pub enter_and_save_cases {κ} :
      {A : Type κ} (env : Environment) (g : Grant Ref) (a : A) (s : Store Ref)
      → (((enter_and_save env g a s).1 ≡ ok a)
          × ((tok : String) (now : ℕ)
              → lookup_token hash tok now (enter_and_save env g a s).0
                ≡ lookup_token hash tok now (enter g s)))
        ⊎ ((e : StoreError) × ((enter_and_save env g a s).1 ≡ err e)
            × ((enter_and_save env g a s).0 ≡ withdraw g (enter g s)))
  unfolding enter_and_save
  enter_and_save_cases env g a s = settle_cases env.outcome env.saved_at g a s

  -- What a successful exchange shows of the store before it, and of the grant that it issues.
  pub record IsIssued (code client : String) (env : Environment) (s : Store Ref) (token : String)
      (g : Grant Ref) : Type 0 where
    pending : AuthCode
    pub found : lookup code s.codes ≡ some pending
    in_time : env.checked_at ≤ pending.expires
    same_client : pending.client_id ≡ client
    token_drawn : new_token env.token_bytes ≡ ok token
    id_drawn : new_grant_id env.id_bytes ≡ ok g.id
    token_hashed : g.token_hash ≡ hash token
    of_client : (g.principal_type ≡ "application") × (g.principal_id ≡ client)
    same_database : g.database_id ≡ pending.database_id
    same_capabilities : g.capabilities ≡ pending.capabilities
    for_an_hour : g.expires_at ≡ g.issued_at + 3600000000000
    issued_now : g.issued_at ≡ env.issued_at
    not_revoked : g.revoked_at ≡ none

  mint_with_ok :
      (c : AuthCode) (env : Environment) (t i : Result StoreError String) (s : Store Ref)
      (token : String) (g : Grant Ref)
      → (mint_with hash c env t i s).1 ≡ ok (token, g)
      → (id : String) × (t ≡ ok token) × (i ≡ ok id) × (g ≡ minted hash c env token id)
  unfolding mint_with
  mint_with_ok c env (err e) i s token g h = cc
  mint_with_ok c env (ok t) (err e) s token g h = cc
  mint_with_ok c env (ok t) (ok i) s token g h =
      let result : String × Grant Ref = (t, minted hash c env t i) in
      elim (enter_and_save_cases env (minted hash c env t i) result s) [
        | inl (done, entered) ↦
            let same : result ≡ (token, g) = ok-injective (sym done ∙ h) in
            (
              i,
              ap (λ p. ok p.0) same,
              refl,
              sym (ap (λ p. p.1) same) ∙ ap (λ x. minted hash c env x i) (ap (λ p. p.0) same),
            )
        | inr (e, failed, withdrawn) ↦ absurd (err-ne-ok (sym failed ∙ h))
      ]
    where
      err-ne-ok :
          {e : StoreError} {a : String × Grant Ref}
          → ◌≢◌ {A = Result StoreError (String × Grant Ref)} (err e) (ok a)
      err-ne-ok = cc

  exchange_found_ok :
      (o : Option AuthCode) (code client : String) (env : Environment) (s : Store Ref)
      (token : String) (g : Grant Ref)
      → lookup code s.codes ≡ o
      → (exchange_found hash o code client env s).1 ≡ ok (token, g)
      → IsIssued code client env s token g
  unfolding exchange_found
  exchange_found_ok none code client env s token g e h = cc
  exchange_found_ok (some c) code client env s token g e h =
      elim (Bool-cases (ltb c.expires env.checked_at || not (c.client_id == client))) [
        | inl refused ↦ ground (arith, refused)
        | inr good ↦
            let bound : c.client_id ≡ client = ground (arith, good, eq_iff c.client_id client) in
            let (id, drawn, named, same) = mint_with_ok c env _ _ _ token g (rw good at h) in
            record {
              pending = c;
              found = e;
              in_time = ground (arith, good);
              same_client = bound;
              token_drawn = drawn;
              id_drawn = named ∙ ap (λ g. ok g.id) (sym same);
              token_hashed = ap (λ g. g.token_hash) same;
              of_client = (ap (λ g. g.principal_type) same, ap (λ g. g.principal_id) same ∙ bound);
              same_database = ap (λ g. g.database_id) same;
              same_capabilities = ap (λ g. g.capabilities) same;
              for_an_hour =
                  ap (λ g. g.expires_at) same
                  ∙ ap (λ t. t + 3600000000000) (ap (λ g. g.issued_at) (sym same));
              issued_now = ap (λ g. g.issued_at) same;
              not_revoked = ap (λ g. g.revoked_at) same;
            }
      ]

  -- A successful exchange used a code that was pending, not past its expiry and bound to the same
  -- client. It issues the token drawn, and a grant that is not revoked, has the hash of this token
  -- and the ID drawn, names this client as its principal, has exactly the code's database and
  -- capabilities, is issued at the time of the exchange and expires an hour after it.
  pub exchange_code_ok :
      (code client : String) (env : Environment) (s : Store Ref) (token : String) (g : Grant Ref)
      → (exchange_code hash code client env s).1 ≡ ok (token, g)
      → IsIssued code client env s token g
  unfolding exchange_code
  exchange_code_ok code client env s token g h =
      exchange_found_ok (lookup code s.codes) code client env s token g refl h
