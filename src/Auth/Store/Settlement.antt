-- ===== src/Auth/Store/Settlement.antt =====
-- pkg/auth/store.go: what the tokens resolve to after `ExchangeCode`.
use openvaultdb_go.Base.{
  ℕ, ◌+◌, ◌<◌, String, List, not, ◌||◌, ◌==◌, ◌≡◌, refl, sym, ap, ◌∙◌, subst, inl, inr, Option,
  none, some, eq_refl, arith, Bool-cases, lookup, remove, ltb, ok, err, Result,
}
use openvaultdb_go.Auth.Grant.{Grant, expired, revoked}
use openvaultdb_go.Auth.Store.{
  Store, StoreError, AuthCode, Environment, minted, mint_with, exchange_found, exchange_code,
  token_ttl, new_token, new_grant_id, enter_and_save, lookup_token, live,
}
use openvaultdb_go.Auth.Store.Lookup.{
  IsConsistent, enter_and_save-IsConsistent, lookup_token-enter, lookup_token-withdraw,
}
use openvaultdb_go.Auth.Store.Codes.{enter_and_save_cases}

module _ {Ref : Type 0} (hash : String → String) where
  -- The tokens after an exchange, by how it ended.
  abbrev pub Settled :
      Environment
      → Result StoreError String
      → Store Ref
      → Store Ref
      → Result StoreError (String × Grant Ref)
      → Type 0
  Settled env drawn s s' (ok (token, g)) =
      (now : ℕ) → now < env.issued_at + token_ttl → lookup_token hash token now s' ≡ some g
  Settled env drawn s s' (err e) =
      ((token : String) → drawn ≡ ok token → lookup (hash token) s.grants ≡ none)
      → (token : String) (now : ℕ) → lookup_token hash token now s' ≡ lookup_token hash token now s

  minted-live :
      (c : AuthCode) (env : Environment) (token id : String) (now : ℕ)
      → now < env.issued_at + token_ttl
      → live now (some (minted hash {Ref = Ref} c env token id)) ≡ some (minted hash c env token id)
  unfolding expired revoked
  minted-live c env token id now h = ground arith

  mint_with-Settled :
      (c : AuthCode) (env : Environment) (t i : Result StoreError String) (s : Store Ref)
      → IsConsistent s
      → Settled env t s (mint_with hash c env t i s).0 (mint_with hash c env t i s).1
  unfolding mint_with
  mint_with-Settled c env (err e) i s k = λ fresh tok now. refl
  mint_with-Settled c env (ok t) (err e) s k = λ fresh tok now. refl
  mint_with-Settled c env (ok t) (ok i) s k =
      let g : Grant Ref = minted hash c env t i in
      let result : String × Grant Ref = (t, g) in
      let s' = (enter_and_save env g result s).0 in
      elim (enter_and_save_cases hash env g result s) [
        | inl (done, entered) ↦ subst (Settled env (ok t) s s') (sym done) (λ now early.
            entered t now
            ∙ lookup_token-enter hash t now g s k
            ∙ rw (eq_refl (hash t)) (minted-live c env t i now early))
        | inr (e, failed, withdrawn) ↦
            subst (Settled env (ok t) s s') (sym failed) (λ fresh tok now.
              ap (lookup_token hash tok now) withdrawn
              ∙ lookup_token-withdraw hash tok now g s k (fresh t refl))
      ]

  -- The codes have no part in what a token resolves to.
  Settled-codes :
      (env : Environment) (t : Result StoreError String) (s s' : Store Ref)
      (m : List (String × AuthCode)) (r : Result StoreError (String × Grant Ref))
      → Settled env t (record s { codes = m }) s' r
      → Settled env t s s' r
  unfolding lookup_token
  Settled-codes env t s s' m (ok (token, g)) h = h
  Settled-codes env t s s' m (err e) h = h

  exchange_found-Settled :
      (o : Option AuthCode) (code client : String) (env : Environment) (s : Store Ref)
      → IsConsistent s
      → Settled env
          (new_token env.token_bytes)
          s
          (exchange_found hash o code client env s).0
          (exchange_found hash o code client env s).1
  unfolding exchange_found lookup_token
  exchange_found-Settled none code client env s k = λ fresh tok now. refl
  exchange_found-Settled (some c) code client env s k =
      elim (Bool-cases (ltb c.expires env.checked_at || not (c.client_id == client))) [
        | inl refused ↦ rw refused (λ fresh tok now. refl)
        | inr good ↦
            let t = new_token env.token_bytes in
            let i = new_grant_id env.id_bytes in
            let spent : Store Ref = record s { codes = remove code s.codes } in
            let r = mint_with hash c env t i spent in
            rw good (
              Settled-codes env t s r.0 (remove code s.codes) r.1 (
                mint_with-Settled c env t i spent
                  (record { by_hash = k.by_hash; by_id = k.by_id })))
      ]

  -- After a successful exchange the token resolves to the grant until the hour is over. After one
  -- that fails, also when the save failed, every token resolves as before, if the token drawn does
  -- not collide with a stored hash.
  pub exchange_code-Settled :
      (code client : String) (env : Environment) (s : Store Ref)
      → IsConsistent s
      → let r = exchange_code hash code client env s in
        Settled env (new_token env.token_bytes) s r.0 r.1
  unfolding exchange_code
  exchange_code-Settled code client env s k =
      exchange_found-Settled (lookup code s.codes) code client env s k

  exchange_found-IsConsistent :
      (o : Option AuthCode) (code client : String) (env : Environment) (s : Store Ref)
      → IsConsistent s
      → IsConsistent (exchange_found hash o code client env s).0
  unfolding exchange_found
  exchange_found-IsConsistent none code client env s k = k
  exchange_found-IsConsistent (some c) code client env s k =
      let spent : Store Ref = record s { codes = remove code s.codes } in
      let k' : IsConsistent spent = record { by_hash = k.by_hash; by_id = k.by_id } in
      elim (Bool-cases (ltb c.expires env.checked_at || not (c.client_id == client))) [
        | inl refused ↦ rw refused k'
        | inr good ↦ rw good (minting (new_token env.token_bytes) (new_grant_id env.id_bytes) k')
      ]
    where
      minting :
          {spent : Store Ref} (t i : Result StoreError String)
          → IsConsistent spent
          → IsConsistent (mint_with hash c env t i spent).0
      minting (err e) i k = k
      minting (ok t) (err e) k = k
      minting {spent} (ok t) (ok i) k =
          enter_and_save-IsConsistent env (minted hash c env t i) (t, minted hash c env t i) spent k

  pub exchange_code-IsConsistent :
      (code client : String) (env : Environment) (s : Store Ref)
      → IsConsistent s
      → IsConsistent (exchange_code hash code client env s).0
  unfolding exchange_code
  exchange_code-IsConsistent code client env s k =
      exchange_found-IsConsistent (lookup code s.codes) code client env s k
