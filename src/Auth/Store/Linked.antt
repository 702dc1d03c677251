-- ===== src/Auth/Store/Linked.antt =====
-- pkg/auth/store.go: the entries by hash and by ID lead to the same grants, and the calls keep this.
pub mod Reach
use openvaultdb_go.Base.{
  some-injective, ℕ, String, List, [], ◌∷◌, ◌++◌, false, not, ◌==◌, ◌||◌, ltb, ◌≡◌, refl, sym, ap,
  ◌∙◌, subst, ◌≢◌, inl, inr, Option, none, some, arith, eqb, eqb_iff, Bool-cases, Option-cases,
  get_elem?, set, length, get_elem?-lt, get_elem?-set_self, get_elem?-set_ne, lookup, insert,
  remove, lookup-insert_cases, lookup-remove-some, lookup-insert_self, lookup-insert_ne,
  lookup-remove_self, remove-insert, get_elem?-append_length, ok, err, Result,
}
use openvaultdb_go.Auth.Grant.{PrincipalRefs, IdentityError, Grant, revoked}
use openvaultdb_go.Auth.Store.{
  Store, StoreError, AuthCode, SaveOutcome, Environment, cell, enter, withdraw, settle, save_locked,
  enter_and_save, put_code, saved, mint_with, exchange_code, exchange_found, minted, new_token,
  new_grant_id,
}
use openvaultdb_go.Auth.Store.Open.{empty_store}
use openvaultdb_go.Auth.Store.Admin.{
  create_grant, create_with, filled_in, revoke_grant, revoke_found, revoke_at,
}
use openvaultdb_go.Auth.Store.Lookup.{get_elem?-grow}
use openvaultdb_go.Auth.Store.Calls.{Call, puts, exchanges, creates, revokes, step}

-- Every entry by hash points to an object that the other map finds under its ID.
abbrev pub IsLinked : {Ref : Type 0} → Store Ref → Type 0
IsLinked {Ref} s =
    (h : String) (p : ℕ)
    → lookup h s.grants ≡ some p
    → (g : Grant Ref) × (get_elem? s.heap p ≡ some g) × (lookup g.id s.grants_by_id ≡ some p)

some-ne-none : {n : ℕ} → some n ≢ none
some-ne-none = cc

eqb-ne : (p q : ℕ) → eqb p q ≡ false → p ≢ q
eqb-ne p q h = ground arith

module _ {Ref : Type 0} where
  -- An ID that is found differs from one that is not.
  id_apart :
      (f g : Grant Ref) (p : ℕ) (m : List (String × ℕ))
      → lookup g.id m ≡ none
      → lookup f.id m ≡ some p
      → g.id ≢ f.id
  id_apart f g p m absent there e = some-ne-none (sym there ∙ ap (λ i. lookup i m) (sym e) ∙ absent)

  enter-IsLinked :
      (g : Grant Ref) (s : Store Ref)
      → lookup g.id s.grants_by_id ≡ none
      → IsLinked s
      → IsLinked (enter g s)
  unfolding enter
  enter-IsLinked g s fresh l h p e =
      elim (lookup-insert_cases g.token_hash h (length s.heap) p s.grants e) [
        | inl (same, here) ↦ (
          g,
          subst (λ q. get_elem? (s.heap ++ g ∷ []) q ≡ some g) here
              (get_elem?-append_length s.heap g),
          lookup-insert_self g.id (length s.heap) s.grants_by_id ∙ ap some here,
        )
        | inr (other, before) ↦
            let (f, at_p, linked) = l h p before in
            (
              f,
              get_elem?-grow s.heap g p at_p,
              lookup-insert_ne g.id f.id (length s.heap) s.grants_by_id
                    (id_apart f g p s.grants_by_id fresh linked)
                  ∙ linked,
            )
      ]

  -- Taking out what was just entered under a fresh ID.
  withdraw-IsLinked :
      (g : Grant Ref) (s : Store Ref)
      → lookup g.id s.grants_by_id ≡ none
      → IsLinked s
      → IsLinked (withdraw g (enter g s))
  unfolding enter withdraw
  withdraw-IsLinked g s fresh l h p e =
      elim (lookup-insert_cases g.token_hash h (length s.heap) p s.grants
        (lookup-remove-some g.token_hash h p (insert g.token_hash (length s.heap) s.grants) e)) [
          | inl (same, here) ↦
              let m = insert g.token_hash (length s.heap) s.grants in
              absurd (
                some-ne-none (
                  sym e
                  ∙ ap (λ k. lookup k (remove g.token_hash m)) (sym same)
                  ∙ lookup-remove_self g.token_hash m))
          | inr (other, before) ↦
              let (f, at_p, linked) = l h p before in
              (
                f,
                get_elem?-grow s.heap g p at_p,
                remove-insert g.id f.id (length s.heap) s.grants_by_id fresh ∙ linked,
              )
        ]

  save_locked-IsLinked :
      (o : SaveOutcome) (at : ℕ) (s : Store Ref) → IsLinked s → IsLinked (save_locked o at s).0
  unfolding save_locked
  save_locked-IsLinked saved at s l = l
  save_locked-IsLinked _ at s l = l

  settle-IsLinked {κ} :
      {A : Type κ} (o : SaveOutcome) (at : ℕ) (g : Grant Ref) (a : A) (s : Store Ref)
      → lookup g.id s.grants_by_id ≡ none
      → IsLinked s
      → IsLinked (settle g a (save_locked o at (enter g s))).0
  unfolding settle save_locked
  settle-IsLinked saved at g a s fresh l = enter-IsLinked g s fresh l
  settle-IsLinked _ at g a s fresh l = withdraw-IsLinked g s fresh l

  set-IsLinked :
      (q : ℕ) (f : Grant Ref) (now : ℕ) (s : Store Ref)
      → get_elem? s.heap q ≡ some f
      → IsLinked s
      → IsLinked (record s { heap = set s.heap q (record f { revoked_at = some now }) })
  set-IsLinked q f now s at_q l h p e =
      let f' : Grant Ref = record f { revoked_at = some now } in
      let (g, at_p, linked) = l h p e in
      elim (Bool-cases (eqb p q)) [
        | inl same ↦
            let p≡q = (eqb_iff p q).0 same in
            (
              f',
              subst (λ k. get_elem? (set s.heap q f') k ≡ some f') (sym p≡q)
                  (get_elem?-set_self s.heap q f' (get_elem?-lt s.heap q at_q)),
              ap (λ x. lookup x.id s.grants_by_id)
                    (some-injective (sym at_q ∙ ap (get_elem? s.heap) (sym p≡q) ∙ at_p))
                  ∙ linked,
            )
        | inr other ↦ (g, get_elem?-set_ne s.heap f' (λ d. eqb-ne p q other (sym d)) ∙ at_p, linked)
      ]

  revoke_at-IsLinked :
      (q : ℕ) (f : Grant Ref) (now at : ℕ) (o : SaveOutcome) (s : Store Ref)
      → get_elem? s.heap q ≡ some f
      → IsLinked s
      → IsLinked (revoke_at q f now at o s).0
  unfolding revoke_at
  revoke_at-IsLinked q f now at o s at_q l = elim (Bool-cases (revoked f)) [
    | inl already ↦ rw already l
    | inr open_grant ↦
        let s' : Store Ref = record s {
          heap = set s.heap q (record f { revoked_at = some now });
        } in
        rw open_grant (save_locked-IsLinked o at s' (set-IsLinked q f now s at_q l))
  ]

  revoke_found-IsLinked :
      (q : Option ℕ) (now at : ℕ) (o : SaveOutcome) (s : Store Ref)
      → IsLinked s
      → IsLinked (revoke_found q (cell s.heap q) now at o s).0
  unfolding revoke_found
  revoke_found-IsLinked none now at o s l = l
  revoke_found-IsLinked (some q) now at o s l = elim (Option-cases (get_elem? s.heap q)) [
    | inl dangling ↦ rw dangling l
    | inr (f, at_q) ↦ rw at_q (revoke_at-IsLinked q f now at o s at_q l)
  ]
