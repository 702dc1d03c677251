-- ===== src/Core/Batch/Refinement.antt =====
-- pkg/core/core.go: an accepted batch, seen one record at a time. The stage of `validateOps` is a map
-- over all keys; here each record goes its own way through the operations that name it.
use openvaultdb_go.Base.{
  ℕ, suc, String, List, [], ◌∷◌, false, ◌==◌, if◌then◌else◌, Option, none, some, Result, ok, err,
  ◌>>=◌, lookup, insert, ◌≡◌, refl, sym, ap, ◌∙◌, ◌⊎◌, inl, inr, subst, >>=-eq-ok, >>=-ok, eq_iff,
  not_same, eq_refl, Bool-cases, ok-injective, if_true, if_false, lookup-insert_self,
  lookup-insert_ne,
}
use openvaultdb_go.Schema.Values.{Floats}
use openvaultdb_go.Core.Key.{Keys}
use openvaultdb_go.Core.Batch.{
  Op, StagedState, BatchError, key_required, Stage, Mount, Simulation, load, read_state, stage_op,
  loaded, simulate_op, simulate,
}

module _ (K : Keys) (F : Floats) (D : Mount K.Key F.Float) where
  open K use {Key, collection}
  open F use {Float}
  open D use {schema_mode, schema_collection, key_text}

  -- What an operation does to the record of this key text: nothing when it names another one.
  unfoldable pub effect :
      ℕ → Op Key Float → String → StagedState Float → Result BatchError (StagedState Float)
  effect i o ks st = elim o.key [
    | none ↦ err (key_required i)
    | some k ↦ if key_text k == ks then stage_op K F D i o ks st else ok st
  ]

  unfoldable pub planned :
      ℕ → List (Op Key Float) → String → StagedState Float → Result BatchError (StagedState Float)
  planned i [] ks st = ok st
  planned i (o ∷ os) ks st = do next ← effect i o ks st; planned (suc i) os ks next

  loaded-ok :
      {A : Type 0} (i : ℕ) (r : Result (Unit {0}) A) {a : A} → loaded K F D i r ≡ ok a → r ≡ ok a
  unfolding loaded
  loaded-ok i (ok a) h = cc
  loaded-ok i (err e) h = cc

  -- A step that succeeds: its key, the state of the record before, and after.
  unfoldable pub Stepped : ℕ → Op Key Float → Simulation K F D → Simulation K F D → Type 0
  Stepped i o (stage, leaves) (stage', leaves') =
      (k : Key) × (st after : StagedState Float) × (o.key ≡ some k)
      × (load K F D k stage ≡ ok st)
      × (stage_op K F D i o (key_text k) st ≡ ok after)
      × (stage' ≡ insert (key_text k) after stage)
      × (leaves' ≡ insert (key_text k) (collection k) leaves)

  pub simulate_op-Stepped :
      (i : ℕ) (o : Op Key Float) (sim next : Simulation K F D)
      → simulate_op K F D i o sim ≡ ok next
      → Stepped i o sim next
  unfolding simulate_op Stepped
  simulate_op-Stepped i o (stage, leaves) next h = go o.key refl h
    where
      go :
          (key : Option Key)
          → o.key ≡ key
          → elim key [
            | none ↦ err (key_required i)
            | some k ↦ loaded K F D i (load K F D k stage) >>= λ st.
                stage_op K F D i o (key_text k) st >>= λ after.
                ok (insert (key_text k) after stage, insert (key_text k) (collection k) leaves)
          ]
            ≡ ok next
          → Stepped i o (stage, leaves) next
      go none e h = cc
      go (some k) e h =
          let (st, l, rest) = >>=-eq-ok (loaded K F D i (load K F D k stage)) _ h in
          let (after, s, done) = >>=-eq-ok (stage_op K F D i o (key_text k) st) _ rest in
          (
            k,
            st,
            after,
            e,
            loaded-ok i _ l,
            s,
            ap (λ p. p.0) (sym (ok-injective done)),
            ap (λ p. p.1) (sym (ok-injective done)),
          )

  effect_self :
      (i : ℕ) (o : Op Key Float) (k : Key) (st : StagedState Float)
      → o.key ≡ some k
      → effect i o (key_text k) st ≡ stage_op K F D i o (key_text k) st
  unfolding effect
  effect_self i o k st e = rw (e, if_true _ _ (eq_refl (key_text k)))

  effect_other :
      (i : ℕ) (o : Op Key Float) (k : Key) (ks : String) (st : StagedState Float)
      → o.key ≡ some k
      → (key_text k == ks) ≡ false
      → effect i o ks st ≡ ok st
  unfolding effect
  effect_other i o k ks st e ne = rw (e, if_false _ _ ne)

  load-known :
      (k : Key) (stage : Stage Float) (o : Option (StagedState Float))
      → lookup (key_text k) stage ≡ o
      → load K F D k stage ≡ elim o [ some st ↦ ok st | none ↦ read_state K F D k ]
  unfolding load
  load-known k stage o h = ap (λ o. elim o [ some st ↦ ok st | none ↦ read_state K F D k ]) h

  -- One step, for a record in the stage.
  step-known :
      (i : ℕ) (o : Op Key Float) (sim next : Simulation K F D) (ks : String)
      (st : StagedState Float)
      → Stepped i o sim next
      → lookup ks sim.0 ≡ some st
      → (after : StagedState Float) × (effect i o ks st ≡ ok after)
        × (lookup ks next.0 ≡ some after)
  unfolding Stepped
  step-known i o sim next ks st (k, before, after, named, l, s, grown, _) there =
      elim (Bool-cases (key_text k == ks)) [
        | inl same ↦ subst At ((eq_iff _ _).0 same) here there
        | inr ne ↦ (
          st,
          effect_other i o k ks st named ne,
          ap (lookup ks) grown ∙ lookup-insert_ne (key_text k) ks after sim.0 (not_same ne) ∙ there,
        )
      ]
    where
      At : String → Type 0
      At ks =
          lookup ks sim.0 ≡ some st
          → (after : StagedState Float) × (effect i o ks st ≡ ok after)
            × (lookup ks next.0 ≡ some after)

      here : At (key_text k)
      here there = (
        after,
        effect_self i o k st named
            ∙ ap (stage_op K F D i o (key_text k))
                (ok-injective (sym (load-known k sim.0 (some st) there) ∙ l))
            ∙ s,
        ap (lookup (key_text k)) grown ∙ lookup-insert_self (key_text k) after sim.0,
      )

  -- One step, for a record that is not in the stage: it is read from the store, or another is named.
  step-new :
      (i : ℕ) (o : Op Key Float) (sim next : Simulation K F D) (ks : String)
      → Stepped i o sim next
      → lookup ks sim.0 ≡ none
      → ((lookup ks next.0 ≡ none) × ((st : StagedState Float) → effect i o ks st ≡ ok st))
        ⊎ ((k : Key) × (st after : StagedState Float) × (key_text k ≡ ks)
            × (read_state K F D k ≡ ok st)
            × (effect i o ks st ≡ ok after)
            × (lookup ks next.0 ≡ some after))
  unfolding Stepped
  step-new i o sim next ks (k, before, after, named, l, s, grown, _) missing =
      elim (Bool-cases (key_text k == ks)) [
        | inl same ↦ inr (subst At ((eq_iff _ _).0 same) here missing)
        | inr ne ↦ inl (
          ap (lookup ks) grown
              ∙ lookup-insert_ne (key_text k) ks after sim.0 (not_same ne)
              ∙ missing,
          λ st. effect_other i o k ks st named ne,
        )
      ]
    where
      At : String → Type 0
      At ks =
          lookup ks sim.0 ≡ none
          → (k : Key) × (st after : StagedState Float) × (key_text k ≡ ks)
            × (read_state K F D k ≡ ok st)
            × (effect i o ks st ≡ ok after)
            × (lookup ks next.0 ≡ some after)

      here : At (key_text k)
      here missing = (
        k,
        before,
        after,
        refl,
        sym (load-known k sim.0 none missing) ∙ l,
        effect_self i o k before named ∙ s,
        ap (lookup (key_text k)) grown ∙ lookup-insert_self (key_text k) after sim.0,
      )

  -- A record in the stage follows the plan of the operations that name it.
  pub simulate-planned :
      (i : ℕ) (os : List (Op Key Float)) (sim final : Simulation K F D) (ks : String)
      (st : StagedState Float)
      → simulate K F D i os sim ≡ ok final
      → lookup ks sim.0 ≡ some st
      → (after : StagedState Float) × (planned i os ks st ≡ ok after)
        × (lookup ks final.0 ≡ some after)
  unfolding simulate planned
  simulate-planned i [] sim final ks st h there =
      (st, refl, subst (λ sim. lookup ks sim.0 ≡ some st) (ok-injective h) there)
  simulate-planned i (o ∷ os) sim final ks st h there =
      let (next, step, rest) = >>=-eq-ok (simulate_op K F D i o sim) _ h in
      let (mid, e, found) =
        step-known i o sim next ks st (simulate_op-Stepped i o sim next step) there in
      let (after, p, q) = simulate-planned (suc i) os next final ks mid rest found in
      (after, >>=-ok (effect i o ks st) _ e p, q)

  -- The plan of a record from the store, for the keys with this text.
  unfoldable pub Planned : ℕ → List (Op Key Float) → String → StagedState Float → Type 0
  Planned i os ks after =
      (k : Key) × (st : StagedState Float) × (key_text k ≡ ks)
      × (read_state K F D k ≡ ok st)
      × (planned i os ks st ≡ ok after)

  pub simulate-Planned :
      (i : ℕ) (os : List (Op Key Float)) (sim final : Simulation K F D) (ks : String)
      → simulate K F D i os sim ≡ ok final
      → lookup ks sim.0 ≡ none
      → (lookup ks final.0 ≡ none)
        ⊎ ((after : StagedState Float) × Planned i os ks after × (lookup ks final.0 ≡ some after))
  unfolding simulate planned Planned
  simulate-Planned i [] sim final ks h missing =
      inl (subst (λ sim. lookup ks sim.0 ≡ none) (ok-injective h) missing)
  simulate-Planned i (o ∷ os) sim final ks h missing =
      let (next, step, rest) = >>=-eq-ok (simulate_op K F D i o sim) _ h in
      elim (step-new i o sim next ks (simulate_op-Stepped i o sim next step) missing) [
        | inl (still, passed) ↦ elim (simulate-Planned (suc i) os next final ks rest still) [
          | inl never ↦ inl never
          | inr (after, (k, st, at, read, p), q) ↦
              inr (after, (k, st, at, read, >>=-ok (effect i o ks st) _ (passed st) p), q)
        ]
        | inr (k, st, mid, at, read, e, found) ↦
            let (after, p, q) = simulate-planned (suc i) os next final ks mid rest found in
            inr (after, (k, st, at, read, >>=-ok (effect i o ks st) _ e p), q)
      ]
