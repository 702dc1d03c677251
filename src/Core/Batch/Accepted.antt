-- ===== src/Core/Batch/Accepted.antt =====
-- pkg/core/core.go: what `validateOps` has made sure of when it accepts a batch.
use openvaultdb_go.Base.{
  none≢some, some-injective, ℕ, suc, String, List, [], ◌∷◌, true, false, ◌==◌, Option, some, Result,
  ok, err, lookup, insert, ◌≡◌, refl, sym, ap, ◌∙◌, inl, inr, subst, >>=-eq-ok, >>-ok_iff, eq_iff,
  not_same, Memᴰ, Bool-cases, ok-injective, if_true, if_false, lookup-insert_self, lookup-insert_ne,
}
use openvaultdb_go.Schema.Values.{Floats}
use openvaultdb_go.Core.Key.{Keys}
use openvaultdb_go.Schema.Records.{Violation, validate_record}
use openvaultdb_go.Core.Batch.{
  Op, StagedState, Stage, Mount, Simulation, simulate_op, simulate, check_state, check_states,
  validate_ops, is_schemaless, or_empty, leaf_of, checked,
}
use openvaultdb_go.Core.Batch.Refinement.{
  Planned, Stepped, simulate_op-Stepped, simulate-planned, simulate-Planned,
}

module _ (K : Keys) (F : Floats) (D : Mount K.Key F.Float) where
  open K use {Key, collection}
  open F use {Float}
  open D use {schema_mode, schema_collection, key_text}

  -- Every staged record has the collection of a key with its text.
  Leafed : Simulation K F D → Type 0
  Leafed (stage, leaves) =
      (ks : String) (st : StagedState Float)
      → lookup ks stage ≡ some st
      → (k : Key) × (key_text k ≡ ks) × (lookup ks leaves ≡ some (collection k))

  step-Leafed :
      (i : ℕ) (o : Op Key Float) (sim next : Simulation K F D)
      → Stepped K F D i o sim next
      → Leafed sim
      → Leafed next
  unfolding Leafed Stepped
  step-Leafed i o sim next (k, before, after, named, l, s, grown, leafed) inv ks st there =
      elim (Bool-cases (key_text k == ks)) [
        | inl same ↦ (
          k,
          (eq_iff _ _).0 same,
          subst (λ ks. lookup ks next.1 ≡ some (collection k)) ((eq_iff _ _).0 same)
              (ap (lookup (key_text k)) leafed
                ∙ lookup-insert_self (key_text k) (collection k) sim.1),
        )
        | inr ne ↦
            let (j, at, found) = inv ks st (
              sym
                (ap (lookup ks) grown ∙ lookup-insert_ne (key_text k) ks after sim.0 (not_same ne))
              ∙ there) in
            (
              j,
              at,
              ap (lookup ks) leafed
                  ∙ lookup-insert_ne (key_text k) ks (collection k) sim.1 (not_same ne)
                  ∙ found,
            )
      ]

  simulate-Leafed :
      (i : ℕ) (os : List (Op Key Float)) (sim final : Simulation K F D)
      → simulate K F D i os sim ≡ ok final
      → Leafed sim
      → Leafed final
  unfolding simulate
  simulate-Leafed i [] sim final h inv = subst Leafed (ok-injective h) inv
  simulate-Leafed i (o ∷ os) sim final h inv =
      let (next, step, rest) = >>=-eq-ok (simulate_op K F D i o sim) _ h in
      simulate-Leafed (suc i) os next final rest
        (step-Leafed i o sim next (simulate_op-Stepped K F D i o sim next step) inv)

  -- Every key that the batch names is staged.
  simulate-staged :
      (i : ℕ) (os : List (Op Key Float)) (sim final : Simulation K F D) (o : Op Key Float) (k : Key)
      → simulate K F D i os sim ≡ ok final
      → Memᴰ o os
      → o.key ≡ some k
      → (st : StagedState Float) × (lookup (key_text k) final.0 ≡ some st)
  unfolding simulate Stepped
  simulate-staged i [] sim final o k h m e = elim m [ ]
  simulate-staged i (p ∷ os) sim final o k h (Memᴰ.tail m) e =
      let (next, step, rest) = >>=-eq-ok (simulate_op K F D i p sim) _ h in
      simulate-staged (suc i) os next final o k rest m e
  simulate-staged i (p ∷ os) sim final o k h (Memᴰ.head same) e =
      let (next, step, rest) = >>=-eq-ok (simulate_op K F D i p sim) _ h in
      let (j, before, after, named, l, s, grown, _) = simulate_op-Stepped K F D i p sim next step in
      let j_k = some-injective (sym named ∙ ap (λ p. p.key) (sym same) ∙ e) in
      let (last, _, q) = simulate-planned K F D (suc i) os next final (key_text k) after rest (
        ap (lookup (key_text k)) grown
        ∙ subst (λ ks. lookup ks (insert (key_text j) after sim.0) ≡ some after) (ap key_text j_k)
            (lookup-insert_self (key_text j) after sim.0)) in
      (last, q)

  check_states-lookup :
      (stage : Stage Float) (leaves : List (String × String)) (ks : String) (st : StagedState Float)
      → check_states K F D stage leaves ≡ ok tt
      → lookup ks stage ≡ some st
      → check_state K F D ks st leaves ≡ ok tt
  unfolding check_states lookup
  check_states-lookup [] leaves ks st h there = cc
  check_states-lookup ((j, w) ∷ stage) leaves ks st h there =
      let (first, rest) = (>>-ok_iff _ _).0 h in
      elim (Bool-cases (j == ks)) [
        | inl same ↦
            let is_st = some-injective (sym (if_true (some w) (lookup ks stage) same) ∙ there) in
            ap (λ st. check_state K F D ks st leaves) (sym is_st)
            ∙ ap (λ k. check_state K F D k w leaves) (sym ((eq_iff _ _).0 same))
            ∙ first
        | inr ne ↦
            check_states-lookup stage leaves ks st rest
              (sym (if_false (some w) (lookup ks stage) ne) ∙ there)
      ]

  -- A record that passed: absent after the batch, or accepted by the schema of its collection.
  unfoldable pub Conforms : String → StagedState Float → Type 0
  Conforms ks st =
      st.exists ≡ true
      → (k : Key) × (key_text k ≡ ks)
        × (validate_record F schema_mode (schema_collection (collection k))
              (or_empty K F D st.fields)
            ≡ ok tt)

  check_state-Conforms :
      (ks : String) (st : StagedState Float) (leaves : List (String × String)) (k : Key)
      → key_text k ≡ ks
      → lookup ks leaves ≡ some (collection k)
      → check_state K F D ks st leaves ≡ ok tt
      → Conforms ks st
  unfolding check_state Conforms leaf_of checked
  check_state-Conforms ks st leaves k at leaf h there =
      (k, at, checked-ok _ (subst At leaf (sym (if_true _ _ there) ∙ h)))
    where
      checked-ok : (r : Result Violation (Unit {0})) → checked K F D r ≡ ok tt → r ≡ ok tt
      checked-ok (ok tt) h = refl
      checked-ok (err v) h = cc

      At : Option String → Type 0
      At leaf =
          checked K F D (
            validate_record F schema_mode (schema_collection (leaf_of K F D leaf))
              (or_empty K F D st.fields))
          ≡ ok tt

  -- When a batch is accepted, each record that it names has gone, from the state that the store
  -- gave for a key of that text, through the operations that name it, in order, without an error;
  -- and, if the mode is not schemaless and the record exists afterwards, its final fields pass the
  -- schema of the collection of a key of that text.
  pub validate_ops_sound :
      (ops : List (Op Key Float)) (o : Op Key Float) (k : Key)
      → validate_ops K F D ops ≡ ok tt
      → Memᴰ o ops
      → o.key ≡ some k
      → (st : StagedState Float) × Planned K F D 0 ops (key_text k) st
        × (is_schemaless K F D schema_mode ≡ false → Conforms (key_text k) st)
  unfolding validate_ops Leafed lookup
  validate_ops_sound ops o k h m named =
      let (final, sim, checks) = >>=-eq-ok (simulate K F D 0 ops ([], [])) _ h in
      let (st, there) = simulate-staged 0 ops ([], []) final o k sim m named in
      elim (simulate-Planned K F D 0 ops ([], []) final (key_text k) sim refl) [
        | inl never ↦ absurd (none≢some (sym never ∙ there))
        | inr (after, p, q) ↦ (
          after,
          p,
          λ enforced.
              let (j, at, leaf) =
                simulate-Leafed 0 ops ([], []) final sim (λ ks st e. absurd (none≢some e))
                  (key_text k) after q in
              check_state-Conforms (key_text k) after final.1 j at leaf (
                check_states-lookup final.0 final.1 (key_text k) after
                  (sym (if_false _ _ enforced) ∙ checks) q),
        )
      ]
