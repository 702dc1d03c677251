-- ===== src/PolicyStore/Published.antt =====
-- pkg/policystore/store.go: a call of `Activate` that succeeds is a compare-and-set of the pointer, and
-- what it returns is what the store loads from then on.
use openvaultdb_go.Base.{
  String, List, [], ◌∷◌, true, false, not, ◌&&◌, ◌||◌, ◌==◌, leb, eqb, length, Option, none, some,
  Result, ok, ◌≡◌, refl, sym, ap, ◌∙◌, ◌⊎◌, inl, inr, Option-cases, Result-cases, lookup, >>=-eq-ok,
  if-both, subst, le→leb, eq_iff, eq_refl, arith, ok-injective, ok≢err, require->>-eq-ok,
}
use openvaultdb_go.PolicyStore.Disk.{
  Owner, Generation, Disk, PolicyError, Access, Snapshot, Faults, pass, pass_all, stat_lock,
  take_lock, make_generations, stat_generations, stat_destination, sync_generations, valid_digest,
}
use openvaultdb_go.PolicyStore.Load.{max_policies, read_file, strict_json, load_generation, load}
use openvaultdb_go.PolicyStore.Activate.{
  Environment, has_active, no_revision, current_revision, prepare, stage, settle, pointed, point_at,
  install, activate, pointer_points,
}
use openvaultdb_go.PolicyStore.Reading.{calm, load_generation-calm, load-calm}

has_active_lem : (active : Option String) → has_active active ≡ false → active ≡ none
unfolding has_active
has_active_lem none h = refl
has_active_lem (some text) h = cc

no_revision_ok :
    (env : Environment) (expected revision : String) (active : Option String) (why : PolicyError)
    → no_revision env expected active why ≡ ok revision
    → (revision ≡ "") × (active ≡ none)
unfolding no_revision
no_revision_ok env expected revision active why h =
    let facts : (revision ≡ "") × (has_active active ≡ false) = ground arith in
    (facts.0, has_active_lem active facts.1)

module _ (A : Access) (owner : Owner) where
  open A use {Doc, Policy, encode_pointer, decode_pointer}

  -- The pointer to a generation selects it.
  load-encode_pointer :
      (disk : Disk) (revision : String) (s : Snapshot Policy)
      → valid_digest revision ≡ true
      → load_generation A owner calm disk revision ≡ ok s
      → load A owner calm (record disk { active = some (encode_pointer revision) }) ≡ ok s
  unfolding load read_file strict_json load_generation
  load-encode_pointer disk revision s valid h =
      rw
        (
          le→leb _ _ (A.size-encode_pointer revision valid),
          A.decode-encode_pointer revision,
          eq_refl (encode_pointer revision),
          load,
        )
        h

  settle_ok : (f : Faults) (t s : Snapshot Policy) → settle A owner f t ≡ ok s → t ≡ s
  unfolding settle
  settle_ok f t s h = ground arith

  point_at_ok :
      (env : Environment) (revision : String) (disk : Disk) (s : Snapshot Policy)
      → (point_at A owner env revision disk).1 ≡ ok s
      → load A owner calm (point_at A owner env revision disk).0 ≡ ok s
  unfolding point_at
  point_at_ok env revision disk s h = elim (Result-cases (pointed A owner env revision disk)) [
    | inr (why, e) ↦ absurd (ok≢err (sym (rw (e, point_at) at h)))
    | inl (t, e) ↦
        let (u, l, rest) = >>=-eq-ok (load_generation A owner env.candidate disk revision) _ e in
        let (v, _, c) = load_generation-calm A owner env.candidate disk revision u l in
        let same = ok-injective (>>=-eq-ok (pass_all env.own pointer_points) _ rest).2 in
        rw (e, point_at)
          (load-encode_pointer disk revision s v
            (c ∙ ap ok (same ∙ settle_ok env.own t s (rw (e, point_at) at h))))
  ]

  install_ok :
      (env : Environment) (revision : String) (g : Generation) (disk : Disk) (s : Snapshot Policy)
      → (install A owner env revision g disk).1 ≡ ok s
      → load A owner calm (install A owner env revision g disk).0 ≡ ok s
  unfolding install
  install_ok env revision g disk s =
      elim (Result-cases
        (pass_all env.own (make_generations ∷ stat_generations ∷ stat_destination ∷ []))) [
          | inr (why, e) ↦ rw (e, install) (λ h. absurd (ok≢err (sym h)))
          | inl (u, e) ↦
              rw (e, install)
                (elim (Option-cases (lookup revision disk.generations)) [
                  | inr (f, there) ↦ rw there (point_at_ok env revision disk s)
                  | inl missing ↦ rw missing (elim (Result-cases (stage A owner env.own g)) [
                    | inr (why, e) ↦ rw e (λ h. absurd (ok≢err (sym h)))
                    | inl (v, e) ↦ rw e (
                        if-both {A = Disk × Result PolicyError (Snapshot Policy)}
                          (λ r. r.1 ≡ ok s → load A owner calm r.0 ≡ ok s)
                          (env.own sync_generations) (λ h. absurd (ok≢err (sym h)))
                          (point_at_ok env revision _ s))
                  ])
                ])
        ]

  -- The generation that a disk selects, "" for none.
  pub Selects : Disk → String → Type 0
  Selects disk revision =
      ((revision ≡ "") × (disk.active ≡ none))
      ⊎ ((s : Snapshot Policy) × (load A owner calm disk ≡ ok s) × (s.revision ≡ revision))

  current_revision-Selects :
      (env : Environment) (expected revision : String) (disk : Disk)
      → current_revision A owner env expected disk ≡ ok revision
      → Selects disk revision
  unfolding current_revision Selects
  current_revision-Selects env expected revision disk h =
      elim (Result-cases (load A owner env.current disk)) [
        | inl (s, e) ↦ inr (
          s,
          load-calm A owner env.current disk s e,
          ok-injective (rw (e, current_revision) at h),
        )
        | inr (why, e) ↦
            inl
              (no_revision_ok env expected revision disk.active why (rw (e, current_revision) at h))
      ]

  prepare-Selects :
      (env : Environment) (expected : String) (docs : List Doc) (disk : Disk)
      (p : String × Generation)
      → prepare A owner env expected docs disk ≡ ok p
      → Selects disk expected
  unfolding prepare
  prepare-Selects env expected docs disk p h =
      let (_, h1) =
        require->>-eq-ok (not (eqb (length docs) 0) && leb (length docs) max_policies) _ _ h in
      let (_, h2) = require->>-eq-ok (expected == "" || valid_digest expected) _ _ h1 in
      let (_, _, h3) = >>=-eq-ok (pass env.own stat_lock) _ h2 in
      let (_, _, h4) = >>=-eq-ok (pass env.own take_lock) _ h3 in
      let (revision, c, h5) = >>=-eq-ok (current_revision A owner env expected disk) _ h4 in
      let (same, _) = require->>-eq-ok (revision == expected) _ _ h5 in
      subst (Selects disk) ((eq_iff revision expected).0 same)
        (current_revision-Selects env expected revision disk c)

  -- A call of `Activate` that succeeds replaced the generation that was expected: the store had
  -- the revision expected, or neither a pointer nor a revision expected. And what it returns is
  -- what the store loads from then on when nothing interrupts.
  pub activate_ok :
      (env : Environment) (expected : String) (docs : List Doc) (disk : Disk) (s : Snapshot Policy)
      → (activate A owner env expected docs disk).1 ≡ ok s
      → Selects disk expected
        × (load A owner calm (activate A owner env expected docs disk).0 ≡ ok s)
  unfolding activate
  activate_ok env expected docs disk s =
      elim (Result-cases (prepare A owner env expected docs disk)) [
        | inr (why, e) ↦ rw (e, activate) (λ h. absurd (ok≢err (sym h)))
        | inl ((revision, g), e) ↦
            rw (e, activate)
              λ h. (
                prepare-Selects env expected docs disk (revision, g) e,
                install_ok env revision g disk s h,
              )
      ]
