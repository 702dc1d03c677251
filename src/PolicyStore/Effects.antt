-- ===== src/PolicyStore/Effects.antt =====
-- pkg/policystore/store.go: what a call of `Activate` leaves on the disk, wherever it is interrupted.
use openvaultdb_go.Base.{
  String, List, [], ◌∷◌, ◌==◌, none, some, Result, ok, ◌≡◌, refl, sym, ap, ◌∙◌, ◌⊎◌, inl, inr,
  Bool-cases, Option-cases, Result-cases, lookup, insert, >>=-eq-ok, if-both, if_false,
  lookup-insert, eq_iff, none≢some,
}
use openvaultdb_go.PolicyStore.Disk.{
  Owner, Generation, Disk, PolicyError, Access, Snapshot, pass_all, make_generations,
  stat_generations, stat_destination, sync_generations,
}
use openvaultdb_go.PolicyStore.Load.{load_generation}
use openvaultdb_go.PolicyStore.Activate.{
  Environment, prepare, stage, pointed, point_at, install, activate,
}

module _ (A : Access) (owner : Owner) where
  open A use {Doc, Policy, encode_pointer}

  -- The pointer is as before, or selects a generation that was read and verified as a whole; and no
  -- generation that was there is changed.
  pub record IsAtomic (env : Environment) (before after : Disk) : Type 0 where
    pub pointer :
        (after.active ≡ before.active)
        ⊎ ((revision : String) × (snapshot : Snapshot Policy) × (after.active
              ≡ some (encode_pointer revision))
            × (load_generation A owner env.candidate after revision ≡ ok snapshot))
    pub kept :
        (revision : String) (g : Generation)
        → lookup revision before.generations ≡ some g
        → lookup revision after.generations ≡ some g

  unchanged : (env : Environment) (disk : Disk) → IsAtomic env disk disk
  unchanged env disk = record { pointer = inl refl; kept = λ r g h. h }

  -- A generation that is added hides none.
  added :
      (revision : String) (g : Generation) (disk : Disk)
      → lookup revision disk.generations ≡ none
      → (r : String) (h : Generation) → lookup r disk.generations ≡ some h
      → lookup r (insert revision g disk.generations) ≡ some h
  added revision g disk missing r h there = elim (Bool-cases (revision == r)) [
    | inl same ↦
        let e = (eq_iff revision r).0 same in
        absurd (none≢some (sym missing ∙ ap (λ x. lookup x disk.generations) e ∙ there))
    | inr other ↦ lookup-insert revision r g disk.generations ∙ if_false _ _ other ∙ there
  ]

  point_at-IsAtomic :
      (env : Environment) (revision : String) (disk : Disk)
      → IsAtomic env disk (point_at A owner env revision disk).0
  unfolding point_at load_generation
  point_at-IsAtomic env revision disk = elim (Result-cases (pointed A owner env revision disk)) [
    | inl (snapshot, e) ↦
        let (s, l, rest) = >>=-eq-ok (load_generation A owner env.candidate disk revision) _ e in
        rw (e, point_at) (record { pointer = inr (revision, s, refl, l); kept = λ r g h. h })
    | inr (why, e) ↦ rw (e, point_at) (unchanged env disk)
  ]

  -- The generation is published first, and the pointer is moved afterwards.
  abbrev published : String → Generation → Disk → Disk
  published revision g disk = record disk { generations = insert revision g disk.generations }

  after_published :
      (env : Environment) (revision : String) (g : Generation) (disk after : Disk)
      → lookup revision disk.generations ≡ none
      → IsAtomic env (published revision g disk) after
      → IsAtomic env disk after
  after_published env revision g disk after missing h = record {
    pointer = h.pointer;
    kept = λ r f there. h.kept r f (added revision g disk missing r f there);
  }

  install-IsAtomic :
      (env : Environment) (revision : String) (g : Generation) (disk : Disk)
      → IsAtomic env disk (install A owner env revision g disk).0
  unfolding install
  install-IsAtomic env revision g disk =
      elim (Result-cases
        (pass_all env.own (make_generations ∷ stat_generations ∷ stat_destination ∷ []))) [
          | inr (why, e) ↦ rw (e, install) (unchanged env disk)
          | inl (u, e) ↦
              rw (e, install)
                (elim (Option-cases (lookup revision disk.generations)) [
                  | inr (f, there) ↦ rw there (point_at-IsAtomic env revision disk)
                  | inl missing ↦ rw missing (elim (Result-cases (stage A owner env.own g)) [
                    | inr (why, e) ↦ rw e (unchanged env disk)
                    | inl (v, e) ↦ rw e (
                        after_published env revision g disk _ missing (
                          if-both {A = Disk × Result PolicyError (Snapshot Policy)}
                            (λ r. IsAtomic env (published revision g disk) r.0)
                            (env.own sync_generations) (unchanged env (published revision g disk))
                            (point_at-IsAtomic env revision (published revision g disk))))
                  ])
                ])
        ]

  -- Wherever a call of `Activate` is interrupted, it leaves every generation that was there as it
  -- was, and leaves the pointer as it was or pointing to a generation that has just been read back
  -- and verified as a whole.
  pub activate-IsAtomic :
      (env : Environment) (expected : String) (docs : List Doc) (disk : Disk)
      → IsAtomic env disk (activate A owner env expected docs disk).0
  unfolding activate
  activate-IsAtomic env expected docs disk =
      elim (Result-cases (prepare A owner env expected docs disk)) [
        | inr (why, e) ↦ rw (e, activate) (unchanged env disk)
        | inl ((revision, g), e) ↦ rw (e, activate) (install-IsAtomic env revision g disk)
      ]
