-- ===== src/PolicyStore/Served.antt =====
-- pkg/policystore/controller.go, lease.go: what a controller serves.
use openvaultdb_go.Base.{
  ℕ, zero, suc, ◌+◌, String, List, [], ◌∷◌, ◌++◌, true, false, ◌≡◌, refl, sym, ap, ◌∙◌, Option,
  none, some, ok, ◌>>◌, if◌then◌else◌, All, All-append, inl, inr, subst, some-injective, arith,
  Option-cases, Result-cases, Bool-cases, >>=-eq-ok, ok≢err, ok-injective,
}
use openvaultdb_go.PolicyStore.Disk.{Owner, Faults, pass, Access, Snapshot, started, take_read_lock}
use openvaultdb_go.PolicyStore.Load.{load_generation, load}
use openvaultdb_go.PolicyStore.Activate.{Environment, activate}
use openvaultdb_go.PolicyStore.Effects.{activate-IsAtomic}
use openvaultdb_go.PolicyStore.Reading.{calm, load_generation-kept, load-selected}
use openvaultdb_go.PolicyStore.Controller.{
  Lease, Controller, serve, reload, new_controller, snapshot, publish, acquire, holds_at, mark_at,
  release, Step, acquired, given_back, reloaded, published, elsewhere, Reach, started_with, later,
}

module _ (A : Access) (owner : Owner) where
  open A use {Doc, Policy, encode_pointer, decode_pointer}

  -- The leases that are not released.
  unfoldable pub held : List (Lease A owner) → ℕ
  held [] = 0
  held (l ∷ ls) = let rest = held ls in if l.released then rest else rest + 1

  -- A lease that is not released has the snapshot that is served.
  pub IsCurrent : Option (Snapshot Policy) → Lease A owner → Type 0
  IsCurrent active l = l.released ≡ false → active ≡ some l.snapshot

  held-append : (ls ms : List (Lease A owner)) → held (ls ++ ms) ≡ held ls + held ms
  unfolding held
  held-append [] ms = ground arith
  held-append (l ∷ ls) ms = ground (arith, held-append ls ms)

  held-mark_at :
      (n : ℕ) (ls : List (Lease A owner))
      → holds_at A owner n ls ≡ true
      → held (mark_at A owner n ls) + 1 ≡ held ls
  unfolding held mark_at holds_at
  held-mark_at n [] h = cc
  held-mark_at zero (l ∷ ls) h = ground arith
  held-mark_at (suc n) (l ∷ ls) h = ground (arith, held-mark_at n ls h)

  mark_at-IsCurrent :
      (active : Option (Snapshot Policy)) (n : ℕ) (ls : List (Lease A owner))
      → All (IsCurrent active) ls
      → All (IsCurrent active) (mark_at A owner n ls)
  unfolding mark_at IsCurrent
  mark_at-IsCurrent active n [] h = h
  mark_at-IsCurrent active zero (l ∷ ls) (h, hs) = ((λ e. cc), hs)
  mark_at-IsCurrent active (suc n) (l ∷ ls) (h, hs) = (h, mark_at-IsCurrent active n ls hs)

  held-IsCurrent :
      (active : Option (Snapshot Policy)) (ls : List (Lease A owner))
      → held ls ≡ 0
      → All (IsCurrent active) ls
  unfolding held IsCurrent
  held-IsCurrent active [] h = tt
  held-IsCurrent active (l ∷ ls) h = ((λ e. ground arith), held-IsCurrent active ls (ground arith))

  -- Every hold of the lock is a lease; what is served, and what every lease has, is one generation that
  -- lies on the disk and is read from it as a whole.
  pub record IsServing (c : Controller A owner) : Type 0 where
    pub counted : c.readers ≡ held c.leases
    pub current : All (IsCurrent c.active) c.leases
    pub verified :
        (s : Snapshot Policy)
        → c.active ≡ some s
        → load_generation A owner calm c.disk s.revision ≡ ok s

  -- What is loaded under the lock for writing is served.
  serve-IsServing :
      (faults : Faults) (c : Controller A owner)
      → c.readers ≡ held c.leases
      → c.readers ≡ 0
      → IsServing (serve A owner c (load A owner faults c.disk)).0
  unfolding serve
  serve-IsServing faults c n none_reads = elim (Result-cases (load A owner faults c.disk)) [
    | inr (why, e) ↦
        rw (e, serve)
          (record {
            counted = n;
            current = held-IsCurrent none c.leases (sym n ∙ none_reads);
            verified = λ s h. cc;
          })
    | inl (t, e) ↦
        rw (e, serve)
          (record {
            counted = n;
            current = held-IsCurrent (some t) c.leases (sym n ∙ none_reads);
            verified = λ s h.
                subst (λ x. load_generation A owner calm c.disk x.revision ≡ ok x)
                  (some-injective h) (load-selected A owner faults c.disk t e);
          })
  ]

  release-IsServing :
      (n : ℕ) (c : Controller A owner) → IsServing c → IsServing (release A owner n c)
  unfolding release
  release-IsServing n c h = elim (Bool-cases (holds_at A owner n c.leases)) [
    | inr e ↦ rw (e, release) h
    | inl e ↦
        rw (e, release)
          (record {
            counted = omega (arith, h.counted, held-mark_at n c.leases e);
            current = mark_at-IsCurrent c.active n c.leases h.current;
            verified = h.verified;
          })
  ]

  snapshot_ok :
      (c : Controller A owner) (s : Snapshot Policy) → snapshot A owner c ≡ ok s → c.active ≡ some s
  unfolding snapshot
  snapshot_ok c s h = elim (Option-cases c.active) [
    | inr (t, e) ↦ e ∙ ap some (ok-injective (rw (e, snapshot) at h))
    | inl e ↦ absurd (ok≢err (sym (rw (e, snapshot) at h)))
  ]

  acquire-IsServing :
      (faults : Faults) (c : Controller A owner)
      → IsServing c
      → IsServing (acquire A owner faults c).0
  unfolding acquire held IsCurrent
  acquire-IsServing faults c h =
      elim (Result-cases
        (pass faults take_read_lock >> pass faults started >> snapshot A owner c)) [
          | inr (why, e) ↦ rw (e, acquire) h
          | inl (s, e) ↦
              rw (e, acquire)
                (record {
                  counted =
                      rw
                        (
                          held-append c.leases (record { snapshot = s; released = false } ∷ []),
                          held,
                        )
                        (omega (arith, h.counted));
                  current = All-append (IsCurrent c.active) c.leases _ h.current (
                    (λ x.
                        snapshot_ok c s
                          (>>=-eq-ok (pass faults take_read_lock >> pass faults started) _ e).2),
                    tt,
                  );
                  verified = h.verified;
                })
        ]

  -- A generation that was added to the disk by anyone changes nothing that is served.
  elsewhere-IsServing :
      (env : Environment) (expected : String) (docs : List Doc) (c : Controller A owner)
      → IsServing c
      → IsServing (record c { disk = (activate A owner env expected docs c.disk).0 })
  elsewhere-IsServing env expected docs c h = record {
    counted = h.counted;
    current = h.current;
    verified = λ s e.
        load_generation-kept A owner env c.disk _ s.revision s
          (activate-IsAtomic A owner env expected docs c.disk) (h.verified s e);
  }

  step-IsServing : (c d : Controller A owner) → Step A owner c d → IsServing c → IsServing d
  unfolding reload publish serve
  step-IsServing _ _ (acquired faults c) h = acquire-IsServing faults c h
  step-IsServing _ _ (given_back n c) h = release-IsServing n c h
  step-IsServing _ _ (reloaded faults c none_reads) h =
      serve-IsServing faults c h.counted none_reads
  step-IsServing _ _ (published env faults expected docs c none_reads) h =
      serve-IsServing faults (record c { disk = (activate A owner env expected docs c.disk).0 })
        h.counted none_reads
  step-IsServing _ _ (elsewhere env expected docs c) h = elsewhere-IsServing env expected docs c h

  -- In every state that a controller reaches, while other processes publish in its store at any
  -- time, the lock is held for reading once for each lease not yet released, all these leases have
  -- the snapshot that is served, and what is served is a generation that lies on the disk and is
  -- verified as a whole.
  pub Reach-IsServing : (c : Controller A owner) → Reach A owner c → IsServing c
  unfolding new_controller reload serve held
  Reach-IsServing _ (started_with faults disk c e) =
      let new : Controller A owner = record {
        disk = disk;
        active = none;
        readers = 0;
        leases = [];
      } in
      subst IsServing (ok-injective (>>=-eq-ok (reload A owner faults new).1 _ e).2)
        (serve-IsServing faults new refl refl)
  Reach-IsServing _ (later c d r s) = step-IsServing c d s (Reach-IsServing c r)
