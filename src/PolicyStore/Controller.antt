-- ===== src/PolicyStore/Controller.antt =====
-- pkg/policystore/controller.go, lease.go: one process that serves a loaded generation. Each call holds
-- the lock, for reading or for writing, from its first access to the state to its last; a lease holds
-- it for reading until it is released.
use openvaultdb_go.Base.{
  ℕ, zero, suc, ◌+◌, ◌-◌, String, List, [], ◌∷◌, ◌++◌, Bool, true, false, ◌≡◌, Option, none, some,
  Result, ok, err, ◌>>◌, ◌>>=◌, length, if◌then◌else◌,
}
use openvaultdb_go.PolicyStore.Disk.{
  Owner, Disk, started, take_read_lock, PolicyError, unavailable, Faults, pass, Access, Snapshot,
}
use openvaultdb_go.PolicyStore.Load.{load}
use openvaultdb_go.PolicyStore.Activate.{Environment, activate}

module _ (A : Access) (owner : Owner) where
  open A use {Doc, Policy}

  pub record Lease : Type 0 where
    pub snapshot : Snapshot Policy
    pub released : Bool

  -- The store below, the snapshot that is served, how often the lock is held for reading, and the
  -- leases in the order in which they were given.
  pub record Controller : Type 0 where
    pub disk : Disk
    pub active : Option (Snapshot Policy)
    pub readers : ℕ
    pub leases : List Lease

  unfoldable pub serve :
      Controller
      → Result PolicyError (Snapshot Policy)
      → Controller × Result PolicyError (Snapshot Policy)
  serve c (ok snapshot) = (record c { active = some snapshot }, ok snapshot)
  serve c (err e) = (record c { active = none }, err e)

  -- `Reload`: without a snapshot nothing is served.
  unfoldable pub reload : Faults → Controller → Controller × Result PolicyError (Snapshot Policy)
  unfolding serve
  reload faults c = serve c (load A owner faults c.disk)

  unfoldable pub new_controller : Faults → Disk → Result PolicyError Controller
  unfolding reload
  new_controller faults disk =
      let (c, r) =
        reload faults (record { disk = disk; active = none; readers = 0; leases = [] }) in
      r >>= λ _. ok c

  unfoldable pub snapshot : Controller → Result PolicyError (Snapshot Policy)
  snapshot c = elim c.active [ none ↦ err unavailable | some s ↦ ok s ]

  unfoldable policies : Faults → Controller → Result PolicyError (List Policy)
  unfolding snapshot
  policies faults c = do pass faults started; s ← snapshot c; ok s.policies

  -- What `Activate` returns, from the answers of the publication and of the load after it.
  answer :
      Result PolicyError (Snapshot Policy)
      → Result PolicyError (Snapshot Policy)
      → Result PolicyError (Snapshot Policy)
  answer (err e) loaded = err e
  answer (ok s) loaded = loaded

  -- `Activate`: the pointer is read again before anything is served, also after an error.
  unfoldable pub publish :
      Environment
      → Faults
      → String
      → List Doc
      → Controller
      → Controller × Result PolicyError (Snapshot Policy)
  unfolding serve answer
  publish env faults expected docs c =
      let (disk, published) = activate A owner env expected docs c.disk in
      let (d, loaded) = serve (record c { disk = disk }) (load A owner faults disk) in
      (d, answer published loaded)

  -- `AcquirePolicyLease`: the place of the lease.
  unfoldable pub acquire : Faults → Controller → Controller × Result PolicyError ℕ
  unfolding snapshot
  acquire faults c = elim (pass faults take_read_lock >> pass faults started >> snapshot c) [
    | err e ↦ (c, err e)
    | ok s ↦ (
      record c {
        readers = c.readers + 1;
        leases = c.leases ++ record { snapshot = s; released = false } ∷ [];
      },
      ok (length c.leases),
    )
  ]

  -- The lease at a place, if it still holds the lock.
  unfoldable pub holds_at : ℕ → List Lease → Bool
  holds_at n [] = false
  holds_at zero (l ∷ ls) = elim l.released [ true ↦ false | false ↦ true ]
  holds_at (suc n) (l ∷ ls) = holds_at n ls

  unfoldable pub mark_at : ℕ → List Lease → List Lease
  mark_at n [] = []
  mark_at zero (l ∷ ls) = record l { released = true } ∷ ls
  mark_at (suc n) (l ∷ ls) = l ∷ mark_at n ls

  -- `Release`: the lock is given back once.
  unfoldable pub release : ℕ → Controller → Controller
  unfolding holds_at mark_at
  release n c =
      if holds_at n c.leases
      then record c { readers = c.readers - 1; leases = mark_at n c.leases }
      else c

  -- What may happen. The lock is taken for writing only when nobody reads; another process may publish
  -- in the same store at any time.
  pub data Step : Controller → Controller → Type 0 where
    acquired : (faults : Faults) (c : Controller) → Step c (acquire faults c).0
    given_back : (n : ℕ) (c : Controller) → Step c (release n c)
    reloaded : (faults : Faults) (c : Controller) → c.readers ≡ 0 → Step c (reload faults c).0
    published :
        (env : Environment) (faults : Faults) (expected : String) (docs : List Doc) (c : Controller)
        → c.readers ≡ 0
        → Step c (publish env faults expected docs c).0
    elsewhere :
        (env : Environment) (expected : String) (docs : List Doc) (c : Controller)
        → Step c (record c { disk = (activate A owner env expected docs c.disk).0 })

  pub data Reach : Controller → Type 0 where
    started_with :
        (faults : Faults) (disk : Disk) (c : Controller)
        → new_controller faults disk ≡ ok c
        → Reach c
    later : (c d : Controller) → Reach c → Step c d → Reach d
