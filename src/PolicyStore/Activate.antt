-- ===== src/PolicyStore/Activate.antt =====
-- pkg/policystore/store.go: `Activate` publishes one complete set of policies. The lock of the owner
-- is held throughout, so the disk changes by this call only.
use Prim.Native.String.{compare}
use Prim.Native.Nat.{Ordering}
use openvaultdb_go.Base.{
  ℕ, ◌+◌, String, List, [], ◌∷◌, ◌++◌, map, Bool, true, false, not, ◌&&◌, ◌||◌, ◌==◌, leb, eqb,
  length, if◌then◌else◌, Option, none, some, Result, ok, err, ◌>>◌, ◌>>=◌, require, lookup, insert,
}
use openvaultdb_go.PolicyStore.Disk.{
  Owner, Document, Generation, Disk, Point, stat_active, stat_lock, take_lock, before_document,
  write_body, make_generations, stat_generations, stat_destination, make_stage, make_policies,
  write_manifest, sync_policies, sync_stage, generation_synced, rename_stage, sync_generations,
  generation_published, still_wanted, create_pointer, write_pointer, sync_pointer, close_pointer,
  pointer_synced, wanted_at_last, rename_pointer, sync_root, pointer_published, PolicyError,
  not_exist, interrupted, may_be_active, exceeds_limit, invalid_policy, bad_count, invalid_expected,
  conflict, wrong_target, Faults, pass, pass_all, Access, Snapshot, size, valid_digest,
}
use openvaultdb_go.PolicyStore.Load.{
  max_generation_bytes, max_document_bytes, max_policies, format_version, or_err, seen_before,
  document_path, load_generation, load,
}

-- What may interrupt a call: in its reading of the current generation, in its own work, and in its
-- reading of the generation that it published.
pub record Environment : Type 0 where
  pub current : Faults
  pub own : Faults
  pub candidate : Faults

abbrev before : String → String → Bool
before a b = elim (compare a b) [ Ordering.lt ↦ true | _ ↦ false ]

-- `sort.Slice` by ID.
insert_by_id : Document → List Document → List Document
insert_by_id d [] = d ∷ []
insert_by_id d (e ∷ es) =
    let rest = insert_by_id d es in if before d.id e.id then d ∷ e ∷ es else e ∷ rest

sort_by_id : List Document → List Document
unfolding insert_by_id
sort_by_id [] = []
sort_by_id (d ∷ ds) = insert_by_id d (sort_by_id ds)

is_not_exist : PolicyError → Bool
is_not_exist not_exist = true
is_not_exist _ = false

unfoldable pub has_active : Option String → Bool
has_active none = false
has_active (some text) = true

-- The revision of a store whose pointer was not read: only a first activation goes on, and only when no
-- pointer is there, so that a missing generation does not pass for an uninitialised store.
unfoldable pub no_revision :
    Environment → String → Option String → PolicyError → Result PolicyError String
unfolding is_not_exist has_active
no_revision env expected active e =
    if not (expected == "") || not (is_not_exist e)
    then err e
    else (if has_active active || env.own stat_active then err e else ok "")

-- Where the pointer's change may still be given up.
abbrev pub pointer_points : List Point
pointer_points =
    generation_published ∷ still_wanted ∷ create_pointer ∷ write_pointer ∷ sync_pointer
    ∷ close_pointer ∷ pointer_synced ∷ wanted_at_last ∷ rename_pointer ∷ []

module _ (A : Access) (owner : Owner) where
  open A use {
    Doc, Policy, target_database, name, marshal_policy, encode_pointer, encode_manifest, digest,
  }

  -- The loop over the documents: the entries of the manifest, and the files by name.
  unfoldable build :
      Faults
      → List Doc
      → List String
      → ℕ
      → List Document
      → List (String × String)
      → Result PolicyError (List Document × List (String × String))
  unfolding seen_before
  build faults [] seen total entries files = ok (entries, files)
  build faults (doc ∷ docs) seen total entries files = do
    pass faults (before_document (name doc))
    require (target_database doc == owner.database && not (seen_before (name doc) seen))
        wrong_target
    body ← or_err invalid_policy (marshal_policy doc)
    require (leb (size body) max_document_bytes && leb (total + size body) max_generation_bytes)
        exceeds_limit
    build faults docs (name doc ∷ seen) (total + size body)
        (entries
          ++ record { id = name doc; file = document_path (digest body); revision = digest body }
            ∷ [])
        (insert (document_path (digest body)) body files)

  -- The revision that the pointer selects, "" for a store without one.
  unfoldable pub current_revision : Environment → String → Disk → Result PolicyError String
  unfolding no_revision
  current_revision env expected disk = elim (load A owner env.current disk) [
    | ok snapshot ↦ ok snapshot.revision
    | err e ↦ no_revision env expected disk.active e
  ]

  -- The checks, and the generation that the documents make, with its revision.
  unfoldable pub prepare :
      Environment → String → List Doc → Disk → Result PolicyError (String × Generation)
  unfolding current_revision build sort_by_id
  prepare env expected docs disk = do
    require (not (eqb (length docs) 0) && leb (length docs) max_policies) bad_count
    require (expected == "" || valid_digest expected) invalid_expected
    pass env.own stat_lock
    pass env.own take_lock
    revision ← current_revision env expected disk
    require (revision == expected) conflict
    (entries, files) ← build env.own docs [] 0 [] []
    let text =
        encode_manifest
          (record { version = format_version; owner = owner; documents = sort_by_id entries })
    ok (digest text, record { manifest = some text; files = files })

  -- The files are written in a pending directory, which is then renamed.
  unfoldable pub stage : Faults → Generation → Result PolicyError (Unit {0})
  unfolding pass_all
  stage faults g = pass_all faults (
      make_stage ∷ make_policies ∷ map (λ f. write_body f.0) g.files
      ++ write_manifest ∷ sync_policies ∷ sync_stage ∷ generation_synced ∷ rename_stage ∷ [])

  -- Errors after the rename are uncertain publication, never rollback.
  unfoldable pub settle : Faults → Snapshot Policy → Result PolicyError (Snapshot Policy)
  settle faults snapshot =
      if faults sync_root
      then err (may_be_active sync_root)
      else (if faults pointer_published then err (may_be_active pointer_published) else ok snapshot)

  -- The generation is verified, and the pointer to it is written in a temporary file and renamed.
  unfoldable pub pointed : Environment → String → Disk → Result PolicyError (Snapshot Policy)
  unfolding pass_all
  pointed env revision disk = do
    snapshot ← load_generation A owner env.candidate disk revision
    pass_all env.own pointer_points
    ok snapshot

  unfoldable pub point_at :
      Environment → String → Disk → Disk × Result PolicyError (Snapshot Policy)
  unfolding settle pointed
  point_at env revision disk = elim (pointed env revision disk) [
    | err e ↦ (disk, err e)
    | ok snapshot ↦
        (record disk { active = some (encode_pointer revision) }, settle env.own snapshot)
  ]

  unfoldable pub install :
      Environment → String → Generation → Disk → Disk × Result PolicyError (Snapshot Policy)
  unfolding stage point_at pass_all
  install env revision g disk =
      elim (pass_all env.own (make_generations ∷ stat_generations ∷ stat_destination ∷ [])) [
        | err e ↦ (disk, err e)
        | ok _ ↦ elim (lookup revision disk.generations) [
          | some there ↦ point_at env revision disk
          | none ↦ elim (stage env.own g) [
            | err e ↦ (disk, err e)
            | ok _ ↦
                let published = record disk { generations = insert revision g disk.generations } in
                if env.own sync_generations
                then (published, err (interrupted sync_generations))
                else point_at env revision published
          ]
        ]
      ]

  unfoldable pub activate :
      Environment → String → List Doc → Disk → Disk × Result PolicyError (Snapshot Policy)
  unfolding prepare install
  activate env expected docs disk = elim (prepare env expected docs disk) [
    | err e ↦ (disk, err e)
    | ok (revision, g) ↦ install env revision g disk
  ]
