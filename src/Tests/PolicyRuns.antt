-- ===== src/Tests/PolicyRuns.antt =====
-- pkg/policystore at a store of one policy.
use openvaultdb_go.Base.{
  String, [], ◌∷◌, ◌==◌, ◌⊕◌, if◌then◌else◌, true, ◌≤◌, none, some, ok, err, ◌≡◌, refl, arith,
  lookup, insert,
}
use openvaultdb_go.PolicyStore.Disk.{
  Owner, Document, Manifest, Generation, Disk, Access, Snapshot, conflict, valid_digest, size,
}
use openvaultdb_go.PolicyStore.Load.{load}
use openvaultdb_go.PolicyStore.Activate.{Environment, activate}
use openvaultdb_go.PolicyStore.Effects.{IsAtomic, activate-IsAtomic}
use openvaultdb_go.PolicyStore.Reading.{calm}
use openvaultdb_go.PolicyStore.Published.{Selects, activate_ok}
use openvaultdb_go.PolicyStore.Controller.{
  Controller, new_controller, started_with, later, acquired, elsewhere, acquire,
}
use openvaultdb_go.PolicyStore.Served.{IsServing, Reach-IsServing}

abbrev revision : String
revision = "00112233445566778899aabbccddeeff00112233445566778899aabbccddeeff"

abbrev owner : Owner
owner = record { database = "shop"; realm = ""; enabled = true }

abbrev document : Document
document = record { id = "readers"; file = "policies/" ⊕ revision ⊕ ".json"; revision = revision }

abbrev manifest : Manifest
manifest = record {
  version = "ovdb.policy-generation/v1";
  owner = owner;
  documents = document ∷ [];
}

valid_digest-short : (s : String) → valid_digest s ≡ true → size s ≤ 4096
unfolding valid_digest
valid_digest-short s h = ground arith

-- Every policy is "allow", and every text has the same digest.
abbrev access : Access
access = record {
  Doc = String;
  Policy = String;
  target_database = λ doc. "shop";
  name = λ doc. doc;
  marshal_policy = λ doc. some "allow";
  parse_policy = λ body. if body == "allow" then some "readers" else none;
  load_policies = λ o bodies. some bodies;
  encode_pointer = λ s. s;
  decode_pointer = some;
  encode_manifest = λ m. "one";
  decode_manifest = λ text. some manifest;
  digest = λ text. revision;
  decode-encode_pointer = λ s. refl;
  size-encode_pointer = λ s h. valid_digest-short s h;
}

abbrev generation : Generation
generation = record {
  manifest = some "one";
  files = ("policies/" ⊕ revision ⊕ ".json", "allow") ∷ [];
}

abbrev nothing : Disk
nothing = record { active = none; generations = [] }

abbrev disk : Disk
disk = record { active = some revision; generations = (revision, generation) ∷ [] }

abbrev served : Snapshot String
served = record {
  revision = revision;
  owner = owner;
  documents = document ∷ [];
  policies = "allow" ∷ [];
}

abbrev undisturbed : Environment
undisturbed = record { current = calm; own = calm; candidate = calm }

first-published : activate access owner undisturbed "" ("readers" ∷ []) nothing ≡ (disk, ok served)
unfolding activate load size lookup insert valid_digest
first-published = refl

activate_ok_example :
    Selects access owner nothing ""
    × (load access owner calm (activate access owner undisturbed "" ("readers" ∷ []) nothing).0
        ≡ ok served)
unfolding activate load size lookup insert valid_digest
activate_ok_example = activate_ok access owner undisturbed "" ("readers" ∷ []) nothing served refl

activate-IsAtomic_example :
    IsAtomic access owner undisturbed nothing
      (activate access owner undisturbed "" ("readers" ∷ []) nothing).0
activate-IsAtomic_example = activate-IsAtomic access owner undisturbed "" ("readers" ∷ []) nothing

-- A publication against the wrong revision.
second-refused : activate access owner undisturbed "" ("readers" ∷ []) disk ≡ (disk, err conflict)
unfolding activate load size lookup valid_digest
second-refused = refl

abbrev begun : Controller access owner
begun = record { disk = disk; active = some served; readers = 0; leases = [] }

-- Another process fails to publish while a lease is held.
abbrev leased : Controller access owner
leased = record (acquire access owner calm begun).0 {
  disk = (activate access owner undisturbed "" ("readers" ∷ []) disk).0;
}

begun-new : new_controller access owner calm disk ≡ ok begun
unfolding new_controller load size lookup valid_digest
begun-new = refl

Reach-IsServing_example : IsServing access owner leased
unfolding acquire
Reach-IsServing_example = Reach-IsServing access owner leased (
    later _ _ (later _ _ (started_with calm disk begun begun-new) (acquired calm begun))
      (elsewhere undisturbed "" ("readers" ∷ []) (acquire access owner calm begun).0))

one-held : (acquire access owner calm begun).1 ≡ ok 0
unfolding acquire
one-held = refl
