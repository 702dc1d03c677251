-- ===== src/PolicyStore/Load.antt =====
-- pkg/policystore/store.go: `Load` verifies the selected manifest and every document before the
-- policies are compiled.
use openvaultdb_go.Base.{
  ℕ, ◌+◌, ◌*◌, ◌^◌, String, List, [], ◌∷◌, Bool, true, false, not, ◌&&◌, ◌||◌, ◌==◌, leb, eqb,
  length, ◌⊕◌, Option, none, some, Result, ok, err, ◌>>◌, ◌>>=◌, require, lookup,
}
use openvaultdb_go.PolicyStore.Disk.{
  Owner, Document, Manifest, Generation, Disk, Point, started, read_active, read_manifest,
  compile_policies, before_document, read_document, PolicyError, not_exist, exceeds_limit,
  noncanonical, invalid_reference, digest_mismatch, invalid_manifest, invalid_document,
  document_mismatch, invalid_policy, identity_mismatch, not_compiled, Faults, pass, Access,
  Snapshot, size, valid_digest,
}

abbrev pub max_generation_bytes : ℕ
max_generation_bytes = 16 * 2 ^ 20

abbrev pub max_document_bytes : ℕ
max_document_bytes = 2 ^ 20

abbrev pub max_policies : ℕ
max_policies = 100

abbrev pub format_version : String
format_version = "ovdb.policy-generation/v1"

abbrev pub or_err {ℓ} : {A : Type ℓ} → PolicyError → Option A → Result PolicyError A
or_err e none = err e
or_err e (some a) = ok a

-- `read`: the checks of the file system are the fault of the point.
unfoldable pub read_file : Faults → Point → ℕ → Option String → Result PolicyError String
read_file faults p limit content = do
  pass faults p
  text ← or_err not_exist content
  require (leb (size text) limit) exceeds_limit
  ok text

-- `strictJSON`: the text is the one encoding of what it says.
unfoldable pub strict_json {ℓ} :
    {A : Type ℓ} → (A → String) → (String → Option A) → String → Result PolicyError A
strict_json encode decode text = do
  value ← or_err noncanonical (decode text)
  require (encode value == text) noncanonical
  ok value

-- One flag for the comparison of two booleans.
abbrev same_flag : Bool → Bool → Bool
same_flag true b = b
same_flag false b = not b

unfoldable same_owner : Owner → Owner → Bool
same_owner o p = o.database == p.database && o.realm == p.realm && same_flag o.enabled p.enabled

unfoldable pub seen_before : String → List String → Bool
seen_before id [] = false
seen_before id (i ∷ is) = i == id || seen_before id is

abbrev pub document_path : String → String
document_path revision = "policies/" ⊕ revision ⊕ ".json"

unfoldable pub is_entry : Document → List String → Bool
unfolding seen_before
is_entry d seen =
    not (d.id == "")
    && not (seen_before d.id seen)
    && valid_digest d.revision
    && d.file == document_path d.revision

unfoldable pub manifest_of : Option Generation → Option String
manifest_of none = none
manifest_of (some g) = g.manifest

unfoldable pub file_of : Option Generation → String → Option String
file_of none path = none
file_of (some g) path = lookup path g.files

module _ (A : Access) (owner : Owner) where
  open A use {
    Policy, name, parse_policy, load_policies, encode_pointer, decode_pointer, encode_manifest,
    decode_manifest, digest,
  }

  -- The checks of a body that was read.
  unfoldable check_body : Document → ℕ → String → Result PolicyError String
  check_body d total body = do
    require (leb (total + size body) max_generation_bytes) exceeds_limit
    require (digest body == d.revision) document_mismatch
    doc ← or_err invalid_policy (parse_policy body)
    require (name doc == d.id) identity_mismatch
    ok body

  -- One turn of the loop over the entries of the manifest, with what was seen and the bytes so far.
  unfoldable pub read_entry :
      Faults → Option Generation → Document → List String → ℕ → Result PolicyError String
  unfolding is_entry read_file file_of check_body
  read_entry faults g d seen total = do
    pass faults (before_document d.id)
    require (is_entry d seen) invalid_document
    body ← read_file faults (read_document d.file) max_document_bytes (file_of g d.file)
    check_body d total body

  unfoldable pub load_documents :
      Faults
      → Option Generation
      → List Document
      → List String
      → ℕ
      → Result PolicyError (List String)
  unfolding read_entry
  load_documents faults g [] seen total = ok []
  load_documents faults g (d ∷ ds) seen total = do
    body ← read_entry faults g d seen total
    rest ← load_documents faults g ds (d.id ∷ seen) (total + size body)
    ok (body ∷ rest)

  -- The checks of a manifest that was read.
  unfoldable pub check_manifest : String → String → Result PolicyError Manifest
  unfolding strict_json same_owner
  check_manifest revision text = do
    require (digest text == revision) digest_mismatch
    m ← strict_json encode_manifest decode_manifest text
    require
        (m.version == format_version
          && same_owner m.owner owner
          && not (eqb (length m.documents) 0)
          && leb (length m.documents) max_policies)
        invalid_manifest
    ok m

  unfoldable pub load_generation : Faults → Disk → String → Result PolicyError (Snapshot Policy)
  unfolding load_documents read_file check_manifest manifest_of
  load_generation faults disk revision = do
    require (valid_digest revision) invalid_reference
    text ←
        read_file faults read_manifest max_generation_bytes
          (manifest_of (lookup revision disk.generations))
    m ← check_manifest revision text
    bodies ← load_documents faults (lookup revision disk.generations) m.documents [] (size text)
    pass faults compile_policies
    policies ← or_err not_compiled (load_policies owner bodies)
    ok (record {
      revision = revision;
      owner = m.owner;
      documents = m.documents;
      policies = policies;
    })

  unfoldable pub load : Faults → Disk → Result PolicyError (Snapshot Policy)
  unfolding read_file strict_json load_generation
  load faults disk = do
    pass faults started
    text ← read_file faults read_active 4096 disk.active
    revision ← strict_json encode_pointer decode_pointer text
    load_generation faults disk revision
