-- ===== src/PolicyStore/Disk.antt =====
-- pkg/policystore/store.go: what lies under the root of a store, and what a call asks of the system.
-- A file's content is a text with one character for each byte.
use openvaultdb_go.Base.{
  ℕ, suc, String, code, List, [], ◌∷◌, Bool, true, false, ◌&&◌, ◌||◌, leb, eqb, Option, some,
  Result, ok, err, ◌>>◌, ◌≡◌, ◌≤◌,
}

pub record Owner : Type 0 where
  pub database : String
  pub realm : String
  pub enabled : Bool

pub record Document : Type 0 where
  pub id : String
  pub file : String
  pub revision : String

pub record Manifest : Type 0 where
  pub version : String
  pub owner : Owner
  pub documents : List Document

-- A directory below `generations`: its manifest and its other files, by their paths in it.
pub record Generation : Type 0 where
  pub manifest : Option String
  pub files : List (String × String)

-- The content of `active.json`, and the generations by name.
pub record Disk : Type 0 where
  pub active : Option String
  pub generations : List (String × Generation)

-- The places where a call of the system, a checkpoint or the context may end an operation.
pub data Point : Type 0 where
  started read_active read_manifest compile_policies stat_active stat_lock take_lock : Point
  before_document read_document write_body : String → Point
  make_generations stat_generations stat_destination make_stage make_policies : Point
  write_manifest sync_policies sync_stage generation_synced rename_stage sync_generations : Point
  take_read_lock : Point
  generation_published still_wanted create_pointer write_pointer sync_pointer close_pointer : Point
  pointer_synced wanted_at_last rename_pointer sync_root pointer_published : Point

pub data PolicyError : Type 0 where
  interrupted may_be_active : Point → PolicyError
  not_exist exceeds_limit noncanonical invalid_reference digest_mismatch invalid_manifest :
      PolicyError
  invalid_document document_mismatch invalid_policy identity_mismatch not_compiled : PolicyError
  bad_count invalid_expected conflict wrong_target unavailable : PolicyError

-- Which of the places end the operation.
abbrev pub Faults : Type 0
Faults = Point → Bool

abbrev pub pass : Faults → Point → Result PolicyError (Unit {0})
pass faults p = elim (faults p) [ true ↦ err (interrupted p) | false ↦ ok tt ]

unfoldable pub pass_all : Faults → List Point → Result PolicyError (Unit {0})
pass_all faults [] = ok tt
pass_all faults (p ∷ ps) = pass faults p >> pass_all faults ps

unfoldable pub size : String → ℕ
size String.[] = 0
size (String.◌∷◌ c s) = suc (size s)

unfoldable is_hex : String → Bool
is_hex String.[] = true
is_hex (String.◌∷◌ c s) =
    ((leb b'0' (code c) && leb (code c) b'9') || (leb b'a' (code c) && leb (code c) b'f'))
    && is_hex s

-- 64 hexadecimal digits, none of them in upper case.
unfoldable pub valid_digest : String → Bool
unfolding size is_hex
valid_digest value = eqb (size value) 64 && is_hex value

-- The packages `access` and `encoding/json`, and SHA-256: what the store uses of them.
pub record Access : Type 1 where
  pub Doc : Type 0
  pub Policy : Type 0
  pub target_database : Doc → String
  pub name : Doc → String
  pub marshal_policy : Doc → Option String
  pub parse_policy : String → Option Doc
  pub load_policies : Owner → List String → Option (List Policy)  -- of the files that were read
  pub encode_pointer : String → String
  pub decode_pointer : String → Option String
  pub encode_manifest : Manifest → String
  pub decode_manifest : String → Option Manifest
  pub digest : String → String
  pub decode-encode_pointer : (s : String) → decode_pointer (encode_pointer s) ≡ some s
  pub size-encode_pointer : (s : String) → valid_digest s ≡ true → size (encode_pointer s) ≤ 4096

pub record Snapshot (Policy : Type 0) : Type 0 where
  pub revision : String
  pub owner : Owner
  pub documents : List Document
  pub policies : List Policy
