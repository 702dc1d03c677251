-- ===== src/License/Rights.antt =====
-- pkg/license/rights.go: the right that applies to a source, and the inventory of a response.
-- `encode` and `encode_all` are `json.Marshal`, none when it fails; `path_escape` is `url.PathEscape`.
pub mod Collected
pub mod Inventory
pub mod Overrides
use Prim.Native.String.{compare}
use Prim.Native.Nat.{Ordering}
use openvaultdb_go.Base.{
  bytes, ℕ, ◌+◌, ◌*◌, String, List, [], ◌∷◌, length, Bool, true, false, not, ◌&&◌, ◌==◌, ltb,
  if◌then◌else◌, Option, none, some, Result, ok, err, ◌>>=◌, ◌>>◌, require, ◌⊕◌, lookup, insert,
}
use openvaultdb_go.License.Declaration.{
  Declaration, LicenseError, no_server_identity, conflicting, too_large, not_encodable, directory,
  validate, normalized,
}

abbrev pub max_evidence_bytes : ℕ
max_evidence_bytes = 256 * 1024

pub data Scope : Type 0 where
  server_scope database_scope recordset_scope : Scope

pub record Identity : Type 0 where
  pub server_id : String
  pub database_id : String
  pub recordset : String

pub record Pin : Type 0 where
  pub role : String
  pub repository : String
  pub revision : String
  pub path : String
  pub sha256 : String
  pub size : ℕ

pub record Notice : Type 0 where
  pub text : String
  pub url : String

-- What verified publisher metadata adds is carried along as it is.
pub record SourceRight (Html : Type 0) : Type 0 where
  pub source_id : String
  pub source : Identity
  pub declaration : Declaration
  pub declaration_scope : Scope
  pub declared_at : Identity
  pub evidence_origin : String
  pub pins : List Pin
  pub attribution : Option Notice
  pub free_source : Option Notice
  pub transformations : List String
  pub publisher_html_definition : Option Html

unfoldable pub source_id_of : (String → String) → Identity → String
source_id_of path_escape i =
    "ovdb:"
    ⊕ path_escape i.server_id
    ⊕ "/"
    ⊕ path_escape i.database_id
    ⊕ "/"
    ⊕ path_escape i.recordset

unfoldable pub validate_each :
    (String → Bool) → List (Option Declaration) → Result LicenseError (Unit {0})
validate_each https_url [] = ok tt
validate_each https_url (none ∷ ds) = validate_each https_url ds
validate_each https_url (some d ∷ ds) = validate https_url directory d >> validate_each https_url ds

-- The declaration that applies, where it stands, and its scope: each level overrides the one above.
abbrev pub Choice : Type 0
Choice = Option Declaration × Scope × Identity

override : Bool → Option Declaration → Scope → Identity → Choice → Choice
override applies none scope at choice = choice
override applies (some d) scope at choice = if applies then (some d, scope, at) else choice

unfoldable pub chosen :
    Identity → Option Declaration → Option Declaration → Option Declaration → Choice
unfolding override
chosen source server database recordset =
    override (not (source.recordset == "")) recordset recordset_scope source (
      override (not (source.database_id == "")) database database_scope
        (record { server_id = source.server_id; database_id = source.database_id; recordset = "" })
        (
          server,
          server_scope,
          record { server_id = source.server_id; database_id = ""; recordset = "" },
        ))

right_of : {Html : Type 0} → (String → String) → Identity → Choice → Option (SourceRight Html)
right_of path_escape source (none, scope, at) = none
right_of path_escape source (some d, scope, at) = some (record {
  source_id = source_id_of path_escape source;
  source = source;
  declaration = normalized d;
  declaration_scope = scope;
  declared_at = at;
  evidence_origin = if d.legacy then "legacy-metadata" else "server-declared";
  pins = [];
  attribution = none;
  free_source = none;
  transformations = [];
  publisher_html_definition = none;
})

unfoldable pub resolve :
    {Html : Type 0}
    → (String → String)
    → (String → Bool)
    → Identity
    → Option Declaration
    → Option Declaration
    → Option Declaration
    → Result LicenseError (Option (SourceRight Html))
unfolding right_of
resolve path_escape https_url source server database recordset = do
  require (not (source.server_id == "")) no_server_identity
  validate_each https_url (server ∷ database ∷ recordset ∷ [])
  ok (right_of path_escape source (chosen source server database recordset))

module _ {Html : Type 0} (encode : SourceRight Html → Option String)
    (encode_all : List (SourceRight Html) → Option String) where
  -- The encoding in the comparison, whose error is dropped.
  pub encoding : Option String → String
  encoding none = ""
  encoding (some text) = text

  same_right : SourceRight Html → SourceRight Html → Bool
  unfolding encoding
  same_right a b = encoding (encode a) == encoding (encode b)

  comma : List (String × SourceRight Html) → ℕ
  comma [] = 0
  comma (entry ∷ by_id) = 1

  pub or_not_encodable : Option String → Result LicenseError String
  or_not_encodable none = err not_encodable
  or_not_encodable (some text) = ok text

  -- The loop: the distinct rights so far, and the bytes that they take.
  unfoldable pub collect_rights :
      List (SourceRight Html)
      → List (String × SourceRight Html)
      → ℕ
      → Result LicenseError (List (String × SourceRight Html))
  unfolding same_right comma or_not_encodable
  collect_rights [] by_id used = ok by_id
  collect_rights (right ∷ rights) by_id used = elim (lookup right.source_id by_id) [
    | some prior ↦ do require (same_right prior right) conflicting; collect_rights rights by_id used
    | none ↦ do
      text ← or_not_encodable (encode right)
      require (not (ltb max_evidence_bytes (used + comma by_id + bytes text))) too_large
      collect_rights rights (insert right.source_id right by_id) (used + comma by_id + bytes text)
  ]

  abbrev before : String → String → Bool
  before a b = elim (compare a b) [ Ordering.lt ↦ true | _ ↦ false ]

  insert_sorted : SourceRight Html → List (SourceRight Html) → List (SourceRight Html)
  insert_sorted r [] = r ∷ []
  insert_sorted r (q ∷ qs) =
      if before r.source_id q.source_id then r ∷ q ∷ qs else q ∷ insert_sorted r qs

  unfoldable pub sorted_rights : List (String × SourceRight Html) → List (SourceRight Html)
  unfolding insert_sorted
  sorted_rights [] = []
  sorted_rights ((id, r) ∷ by_id) = insert_sorted r (sorted_rights by_id)

  unfoldable pub inventory :
      List (SourceRight Html) → Result LicenseError (List (SourceRight Html) × ℕ)
  inventory rights = do
    by_id ← collect_rights rights [] 2
    text ← or_not_encodable (encode_all (sorted_rights by_id))
    require (not (ltb max_evidence_bytes (bytes text))) too_large
    ok (sorted_rights by_id, bytes text)
