-- ===== src/Tests/LicenseRuns.antt =====
-- pkg/license at concrete inputs.
use openvaultdb_go.Base.{
  bytes, ◌≤◌, String, [], ◌∷◌, true, false, none, some, ok, ◌≡◌, refl, All, Memᴰ, lookup, insert,
}
use openvaultdb_go.License.Declaration.{
  Declaration, directory, holds, split_and, atoms_valid, validate_spdx, validate, normalized,
}
use openvaultdb_go.License.Declaration.Atoms.{IsExpression, validate_spdx-publisher}
use openvaultdb_go.License.Rights.{
  Identity, SourceRight, database_scope, validate_each, chosen, source_id_of, collect_rights,
  sorted_rights, resolve, inventory,
}
use openvaultdb_go.License.Rights.Collected.{StandsFor}
use openvaultdb_go.License.Rights.Inventory.{inventory_ok}
use openvaultdb_go.License.Rights.Overrides.{Governs, resolve_ok}

validate_spdx-publisher_example : (bytes "MIT AND ISC" ≤ 64) × IsExpression "MIT AND ISC"
unfolding validate_spdx bytes split_and atoms_valid holds
validate_spdx-publisher_example = validate_spdx-publisher "MIT AND ISC" refl

abbrev source : Identity
source = record { server_id = "s"; database_id = "db"; recordset = "" }

abbrev mit : Declaration
mit = record { name = ""; spdx = "MIT"; url = ""; text = ""; legacy = true }

abbrev isc : Declaration
isc = record { name = ""; spdx = "ISC"; url = ""; text = ""; legacy = false }

abbrev right : SourceRight String
right = record {
  source_id = "ovdb:s/db/";
  source = source;
  declaration = isc;
  declaration_scope = database_scope;
  declared_at = source;
  evidence_origin = "server-declared";
  pins = [];
  attribution = none;
  free_source = none;
  transformations = [];
  publisher_html_definition = none;
}

resolve_ok_example :
    (d : Declaration) × (validate (λ u. false) directory d ≡ ok tt)
    × (isc ≡ normalized d)
    × (source ≡ source)
    × Governs source (some mit) (some isc) none d database_scope source
unfolding resolve validate validate_each validate_spdx bytes chosen source_id_of normalized
resolve_ok_example = resolve_ok (λ t. t) (λ u. false) source (some mit) (some isc) none right refl

inventory_ok_example :
    ((text : String) × (some "[\"ovdb:s/db/\"]" ≡ some text)
      × (bytes text ≡ 14)
      × (bytes text ≤ 262144))
    × All
        (λ r.
          (q : SourceRight String) × Memᴰ q (right ∷ [])
          × StandsFor (λ r. some r.source_id) (λ rs. some "[\"ovdb:s/db/\"]") r q)
        (right ∷ right ∷ [])
    × All (λ q. Memᴰ q (right ∷ right ∷ [])) (right ∷ [])
unfolding inventory collect_rights lookup insert bytes sorted_rights
inventory_ok_example =
    inventory_ok (λ r. some r.source_id) (λ rs. some "[\"ovdb:s/db/\"]") (right ∷ right ∷ [])
      (right ∷ []) 14 refl
