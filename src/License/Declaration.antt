-- ===== src/License/Declaration.antt =====
-- pkg/license/declaration.go: the validation of a declaration. What `net/url` says is a parameter.
pub mod Atoms
pub mod Joined
use Prim.Native.Char.{Char, code}
use openvaultdb_go.Base.{
  ℕ, zero, suc, onto_first, ◌+◌, ◌*◌, String, List, [], ◌∷◌, length, Bool, true, false, not, ◌&&◌,
  ◌||◌, ◌==◌, bytes, ltb, leb, eqb, if◌then◌else◌, Result, ok, err, ◌>>=◌, ◌>>◌, require,
  trim_space,
}

pub data Profile : Type 0 where
  directory publisher : Profile
  other_profile : ℕ → Profile

pub data LicenseError : Type 0 where
  unknown_profile invalid_spdx no_terms bad_name bad_url bad_text legacy_extra : LicenseError
  no_server_identity conflicting too_large not_encodable : LicenseError

is_alphanumeric : ℕ → Bool
is_alphanumeric c =
    (leb b'A' c && leb c b'Z') || (leb b'a' c && leb c b'z') || (leb b'0' c && leb c b'9')

atom_rest : String → Bool
unfolding is_alphanumeric
atom_rest String.[] = true
atom_rest (String.◌∷◌ c s) =
    (is_alphanumeric (code c) || eqb (code c) b'.' || eqb (code c) b'+' || eqb (code c) b'-')
    && atom_rest s

-- `atomShape`, on a text that was found to have at most 64 bytes.
atom_shape : String → Bool
unfolding is_alphanumeric atom_rest
atom_shape String.[] = false
atom_shape (String.◌∷◌ c s) = is_alphanumeric (code c) && atom_rest s

abbrev pub known_atoms : List String
known_atoms =
    "0BSD" ∷ "AGPL-3.0-only" ∷ "Apache-2.0" ∷ "BSD-2-Clause" ∷ "BSD-3-Clause" ∷ "CC-BY-4.0"
    ∷ "CC-BY-SA-4.0" ∷ "CC0-1.0" ∷ "GPL-2.0-only" ∷ "GPL-3.0-only" ∷ "ISC" ∷ "LGPL-3.0-only" ∷ "MIT"
    ∷ "MPL-2.0" ∷ "ODC-By-1.0" ∷ "ODbL-1.0" ∷ "PDDL-1.0" ∷ "Unlicense" ∷ []

unfoldable pub holds : String → List String → Bool
holds s [] = false
holds s (w ∷ ws) = w == s || holds s ws

-- The loop over the atoms: each is known, and none was seen before.
unfoldable pub atoms_valid : List String → List String → Bool
unfolding holds
atoms_valid seen [] = true
atoms_valid seen (a ∷ atoms) =
    holds a known_atoms && not (holds a seen) && atoms_valid (a ∷ seen) atoms

is_directory : Profile → Bool
is_directory directory = true
is_directory _ = false

is_profile : Profile → Bool
is_profile (other_profile n) = false
is_profile _ = true

has_prefix : String → String → Bool
has_prefix String.[] s = true
has_prefix (String.◌∷◌ p ps) String.[] = false
has_prefix (String.◌∷◌ p ps) (String.◌∷◌ c s) = eqb (code p) (code c) && has_prefix ps s

-- The pieces between the separators; `skip` counts the characters left of the one being passed over.
pieces : String → ℕ → ℕ → String → List String
unfolding has_prefix
pieces sep more skip String.[] = "" ∷ []
pieces sep more (suc skip) (String.◌∷◌ c s) = pieces sep more skip s
pieces sep more zero (String.◌∷◌ c s) = elim (has_prefix sep (String.◌∷◌ c s)) [
  | true ↦ "" ∷ pieces sep more more s
  | false ↦ onto_first c (pieces sep more zero s)
]

-- `strings.Split(value, " AND ")`: the separator has 4 characters after its first.
unfoldable pub split_and : String → List String
unfolding pieces
split_and value = pieces " AND " 4 0 value

unfoldable pub validate_spdx : String → Profile → Result LicenseError (Unit {0})
unfolding atom_shape is_directory is_profile
validate_spdx value profile = do
  require (is_profile profile) unknown_profile
  require
      (leb (bytes value) 64
        && ((atom_shape value && (is_directory profile || holds value known_atoms))
            || (leb 2 (length (split_and value))
                && leb (length (split_and value)) 4
                && atoms_valid [] (split_and value))))
      invalid_spdx

pub record Declaration : Type 0 where
  pub name : String
  pub spdx : String
  pub url : String
  pub text : String
  pub legacy : Bool

unfoldable pub normalized : Declaration → Declaration
normalized d = record d { legacy = false }

-- `unicode.IsControl`.
is_control : Char → Bool
is_control c = ltb (code c) 0x20 || (leb 0x7f (code c) && ltb (code c) 0xa0)

no_control : Bool → String → Bool
unfolding is_control
no_control multiline String.[] = true
no_control multiline (String.◌∷◌ c s) =
    not (
      is_control c
      && (not multiline
          || (not (eqb (code c) 10) && not (eqb (code c) 13) && not (eqb (code c) 9))))
    && no_control multiline s

unfoldable pub bounded_text : String → ℕ → Bool → Bool
unfolding no_control
bounded_text value bound multiline =
    leb (bytes value) bound && not (trim_space value == "") && no_control multiline value

no_blank : String → Bool
no_blank String.[] = true
no_blank (String.◌∷◌ c s) =
    not (
      eqb (code c) b'\\' || eqb (code c) 32 || eqb (code c) 9 || eqb (code c) 13 || eqb (code c) 10)
    && no_blank s

-- `ValidateURL`; `https_url` is what `url.Parse` says: absolute, HTTPS, a host, no user.
unfoldable pub validate_url : (String → Bool) → String → Result LicenseError (Unit {0})
unfolding no_blank
validate_url https_url value = do
  require (bounded_text value 2048 false && trim_space value == value && no_blank value) bad_url
  require (https_url value) bad_url

present : String → Bool
present s = not (s == "")

unfoldable pub validate : (String → Bool) → Profile → Declaration → Result LicenseError (Unit {0})
unfolding present
validate https_url profile d = do
  require (present d.spdx || present d.url || present d.text) no_terms
  require (not (present d.name) || bounded_text d.name 256 false) bad_name
  if present d.spdx then validate_spdx d.spdx profile else ok tt
  if present d.url then validate_url https_url d.url else ok tt
  require (not (present d.text) || bounded_text d.text 65536 true) bad_text
  require (not (d.legacy && (present d.name || present d.url || present d.text))) legacy_extra
