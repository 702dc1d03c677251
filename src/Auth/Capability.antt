-- ===== src/Auth/Capability.antt =====
-- pkg/auth/auth.go: the capability strings of a grant, parsed and printed.
pub mod RoundTrip
pub mod Lists
use openvaultdb_go.Base.{
  ℕ, String, List, [], ◌∷◌, ◌++◌, map, Bool, true, false, not, ◌&&◌, ◌||◌, ◌==◌, if◌then◌else◌,
  Result, ok, err, ◌>>=◌, ◌>>◌, require, split, trim_space, ◌⊕◌,
}

abbrev cap_records_read : String
cap_records_read = "records:read"

abbrev cap_records_write : String
cap_records_write = "records:write"

abbrev cap_records_delete : String
cap_records_delete = "records:delete"

abbrev cap_collections_read : String
cap_collections_read = "collections:read"

abbrev cap_schema_read : String
cap_schema_read = "schema:read"

abbrev cap_databases_create : String
cap_databases_create = "databases:create"

-- The keys of `knownCapabilities`, each of which maps to true.
abbrev pub known_capabilities : List String
known_capabilities =
    cap_records_read ∷ cap_records_write ∷ cap_records_delete ∷ cap_collections_read
    ∷ cap_schema_read ∷ cap_databases_create ∷ "policies:discover" ∷ "policies:list"
    ∷ "policies:read" ∷ "policies:admin" ∷ "access:explain" ∷ "access:simulate"
    ∷ "access:diagnostics" ∷ "access:inspect-protected" ∷ []

pub contains : String → List String → Bool
contains s [] = false
contains s (x ∷ xs) = x == s || contains s xs

unfoldable pub is_known : String → Bool
unfolding contains
is_known action = contains action known_capabilities

-- `collection` is "" for all collections of the granted database.
pub record Capability : Type 0 where
  pub action : String
  pub collection : String

pub data CapabilityError : Type 0 where
  malformed unknown empty_scope none_given : CapabilityError

-- The three branches of `ParseCapability` on the parts between the colons.
parse_parts : List String → Result CapabilityError Capability
parse_parts (area ∷ verb ∷ []) = do
  require (is_known (area ⊕ ":" ⊕ verb)) unknown
  ok (record { action = area ⊕ ":" ⊕ verb; collection = "" })
parse_parts (area ∷ verb ∷ scope ∷ []) = do
  require (is_known (area ⊕ ":" ⊕ verb)) unknown
  require (not (scope == "")) empty_scope
  ok (record { action = area ⊕ ":" ⊕ verb; collection = scope })
parse_parts _ = err malformed

unfoldable pub parse_capability : String → Result CapabilityError Capability
unfolding parse_parts
parse_capability s = parse_parts (split ":" s)

-- One round of the loop of `ParseCapabilities`: a blank entry is skipped.
parse_entries : List String → Result CapabilityError (List Capability)
parse_entries [] = ok []
parse_entries (entry ∷ rest) =
    let s = trim_space entry in
    let others = parse_entries rest in
    if s == "" then others else do c ← parse_capability s; cs ← others; ok (c ∷ cs)

at_least_one : List Capability → Result CapabilityError (List Capability)
at_least_one [] = err none_given
at_least_one caps = ok caps

unfoldable pub parse_capabilities : String → Result CapabilityError (List Capability)
unfolding parse_entries at_least_one
parse_capabilities csv = do caps ← parse_entries (split "," csv); at_least_one caps

unfoldable pub to_string : Capability → String
to_string c = if c.collection == "" then c.action else c.action ⊕ ":" ⊕ c.collection
