-- ===== src/JoinExec/Inspect.antt =====
-- pkg/joinexec/walk.go: what is found in a document, the checks of its names, and the check of the
-- profile that comes with it.
pub mod Gathering
pub mod Admission
pub mod Profiles
use openvaultdb_go.Base.{
  ℕ, ◌+◌, String, List, [], ◌∷◌, Bool, true, false, not, ◌&&◌, ◌||◌, ◌==◌, leb, if◌then◌else◌,
  Result, ok, err, ◌>>=◌, ◌>>◌, require, map, ℤ, pos, negsuc, ◌+ℤ◌, eqb_ℤ,
}
use openvaultdb_go.JoinExec.Query.{
  Query, From, Source, Joins, Condition, Conditions, Expression, Expressions, Orders, Columns,
  no_query, select, no_from, from_source, no_source, collection, derived, unknown_source, no_joins,
  join, no_condition, comparison, group, is_null, exists, unknown_condition, no_conditions,
  condition, field, constant, param, star, binary, aggregate, subquery, unknown_expression,
  no_expressions, expression, no_orders, nil_order, order, no_columns, column, bare_column,
}
use openvaultdb_go.JoinExec.Names.{
  Unicode, is_field_name, is_native_field_name, is_identifier, is_aggregate, is_arithmetic,
}
use openvaultdb_go.JoinExec.Walker.{
  Refusal, query_required, source_required, order_required, expression_required, condition_required,
  join_source_required, subqueries_too_deep, relations_too_deep, unsupported_source,
  unsupported_condition, unsupported_expression, not_root_collection, bad_field_name,
  bad_identifier, bad_qualifier, duplicate_output, invalid_param, unbound_param, bad_operator,
  bad_aggregate, profile_subqueries, profile_sources, WalkedSource, Document, Walker, Calls,
  max_walk_depth, contains, note_subquery, note_null, note_scope, note_field, note_identifier,
  note_qualifier, if_given, left, enter, output_name, bare_name, name_free, with_name,
  note_wildcard, bare_allowed, collection_id, note_collection,
}
use openvaultdb_go.JoinExec.Walk.{walk_query}

-- A walk starts with nothing found.
abbrev pub new_walker : Walker
new_walker = record {
  doc = record { sources = []; has_subquery = false; has_null = false };
  scope = [];
  fields = [];
  identifiers = [];
  qualifiers = [];
  nest = 0;
}

unfoldable pub check_identifiers : List String → Result Refusal (Unit {0})
check_identifiers [] = ok tt
check_identifiers (i ∷ is) = require (is_identifier i) bad_identifier >> check_identifiers is

unfoldable pub check_qualifiers : List String → List String → Result Refusal (Unit {0})
check_qualifiers scope [] = ok tt
check_qualifiers scope (q ∷ qs) = do
  require (contains scope q || is_identifier q) bad_qualifier
  check_qualifiers scope qs

module _ (U : Unicode) (native : Bool) where
  unfoldable pub check_fields : List String → Result Refusal (Unit {0})
  check_fields [] = ok tt
  check_fields (f ∷ fs) = do
    require (is_field_name U f || (native && is_native_field_name U f)) bad_field_name
    check_fields fs

  unfoldable pub check_names : Walker → Result Refusal (Unit {0})
  unfolding check_fields check_identifiers check_qualifiers
  check_names w = do
    check_fields w.fields
    check_identifiers w.identifiers
    check_qualifiers w.scope w.qualifiers

module _ (C : Calls) (U : Unicode) (native : Bool) where
  -- `inspectWithNativePostgresFields`; `inspect` is the case without the native rule.
  unfoldable pub inspect : Query → Result Refusal Document
  unfolding walk_query check_names
  inspect q = do w ← walk_query C q 0 new_walker; check_names U native w; ok w.doc

-- What a classifier claims that a document reads.
pub record Profile : Type 0 where
  pub sources : List (String × String)
  pub has_subquery : Bool

-- The map `counts`: a key that is not there counts 0.
unfoldable pub bump :
    String × String → ℤ → List ((String × String) × ℤ) → List ((String × String) × ℤ)
bump (d, c) by [] = ((d, c), by) ∷ []
bump (d, c) by (((e, f), n) ∷ rest) =
    if d == e && c == f then ((e, f), n +ℤ by) ∷ rest else ((e, f), n) ∷ bump (d, c) by rest

unfoldable pub bump_all :
    ℤ → List (String × String) → List ((String × String) × ℤ) → List ((String × String) × ℤ)
unfolding bump
bump_all by [] counts = counts
bump_all by (k ∷ ks) counts = bump_all by ks (bump k by counts)

unfoldable pub all_zero : List ((String × String) × ℤ) → Bool
all_zero [] = true
all_zero ((k, n) ∷ rest) = eqb_ℤ n (pos 0) && all_zero rest

abbrev pub source_key : WalkedSource → String × String
source_key s = (s.database, s.collection)

abbrev same_flag : Bool → Bool → Bool
same_flag true b = b
same_flag false b = not b

unfoldable pub check_profile : Document → Profile → Result Refusal (Unit {0})
unfolding bump_all all_zero
check_profile doc profile = do
  require (same_flag profile.has_subquery doc.has_subquery) profile_subqueries
  require
      (all_zero
        (bump_all (negsuc 0) profile.sources (bump_all (pos 1) (map source_key doc.sources) [])))
      profile_sources
