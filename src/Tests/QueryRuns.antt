-- ===== src/Tests/QueryRuns.antt =====
-- pkg/joinexec/walk.go at concrete documents.
use openvaultdb_go.Base.{
  pos, lookup, insert, String, [], ◌∷◌, map, true, false, none, ok, ◌≡◌, refl, ◌↔◌, split, bytes,
}
use openvaultdb_go.Core.Key.{validate_segment}
use openvaultdb_go.JoinExec.Query.{
  CollectionRef, Query, select, from_source, collection, no_joins, join, no_from, comparison,
  no_condition, condition, no_conditions, field, no_expressions, no_orders, order, column,
  no_columns, is_null,
}
use openvaultdb_go.Tests.Fixtures.{ascii}
use openvaultdb_go.JoinExec.Names.{is_collection_name, is_field_name, is_identifier}
use openvaultdb_go.JoinExec.Names.Agreement.{is_collection_name_iff}
use openvaultdb_go.JoinExec.Aliases.{resolve_query}
use openvaultdb_go.JoinExec.Aliases.Reads.{Reads}
use openvaultdb_go.JoinExec.Aliases.Resolved.{resolve_query-Reads}
use openvaultdb_go.JoinExec.Walker.{Calls, Document, contains, collection_id, enter}
use openvaultdb_go.JoinExec.Inspect.{Profile, inspect, source_key, check_profile}
use openvaultdb_go.JoinExec.Inspect.Admission.{Accepted, inspect_iff}
use openvaultdb_go.JoinExec.Inspect.Profiles.{count, check_profile_iff}

abbrev calls : Calls
calls = record {
  valid_param_name = λ name. true;
  aggregate_text = λ name args. name;
  native_collection_id = λ schema name. none;
}

abbrev table : String → String → CollectionRef
table name alias = record {
  database = "shop";
  schema = "";
  name = name;
  alias = alias;
  has_parent = false;
  scan_limit = pos 0;
}

-- The orders that are not paid, each with the name of its user.
abbrev unpaid : Query
unpaid =
    select
      (from_source (collection (table "users" "u") no_orders) (
        join no_from (collection (table "orders" "o") no_orders)
          (condition (comparison (field "u" "id") "==" (field "o" "user")) no_conditions) no_joins))
      (is_null false (field "o" "paid")) no_expressions no_condition no_orders
      (column "" none (field "u" "name") (column "number" none (field "o" "id") no_columns))

abbrev found : Document
found = record {
  sources =
      record { database = "shop"; collection = "users"; scan = false }
      ∷ record { database = "shop"; collection = "orders"; scan = false }
      ∷ [];
  has_subquery = false;
  has_null = true;
}

unpaid-found : inspect calls ascii false unpaid ≡ ok found
unfolding inspect is_field_name is_identifier bytes split contains collection_id is_collection_name
    enter
unpaid-found = refl

inspect_iff_example :
    (inspect calls ascii false unpaid ≡ ok found) ↔ Accepted calls ascii false unpaid found
inspect_iff_example = inspect_iff calls ascii false unpaid found

-- The classifier lists the sources in another order.
abbrev profile : Profile
profile = record { sources = ("shop", "orders") ∷ ("shop", "users") ∷ []; has_subquery = false }

check_profile_iff_example : (check_profile found profile ≡ ok tt) ↔ (
    (false ≡ false)
    × ((k : String × String) → count k profile.sources ≡ count k (map source_key found.sources)))
check_profile_iff_example = check_profile_iff found profile

profile-accepted : check_profile found profile ≡ ok tt
unfolding check_profile
profile-accepted = refl

is_collection_name_iff_example :
    (validate_segment "a/../b" ≡ ok tt) ↔ (is_collection_name "a/../b" ≡ true)
is_collection_name_iff_example = is_collection_name_iff "a/../b"

parent-refused : is_collection_name "a/../b" ≡ false
unfolding is_collection_name enter
parent-refused = refl

-- The number of the order is what `number` stands for.
abbrev by_number : Query
by_number =
    select (from_source (collection (table "orders" "o") no_orders) no_joins) no_condition
      no_expressions no_condition (order true (field "" "number") no_orders)
      (column "number" none (field "o" "id") no_columns)

by_number-resolved :
    resolve_query (λ q. false) by_number
    ≡ select
        (from_source (collection (table "orders" "o") no_orders) no_joins)
        no_condition
        no_expressions
        no_condition
        (order true (field "o" "id") no_orders)
        (column "number" none (field "o" "id") no_columns)
unfolding resolve_query lookup insert
by_number-resolved = refl

resolve_query-Reads_example :
    Reads (table "orders" "o") (resolve_query (λ q. false) by_number)
    ↔ Reads (table "orders" "o") by_number
resolve_query-Reads_example = resolve_query-Reads (table "orders" "o") (λ q. false) by_number
