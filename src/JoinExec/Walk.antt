-- ===== src/JoinExec/Walk.antt =====
-- pkg/joinexec/walk.go: the walk over a document, which finds what it reads.
pub mod Found
pub mod Steps
pub mod Admission
use openvaultdb_go.Base.{
  ℕ, ◌+◌, String, List, [], ◌∷◌, Bool, true, false, not, ◌&&◌, ◌||◌, ◌==◌, leb, if◌then◌else◌,
  Result, ok, err, ◌>>=◌, ◌>>◌, require, map, ℤ, pos, negsuc, ◌+ℤ◌, eqb_ℤ,
}
use openvaultdb_go.JoinExec.Query.{
  Query, From, Source, Joins, Condition, Conditions, Expression, Expressions, Orders, Columns,
  no_query, select, no_from, from_source, no_source, collection, derived, unknown_source, no_joins,
  join, no_condition, comparison, group, is_null, exists, unknown_condition, no_conditions,
  condition, field, constant, param, star, binary, aggregate, subquery, unknown_expression,
  no_expressions, expression, no_orders, nil_order, order, no_columns, column, bare_column,
}
use openvaultdb_go.JoinExec.Names.{
  Unicode, is_field_name, is_native_field_name, is_identifier, is_aggregate, is_arithmetic,
}
use openvaultdb_go.JoinExec.Walker.{
  Refusal, query_required, source_required, order_required, expression_required, condition_required,
  join_source_required, subqueries_too_deep, relations_too_deep, unsupported_source,
  unsupported_condition, unsupported_expression, not_root_collection, bad_field_name,
  bad_identifier, bad_qualifier, duplicate_output, invalid_param, unbound_param, bad_operator,
  bad_aggregate, profile_subqueries, profile_sources, WalkedSource, Document, Walker, Calls,
  max_walk_depth, contains, note_subquery, note_null, note_scope, note_field, note_identifier,
  note_qualifier, if_given, leveled, output_name, bare_name, name_free, with_name, note_wildcard,
  bare_allowed, collection_id, note_collection,
}

module _ (C : Calls) where
  open C use {valid_param_name}

  unfoldable mutual
    unfolding collection_id note_collection note_wildcard bare_allowed output_name bare_name
        name_free with_name

    pub walk_query : Query → ℕ → Walker → Result Refusal Walker
    walk_query no_query depth w = err query_required
    walk_query (select from where_clause group_by having order_by columns) depth w = do
      require (leb depth max_walk_depth) subqueries_too_deep
      w₁ ← walk_from from depth w
      w₂ ← walk_condition where_clause depth w₁
      w₃ ← walk_expressions group_by depth w₂
      w₄ ← walk_condition having depth w₃
      w₅ ← walk_orders order_by depth w₄
      walk_columns columns [] depth w₅

    -- With the output names of the columns before.
    pub walk_columns : Columns → List String → ℕ → Walker → Result Refusal Walker
    walk_columns no_columns names depth w = ok w
    walk_columns (column alias wildcard e rest) names depth w = do
      w₁ ← walk_expression e depth (note_wildcard wildcard (if_given note_identifier alias w))
      require (name_free (output_name C alias wildcard e) names) duplicate_output
      walk_columns rest (with_name (output_name C alias wildcard e) names) depth w₁
    walk_columns (bare_column alias wildcard rest) names depth w = do
      require (bare_allowed wildcard) expression_required
      require (name_free (bare_name alias wildcard) names) duplicate_output
      walk_columns rest (with_name (bare_name alias wildcard) names) depth
          (note_wildcard wildcard (if_given note_identifier alias w))

    pub walk_from : From → ℕ → Walker → Result Refusal Walker
    walk_from no_from depth w = do
      require (leb depth max_walk_depth) relations_too_deep
      err source_required
    walk_from (from_source base joins) depth w = do
      require (leb depth max_walk_depth) relations_too_deep
      w₁ ← walk_source base depth w
      walk_joins joins depth w₁

    -- A join of one source is walked as the relation tree `dal.From(source)`, without joins.
    pub walk_joins : Joins → ℕ → Walker → Result Refusal Walker
    walk_joins no_joins depth w = ok w
    walk_joins (join no_from no_source on rest) depth w = err join_source_required
    walk_joins (join no_from s on rest) depth w = do
      require (leb (depth + 1) max_walk_depth) relations_too_deep
      w₁ ← walk_source s (depth + 1) w
      w₂ ← walk_on on depth w₁
      walk_joins rest depth w₂
    walk_joins (join tree s on rest) depth w = do
      w₁ ← walk_from tree (depth + 1) w
      w₂ ← walk_on on depth w₁
      walk_joins rest depth w₂

    pub walk_source : Source → ℕ → Walker → Result Refusal Walker
    walk_source no_source depth w = err source_required
    walk_source (collection ref scan) depth w = do
      require (not ref.has_parent) not_root_collection
      id ← collection_id C ref
      walk_orders scan depth (note_collection ref scan id w)
    walk_source (derived q alias) depth w =
        walk_query q (depth + 1) (note_scope alias (note_identifier alias (note_subquery w)))
    walk_source unknown_source depth w = err unsupported_source

    -- The ON conditions of a join, which may be nil.
    pub walk_on : Conditions → ℕ → Walker → Result Refusal Walker
    walk_on no_conditions depth w = ok w
    walk_on (condition c rest) depth w = do w₁ ← walk_condition c depth w; walk_on rest depth w₁

    -- The conditions of a group, which may not.
    pub walk_group : Conditions → ℕ → Walker → Result Refusal Walker
    walk_group no_conditions depth w = ok w
    walk_group (condition no_condition rest) depth w = err condition_required
    walk_group (condition c rest) depth w = do
      w₁ ← walk_condition c depth w
      walk_group rest depth w₁

    pub walk_condition : Condition → ℕ → Walker → Result Refusal Walker
    walk_condition no_condition depth w = ok w
    walk_condition (comparison l op r) depth w =
        leveled (λ v. do w₁ ← walk_expression l depth v; walk_expression r depth w₁) w
    walk_condition (group op cs) depth w = leveled (λ v. walk_group cs depth v) w
    walk_condition (is_null negated e) depth w =
        leveled (λ v. walk_expression e depth (note_null v)) w
    walk_condition (exists negated q) depth w =
        leveled (λ v. walk_query q (depth + 1) (note_subquery v)) w
    walk_condition unknown_condition depth w = leveled (λ v. err unsupported_condition) w

    pub walk_expression : Expression → ℕ → Walker → Result Refusal Walker
    walk_expression (field source name) depth w =
        leveled (λ v. ok (if_given note_qualifier source (note_field name v))) w
    walk_expression constant depth w = leveled ok w
    walk_expression (param name) depth w =
        leveled (λ v. err (if valid_param_name name then unbound_param else invalid_param)) w
    walk_expression star depth w = leveled ok w
    walk_expression (binary l op r) depth w =
        leveled
          (λ v. do
            require (is_arithmetic op) bad_operator
            w₁ ← walk_expression l depth v
            walk_expression r depth w₁)
          w
    walk_expression (aggregate name args) depth w =
        leveled (λ v. do require (is_aggregate name) bad_aggregate; walk_expressions args depth v) w
    walk_expression (subquery q as_name) depth w =
        leveled (λ v. walk_query q (depth + 1) (if_given note_identifier as_name (note_subquery v)))
          w
    walk_expression unknown_expression depth w = leveled (λ v. err unsupported_expression) w

    pub walk_expressions : Expressions → ℕ → Walker → Result Refusal Walker
    walk_expressions no_expressions depth w = ok w
    walk_expressions (expression e rest) depth w = do
      w₁ ← walk_expression e depth w
      walk_expressions rest depth w₁

    pub walk_orders : Orders → ℕ → Walker → Result Refusal Walker
    walk_orders no_orders depth w = ok w
    walk_orders (nil_order rest) depth w = err order_required
    walk_orders (order descending e rest) depth w = do
      w₁ ← walk_expression e depth w
      walk_orders rest depth w₁
