-- ===== src/JoinExec/Walk/Admission.antt =====
-- pkg/joinexec/walk.go: the walk accepts exactly the documents of the known shapes within its bounds, and
-- notes what stands in them, in order.
use openvaultdb_go.Base.{ℕ, ◌+◌, String, List, [], ◌∷◌, ◌++◌, refl}
use openvaultdb_go.JoinExec.Query.{
  Query, From, Source, Joins, Condition, Conditions, Expression, Expressions, Orders, Columns,
  no_query, select, no_from, from_source, no_source, collection, derived, unknown_source, no_joins,
  join, no_condition, comparison, group, is_null, exists, unknown_condition, no_conditions,
  condition, field, constant, param, star, binary, aggregate, subquery, unknown_expression,
  no_expressions, expression, no_orders, nil_order, order, no_columns, column, bare_column,
}
use openvaultdb_go.JoinExec.Walker.{
  Calls, note_null, note_subquery, note_scope, note_field, note_identifier, if_given, output_name,
  bare_name, with_name, note_wildcard, collection_id, note_collection,
}
use openvaultdb_go.JoinExec.Walk.{
  walk_query, walk_columns, walk_from, walk_joins, walk_source, walk_on, walk_group, walk_condition,
  walk_expression, walk_expressions, walk_orders,
}
use openvaultdb_go.JoinExec.Walk.Found.{
  subquery_found, null_found, in_scope, field_named, identified, qualified, given, column_items,
  collection_items, items, columns_items, from_items, joins_items, source_items, conditions_items,
  condition_items, expression_items, expressions_items, orders_items, fits, fits_columns, fits_from,
  fits_joins, fits_source, fits_on, fits_group, fits_condition, fits_expression, fits_expressions,
  fits_orders,
}
use openvaultdb_go.JoinExec.Walk.Steps.{
  Walks, Walks-done, Walks-stop, Walks-then, Walks-require, Walks-noted, Walks-level, Walks-leaf,
  Walks-refused, Walks-none, Walks-id, given_lem, column_noted, collection_noted,
}

module _ (C : Calls) where
  mutual
    unfolding walk_query items fits

    pub walk_query-Walks : (q : Query) (d : ℕ) → Walks (walk_query C q d) (fits C d q) (items C q)
    walk_query-Walks no_query d = Walks-stop _ _
    walk_query-Walks (select from where_clause group_by having order_by columns) d =
        Walks-require _ _ (
          Walks-then (walk_from-Walks from d) (
            Walks-then (walk_condition-Walks where_clause d) (
              Walks-then (walk_expressions-Walks group_by d) (
                Walks-then (walk_condition-Walks having d)
                  (Walks-then (walk_orders-Walks order_by d) (walk_columns-Walks columns [] d))))))

    walk_columns-Walks :
        (cs : Columns) (names : List String) (d : ℕ)
        → Walks (walk_columns C cs names d) (fits_columns C d names cs) (columns_items C cs)
    walk_columns-Walks no_columns names d = Walks-done
    walk_columns-Walks (column alias wildcard e rest) names d =
        Walks-noted (λ w. note_wildcard wildcard (if_given note_identifier alias w))
          (column_items alias wildcard) (column_noted alias wildcard)
          (Walks-then (walk_expression-Walks e d) (
            Walks-require _ _
              (walk_columns-Walks rest (with_name (output_name C alias wildcard e) names) d)))
    walk_columns-Walks (bare_column alias wildcard rest) names d = Walks-require _ _ (
        Walks-require _ _ (
          Walks-noted (λ w. note_wildcard wildcard (if_given note_identifier alias w))
            (column_items alias wildcard) (column_noted alias wildcard)
            (walk_columns-Walks rest (with_name (bare_name alias wildcard) names) d)))

    walk_from-Walks :
        (f : From) (d : ℕ) → Walks (walk_from C f d) (fits_from C d f) (from_items C f)
    walk_from-Walks no_from d = Walks-none _ _ _
    walk_from-Walks (from_source base joins) d =
        Walks-require _ _ (Walks-then (walk_source-Walks base d) (walk_joins-Walks joins d))

    walk_joins-Walks :
        (js : Joins) (d : ℕ) → Walks (walk_joins C js d) (fits_joins C d js) (joins_items C js)
    walk_joins-Walks no_joins d = Walks-done
    walk_joins-Walks (join no_from no_source on rest) d = Walks-stop _ _
    walk_joins-Walks (join no_from (collection ref scan) on rest) d = Walks-require _ _ (
        Walks-then (walk_source-Walks (collection ref scan) (d + 1))
          (Walks-then (walk_on-Walks on d) (walk_joins-Walks rest d)))
    walk_joins-Walks (join no_from (derived q alias) on rest) d = Walks-require _ _ (
        Walks-then (walk_source-Walks (derived q alias) (d + 1))
          (Walks-then (walk_on-Walks on d) (walk_joins-Walks rest d)))
    walk_joins-Walks (join no_from unknown_source on rest) d = Walks-require _ _ (
        Walks-then (walk_source-Walks unknown_source (d + 1))
          (Walks-then (walk_on-Walks on d) (walk_joins-Walks rest d)))
    walk_joins-Walks (join (from_source base joins) s on rest) d =
        Walks-then (walk_from-Walks (from_source base joins) (d + 1))
          (Walks-then (walk_on-Walks on d) (walk_joins-Walks rest d))

    walk_source-Walks :
        (s : Source) (d : ℕ) → Walks (walk_source C s d) (fits_source C d s) (source_items C s)
    walk_source-Walks no_source d = Walks-stop _ _
    walk_source-Walks (collection ref scan) d = Walks-require _ _ (
        Walks-id (collection_id C ref)
          (λ id w. walk_orders C scan d (note_collection ref scan id w)) (fits_orders C d scan)
          (λ id. collection_items ref scan id ++ orders_items C scan)
          (λ id.
            Walks-noted (note_collection ref scan id) (collection_items ref scan id)
              (collection_noted ref scan id) (walk_orders-Walks scan d)))
    walk_source-Walks (derived q alias) d =
        Walks-noted (λ w. note_scope alias (note_identifier alias (note_subquery w)))
          (subquery_found ∷ identified alias ∷ in_scope alias ∷ []) (λ w. refl)
          (walk_query-Walks q (d + 1))
    walk_source-Walks unknown_source d = Walks-stop _ _

    walk_on-Walks :
        (cs : Conditions) (d : ℕ) → Walks (walk_on C cs d) (fits_on C d cs) (conditions_items C cs)
    walk_on-Walks no_conditions d = Walks-done
    walk_on-Walks (condition c rest) d =
        Walks-then (walk_condition-Walks c d) (walk_on-Walks rest d)

    walk_group-Walks :
        (cs : Conditions) (d : ℕ)
        → Walks (walk_group C cs d) (fits_group C d cs) (conditions_items C cs)
    walk_group-Walks no_conditions d = Walks-done
    walk_group-Walks (condition no_condition rest) d = Walks-stop _ _
    walk_group-Walks (condition (comparison l op r) rest) d =
        Walks-then (walk_condition-Walks (comparison l op r) d) (walk_group-Walks rest d)
    walk_group-Walks (condition (group op cs) rest) d =
        Walks-then (walk_condition-Walks (group op cs) d) (walk_group-Walks rest d)
    walk_group-Walks (condition (is_null negated e) rest) d =
        Walks-then (walk_condition-Walks (is_null negated e) d) (walk_group-Walks rest d)
    walk_group-Walks (condition (exists negated q) rest) d =
        Walks-then (walk_condition-Walks (exists negated q) d) (walk_group-Walks rest d)
    walk_group-Walks (condition unknown_condition rest) d =
        Walks-then (walk_condition-Walks unknown_condition d) (walk_group-Walks rest d)

    walk_condition-Walks :
        (c : Condition) (d : ℕ)
        → Walks (walk_condition C c d) (fits_condition C d c) (condition_items C c)
    walk_condition-Walks no_condition d = Walks-done
    walk_condition-Walks (comparison l op r) d =
        Walks-level (Walks-then (walk_expression-Walks l d) (walk_expression-Walks r d))
    walk_condition-Walks (group op cs) d = Walks-level (walk_group-Walks cs d)
    walk_condition-Walks (is_null negated e) d =
        Walks-level
          (Walks-noted note_null (null_found ∷ []) (λ w. refl) (walk_expression-Walks e d))
    walk_condition-Walks (exists negated q) d =
        Walks-level
          (Walks-noted note_subquery (subquery_found ∷ []) (λ w. refl) (walk_query-Walks q (d + 1)))
    walk_condition-Walks unknown_condition d = Walks-refused _

    walk_expression-Walks :
        (e : Expression) (d : ℕ)
        → Walks (walk_expression C e d) (fits_expression C d e) (expression_items C e)
    walk_expression-Walks (field source name) d =
        Walks-leaf _ (field_named name ∷ given qualified source)
          (λ w. given_lem qualified source (note_field name w))
    walk_expression-Walks constant d = Walks-leaf (λ w. w) [] (λ w. refl)
    walk_expression-Walks (param name) d = Walks-refused _
    walk_expression-Walks star d = Walks-leaf (λ w. w) [] (λ w. refl)
    walk_expression-Walks (binary l op r) d =
        Walks-level
          (Walks-require _ _ (Walks-then (walk_expression-Walks l d) (walk_expression-Walks r d)))
    walk_expression-Walks (aggregate name args) d =
        Walks-level (Walks-require _ _ (walk_expressions-Walks args d))
    walk_expression-Walks (subquery q as_name) d = Walks-level (
        Walks-noted (λ w. if_given note_identifier as_name (note_subquery w))
          (subquery_found ∷ given identified as_name)
          (λ w. given_lem identified as_name (note_subquery w)) (walk_query-Walks q (d + 1)))
    walk_expression-Walks unknown_expression d = Walks-refused _

    walk_expressions-Walks :
        (es : Expressions) (d : ℕ)
        → Walks (walk_expressions C es d) (fits_expressions C d es) (expressions_items C es)
    walk_expressions-Walks no_expressions d = Walks-done
    walk_expressions-Walks (expression e rest) d =
        Walks-then (walk_expression-Walks e d) (walk_expressions-Walks rest d)

    walk_orders-Walks :
        (os : Orders) (d : ℕ) → Walks (walk_orders C os d) (fits_orders C d os) (orders_items C os)
    walk_orders-Walks no_orders d = Walks-done
    walk_orders-Walks (nil_order rest) d = Walks-stop _ _
    walk_orders-Walks (order descending e rest) d =
        Walks-then (walk_expression-Walks e d) (walk_orders-Walks rest d)
