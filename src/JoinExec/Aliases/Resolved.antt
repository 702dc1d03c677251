-- ===== src/JoinExec/Aliases/Resolved.antt =====
-- pkg/joinexec/aliases.go: replacing the aliases of a document changes nothing of what it reads.
use openvaultdb_go.Base.{Bool, true, false, ◌⊎◌, ◌↔◌}
use openvaultdb_go.JoinExec.Query.{
  CollectionRef, Query, From, Source, Joins, Condition, Conditions, Expression, Expressions, Orders,
  Columns, no_query, select, no_from, from_source, no_source, collection, derived, unknown_source,
  no_joins, join, no_condition, comparison, group, is_null, exists, unknown_condition,
  no_conditions, condition, field, constant, param, star, binary, aggregate, subquery,
  unknown_expression, no_expressions, expression, no_orders, nil_order, order, no_columns, column,
  bare_column,
}
use openvaultdb_go.JoinExec.Aliases.{
  Aliases, replace_in_expression, replace_in_condition, replace_in_conditions, replace_in_orders,
  replace_bare, replace_bare_orders, with_aliases, resolve_query, resolve_from, resolve_source,
  resolve_joins, resolve_condition, resolve_conditions, resolve_expression, resolve_expressions,
  resolve_orders, resolve_columns,
}
use openvaultdb_go.JoinExec.Aliases.Reads.{
  either, Reads, ReadsFrom, ReadsSource, ReadsJoins, ReadsCondition, ReadsConditions,
  ReadsExpression, ReadsExpressions, ReadsOrders, ReadsColumns,
}
use openvaultdb_go.JoinExec.Aliases.Replaced.{with_aliases-Reads}

both_iff : {P Q R S : Type 0} → P ↔ R → Q ↔ S → (P ⊎ Q) ↔ (R ⊎ S)
both_iff f g = (either f.0 g.0, either f.1 g.1)

module _ (c : CollectionRef) where
  -- A bare name reads nothing, so nothing is lost where it is replaced.
  replaced-keeps :
      (a : Aliases) (e : Expression)
      → ReadsExpression c e
      → ReadsExpression c (replace_in_expression a e)
  unfolding replace_in_expression Reads
  replaced-keeps a (field source name) h = absurd h
  replaced-keeps a (binary l op r) h = either (replaced-keeps a l) (replaced-keeps a r) h
  replaced-keeps a constant h = h
  replaced-keeps a (param name) h = h
  replaced-keeps a star h = h
  replaced-keeps a (aggregate name es) h = h
  replaced-keeps a (subquery q name) h = h
  replaced-keeps a unknown_expression h = h

  replaced_bare-keeps :
      (a : Aliases) (e : Expression) → ReadsExpression c e → ReadsExpression c (replace_bare a e)
  unfolding replace_bare Reads
  replaced_bare-keeps a (field source name) h = absurd h
  replaced_bare-keeps a (binary l op r) h = h
  replaced_bare-keeps a constant h = h
  replaced_bare-keeps a (param name) h = h
  replaced_bare-keeps a star h = h
  replaced_bare-keeps a (aggregate name es) h = h
  replaced_bare-keeps a (subquery q name) h = h
  replaced_bare-keeps a unknown_expression h = h

  mutual
    unfolding replace_in_condition Reads

    condition-keeps :
        (a : Aliases) (d : Condition)
        → ReadsCondition c d
        → ReadsCondition c (replace_in_condition a d)
    condition-keeps a (comparison l op r) h = either (replaced-keeps a l) (replaced-keeps a r) h
    condition-keeps a (group op cs) h = conditions-keeps a cs h
    condition-keeps a (is_null negated e) h = replaced-keeps a e h
    condition-keeps a (exists negated q) h = h
    condition-keeps a no_condition h = h
    condition-keeps a unknown_condition h = h

    conditions-keeps :
        (a : Aliases) (ds : Conditions)
        → ReadsConditions c ds
        → ReadsConditions c (replace_in_conditions a ds)
    conditions-keeps a no_conditions h = h
    conditions-keeps a (condition d ds) h = either (condition-keeps a d) (conditions-keeps a ds) h

  orders-keeps :
      (a : Aliases) (os : Orders) → ReadsOrders c os → ReadsOrders c (replace_in_orders a os)
  unfolding replace_in_orders Reads
  orders-keeps a no_orders h = h
  orders-keeps a (nil_order os) h = orders-keeps a os h
  orders-keeps a (order down e os) h = either (replaced-keeps a e) (orders-keeps a os) h

  bare_orders-keeps :
      (a : Aliases) (os : Orders) → ReadsOrders c os → ReadsOrders c (replace_bare_orders a os)
  unfolding replace_bare_orders Reads
  bare_orders-keeps a no_orders h = h
  bare_orders-keeps a (nil_order os) h = bare_orders-keeps a os h
  bare_orders-keeps a (order down e os) h =
      either (replaced_bare-keeps a e) (bare_orders-keeps a os) h

  with_aliases-keeps :
      (aggregates : Bool) (from : From) (filter : Condition) (groups : Expressions)
      (having : Condition) (orders : Orders) (cs : Columns)
      → Reads c (select from filter groups having orders cs)
      → Reads c (with_aliases aggregates from filter groups having orders cs)
  unfolding with_aliases Reads
  with_aliases-keeps true from filter groups having orders cs =
      either (λ x. x)
        (either (λ x. x)
          (either (λ x. x)
            (either (condition-keeps _ having) (either (orders-keeps _ orders) (λ x. x)))))
  with_aliases-keeps false from filter groups having orders cs =
      either (λ x. x)
        (either (λ x. x)
          (either (λ x. x) (either (λ x. x) (either (bare_orders-keeps _ orders) (λ x. x)))))

  module _ (has_aggregation : Query → Bool) where
    mutual
      unfolding resolve_query Reads

      query_iff : (q : Query) → Reads c (resolve_query has_aggregation q) ↔ Reads c q
      query_iff no_query = (λ h. h, λ h. h)
      query_iff (select from filter groups having orders columns) =
          let parts = both_iff (from_iff from) (
            both_iff (condition_iff filter) (
              both_iff (expressions_iff groups) (
                both_iff (condition_iff having)
                  (both_iff (orders_iff orders) (columns_iff columns))))) in
          (
            λ h. parts.0 (with_aliases-Reads c _ _ _ _ _ _ _ h),
            λ h. with_aliases-keeps _ _ _ _ _ _ _ (parts.1 h),
          )

      from_iff : (f : From) → ReadsFrom c (resolve_from has_aggregation f) ↔ ReadsFrom c f
      from_iff no_from = (λ h. h, λ h. h)
      from_iff (from_source base joins) = both_iff (source_iff base) (joins_iff joins)

      source_iff : (s : Source) → ReadsSource c (resolve_source has_aggregation s) ↔ ReadsSource c s
      source_iff no_source = (λ h. h, λ h. h)
      source_iff (collection ref os) = (λ h. h, λ h. h)
      source_iff (derived q alias) = query_iff q
      source_iff unknown_source = (λ h. h, λ h. h)

      joins_iff : (js : Joins) → ReadsJoins c (resolve_joins has_aggregation js) ↔ ReadsJoins c js
      joins_iff no_joins = (λ h. h, λ h. h)
      joins_iff (join from source on rest) =
          both_iff (from_iff from)
            (both_iff (source_iff source) (both_iff (conditions_iff on) (joins_iff rest)))

      condition_iff :
          (d : Condition)
          → ReadsCondition c (resolve_condition has_aggregation d) ↔ ReadsCondition c d
      condition_iff no_condition = (λ h. h, λ h. h)
      condition_iff (comparison l op r) = both_iff (expression_iff l) (expression_iff r)
      condition_iff (group op cs) = conditions_iff cs
      condition_iff (is_null negated e) = expression_iff e
      condition_iff (exists negated q) = query_iff q
      condition_iff unknown_condition = (λ h. h, λ h. h)

      conditions_iff :
          (ds : Conditions)
          → ReadsConditions c (resolve_conditions has_aggregation ds) ↔ ReadsConditions c ds
      conditions_iff no_conditions = (λ h. h, λ h. h)
      conditions_iff (condition d ds) = both_iff (condition_iff d) (conditions_iff ds)

      expression_iff :
          (e : Expression)
          → ReadsExpression c (resolve_expression has_aggregation e) ↔ ReadsExpression c e
      expression_iff (field source name) = (λ h. h, λ h. h)
      expression_iff constant = (λ h. h, λ h. h)
      expression_iff (param name) = (λ h. h, λ h. h)
      expression_iff star = (λ h. h, λ h. h)
      expression_iff (binary l op r) = both_iff (expression_iff l) (expression_iff r)
      expression_iff (aggregate name es) = (λ h. h, λ h. h)
      expression_iff (subquery q alias) = query_iff q
      expression_iff unknown_expression = (λ h. h, λ h. h)

      expressions_iff :
          (es : Expressions)
          → ReadsExpressions c (resolve_expressions has_aggregation es) ↔ ReadsExpressions c es
      expressions_iff no_expressions = (λ h. h, λ h. h)
      expressions_iff (expression e es) = both_iff (expression_iff e) (expressions_iff es)

      orders_iff :
          (os : Orders) → ReadsOrders c (resolve_orders has_aggregation os) ↔ ReadsOrders c os
      orders_iff no_orders = (λ h. h, λ h. h)
      orders_iff (nil_order os) = orders_iff os
      orders_iff (order down e os) = both_iff (expression_iff e) (orders_iff os)

      columns_iff :
          (cs : Columns) → ReadsColumns c (resolve_columns has_aggregation cs) ↔ ReadsColumns c cs
      columns_iff no_columns = (λ h. h, λ h. h)
      columns_iff (column alias w e rest) = both_iff (expression_iff e) (columns_iff rest)
      columns_iff (bare_column alias w rest) = columns_iff rest

    -- A document whose aliases were replaced reads the collections that the document read before,
    -- and no others, at every level of its subqueries.
    pub resolve_query-Reads : (q : Query) → Reads c (resolve_query has_aggregation q) ↔ Reads c q
    resolve_query-Reads q = query_iff q
