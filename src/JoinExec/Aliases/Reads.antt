-- ===== src/JoinExec/Aliases/Reads.antt =====
-- pkg/joinexec/aliases.go: the collections that a document reads.
use openvaultdb_go.Base.{◌≡◌, ◌⊎◌, inl, inr}
use openvaultdb_go.JoinExec.Query.{
  CollectionRef, Query, From, Source, Joins, Condition, Conditions, Expression, Expressions, Orders,
  Columns, no_query, select, no_from, from_source, collection, derived, no_joins, join, comparison,
  group, is_null, exists, no_conditions, condition, binary, aggregate, subquery, no_expressions,
  expression, no_orders, nil_order, order, no_columns, column, bare_column,
}

pub either : {P Q R S : Type 0} → (P → R) → (Q → S) → P ⊎ Q → R ⊎ S
either f g (inl p) = inl (f p)
either f g (inr q) = inr (g q)

module _ (c : CollectionRef) where
  -- The collection stands somewhere in the part of a document.
  unfoldable mutual
    pub Reads : Query → Type 0
    Reads no_query = ⊥
    Reads (select from filter groups having orders columns) =
        ReadsFrom from
        ⊎ (ReadsCondition filter
            ⊎ (ReadsExpressions groups
                ⊎ (ReadsCondition having ⊎ (ReadsOrders orders ⊎ ReadsColumns columns))))

    pub ReadsFrom : From → Type 0
    ReadsFrom no_from = ⊥
    ReadsFrom (from_source base joins) = ReadsSource base ⊎ ReadsJoins joins

    pub ReadsSource : Source → Type 0
    ReadsSource (collection ref orders) = (c ≡ ref) ⊎ ReadsOrders orders
    ReadsSource (derived q alias) = Reads q
    ReadsSource _ = ⊥

    pub ReadsJoins : Joins → Type 0
    ReadsJoins no_joins = ⊥
    ReadsJoins (join from source on rest) =
        ReadsFrom from ⊎ (ReadsSource source ⊎ (ReadsConditions on ⊎ ReadsJoins rest))

    pub ReadsCondition : Condition → Type 0
    ReadsCondition (comparison l op r) = ReadsExpression l ⊎ ReadsExpression r
    ReadsCondition (group op cs) = ReadsConditions cs
    ReadsCondition (is_null negated e) = ReadsExpression e
    ReadsCondition (exists negated q) = Reads q
    ReadsCondition _ = ⊥

    pub ReadsConditions : Conditions → Type 0
    ReadsConditions no_conditions = ⊥
    ReadsConditions (condition d cs) = ReadsCondition d ⊎ ReadsConditions cs

    pub ReadsExpression : Expression → Type 0
    ReadsExpression (binary l op r) = ReadsExpression l ⊎ ReadsExpression r
    ReadsExpression (aggregate name es) = ReadsExpressions es
    ReadsExpression (subquery q alias) = Reads q
    ReadsExpression _ = ⊥

    pub ReadsExpressions : Expressions → Type 0
    ReadsExpressions no_expressions = ⊥
    ReadsExpressions (expression e es) = ReadsExpression e ⊎ ReadsExpressions es

    pub ReadsOrders : Orders → Type 0
    ReadsOrders no_orders = ⊥
    ReadsOrders (nil_order os) = ReadsOrders os
    ReadsOrders (order down e os) = ReadsExpression e ⊎ ReadsOrders os

    pub ReadsColumns : Columns → Type 0
    ReadsColumns no_columns = ⊥
    ReadsColumns (column alias w e rest) = ReadsExpression e ⊎ ReadsColumns rest
    ReadsColumns (bare_column alias w rest) = ReadsColumns rest
