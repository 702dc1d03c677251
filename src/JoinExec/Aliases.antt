-- ===== src/JoinExec/Aliases.antt =====
-- pkg/joinexec/aliases.go: the aliases of columns are replaced, before a document runs, where the
-- evaluation would read them as columns. The flags that spare a copy are left out: a clause in which
-- nothing changes is built again as it was. The hints of a join are not part of the tree.
pub mod Reads
pub mod Replaced
pub mod Resolved
use openvaultdb_go.Base.{
  String, List, [], ◌∷◌, Bool, true, false, not, ◌&&◌, ◌||◌, ◌==◌, if◌then◌else◌, Option, none,
  some, lookup, insert,
}
use openvaultdb_go.JoinExec.Query.{
  Query, From, Source, Joins, Condition, Conditions, Expression, Expressions, Orders, Columns,
  no_query, select, no_from, from_source, no_source, collection, derived, unknown_source, no_joins,
  join, no_condition, comparison, group, is_null, exists, unknown_condition, no_conditions,
  condition, field, constant, param, star, binary, aggregate, subquery, unknown_expression,
  no_expressions, expression, no_orders, nil_order, order, no_columns, column, bare_column,
}

abbrev pub Aliases : Type 0
Aliases = List (String × Expression)

-- `selectedName`.
selected_name : String → Expression → String
selected_name alias (field source name) = if alias == "" then name else alias
selected_name alias _ = alias

listed : String → List String → Bool
listed s [] = false
listed s (t ∷ ts) = t == s || listed s ts

selected_names : Columns → List String
unfolding selected_name
selected_names no_columns = []
selected_names (column alias w e rest) =
    let names = selected_names rest in
    if selected_name alias e == "" then names else selected_name alias e ∷ names
selected_names (bare_column alias w rest) =
    let names = selected_names rest in if alias == "" then names else alias ∷ names

-- `readsAColumn`.
reads_a_column : List String → Expression → Bool
unfolding listed
reads_a_column names (field source name) = source == "" && listed name names
reads_a_column names (binary l op r) = reads_a_column names l || reads_a_column names r
reads_a_column names _ = false

is_named_as : String → Expression → Bool
is_named_as alias (field source name) = source == "" && name == alias
is_named_as alias _ = false

-- The loop of `replaceableAliases`; a later column of the same alias takes its place.
unfoldable pub aliases_from : List String → Columns → Aliases → Aliases
unfolding reads_a_column is_named_as
aliases_from names no_columns found = found
aliases_from names (column alias w e rest) found = aliases_from names rest (
    if alias == "" || (reads_a_column names e && not (is_named_as alias e))
    then found
    else insert alias e found)
aliases_from names (bare_column alias w rest) found = aliases_from names rest found

unfoldable pub replaceable_aliases : Columns → Aliases
unfolding aliases_from selected_names
replaceable_aliases columns = aliases_from (selected_names columns) columns []

-- `namesOfColumns(columns).fields`.
unfoldable pub fields_from : Columns → Aliases → Aliases
fields_from no_columns found = found
fields_from (column alias w (field source name) rest) found =
    fields_from rest (if alias == "" then found else insert alias (field source name) found)
fields_from (column alias w _ rest) found = fields_from rest found
fields_from (bare_column alias w rest) found = fields_from rest found

-- The expression that a bare name stands for, or the name.
unfoldable pub named : Option Expression → String → String → Expression
named none source name = field source name
named (some e) source name = if source == "" then e else field source name

unfoldable pub replace_in_expression : Aliases → Expression → Expression
unfolding named
replace_in_expression aliases (field source name) = named (lookup name aliases) source name
replace_in_expression aliases (binary l op r) =
    binary (replace_in_expression aliases l) op (replace_in_expression aliases r)
replace_in_expression aliases e = e

unfoldable mutual
  unfolding replace_in_expression

  pub replace_in_condition : Aliases → Condition → Condition
  replace_in_condition aliases (comparison l op r) =
      comparison (replace_in_expression aliases l) op (replace_in_expression aliases r)
  replace_in_condition aliases (group op cs) = group op (replace_in_conditions aliases cs)
  replace_in_condition aliases (is_null negated e) =
      is_null negated (replace_in_expression aliases e)
  replace_in_condition aliases c = c

  pub replace_in_conditions : Aliases → Conditions → Conditions
  replace_in_conditions aliases no_conditions = no_conditions
  replace_in_conditions aliases (condition c cs) =
      condition (replace_in_condition aliases c) (replace_in_conditions aliases cs)

unfoldable pub replace_in_orders : Aliases → Orders → Orders
unfolding replace_in_expression
replace_in_orders aliases no_orders = no_orders
replace_in_orders aliases (nil_order os) = nil_order (replace_in_orders aliases os)
replace_in_orders aliases (order down e os) =
    order down (replace_in_expression aliases e) (replace_in_orders aliases os)

-- Only an expression that is a bare name.
unfoldable pub replace_bare : Aliases → Expression → Expression
unfolding named
replace_bare aliases (field source name) = named (lookup name aliases) source name
replace_bare aliases e = e

unfoldable pub replace_bare_orders : Aliases → Orders → Orders
unfolding replace_bare
replace_bare_orders aliases no_orders = no_orders
replace_bare_orders aliases (nil_order os) = nil_order (replace_bare_orders aliases os)
replace_bare_orders aliases (order down e os) =
    order down (replace_bare aliases e) (replace_bare_orders aliases os)

-- HAVING and ORDER BY of a query that aggregates, and ORDER BY of one that does not.
unfoldable pub with_aliases :
    Bool → From → Condition → Expressions → Condition → Orders → Columns → Query
unfolding replaceable_aliases fields_from replace_in_condition replace_in_orders replace_bare_orders
with_aliases true from filter groups having orders columns =
    select from filter groups (replace_in_condition (replaceable_aliases columns) having)
      (replace_in_orders (replaceable_aliases columns) orders) columns
with_aliases false from filter groups having orders columns =
    select from filter groups having (replace_bare_orders (fields_from columns []) orders) columns

-- `dal.HasAggregation` is a parameter.
module _ (has_aggregation : Query → Bool) where
  unfoldable mutual
    unfolding with_aliases

    pub resolve_query : Query → Query
    resolve_query no_query = no_query
    resolve_query (select from filter groups having orders columns) =
        with_aliases (has_aggregation (select from filter groups having orders columns))
          (resolve_from from) (resolve_condition filter) (resolve_expressions groups)
          (resolve_condition having) (resolve_orders orders) (resolve_columns columns)

    pub resolve_from : From → From
    resolve_from no_from = no_from
    resolve_from (from_source base joins) = from_source (resolve_source base) (resolve_joins joins)

    pub resolve_source : Source → Source
    resolve_source no_source = no_source
    resolve_source (collection ref orders) = collection ref orders
    resolve_source (derived q alias) = derived (resolve_query q) alias
    resolve_source unknown_source = unknown_source

    pub resolve_joins : Joins → Joins
    resolve_joins no_joins = no_joins
    resolve_joins (join from source on rest) =
        join (resolve_from from) (resolve_source source) (resolve_conditions on)
          (resolve_joins rest)

    pub resolve_condition : Condition → Condition
    resolve_condition no_condition = no_condition
    resolve_condition (comparison l op r) =
        comparison (resolve_expression l) op (resolve_expression r)
    resolve_condition (group op cs) = group op (resolve_conditions cs)
    resolve_condition (is_null negated e) = is_null negated (resolve_expression e)
    resolve_condition (exists negated q) = exists negated (resolve_query q)
    resolve_condition unknown_condition = unknown_condition

    pub resolve_conditions : Conditions → Conditions
    resolve_conditions no_conditions = no_conditions
    resolve_conditions (condition c cs) = condition (resolve_condition c) (resolve_conditions cs)

    pub resolve_expression : Expression → Expression
    resolve_expression (field source name) = field source name
    resolve_expression constant = constant
    resolve_expression (param name) = param name
    resolve_expression star = star
    resolve_expression (binary l op r) = binary (resolve_expression l) op (resolve_expression r)
    resolve_expression (aggregate name es) = aggregate name es
    resolve_expression (subquery q alias) = subquery (resolve_query q) alias
    resolve_expression unknown_expression = unknown_expression

    pub resolve_expressions : Expressions → Expressions
    resolve_expressions no_expressions = no_expressions
    resolve_expressions (expression e es) =
        expression (resolve_expression e) (resolve_expressions es)

    pub resolve_orders : Orders → Orders
    resolve_orders no_orders = no_orders
    resolve_orders (nil_order os) = nil_order (resolve_orders os)
    resolve_orders (order down e os) = order down (resolve_expression e) (resolve_orders os)

    pub resolve_columns : Columns → Columns
    resolve_columns no_columns = no_columns
    resolve_columns (column alias w e rest) =
        column alias w (resolve_expression e) (resolve_columns rest)
    resolve_columns (bare_column alias w rest) = bare_column alias w (resolve_columns rest)
