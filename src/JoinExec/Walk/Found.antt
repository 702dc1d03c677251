-- ===== src/JoinExec/Walk/Found.antt =====
-- pkg/joinexec/walk.go: what stands in a document, in the order of its text, and what a walk accepts:
-- a description without the walker.
use openvaultdb_go.Base.{
  eqb_ℤ, pos, ℕ, ◌+◌, String, List, [], ◌∷◌, ◌++◌, map, Bool, true, false, not, ◌&&◌, ◌||◌, ◌==◌,
  ltb, leb, if◌then◌else◌, Option, none, some, Result, ok, err,
}
use openvaultdb_go.JoinExec.Query.{
  Wildcard, CollectionRef, Query, From, Source, Joins, Condition, Conditions, Expression,
  Expressions, Orders, Columns, no_query, select, no_from, from_source, no_source, collection,
  derived, no_joins, join, no_condition, comparison, group, is_null, exists, unknown_condition,
  no_conditions, condition, field, constant, star, binary, aggregate, subquery, no_expressions,
  expression, no_orders, nil_order, order, no_columns, column, bare_column,
}
use openvaultdb_go.JoinExec.Names.{is_aggregate, is_arithmetic}
use openvaultdb_go.JoinExec.Walker.{
  Refusal, WalkedSource, Walker, Calls, max_walk_depth, max_walk_nesting, note_read, note_subquery,
  note_null, note_scope, note_field, note_identifier, note_qualifier, has_orders, output_name,
  bare_name, name_free, with_name, bare_allowed, collection_id,
}

pub data Item : Type 0 where
  read : WalkedSource → Item
  subquery_found null_found : Item
  in_scope field_named identified qualified : String → Item

abbrev pub note : Item → Walker → Walker
note (read s) w = note_read s w
note subquery_found w = note_subquery w
note null_found w = note_null w
note (in_scope name) w = note_scope name w
note (field_named name) w = note_field name w
note (identified name) w = note_identifier name w
note (qualified name) w = note_qualifier name w

abbrev pub note_all : List Item → Walker → Walker
note_all [] w = w
note_all (i ∷ is) w = note_all is (note i w)

-- A name that is given.
abbrev pub given : (String → Item) → String → List Item
given item name = if name == "" then [] else item name ∷ []

abbrev pub wildcard_items : Option Wildcard → List Item
wildcard_items none = []
wildcard_items (some c) = given qualified c.source ++ map field_named c.exclude

abbrev pub column_items : String → Option Wildcard → List Item
column_items alias wildcard = given identified alias ++ wildcard_items wildcard

abbrev pub is_ok : Result Refusal String → Bool
is_ok (ok s) = true
is_ok (err e) = false

abbrev pub id_of : Result Refusal String → String
id_of (ok s) = s
id_of (err e) = ""

abbrev pub collection_items : CollectionRef → Orders → String → List Item
collection_items ref scan id =
    read (record {
      database = ref.database;
      collection = id;
      scan = not (eqb_ℤ ref.scan_limit (pos 0)) || has_orders scan;
    })
    ∷ in_scope ref.name
    ∷ (if ref.alias == "" then [] else identified ref.alias ∷ in_scope ref.alias ∷ [])

-- Whether a level of conditions and expressions fits below n others.
abbrev pub level : ℕ → Bool
level n = not (ltb max_walk_nesting (n + 1))

module _ (C : Calls) where
  unfoldable mutual
    pub items : Query → List Item
    items no_query = []
    items (select from where_clause group_by having order_by columns) =
        from_items from
        ++ (condition_items where_clause
            ++ (expressions_items group_by
                ++ (condition_items having ++ (orders_items order_by ++ columns_items columns))))

    pub columns_items : Columns → List Item
    columns_items no_columns = []
    columns_items (column alias wildcard e rest) =
        column_items alias wildcard ++ (expression_items e ++ columns_items rest)
    columns_items (bare_column alias wildcard rest) =
        column_items alias wildcard ++ columns_items rest

    pub from_items : From → List Item
    from_items no_from = []
    from_items (from_source base joins) = source_items base ++ joins_items joins

    pub joins_items : Joins → List Item
    joins_items no_joins = []
    joins_items (join no_from s on rest) =
        source_items s ++ (conditions_items on ++ joins_items rest)
    joins_items (join tree s on rest) = from_items tree ++ (conditions_items on ++ joins_items rest)

    pub source_items : Source → List Item
    source_items (collection ref scan) =
        collection_items ref scan (id_of (collection_id C ref)) ++ orders_items scan
    source_items (derived q alias) = subquery_found ∷ identified alias ∷ in_scope alias ∷ items q
    source_items _ = []

    pub conditions_items : Conditions → List Item
    conditions_items no_conditions = []
    conditions_items (condition c rest) = condition_items c ++ conditions_items rest

    pub condition_items : Condition → List Item
    condition_items (comparison l op r) = expression_items l ++ expression_items r
    condition_items (group op cs) = conditions_items cs
    condition_items (is_null negated e) = null_found ∷ expression_items e
    condition_items (exists negated q) = subquery_found ∷ items q
    condition_items _ = []

    pub expression_items : Expression → List Item
    expression_items (field source name) = field_named name ∷ given qualified source
    expression_items (binary l op r) = expression_items l ++ expression_items r
    expression_items (aggregate name args) = expressions_items args
    expression_items (subquery q as_name) = subquery_found ∷ (given identified as_name ++ items q)
    expression_items _ = []

    pub expressions_items : Expressions → List Item
    expressions_items no_expressions = []
    expressions_items (expression e rest) = expression_items e ++ expressions_items rest

    pub orders_items : Orders → List Item
    orders_items no_orders = []
    orders_items (nil_order rest) = orders_items rest
    orders_items (order descending e rest) = expression_items e ++ orders_items rest

  -- Whether a document is of the known shapes and nests within both bounds: d levels of queries and
  -- relation trees and n levels of conditions and expressions stand above.
  unfoldable mutual
    pub fits : ℕ → Query → ℕ → Bool
    fits d no_query n = false
    fits d (select from where_clause group_by having order_by columns) n =
        leb d max_walk_depth
        && (fits_from d from n
            && (fits_condition d where_clause n
                && (fits_expressions d group_by n
                    && (fits_condition d having n
                        && (fits_orders d order_by n && fits_columns d [] columns n)))))

    pub fits_columns : ℕ → List String → Columns → ℕ → Bool
    fits_columns d names no_columns n = true
    fits_columns d names (column alias wildcard e rest) n =
        fits_expression d e n
        && (name_free (output_name C alias wildcard e) names
            && fits_columns d (with_name (output_name C alias wildcard e) names) rest n)
    fits_columns d names (bare_column alias wildcard rest) n =
        bare_allowed wildcard
        && (name_free (bare_name alias wildcard) names
            && fits_columns d (with_name (bare_name alias wildcard) names) rest n)

    pub fits_from : ℕ → From → ℕ → Bool
    fits_from d no_from n = false
    fits_from d (from_source base joins) n =
        leb d max_walk_depth && (fits_source d base n && fits_joins d joins n)

    pub fits_joins : ℕ → Joins → ℕ → Bool
    fits_joins d no_joins n = true
    fits_joins d (join no_from no_source on rest) n = false
    fits_joins d (join no_from s on rest) n =
        leb (d + 1) max_walk_depth
        && (fits_source (d + 1) s n && (fits_on d on n && fits_joins d rest n))
    fits_joins d (join tree s on rest) n =
        fits_from (d + 1) tree n && (fits_on d on n && fits_joins d rest n)

    pub fits_source : ℕ → Source → ℕ → Bool
    fits_source d (collection ref scan) n =
        not ref.has_parent && (is_ok (collection_id C ref) && fits_orders d scan n)
    fits_source d (derived q alias) n = fits (d + 1) q n
    fits_source d _ n = false

    pub fits_on : ℕ → Conditions → ℕ → Bool
    fits_on d no_conditions n = true
    fits_on d (condition c rest) n = fits_condition d c n && fits_on d rest n

    pub fits_group : ℕ → Conditions → ℕ → Bool
    fits_group d no_conditions n = true
    fits_group d (condition no_condition rest) n = false
    fits_group d (condition c rest) n = fits_condition d c n && fits_group d rest n

    pub fits_condition : ℕ → Condition → ℕ → Bool
    fits_condition d no_condition n = true
    fits_condition d (comparison l op r) n =
        level n && (fits_expression d l (n + 1) && fits_expression d r (n + 1))
    fits_condition d (group op cs) n = level n && fits_group d cs (n + 1)
    fits_condition d (is_null negated e) n = level n && fits_expression d e (n + 1)
    fits_condition d (exists negated q) n = level n && fits (d + 1) q (n + 1)
    fits_condition d unknown_condition n = false

    pub fits_expression : ℕ → Expression → ℕ → Bool
    fits_expression d (field source name) n = level n
    fits_expression d constant n = level n
    fits_expression d star n = level n
    fits_expression d (binary l op r) n =
        level n
        && (is_arithmetic op && (fits_expression d l (n + 1) && fits_expression d r (n + 1)))
    fits_expression d (aggregate name args) n =
        level n && (is_aggregate name && fits_expressions d args (n + 1))
    fits_expression d (subquery q as_name) n = level n && fits (d + 1) q (n + 1)
    fits_expression d _ n = false

    pub fits_expressions : ℕ → Expressions → ℕ → Bool
    fits_expressions d no_expressions n = true
    fits_expressions d (expression e rest) n = fits_expression d e n && fits_expressions d rest n

    pub fits_orders : ℕ → Orders → ℕ → Bool
    fits_orders d no_orders n = true
    fits_orders d (nil_order rest) n = false
    fits_orders d (order descending e rest) n = fits_expression d e n && fits_orders d rest n
