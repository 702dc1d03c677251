-- ===== src/JoinExec/Query.antt =====
-- The structured queries of dal-go, as pkg/joinexec reads them: each type switch of the walk has a
-- constructor for every case, `unknown` for its default, and `absent` where a value may be nil.
use openvaultdb_go.Base.{ℤ, String, List, Bool, Option}

-- `ColumnWildcard`.
pub record Wildcard : Type 0 where
  pub source : String
  pub exclude : List String

-- What a `CollectionRef` says besides its scan order.
pub record CollectionRef : Type 0 where
  pub database : String
  pub schema : String
  pub name : String
  pub alias : String
  pub has_parent : Bool
  pub scan_limit : ℤ

mutual
  pub data Query : Type 0 where
    no_query : Query
    select : From → Condition → Expressions → Condition → Orders → Columns → Query

  -- A relation tree: its base and its joins.
  pub data From : Type 0 where
    no_from : From
    from_source : Source → Joins → From

  pub data Source : Type 0 where
    no_source : Source
    collection : CollectionRef → Orders → Source
    derived : Query → String → Source
    unknown_source : Source

  -- A join of a relation tree, or of one source where the tree is nil.
  pub data Joins : Type 0 where
    no_joins : Joins
    join : From → Source → Conditions → Joins → Joins

  pub data Condition : Type 0 where
    no_condition : Condition
    comparison : Expression → String → Expression → Condition
    group : String → Conditions → Condition
    is_null : Bool → Expression → Condition
    exists : Bool → Query → Condition
    unknown_condition : Condition

  pub data Conditions : Type 0 where
    no_conditions : Conditions
    condition : Condition → Conditions → Conditions

  pub data Expression : Type 0 where
    field : String → String → Expression
    constant : Expression
    param : String → Expression
    star : Expression
    binary : Expression → String → Expression → Expression
    aggregate : String → Expressions → Expression
    subquery : Query → String → Expression
    unknown_expression : Expression

  pub data Expressions : Type 0 where
    no_expressions : Expressions
    expression : Expression → Expressions → Expressions

  -- `ORDER BY` expressions, with whether they descend; one may be nil.
  pub data Orders : Type 0 where
    no_orders : Orders
    nil_order : Orders → Orders
    order : Bool → Expression → Orders → Orders

  -- The columns of a select list: alias, wildcard and expression, which may be nil.
  pub data Columns : Type 0 where
    no_columns : Columns
    column : String → Option Wildcard → Expression → Columns → Columns
    bare_column : String → Option Wildcard → Columns → Columns
