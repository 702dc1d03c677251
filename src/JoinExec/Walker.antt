-- ===== src/JoinExec/Walker.antt =====
-- pkg/joinexec/walk.go: the state of the walk over a document, and what each node notes in it. The
-- paths and words of the refusals are left out.
use openvaultdb_go.Base.{
  eqb_ℤ, pos, ℕ, ◌+◌, ◌-◌, String, List, [], ◌∷◌, ◌++◌, Bool, true, false, not, ◌||◌, ◌==◌, ltb,
  if◌then◌else◌, Option, none, some, Result, ok, err, ◌>>=◌,
}
use openvaultdb_go.JoinExec.Query.{
  Wildcard, CollectionRef, Expression, Expressions, Orders, field, aggregate, subquery, no_orders,
}
use openvaultdb_go.JoinExec.Names.{is_collection_name}

pub data Refusal : Type 0 where
  query_required source_required order_required expression_required : Refusal
  condition_required join_source_required : Refusal
  subqueries_too_deep relations_too_deep too_nested : Refusal
  unsupported_source unsupported_condition unsupported_expression : Refusal
  not_root_collection bad_relation_name bad_collection_name bad_field_name bad_identifier : Refusal
  bad_qualifier duplicate_output invalid_param unbound_param bad_operator bad_aggregate : Refusal
  profile_subqueries profile_sources : Refusal

pub record WalkedSource : Type 0 where
  pub database : String
  pub collection : String
  pub scan : Bool

pub record Document : Type 0 where
  pub sources : List WalkedSource
  pub has_subquery : Bool
  pub has_null : Bool

-- The map `scope` of the code is a list of its keys.
pub record Walker : Type 0 where
  pub doc : Document
  pub scope : List String
  pub fields : List String
  pub identifiers : List String
  pub qualifiers : List String
  pub nest : ℕ

abbrev pub max_walk_depth : ℕ
max_walk_depth = 16

abbrev pub max_walk_nesting : ℕ
max_walk_nesting = 64

-- What the walk calls in dal-go, and the ID of a schema-qualified relation.
pub record Calls : Type 0 where
  pub valid_param_name : String → Bool
  pub aggregate_text : String → Expressions → String
  pub native_collection_id : String → String → Option String

pub any_scan : List WalkedSource → Bool
any_scan [] = false
any_scan (s ∷ ss) = s.scan || any_scan ss

unfoldable pub contains : List String → String → Bool
contains [] name = false
contains (n ∷ ns) name = n == name || contains ns name

-- The appends and assignments to the walker.
abbrev pub note_read : WalkedSource → Walker → Walker
note_read s w = record w { doc = record w.doc { sources = w.doc.sources ++ s ∷ [] } }

abbrev pub note_subquery : Walker → Walker
note_subquery w = record w { doc = record w.doc { has_subquery = true } }

abbrev pub note_null : Walker → Walker
note_null w = record w { doc = record w.doc { has_null = true } }

abbrev pub note_scope : String → Walker → Walker
note_scope name w = record w { scope = w.scope ++ name ∷ [] }

abbrev pub note_field : String → Walker → Walker
note_field name w = record w { fields = w.fields ++ name ∷ [] }

abbrev pub note_identifier : String → Walker → Walker
note_identifier name w = record w { identifiers = w.identifiers ++ name ∷ [] }

abbrev pub note_qualifier : String → Walker → Walker
note_qualifier name w = record w { qualifiers = w.qualifiers ++ name ∷ [] }

-- The name that is noted when it is given.
abbrev pub if_given : (String → Walker → Walker) → String → Walker → Walker
if_given note name w = if name == "" then w else note name w

abbrev pub entered : Walker → Walker
entered w = record w { nest = w.nest + 1 }

abbrev pub left : Walker → Walker
left w = record w { nest = w.nest - 1 }

unfoldable pub enter : Walker → Result Refusal Walker
enter w = if ltb max_walk_nesting (w.nest + 1) then err too_nested else ok (entered w)

-- A column without an expression has its alias as its name.
unfoldable pub bare_name : String → Option Wildcard → String
bare_name alias (some w) = ""
bare_name alias none = alias

-- A row is keyed by the output names of its columns; "" is no name.
unfoldable pub name_free : String → List String → Bool
unfolding contains
name_free name names = name == "" || not (contains names name)

unfoldable pub with_name : String → List String → List String
with_name name names = if name == "" then names else name ∷ names

-- What a column notes before its expression is walked.
unfoldable pub note_wildcard : Option Wildcard → Walker → Walker
note_wildcard none w = w
note_wildcard (some c) w =
    let named = if_given note_qualifier c.source w in
    record named { fields = named.fields ++ c.exclude }

unfoldable pub bare_allowed : Option Wildcard → Bool
bare_allowed none = false
bare_allowed (some c) = true

unfoldable pub has_orders : Orders → Bool
has_orders no_orders = false
has_orders _ = true

unfoldable pub note_collection : CollectionRef → Orders → String → Walker → Walker
unfolding has_orders
note_collection ref scan id w =
    let read =
      note_read
        (record {
          database = ref.database;
          collection = id;
          scan = not (eqb_ℤ ref.scan_limit (pos 0)) || has_orders scan;
        })
        w in
    if_given (λ alias w. note_scope alias (note_identifier alias w)) ref.alias
      (note_scope ref.name read)

-- `condition` and `expression`: a level is counted around the walk of the node.
abbrev pub leveled : (Walker → Result Refusal Walker) → Walker → Result Refusal Walker
leveled node w = enter w >>= λ v. node v >>= λ u. ok (left u)

module _ (C : Calls) where
  open C use {valid_param_name, aggregate_text, native_collection_id}

  unfoldable pub expression_name : Expression → String
  expression_name (field s name) = name
  expression_name (subquery q as_name) = as_name
  expression_name (aggregate name args) = aggregate_text name args
  expression_name _ = ""

  unfoldable pub output_name : String → Option Wildcard → Expression → String
  unfolding expression_name
  output_name alias (some w) e = ""
  output_name alias none e = if alias == "" then expression_name e else alias

  unfoldable pub collection_id : CollectionRef → Result Refusal String
  collection_id ref =
      if ref.schema == ""
      then (if is_collection_name ref.name then ok ref.name else err bad_collection_name)
      else elim (native_collection_id ref.schema ref.name) [
        | none ↦ err bad_relation_name
        | some id ↦ ok id
      ]
