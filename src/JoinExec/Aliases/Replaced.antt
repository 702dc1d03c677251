-- ===== src/JoinExec/Aliases/Replaced.antt =====
-- pkg/joinexec/aliases.go: what a clause reads whose aliases are replaced.
use openvaultdb_go.Base.{
  String, List, [], Bool, true, false, ◌==◌, some, lookup, insert, ◌≡◌, sym, ◌⊎◌, inl, inr, subst,
  if-both, Option-cases, lookup-insert_cases, none≢some,
}
use openvaultdb_go.JoinExec.Query.{
  CollectionRef, From, Condition, Conditions, Expression, Expressions, Orders, Columns, select,
  no_condition, comparison, group, is_null, exists, unknown_condition, no_conditions, condition,
  field, constant, param, star, binary, aggregate, subquery, unknown_expression, no_orders,
  nil_order, order, no_columns, column, bare_column,
}
use openvaultdb_go.JoinExec.Aliases.{
  Aliases, aliases_from, selected_names, replaceable_aliases, fields_from, named,
  replace_in_expression, replace_in_condition, replace_in_conditions, replace_in_orders,
  replace_bare, replace_bare_orders, with_aliases,
}
use openvaultdb_go.JoinExec.Aliases.Reads.{
  either, Reads, ReadsCondition, ReadsConditions, ReadsExpression, ReadsOrders, ReadsColumns,
}

module _ (c : CollectionRef) where
  -- What an alias stands for reads the collection.
  ReadsAlias : Aliases → Type 0
  ReadsAlias aliases =
      (name : String) × (e : Expression) × (lookup name aliases ≡ some e) × ReadsExpression c e

  insert-ReadsAlias :
      (alias : String) (e : Expression) (found : Aliases)
      → ReadsAlias (insert alias e found)
      → ReadsExpression c e ⊎ ReadsAlias found
  unfolding ReadsAlias
  insert-ReadsAlias alias e found (name, d, known, reads) =
      elim (lookup-insert_cases alias name e d found known) [
        | inl (_, same) ↦ inl (subst (ReadsExpression c) (sym same) reads)
        | inr (_, before) ↦ inr (name, d, before, reads)
      ]

  aliases_from-ReadsAlias :
      (names : List String) (columns : Columns) (found : Aliases)
      → ReadsAlias (aliases_from names columns found)
      → ReadsColumns c columns ⊎ ReadsAlias found
  unfolding aliases_from Reads
  aliases_from-ReadsAlias names no_columns found h = inr h
  aliases_from-ReadsAlias names (column alias w e rest) found h =
      elim (aliases_from-ReadsAlias names rest _ h) [
        | inl k ↦ inl (inr k)
        | inr k ↦
            if-both
              (λ a. ReadsAlias a → (ReadsExpression c e ⊎ ReadsColumns c rest) ⊎ ReadsAlias found) _
              (λ x. inr x)
              (λ x. elim (insert-ReadsAlias alias e found x) [
                | inl y ↦ inl (inl y)
                | inr y ↦ inr y
              ])
              k
      ]
  aliases_from-ReadsAlias names (bare_column alias w rest) found h =
      aliases_from-ReadsAlias names rest found h

  named-Reads :
      (aliases : Aliases) (source name : String)
      → ReadsExpression c (named (lookup name aliases) source name)
      → ReadsAlias aliases
  unfolding named Reads ReadsAlias
  named-Reads aliases source name = elim (Option-cases (lookup name aliases)) [
    | inl e ↦ rw e (λ h. absurd h)
    | inr (d, e) ↦ rw e (
        if-both (λ x. ReadsExpression c x → ReadsAlias aliases) (source == "")
          (λ h. (name, d, e, h)) (λ h. absurd h))
  ]

  fields_from-ReadsAlias :
      (columns : Columns) (found : Aliases)
      → ReadsAlias (fields_from columns found)
      → ReadsAlias found
  unfolding fields_from Reads
  fields_from-ReadsAlias no_columns found h = h
  fields_from-ReadsAlias (column alias w (field source name) rest) found h =
      if-both (λ a. ReadsAlias a → ReadsAlias found) (alias == "") (λ x. x)
        (λ x. elim (insert-ReadsAlias alias (field source name) found x) [
          | inl y ↦ absurd y
          | inr y ↦ y
        ])
        (fields_from-ReadsAlias rest _ h)
  fields_from-ReadsAlias (column alias w constant rest) found h =
      fields_from-ReadsAlias rest found h
  fields_from-ReadsAlias (column alias w (param name) rest) found h =
      fields_from-ReadsAlias rest found h
  fields_from-ReadsAlias (column alias w star rest) found h = fields_from-ReadsAlias rest found h
  fields_from-ReadsAlias (column alias w (binary l op r) rest) found h =
      fields_from-ReadsAlias rest found h
  fields_from-ReadsAlias (column alias w (aggregate name es) rest) found h =
      fields_from-ReadsAlias rest found h
  fields_from-ReadsAlias (column alias w (subquery q name) rest) found h =
      fields_from-ReadsAlias rest found h
  fields_from-ReadsAlias (column alias w unknown_expression rest) found h =
      fields_from-ReadsAlias rest found h
  fields_from-ReadsAlias (bare_column alias w rest) found h = fields_from-ReadsAlias rest found h

  -- What a part reads, or an alias.
  in_pair : {P Q R S T : Type 0} → (P → R ⊎ T) → (Q → S ⊎ T) → P ⊎ Q → (R ⊎ S) ⊎ T
  in_pair f g (inl p) = elim (f p) [ inl r ↦ inl (inl r) | inr t ↦ inr t ]
  in_pair f g (inr q) = elim (g q) [ inl s ↦ inl (inr s) | inr t ↦ inr t ]

  replaced-Reads :
      (a : Aliases) (e : Expression)
      → ReadsExpression c (replace_in_expression a e)
      → ReadsExpression c e ⊎ ReadsAlias a
  unfolding replace_in_expression Reads
  replaced-Reads a (field source name) h = inr (named-Reads a source name h)
  replaced-Reads a (binary l op r) h = in_pair (replaced-Reads a l) (replaced-Reads a r) h
  replaced-Reads a constant h = inl h
  replaced-Reads a (param name) h = inl h
  replaced-Reads a star h = inl h
  replaced-Reads a (aggregate name es) h = inl h
  replaced-Reads a (subquery q name) h = inl h
  replaced-Reads a unknown_expression h = inl h

  replaced_bare-Reads :
      (a : Aliases) (e : Expression)
      → ReadsExpression c (replace_bare a e)
      → ReadsExpression c e ⊎ ReadsAlias a
  unfolding replace_bare Reads
  replaced_bare-Reads a (field source name) h = inr (named-Reads a source name h)
  replaced_bare-Reads a (binary l op r) h = inl h
  replaced_bare-Reads a constant h = inl h
  replaced_bare-Reads a (param name) h = inl h
  replaced_bare-Reads a star h = inl h
  replaced_bare-Reads a (aggregate name es) h = inl h
  replaced_bare-Reads a (subquery q name) h = inl h
  replaced_bare-Reads a unknown_expression h = inl h

  mutual
    unfolding replace_in_condition Reads

    condition-Reads :
        (a : Aliases) (d : Condition)
        → ReadsCondition c (replace_in_condition a d)
        → ReadsCondition c d ⊎ ReadsAlias a
    condition-Reads a (comparison l op r) h = in_pair (replaced-Reads a l) (replaced-Reads a r) h
    condition-Reads a (group op cs) h = conditions-Reads a cs h
    condition-Reads a (is_null negated e) h = replaced-Reads a e h
    condition-Reads a (exists negated q) h = inl h
    condition-Reads a no_condition h = inl h
    condition-Reads a unknown_condition h = inl h

    conditions-Reads :
        (a : Aliases) (ds : Conditions)
        → ReadsConditions c (replace_in_conditions a ds)
        → ReadsConditions c ds ⊎ ReadsAlias a
    conditions-Reads a no_conditions h = inl h
    conditions-Reads a (condition d ds) h = in_pair (condition-Reads a d) (conditions-Reads a ds) h

  orders-Reads :
      (a : Aliases) (os : Orders)
      → ReadsOrders c (replace_in_orders a os)
      → ReadsOrders c os ⊎ ReadsAlias a
  unfolding replace_in_orders Reads
  orders-Reads a no_orders h = inl h
  orders-Reads a (nil_order os) h = orders-Reads a os h
  orders-Reads a (order down e os) h = in_pair (replaced-Reads a e) (orders-Reads a os) h

  bare_orders-Reads :
      (a : Aliases) (os : Orders)
      → ReadsOrders c (replace_bare_orders a os)
      → ReadsOrders c os ⊎ ReadsAlias a
  unfolding replace_bare_orders Reads
  bare_orders-Reads a no_orders h = inl h
  bare_orders-Reads a (nil_order os) h = bare_orders-Reads a os h
  bare_orders-Reads a (order down e os) h =
      in_pair (replaced_bare-Reads a e) (bare_orders-Reads a os) h

  no_alias : ¬ (ReadsAlias [])
  unfolding ReadsAlias lookup
  no_alias (name, e, known, reads) = none≢some known

  pub with_aliases-Reads :
      (aggregates : Bool) (from : From) (filter : Condition) (groups : Expressions)
      (having : Condition) (orders : Orders) (columns : Columns)
      → Reads c (with_aliases aggregates from filter groups having orders columns)
      → Reads c (select from filter groups having orders columns)
  unfolding with_aliases replaceable_aliases Reads
  with_aliases-Reads true from filter groups having orders columns h =
      let a = aliases_from (selected_names columns) columns [] in
      let from_columns : ReadsAlias a → ReadsColumns c columns = λ k.
        elim (aliases_from-ReadsAlias (selected_names columns) columns [] k) [
          | inl x ↦ x
          | inr x ↦ absurd (no_alias x)
        ] in
      elim h [
        | inl x ↦ inl x
        | inr (inl x) ↦ inr (inl x)
        | inr (inr (inl x)) ↦ inr (inr (inl x))
        | inr (inr (inr (inl x))) ↦ elim (condition-Reads a having x) [
          | inl y ↦ inr (inr (inr (inl y)))
          | inr y ↦ inr (inr (inr (inr (inr (from_columns y)))))
        ]
        | inr (inr (inr (inr (inl x)))) ↦ elim (orders-Reads a orders x) [
          | inl y ↦ inr (inr (inr (inr (inl y))))
          | inr y ↦ inr (inr (inr (inr (inr (from_columns y)))))
        ]
        | inr (inr (inr (inr (inr x)))) ↦ inr (inr (inr (inr (inr x))))
      ]
  with_aliases-Reads false from filter groups having orders columns h =
      let a = fields_from columns [] in
      either (λ x. x)
        (either (λ x. x)
          (either (λ x. x)
            (either (λ x. x)
              (either
                (λ x. elim (bare_orders-Reads a orders x) [
                  | inl y ↦ y
                  | inr y ↦ absurd (no_alias (fields_from-ReadsAlias columns [] y))
                ])
                (λ x. x)))))
        h
