-- ===== src/JoinExec/Inspect/Admission.antt =====
-- pkg/joinexec/walk.go: which documents `inspect` accepts, and what it says of them.
use openvaultdb_go.Base.{
  String, List, [], ◌∷◌, Bool, true, ◌&&◌, ◌||◌, some, Result, ok, err, ◌>>◌, ◌≡◌, refl, sym, ap,
  ◌∙◌, ◌↔◌, inl, inr, All, Bool-cases, require->>-ok_iff, >>-ok_iff, >>=-eq-ok, >>=-ok,
  ok-injective, some-injective, none≢some, subst,
}
use openvaultdb_go.JoinExec.Query.{Query}
use openvaultdb_go.JoinExec.Names.{Unicode, is_field_name, is_native_field_name, is_identifier}
use openvaultdb_go.JoinExec.Walker.{Refusal, Document, Walker, Calls, contains}
use openvaultdb_go.JoinExec.Walk.{walk_query}
use openvaultdb_go.JoinExec.Walk.Found.{Item, items, fits, note_all}
use openvaultdb_go.JoinExec.Walk.Steps.{out, when}
use openvaultdb_go.JoinExec.Walk.Admission.{walk_query-Walks}
use openvaultdb_go.JoinExec.Inspect.{
  new_walker, check_fields, check_identifiers, check_qualifiers, check_names, inspect,
}
use openvaultdb_go.JoinExec.Inspect.Gathering.{
  document_of, scope_of, fields_of, identifiers_of, qualifiers_of, note_all-gathered,
}

check_identifiers_iff :
    (is : List String) → (check_identifiers is ≡ ok tt) ↔ All (λ i. is_identifier i ≡ true) is
unfolding check_identifiers
check_identifiers_iff [] = (λ h. tt, λ h. refl)
check_identifiers_iff (i ∷ is) =
    require->>-ok_iff _ _ (check_identifiers is) (check_identifiers_iff is)

check_qualifiers_iff :
    (scope qs : List String)
    → (check_qualifiers scope qs ≡ ok tt) ↔ All (λ q. contains scope q || is_identifier q ≡ true) qs
unfolding check_qualifiers
check_qualifiers_iff scope [] = (λ h. tt, λ h. refl)
check_qualifiers_iff scope (q ∷ qs) =
    require->>-ok_iff _ _ (check_qualifiers scope qs) (check_qualifiers_iff scope qs)

module _ (U : Unicode) (native : Bool) where
  -- The rule for a field name on the route.
  abbrev pub Plain : String → Type 0
  Plain f = is_field_name U f || (native && is_native_field_name U f) ≡ true

  -- Every name in the document is one that its place admits.
  unfoldable pub Named : List Item → Type 0
  Named is =
      All Plain (fields_of is)
      × All (λ i. is_identifier i ≡ true) (identifiers_of is)
      × All (λ q. contains (scope_of is) q || is_identifier q ≡ true) (qualifiers_of is)

  check_fields_iff : (fs : List String) → (check_fields U native fs ≡ ok tt) ↔ All Plain fs
  unfolding check_fields
  check_fields_iff [] = (λ h. tt, λ h. refl)
  check_fields_iff (f ∷ fs) = require->>-ok_iff _ _ (check_fields U native fs) (check_fields_iff fs)

  check_names_iff :
      (is : List Item) → (check_names U native (note_all is new_walker) ≡ ok tt) ↔ Named is
  unfolding check_names Named
  check_names_iff is =
      let fields = fields_of is in
      let identifiers = identifiers_of is in
      let qualifiers = check_qualifiers (scope_of is) (qualifiers_of is) in
      let (split, joined) =
        >>-ok_iff (check_fields U native fields) (check_identifiers identifiers >> qualifiers) in
      let (split', joined') = >>-ok_iff (check_identifiers identifiers) qualifiers in
      subst (λ w. (check_names U native w ≡ ok tt) ↔ Named is)
        (sym (note_all-gathered is new_walker))
        (
          λ h.
              let (f, rest) = split h in
              let (i, q) = split' rest in
              (
                (check_fields_iff fields).0 f,
                (check_identifiers_iff identifiers).0 i,
                (check_qualifiers_iff (scope_of is) (qualifiers_of is)).0 q,
              ),
          λ (f, i, q). joined (
            (check_fields_iff fields).1 f,
            joined' (
              (check_identifiers_iff identifiers).1 i,
              (check_qualifiers_iff (scope_of is) (qualifiers_of is)).1 q,
            ),
          ),
        )

module _ (C : Calls) (U : Unicode) (native : Bool) where
  -- What an accepted document is.
  abbrev pub Accepted : Query → Document → Type 0
  Accepted q doc =
      (fits C 0 q 0 ≡ true) × Named U native (items C q) × (doc ≡ document_of (items C q))

  walked :
      (q : Query) (r : Result Refusal Walker) {w : Walker}
      → out r ≡ when (fits C 0 q 0) (note_all (items C q) new_walker)
      → r ≡ ok w
      → (fits C 0 q 0 ≡ true) × (note_all (items C q) new_walker ≡ w)
  walked q r {w} h e = elim (Bool-cases (fits C 0 q 0)) [
    | inl yes_fits ↦
        let there = ap (λ b. when b (note_all (items C q) new_walker)) yes_fits in
        (yes_fits, sym (some-injective (sym (ap out e) ∙ h ∙ there)))
    | inr no_fit ↦
        let there = ap (λ b. when b (note_all (items C q) new_walker)) no_fit in
        absurd (none≢some (sym there ∙ sym h ∙ ap out e))
  ]

  out-ok : (r : Result Refusal Walker) {w : Walker} → out r ≡ some w → r ≡ ok w
  out-ok (ok w) e = ap ok (some-injective e)
  out-ok (err x) e = absurd (none≢some e)

  -- The walk accepts a document exactly when it has only the known nodes and shapes, nests within
  -- both bounds, gives its columns different names, and every name in it is one that its place
  -- admits. What it then reports is what stands in the document: each collection that is read, in
  -- order, and whether there is a subquery or a null test.
  pub inspect_iff : (q : Query) (doc : Document) → (inspect C U native q ≡ ok doc) ↔ Accepted q doc
  unfolding inspect
  inspect_iff q doc = (to, back)
    where
      there : Walker
      there = note_all (items C q) new_walker

      walk_out : out (walk_query C q 0 new_walker) ≡ when (fits C 0 q 0) there
      walk_out = (walk_query-Walks C q 0).at new_walker

      to : inspect C U native q ≡ ok doc → Accepted q doc
      to h =
          let (w, e, rest) = >>=-eq-ok (walk_query C q 0 new_walker) _ h in
          let (fit, same) = walked q (walk_query C q 0 new_walker) walk_out e in
          let (u, names, done) = >>=-eq-ok (check_names U native w) _ rest in
          (
            fit,
            (check_names_iff U native (items C q)).0
                (ap (check_names U native) same ∙ names ∙ ap ok refl),
            sym (ok-injective done)
                ∙ ap (λ w. w.doc) (sym same)
                ∙ ap (λ w. w.doc) (note_all-gathered (items C q) new_walker),
          )

      back : Accepted q doc → inspect C U native q ≡ ok doc
      back (fit, names, same) =
          >>=-ok (walk_query C q 0 new_walker) _
            (out-ok (walk_query C q 0 new_walker) (walk_out ∙ ap (λ b. when b there) fit))
            (>>=-ok (check_names U native there) _ ((check_names_iff U native (items C q)).1 names)
              (ap ok (ap (λ w. w.doc) (note_all-gathered (items C q) new_walker) ∙ sym same)))
