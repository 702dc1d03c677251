-- ===== src/JoinExec/Walk/Steps.antt =====
-- pkg/joinexec/walk.go: steps of the walk, each with the items that it notes and the test by which it
-- goes on. Steps are put together as the code puts them together.
use openvaultdb_go.Base.{
  ℕ, ◌+◌, String, List, [], ◌∷◌, ◌++◌, map, Bool, true, false, not, ◌&&◌, ◌==◌, ltb, if◌then◌else◌,
  Option, none, some, Result, ok, err, ◌>>=◌, ◌>>◌, require, ◌≡◌, refl, sym, ap, ◌∙◌, arith,
  append_assoc, append-nil, subst, Bool-cases, inl, inr, none≢some, some-injective,
}
use openvaultdb_go.JoinExec.Query.{Wildcard, CollectionRef, Orders}
use openvaultdb_go.JoinExec.Walker.{
  Refusal, Walker, max_walk_nesting, too_nested, entered, left, enter, leveled, note_qualifier,
  note_wildcard, note_collection, note_identifier, if_given,
}
use openvaultdb_go.JoinExec.Walk.Found.{
  Item, read, subquery_found, null_found, in_scope, field_named, identified, qualified, note,
  note_all, is_ok, id_of, column_items, collection_items, level, given,
}

-- The walker, without the reason of a refusal.
abbrev pub out : Result Refusal Walker → Option Walker
out (ok w) = some w
out (err e) = none

abbrev pub when : Bool → Walker → Option Walker
when b w = if b then some w else none

-- The step goes on exactly when the test holds of the nesting, and notes these items.
pub record Walks (step : Walker → Result Refusal Walker) (test : ℕ → Bool) (is : List Item)
    : Type 0 where
  pub at : (w : Walker) → out (step w) ≡ when (test w.nest) (note_all is w)

nest-note : (i : Item) (w : Walker) → (note i w).nest ≡ w.nest
nest-note (read s) w = refl
nest-note subquery_found w = refl
nest-note null_found w = refl
nest-note (in_scope n) w = refl
nest-note (field_named n) w = refl
nest-note (identified n) w = refl
nest-note (qualified n) w = refl

nest-note_all : (is : List Item) (w : Walker) → (note_all is w).nest ≡ w.nest
nest-note_all [] w = refl
nest-note_all (i ∷ is) w = nest-note_all is (note i w) ∙ nest-note i w

note_all-append :
    (is js : List Item) (w : Walker) → note_all (is ++ js) w ≡ note_all js (note_all is w)
note_all-append [] js w = refl
note_all-append (i ∷ is) js w = note_all-append is js (note i w)

abbrev at_nest : ℕ → Walker → Walker
at_nest n w = record w { nest = n }

note-at_nest : (i : Item) (n : ℕ) (w : Walker) → note i (at_nest n w) ≡ at_nest n (note i w)
note-at_nest (read s) n w = refl
note-at_nest subquery_found n w = refl
note-at_nest null_found n w = refl
note-at_nest (in_scope x) n w = refl
note-at_nest (field_named x) n w = refl
note-at_nest (identified x) n w = refl
note-at_nest (qualified x) n w = refl

note_all-at_nest :
    (is : List Item) (n : ℕ) (w : Walker) → note_all is (at_nest n w) ≡ at_nest n (note_all is w)
note_all-at_nest [] n w = refl
note_all-at_nest (i ∷ is) n w =
    ap (note_all is) (note-at_nest i n w) ∙ note_all-at_nest is n (note i w)

pub Walks-done : Walks ok (λ n. true) []
Walks-done = record { at = λ w. refl }

pub Walks-stop : (e : Refusal) (is : List Item) → Walks (λ w. err e) (λ n. false) is
Walks-stop e is = record { at = λ w. refl }

out->>= :
    (r : Result Refusal Walker) (k : Walker → Result Refusal Walker) (b c : Bool) (v u : Walker)
    → out r ≡ when b v
    → out (k v) ≡ when c u
    → out (r >>= k) ≡ when (b && c) u
out->>= (ok a) k true c v u h g = ap (λ w. out (k w)) (some-injective h) ∙ g
out->>= (ok a) k false c v u h g = absurd (none≢some (sym h))
out->>= (err e) k true c v u h g = absurd (none≢some h)
out->>= (err e) k false c v u h g = refl

module _ {step next : Walker → Result Refusal Walker} {test more : ℕ → Bool}
    {is js : List Item} where
  -- One step after another.
  pub Walks-then :
      Walks step test is
      → Walks next more js
      → Walks (λ w. step w >>= next) (λ n. test n && more n) (is ++ js)
  Walks-then h g = record {
    at = λ w.
        out->>= (step w) next (test w.nest) (more w.nest) (note_all is w) (note_all (is ++ js) w)
          (h.at w)
          (subst (λ n. out (next (note_all is w)) ≡ when (more n) (note_all (is ++ js) w))
            (nest-note_all is w)
            (g.at (note_all is w)
              ∙ ap (when (more (note_all is w).nest)) (sym (note_all-append is js w))));
  }

module _ {step : Walker → Result Refusal Walker} {test : ℕ → Bool} {is : List Item} where
  pub Walks-require :
      (b : Bool) (e : Refusal)
      → Walks step test is
      → Walks (λ w. require b e >> step w) (λ n. b && test n) is
  Walks-require true e h = h
  Walks-require false e h = record { at = λ w. refl }

  pub Walks-noted :
      (noted : Walker → Walker) (js : List Item)
      → ((w : Walker) → noted w ≡ note_all js w)
      → Walks step test is
      → Walks (λ w. step (noted w)) test (js ++ is)
  Walks-noted noted js same h = record {
    at = λ w.
        ap (λ v. out (step v)) (same w)
        ∙ h.at (note_all js w)
        ∙ ap (λ n. when (test n) (note_all is (note_all js w))) (nest-note_all js w)
        ∙ ap (when (test w.nest)) (sym (note_all-append js is w));
  }

  -- A level of conditions and expressions: what is counted is counted back.
  pub Walks-level : Walks step test is → Walks (leveled step) (λ n. level n && test (n + 1)) is
  unfolding enter
  Walks-level h = record { at = λ w. go w (ltb max_walk_nesting (w.nest + 1)) }
    where
      back : (w : Walker) → left (note_all is (entered w)) ≡ note_all is w
      back w =
          ap left (note_all-at_nest is (w.nest + 1) w)
          ∙ ap (λ n. at_nest n (note_all is w)) (omega (arith))
          ∙ ap (λ n. at_nest n (note_all is w)) (sym (nest-note_all is w))

      finished :
          (r : Result Refusal Walker) (b : Bool) (w : Walker)
          → out r ≡ when b (note_all is (entered w))
          → out (r >>= λ u. ok (left u)) ≡ when b (note_all is w)
      finished (ok u) true w e = ap (λ u. some (left u)) (some-injective e) ∙ ap some (back w)
      finished (ok u) false w e = absurd (none≢some (sym e))
      finished (err x) true w e = absurd (none≢some e)
      finished (err x) false w e = refl

      go :
          (w : Walker) (full : Bool)
          → out (
              (if full then err too_nested else ok (entered w)) >>= λ v.
              step v >>= λ u. ok (left u))
            ≡ when (not full && test (w.nest + 1)) (note_all is w)
      go w true = refl
      go w false = finished (step (entered w)) (test (w.nest + 1)) w (h.at (entered w))

-- A check before a refusal.
pub Walks-none : (b : Bool) (e f : Refusal) → Walks (λ w. require b e >> err f) (λ n. false) []
Walks-none true e f = record { at = λ w. refl }
Walks-none false e f = record { at = λ w. refl }

-- A node that notes its items and holds nothing to walk.
pub Walks-leaf :
    (noted : Walker → Walker) (is : List Item)
    → ((w : Walker) → noted w ≡ note_all is w)
    → Walks (leveled (λ v. ok (noted v))) level is
Walks-leaf noted is same =
    let walked : Walks (λ v. ok (noted v)) (λ n. true) is = record { at = λ w. ap some (same w) } in
    let whole = Walks-level walked in
    record { at = λ w. whole.at w ∙ ap (λ b. when b (note_all is w)) (kept (level w.nest)) }
  where
    kept : (b : Bool) → b && true ≡ b
    kept true = refl
    kept false = refl

-- A node that is refused at any level.
pub Walks-refused : (e : Refusal) → Walks (leveled (λ v. err e)) (λ n. false) []
Walks-refused e =
    let whole = Walks-level (Walks-stop e []) in
    record { at = λ w. whole.at w ∙ ap (λ b. when b w) (dropped (level w.nest)) }
  where
    dropped : (b : Bool) → b && false ≡ false
    dropped true = refl
    dropped false = refl

-- The ID of a collection, which the rest of the step uses.
pub Walks-id :
    (r : Result Refusal String) (step : String → Walker → Result Refusal Walker) (test : ℕ → Bool)
    (is : String → List Item)
    → ((id : String) → Walks (step id) test (is id))
    → Walks (λ w. r >>= λ id. step id w) (λ n. is_ok r && test n) (is (id_of r))
Walks-id (ok id) step test is h = h id
Walks-id (err e) step test is h = record { at = λ w. refl }

-- The names that the nodes note, as items.
pub given_lem :
    (item : String → Item) (name : String) (w : Walker)
    → if_given (λ n w. note (item n) w) name w ≡ note_all (given item name) w
given_lem item name w = elim (Bool-cases (name == "")) [ inl e ↦ rw e refl | inr e ↦ rw e refl ]

excluded :
    (names : List String) (w : Walker)
    → record w { fields = w.fields ++ names } ≡ note_all (map field_named names) w
excluded [] w = λ i. record w { fields = append-nil w.fields i }
excluded (n ∷ ns) w =
    (λ i. record w { fields = sym (append_assoc w.fields (n ∷ []) ns) i })
    ∙ excluded ns (note (field_named n) w)

pub column_noted :
    (alias : String) (wildcard : Option Wildcard) (w : Walker)
    → note_wildcard wildcard (if_given note_identifier alias w)
      ≡ note_all (column_items alias wildcard) w
unfolding note_wildcard
column_noted alias none w =
    given_lem identified alias w
    ∙ ap (λ is. note_all is w) (sym (append-nil (given identified alias)))
column_noted alias (some c) w =
    let names = map field_named c.exclude in
    let sources = given qualified c.source in
    excluded c.exclude (if_given note_qualifier c.source (if_given note_identifier alias w))
    ∙ ap (note_all names) (given_lem qualified c.source (if_given note_identifier alias w))
    ∙ ap (λ v. note_all names (note_all sources v)) (given_lem identified alias w)
    ∙ sym (note_all-append sources names (note_all (given identified alias) w))
    ∙ sym (note_all-append (given identified alias) (sources ++ names) w)

pub collection_noted :
    (ref : CollectionRef) (scan : Orders) (id : String) (w : Walker)
    → note_collection ref scan id w ≡ note_all (collection_items ref scan id) w
unfolding note_collection
collection_noted ref scan id w = elim (Bool-cases (ref.alias == "")) [
  | inl e ↦ rw e refl
  | inr e ↦ rw e refl
]
