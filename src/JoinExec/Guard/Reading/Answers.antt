-- ===== src/JoinExec/Guard/Reading/Answers.antt =====
-- pkg/joinexec/guard.go and leaf.go: a request is answered with every row or with an error.
use openvaultdb_go.Base.{
  some-injective, All, none≢some, String, List, [], ◌∷◌, Option, none, some, ok, ◌≡◌, refl, sym, ap,
  ◌∙◌, ◌↔◌, ok-injective, ok≢err,
}
use openvaultdb_go.JoinExec.Guard.{Guard, Failure}
use openvaultdb_go.JoinExec.Guard.Reading.{
  Read, record_read_ok, read_end, read_error, RequestError, guard_failure, mapped, classify,
  then_row, drain, closing, collect, or_close, answer_of,
}

classify_iff :
    (map_error : String → String) (g : Guard) (e : Option String)
    → (classify map_error g e ≡ none) ↔ ((g.failure ≡ none) × (e ≡ none))
unfolding classify
classify_iff map_error g e = go g.failure e
  where
    go :
        (f : Option Failure) (e : Option String)
        → (elim f [
          | some f ↦ some (guard_failure f)
          | none ↦ elim e [ none ↦ none | some e ↦ some (mapped (map_error e)) ]
        ]
            ≡ none)
          ↔ ((f ≡ none) × (e ≡ none))
    go none none = (λ h. (refl, refl), λ h. refl)
    go none (some e) = (λ h. absurd (none≢some (sym h)), λ (_, h). absurd (none≢some (sym h)))
    go (some f) e = (λ h. absurd (none≢some (sym h)), λ (h, _). absurd (none≢some (sym h)))

or_close_iff :
    (e closed : Option String) → (or_close e closed ≡ none) ↔ ((e ≡ none) × (closed ≡ none))
unfolding or_close
or_close_iff none closed = (λ h. (refl, h), λ (_, h). h)
or_close_iff (some e) closed =
    (λ h. absurd (none≢some (sym h)), λ (h, _). absurd (none≢some (sym h)))

module _ {Row : Type 0} where
  -- The turns gave exactly these rows and then the end of the stream, the request alive at each.
  unfoldable pub ReadsAll : List (Option String × Read Row) → List Row → Type 0
  ReadsAll [] rows = ⊥
  ReadsAll ((some e, r) ∷ reads) rows = ⊥
  ReadsAll ((none, read_end) ∷ reads) rows = rows ≡ []
  ReadsAll ((none, read_error e) ∷ reads) rows = ⊥
  ReadsAll ((none, record_read_ok x) ∷ reads) rows =
      (rest : List Row) × (rows ≡ x ∷ rest) × ReadsAll reads rest

  -- Every turn so far gave a row.
  unfoldable pub OnlyRows : List (Option String × Read Row) → Type 0
  OnlyRows reads = All (λ t. (t.0 ≡ none) × ((x : Row) × (t.1 ≡ record_read_ok x))) reads

  then_row-none : (x : Row) (o : Option (List Row × Option String)) → then_row x o ≡ none → o ≡ none
  unfolding then_row
  then_row-none x none h = refl
  then_row-none x (some p) h = cc

  drain-none_iff : (reads : List (Option String × Read Row)) → (drain reads ≡ none) ↔ OnlyRows reads
  unfolding drain then_row OnlyRows
  drain-none_iff [] = (λ h. tt, λ h. refl)
  drain-none_iff ((some e, r) ∷ reads) = (λ h. cc, λ ((p, _), _). cc)
  drain-none_iff ((none, read_end) ∷ reads) = (λ h. cc, λ ((_, (x, p)), _). cc)
  drain-none_iff ((none, read_error e) ∷ reads) = (λ h. cc, λ ((_, (x, p)), _). cc)
  drain-none_iff ((none, record_read_ok x) ∷ reads) = (
    λ h. ((refl, (x, refl)), (drain-none_iff reads).0 (then_row-none x (drain reads) h)),
    λ (_, h). ap (then_row x) ((drain-none_iff reads).1 h),
  )

  then_row-some :
      (x : Row) (o : Option (List Row × Option String)) (rows : List Row) (e : Option String)
      → then_row x o ≡ some (rows, e)
      → (rest : List Row) × (rows ≡ x ∷ rest) × (o ≡ some (rest, e))
  unfolding then_row
  then_row-some x none rows e h = cc
  then_row-some x (some (rest, f)) rows e h =
      let same = some-injective h in
      (rest, sym (ap (λ p. p.0) same), ap (λ p. some (rest, p.1)) same)

  drain-ReadsAll_iff :
      (reads : List (Option String × Read Row)) (rows : List Row)
      → (drain reads ≡ some (rows, none)) ↔ ReadsAll reads rows
  unfolding drain ReadsAll
  drain-ReadsAll_iff [] rows = (λ h. absurd (none≢some h), λ h. elim h [ ])
  drain-ReadsAll_iff ((some e, r) ∷ reads) rows =
      (λ h. absurd (none≢some (sym (ap (λ p. p.1) (some-injective h)))), λ h. elim h [ ])
  drain-ReadsAll_iff ((none, read_end) ∷ reads) rows =
      (λ h. sym (ap (λ p. p.0) (some-injective h)), λ h. ap (λ r. some (r, none)) (sym h))
  drain-ReadsAll_iff ((none, read_error e) ∷ reads) rows =
      (λ h. absurd (none≢some (sym (ap (λ p. p.1) (some-injective h)))), λ h. elim h [ ])
  drain-ReadsAll_iff ((none, record_read_ok x) ∷ reads) rows = (
    λ h.
        let (rest, front, later) = then_row-some x (drain reads) rows none h in
        (rest, front, (drain-ReadsAll_iff reads rest).0 later),
    λ (rest, front, all).
        ap (then_row x) ((drain-ReadsAll_iff reads rest).1 all)
        ∙ (unfold then_row in (ap (λ r. some (r, none)) (sym front))),
  )

  answer_of_iff :
      (rows out : List Row) (e : Option RequestError)
      → (answer_of rows e ≡ ok out) ↔ ((e ≡ none) × (rows ≡ out))
  unfolding answer_of
  answer_of_iff rows out none = (λ h. (refl, ok-injective h), λ (_, h). ap ok h)
  answer_of_iff rows out (some e) =
      (λ h. absurd (ok≢err (sym h)), λ (h, _). absurd (none≢some (sym h)))

  closing-none_iff :
      (map_error : String → String) (g : Guard) (closed : Option String)
      (o : Option (List Row × Option String))
      → (closing map_error g closed o ≡ none) ↔ (o ≡ none)
  unfolding closing
  closing-none_iff map_error g closed none = (λ h. refl, λ h. refl)
  closing-none_iff map_error g closed (some p) = (λ h. cc, λ h. cc)

  closing-ok_iff :
      (map_error : String → String) (g : Guard) (closed : Option String)
      (o : Option (List Row × Option String)) (out : List Row)
      → (closing map_error g closed o ≡ some (ok out))
        ↔ ((g.failure ≡ none) × (closed ≡ none) × (o ≡ some (out, none)))
  unfolding closing
  closing-ok_iff map_error g closed none out =
      (λ h. absurd (none≢some h), λ (_, _, h). absurd (none≢some h))
  closing-ok_iff map_error g closed (some (rows, e)) out = (
    λ h.
        let (quiet, same) = (answer_of_iff rows out _).0 (some-injective h) in
        let (healthy, errors) = (classify_iff map_error g _).0 quiet in
        let (drained, shut) = (or_close_iff e closed).0 errors in
        (healthy, shut, ap (λ e. some (rows, e)) drained ∙ ap (λ r. some (r, none)) same),
    λ (healthy, shut, done).
        let ends = some-injective done in
        ap some (
          (answer_of_iff rows out _).1 (
            (classify_iff map_error g _).1
                (healthy, (or_close_iff e closed).1 (ap (λ p. p.1) ends, shut)),
            ap (λ p. p.0) ends,
          )),
  )

  -- `Collect` has no answer yet exactly when every turn so far gave a row, the request alive at
  -- each. It answers with rows exactly when the guard recorded no failure, the reader closed
  -- without an error, and the turns gave just these rows and then the end of the stream, the
  -- request alive at each: an answer is never partial.
  pub collect_iff :
      (map_error : String → String) (g : Guard) (closed : Option String)
      (reads : List (Option String × Read Row)) (rows : List Row)
      → ((collect map_error g closed reads ≡ none) ↔ OnlyRows reads)
        × ((collect map_error g closed reads ≡ some (ok rows))
            ↔ ((g.failure ≡ none) × (closed ≡ none) × ReadsAll reads rows))
  unfolding collect
  collect_iff map_error g closed reads rows =
      let (running, waits) = closing-none_iff map_error g closed (drain reads) in
      let (answers, given) = closing-ok_iff map_error g closed (drain reads) rows in
      let (only, onto) = drain-none_iff reads in
      let (all, drained) = drain-ReadsAll_iff reads rows in
      (
        (λ h. only (running h), λ h. waits (onto h)),
        (
          λ h. let (healthy, shut, done) = answers h in (healthy, shut, all done),
          λ (healthy, shut, done). given (healthy, shut, drained done),
        ),
      )
