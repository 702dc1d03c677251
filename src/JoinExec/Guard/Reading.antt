-- ===== src/JoinExec/Guard/Reading.antt =====
-- pkg/joinexec/leaf.go and guard.go: the counting reader of a source, and `Collect`, which drains the
-- reader that DALgo returns.
pub mod Answers
pub mod Interleaved
use openvaultdb_go.Base.{
  ℕ, ◌+◌, String, List, [], ◌∷◌, Bool, true, ◌⊕◌, if◌then◌else◌, Option, none, some, Result, ok,
  err, ℤ,
}
use openvaultdb_go.JoinExec.Guard.{
  Failure, row_not_encodable, source_failed, Guard, or_failure, fail, charge, record_read,
}

-- The counting reader of one collection.
pub record Reader : Type 0 where
  pub database : String
  pub collection : String
  pub has_access_policies : Bool
  pub rows : ℕ
  pub finished : Bool

-- What the source's reader answers, with the size of the row as JSON if it can be encoded.
pub data Answer (Row : Type 0) : Type 0 where
  row : Row → Option ℕ → Answer Row
  end_of_stream : Answer Row
  failed : String → Answer Row

pub data Next (Row : Type 0) : Type 0 where
  delivered : Row → Next Row
  no_more_records : Next Row
  stopped : Failure → Next Row

-- A critical section of the guard: a call of another leaf, which holds the mutex for itself.
pub data Section : Type 0 where
  fails : Failure → Section
  charges : ℕ → String → Section
  records : String → String → Bool → ℕ → ℤ → Section

unfoldable pub enter : Section → Guard → Guard
enter (fails e) g = fail e g
enter (charges size path) g = charge size path g
enter (records database collection protected rows elapsed) g =
    record_read database collection protected rows elapsed g

-- What other leaves do to the guard, in the order in which they take the mutex.
unfoldable pub others : List Section → Guard → Guard
unfolding enter
others [] g = g
others (c ∷ cs) g = others cs (enter c g)

-- `finish`, at most once for a reader; `elapsed` is the time since it was opened.
unfoldable pub finish : ℤ → Reader → Guard → Reader × Guard
finish elapsed r g = if r.finished then (r, g) else (
  record r { finished = true },
  record_read r.database r.collection r.has_access_policies r.rows elapsed g,
)

ended : {Row : Type 0} → Next Row → Reader × Guard → Reader × Guard × Next Row
ended next (r, g) = (r, g, next)

-- `fail`, after the sections of others: the result is the failure in force.
fail_with : {Row : Type 0} → Failure → List Section → Reader × Guard → Reader × Guard × Next Row
fail_with e second (r, g) =
    let h = others second g in (r, fail e h, stopped (or_failure h.failure e))

pub path_of : Reader → String
path_of r = r.database ⊕ "." ⊕ r.collection

-- After `charge`, which left the guard `h` and answered with its failure.
charged :
    {Row : Type 0}
    → Option Failure
    → ℤ
    → List Section
    → Row
    → Reader
    → Guard
    → Reader × Guard × Next Row
unfolding ended
charged (some f) elapsed second x r h = ended (stopped f) (finish elapsed r (others second h))
charged none elapsed second x r h = (record r { rows = r.rows + 1 }, h, delivered x)

-- After `Err`, which found this failure. The source is called between the first two sections.
answered :
    {Row : Type 0}
    → Option Failure
    → Option String
    → Answer Row
    → ℤ
    → List Section
    → List Section
    → Reader
    → Guard
    → Reader × Guard × Next Row
unfolding fail_with charged path_of
answered (some f) ctx answer elapsed first second r g =
    ended (stopped f) (finish elapsed r (others first g))
answered none (some e) answer elapsed first second r g =
    fail_with (source_failed (path_of r) e) second (finish elapsed r (others first g))
answered none none end_of_stream elapsed first second r g =
    ended no_more_records (finish elapsed r (others first g))
answered none none (failed e) elapsed first second r g =
    fail_with (source_failed (path_of r) e) second (finish elapsed r (others first g))
answered none none (row x none) elapsed first second r g =
    fail_with (row_not_encodable (path_of r)) second (finish elapsed r (others first g))
answered none none (row x (some size)) elapsed first second r g =
    let h = charge size (path_of r) (others first g) in charged h.failure elapsed second x r h

-- `Next` takes the mutex up to three times; `first` and `second` are what other leaves do between
-- those times. `ctx` is the error of the request's context, if it has ended.
unfoldable pub next :
    {Row : Type 0}
    → ℤ
    → Option String
    → Answer Row
    → List Section
    → List Section
    → Reader
    → Guard
    → Reader × Guard × Next Row
unfolding answered
next elapsed ctx answer first second r g = answered g.failure ctx answer elapsed first second r g

-- What the reader that DALgo returns gives, and the request's context before it.
pub data Read (Row : Type 0) : Type 0 where
  record_read_ok : Row → Read Row
  read_end : Read Row
  read_error : String → Read Row

pub data RequestError : Type 0 where
  guard_failure : Failure → RequestError
  mapped : String → RequestError

-- `Classify`; `map_error` is `MapDalgoError`, which leaves an error an error.
unfoldable pub classify : (String → String) → Guard → Option String → Option RequestError
classify map_error g e = elim g.failure [
  | some f ↦ some (guard_failure f)
  | none ↦ elim e [ none ↦ none | some e ↦ some (mapped (map_error e)) ]
]

-- A further row before what a later turn ends with.
then_row :
    {Row : Type 0} → Row → Option (List Row × Option String) → Option (List Row × Option String)
then_row x none = none
then_row x (some (rows, e)) = some (x ∷ rows, e)

-- The loop of `Collect`, on the turns so far: the rows, in order, and the error that ended it. It ends
-- at the end of the stream or at an error only: there is nothing yet when every turn gave a row.
unfoldable pub drain :
    {Row : Type 0} → List (Option String × Read Row) → Option (List Row × Option String)
unfolding then_row
drain [] = none
drain ((some e, r) ∷ reads) = some ([], some e)
drain ((none, read_end) ∷ reads) = some ([], none)
drain ((none, read_error e) ∷ reads) = some ([], some e)
drain ((none, record_read_ok x) ∷ reads) = then_row x (drain reads)

or_close : Option String → Option String → Option String
or_close none closed = closed
or_close (some e) closed = some e

answer_of : {Row : Type 0} → List Row → Option RequestError → Result RequestError (List Row)
answer_of rows none = ok rows
answer_of rows (some e) = err e

-- What follows the loop: `Close`, and `Classify` of the first error.
closing :
    {Row : Type 0}
    → (String → String)
    → Guard
    → Option String
    → Option (List Row × Option String)
    → Option (Result RequestError (List Row))
unfolding or_close answer_of
closing map_error g closed none = none
closing map_error g closed (some (rows, e)) =
    some (answer_of rows (classify map_error g (or_close e closed)))

-- `Collect`: `g` is the guard once the reader was drained and closed. No answer while the loop runs.
unfoldable pub collect :
    {Row : Type 0}
    → (String → String)
    → Guard
    → Option String
    → List (Option String × Read Row)
    → Option (Result RequestError (List Row))
unfolding closing
collect map_error g closed reads = closing map_error g closed (drain reads)
