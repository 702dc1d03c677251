-- ===== src/JoinExec/Guard/Reading/Interleaved.antt =====
-- pkg/joinexec/leaf.go and guard.go: `Next` of a counting reader, with other leaves of the same request
-- at work between its critical sections.
use openvaultdb_go.Base.{
  none≢some, ℕ, ◌+◌, String, List, [], ◌∷◌, Bool, Option, none, some, ℤ, ◌≡◌, refl, sym, ap, ◌∙◌,
  if-both, Option-cases, inl, inr,
}
use openvaultdb_go.JoinExec.Guard.{
  Guard, Failure, or_failure, fail, charge, record_read, add_read, find_index,
}
use openvaultdb_go.JoinExec.Guard.Budget.{charge-failed}
use openvaultdb_go.JoinExec.Guard.Reading.{
  Reader, Answer, row, end_of_stream, failed, Next, delivered, no_more_records, stopped, next,
  answered, ended, charged, fail_with, finish, path_of, Section, fails, charges, records, enter,
  others,
}

record_read-failure :
    (database collection : String) (protected : Bool) (rows : ℕ) (elapsed : ℤ) (g : Guard)
    → (record_read database collection protected rows elapsed g).failure ≡ g.failure
unfolding record_read add_read
record_read-failure database collection protected rows elapsed g =
    go (find_index (database, collection) g.index)
  where
    go :
        (o : Option ℕ)
        → (add_read o database collection protected rows elapsed g).failure ≡ g.failure
    go none = refl
    go (some i) = refl

finish-failure : (elapsed : ℤ) (r : Reader) (g : Guard) → (finish elapsed r g).1.failure ≡ g.failure
unfolding finish
finish-failure elapsed r g =
    if-both {A = Reader × Guard} (λ p. p.1.failure ≡ g.failure) r.finished refl
      (record_read-failure _ _ _ _ _ g)

-- A failure stays, whatever other leaves do.
enter-keeps :
    (c : Section) (g : Guard) (f : Failure) → g.failure ≡ some f → (enter c g).failure ≡ some f
unfolding enter fail or_failure
enter-keeps (fails e) g f h = ap (λ o. some (or_failure o e)) h
enter-keeps (charges size path) g f h = ap (λ g. g.failure) (charge-failed size path g h) ∙ h
enter-keeps (records database collection protected rows elapsed) g f h =
    record_read-failure database collection protected rows elapsed g ∙ h

others-keeps :
    (cs : List Section) (g : Guard) (f : Failure)
    → g.failure ≡ some f
    → (others cs g).failure ≡ some f
unfolding others
others-keeps [] g f h = h
others-keeps (c ∷ cs) g f h = others-keeps cs (enter c g) f (enter-keeps c g f h)

charge-keeps :
    (size : ℕ) (path : String) (g : Guard) (f : Failure)
    → g.failure ≡ some f
    → (charge size path g).failure ≡ some f
charge-keeps size path g f h = unfold enter in enter-keeps (charges size path) g f h

-- What is not failed after a charge was not before it.
charge-healthy :
    (size : ℕ) (path : String) (g : Guard) → (charge size path g).failure ≡ none → g.failure ≡ none
charge-healthy size path g h = elim (Option-cases g.failure) [
  | inl healthy ↦ healthy
  | inr (f, failed_before) ↦ absurd (none≢some (sym h ∙ charge-keeps size path g f failed_before))
]

module _ {Row : Type 0} where
  -- What a call of `Next` on the guard `g` may have ended with.
  unfoldable pub Sound :
      Option String
      → Answer Row
      → List Section
      → Reader
      → Guard
      → Reader × Guard × Next Row
      → Type 0
  -- The failure that stopped the reader is the one that the guard has recorded.
  Sound ctx answer first r g (r', g', stopped f) = g'.failure ≡ some f
  -- A row was charged to a guard that had no failure, and has none with it.
  Sound ctx answer first r g (r', g', delivered x) =
      (size : ℕ) × (answer ≡ row x (some size))
      × (ctx ≡ none)
      × (g.failure ≡ none)
      × ((others first g).failure ≡ none)
      × (g' ≡ charge size (path_of r) (others first g))
      × (g'.failure ≡ none)
      × (r'.rows ≡ r.rows + 1)
  -- The end of the stream is the source's.
  Sound ctx answer first r g (r', g', no_more_records) =
      (answer ≡ end_of_stream) × (ctx ≡ none) × (g.failure ≡ none)

  fail_with-Sound :
      (ctx : Option String) (answer : Answer Row) (first second : List Section) (e : Failure)
      (r : Reader) (g : Guard) (p : Reader × Guard)
      → Sound ctx answer first r g (fail_with e second p)
  unfolding Sound fail_with fail
  fail_with-Sound ctx answer first second e r g (r', h) = refl

  ended-Sound :
      (elapsed : ℤ) (ctx : Option String) (answer : Answer Row) (cs first : List Section)
      (r : Reader) (g h : Guard) (f : Failure)
      → h.failure ≡ some f
      → Sound ctx answer first r g (ended (stopped f) (finish elapsed r (others cs h)))
  unfolding Sound ended
  ended-Sound elapsed ctx answer cs first r g h f e =
      finish-failure elapsed r (others cs h) ∙ others-keeps cs h f e

  charged-Sound :
      (o : Option Failure) (elapsed : ℤ) (first second : List Section) (x : Row) (size : ℕ)
      (r : Reader) (g : Guard)
      → g.failure ≡ none
      → (charge size (path_of r) (others first g)).failure ≡ o
      → Sound none
          (row x (some size))
          first
          r
          g
          (charged o elapsed second x r (charge size (path_of r) (others first g)))
  unfolding Sound charged
  charged-Sound (some f) elapsed first second x size r g healthy e =
      ended-Sound elapsed none (row x (some size)) second first r g _ f e
  charged-Sound none elapsed first second x size r g healthy e =
      (size, refl, refl, healthy, charge-healthy size (path_of r) (others first g) e, refl, e, refl)

  answered-Sound :
      (o : Option Failure) (ctx : Option String) (answer : Answer Row) (elapsed : ℤ)
      (first second : List Section) (r : Reader) (g : Guard)
      → g.failure ≡ o
      → Sound ctx answer first r g (answered o ctx answer elapsed first second r g)
  unfolding answered
  answered-Sound (some f) ctx answer elapsed first second r g e =
      ended-Sound elapsed ctx answer first first r g g f e
  answered-Sound none (some c) answer elapsed first second r g e =
      fail_with-Sound (some c) answer first second _ r g (finish elapsed r (others first g))
  answered-Sound none none end_of_stream elapsed first second r g e =
      unfold Sound ended in (refl, refl, e)
  answered-Sound none none (failed c) elapsed first second r g e =
      fail_with-Sound none (failed c) first second _ r g (finish elapsed r (others first g))
  answered-Sound none none (row x none) elapsed first second r g e =
      fail_with-Sound none (row x none) first second _ r g (finish elapsed r (others first g))
  answered-Sound none none (row x (some size)) elapsed first second r g e =
      charged-Sound _ elapsed first second x size r g e refl

  -- A call of `Next`, whatever other leaves do to the guard between its critical sections, ends in
  -- one of three ways. It stops with a failure, which is the one that the guard has recorded. It
  -- delivers the row of the source, counted and charged to a guard that had no failure then and
  -- has none with the row. Or it passes on the end of the stream, which the source gave to a live
  -- request whose guard had no failure when the call began.
  pub next-Sound :
      (elapsed : ℤ) (ctx : Option String) (answer : Answer Row) (first second : List Section)
      (r : Reader) (g : Guard)
      → Sound ctx answer first r g (next elapsed ctx answer first second r g)
  unfolding next
  next-Sound elapsed ctx answer first second r g =
      answered-Sound g.failure ctx answer elapsed first second r g refl
