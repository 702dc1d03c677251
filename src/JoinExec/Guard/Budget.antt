-- ===== src/JoinExec/Guard/Budget.antt =====
-- pkg/joinexec/guard.go: the rows and bytes of a request stay within its budget.
use openvaultdb_go.Base.{
  none≢some, ℕ, suc, ◌+◌, ◌^◌, ◌≤◌, ◌<◌, String, List, [], ◌∷◌, length, if◌then◌else◌, none, some,
  pos, ltb_ℤ, ◌≡◌, sym, ap, ◌∙◌, ◌↔◌, inl, inr, arith, ltb, lt→ltb, Bool-cases, if_true, if_false,
  All, subst, ltb→lt,
}
use openvaultdb_go.JoinExec.Guard.{
  Guard, Failure, charge, charge_row, add_int64, signed, over_budget, source_rows, source_bytes,
}

-- The rows of a request, one after the other: the size of each, and its path.
unfoldable pub charge_all : List (ℕ × String) → Guard → Guard
charge_all [] g = g
charge_all ((size, path) ∷ rows) g = charge_all rows (charge size path g)

unfoldable pub total : List (ℕ × String) → ℕ
total [] = 0
total ((size, path) ∷ rows) = size + total rows

-- The budget of a request, in numbers that an int64 holds with room for one more row.
unfoldable pub HasBudget : ℕ → ℕ → Guard → Type 0
HasBudget max_rows max_bytes g =
    (g.limits.max_source_rows ≡ pos max_rows)
    × (g.limits.max_source_bytes ≡ pos max_bytes)
    × (g.rows ≤ max_rows)
    × (g.bytes ≤ max_bytes)

add_int64-small : (a b : ℕ) → a + b < 2 ^ 63 → add_int64 a b ≡ a + b
add_int64-small a b h = omega arith

signed-small : (w : ℕ) → w < 2 ^ 63 → signed w ≡ pos w
signed-small w h = if_true _ _ (lt→ltb w _ h)

exceeds-small :
    (a b limit : ℕ)
    → a + b < 2 ^ 63
    → ltb_ℤ (pos limit) (signed (add_int64 a b)) ≡ ltb limit (a + b)
exceeds-small a b limit h =
    ap (λ w. ltb_ℤ (pos limit) (signed w)) (add_int64-small a b h)
    ∙ ap (ltb_ℤ (pos limit)) (signed-small (a + b) h)
    ∙ ground arith

-- A charge on a guard without a failure, in numbers: nothing wraps around.
charge-eq :
    (size : ℕ) (path : String) (g : Guard) (max_rows max_bytes : ℕ)
    → HasBudget max_rows max_bytes g
    → g.failure ≡ none
    → max_rows + 1 < 2 ^ 63
    → max_bytes + size < 2 ^ 63
    → charge size path g ≡ (
        if ltb max_rows (g.rows + 1)
        then record g { failure = some (over_budget source_rows g.limits.max_source_rows path) }
        else (if ltb max_bytes (g.bytes + size)
            then record g {
              failure = some (over_budget source_bytes g.limits.max_source_bytes path);
            }
            else record g { rows = g.rows + 1; bytes = g.bytes + size }))
unfolding charge charge_row HasBudget
charge-eq size path g max_rows max_bytes (lr, lb, r, b) healthy wr wb =
    let row_test =
      ap (λ l. ltb_ℤ l (signed (add_int64 g.rows 1))) lr
      ∙ exceeds-small g.rows 1 max_rows (omega arith) in
    let byte_test =
      ap (λ l. ltb_ℤ l (signed (add_int64 g.bytes size))) lb
      ∙ exceeds-small g.bytes size max_bytes (omega arith) in
    ap (λ o. elim o [ some f ↦ g | none ↦ charge_row size path g ]) healthy
    ∙ rw (
      row_test,
      byte_test,
      add_int64-small g.rows 1 (omega arith),
      add_int64-small g.bytes size (omega arith),
    )

pub charge-failed :
    (size : ℕ) (path : String) (g : Guard) {f : Failure}
    → g.failure ≡ some f
    → charge size path g ≡ g
unfolding charge
charge-failed size path g h = ap (λ o. elim o [ some f ↦ g | none ↦ charge_row size path g ]) h

charge_all-failed :
    (rows : List (ℕ × String)) (g : Guard) {f : Failure}
    → g.failure ≡ some f
    → (charge_all rows g).failure ≡ some f
unfolding charge_all
charge_all-failed [] g h = h
charge_all-failed ((size, path) ∷ rows) g h =
    ap (λ g. (charge_all rows g).failure) (charge-failed size path g h) ∙ charge_all-failed rows g h

-- The rows charged to a guard without a failure leave it without one exactly when their number and
-- their fit in what is left of its budget. The budget and the size of each row must be small
-- enough for the sums of an int64.
pub charge_all_iff :
    (rows : List (ℕ × String)) (g : Guard) (max_rows max_bytes : ℕ)
    → HasBudget max_rows max_bytes g
    → g.failure ≡ none
    → max_rows + 1 < 2 ^ 63
    → All (λ row. max_bytes + row.0 < 2 ^ 63) rows
    → ((charge_all rows g).failure ≡ none)
      ↔ ((g.rows + length rows ≤ max_rows) × (g.bytes + total rows ≤ max_bytes))
unfolding charge_all total HasBudget
charge_all_iff [] g max_rows max_bytes budget healthy wr ws = ground arith
charge_all_iff ((size, path) ∷ rows) g max_rows max_bytes budget healthy wr (w, ws) =
    let eq = charge-eq size path g max_rows max_bytes budget healthy wr w in
    elim (Bool-cases (ltb max_rows (g.rows + 1))) [
      | inl over ↦
          let too_many = ltb→lt max_rows (g.rows + 1) over in
          let dead =
            charge_all-failed rows (charge size path g)
              (ap (λ g. g.failure) (eq ∙ if_true _ _ over)) in
          (λ h. absurd (none≢some (sym h ∙ dead)), λ (r, _). absurd (omega arith))
      | inr rows_fit ↦ elim (Bool-cases (ltb max_bytes (g.bytes + size))) [
        | inl over ↦
            let too_large = ltb→lt max_bytes (g.bytes + size) over in
            let dead =
              charge_all-failed rows (charge size path g)
                (ap (λ g. g.failure) (eq ∙ if_false _ _ rows_fit ∙ if_true _ _ over)) in
            (λ h. absurd (none≢some (sym h ∙ dead)), λ (_, b). absurd (omega arith))
        | inr bytes_fit ↦
            let (lr, lb, _, _) = budget in
            let fit : (g.rows + 1 ≤ max_rows) × (g.bytes + size ≤ max_bytes) =
              (ground arith, ground arith) in
            let more =
              charge_all_iff rows (record g { rows = g.rows + 1; bytes = g.bytes + size }) max_rows
                max_bytes (lr, lb, fit.0, fit.1) healthy wr ws in
            subst
              (λ c. ((charge_all rows c).failure ≡ none) ↔ (
                (g.rows + suc (length rows) ≤ max_rows)
                × (g.bytes + (size + total rows) ≤ max_bytes)))
              (sym (eq ∙ if_false _ _ rows_fit ∙ if_false _ _ bytes_fit))
              (
                λ h. let (r, b) = more.0 h in (omega arith, omega arith),
                λ (r, b). more.1 (omega arith, omega arith),
              )
      ]
    ]
