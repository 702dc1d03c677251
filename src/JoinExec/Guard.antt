-- ===== src/JoinExec/Guard.antt =====
-- pkg/joinexec/guard.go and limits.go: the budget, the first failure and the statistics of one request. A call is one step on the guard: each holds its mutex.
pub mod Reading
pub mod Budget
use openvaultdb_go.Base.{
  ℕ, suc, ◌+◌, ◌%◌, ◌^◌, String, List, [], ◌∷◌, ◌++◌, length, get_elem?, set, Bool, true, false,
  not, ◌&&◌, ◌||◌, ◌==◌, ◌⊕◌, if◌then◌else◌, Option, none, some, Result, ok, err, ltb, ℤ, pos,
  negsuc, ltb_ℤ, ◌+ℤ◌, ◌-◌, ◌*◌,
}

pub record Limits : Type 0 where
  pub max_source_rows : ℤ
  pub max_source_bytes : ℤ
  pub timeout : ℤ

default_limits : Limits
default_limits = record {
  max_source_rows = pos 100000;
  max_source_bytes = pos (64 * 2 ^ 20);
  timeout = pos (10 * 10 ^ 9);
}

-- A field that is zero or negative takes its default.
positive_or : ℤ → ℤ → ℤ
positive_or l d = if ltb_ℤ (pos 0) l then l else d

unfoldable with_defaults : Limits → Limits
unfolding default_limits positive_or
with_defaults l = record {
  max_source_rows = positive_or l.max_source_rows default_limits.max_source_rows;
  max_source_bytes = positive_or l.max_source_bytes default_limits.max_source_bytes;
  timeout = positive_or l.timeout default_limits.timeout;
}

pub data BudgetName : Type 0 where
  source_rows source_bytes : BudgetName

-- The failures that the guard records: its own, and those of a leaf by their text.
pub data Failure : Type 0 where
  over_budget : BudgetName → ℤ → String → Failure
  row_not_encodable : String → Failure
  source_failed : String → String → Failure
  refused : String → Failure

pub record SourceStats : Type 0 where
  pub database : String
  pub collection : String
  pub rows : ℕ
  pub elapsed : ℤ
  pub protected : Bool

-- `rows` and `bytes` are the words of an int64.
pub record Guard : Type 0 where
  pub limits : Limits
  pub rows : ℕ
  pub bytes : ℕ
  pub failure : Option Failure
  pub stats : List SourceStats
  pub index : List ((String × String) × ℕ)

unfoldable new_guard : Limits → Guard
new_guard l = record {
  limits = with_defaults l;
  rows = 0;
  bytes = 0;
  failure = none;
  stats = [];
  index = [];
}

-- The sum of two int64, and a word read as a signed number.
abbrev pub add_int64 : ℕ → ℕ → ℕ
add_int64 a b = (a + b) % 2 ^ 64

abbrev pub signed : ℕ → ℤ
signed w = if ltb w (2 ^ 63) then pos w else negsuc (2 ^ 64 - 1 - w)

pub or_failure : Option Failure → Failure → Failure
or_failure none e = e
or_failure (some f) e = f

-- `fail`: the first failure stays.
unfoldable pub fail : Failure → Guard → Guard
unfolding or_failure
fail e g = record g { failure = some (or_failure g.failure e) }

-- The `switch` of `charge`, when no failure is recorded.
unfoldable pub charge_row : ℕ → String → Guard → Guard
charge_row size path g =
    if ltb_ℤ g.limits.max_source_rows (signed (add_int64 g.rows 1))
    then record g { failure = some (over_budget source_rows g.limits.max_source_rows path) }
    else (if ltb_ℤ g.limits.max_source_bytes (signed (add_int64 g.bytes size))
        then record g { failure = some (over_budget source_bytes g.limits.max_source_bytes path) }
        else record g { rows = add_int64 g.rows 1; bytes = add_int64 g.bytes size })

-- `charge`: a row of `size` bytes, counted when it fits. The result is the failure in force.
unfoldable pub charge : ℕ → String → Guard → Guard
charge size path g = elim g.failure [ some f ↦ g | none ↦ charge_row size path g ]

-- The index is a map with pairs of names as keys.
same_key : String × String → String × String → Bool
same_key (d, c) (d', c') = d == d' && c == c'

unfoldable pub find_index : String × String → List ((String × String) × ℕ) → Option ℕ
unfolding same_key
find_index key [] = none
find_index key ((k, i) ∷ index) = if same_key k key then some i else find_index key index

added : SourceStats → Bool → ℕ → ℤ → SourceStats
added s protected rows elapsed = record s {
  rows = s.rows + rows;
  elapsed = s.elapsed +ℤ elapsed;
  protected = s.protected || protected;
}

add_at : List SourceStats → Option SourceStats → ℕ → Bool → ℕ → ℤ → List SourceStats
unfolding added
add_at stats none i protected rows elapsed = stats
add_at stats (some s) i protected rows elapsed = set stats i (added s protected rows elapsed)

fresh : String → String → SourceStats
fresh database collection = record {
  database = database;
  collection = collection;
  rows = 0;
  elapsed = pos 0;
  protected = false;
}

-- The body of `record`, by what the index holds.
unfoldable pub add_read : Option ℕ → String → String → Bool → ℕ → ℤ → Guard → Guard
unfolding add_at fresh
add_read (some i) database collection protected rows elapsed g = record g {
  stats = add_at g.stats (get_elem? g.stats i) i protected rows elapsed;
}
add_read none database collection protected rows elapsed g =
    let i = length g.stats in
    let stats = g.stats ++ (fresh database collection ∷ []) in
    record g {
      stats = add_at stats (get_elem? stats i) i protected rows elapsed;
      index = ((database, collection), i) ∷ g.index;
    }

-- `record`: a finished read, added to the entry of its collection, which is made at the first read.
unfoldable pub record_read : String → String → Bool → ℕ → ℤ → Guard → Guard
record_read database collection protected rows elapsed g =
    add_read (find_index (database, collection) g.index) database collection protected rows elapsed
      g
