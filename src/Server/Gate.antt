-- ===== src/Server/Gate.antt =====
-- pkg/server/querylimits.go: the limits of relational queries and the gate that counts those that
-- run. Goroutines meet at the channels only: a history is a list of events.
pub mod Counting
pub mod Normalized
use openvaultdb_go.Base.{
  ℕ, zero, suc, ◌+◌, ◌-◌, ◌*◌, ◌^◌, String, List, [], ◌∷◌, ◌++◌, length, get_elem?, set, Bool, true,
  false, not, ◌&&◌, ◌||◌, ◌==◌, if◌then◌else◌, Option, none, some, ltb, ℤ, pos, negsuc, pos_part,
  ltb_ℤ, eqb_ℤ, lookup, insert,
}

pub record QueryLimits : Type 0 where
  pub timeout : ℤ
  pub in_memory : ℤ
  pub database : ℤ
  pub queue_wait : ℤ
  pub max_source_rows : ℤ
  pub max_source_bytes : ℤ
  pub join_engines : List String

unfoldable pub default_query_limits : QueryLimits
default_query_limits = record {
  timeout = pos (10 * 10 ^ 9);
  in_memory = pos 2;
  database = pos 4;
  queue_wait = pos (10 ^ 9);
  max_source_rows = pos 100000;
  max_source_bytes = pos (64 * 2 ^ 20);
  join_engines = "sqlite" ∷ "ingitdb" ∷ [];
}

unfoldable pub or_default : ℤ → ℤ → ℤ
or_default l d = if ltb_ℤ (pos 0) l then l else d

engines_or : List String → List String → List String
engines_or [] d = d
engines_or (e ∷ es) d = e ∷ es

unfoldable pub normalize_query_limits : QueryLimits → QueryLimits
unfolding default_query_limits or_default engines_or
normalize_query_limits l = record {
  timeout = or_default l.timeout default_query_limits.timeout;
  in_memory = or_default l.in_memory default_query_limits.in_memory;
  database = or_default l.database default_query_limits.database;
  queue_wait = if eqb_ℤ l.queue_wait (pos 0) then default_query_limits.queue_wait else l.queue_wait;
  max_source_rows = or_default l.max_source_rows default_query_limits.max_source_rows;
  max_source_bytes = or_default l.max_source_bytes default_query_limits.max_source_bytes;
  join_engines = engines_or l.join_engines default_query_limits.join_engines;
}

-- A buffered channel of empty values: its capacity, and how many it holds.
pub record Slots : Type 0 where
  pub capacity : ℕ
  pub held : ℕ

-- A release function that was handed out, and whether it has been called.
pub record Release : Type 0 where
  pub route : String
  pub done : Bool

pub record Gate : Type 0 where
  pub slots : List (String × Slots)
  pub wait : ℤ
  pub releases : List Release

abbrev pub route_in_memory : String
route_in_memory = "in-memory"

abbrev pub route_database : String
route_database = "database"

unfoldable pub new_query_gate : QueryLimits → Gate
new_query_gate l = record {
  slots =
      (route_in_memory, record { capacity = pos_part l.in_memory; held = 0 })
      ∷ (route_database, record { capacity = pos_part l.database; held = 0 })
      ∷ [];
  wait = l.queue_wait;
  releases = [];
}

-- `slots <- struct{}{}`, when there is room: a release function is made.
unfoldable pub take : String → Slots → Gate → Gate
take route s g = record g {
  slots = insert route (record s { held = s.held + 1 }) g.slots;
  releases = g.releases ++ (record { route = route; done = false } ∷ []);
}

pub data Answer : Type 0 where
  admitted : Answer
  refused : Answer
  waiting : Answer

has_room : Slots → Bool
has_room s = ltb s.held s.capacity

-- `acquire` up to its second `select`.
unfoldable pub arrive : Bool → String → Gate → Gate × Answer
unfolding has_room
arrive ctx_done route g = elim (lookup route g.slots) [
  | none ↦ (g, refused)
  | some s ↦
      if ctx_done
      then (g, refused)
      else (if has_room s
          then (take route s g, admitted)
          else (g, if ltb_ℤ (pos 0) g.wait then waiting else refused))
]

-- What a waiting `acquire` meets: it goes on waiting when a slot is announced and taken by another.
pub data Wakeup : Type 0 where
  slot_announced timer_fired cancelled : Wakeup

unfoldable pub resume : Wakeup → String → Gate → Gate × Answer
unfolding has_room
resume slot_announced route g = elim (lookup route g.slots) [
  | none ↦ (g, refused)
  | some s ↦ if has_room s then (take route s g, admitted) else (g, waiting)
]
resume timer_fired route g = (g, refused)
resume cancelled route g = (g, refused)

give_back : String → Option Slots → List (String × Slots) → List (String × Slots)
give_back route none slots = slots
give_back route (some s) slots = insert route (record s { held = s.held - 1 }) slots

-- The first call of the release function at this position.
unfoldable pub release_held : ℕ → Release → Gate → Gate
unfolding give_back
release_held i r g = record g {
  slots = give_back r.route (lookup r.route g.slots) g.slots;
  releases = set g.releases i (record r { done = true });
}

-- A call of a release function: `once` lets the first call through.
unfoldable pub release : ℕ → Gate → Gate
release i g = elim (get_elem? g.releases i) [
  | none ↦ g
  | some r ↦ if r.done then g else release_held i r g
]

pub data Event : Type 0 where
  arrives : Bool → String → Event
  resumes : Wakeup → String → Event
  releases : ℕ → Event

unfoldable pub step : Event → Gate → Gate
step (arrives ctx_done route) g = (arrive ctx_done route g).0
step (resumes w route) g = (resume w route g).0
step (releases i) g = release i g

unfoldable pub run : List Event → Gate → Gate
run [] g = g
run (e ∷ es) g = run es (step e g)
