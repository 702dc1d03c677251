-- ===== src/Server/Gate/Counting/Histories.antt =====
-- pkg/server/querylimits.go: arrivals, wakeups and releases in any order keep the count of the slots.
use openvaultdb_go.Base.{
  none≢some, some-injective, ℕ, ◌≤◌, String, List, [], ◌∷◌, Bool, true, false, ◌==◌, if◌then◌else◌,
  Option, none, some, ltb, ltb→lt, ltb_ℤ, pos, lookup, ◌≡◌, refl, sym, ◌∙◌, inl, inr, arith, subst,
  if_true, if_false, Bool-cases,
}
use openvaultdb_go.Server.Gate.{
  QueryLimits, Slots, Gate, new_query_gate, take, arrive, resume, Wakeup, slot_announced,
  timer_fired, cancelled, Answer, route_in_memory, route_database, Event, step, run, has_room,
  admitted, refused, waiting, arrives, resumes, releases,
}
use openvaultdb_go.Server.Gate.Counting.{running, IsCounted, take-IsCounted, release-IsCounted}

abbrev Kept : Gate × Answer → Type 0
Kept p = IsCounted p.0

-- Both selects: a slot is taken only when there is room.
select-IsCounted :
    (route : String) (s : Slots) (g : Gate) (full : Answer)
    → lookup route g.slots ≡ some s
    → IsCounted g
    → Kept (if has_room s then (take route s g, admitted) else (g, full))
unfolding has_room
select-IsCounted route s g full there counted = elim (Bool-cases (ltb s.held s.capacity)) [
  | inl room ↦
      subst Kept (sym (if_true (take route s g, admitted) (g, full) room))
        (take-IsCounted route s g there (ltb→lt s.held s.capacity room) counted)
  | inr no_room ↦ subst Kept (sym (if_false (take route s g, admitted) (g, full) no_room)) counted
]

arrive-IsCounted :
    (ended : Bool) (route : String) (g : Gate) → IsCounted g → IsCounted (arrive ended route g).0
unfolding arrive
arrive-IsCounted ended route g counted = go ended (lookup route g.slots) refl
  where
    go :
        (ended : Bool) (o : Option Slots)
        → lookup route g.slots ≡ o
        → Kept (elim o [
          | none ↦ (g, refused)
          | some s ↦
              if ended
              then (g, refused)
              else (if has_room s
                  then (take route s g, admitted)
                  else (g, if ltb_ℤ (pos 0) g.wait then waiting else refused))
        ])
    go ended none there = counted
    go true (some s) there = counted
    go false (some s) there = select-IsCounted route s g _ there counted

resume-IsCounted :
    (w : Wakeup) (route : String) (g : Gate) → IsCounted g → IsCounted (resume w route g).0
unfolding resume
resume-IsCounted slot_announced route g counted = go (lookup route g.slots) refl
  where
    go :
        (o : Option Slots)
        → lookup route g.slots ≡ o
        → Kept (elim o [
          | none ↦ (g, refused)
          | some s ↦ if has_room s then (take route s g, admitted) else (g, waiting)
        ])
    go none there = counted
    go (some s) there = select-IsCounted route s g waiting there counted
resume-IsCounted timer_fired route g counted = counted
resume-IsCounted cancelled route g counted = counted

run-IsCounted : (events : List Event) (g : Gate) → IsCounted g → IsCounted (run events g)
unfolding run step
run-IsCounted [] g counted = counted
run-IsCounted (arrives ended route ∷ es) g counted =
    run-IsCounted es _ (arrive-IsCounted ended route g counted)
run-IsCounted (resumes w route ∷ es) g counted =
    run-IsCounted es _ (resume-IsCounted w route g counted)
run-IsCounted (releases i ∷ es) g counted = run-IsCounted es _ (release-IsCounted i g counted)

new_query_gate-IsCounted : (l : QueryLimits) → IsCounted (new_query_gate l)
unfolding new_query_gate IsCounted lookup running
new_query_gate-IsCounted l route s h = elim (Bool-cases (route_in_memory == route)) [
  | inl e ↦ fresh (sym (if_true _ _ e) ∙ h)
  | inr e ↦ elim (Bool-cases (route_database == route)) [
    | inl d ↦ fresh (sym (if_true _ _ d) ∙ sym (if_false _ _ e) ∙ h)
    | inr d ↦ absurd (none≢some (sym (if_false _ _ d) ∙ sym (if_false _ _ e) ∙ h))
  ]
]
  where
    fresh :
        {n : ℕ}
        → some (record { capacity = n; held = 0 }) ≡ some s
        → (s.held ≡ 0) × (s.held ≤ s.capacity)
    fresh h =
        subst (λ s. (s.held ≡ 0) × (s.held ≤ s.capacity)) (some-injective h) (refl, omega arith)

-- After every history of a new gate, the slots that a route holds are the release functions of
-- that route that were handed out and not yet called, and are no more than its capacity.
pub run-within :
    (l : QueryLimits) (events : List Event) (route : String) (s : Slots)
    → lookup route (run events (new_query_gate l)).slots ≡ some s
    → (s.held ≡ running route (run events (new_query_gate l)).releases) × (s.held ≤ s.capacity)
unfolding IsCounted
run-within l events route s h =
    run-IsCounted events (new_query_gate l) (new_query_gate-IsCounted l) route s h
