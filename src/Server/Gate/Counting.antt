-- ===== src/Server/Gate/Counting.antt =====
-- pkg/server/querylimits.go: the slots that the gate holds are those of the queries that run.
pub mod Histories
use openvaultdb_go.Base.{
  none≢some, some-injective, ℕ, zero, suc, ◌+◌, ◌-◌, ◌≤◌, ◌<◌, String, List, [], ◌∷◌, ◌++◌,
  get_elem?, set, Bool, true, false, not, ◌&&◌, ◌==◌, if◌then◌else◌, Option, none, some, ltb,
  ltb→lt, ltb_ℤ, pos, lookup, ◌≡◌, refl, sym, ap, ◌∙◌, ◌≢◌, inl, inr, arith, eq_iff, eq_refl, subst,
  if_true, if_false, Bool-cases, lookup-insert_cases,
}
use openvaultdb_go.Server.Gate.{
  QueryLimits, Slots, Release, Gate, new_query_gate, take, arrive, resume, release, Wakeup,
  slot_announced, timer_fired, cancelled, Answer, route_in_memory, route_database, release_held,
  Event, step, run, has_room, give_back, admitted, refused, waiting, arrives, resumes, releases,
}

-- 1 for a release function of the route that was not called.
abbrev one_if : Bool → ℕ
one_if true = 1
one_if false = 0

unfoldable pub running : String → List Release → ℕ
running route [] = 0
running route (r ∷ rs) = one_if (not r.done && r.route == route) + running route rs

unfoldable pub IsCounted : Gate → Type 0
IsCounted g =
    (route : String) (s : Slots)
    → lookup route g.slots ≡ some s
    → (s.held ≡ running route g.releases) × (s.held ≤ s.capacity)

running-append :
    (route : String) (rs ts : List Release)
    → running route (rs ++ ts) ≡ running route rs + running route ts
unfolding running
running-append route [] ts = omega arith
running-append route (r ∷ rs) ts = omega (arith, running-append route rs ts)

-- Calling a release function takes one from its route, and nothing from the others.
running-set :
    (route : String) (rs : List Release) (i : ℕ) (r : Release)
    → get_elem? rs i ≡ some r
    → r.done ≡ false
    → running route rs
      ≡ one_if (r.route == route) + running route (set rs i (record r { done = true }))
unfolding running
running-set route [] i r h d = cc
running-set route (x ∷ rs) zero r h d =
    let same : x ≡ r = some-injective h in
    let one =
      ap (λ x. one_if (not x.done && x.route == route)) same
      ∙ ap (λ b. one_if (not b && r.route == route)) d in
    omega (arith, one)
running-set route (x ∷ rs) (suc i) r h d = omega (arith, running-set route rs i r h d)

one_self : (route : String) → one_if (route == route) ≡ 1
one_self route = ap one_if (eq_refl route)

one_other : {a b : String} → a ≢ b → one_if (a == b) ≡ 0
one_other {a = a} {b = b} ne = elim (Bool-cases (a == b)) [
  | inl e ↦ absurd (ne ((eq_iff _ _).0 e))
  | inr e ↦ ap one_if e
]

take-IsCounted :
    (route : String) (s : Slots) (g : Gate)
    → lookup route g.slots ≡ some s
    → s.held < s.capacity
    → IsCounted g
    → IsCounted (take route s g)
unfolding take IsCounted running
take-IsCounted route s g there room counted j t h =
    let grown = running-append j g.releases (record { route = route; done = false } ∷ []) in
    elim (lookup-insert_cases route j (record s { held = s.held + 1 }) t g.slots h) [
      | inl (same, eq) ↦
          subst
            (λ t.
              (t.held ≡ running j (g.releases ++ (record { route = route; done = false } ∷ [])))
              × (t.held ≤ t.capacity))
            eq
            (let (count, _) = counted route s there in
              let here = ap (λ j. running j g.releases) same in
              let one = ap (λ j. one_if (route == j)) (sym same) ∙ one_self route in
              (omega (arith, grown), omega arith))
      | inr (ne, old) ↦
          let (count, bound) = counted j t old in
          let none_more = one_other ne in (omega (arith, grown), bound)
    ]

release_held-IsCounted :
    (i : ℕ) (r : Release) (g : Gate)
    → get_elem? g.releases i ≡ some r
    → r.done ≡ false
    → IsCounted g
    → IsCounted (release_held i r g)
unfolding release_held IsCounted give_back
release_held-IsCounted i r g at undone counted = go (lookup r.route g.slots) refl
  where
    after : List Release
    after = set g.releases i (record r { done = true })

    others :
        (j : String) (t : Slots)
        → r.route ≢ j
        → lookup j g.slots ≡ some t
        → (t.held ≡ running j after) × (t.held ≤ t.capacity)
    others j t ne h =
        let (count, bound) = counted j t h in
        let called = running-set j g.releases i r at undone in
        let zero = one_other ne in (omega arith, bound)

    go :
        (o : Option Slots)
        → lookup r.route g.slots ≡ o
        → (j : String) (t : Slots) → lookup j (give_back r.route o g.slots) ≡ some t
        → (t.held ≡ running j after) × (t.held ≤ t.capacity)
    go none none_here j t h =
        others j t
          (λ same. absurd (none≢some (sym none_here ∙ ap (λ k. lookup k g.slots) same ∙ h))) h
    go (some s) here j t h =
        elim (lookup-insert_cases r.route j (record s { held = s.held - 1 }) t g.slots h) [
          | inl (same, eq) ↦
              subst (λ t. (t.held ≡ running j after) × (t.held ≤ t.capacity)) eq
                (let (count, bound) = counted r.route s here in
                  let called = running-set r.route g.releases i r at undone in
                  let one = one_self r.route in
                  let there = ap (λ j. running j after) same in (omega arith, omega arith))
          | inr (ne, old) ↦ others j t ne old
        ]

release-IsCounted : (i : ℕ) (g : Gate) → IsCounted g → IsCounted (release i g)
unfolding release
release-IsCounted i g counted = go (get_elem? g.releases i) refl
  where
    go :
        (o : Option Release)
        → get_elem? g.releases i ≡ o
        → IsCounted (elim o [ none ↦ g | some r ↦ if r.done then g else release_held i r g ])
    go none at = counted
    go (some r) at = elim (Bool-cases r.done) [
      | inl called ↦ subst IsCounted (sym (if_true g (release_held i r g) called)) counted
      | inr undone ↦
          subst IsCounted (sym (if_false g (release_held i r g) undone))
            (release_held-IsCounted i r g at undone counted)
    ]
