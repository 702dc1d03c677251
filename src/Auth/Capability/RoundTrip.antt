-- ===== src/Auth/Capability/RoundTrip.antt =====
-- pkg/auth/auth.go: `ParseCapability` against `Capability.String`.
use openvaultdb_go.Base.{
  String, List, [], ◌∷◌, ◌++◌, Bool, not, true, false, ◌≡◌, refl, sym, ap, ◌∙◌, subst, ◌↔◌, inl,
  inr, ◌==◌, eq_iff, All, Lacks, Bool-cases, ok, require->>-eq-ok, ok-injective, split, join,
  join-split, split-append, split_of_Lacks, singleton-append, split-Lacks, ◌⊕◌, arith,
  if◌then◌else◌,
}
use openvaultdb_go.Auth.Capability.{
  Capability, known_capabilities, contains, is_known, parse_parts, parse_capability, to_string,
}
use text.Mathlib.TextLemmas.{append_assoc}

-- A capability that a grant can hold: a known action, and a collection without a colon.
pub record IsWellFormed (c : Capability) : Type 0 where
  pub known : is_known c.action ≡ true
  pub scoped : Lacks ":" c.collection

All_of_contains :
    (P : String → Type 0) (s : String) (xs : List String) → All P xs → contains s xs ≡ true → P s
unfolding contains
All_of_contains P s [] h e = absurd (cc)
All_of_contains P s (x ∷ xs) (p, h) e = elim (Bool-cases (x == s)) [
  | inl same ↦ subst P ((eq_iff x s).0 same) p
  | inr other ↦ All_of_contains P s xs h (ground arith)
]

abbrev TwoParts : String → Type 0
TwoParts a = (area : String) × (verb : String) × (split ":" a ≡ area ∷ verb ∷ [])

known-TwoParts : All TwoParts known_capabilities
unfolding split
known-TwoParts = (
  ("records", "read", refl),
  (
    ("records", "write", refl),
    (
      ("records", "delete", refl),
      (
        ("collections", "read", refl),
        (
          ("schema", "read", refl),
          (
            ("databases", "create", refl),
            (
              ("policies", "discover", refl),
              (
                ("policies", "list", refl),
                (
                  ("policies", "read", refl),
                  (
                    ("policies", "admin", refl),
                    (
                      ("access", "explain", refl),
                      (
                        ("access", "simulate", refl),
                        (
                          ("access", "diagnostics", refl),
                          (("access", "inspect-protected", refl), tt),
                        ),
                      ),
                    ),
                  ),
                ),
              ),
            ),
          ),
        ),
      ),
    ),
  ),
)

is_known-TwoParts : (a : String) → is_known a ≡ true → TwoParts a
unfolding is_known
is_known-TwoParts a h = All_of_contains TwoParts a known_capabilities known-TwoParts h

-- What the two parts of an action are, read back.
two_parts_join : (a area verb : String) → split ":" a ≡ area ∷ verb ∷ [] → area ⊕ ":" ⊕ verb ≡ a
unfolding join
two_parts_join a area verb e = sym (ap (join ":") e) ∙ join-split ":" a

not-true : {b : Bool} → not b ≡ true → b ≡ false
not-true h = ground arith

to_string_scoped :
    (a s : String)
    → s == "" ≡ false
    → to_string (record { action = a; collection = s }) ≡ a ⊕ ":" ⊕ s
unfolding to_string
to_string_scoped a s h = rw h refl

-- A successful parse prints as its parts, joined again.
to_string_of_parts :
    (ws : List String) {c : Capability} → parse_parts ws ≡ ok c → to_string c ≡ join ":" ws
unfolding parse_parts to_string join
to_string_of_parts [] h = cc
to_string_of_parts (a ∷ []) h = cc
to_string_of_parts (a ∷ b ∷ []) h = sym (ap to_string (ok-injective (require->>-eq-ok _ _ _ h).1))
to_string_of_parts (a ∷ b ∷ s ∷ []) h =
    let (scoped, same) = require->>-eq-ok _ _ _ (require->>-eq-ok _ _ _ h).1 in
    sym (ap to_string (ok-injective same))
    ∙ to_string_scoped (a ⊕ ":" ⊕ b) s (not-true scoped)
    ∙ append_assoc a (":" ⊕ b) (":" ⊕ s)
    ∙ ap (λ t. a ⊕ t) (append_assoc ":" b (":" ⊕ s))
to_string_of_parts (a ∷ b ∷ s ∷ t ∷ ws) h = cc

-- Every string that parses is printed back as it was.
pub to_string-parse_capability :
    (s : String) {c : Capability} → parse_capability s ≡ ok c → to_string c ≡ s
unfolding parse_capability
to_string-parse_capability s h = to_string_of_parts (split ":" s) h ∙ join-split ":" s

split-to_string :
    (c : Capability)
    → Lacks ":" c.collection
    → split ":" (to_string c)
      ≡ (if c.collection == "" then split ":" c.action else split ":" c.action ++ c.collection ∷ [])
unfolding to_string
split-to_string c h = elim (Bool-cases (c.collection == "")) [
  | inl open_scope ↦ rw open_scope refl
  | inr named ↦
      rw (named, singleton-append ":" c.collection)
        (split-append ":" c.action c.collection
          ∙ ap (λ ws. split ":" c.action ++ ws) (split_of_Lacks ":" c.collection h))
]

-- A well-formed capability that is printed parses back to itself.
parse_capability-to_string :
    (c : Capability) → IsWellFormed c → parse_capability (to_string c) ≡ ok c
unfolding parse_capability
parse_capability-to_string c w =
    let (area, verb, parts) = is_known-TwoParts c.action w.known in
    let whole = two_parts_join c.action area verb parts in
    elim (Bool-cases (c.collection == "")) [
      | inl open_scope ↦
          rw (split-to_string c w.scoped, open_scope, parts, whole, w.known)
            (ap ok
              (λ i. record { action = c.action; collection = sym ((eq_iff _ _).0 open_scope) i }))
      | inr named ↦ rw (split-to_string c w.scoped, named, parts, whole, w.known, named) refl
    ]

parse_parts-IsWellFormed :
    (ws : List String) {c : Capability}
    → All (Lacks ":") ws
    → parse_parts ws ≡ ok c
    → IsWellFormed c
unfolding parse_parts
parse_parts-IsWellFormed [] l h = cc
parse_parts-IsWellFormed (a ∷ []) l h = cc
parse_parts-IsWellFormed (a ∷ b ∷ []) l h =
    let (known, same) = require->>-eq-ok _ _ _ h in
    subst IsWellFormed (ok-injective same) (record { known = known; scoped = tt })
parse_parts-IsWellFormed (a ∷ b ∷ s ∷ []) l h =
    let (known, rest) = require->>-eq-ok _ _ _ h in
    subst IsWellFormed (ok-injective (require->>-eq-ok _ _ _ rest).1)
      (record { known = known; scoped = l.1.1.0 })
parse_parts-IsWellFormed (a ∷ b ∷ s ∷ t ∷ ws) l h = cc

-- What parses is well formed: a known action, and a collection that holds no colon.
pub parse_capability-IsWellFormed :
    (s : String) {c : Capability} → parse_capability s ≡ ok c → IsWellFormed c
unfolding parse_capability
parse_capability-IsWellFormed s h = parse_parts-IsWellFormed (split ":" s) (split-Lacks ":" s) h

-- A string parses exactly when it is the printed form of a well-formed capability.
pub parse_capability_iff :
    (s : String) (c : Capability)
    → (parse_capability s ≡ ok c) ↔ (IsWellFormed c × (to_string c ≡ s))
parse_capability_iff s c = (
  λ h. (parse_capability-IsWellFormed s h, to_string-parse_capability s h),
  λ (w, e). subst (λ t. parse_capability t ≡ ok c) e (parse_capability-to_string c w),
)
