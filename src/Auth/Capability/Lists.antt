-- ===== src/Auth/Capability/Lists.antt =====
-- pkg/auth/auth.go: `ParseCapabilities` over a comma-separated list.
use openvaultdb_go.Base.{
  String, List, [], ◌∷◌, false, ◌≡◌, refl, ◌≢◌, ◌==◌, All, Bool-cases, ok, err, ok-injective,
  >>=-eq-ok, split, trim_space, inl, inr, map, if◌then◌else◌, subst, ap₂, ap, ◌∙◌, ◌↔◌, Result,
}
use openvaultdb_go.Auth.Capability.{
  Capability, CapabilityError, parse_capability, parse_entries, at_least_one, parse_capabilities,
  to_string,
}
use openvaultdb_go.Auth.Capability.RoundTrip.{
  IsWellFormed, parse_capability-IsWellFormed, to_string-parse_capability, parse_capability_iff,
}

-- The entries that are not blank, trimmed.
pub entries : List String → List String
entries [] = []
entries (e ∷ es) = if trim_space e == "" then entries es else trim_space e ∷ entries es

parse_entries_sound :
    (es : List String) {cs : List Capability}
    → parse_entries es ≡ ok cs
    → All IsWellFormed cs × (map to_string cs ≡ entries es)
unfolding parse_entries entries
parse_entries_sound [] h =
    subst (λ cs. All IsWellFormed cs × (map to_string cs ≡ [])) (ok-injective h) (tt, refl)
parse_entries_sound (e ∷ es) h = elim (Bool-cases (trim_space e == "")) [
  | inl blank ↦ rw blank (parse_entries_sound es (rw blank at h))
  | inr given ↦ rw given (
      let (c, parsed, e') = >>=-eq-ok _ _ (rw given at h) in
      let (cs', others, e'') = >>=-eq-ok (parse_entries es) _ e' in
      let (wf, same) = parse_entries_sound es others in
      subst (λ cs. All IsWellFormed cs × (map to_string cs ≡ trim_space e ∷ entries es))
        (ok-injective e'')
        (
          (parse_capability-IsWellFormed (trim_space e) parsed, wf),
          ap₂ ◌∷◌ (to_string-parse_capability (trim_space e) parsed) same,
        ))
]

parse_entries-cons :
    (t : String) (c : Capability) (es : List String) (cs : List Capability)
    → trim_space t == "" ≡ false
    → parse_capability (trim_space t) ≡ ok c
    → parse_entries es ≡ ok cs
    → parse_entries (t ∷ es) ≡ ok (c ∷ cs)
unfolding parse_entries
parse_entries-cons t c es cs given parsed others = rw (given, parsed, others) refl

parse_entries_complete :
    (es : List String) (cs : List Capability)
    → All IsWellFormed cs
    → map to_string cs ≡ entries es
    → parse_entries es ≡ ok cs
unfolding parse_entries entries
parse_entries_complete [] [] w e = refl
parse_entries_complete [] (c ∷ cs) w e = cc
parse_entries_complete (t ∷ es) [] w e = elim (Bool-cases (trim_space t == "")) [
  | inl blank ↦ rw blank (parse_entries_complete es [] w (rw blank at e))
  | inr given ↦ absurd (nil-ne-cons (rw given at e))
]
  where
    nil-ne-cons : {x : String} {xs : List String} → [] ≢ x ∷ xs
    nil-ne-cons = cc
parse_entries_complete (t ∷ es) (c ∷ cs) w e = elim (Bool-cases (trim_space t == "")) [
  | inl blank ↦ rw blank (parse_entries_complete es (c ∷ cs) w (rw blank at e))
  | inr given ↦
      let e' : map to_string (c ∷ cs) ≡ trim_space t ∷ entries es = rw given at e in
      parse_entries-cons t c es cs given
        ((parse_capability_iff (trim_space t) c).1 (w.0, head_eq e'))
        (parse_entries_complete es cs w.1 (tail_eq e'))
]
  where
    head_eq : {x y : String} {xs ys : List String} → x ∷ xs ≡ y ∷ ys → x ≡ y
    head_eq h = cc

    tail_eq : {x y : String} {xs ys : List String} → x ∷ xs ≡ y ∷ ys → xs ≡ ys
    tail_eq h = cc

at_least_one_iff : (cs ds : List Capability) → (at_least_one cs ≡ ok ds) ↔ ((cs ≡ ds) × (cs ≢ []))
unfolding at_least_one
at_least_one_iff [] ds = ((λ h. absurd (err-ne-ok h)), λ (e, n). absurd (n refl))
  where
    err-ne-ok :
        {e : CapabilityError} {a : List Capability}
        → ◌≢◌ {A = Result CapabilityError (List Capability)} (err e) (ok a)
    err-ne-ok = cc
at_least_one_iff (c ∷ cs) ds = ((λ h. (ok-injective h, cons-ne-nil)), λ (e, n). ap ok e)
  where
    cons-ne-nil : {x : Capability} {xs : List Capability} → x ∷ xs ≢ []
    cons-ne-nil = cc

-- `ParseCapabilities` accepts a list exactly when it holds an entry that is not blank and each
-- such entry is the printed form of a well-formed capability; it returns those capabilities in
-- order.
pub parse_capabilities_iff :
    (csv : String) (cs : List Capability)
    → (parse_capabilities csv ≡ ok cs)
      ↔ (All IsWellFormed cs × (map to_string cs ≡ entries (split "," csv)) × (cs ≢ []))
unfolding parse_capabilities
parse_capabilities_iff csv cs = (
  λ h.
      let (ds, parsed, e) = >>=-eq-ok _ _ h in
      let (same, some_given) = (at_least_one_iff ds cs).0 e in
      let sound = parse_entries_sound (split "," csv) parsed in
      let (wf, printed) =
        subst (λ es. All IsWellFormed es × (map to_string es ≡ entries (split "," csv))) same
          sound in
      (wf, printed, λ empty. some_given (same ∙ empty)),
  λ (wf, printed, some_given).
      rw (parse_entries_complete (split "," csv) cs wf printed)
        ((at_least_one_iff cs cs).1 (refl, some_given)),
)
