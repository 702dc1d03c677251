-- ===== src/JoinExec/Inspect/Profiles.antt =====
-- pkg/joinexec/walk.go: the profile of a classifier is compared with what the walk found, as a multiset.
use openvaultdb_go.Base.{
  ℕ, suc, ◌+◌, String, List, [], ◌∷◌, map, Bool, true, false, ◌&&◌, ◌==◌, if◌then◌else◌, Option,
  none, some, ok, require, ◌≡◌, refl, sym, ap, ◌∙◌, ◌↔◌, inl, inr, arith, eq_iff, eq_refl,
  Bool-cases, if-both, if_true, if_false, ℤ, pos, negsuc, ◌+ℤ◌, eqb_ℤ, require->>-ok_iff,
  require_iff, pos_part, neg_part,
}
use openvaultdb_go.JoinExec.Walker.{Document, profile_subqueries, profile_sources}
use openvaultdb_go.JoinExec.Inspect.{
  Profile, bump, bump_all, all_zero, source_key, check_profile, same_flag,
}

abbrev same_key : String × String → String × String → Bool
same_key k j = k.0 == j.0 && k.1 == j.1

-- How often a source is listed.
unfoldable pub count : String × String → List (String × String) → ℕ
count k [] = 0
count k (j ∷ js) = if same_key j k then suc (count k js) else count k js

-- What the map holds for a key.
held : String × String → List ((String × String) × ℤ) → Option ℤ
held k [] = none
held k ((j, n) ∷ rest) = if same_key j k then some n else held k rest

abbrev value_of : Option ℤ → ℤ
value_of none = pos 0
value_of (some n) = n

Distinct : List ((String × String) × ℤ) → Type 0
Distinct [] = Unit
Distinct ((k, n) ∷ rest) = (held k rest ≡ none) × Distinct rest

zero_add : (n : ℤ) → pos 0 +ℤ n ≡ n
zero_add (pos n) = ground arith
zero_add (negsuc n) = ground arith

held-bump :
    (j k : String × String) (by : ℤ) (m : List ((String × String) × ℤ))
    → held k (bump j by m) ≡ (if same_key j k then some (value_of (held k m) +ℤ by) else held k m)
unfolding held bump
held-bump (d, c) (x, y) by [] =
    ap (λ n. if d == x && c == y then some n else none) (sym (zero_add by))
held-bump (d, c) (x, y) by (((e, f), n) ∷ rest) = ground (
  arith,
  held-bump (d, c) (x, y) by rest,
  eq_iff d e,
  eq_iff c f,
  eq_iff d x,
  eq_iff c y,
  eq_iff e x,
  eq_iff f y,
)

bump-Distinct :
    (j : String × String) (by : ℤ) (m : List ((String × String) × ℤ))
    → Distinct m
    → Distinct (bump j by m)
unfolding Distinct bump held
bump-Distinct (d, c) by [] h = (refl, tt)
bump-Distinct (d, c) by (((e, f), n) ∷ rest) (fresh, h) =
    ground (
      arith,
      held-bump (d, c) (e, f) by rest,
      bump-Distinct (d, c) by rest h,
      eq_iff d e,
      eq_iff c f,
    )

bump_all-Distinct :
    (by : ℤ) (ks : List (String × String)) (m : List ((String × String) × ℤ))
    → Distinct m
    → Distinct (bump_all by ks m)
unfolding bump_all
bump_all-Distinct by [] m h = h
bump_all-Distinct by (k ∷ ks) m h = bump_all-Distinct by ks (bump k by m) (bump-Distinct k by m h)

zero_iff : (n : ℤ) → (eqb_ℤ n (pos 0) ≡ true) ↔ (n ≡ pos 0)
zero_iff (pos n) = ground arith
zero_iff (negsuc n) = ground arith

and_iff : (a b : Bool) → (a && b ≡ true) ↔ ((a ≡ true) × (b ≡ true))
and_iff true b = (λ h. (refl, h), λ (_, h). h)
and_iff false b = (λ h. cc, λ (h, _). h)

same_key_self : (k : String × String) → same_key k k ≡ true
same_key_self (d, c) = (and_iff (d == d) (c == c)).1 (eq_refl d, eq_refl c)

same_key_eq : (k j : String × String) → same_key k j ≡ true → k ≡ j
same_key_eq (d, c) (e, f) h =
    let (left, right) = (and_iff (d == e) (c == f)).0 h in
    λ i. ((eq_iff d e).0 left i, (eq_iff c f).0 right i)

-- Zero for every key is zero in every entry, when no key has two.
all_zero_iff :
    (m : List ((String × String) × ℤ))
    → Distinct m
    → (all_zero m ≡ true) ↔ ((k : String × String) → value_of (held k m) ≡ pos 0)
unfolding all_zero held Distinct
all_zero_iff [] h = (λ e k. refl, λ z. refl)
all_zero_iff (((e, f), n) ∷ rest) (fresh, h) = (
  λ h₀ k.
      let (here, later) = (and_iff (eqb_ℤ n (pos 0)) (all_zero rest)).0 h₀ in
      if-both (λ o. value_of o ≡ pos 0) (same_key (e, f) k) {x = some n} {y = held k rest}
        ((zero_iff n).0 here) ((all_zero_iff rest h).0 later k),
  λ z. (and_iff (eqb_ℤ n (pos 0)) (all_zero rest)).1 (
    (zero_iff n).1 (sym (ap value_of (if_true _ _ (same_key_self (e, f)))) ∙ z (e, f)),
    (all_zero_iff rest h).1 (λ k. elim (Bool-cases (same_key (e, f) k)) [
      | inl same ↦
          let key : (e, f) ≡ k = same_key_eq (e, f) k same in
          ap (λ k. value_of (held k rest)) (sym key) ∙ ap value_of fresh
      | inr other ↦ sym (ap value_of (if_false _ _ other)) ∙ z k
    ]),
  ),
)

parts_zero : (n : ℤ) → pos_part n ≡ neg_part n → n ≡ pos 0
parts_zero (pos n) h = ground arith
parts_zero (negsuc n) h = absurd (omega arith)

nothing-Distinct : Distinct []
unfolding Distinct
nothing-Distinct = tt

same_flag_iff : (a b : Bool) → (same_flag a b ≡ true) ↔ (a ≡ b)
same_flag_iff true true = (λ h. refl, λ h. refl)
same_flag_iff true false = (λ h. cc, λ h. cc)
same_flag_iff false true = (λ h. cc, λ h. cc)
same_flag_iff false false = (λ h. refl, λ h. refl)

-- Adding 1 for each of the sources, and taking 1 away for each.
module _ (k : String × String) where
  value : List ((String × String) × ℤ) → ℤ
  value m = value_of (held k m)

  value-bump :
      (j : String × String) (by : ℤ) (m : List ((String × String) × ℤ))
      → value (bump j by m) ≡ (if same_key j k then value m +ℤ by else value m)
  unfolding value
  value-bump j by m = ap value_of (held-bump j k by m) ∙ pushed (same_key j k)
    where
      pushed :
          (b : Bool)
          → value_of (if b then some (value_of (held k m) +ℤ by) else held k m)
            ≡ (if b then value_of (held k m) +ℤ by else value_of (held k m))
      pushed true = refl
      pushed false = refl

  raised :
      (ks : List (String × String)) (m : List ((String × String) × ℤ))
      → pos_part (value (bump_all (pos 1) ks m)) + neg_part (value m)
        ≡ neg_part (value (bump_all (pos 1) ks m)) + pos_part (value m) + count k ks
  unfolding bump_all count
  raised [] m = omega arith
  raised (j ∷ js) m = ground (arith, raised js (bump j (pos 1) m), value-bump j (pos 1) m)

  lowered :
      (ks : List (String × String)) (m : List ((String × String) × ℤ))
      → pos_part (value (bump_all (negsuc 0) ks m)) + neg_part (value m) + count k ks
        ≡ neg_part (value (bump_all (negsuc 0) ks m)) + pos_part (value m)
  unfolding bump_all count
  lowered [] m = omega arith
  lowered (j ∷ js) m = ground (arith, lowered js (bump j (negsuc 0) m), value-bump j (negsuc 0) m)

  -- The map holds the difference of the two counts.
  balance :
      (found claimed : List (String × String))
      → (value (bump_all (negsuc 0) claimed (bump_all (pos 1) found [])) ≡ pos 0)
        ↔ (count k claimed ≡ count k found)
  unfolding value held
  balance found claimed =
      let counts = bump_all (pos 1) found [] in
      let up = raised found [] in
      let down = lowered claimed counts in
      (
        λ z. let p = ap pos_part z in let n = ap neg_part z in omega (arith, up, down, p, n),
        λ same. parts_zero (value (bump_all (negsuc 0) claimed counts)) (omega (arith, up, down)),
      )

-- A profile passes exactly when it says the same of subqueries as the document and lists each
-- collection as often as the document reads it.
pub check_profile_iff :
    (doc : Document) (profile : Profile)
    → (check_profile doc profile ≡ ok tt) ↔ (
        (profile.has_subquery ≡ doc.has_subquery)
        × ((k : String × String) → count k profile.sources ≡ count k (map source_key doc.sources)))
unfolding check_profile value held
check_profile_iff doc profile =
    let found = map source_key doc.sources in
    let counts = bump_all (negsuc 0) profile.sources (bump_all (pos 1) found []) in
    let distinct =
      bump_all-Distinct (negsuc 0) profile.sources (bump_all (pos 1) found [])
        (bump_all-Distinct (pos 1) found [] nothing-Distinct) in
    let (zero, zeros) = all_zero_iff counts distinct in
    let (split, joined) =
      require->>-ok_iff _ profile_subqueries (require (all_zero counts) profile_sources)
        (require_iff (all_zero counts) profile_sources) in
    (
      λ h.
          let (flag, z) = split h in
          ((same_flag_iff _ _).0 flag, λ k. (balance k found profile.sources).0 (zero z k)),
      λ (flag, same).
          joined
            ((same_flag_iff _ _).1 flag, zeros (λ k. (balance k found profile.sources).1 (same k))),
    )
