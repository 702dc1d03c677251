-- ===== src/Server/Gate/Normalized.antt =====
-- pkg/server/querylimits.go: the limits that the server runs with are complete.
use openvaultdb_go.Base.{
  ℤ, pos, List, [], ◌∷◌, true, false, String, if◌then◌else◌, ltb_ℤ, eqb_ℤ, ◌≡◌, ◌≢◌, ◌↔◌, refl, inl,
  inr, Bool-cases, if_true, if_false, ap, ◌∙◌, subst,
}
use openvaultdb_go.Server.Gate.{
  QueryLimits, or_default, engines_or, default_query_limits, normalize_query_limits,
}

-- Every limit is set: a wait is set when it is not zero, the others when they are positive.
unfoldable pub IsComplete : QueryLimits → Type 0
IsComplete l =
    (ltb_ℤ (pos 0) l.timeout ≡ true)
    × (ltb_ℤ (pos 0) l.in_memory ≡ true)
    × (ltb_ℤ (pos 0) l.database ≡ true)
    × (eqb_ℤ l.queue_wait (pos 0) ≡ false)
    × (ltb_ℤ (pos 0) l.max_source_rows ≡ true)
    × (ltb_ℤ (pos 0) l.max_source_bytes ≡ true)
    × (l.join_engines ≢ [])

or_default-positive : (l d : ℤ) → ltb_ℤ (pos 0) d ≡ true → ltb_ℤ (pos 0) (or_default l d) ≡ true
unfolding or_default
or_default-positive l d h = elim (Bool-cases (ltb_ℤ (pos 0) l)) [
  | inl set ↦ ap (ltb_ℤ (pos 0)) (if_true l d set) ∙ set
  | inr unset ↦ ap (ltb_ℤ (pos 0)) (if_false l d unset) ∙ h
]

or_default-kept : (l d : ℤ) → ltb_ℤ (pos 0) l ≡ true → or_default l d ≡ l
unfolding or_default
or_default-kept l d h = if_true l d h

engines_or-nonempty :
    (es : List String) (d : String) (ds : List String) → engines_or es (d ∷ ds) ≢ []
unfolding engines_or
engines_or-nonempty [] d ds h = cc
engines_or-nonempty (e ∷ es) d ds h = cc

engines_or-kept : (es d : List String) → es ≢ [] → engines_or es d ≡ es
unfolding engines_or
engines_or-kept [] d h = absurd (h refl)
engines_or-kept (e ∷ es) d h = refl

wait-set :
    (w d : ℤ) → eqb_ℤ d (pos 0) ≡ false → eqb_ℤ (if eqb_ℤ w (pos 0) then d else w) (pos 0) ≡ false
wait-set w d h = elim (Bool-cases (eqb_ℤ w (pos 0))) [
  | inl zero ↦ ap (λ v. eqb_ℤ v (pos 0)) (if_true d w zero) ∙ h
  | inr other ↦ ap (λ v. eqb_ℤ v (pos 0)) (if_false d w other) ∙ other
]

normalize_query_limits-IsComplete : (l : QueryLimits) → IsComplete (normalize_query_limits l)
unfolding normalize_query_limits default_query_limits IsComplete
normalize_query_limits-IsComplete l = (
  or_default-positive l.timeout _ refl,
  or_default-positive l.in_memory _ refl,
  or_default-positive l.database _ refl,
  wait-set l.queue_wait _ refl,
  or_default-positive l.max_source_rows _ refl,
  or_default-positive l.max_source_bytes _ refl,
  engines_or-nonempty l.join_engines _ _,
)

normalize_query_limits-kept : (l : QueryLimits) → IsComplete l → normalize_query_limits l ≡ l
unfolding normalize_query_limits IsComplete
normalize_query_limits-kept l (t, m, d, w, r, b, e) = λ i. record {
  timeout = or_default-kept l.timeout default_query_limits.timeout t i;
  in_memory = or_default-kept l.in_memory default_query_limits.in_memory m i;
  database = or_default-kept l.database default_query_limits.database d i;
  queue_wait = if_false default_query_limits.queue_wait l.queue_wait w i;
  max_source_rows = or_default-kept l.max_source_rows default_query_limits.max_source_rows r i;
  max_source_bytes = or_default-kept l.max_source_bytes default_query_limits.max_source_bytes b i;
  join_engines = engines_or-kept l.join_engines default_query_limits.join_engines e i;
}

-- Normalized limits are complete: a wait that is not zero, every other number positive, and some
-- engine. Normalizing leaves limits as they are exactly when they are complete.
pub normalize_query_limits_iff :
    (l : QueryLimits)
    → IsComplete (normalize_query_limits l) × ((normalize_query_limits l ≡ l) ↔ IsComplete l)
normalize_query_limits_iff l = (
  normalize_query_limits-IsComplete l,
  (
    λ same. subst IsComplete same (normalize_query_limits-IsComplete l),
    normalize_query_limits-kept l,
  ),
)
