-- ===== src/Server/Cors/Answers.antt =====
-- pkg/server/cors.go: which origins the middleware names in its answers.
use openvaultdb_go.Base.{
  String, Bool, true, false, not, ◌&&◌, ◌==◌, if◌then◌else◌, Option, none, some, ◌≡◌, ◌≢◌, ◌↔◌, ◌⊎◌,
  inl, inr, refl, sym, ap, ◌∙◌, arith, eq_iff, Bool-cases, if_true, if_false, not_same,
  some-injective, none≢some, subst,
}
use openvaultdb_go.Server.Cors.{CorsConfig, CorsAnswer, holds, allowed_origin, cors_middleware}

-- The configuration names this value for the origin: "*" when it allows all, else the origin itself.
unfoldable pub Names : CorsConfig → String → String → Type 0
Names c origin o =
    ((c.allow_all ≡ true) × (o ≡ "*"))
    ⊎ ((c.allow_all ≡ false) × (holds origin c.exact ≡ true) × (o ≡ origin))

given : String → Option String
given allowed = if not (allowed == "") then some allowed else none

allow_origin-given :
    (cfg : Option CorsConfig) (method origin : String)
    → (cors_middleware cfg method origin).allow_origin ≡ given (allowed_origin cfg origin)
unfolding cors_middleware given
allow_origin-given cfg method origin =
    elim (Bool-cases (method == "OPTIONS" && not (origin == ""))) [
      | inl preflight ↦ ap (λ (a : CorsAnswer). a.allow_origin) (if_true _ _ preflight)
      | inr other ↦ ap (λ (a : CorsAnswer). a.allow_origin) (if_false _ _ other)
    ]

given_iff : (a o : String) → (given a ≡ some o) ↔ ((a ≡ o) × (a ≢ ""))
unfolding given
given_iff a o = elim (Bool-cases (a == "")) [
  | inl e ↦ (
    λ h. absurd (none≢some (sym (ap (λ b. if not b then some a else none) e) ∙ h)),
    λ (_, ne). absurd (ne ((eq_iff a "").0 e)),
  )
  | inr e ↦
      let here = ap (λ b. if not b then some a else none) e in
      (
        λ h. (some-injective (sym here ∙ h), λ same. ground (arith, eq_iff a "")),
        λ (same, _). here ∙ ap some same,
      )
]

-- What the tests of `allowedOrigin` choose.
chosen : Bool → Bool → Bool → String → String
chosen empty all held origin =
    if empty then "" else (if all then "*" else (if held then origin else ""))

chosen-named :
    (empty all held : Bool) (origin o : String)
    → (origin == "") ≡ empty
    → chosen empty all held origin ≡ o
    → o ≢ ""
    → (origin ≢ "") × (((all ≡ true) × (o ≡ "*")) ⊎ ((all ≡ false) × (held ≡ true) × (o ≡ origin)))
unfolding chosen
chosen-named true all held origin o q h n = absurd (n (sym h))
chosen-named false true held origin o q h n = (not_same q, inl (refl, sym h))
chosen-named false false true origin o q h n = (not_same q, inr (refl, refl, sym h))
chosen-named false false false origin o q h n = absurd (n (sym h))

named-chosen :
    (empty all held : Bool) (origin o : String)
    → (origin == "") ≡ empty
    → origin ≢ ""
    → ((all ≡ true) × (o ≡ "*")) ⊎ ((all ≡ false) × (held ≡ true) × (o ≡ origin))
    → (chosen empty all held origin ≡ o) × (o ≢ "")
unfolding chosen
named-chosen true all held origin o q n h = absurd (n ((eq_iff origin "").0 q))
named-chosen false true held origin o q n (inl (_, star)) =
    (sym star, λ z. absurd (star-ne (sym star ∙ z)))
  where
    star-ne : ◌≢◌ {A = String} "*" ""
    star-ne z = let e : false ≡ true = (eq_iff "*" "").1 z in cc
named-chosen false true held origin o q n (inr (e, _, _)) = cc
named-chosen false false held origin o q n (inl (e, _)) = cc
named-chosen false false true origin o q n (inr (_, _, same)) = (sym same, λ z. n (sym same ∙ z))
named-chosen false false false origin o q n (inr (_, e, _)) = cc

-- An answer of the middleware names an origin exactly when the request has one and there is a
-- configuration that names it so: "*" when it allows all, and otherwise the origin of the request
-- itself, which it lists.
pub cors_middleware_iff :
    (cfg : Option CorsConfig) (method origin o : String)
    → ((cors_middleware cfg method origin).allow_origin ≡ some o)
      ↔ ((origin ≢ "") × (c : CorsConfig) × (cfg ≡ some c) × Names c origin o)
unfolding allowed_origin Names chosen
cors_middleware_iff none method origin o = (
  λ h.
      let (same, n) = (given_iff "" o).0 (sym (allow_origin-given none method origin) ∙ h) in
      absurd (n refl),
  λ (_, c, e, _). cc,
)
cors_middleware_iff (some c) method origin o = (
  λ h.
      let (same, n) = (given_iff _ o).0 (sym (allow_origin-given (some c) method origin) ∙ h) in
      let (set, names) =
        chosen-named _ c.allow_all (holds origin c.exact) origin o refl same (λ z. n (same ∙ z)) in
      (set, c, refl, names),
  λ (set, d, e, names).
      let names' = subst (λ d. Names d origin o) (sym (some-injective e)) names in
      let (same, n) = named-chosen _ c.allow_all (holds origin c.exact) origin o refl set names' in
      allow_origin-given (some c) method origin ∙ (given_iff _ o).1 (same, λ z. n (sym same ∙ z)),
)
