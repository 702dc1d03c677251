-- ===== src/Server/Cors/Origins.antt =====
-- pkg/server/cors.go: which origins a configuration of values allows.
use openvaultdb_go.Base.{
  String, List, [], ◌∷◌, true, false, ◌==◌, if◌then◌else◌, Option, none, some, ◌≡◌, refl, sym, ◌∙◌,
  subst, ◌≢◌, ◌⊎◌, ◌↔◌, inl, inr, arith, eq_iff, not_same, Memᴰ, Bool-cases, if_true, if_false,
}
use openvaultdb_go.Server.Cors.{
  CorsConfig, Scan, stopped, going, scan_values, is_empty, parsed, no_origins, parse_cors_origins,
  holds, allowed_origin,
}
use openvaultdb_go.Server.Cors.Scanning.{named, Scanned, scan_values-Scanned}

holds→Mem : (o : String) (ps : List String) → holds o ps ≡ true → Memᴰ o ps
unfolding holds
holds→Mem o [] h = cc
holds→Mem o (p ∷ ps) h = elim (Bool-cases (p == o)) [
  | inl same ↦ Memᴰ.head (sym ((eq_iff _ _).0 same))
  | inr other ↦ Memᴰ.tail (holds→Mem o ps (ground arith))
]

Mem→holds : (o : String) (ps : List String) → Memᴰ o ps → holds o ps ≡ true
unfolding holds
Mem→holds o [] m = elim m [ ]
Mem→holds o (p ∷ ps) (Memᴰ.head e) = let same = (eq_iff p o).1 (sym e) in ground arith
Mem→holds o (p ∷ ps) (Memᴰ.tail m) = let held = Mem→holds o ps m in ground arith

allowed_blank :
    (cfg : Option CorsConfig) (origin : String) → origin ≡ "" → allowed_origin cfg origin ≡ ""
unfolding allowed_origin
allowed_blank none origin h = refl
allowed_blank (some c) origin h = if_true _ _ ((eq_iff _ _).1 h)

-- An origin that is given, against a configuration without "*".
allowed-exact :
    (d : CorsConfig) (origin : String)
    → (origin == "") ≡ false
    → d.allow_all ≡ false
    → (allowed_origin (parsed (going d)) origin ≢ "") ↔ Memᴰ origin d.exact
unfolding allowed_origin parsed is_empty
allowed-exact d origin given plain = go d.exact refl
  where
    asked : allowed_origin (some d) origin ≡ (if holds origin d.exact then origin else "")
    asked = if_false _ _ given ∙ if_false _ _ plain

    matched : (allowed_origin (some d) origin ≢ "") ↔ Memᴰ origin d.exact
    matched = (
      λ ne. elim (Bool-cases (holds origin d.exact)) [
        | inl held ↦ holds→Mem origin d.exact held
        | inr missing ↦ absurd (ne (asked ∙ if_false _ _ missing))
      ],
      λ m blank. not_same given (sym (asked ∙ if_true _ _ (Mem→holds origin d.exact m)) ∙ blank),
    )

    go :
        (ps : List String)
        → d.exact ≡ ps
        → (allowed_origin (if is_empty ps then none else some d) origin ≢ "") ↔ Memᴰ origin d.exact
    go [] none_there = (λ ne. absurd (ne refl), λ m. elim (subst (Memᴰ origin) none_there m) [ ])
    go (p ∷ ps) some_there = matched

ne→false : {s t : String} → s ≢ t → s == t ≡ false
ne→false {s} {t} h = ground (arith, eq_iff s t)

star_given : ◌≢◌ {A = String} "*" ""
star_given e = absurd (ground (arith, (eq_iff "*" "").1 e))

-- A configuration parsed from a list of values allows an origin exactly when the origin is not
-- empty and the values, cut at commas and trimmed, hold it or "*".
pub parse_cors_origins_iff :
    (values : List String) (origin : String)
    → (allowed_origin (parse_cors_origins values) origin ≢ "")
      ↔ ((origin ≢ "") × (Memᴰ "*" (named values) ⊎ Memᴰ origin (named values)))
unfolding parse_cors_origins is_empty named Scanned allowed_origin parsed
parse_cors_origins_iff [] origin =
    (λ ne. absurd (ne refl), λ (_, m). elim m [ inl m ↦ elim m [ ] | inr m ↦ elim m [ ] ])
parse_cors_origins_iff (v ∷ vs) origin =
    go (scan_values (v ∷ vs) no_origins) (scan_values-Scanned (v ∷ vs) no_origins)
  where
    go :
        (s : Scan)
        → Scanned (named (v ∷ vs)) no_origins s
        → (allowed_origin (parsed s) origin ≢ "")
          ↔ ((origin ≢ "") × (Memᴰ "*" (named (v ∷ vs)) ⊎ Memᴰ origin (named (v ∷ vs))))
    go (stopped d) (every, star) = (
      λ ne. ((λ blank. ne (allowed_blank (some d) origin blank)), inl star),
      λ (given, _) blank.
          star_given (sym (if_false _ _ (ne→false given) ∙ if_true _ _ every) ∙ blank),
    )
    go (going d) (all, plain, exact) = (
      λ ne.
          let given : origin ≢ "" = λ blank. ne (allowed_blank (parsed (going d)) origin blank) in
          (
            given,
            elim ((exact origin).0 ((allowed-exact d origin (ne→false given) all).0 ne)) [
              | inl m ↦ elim m [ ]
              | inr (_, m) ↦ inr m
            ],
          ),
      λ (given, m).
          (allowed-exact d origin (ne→false given) all).1
            ((exact origin).1 (inr (given, elim m [ inl star ↦ absurd (plain star) | inr m ↦ m ]))),
    )
