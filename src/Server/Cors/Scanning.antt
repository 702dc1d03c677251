-- ===== src/Server/Cors/Scanning.antt =====
-- pkg/server/cors.go: what `ParseCORSOrigins` makes of its values.
use openvaultdb_go.Base.{
  String, List, [], ◌∷◌, ◌++◌, map, true, false, ◌==◌, ◌≡◌, refl, sym, ◌∙◌, subst, ◌≢◌, ◌⊎◌, ◌↔◌,
  inl, inr, eq_iff, not_same, Memᴰ, Bool-cases, if_true, if_false, split, trim_space,
}
use openvaultdb_go.Server.Cors.{CorsConfig, Scan, stopped, going, keep, scan_pieces, scan_values}

-- The origins named by a list of values, blanks and all.
unfoldable pub named : List String → List String
named [] = []
named (v ∷ vs) = map trim_space (split "," v) ++ named vs

-- What a scan of these names from this configuration must give.
unfoldable pub Scanned : List String → CorsConfig → Scan → Type 0
Scanned names c (stopped d) = (d.allow_all ≡ true) × Memᴰ "*" names
Scanned names c (going d) =
    (d.allow_all ≡ c.allow_all)
    × ¬ Memᴰ "*" names
    × ((o : String) → Memᴰ o d.exact ↔ (Memᴰ o c.exact ⊎ ((o ≢ "") × Memᴰ o names)))

append-mem : {o : String} (xs ys : List String) → Memᴰ o (xs ++ ys) → Memᴰ o xs ⊎ Memᴰ o ys
append-mem [] ys m = inr m
append-mem (x ∷ xs) ys (Memᴰ.head e) = inl (Memᴰ.head e)
append-mem (x ∷ xs) ys (Memᴰ.tail m) = elim (append-mem xs ys m) [
  | inl m ↦ inl (Memᴰ.tail m)
  | inr m ↦ inr m
]

mem-append : {o : String} (xs ys : List String) → Memᴰ o xs ⊎ Memᴰ o ys → Memᴰ o (xs ++ ys)
mem-append [] ys (inl m) = elim m [ ]
mem-append [] ys (inr m) = m
mem-append (x ∷ xs) ys (inl (Memᴰ.head e)) = Memᴰ.head e
mem-append (x ∷ xs) ys (inl (Memᴰ.tail m)) = Memᴰ.tail (mem-append xs ys (inl m))
mem-append (x ∷ xs) ys (inr m) = Memᴰ.tail (mem-append xs ys (inr m))

-- A name that is kept is added to the exact origins, unless it is blank.
Kept : String → CorsConfig → CorsConfig → Type 0
Kept name c d =
    (d.allow_all ≡ c.allow_all)
    × ((o : String) → Memᴰ o d.exact ↔ (Memᴰ o c.exact ⊎ ((o ≢ "") × (o ≡ name))))

keep-Kept : (name : String) (c : CorsConfig) → Kept name c (keep name c)
unfolding Kept keep
keep-Kept name c = elim (Bool-cases (name == "")) [
  | inl blank ↦
      subst (Kept name c) (sym (if_true c (record c { exact = c.exact ++ name ∷ [] }) blank)) (
        refl,
        λ o. (
          λ m. inl m,
          λ m. elim m [
            | inl m ↦ m
            | inr (given, same) ↦ absurd (given (same ∙ (eq_iff _ _).0 blank))
          ],
        ),
      )
  | inr given ↦
      subst (Kept name c) (sym (if_false c (record c { exact = c.exact ++ name ∷ [] }) given)) (
        refl,
        λ o. (
          λ m. elim (append-mem c.exact (name ∷ []) m) [
            | inl m ↦ inl m
            | inr m ↦ inr (only o m given)
          ],
          λ m.
              mem-append c.exact (name ∷ [])
                (elim m [ inl m ↦ inl m | inr (_, same) ↦ inr (Memᴰ.head same) ]),
        ),
      )
]
  where
    only : (o : String) → Memᴰ o (name ∷ []) → name == "" ≡ false → (o ≢ "") × (o ≡ name)
    only o (Memᴰ.head e) given = (λ blank. not_same given (sym e ∙ blank), e)
    only o (Memᴰ.tail m) given = elim m [ ]

-- Scanning a name and then more names.
after-name :
    (name : String) (names : List String) (c d : CorsConfig) (s : Scan)
    → name ≢ "*"
    → Kept name c d
    → Scanned names d s
    → Scanned (name ∷ names) c s
unfolding Scanned Kept
after-name name names c d (stopped e) plain (all, kept) (every, m) = (every, Memᴰ.tail m)
after-name name names c d (going e) plain (all, kept) (all', none_all, exact) =
    (all' ∙ all, no_star, λ o. (to o, from o))
  where
    no_star : ¬ Memᴰ "*" (name ∷ names)
    no_star (Memᴰ.head same) = plain (sym same)
    no_star (Memᴰ.tail m) = none_all m

    to : (o : String) → Memᴰ o e.exact → Memᴰ o c.exact ⊎ ((o ≢ "") × Memᴰ o (name ∷ names))
    to o m = elim ((exact o).0 m) [
      | inl m ↦ elim ((kept o).0 m) [
        | inl m ↦ inl m
        | inr (given, same) ↦ inr (given, Memᴰ.head same)
      ]
      | inr (given, m) ↦ inr (given, Memᴰ.tail m)
    ]

    from : (o : String) → Memᴰ o c.exact ⊎ ((o ≢ "") × Memᴰ o (name ∷ names)) → Memᴰ o e.exact
    from o (inl m) = (exact o).1 (inl ((kept o).1 (inl m)))
    from o (inr (given, Memᴰ.head same)) = (exact o).1 (inl ((kept o).1 (inr (given, same))))
    from o (inr (given, Memᴰ.tail m)) = (exact o).1 (inr (given, m))

scan_pieces-Scanned :
    (pieces : List String) (c : CorsConfig)
    → Scanned (map trim_space pieces) c (scan_pieces pieces c)
unfolding scan_pieces Scanned
scan_pieces-Scanned [] c = (
  refl,
  (λ m. elim m [ ]),
  λ o. (λ m. inl m, λ m. elim m [ inl m ↦ m | inr (_, m) ↦ elim m [ ] ]),
)
scan_pieces-Scanned (raw ∷ pieces) c = elim (Bool-cases (trim_space raw == "*")) [
  | inl star ↦
      subst (Scanned (trim_space raw ∷ map trim_space pieces) c) (sym (if_true _ _ star))
        (refl, Memᴰ.head (sym ((eq_iff _ _).0 star)))
  | inr plain ↦
      subst (Scanned (trim_space raw ∷ map trim_space pieces) c) (sym (if_false _ _ plain)) (
        after-name (trim_space raw) _ c (keep (trim_space raw) c) _ (not_same plain)
          (keep-Kept (trim_space raw) c) (scan_pieces-Scanned pieces (keep (trim_space raw) c)))
]

-- Scanning names, going on, and then more names.
after-names :
    (xs ys : List String) (c d : CorsConfig) (s : Scan)
    → Scanned xs c (going d)
    → Scanned ys d s
    → Scanned (xs ++ ys) c s
unfolding Scanned
after-names xs ys c d (stopped e) first (every, m) = (every, mem-append xs ys (inr m))
after-names xs ys c d (going e) (all, plain, kept) (all', plain', exact) = (
  all' ∙ all,
  (λ m. elim (append-mem xs ys m) [ inl m ↦ plain m | inr m ↦ plain' m ]),
  λ o. (to o, from o),
)
  where
    to : (o : String) → Memᴰ o e.exact → Memᴰ o c.exact ⊎ ((o ≢ "") × Memᴰ o (xs ++ ys))
    to o m = elim ((exact o).0 m) [
      | inl m ↦ elim ((kept o).0 m) [
        | inl m ↦ inl m
        | inr (given, m) ↦ inr (given, mem-append xs ys (inl m))
      ]
      | inr (given, m) ↦ inr (given, mem-append xs ys (inr m))
    ]

    from : (o : String) → Memᴰ o c.exact ⊎ ((o ≢ "") × Memᴰ o (xs ++ ys)) → Memᴰ o e.exact
    from o (inl m) = (exact o).1 (inl ((kept o).1 (inl m)))
    from o (inr (given, m)) = elim (append-mem xs ys m) [
      | inl m ↦ (exact o).1 (inl ((kept o).1 (inr (given, m))))
      | inr m ↦ (exact o).1 (inr (given, m))
    ]

pub scan_values-Scanned :
    (values : List String) (c : CorsConfig) → Scanned (named values) c (scan_values values c)
unfolding scan_values named Scanned
scan_values-Scanned [] c = (
  refl,
  (λ m. elim m [ ]),
  λ o. (λ m. inl m, λ m. elim m [ inl m ↦ m | inr (_, m) ↦ elim m [ ] ]),
)
scan_values-Scanned (v ∷ vs) c =
    go (scan_pieces (split "," v) c) (scan_pieces-Scanned (split "," v) c) (scan_values-Scanned vs)
  where
    go :
        (s : Scan)
        → Scanned (map trim_space (split "," v)) c s
        → ((d : CorsConfig) → Scanned (named vs) d (scan_values vs d))
        → Scanned
            (map trim_space (split "," v) ++ named vs)
            c
            (elim s [ stopped c ↦ stopped c | going c ↦ scan_values vs c ])
    go (stopped d) (every, m) later = (every, mem-append _ (named vs) (inl m))
    go (going d) first later = after-names _ (named vs) c d (scan_values vs d) first (later d)
