-- ===== src/Core/Key/Containment.antt =====
-- pkg/core/key.go: the way through an accepted key on a file-backed engine.
use openvaultdb_go.Base.{
  ◌≤◌, String, List, [], ◌∷◌, ◌++◌, ◌==◌, ◌≡◌, refl, sym, ap, ◌∙◌, ◌⊎◌, inl, inr, ok,
  require->>-eq-ok, arith, eq_iff, length, length-append, append_assoc, >>=-eq-ok, All, All-append,
  Bool-cases, Memᴰ,
}
use openvaultdb_go.Core.Key.{Keys, validate_segment, validate_segments, parse_key}
use openvaultdb_go.Core.Key.Paths.{
  parts, path_parts, enter_dir, follow, IsBelow, Stays, IsPlain, HasName, IsSafeSegment,
}
use openvaultdb_go.Core.Key.Safety.{validate_segment_iff}

-- A plain component leads nowhere if it is empty, and else one level down.
enter_dir-plain :
    (name : String) (dir : List String)
    → IsPlain name
    → ((name ≡ "") × (enter_dir name dir ≡ dir)) ⊎ (enter_dir name dir ≡ name ∷ dir)
unfolding enter_dir
enter_dir-plain name dir (dot, dots) = elim (Bool-cases (name == "")) [
  | inl bare ↦ inl ((eq_iff name "").0 bare, rw bare refl)
  | inr held ↦ inr (ground (arith, held, eq_iff name ".", eq_iff name "..", dot, dots))
]

enter_dir-IsBelow :
    (name : String) (base dir : List String)
    → IsPlain name
    → IsBelow base dir
    → IsBelow base (enter_dir name dir)
enter_dir-IsBelow name base dir plain (below, e) = elim (enter_dir-plain name dir plain) [
  | inl (_, same) ↦ (below, same ∙ e)
  | inr deeper ↦ (name ∷ below, deeper ∙ ap (λ d. name ∷ d) e)
]

Stays-plain :
    (names base dir : List String) → All IsPlain names → IsBelow base dir → Stays base dir names
unfolding Stays
Stays-plain [] base dir h b = b
Stays-plain (name ∷ names) base dir (plain, h) b =
    (b, Stays-plain names base (enter_dir name dir) h (enter_dir-IsBelow name base dir plain b))

follow-append :
    (dir names more : List String) → follow dir (names ++ more) ≡ follow (follow dir names) more
unfolding follow
follow-append dir [] more = refl
follow-append dir (name ∷ names) more = follow-append (enter_dir name dir) names more

-- Where plain components lead: down, if one of them is a name.
follow-plain :
    (dir names : List String)
    → All IsPlain names
    → (below : List String) × (follow dir names ≡ below ++ dir) × (HasName names → 1 ≤ length below)
unfolding follow
follow-plain dir [] h = ([], refl, λ (name, m, _). elim m [ ])
follow-plain dir (w ∷ ws) (plain, h) =
    let (below, ends, deep) = follow-plain (enter_dir w dir) ws h in
    elim (enter_dir-plain w dir plain) [
      | inl (bare, same) ↦
          (below, ends ∙ ap (λ d. below ++ d) same, λ named. deep (later w ws named bare))
      | inr deeper ↦ (
        below ++ w ∷ [],
        ends ∙ ap (λ d. below ++ d) deeper ∙ sym (append_assoc below (w ∷ []) dir),
        λ named. omega (arith, length-append below (w ∷ [])),
      )
    ]
  where
    later : (w : String) (ws : List String) → HasName (w ∷ ws) → w ≡ "" → HasName ws
    later w ws (name, Memᴰ.head e, n) bare = absurd (n (e ∙ bare))
    later w ws (name, Memᴰ.tail m, n) bare = (name, m, n)

-- Safe segments lead down, at least one level each.
follow-safe :
    (dir segments : List String)
    → All IsSafeSegment segments
    → (below : List String) × (follow dir (path_parts segments) ≡ below ++ dir)
      × (length segments ≤ length below)
unfolding path_parts
follow-safe dir [] h = unfold follow in ([], refl, omega arith)
follow-safe dir (s ∷ ss) (safe, h) =
    let (first, there, deep) = follow-plain dir (parts s) safe.no_relative in
    let (below, ends, long) = follow-safe (follow dir (parts s)) ss h in
    (
      below ++ first,
      follow-append dir (parts s) (path_parts ss)
          ∙ ends
          ∙ ap (λ d. below ++ d) there
          ∙ sym (append_assoc below first dir),
      omega (arith, length-append below first, deep safe.has_name, long),
    )

path_parts-IsPlain : (ss : List String) → All IsSafeSegment ss → All IsPlain (path_parts ss)
unfolding path_parts
path_parts-IsPlain [] h = tt
path_parts-IsPlain (s ∷ ss) (safe, h) =
    All-append IsPlain (parts s) (path_parts ss) safe.no_relative (path_parts-IsPlain ss h)

validate_segments-All :
    (before after : List String)
    → validate_segments (before ++ after) ≡ ok tt
    → All IsSafeSegment before × All IsSafeSegment after
unfolding validate_segments
validate_segments-All [] [] h = (tt, tt)
validate_segments-All [] (s ∷ ss) h =
    let (u, first, rest) = >>=-eq-ok (validate_segment s) _ h in
    (tt, ((validate_segment_iff s).0 (first ∙ ap ok refl), (validate_segments-All [] ss rest).1))
validate_segments-All (s ∷ ss) after h =
    let (u, first, rest) = >>=-eq-ok (validate_segment s) _ h in
    let (front, back) = validate_segments-All ss after rest in
    (((validate_segment_iff s).0 (first ∙ ap ok refl), front), back)

-- Wherever an accepted key is cut in two, its first segments lead from any directory to one below
-- it, at least one level for each segment, and on the way through the other segments every
-- directory is that one or lies below it: no key leaves the directory of its collection. Both
-- slashes separate components, an empty component and "." lead nowhere, and ".." leads up.
pub parse_key-contained :
    (K : Keys) (before after dir : List String) {k : K.Key}
    → parse_key K (before ++ after) ≡ ok k
    → (below : List String) × (follow dir (path_parts before) ≡ below ++ dir)
      × (length before ≤ length below)
      × Stays (below ++ dir) (below ++ dir) (path_parts after)
unfolding parse_key
parse_key-contained K before after dir h =
    let (even, h₁) = require->>-eq-ok _ _ _ h in
    let (u, valid, h₂) = >>=-eq-ok (validate_segments (before ++ after)) _ h₁ in
    let (front, back) = validate_segments-All before after (valid ∙ ap ok refl) in
    let (below, ends, long) = follow-safe dir before front in
    (
      below,
      ends,
      long,
      Stays-plain (path_parts after) (below ++ dir) (below ++ dir) (path_parts-IsPlain after back)
          ([], refl),
    )
