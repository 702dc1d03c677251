-- ===== src/Core/Key/Safety.antt =====
-- pkg/core/key.go: a key that is accepted cannot lead a file-backed engine out of a directory.
use openvaultdb_go.Base.{
  ◌≤◌, String, code, List, [], ◌∷◌, Bool, true, false, not, ◌==◌, ◌≡◌, refl, ◌≢◌, ◌↔◌, inl, inr, ok,
  require->>-eq-ok, require-eq-ok, arith, eq_iff, Every, All, Bool-cases, Memᴰ, subst, split,
}
use openvaultdb_go.Core.Key.{
  is_control, has_control, is_separator, fields, is_relative, any_relative, is_nil,
  validate_segment,
}
use openvaultdb_go.Core.Key.Paths.{
  parts, IsPlain, HasName, IsSafeSegment, slashed, fields_func-parts, drop_empty-All,
  drop_empty-HasName,
}

not-true : {b : Bool} → not b ≡ true → b ≡ false
not-true h = ground arith

-- The tests of the code, and what they say.
has_control_iff :
    (s : String) → (has_control s ≡ false) ↔ Every (λ c. (32 ≤ code c) × (code c ≢ 127)) s
unfolding has_control is_control
has_control_iff String.[] = (λ h. tt, λ h. refl)
has_control_iff (String.◌∷◌ c s) =
    let (to, from) = has_control_iff s in
    (λ h. ((ground arith, ground arith), to (ground arith)), λ ((p, q), h). ground (arith, from h))

any_relative_iff : (ws : List String) → (any_relative ws ≡ false) ↔ All IsPlain ws
unfolding any_relative is_relative
any_relative_iff [] = (λ h. tt, λ h. refl)
any_relative_iff (w ∷ ws) =
    let (to, from) = any_relative_iff ws in
    (
      λ h. ((ground (arith, eq_iff w "."), ground (arith, eq_iff w "..")), to (ground arith)),
      λ ((p, q), h). ground (arith, from h, eq_iff w ".", eq_iff w ".."),
    )

is_nil_iff : (ws : List String) → (is_nil ws ≡ false) ↔ (ws ≢ [])
unfolding is_nil
is_nil_iff [] = (λ h. cc, λ h. absurd (h refl))
is_nil_iff (w ∷ ws) = (λ h. cc, λ h. refl)

fields-IsPlain_iff : (s : String) → (any_relative (fields s) ≡ false) ↔ All IsPlain (parts s)
unfolding fields is_separator
fields-IsPlain_iff s = rw (fields_func-parts is_separator (λ c. refl) s) (
  λ h. (drop_empty-All (parts s)).0 ((any_relative_iff _).0 h),
  λ h. (any_relative_iff _).1 ((drop_empty-All (parts s)).1 h),
)

fields-HasName_iff : (s : String) → (is_nil (fields s) ≡ false) ↔ HasName (parts s)
unfolding fields is_separator
fields-HasName_iff s = rw (fields_func-parts is_separator (λ c. refl) s) (
  λ h. (drop_empty-HasName (parts s)).0 ((is_nil_iff _).0 h),
  λ h. (is_nil_iff _).1 ((drop_empty-HasName (parts s)).1 h),
)

nameless : HasName (parts "") → ⊥
unfolding parts slashed split
nameless (name, Memᴰ.head e, n) = n e
nameless (name, Memᴰ.tail m, n) = elim m [ ]

pub HasName-ne : (s : String) → HasName (parts s) → s == "" ≡ false
HasName-ne s h = elim (Bool-cases (s == "")) [
  | inl bare ↦ absurd (nameless (subst (λ s. HasName (parts s)) ((eq_iff s "").0 bare) h))
  | inr held ↦ held
]

-- `ValidateSegment` accepts exactly the segments that hold no character below 32 and no 127, and
-- whose components, cut at slashes and backslashes, are never "." or ".." and not all empty.
pub validate_segment_iff : (s : String) → (validate_segment s ≡ ok tt) ↔ IsSafeSegment s
unfolding validate_segment
validate_segment_iff s = (
  λ h.
      let (given, h₁) = require->>-eq-ok _ _ _ h in
      let (clean, h₂) = require->>-eq-ok _ _ _ h₁ in
      let (full, h₃) = require->>-eq-ok _ _ _ h₂ in
      record {
        no_control = (has_control_iff s).0 (not-true clean);
        has_name = (fields-HasName_iff s).0 (not-true full);
        no_relative = (fields-IsPlain_iff s).0 (not-true (require-eq-ok _ _ h₃));
      },
  λ safe.
      rw
        (
          HasName-ne s safe.has_name,
          (has_control_iff s).1 safe.no_control,
          (fields-HasName_iff s).1 safe.has_name,
          (fields-IsPlain_iff s).1 safe.no_relative,
        )
        refl,
)
