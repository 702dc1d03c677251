-- ===== src/JoinExec/Names/Agreement.antt =====
-- pkg/joinexec/walk.go and pkg/core/key.go: the rule for collection names is written twice, so that
-- pkg/joinexec depends on dal-go alone.
use openvaultdb_go.Base.{
  String, code, List, [], ◌∷◌, Bool, true, false, not, ◌&&◌, ◌==◌, ok, ◌≡◌, ◌≢◌, refl, ◌↔◌, ◌≤◌,
  arith, eq_iff, Every, All, fields_func,
}
use openvaultdb_go.Core.Key.{validate_segment}
use openvaultdb_go.Core.Key.Paths.{
  parts, IsPlain, HasName, IsSafeSegment, fields_func-parts, drop_empty-All, drop_empty-HasName,
}
use openvaultdb_go.Core.Key.Safety.{HasName-ne, validate_segment_iff}
use openvaultdb_go.JoinExec.Names.{
  every, all_of, name_char, cuts_name, plain_part, no_parts, is_collection_name,
}

every-name_char_iff :
    (s : String) → (every name_char s ≡ true) ↔ Every (λ c. (32 ≤ code c) × (code c ≢ 127)) s
unfolding every name_char
every-name_char_iff String.[] = (λ h. tt, λ h. refl)
every-name_char_iff (String.◌∷◌ c s) =
    let (to, from) = every-name_char_iff s in
    (λ h. ((ground arith, ground arith), to (ground arith)), λ ((p, q), h). ground (arith, from h))

all_of-IsPlain_iff : (ws : List String) → (all_of plain_part ws ≡ true) ↔ All IsPlain ws
unfolding all_of plain_part
all_of-IsPlain_iff [] = (λ h. tt, λ h. refl)
all_of-IsPlain_iff (w ∷ ws) =
    let (to, from) = all_of-IsPlain_iff ws in
    (
      λ h. ((ground (arith, eq_iff w "."), ground (arith, eq_iff w "..")), to (ground arith)),
      λ ((p, q), h). ground (arith, from h, eq_iff w ".", eq_iff w ".."),
    )

no_parts_iff : (ws : List String) → (no_parts ws ≡ false) ↔ (ws ≢ [])
unfolding no_parts
no_parts_iff [] = (λ h. cc, λ h. absurd (h refl))
no_parts_iff (w ∷ ws) = (λ h. cc, λ h. refl)

-- What the walk's cutting of a name leaves, in terms of the name's parts.
cut-IsPlain_iff :
    (s : String) → (all_of plain_part (fields_func cuts_name s) ≡ true) ↔ All IsPlain (parts s)
unfolding cuts_name
cut-IsPlain_iff s = rw (fields_func-parts cuts_name (λ c. refl) s) (
  λ h. (drop_empty-All (parts s)).0 ((all_of-IsPlain_iff _).0 h),
  λ h. (all_of-IsPlain_iff _).1 ((drop_empty-All (parts s)).1 h),
)

cut-HasName_iff : (s : String) → (no_parts (fields_func cuts_name s) ≡ false) ↔ HasName (parts s)
unfolding cuts_name
cut-HasName_iff s = rw (fields_func-parts cuts_name (λ c. refl) s) (
  λ h. (drop_empty-HasName (parts s)).0 ((no_parts_iff _).0 h),
  λ h. (no_parts_iff _).1 ((drop_empty-HasName (parts s)).1 h),
)

four_iff :
    (a b c d : Bool)
    → ((not a && b && not c && d) ≡ true) ↔ ((a ≡ false) × (b ≡ true) × (c ≡ false) × (d ≡ true))
four_iff a b c d = ground arith

-- The walk's copy of the rule, described as `ValidateSegment` is.
is_collection_name-IsSafeSegment :
    (name : String) → (is_collection_name name ≡ true) ↔ IsSafeSegment name
unfolding is_collection_name
is_collection_name-IsSafeSegment name =
    let (to, from) =
      four_iff (name == "") (every name_char name) (no_parts (fields_func cuts_name name))
        (all_of plain_part (fields_func cuts_name name)) in
    (
      λ h.
          let (_, clean, full, plain) = to h in
          record {
            no_control = (every-name_char_iff name).0 clean;
            has_name = (cut-HasName_iff name).0 full;
            no_relative = (cut-IsPlain_iff name).0 plain;
          },
      λ safe. from (
        HasName-ne name safe.has_name,
        (every-name_char_iff name).1 safe.no_control,
        (cut-HasName_iff name).1 safe.has_name,
        (cut-IsPlain_iff name).1 safe.no_relative,
      ),
    )

-- The walk's own rule for collection names admits exactly the names that `ValidateSegment` of
-- pkg/core admits.
pub is_collection_name_iff :
    (name : String) → (validate_segment name ≡ ok tt) ↔ (is_collection_name name ≡ true)
is_collection_name_iff name =
    let (safe, accepted) = validate_segment_iff name in
    let (sound, complete) = is_collection_name-IsSafeSegment name in
    (λ h. complete (safe h), λ h. accepted (sound h))
