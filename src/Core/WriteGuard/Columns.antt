-- ===== src/Core/WriteGuard/Columns.antt =====
-- pkg/core/write_guard.go: the names of fields that the guards let pass.
use openvaultdb_go.Base.{
  String, List, [], ◌∷◌, true, false, not, ◌&&◌, ◌||◌, ◌==◌, if◌then◌else◌, ok, ◌≡◌, sym, ◌∙◌, ◌≢◌,
  inl, inr, arith, split, All, Bool-cases, if_false, eq_iff, require->>-eq-ok, require-eq-ok,
  >>=-eq-ok,
}
use openvaultdb_go.JoinExec.Names.{Unicode, is_field_name}
use openvaultdb_go.Core.Updates.{UpdateOp}
use openvaultdb_go.Core.WriteGuard.{
  Guarded, name_too_long, none_too_long, is_nil, folds_to_id, is_key_column_spelling,
  no_key_spelling, head_of, all_plain, validate_field_path, validate_update_path, validate_update,
  validate_updates,
}

module _ (U : Unicode) (d : Guarded) where
  -- A plain name that the server keeps whole, and no other spelling of the key column.
  pub IsColumn : String → Type 0
  IsColumn s =
      (is_field_name U s ≡ true) × (name_too_long d s ≡ false) × (folds_to_id s ≡ true → s ≡ "id")

  pub columns-IsColumn :
      (ss : List String)
      → all_plain U ss ≡ true
      → none_too_long d ss ≡ true
      → no_key_spelling ss ≡ true
      → All IsColumn ss
  unfolding all_plain none_too_long no_key_spelling is_key_column_spelling IsColumn
  columns-IsColumn [] p q r = tt
  columns-IsColumn (s ∷ ss) p q r =
      let now : IsColumn s = ground (arith, eq_iff s "id") in
      (now, columns-IsColumn ss (ground arith) (ground arith) (ground arith))

  -- A plain name that is not, and does not start with, the key column.
  pub IsTarget : String → Type 0
  IsTarget s =
      (is_field_name U s ≡ true)
      × (name_too_long d s ≡ false)
      × (folds_to_id (head_of (split "." s)) ≡ false)

  -- The fields that an update names, of its two ways to name one.
  pub IsPlainUpdate : {Float : Type 0} → UpdateOp Float → Type 0
  IsPlainUpdate u =
      (u.field_name ≢ "" → IsTarget u.field_name)
      × ((s : String) (ss : List String) → u.field_path ≡ s ∷ ss → IsTarget s)

  path-IsTarget :
      (s : String) (ss : List String)
      → d.document_engine ≡ false
      → validate_update_path U d (s ∷ ss) ≡ ok tt
      → IsTarget s
  unfolding validate_update_path validate_field_path none_too_long head_of IsTarget
  path-IsTarget s ss e h =
      let (_, a, b) = >>=-eq-ok (validate_field_path U d (s ∷ ss)) _ h in
      let (plain, f) = require->>-eq-ok (is_field_name U s) _ _ a in
      let (short, g) = require->>-eq-ok (none_too_long d (s ∷ ss)) _ _ f in
      let other =
        require-eq-ok (d.document_engine || not (folds_to_id (head_of (split "." s)))) _ b in
      (plain, ground arith, ground arith)

  module _ {Float : Type 0} where
    validate_update-IsPlainUpdate :
        (u : UpdateOp Float)
        → d.document_engine ≡ false
        → validate_update U d u ≡ ok tt
        → IsPlainUpdate u
    unfolding validate_update IsPlainUpdate is_nil
    validate_update-IsPlainUpdate u e h =
        let (_, a) = require->>-eq-ok (not (u.field_name == "" && is_nil u.field_path)) _ _ h in
        let named =
          if u.field_name == "" then ok tt else validate_update_path U d (u.field_name ∷ []) in
        let (_, b, c) = >>=-eq-ok named _ a in
        (
          λ ne. elim (Bool-cases (u.field_name == "")) [
            | inl f ↦ absurd (ne ((eq_iff u.field_name "").0 f))
            | inr f ↦ path-IsTarget u.field_name [] e (sym (if_false _ _ f) ∙ b)
          ],
          λ s ss f. path-IsTarget s ss e (rw f at c),
        )

    pub validate_updates-IsPlainUpdate :
        (us : List (UpdateOp Float))
        → d.document_engine ≡ false
        → validate_updates U d us ≡ ok tt
        → All IsPlainUpdate us
    unfolding validate_updates
    validate_updates-IsPlainUpdate [] e h = tt
    validate_updates-IsPlainUpdate (u ∷ us) e h =
        let (_, a, b) = >>=-eq-ok (validate_update U d u) _ h in
        (validate_update-IsPlainUpdate u e a, validate_updates-IsPlainUpdate us e b)
