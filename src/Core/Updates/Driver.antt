-- ===== src/Core/Updates/Driver.antt =====
-- pkg/core/updates.go and core.go: the write drops the error of `toDalUpdates`, after the updates
-- were simulated on the record.
use openvaultdb_go.Base.{
  ℕ, suc, String, List, [], ◌∷◌, Bool, true, false, ◌&&◌, ◌||◌, not, ◌==◌, if◌then◌else◌, Option,
  none, some, ok, err, ◌>>◌, ◌≡◌, refl, sym, ap, require, require->>-eq-ok, >>=-eq-ok, >>=-ok,
  ok≢err, if-related,
}
use openvaultdb_go.Schema.Values.{Floats, Fields, as_float}
use openvaultdb_go.Core.Updates.{
  Outcome, UpdateOp, both_targets, no_target, increment_not_number, increment_by, by_field_name,
  by_field_path, empty_segment, DalUpdate, DalValue, no_path, all_named, target, write_at,
  apply_update, apply_updates, apply_from, at_update, dal_value, to_dal_update, to_dal_updates,
  dal_from, increment_at_path,
}

module _ (F : Floats) where
  open F use {Float}

  increment→dal_value :
      (o : Option Float) (k : Float → Outcome (Fields Float)) {changed : Fields Float}
      → elim o [ none ↦ err increment_not_number | some d ↦ k d ] ≡ ok changed
      → (v : DalValue Float) × (elim o [
        | none ↦ err increment_not_number
        | some n ↦ ok (increment_by (F.to_int n))
      ]
          ≡ ok v)
  increment→dal_value none k h = cc
  increment→dal_value (some d) k h = (_, refl)

  write_at→dal_value :
      (now : String) (u : UpdateOp Float) (s : String) (rs : List String) (m changed : Fields Float)
      → write_at F now u s rs m ≡ ok changed
      → (v : DalValue Float) × (dal_value F u ≡ ok v)
  unfolding write_at dal_value increment_at_path
  write_at→dal_value now u s rs m changed =
      if-related Follows u.delete (λ _. (_, refl))
        (if-related Follows u.server_timestamp (λ _. (_, refl))
          (if-related Follows (u.transform == "increment")
            (increment→dal_value (as_float F u.value) _)
            (if-related Follows (u.transform == "") (λ _. (_, refl))
              (λ h. absurd (ok≢err (sym h))))))
    where
      Follows : Outcome (Fields Float) → Outcome (DalValue Float) → Type 0
      Follows r q = r ≡ ok changed → (v : DalValue Float) × (q ≡ ok v)

  target→tests :
      (u : UpdateOp Float) {x : String × List String}
      → target F u ≡ ok x
      → ((u.field_name == "" || no_path F u.field_path) ≡ true)
        × (not (u.field_name == "" && no_path F u.field_path) ≡ true)
  unfolding target no_path
  target→tests u h =
      let (b, k) = require->>-eq-ok _ both_targets _ h in
      (b, go (u.field_name == "") u.field_path k)
    where
      go :
          (b : Bool) (path : List String) {x : String × List String}
          → elim path [
            | [] ↦ if b then err no_target else ok (u.field_name, [])
            | seg ∷ rest ↦ require (all_named F (seg ∷ rest)) empty_segment >> ok (seg, rest)
          ]
            ≡ ok x
          → not (b && no_path F path) ≡ true
      go true [] k = cc
      go false [] k = refl
      go true (s ∷ ss) k = refl
      go false (s ∷ ss) k = refl

  apply_update→to_dal_update :
      (now : String) (u : UpdateOp Float) (m changed : Fields Float)
      → apply_update F now u m ≡ ok changed
      → (d : DalUpdate Float) × (to_dal_update F u ≡ ok d)
  unfolding apply_update to_dal_update
  apply_update→to_dal_update now u m changed h =
      let ((s, rs), at, k) = >>=-eq-ok (target F u) _ h in
      let (one, some_target) = target→tests u at in
      let (v, e) = write_at→dal_value now u s rs m changed k in
      (
        if no_path F u.field_path
            then by_field_name u.field_name v
            else by_field_path u.field_path v,
        rw (one, some_target, e),
      )

  apply_from→dal_from :
      (i : ℕ) (now : String) (us : List (UpdateOp Float)) (m changed : Fields Float)
      → apply_from F i now us m ≡ ok changed
      → (ds : List (DalUpdate Float)) × (dal_from F i us ≡ ok ds)
  unfolding apply_from dal_from at_update
  apply_from→dal_from i now [] m changed h = ([], refl)
  apply_from→dal_from i now (u ∷ us) m changed h =
      let (n, e, k) = >>=-eq-ok (at_update F i (apply_update F now u m)) _ h in
      let (d, f) = apply_update→to_dal_update now u m n (passed i _ e) in
      let (ds, g) = apply_from→dal_from (suc i) now us n changed k in
      (
        d ∷ ds,
        >>=-ok (at_update F i (to_dal_update F u)) _ (ap (at_update F i) f)
            (>>=-ok (dal_from F (suc i) us) _ g refl),
      )
    where
      passed : {A : Type 0} (i : ℕ) (r : Outcome A) {a : A} → at_update F i r ≡ ok a → r ≡ ok a
      passed i (ok a) h = cc
      passed i (err e) h = cc

  -- When the simulation of the updates succeeds, their conversion for the driver succeeds as well:
  -- the error that the write drops cannot occur.
  pub apply_updates→to_dal_updates :
      (now : String) (us : List (UpdateOp Float)) (m changed : Fields Float)
      → apply_updates F now us m ≡ ok changed
      → (ds : List (DalUpdate Float)) × (to_dal_updates F us ≡ ok ds)
  unfolding apply_updates to_dal_updates
  apply_updates→to_dal_updates = apply_from→dal_from 0
