-- ===== src/Core/Updates/Framing.antt =====
-- pkg/core/updates.go: an update writes at its own path and nowhere else, and deleting never fails.
use openvaultdb_go.Base.{
  String, List, true, false, ◌==◌, if◌then◌else◌, Option, none, some, ok, err, ◌≡◌, sym, ap, ◌∙◌,
  arith, ok-injective, >>=-eq-ok, ok≢err, if-both, if-related, subst,
}
use openvaultdb_go.Schema.Values.{Floats, Value, Fields, float, text, get, as_float}
use openvaultdb_go.Core.Updates.{
  Outcome, current_number, increment_not_number, increment_leaf, write_at, UpdateOp, at_parent,
  set_at_path, delete_at_path, increment_at_path, target, apply_update,
}
use openvaultdb_go.Core.Updates.Paths.{
  Diverge, read_at, IsLocal, get-put_self, get-put_ne, get-drop_ne,
}
use openvaultdb_go.Core.Updates.Paths.Walks.{
  at_parent-elsewhere, set_at_path-read, delete_at_path-read, at_parent-read,
}

module _ (F : Floats) where
  open F use {Float}

  set_at_path-elsewhere :
      (s : String) (rs : List String) (v : Value Float) (t : String) (us : List String)
      (m changed : Fields Float)
      → set_at_path s rs v m ≡ ok changed
      → Diverge s rs t us
      → read_at t us changed ≡ read_at t us m
  unfolding set_at_path
  set_at_path-elsewhere s rs v t us m changed =
      at_parent-elsewhere true _ s rs t us m changed
        (λ leaf n after j e ne. ap (get j) (sym (ok-injective e)) ∙ get-put_ne leaf j v n ne)

  delete_at_path-elsewhere :
      (s : String) (rs : List String) (t : String) (us : List String) (m changed : Fields Float)
      → delete_at_path s rs m ≡ ok changed
      → Diverge s rs t us
      → read_at t us changed ≡ read_at t us m
  unfolding delete_at_path
  delete_at_path-elsewhere s rs t us m changed =
      at_parent-elsewhere false _ s rs t us m changed
        (λ leaf n after j e ne. ap (get j) (sym (ok-injective e)) ∙ get-drop_ne leaf j n ne)

  increment_leaf-IsLocal : (d : Float) → IsLocal (increment_leaf F d)
  unfolding increment_leaf
  increment_leaf-IsLocal d leaf m changed j h ne =
      let (current, e, k) = >>=-eq-ok (current_number F leaf (get leaf m)) _ h in
      ap (get j) (sym (ok-injective k)) ∙ get-put_ne leaf j _ m ne

  increment_at_path-elsewhere :
      (s : String) (rs : List String) (delta : Value Float) (t : String) (us : List String)
      (m changed : Fields Float)
      → increment_at_path F s rs delta m ≡ ok changed
      → Diverge s rs t us
      → read_at t us changed ≡ read_at t us m
  unfolding increment_at_path
  increment_at_path-elsewhere s rs delta t us m changed h = go (as_float F delta) h
    where
      go :
          (o : Option Float)
          → elim o [
            | none ↦ err increment_not_number
            | some d ↦ at_parent true (increment_leaf F d) s rs m
          ]
            ≡ ok changed
          → Diverge s rs t us
          → read_at t us changed ≡ read_at t us m
      go none h d = cc
      go (some x) h d =
          at_parent-elsewhere true _ s rs t us m changed (increment_leaf-IsLocal x) h d

  write_at-elsewhere :
      (now : String) (u : UpdateOp Float) (s : String) (rs : List String) (t : String)
      (us : List String) (m changed : Fields Float)
      → Diverge s rs t us
      → write_at F now u s rs m ≡ ok changed
      → read_at t us changed ≡ read_at t us m
  unfolding write_at
  write_at-elsewhere now u s rs t us m changed d =
      if-both Kept u.delete (λ h. delete_at_path-elsewhere s rs t us m changed h d)
        (if-both Kept u.server_timestamp (λ h. set_at_path-elsewhere s rs _ t us m changed h d)
          (if-both Kept (u.transform == "increment")
            (λ h. increment_at_path-elsewhere s rs _ t us m changed h d)
            (if-both Kept (u.transform == "") (λ h. set_at_path-elsewhere s rs _ t us m changed h d)
              (λ h. absurd (ok≢err (sym h))))))
    where
      Kept : Outcome (Fields Float) → Type 0
      Kept r = r ≡ ok changed → read_at t us changed ≡ read_at t us m

  -- A successful update leaves the value at every path that parts from its own path as it was.
  pub apply_update-elsewhere :
      (now : String) (u : UpdateOp Float) (s : String) (rs : List String) (t : String)
      (us : List String) (m changed : Fields Float)
      → target F u ≡ ok (s, rs)
      → apply_update F now u m ≡ ok changed
      → Diverge s rs t us
      → read_at t us changed ≡ read_at t us m
  unfolding apply_update
  apply_update-elsewhere now u s rs t us m changed at h d =
      let ((seg, rest), e, k) = >>=-eq-ok (target F u) _ h in
      write_at-elsewhere now u s rs t us m changed d (
        subst (λ (seg, rest). write_at F now u seg rest m ≡ ok changed) (ok-injective (sym e ∙ at))
          k)

  -- What an update leaves at its path.
  unfoldable pub Written : String → UpdateOp Float → Option (Value Float) → Type 0
  Written now u o =
      if u.delete
      then (o ≡ none)
      else (if u.server_timestamp
          then (o ≡ some (text now))
          else (if u.transform == "increment"
              then ((x : Float) × (o ≡ some (float x)))
              else (o ≡ some u.value)))

  increment_at_path-read :
      (s : String) (rs : List String) (delta : Value Float) (m changed : Fields Float)
      → increment_at_path F s rs delta m ≡ ok changed
      → (x : Float) × (read_at s rs changed ≡ some (float x))
  unfolding increment_at_path increment_leaf
  increment_at_path-read s rs delta m changed h = go (as_float F delta) h
    where
      leaf_lem :
          (d : Float) (leaf : String) (n after : Fields Float)
          → increment_leaf F d leaf n ≡ ok after
          → (x : Float) × (get leaf after ≡ some (float x))
      leaf_lem d leaf n after e =
          let (current, _, k) = >>=-eq-ok (current_number F leaf (get leaf n)) _ e in
          (_, ap (get leaf) (sym (ok-injective k)) ∙ get-put_self leaf _ n)

      go :
          (o : Option Float)
          → elim o [
            | none ↦ err increment_not_number
            | some d ↦ at_parent true (increment_leaf F d) s rs m
          ]
            ≡ ok changed
          → (x : Float) × (read_at s rs changed ≡ some (float x))
      go none h = cc
      go (some d) h =
          at_parent-read true _ s rs m changed (λ o. (x : Float) × (o ≡ some (float x)))
            (leaf_lem d) (λ off. absurd (ground arith)) h

  -- What a successful update leaves at its own path: nothing after a deletion, the time for a
  -- server timestamp, a number after an increment, and the value itself otherwise.
  pub apply_update-Written :
      (now : String) (u : UpdateOp Float) (s : String) (rs : List String) (m changed : Fields Float)
      → target F u ≡ ok (s, rs)
      → apply_update F now u m ≡ ok changed
      → Written now u (read_at s rs changed)
  unfolding apply_update write_at Written
  apply_update-Written now u s rs m changed at h =
      let ((seg, rest), e, k) = >>=-eq-ok (target F u) _ h in
      written (
        subst (λ (seg, rest). write_at F now u seg rest m ≡ ok changed) (ok-injective (sym e ∙ at))
          k)
    where
      Leaves : Outcome (Fields Float) → Type 0 → Type 0
      Leaves r T = r ≡ ok changed → T

      written : write_at F now u s rs m ≡ ok changed → Written now u (read_at s rs changed)
      written =
          if-related Leaves u.delete (λ h. delete_at_path-read s rs m changed h)
            (if-related Leaves u.server_timestamp (λ h. set_at_path-read s rs _ m changed h)
              (if-related Leaves (u.transform == "increment")
                (λ h. increment_at_path-read s rs _ m changed h)
                (if-both (λ r. Leaves r (read_at s rs changed ≡ some u.value)) (u.transform == "")
                  (λ h. set_at_path-read s rs _ m changed h) (λ h. absurd (ok≢err (sym h))))))
