-- ===== src/Core/Updates/Paths.antt =====
-- pkg/core/updates.go: what is read at a field path, and how a changed field changes it.
pub mod Walks
use openvaultdb_go.Base.{
  String, List, [], ◌∷◌, Bool, true, false, ◌==◌, if◌then◌else◌, Option, none, some, ok, err, ◌>>=◌,
  ◌≡◌, refl, ◌≢◌, ◌⊎◌, subst, inl, inr, sym, ap, ◌∙◌, arith, eq_iff, Result-cases, ok-injective,
  ok≢err, >>=-eq-ok,
}
use openvaultdb_go.Schema.Values.{Value, Fields, null, object, end, field, get, put, drop}
use openvaultdb_go.Core.Updates.{
  UpdateError, Outcome, child_map, at_parent, set_at_path, delete_at_path,
}

-- The two paths part ways at some segment.
unfoldable pub Diverge : String → List String → String → List String → Type 0
Diverge s [] t [] = s ≢ t
Diverge s [] t (u ∷ us) = s ≢ t
Diverge s (r ∷ rs) t [] = s ≢ t
Diverge s (r ∷ rs) t (u ∷ us) = (s ≢ t) ⊎ ((s ≡ t) × Diverge r rs u us)

apart : (s t : String) (us : List String) → Diverge s [] t us → s ≢ t
unfolding Diverge
apart s t [] d = d
apart s t (u ∷ us) d = d

module _ {Float : Type 0} where
  get-put :
      (k j : String) (v : Value Float) (m : Fields Float)
      → get j (put k v m) ≡ (if k == j then some v else get j m)
  unfolding get put
  get-put k j v end = refl
  get-put k j v (field i w m) = ground (arith, eq_iff k j, eq_iff i k, eq_iff i j, get-put k j v m)

  get-drop :
      (k j : String) (m : Fields Float) → get j (drop k m) ≡ (if k == j then none else get j m)
  unfolding get drop
  get-drop k j end = ground arith
  get-drop k j (field i w m) = ground (arith, eq_iff k j, eq_iff i k, eq_iff i j, get-drop k j m)

  -- The value at a path: a reader's view of a record.
  unfoldable pub read_at : String → List String → Fields Float → Option (Value Float)
  read_at seg [] m = get seg m
  read_at seg (next ∷ rest) m = elim (get seg m) [
    | some (object c) ↦ read_at next rest c
    | _ ↦ none
  ]

  object-injective : {c d : Fields Float} → ◌≡◌ {A = Value Float} (object c) (object d) → c ≡ d
  object-injective h = cc

  read_at-end :
      (s : String) (rs : List String) → ◌≡◌ {A = Option (Value Float)} (read_at s rs end) none
  unfolding read_at get
  read_at-end s [] = refl
  read_at-end s (r ∷ rs) = refl

  abbrev pub IsLocal : (String → Fields Float → Outcome (Fields Float)) → Type 0
  IsLocal f =
      (leaf : String) (m changed : Fields Float) (j : String)
      → f leaf m ≡ ok changed
      → leaf ≢ j
      → get j changed ≡ get j m

  pub get-put_ne :
      (k j : String) (v : Value Float) (m : Fields Float) → k ≢ j → get j (put k v m) ≡ get j m
  get-put_ne k j v m h = ground (arith, get-put k j v m, eq_iff k j)

  pub get-drop_ne : (k j : String) (m : Fields Float) → k ≢ j → get j (drop k m) ≡ get j m
  get-drop_ne k j m h = ground (arith, get-drop k j m, eq_iff k j)

  pub get-put_self : (k : String) (v : Value Float) (m : Fields Float) → get k (put k v m) ≡ some v
  get-put_self k v m = ground (arith, get-put k k v m, eq_iff k k)

  get-drop_self : (k : String) (m : Fields Float) → get k (drop k m) ≡ none
  get-drop_self k m = ground (arith, get-drop k k m, eq_iff k k)

  read_at-cong :
      (t : String) (us : List String) (m n : Fields Float)
      → get t m ≡ get t n
      → read_at t us m ≡ read_at t us n
  unfolding read_at
  read_at-cong t [] m n h = h
  read_at-cong t (u ∷ us) m n h = rw (read_at, h)

  read_at-put_self :
      (s u : String) (us : List String) (d m : Fields Float)
      → read_at s (u ∷ us) (put s (object d) m) ≡ read_at u us d
  unfolding read_at
  read_at-put_self s u us d m = rw (read_at, get-put_self s (object d) m)

  read_at-put_ne :
      (s t : String) (us : List String) (v : Value Float) (m : Fields Float)
      → s ≢ t
      → read_at t us (put s v m) ≡ read_at t us m
  read_at-put_ne s t us v m ne = read_at-cong t us _ _ (get-put_ne s t v m ne)
