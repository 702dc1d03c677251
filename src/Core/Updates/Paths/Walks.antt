-- ===== src/Core/Updates/Paths/Walks.antt =====
-- pkg/core/updates.go: the walk to the parent of a field path: what it changes, and what it leaves.
use openvaultdb_go.Base.{
  String, List, [], ◌∷◌, Bool, true, false, if◌then◌else◌, Option, none, some, ok, err, ◌>>=◌, ◌≡◌,
  refl, ◌⊎◌, subst, inl, inr, sym, ap, ◌∙◌, arith, Result-cases, ok-injective, ok≢err, >>=-eq-ok,
}
use openvaultdb_go.Schema.Values.{Value, Fields, null, object, end, get, put}
use openvaultdb_go.Core.Updates.{
  UpdateError, Outcome, child_map, at_parent, set_at_path, delete_at_path,
}
use openvaultdb_go.Core.Updates.Paths.{
  Diverge, apart, read_at, read_at-end, IsLocal, get-put_self, get-drop_self, read_at-cong,
  read_at-put_self, read_at-put_ne,
}

module _ {Float : Type 0} where
  module _ (create : Bool) (f : String → Fields Float → Outcome (Fields Float)) (s r : String)
      (rs : List String) (m : Fields Float) where
    at_parent-none : child_map create s (get s m) ≡ ok none → at_parent create f s (r ∷ rs) m ≡ ok m
    unfolding at_parent
    at_parent-none e = rw e

    at_parent-some :
        {c : Fields Float}
        → child_map create s (get s m) ≡ ok (some c)
        → at_parent create f s (r ∷ rs) m
          ≡ (at_parent create f r rs c >>= λ d. ok (put s (object d) m))
    unfolding at_parent
    at_parent-some e = rw e

    at_parent-err :
        {x : UpdateError}
        → child_map create s (get s m) ≡ err x
        → at_parent create f s (r ∷ rs) m ≡ err x
    unfolding at_parent
    at_parent-err e = rw e

    -- A step of the walk that succeeds: nothing changes, or the object that it goes on in.
    walked :
        {changed : Fields Float}
        → at_parent create f s (r ∷ rs) m ≡ ok changed
        → ((changed ≡ m) × (child_map create s (get s m) ≡ ok none))
          ⊎ ((c d : Fields Float) × (child_map create s (get s m) ≡ ok (some c))
              × (at_parent create f r rs c ≡ ok d)
              × (changed ≡ put s (object d) m))
    walked h = elim (Result-cases (child_map create s (get s m))) [
      | inl (none, e) ↦ inl (ok-injective (sym h ∙ at_parent-none e), e)
      | inl (some c, e) ↦
          let (d, g, k) = >>=-eq-ok (at_parent create f r rs c) _ (sym (at_parent-some e) ∙ h) in
          inr (c, d, e, g, sym (ok-injective k))
      | inr (x, e) ↦ absurd (ok≢err (sym h ∙ at_parent-err e))
    ]

  fresh :
      (create : Bool) {c : Fields Float}
      → ◌≡◌ {A = Outcome (Option (Fields Float))}
          (ok (if create then some end else none))
          (ok (some c))
      → c ≡ end
  fresh true h = cc
  fresh false h = cc

  refused :
      (create : Bool) (x : UpdateError) {c : Fields Float}
      → ¬ (
          ◌≡◌ {A = Outcome (Option (Fields Float))}
            (if create then err x else ok none)
            (ok (some c)))
  refused true x h = cc
  refused false x h = cc

  -- The object that a walk goes on in reads as before below the segment.
  child-read :
      (create : Bool) (s : String) (m c : Fields Float) (u : String) (us : List String)
      → child_map create s (get s m) ≡ ok (some c)
      → read_at u us c ≡ read_at s (u ∷ us) m
  unfolding child_map read_at
  child-read create s m c u us h = go (get s m) h
    where
      go :
          (o : Option (Value Float))
          → child_map create s o ≡ ok (some c)
          → read_at u us c ≡ elim o [ some (object c) ↦ read_at u us c | _ ↦ none ]
      go none h = ap (read_at u us) (fresh create h) ∙ read_at-end u us
      go (some null) h = ap (read_at u us) (fresh create h) ∙ read_at-end u us
      go (some (object c)) h = ap (read_at u us) cc
      go (some v) h = absurd (refused create _ h)

  pub at_parent-elsewhere :
      (create : Bool) (f : String → Fields Float → Outcome (Fields Float)) (s : String)
      (rs : List String) (t : String) (us : List String) (m changed : Fields Float)
      → IsLocal f
      → at_parent create f s rs m ≡ ok changed
      → Diverge s rs t us
      → read_at t us changed ≡ read_at t us m
  unfolding at_parent Diverge
  at_parent-elsewhere create f s [] t us m changed loc h d =
      read_at-cong t us _ _ (loc s m changed t h (apart s t us d))
  at_parent-elsewhere create f s (r ∷ rs) t [] m changed loc h d =
      elim (walked create f s r rs m h) [
        | inl (same, _) ↦ ap (read_at t []) same
        | inr (c, n, e, g, k) ↦ ap (read_at t []) k ∙ read_at-put_ne s t [] _ m d
      ]
  at_parent-elsewhere create f s (r ∷ rs) t (u ∷ us) m changed loc h d =
      elim (walked create f s r rs m h) [
        | inl (same, _) ↦ ap (read_at t (u ∷ us)) same
        | inr (c, n, e, g, k) ↦ ap (read_at t (u ∷ us)) k ∙ elim d [
          | inl ne ↦ read_at-put_ne s t (u ∷ us) _ m ne
          | inr (eq, below) ↦
              subst (λ t. read_at t (u ∷ us) (put s (object n) m) ≡ read_at t (u ∷ us) m) eq
                (read_at-put_self s u us n m
                  ∙ at_parent-elsewhere create f r rs u us c n loc g below
                  ∙ child-read create s m c u us e)
        ]
      ]

  -- A walk that stops: it creates nothing, and there is nothing to read below the segment.
  stopped :
      (create : Bool) (s : String) (m : Fields Float) (u : String) (us : List String)
      → child_map create s (get s m) ≡ ok none
      → (create ≡ false) × (read_at s (u ∷ us) m ≡ none)
  unfolding child_map read_at
  stopped create s m u us h = go (get s m) h
    where
      held :
          (create : Bool)
          → ◌≡◌ {A = Outcome (Option (Fields Float))}
              (ok (if create then some end else none))
              (ok none)
          → create ≡ false
      held true h = cc
      held false h = refl

      kept :
          (create : Bool) (x : UpdateError)
          → ◌≡◌ {A = Outcome (Option (Fields Float))} (if create then err x else ok none) (ok none)
          → create ≡ false
      kept true x h = cc
      kept false x h = refl

      go :
          (o : Option (Value Float))
          → child_map create s o ≡ ok none
          → (create ≡ false)
            × (◌≡◌ {A = Option (Value Float)}
                (elim o [ some (object c) ↦ read_at u us c | _ ↦ none ])
                none)
      go none h = (held create h, refl)
      go (some null) h = (held create h, refl)
      go (some (object c)) h = cc
      go (some v) h = (kept create _ h, refl)

  -- The path reads back what the change of its leaf left there, or nothing where the walk stopped.
  pub at_parent-read :
      (create : Bool) (f : String → Fields Float → Outcome (Fields Float)) (s : String)
      (rs : List String) (m changed : Fields Float) (P : Option (Value Float) → Type 0)
      → ((leaf : String) (n after : Fields Float) → f leaf n ≡ ok after → P (get leaf after))
      → (create ≡ false → P none)
      → at_parent create f s rs m ≡ ok changed
      → P (read_at s rs changed)
  unfolding at_parent read_at
  at_parent-read create f s [] m changed P p q h = p s m changed h
  at_parent-read create f s (r ∷ rs) m changed P p q h = elim (walked create f s r rs m h) [
    | inl (same, e) ↦
        let (off, nothing) = stopped create s m r rs e in
        subst P (sym (ap (read_at s (r ∷ rs)) same ∙ nothing)) (q off)
    | inr (c, n, e, g, k) ↦
        subst P (sym (ap (read_at s (r ∷ rs)) k ∙ read_at-put_self s r rs n m))
          (at_parent-read create f r rs c n P p q g)
  ]

  pub set_at_path-read :
      (s : String) (rs : List String) (v : Value Float) (m changed : Fields Float)
      → set_at_path s rs v m ≡ ok changed
      → read_at s rs changed ≡ some v
  unfolding set_at_path
  set_at_path-read s rs v m changed h =
      at_parent-read true _ s rs m changed (λ o. o ≡ some v)
        (λ leaf n after e. ap (get leaf) (sym (ok-injective e)) ∙ get-put_self leaf v n)
        (λ off. absurd (ground arith)) h

  pub delete_at_path-read :
      (s : String) (rs : List String) (m changed : Fields Float)
      → delete_at_path s rs m ≡ ok changed
      → read_at s rs changed ≡ none
  unfolding delete_at_path
  delete_at_path-read s rs m changed h =
      at_parent-read false _ s rs m changed (λ o. o ≡ none)
        (λ leaf n after e. ap (get leaf) (sym (ok-injective e)) ∙ get-drop_self leaf n) (λ _. refl)
        h
