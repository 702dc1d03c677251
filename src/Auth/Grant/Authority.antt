-- ===== src/Auth/Grant/Authority.antt =====
-- pkg/auth/auth.go: what `Principal.Allows` grants, and what `ValidateIdentity` admits.
use mathlib.Core.List.{Memᴰ}
use openvaultdb_go.Base.{
  String, List, [], ◌∷◌, true, ◌≡◌, refl, sym, ◌≢◌, ◌↔◌, ◌⊎◌, inl, inr, Option, none, some, eq_iff,
  arith, Bool-cases, ok, require->>-eq-ok, subst,
}
use openvaultdb_go.Auth.Capability.{Capability}
use openvaultdb_go.Auth.Grant.{
  Grant, Principal, PrincipalRefs, any_allows, grant_allows, allows, validate_pair,
  validate_identity,
}

-- A capability that covers the action on the collection: unscoped, or scoped to that collection.
pub record Covers (action collection : String) (c : Capability) : Type 0 where
  pub same_action : c.action ≡ action
  pub in_scope : (c.collection ≡ "") ⊎ (c.collection ≡ collection)

-- A grant that reaches the database: a server-level one, or one for that database.
abbrev Reaches : {Ref : Type 0} → Grant Ref → String → Type 0
Reaches g database = (g.database_id ≡ "") ⊎ (g.database_id ≡ database)

abbrev pub Authorized : {Ref : Type 0} → Principal Ref → String → String → String → Type 0
Authorized {Ref} p database action collection =
    (p.owner ≡ true)
    ⊎ ((g : Grant Ref) × (p.grant ≡ some g)
        × Reaches g database
        × ((c : Capability) × Memᴰ c g.capabilities × Covers action collection c))

any_allows_sound :
    (cs : List Capability) (action collection : String)
    → any_allows cs action collection ≡ true
    → (c : Capability) × Memᴰ c cs × Covers action collection c
unfolding any_allows
any_allows_sound [] action collection h = absurd (cc)
any_allows_sound (c ∷ cs) action collection h =
    elim (Bool-cases (any_allows cs action collection)) [
      | inl later ↦
          let (d, member, covers) = any_allows_sound cs action collection later in
          (d, Memᴰ.tail member, covers)
      | inr never ↦ (
        c,
        Memᴰ.head refl,
        record {
          same_action = ground (arith, eq_iff c.action action);
          in_scope = ground (
            arith,
            eq_iff c.action action,
            eq_iff c.collection "",
            eq_iff c.collection collection,
          );
        },
      )
    ]

any_allows_complete :
    (cs : List Capability) (action collection : String) (c : Capability)
    → Memᴰ c cs
    → Covers action collection c
    → any_allows cs action collection ≡ true
unfolding any_allows
any_allows_complete [] action collection c m v = elim m [ ]
any_allows_complete (d ∷ cs) action collection c (Memᴰ.head e) v =
    let w = subst (Covers action collection) e v in
    ground (
      arith,
      w.same_action,
      w.in_scope,
      eq_iff d.action action,
      eq_iff d.collection "",
      eq_iff d.collection collection,
    )
any_allows_complete (d ∷ cs) action collection c (Memᴰ.tail m) v =
    ground (arith, any_allows_complete cs action collection c m v)

none-ne-some : {A : Type 0} {a : A} → none ≢ some a
none-ne-some = cc

grant_allows_complete :
    {Ref : Type 0} (g : Grant Ref) (database action collection : String) (c : Capability)
    → Reaches g database
    → Memᴰ c g.capabilities
    → Covers action collection c
    → grant_allows (some g) database action collection ≡ true
unfolding grant_allows
grant_allows_complete g database action collection c reach m v = ground (
  arith,
  any_allows_complete g.capabilities action collection c m v,
  eq_iff g.database_id "",
  eq_iff g.database_id database,
)

grant_allows_iff :
    {Ref : Type 0} (o : Option (Grant Ref)) (database action collection : String)
    → (grant_allows o database action collection ≡ true) ↔ (
        (g : Grant Ref) × (o ≡ some g)
        × Reaches g database
        × ((c : Capability) × Memᴰ c g.capabilities × Covers action collection c))
unfolding grant_allows
grant_allows_iff none database action collection =
    (λ h. absurd (cc), λ (g, e, reach, found). absurd (none-ne-some e))
grant_allows_iff (some g) database action collection = (
  λ h. (
    g,
    refl,
    ground (arith, eq_iff g.database_id "", eq_iff g.database_id database),
    any_allows_sound g.capabilities action collection (ground arith),
  ),
  λ (f, e, reach, found).
      subst (λ o. grant_allows o database action collection ≡ true) (sym e)
        (grant_allows_complete f database action collection found.0 reach found.1 found.2),
)

-- A principal is allowed an action exactly when it is the owner, or its grant reaches the database
-- and holds a capability for the action that is unscoped or scoped to the collection asked for.
pub allows_iff :
    {Ref : Type 0} (p : Principal Ref) (database action collection : String)
    → (allows (some p) database action collection ≡ true) ↔ Authorized p database action collection
unfolding allows
allows_iff p database action collection =
    ground (arith, grant_allows_iff p.grant database action collection)

module _ (P : PrincipalRefs) where
  open P use {Ref, kind, valid, kind_user}

  -- No delegation at all, or a valid subject and a valid actor that is not a user.
  abbrev pub IsBound : Option Ref → Option Ref → Type 0
  IsBound none none = Unit
  IsBound (some subject) (some actor) =
      (valid subject ≡ true) × (valid actor ≡ true) × (kind actor ≢ kind_user)
  IsBound _ _ = ⊥

  validate_pair_iff :
      (subject actor : Option Ref) → (validate_pair P subject actor ≡ ok tt) ↔ IsBound subject actor
  unfolding validate_pair
  validate_pair_iff none none = (λ h. tt, λ h. refl)
  validate_pair_iff none (some actor) = (λ h. cc, λ h. absurd h)
  validate_pair_iff (some subject) none = (λ h. cc, λ h. absurd h)
  validate_pair_iff (some subject) (some actor) = (
    λ h.
        let (v, rest) = require->>-eq-ok _ _ _ h in
        let (w, last) = require->>-eq-ok _ _ _ rest in
        (v, w, ground (arith, eq_iff (kind actor) kind_user)),
    λ (v, w, n). ground (arith, eq_iff (kind actor) kind_user),
  )

  -- `ValidateIdentity` accepts a grant exactly when it names neither subject nor actor, or names
  -- both, both are valid and the actor is not a user.
  pub validate_identity_iff :
      (g : Grant Ref) → (validate_identity P (some g) ≡ ok tt) ↔ IsBound g.subject g.actor
  unfolding validate_identity
  validate_identity_iff g = validate_pair_iff g.subject g.actor
