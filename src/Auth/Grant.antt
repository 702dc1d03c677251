-- ===== src/Auth/Grant.antt =====
-- pkg/auth/auth.go: grants and the principal of a request. A `*Grant` that may be nil is an
-- `Option`. Instants are nanoseconds, 0 the zero time. `access.PrincipalRef` is dalgo's: a parameter.
pub mod Authority
use openvaultdb_go.Base.{
  ℕ, String, List, [], ◌∷◌, Bool, true, false, not, ◌&&◌, ◌||◌, ◌==◌, ltb, eqb, if◌then◌else◌,
  Option, none, some, Result, ok, err, ◌>>=◌, ◌>>◌, require, ◌≡◌,
}
use openvaultdb_go.Auth.Capability.{Capability}

-- What the package uses of dalgo's `access.PrincipalRef`.
pub record PrincipalRefs : Type 1 where
  pub Ref : Type 0
  pub kind : Ref → String
  pub ref_id : Ref → String
  pub valid : Ref → Bool  -- `Validate() == nil`
  pub kind_user : String  -- `PrincipalKindUser`

pub record Grant (Ref : Type 0) : Type 0 where
  pub subject : Option Ref
  pub actor : Option Ref
  pub id : String
  pub label : String
  pub token_hash : String
  pub principal_type : String
  pub principal_id : String
  pub database_id : String
  pub capabilities : List Capability
  pub issued_at : ℕ
  pub expires_at : ℕ
  pub revoked_at : Option ℕ

abbrev is_some {ℓ} : {A : Type ℓ} → Option A → Bool
is_some none = false
is_some (some a) = true

unfoldable pub expired : {Ref : Type 0} → Grant Ref → ℕ → Bool
expired g now = not (eqb g.expires_at 0) && not (ltb now g.expires_at)

unfoldable pub revoked : {Ref : Type 0} → Grant Ref → Bool
revoked g = is_some g.revoked_at

pub data IdentityError : Type 0 where
  grant_required supplied_together bad_subject bad_actor actor_is_user : IdentityError

module _ (P : PrincipalRefs) where
  open P use {Ref, kind, valid, kind_user}

  validate_pair : Option Ref → Option Ref → Result IdentityError (Unit {0})
  validate_pair none none = ok tt
  validate_pair (some subject) (some actor) = do
    require (valid subject) bad_subject
    require (valid actor) bad_actor
    require (not (kind actor == kind_user)) actor_is_user
  validate_pair _ _ = err supplied_together

  unfoldable pub validate_identity : Option (Grant Ref) → Result IdentityError (Unit {0})
  unfolding validate_pair
  validate_identity none = err grant_required
  validate_identity (some g) = validate_pair g.subject g.actor

-- The caller of a request: the owner, or the holder of a grant.
pub record Principal (Ref : Type 0) : Type 0 where
  pub owner : Bool
  pub grant : Option (Grant Ref)

-- The loop of `Allows` over the capabilities of the grant.
any_allows : List Capability → String → String → Bool
any_allows [] action collection = false
any_allows (c ∷ cs) action collection =
    let rest = any_allows cs action collection in
    if not (c.action == action)
    then rest
    else if c.collection == "" || c.collection == collection
    then true
    else rest

grant_allows : {Ref : Type 0} → Option (Grant Ref) → String → String → String → Bool
unfolding any_allows
grant_allows none database action collection = false
grant_allows (some g) database action collection =
    if not (g.database_id == "") && not (g.database_id == database)
    then false
    else any_allows g.capabilities action collection

unfoldable pub allows : {Ref : Type 0} → Option (Principal Ref) → String → String → String → Bool
unfolding grant_allows
allows none database action collection = false
allows (some p) database action collection =
    if p.owner then true else grant_allows p.grant database action collection
