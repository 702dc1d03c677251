-- ===== src/Auth/Middleware.antt =====
-- pkg/auth/middleware.go: the token check in front of every handler. The request enters as its path
-- and its Authorization header; the outcome is the handler call with the principal, or a 401.
use text.Mathlib.Text.{starts_with}
use openvaultdb_go.Base.{
  ℕ, ◌+◌, String, code, Bool, true, false, ◌&&◌, ◌||◌, ◌==◌, leb, eqb, if◌then◌else◌, Option, none,
  some, trim_space, ◌≡◌, refl, ◌≢◌, inl, inr, eq_iff, Bool-cases, Option-cases, sym, ◌∙◌,
}
use openvaultdb_go.Auth.Grant.{Grant, Principal}
use openvaultdb_go.Auth.Store.{Store, lookup_token}

unfoldable pub public_path : String → Bool
public_path path =
    if path == "/ovdb" || starts_with path "/ovdb/"
    then true
    else path == "/.well-known/openvaultdb" || path == "/authorize" || path == "/token"

lower : ℕ → ℕ
lower c = if leb b'A' c && leb c b'Z' then c + 32 else c

-- The rest of a text behind a prefix of lower-case ASCII, matched without regard to case. No other
-- character folds to a letter of "bearer ", so this is `EqualFold` on the first seven bytes.
unfoldable pub strip_fold : String → String → Option String
unfolding lower
strip_fold String.[] s = some s
strip_fold (String.◌∷◌ p ps) String.[] = none
strip_fold (String.◌∷◌ p ps) (String.◌∷◌ c s) =
    let rest = strip_fold ps s in if eqb (lower (code c)) (code p) then rest else none

after_scheme : Option String → String
after_scheme none = ""
after_scheme (some rest) = if rest == "" then "" else trim_space rest

-- `BearerToken`, of the Authorization header ("" when there is none).
unfoldable pub bearer_token : String → String
unfolding strip_fold after_scheme
bearer_token header = after_scheme (strip_fold "bearer " header)

pub record Config (Ref : Type 0) : Type 0 where
  pub owner_token : String
  pub store : Option (Store Ref)

pub data Outcome (Ref : Type 0) : Type 0 where
  serves : Option (Principal Ref) → Outcome Ref
  missing_token invalid_token : Outcome Ref

module _ {Ref : Type 0} (hash : String → String) where
  store_lookup : Option (Store Ref) → String → ℕ → Option (Grant Ref)
  store_lookup none token now = none
  store_lookup (some s) token now = lookup_token hash token now s

  serve_grant : Option (Grant Ref) → Outcome Ref
  serve_grant none = invalid_token
  serve_grant (some g) = serves (some (record { owner = false; grant = some g }))

  unfoldable pub middleware : Config Ref → String → String → ℕ → Outcome Ref
  unfolding store_lookup serve_grant
  middleware cfg path header now =
      let token = bearer_token header in
      if public_path path
      then serves none
      else if token == ""
      then missing_token
      else if token == cfg.owner_token
      then serves (some (record { owner = true; grant = none }))
      else serve_grant (store_lookup cfg.store token now)

  -- A principal that the bearer token of the request stands for: the owner by the owner token, or
  -- the holder of a grant that the store resolves the token to.
  pub data Authenticates (cfg : Config Ref) (header : String) (now : ℕ)
      : Principal Ref → Type 0 where
    as_owner :
        bearer_token header ≡ cfg.owner_token
        → Authenticates cfg header now (record { owner = true; grant = none })
    as_holder :
        (s : Store Ref) (g : Grant Ref)
        → cfg.store ≡ some s
        → lookup_token hash (bearer_token header) now s ≡ some g
        → Authenticates cfg header now (record { owner = false; grant = some g })

  grant-Authenticates :
      (cfg : Config Ref) (header : String) (now : ℕ) (o : Option (Store Ref))
      (p : Option (Principal Ref))
      → cfg.store ≡ o
      → serve_grant (store_lookup o (bearer_token header) now) ≡ serves p
      → (q : Principal Ref) × (p ≡ some q) × Authenticates cfg header now q
  unfolding serve_grant store_lookup
  grant-Authenticates cfg header now none p same e = absurd (cc)
  grant-Authenticates cfg header now (some s) p same e =
      elim (Option-cases (lookup_token hash (bearer_token header) now s)) [
        | inl unknown ↦ absurd (invalid-ne-serves (rw unknown at e))
        | inr (g, found) ↦
            let q : Principal Ref = record { owner = false; grant = some g } in
            (q, serves-injective (sym (rw found at e)), as_holder s g same found)
      ]
    where
      invalid-ne-serves : {p : Option (Principal Ref)} → invalid_token ≢ serves p
      invalid-ne-serves = cc

      serves-injective : {p q : Option (Principal Ref)} → serves p ≡ serves q → p ≡ q
      serves-injective h = cc

  -- A handler that is not public is reached only by a request with a token that is not empty and
  -- authenticates the principal attached: an empty owner token lets nobody in.
  pub middleware_sound :
      (cfg : Config Ref) (path header : String) (now : ℕ) (p : Option (Principal Ref))
      → public_path path ≡ false
      → middleware cfg path header now ≡ serves p
      → (bearer_token header ≢ "")
        × ((q : Principal Ref) × (p ≡ some q) × Authenticates cfg header now q)
  unfolding middleware
  middleware_sound cfg path header now p closed e = elim (Bool-cases (bearer_token header == "")) [
    | inl empty ↦ absurd (missing-ne-serves (rw (closed, empty) at e))
    | inr given ↦ (
      λ blank. true-ne-false (sym ((eq_iff _ _).1 blank) ∙ given),
      elim (Bool-cases (bearer_token header == cfg.owner_token)) [
        | inl owner ↦
            let q : Principal Ref = record { owner = true; grant = none } in
            (
              q,
              serves-injective (sym (rw (closed, given, owner) at e)),
              as_owner ((eq_iff _ _).0 owner),
            )
        | inr other ↦
            grant-Authenticates cfg header now cfg.store p refl (rw (closed, given, other) at e)
      ],
    )
  ]
    where
      missing-ne-serves : {p : Option (Principal Ref)} → missing_token ≢ serves p
      missing-ne-serves = cc

      serves-injective : {p q : Option (Principal Ref)} → serves p ≡ serves q → p ≡ q
      serves-injective h = cc

      true-ne-false : ◌≢◌ {A = Bool} true false
      true-ne-false = cc
