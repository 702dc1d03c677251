-- ===== src/License/Rights/Overrides.antt =====
-- pkg/license/rights.go: `Resolve` takes one whole declaration, of the level nearest to the source.
use openvaultdb_go.Base.{
  none≢some, some-injective, String, List, [], ◌∷◌, Bool, not, ◌==◌, if◌then◌else◌, Option, none,
  some, ok, ◌≡◌, refl, sym, ap, ◌∙◌, subst, ◌≢◌, ◌⊎◌, inl, inr, eq_iff, not_same, Memᴰ,
  require->>-eq-ok, >>-ok_iff, >>=-eq-ok, ok-injective, Option-cases, Bool-cases,
}
use openvaultdb_go.License.Declaration.{
  Declaration, no_server_identity, directory, validate, normalized,
}
use openvaultdb_go.License.Rights.{
  Scope, server_scope, database_scope, recordset_scope, Identity, SourceRight, Choice,
  validate_each, override, chosen, right_of, resolve,
}

-- The level does not speak: no declaration, or the source is not at that level.
abbrev IsSilent : Option Declaration → String → Type 0
IsSilent o name = (o ≡ none) ⊎ (name ≡ "")

-- The declaration that governs a source, its scope, and where it stands.
pub data Governs (source : Identity) (server database recordset : Option Declaration)
    : Declaration → Scope → Identity → Type 0 where
  by_recordset :
      {d : Declaration}
      → recordset ≡ some d
      → source.recordset ≢ ""
      → Governs source server database recordset d recordset_scope source
  by_database :
      {d : Declaration}
      → database ≡ some d
      → source.database_id ≢ ""
      → IsSilent recordset source.recordset
      → Governs source server database recordset d database_scope (record {
        server_id = source.server_id;
        database_id = source.database_id;
        recordset = "";
      })
  by_server :
      {d : Declaration}
      → server ≡ some d
      → IsSilent database source.database_id
      → IsSilent recordset source.recordset
      → Governs source server database recordset d server_scope
          (record { server_id = source.server_id; database_id = ""; recordset = "" })

override-cases :
    (name : String) (o : Option Declaration) (scope : Scope) (at : Identity) (below : Choice)
    → ((d : Declaration) × (o ≡ some d)
        × (name ≢ "")
        × (override (not (name == "")) o scope at below ≡ (some d, scope, at)))
      ⊎ (IsSilent o name × (override (not (name == "")) o scope at below ≡ below))
unfolding override
override-cases name none scope at below = inr (inl refl, refl)
override-cases name (some d) scope at below = elim (Bool-cases (name == "")) [
  | inl blank ↦
      inr (inr ((eq_iff _ _).0 blank), ap (λ b. if not b then (some d, scope, at) else below) blank)
  | inr given ↦
      inl (d, refl, not_same given, ap (λ b. if not b then (some d, scope, at) else below) given)
]

-- Every declaration that was supplied is valid.
validate_each-some :
    (https_url : String → Bool) (ds : List (Option Declaration)) (d : Declaration)
    → validate_each https_url ds ≡ ok tt
    → Memᴰ (some d) ds
    → validate https_url directory d ≡ ok tt
unfolding validate_each
validate_each-some https_url [] d h m = elim m [ ]
validate_each-some https_url (none ∷ ds) d h (Memᴰ.head e) = absurd (none≢some (sym e))
validate_each-some https_url (none ∷ ds) d h (Memᴰ.tail m) = validate_each-some https_url ds d h m
validate_each-some https_url (some c ∷ ds) d h (Memᴰ.head e) =
    ap (validate https_url directory) (some-injective e) ∙ ((>>-ok_iff _ _).0 h).0
validate_each-some https_url (some c ∷ ds) d h (Memᴰ.tail m) =
    validate_each-some https_url ds d ((>>-ok_iff _ _).0 h).1 m

chosen-cases :
    (source : Identity) (server database recordset : Option Declaration)
    → (((d : Declaration) × ((scope : Scope) × ((at : Identity) × (chosen source server database
                recordset
              ≡ (some d, scope, at))
            × Governs source server database recordset d scope at
            × Memᴰ (some d) (server ∷ database ∷ recordset ∷ [])))))
      ⊎ ((scope : Scope) × ((at : Identity) × (chosen source server database recordset
              ≡ (none, scope, at))))
unfolding chosen
chosen-cases source server database recordset =
    elim (override-cases source.recordset recordset recordset_scope source lower) [
      | inl (d, e, given, eq) ↦
          inl (d, (_, (_, eq, by_recordset e given, Memᴰ.tail (Memᴰ.tail (Memᴰ.head (sym e))))))
      | inr (silent, eq) ↦
          elim (override-cases source.database_id database database_scope in_database
            (server, server_scope, in_server)) [
              | inl (d, e, given, eq') ↦
                  inl (
                    d,
                    (_, (_, eq ∙ eq', by_database e given silent, Memᴰ.tail (Memᴰ.head (sym e)))),
                  )
              | inr (silent', eq') ↦ elim (Option-cases server) [
                | inl e ↦ inr (_, (_, eq ∙ eq' ∙ ap (λ o. (o, server_scope, in_server)) e))
                | inr (d, e) ↦ inl (
                  d,
                  (
                    _,
                    (
                      _,
                      eq ∙ eq' ∙ ap (λ o. (o, server_scope, in_server)) e,
                      by_server e silent' silent,
                      Memᴰ.head (sym e),
                    ),
                  ),
                )
              ]
            ]
    ]
  where
    in_server : Identity
    in_server = record { server_id = source.server_id; database_id = ""; recordset = "" }

    in_database : Identity
    in_database = record {
      server_id = source.server_id;
      database_id = source.database_id;
      recordset = "";
    }

    lower : Choice
    lower =
        override (not (source.database_id == "")) database database_scope in_database
          (server, server_scope, in_server)

-- The right that `Resolve` finds has one whole declaration, valid and normalised: that of the
-- recordset if there is one and the source names a recordset, else that of the database if there
-- is one and the source names a database, else that of the server; its scope and place are those
-- of the level.
pub resolve_ok :
    {Html : Type 0} (path_escape : String → String) (https_url : String → Bool) (source : Identity)
    (server database recordset : Option Declaration) (r : SourceRight Html)
    → resolve path_escape https_url source server database recordset ≡ ok (some r)
    → (d : Declaration) × (validate https_url directory d ≡ ok tt)
      × (r.declaration ≡ normalized d)
      × (r.source ≡ source)
      × Governs source server database recordset d r.declaration_scope r.declared_at
unfolding resolve right_of
resolve_ok path_escape https_url source server database recordset r h =
    let (_, rest) = require->>-eq-ok _ no_server_identity _ h in
    let (_, valid, done) =
      >>=-eq-ok (validate_each https_url (server ∷ database ∷ recordset ∷ [])) _ rest in
    elim (chosen-cases source server database recordset) [
      | inl (d, (scope, (at, eq, governs, m))) ↦
          let same =
            some-injective
              (ok-injective (sym (ap (λ c. ok (right_of path_escape source c)) eq) ∙ done)) in
          (
            d,
            validate_each-some https_url _ d valid m,
            ap (λ r. r.declaration) (sym same),
            ap (λ r. r.source) (sym same),
            subst
                (λ r. Governs source server database recordset d r.declaration_scope r.declared_at)
                same governs,
          )
      | inr (scope, (at, eq)) ↦
          absurd (
            none≢some (ok-injective (sym (ap (λ c. ok (right_of path_escape source c)) eq) ∙ done)))
    ]
