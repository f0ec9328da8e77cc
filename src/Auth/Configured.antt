-- ===== src/Auth/Configured.antt =====
-- What the configuration of `TenantAuthenticator` (src/auth/tenant-auth.ts) lets in.
use mathlib.Core.Sum.{inl-injective}
use antigravity_browser.Base.{
  refl, Bool, false, ◌||◌, ◌++◌, Bool-cases, ℕ, ◌≡◌, ap, ◌∙◌, ◌⊎◌, inl, inr, true, ◌&&◌, Option,
  none, some, List, [], ◌∷◌, arith, if◌then◌else◌, Text, text_eq, Option-cases, Dict, lookup,
  sum-cases, insert, lookup-insert, Bool, Bool-cases, ◌++◌, false, ◌||◌,
}
use antigravity_browser.Auth.Tenants.{
  plain_token, credential_object, not_a_credential, no_roles, not_a_list, listed, role_eq,
  unique_roles, add_credentials, CredentialConfig, TenantRole, Credential, TenantIdentity,
  credential_of, includes_role, create, authenticate, AuthError, at_least_one, plain_token,
  unique_roles, role_eq, credential_object, listed,
}
use antigravity_browser.Tenant.{normalize_tenant_id, is_tenant_id}

normalized : (t id : Text) → normalize_tenant_id (some t) ≡ some id → id ≡ t
unfolding normalize_tenant_id
normalized t id h = ground (arith, h)

-- Who is let in.
abbrev pub tenant_of : TenantIdentity ⊎ AuthError → Option Text
tenant_of (inl id) = some id.tenant_id
tenant_of (inr e) = none

-- Is the role in a list of the configuration?
unfoldable pub lists : TenantRole → List (Option TenantRole) → Bool
lists role [] = false
lists role (none ∷ rs) = lists role rs
lists role (some r ∷ rs) = role_eq role r || lists role rs

-- Does a value of the configuration grant a role?
abbrev pub grants : CredentialConfig → TenantRole → Bool
grants (plain_token t) role = true
grants (credential_object t no_roles) role = true
grants (credential_object t not_a_list) role = false
grants (credential_object t (listed rs)) role = lists role rs
grants not_a_credential role = false

-- Has it a token of the same bytes?
abbrev pub has_token : (Text → List ℕ) → CredentialConfig → Text → Bool
has_token utf8 (plain_token t) token = text_eq (utf8 token) (utf8 t)
has_token utf8 (credential_object (some t) roles) token = text_eq (utf8 token) (utf8 t)
has_token utf8 (credential_object none roles) token = false
has_token utf8 not_a_credential token = false

-- The last value of a configuration for a tenant.
unfoldable pub last_entry : Text → List (Text × CredentialConfig) → Option CredentialConfig
last_entry tenant [] = none
last_entry tenant ((t, v) ∷ rest) = elim (last_entry tenant rest) [
  | some w ↦ some w
  | none ↦ if text_eq t tenant then some v else none
]

abbrev pub lets_in : (Text → List ℕ) → Option CredentialConfig → Text → TenantRole → Bool
lets_in utf8 none token role = false
lets_in utf8 (some v) token role = has_token utf8 v token && grants v role

includes_role-append :
    (xs ys : List TenantRole) (role : TenantRole)
    → includes_role (xs ++ ys) role ≡ (includes_role xs role || includes_role ys role)
includes_role-append [] ys role = refl
includes_role-append (x ∷ xs) ys role = ground (arith, includes_role-append xs ys role)

role_eq-lem : (a b : TenantRole) → role_eq a b ≡ true → a ≡ b
role_eq-lem TenantRole.read TenantRole.read h = refl
role_eq-lem TenantRole.submit TenantRole.submit h = refl
role_eq-lem TenantRole.read TenantRole.submit h = absurd (ground (arith, h))
role_eq-lem TenantRole.submit TenantRole.read h = absurd (ground (arith, h))

unique_roles-lists :
    (rs : List (Option TenantRole)) (seen : List TenantRole) (role : TenantRole)
    → includes_role (unique_roles seen rs) role ≡ (includes_role seen role || lists role rs)
unfolding unique_roles lists
unique_roles-lists [] seen role = ground arith
unique_roles-lists (none ∷ rs) seen role = unique_roles-lists rs seen role
unique_roles-lists (some r ∷ rs) seen role = elim (Bool-cases (includes_role seen r)) [
  | inl t ↦ elim (Bool-cases (role_eq role r)) [
    | inl b ↦
        let same = role_eq-lem role r b in
        let here : includes_role seen role ≡ true = rw same t in
        ground (arith, t, b, here, unique_roles-lists rs seen role)
    | inr b ↦ ground (arith, t, b, unique_roles-lists rs seen role)
  ]
  | inr f ↦ ground (
    arith,
    f,
    unique_roles-lists rs (seen ++ (r ∷ [])) role,
    includes_role-append seen (r ∷ []) role,
  )
]

not_empty : (n m : Dict Credential) → at_least_one n ≡ inl m → n ≡ m
not_empty [] m e = absurd (ground (arith, e))
not_empty (c ∷ n) m e = inl-injective {B = AuthError} (c ∷ n) m e

module _ (utf8 : Text → List ℕ) where
  -- The last credential that the configuration has for a tenant.
  unfoldable pub configured : Text → List (Text × CredentialConfig) → Option Credential
  configured tenant [] = none
  configured tenant ((t, v) ∷ rest) = elim (configured tenant rest) [
    | some c ↦ some c
    | none ↦
        if text_eq t tenant
        then elim (credential_of utf8 v) [ inl c ↦ some c | inr e ↦ none ]
        else none
  ]

  added :
      (m n : Dict Credential) (entries : List (Text × CredentialConfig)) (tenant : Text)
      → add_credentials utf8 m entries ≡ inl n
      → lookup tenant n
        ≡ (elim (configured tenant entries) [ none ↦ lookup tenant m | some c ↦ some c ])
  unfolding add_credentials configured
  added m n [] tenant e = ground (arith, e)
  added m n ((t, v) ∷ rest) tenant e = elim (Option-cases (normalize_tenant_id (some t))) [
    | inl k ↦ absurd (ground (arith, k, e))
    | inr (id, k) ↦ elim (sum-cases (credential_of utf8 v)) [
      | inr (f, q) ↦ absurd (ground (arith, k, q, e))
      | inl (c, q) ↦ ground (
        arith,
        q,
        added (insert id c m) n rest tenant (ground (arith, k, q, e)),
        lookup-insert id tenant c m,
        normalized t id k,
      )
    ]
  ]

  created :
      (entries : List (Text × CredentialConfig)) (m : Dict Credential)
      → create utf8 entries ≡ inl m
      → add_credentials utf8 [] entries ≡ inl m
  unfolding create
  created entries m e = elim (sum-cases (add_credentials utf8 [] entries)) [
    | inr (f, k) ↦ absurd (ground (arith, k, e))
    | inl (n, k) ↦ k ∙ ap inl (not_empty n m (ground (arith, k, e)))
  ]

  -- The entries have credentials, since the constructor accepted them.
  last-configured :
      (m n : Dict Credential) (entries : List (Text × CredentialConfig)) (tenant : Text)
      → add_credentials utf8 m entries ≡ inl n
      → ((configured tenant entries ≡ none) × (last_entry tenant entries ≡ none))
        ⊎ ((v : CredentialConfig) × (c : Credential) × (last_entry tenant entries ≡ some v)
            × (configured tenant entries ≡ some c)
            × (credential_of utf8 v ≡ inl c))
  unfolding add_credentials configured last_entry
  last-configured m n [] tenant e = inl (refl, refl)
  last-configured m n ((t, v) ∷ rest) tenant e =
      elim (Option-cases (normalize_tenant_id (some t))) [
        | inl k ↦ absurd (ground (arith, k, e))
        | inr (id, k) ↦ elim (sum-cases (credential_of utf8 v)) [
          | inr (f, q) ↦ absurd (ground (arith, k, q, e))
          | inl (c, q) ↦
              elim (last-configured (insert id c m) n rest tenant (ground (arith, k, q, e))) [
                | inr (w, d, x, y, z) ↦ inr (w, d, ground (arith, x), ground (arith, y), z)
                | inl (x, y) ↦ elim (Bool-cases (text_eq t tenant)) [
                  | inl b ↦ inr (v, c, ground (arith, y, b), ground (arith, x, b, q), q)
                  | inr b ↦ inl (ground (arith, x, b), ground (arith, y, b))
                ]
              ]
        ]
      ]

  credential_of-roles :
      (v : CredentialConfig) (c : Credential) (token : Text) (role : TenantRole)
      → credential_of utf8 v ≡ inl c
      → (text_eq (utf8 token) c.token ≡ has_token utf8 v token)
        × (includes_role c.roles role ≡ grants v role)
  unfolding credential_of
  credential_of-roles (plain_token t) c token role e = ground (arith, e)
  credential_of-roles (credential_object none roles) c token role e = ground (arith, e)
  credential_of-roles (credential_object (some t) no_roles) c token role e = ground (arith, e)
  credential_of-roles (credential_object (some t) not_a_list) c token role e = ground (arith, e)
  credential_of-roles (credential_object (some t) (listed rs)) c token role e =
      ground (arith, e, unique_roles-lists rs [] role)
  credential_of-roles not_a_credential c token role e = ground (arith, e)

  -- For a valid tenant id, an authenticator whose constructor accepted the configuration lets a token
  -- in for a role exactly when the last entry of the tenant has a token with the same bytes and
  -- grants the role, which a plain token and an object without roles do for either role and a list of
  -- roles does for those in it; and whoever is let in is that tenant.
  pub authenticate-lets_in :
      (entries : List (Text × CredentialConfig)) (m : Dict Credential) (tenant token : Text)
      (role : TenantRole)
      → create utf8 entries ≡ inl m
      → is_tenant_id tenant ≡ true
      → tenant_of (authenticate utf8 m (some tenant) (some token) role)
        ≡ (if lets_in utf8 (last_entry tenant entries) token role then some tenant else none)
  unfolding authenticate lookup normalize_tenant_id
  authenticate-lets_in entries m tenant token role e t =
      elim (last-configured [] m entries tenant (created entries m e)) [
        | inl (x, y) ↦ ground (arith, x, y, t, added [] m entries tenant (created entries m e))
        | inr (v, c, x, y, z) ↦ ground (
          arith,
          x,
          y,
          z,
          t,
          added [] m entries tenant (created entries m e),
          credential_of-roles v c token role z,
        )
      ]
