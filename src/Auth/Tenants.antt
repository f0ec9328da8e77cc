-- ===== src/Auth/Tenants.antt =====
-- `TenantAuthenticator` (src/auth/tenant-auth.ts). A configured value is what JSON gives; the bytes
-- of a text are a parameter.
use antigravity_browser.Base.{
  ℕ, ◌⊎◌, inl, inr, Bool, true, false, not, ◌||◌, Option, none, some, List, [], ◌∷◌, ◌++◌, ltb,
  if◌then◌else◌, length, any, Text, text_eq, Dict, insert, lookup,
}
use antigravity_browser.Tenant.{normalize_tenant_id, is_tenant_id}

pub data TenantRole : Type 0 where
  read submit : TenantRole

-- The field `roles`; an element that is no role is `none`.
pub data RolesConfig : Type 0 where
  no_roles not_a_list : RolesConfig
  listed : List (Option TenantRole) → RolesConfig

-- A value of the configuration; a token that is not text is `none`.
pub data CredentialConfig : Type 0 where
  plain_token : Text → CredentialConfig
  credential_object : Option Text → RolesConfig → CredentialConfig
  not_a_credential : CredentialConfig

pub record Credential : Type 0 where
  pub token : List ℕ
  pub roles : List TenantRole

pub record TenantIdentity : Type 0 where
  pub tenant_id : Text
  pub roles : List TenantRole

pub data AuthError : Type 0 where
  invalid_tenant token_length roles_array_required roles_required : AuthError
  at_least_one_tenant_required unauthenticated permission_denied : AuthError

abbrev pub role_eq : TenantRole → TenantRole → Bool
role_eq read read = true
role_eq submit submit = true
role_eq _ _ = false

abbrev pub includes_role : List TenantRole → TenantRole → Bool
includes_role roles role = any (role_eq role) roles

-- The roles of a list, each once.
unfoldable pub unique_roles : List TenantRole → List (Option TenantRole) → List TenantRole
unique_roles seen [] = seen
unique_roles seen (none ∷ rs) = unique_roles seen rs
unique_roles seen (some r ∷ rs) =
    let skipped = unique_roles seen rs in
    let added = unique_roles (seen ++ (r ∷ [])) rs in
    if includes_role seen r then skipped else added

abbrev token_of : CredentialConfig → Option Text
token_of (plain_token token) = some token
token_of (credential_object token roles) = token
token_of not_a_credential = none

abbrev roles_config : CredentialConfig → RolesConfig
roles_config (credential_object token roles) = roles
roles_config _ = no_roles

abbrev configured_roles : RolesConfig → List TenantRole ⊎ AuthError
configured_roles no_roles = inl (read ∷ submit ∷ [])
configured_roles not_a_list = inr roles_array_required
configured_roles (listed rs) = elim (unique_roles [] rs) [
  | [] ↦ inr roles_required
  | r ∷ roles ↦ inl (r ∷ roles)
]

abbrev pub at_least_one : Dict Credential → Dict Credential ⊎ AuthError
at_least_one [] = inr at_least_one_tenant_required
at_least_one (c ∷ m) = inl (c ∷ m)

module _ (utf8 : Text → List ℕ) where
  -- One value of the configuration.
  unfoldable pub credential_of : CredentialConfig → Credential ⊎ AuthError
  unfolding unique_roles
  credential_of v = elim (token_of v) [
    | none ↦ inr token_length
    | some token ↦
        if ltb (length token) 32 || ltb 4096 (length token)
        then inr token_length
        else elim (configured_roles (roles_config v)) [
          | inr e ↦ inr e
          | inl roles ↦ inl (record { token = utf8 token; roles = roles })
        ]
  ]

  -- The loop of the constructor.
  unfoldable pub add_credentials :
      Dict Credential → List (Text × CredentialConfig) → Dict Credential ⊎ AuthError
  unfolding credential_of
  add_credentials m [] = inl m
  add_credentials m ((tenant, v) ∷ rest) = elim (normalize_tenant_id (some tenant)) [
    | none ↦ inr invalid_tenant
    | some id ↦ elim (credential_of v) [
      | inr e ↦ inr e
      | inl c ↦ add_credentials (insert id c m) rest
    ]
  ]

  -- The constructor.
  unfoldable pub create : List (Text × CredentialConfig) → Dict Credential ⊎ AuthError
  unfolding add_credentials
  create entries = elim (add_credentials [] entries) [ inr e ↦ inr e | inl m ↦ at_least_one m ]

  abbrev check_credential :
      Text → Text → TenantRole → Option Credential → TenantIdentity ⊎ AuthError
  check_credential tenant token role none = inr unauthenticated
  check_credential tenant token role (some c) =
      if not (text_eq (utf8 token) c.token)
      then inr unauthenticated
      else if not (includes_role c.roles role)
      then inr permission_denied
      else elim (normalize_tenant_id (some tenant)) [
        | none ↦ inr invalid_tenant
        | some id ↦ inl (record { tenant_id = id; roles = c.roles })
      ]

  -- A value that is not text is `none`.
  unfoldable pub authenticate :
      Dict Credential → Option Text → Option Text → TenantRole → TenantIdentity ⊎ AuthError
  authenticate m (some tenant) (some token) role =
      if is_tenant_id tenant
      then check_credential tenant token role (lookup tenant m)
      else inr unauthenticated
  authenticate m _ _ role = inr unauthenticated
