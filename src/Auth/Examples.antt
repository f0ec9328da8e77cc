-- ===== src/Auth/Examples.antt =====
-- A configuration of two tenants, and the theorem at it.
use antigravity_browser.Base.{
  ℕ, zero, suc, ◌+◌, ◌-◌, ◌*◌, ◌/◌, ◌%◌, ◌≤◌, ◌<◌, min, max, ◌≡◌, refl, sym, ap, ◌∙◌, subst, ◌≢◌,
  ◌↔◌, ◌⊎◌, inl, inr, Bool, true, false, not, ◌&&◌, ◌||◌, Option, none, some, List, [], ◌∷◌, ◌++◌,
  map, arith, ltb, leb, ◌==◌, if◌then◌else◌, length, any, take, drop, Text, text_eq, is_some,
  or_else, Bool-cases, Option-cases, codes, Dict,
}
use antigravity_browser.Tenant.{is_tenant_id, all_label}
use antigravity_browser.Auth.Tenants.{
  CredentialConfig, create, plain_token, Credential, credential_object, read, listed, authenticate,
  submit,
}
use antigravity_browser.Auth.Configured.{tenant_of, last_entry, lets_in, authenticate-lets_in}
use antigravity_browser.Auth.Base32.{base32_to_buffer, base32_of}
use antigravity_browser.Auth.Secrets.{base32_to_buffer-base32_of}

abbrev acme : Text
acme = codes "acme"

abbrev token : Text
token = codes "0123456789abcdef0123456789abcdef"

abbrev entries : List (Text × CredentialConfig)
entries =
    (acme, plain_token token)
    ∷ (
      codes "other",
      credential_object (some (codes "fedcba9876543210fedcba9876543210")) (listed (some read ∷ [])),
    )
    ∷ []

-- The token is ASCII, so its bytes are its code units.
abbrev ascii : Text → List ℕ
ascii s = s

abbrev table : Dict Credential
table =
    (acme, record { token = token; roles = read ∷ submit ∷ [] })
    ∷ (
      codes "other",
      record { token = codes "fedcba9876543210fedcba9876543210"; roles = read ∷ [] },
    )
    ∷ []

constructed : create ascii entries ≡ inl table
unfolding create antigravity_browser.Tenant.normalize_tenant_id is_tenant_id all_label
    antigravity_browser.Base.insert text_eq
constructed = refl

authenticate-lets_in_example :
    tenant_of (authenticate ascii table (some acme) (some token) submit)
    ≡ (if lets_in ascii (last_entry acme entries) token submit then some acme else none)
unfolding is_tenant_id all_label
authenticate-lets_in_example =
    authenticate-lets_in ascii entries table acme token submit constructed refl

abbrev secret : List ℕ
secret = 72 ∷ 101 ∷ 108 ∷ 108 ∷ 111 ∷ 33 ∷ 222 ∷ []

base32_to_buffer-base32_of_example : base32_to_buffer (base32_of secret) ≡ secret
base32_to_buffer-base32_of_example = base32_to_buffer-base32_of secret refl
