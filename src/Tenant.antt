-- ===== src/Tenant.antt =====
-- Tenant identifiers and the keys of the queue's maps (src/distributed/tenant.ts,
-- src/distributed/queue-adapter.ts).
use antigravity_browser.Base.{
  ℕ, ◌≡◌, refl, Bool, true, false, ◌&&◌, ◌||◌, Option, none, some, [], ◌∷◌, ◌++◌, arith, leb, ◌==◌,
  if◌then◌else◌, length, Text, or_else, text_eq, starts_with,
}

abbrev is_digit : ℕ → Bool
is_digit c = leb 48 c && leb c 57

abbrev is_letter : ℕ → Bool
is_letter c = (leb 65 c && leb c 90) || (leb 97 c && leb c 122)

abbrev pub is_alphanumeric : ℕ → Bool
is_alphanumeric c = is_digit c || is_letter c

-- [A-Za-z0-9._-]
abbrev pub is_label_char : ℕ → Bool
is_label_char c = is_alphanumeric c || c == 46 || c == 95 || c == 45

unfoldable pub all_label : Text → Bool
all_label [] = true
all_label (c ∷ cs) = is_label_char c && all_label cs

-- /^[A-Za-z0-9][A-Za-z0-9._-]{0,63}$/
unfoldable pub is_tenant_id : Text → Bool
is_tenant_id [] = false
is_tenant_id (c ∷ cs) = is_alphanumeric c && leb (length cs) 63 && all_label cs

-- "default"
abbrev pub default_tenant_id : Text
default_tenant_id = 100 ∷ 101 ∷ 102 ∷ 97 ∷ 117 ∷ 108 ∷ 116 ∷ []

-- `none` where the code throws.
unfoldable pub normalize_tenant_id : Option Text → Option Text
normalize_tenant_id v =
    let id = or_else v default_tenant_id in if is_tenant_id id then some id else none

-- `${tenantId}\0${value}`
unfoldable pub task_key : Text → Text → Text
task_key tenant value = tenant ++ (0 ∷ value)

is_tenant_id-label : (t : Text) → is_tenant_id t ≡ true → all_label t ≡ true
unfolding is_tenant_id all_label
is_tenant_id-label [] h = cc
is_tenant_id-label (c ∷ cs) h = ground arith

same_prefix :
    (t u v w : Text)
    → all_label t ≡ true
    → all_label u ≡ true
    → t ++ (0 ∷ v) ≡ u ++ (0 ∷ w)
    → (t ≡ u) × (v ≡ w)
unfolding all_label
same_prefix [] [] v w h k e = ground arith
same_prefix [] (c ∷ u) v w h k e = ground arith
same_prefix (c ∷ t) [] v w h k e = ground arith
same_prefix (c ∷ t) (d ∷ u) v w h k e = ground (arith, same_prefix t u v w)

-- Keys of two tenants never meet, nor do two values of one tenant.
pub task_key_injective :
    (t u v w : Text)
    → is_tenant_id t ≡ true
    → is_tenant_id u ≡ true
    → task_key t v ≡ task_key u w
    → (t ≡ u) × (v ≡ w)
unfolding task_key
task_key_injective t u v w h k e =
    same_prefix t u v w (is_tenant_id-label t h) (is_tenant_id-label u k) e

prefixed :
    (t u v : Text)
    → all_label t ≡ true
    → all_label u ≡ true
    → starts_with (t ++ (0 ∷ [])) (u ++ (0 ∷ v)) ≡ true
    → t ≡ u
unfolding all_label starts_with
prefixed [] [] v h k e = refl
prefixed [] (c ∷ u) v h k e = ground arith
prefixed (c ∷ t) [] v h k e = ground arith
prefixed (c ∷ t) (d ∷ u) v h k e = ground (arith, prefixed t u v)

-- A key that begins with a tenant's prefix is a key of that tenant.
pub starts_with-task_key :
    (t u v : Text)
    → is_tenant_id t ≡ true
    → is_tenant_id u ≡ true
    → starts_with (task_key t []) (task_key u v) ≡ true
    → t ≡ u
unfolding task_key
starts_with-task_key t u v h k e =
    prefixed t u v (is_tenant_id-label t h) (is_tenant_id-label u k) e

-- Keys of one tenant are equal when their values are.
pub text_eq-task_key : (t v w : Text) → text_eq (task_key t v) (task_key t w) ≡ text_eq v w
unfolding task_key text_eq
text_eq-task_key [] v w = refl
text_eq-task_key (c ∷ t) v w = ground (arith, text_eq-task_key t v w)
