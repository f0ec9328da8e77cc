-- ===== src/Team/Store.antt =====
-- `TeamAccessStore` (src/team/access-store.ts). The time, the ids and the tokens that an operation
-- draws are its arguments, SHA-256 is a parameter; the file that the state is written to is left
-- out.
use antigravity_browser.Base.{
  ℕ, Bool, true, false, not, ◌&&◌, ◌||◌, Option, none, some, List, [], ◌∷◌, ◌++◌, leb, ◌==◌,
  if◌then◌else◌, length, any, Text, text_eq, or_else, is_blank, trim,
}
use antigravity_browser.Queue.Adapter.{includes}

pub data TeamRole : Type 0 where
  viewer operator manager owner : TeamRole

pub data ResourceKind : Type 0 where
  profile proxy workflow extension : ResourceKind

pub data MemberState : Type 0 where
  active suspended : MemberState

pub record Grants : Type 0 where
  pub profiles : Option (List Text)
  pub proxies : Option (List Text)
  pub workflows : Option (List Text)
  pub extensions : Option (List Text)

pub record TeamWorkspace : Type 0 where
  pub workspace_id : Text
  pub name : Text
  pub created_at : ℕ
  pub updated_at : ℕ

pub record TeamMember : Type 0 where
  pub member_id : Text
  pub workspace_id : Text
  pub name : Text
  pub role : TeamRole
  pub state : MemberState
  pub grants : Grants
  pub created_at : ℕ
  pub updated_at : ℕ

pub record StoredApiKey : Type 0 where
  pub key_id : Text
  pub member_id : Text
  pub token_hash : Text
  pub label : Text
  pub created_at : ℕ
  pub last_used_at : Option ℕ
  pub revoked_at : Option ℕ

pub record TeamState : Type 0 where
  pub workspaces : List TeamWorkspace
  pub members : List TeamMember
  pub api_keys : List StoredApiKey

pub record TeamIdentity : Type 0 where
  pub member_id : Text
  pub workspace_id : Text
  pub role : TeamRole
  pub label : Text
  pub grants : Grants

pub data TeamError : Type 0 where
  workspace_name_required workspace_not_found member_name_required member_not_found : TeamError

-- A truthy time.
abbrev pub is_set : Option ℕ → Bool
is_set none = false
is_set (some t) = not (t == 0)

abbrev pub is_active : MemberState → Bool
is_active MemberState.active = true
is_active MemberState.suspended = false

unfoldable pub find_first {ℓ} : {A : Type ℓ} → (A → Bool) → List A → Option A
find_first p [] = none
find_first p (x ∷ xs) = if p x then some x else find_first p xs

-- The first that passes the test, changed.
unfoldable pub change_first {ℓ} : {A : Type ℓ} → (A → Bool) → (A → A) → List A → List A
change_first p f [] = []
change_first p f (x ∷ xs) = if p x then f x ∷ xs else x ∷ change_first p f xs

abbrev pub usable : Text → StoredApiKey → Bool
usable hash k = not (is_set k.revoked_at) && text_eq k.token_hash hash

abbrev pub is_member : Text → TeamMember → Bool
is_member id m = text_eq m.member_id id

abbrev pub is_key : Text → StoredApiKey → Bool
is_key id k = text_eq k.key_id id

abbrev pub active_member : Text → TeamMember → Bool
active_member id m = is_member id m && is_active m.state

abbrev identity_of : TeamMember → TeamIdentity
identity_of m = record {
  member_id = m.member_id;
  workspace_id = m.workspace_id;
  role = m.role;
  label = m.name;
  grants = m.grants;
}

-- The key that a token's digest opens, and the member that it belongs to.
unfoldable pub opens : Text → TeamState → Option (StoredApiKey × TeamMember)
opens hash s = elim (find_first (usable hash) s.api_keys) [
  | none ↦ none
  | some k ↦ elim (find_first (active_member k.member_id) s.members) [
    | none ↦ none
    | some m ↦ some (k, m)
  ]
]

unfoldable pub authenticate : (Text → Text) → Text → ℕ → TeamState → Option TeamIdentity × TeamState
authenticate sha256 token now s = elim (opens (sha256 token) s) [
  | none ↦ (none, s)
  | some a ↦ (
    some (identity_of a.1),
    record s {
      api_keys =
          change_first (usable (sha256 token)) (λ k. record k { last_used_at = some now })
            s.api_keys;
    },
  )
]

abbrev pub grants_of : ResourceKind → Grants → Option (List Text)
grants_of ResourceKind.profile g = g.profiles
grants_of ResourceKind.proxy g = g.proxies
grants_of ResourceKind.workflow g = g.workflows
grants_of ResourceKind.extension g = g.extensions

abbrev pub is_owner : TeamRole → Bool
is_owner TeamRole.owner = true
is_owner _ = false

abbrev pub granted : Text → Option (List Text) → Bool
granted id none = true
granted id (some ids) = includes (42 ∷ []) ids || includes id ids

unfoldable pub can_access : TeamIdentity → ResourceKind → Text → Bool
can_access i kind id = is_owner i.role || granted id (grants_of kind i.grants)

-- The ids of at most 128 units, without repeats, in the order of their first places; `seen` are
-- those that stand before.
unfoldable pub distinct_ids : List Text → List Text → List Text
distinct_ids seen [] = []
distinct_ids seen (x ∷ xs) =
    let keeps = leb (length x) 128 && not (includes x seen) in
    let rest = distinct_ids (if keeps then x ∷ seen else seen) xs in
    if keeps then x ∷ rest else rest

abbrev pub normalize_ids : Option (List Text) → Option (List Text)
normalize_ids none = none
normalize_ids (some ids) = some (distinct_ids [] ids)

unfoldable pub normalize_grants : Option Grants → Grants
normalize_grants none = record {
  profiles = none;
  proxies = none;
  workflows = none;
  extensions = none;
}
normalize_grants (some g) = record {
  profiles = normalize_ids g.profiles;
  proxies = normalize_ids g.proxies;
  workflows = normalize_ids g.workflows;
  extensions = normalize_ids g.extensions;
}

pub data Answer {ℓ} (A : Type ℓ) : Type ℓ where
  gives : A → Answer A
  throws : TeamError → Answer A

abbrev pub new_workspace : Text → Text → ℕ → TeamWorkspace
new_workspace name drawn now = record {
  workspace_id = drawn;
  name = trim name;
  created_at = now;
  updated_at = now;
}

unfoldable pub create_workspace : Text → Text → ℕ → TeamState → Answer TeamWorkspace × TeamState
create_workspace name drawn now s =
    if is_blank (trim name) then (throws workspace_name_required, s) else (
      gives (new_workspace name drawn now),
      record s { workspaces = s.workspaces ++ (new_workspace name drawn now ∷ []) },
    )

abbrev pub new_member : Text → Text → TeamRole → Option Grants → Text → ℕ → TeamMember
new_member workspace name role grants drawn now = record {
  member_id = drawn;
  workspace_id = workspace;
  name = trim name;
  role = role;
  state = MemberState.active;
  grants = normalize_grants grants;
  created_at = now;
  updated_at = now;
}

unfoldable pub create_member :
    Text → Text → TeamRole → Option Grants → Text → ℕ → TeamState → Answer TeamMember × TeamState
create_member workspace name role grants drawn now s =
    if not (any (λ w. text_eq w.workspace_id workspace) s.workspaces)
    then (throws workspace_not_found, s)
    else if is_blank (trim name)
    then (throws member_name_required, s)
    else (
      gives (new_member workspace name role grants drawn now),
      record s { members = s.members ++ (new_member workspace name role grants drawn now ∷ []) },
    )

abbrev pub given_grants : Option Grants → Grants → Grants
given_grants none g = g
given_grants (some h) g = normalize_grants (some h)

abbrev pub updated :
    Option TeamRole → Option MemberState → Option Grants → ℕ → TeamMember → TeamMember
updated role state grants now m = record m {
  role = or_else role m.role;
  state = or_else state m.state;
  grants = given_grants grants m.grants;
  updated_at = now;
}

unfoldable pub update_member :
    Text
    → Option TeamRole
    → Option MemberState
    → Option Grants
    → ℕ
    → TeamState
    → Answer TeamMember × TeamState
update_member id role state grants now s = elim (find_first (is_member id) s.members) [
  | none ↦ (throws member_not_found, s)
  | some m ↦ (
    gives (updated role state grants now m),
    record s { members = change_first (is_member id) (updated role state grants now) s.members },
  )
]

-- The label of a key; "API key" where there is none.
abbrev key_label : Text → Text
key_label s = if is_blank (trim s) then 65 ∷ 80 ∷ 73 ∷ 32 ∷ 107 ∷ 101 ∷ 121 ∷ [] else trim s

abbrev pub new_key : (Text → Text) → Text → Text → Text → Text → ℕ → StoredApiKey
new_key sha256 member label drawn token now = record {
  key_id = drawn;
  member_id = member;
  token_hash = sha256 token;
  label = key_label label;
  created_at = now;
  last_used_at = none;
  revoked_at = none;
}

unfoldable pub issue_api_key :
    (Text → Text) → Text → Text → Text → Text → ℕ → TeamState → Answer (Text × Text × ℕ) × TeamState
issue_api_key sha256 member label drawn token now s =
    if not (any (is_member member) s.members) then (throws member_not_found, s) else (
      gives (drawn, token, now),
      record s { api_keys = s.api_keys ++ (new_key sha256 member label drawn token now ∷ []) },
    )

-- A key that is there and has not been revoked.
abbrev pub revocable : Option StoredApiKey → Bool
revocable none = false
revocable (some k) = not (is_set k.revoked_at)

unfoldable pub revoke_api_key : Text → ℕ → TeamState → Bool × TeamState
revoke_api_key id now s =
    if not (revocable (find_first (is_key id) s.api_keys)) then (false, s) else (
      true,
      record s {
        api_keys = change_first (is_key id) (λ k. record k { revoked_at = some now }) s.api_keys;
      },
    )
