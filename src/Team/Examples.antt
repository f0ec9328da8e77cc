-- ===== src/Team/Examples.antt =====
-- Stores of one and of two members, and the theorems at them.
use antigravity_browser.Team.Store.{gives, updated, update_member, is_member}
use antigravity_browser.Team.Suspended.{suspended_stays_out}
use antigravity_browser.Team.Withdrawn.{writes_member}
use antigravity_browser.Base.{
  ◌≡◌, refl, ◌≢◌, true, false, none, some, List, [], ◌∷◌, arith, any, Text, text_eq, trim_start,
  trim_end,
}
use antigravity_browser.Team.Store.{
  TeamState, TeamMember, StoredApiKey, TeamRole, MemberState, issue_api_key, revoke_api_key, is_key,
  opens, find_first, change_first,
}
use antigravity_browser.Team.Withdrawn.{Call, step, run, draws_key, at_most_one, revoked_for_good}

-- Texts are their own digests.
abbrev sha256 : Text → Text
sha256 s = s

abbrev member : Text
member = 109 ∷ []

abbrev first_key : Text
first_key = 49 ∷ []

abbrev second_key : Text
second_key = 50 ∷ []

abbrev someone : TeamMember
someone = record {
  member_id = member;
  workspace_id = 119 ∷ [];
  name = 110 ∷ [];
  role = TeamRole.viewer;
  state = MemberState.active;
  grants = record { profiles = none; proxies = none; workflows = none; extensions = none };
  created_at = 1;
  updated_at = 1;
}

abbrev key_of_first : StoredApiKey
key_of_first = record {
  key_id = first_key;
  member_id = member;
  token_hash = 120 ∷ [];
  label = 108 ∷ [];
  created_at = 2;
  last_used_at = none;
  revoked_at = none;
}

abbrev store : TeamState
store = record { workspaces = []; members = someone ∷ []; api_keys = key_of_first ∷ [] }

abbrev revoked_store : TeamState
revoked_store = (revoke_api_key first_key 5 store).1

unique : at_most_one (is_key first_key) store.api_keys ≡ true
unfolding at_most_one text_eq
unique = refl

revoked : revoke_api_key first_key 5 store ≡ (true, revoked_store)
unfolding revoke_api_key find_first change_first text_eq
revoked = refl

-- A second key is issued to the member under the same token.
abbrev later : List Call
later = Call.issues member (108 ∷ []) second_key (120 ∷ []) 6 ∷ []

no_draw : any (draws_key first_key) later ≡ false
unfolding text_eq
no_draw = refl

abbrev key_of_second : StoredApiKey
key_of_second = record key_of_first { key_id = second_key; created_at = 6 }

opened : opens (sha256 (120 ∷ [])) (run sha256 revoked_store later) ≡ some (key_of_second, someone)
unfolding run step issue_api_key opens revoke_api_key find_first change_first text_eq trim_start
    trim_end
opened = refl

revoked_for_good_example : key_of_second.key_id ≢ first_key
revoked_for_good_example =
    revoked_for_good sha256 first_key 5 store revoked_store later (120 ∷ []) key_of_second someone
      (ground arith) unique revoked no_draw opened

-- Another member, whose key still opens the store once the first is suspended.
abbrev someone_else : TeamMember
someone_else = record someone { member_id = 110 ∷ [] }

abbrev key_of_other : StoredApiKey
key_of_other = record key_of_first {
  key_id = second_key;
  member_id = 110 ∷ [];
  token_hash = 121 ∷ [];
}

abbrev pair_store : TeamState
pair_store = record {
  workspaces = [];
  members = someone ∷ someone_else ∷ [];
  api_keys = key_of_first ∷ key_of_other ∷ [];
}

abbrev suspended_store : TeamState
suspended_store = (update_member member none (some MemberState.suspended) none 5 pair_store).1

abbrev suspended_member : TeamMember
suspended_member = updated none (some MemberState.suspended) none 5 someone

unique_member : at_most_one (is_member member) pair_store.members ≡ true
unfolding at_most_one text_eq
unique_member = refl

suspended :
    update_member member none (some MemberState.suspended) none 5 pair_store
    ≡ (gives suspended_member, suspended_store)
unfolding update_member find_first change_first text_eq
suspended = refl

no_write : any (writes_member member) later ≡ false
no_write = refl

opened_by_other :
    opens (sha256 (121 ∷ [])) (run sha256 suspended_store later) ≡ some (key_of_other, someone_else)
unfolding run step issue_api_key opens update_member find_first change_first text_eq trim_start
    trim_end
opened_by_other = refl

suspended_stays_out_example : someone_else.member_id ≢ member
suspended_stays_out_example =
    suspended_stays_out sha256 member none none 5 pair_store suspended_store suspended_member later
      (121 ∷ []) key_of_other someone_else unique_member suspended no_write opened_by_other
