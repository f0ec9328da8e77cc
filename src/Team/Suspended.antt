-- ===== src/Team/Suspended.antt =====
-- A member that is suspended stays out, over any history of calls.
use antigravity_browser.Base.{
  ℕ, ◌≡◌, ◌≢◌, inl, inr, true, false, Option, some, List, [], ◌∷◌, arith, any, Text, text_eq,
  Option-cases, text_eq_iff,
}
use antigravity_browser.Team.Store.{
  TeamState, TeamMember, StoredApiKey, TeamRole, MemberState, Grants, find_first, usable, is_member,
  active_member, opens, authenticate, create_workspace, create_member, new_member, update_member,
  issue_api_key, revoke_api_key, gives, updated,
}
use antigravity_browser.Team.Withdrawn.{
  Call, step, run, writes_member, at_most_one, any-append, any-change_first, find_first-any,
  change_first-none, authenticates, creates_workspace, creates_member, updates_member, issues,
  revokes,
}

module _ (sha256 : Text → Text) (id : Text) where
  other_member :
      (i : Text) (role : Option TeamRole) (state : Option MemberState) (grants : Option Grants)
      (now : ℕ)
      → text_eq i id ≡ false
      → (m : TeamMember) → is_member i m ≡ true
      → active_member id m ≡ false
      → active_member id (updated role state grants now m) ≡ false
  other_member i role state grants now d m p q = ground (arith, text_eq_iff m.member_id i)

  step-active_member :
      (s : TeamState) (c : Call)
      → writes_member id c ≡ false
      → any (active_member id) s.members ≡ false
      → any (active_member id) (step sha256 s c).members ≡ false
  unfolding step authenticate create_workspace create_member update_member issue_api_key
      revoke_api_key
  step-active_member s (authenticates token now) d n = ground arith
  step-active_member s (creates_workspace name drawn now) d n = ground arith
  step-active_member s (creates_member w name role grants drawn now) d n =
      ground
        (arith, any-append (active_member id) s.members (new_member w name role grants drawn now))
  step-active_member s (updates_member i role state grants now) d n = ground (
    arith,
    any-change_first (is_member i) (active_member id) (updated role state grants now) s.members
        (other_member i role state grants now d) n,
  )
  step-active_member s (issues member label drawn token now) d n = ground arith
  step-active_member s (revokes i now) d n = ground arith

  run-active_member :
      (s : TeamState) (cs : List Call)
      → any (writes_member id) cs ≡ false
      → any (active_member id) s.members ≡ false
      → any (active_member id) (run sha256 s cs).members ≡ false
  unfolding run
  run-active_member s [] d n = n
  run-active_member s (c ∷ cs) d n =
      run-active_member (step sha256 s c) cs (ground arith)
        (step-active_member s c (ground arith) n)

  opens-active :
      (hash : Text) (s : TeamState) (k : StoredApiKey) (m : TeamMember)
      → any (active_member id) s.members ≡ false
      → opens hash s ≡ some (k, m)
      → m.member_id ≢ id
  unfolding opens
  opens-active hash s k m n e same = elim (Option-cases (find_first (usable hash) s.api_keys)) [
    | inl o ↦ ground (arith, o)
    | inr (j, o) ↦ elim (Option-cases (find_first (active_member j.member_id) s.members)) [
      | inl a ↦ ground (arith, o, a)
      | inr (i, a) ↦ ground (
        arith,
        o,
        a,
        same,
        text_eq_iff i.member_id id,
        find_first-any (active_member j.member_id) (active_member id) s.members i a n,
      )
    ]
  ]

  suspends :
      (role : Option TeamRole) (grants : Option Grants) (now : ℕ) (s s' : TeamState)
      (u : TeamMember)
      → at_most_one (is_member id) s.members ≡ true
      → update_member id role (some MemberState.suspended) grants now s ≡ (gives u, s')
      → any (active_member id) s'.members ≡ false
  unfolding update_member
  suspends role grants now s s' u o e = ground (
    arith,
    change_first-none (is_member id) (active_member id)
        (updated role (some MemberState.suspended) grants now) s.members (λ m. ground arith)
        (λ m q. ground arith) o,
  )

  -- No token authenticates a member that has been suspended, over any history of calls that neither
  -- updates the member nor draws its id for a new one. The member's id is unique.
  pub suspended_stays_out :
      (role : Option TeamRole) (grants : Option Grants) (now : ℕ) (s s' : TeamState)
      (u : TeamMember) (cs : List Call) (token : Text) (k : StoredApiKey) (m : TeamMember)
      → at_most_one (is_member id) s.members ≡ true
      → update_member id role (some MemberState.suspended) grants now s ≡ (gives u, s')
      → any (writes_member id) cs ≡ false
      → opens (sha256 token) (run sha256 s' cs) ≡ some (k, m)
      → m.member_id ≢ id
  suspended_stays_out role grants now s s' u cs token k m o e d h =
      opens-active (sha256 token) (run sha256 s' cs) k m
        (run-active_member s' cs d (suspends role grants now s s' u o e)) h
