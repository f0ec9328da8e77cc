-- ===== src/Team/Withdrawn.antt =====
-- Access that is withdrawn stays withdrawn, over any history of calls.
use antigravity_browser.Base.{
  ℕ, ◌<◌, ◌≡◌, ◌≢◌, inl, inr, Bool, true, false, not, ◌&&◌, ◌||◌, Option, some, List, [], ◌∷◌, ◌++◌,
  arith, if◌then◌else◌, any, Text, text_eq, Bool-cases, Option-cases, text_eq_iff,
}
use antigravity_browser.Team.Store.{
  TeamState, TeamMember, StoredApiKey, TeamRole, MemberState, Grants, is_set, find_first,
  change_first, usable, is_key, active_member, opens, authenticate, create_workspace, create_member,
  update_member, issue_api_key, revoke_api_key, new_key,
}

pub data Call : Type 0 where
  authenticates : Text → ℕ → Call
  creates_workspace : Text → Text → ℕ → Call
  creates_member : Text → Text → TeamRole → Option Grants → Text → ℕ → Call
  updates_member : Text → Option TeamRole → Option MemberState → Option Grants → ℕ → Call
  issues : Text → Text → Text → Text → ℕ → Call
  revokes : Text → ℕ → Call

unfoldable pub step : (Text → Text) → TeamState → Call → TeamState
step sha256 s (authenticates token now) = (authenticate sha256 token now s).1
step sha256 s (creates_workspace name drawn now) = (create_workspace name drawn now s).1
step sha256 s (creates_member w name role grants drawn now) =
    (create_member w name role grants drawn now s).1
step sha256 s (updates_member id role state grants now) =
    (update_member id role state grants now s).1
step sha256 s (issues member label drawn token now) =
    (issue_api_key sha256 member label drawn token now s).1
step sha256 s (revokes id now) = (revoke_api_key id now s).1

unfoldable pub run : (Text → Text) → TeamState → List Call → TeamState
run sha256 s [] = s
run sha256 s (c ∷ cs) = run sha256 (step sha256 s c) cs

-- Does the call draw this id for a new key?
abbrev pub draws_key : Text → Call → Bool
draws_key id (issues member label drawn token now) = text_eq drawn id
draws_key id _ = false

-- Does the call write the member of this id?
abbrev pub writes_member : Text → Call → Bool
writes_member id (creates_member w name role grants drawn now) = text_eq drawn id
writes_member id (updates_member i role state grants now) = text_eq i id
writes_member id _ = false

-- At most one passes the test.
unfoldable pub at_most_one {ℓ} : {A : Type ℓ} → (A → Bool) → List A → Bool
at_most_one p [] = true
at_most_one p (x ∷ xs) = if p x then not (any p xs) else at_most_one p xs

abbrev pub live_key : Text → StoredApiKey → Bool
live_key id k = is_key id k && not (is_set k.revoked_at)

pub any-append {ℓ} :
    {A : Type ℓ} (q : A → Bool) (xs : List A) (x : A) → any q (xs ++ (x ∷ [])) ≡ (any q xs || q x)
any-append q [] x = ground arith
any-append q (y ∷ xs) x = ground (arith, any-append q xs x)

pub any-change_first {ℓ} :
    {A : Type ℓ} (p q : A → Bool) (f : A → A) (xs : List A)
    → ((x : A) → p x ≡ true → q x ≡ false → q (f x) ≡ false)
    → any q xs ≡ false
    → any q (change_first p f xs) ≡ false
unfolding change_first
any-change_first p q f [] h n = n
any-change_first p q f (x ∷ xs) h n = ground (arith, h x, any-change_first p q f xs h)

pub find_first-any {ℓ} :
    {A : Type ℓ} (p q : A → Bool) (xs : List A) (x : A)
    → find_first p xs ≡ some x
    → any q xs ≡ false
    → (p x ≡ true) × (q x ≡ false)
unfolding find_first
find_first-any p q [] x e n = ground arith
find_first-any p q (y ∷ xs) x e n = ground (arith, find_first-any p q xs x)

none_of {ℓ} :
    {A : Type ℓ} (p q : A → Bool) (xs : List A)
    → ((x : A) → q x ≡ true → p x ≡ true)
    → any p xs ≡ false
    → any q xs ≡ false
none_of p q [] g n = ground arith
none_of p q (x ∷ xs) g n = ground (arith, g x, none_of p q xs g)

-- Changing the only one that passes the test so that it fails another leaves none that passes both.
pub change_first-none {ℓ} :
    {A : Type ℓ} (p q : A → Bool) (f : A → A) (xs : List A)
    → ((x : A) → q (f x) ≡ false)
    → ((x : A) → q x ≡ true → p x ≡ true)
    → at_most_one p xs ≡ true
    → any q (change_first p f xs) ≡ false
unfolding at_most_one change_first
change_first-none p q f [] h g o = ground arith
change_first-none p q f (x ∷ xs) h g o =
    ground (arith, h x, g x, change_first-none p q f xs h g, none_of p q xs g)

module _ (sha256 : Text → Text) (id : Text) where
  other_key :
      (i : Text) (now : ℕ)
      → text_eq i id ≡ false
      → (k : StoredApiKey) → is_key i k ≡ true
      → live_key id k ≡ false
      → live_key id (record k { revoked_at = some now }) ≡ false
  other_key i now d k p q = ground (arith, text_eq_iff k.key_id i)

  revoke_api_key-live_key :
      (i : Text) (now : ℕ) (s : TeamState)
      → any (live_key id) s.api_keys ≡ false
      → any (live_key id) (revoke_api_key i now s).1.api_keys ≡ false
  unfolding revoke_api_key
  revoke_api_key-live_key i now s n = elim (Option-cases (find_first (is_key i) s.api_keys)) [
    | inl o ↦ ground (arith, o)
    | inr (k, o) ↦ elim (Bool-cases (text_eq i id)) [
      | inl same ↦ ground (
        arith,
        o,
        same,
        text_eq_iff i id,
        find_first-any (is_key i) (live_key id) s.api_keys k o n,
      )
      | inr other ↦ ground (
        arith,
        n,
        any-change_first (is_key i) (live_key id) (λ k. record k { revoked_at = some now })
            s.api_keys (other_key i now other) n,
      )
    ]
  ]

  step-live_key :
      (s : TeamState) (c : Call)
      → draws_key id c ≡ false
      → any (live_key id) s.api_keys ≡ false
      → any (live_key id) (step sha256 s c).api_keys ≡ false
  unfolding step authenticate create_workspace create_member update_member issue_api_key
      revoke_api_key
  step-live_key s (authenticates token now) d n = ground (
    arith,
    any-change_first (usable (sha256 token)) (live_key id)
        (λ k. record k { last_used_at = some now }) s.api_keys (λ k _ q. q) n,
  )
  step-live_key s (creates_workspace name drawn now) d n = ground arith
  step-live_key s (creates_member w name role grants drawn now) d n = ground arith
  step-live_key s (updates_member i role state grants now) d n = ground arith
  step-live_key s (issues member label drawn token now) d n =
      ground
        (arith, any-append (live_key id) s.api_keys (new_key sha256 member label drawn token now))
  step-live_key s (revokes i now) d n = revoke_api_key-live_key i now s n

  run-live_key :
      (s : TeamState) (cs : List Call)
      → any (draws_key id) cs ≡ false
      → any (live_key id) s.api_keys ≡ false
      → any (live_key id) (run sha256 s cs).api_keys ≡ false
  unfolding run
  run-live_key s [] d n = n
  run-live_key s (c ∷ cs) d n =
      run-live_key (step sha256 s c) cs (ground arith) (step-live_key s c (ground arith) n)

  opens-live :
      (hash : Text) (s : TeamState) (k : StoredApiKey) (m : TeamMember)
      → any (live_key id) s.api_keys ≡ false
      → opens hash s ≡ some (k, m)
      → k.key_id ≢ id
  unfolding opens
  opens-live hash s k m n e same = elim (Option-cases (find_first (usable hash) s.api_keys)) [
    | inl o ↦ ground (arith, o)
    | inr (j, o) ↦ elim (Option-cases (find_first (active_member j.member_id) s.members)) [
      | inl a ↦ ground (arith, o, a)
      | inr (i, a) ↦ ground (
        arith,
        o,
        a,
        same,
        text_eq_iff j.key_id id,
        find_first-any (usable hash) (live_key id) s.api_keys j o n,
      )
    ]
  ]

  revoked :
      (now : ℕ) (s s' : TeamState)
      → 0 < now
      → at_most_one (is_key id) s.api_keys ≡ true
      → revoke_api_key id now s ≡ (true, s')
      → any (live_key id) s'.api_keys ≡ false
  unfolding revoke_api_key
  revoked now s s' p o e = ground (
    arith,
    change_first-none (is_key id) (live_key id) (λ k. record k { revoked_at = some now }) s.api_keys
        (λ k. ground arith) (λ k q. ground arith) o,
  )

  -- A key that has been revoked opens nothing again: over any history of calls that draws no new key
  -- of the same id, no token authenticates by it. The key's id is unique, the time not 0.
  pub revoked_for_good :
      (now : ℕ) (s s' : TeamState) (cs : List Call) (token : Text) (k : StoredApiKey)
      (m : TeamMember)
      → 0 < now
      → at_most_one (is_key id) s.api_keys ≡ true
      → revoke_api_key id now s ≡ (true, s')
      → any (draws_key id) cs ≡ false
      → opens (sha256 token) (run sha256 s' cs) ≡ some (k, m)
      → k.key_id ≢ id
  revoked_for_good now s s' cs token k m p o e d h =
      opens-live (sha256 token) (run sha256 s' cs) k m
        (run-live_key s' cs d (revoked now s s' p o e)) h
