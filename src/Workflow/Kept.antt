-- ===== src/Workflow/Kept.antt =====
-- An entry of the memory of action ids keeps its place (`pruneCache` and the bound on the entries,
-- src/browser/workflow.ts).
use antigravity_browser.Base.{
  ℕ, suc, ◌≤◌, ◌<◌, ◌≡◌, refl, ◌⊎◌, inl, inr, true, false, none, some, [], ◌∷◌, arith, ltb, leb,
  length, Text, text_eq, Bool-cases,
}
use antigravity_browser.Base.{Dict, lookup, insert, text_eq_refl}
use antigravity_browser.Workflow.Types.{WorkflowError}
use antigravity_browser.Workflow.Checks.{Checked, accepted, refused}
use antigravity_browser.Workflow.Cache.{CacheEntry, Prepared, prune_cache, drop_oldest}

-- The entry stands under the key, with at most so many behind it.
unfoldable pub IsKept : Text → CacheEntry → ℕ → Dict CacheEntry → Type 0
IsKept k e n [] = ⊥
IsKept k e n ((j, d) ∷ m) =
    ((text_eq j k ≡ true) × (d ≡ e) × (length m ≤ n)) ⊎ ((text_eq j k ≡ false) × IsKept k e n m)

pub IsKept-lookup :
    (k : Text) (e : CacheEntry) (n : ℕ) (m : Dict CacheEntry) → IsKept k e n m → lookup k m ≡ some e
unfolding IsKept lookup
IsKept-lookup k e n [] h = absurd h
IsKept-lookup k e n ((j, d) ∷ m) (inl (same, is, few)) = rw (same, is) refl
IsKept-lookup k e n ((j, d) ∷ m) (inr (other, h)) = rw other (IsKept-lookup k e n m h)

pub prune_cache-length : (now : ℕ) (m : Dict CacheEntry) → length (prune_cache now m) ≤ length m
unfolding prune_cache
prune_cache-length now [] = omega arith
prune_cache-length now ((j, d) ∷ m) = ground (arith, prune_cache-length now m)

pub prune_cache-IsKept :
    (now : ℕ) (k : Text) (e : CacheEntry) (n : ℕ) (m : Dict CacheEntry)
    → now < e.expires_at
    → IsKept k e n m
    → IsKept k e n (prune_cache now m)
unfolding IsKept prune_cache
prune_cache-IsKept now k e n [] l h = h
prune_cache-IsKept now k e n ((j, d) ∷ m) l (inl (same, is, few)) =
    let alive : leb d.expires_at now ≡ false = ground (arith, is, l) in
    rw alive (inl (same, is, ground (arith, few, prune_cache-length now m)))
prune_cache-IsKept now k e n ((j, d) ∷ m) l (inr (other, h)) =
    let later = prune_cache-IsKept now k e n m l h in
    elim (Bool-cases (leb d.expires_at now)) [
      | inl gone ↦ rw gone later
      | inr stays ↦ rw stays (inr (other, later))
    ]

pub insert-length :
    (i : Text) (d : CacheEntry) (m : Dict CacheEntry) → length (insert i d m) ≤ suc (length m)
unfolding insert
insert-length i d [] = omega arith
insert-length i d ((j, c) ∷ m) = ground (arith, insert-length i d m)

pub insert-IsKept :
    (k i : Text) (e d : CacheEntry) (n : ℕ) (m : Dict CacheEntry)
    → lookup i m ≡ none
    → IsKept k e n m
    → IsKept k e (suc n) (insert i d m)
unfolding IsKept insert lookup
insert-IsKept k i e d n [] o h = absurd h
insert-IsKept k i e d n ((j, c) ∷ m) o (inl (same, is, few)) =
    let elsewhere : text_eq j i ≡ false = ground (arith, o) in
    rw elsewhere (inl (same, is, ground (arith, few, insert-length i d m)))
insert-IsKept k i e d n ((j, c) ∷ m) o (inr (other, h)) =
    let elsewhere : text_eq j i ≡ false = ground (arith, o) in
    rw elsewhere (inr (other, insert-IsKept k i e d n m (ground (arith, o, elsewhere)) h))

pub insert-new :
    (k : Text) (e : CacheEntry) (m : Dict CacheEntry)
    → lookup k m ≡ none
    → IsKept k e 0 (insert k e m)
unfolding IsKept insert lookup
insert-new k e [] o = inl (text_eq_refl k, refl, omega arith)
insert-new k e ((j, c) ∷ m) o =
    let elsewhere : text_eq j k ≡ false = ground (arith, o) in
    rw elsewhere (inr (elsewhere, insert-new k e m (ground (arith, o, elsewhere))))

pub drop_oldest-IsKept :
    (k : Text) (e : CacheEntry) (n : ℕ) (m : Dict CacheEntry)
    → n ≤ 255
    → IsKept k e n m
    → IsKept k e n (drop_oldest m)
unfolding IsKept drop_oldest
drop_oldest-IsKept k e n [] l h = h
drop_oldest-IsKept k e n ((j, d) ∷ m) l (inl (same, is, few)) =
    let room : ltb 256 (length ((j, d) ∷ m)) ≡ false = ground (arith, few, l) in
    rw room (inl (same, is, few))
drop_oldest-IsKept k e n ((j, d) ∷ m) l (inr (other, h)) =
    elim (Bool-cases (ltb 256 (length ((j, d) ∷ m)))) [
      | inl full ↦ rw full (drop_oldest-IsKept k e n m l h)
      | inr room ↦ rw room (inr (other, h))
    ]

pub IsKept-weaken :
    (k : Text) (e : CacheEntry) (n : ℕ) (m : Dict CacheEntry)
    → IsKept k e n m
    → IsKept k e (suc n) m
unfolding IsKept
IsKept-weaken k e n [] h = h
IsKept-weaken k e n ((j, d) ∷ m) (inl (same, is, few)) = inl (same, is, omega (arith, few))
IsKept-weaken k e n ((j, d) ∷ m) (inr (other, h)) = inr (other, IsKept-weaken k e n m h)

pub prepare-cases :
    (c : Checked Prepared)
    → ((p : Prepared) × (c ≡ accepted p)) ⊎ ((e : WorkflowError) × (c ≡ refused e))
prepare-cases (accepted p) = inl (p, refl)
prepare-cases (refused e) = inr (e, refl)
