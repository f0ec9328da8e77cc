-- ===== src/Snapshots/Bounds.antt =====
-- The bounds that the history of snapshots keeps, whatever it is asked to record.
use antigravity_browser.Base.{
  ℕ, ◌+◌, ◌-◌, ◌≤◌, ◌≡◌, Bool, true, false, not, ◌&&◌, [], ◌∷◌, arith, leb, length, Text, insert,
  Dict,
}
use antigravity_browser.Snapshots.Types.{
  StoredEntry, SnapshotHistory, hard_max_snapshots, hard_max_bytes,
}
use antigravity_browser.Snapshots.Prune.{
  prune_at, is_blank, live, live_bytes, bury, recent, trim, tombstone_cap,
}

unfoldable pub sum_bytes : Dict StoredEntry → ℕ
sum_bytes [] = 0
sum_bytes ((k, e) ∷ m) = e.bytes + sum_bytes m

-- No entry is heavier than one may be.
unfoldable pub all_light : ℕ → Dict StoredEntry → Bool
all_light most [] = true
all_light most ((k, e) ∷ m) = leb e.bytes most && all_light most m

-- No key is empty.
unfoldable pub all_named {ℓ} : {V : Type ℓ} → Dict V → Bool
all_named [] = true
all_named ((k, v) ∷ m) = not (is_blank k) && all_named m

live_bytes-sum :
    (now : ℕ) (m : Dict StoredEntry) (total r : ℕ)
    → total ≡ sum_bytes m + r
    → live_bytes now m total ≡ sum_bytes (live now m) + r
unfolding live_bytes live sum_bytes
live_bytes-sum now [] total r h = h
live_bytes-sum now ((k, e) ∷ m) total r h =
    ground
      (arith, live_bytes-sum now m total (r + e.bytes), live_bytes-sum now m (total - e.bytes) r)

pub live-bounds :
    (now most : ℕ) (m : Dict StoredEntry)
    → all_light most m ≡ true
    → all_named m ≡ true
    → (length (live now m) ≤ length m)
      × (sum_bytes (live now m) ≤ sum_bytes m)
      × (all_light most (live now m) ≡ true)
      × (all_named (live now m) ≡ true)
unfolding live sum_bytes all_light all_named
live-bounds now most [] l n = ground arith
live-bounds now most ((k, e) ∷ m) l n = ground (arith, live-bounds now most m)

pub all_named-insert {ℓ} :
    {V : Type ℓ} (k : Text) (v : V) (m : Dict V)
    → is_blank k ≡ false
    → all_named m ≡ true
    → all_named (insert k v m) ≡ true
unfolding all_named insert
all_named-insert k v [] b n = ground arith
all_named-insert k v ((j, w) ∷ m) b n = ground (arith, all_named-insert k v m b)

all_named-bury :
    (now : ℕ) (m : Dict StoredEntry) (dead : Dict ℕ)
    → all_named m ≡ true
    → all_named dead ≡ true
    → all_named (bury now m dead) ≡ true
unfolding all_named bury
all_named-bury now [] dead n d = d
all_named-bury now ((k, e) ∷ m) dead n d = ground (
  arith,
  all_named-insert k now dead,
  all_named-bury now m dead,
  all_named-bury now m (insert k now dead),
)

all_named-recent :
    (now ttl : ℕ) (dead : Dict ℕ) → all_named dead ≡ true → all_named (recent now ttl dead) ≡ true
unfolding all_named recent
all_named-recent now ttl [] d = d
all_named-recent now ttl ((k, t) ∷ m) d = ground (arith, all_named-recent now ttl m)

trim-bounds :
    (cap : ℕ) (dead : Dict ℕ)
    → all_named dead ≡ true
    → (all_named (trim cap dead) ≡ true) × (length (trim cap dead) ≤ cap)
unfolding all_named trim
trim-bounds cap [] d = ground arith
trim-bounds cap ((k, t) ∷ m) d = ground (arith, trim-bounds cap m)

-- The settings are within the hard limits; the counter is the sum of what is retained; the number,
-- the weight and every entry are within the settings, the tombstones within their cap.
pub record Bounded (h : SnapshotHistory) : Type 0 where
  pub settings :
      (1 ≤ h.max_snapshots)
      × (h.max_snapshots ≤ hard_max_snapshots)
      × (h.max_bytes ≤ hard_max_bytes)
  pub counted : h.total_bytes ≡ sum_bytes h.entries
  pub few : length h.entries ≤ h.max_snapshots
  pub small : h.total_bytes ≤ h.max_bytes
  pub light : all_light h.max_snapshot_bytes h.entries ≡ true
  pub few_dead : length h.expired_ids ≤ tombstone_cap h
  pub named : (all_named h.entries ≡ true) × (all_named h.expired_ids ≡ true)

pub prune_at-Bounded : (now : ℕ) (h : SnapshotHistory) → Bounded h → Bounded (prune_at now h)
unfolding prune_at
prune_at-Bounded now h b =
    let kept = live-bounds now h.max_snapshot_bytes h.entries b.light b.named.0 in
    let buried =
      all_named-recent now h.ttl_ms (bury now h.entries h.expired_ids)
        (all_named-bury now h.entries h.expired_ids b.named.0 b.named.1) in
    let cut =
      trim-bounds (tombstone_cap h) (recent now h.ttl_ms (bury now h.entries h.expired_ids))
        buried in
    let counts = live_bytes-sum now h.entries h.total_bytes 0 in
    record {
      settings = b.settings;
      counted = ground (arith, counts, b.counted);
      few = ground (arith, kept, b.few);
      small = ground (arith, counts, b.counted, kept, b.small);
      light = kept.2;
      few_dead = cut.1;
      named = (kept.3, cut.0);
    }
