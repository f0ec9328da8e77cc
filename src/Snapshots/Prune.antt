-- ===== src/Snapshots/Prune.antt =====
-- `prune`, `clear` and the reads of `SnapshotHistory` (src/browser/snapshot-history.ts). A reading
-- of the clock is an argument, `none` where it is not finite; the counter of bytes, which the code
-- keeps at 0 or more, is a natural number.
use antigravity_browser.Base.{
  ℕ, suc, ◌+◌, ◌-◌, ◌*◌, min, Bool, true, false, not, ◌&&◌, Option, none, some, [], ◌∷◌, ltb,
  if◌then◌else◌, length, Text, is_some, lookup, Dict, insert,
}
use antigravity_browser.Snapshots.Types.{
  StoredEntry, SnapshotHistory, SnapshotHistoryError, Outcome, done, failed, hard_max_snapshots,
  not_found, invalid_snapshot,
}

-- The entries that have not expired.
unfoldable pub live : ℕ → Dict StoredEntry → Dict StoredEntry
live now [] = []
live now ((k, e) ∷ m) = if ltb now e.expires_at then (k, e) ∷ live now m else live now m

-- The counter after the bytes of the expired entries are taken off.
unfoldable pub live_bytes : ℕ → Dict StoredEntry → ℕ → ℕ
live_bytes now [] total = total
live_bytes now ((k, e) ∷ m) total =
    live_bytes now m (if ltb now e.expires_at then total else total - e.bytes)

-- The tombstones with those of the expired entries.
unfoldable pub bury : ℕ → Dict StoredEntry → Dict ℕ → Dict ℕ
bury now [] dead = dead
bury now ((k, e) ∷ m) dead = bury now m (if ltb now e.expires_at then dead else insert k now dead)

-- The tombstones that are younger than the retention time.
unfoldable pub recent : ℕ → ℕ → Dict ℕ → Dict ℕ
recent now ttl [] = []
recent now ttl ((k, t) ∷ m) =
    if ltb now (t + ttl) then (k, t) ∷ recent now ttl m else recent now ttl m

abbrev pub is_blank : Text → Bool
is_blank [] = true
is_blank (c ∷ s) = false

-- The loop that drops the oldest tombstones; an empty key ends it.
unfoldable pub trim : ℕ → Dict ℕ → Dict ℕ
trim cap [] = []
trim cap ((k, t) ∷ m) =
    if ltb cap (suc (length m)) && not (is_blank k) then trim cap m else (k, t) ∷ m

abbrev pub tombstone_cap : SnapshotHistory → ℕ
tombstone_cap h = min hard_max_snapshots (h.max_snapshots * 2)

unfoldable pub prune_at : ℕ → SnapshotHistory → SnapshotHistory
unfolding live live_bytes bury recent trim
prune_at now h = record h {
  entries = live now h.entries;
  total_bytes = live_bytes now h.entries h.total_bytes;
  expired_ids = trim (tombstone_cap h) (recent now h.ttl_ms (bury now h.entries h.expired_ids));
}

-- What a read of the clock that is not finite does to a call.
abbrev pub timed :
    {A : Type 0}
    → Option ℕ
    → SnapshotHistory
    → (ℕ → Outcome A × SnapshotHistory)
    → Outcome A × SnapshotHistory
timed none h f = (failed invalid_snapshot, h)
timed (some now) h f = f now

-- `prune`; its answer is how many entries it dropped.
unfoldable pub prune : Option ℕ → SnapshotHistory → Outcome ℕ × SnapshotHistory
prune clock h =
    timed clock h λ now. (done (length h.entries - length (live now h.entries)), prune_at now h)

unfoldable pub clear : SnapshotHistory → SnapshotHistory
clear h = record h { entries = []; expired_ids = []; total_bytes = 0 }

unfoldable pub has : Option ℕ → Text → SnapshotHistory → Outcome Bool × SnapshotHistory
has clock id h =
    timed clock h λ now. (done (is_some (lookup id (prune_at now h).entries)), prune_at now h)

-- The answer of `requireEntry` and of `require` on a pruned history.
unfoldable pub find_entry : Text → SnapshotHistory → Outcome StoredEntry
find_entry id h = elim (lookup id h.entries) [
  | some e ↦ done e
  | none ↦
      if is_some (lookup id h.expired_ids)
      then failed SnapshotHistoryError.expired
      else failed not_found
]

unfoldable pub require_entry :
    Option ℕ → Text → SnapshotHistory → Outcome StoredEntry × SnapshotHistory
require_entry clock id h = timed clock h λ now. (find_entry id (prune_at now h), prune_at now h)

-- `get`.
unfoldable pub get_entry :
    Option ℕ → Text → SnapshotHistory → Outcome (Option StoredEntry) × SnapshotHistory
get_entry clock id h =
    timed clock h λ now. (done (lookup id (prune_at now h).entries), prune_at now h)
