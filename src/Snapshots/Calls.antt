-- ===== src/Snapshots/Calls.antt =====
-- Every history of calls on a history of snapshots keeps its bounds.
use antigravity_browser.Base.{
  ℕ, suc, ◌+◌, ◌-◌, ◌≤◌, ◌≡◌, inl, inr, true, false, Option, none, some, List, [], ◌∷◌, arith,
  length, Text, Option-cases, lookup, Dict, delete, insert,
}
use antigravity_browser.Snapshots.Types.{
  StoredEntry, Prepared, SnapshotHistory, SnapshotHistoryOptions, create, bounded_integer,
}
use antigravity_browser.Snapshots.Prune.{
  prune_at, is_blank, prune, clear, has, get_entry, require_entry,
}
use antigravity_browser.Snapshots.Retain.{
  make_room, add_entry, retain_pruned, retain_prepared, record_snapshot, validate_snapshot_id,
  entry_of,
}
use antigravity_browser.Snapshots.Bounds.{
  Bounded, prune_at-Bounded, sum_bytes, all_light, all_named, all_named-insert,
}

make_room-bounds :
    (most most_bytes bytes light : ℕ) (m : Dict StoredEntry) (total : ℕ)
    → 1 ≤ most
    → bytes ≤ most_bytes
    → total ≡ sum_bytes m
    → all_light light m ≡ true
    → all_named m ≡ true
    → (suc (length (make_room most most_bytes bytes m total).0) ≤ most)
      × ((make_room most most_bytes bytes m total).1 + bytes ≤ most_bytes)
      × ((make_room most most_bytes bytes m total).1
          ≡ sum_bytes (make_room most most_bytes bytes m total).0)
      × (all_light light (make_room most most_bytes bytes m total).0 ≡ true)
      × (all_named (make_room most most_bytes bytes m total).0 ≡ true)
unfolding make_room sum_bytes all_light all_named
make_room-bounds most most_bytes bytes light [] total p b t l n = ground arith
make_room-bounds most most_bytes bytes light ((k, e) ∷ m) total p b t l n =
    ground (arith, make_room-bounds most most_bytes bytes light m (total - e.bytes))

lookup-make_room :
    (most most_bytes bytes : ℕ) (m : Dict StoredEntry) (total : ℕ) (k : Text)
    → lookup k m ≡ none
    → lookup k (make_room most most_bytes bytes m total).0 ≡ none
unfolding make_room lookup
lookup-make_room most most_bytes bytes [] total k h = h
lookup-make_room most most_bytes bytes ((j, e) ∷ m) total k h =
    ground (arith, lookup-make_room most most_bytes bytes m (total - e.bytes) k)

insert-bounds :
    (k : Text) (e : StoredEntry) (light : ℕ) (m : Dict StoredEntry)
    → lookup k m ≡ none
    → e.bytes ≤ light
    → all_light light m ≡ true
    → (length (insert k e m) ≡ suc (length m))
      × (sum_bytes (insert k e m) ≡ sum_bytes m + e.bytes)
      × (all_light light (insert k e m) ≡ true)
unfolding lookup insert sum_bytes all_light
insert-bounds k e light [] h b l = ground arith
insert-bounds k e light ((j, w) ∷ m) h b l = ground (arith, insert-bounds k e light m)

delete-bounds {ℓ} :
    {V : Type ℓ} (k : Text) (m : Dict V)
    → all_named m ≡ true
    → (length (delete k m) ≤ length m) × (all_named (delete k m) ≡ true)
unfolding delete all_named
delete-bounds k [] n = ground arith
delete-bounds k ((j, w) ∷ m) n = ground (arith, delete-bounds k m)

add_entry-Bounded :
    (id : Text) (e : StoredEntry) (h : SnapshotHistory)
    → is_blank id ≡ false
    → lookup id h.entries ≡ none
    → e.bytes ≤ h.max_snapshot_bytes
    → e.bytes ≤ h.max_bytes
    → Bounded h
    → Bounded (add_entry id e h)
unfolding add_entry
add_entry-Bounded id e h i free l s b =
    let left =
      make_room-bounds h.max_snapshots h.max_bytes e.bytes h.max_snapshot_bytes h.entries
        h.total_bytes b.settings.0 s b.counted b.light b.named.0 in
    let absent =
      lookup-make_room h.max_snapshots h.max_bytes e.bytes h.entries h.total_bytes id free in
    let put = insert-bounds id e h.max_snapshot_bytes _ absent l left.3 in
    let dead = delete-bounds id h.expired_ids b.named.1 in
    record {
      settings = b.settings;
      counted = ground (arith, put, left);
      few = ground (arith, put, left);
      small = left.1;
      light = put.2;
      few_dead = ground (arith, dead, b.few_dead);
      named = (all_named-insert id e _ i left.4, dead.1);
    }

retain_pruned-Bounded :
    (now : ℕ) (p : Prepared) (h : SnapshotHistory)
    → is_blank p.snapshot_id ≡ false
    → Bounded h
    → Bounded (retain_pruned now p h).1
unfolding retain_pruned
retain_pruned-Bounded now p h i b = elim (Option-cases (lookup p.snapshot_id h.entries)) [
  | inl o ↦ ground (arith, o, add_entry-Bounded p.snapshot_id (entry_of h now p) h i o)
  | inr (e, o) ↦ ground (arith, o)
]

record_snapshot-Bounded :
    (clock clock' : Option ℕ) (p : Prepared) (h : SnapshotHistory)
    → Bounded h
    → Bounded (record_snapshot clock clock' p h).1
unfolding record_snapshot validate_snapshot_id retain_prepared
record_snapshot-Bounded none clock' p h b = ground arith
record_snapshot-Bounded (some now) none p h b = ground arith
record_snapshot-Bounded (some now) (some now') p h b =
    ground (arith, retain_pruned-Bounded now p (prune_at now' h), prune_at-Bounded now' h b)

pub data Call : Type 0 where
  prunes : Option ℕ → Call
  clears : Call
  asks : Option ℕ → Text → Call
  gets : Option ℕ → Text → Call
  requires : Option ℕ → Text → Call
  records : Option ℕ → Option ℕ → Prepared → Call

unfoldable pub step : SnapshotHistory → Call → SnapshotHistory
step h (prunes clock) = (prune clock h).1
step h clears = clear h
step h (asks clock id) = (has clock id h).1
step h (gets clock id) = (get_entry clock id h).1
step h (requires clock id) = (require_entry clock id h).1
step h (records clock clock' p) = (record_snapshot clock clock' p h).1

unfoldable pub run : SnapshotHistory → List Call → SnapshotHistory
run h [] = h
run h (c ∷ cs) = run (step h c) cs

step-Bounded : (h : SnapshotHistory) (c : Call) → Bounded h → Bounded (step h c)
unfolding step clear prune has get_entry require_entry sum_bytes all_light all_named
step-Bounded h (prunes none) b = b
step-Bounded h (prunes (some now)) b = prune_at-Bounded now h b
step-Bounded h clears b = ground (arith, b)
step-Bounded h (asks none id) b = b
step-Bounded h (asks (some now) id) b = prune_at-Bounded now h b
step-Bounded h (gets none id) b = b
step-Bounded h (gets (some now) id) b = prune_at-Bounded now h b
step-Bounded h (requires none id) b = b
step-Bounded h (requires (some now) id) b = prune_at-Bounded now h b
step-Bounded h (records clock clock' p) b = record_snapshot-Bounded clock clock' p h b

run-Bounded : (h : SnapshotHistory) (cs : List Call) → Bounded h → Bounded (run h cs)
unfolding run
run-Bounded h [] b = b
run-Bounded h (c ∷ cs) b = run-Bounded (step h c) cs (step-Bounded h c b)

create-Bounded : (o : SnapshotHistoryOptions) → Bounded (create o)
unfolding create bounded_integer sum_bytes all_light all_named
create-Bounded o = ground arith

-- Whatever options it is made with and whatever it is asked, at any readings of the clock, the
-- history keeps its bounds: at most 512 snapshots and 16 MiB, its own settings on number, weight
-- and single entries, a counter that is the sum of what it retains, and a cap on tombstones.
pub run-create-Bounded : (o : SnapshotHistoryOptions) (cs : List Call) → Bounded (run (create o) cs)
run-create-Bounded o cs = run-Bounded (create o) cs (create-Bounded o)
