-- ===== src/Snapshots/Retain.antt =====
-- `retainPrepared` of `SnapshotHistory` with the check of the id (src/browser/snapshot-history.ts).
use antigravity_browser.Base.{
  ℕ, suc, ◌+◌, ◌-◌, Bool, true, false, not, ◌&&◌, ◌||◌, Option, none, some, List, [], ◌∷◌, ltb, leb,
  ◌==◌, if◌then◌else◌, length, any, Text, text_eq, Dict, lookup, insert, delete,
}
use antigravity_browser.Snapshots.Types.{
  StoredEntry, StoredNode, Prepared, SnapshotHistory, Outcome, done, failed, invalid_snapshot,
  id_conflict, resource_exhausted,
}
use antigravity_browser.Snapshots.Prune.{prune_at, timed, is_blank}
use antigravity_browser.Queue.Adapter.{option_eq}

abbrev pub flag_eq : Option Bool → Option Bool → Bool
flag_eq none none = true
flag_eq (some a) (some b) = if a then b else not b
flag_eq _ _ = false

abbrev marker_eq : Bool → Bool → Bool
marker_eq a b = if a then b else not b

-- All fields, the ref, the generation and the digest of the text.
unfoldable pub same_node : StoredNode → StoredNode → Bool
same_node a b =
    option_eq a.text_digest b.text_digest
    && text_eq a.role b.role
    && text_eq a.name b.name
    && text_eq a.tag b.tag
    && option_eq a.kind b.kind
    && option_eq a.test_id b.test_id
    && option_eq a.frame_id b.frame_id
    && flag_eq a.visible b.visible
    && flag_eq a.enabled b.enabled
    && flag_eq a.editable b.editable
    && flag_eq a.checked b.checked
    && flag_eq a.required b.required
    && marker_eq a.has_value b.has_value
    && text_eq a.ref b.ref
    && a.generation == b.generation

unfoldable pub same_stored_nodes : List StoredNode → List StoredNode → Bool
same_stored_nodes [] [] = true
same_stored_nodes (a ∷ xs) (b ∷ ys) = same_node a b && same_stored_nodes xs ys
same_stored_nodes _ _ = false

abbrev is_control : ℕ → Bool
is_control c = leb c 31 || c == 127

-- `validateSnapshotId`.
unfoldable pub validate_snapshot_id : Text → Outcome Text
validate_snapshot_id s =
    if is_blank s || ltb 200 (length s) || any is_control s then failed invalid_snapshot else done s

abbrev pub entry_of : SnapshotHistory → ℕ → Prepared → StoredEntry
entry_of h now p = record {
  tab_id = p.tab_id;
  page_revision = p.page_revision;
  generation = p.generation;
  created_at = now;
  expires_at = now + h.ttl_ms;
  bytes = p.entry_bytes;
  nodes = p.nodes;
}

-- The loop that evicts the oldest entries: what is left of them, and of the counter.
unfoldable pub make_room : ℕ → ℕ → ℕ → Dict StoredEntry → ℕ → Dict StoredEntry × ℕ
make_room most most_bytes bytes [] total = ([], total)
make_room most most_bytes bytes ((k, e) ∷ m) total =
    let rest = make_room most most_bytes bytes m (total - e.bytes) in
    if (leb most (suc (length m)) || ltb most_bytes (total + bytes)) && not (is_blank k)
    then rest
    else ((k, e) ∷ m, total)

abbrev pub room : SnapshotHistory → ℕ → Dict StoredEntry × ℕ
room h bytes = make_room h.max_snapshots h.max_bytes bytes h.entries h.total_bytes

-- The insertion of a new entry into a pruned history.
unfoldable pub add_entry : Text → StoredEntry → SnapshotHistory → SnapshotHistory
unfolding make_room
add_entry id e h = record h {
  entries = insert id e (room h e.bytes).0;
  total_bytes = (room h e.bytes).1 + e.bytes;
  expired_ids = delete id h.expired_ids;
}

abbrev pub is_same : StoredEntry → Prepared → Bool
is_same e p =
    option_eq e.tab_id p.tab_id
    && e.page_revision == p.page_revision
    && same_stored_nodes e.nodes p.nodes

-- `retainPrepared` of a pruned history, at the first reading of its clock.
unfoldable pub retain_pruned : ℕ → Prepared → SnapshotHistory → Outcome (Unit {0}) × SnapshotHistory
unfolding add_entry
retain_pruned now p h = elim (lookup p.snapshot_id h.entries) [
  | some e ↦ if is_same e p then (done tt, h) else (failed id_conflict, h)
  | none ↦
      if ltb h.max_snapshot_bytes p.entry_bytes || ltb h.max_bytes p.entry_bytes
      then (failed resource_exhausted, h)
      else (done tt, add_entry p.snapshot_id (entry_of h now p) h)
]

-- `retainPrepared`: it reads the clock, and prunes at a second reading.
unfoldable pub retain_prepared :
    Option ℕ → Option ℕ → Prepared → SnapshotHistory → Outcome (Unit {0}) × SnapshotHistory
retain_prepared clock clock' p h =
    timed clock h λ now. timed clock' h λ now'. retain_pruned now p (prune_at now' h)

-- `record` of an observation whose id the caller or the factory gave.
unfoldable pub record_snapshot :
    Option ℕ → Option ℕ → Prepared → SnapshotHistory → Outcome (Unit {0}) × SnapshotHistory
record_snapshot clock clock' p h = elim (validate_snapshot_id p.snapshot_id) [
  | done id ↦ retain_prepared clock clock' p h
  | failed e ↦ (failed e, h)
]
