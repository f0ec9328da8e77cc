-- ===== src/Snapshots/Reads.antt =====
-- What the history of snapshots answers: a recorded entry until it expires, never an expired one.
use antigravity_browser.Base.{
  ℕ, ◌+◌, ◌<◌, ◌≡◌, refl, ◌⊎◌, Bool, true, false, Option, none, some, List, [], ◌∷◌, arith, Text,
  lookup, Dict, text_eq_refl, lookup-insert, ◌&&◌, ltb,
}
use antigravity_browser.Snapshots.Types.{
  StoredEntry, StoredNode, Prepared, SnapshotHistory, SnapshotHistoryError, done, failed,
}
use antigravity_browser.Snapshots.Prune.{
  prune_at, live, get_entry, require_entry, find_entry, prune, has,
}
use antigravity_browser.Snapshots.Retain.{
  add_entry, retain_pruned, retain_prepared, record_snapshot, validate_snapshot_id, entry_of,
  same_node, same_stored_nodes, is_same, flag_eq, room,
}
use antigravity_browser.Snapshots.Calls.{Call, step, run}
use antigravity_browser.Queue.Adapter.{option_eq}

lookup-live :
    (now : ℕ) (m : Dict StoredEntry) (k : Text) (e : StoredEntry)
    → lookup k m ≡ some e
    → now < e.expires_at
    → lookup k (live now m) ≡ some e
unfolding lookup live
lookup-live now [] k e h l = ground arith
lookup-live now ((j, d) ∷ m) k e h l = ground (arith, lookup-live now m k e)

live-lookup :
    (now : ℕ) (m : Dict StoredEntry) (k : Text) (e : StoredEntry)
    → lookup k (live now m) ≡ some e
    → now < e.expires_at
unfolding lookup live
live-lookup now [] k e h = ground arith
live-lookup now ((j, d) ∷ m) k e h = ground (arith, live-lookup now m k e)

-- An entry that `get` hands out has not expired at the time it is read.
pub get_entry_live :
    (now : ℕ) (id : Text) (h h' : SnapshotHistory) (e : StoredEntry)
    → get_entry (some now) id h ≡ (done (some e), h')
    → now < e.expires_at
unfolding get_entry prune_at
get_entry_live now id h h' e g = live-lookup now h.entries id e (ground arith)

require_live :
    (now : ℕ) (id : Text) (h : SnapshotHistory) (e : StoredEntry)
    → lookup id h.entries ≡ some e
    → now < e.expires_at
    → (require_entry (some now) id h).0 ≡ done e
unfolding require_entry find_entry prune_at
require_live now id h e o l = ground (arith, lookup-live now h.entries id e o l)

option_eq_refl : (o : Option Text) → option_eq o o ≡ true
option_eq_refl none = refl
option_eq_refl (some s) = text_eq_refl s

flag_eq_refl : (o : Option Bool) → flag_eq o o ≡ true
flag_eq_refl none = refl
flag_eq_refl (some true) = refl
flag_eq_refl (some false) = refl

same_node_refl : (n : StoredNode) → same_node n n ≡ true
unfolding same_node
same_node_refl n = ground (
  arith,
  option_eq_refl n.text_digest,
  text_eq_refl n.role,
  text_eq_refl n.name,
  text_eq_refl n.tag,
  option_eq_refl n.kind,
  option_eq_refl n.test_id,
  option_eq_refl n.frame_id,
  flag_eq_refl n.visible,
  flag_eq_refl n.enabled,
  flag_eq_refl n.editable,
  flag_eq_refl n.checked,
  flag_eq_refl n.required,
  text_eq_refl n.ref,
)

same_stored_nodes_refl : (ns : List StoredNode) → same_stored_nodes ns ns ≡ true
unfolding same_stored_nodes
same_stored_nodes_refl [] = refl
same_stored_nodes_refl (n ∷ ns) = ground (arith, same_node_refl n, same_stored_nodes_refl ns)

is_same_refl : (h : SnapshotHistory) (now : ℕ) (p : Prepared) → is_same (entry_of h now p) p ≡ true
is_same_refl h now p = ground (arith, option_eq_refl p.tab_id, same_stored_nodes_refl p.nodes)

record_snapshot-stored :
    (now now' : ℕ) (p : Prepared) (h h' : SnapshotHistory)
    → record_snapshot (some now) (some now') p h ≡ (done tt, h')
    → lookup p.snapshot_id (prune_at now' h).entries ≡ none
    → lookup p.snapshot_id h'.entries ≡ some (entry_of h now p)
unfolding record_snapshot validate_snapshot_id retain_prepared retain_pruned add_entry prune_at
record_snapshot-stored now now' p h h' e o = ground (
  arith,
  o,
  text_eq_refl p.snapshot_id,
  lookup-insert p.snapshot_id p.snapshot_id (entry_of h now p)
      (room (prune_at now' h) p.entry_bytes).0,
)

-- Is it a read or a prune at a time before the given one, or at no finite time?
abbrev is_earlier : ℕ → Option ℕ → Bool
is_earlier end none = true
is_earlier end (some t) = ltb t end

abbrev pub is_earlier_read : ℕ → Call → Bool
is_earlier_read end (Call.prunes clock) = is_earlier end clock
is_earlier_read end (Call.asks clock id) = is_earlier end clock
is_earlier_read end (Call.gets clock id) = is_earlier end clock
is_earlier_read end (Call.requires clock id) = is_earlier end clock
is_earlier_read end Call.clears = false
is_earlier_read end (Call.records clock clock' p) = false

unfoldable pub only_earlier_reads : ℕ → List Call → Bool
only_earlier_reads end [] = true
only_earlier_reads end (c ∷ cs) = is_earlier_read end c && only_earlier_reads end cs

step-keeps :
    (c : Call) (h : SnapshotHistory) (k : Text) (e : StoredEntry)
    → is_earlier_read e.expires_at c ≡ true
    → lookup k h.entries ≡ some e
    → lookup k (step h c).entries ≡ some e
unfolding step prune has get_entry require_entry prune_at
step-keeps (Call.prunes none) h k e b o = o
step-keeps (Call.prunes (some t)) h k e b o = lookup-live t h.entries k e o (ground (arith, b))
step-keeps (Call.asks none id) h k e b o = o
step-keeps (Call.asks (some t) id) h k e b o = lookup-live t h.entries k e o (ground (arith, b))
step-keeps (Call.gets none id) h k e b o = o
step-keeps (Call.gets (some t) id) h k e b o = lookup-live t h.entries k e o (ground (arith, b))
step-keeps (Call.requires none id) h k e b o = o
step-keeps (Call.requires (some t) id) h k e b o = lookup-live t h.entries k e o (ground (arith, b))
step-keeps Call.clears h k e b o = absurd (ground (arith, b))
step-keeps (Call.records clock clock' p) h k e b o = absurd (ground (arith, b))

run-keeps :
    (cs : List Call) (h : SnapshotHistory) (k : Text) (e : StoredEntry)
    → only_earlier_reads e.expires_at cs ≡ true
    → lookup k h.entries ≡ some e
    → lookup k (run h cs).entries ≡ some e
unfolding run only_earlier_reads
run-keeps [] h k e b o = o
run-keeps (c ∷ cs) h k e b o =
    run-keeps cs (step h c) k e (ground (arith, b)) (step-keeps c h k e (ground (arith, b)) o)

-- A snapshot that is recorded under a new id is found, as it was recorded, by a later read at a time
-- before its retention time is over, as long as the calls in between are reads and prunes at such
-- times too. Recording another snapshot or clearing the history in between may drop it.
pub record_snapshot-require_entry :
    (now now' t : ℕ) (p : Prepared) (h h' : SnapshotHistory) (cs : List Call)
    → record_snapshot (some now) (some now') p h ≡ (done tt, h')
    → lookup p.snapshot_id (prune_at now' h).entries ≡ none
    → only_earlier_reads (now + h.ttl_ms) cs ≡ true
    → t < now + h.ttl_ms
    → (require_entry (some t) p.snapshot_id (run h' cs)).0 ≡ done (entry_of h now p)
record_snapshot-require_entry now now' t p h h' cs e o q l =
    require_live t p.snapshot_id (run h' cs) (entry_of h now p)
      (run-keeps cs h' p.snapshot_id (entry_of h now p) q
        (record_snapshot-stored now now' p h h' e o))
      l

record_snapshot-validated :
    (clock clock' : Option ℕ) (p : Prepared) (h h' : SnapshotHistory)
    → record_snapshot clock clock' p h ≡ (done tt, h')
    → validate_snapshot_id p.snapshot_id ≡ done p.snapshot_id
unfolding record_snapshot validate_snapshot_id
record_snapshot-validated clock clock' p h h' e = ground arith

retain_pruned_same :
    (now : ℕ) (p : Prepared) (h : SnapshotHistory) (e : StoredEntry)
    → lookup p.snapshot_id h.entries ≡ some e
    → is_same e p ≡ true
    → retain_pruned now p h ≡ (done tt, h)
unfolding retain_pruned
retain_pruned_same now p h e o s = ground (arith, o, s)

-- Recording the same observation again before it expires succeeds and does no more than prune: the
-- entry keeps its age.
pub record_snapshot_twice :
    (now now' t t' : ℕ) (p : Prepared) (h h' : SnapshotHistory)
    → record_snapshot (some now) (some now') p h ≡ (done tt, h')
    → lookup p.snapshot_id (prune_at now' h).entries ≡ none
    → t' < now + h.ttl_ms
    → record_snapshot (some t) (some t') p h' ≡ (done tt, prune_at t' h')
unfolding record_snapshot retain_prepared prune_at
record_snapshot_twice now now' t t' p h h' e o l =
    let kept =
      lookup-live t' h'.entries p.snapshot_id (entry_of h now p)
        (record_snapshot-stored now now' p h h' e o) l in
    let valid = record_snapshot-validated (some now) (some now') p h h' e in
    rw (record_snapshot, valid)
      (retain_pruned_same t p (prune_at t' h') (entry_of h now p) kept (is_same_refl h now p))

-- A snapshot that is refused, whatever the reason, leaves the history as it was or as pruning left
-- it: no entry is evicted for it.
pub record_snapshot_refused :
    (now now' : ℕ) (p : Prepared) (h : SnapshotHistory) (e : SnapshotHistoryError)
    → (record_snapshot (some now) (some now') p h).0 ≡ failed e
    → ((record_snapshot (some now) (some now') p h).1 ≡ h)
      ⊎ ((record_snapshot (some now) (some now') p h).1 ≡ prune_at now' h)
unfolding record_snapshot validate_snapshot_id retain_prepared retain_pruned
record_snapshot_refused now now' p h e f = ground arith
