-- ===== src/Snapshots/Examples.antt =====
-- A history that holds two snapshots at most, and the theorems at its states.
use antigravity_browser.Base.{
  ℕ, zero, suc, ◌+◌, ◌-◌, ◌*◌, ◌/◌, ◌%◌, ◌≤◌, ◌<◌, min, max, ◌≡◌, refl, sym, ap, ◌∙◌, subst, ◌≢◌,
  ◌↔◌, ◌⊎◌, inl, inr, Bool, true, false, not, ◌&&◌, ◌||◌, Option, none, some, List, [], ◌∷◌, ◌++◌,
  map, arith, ltb, leb, ◌==◌, if◌then◌else◌, length, any, take, drop, Text, text_eq, is_some,
  or_else, Bool-cases, Option-cases, lookup, floor_of,
}
use antigravity_browser.Snapshots.Types.{
  Prepared, SnapshotHistory, SnapshotHistoryError, done, failed, SnapshotHistoryOptions, create,
  bounded_integer,
}
use antigravity_browser.Snapshots.Prune.{prune_at, get_entry, require_entry}
use antigravity_browser.Snapshots.Retain.{record_snapshot, entry_of}
use antigravity_browser.Snapshots.Bounds.{Bounded}
use antigravity_browser.Snapshots.Calls.{run-create-Bounded, run, Call}
use antigravity_browser.Snapshots.Reads.{record_snapshot-require_entry, only_earlier_reads}

abbrev options : SnapshotHistoryOptions
options = record {
  max_snapshots = some (floor_of 2);
  ttl_ms = some (floor_of 500);
  max_bytes = some (floor_of 100);
  max_snapshot_bytes = none;
  max_nodes = none;
}

abbrev observed : ℕ → ℕ → Prepared
observed id bytes = record {
  snapshot_id = id ∷ [];
  tab_id = none;
  page_revision = 1;
  generation = 1;
  nodes = [];
  entry_bytes = bytes;
}

abbrev recordings : List Call
recordings =
    Call.records (some 1000) (some 1000) (observed 97 40)
    ∷ Call.records (some 1100) (some 1100) (observed 98 70)
    ∷ []

run-create-Bounded_example : Bounded (run (create options) recordings)
run-create-Bounded_example = run-create-Bounded options recordings

abbrev start : SnapshotHistory
start = create options

abbrev noted : SnapshotHistory
noted = (record_snapshot (some 1000) (some 1000) (observed 97 40) start).1

recorded : record_snapshot (some 1000) (some 1000) (observed 97 40) start ≡ (done tt, noted)
unfolding record_snapshot antigravity_browser.Snapshots.Retain.validate_snapshot_id
    antigravity_browser.Snapshots.Retain.retain_prepared
    antigravity_browser.Snapshots.Retain.retain_pruned lookup prune_at create bounded_integer
recorded = refl

was_new : lookup (97 ∷ []) (prune_at 1000 start).entries ≡ none
unfolding lookup prune_at create
was_new = refl

in_time : 1400 < 1000 + start.ttl_ms
unfolding create bounded_integer
in_time = ground arith

abbrev reads_between : List Call
reads_between =
    Call.gets (some 1200) (98 ∷ []) ∷ Call.prunes (some 1300) ∷ Call.asks none (97 ∷ []) ∷ []

all_in_time : only_earlier_reads (1000 + start.ttl_ms) reads_between ≡ true
unfolding create bounded_integer only_earlier_reads
all_in_time = refl

record_snapshot-require_entry_example :
    (require_entry (some 1400) (97 ∷ []) (run noted reads_between)).0
    ≡ done (entry_of start 1000 (observed 97 40))
record_snapshot-require_entry_example =
    record_snapshot-require_entry 1000 1000 1400 (observed 97 40) start noted reads_between recorded
      was_new all_in_time in_time

abbrev read_history : SnapshotHistory
read_history = (get_entry (some 1400) (97 ∷ []) noted).1

read :
    get_entry (some 1400) (97 ∷ []) noted
    ≡ (done (some (entry_of start 1000 (observed 97 40))), read_history)
unfolding get_entry lookup prune_at record_snapshot
    antigravity_browser.Snapshots.Retain.validate_snapshot_id
    antigravity_browser.Snapshots.Retain.retain_prepared
    antigravity_browser.Snapshots.Retain.retain_pruned create bounded_integer
    antigravity_browser.Base.insert text_eq
read = refl

too_heavy :
    (record_snapshot (some 1400) (some 1400) (observed 98 200) noted).0
    ≡ failed SnapshotHistoryError.resource_exhausted
unfolding record_snapshot antigravity_browser.Snapshots.Retain.validate_snapshot_id
    antigravity_browser.Snapshots.Retain.retain_prepared
    antigravity_browser.Snapshots.Retain.retain_pruned lookup prune_at create bounded_integer
    antigravity_browser.Base.insert text_eq
too_heavy = refl
