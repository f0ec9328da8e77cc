-- ===== src/Snapshots/Types.antt =====
-- The entries, the state and the errors of `SnapshotHistory` (src/browser/snapshot-history.ts). A
-- number that a caller gives stands by its floor.
use antigravity_browser.Base.{ℕ, min, max, Bool, Option, none, some, List, [], Text, Dict}
use antigravity_browser.Base.{Amount, floor_of, below_zero, not_finite}

-- A node as it is stored: no text, only its digest, and no value but a marker.
pub record StoredNode : Type 0 where
  pub ref : Text
  pub generation : ℕ
  pub role : Text
  pub name : Text
  pub tag : Text
  pub kind : Option Text
  pub test_id : Option Text
  pub frame_id : Option Text
  pub visible : Option Bool
  pub enabled : Option Bool
  pub editable : Option Bool
  pub checked : Option Bool
  pub required : Option Bool
  pub has_value : Bool
  pub text_digest : Option Text

pub record StoredEntry : Type 0 where
  pub tab_id : Option Text
  pub page_revision : ℕ
  pub generation : ℕ
  pub created_at : ℕ
  pub expires_at : ℕ
  pub bytes : ℕ
  pub nodes : List StoredNode

-- What `prepareSnapshot` makes of an observation.
pub record Prepared : Type 0 where
  pub snapshot_id : Text
  pub tab_id : Option Text
  pub page_revision : ℕ
  pub generation : ℕ
  pub nodes : List StoredNode
  pub entry_bytes : ℕ

pub record SnapshotHistory : Type 0 where
  pub max_snapshots : ℕ
  pub ttl_ms : ℕ
  pub max_bytes : ℕ
  pub max_snapshot_bytes : ℕ
  pub max_nodes : ℕ
  pub entries : Dict StoredEntry
  pub expired_ids : Dict ℕ
  pub total_bytes : ℕ

pub record SnapshotHistoryOptions : Type 0 where
  pub max_snapshots : Option Amount
  pub ttl_ms : Option Amount
  pub max_bytes : Option Amount
  pub max_snapshot_bytes : Option Amount
  pub max_nodes : Option Amount

pub data SnapshotHistoryError : Type 0 where
  not_found expired id_conflict revision_mismatch : SnapshotHistoryError
  invalid_snapshot resource_exhausted : SnapshotHistoryError

pub data Outcome {ℓ} (A : Type ℓ) : Type ℓ where
  done : A → Outcome A
  failed : SnapshotHistoryError → Outcome A

unfoldable pub bounded_integer : Option Amount → ℕ → ℕ → ℕ → ℕ
bounded_integer none minimum maximum fallback = fallback
bounded_integer (some not_finite) minimum maximum fallback = fallback
bounded_integer (some below_zero) minimum maximum fallback = max minimum (min maximum 0)
bounded_integer (some (floor_of n)) minimum maximum fallback = max minimum (min maximum n)

abbrev pub hard_max_snapshots : ℕ
hard_max_snapshots = 512

abbrev pub hard_max_bytes : ℕ
hard_max_bytes = 16777216

abbrev pub hard_max_snapshot_bytes : ℕ
hard_max_snapshot_bytes = 4194304

abbrev pub hard_max_ttl_ms : ℕ
hard_max_ttl_ms = 86400000

abbrev pub hard_max_nodes : ℕ
hard_max_nodes = 2000

-- The constructor.
unfoldable pub create : SnapshotHistoryOptions → SnapshotHistory
create o =
    let most_bytes = bounded_integer o.max_bytes 1 hard_max_bytes 2097152 in
    record {
      max_snapshots = bounded_integer o.max_snapshots 1 hard_max_snapshots 32;
      ttl_ms = bounded_integer o.ttl_ms 1 hard_max_ttl_ms 600000;
      max_bytes = most_bytes;
      max_snapshot_bytes =
          bounded_integer o.max_snapshot_bytes 1 (min hard_max_snapshot_bytes most_bytes)
            (min 262144 most_bytes);
      max_nodes = bounded_integer o.max_nodes 1 hard_max_nodes 500;
      entries = [];
      expired_ids = [];
      total_bytes = 0;
    }
