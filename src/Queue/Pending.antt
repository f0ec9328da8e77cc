-- ===== src/Queue/Pending.antt =====
-- The queue of pending keys: no key twice, first come first served, each task handed out once.
use antigravity_browser.Base.{
  starts_with, ◌≡◌, refl, Bool, true, false, not, ◌&&◌, ◌||◌, some, List, [], ◌∷◌, ◌++◌, arith,
  Text, text_eq, Dict, text_eq_iff, lookup, text_eq_refl,
}
use antigravity_browser.Queue.Types.{TaskRecord}
use antigravity_browser.Queue.Adapter.{take_runnable, includes, remove_pending_key, is_runnable}

-- No key stands in the queue twice.
unfoldable pub is_distinct : List Text → Bool
is_distinct [] = true
is_distinct (k ∷ q) = not (includes k q) && is_distinct q

pub includes-append :
    (k j : Text) (q : List Text) → includes k (q ++ (j ∷ [])) ≡ (includes k q || text_eq j k)
unfolding includes
includes-append k j [] = ground arith
includes-append k j (i ∷ q) = ground (arith, includes-append k j q)

pub is_distinct-append :
    (k : Text) (q : List Text)
    → includes k q ≡ false
    → is_distinct q ≡ true
    → is_distinct (q ++ (k ∷ [])) ≡ true
unfolding is_distinct includes
is_distinct-append k [] h d = refl
is_distinct-append k (j ∷ q) h d =
    ground (arith, includes-append j k q, text_eq_iff k j, text_eq_iff j k, is_distinct-append k q)

pub includes-remove :
    (k j : Text) (q : List Text)
    → includes k (remove_pending_key j q) ≡ (includes k q && not (text_eq j k))
unfolding includes remove_pending_key
includes-remove k j [] = refl
includes-remove k j (i ∷ q) =
    ground (arith, includes-remove k j q, text_eq_iff i j, text_eq_iff i k, text_eq_iff j k)

pub is_distinct-remove :
    (k : Text) (q : List Text) → is_distinct q ≡ true → is_distinct (remove_pending_key k q) ≡ true
unfolding is_distinct remove_pending_key
is_distinct-remove k [] d = refl
is_distinct-remove k (j ∷ q) d = ground (arith, is_distinct-remove k q, includes-remove j k q)

-- What the search leaves was in the queue.
pub includes-take :
    (k prefix : Text) (tasks : Dict TaskRecord) (q : List Text)
    → includes k (take_runnable prefix tasks q).1 ≡ true
    → includes k q ≡ true
unfolding take_runnable includes
includes-take k prefix tasks [] h = h
includes-take k prefix tasks (j ∷ q) h = ground (arith, includes-take k prefix tasks q)

pub is_distinct-take :
    (prefix : Text) (tasks : Dict TaskRecord) (q : List Text)
    → is_distinct q ≡ true
    → is_distinct (take_runnable prefix tasks q).1 ≡ true
unfolding take_runnable is_distinct
is_distinct-take prefix tasks [] d = refl
is_distinct-take prefix tasks (j ∷ q) d =
    ground (arith, is_distinct-take prefix tasks q, includes-take j prefix tasks q)

-- The key that the search finds is one of the queue, and is gone from what it leaves.
pub take_runnable_found :
    (prefix : Text) (tasks : Dict TaskRecord) (q : List Text) (k : Text) (t : TaskRecord)
    → is_distinct q ≡ true
    → (take_runnable prefix tasks q).0 ≡ some (k, t)
    → (includes k q ≡ true)
      × (includes k (take_runnable prefix tasks q).1 ≡ false)
      × (lookup k tasks ≡ some t)
      × (is_runnable t.state ≡ true)
      × (starts_with prefix k ≡ true)
unfolding take_runnable is_distinct includes
take_runnable_found prefix tasks [] k t d e = ground arith
take_runnable_found prefix tasks (j ∷ q) k t d e =
    ground (arith, take_runnable_found prefix tasks q k t, text_eq_refl k, text_eq_iff j k)
