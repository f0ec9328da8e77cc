-- ===== src/Base/Amounts.antt =====
-- A number that a caller gives, by its floor.
use Prim.Native.Nat.{ℕ}

pub data Amount : Type 0 where
  floor_of : ℕ → Amount
  below_zero not_finite : Amount
