-- ===== src/Common.antt =====
-- src/common/types.h: timestamps and intervals.
use stats_rrdb.Prelude.{◌≡◌, ◌↔◌, if◌then◌else◌, arith}
use stats_rrdb.Prelude.Int.{ℤ, pos, negsuc, ◌≤ℤ◌, ◌<ℤ◌, ltb_ℤ, leb_ℤ}

-- -1 if the first interval is earlier, 1 if it is later, 0 if they overlap.
unfoldable pub interval_overlap : ℤ → ℤ → ℤ → ℤ → ℤ
interval_overlap ts1_b ts1_e ts2_b ts2_e =
    if leb_ℤ ts1_e ts2_b then negsuc 0 else if leb_ℤ ts2_e ts1_b then pos 1 else pos 0

-- t is in both [ts1_b, ts1_e) and [ts2_b, ts2_e).
pub record IsShared (ts1_b ts1_e ts2_b ts2_e t : ℤ) : Type 0 where
  pub in_first : (ts1_b ≤ℤ t) × (t <ℤ ts1_e)
  pub in_second : (ts2_b ≤ℤ t) × (t <ℤ ts2_e)

pub overlap_point : ℤ → ℤ → ℤ
overlap_point a b = if ltb_ℤ a b then b else a

-- For two nonempty intervals the answer 0 means exactly that they share a moment.
pub interval_overlap-IsShared :
    (a b c d : ℤ)
    → a <ℤ b
    → c <ℤ d
    → (interval_overlap a b c d ≡ pos 0) ↔ ((t : ℤ) × IsShared a b c d t)
unfolding interval_overlap overlap_point
interval_overlap-IsShared a b c d h k =
    (λ e. (overlap_point a c, ground arith), λ s. let (t, m) = s in ground arith)
