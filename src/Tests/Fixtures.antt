-- ===== src/Tests/Fixtures.antt =====
-- A metric with six slots of ten seconds and three slots of a minute.
use stats_rrdb.Prelude.{ℕ, refl, List, [], ◌∷◌, some, arith}
use stats_rrdb.Prelude.Int.{pos}
use stats_rrdb.Prelude.Result.{err, io}
use stats_rrdb.Value.{nat_value}
use stats_rrdb.Tuple.{new_tuples}
use stats_rrdb.Block.{new_header}
use stats_rrdb.Block.New.{new-IsRing}
use stats_rrdb.Block.Update.{get_tuples}
use stats_rrdb.PaddedString.{reset}
use stats_rrdb.Metric.{Metric, Cell}
use stats_rrdb.Metric.Sound.{IsSound, IsMetric}

-- "cpu"
abbrev pub cpu : List ℕ
cpu = 99 ∷ 112 ∷ 117 ∷ []

abbrev pub fine : Cell ℕ
fine = record {
  block = record { header = new_header 10 6 40; modified = some (new_tuples 6) };
  fetched = err io;
}

abbrev pub coarse : Cell ℕ
coarse = record {
  block = record { header = new_header 60 3 384; modified = some (new_tuples 3) };
  fetched = err io;
}

abbrev pub metric : Metric ℕ
metric = record {
  magic = 0xDB99;
  version = 1;
  status = 1;
  blocks_size = 2;
  last_value = 0;
  last_value_ts = pos 0;
  name = reset cpu;
  filename = cpu;
  blocks = fine ∷ coarse ∷ [];
}

fine-IsSound : IsSound fine
unfolding get_tuples
fine-IsSound = record {
  tuples = new_tuples 6;
  got = refl;
  ring = new-IsRing 10 6 40 (omega arith) (omega arith) (omega arith);
}

coarse-IsSound : IsSound coarse
unfolding get_tuples
coarse-IsSound = record {
  tuples = new_tuples 3;
  got = refl;
  ring = new-IsRing 60 3 384 (omega arith) (omega arith) (omega arith);
}

pub metric-IsMetric : IsMetric metric
unfolding reset
metric-IsMetric = record {
  named = omega arith;
  has_blocks = omega arith;
  counted = refl;
  sound = (fine-IsSound, (coarse-IsSound, tt));
}
