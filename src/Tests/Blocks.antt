-- ===== src/Tests/Blocks.antt =====
-- The blocks of src/rrdb/rrdb_metric_block.cpp on a block of three slots of ten seconds.
use stats_rrdb.Prelude.{ℕ, suc, ◌≡◌, refl, List, some, arith}
use stats_rrdb.Prelude.Int.{pos}
use stats_rrdb.Prelude.Result.{ok, err, io}
use stats_rrdb.Value.{nat_value}
use stats_rrdb.Tuple.{Tuple, zero_tuple, new_tuples}
use stats_rrdb.Block.{Block, Header, UpdateCtx, stop, single, get_ts, new_header}
use stats_rrdb.Block.Find.{find_tuple}
use stats_rrdb.Block.Find.Ages.{IsRing}
use stats_rrdb.Block.Find.Spec.{Finds}
use stats_rrdb.Block.Find.Total.{find_tuple-Finds}
use stats_rrdb.Block.New.{new-IsRing}
use stats_rrdb.Block.Update
use stats_rrdb.Block.Update.{get_tuples}
use stats_rrdb.Block.Update.Laws.{Updates}
use stats_rrdb.Block.Update.Total.{update-Updates}
use stats_rrdb.Block.Select
use stats_rrdb.Block.Select.{Walker}
use stats_rrdb.Block.Select.Laws.{select-selected, selected, aged, append_all}

abbrev header : Header
header = new_header 10 3 88

abbrev tuples : List (Tuple ℕ)
tuples = new_tuples 3

abbrev block : Block ℕ
block = record { header = header; modified = some tuples }

ring : IsRing header tuples
ring = new-IsRing 10 3 88 (omega arith) (omega arith) (omega arith)

block_tuples : get_tuples block (err io) ≡ ok tuples
unfolding get_tuples
block_tuples = refl

abbrev input : UpdateCtx ℕ
input = record { state = single; ts = pos 25; value = 7; tuple = zero_tuple }

abbrev output : UpdateCtx ℕ
output = record { state = stop; ts = pos 0; value = 0; tuple = zero_tuple }

input_ts : get_ts input ≡ ok (pos 25)
unfolding get_ts
input_ts = refl

find_tuple-Finds_example :
    Finds header tuples input output (pos 25) (find_tuple header tuples input output)
find_tuple-Finds_example = find_tuple-Finds ring input output (pos 25) input_ts

update-Updates_example :
    Updates header tuples input output (pos 25) (Update.update block (err io) input output)
update-Updates_example =
    update-Updates block (err io) input output (pos 25) block_tuples ring input_ts

-- A walker that counts the slots it is given.
abbrev counter : Walker ℕ ℕ
counter = record { append = λ n t freq. ok (suc n); flush = λ n. ok n }

select-selected_example :
    Select.select counter block (err io) (pos 12) (pos 40) 0
    ≡ append_all counter 10 0 (selected 10 (pos 12) (pos 40) (aged header tuples 3 0))
unfolding new_header
select-selected_example =
    select-selected block (err io) (pos 12) (pos 40) counter 0 block_tuples ring (omega arith)
