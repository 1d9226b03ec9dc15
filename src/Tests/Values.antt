-- ===== src/Tests/Values.antt =====
-- Tuples and strings on small inputs.
use stats_rrdb.Prelude.{
  ℕ, ◌+◌, ◌%◌, ◌^◌, ◌<◌, ◌≤◌, ◌≡◌, refl, inl, List, [], ◌∷◌, ◌++◌, length, arith,
}
use stats_rrdb.Prelude.Int.{pos}
use stats_rrdb.Prelude.Result.{ok}
use stats_rrdb.Value.{nat_value, nat-IsOrdered}
use stats_rrdb.Tuple.{Tuple, update_tuple}
use stats_rrdb.Tuple.Bounds.{Covers, update_tuple-Covers}
use stats_rrdb.PaddedString.{reset, get_file_size, write, read}
use stats_rrdb.PaddedString.Laws.{length-reset, read-write}

abbrev two_values : Tuple ℕ
two_values = record { ts = pos 10; count = 2; sum = 8; sum_sqr = 34; min = 3; max = 5 }

abbrev one_value : Tuple ℕ
one_value = record { ts = pos 10; count = 1; sum = 9; sum_sqr = 81; min = 9; max = 9 }

covers : Covers two_values 4
covers = record { above_min = refl; below_max = refl }

update_tuple-Covers_example : Covers (update_tuple two_values one_value) 4
update_tuple-Covers_example =
    update_tuple-Covers nat-IsOrdered two_values one_value 4 refl refl refl (inl covers)

abbrev text : List ℕ
text = 99 ∷ 112 ∷ 117 ∷ []

length-reset_example :
    let n = length (reset text).buf in (n % 8 ≡ 0) × (length text < n) × (n ≤ length text + 8)
length-reset_example = length-reset text

text_fits : length (reset text).buf < 2 ^ 16
text_fits = omega (arith, length-reset text)

read-write_example :
    (bytes : List ℕ) × (write (reset text) ≡ ok (bytes, get_file_size (reset text)))
    × (length bytes ≡ get_file_size (reset text))
    × (read (bytes ++ 1 ∷ 2 ∷ []) ≡ ok (reset text, 1 ∷ 2 ∷ []))
read-write_example = read-write text (1 ∷ 2 ∷ []) text_fits
