-- ===== src/Interval.antt =====
-- interval_write and interval_get_name of src/parser/interval.cpp, memory_size_write and
-- memory_size_get_name of src/parser/memory_size.cpp, retention_policy_write of
-- src/parser/retention_policy.cpp. What is written is a number and a unit's name.
pub mod Units
pub mod Memory
use Prim.Native.String.{String}
use stats_rrdb.Prelude.{ℕ, suc, ◌*◌, ◌/◌, ◌%◌, Bool, List, [], ◌∷◌, ◌++◌, ltb, ◌==◌, if◌then◌else◌}
use stats_rrdb.Prelude.Result.{Result, ok, err, bad_unit, ◌>>=◌}
use stats_rrdb.Text.{Chunk, str, nat}
use stats_rrdb.Policy.{PolicyElem}

abbrev pub interval_sec : ℕ
interval_sec = 1

abbrev pub interval_min : ℕ
interval_min = 60

abbrev pub interval_hour : ℕ
interval_hour = 3600

abbrev pub interval_day : ℕ
interval_day = 86400

abbrev pub interval_week : ℕ
interval_week = 604800

abbrev pub interval_month : ℕ
interval_month = 2592000

abbrev pub interval_year : ℕ
interval_year = 31536000

-- `(val > 1) ? plural : singular`
abbrev pub number_of : ℕ → String → String → String
number_of val many one = if ltb 1 val then many else one

pub interval_get_name : ℕ → ℕ → Result String
interval_get_name unit val =
    if unit == interval_sec
    then ok (number_of val "secs" "sec")
    else if unit == interval_min
    then ok (number_of val "mins" "min")
    else if unit == interval_hour
    then ok (number_of val "hours" "hour")
    else if unit == interval_day
    then ok (number_of val "days" "day")
    else if unit == interval_week
    then ok (number_of val "weeks" "week")
    else if unit == interval_month
    then ok (number_of val "months" "month")
    else if unit == interval_year
    then ok (number_of val "years" "year")
    else err bad_unit

-- The unit that the chain of tests in interval_write takes.
pub interval_unit : ℕ → ℕ
interval_unit interval =
    if interval % interval_year == 0
    then interval_year
    else if interval % interval_month == 0
    then interval_month
    else if interval % interval_week == 0
    then interval_week
    else if interval % interval_day == 0
    then interval_day
    else if interval % interval_hour == 0
    then interval_hour
    else if interval % interval_min == 0
    then interval_min
    else interval_sec

pub interval_write : {W : Type 0} → ℕ → Result (List (Chunk W))
unfolding interval_get_name interval_unit
interval_write interval = do
  let v = interval / interval_unit interval
  name ← interval_get_name (interval_unit interval) v
  ok (nat v ∷ str " " ∷ str name ∷ [])

-- The loop of retention_policy_write; `count` is the number of elements written before.
unfoldable pub write_elems : {W : Type 0} → ℕ → List PolicyElem → Result (List (Chunk W))
unfolding interval_write
write_elems count [] = ok []
write_elems count (e ∷ es) = do
  freq ← interval_write e.freq
  duration ← interval_write e.duration
  rest ← write_elems (suc count) es
  ok ((if ltb 0 count then str ", " ∷ [] else []) ++ freq ++ str " for " ∷ duration ++ rest)

unfoldable pub retention_policy_write : {W : Type 0} → List PolicyElem → Result (List (Chunk W))
unfolding write_elems
retention_policy_write p = write_elems 0 p

abbrev pub memory_byte : ℕ
memory_byte = 1

abbrev pub memory_kilobyte : ℕ
memory_kilobyte = 1024

abbrev pub memory_megabyte : ℕ
memory_megabyte = 1048576

abbrev pub memory_gigabyte : ℕ
memory_gigabyte = 1073741824

pub memory_size_get_name : ℕ → ℕ → Result String
memory_size_get_name unit val =
    if unit == memory_byte
    then ok (number_of val "bytes" "byte")
    else if unit == memory_kilobyte
    then ok (number_of val "KB" "KB")
    else if unit == memory_megabyte
    then ok (number_of val "MB" "MB")
    else if unit == memory_gigabyte
    then ok (number_of val "GB" "GB")
    else err bad_unit

unfoldable pub memory_size_unit : ℕ → ℕ
memory_size_unit memory_size =
    if memory_size % memory_gigabyte == 0
    then memory_gigabyte
    else if memory_size % memory_megabyte == 0
    then memory_megabyte
    else if memory_size % memory_kilobyte == 0
    then memory_kilobyte
    else memory_byte

-- The space before the name is written for bytes only.
pub memory_size_write : {W : Type 0} → ℕ → Result (List (Chunk W))
unfolding memory_size_get_name memory_size_unit
memory_size_write memory_size = do
  let unit = memory_size_unit memory_size
  let v = memory_size / unit
  name ← memory_size_get_name unit v
  ok (if unit == memory_byte then nat v ∷ str " " ∷ str name ∷ [] else nat v ∷ str name ∷ [])
