-- ===== src/Tests/Caches.antt =====
-- The caches on small inputs.
use stats_rrdb.Prelude.{ℕ, suc, ◌≤◌, ◌<◌, refl, List, [], ◌∷◌, length, arith}
use stats_rrdb.Prelude.Int.{pos}
use stats_rrdb.Value.{nat_value}
use stats_rrdb.Tuple.{Tuple, new_tuples}
use stats_rrdb.Cache.{Entry}
use stats_rrdb.Prelude.Result.{Result, ok}
use stats_rrdb.Cache.Files.{FilesCache, Step, insert_stream, find_stream, set_max_size, steps}
use stats_rrdb.Cache.Files.Steps.{Within, steps-Within}
use stats_rrdb.Cache.Files.Open.{Opened, open_file-Opened}
use stats_rrdb.Cache.Tuples.{TuplesCache, insert, purge, run}
use stats_rrdb.Cache.Tuples.Account.{total, IsAccounted}
use stats_rrdb.Cache.Tuples.Purge.{Purged, purge-Purged}
use stats_rrdb.Cache.Tuples.Run.{Ran, run-Ran}

-- The index by time begins with the entry that was inserted first.
abbrev last_of : List (Entry ℕ (List (Tuple ℕ))) → ℕ
last_of [] = 0
last_of (e ∷ es) = length es

in_range : (es : List (Entry ℕ (List (Tuple ℕ)))) → 0 < length es → last_of es < length es
in_range [] h = absurd (omega arith)
in_range (e ∷ es) h = omega arith

abbrev whole : ℕ → ℕ
whole n = n

abbrev entry : ℕ → Entry ℕ (List (Tuple ℕ))
entry k = record { key = k; value = new_tuples 2; time = pos k }

abbrev cache : TuplesCache ℕ
cache = record {
  lru = record { entries = entry 2 ∷ entry 1 ∷ []; size = 2; hits = 0; misses = 0 };
  max_used_memory = 150;
  used_memory = 192;
}

accounted : IsAccounted cache
unfolding total
accounted = record { used = refl; size = refl; fits = omega arith }

purge-Purged_example : Purged whole last_of in_range cache 150 (purge whole last_of cache)
purge-Purged_example = purge-Purged whole last_of in_range cache accounted

run-Ran_example :
    Ran whole last_of in_range (run whole last_of (insert 3 (new_tuples 1) (pos 3)) cache)
run-Ran_example =
    run-Ran whole last_of in_range (insert 3 (new_tuples 1) (pos 3)) cache accounted
      (omega arith, omega arith)

-- Streams and the disk are numbers here; opening a file counts on.
abbrev oldest_open : List (Entry (List ℕ) ℕ) → ℕ
oldest_open [] = 0
oldest_open (e ∷ es) = length es

open_in_range : (es : List (Entry (List ℕ) ℕ)) → 0 < length es → oldest_open es < length es
open_in_range [] h = absurd (omega arith)
open_in_range (e ∷ es) h = omega arith

whole_below : (n : ℕ) → whole n ≤ n
whole_below n = omega arith

abbrev two_files : FilesCache ℕ
two_files = record {
  lru = record {
    entries =
        record { key = 98 ∷ []; value = 2; time = pos 2 }
        ∷ record { key = 97 ∷ []; value = 1; time = pos 1 }
        ∷ [];
    size = 2;
    hits = 0;
    misses = 0;
  };
  path = 47 ∷ [];
  max_size = 2;
}

two_files-Within : Within 3 two_files
two_files-Within = record {
  size = refl;
  files = omega arith;
  limit = omega arith;
  some_limit = omega arith;
}

abbrev three_steps : List (Step ℕ)
three_steps =
    insert_stream (99 ∷ []) 3 (pos 3) ∷ set_max_size 3 ∷ find_stream (99 ∷ []) (pos 4) ∷ []

steps-Within_example : Within 3 (steps whole oldest_open three_steps two_files)
steps-Within_example =
    steps-Within whole oldest_open whole_below open_in_range 3 three_steps two_files
      two_files-Within (tt, (omega arith, (tt, tt)))

abbrev open_next : List ℕ → ℕ → Result (ℕ × ℕ)
open_next path disk = ok (disk, suc disk)

abbrev close_it : ℕ → ℕ → Result ℕ
close_it fs disk = ok disk

abbrev remove_it : List ℕ → ℕ → Result ℕ
remove_it path disk = ok disk

open_file-Opened_example :
    Opened whole oldest_open open_in_range open_next close_it remove_it two_files
      (99 ∷ [])
      (pos 3)
      7
      7
      8
open_file-Opened_example =
    open_file-Opened whole oldest_open open_in_range open_next close_it remove_it two_files
      (99 ∷ []) (pos 3) 7 7 8 refl refl
