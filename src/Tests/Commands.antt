-- ===== src/Tests/Commands.antt =====
-- A datagram of src/parser/statements.cpp.
use Prim.Native.Char.{Char, code}
use Prim.Native.String.{String}
use text.Mathlib.Text.{◌==◌ as ◌==ₛ◌}
use stats_rrdb.Prelude.{ℕ, ◌≡◌, ◌↔◌, refl, inl, none, List, [], ◌∷◌, ◌==◌, if◌then◌else◌}
use stats_rrdb.Prelude.Int.{ℤ}
use stats_rrdb.Prelude.Result.{Result, ok, err, bad_command}
use stats_rrdb.Policy.{PolicyElem}
use stats_rrdb.Statement.{update, statement_update_parse}
use stats_rrdb.Statement.Commands.{Reads, reads_update, statement_update_parse_iff}

abbrev to_front : Char → List String → List String
to_front c [] = []
to_front c (w ∷ ws) = String.◌∷◌ c w ∷ ws

-- A split at each bar.
abbrev split_bars : String → List String
split_bars String.[] = "" ∷ []
split_bars (String.◌∷◌ c s) = if code c == 124 then "" ∷ split_bars s else to_front c (split_bars s)

abbrev cast_five : String → Result ℕ
cast_five s = if s ==ₛ "5" then ok 5 else err bad_command

abbrev cast_never : String → Result ℤ
cast_never s = err bad_command

abbrev parse_nothing : String → Result (List PolicyElem)
parse_nothing s = err bad_command

statement_update_parse_iff_example :
    (statement_update_parse split_bars cast_five cast_never parse_nothing "u|cpu|5"
      ≡ ok (update "cpu" 5 none))
    ↔ Reads split_bars cast_five cast_never parse_nothing
        (split_bars "u|cpu|5")
        (update "cpu" 5 none)
statement_update_parse_iff_example =
    statement_update_parse_iff split_bars cast_five cast_never parse_nothing "u|cpu|5"
      (update "cpu" 5 none)

update_read :
    statement_update_parse split_bars cast_five cast_never parse_nothing "u|cpu|5"
    ≡ ok (update "cpu" 5 none)
update_read =
    (statement_update_parse_iff split_bars cast_five cast_never parse_nothing "u|cpu|5"
        (update "cpu" 5 none)).1
      (reads_update "u" "cpu" "5" 5 (inl refl) refl)
