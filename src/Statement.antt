-- ===== src/Statement.antt =====
-- src/parser/statements.h, and statement_update_parse of src/parser/statements.cpp: the commands that
-- come over UDP. The split at each `|` and lexical_cast are Boost's, and the retention policy's
-- grammar too: they are parameters.
pub mod Commands
use Prim.Native.String.{String}
use text.Mathlib.Text.{◌==◌ as ◌==ₛ◌}
use stats_rrdb.Prelude.{ℕ, ◌||◌, Option, none, some, List, [], ◌∷◌, if◌then◌else◌}
use stats_rrdb.Prelude.Int.{ℤ}
use stats_rrdb.Prelude.Result.{Result, ok, err, bad_command, ◌>>=◌}
use stats_rrdb.Policy.{PolicyElem}
use stats_rrdb.Tuple.Output.{Extractor}

pub record SelectStatement (W : Type 0) : Type 0 where
  pub result : List (Extractor W)
  pub name : String
  pub ts_begin : ℤ
  pub ts_end : ℤ
  pub group_by : Option ℕ

-- t_statement. statement_update_parse makes the first three alternatives.
pub data Statement (W : Type 0) : Type 0 where
  update : String → W → Option ℤ → Statement W
  create : String → Option (List PolicyElem) → Statement W
  drop : String → Statement W
  select : SelectStatement W → Statement W
  show_policy : String → Statement W
  show_metrics : Option String → Statement W
  show_status : Option String → Statement W

module _ {W : Type 0} (split : String → List String) (cast_value : String → Result W)
    (cast_ts : String → Result ℤ) (parse_policy : String → Result (List PolicyElem)) where
  -- u|<name>|<value>|<timestamp>
  pub parse_update : List String → Result (Statement W)
  parse_update (name ∷ value ∷ []) = do v ← cast_value value; ok (update name v none)
  parse_update (name ∷ value ∷ ts ∷ []) = do
    v ← cast_value value
    t ← cast_ts ts
    ok (update name v (some t))
  parse_update _ = err bad_command

  -- c|<name>|<retention policy>
  pub parse_create : List String → Result (Statement W)
  parse_create (name ∷ policy ∷ []) = do p ← parse_policy policy; ok (create name (some p))
  parse_create _ = err bad_command

  -- d|<name>
  pub parse_drop : List String → Result (Statement W)
  parse_drop (name ∷ []) = ok (drop name)
  parse_drop _ = err bad_command

  pub parse_command : List String → Result (Statement W)
  unfolding parse_update parse_create parse_drop
  parse_command [] = err bad_command
  parse_command (cmd ∷ data') =
      if (cmd ==ₛ "u") || (cmd ==ₛ "U")
      then parse_update data'
      else if (cmd ==ₛ "c") || (cmd ==ₛ "C")
      then parse_create data'
      else if (cmd ==ₛ "d") || (cmd ==ₛ "D")
      then parse_drop data'
      else err bad_command

  pub statement_update_parse : String → Result (Statement W)
  unfolding parse_command
  statement_update_parse s = parse_command (split s)
