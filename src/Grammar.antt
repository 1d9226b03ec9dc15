-- ===== src/Grammar.antt =====
-- The grammars of src/parser/grammar.h, src/parser/interval_grammar.h,
-- src/parser/memory_size_grammar.h and src/parser/retention_policy_grammar.h, and the name in
-- src/parser/statements_grammar.h, on the parsers and operators of Boost.Spirit, which are a record of
-- operations, with interval_parse, memory_size_parse, retention_policy_parse and
-- statement_check_metric_name of src/parser. A text is the list of its characters.
pub mod Behaviour
pub mod Roundtrip
pub mod Policies
pub mod Memory
pub mod Name
use Prim.Native.String.{String}
use stats_rrdb.Prelude.{
  ℕ, ◌*◌, ◌%◌, ◌^◌, Bool, length, ◌==◌, if◌then◌else◌, Option, none, some, List, [], ◌∷◌,
}
use stats_rrdb.Prelude.Result.{Result, ok, err, fault, parser_error, ◌>>=◌, ◌>>◌}
use stats_rrdb.Interval.{
  interval_sec, interval_min, interval_hour, interval_day, interval_week, interval_month,
  interval_year, memory_byte, memory_kilobyte, memory_megabyte, memory_gigabyte,
}
use stats_rrdb.Policy.{PolicyElem, validate}

-- A rule with the skipper ascii::space: `none` if it fails, else its attribute and what is left of the
-- text; an error is an exception.
abbrev pub Rule : Type 0 → Type 0
Rule A = List ℕ → Result (Option (A × List ℕ))

-- What the grammars use of Boost.Spirit. `p > q` and `p >> q` give q the attribute of p, which its
-- semantic action may read; a failure of q in `p > q` is an exception, by grammar_error_handler.
pub record Spirit : Type 1 where
  pub uint_ : Rule ℕ
  pub eps : Rule (Unit {0})
  -- ascii::no_case[qi::lit(keyword)]
  pub nocaselit : String → Rule (Unit {0})
  -- `p[action]`
  pub action : {A B : Type 0} → Rule A → (A → B) → Rule B
  -- `p | q`
  pub alternative : {A : Type 0} → Rule A → Rule A → Rule A
  -- `p > q`
  pub expect : {A B : Type 0} → Rule A → (A → Rule B) → Rule B
  -- `p >> q`
  pub sequence : {A B : Type 0} → Rule A → (A → Rule B) → Rule B
  -- `*p`
  pub kleene : {A : Type 0} → Rule A → Rule (List A)
  -- `+p`
  pub plus : {A : Type 0} → Rule A → Rule (List A)
  -- qi::char_ with a set of characters
  pub char_ : String → Rule ℕ
  -- phrase_parse: the attribute if the rule has succeeded, and what is left of the text.
  pub phrase_parse : {A : Type 0} → Rule A → List ℕ → Result (Option A × List ℕ)

-- The alternatives of interval_grammar but for the last.
abbrev pub interval_words : List (String × ℕ)
interval_words =
    ("secs", interval_sec)
    ∷ ("sec", interval_sec)
    ∷ ("mins", interval_min)
    ∷ ("min", interval_min)
    ∷ ("hours", interval_hour)
    ∷ ("hour", interval_hour)
    ∷ ("days", interval_day)
    ∷ ("day", interval_day)
    ∷ ("weeks", interval_week)
    ∷ ("week", interval_week)
    ∷ ("months", interval_month)
    ∷ ("month", interval_month)
    ∷ ("years", interval_year)
    ∷ []

-- The alternatives of memory_size_grammar but for the last.
abbrev pub memory_size_words : List (String × ℕ)
memory_size_words =
    ("bytes", memory_byte)
    ∷ ("byte", memory_byte)
    ∷ ("B", memory_byte)
    ∷ ("KB", memory_kilobyte)
    ∷ ("MB", memory_megabyte)
    ∷ ("GB", memory_gigabyte)
    ∷ []

module _ (q : Spirit) where
  -- `nocaselit(name) [ qi::_val = unit ] | ... | last`
  pub units : List (String × ℕ) → Rule ℕ → Rule ℕ
  units [] last = last
  units ((name, unit) ∷ us) last =
      q.alternative (q.action (q.nocaselit name) (λ t. unit)) (units us last)

  -- interval_grammar
  pub interval_unit_rule : Rule ℕ
  unfolding units
  interval_unit_rule = units interval_words (q.action (q.nocaselit "year") (λ t. interval_year))

  pub interval_rule : Rule ℕ
  unfolding interval_unit_rule
  interval_rule =
      q.expect q.eps λ t. q.expect q.uint_ λ n. q.action interval_unit_rule λ u. (n * u) % 2 ^ 32

  -- memory_size_grammar
  pub memory_size_unit_rule : Rule ℕ
  unfolding units
  memory_size_unit_rule = units memory_size_words (q.action q.eps (λ t. memory_byte))

  pub memory_size_rule : Rule ℕ
  unfolding memory_size_unit_rule
  memory_size_rule =
      q.expect q.eps λ t. q.expect q.uint_ λ n. q.action memory_size_unit_rule λ u. (n * u) % 2 ^ 64

  -- t_retention_policy_grammar
  pub elem_rule : Rule PolicyElem
  unfolding interval_rule
  elem_rule = q.expect interval_rule λ f.
      q.expect (q.nocaselit "for")
        λ t. q.action interval_rule λ d. record { freq = f; duration = d }

  pub policy_rule : Rule (List PolicyElem)
  unfolding elem_rule
  policy_rule = q.expect q.eps λ t.
      q.sequence elem_rule
        λ e. q.action (q.kleene (q.expect (q.nocaselit ",") λ c. elem_rule)) λ es. e ∷ es

  -- metric_name_grammar
  pub metric_name_rule : Bool → Rule (List ℕ)
  metric_name_rule enable_upper_case =
      if enable_upper_case then q.plus (q.char_ "a-zA-Z0-9._-") else q.plus (q.char_ "a-z0-9._-")

  -- statement_check_metric_name, which looks only at what is left of the text.
  pub statement_check_metric_name : List ℕ → Bool → Result Bool
  unfolding metric_name_rule
  statement_check_metric_name s allow_upper_case = do
    r ← q.phrase_parse (metric_name_rule allow_upper_case) s
    ok (length r.1 == 0)

  -- What the parsers do behind phrase_parse, whose answer they do not look at: what it leaves is an
  -- error, and `initial` is what the result holds where the rule has failed.
  pub parsed : {A : Type 0} → Result A → Option A × List ℕ → Result A
  parsed initial (result, c ∷ cs) = err parser_error
  parsed initial (none, []) = initial
  parsed initial (some a, []) = ok a

  -- `my::interval_t ret` has no value before the rule gives it one.
  pub interval_parse : List ℕ → Result ℕ
  unfolding interval_rule parsed
  interval_parse s = do r ← q.phrase_parse interval_rule s; parsed (err fault) r

  pub memory_size_parse : List ℕ → Result ℕ
  unfolding memory_size_rule parsed
  memory_size_parse s = do r ← q.phrase_parse memory_size_rule s; parsed (err fault) r

  pub retention_policy_parse : List ℕ → Result (List PolicyElem)
  unfolding policy_rule parsed
  retention_policy_parse s = do
    r ← q.phrase_parse policy_rule s
    policy ← parsed (ok []) r
    validate policy
    ok policy
