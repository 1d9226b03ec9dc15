-- ===== src/Tests/Grammars.antt =====
-- The grammars of src/parser on parsers that do what Boost.Spirit documents, with decimal numbers.
use stats_rrdb.Prelude.{
  Bool, leb, ◌||◌, ℕ, zero, suc, ◌<◌, ◌≤◌, ◌≡◌, refl, ap, inl, inr, Bool-cases, true, false, ◌&&◌,
  Option, none, some, List, [], ◌∷◌, ◌++◌, length, ltb, ◌==◌, lt→ltb, if◌then◌else◌, arith,
}
use stats_rrdb.Prelude.Result.{Result, ok, err, fault, ◌>>=◌}
use stats_rrdb.Policy.{PolicyElem}
use stats_rrdb.Policy.Laws.{validate_iff}
use stats_rrdb.Interval.{
  interval_write, memory_size_unit, memory_size_write, retention_policy_write,
}
use stats_rrdb.Grammar.{
  Rule, Spirit, interval_parse, memory_size_parse, statement_check_metric_name,
  retention_policy_parse,
}
use stats_rrdb.Grammar.Behaviour.{
  skip_space, strip, acted, expected, followed, or_else, post_skipped, is_name_char, one_of, Stream,
  shown, IsSpirit,
}
use stats_rrdb.Grammar.Roundtrip.{interval_parse-interval_write}
use stats_rrdb.Grammar.Policies.{retention_policy_parse-retention_policy_write}
use stats_rrdb.Grammar.Memory.{memory_size_parse-memory_size_write}
use stats_rrdb.Grammar.Name.{accepted, statement_check_metric_name_lem}
use stats_rrdb.Text.{codes}
use stats_rrdb.Tests.Decimals.{decimal, starts-decimal, skip_digit, read_uint, read_uint-decimal}

module _ {A : Type 0} where
  -- A round that does not move on would be made again and again.
  round :
      (List ℕ → Result (Option (List A × List ℕ)))
      → List ℕ
      → Result (Option (A × List ℕ))
      → Result (Option (List A × List ℕ))
  round next s (err e) = err e
  round next s (ok none) = ok (some ([], s))
  round next s (ok (some (a, rest))) =
      if ltb (length rest) (length s) then acted (λ more. a ∷ more) (next rest) else err fault

  rounds : ℕ → Rule A → Rule (List A)
  unfolding round
  rounds zero p s = round (λ rest. err fault) s (p s)
  rounds (suc f) p s = round (rounds f p) s (p s)

  round_same :
      (next other : List ℕ → Result (Option (List A × List ℕ))) (s : List ℕ)
      (r : Result (Option (A × List ℕ)))
      → ((rest : List ℕ) → length rest < length s → next rest ≡ other rest)
      → round next s r ≡ round other s r
  unfolding round
  round_same next other s (err e) h = refl
  round_same next other s (ok none) h = refl
  round_same next other s (ok (some (a, rest))) h =
      elim (Bool-cases (ltb (length rest) (length s))) [
        | inl less ↦ rw less (ap (acted (λ more. a ∷ more)) (h rest (ground arith)))
        | inr more ↦ rw more refl
      ]

  enough_rounds :
      (f g : ℕ) (p : Rule A) (s : List ℕ)
      → length s ≤ f
      → length s ≤ g
      → rounds f p s ≡ rounds g p s
  unfolding rounds
  enough_rounds zero zero p s hf hg = refl
  enough_rounds zero (suc g) p s hf hg =
      round_same (λ rest. err fault) (rounds g p) s (p s) (λ rest less. absurd (omega arith))
  enough_rounds (suc f) zero p s hf hg =
      round_same (rounds f p) (λ rest. err fault) s (p s) (λ rest less. absurd (omega arith))
  enough_rounds (suc f) (suc g) p s hf hg =
      round_same (rounds f p) (rounds g p) s (p s)
        (λ rest less. enough_rounds f g p rest (omega arith) (omega arith))

  rounds_end :
      (p : Rule A) (s : List ℕ) → p s ≡ ok none → rounds (suc (length s)) p s ≡ ok (some ([], s))
  unfolding rounds round
  rounds_end p s h = rw (rounds, h) refl

  rounds_more :
      (p : Rule A) (s rest : List ℕ) (a : A)
      → p s ≡ ok (some (a, rest))
      → length rest < length s
      → rounds (suc (length s)) p s ≡ acted (λ more. a ∷ more) (rounds (suc (length rest)) p rest)
  unfolding rounds round
  rounds_more p s rest a h less =
      rw (h, round, lt→ltb (length rest) (length s) less)
        (ap (acted (λ more. a ∷ more))
          (enough_rounds (length s) (suc (length rest)) p rest (omega arith) (omega arith)))

-- A set of characters as qi::char_ reads it: `a-z` is a range, and what is in no range stands for itself.
in_set : List ℕ → ℕ → Bool
in_set [] c = false
in_set (a ∷ []) c = c == a
in_set (a ∷ b ∷ []) c = (c == a) || (c == b)
in_set (a ∷ b ∷ d ∷ set) c =
    let behind = in_set set c in
    let next = in_set (b ∷ d ∷ set) c in
    if b == 45 then (leb a c && leb c d) || behind else (c == a) || next

in_set-is_name_char :
    (upper : Bool) (c : ℕ)
    → in_set (codes (if upper then "a-zA-Z0-9._-" else "a-z0-9._-")) c ≡ is_name_char upper c
unfolding in_set
in_set-is_name_char true c = refl
in_set-is_name_char false c = refl

one_of-is_name_char :
    (upper : Bool) (s : List ℕ)
    → one_of (in_set (codes (if upper then "a-zA-Z0-9._-" else "a-z0-9._-"))) s
      ≡ one_of (is_name_char upper) s
one_of-is_name_char upper [] = refl
one_of-is_name_char upper (c ∷ s) = rw (in_set-is_name_char upper c) refl

abbrev spirit : Spirit
spirit = record {
  uint_ = read_uint;
  eps = λ s. ok (some (tt, skip_space s));
  nocaselit = λ k s. ok (strip (codes k) (skip_space s));
  action = λ p f s. acted f (p s);
  alternative = λ p r s. or_else (p s) (r s);
  expect = λ p r s. expected r (p s);
  sequence = λ p r s. followed r (p s);
  kleene = λ p s. rounds (suc (length s)) p s;
  plus = λ p s.
      followed (λ a rest. acted (λ more. a ∷ more) (rounds (suc (length rest)) p rest)) (p s);
  char_ = λ set s. ok (one_of (in_set (codes set)) (skip_space s));
  phrase_parse = λ p s. post_skipped s (p s);
}

abbrev stream : Stream ℕ
stream = record { print_nat = decimal; print_int = λ i. []; print_num = decimal }

spirit-IsSpirit : IsSpirit spirit stream
spirit-IsSpirit = record {
  print_law = λ n rest. skip_digit (decimal n ++ rest) (starts-decimal n rest);
  uint_law = read_uint-decimal;
  eps_law = λ s. refl;
  nocaselit_law = λ k s. refl;
  action_law = λ p f s. refl;
  alternative_law = λ p r s. refl;
  expect_law = λ p r s. refl;
  sequence_law = λ p r s. refl;
  kleene_end = rounds_end;
  kleene_more = rounds_more;
  plus_law = λ p s. refl;
  char_law = λ upper s. ap ok (one_of-is_name_char upper (skip_space s));
  phrase_law = λ p s. refl;
}

interval_parse-interval_write_example :
    (do cs ← interval_write 5400; interval_parse spirit (shown stream cs)) ≡ ok 5400
interval_parse-interval_write_example =
    interval_parse-interval_write spirit stream spirit-IsSpirit 5400 (omega arith)

memory_size_parse-memory_size_write_example :
    (do cs ← memory_size_write 5242880; memory_size_parse spirit (shown stream cs)) ≡ ok 5242880
unfolding memory_size_unit
memory_size_parse-memory_size_write_example =
    memory_size_parse-memory_size_write spirit stream spirit-IsSpirit 5242880 (omega arith)
      (omega arith)

abbrev fine : PolicyElem
fine = record { freq = 1; duration = 120 }

abbrev coarse : PolicyElem
coarse = record { freq = 60; duration = 86400 }

retention_policy_parse-retention_policy_write_example :
    (do
      cs ← retention_policy_write (fine ∷ coarse ∷ [])
      retention_policy_parse spirit (shown stream cs))
    ≡ ok (fine ∷ coarse ∷ [])
retention_policy_parse-retention_policy_write_example =
    retention_policy_parse-retention_policy_write spirit stream spirit-IsSpirit fine (coarse ∷ [])
      ((omega arith, omega arith), ((omega arith, omega arith), tt))
      ((validate_iff (fine ∷ coarse ∷ [])).1
        ((omega arith, refl), tt, ((omega arith, refl), (omega arith, refl, omega arith), tt)))

-- "cpu load", with a space in it, is accepted.
statement_check_metric_name_lem_example :
    statement_check_metric_name spirit (codes "cpu load") false
    ≡ ok (accepted false (codes "cpu load"))
statement_check_metric_name_lem_example =
    statement_check_metric_name_lem spirit stream spirit-IsSpirit (codes "cpu load") false
