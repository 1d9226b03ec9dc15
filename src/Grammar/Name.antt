-- ===== src/Grammar/Name.antt =====
-- Which names statement_check_metric_name of src/parser/statements.cpp accepts.
use stats_rrdb.Prelude.{
  ℕ, zero, suc, ◌<◌, ◌≤◌, ◌≡◌, refl, sym, ap, ◌∙◌, inl, inr, Bool, Bool-cases, true, false, ◌&&◌,
  ◌||◌, none, some, List, [], ◌∷◌, length, ◌==◌, if◌then◌else◌, arith,
}
use stats_rrdb.Prelude.Result.{ok, ◌>>=◌}
use stats_rrdb.Grammar.{Rule, Spirit, metric_name_rule, statement_check_metric_name}
use stats_rrdb.Grammar.Behaviour.{
  is_space, skip_space, Stream, acted, is_name_char, one_of, IsSpirit,
}

abbrev pub all_of : (ℕ → Bool) → List ℕ → Bool
all_of fits [] = true
all_of fits (c ∷ s) = fits c && all_of fits s

abbrev pub some_of : (ℕ → Bool) → List ℕ → Bool
some_of fits [] = false
some_of fits (c ∷ s) = fits c || some_of fits s

-- Nothing, or characters of the set with spaces anywhere.
abbrev pub accepted : Bool → List ℕ → Bool
accepted upper s =
    (length s == 0)
    || (some_of (is_name_char upper) s && all_of (λ c. is_name_char upper c || is_space c) s)

or_false : (b : Bool) → b ≡ (b || false)
or_false true = refl
or_false false = refl

or_none : (b a : Bool) → b ≡ (b || (a && false))
or_none true a = refl
or_none false true = refl
or_none false false = refl

long_not_empty : (t s : List ℕ) → length t < length s → (length s == 0) ≡ false
long_not_empty t [] less = absurd (omega arith)
long_not_empty t (c ∷ s) less = ground arith

-- What comes behind the spaces.
data Skipped (upper : Bool) (s : List ℕ) : Type 0 where
  nothing :
      skip_space s ≡ []
      → some_of (is_name_char upper) s ≡ false
      → all_of (λ c. is_name_char upper c || is_space c) s ≡ true
      → Skipped upper s
  fitting :
      (c : ℕ) (t : List ℕ)
      → skip_space s ≡ c ∷ t
      → is_name_char upper c ≡ true
      → length t < length s
      → some_of (is_name_char upper) s ≡ true
      → all_of (λ c. is_name_char upper c || is_space c) s
        ≡ all_of (λ c. is_name_char upper c || is_space c) t
      → Skipped upper s
  other :
      (c : ℕ) (t : List ℕ)
      → skip_space s ≡ c ∷ t
      → is_name_char upper c ≡ false
      → all_of (λ c. is_name_char upper c || is_space c) s ≡ false
      → Skipped upper s

space_no_name : (upper : Bool) (c : ℕ) → is_space c ≡ true → is_name_char upper c ≡ false
space_no_name upper c h = ground arith

cons-Skipped :
    (upper : Bool) (c : ℕ) (s : List ℕ)
    → is_space c ≡ true
    → is_name_char upper c ≡ false
    → Skipped upper s
    → Skipped upper (c ∷ s)
cons-Skipped upper c s sp nm (nothing h some_h all_h) =
    nothing (rw sp h) (rw nm some_h) (rw (nm, sp) all_h)
cons-Skipped upper c s sp nm (fitting d t h fits less some_h all_h) =
    fitting d t (rw sp h) fits (omega arith) (rw nm some_h) (rw (nm, sp) all_h)
cons-Skipped upper c s sp nm (other d t h unfit all_h) =
    other d t (rw sp h) unfit (rw (nm, sp) all_h)

skip_space-Skipped : (upper : Bool) (s : List ℕ) → Skipped upper s
skip_space-Skipped upper [] = nothing refl refl refl
skip_space-Skipped upper (c ∷ s) = elim (Bool-cases (is_space c)) [
  | inl sp ↦ cons-Skipped upper c s sp (space_no_name upper c sp) (skip_space-Skipped upper s)
  | inr ns ↦ elim (Bool-cases (is_name_char upper c)) [
    | inl nm ↦ fitting c s (rw ns refl) nm (omega arith) (rw nm refl) (rw nm refl)
    | inr unfit ↦ other c s (rw ns refl) unfit (rw (unfit, ns) refl)
  ]
]

module _ {W : Type 0} (q : Spirit) (st : Stream W) (laws : IsSpirit q st) where
  abbrev name_char : Bool → Rule ℕ
  name_char upper = q.char_ (if upper then "a-zA-Z0-9._-" else "a-z0-9._-")

  metric_name_rule-plus : (upper : Bool) → metric_name_rule q upper ≡ q.plus (name_char upper)
  unfolding metric_name_rule
  metric_name_rule-plus true = refl
  metric_name_rule-plus false = refl

  -- The loop stops where only spaces are left exactly if nothing else is in the text.
  record Eaten (upper : Bool) (s : List ℕ) : Type 0 where
    name : List ℕ
    rest : List ℕ
    eaten : q.kleene (name_char upper) s ≡ ok (some (name, rest))
    left : (length (skip_space rest) == 0) ≡ all_of (λ c. is_name_char upper c || is_space c) s

  taken_char :
      (upper : Bool) (s t : List ℕ) (c : ℕ)
      → skip_space s ≡ c ∷ t
      → is_name_char upper c ≡ true
      → name_char upper s ≡ ok (some (c, t))
  taken_char upper s t c h fits = laws.char_law upper s ∙ rw (h, fits) refl

  unfit_char :
      (upper : Bool) (s : List ℕ)
      → one_of (is_name_char upper) (skip_space s) ≡ none
      → q.kleene (name_char upper) s ≡ ok (some ([], s))
  unfit_char upper s h = laws.kleene_end (name_char upper) s (laws.char_law upper s ∙ ap ok h)

  step-Eaten :
      (upper : Bool) (s : List ℕ)
      → ((t : List ℕ) → length t < length s → Eaten upper t)
      → Skipped upper s
      → Eaten upper s
  step-Eaten upper s further (nothing h some_h all_h) = record {
    name = [];
    rest = s;
    eaten = unfit_char upper s (rw h refl);
    left = rw (h, all_h) refl;
  }
  step-Eaten upper s further (other c t h unfit all_h) = record {
    name = [];
    rest = s;
    eaten = unfit_char upper s (rw (h, unfit) refl);
    left = rw (h, all_h) (ground arith);
  }
  step-Eaten upper s further (fitting c t h fits less some_h all_h) =
      let e = further t less in
      record {
        name = c ∷ e.name;
        rest = e.rest;
        eaten =
            laws.kleene_more (name_char upper) s t c (taken_char upper s t c h fits) less
            ∙ ap (acted (λ more. c ∷ more)) e.eaten;
        left = e.left ∙ sym all_h;
      }

  kleene-Eaten : (f : ℕ) (upper : Bool) (s : List ℕ) → length s ≤ f → Eaten upper s
  kleene-Eaten zero upper s enough =
      step-Eaten upper s (λ t less. absurd (omega arith)) (skip_space-Skipped upper s)
  kleene-Eaten (suc f) upper s enough =
      step-Eaten upper s (λ t less. kleene-Eaten f upper t (omega arith))
        (skip_space-Skipped upper s)

  checked :
      (upper : Bool) (s : List ℕ)
      → Skipped upper s
      → (do r ← q.phrase_parse (q.plus (name_char upper)) s; ok (length r.1 == 0))
        ≡ ok (accepted upper s)
  checked upper s (nothing h some_h all_h) =
      rw
        (
          laws.phrase_law (q.plus (name_char upper)) s,
          laws.plus_law (name_char upper) s,
          laws.char_law upper s,
          h,
          some_h,
        )
        (ap ok (or_false (length s == 0)))
  checked upper s (other c t h unfit all_h) =
      rw
        (
          laws.phrase_law (q.plus (name_char upper)) s,
          laws.plus_law (name_char upper) s,
          laws.char_law upper s,
          h,
          unfit,
          all_h,
        )
        (ap ok (or_none (length s == 0) (some_of (is_name_char upper) s)))
  checked upper s (fitting c t h fits less some_h all_h) =
      let e = kleene-Eaten (length t) upper t (omega arith) in
      rw
        (
          laws.phrase_law (q.plus (name_char upper)) s,
          laws.plus_law (name_char upper) s,
          taken_char upper s t c h fits,
          e.eaten,
          e.left,
          long_not_empty t s less,
          some_h,
          all_h,
        )
        refl

  -- Where Boost.Spirit does what it documents, statement_check_metric_name returns, and accepts the empty
  -- name and exactly those that have a character of its set and otherwise only such and spaces;
  -- a digit, a point, a dash or an underscore may come first, as any character of the set may.
  pub statement_check_metric_name_lem :
      (s : List ℕ) (allow_upper_case : Bool)
      → statement_check_metric_name q s allow_upper_case ≡ ok (accepted allow_upper_case s)
  unfolding statement_check_metric_name
  statement_check_metric_name_lem s upper =
      rw (metric_name_rule-plus upper) (checked upper s (skip_space-Skipped upper s))
