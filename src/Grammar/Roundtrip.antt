-- ===== src/Grammar/Roundtrip.antt =====
-- interval_parse of src/parser/interval.cpp reads what interval_write writes.
use Prim.Native.String.{String}
use stats_rrdb.Prelude.{
  ℕ, ◌*◌, ◌%◌, ◌^◌, ◌<◌, ◌≡◌, refl, ap, ◌∙◌, Option, none, some, List, [], ◌∷◌, ◌++◌, arith,
}
use stats_rrdb.Prelude.Result.{Result, ok, err, fault, ◌>>=◌}
use stats_rrdb.Text.{str, nat, codes}
use stats_rrdb.Interval.{interval_year, interval_write}
use stats_rrdb.Grammar.{
  Rule, Spirit, units, interval_words, interval_unit_rule, interval_rule, parsed, interval_parse,
}
use stats_rrdb.Interval.Units.{
  Word, a_sec, a_secs, a_min, a_mins, a_hour, a_hours, a_day, a_days, a_week, a_weeks, a_month,
  a_months, a_year, a_years, Spelled, interval_write-Spelled,
}
use stats_rrdb.Grammar.Behaviour.{
  skip_space, strip, Stream, shown, acted, expected, or_else, IsSpirit,
}

-- What may come behind an interval: nothing, a space or a comma.
pub data Ends : List ℕ → Type 0 where
  at_end : Ends []
  at_space : (s : List ℕ) → Ends (32 ∷ s)
  at_comma : (s : List ℕ) → Ends (44 ∷ s)

-- The alternatives in order.
abbrev pub pick :
    List (String × ℕ) → List ℕ → Result (Option (ℕ × List ℕ)) → Result (Option (ℕ × List ℕ))
pick [] s last = last
pick ((name, unit) ∷ us) s last = elim (strip (codes name) (skip_space s)) [
  | none ↦ pick us s last
  | some (t, rest) ↦ ok (some (unit, rest))
]

picked :
    (unit : ℕ) (second : Result (Option (ℕ × List ℕ))) (found : Option (Unit {0} × List ℕ))
    → or_else (acted (λ t. unit) (ok found)) second
      ≡ elim found as (λ f. Result (Option (ℕ × List ℕ))) [
        | none ↦ second
        | some (t, rest) ↦ ok (some (unit, rest))
      ]
picked unit second none = refl
picked unit second (some (t, rest)) = refl

fits : (v u n : ℕ) → v * u ≡ n → n < 2 ^ 32 → (v * u) % 2 ^ 32 ≡ n
fits v u n exact small = rw exact (omega arith)

-- The first alternative that fits the written name is the one that means its unit.
abbrev Picks : String → ℕ → List ℕ → Type 0
Picks name unit rest =
    pick interval_words (32 ∷ codes name ++ rest) (
      acted (λ t. interval_year) (ok (strip (codes "year") (skip_space (32 ∷ codes name ++ rest)))))
    ≡ ok (some (unit, rest))

on_ends :
    (P : List ℕ → Type 0) {rest : List ℕ}
    → P []
    → ((s : List ℕ) → P (32 ∷ s))
    → ((s : List ℕ) → P (44 ∷ s))
    → Ends rest
    → P rest
on_ends P here space comma at_end = here
on_ends P here space comma (at_space s) = space s
on_ends P here space comma (at_comma s) = comma s

pick-Word :
    {name : String} {unit : ℕ} {rest : List ℕ} → Word name unit → Ends rest → Picks name unit rest
pick-Word a_sec e = on_ends (Picks "sec" 1) refl (λ s. refl) (λ s. refl) e
pick-Word a_secs e = on_ends (Picks "secs" 1) refl (λ s. refl) (λ s. refl) e
pick-Word a_min e = on_ends (Picks "min" 60) refl (λ s. refl) (λ s. refl) e
pick-Word a_mins e = on_ends (Picks "mins" 60) refl (λ s. refl) (λ s. refl) e
pick-Word a_hour e = on_ends (Picks "hour" 3600) refl (λ s. refl) (λ s. refl) e
pick-Word a_hours e = on_ends (Picks "hours" 3600) refl (λ s. refl) (λ s. refl) e
pick-Word a_day e = on_ends (Picks "day" 86400) refl (λ s. refl) (λ s. refl) e
pick-Word a_days e = on_ends (Picks "days" 86400) refl (λ s. refl) (λ s. refl) e
pick-Word a_week e = on_ends (Picks "week" 604800) refl (λ s. refl) (λ s. refl) e
pick-Word a_weeks e = on_ends (Picks "weeks" 604800) refl (λ s. refl) (λ s. refl) e
pick-Word a_month e = on_ends (Picks "month" 2592000) refl (λ s. refl) (λ s. refl) e
pick-Word a_months e = on_ends (Picks "months" 2592000) refl (λ s. refl) (λ s. refl) e
pick-Word a_year e = on_ends (Picks "year" 31536000) refl (λ s. refl) (λ s. refl) e
pick-Word a_years e = on_ends (Picks "years" 31536000) refl (λ s. refl) (λ s. refl) e

module _ {W : Type 0} (q : Spirit) (st : Stream W) (laws : IsSpirit q st) where
  pub units-pick :
      (us : List (String × ℕ)) (last : Rule ℕ) (s : List ℕ) → units q us last s ≡ pick us s (last s)
  unfolding units
  units-pick [] last s = refl
  units-pick ((name, unit) ∷ us) last s =
      laws.alternative_law (q.action (q.nocaselit name) (λ t. unit)) (units q us last) s
      ∙ rw
          (
            laws.action_law (q.nocaselit name) (λ t. unit) s,
            laws.nocaselit_law name s,
            units-pick us last s,
          )
          (picked unit (pick us s (last s)) (strip (codes name) (skip_space s)))

  pub expects :
      {A B : Type 0} (p : Rule A) (r : A → Rule B) (s : List ℕ) {mid : List ℕ} {a : A}
      {b : B × List ℕ}
      → p s ≡ ok (some (a, mid))
      → r a mid ≡ ok (some b)
      → q.expect p r s ≡ ok (some b)
  expects p r s first second = laws.expect_law p r s ∙ rw (first, expected, second) refl

  pub acts :
      {A B : Type 0} (p : Rule A) (f : A → B) (s : List ℕ) {a : A} {rest : List ℕ}
      → p s ≡ ok (some (a, rest))
      → q.action p f s ≡ ok (some (f a, rest))
  acts p f s h = laws.action_law p f s ∙ ap (acted f) h

  reads_unit :
      {name : String} {unit : ℕ} {rest : List ℕ}
      → Word name unit
      → Ends rest
      → interval_unit_rule q (32 ∷ codes name ++ rest) ≡ ok (some (unit, rest))
  unfolding interval_unit_rule
  reads_unit {name} {unit} {rest} w e =
      let s = 32 ∷ codes name ++ rest in
      units-pick interval_words (q.action (q.nocaselit "year") (λ t. interval_year)) s
      ∙ ap (pick interval_words s) (
          laws.action_law (q.nocaselit "year") (λ t. interval_year) s
          ∙ ap (acted (λ t. interval_year)) (laws.nocaselit_law "year" s))
      ∙ pick-Word w e

  -- After a written interval nothing, a space or a comma may come.
  pub interval_rule-Spelled :
      {n : ℕ} (w : Spelled W n) (s rest : List ℕ)
      → n < 2 ^ 32
      → skip_space s ≡ st.print_nat w.value ++ (32 ∷ codes w.name ++ rest)
      → Ends rest
      → interval_rule q s ≡ ok (some (n, rest))
  unfolding interval_rule
  interval_rule-Spelled {n} w s rest small here e =
      expects q.eps
        (λ t. q.expect q.uint_ λ m. q.action (interval_unit_rule q) λ u. (m * u) % 2 ^ 32) s
        (laws.eps_law s)
        (expects q.uint_ (λ m. q.action (interval_unit_rule q) λ u. (m * u) % 2 ^ 32) (skip_space s)
          (laws.uint_law w.value (skip_space s) (32 ∷ codes w.name ++ rest)
            (ap skip_space here ∙ laws.print_law w.value (32 ∷ codes w.name ++ rest))
            (omega (arith, w.less)) refl)
          (acts (interval_unit_rule q) (λ u. (w.value * u) % 2 ^ 32) (32 ∷ codes w.name ++ rest)
              (reads_unit w.word e)
            ∙ ap (λ m. ok (some (m, rest))) (fits w.value w.unit n w.exact small)))

  pub reads_whole :
      {A : Type 0} (p : Rule A) (s : List ℕ) (initial : Result A) {a : A}
      → p s ≡ ok (some (a, []))
      → (do r ← q.phrase_parse p s; parsed q initial r) ≡ ok a
  unfolding parsed
  reads_whole p s initial h = rw (laws.phrase_law p s, h) refl

  -- Where Boost.Spirit and the stream do what they document, every interval of 32 bits is written, and
  -- interval_parse reads it back from what is written.
  pub interval_parse-interval_write :
      (n : ℕ) → n < 2 ^ 32 → (do cs ← interval_write n; interval_parse q (shown st cs)) ≡ ok n
  unfolding interval_parse parsed
  interval_parse-interval_write n small =
      let w = interval_write-Spelled {W = W} n in
      let cs = nat w.value ∷ str " " ∷ str w.name ∷ [] in
      rw w.text (
        reads_whole (interval_rule q) (shown st cs) (err fault) (
          interval_rule-Spelled w (shown st cs) [] small
            (laws.print_law w.value (32 ∷ codes w.name ++ [])) at_end))
