-- ===== src/Interval/Units.antt =====
-- What is written by src/parser/interval.cpp and src/parser/memory_size.cpp determines the number.
use Prim.Native.String.{String}
use text.Mathlib.Text.{◌==◌ as ◌==ₛ◌}
use stats_rrdb.Prelude.{
  ℕ, true, ==_iff, ◌-◌, suc, ◌*◌, ◌/◌, ◌%◌, ◌≡◌, ◌≤◌, refl, ◌⊎◌, inl, inr, Option, some, none, List,
  [], ◌∷◌, ltb, ◌==◌, if◌then◌else◌, arith, Bool-cases,
}
use stats_rrdb.Prelude.Result.{Result, ok}
use stats_rrdb.Text.{Chunk, str, nat}
use stats_rrdb.Interval.{
  interval_min, interval_hour, interval_day, interval_week, interval_month, interval_year,
  interval_get_name, interval_unit, interval_write,
}

-- What a unit's name means, in seconds.
pub interval_meaning : String → Option ℕ
interval_meaning s =
    if s ==ₛ "sec"
    then some 1
    else if s ==ₛ "secs"
    then some 1
    else if s ==ₛ "min"
    then some 60
    else if s ==ₛ "mins"
    then some 60
    else if s ==ₛ "hour"
    then some 3600
    else if s ==ₛ "hours"
    then some 3600
    else if s ==ₛ "day"
    then some 86400
    else if s ==ₛ "days"
    then some 86400
    else if s ==ₛ "week"
    then some 604800
    else if s ==ₛ "weeks"
    then some 604800
    else if s ==ₛ "month"
    then some 2592000
    else if s ==ₛ "months"
    then some 2592000
    else if s ==ₛ "year"
    then some 31536000
    else if s ==ₛ "years"
    then some 31536000
    else none

-- The names of the units.
pub data Word : String → ℕ → Type 0 where
  a_sec : Word "sec" 1
  a_secs : Word "secs" 1
  a_min : Word "min" 60
  a_mins : Word "mins" 60
  a_hour : Word "hour" 3600
  a_hours : Word "hours" 3600
  a_day : Word "day" 86400
  a_days : Word "days" 86400
  a_week : Word "week" 604800
  a_weeks : Word "weeks" 604800
  a_month : Word "month" 2592000
  a_months : Word "months" 2592000
  a_year : Word "year" 31536000
  a_years : Word "years" 31536000

pub Word-meaning : {s : String} {u : ℕ} → Word s u → interval_meaning s ≡ some u
unfolding interval_meaning
Word-meaning a_sec = refl
Word-meaning a_secs = refl
Word-meaning a_min = refl
Word-meaning a_mins = refl
Word-meaning a_hour = refl
Word-meaning a_hours = refl
Word-meaning a_day = refl
Word-meaning a_days = refl
Word-meaning a_week = refl
Word-meaning a_weeks = refl
Word-meaning a_month = refl
Word-meaning a_months = refl
Word-meaning a_year = refl
Word-meaning a_years = refl

-- The text is a number and a name that means a unit, and together they are n.
pub record Means {W : Type 0} (meaning : String → Option ℕ) (n : ℕ) (r : Result (List (Chunk W)))
    : Type 0 where
  pub value : ℕ
  pub unit : ℕ
  pub name : String
  pub text : (r ≡ ok (nat value ∷ str " " ∷ str name ∷ [])) ⊎ (r ≡ ok (nat value ∷ str name ∷ []))
  pub means : meaning name ≡ some unit
  pub exact : value * unit ≡ n

whole_of : (a b : ℕ) → (a % suc b == 0) ≡ true → a / suc b * suc b ≡ a
whole_of a b h = grind (arith, (==_iff (a % suc b) 0).0 h)

pub data UnitTaken (n : ℕ) : Type 0 where
  takes :
      (unit : ℕ) (many one : String)
      → Word many unit
      → Word one unit
      → n / unit * unit ≡ n
      → n / unit ≤ n
      → interval_unit n ≡ unit
      → ((v : ℕ) → interval_get_name unit v ≡ ok (if ltb 1 v then many else one))
      → UnitTaken n

pub unit_taken : (n : ℕ) → UnitTaken n
unfolding interval_unit interval_get_name
unit_taken n = elim (Bool-cases (n % interval_year == 0)) [
  | inl is_year ↦
      takes 31536000 "years" "year" a_years a_year (whole_of n (31536000 - 1) is_year) (omega arith)
        (rw (is_year)) (λ v. refl)
  | inr no_year ↦ elim (Bool-cases (n % interval_month == 0)) [
    | inl is_month ↦
        takes 2592000 "months" "month" a_months a_month (whole_of n (2592000 - 1) is_month)
          (omega arith) (rw (no_year, is_month)) (λ v. refl)
    | inr no_month ↦ elim (Bool-cases (n % interval_week == 0)) [
      | inl is_week ↦
          takes 604800 "weeks" "week" a_weeks a_week (whole_of n (604800 - 1) is_week) (omega arith)
            (rw (no_year, no_month, is_week)) (λ v. refl)
      | inr no_week ↦ elim (Bool-cases (n % interval_day == 0)) [
        | inl is_day ↦
            takes 86400 "days" "day" a_days a_day (whole_of n (86400 - 1) is_day) (omega arith)
              (rw (no_year, no_month, no_week, is_day)) (λ v. refl)
        | inr no_day ↦ elim (Bool-cases (n % interval_hour == 0)) [
          | inl is_hour ↦
              takes 3600 "hours" "hour" a_hours a_hour (whole_of n (3600 - 1) is_hour) (omega arith)
                (rw (no_year, no_month, no_week, no_day, is_hour)) (λ v. refl)
          | inr no_hour ↦ elim (Bool-cases (n % interval_min == 0)) [
            | inl is_min ↦
                takes 60 "mins" "min" a_mins a_min (whole_of n (60 - 1) is_min) (omega arith)
                  (rw (no_year, no_month, no_week, no_day, no_hour, is_min)) (λ v. refl)
            | inr no_min ↦
                takes 1 "secs" "sec" a_secs a_sec (omega arith) (omega arith)
                  (rw (no_year, no_month, no_week, no_day, no_hour, no_min)) (λ v. refl)
          ]
        ]
      ]
    ]
  ]
]

-- The text is a number and the name of a unit, and together they are n.
pub record Spelled (W : Type 0) (n : ℕ) : Type 0 where
  pub value : ℕ
  pub unit : ℕ
  pub name : String
  pub text : interval_write {W = W} n ≡ ok (nat value ∷ str " " ∷ str name ∷ [])
  pub word : Word name unit
  pub exact : value * unit ≡ n
  pub less : value ≤ n

pub interval_write-Spelled : {W : Type 0} (n : ℕ) → Spelled W n
unfolding interval_write
interval_write-Spelled n = elim (unit_taken n) [
  | takes unit many one hm ho whole less taken name ↦ elim (Bool-cases (ltb 1 (n / unit))) [
    | inl more ↦ record {
      value = n / unit;
      unit = unit;
      name = many;
      text = rw (taken, name (n / unit), more);
      word = hm;
      exact = whole;
      less = less;
    }
    | inr single ↦ record {
      value = n / unit;
      unit = unit;
      name = one;
      text = rw (taken, name (n / unit), single);
      word = ho;
      exact = whole;
      less = less;
    }
  ]
]

-- Every interval is written, as a number and the name of a unit whose product is the interval.
pub interval_write-Means :
    {W : Type 0} (n : ℕ) → Means {W = W} interval_meaning n (interval_write n)
interval_write-Means {W} n =
    let s = interval_write-Spelled {W = W} n in
    record {
      value = s.value;
      unit = s.unit;
      name = s.name;
      text = inl s.text;
      means = Word-meaning s.word;
      exact = s.exact;
    }
