-- ===== src/Grammar/Behaviour.antt =====
-- What the grammars rely on: the documented behaviour of the parsers of Boost.Spirit, and of a stream
-- that writes an unsigned number.
use Prim.Native.String.{String}
use stats_rrdb.Prelude.{
  ℕ, ◌+◌, ◌^◌, ◌<◌, ◌≡◌, Bool, false, ◌&&◌, ◌||◌, Option, none, some, List, [], ◌∷◌, ◌++◌, length,
  leb, ◌==◌, if◌then◌else◌,
}
use stats_rrdb.Prelude.Int.{ℤ}
use stats_rrdb.Prelude.Result.{Result, ok, err, parser_error}
use stats_rrdb.Text.{Chunk, str, num, int, nat, text, codes}
use stats_rrdb.Grammar.{Rule, Spirit}

-- ascii::space
abbrev pub is_space : ℕ → Bool
is_space c = (c == 32) || (leb 9 c && leb c 13)

abbrev pub skip_space : List ℕ → List ℕ
skip_space [] = []
skip_space (c ∷ s) = let rest = skip_space s in if is_space c then rest else c ∷ s

abbrev pub is_digit : ℕ → Bool
is_digit c = leb 48 c && leb c 57

abbrev pub starts_digit : List ℕ → Bool
starts_digit [] = false
starts_digit (c ∷ s) = is_digit c

abbrev pub lower : ℕ → ℕ
lower c = if leb 65 c && leb c 90 then c + 32 else c

-- What is left behind a keyword, in either case.
abbrev pub strip : List ℕ → List ℕ → Option (Unit {0} × List ℕ)
strip [] s = some (tt, s)
strip (k ∷ ks) [] = none
strip (k ∷ ks) (c ∷ s) = let rest = strip ks s in if lower k == lower c then rest else none

module _ {A B : Type 0} where
  abbrev pub acted : (A → B) → Result (Option (A × List ℕ)) → Result (Option (B × List ℕ))
  acted f (err e) = err e
  acted f (ok none) = ok none
  acted f (ok (some (a, s))) = ok (some (f a, s))

  abbrev pub expected : (A → Rule B) → Result (Option (A × List ℕ)) → Result (Option (B × List ℕ))
  expected q (err e) = err e
  expected q (ok none) = ok none
  expected q (ok (some (a, s))) = elim (q a s) [
    | err e ↦ err e
    | ok none ↦ err parser_error
    | ok (some r) ↦ ok (some r)
  ]

  abbrev pub followed : (A → Rule B) → Result (Option (A × List ℕ)) → Result (Option (B × List ℕ))
  followed q (err e) = err e
  followed q (ok none) = ok none
  followed q (ok (some (a, s))) = q a s

module _ {A : Type 0} where
  abbrev pub or_else :
      Result (Option (A × List ℕ)) → Result (Option (A × List ℕ)) → Result (Option (A × List ℕ))
  or_else (err e) second = err e
  or_else (ok none) second = second
  or_else (ok (some r)) second = ok (some r)

  abbrev pub post_skipped : List ℕ → Result (Option (A × List ℕ)) → Result (Option A × List ℕ)
  post_skipped s (err e) = err e
  post_skipped s (ok none) = ok (none, s)
  post_skipped s (ok (some (a, rest))) = ok (some a, skip_space rest)

-- A character of the set "a-z0-9._-", or of "a-zA-Z0-9._-".
abbrev pub is_name_char : Bool → ℕ → Bool
is_name_char upper c =
    (leb 97 c && leb c 122)
    || ((upper && (leb 65 c && leb c 90))
        || (is_digit c || ((c == 46) || ((c == 95) || (c == 45)))))

abbrev pub one_of : (ℕ → Bool) → List ℕ → Option (ℕ × List ℕ)
one_of fits [] = none
one_of fits (c ∷ s) = if fits c then some (c, s) else none

-- What a stream writes for a number.
pub record Stream (W : Type 0) : Type 0 where
  pub print_nat : ℕ → List ℕ
  pub print_int : ℤ → List ℕ
  pub print_num : W → List ℕ

abbrev pub shown : {W : Type 0} → Stream W → List (Chunk W) → List ℕ
shown st [] = []
shown st (str s ∷ cs) = codes s ++ shown st cs
shown st (num x ∷ cs) = st.print_num x ++ shown st cs
shown st (int i ∷ cs) = st.print_int i ++ shown st cs
shown st (nat n ∷ cs) = st.print_nat n ++ shown st cs
shown st (text t ∷ cs) = t ++ shown st cs

pub record IsSpirit {W : Type 0} (q : Spirit) (st : Stream W) : Type 1 where
  -- A written number has no space in front.
  pub print_law :
      (n : ℕ) (rest : List ℕ) → skip_space (st.print_nat n ++ rest) ≡ st.print_nat n ++ rest
  -- An unsigned number of 32 bits is read as it was written, to where its digits end.
  pub uint_law :
      (n : ℕ) (s rest : List ℕ)
      → skip_space s ≡ st.print_nat n ++ rest
      → n < 2 ^ 32
      → starts_digit rest ≡ false
      → q.uint_ s ≡ ok (some (n, rest))
  pub eps_law : (s : List ℕ) → q.eps s ≡ ok (some (tt, skip_space s))
  pub nocaselit_law :
      (k : String) (s : List ℕ) → q.nocaselit k s ≡ ok (strip (codes k) (skip_space s))
  pub action_law :
      {A B : Type 0} (p : Rule A) (f : A → B) (s : List ℕ) → q.action p f s ≡ acted f (p s)
  pub alternative_law :
      {A : Type 0} (p r : Rule A) (s : List ℕ) → q.alternative p r s ≡ or_else (p s) (r s)
  pub expect_law :
      {A B : Type 0} (p : Rule A) (r : A → Rule B) (s : List ℕ) → q.expect p r s ≡ expected r (p s)
  pub sequence_law :
      {A B : Type 0} (p : Rule A) (r : A → Rule B) (s : List ℕ)
      → q.sequence p r s ≡ followed r (p s)
  pub kleene_end :
      {A : Type 0} (p : Rule A) (s : List ℕ) → p s ≡ ok none → q.kleene p s ≡ ok (some ([], s))
  pub kleene_more :
      {A : Type 0} (p : Rule A) (s rest : List ℕ) (a : A)
      → p s ≡ ok (some (a, rest))
      → length rest < length s
      → q.kleene p s ≡ acted (λ more. a ∷ more) (q.kleene p rest)
  pub plus_law :
      {A : Type 0} (p : Rule A) (s : List ℕ)
      → q.plus p s ≡ followed (λ a rest. acted (λ more. a ∷ more) (q.kleene p rest)) (p s)
  pub char_law :
      (upper : Bool) (s : List ℕ)
      → q.char_ (if upper then "a-zA-Z0-9._-" else "a-z0-9._-") s
        ≡ ok (one_of (is_name_char upper) (skip_space s))
  pub phrase_law :
      {A : Type 0} (p : Rule A) (s : List ℕ) → q.phrase_parse p s ≡ post_skipped s (p s)
