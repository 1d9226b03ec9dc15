-- ===== src/Tests/Decimals.antt =====
-- Unsigned numbers as a stream of the standard library writes them and qi::uint_ reads them.
use stats_rrdb.Prelude.{
  ℕ, zero, suc, ◌+◌, ◌-◌, ◌*◌, ◌/◌, ◌%◌, ◌^◌, ◌<◌, ◌≤◌, ◌≡◌, refl, ap, ◌∙◌, true, false, ◌&&◌, none,
  some, List, [], ◌∷◌, ◌++◌, ltb, ◌==◌, lt→ltb, if◌then◌else◌, arith,
}
use stats_rrdb.Prelude.Result.{ok}
use stats_rrdb.Grammar.{Rule}
use stats_rrdb.Grammar.Behaviour.{skip_space, is_digit, starts_digit}

-- Decimal digits in front of a text.
emit : ℕ → ℕ → List ℕ → List ℕ
emit zero n out = out
emit (suc f) n out =
    let rest = emit f (n / 10) ((48 + n % 10) ∷ out) in if n == 0 then out else rest

pub decimal : ℕ → List ℕ
unfolding emit
decimal zero = 48 ∷ []
decimal (suc n) = emit n (suc n / 10) ((48 + suc n % 10) ∷ [])

scan : List ℕ → ℕ → ℕ × List ℕ
scan [] n = (n, [])
scan (c ∷ s) n = let rest = scan s (n * 10 + (c - 48)) in if is_digit c then rest else (n, c ∷ s)

scan_last : (n : ℕ) (out : List ℕ) → scan ((48 + n % 10) ∷ out) (n / 10) ≡ scan out n
unfolding scan
scan_last n out = ground arith

scan-emit : (f n : ℕ) (out : List ℕ) → n ≤ f → scan (emit f n out) 0 ≡ scan out n
unfolding emit
scan-emit zero n out h = ground arith
scan-emit (suc f) n out h =
    ground (arith, scan-emit f (n / 10) ((48 + n % 10) ∷ out), scan_last n out)

scan_end : (n : ℕ) (rest : List ℕ) → starts_digit rest ≡ false → scan rest n ≡ (n, rest)
unfolding scan
scan_end n [] h = refl
scan_end n (c ∷ s) h = rw h refl

starts-emit :
    (f n : ℕ) (out : List ℕ) → starts_digit out ≡ true → starts_digit (emit f n out) ≡ true
unfolding emit
starts-emit zero n out h = h
starts-emit (suc f) n out h = ground (arith, starts-emit f (n / 10) ((48 + n % 10) ∷ out))

emit-append : (f n : ℕ) (out rest : List ℕ) → emit f n out ++ rest ≡ emit f n (out ++ rest)
unfolding emit
emit-append zero n out rest = refl
emit-append (suc f) n out rest = ground (arith, emit-append f (n / 10) ((48 + n % 10) ∷ out) rest)

pub skip_digit : (s : List ℕ) → starts_digit s ≡ true → skip_space s ≡ s
skip_digit [] h = refl
skip_digit (c ∷ s) h = ground arith

pub starts-decimal : (n : ℕ) (rest : List ℕ) → starts_digit (decimal n ++ rest) ≡ true
unfolding decimal
starts-decimal zero rest = refl
starts-decimal (suc n) rest =
    rw (emit-append n (suc n / 10) ((48 + suc n % 10) ∷ []) rest)
      (starts-emit n (suc n / 10) ((48 + suc n % 10) ∷ rest) (ground arith))

scan-decimal :
    (n : ℕ) (rest : List ℕ) → starts_digit rest ≡ false → scan (decimal n ++ rest) 0 ≡ (n, rest)
unfolding decimal scan
scan-decimal zero rest h = scan_end 0 rest h
scan-decimal (suc n) rest h =
    ap (λ t. scan t 0) (emit-append n (suc n / 10) ((48 + suc n % 10) ∷ []) rest)
    ∙ scan-emit n (suc n / 10) ((48 + suc n % 10) ∷ rest) (omega arith)
    ∙ scan_last (suc n) rest
    ∙ scan_end (suc n) rest h

pub read_uint : Rule ℕ
unfolding scan
read_uint s =
    let (n, rest) = scan (skip_space s) 0 in
    if starts_digit (skip_space s) && ltb n (2 ^ 32) then ok (some (n, rest)) else ok none

pub read_uint-decimal :
    (n : ℕ) (s rest : List ℕ)
    → skip_space s ≡ decimal n ++ rest
    → n < 2 ^ 32
    → starts_digit rest ≡ false
    → read_uint s ≡ ok (some (n, rest))
unfolding read_uint
read_uint-decimal n s rest here small ends =
    rw (here, scan-decimal n rest ends, starts-decimal n rest, lt→ltb n (2 ^ 32) small) refl
