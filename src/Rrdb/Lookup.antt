-- ===== src/Rrdb/Lookup.antt =====
-- The map of the metrics after an insertion or an erasure.
use stats_rrdb.Prelude.{
  ℕ, ◌≡◌, ◌≢◌, refl, ap, inl, inr, true, false, Bool-cases, none, some, List, [], ◌∷◌, arith,
}
use stats_rrdb.Value.{Value}
use stats_rrdb.Metric.{Metric}
use stats_rrdb.Metric.Sound.{IsMetric}
use stats_rrdb.Rrdb.{same_name, lookup, put, erase}

pub same_name_eq : (a b : List ℕ) → same_name a b ≡ true → a ≡ b
same_name_eq [] [] h = refl
same_name_eq [] (d ∷ ds) h = cc
same_name_eq (c ∷ cs) [] h = cc
same_name_eq (c ∷ cs) (d ∷ ds) h = ground (arith, same_name_eq cs ds)

pub same_name_refl : (a : List ℕ) → same_name a a ≡ true
same_name_refl [] = refl
same_name_refl (c ∷ cs) = ground (arith, same_name_refl cs)

pub same_name_ne : (a b : List ℕ) → a ≢ b → same_name a b ≡ false
same_name_ne a b n = ground (arith, same_name_eq a b)

pub differs : (n k : List ℕ) → same_name n k ≡ false → n ≡ k → ⊥
differs n k other e = ground (arith, ap (same_name n) e, same_name_refl n)

module _ {W : Type 0} where
  pub lookup-put_self :
      (ms : List (List ℕ × Metric W)) (n : List ℕ) (m : Metric W) → lookup (put ms n m) n ≡ some m
  lookup-put_self [] n m = rw (same_name_refl n)
  lookup-put_self ((k, x) ∷ ms) n m = ground (arith, lookup-put_self ms n m)

  pub lookup-put_ne :
      (ms : List (List ℕ × Metric W)) (n k : List ℕ) (m : Metric W)
      → n ≢ k
      → lookup (put ms n m) k ≡ lookup ms k
  lookup-put_ne [] n k m ne = rw (same_name_ne n k ne)
  lookup-put_ne ((j, x) ∷ ms) n k m ne =
      ground (arith, lookup-put_ne ms n k m ne, same_name_eq j n, same_name_eq j k)

  pub lookup-erase_self :
      (ms : List (List ℕ × Metric W)) (n : List ℕ) → lookup (erase ms n) n ≡ none
  lookup-erase_self [] n = refl
  lookup-erase_self ((k, x) ∷ ms) n = ground (arith, lookup-erase_self ms n)

  pub lookup-erase_ne :
      (ms : List (List ℕ × Metric W)) (n k : List ℕ) → n ≢ k → lookup (erase ms n) k ≡ lookup ms k
  lookup-erase_ne [] n k ne = refl
  lookup-erase_ne ((j, x) ∷ ms) n k ne =
      ground (arith, lookup-erase_ne ms n k ne, same_name_eq j n, same_name_eq j k)

module _ {W : Type 0} ⦃v : Value W⦄ where
  -- Every metric of the map is in order.
  abbrev pub AllMetrics : List (List ℕ × Metric W) → Type 0
  AllMetrics [] = Unit
  AllMetrics ((k, m) ∷ ms) = IsMetric m × AllMetrics ms

  pub put-AllMetrics :
      (ms : List (List ℕ × Metric W)) (n : List ℕ) (m : Metric W)
      → AllMetrics ms
      → IsMetric m
      → AllMetrics (put ms n m)
  put-AllMetrics [] n m all i = (i, tt)
  put-AllMetrics ((k, x) ∷ ms) n m all i = elim (Bool-cases (same_name k n)) [
    | inl here ↦ rw here (i, all.1)
    | inr other ↦ rw other (all.0, put-AllMetrics ms n m all.1 i)
  ]

  pub erase-AllMetrics :
      (ms : List (List ℕ × Metric W)) (n : List ℕ) → AllMetrics ms → AllMetrics (erase ms n)
  erase-AllMetrics [] n all = tt
  erase-AllMetrics ((k, x) ∷ ms) n all = elim (Bool-cases (same_name k n)) [
    | inl here ↦ rw here (erase-AllMetrics ms n all.1)
    | inr other ↦ rw other (all.0, erase-AllMetrics ms n all.1)
  ]

  pub lookup-IsMetric :
      (ms : List (List ℕ × Metric W)) (n : List ℕ) {m : Metric W}
      → AllMetrics ms
      → lookup ms n ≡ some m
      → IsMetric m
  lookup-IsMetric [] n all h = cc
  lookup-IsMetric ((k, x) ∷ ms) n {m} all h = elim (Bool-cases (same_name k n)) [
    | inl here ↦ let e : x ≡ m = ground arith in rw (← e) all.0
    | inr other ↦ lookup-IsMetric ms n all.1 (ground arith)
  ]
