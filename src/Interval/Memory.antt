-- ===== src/Interval/Memory.antt =====
-- What memory_size_write of src/parser/memory_size.cpp writes.
use Prim.Native.String.{String}
use stats_rrdb.Prelude.{
  ℕ, suc, ◌-◌, ◌*◌, ◌/◌, ◌%◌, ◌≡◌, refl, inl, inr, Bool-cases, true, List, [], ◌∷◌, ltb, ◌==◌,
  ==_iff, arith,
}
use stats_rrdb.Prelude.Result.{ok}
use stats_rrdb.Text.{Chunk, str, nat}
use stats_rrdb.Interval.{
  memory_kilobyte, memory_megabyte, memory_gigabyte, number_of, memory_size_get_name,
  memory_size_unit, memory_size_write,
}

-- What comes behind the number, and the unit that it means.
pub data Suffix {W : Type 0} : List (Chunk W) → ℕ → Type 0 where
  a_byte : Suffix (str " " ∷ str "byte" ∷ []) 1
  a_bytes : Suffix (str " " ∷ str "bytes" ∷ []) 1
  a_kilobyte : Suffix (str "KB" ∷ []) 1024
  a_megabyte : Suffix (str "MB" ∷ []) 1048576
  a_gigabyte : Suffix (str "GB" ∷ []) 1073741824

pub record Sized (W : Type 0) (n : ℕ) : Type 0 where
  pub unit : ℕ
  pub behind : List (Chunk W)
  pub taken : memory_size_unit n ≡ unit
  pub text : memory_size_write {W = W} n ≡ ok (nat (n / unit) ∷ behind)
  pub suffix : Suffix behind unit
  pub exact : n / unit * unit ≡ n

whole_of : (a b : ℕ) → (a % suc b == 0) ≡ true → a / suc b * suc b ≡ a
whole_of a b h = grind (arith, (==_iff (a % suc b) 0).0 h)

number_of-same : (v : ℕ) (s : String) → number_of v s s ≡ s
number_of-same v s = elim (Bool-cases (ltb 1 v)) [
  | inl more ↦ rw more refl
  | inr single ↦ rw single refl
]

module _ {W : Type 0} (n : ℕ) where
  in_bytes : memory_size_unit n ≡ 1 → Sized W n
  unfolding memory_size_write memory_size_get_name
  in_bytes taken = elim (Bool-cases (ltb 1 (n / 1))) [
    | inl more ↦ record {
      unit = 1;
      behind = str " " ∷ str "bytes" ∷ [];
      taken = taken;
      text = rw (taken, more) refl;
      suffix = a_bytes;
      exact = omega arith;
    }
    | inr single ↦ record {
      unit = 1;
      behind = str " " ∷ str "byte" ∷ [];
      taken = taken;
      text = rw (taken, single) refl;
      suffix = a_byte;
      exact = omega arith;
    }
  ]

  pub memory_size_write-Sized : Sized W n
  unfolding memory_size_write memory_size_get_name memory_size_unit
  memory_size_write-Sized = elim (Bool-cases (n % memory_gigabyte == 0)) [
    | inl gb ↦ record {
      unit = memory_gigabyte;
      behind = str "GB" ∷ [];
      taken = rw gb refl;
      text = rw (gb, number_of-same (n / memory_gigabyte) "GB") refl;
      suffix = a_gigabyte;
      exact = whole_of n (memory_gigabyte - 1) gb;
    }
    | inr no_gb ↦ elim (Bool-cases (n % memory_megabyte == 0)) [
      | inl mb ↦ record {
        unit = memory_megabyte;
        behind = str "MB" ∷ [];
        taken = rw (no_gb, mb) refl;
        text = rw (no_gb, mb, number_of-same (n / memory_megabyte) "MB") refl;
        suffix = a_megabyte;
        exact = whole_of n (memory_megabyte - 1) mb;
      }
      | inr no_mb ↦ elim (Bool-cases (n % memory_kilobyte == 0)) [
        | inl kb ↦ record {
          unit = memory_kilobyte;
          behind = str "KB" ∷ [];
          taken = rw (no_gb, no_mb, kb) refl;
          text = rw (no_gb, no_mb, kb, number_of-same (n / memory_kilobyte) "KB") refl;
          suffix = a_kilobyte;
          exact = whole_of n (memory_kilobyte - 1) kb;
        }
        | inr no_kb ↦ in_bytes (rw (no_gb, no_mb, no_kb) refl)
      ]
    ]
  ]
