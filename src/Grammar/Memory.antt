-- ===== src/Grammar/Memory.antt =====
-- memory_size_parse of src/parser/memory_size.cpp reads what memory_size_write writes.
use stats_rrdb.Prelude.{
  ℕ, ◌*◌, ◌/◌, ◌%◌, ◌^◌, ◌<◌, ◌≡◌, refl, ap, ◌∙◌, Option, some, List, [], ◌∷◌, false, arith,
}
use stats_rrdb.Prelude.Result.{Result, ok, err, fault, ◌>>=◌}
use stats_rrdb.Text.{Chunk, nat}
use stats_rrdb.Interval.{memory_byte, memory_size_unit, memory_size_write}
use stats_rrdb.Interval.Memory.{
  Suffix, a_byte, a_bytes, a_kilobyte, a_megabyte, a_gigabyte, Sized, memory_size_write-Sized,
}
use stats_rrdb.Grammar.{
  Spirit, memory_size_words, memory_size_unit_rule, memory_size_rule, memory_size_parse,
}
use stats_rrdb.Grammar.Behaviour.{skip_space, starts_digit, Stream, shown, IsSpirit}
use stats_rrdb.Grammar.Roundtrip.{pick, units-pick, expects, acts, reads_whole}

module _ {W : Type 0} (q : Spirit) (st : Stream W) (laws : IsSpirit q st) where
  abbrev Picked : List (Chunk W) → ℕ → Type 0
  Picked cs unit =
      (last : Result (Option (ℕ × List ℕ)))
      → pick memory_size_words (shown st cs) last ≡ ok (some (unit, []))

  pick-Suffix : {cs : List (Chunk W)} {unit : ℕ} → Suffix cs unit → Picked cs unit
  pick-Suffix a_byte = λ last. refl
  pick-Suffix a_bytes = λ last. refl
  pick-Suffix a_kilobyte = λ last. refl
  pick-Suffix a_megabyte = λ last. refl
  pick-Suffix a_gigabyte = λ last. refl

  no_digit : {cs : List (Chunk W)} {unit : ℕ} → Suffix cs unit → starts_digit (shown st cs) ≡ false
  no_digit a_byte = refl
  no_digit a_bytes = refl
  no_digit a_kilobyte = refl
  no_digit a_megabyte = refl
  no_digit a_gigabyte = refl

  reads-Suffix :
      {cs : List (Chunk W)} {unit : ℕ}
      → Suffix cs unit
      → memory_size_unit_rule q (shown st cs) ≡ ok (some (unit, []))
  unfolding memory_size_unit_rule
  reads-Suffix {cs} f =
      units-pick q st laws memory_size_words (q.action q.eps (λ t. memory_byte)) (shown st cs)
      ∙ pick-Suffix f _

  memory_size_rule-Sized :
      {n : ℕ} (w : Sized W n)
      → n < 2 ^ 64
      → n / w.unit < 2 ^ 32
      → memory_size_rule q (shown st (nat (n / w.unit) ∷ w.behind)) ≡ ok (some (n, []))
  unfolding memory_size_rule
  memory_size_rule-Sized {n} w small few =
      let s = shown st (nat (n / w.unit) ∷ w.behind) in
      expects q st laws q.eps
        (λ t. q.expect q.uint_ λ m. q.action (memory_size_unit_rule q) λ u. (m * u) % 2 ^ 64) s
        (laws.eps_law s)
        (expects q st laws q.uint_ (λ m. q.action (memory_size_unit_rule q) λ u. (m * u) % 2 ^ 64)
          (skip_space s)
          (laws.uint_law (n / w.unit) (skip_space s) (shown st w.behind)
            (ap skip_space (laws.print_law (n / w.unit) (shown st w.behind))
              ∙ laws.print_law (n / w.unit) (shown st w.behind))
            few (no_digit w.suffix))
          (acts q st laws (memory_size_unit_rule q) (λ u. ((n / w.unit) * u) % 2 ^ 64)
              (shown st w.behind) (reads-Suffix w.suffix)
            ∙ ap (λ m. ok (some (m, []))) (rw w.exact (omega arith))))

  -- Where Boost.Spirit and the stream do what they document, memory_size_parse reads every size of 64 bits
  -- back from what memory_size_write writes, if the number written has 32 bits.
  pub memory_size_parse-memory_size_write :
      (n : ℕ)
      → n < 2 ^ 64
      → n / memory_size_unit n < 2 ^ 32
      → (do cs ← memory_size_write n; memory_size_parse q (shown st cs)) ≡ ok n
  unfolding memory_size_parse
  memory_size_parse-memory_size_write n small few =
      let w = memory_size_write-Sized {W = W} n in
      rw w.text (
        reads_whole q st laws (memory_size_rule q) (shown st (nat (n / w.unit) ∷ w.behind))
          (err fault) (memory_size_rule-Sized w small (rw w.taken at few)))
