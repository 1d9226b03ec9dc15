-- ===== src/Grammar/Policies.antt =====
-- retention_policy_parse of src/parser/retention_policy.cpp reads what retention_policy_write writes.
use stats_rrdb.Prelude.{
  ℕ, suc, ◌^◌, ◌<◌, ◌≤◌, ◌≡◌, refl, ap, ◌∙◌, some, List, [], ◌∷◌, ◌++◌, length, length-append,
  lt→ltb, arith,
}
use stats_rrdb.Prelude.Result.{ok, ◌>>=◌}
use stats_rrdb.Text.{Chunk, str, nat, codes}
use stats_rrdb.Policy.{PolicyElem, validate}
use stats_rrdb.Interval.{write_elems, retention_policy_write}
use stats_rrdb.Interval.Units.{Spelled, interval_write-Spelled}
use stats_rrdb.Grammar.{
  Rule, Spirit, interval_rule, elem_rule, policy_rule, parsed, retention_policy_parse,
}
use stats_rrdb.Grammar.Behaviour.{skip_space, Stream, shown, acted, followed, IsSpirit}
use stats_rrdb.Grammar.Roundtrip.{
  Ends, at_end, at_space, at_comma, expects, acts, interval_rule-Spelled,
}

-- Both intervals fit 32 bits.
abbrev pub AllFit : List PolicyElem → Type 0
AllFit [] = Unit
AllFit (e ∷ es) = ((e.freq < 2 ^ 32) × (e.duration < 2 ^ 32)) × AllFit es

behind : (xs ys : List ℕ) → length ys ≤ length (xs ++ ys)
behind xs ys = omega (arith, length-append xs ys)

module _ (W : Type 0) where
  abbrev spelled : ℕ → List (Chunk W)
  spelled n = let w = interval_write-Spelled {W = W} n in nat w.value ∷ str " " ∷ str w.name ∷ []

  abbrev elem_chunks : PolicyElem → List (Chunk W) → List (Chunk W)
  elem_chunks e rest = spelled e.freq ++ str " for " ∷ (spelled e.duration ++ rest)

  abbrev more_chunks : List PolicyElem → List (Chunk W)
  more_chunks [] = []
  more_chunks (e ∷ es) = str ", " ∷ elem_chunks e (more_chunks es)

  write_elems-more :
      (c : ℕ) (es : List PolicyElem) → write_elems {W = W} (suc c) es ≡ ok (more_chunks es)
  unfolding write_elems
  write_elems-more c [] = refl
  write_elems-more c (e ∷ es) =
      let positive = lt→ltb 0 (suc c) (omega arith) in
      rw
        (
          write_elems,
          positive,
          Spelled.text (interval_write-Spelled {W = W} e.freq),
          Spelled.text (interval_write-Spelled {W = W} e.duration),
          write_elems-more (suc c) es,
        )
        refl

module _ {W : Type 0} (q : Spirit) (st : Stream W) (laws : IsSpirit q st) where
  elem_rule-elem_chunks :
      (e : PolicyElem) (s : List ℕ) (cs : List (Chunk W))
      → e.freq < 2 ^ 32
      → e.duration < 2 ^ 32
      → skip_space s ≡ shown st (elem_chunks W e cs)
      → Ends (shown st cs)
      → elem_rule q s ≡ ok (some (e, shown st cs))
  unfolding elem_rule
  elem_rule-elem_chunks e s cs hf hd here ends =
      let wf = interval_write-Spelled {W = W} e.freq in
      let wd = interval_write-Spelled {W = W} e.duration in
      expects q st laws (interval_rule q) _ s
        (interval_rule-Spelled q st laws wf s
          (codes " for " ++ shown st (spelled W e.duration ++ cs)) hf here (at_space _))
        (expects q st laws (q.nocaselit "for") _
          (codes " for " ++ shown st (spelled W e.duration ++ cs))
          (laws.nocaselit_law "for" (codes " for " ++ shown st (spelled W e.duration ++ cs)))
          (acts q st laws (interval_rule q) _ _ (
            interval_rule-Spelled q st laws wd (32 ∷ shown st (spelled W e.duration ++ cs))
              (shown st cs) hd (laws.print_law wd.value _) ends)))

  more-Ends : (es : List PolicyElem) → Ends (shown st (more_chunks W es))
  more-Ends [] = at_end
  more-Ends (e ∷ es) = at_comma _

  abbrev more_rule : Rule PolicyElem
  more_rule = q.expect (q.nocaselit ",") λ c. elem_rule q

  more_rule-chunks :
      (e : PolicyElem) (es : List PolicyElem)
      → e.freq < 2 ^ 32
      → e.duration < 2 ^ 32
      → more_rule (shown st (more_chunks W (e ∷ es))) ≡ ok (some (e, shown st (more_chunks W es)))
  more_rule-chunks e es hf hd =
      let s = shown st (more_chunks W (e ∷ es)) in
      expects q st laws (q.nocaselit ",") (λ c. elem_rule q) s (laws.nocaselit_law "," s)
        (elem_rule-elem_chunks e (32 ∷ shown st (elem_chunks W e (more_chunks W es)))
          (more_chunks W es) hf hd (laws.print_law _ _) (more-Ends es))

  shorter :
      (e : PolicyElem) (cs : List (Chunk W))
      → length (shown st cs) < length (shown st (str ", " ∷ elem_chunks W e cs))
  shorter e cs =
      let w = interval_write-Spelled {W = W} e.freq in
      let d = interval_write-Spelled {W = W} e.duration in
      omega (
        arith,
        behind (st.print_nat w.value) (
            codes " "
            ++ (codes w.name ++ (codes " for " ++ shown st (spelled W e.duration ++ cs)))),
        behind (codes w.name) (codes " for " ++ shown st (spelled W e.duration ++ cs)),
        behind (st.print_nat d.value) (32 ∷ codes d.name ++ shown st cs),
        behind (codes d.name) (shown st cs),
      )

  kleene-chunks :
      (es : List PolicyElem)
      → AllFit es
      → q.kleene more_rule (shown st (more_chunks W es)) ≡ ok (some (es, []))
  kleene-chunks [] fit =
      laws.kleene_end more_rule [] (laws.expect_law _ _ [] ∙ rw (laws.nocaselit_law "," []) refl)
  kleene-chunks (e ∷ es) fit =
      laws.kleene_more more_rule _ _ e (more_rule-chunks e es fit.0.0 fit.0.1)
        (shorter e (more_chunks W es))
      ∙ ap (acted (λ more. e ∷ more)) (kleene-chunks es fit.1)

  policy_rule-chunks :
      (e : PolicyElem) (es : List PolicyElem)
      → AllFit (e ∷ es)
      → policy_rule q (shown st (elem_chunks W e (more_chunks W es))) ≡ ok (some (e ∷ es, []))
  unfolding policy_rule
  policy_rule-chunks e es fit =
      let s = shown st (elem_chunks W e (more_chunks W es)) in
      expects q st laws q.eps _ s (laws.eps_law s) (
        laws.sequence_law (elem_rule q) _ (skip_space s)
        ∙ ap (followed _) (
            elem_rule-elem_chunks e (skip_space s) (more_chunks W es) fit.0.0 fit.0.1
              (ap skip_space (laws.print_law _ _) ∙ laws.print_law _ _) (more-Ends es))
        ∙ acts q st laws (q.kleene more_rule) (λ more. e ∷ more) (shown st (more_chunks W es))
            (kleene-chunks es fit.1))

  parses_whole :
      (s : List ℕ) (p : List PolicyElem)
      → policy_rule q s ≡ ok (some (p, []))
      → validate p ≡ ok tt
      → retention_policy_parse q s ≡ ok p
  unfolding retention_policy_parse parsed
  parses_whole s p h valid = rw (laws.phrase_law (policy_rule q) s, h, valid) refl

  -- Where Boost.Spirit and the stream do what they document, retention_policy_parse reads every policy that
  -- is not empty, that retention_policy_validate accepts and whose intervals have 32 bits back from what
  -- retention_policy_write writes for it.
  pub retention_policy_parse-retention_policy_write :
      (e : PolicyElem) (es : List PolicyElem)
      → AllFit (e ∷ es)
      → validate (e ∷ es) ≡ ok tt
      → (do cs ← retention_policy_write (e ∷ es); retention_policy_parse q (shown st cs))
        ≡ ok (e ∷ es)
  unfolding retention_policy_write write_elems
  retention_policy_parse-retention_policy_write e es fit valid =
      rw
        (
          Spelled.text (interval_write-Spelled {W = W} e.freq),
          Spelled.text (interval_write-Spelled {W = W} e.duration),
          write_elems-more W 0 es,
        )
        (parses_whole (shown st (elem_chunks W e (more_chunks W es))) (e ∷ es)
          (policy_rule-chunks e es fit) valid)
