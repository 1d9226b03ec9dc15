-- ===== src/Block/Find/Advance.antt =====
-- The forward loop of find_tuple: it ends, and shifts every slot by the number of its rounds.
use stats_rrdb.Prelude.{
  ℕ, zero, suc, ◌+◌, ◌-◌, ◌*◌, ◌<◌, ◌≡◌, refl, ap, ◌∙◌, List, length, set, length-set, arith, ltb,
  lt→ltb, true, inl, inr, Bool-cases,
}
use stats_rrdb.Prelude.Int.{
  ℤ, pos, ◌+ℤ◌, ◌-ℤ◌, ◌≤ℤ◌, ◌<ℤ◌, leb_ℤ, int_laws, leb→le_ℤ, leb→gt_ℤ, parts_of_eq,
}
use stats_rrdb.Prelude.Result.{Result, ok}
use native.Mathlib.Decide.{dec_lt}
use stats_rrdb.Value.{Value}
use stats_rrdb.Tuple.{Tuple, zero_tuple}
use stats_rrdb.Block.{Header, u32_mod, get_next_pos}
use stats_rrdb.Block.Find.{advance}
use stats_rrdb.Block.Find.Ages.{get_next_pos-lt, age, age-set_cur, age-set_older, age_next}

abbrev pub moved_header : Header → ℕ → ℤ → Header
moved_header h c t = record h { cur = c; cur_ts = t }

module _ {W : Type 0} ⦃v : Value W⦄ where
  abbrev pub fresh_tuple : ℤ → Tuple W
  fresh_tuple t = record zero_tuple { ts = t }

  -- `rounds` steps forward: as many youngest slots are new and empty, each `freq` after the one
  -- before, the others are as many steps older than they were, and the oldest are gone.
  pub record Shifted (h : Header) (tuples : List (Tuple W)) (c : ℕ) (t : ℤ)
      (tuples' : List (Tuple W)) : Type 0 where
    pub rounds : ℕ
    pub inside : c < h.count
    pub sized : length tuples' ≡ h.count
    pub moved : t ≡ h.cur_ts +ℤ pos (rounds * h.freq)
    pub fresh :
        (k : ℕ)
        → k < rounds
        → k < h.count
        → age h.count c tuples' k ≡ fresh_tuple (t -ℤ pos (k * h.freq))
    pub older :
        (k n : ℕ)
        → n ≡ rounds + k
        → n < h.count
        → age h.count c tuples' n ≡ age h.count h.cur tuples k

  -- One round. The slots are read by cases on the age, so that they are lemmas of their own.
  step_fresh :
      (h : Header) (tuples : List (Tuple W)) (t : ℤ) (k p : ℕ)
      → p < h.count
      → length tuples ≡ h.count
      → k < 1
      → age h.count p (set tuples p (fresh_tuple t)) k ≡ fresh_tuple (t -ℤ pos (k * h.freq))
  step_fresh h tuples t zero p ci sz hk =
      age-set_cur h.count p tuples (fresh_tuple t) sz ci ∙ ap fresh_tuple (omega int_laws)
  step_fresh h tuples t (suc k) p ci sz hk = absurd (omega arith)

  step_older :
      (h : Header) (tuples : List (Tuple W)) (t : ℤ) (k n : ℕ)
      → h.cur < h.count
      → h.count < u32_mod
      → n ≡ 1 + k
      → n < h.count
      → let p = get_next_pos h h.cur in
        age h.count p (set tuples p (fresh_tuple t)) n ≡ age h.count h.cur tuples k
  step_older h tuples t k zero ci wide en hn = absurd (omega arith)
  step_older h tuples t k (suc n) ci wide en hn =
      let same : n ≡ k = omega arith in
      age-set_older h.count _ tuples (fresh_tuple t) n (get_next_pos-lt h h.cur ci) hn
      ∙ age_next h tuples n ci wide hn
      ∙ ap (age h.count h.cur tuples) same

  step_Shifted :
      (h : Header) (tuples : List (Tuple W)) (t : ℤ)
      → h.cur < h.count
      → h.count < u32_mod
      → length tuples ≡ h.count
      → t ≡ h.cur_ts +ℤ pos h.freq
      → let p = get_next_pos h h.cur in Shifted h tuples p t (set tuples p (fresh_tuple t))
  step_Shifted h tuples t ci wide sz e = record {
    rounds = 1;
    inside = get_next_pos-lt h h.cur ci;
    sized = length-set tuples _ _ ∙ sz;
    moved = e ∙ ap (λ n. h.cur_ts +ℤ pos n) (omega arith);
    fresh = λ k hk hc. step_fresh h tuples t k _ (get_next_pos-lt h h.cur ci) sz hk;
    older = λ k n en hn. step_older h tuples t k n ci wide en hn;
  }

  then_fresh_old :
      (h : Header) (tuples : List (Tuple W)) {c₁ c : ℕ} {t₁ t : ℤ}
      {tuples₁ tuples' : List (Tuple W)} (a : Shifted h tuples c₁ t₁ tuples₁)
      (b : Shifted (moved_header h c₁ t₁) tuples₁ c t tuples') (j k : ℕ)
      → k ≡ b.rounds + j
      → j < a.rounds
      → k < h.count
      → age h.count c tuples' k ≡ fresh_tuple (t -ℤ pos (k * h.freq))
  then_fresh_old h tuples {t₁ = t₁} {t = t} a b j k at hj hk =
      b.older j k at hk ∙ a.fresh j hj (omega arith) ∙ ap fresh_tuple same
    where
      times : k * h.freq ≡ b.rounds * h.freq + j * h.freq
      times = omega (arith, ap (λ (n : ℕ). n * h.freq) at)

      same : t₁ -ℤ pos (j * h.freq) ≡ t -ℤ pos (k * h.freq)
      same = omega (int_laws, times, parts_of_eq _ _ b.moved)

  then_fresh :
      (h : Header) (tuples : List (Tuple W)) {c₁ c : ℕ} {t₁ t : ℤ}
      {tuples₁ tuples' : List (Tuple W)} (a : Shifted h tuples c₁ t₁ tuples₁)
      (b : Shifted (moved_header h c₁ t₁) tuples₁ c t tuples') (k : ℕ)
      → k < a.rounds + b.rounds
      → k < h.count
      → age h.count c tuples' k ≡ fresh_tuple (t -ℤ pos (k * h.freq))
  then_fresh h tuples a b k hk hc = elim (dec_lt k b.rounds) [
    | yes young ↦ b.fresh k young hc
    | no old ↦ then_fresh_old h tuples a b (k - b.rounds) k (omega arith) (omega arith) hc
  ]

  -- Two shifts in a row are a shift.
  Shifted-trans :
      (h : Header) (tuples : List (Tuple W)) {c₁ c : ℕ} {t₁ t : ℤ}
      {tuples₁ tuples' : List (Tuple W)}
      → Shifted h tuples c₁ t₁ tuples₁
      → Shifted (moved_header h c₁ t₁) tuples₁ c t tuples'
      → Shifted h tuples c t tuples'
  Shifted-trans h tuples {c₁} {c} {t₁} {t} {tuples₁} {tuples'} a b = record {
    rounds = a.rounds + b.rounds;
    inside = b.inside;
    sized = b.sized;
    moved = omega (int_laws, parts_of_eq _ _ a.moved, parts_of_eq _ _ b.moved);
    fresh = then_fresh h tuples a b;
    older = λ k n en hn.
        b.older (a.rounds + k) n (omega arith) hn ∙ a.older k (a.rounds + k) refl (omega arith);
  }

  pub record Advanced (h : Header) (tuples : List (Tuple W)) (ts : ℤ)
      (r : Result (Header × List (Tuple W))) : Type 0 where
    pub at : ℕ
    pub at_ts : ℤ
    pub result : List (Tuple W)
    pub returns : r ≡ ok (moved_header h at at_ts, result)
    pub holds : (at_ts ≤ℤ ts) × (ts <ℤ at_ts +ℤ pos h.freq)
    pub shifted : Shifted h tuples at at_ts result

  -- With as much fuel as slots that `ts` may be ahead, the loop stops at the slot that holds `ts`.
  pub advance-Advanced :
      (f : ℕ) (h : Header) (tuples : List (Tuple W)) (next ts : ℤ)
      → h.cur < h.count
      → h.count < u32_mod
      → length tuples ≡ h.count
      → next ≡ h.cur_ts +ℤ pos h.freq
      → next ≤ℤ ts
      → ts <ℤ next +ℤ pos (f * h.freq)
      → Advanced h tuples ts (advance f h tuples next ts)
  unfolding advance
  advance-Advanced zero h tuples next ts ci wide sz e lo hi = absurd (omega int_laws)
  advance-Advanced (suc f) h tuples next ts ci wide sz e lo hi =
      elim (Bool-cases (leb_ℤ (next +ℤ pos h.freq) ts)) [
        | inl more ↦
            let rest =
              advance-Advanced f (moved_header h p next) tuples' (next +ℤ pos h.freq) ts inside wide
                sized refl (leb→le_ℤ (next +ℤ pos h.freq) ts more) (omega int_laws) in
            record {
              at = rest.at;
              at_ts = rest.at_ts;
              result = rest.result;
              returns = rw (in_bounds, more) rest.returns;
              holds = rest.holds;
              shifted = Shifted-trans h tuples step rest.shifted;
            }
        | inr done ↦ record {
          at = p;
          at_ts = next;
          result = tuples';
          returns = rw (in_bounds, done);
          holds = (lo, leb→gt_ℤ (next +ℤ pos h.freq) ts done);
          shifted = step;
        }
      ]
    where
      p : ℕ
      p = get_next_pos h h.cur

      tuples' : List (Tuple W)
      tuples' = set tuples p (fresh_tuple next)

      inside : p < h.count
      inside = get_next_pos-lt h h.cur ci

      step : Shifted h tuples p next tuples'
      step = step_Shifted h tuples next ci wide sz e

      in_bounds : ltb p (length tuples) ≡ true
      in_bounds = lt→ltb p (length tuples) (omega (arith, inside))

      sized : length tuples' ≡ h.count
      sized = step.sized
