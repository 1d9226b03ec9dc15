-- ===== src/Block/Find/Rings.antt =====
-- Each way that find_tuple goes leaves a well-formed ring of slots.
use native.Mathlib.Decide.{dec_lt}
use Prim.Native.Nat.{min, max}
use stats_rrdb.Prelude.{
  ℕ, zero, suc, ◌+◌, ◌-◌, ◌*◌, ◌≤◌, ◌<◌, ◌≡◌, ap, ◌∙◌, Option, inl, inr, List, length, set,
  replicate, length-replicate, get_or-replicate, length-set, arith,
}
use stats_rrdb.Prelude.Int.{ℤ, pos, ◌-ℤ◌, int_laws, parts_of_eq}
use stats_rrdb.Prelude.Result.{Result}
use stats_rrdb.Value.{Value}
use stats_rrdb.Tuple.{Tuple, zero_tuple}
use stats_rrdb.Block.{Header}
use stats_rrdb.Block.Find.Ages.{Shape, IsRing, age, age-set_cur, age-set_older, back}
use stats_rrdb.Block.Find.Advance.{moved_header, fresh_tuple, Shifted}
use stats_rrdb.Block.Find.Behind.{Walked}

pub moved-Shape : (h : Header) (c : ℕ) (t : ℤ) → Shape h → c < h.count → Shape (moved_header h c t)
moved-Shape h c t s ci = record {
  freq_pos = s.freq_pos;
  cur_in = ci;
  count_in = s.count_in;
  duration_is = s.duration_is;
  data_size_is = s.data_size_is;
}

module _ {W : Type 0} ⦃v : Value W⦄ {h : Header} {tuples : List (Tuple W)}
    (r : IsRing h tuples) where
  Shifted-stamped :
      {c : ℕ} {t : ℤ} {tuples' : List (Tuple W)} (s : Shifted h tuples c t tuples') (j k : ℕ)
      → k ≡ s.rounds + j
      → j < r.filled
      → k < h.count
      → (age h.count c tuples' k).ts ≡ t -ℤ pos (k * h.freq)
  Shifted-stamped {t = t} s j k at hj hk =
      ap (λ (x : Tuple W). x.ts) (s.older j k at hk) ∙ r.stamped j hj ∙ same
    where
      times : k * h.freq ≡ s.rounds * h.freq + j * h.freq
      times = omega (arith, ap (λ (n : ℕ). n * h.freq) at)

      same : h.cur_ts -ℤ pos (j * h.freq) ≡ t -ℤ pos (k * h.freq)
      same = omega (int_laws, times, parts_of_eq _ _ s.moved)

  -- A shift forward fills the new slots.
  pub Shifted-IsRing :
      {c : ℕ} {t : ℤ} {tuples' : List (Tuple W)}
      → Shifted h tuples c t tuples'
      → IsRing (moved_header h c t) tuples'
  Shifted-IsRing {c} {t} {tuples'} s = record {
    shape = moved-Shape h c t r.shape s.inside;
    sized = s.sized;
    filled = min (r.filled + s.rounds) h.count;
    filled_in = omega (arith, r.filled_in, s.inside);
    stamped = λ k hk. elim (dec_lt k s.rounds) [
      | yes young ↦ ap (λ (x : Tuple W). x.ts) (s.fresh k young (omega arith))
      | no old ↦ Shifted-stamped s (k - s.rounds) k (omega arith) (omega arith) (omega arith)
    ];
    blank = λ k lo hi.
        s.older (k - s.rounds) k (omega (arith, r.filled_in)) hi
        ∙ r.blank (k - s.rounds) (omega (arith, r.filled_in)) (omega arith);
  }

  -- The walk back sets timestamps as a ring has them.
  pub Walked-IsRing :
      {ts : ℤ} {res : Result (List (Tuple W) × Option ℕ)} (w : Walked h tuples ts 0 res)
      → IsRing h w.result
  Walked-IsRing w = record {
    shape = r.shape;
    sized = w.sized;
    filled = max r.filled (suc w.last);
    filled_in = omega (arith, r.filled_in, w.in_array);
    stamped = λ k hk. elim (dec_lt w.last k) [
      | yes past ↦
          ap (λ (x : Tuple W). x.ts) (w.kept k (omega (arith, r.filled_in)) (inr past))
          ∙ r.stamped k (omega arith)
      | no near ↦ elim (dec_lt 0 k) [
        | yes older ↦ ap (λ (x : Tuple W). x.ts) (w.seen k older (omega arith))
        | no youngest ↦
            ap (λ (x : Tuple W). x.ts) (w.kept k (omega (arith, w.in_array)) (inl (omega arith)))
            ∙ r.stamped k (omega (arith, r.filled_in))
      ]
    ];
    blank = λ k lo hi. w.kept k hi (inr (omega arith)) ∙ r.blank k (omega arith) hi;
  }

  pub last-lt-filled :
      {ts : ℤ} {res : Result (List (Tuple W) × Option ℕ)} (w : Walked h tuples ts 0 res)
      → w.last < (Walked-IsRing w).filled
  unfolding Walked-IsRing
  last-lt-filled w = omega arith

  abbrev pub restarted : ℤ → List (Tuple W)
  restarted ts = set (replicate (length tuples) zero_tuple) 0 (fresh_tuple ts)

  pub restarted_blank :
      (ts : ℤ) (k : ℕ) → 1 ≤ k → k < h.count → age h.count 0 (restarted ts) k ≡ zero_tuple
  unfolding age
  restarted_blank ts zero lo hi = absurd (omega arith)
  restarted_blank ts (suc k) lo hi =
      age-set_older h.count 0 (replicate (length tuples) zero_tuple) (fresh_tuple ts) k
        (omega arith) hi
      ∙ get_or-replicate (length tuples) (back h.count 0 (suc k)) zero_tuple

  pub restarted_first : (ts : ℤ) → age h.count 0 (restarted ts) 0 ≡ fresh_tuple ts
  restarted_first ts =
      age-set_cur h.count 0 _ (fresh_tuple ts) (length-replicate _ _ ∙ r.sized)
        (omega (arith, r.filled_in))

  -- The array starts anew with one slot.
  pub restarted-IsRing : (ts : ℤ) → IsRing (moved_header h 0 ts) (restarted ts)
  restarted-IsRing ts = record {
    shape = moved-Shape h 0 ts r.shape (omega (arith, r.filled_in));
    sized = length-set _ 0 _ ∙ length-replicate (length tuples) zero_tuple ∙ r.sized;
    filled = 1;
    filled_in = omega (arith, r.filled_in);
    stamped = λ k hk. first_stamp k hk;
    blank = λ k lo hi. restarted_blank ts k lo hi;
  }
    where
      first_stamp : (k : ℕ) → k < 1 → (age h.count 0 (restarted ts) k).ts ≡ ts -ℤ pos (k * h.freq)
      first_stamp zero hk = ap (λ (x : Tuple W). x.ts) (restarted_first ts) ∙ omega int_laws
      first_stamp (suc k) hk = absurd (omega arith)
