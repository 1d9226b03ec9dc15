-- ===== src/Block/Find/Behind.antt =====
-- The backward loop of find_tuple: it ends, writes timestamps only, and finds the slot of `ts`
-- unless that is older than every slot.
use native.Mathlib.Decide.{ℕ_discrete}
use stats_rrdb.Prelude.{
  ℕ, zero, suc, ◌+◌, ◌*◌, ◌≤◌, ◌<◌, ◌≡◌, ◌≢◌, refl, ap, ◌∙◌, List, length, get_or, set, length-set,
  arith, ltb, lt→ltb, ==_iff, true, false, inl, inr, ◌⊎◌, Bool-cases, Option, some, none, ◌==◌,
}
use stats_rrdb.Prelude.Int.{ℤ, pos, ◌+ℤ◌, ◌-ℤ◌, ◌≤ℤ◌, ◌<ℤ◌, leb_ℤ, int_laws, parts_of_eq, lt→ltb_ℤ}
use stats_rrdb.Prelude.Result.{Result, ok}
use stats_rrdb.Value.{Value}
use stats_rrdb.Tuple.{Tuple, zero_tuple}
use stats_rrdb.Block.{Header, u32_mod}
use stats_rrdb.Block.Find.{walk_back}
use stats_rrdb.Block.Find.Ages.{
  back, back_full, back-lt, get_prev_pos-back, cur-ne-back, age, age-set_self, age-set_ne,
}

abbrev pub slot_ts : Header → ℕ → ℤ
slot_ts h k = h.cur_ts -ℤ pos (k * h.freq)

-- How the loop ends: at the slot that holds `ts`, or behind the oldest one.
abbrev pub Outcome : Header → ℤ → ℕ → ℕ → Option ℕ → Type 0
Outcome h ts j last slot =
    ((slot ≡ some (back h.count h.cur last))
      × (j < last)
      × (slot_ts h last ≤ℤ ts)
      × (ts <ℤ slot_ts h last +ℤ pos h.freq))
    ⊎ ((slot ≡ none) × (suc last ≡ h.count) × (ts <ℤ slot_ts h last))

module _ {W : Type 0} ⦃v : Value W⦄ where
  abbrev pub with_ts : Tuple W → ℤ → Tuple W
  with_ts t s = record t { ts = s }

  -- The slots of ages j + 1 to `last` have their timestamps set, and nothing else changes.
  pub record Walked (h : Header) (tuples : List (Tuple W)) (ts : ℤ) (j : ℕ)
      (r : Result (List (Tuple W) × Option ℕ)) : Type 0 where
    pub last : ℕ
    pub result : List (Tuple W)
    pub slot : Option ℕ
    pub returns : r ≡ ok (result, slot)
    pub in_array : (j ≤ last) × (last < h.count)
    pub sized : length result ≡ h.count
    pub seen :
        (i : ℕ)
        → j < i
        → i ≤ last
        → age h.count h.cur result i ≡ with_ts (age h.count h.cur tuples i) (slot_ts h i)
    pub kept :
        (i : ℕ)
        → i < h.count
        → (i ≤ j) ⊎ (last < i)
        → age h.count h.cur result i ≡ age h.count h.cur tuples i
    pub outcome : Outcome h ts j last slot

  module _ (h : Header) (tuples : List (Tuple W)) (j : ℕ) (inside : h.cur < h.count) where
    p : ℕ
    p = back h.count h.cur (suc j)

    stamp : List (Tuple W)
    unfolding p
    stamp = set tuples p (with_ts (get_or tuples p zero_tuple) (slot_ts h (suc j)))

    stamp_self :
        length tuples ≡ h.count
        → suc j < h.count
        → age h.count h.cur stamp (suc j)
          ≡ with_ts (age h.count h.cur tuples (suc j)) (slot_ts h (suc j))
    unfolding stamp age
    stamp_self sz hj = age-set_self h.count h.cur tuples (suc j) _ sz inside hj

    stamp_ne :
        (i : ℕ)
        → suc j < h.count
        → i < h.count
        → suc j ≢ i
        → age h.count h.cur stamp i ≡ age h.count h.cur tuples i
    unfolding stamp
    stamp_ne i hj hi n = age-set_ne h.count h.cur tuples (suc j) i _ inside hj hi n

    still :
        (ts : ℤ) {last : ℕ} {slot : Option ℕ}
        → Outcome h ts (suc j) last slot
        → Outcome h ts j last slot
    still ts (inl (a, b, c, d)) = inl (a, omega arith, c, d)
    still ts (inr e) = inr e

    -- The loop that goes on after a visit of age j + 1.
    on_Walked :
        (ts : ℤ) {r : Result (List (Tuple W) × Option ℕ)}
        → length tuples ≡ h.count
        → Walked h stamp ts (suc j) r
        → Walked h tuples ts j r
    on_Walked ts sz w = record {
      last = w.last;
      result = w.result;
      slot = w.slot;
      returns = w.returns;
      in_array = omega (arith, w.in_array);
      sized = w.sized;
      seen = λ i lo hi. elim (ℕ_discrete (suc j) i) [
        | yes here ↦ rw (← here) (
            w.kept (suc j) (omega (arith, w.in_array)) (inl (omega arith))
            ∙ stamp_self sz (omega (arith, w.in_array)))
        | no past ↦
            w.seen i (omega arith) hi
            ∙ ap (λ t. with_ts t (slot_ts h i))
                (stamp_ne i (omega (arith, w.in_array)) (omega (arith, w.in_array)) past)
      ];
      kept = λ i hi side.
          w.kept i hi (omega arith)
          ∙ stamp_ne i (omega (arith, w.in_array)) hi (omega (arith, w.in_array));
      outcome = still ts w.outcome;
    }

    -- The loop that stops at the visit of age j + 1.
    here_Walked :
        (ts : ℤ)
        → length tuples ≡ h.count
        → suc j < h.count
        → slot_ts h (suc j) ≤ℤ ts
        → ts <ℤ slot_ts h (suc j) +ℤ pos h.freq
        → Walked h tuples ts j (ok (stamp, some p))
    unfolding stamp p
    here_Walked ts sz hj lo hi = record {
      last = suc j;
      result = stamp;
      slot = some p;
      returns = refl;
      in_array = (omega arith, hj);
      sized = length-set tuples _ _ ∙ sz;
      seen = λ i a b. let here : suc j ≡ i = omega arith in rw (← here) (stamp_self sz hj);
      kept = λ i a side. stamp_ne i hj a (omega arith);
      outcome = inl (refl, omega arith, lo, hi);
    }

module _ {W : Type 0} ⦃v : Value W⦄ where
  -- `count` rounds are enough: the loop ends at the latest after a full turn.
  pub walk_back-Walked :
      (f : ℕ) (h : Header) (tuples : List (Tuple W)) (j q : ℕ) (tuple_ts ts : ℤ)
      → h.cur < h.count
      → h.count < u32_mod
      → length tuples ≡ h.count
      → j < h.count
      → h.count ≤ j + f
      → q ≡ back h.count h.cur (suc j)
      → tuple_ts ≡ slot_ts h j
      → ts <ℤ tuple_ts
      → Walked h tuples ts j (walk_back f h tuples q tuple_ts ts)
  unfolding walk_back stamp p
  walk_back-Walked zero h tuples j q tuple_ts ts ci wide sz hj hf eq et late = absurd (omega arith)
  walk_back-Walked (suc f) h tuples j q tuple_ts ts ci wide sz hj hf eq et late =
      elim (ℕ_discrete (suc j) h.count) [
        | yes full ↦
            rw (at_cur full, walk_back)
              (record {
                last = j;
                result = tuples;
                slot = none;
                returns = refl;
                in_array = (omega arith, hj);
                sized = sz;
                seen = λ i a b. absurd (omega arith);
                kept = λ i a side. refl;
                outcome = inr (refl, full, omega (int_laws, parts_of_eq _ _ et));
              })
        | no part ↦ elim (Bool-cases (leb_ℤ (tuple_ts -ℤ pos h.freq) ts)) [
          | inl found ↦
              let lo : slot_ts h (suc j) ≤ℤ ts = omega (int_laws, parts_of_eq _ _ et) in
              let hi : ts <ℤ slot_ts h (suc j) +ℤ pos h.freq =
                omega (int_laws, parts_of_eq _ _ et) in
              rw
                (
                  not_cur part,
                  walk_back,
                  in_bounds part,
                  found,
                  lt→ltb_ℤ ts _ (fits part),
                  eq,
                  stamp_ts,
                )
                (here_Walked h tuples j ci ts sz (omega arith) lo hi)
          | inr on ↦
              let late' : ts <ℤ slot_ts h (suc j) = omega (int_laws, parts_of_eq _ _ et) in
              rw (not_cur part, walk_back, in_bounds part, on, eq, stamp_ts)
                (on_Walked h tuples j ci ts sz (
                  walk_back-Walked f h (stamp h tuples j ci) (suc j) _ (slot_ts h (suc j)) ts ci
                    wide (length-set tuples _ _ ∙ sz) (omega arith) (omega arith)
                    (get_prev_pos-back h (suc j) ci wide (omega arith)) refl late'))
        ]
      ]
    where
      at_cur : suc j ≡ h.count → (q == h.cur) ≡ true
      at_cur full =
          (==_iff q h.cur).1 (eq ∙ ap (back h.count h.cur) full ∙ back_full h.count h.cur ci)

      not_cur : suc j ≢ h.count → (q == h.cur) ≡ false
      not_cur part = ground (arith, cur-ne-back h.count h.cur j ci)

      in_bounds : suc j ≢ h.count → ltb q (length tuples) ≡ true
      in_bounds part =
          lt→ltb q (length tuples)
            (omega (arith, eq, back-lt h.count h.cur (suc j) ci (omega arith)))

      fits : suc j ≢ h.count → ts <ℤ tuple_ts -ℤ pos h.freq +ℤ pos h.freq
      fits part = omega int_laws

      stamp_ts : tuple_ts -ℤ pos h.freq ≡ slot_ts h (suc j)
      stamp_ts = omega (int_laws, parts_of_eq _ _ et)
