-- ===== src/Block/Find/Cases.antt =====
-- The four branches of find_tuple of src/rrdb/rrdb_metric_block.cpp on a well-formed block: none
-- throws, and each keeps the promise of Spec.antt.
use native.Mathlib.Decide.{dec_lt}
use native.Mathlib.Nat.{mul-div_cancel}
use stats_rrdb.Prelude.{
  ℕ, ◌+◌, ◌-◌, ◌*◌, ◌≤◌, ◌<◌, ◌≡◌, refl, sym, ap, ◌∙◌, inl, inr, List, length, Option, some, none,
  arith, if◌then◌else◌, lt→ltb, replicate, length-replicate, get_or-replicate, ◌/◌,
}
use stats_rrdb.Prelude.Int.{
  ℤ, pos, ◌+ℤ◌, ◌≤ℤ◌, ◌<ℤ◌, leb_ℤ, ltb_ℤ, int_laws, parts_of_eq, lt→ltb_ℤ, ge→ltb_ℤ,
}
use stats_rrdb.Prelude.Result.{Result, ok, ◌>>◌, require}
use stats_rrdb.Block.Find.Spec.{
  SameData, tell_stop, tell_rollup, tell_same, Held, in_slot, too_old, Keeps, Fresh, Finds,
}
use stats_rrdb.Block.Find.Rings.{
  restarted, restarted_first, restarted_blank, restarted-IsRing, Shifted-IsRing, Walked-IsRing,
  last-lt-filled,
}
use stats_rrdb.Value.{Value}
use stats_rrdb.Tuple.{Tuple, zero_tuple, get_at}
use stats_rrdb.Block.{
  Header, UpdateCtx, stop, rollup, get_ts, get_prev_pos, get_earliest_ts, get_latest_possible_ts,
  check_tuples,
}
use stats_rrdb.Block.Find.{advance, walk_back, find_tuple, find_far_ahead, find_ahead, find_behind}
use stats_rrdb.Block.Find.Ages.{Shape, IsRing, age, back_zero, get_prev_pos-back}
use stats_rrdb.Block.Find.Advance.{moved_header, Shifted, Advanced, advance-Advanced}
use stats_rrdb.Block.Find.Behind.{with_ts, Outcome, Walked, walk_back-Walked}

-- Slots that begin at the same time are of the same age.
same_age : (f j k : ℕ) → 0 < f → j * f ≡ k * f → j ≡ k
same_age f j k p e = sym (mul-div_cancel j p) ∙ ap (λ (n : ℕ). n / f) e ∙ mul-div_cancel k p

freq-le-duration : {h : Header} → Shape h → h.freq ≤ h.duration
freq-le-duration {h} s = rw s.duration_is (grind (arith, s.cur_in))

module _ {W : Type 0} ⦃v : Value W⦄ {h : Header} {tuples : List (Tuple W)}
    (r : IsRing h tuples) where
  pub check_tuples-ok : check_tuples h tuples ≡ ok tt
  unfolding check_tuples
  check_tuples-ok = ground (arith, r.sized, r.shape.data_size_is, r.filled_in)

  pub get_at-cur : get_at tuples h.cur ≡ ok (age h.count h.cur tuples 0)
  unfolding age
  get_at-cur = rw (
    back_zero h.count h.cur,
    lt→ltb h.cur (length tuples) (omega (arith, r.sized, r.shape.cur_in)),
  )

  pub current_ts : (age h.count h.cur tuples 0).ts ≡ h.cur_ts
  current_ts = r.stamped 0 (omega (arith, r.filled_in)) ∙ omega int_laws

  pub find_tuple-branches :
      (input out : UpdateCtx W) (ts : ℤ)
      → get_ts input ≡ ok ts
      → find_tuple h tuples input out ≡ (
          if leb_ℤ (get_latest_possible_ts h) ts
          then find_far_ahead h tuples out ts
          else if leb_ℤ h.cur_ts ts
          then find_ahead h tuples out ts
          else if leb_ℤ (get_earliest_ts h) ts
          then find_behind h tuples input ts
          else (do
            require (ltb_ℤ ts (get_earliest_ts h))
            ok (record { header = h; tuples = tuples; out = input; slot = none })))
  unfolding find_tuple
  find_tuple-branches input out ts e =
      rw (check_tuples-ok, lt→ltb h.cur h.count r.shape.cur_in, lt→ltb 0 h.freq r.shape.freq_pos, e)

  pub Keeps-same : (ts : ℤ) → Keeps h tuples ts h tuples
  Keeps-same ts early k k' hk hk' e =
      ap (λ n. with_ts (age h.count h.cur tuples n) (pos 0))
        (same_age h.freq k k' r.shape.freq_pos (omega (int_laws, parts_of_eq _ _ e)))

  -- No slot begins after the current one.
  pub Fresh-same :
      (ts : ℤ) (tuples' : List (Tuple W)) → ts <ℤ h.cur_ts +ℤ pos h.duration → Fresh h ts h tuples'
  Fresh-same ts tuples' early k hk (inl later) = absurd (omega int_laws)
  Fresh-same ts tuples' early k hk (inr outrun) = absurd (omega int_laws)

  pub far_Finds :
      (input out : UpdateCtx W) (ts : ℤ)
      → h.cur_ts +ℤ pos h.duration ≤ℤ ts
      → Finds h tuples input out ts (find_far_ahead h tuples out ts)
  unfolding find_far_ahead
  far_Finds input out ts far = record {
    at = 0;
    at_ts = ts;
    result = restarted r ts;
    slot = some 0;
    message = record out { state = rollup; tuple = age h.count h.cur tuples 0 };
    returns = rw (
      get_at-cur,
      lt→ltb 0 (length (replicate (length tuples) (zero_tuple {W = W}))) some_room,
      get_or-replicate (length tuples) 0 (zero_tuple {W = W}),
    );
    ring = restarted-IsRing r ts;
    held =
        in_slot 0 (restarted-IsRing r ts).filled_in.0 (omega int_laws)
          (omega (int_laws, r.shape.freq_pos)) (ap some (sym (back_zero h.count 0)));
    told = tell_rollup (omega (int_laws, freq-le-duration r.shape)) refl;
    keeps = λ early. absurd (omega int_laws);
    fresh = λ k hk side. elim (dec_lt 0 k) [
      | yes older ↦
          ap (λ (x : Tuple W). with_ts x (pos 0)) (restarted_blank r ts k (omega arith) hk)
      | no youngest ↦
          ap (λ n. with_ts (age h.count 0 (restarted r ts) n) (pos 0)) (omega arith)
          ∙ ap (λ (x : Tuple W). with_ts x (pos 0)) (restarted_first r ts)
    ];
  }
    where
      some_room : 0 < length (replicate (length tuples) (zero_tuple {W = W}))
      some_room =
          omega (arith, length-replicate (length tuples) (zero_tuple {W = W}), r.sized, r.filled_in)

  module _ (input out : UpdateCtx W) (ts : ℤ) where
    next_ts : (age h.count h.cur tuples 0).ts +ℤ pos h.freq ≡ h.cur_ts +ℤ pos h.freq
    next_ts = ap (λ t. t +ℤ pos h.freq) current_ts

    pub stop_Finds :
        h.cur_ts ≤ℤ ts
        → ts <ℤ h.cur_ts +ℤ pos h.freq
        → Finds h tuples input out ts (find_ahead h tuples out ts)
    unfolding find_ahead
    stop_Finds lo hi = record {
      at = h.cur;
      at_ts = h.cur_ts;
      result = tuples;
      slot = some h.cur;
      message = record out { state = stop };
      returns = rw (get_at-cur, next_ts, lt→ltb_ℤ ts _ hi);
      ring = r;
      held =
          in_slot 0 r.filled_in.0 (omega int_laws) (omega int_laws)
            (ap some (sym (back_zero h.count h.cur)));
      told = tell_stop lo hi refl;
      keeps = Keeps-same ts;
      fresh = Fresh-same ts tuples (omega (int_laws, freq-le-duration r.shape));
    }

    shift_Keeps :
        {c : ℕ} {t : ℤ} {tuples' : List (Tuple W)}
        → Shifted h tuples c t tuples'
        → Keeps h tuples ts (moved_header h c t) tuples'
    shift_Keeps {c} {t} {tuples'} s early k k' hk hk' e =
        ap (λ (x : Tuple W). with_ts x (pos 0)) (sym (s.older k k' aged hk'))
      where
        aged : k' ≡ s.rounds + k
        aged =
            same_age h.freq k' (s.rounds + k) r.shape.freq_pos
              (omega (int_laws, parts_of_eq _ _ e, parts_of_eq _ _ s.moved))

    shift_Fresh :
        {c : ℕ} {t : ℤ} {tuples' : List (Tuple W)}
        → ts <ℤ h.cur_ts +ℤ pos h.duration
        → Shifted h tuples c t tuples'
        → Fresh h ts (moved_header h c t) tuples'
    shift_Fresh early s k hk (inr outrun) = absurd (omega int_laws)
    shift_Fresh {c} {t} {tuples'} early s k hk (inl later) =
        ap (λ (x : Tuple W). with_ts x (pos 0)) (s.fresh k young hk)
      where
        times : s.rounds ≤ k → k * h.freq ≡ s.rounds * h.freq + (k - s.rounds) * h.freq
        times old = omega (arith, ap (λ (n : ℕ). n * h.freq) (past old))
          where
            past : s.rounds ≤ k → k ≡ s.rounds + (k - s.rounds)
            past o = omega arith

        young : k < s.rounds
        young = elim (dec_lt k s.rounds) [
          | yes p ↦ p
          | no old ↦ absurd (omega (int_laws, parts_of_eq _ _ s.moved, times (omega arith)))
        ]

    pub shift_Finds :
        h.cur_ts +ℤ pos h.freq ≤ℤ ts
        → ts <ℤ h.cur_ts +ℤ pos h.duration
        → Finds h tuples input out ts (find_ahead h tuples out ts)
    unfolding find_ahead
    shift_Finds lo hi = record {
      at = a.at;
      at_ts = a.at_ts;
      result = a.result;
      slot = some a.at;
      message = record out { state = rollup; tuple = age h.count h.cur tuples 0 };
      returns = rw (get_at-cur, next_ts, ge→ltb_ℤ ts _ lo, a.returns);
      ring = Shifted-IsRing r a.shifted;
      held =
          in_slot 0 (Shifted-IsRing r a.shifted).filled_in.0 (omega (int_laws, a.holds))
            (omega (int_laws, a.holds)) (ap some (sym (back_zero h.count a.at)));
      told = tell_rollup lo refl;
      keeps = shift_Keeps a.shifted;
      fresh = shift_Fresh hi a.shifted;
    }
      where
        within : h.duration ≡ h.count * h.freq
        within = r.shape.duration_is ∙ omega arith

        a : Advanced h tuples ts (advance h.count h tuples (h.cur_ts +ℤ pos h.freq) ts)
        a =
            advance-Advanced h.count h tuples (h.cur_ts +ℤ pos h.freq) ts r.shape.cur_in
              r.shape.count_in r.sized refl lo (omega (int_laws, within))

    walk_Held :
        {res : Result (List (Tuple W) × Option ℕ)} (w : Walked h tuples ts 0 res)
        → Outcome h ts 0 w.last w.slot
        → Held h ts (Walked-IsRing r w).filled w.slot
    walk_Held w (inl (e, young, lo, hi)) = in_slot w.last (last-lt-filled r w) lo hi e
    walk_Held w (inr (e, end, late)) = too_old (omega (int_laws, r.shape.duration_is, times)) e
      where
        times : w.last * h.freq + h.freq ≡ h.count * h.freq
        times = omega (arith, ap (λ (n : ℕ). n * h.freq) end)

    walk_SameData :
        {res : Result (List (Tuple W) × Option ℕ)} (w : Walked h tuples ts 0 res) (k : ℕ)
        → k < h.count
        → SameData (age h.count h.cur tuples k) (age h.count h.cur w.result k)
    walk_SameData w k hk = elim (dec_lt w.last k) [
      | yes past ↦ ap (λ (x : Tuple W). with_ts x (pos 0)) (sym (w.kept k hk (inr past)))
      | no near ↦ elim (dec_lt 0 k) [
        | yes older ↦ ap (λ (x : Tuple W). with_ts x (pos 0)) (sym (w.seen k older (omega arith)))
        | no youngest ↦
            ap (λ (x : Tuple W). with_ts x (pos 0)) (sym (w.kept k hk (inl (omega arith))))
      ]
    ]

    pub behind_Finds : ts <ℤ h.cur_ts → Finds h tuples input out ts (find_behind h tuples input ts)
    unfolding find_behind
    behind_Finds late = record {
      at = h.cur;
      at_ts = h.cur_ts;
      result = w.result;
      slot = w.slot;
      message = input;
      returns = rw w.returns;
      ring = Walked-IsRing r w;
      held = walk_Held w w.outcome;
      told = tell_same late refl;
      keeps = λ early k k' hk hk' e.
          walk_SameData w k hk
          ∙ ap (λ n. with_ts (age h.count h.cur w.result n) (pos 0))
              (same_age h.freq k k' r.shape.freq_pos (omega (int_laws, parts_of_eq _ _ e)));
      fresh = Fresh-same ts w.result (omega int_laws);
    }
      where
        w : Walked h tuples ts 0 (walk_back h.count h tuples (get_prev_pos h h.cur) h.cur_ts ts)
        w =
            walk_back-Walked h.count h tuples 0 (get_prev_pos h h.cur) h.cur_ts ts r.shape.cur_in
              r.shape.count_in r.sized (omega (arith, r.filled_in)) (omega arith)
              (ap (get_prev_pos h) (sym (back_zero h.count h.cur))
                ∙ get_prev_pos-back h 0 r.shape.cur_in r.shape.count_in
                    (omega (arith, r.filled_in)))
              (omega int_laws) late
