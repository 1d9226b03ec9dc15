-- ===== src/Block/Select/Laws.antt =====
-- rrdb_metric_block::select of src/rrdb/rrdb_metric_block.cpp: stopping at the first slot that is too
-- old loses nothing.
use native.Mathlib.Decide.{dec_lt}
use stats_rrdb.Prelude.{
  ℕ, zero, suc, ◌+◌, ◌*◌, ◌≤◌, ◌<◌, ◌≡◌, refl, sym, ap, ◌∙◌, inl, inr, List, [], ◌∷◌, length, arith,
  true, false, lt→ltb, ==_iff, ◌==◌, ◌&&◌, Bool, Bool-cases, if◌then◌else◌,
}
use stats_rrdb.Prelude.Int.{
  ℤ, pos, negsuc, ◌+ℤ◌, ◌≤ℤ◌, ◌<ℤ◌, ltb_ℤ, leb_ℤ, int_laws, parts_of_eq, leb→le_ℤ, leb→gt_ℤ,
  ge→ltb_ℤ, gt→leb_ℤ, le→leb_ℤ, lt→ltb_ℤ,
}
use stats_rrdb.Prelude.Result.{Result, ok, ◌>>=◌}
use stats_rrdb.Common.{interval_overlap}
use mathlib.Core.Path.{fun_ext}
use stats_rrdb.Value.{Value}
use stats_rrdb.Tuple.{Tuple, get_at}
use stats_rrdb.Block.{Header, Block, get_prev_pos}
use stats_rrdb.Block.Find.Ages.{
  IsRing, age, back, back_zero, back-lt, back_full, cur-ne-back, get_prev_pos-back,
}
use stats_rrdb.Block.Find.Cases.{check_tuples-ok}
use stats_rrdb.Block.Update.{get_tuples}
use stats_rrdb.Block.Select.{Walker, on_overlap, select_loop, select}

module _ {W : Type 0} ⦃v : Value W⦄ where
  -- The slot [ts, ts + freq) and the query [ts1, ts2) have a moment in common.
  unfoldable pub overlaps : ℕ → ℤ → ℤ → Tuple W → Bool
  overlaps freq ts1 ts2 t = ltb_ℤ ts1 (t.ts +ℤ pos freq) && ltb_ℤ t.ts ts2

  unfoldable pub selected : ℕ → ℤ → ℤ → List (Tuple W) → List (Tuple W)
  selected freq ts1 ts2 [] = []
  selected freq ts1 ts2 (t ∷ ts) =
      let rest = selected freq ts1 ts2 ts in if overlaps freq ts1 ts2 t then t ∷ rest else rest

  -- n slots from age i on, newest first.
  pub aged : Header → List (Tuple W) → ℕ → ℕ → List (Tuple W)
  aged h tuples zero i = []
  aged h tuples (suc n) i = age h.count h.cur tuples i ∷ aged h tuples n (suc i)

  unfoldable pub append_all : {S : Type 0} → Walker W S → ℕ → S → List (Tuple W) → Result S
  append_all w freq s [] = ok s
  append_all w freq s (t ∷ ts) = do s' ← w.append s t freq; append_all w freq s' ts

module _ {W : Type 0} ⦃v : Value W⦄ {h : Header} {tuples : List (Tuple W)} (r : IsRing h tuples)
    (ts1 ts2 : ℤ) (positive : pos h.freq ≤ℤ ts1) where
  -- Once a slot ends before the query, so does every older one.
  ended :
      (i j : ℕ)
      → i ≤ j
      → j < h.count
      → (age h.count h.cur tuples i).ts +ℤ pos h.freq ≤ℤ ts1
      → (age h.count h.cur tuples j).ts +ℤ pos h.freq ≤ℤ ts1
  ended i j le hj out = elim (dec_lt j r.filled) [
    | yes full ↦
        let older : i * h.freq ≤ j * h.freq = grind arith in
        omega (
          int_laws,
          older,
          parts_of_eq _ _ (r.stamped i (omega arith)),
          parts_of_eq _ _ (r.stamped j full),
        )
    | no empty ↦
        omega (int_laws, parts_of_eq _ _ (ap (λ (t : Tuple W). t.ts) (r.blank j (omega arith) hj)))
  ]

  ended-not-selected :
      (n i : ℕ)
      → i + n ≡ h.count
      → (0 < n → (age h.count h.cur tuples i).ts +ℤ pos h.freq ≤ℤ ts1)
      → selected h.freq ts1 ts2 (aged h tuples n i) ≡ []
  unfolding selected aged overlaps
  ended-not-selected zero i e out = refl
  ended-not-selected (suc n) i e out =
      rw (ge→ltb_ℤ ts1 ((age h.count h.cur tuples i).ts +ℤ pos h.freq) (out (omega arith))) (
        ended-not-selected n (suc i) (omega arith)
          (λ some_left. ended i (suc i) (omega arith) (omega arith) (out (omega arith))))

  before :
      (t : Tuple W)
      → t.ts +ℤ pos h.freq ≤ℤ ts1
      → interval_overlap t.ts (t.ts +ℤ pos h.freq) ts1 ts2 ≡ negsuc 0
  unfolding interval_overlap
  before t le = rw (le→leb_ℤ (t.ts +ℤ pos h.freq) ts1 le)

  beyond :
      (t : Tuple W)
      → ts1 <ℤ t.ts +ℤ pos h.freq
      → ts2 ≤ℤ t.ts
      → (interval_overlap t.ts (t.ts +ℤ pos h.freq) ts1 ts2 ≡ pos 1)
        × (overlaps h.freq ts1 ts2 t ≡ false)
  unfolding interval_overlap overlaps
  beyond t lt le = (
    rw (gt→leb_ℤ (t.ts +ℤ pos h.freq) ts1 lt, le→leb_ℤ ts2 t.ts le),
    rw (lt→ltb_ℤ ts1 (t.ts +ℤ pos h.freq) lt, ge→ltb_ℤ t.ts ts2 le),
  )

  meets :
      (t : Tuple W)
      → ts1 <ℤ t.ts +ℤ pos h.freq
      → t.ts <ℤ ts2
      → (interval_overlap t.ts (t.ts +ℤ pos h.freq) ts1 ts2 ≡ pos 0)
        × (overlaps h.freq ts1 ts2 t ≡ true)
  unfolding interval_overlap overlaps
  meets t lt lt' = (
    rw (gt→leb_ℤ (t.ts +ℤ pos h.freq) ts1 lt, gt→leb_ℤ ts2 t.ts lt'),
    rw (lt→ltb_ℤ ts1 (t.ts +ℤ pos h.freq) lt, lt→ltb_ℤ t.ts ts2 lt'),
  )

  get_at-back :
      (i : ℕ) → i < h.count → get_at tuples (back h.count h.cur i) ≡ ok (age h.count h.cur tuples i)
  unfolding age
  get_at-back i hi = rw (
      lt→ltb (back h.count h.cur i) (length tuples)
        (omega (arith, r.sized, back-lt h.count h.cur i r.shape.cur_in hi)))

  module _ {S : Type 0} (w : Walker W S) where
    loop_step :
        (n i p : ℕ) (s : S)
        → p ≡ back h.count h.cur i
        → i < h.count
        → let t = age h.count h.cur tuples i in
          select_loop w (suc n) h tuples ts1 ts2 p s
          ≡ on_overlap w
              (interval_overlap t.ts (t.ts +ℤ pos h.freq) ts1 ts2)
              t
              h
              p
              (select_loop w n h tuples ts1 ts2)
              s
    unfolding select_loop
    loop_step n i p s at hi = rw (at, get_at-back i hi)

    abbrev onward : ℕ → ℕ → S → Result S
    onward n p s =
        if get_prev_pos h p == h.cur
        then ok s
        else select_loop w n h tuples ts1 ts2 (get_prev_pos h p) s

    abbrev Onward : ℕ → ℕ → ℕ → Type 0
    Onward n i p =
        (s : S)
        → onward n p s ≡ append_all w h.freq s (selected h.freq ts1 ts2 (aged h tuples n (suc i)))

    left :
        (n i p : ℕ) (s : S)
        → on_overlap w
            (negsuc 0)
            (age h.count h.cur tuples i)
            h
            p
            (select_loop w n h tuples ts1 ts2)
            s
          ≡ append_all w h.freq s []
    unfolding on_overlap append_all
    left n i p s = refl

    passed :
        (n i p : ℕ) (s : S)
        → overlaps h.freq ts1 ts2 (age h.count h.cur tuples i) ≡ false
        → Onward n i p
        → on_overlap w (pos 1) (age h.count h.cur tuples i) h p (select_loop w n h tuples ts1 ts2) s
          ≡ append_all w h.freq s (selected h.freq ts1 ts2 (aged h tuples (suc n) i))
    unfolding on_overlap aged selected
    passed n i p s ov rest = rw ov (rest s)

    called :
        (n i p : ℕ) (s : S)
        → overlaps h.freq ts1 ts2 (age h.count h.cur tuples i) ≡ true
        → Onward n i p
        → on_overlap w (pos 0) (age h.count h.cur tuples i) h p (select_loop w n h tuples ts1 ts2) s
          ≡ append_all w h.freq s (selected h.freq ts1 ts2 (aged h tuples (suc n) i))
    unfolding on_overlap aged selected append_all
    called n i p s ov rest =
        rw ov (ap (λ k. w.append s (age h.count h.cur tuples i) h.freq >>= k) (fun_ext rest))

    round :
        (n i p : ℕ) (s : S)
        → p ≡ back h.count h.cur i
        → i < h.count
        → Onward n i p
        → ((age h.count h.cur tuples i).ts +ℤ pos h.freq ≤ℤ ts1
            → selected h.freq ts1 ts2 (aged h tuples (suc n) i) ≡ [])
        → select_loop w (suc n) h tuples ts1 ts2 p s
          ≡ append_all w h.freq s (selected h.freq ts1 ts2 (aged h tuples (suc n) i))
    round n i p s at hi rest gone =
        loop_step n i p s at hi ∙ (elim (Bool-cases (leb_ℤ (t.ts +ℤ pos h.freq) ts1)) [
          | inl old ↦
              rw
                (
                  before t (leb→le_ℤ (t.ts +ℤ pos h.freq) ts1 old),
                  gone (leb→le_ℤ (t.ts +ℤ pos h.freq) ts1 old),
                )
                (left n i p s)
          | inr young ↦
              let lt : ts1 <ℤ t.ts +ℤ pos h.freq = leb→gt_ℤ (t.ts +ℤ pos h.freq) ts1 young in
              elim (Bool-cases (leb_ℤ ts2 t.ts)) [
                | inl new ↦
                    let (io, ov) = beyond t lt (leb→le_ℤ ts2 t.ts new) in
                    rw io (passed n i p s ov rest)
                | inr hit ↦
                    let (io, ov) = meets t lt (leb→gt_ℤ ts2 t.ts hit) in
                    rw io (called n i p s ov rest)
              ]
        ])
      where
        t : Tuple W
        t = age h.count h.cur tuples i

    last_turn : (i p : ℕ) → i + 1 ≡ h.count → p ≡ back h.count h.cur i → Onward 0 i p
    unfolding aged selected append_all
    last_turn i p e at s = rw (at, full)
      where
        full : (get_prev_pos h (back h.count h.cur i) == h.cur) ≡ true
        full = (==_iff _ h.cur).1 (
            get_prev_pos-back h i r.shape.cur_in r.shape.count_in (omega arith)
            ∙ ap (back h.count h.cur) (omega arith)
            ∙ back_full h.count h.cur r.shape.cur_in)

    next_turn :
        (n i p : ℕ)
        → i + suc (suc n) ≡ h.count
        → p ≡ back h.count h.cur i
        → ((q : ℕ) (s : S)
            → q ≡ back h.count h.cur (suc i)
            → select_loop w (suc n) h tuples ts1 ts2 q s
              ≡ append_all w h.freq s (selected h.freq ts1 ts2 (aged h tuples (suc n) (suc i))))
        → Onward (suc n) i p
    next_turn n i p e at go s = rw (at, part) (go _ s previous)
      where
        previous : get_prev_pos h (back h.count h.cur i) ≡ back h.count h.cur (suc i)
        previous = get_prev_pos-back h i r.shape.cur_in r.shape.count_in (omega arith)

        part : (get_prev_pos h (back h.count h.cur i) == h.cur) ≡ false
        part = ground (arith, previous, cur-ne-back h.count h.cur i r.shape.cur_in (omega arith))

    -- From the slot of age i on, with as much fuel as slots are left.
    select_loop-selected :
        (n i p : ℕ) (s : S)
        → i + suc n ≡ h.count
        → p ≡ back h.count h.cur i
        → select_loop w (suc n) h tuples ts1 ts2 p s
          ≡ append_all w h.freq s (selected h.freq ts1 ts2 (aged h tuples (suc n) i))
    select_loop-selected zero i p s e at =
        round zero i p s at (omega arith) (last_turn i p e at)
          (λ old. ended-not-selected 1 i e (λ _. old))
    select_loop-selected (suc n) i p s e at =
        round (suc n) i p s at (omega arith)
          (next_turn n i p e at (λ q s'. select_loop-selected n (suc i) q s' (omega arith)))
          (λ old. ended-not-selected (suc (suc n)) i e (λ _. old))

    loop_from_cur :
        (n : ℕ) (s : S)
        → n ≡ h.count
        → select_loop w n h tuples ts1 ts2 h.cur s
          ≡ append_all w h.freq s (selected h.freq ts1 ts2 (aged h tuples n 0))
    loop_from_cur zero s e = absurd (omega (arith, r.filled_in))
    loop_from_cur (suc n) s e =
        select_loop-selected n 0 h.cur s (omega arith) (sym (back_zero h.count h.cur))

module _ {W S : Type 0} ⦃v : Value W⦄ where
  -- select on a well-formed block, for a query that begins at least `freq` after the epoch, calls the
  -- walker with exactly the slots that have a moment in common with the query, newest first.
  pub select-selected :
      (b : Block W) {tuples : List (Tuple W)} (fetched : Result (List (Tuple W))) (ts1 ts2 : ℤ)
      (w : Walker W S) (s : S)
      → get_tuples b fetched ≡ ok tuples
      → IsRing b.header tuples
      → pos b.header.freq ≤ℤ ts1
      → select w b fetched ts1 ts2 s
        ≡ append_all w b.header.freq s
            (selected b.header.freq ts1 ts2 (aged b.header tuples b.header.count 0))
  unfolding select
  select-selected b fetched ts1 ts2 w s g r positive =
      rw (lt→ltb b.header.cur b.header.count r.shape.cur_in, g, check_tuples-ok r)
        (loop_from_cur r ts1 ts2 positive w b.header.count s refl)
