-- ===== src/Block/Find/Total.antt =====
-- find_tuple of src/rrdb/rrdb_metric_block.cpp as a whole, on a well-formed block.
use stats_rrdb.Prelude.{◌≡◌, refl, inl, inr, List, none, Bool-cases}
use stats_rrdb.Prelude.Int.{ℤ, pos, ◌+ℤ◌, ◌-ℤ◌, ◌<ℤ◌, leb_ℤ, leb→le_ℤ, lt→ltb_ℤ, int_laws}
use stats_rrdb.Prelude.Result.{ok}
use stats_rrdb.Value.{Value}
use stats_rrdb.Tuple.{Tuple}
use stats_rrdb.Block.{Header, UpdateCtx, get_ts, get_latest_possible_ts, get_earliest_ts}
use stats_rrdb.Block.Find.{find_tuple}
use stats_rrdb.Block.Find.Ages.{IsRing}
use stats_rrdb.Block.Find.Spec.{Finds, too_old, tell_same}
use stats_rrdb.Block.Find.Cases.{
  find_tuple-branches, far_Finds, stop_Finds, shift_Finds, behind_Finds, Keeps-same, Fresh-same,
}

module _ {W : Type 0} ⦃v : Value W⦄ {h : Header} {tuples : List (Tuple W)} (r : IsRing h tuples)
    (input out : UpdateCtx W) (ts : ℤ) where
  way_behind_Finds :
      ts <ℤ get_earliest_ts h
      → ts <ℤ h.cur_ts
      → Finds h tuples input out ts
          (ok (record { header = h; tuples = tuples; out = input; slot = none }))
  unfolding get_earliest_ts
  way_behind_Finds late early = record {
    at = h.cur;
    at_ts = h.cur_ts;
    result = tuples;
    slot = none;
    message = input;
    returns = refl;
    ring = r;
    held = too_old (omega int_laws) refl;
    told = tell_same early refl;
    keeps = Keeps-same r ts;
    fresh = Fresh-same r ts tuples (omega int_laws);
  }

  -- On a well-formed block find_tuple returns for every timestamp: the ring stays well formed under
  -- the same policy, the slot holds the timestamp, or there is none as it is older than the whole
  -- block, the slots that are new, or any if the whole block is outrun, hold no data, and the message
  -- for the next block is to stop, to roll up the slot that was current, or to take the same update,
  -- as the timestamp lies in, after or before that slot.
  pub find_tuple-Finds :
      get_ts input ≡ ok ts → Finds h tuples input out ts (find_tuple h tuples input out)
  unfolding get_latest_possible_ts get_earliest_ts
  find_tuple-Finds e =
      rw (find_tuple-branches r input out ts e)
        (elim (Bool-cases (leb_ℤ (h.cur_ts +ℤ pos h.duration) ts)) [
          | inl far ↦
              rw far (far_Finds r input out ts (leb→le_ℤ (h.cur_ts +ℤ pos h.duration) ts far))
          | inr within ↦ elim (Bool-cases (leb_ℤ h.cur_ts ts)) [
            | inl ahead ↦ elim (Bool-cases (leb_ℤ (h.cur_ts +ℤ pos h.freq) ts)) [
              | inl past ↦
                  rw (within, ahead) (shift_Finds r input out ts (omega int_laws) (omega int_laws))
              | inr here ↦
                  rw (within, ahead) (stop_Finds r input out ts (omega int_laws) (omega int_laws))
            ]
            | inr behind ↦ elim (Bool-cases (leb_ℤ (h.cur_ts -ℤ pos h.duration -ℤ pos h.freq) ts)) [
              | inl near ↦ rw (within, behind, near) (behind_Finds r input out ts (omega int_laws))
              | inr late ↦
                  rw
                    (
                      within,
                      behind,
                      late,
                      lt→ltb_ℤ ts (h.cur_ts -ℤ pos h.duration -ℤ pos h.freq) (omega int_laws),
                    )
                    (way_behind_Finds (omega int_laws) (omega int_laws))
            ]
          ]
        ])
