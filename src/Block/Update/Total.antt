-- ===== src/Block/Update/Total.antt =====
-- rrdb_metric_block::update of src/rrdb/rrdb_metric_block.cpp as a whole.
use stats_rrdb.Prelude.{
  ℕ, ◌<◌, ◌≡◌, ◌≢◌, refl, sym, ap, ◌∙◌, List, length, Option, some, none, set, length-set, arith,
  true, lt→ltb, ltb,
}
use stats_rrdb.Prelude.Int.{
  ℤ, pos, ◌+ℤ◌, ◌≤ℤ◌, ◌<ℤ◌, int_laws, parts_of_eq, le→leb_ℤ, lt→ltb_ℤ, eqb-refl_ℤ,
}
use stats_rrdb.Prelude.Result.{Result, ok}
use stats_rrdb.Value.{Value}
use stats_rrdb.Tuple.{Tuple}
use stats_rrdb.Block.{Header, Block, UpdateCtx, get_ts}
use stats_rrdb.Block.Find.{Found, find_tuple}
use stats_rrdb.Block.Find.Ages.{IsRing, age, back, back-lt, age-set_self, age-set_ne}
use stats_rrdb.Block.Find.Behind.{slot_ts}
use stats_rrdb.Block.Find.Spec.{Held, in_slot, too_old, Finds}
use stats_rrdb.Block.Find.Advance.{moved_header}
use stats_rrdb.Block.Find.Cases.{check_tuples-ok, get_at-cur, current_ts}
use stats_rrdb.Block.Find.Total.{find_tuple-Finds}
use stats_rrdb.Block.Update.{get_tuples, write_found, update}
use stats_rrdb.Block.Update.Laws.{
  applied, apply_ctx-eq, applied_ts, set-IsRing, stored, ignored, Framed, Blank, Updates,
}

module _ {W : Type 0} ⦃v : Value W⦄ (b : Block W) (input : UpdateCtx W) (ts : ℤ)
    (e : get_ts input ≡ ok ts) (f : Found W) (r : IsRing f.header f.tuples) where
  -- The contents of the array after the slot of age k has taken the update.
  abbrev written : ℕ → List (Tuple W)
  written k =
      set f.tuples (back f.header.count f.header.cur k)
        (applied input (age f.header.count f.header.cur f.tuples k))

  write_found-some :
      (k : ℕ)
      → k < r.filled
      → slot_ts f.header k ≤ℤ ts
      → ts <ℤ slot_ts f.header k +ℤ pos f.header.freq
      → f.slot ≡ some (back f.header.count f.header.cur k)
      → write_found b input f
        ≡ ok (record {
          block = record { header = f.header; modified = some (written k) };
          tuples = written k;
          out = f.out;
        })
  unfolding write_found age
  write_found-some k hk lo hi at = rw (
    at,
    write_found,
    in_bounds,
    e,
    le→leb_ℤ old.ts ts (omega (int_laws, at_ts)),
    lt→ltb_ℤ ts (old.ts +ℤ pos f.header.freq) (omega (int_laws, at_ts)),
    apply_ctx-eq input ts old e,
  )
    where
      old : Tuple W
      old = age f.header.count f.header.cur f.tuples k

      at_ts : old.ts ≡ slot_ts f.header k
      at_ts = r.stamped k hk

      in_bounds : ltb (back f.header.count f.header.cur k) (length f.tuples) ≡ true
      in_bounds = lt→ltb _ _ (
          omega (
            arith,
            r.sized,
            r.filled_in,
            back-lt f.header.count f.header.cur k r.shape.cur_in (omega (arith, r.filled_in)),
          ))

  write_found-none :
      f.slot ≡ none
      → write_found b input f
        ≡ ok (record {
          block = record {
            header = f.header;
            modified = elim b.modified [ none ↦ none | some old ↦ some f.tuples ];
          };
          tuples = f.tuples;
          out = f.out;
        })
  unfolding write_found
  write_found-none at = rw (at, write_found)

module _ {W : Type 0} ⦃v : Value W⦄ (b : Block W) {tuples : List (Tuple W)}
    (r : IsRing b.header tuples) (input out : UpdateCtx W) (ts : ℤ) (e : get_ts input ≡ ok ts)
    (w : Finds b.header tuples input out ts (find_tuple b.header tuples input out)) where
  abbrev after : Header
  after = moved_header b.header w.at w.at_ts

  abbrev found : Found W
  found = record { header = after; tuples = w.result; out = w.message; slot = w.slot }

  module _ (k : ℕ) (hk : k < w.ring.filled) (lo : slot_ts after k ≤ℤ ts)
      (hi : ts <ℤ slot_ts after k +ℤ pos b.header.freq)
      (at : w.slot ≡ some (back b.header.count w.at k)) where
    abbrev target : List (Tuple W)
    target = written b input ts e found w.ring k

    target_ne :
        (i : ℕ)
        → i < b.header.count
        → k ≢ i
        → age b.header.count w.at target i ≡ age b.header.count w.at w.result i
    target_ne i hi' n =
        age-set_ne b.header.count w.at w.result k i _ w.ring.shape.cur_in
          (omega (arith, w.ring.filled_in)) hi' n

    target_frame : Framed b.header tuples ts after target
    target_frame early j i hj hi' same side =
        w.keeps early j i hj hi' same
        ∙ ap (λ (x : Tuple W). record x { ts = pos 0 }) (sym (target_ne i hi' other))
      where
        other : k ≢ i
        other same_k = absurd (omega (int_laws, parts_of_eq _ _ same, ap (slot_ts after) same_k))

    target-Blank : Blank b.header ts after target
    target-Blank i hi' side away =
        ap (λ (x : Tuple W). record x { ts = pos 0 }) (target_ne i hi' other) ∙ w.fresh i hi' side
      where
        other : k ≢ i
        other same_k = absurd (omega (int_laws, ap (slot_ts after) same_k))

    coherent_some :
        get_tuples (record { header = after; modified = some target }) (ok target) ≡ ok target
    unfolding get_tuples
    coherent_some = rw (
        lt→ltb 0 (length target) (
          omega (
            arith,
            length-set w.result (back b.header.count w.at k)
                (applied input (age b.header.count w.at w.result k)),
            w.ring.sized,
            w.ring.filled_in,
          )))

    write_Updates : Updates b.header tuples input out ts (write_found b input found)
    write_Updates = record {
      at = w.at;
      at_ts = w.at_ts;
      result = target;
      kept = some target;
      message = w.message;
      returns = write_found-some b input ts e found w.ring k hk lo hi at;
      ring =
          set-IsRing w.ring k (applied input (age b.header.count w.at w.result k)) hk
            (applied_ts input (age b.header.count w.at w.result k) ∙ w.ring.stamped k hk);
      told = w.told;
      coherent = coherent_some;
      stores =
          stored k (age b.header.count w.at w.result k) (omega (arith, w.ring.filled_in)) lo hi
            (age-set_self b.header.count w.at w.result k _ w.ring.sized w.ring.shape.cur_in
              (omega (arith, w.ring.filled_in)))
            (λ early j hj same. w.keeps early j k hj (omega (arith, w.ring.filled_in)) same)
            (λ side. w.fresh k (omega (arith, w.ring.filled_in)) side) refl;
      frame = target_frame;
      blank = target-Blank;
    }

  left_modified : Option (List (Tuple W)) → Option (List (Tuple W))
  left_modified o = elim o [ none ↦ none | some old ↦ some w.result ]

  coherent_left :
      (o : Option (List (Tuple W)))
      → get_tuples (record { header = after; modified = left_modified o }) (ok w.result)
        ≡ ok w.result
  unfolding get_tuples left_modified
  coherent_left none =
      rw (lt→ltb 0 (length w.result) (omega (arith, w.ring.sized, w.ring.filled_in)))
  coherent_left (some old) =
      rw (lt→ltb 0 (length w.result) (omega (arith, w.ring.sized, w.ring.filled_in)))

  coherent_none :
      get_tuples
        (record {
          header = after;
          modified = elim b.modified [ none ↦ none | some old ↦ some w.result ];
        })
        (ok w.result)
      ≡ ok w.result
  unfolding left_modified
  coherent_none = coherent_left b.modified

  none-Updates :
      w.slot ≡ none
      → ts +ℤ pos b.header.duration <ℤ w.at_ts +ℤ pos b.header.freq
      → Updates b.header tuples input out ts (write_found b input found)
  none-Updates at late = record {
    at = w.at;
    at_ts = w.at_ts;
    result = w.result;
    kept = elim b.modified [ none ↦ none | some old ↦ some w.result ];
    message = w.message;
    returns = write_found-none b input ts e found w.ring at;
    ring = w.ring;
    told = w.told;
    coherent = coherent_none;
    stores = ignored late;
    frame = λ early j i hj hi' same side. w.keeps early j i hj hi' same;
    blank = λ i hi' side away. w.fresh i hi' side;
  }

  Held-Updates :
      Held after ts w.ring.filled w.slot
      → Updates b.header tuples input out ts (write_found b input found)
  Held-Updates (in_slot k hk lo hi at) = write_Updates k hk lo hi at
  Held-Updates (too_old late at) = none-Updates at late

module _ {W : Type 0} ⦃v : Value W⦄ where
  -- An update of a well-formed block, for any timestamp and any array that get_tuples yields, returns:
  -- the ring stays well formed under the same policy; the slot that holds the timestamp takes the
  -- value or the tuple over what was held for its time, or over no data if the slot begins after those
  -- of the old ring or the whole block is outrun, or the timestamp is older than the whole block; the
  -- other slots keep their data until the block is outrun, and hold none if they are new or it is
  -- outrun; and the message is as find_tuple gives it.
  pub update-Updates :
      (b : Block W) {tuples : List (Tuple W)} (fetched : Result (List (Tuple W)))
      (input out : UpdateCtx W) (ts : ℤ)
      → get_tuples b fetched ≡ ok tuples
      → IsRing b.header tuples
      → get_ts input ≡ ok ts
      → Updates b.header tuples input out ts (update b fetched input out)
  unfolding update
  update-Updates b fetched input out ts g r e =
      let w = find_tuple-Finds r input out ts e in
      rw
        (
          g,
          check_tuples-ok r,
          get_at-cur r,
          eqb-refl_ℤ b.header.cur_ts _ (sym (current_ts r)),
          w.returns,
        )
        (Held-Updates b r input out ts e w w.held)
