-- ===== src/Block/Update/Laws.antt =====
-- rrdb_metric_block::update of src/rrdb/rrdb_metric_block.cpp on a well-formed block.
use native.Mathlib.Decide.{ℕ_discrete}
use stats_rrdb.Prelude.{ℕ, ◌<◌, ◌≡◌, ◌≢◌, ap, ◌∙◌, ◌⊎◌, List, Option, some, set, length-set, arith}
use stats_rrdb.Prelude.Int.{ℤ, pos, ◌+ℤ◌, ◌≤ℤ◌, ◌<ℤ◌}
use stats_rrdb.Prelude.Result.{Result, ok}
use stats_rrdb.Value.{Value}
use stats_rrdb.Tuple.{Tuple, zero_tuple, update_value, update_tuple}
use stats_rrdb.Block.{Header, UpdateCtx, stop, single, rollup, get_ts}
use stats_rrdb.Block.Find.Ages.{IsRing, age, back, age-set_self, age-set_ne}
use stats_rrdb.Block.Find.Advance.{moved_header}
use stats_rrdb.Block.Find.Behind.{slot_ts}
use stats_rrdb.Block.Find.Spec.{SameData, Told}
use stats_rrdb.Block.Update.{Updated, get_tuples, apply_ctx}

module _ {W : Type 0} ⦃v : Value W⦄ where
  -- What an update means for the slot that takes it.
  pub applied : UpdateCtx W → Tuple W → Tuple W
  applied input t = elim input.state [
    | stop ↦ t
    | single ↦ update_value t input.value
    | rollup ↦ update_tuple t input.tuple
  ]

  pub apply_ctx-eq :
      (input : UpdateCtx W) (ts : ℤ) (t : Tuple W)
      → get_ts input ≡ ok ts
      → apply_ctx input t ≡ ok (applied input t)
  unfolding apply_ctx applied get_ts
  apply_ctx-eq input ts t e = ground arith

  pub applied_ts : (input : UpdateCtx W) (t : Tuple W) → (applied input t).ts ≡ t.ts
  unfolding applied update_value update_tuple
  applied_ts input t = ground arith

  -- A write that keeps the timestamp of a filled slot keeps the ring.
  pub set-IsRing :
      {h : Header} {tuples : List (Tuple W)} (r : IsRing h tuples) (k : ℕ) (t : Tuple W)
      → k < r.filled
      → t.ts ≡ slot_ts h k
      → IsRing h (set tuples (back h.count h.cur k) t)
  set-IsRing {h} {tuples} r k t hk e = record {
    shape = r.shape;
    sized = length-set tuples _ t ∙ r.sized;
    filled = r.filled;
    filled_in = r.filled_in;
    stamped = λ i hi. elim (ℕ_discrete k i) [
      | yes here ↦ rw (← here) (
          ap (λ (x : Tuple W). x.ts)
            (age-set_self h.count h.cur tuples k t r.sized r.shape.cur_in
              (omega (arith, r.filled_in)))
          ∙ e)
      | no other ↦
          ap (λ (x : Tuple W). x.ts) (away i other (omega (arith, r.filled_in))) ∙ r.stamped i hi
    ];
    blank = λ i lo hi. away i (omega arith) hi ∙ r.blank i lo hi;
  }
    where
      away :
          (i : ℕ)
          → k ≢ i
          → i < h.count
          → age h.count h.cur (set tuples (back h.count h.cur k) t) i ≡ age h.count h.cur tuples i
      away i n hi =
          age-set_ne h.count h.cur tuples k i t r.shape.cur_in (omega (arith, r.filled_in)) hi n

  -- The slot of age k of the new ring took the update over what the ring held for its time, or the
  -- timestamp is older than the whole block, and no slot took it.
  pub data Stored (h : Header) (tuples : List (Tuple W)) (input : UpdateCtx W) (ts : ℤ)
      (h' : Header) (tuples' : List (Tuple W)) (kept : Option (List (Tuple W))) : Type 0 where
    stored :
        (k : ℕ) (old : Tuple W)
        → k < h.count
        → slot_ts h' k ≤ℤ ts
        → ts <ℤ slot_ts h' k +ℤ pos h'.freq
        → age h.count h'.cur tuples' k ≡ applied input old
        → (ts <ℤ h.cur_ts +ℤ pos h.duration
            → (j : ℕ) → j < h.count
            → slot_ts h j ≡ slot_ts h' k
            → SameData (age h.count h.cur tuples j) old)
        → ((h.cur_ts <ℤ slot_ts h' k) ⊎ (h.cur_ts +ℤ pos h.duration ≤ℤ ts)
            → SameData old zero_tuple)
        → kept ≡ some tuples'
        → Stored h tuples input ts h' tuples' kept
    ignored :
        ts +ℤ pos h'.duration <ℤ h'.cur_ts +ℤ pos h'.freq → Stored h tuples input ts h' tuples' kept

  -- The slots that do not hold the timestamp keep their data.
  abbrev pub Framed : (h : Header) → List (Tuple W) → ℤ → (h' : Header) → List (Tuple W) → Type 0
  Framed h tuples ts h' tuples' =
      ts <ℤ h.cur_ts +ℤ pos h.duration
      → (k k' : ℕ) → k < h.count
      → k' < h.count
      → slot_ts h k ≡ slot_ts h' k'
      → (ts <ℤ slot_ts h k) ⊎ (slot_ts h k +ℤ pos h.freq ≤ℤ ts)
      → SameData (age h.count h.cur tuples k) (age h.count h'.cur tuples' k')

  -- The slots that do not hold the timestamp and begin after those of the old ring, or any of them if
  -- the whole block is outrun, hold no data.
  abbrev pub Blank : (h : Header) → ℤ → (h' : Header) → List (Tuple W) → Type 0
  Blank h ts h' tuples' =
      (k : ℕ)
      → k < h.count
      → (h.cur_ts <ℤ slot_ts h' k) ⊎ (h.cur_ts +ℤ pos h.duration ≤ℤ ts)
      → (ts <ℤ slot_ts h' k) ⊎ (slot_ts h' k +ℤ pos h.freq ≤ℤ ts)
      → SameData (age h.count h'.cur tuples' k) zero_tuple

  pub record Updates (h : Header) (tuples : List (Tuple W)) (input out : UpdateCtx W) (ts : ℤ)
      (r : Result (Updated W)) : Type 0 where
    pub at : ℕ
    pub at_ts : ℤ
    pub result : List (Tuple W)
    pub kept : Option (List (Tuple W))
    pub message : UpdateCtx W
    pub returns :
        r
        ≡ ok (record {
          block = record { header = moved_header h at at_ts; modified = kept };
          tuples = result;
          out = message;
        })
    pub ring : IsRing (moved_header h at at_ts) result
    pub told : Told h tuples input out ts message
    pub coherent :
        get_tuples (record { header = moved_header h at at_ts; modified = kept }) (ok result)
        ≡ ok result
    pub stores : Stored h tuples input ts (moved_header h at at_ts) result kept
    pub frame : Framed h tuples ts (moved_header h at at_ts) result
    pub blank : Blank h ts (moved_header h at at_ts) result
