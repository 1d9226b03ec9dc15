-- ===== src/Block/Find/Spec.antt =====
-- What find_tuple of src/rrdb/rrdb_metric_block.cpp promises on a well-formed block.
use stats_rrdb.Prelude.{ℕ, ◌<◌, ◌≡◌, ◌⊎◌, List, Option, some, none}
use stats_rrdb.Prelude.Int.{ℤ, pos, ◌+ℤ◌, ◌≤ℤ◌, ◌<ℤ◌}
use stats_rrdb.Prelude.Result.{Result, ok}
use stats_rrdb.Value.{Value}
use stats_rrdb.Tuple.{Tuple, zero_tuple}
use stats_rrdb.Block.{Header, UpdateCtx, stop, rollup}
use stats_rrdb.Block.Find.{Found}
use stats_rrdb.Block.Find.Ages.{IsRing, age, back}
use stats_rrdb.Block.Find.Advance.{moved_header}
use stats_rrdb.Block.Find.Behind.{slot_ts, with_ts}

-- The slot is one that holds `ts`, or there is none as `ts` is older than all of them.
pub data Held (h : Header) (ts : ℤ) (filled : ℕ) (slot : Option ℕ) : Type 0 where
  in_slot :
      (k : ℕ)
      → k < filled
      → slot_ts h k ≤ℤ ts
      → ts <ℤ slot_ts h k +ℤ pos h.freq
      → slot ≡ some (back h.count h.cur k)
      → Held h ts filled slot
  too_old : ts +ℤ pos h.duration <ℤ h.cur_ts +ℤ pos h.freq → slot ≡ none → Held h ts filled slot

module _ {W : Type 0} ⦃v : Value W⦄ where
  -- All but the timestamp.
  abbrev pub SameData : Tuple W → Tuple W → Type 0
  SameData t u = with_ts t (pos 0) ≡ with_ts u (pos 0)

  -- The current slot holds `ts`, or `ts` is past it, or before it; and `out` says so.
  pub data Told (h : Header) (tuples : List (Tuple W)) (input out : UpdateCtx W) (ts : ℤ)
      (o : UpdateCtx W) : Type 0 where
    tell_stop :
        h.cur_ts ≤ℤ ts
        → ts <ℤ h.cur_ts +ℤ pos h.freq
        → o ≡ record out { state = stop }
        → Told h tuples input out ts o
    tell_rollup :
        h.cur_ts +ℤ pos h.freq ≤ℤ ts
        → o ≡ record out { state = rollup; tuple = age h.count h.cur tuples 0 }
        → Told h tuples input out ts o
    tell_same : ts <ℤ h.cur_ts → o ≡ input → Told h tuples input out ts o

  -- Until the whole block is outrun, a slot of the old ring and one of the new that begin at the
  -- same time hold the same data.
  abbrev pub Keeps : (h : Header) → List (Tuple W) → ℤ → (h' : Header) → List (Tuple W) → Type 0
  Keeps h tuples ts h' tuples' =
      ts <ℤ h.cur_ts +ℤ pos h.duration
      → (k k' : ℕ) → k < h.count
      → k' < h.count
      → slot_ts h k ≡ slot_ts h' k'
      → SameData (age h.count h.cur tuples k) (age h.count h'.cur tuples' k')

  -- A slot of the new ring that begins after those of the old one, or any if the whole block is
  -- outrun, holds no data.
  abbrev pub Fresh : (h : Header) → ℤ → (h' : Header) → List (Tuple W) → Type 0
  Fresh h ts h' tuples' =
      (k : ℕ)
      → k < h.count
      → (h.cur_ts <ℤ slot_ts h' k) ⊎ (h.cur_ts +ℤ pos h.duration ≤ℤ ts)
      → SameData (age h.count h'.cur tuples' k) zero_tuple

  pub record Finds (h : Header) (tuples : List (Tuple W)) (input out : UpdateCtx W) (ts : ℤ)
      (r : Result (Found W)) : Type 0 where
    pub at : ℕ
    pub at_ts : ℤ
    pub result : List (Tuple W)
    pub slot : Option ℕ
    pub message : UpdateCtx W
    pub returns :
        r
        ≡ ok (record {
          header = moved_header h at at_ts;
          tuples = result;
          out = message;
          slot = slot;
        })
    pub ring : IsRing (moved_header h at at_ts) result
    pub held : Held (moved_header h at at_ts) ts ring.filled slot
    pub told : Told h tuples input out ts message
    pub keeps : Keeps h tuples ts (moved_header h at at_ts) result
    pub fresh : Fresh h ts (moved_header h at at_ts) result
