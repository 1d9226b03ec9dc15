-- ===== src/Storage/Torn.antt =====
-- Writes that a crash may have cut short, and what making all of them afterwards gives.
use Prim.Native.Nat.{max}
use native.Mathlib.Decide.{dec_lt}
use mathlib.Core.List.Memᴰ.{not-nil}
use mathlib.Core.List.{Memᴰ}
use stats_rrdb.Prelude.{
  ℕ, ◌+◌, ◌-◌, ◌≤◌, ◌<◌, ◌≡◌, ◌⊎◌, inl, inr, refl, sym, ap, ◌∙◌, List, [], ◌∷◌, length, take, drop,
  length-drop, length-take_le, arith,
}
use stats_rrdb.Storage.{byte_at, write_at, Write, apply_writes}
use stats_rrdb.Storage.Laws.{end_of, length-write_at, write_at-in, write_at-out, file_ext}

-- What a file may hold once some of the writes have reached it, in any order and any number of
-- times, and of each any stretch.
pub data Torn (ws : List Write) (before : List ℕ) : List ℕ → Type 0 where
  intact : Torn ws before before
  reached :
      {file : List ℕ}
      → Torn ws before file
      → (w : Write) → Memᴰ w ws
      → (skip size : ℕ)
      → Torn ws before (write_at (w.offset + skip) (take size (drop skip w.bytes)) file)

-- A position that no write reaches.
abbrev Outside : List Write → ℕ → Type 0
Outside [] i = Unit
Outside (w ∷ ws) i = ((i < w.offset) ⊎ (w.offset + length w.bytes ≤ i)) × Outside ws i

abbrev reach : List Write → ℕ
reach [] = 0
reach (w ∷ ws) = max (end_of w.offset w.bytes) (reach ws)

-- Two files that differ at most where they will be overwritten.
record Alike (ws : List Write) (f g : List ℕ) : Type 0 where
  bytes : (i : ℕ) → Outside ws i → byte_at f i ≡ byte_at g i
  lengths : max (length f) (reach ws) ≡ max (length g) (reach ws)

Alike-step :
    (w : Write) (ws : List Write) (f g : List ℕ)
    → Alike (w ∷ ws) f g
    → Alike ws (write_at w.offset w.bytes f) (write_at w.offset w.bytes g)
Alike-step w ws f g a = record {
  bytes = λ i out. elim (dec_lt i w.offset) [
    | yes before ↦ apart i (inl before) out
    | no behind ↦ elim (dec_lt i (w.offset + length w.bytes)) [
      | yes inside ↦
          write_at-in w.offset w.bytes f i (i - w.offset) (omega arith) (omega arith)
          ∙ sym (write_at-in w.offset w.bytes g i (i - w.offset) (omega arith) (omega arith))
      | no past ↦ apart i (inr (omega arith)) out
    ]
  ];
  lengths =
      omega
        (arith, a.lengths, length-write_at w.offset w.bytes f, length-write_at w.offset w.bytes g);
}
  where
    apart :
        (i : ℕ)
        → (i < w.offset) ⊎ (w.offset + length w.bytes ≤ i)
        → Outside ws i
        → byte_at (write_at w.offset w.bytes f) i ≡ byte_at (write_at w.offset w.bytes g) i
    apart i free out =
        write_at-out w.offset w.bytes f i free
        ∙ a.bytes i (free, out)
        ∙ sym (write_at-out w.offset w.bytes g i free)

apply_writes-Alike :
    (ws : List Write) (f g : List ℕ) → Alike ws f g → apply_writes ws f ≡ apply_writes ws g
unfolding apply_writes
apply_writes-Alike [] f g a = file_ext f g (omega (arith, a.lengths)) (λ i. a.bytes i tt)
apply_writes-Alike (w ∷ ws) f g a =
    apply_writes-Alike ws (write_at w.offset w.bytes f) (write_at w.offset w.bytes g)
      (Alike-step w ws f g a)

-- A stretch of a write lies where the write does.
length-stretch :
    (skip size : ℕ) (bs : List ℕ) → length (take size (drop skip bs)) ≤ length bs - skip
length-stretch skip size bs = omega (arith, length-take_le size (drop skip bs), length-drop skip bs)

stretch-free :
    (ws : List Write) (w : Write) (skip size i : ℕ)
    → Memᴰ w ws
    → Outside ws i
    → (i < w.offset + skip) ⊎ (w.offset + skip + length (take size (drop skip w.bytes)) ≤ i)
stretch-free [] w skip size i m out = absurd (not-nil m)
stretch-free (v ∷ ws) w skip size i (Memᴰ.head e) out = omega (
  arith,
  out.0,
  ap (λ (u : Write). u.offset) e,
  ap (λ (u : Write). length u.bytes) e,
  length-stretch skip size w.bytes,
)
stretch-free (v ∷ ws) w skip size i (Memᴰ.tail m) out = stretch-free ws w skip size i m out.1

end_of-part :
    (offset skip : ℕ) (part bs : List ℕ)
    → length part ≤ length bs - skip
    → end_of (offset + skip) part ≤ end_of offset bs
end_of-part offset skip [] bs h = omega arith
end_of-part offset skip (p ∷ ps) [] h = absurd (omega arith)
end_of-part offset skip (p ∷ ps) (b ∷ bs) h = omega arith

stretch-reach :
    (ws : List Write) (w : Write) (skip size : ℕ)
    → Memᴰ w ws
    → end_of (w.offset + skip) (take size (drop skip w.bytes)) ≤ reach ws
stretch-reach [] w skip size m = absurd (not-nil m)
stretch-reach (v ∷ ws) w skip size (Memᴰ.head e) = omega (
  arith,
  ap (λ (u : Write). end_of u.offset u.bytes) e,
  end_of-part w.offset skip (take size (drop skip w.bytes)) w.bytes
      (length-stretch skip size w.bytes),
)
stretch-reach (v ∷ ws) w skip size (Memᴰ.tail m) = omega (arith, stretch-reach ws w skip size m)

Torn-Alike : (ws : List Write) (before file : List ℕ) → Torn ws before file → Alike ws file before
Torn-Alike ws before file intact = record { bytes = λ i out. refl; lengths = refl }
Torn-Alike ws before file (reached {file = g} t w m skip size) = record {
  bytes = λ i out.
      write_at-out (w.offset + skip) (take size (drop skip w.bytes)) g i
        (stretch-free ws w skip size i m out)
      ∙ (Torn-Alike ws before g t).bytes i out;
  lengths = omega (
    arith,
    (Torn-Alike ws before g t).lengths,
    stretch-reach ws w skip size m,
    length-write_at (w.offset + skip) (take size (drop skip w.bytes)) g,
  );
}

-- Making all the writes over a file that any stretches of them have reached gives the same file as
-- making them over the file before.
pub apply_writes-Torn :
    (ws : List Write) (before file : List ℕ)
    → Torn ws before file
    → apply_writes ws file ≡ apply_writes ws before
apply_writes-Torn ws before file t = apply_writes-Alike ws file before (Torn-Alike ws before file t)
