-- ===== src/Block/Disk/Tuples.antt =====
-- The memory of an array of tuples (src/rrdb/rrdb_metric_block.cpp), cut and put together.
use stats_rrdb.Prelude.{
  ℕ, zero, suc, ◌*◌, ◌≤◌, ◌≡◌, refl, sym, ap, ◌∙◌, List, [], ◌∷◌, ◌++◌, length, take, drop,
  replicate, length-append, length-take, length-drop, length-replicate, take-append, drop-append,
  take-append_more, drop-append_more, append_assoc, arith,
}
use stats_rrdb.Value.{Value}
use stats_rrdb.Bytes.{Bytes, IsI64}
use stats_rrdb.Tuple.{Tuple, zero_tuple, sizeof_tuple}
use stats_rrdb.Block.Disk.{encode_tuple, encode_tuples, decode_tuples}
use stats_rrdb.Block.Disk.Codec.{length-encode_tuple, decode_tuple-encode_tuple}

module _ {W : Type 0} where
  -- Each timestamp fits 64 bits.
  abbrev pub AllI64 : List (Tuple W) → Type 0
  AllI64 [] = Unit
  AllI64 (t ∷ ts) = IsI64 t.ts × AllI64 ts

  pub AllI64-append : (ts us : List (Tuple W)) → AllI64 ts → AllI64 us → AllI64 (ts ++ us)
  AllI64-append [] us f g = g
  AllI64-append (t ∷ ts) us f g = (f.0, AllI64-append ts us f.1 g)

  pub AllI64-take : (n : ℕ) (ts : List (Tuple W)) → AllI64 ts → AllI64 (take n ts)
  AllI64-take zero ts f = tt
  AllI64-take (suc n) [] f = tt
  AllI64-take (suc n) (t ∷ ts) f = (f.0, AllI64-take n ts f.1)

  pub AllI64-drop : (n : ℕ) (ts : List (Tuple W)) → AllI64 ts → AllI64 (drop n ts)
  AllI64-drop zero ts f = f
  AllI64-drop (suc n) [] f = tt
  AllI64-drop (suc n) (t ∷ ts) f = AllI64-drop n ts f.1

pub AllI64-zero : (W : Type 0) ⦃v : Value W⦄ (n : ℕ) → AllI64 (replicate n (zero_tuple {W = W}))
AllI64-zero W zero = tt
AllI64-zero W (suc n) = (omega arith, AllI64-zero W n)

module _ {W : Type 0} ⦃v : Value W⦄ where
  -- What is on disk of an array: its first n tuples, over zeros.
  abbrev pub cut_at : ℕ → List (Tuple W) → List (Tuple W)
  cut_at n ts = take n ts ++ drop n (replicate (length ts) zero_tuple)

module _ {W : Type 0} ⦃v : Value W⦄ ⦃b : Bytes W⦄ where
  pub length-encode_tuples :
      (ts : List (Tuple W)) → length (encode_tuples ts) ≡ length ts * sizeof_tuple
  unfolding encode_tuples
  length-encode_tuples [] = refl
  length-encode_tuples (t ∷ ts) = omega (
    arith,
    length-append (encode_tuple t) (encode_tuples ts),
    length-encode_tuple t,
    length-encode_tuples ts,
  )

  encode_tuples-append :
      (ts us : List (Tuple W)) → encode_tuples (ts ++ us) ≡ encode_tuples ts ++ encode_tuples us
  unfolding encode_tuples
  encode_tuples-append [] us = refl
  encode_tuples-append (t ∷ ts) us =
      ap (λ l. encode_tuple t ++ l) (encode_tuples-append ts us)
      ∙ sym (append_assoc (encode_tuple t) (encode_tuples ts) (encode_tuples us))

  pub take-encode_tuples :
      (n : ℕ) (ts : List (Tuple W))
      → n ≤ length ts
      → take (sizeof_tuple * n) (encode_tuples ts) ≡ encode_tuples (take n ts)
  unfolding encode_tuples
  take-encode_tuples zero ts h = refl
  take-encode_tuples (suc n) [] h = absurd (omega arith)
  take-encode_tuples (suc n) (t ∷ ts) h =
      take-append_more sizeof_tuple (sizeof_tuple * n) (sizeof_tuple * suc n) (encode_tuple t)
        (encode_tuples ts) (length-encode_tuple t) (omega arith)
      ∙ ap (λ l. encode_tuple t ++ l) (take-encode_tuples n ts (omega arith))

  pub drop-encode_tuples :
      (n : ℕ) (ts : List (Tuple W))
      → n ≤ length ts
      → drop (sizeof_tuple * n) (encode_tuples ts) ≡ encode_tuples (drop n ts)
  unfolding encode_tuples
  drop-encode_tuples zero ts h = refl
  drop-encode_tuples (suc n) [] h = absurd (omega arith)
  drop-encode_tuples (suc n) (t ∷ ts) h =
      drop-append_more sizeof_tuple (sizeof_tuple * n) (sizeof_tuple * suc n) (encode_tuple t)
        (encode_tuples ts) (length-encode_tuple t) (omega arith)
      ∙ drop-encode_tuples n ts (omega arith)

  pub decode_tuples-encode_tuples :
      (n : ℕ) (ts : List (Tuple W))
      → length ts ≡ n
      → AllI64 ts
      → decode_tuples n (encode_tuples ts) ≡ ts
  unfolding encode_tuples decode_tuples
  decode_tuples-encode_tuples zero [] h f = refl
  decode_tuples-encode_tuples zero (t ∷ ts) h f = absurd (omega arith)
  decode_tuples-encode_tuples (suc n) [] h f = absurd (omega arith)
  decode_tuples-encode_tuples (suc n) (t ∷ ts) h f = rw (
    take-append sizeof_tuple (encode_tuple t) (encode_tuples ts) (length-encode_tuple t),
    drop-append sizeof_tuple (encode_tuple t) (encode_tuples ts) (length-encode_tuple t),
    decode_tuple-encode_tuple t f.0,
    decode_tuples-encode_tuples n ts (omega arith) f.1,
  )

  -- An array whose front is overwritten in memory is the array whose first tuples are replaced.
  pub decode_tuples-overlay :
      (n : ℕ) (ts : List (Tuple W))
      → n ≤ length ts
      → AllI64 ts
      → decode_tuples (length ts) (
          take (sizeof_tuple * n) (encode_tuples ts)
          ++ drop (sizeof_tuple * n) (encode_tuples (replicate (length ts) (zero_tuple {W = W}))))
        ≡ cut_at n ts
  decode_tuples-overlay n ts h f =
      rw
        (
          take-encode_tuples n ts h,
          drop-encode_tuples n (replicate (length ts) zero_tuple)
              (omega (arith, length-replicate (length ts) (zero_tuple {W = W}))),
          ← encode_tuples-append (take n ts) (drop n (replicate (length ts) zero_tuple)),
        )
        (decode_tuples-encode_tuples (length ts) (cut_at n ts) sized (
          AllI64-append (take n ts) (drop n (replicate (length ts) zero_tuple)) (AllI64-take n ts f)
            (AllI64-drop n (replicate (length ts) zero_tuple) (AllI64-zero W (length ts)))))
    where
      sized : length (cut_at n ts) ≡ length ts
      sized = omega (
        arith,
        length-append (take n ts) (drop n (replicate (length ts) (zero_tuple {W = W}))),
        length-take n ts h,
        length-drop n (replicate (length ts) (zero_tuple {W = W})),
        length-replicate (length ts) (zero_tuple {W = W}),
      )
