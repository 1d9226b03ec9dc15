-- ===== src/Storage/Laws.antt =====
-- A file after a write, byte by byte.
use Prim.Native.Nat.{max}
use stats_rrdb.Prelude.{
  ℕ, zero, suc, ◌+◌, ◌≤◌, ◌<◌, ◌≡◌, ◌⊎◌, refl, ap, ◌∙◌, List, [], ◌∷◌, ◌++◌, length, drop, drop_nil,
  drop-append, append_nil, arith,
}
use stats_rrdb.Storage.{byte_at, overwrite, write_at}

-- Where a write ends; one of no bytes does not reach the file.
abbrev pub end_of : ℕ → List ℕ → ℕ
end_of offset [] = 0
end_of offset (b ∷ bs) = offset + length (b ∷ bs)

length-overwrite : (bs file : List ℕ) → length (overwrite bs file) ≡ max (length file) (length bs)
unfolding overwrite
length-overwrite [] file = omega arith
length-overwrite (b ∷ bs) [] = omega (arith, length-overwrite bs [])
length-overwrite (b ∷ bs) (x ∷ file) = omega (arith, length-overwrite bs file)

pub length-write_at :
    (offset : ℕ) (bs file : List ℕ)
    → length (write_at offset bs file) ≡ max (length file) (end_of offset bs)
unfolding write_at
length-write_at zero [] file = omega arith
length-write_at (suc n) [] file = omega arith
length-write_at zero (b ∷ bs) file = omega (arith, length-overwrite (b ∷ bs) file)
length-write_at (suc n) (b ∷ bs) [] = omega (arith, length-write_at n (b ∷ bs) [])
length-write_at (suc n) (b ∷ bs) (x ∷ file) = omega (arith, length-write_at n (b ∷ bs) file)

overwrite-in :
    (bs file : List ℕ) (i : ℕ) → i < length bs → byte_at (overwrite bs file) i ≡ byte_at bs i
unfolding overwrite
overwrite-in [] file i h = absurd (omega arith)
overwrite-in (b ∷ bs) file zero h = refl
overwrite-in (b ∷ bs) file (suc i) h = overwrite-in bs (drop 1 file) i (omega arith)

overwrite-behind :
    (bs file : List ℕ) (i : ℕ) → length bs ≤ i → byte_at (overwrite bs file) i ≡ byte_at file i
unfolding overwrite
overwrite-behind [] file i h = refl
overwrite-behind (b ∷ bs) file zero h = absurd (omega arith)
overwrite-behind (b ∷ bs) [] (suc i) h = overwrite-behind bs [] i (omega arith)
overwrite-behind (b ∷ bs) (x ∷ file) (suc i) h = overwrite-behind bs file i (omega arith)

-- Inside what was written the file holds it.
pub write_at-in :
    (offset : ℕ) (bs file : List ℕ) (i j : ℕ)
    → i ≡ offset + j
    → j < length bs
    → byte_at (write_at offset bs file) i ≡ byte_at bs j
unfolding write_at
write_at-in offset [] file i j e h = absurd (omega arith)
write_at-in zero (b ∷ bs) file i j e h =
    ap (λ n. byte_at (overwrite (b ∷ bs) file) n) (omega arith) ∙ overwrite-in (b ∷ bs) file j h
write_at-in (suc n) (b ∷ bs) [] zero j e h = absurd (omega arith)
write_at-in (suc n) (b ∷ bs) [] (suc i) j e h = write_at-in n (b ∷ bs) [] i j (omega arith) h
write_at-in (suc n) (b ∷ bs) (x ∷ file) zero j e h = absurd (omega arith)
write_at-in (suc n) (b ∷ bs) (x ∷ file) (suc i) j e h =
    write_at-in n (b ∷ bs) file i j (omega arith) h

-- Everywhere else it holds what it held.
pub write_at-out :
    (offset : ℕ) (bs file : List ℕ) (i : ℕ)
    → (i < offset) ⊎ (offset + length bs ≤ i)
    → byte_at (write_at offset bs file) i ≡ byte_at file i
unfolding write_at
write_at-out offset [] file i h = refl
write_at-out zero (b ∷ bs) file i h = overwrite-behind (b ∷ bs) file i (omega arith)
write_at-out (suc n) (b ∷ bs) [] zero h = refl
write_at-out (suc n) (b ∷ bs) [] (suc i) h = write_at-out n (b ∷ bs) [] i (omega arith)
write_at-out (suc n) (b ∷ bs) (x ∷ file) zero h = refl
write_at-out (suc n) (b ∷ bs) (x ∷ file) (suc i) h = write_at-out n (b ∷ bs) file i (omega arith)

-- Files of one length with the same bytes are the same.
pub file_ext : (f g : List ℕ) → length f ≡ length g → ((i : ℕ) → byte_at f i ≡ byte_at g i) → f ≡ g
file_ext [] [] e h = refl
file_ext [] (y ∷ g) e h = absurd (omega arith)
file_ext (x ∷ f) [] e h = absurd (omega arith)
file_ext (x ∷ f) (y ∷ g) e h =
    ap (λ z. z ∷ f) (h 0) ∙ ap (λ l. y ∷ l) (file_ext f g (omega arith) (λ i. h (suc i)))

overwrite-front : (bs file : List ℕ) → overwrite bs file ≡ bs ++ drop (length bs) file
unfolding overwrite
overwrite-front [] file = refl
overwrite-front (b ∷ bs) [] =
    ap (λ l. b ∷ l) (overwrite-front bs [] ∙ ap (λ l. bs ++ l) (drop_nil (length bs)))
overwrite-front (b ∷ bs) (x ∷ file) = ap (λ l. b ∷ l) (overwrite-front bs file)

-- A write at the front leaves what it does not reach.
pub write_at-front : (bs file : List ℕ) → write_at 0 bs file ≡ bs ++ drop (length bs) file
unfolding write_at
write_at-front [] file = refl
write_at-front (b ∷ bs) file = overwrite-front (b ∷ bs) file

-- A write over a stretch of the same length.
pub write_at-middle :
    (n : ℕ) (front old new back : List ℕ)
    → length front ≡ n
    → length old ≡ length new
    → write_at n new (front ++ (old ++ back)) ≡ front ++ (new ++ back)
unfolding write_at
write_at-middle n front old [] back h e = ap (λ l. front ++ (l ++ back)) (nothing old e)
  where
    nothing : (l : List ℕ) → length l ≡ 0 → l ≡ []
    nothing [] e = refl
    nothing (x ∷ l) e = absurd (omega arith)
write_at-middle zero [] old (b ∷ bs) back h e =
    overwrite-front (b ∷ bs) (old ++ back)
    ∙ ap (λ l. (b ∷ bs) ++ l) (drop-append (length (b ∷ bs)) old back e)
write_at-middle zero (x ∷ front) old (b ∷ bs) back h e = absurd (omega arith)
write_at-middle (suc n) [] old (b ∷ bs) back h e = absurd (omega arith)
write_at-middle (suc n) (x ∷ front) old (b ∷ bs) back h e =
    ap (λ l. x ∷ l) (write_at-middle n front old (b ∷ bs) back (omega arith) e)

-- A write over the end of a file, which it may make longer.
pub write_at-end :
    (n : ℕ) (front old new : List ℕ)
    → length front ≡ n
    → length old ≤ length new
    → write_at n new (front ++ old) ≡ front ++ new
unfolding write_at
write_at-end n front old [] h e = ap (λ l. front ++ l) (nothing old e)
  where
    nothing : (l : List ℕ) → length l ≤ 0 → l ≡ []
    nothing [] e = refl
    nothing (x ∷ l) e = absurd (omega arith)
write_at-end zero [] old (b ∷ bs) h e =
    overwrite-front (b ∷ bs) old
    ∙ ap (λ l. (b ∷ bs) ++ l) (drop_more (length (b ∷ bs)) old e)
    ∙ append_nil (b ∷ bs)
  where
    drop_more : (n : ℕ) (l : List ℕ) → length l ≤ n → drop n l ≡ []
    drop_more zero [] e = refl
    drop_more zero (x ∷ l) e = absurd (omega arith)
    drop_more (suc n) [] e = refl
    drop_more (suc n) (x ∷ l) e = drop_more n l (omega arith)
write_at-end zero (x ∷ front) old (b ∷ bs) h e = absurd (omega arith)
write_at-end (suc n) [] old (b ∷ bs) h e = absurd (omega arith)
write_at-end (suc n) (x ∷ front) old (b ∷ bs) h e =
    ap (λ l. x ∷ l) (write_at-end n front old (b ∷ bs) (omega arith) e)
