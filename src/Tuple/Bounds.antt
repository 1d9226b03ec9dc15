-- ===== src/Tuple/Bounds.antt =====
-- The minimum and maximum of a tuple bound the values that went into it.
use stats_rrdb.Prelude.{◌≡◌, refl, true, false, ◌⊎◌, inl, inr, List, [], ◌∷◌, arith}
use stats_rrdb.Value.{Value, IsOrdered}
use stats_rrdb.Tuple.{Tuple, zero_tuple, update_value, update_tuple}

module _ {W : Type 0} ⦃v : Value W⦄ where
  -- x is not below the minimum nor above the maximum.
  pub record Covers (t : Tuple W) (x : W) : Type 0 where
    pub above_min : v.lt x t.min ≡ false
    pub below_max : v.lt t.max x ≡ false

  abbrev pub AllCovered : Tuple W → List W → Type 0
  AllCovered t [] = Unit
  AllCovered t (x ∷ xs) = Covers t x × AllCovered t xs

  -- The updates of a slot by single values, in order.
  pub update_values : Tuple W → List W → Tuple W
  update_values t [] = t
  update_values t (x ∷ xs) = update_values (update_value t x) xs

module _ {W : Type 0} ⦃v : Value W⦄ (o : IsOrdered W) where
  update_value-Covers_self : (t : Tuple W) (x : W) → Covers (update_value t x) x
  unfolding update_value
  update_value-Covers_self t x = ground (arith, o.lt_irrefl x)

  update_value-Covers :
      (t : Tuple W) (x y : W)
      → v.eq t.count v.zero ≡ false
      → Covers t y
      → Covers (update_value t x) y
  unfolding update_value
  update_value-Covers t x y n c = ground (arith, o.lt_trans y x t.min, o.lt_trans t.max x y)

  abbrev IsCounted : Tuple W → Type 0
  IsCounted t = (t.count ≡ v.zero) ⊎ (v.lt v.zero t.count ≡ true)

  update_value_counts :
      (t : Tuple W) (x : W) → IsCounted t → v.lt v.zero (update_value t x).count ≡ true
  unfolding update_value
  update_value_counts t x (inl e) = rw e o.one_pos
  update_value_counts t x (inr p) = o.suc_pos t.count p

  update_values-Covers :
      (t : Tuple W) (xs : List W) (y : W)
      → v.lt v.zero t.count ≡ true
      → Covers t y
      → Covers (update_values t xs) y
  unfolding update_values
  update_values-Covers t [] y p c = c
  update_values-Covers t (x ∷ xs) y p c =
      update_values-Covers (update_value t x) xs y (update_value_counts t x (inr p))
        (update_value-Covers t x y (o.pos_ne t.count p) c)

  update_values-AllCovered :
      (t : Tuple W) (xs : List W) → IsCounted t → AllCovered (update_values t xs) xs
  unfolding update_values
  update_values-AllCovered t [] p = tt
  update_values-AllCovered t (x ∷ xs) p =
      let counted = update_value_counts t x p in
      (
        update_values-Covers (update_value t x) xs x counted (update_value-Covers_self t x),
        update_values-AllCovered (update_value t x) xs (inr counted),
      )

  -- A slot that starts zeroed and is updated by values, in any order, has no value below its minimum
  -- or above its maximum.
  pub update_values_bounds : (xs : List W) → AllCovered (update_values zero_tuple xs) xs
  update_values_bounds xs = update_values-AllCovered zero_tuple xs (inl refl)

  -- Rolling a tuple up into another that holds values, neither bound of it being NaN, keeps every
  -- value of both within the bounds.
  pub update_tuple-Covers :
      (t u : Tuple W) (x : W)
      → v.lt v.zero t.count ≡ true
      → v.eq u.min u.min ≡ true
      → v.eq u.max u.max ≡ true
      → Covers t x ⊎ Covers u x
      → Covers (update_tuple t u) x
  unfolding update_tuple
  update_tuple-Covers t u x p lo hi (inl c) =
      ground (arith, o.pos_ne t.count p, o.lt_trans x u.min t.min, o.lt_trans t.max u.max x)
  update_tuple-Covers t u x p lo hi (inr c) =
      ground (arith, o.pos_ne t.count p, o.lt_split x u.min t.min lo, o.lt_split t.max u.max x hi)
