-- ===== src/Policy/Laws.antt =====
-- What retention_policy_validate of src/parser/retention_policy.cpp accepts.
use stats_rrdb.Prelude.{ℕ, ◌%◌, ◌<◌, ◌≤◌, ◌≡◌, ◌↔◌, refl, Option, none, some, List, [], ◌∷◌, arith}
use stats_rrdb.Prelude.Result.{ok}
use stats_rrdb.Policy.{PolicyElem, divides, validate_next, validate_from, validate}

-- A number of whole slots.
abbrev pub IsWhole : PolicyElem → Type 0
IsWhole e = (0 < e.freq) × (e.duration % e.freq ≡ 0)

-- Each slot of e is made of whole slots of the element before, which keeps at least one of them.
abbrev pub Follows : Option PolicyElem → PolicyElem → Type 0
Follows none e = Unit
Follows (some prev) e = (0 < prev.freq) × (e.freq % prev.freq ≡ 0) × (e.freq ≤ prev.duration)

abbrev pub IsPolicy : Option PolicyElem → List PolicyElem → Type 0
IsPolicy prev [] = Unit
IsPolicy prev (e ∷ es) = IsWhole e × Follows prev e × IsPolicy (some e) es

divides_iff : (b a : ℕ) → (divides b a ≡ ok tt) ↔ ((0 < b) × (a % b ≡ 0))
unfolding divides
divides_iff b a = ground arith

validate_next_iff :
    (prev : Option PolicyElem) (e : PolicyElem) → (validate_next prev e ≡ ok tt) ↔ Follows prev e
unfolding validate_next
validate_next_iff none e = ground arith
validate_next_iff (some prev) e = ground arith

validate_from_iff :
    (prev : Option PolicyElem) (p : List PolicyElem)
    → (validate_from prev p ≡ ok tt) ↔ IsPolicy prev p
unfolding validate_from
validate_from_iff prev [] = (λ h. tt, λ h. refl)
validate_from_iff prev (e ∷ es) =
    ground (
      arith,
      divides_iff e.freq e.duration,
      validate_next_iff prev e,
      validate_from_iff (some e) es,
    )

-- The policy is accepted exactly if every duration is a multiple of its positive frequency, and every
-- frequency is a multiple of the one before and at most the duration before.
pub validate_iff : (p : List PolicyElem) → (validate p ≡ ok tt) ↔ IsPolicy none p
unfolding validate
validate_iff p = validate_from_iff none p
