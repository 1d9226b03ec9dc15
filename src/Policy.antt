-- ===== src/Policy.antt =====
-- src/parser/retention_policy.h and retention_policy_validate of src/parser/retention_policy.cpp.
-- `%` by zero is undefined in C++: it is the error `fault`. The texts of the exceptions are left out.
pub mod Laws
use stats_rrdb.Prelude.{
  ℕ, ◌%◌, ◌<◌, ◌≤◌, ◌≡◌, Option, none, some, List, [], ◌∷◌, not, ltb, leb, ◌==◌,
}
use stats_rrdb.Prelude.Result.{Result, ok, fault, bad_policy, ◌>>=◌, ◌>>◌, guard}

-- t_retention_policy_elem; the policy is a list of these.
pub record PolicyElem : Type 0 where
  pub freq : ℕ
  pub duration : ℕ

-- a % b == 0, where it is defined.
pub divides : ℕ → ℕ → Result (Unit {0})
divides b a = do guard (not (b == 0)) fault; guard (a % b == 0) bad_policy

-- The two tests that compare an element with the one before it.
pub validate_next : Option PolicyElem → PolicyElem → Result (Unit {0})
unfolding divides
validate_next none e = ok tt
validate_next (some prev) e = do
  divides prev.freq e.freq
  guard (leb e.freq prev.duration) bad_policy

pub validate_from : Option PolicyElem → List PolicyElem → Result (Unit {0})
unfolding validate_next
validate_from prev [] = ok tt
validate_from prev (e ∷ es) = do
  divides e.freq e.duration
  validate_next prev e
  validate_from (some e) es

-- retention_policy_validate
pub validate : List PolicyElem → Result (Unit {0})
unfolding validate_from
validate p = validate_from none p
