-- ===== src/Execute/Spec.antt =====
-- What the statements of src/rrdb/rrdb.cpp mean: the database as a function that gives each name's
-- policy, if there is a metric of that name. Values, files and the order of the map are left out.
use stats_rrdb.Prelude.{
  ℕ, Bool, true, false, ◌&&◌, ◌≡◌, ◌⊎◌, Option, none, some, List, [], ◌∷◌, if◌then◌else◌,
}
use stats_rrdb.Prelude.Int.{ℤ}
use stats_rrdb.Prelude.Result.{Error, Result, ok, err}
use stats_rrdb.Text.{codes}
use stats_rrdb.Policy.{PolicyElem, validate}
use stats_rrdb.Metric.Create.Written.{IsName}
use stats_rrdb.Metric.{Metric, policy_of}
use stats_rrdb.Rrdb.{same_name, lookup, normalize_name}
use stats_rrdb.Rrdb.Laws.{IsUsable}
use stats_rrdb.Statement.{
  Statement, update, create, drop, select, show_policy, show_metrics, show_status,
}
use stats_rrdb.Execute.{Outside}

abbrev pub Policies : Type 0
Policies = List ℕ → Option (List PolicyElem)

abbrev pub policy_at : {W : Type 0} → Option (Metric W) → Option (List PolicyElem)
policy_at none = none
policy_at (some m) = some (policy_of m.blocks)

-- What a map of metrics stands for.
abbrev pub view : {W : Type 0} → List (List ℕ × Metric W) → Policies
view metrics n = policy_at (lookup metrics n)

abbrev pub is_ok : {A : Type 0} → Result A → Bool
is_ok (ok a) = true
is_ok (err e) = false

module _ {W : Type 0} (x : Outside W) where
  -- A name that is free gets the policy, if both pass their checks.
  abbrev pub spec_create : List ℕ → List PolicyElem → Policies → Policies
  spec_create n policy f k = elim (f n) [
    | some old ↦ f k
    | none ↦
        if is_ok (validate policy) && (x.check_name n && same_name n k) then some policy else f k
  ]

  abbrev pub spec_drop : List ℕ → Policies → Policies
  spec_drop n f k = if same_name n k then none else f k

  abbrev pub normal : List ℕ → List ℕ
  normal name = normalize_name x.trim x.to_lower name

  unfoldable pub spec : List PolicyElem → Statement W → Policies → Policies
  spec default_policy (create name (some policy)) f = spec_create (normal (codes name)) policy f
  spec default_policy (create name none) f = spec_create (normal (codes name)) default_policy f
  spec default_policy (update name value ts) f = spec_create (normal (codes name)) default_policy f
  spec default_policy (drop name) f = spec_drop (normal (codes name)) f
  spec default_policy (select st) f = f
  spec default_policy (show_policy name) f = f
  spec default_policy (show_metrics like) f = f
  spec default_policy (show_status like) f = f

  unfoldable pub spec_all : List PolicyElem → List (ℤ × Statement W) → Policies → Policies
  unfolding spec
  spec_all default_policy [] f = f
  spec_all default_policy ((now, st) ∷ sts) f =
      spec_all default_policy sts (spec default_policy st f)

  -- A policy that is refused, or that a metric can be created with.
  abbrev pub FitsPolicy : List PolicyElem → Type 0
  FitsPolicy policy = ((e : Error) × (validate policy ≡ err e)) ⊎ IsUsable policy

  -- What a statement may hold: a name of 1 to 65,527 characters, and a policy that fits.
  abbrev pub FitsStatement : Statement W → Type 0
  FitsStatement (create name (some policy)) = (IsName (normal (codes name))) × FitsPolicy policy
  FitsStatement (create name none) = IsName (normal (codes name))
  FitsStatement (update name value ts) = IsName (normal (codes name))
  FitsStatement _ = Unit

  abbrev pub FitsAll : List (ℤ × Statement W) → Type 0
  FitsAll [] = Unit
  FitsAll ((now, st) ∷ sts) = FitsStatement st × FitsAll sts
