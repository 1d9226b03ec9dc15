-- ===== src/Metric/Create/Laws.antt =====
-- rrdb_metric::create of src/rrdb/rrdb_metric.cpp, on a validated policy.
use stats_rrdb.Prelude.{
  ℕ, suc, ◌+◌, ◌*◌, ◌/◌, ◌%◌, ◌^◌, ◌<◌, ◌≡◌, refl, ap, ◌∙◌, Option, some, none, List, [], ◌∷◌,
  length, length-replicate, arith, lt→ltb, true, false, Bool, ◌==◌, ==_iff,
}
use stats_rrdb.Prelude.Int.{pos}
use stats_rrdb.Prelude.Result.{Result, ok, err, io}
use stats_rrdb.Value.{Value}
use stats_rrdb.Tuple.{new_tuples, zero_tuple}
use stats_rrdb.Block.{Header, new_header, set_last_block, get_max_disk_size}
use stats_rrdb.Block.New.{new_block-ok, new-IsRing, last-IsRing}
use stats_rrdb.Block.Update.{get_tuples}
use stats_rrdb.Policy.{PolicyElem, validate}
use stats_rrdb.Policy.Laws.{IsWhole, IsPolicy, validate_iff}
use stats_rrdb.PaddedString.{reset, get_file_size}
use stats_rrdb.Metric.{
  Metric, Cell, new_metric, policy_of, get_policy, sizeof_metric_header, metric_magic,
  metric_version,
}
use stats_rrdb.Metric.Sound.{IsSound, AllSound, IsMetric}
use stats_rrdb.Metric.Create.{make_blocks, mark_last, create}

-- Each element keeps at least one slot, for a time that fits its 32-bit field.
abbrev pub IsKept : List PolicyElem → Type 0
IsKept [] = Unit
IsKept (e ∷ es) = (0 < e.duration) × (e.duration < 2 ^ 32) × IsKept es

pub whole_duration : (e : PolicyElem) → IsWhole e → e.freq * (e.duration / e.freq) ≡ e.duration
whole_duration e w = grind (arith, w.0, w.1)

pub some_slots : (e : PolicyElem) → IsWhole e → 0 < e.duration → 0 < e.duration / e.freq
some_slots e w h = grind (arith, whole_duration e w, w.0)

kept_duration : (e : PolicyElem) → e.duration < 2 ^ 32 → e.duration % 2 ^ 32 ≡ e.duration
kept_duration e h = omega arith

positive→== : (n : ℕ) → 0 < n → (n == 0) ≡ false
positive→== n h = ground arith

abbrev pub header_of : PolicyElem → ℕ → Header
header_of e offset = new_header e.freq (e.duration / e.freq) offset

module _ {W : Type 0} ⦃v : Value W⦄ where
  -- The blocks follow one another in the file from the offset on.
  abbrev pub IsLaidOut : ℕ → List (Cell W) → Type 0
  IsLaidOut offset [] = Unit
  IsLaidOut offset (c ∷ cs) =
      (c.block.header.offset ≡ offset) × IsLaidOut (offset + get_max_disk_size c.block.header) cs

  -- The blocks before the last one is marked.
  abbrev pub first_cell : PolicyElem → ℕ → Cell W
  first_cell e offset = record {
    block = record {
      header = header_of e offset;
      modified = some (new_tuples (e.duration / e.freq));
    };
    fetched = err io;
  }

  abbrev pub first_cells : ℕ → List PolicyElem → List (Cell W)
  first_cells offset [] = []
  first_cells offset (e ∷ es) =
      first_cell e offset ∷ first_cells (offset + get_max_disk_size (header_of e offset)) es

  pub record Made (offset : ℕ) (p : List PolicyElem) (r : Result (List (Cell W))) : Type 0 where
    pub cells : List (Cell W)
    pub returns : r ≡ ok cells
    pub sound : AllSound cells
    pub same_length : length cells ≡ length p
    pub policy : policy_of cells ≡ p
    pub laid_out : IsLaidOut offset cells
    pub at_first : cells ≡ first_cells offset p

  first-IsSound :
      (e : PolicyElem) (offset : ℕ)
      → IsWhole e
      → 0 < e.duration
      → e.duration < 2 ^ 32
      → IsSound (first_cell e offset)
  unfolding get_tuples
  first-IsSound e offset w positive fits = record {
    tuples = new_tuples (e.duration / e.freq);
    got = rw (
      length-replicate (e.duration / e.freq) (zero_tuple {W = W}),
      lt→ltb 0 _ (some_slots e w positive),
    );
    ring =
        new-IsRing e.freq (e.duration / e.freq) offset w.0 (some_slots e w positive)
          (omega (arith, whole_duration e w));
  }

  make_blocks-Made :
      (prev : Option PolicyElem) (p : List PolicyElem) (offset : ℕ)
      → IsPolicy prev p
      → IsKept p
      → Made offset p (make_blocks offset p)
  unfolding make_blocks policy_of new_header get_max_disk_size
  make_blocks-Made prev [] offset ip kept = record {
    cells = [];
    returns = refl;
    sound = tt;
    same_length = refl;
    policy = refl;
    laid_out = tt;
    at_first = refl;
  }
  make_blocks-Made prev (e ∷ es) offset ip kept =
      let rest =
        make_blocks-Made (some e) es (offset + get_max_disk_size (header_of e offset)) ip.2
          kept.2 in
      record {
        cells = first_cell e offset ∷ rest.cells;
        returns = rw (
          positive→== e.freq ip.0.0,
          new_block-ok {W = W} e.freq (e.duration / e.freq) offset (some_slots e ip.0 kept.0),
          rest.returns,
        );
        sound = (first-IsSound e offset ip.0 kept.0 kept.1, rest.sound);
        same_length = ap suc rest.same_length;
        policy = rw (whole_duration e ip.0, kept_duration e kept.1, rest.policy);
        laid_out = (refl, rest.laid_out);
        at_first = ap (λ l. first_cell e offset ∷ l) rest.at_first;
      }

  -- What set_last_block leaves of the blocks.
  record Marked (offset : ℕ) (cs : List (Cell W)) : Type 0 where
    sound : AllSound (mark_last cs)
    same_length : length (mark_last cs) ≡ length cs
    same_policy : policy_of (mark_last cs) ≡ policy_of cs
    laid_out : IsLaidOut offset (mark_last cs)

  mark_last-Marked :
      (offset : ℕ) (cs : List (Cell W)) → AllSound cs → IsLaidOut offset cs → Marked offset cs
  unfolding mark_last policy_of set_last_block get_tuples get_max_disk_size
  mark_last-Marked offset [] s l = record {
    sound = tt;
    same_length = refl;
    same_policy = refl;
    laid_out = tt;
  }
  mark_last-Marked offset (c ∷ []) s l = record {
    sound = (record { tuples = s.0.tuples; got = s.0.got; ring = last-IsRing s.0.ring }, tt);
    same_length = refl;
    same_policy = refl;
    laid_out = (l.0, tt);
  }
  mark_last-Marked offset (c ∷ d ∷ cs) s l =
      let rest = mark_last-Marked (offset + get_max_disk_size c.block.header) (d ∷ cs) s.1 l.1 in
      record {
        sound = (s.0, rest.sound);
        same_length = ap suc rest.same_length;
        same_policy = rw rest.same_policy;
        laid_out = (l.0, rest.laid_out);
      }

  pub record Created (name : List ℕ) (policy : List PolicyElem) (r : Result (Metric W))
      : Type 0 where
    pub metric : Metric W
    pub returns : r ≡ ok metric
    pub sound : IsMetric metric
    pub named : metric.name ≡ reset name
    pub policy_kept : get_policy metric ≡ ok policy
    pub fresh_ts : metric.last_value_ts ≡ pos 0
    pub laid_out : IsLaidOut (sizeof_metric_header + get_file_size (reset name)) metric.blocks
    pub as_new :
        (metric.magic ≡ metric_magic)
        × (metric.version ≡ metric_version)
        × (metric.status ≡ 0)
        × (metric.blocks_size < 2 ^ 16)
    pub new_blocks :
        metric.blocks
        ≡ mark_last (first_cells (sizeof_metric_header + get_file_size (reset name)) policy)

  -- For a name that passes its check and is not empty, and a policy of 1 to 65,535 elements that
  -- retention_policy_validate accepts and whose durations are positive and fit 32 bits, creating a
  -- new metric succeeds: the metric is in order, get_policy returns the policy, and the blocks follow
  -- one another in the file without a gap, the first behind the header and the name.
  pub create-Created :
      (check_name : List ℕ → Bool) (to_filename : List ℕ → List ℕ) (filename name : List ℕ)
      (policy : List PolicyElem)
      → check_name name ≡ true
      → 0 < length name
      → validate policy ≡ ok tt
      → IsKept policy
      → 0 < length policy
      → length policy < 2 ^ 16
      → Created name policy (create check_name to_filename (new_metric filename) name policy)
  unfolding create new_metric get_policy reset
  create-Created check_name to_filename filename name policy checked named valid kept some_elems
        fits =
      record {
        metric = record (new_metric filename) {
          name = reset name;
          filename = to_filename name;
          blocks_size = length policy % 2 ^ 16;
          blocks = mark_last made.cells;
        };
        returns = rw (
          checked,
          lt→ltb 0 (length policy) some_elems,
          made.returns,
          some_made,
          lt→ltb 0 (length policy) some_elems,
        );
        sound = record {
          named = named;
          has_blocks = omega (arith, counted, some_elems);
          counted = omega (arith, counted, fits);
          sound = last.sound;
        };
        named = refl;
        policy_kept = rw (
          last.same_policy,
          made.policy,
          counted,
          wrapped,
          (==_iff (length policy) (length policy)).1 refl,
        );
        fresh_ts = refl;
        laid_out = last.laid_out;
        as_new = (refl, refl, refl, omega arith);
        new_blocks = ap mark_last made.at_first;
      }
    where
      start : ℕ
      start = sizeof_metric_header + get_file_size (reset name)

      made : Made start policy (make_blocks start policy)
      made = make_blocks-Made none policy start ((validate_iff policy).0 valid) kept

      last : Marked start made.cells
      last = mark_last-Marked start made.cells made.sound made.laid_out

      counted : length (mark_last made.cells) ≡ length policy
      counted = last.same_length ∙ made.same_length

      some_made : length made.cells ≡ length policy
      some_made = made.same_length

      wrapped : length policy % 2 ^ 16 ≡ length policy
      wrapped = omega (arith, fits)
