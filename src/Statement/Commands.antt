-- ===== src/Statement/Commands.antt =====
-- Which commands statement_update_parse of src/parser/statements.cpp reads, and as what.
use Prim.Native.String.{String}
use text.Mathlib.Text.{◌==◌ as ◌==ₛ◌}
use text.Mathlib.TextEquality.{eq_iff}
use stats_rrdb.Prelude.{
  ◌≡◌, ◌↔◌, ◌⊎◌, inl, inr, true, Bool-cases, ◌||◌, none, some, List, [], ◌∷◌, arith,
}
use stats_rrdb.Prelude.Int.{ℤ}
use stats_rrdb.Prelude.Result.{Error, Result, ok, err, bad_command, ◌>>=◌, >>=-eq-ok, ok_inj}
use stats_rrdb.Policy.{PolicyElem}
use stats_rrdb.Statement.{
  Statement, update, create, drop, parse_update, parse_create, parse_drop, parse_command,
  statement_update_parse,
}

err-ne-ok : {A : Type 0} (e : Error) (a : A) → err e ≡ ok a → ⊥
err-ne-ok e a h = cc

module _ {W : Type 0} (split : String → List String) (cast_value : String → Result W)
    (cast_ts : String → Result ℤ) (parse_policy : String → Result (List PolicyElem)) where
  -- The commands of the protocol.
  pub data Reads : List String → Statement W → Type 0 where
    reads_update :
        (cmd name value : String) (x : W)
        → (cmd ≡ "u") ⊎ (cmd ≡ "U")
        → cast_value value ≡ ok x
        → Reads (cmd ∷ name ∷ value ∷ []) (update name x none)
    reads_update_at :
        (cmd name value ts : String) (x : W) (t : ℤ)
        → (cmd ≡ "u") ⊎ (cmd ≡ "U")
        → cast_value value ≡ ok x
        → cast_ts ts ≡ ok t
        → Reads (cmd ∷ name ∷ value ∷ ts ∷ []) (update name x (some t))
    reads_create :
        (cmd name policy : String) (p : List PolicyElem)
        → (cmd ≡ "c") ⊎ (cmd ≡ "C")
        → parse_policy policy ≡ ok p
        → Reads (cmd ∷ name ∷ policy ∷ []) (create name (some p))
    reads_drop :
        (cmd name : String) → (cmd ≡ "d") ⊎ (cmd ≡ "D") → Reads (cmd ∷ name ∷ []) (drop name)

  either : (cmd a b : String) → ((cmd ==ₛ a) || (cmd ==ₛ b)) ≡ true → (cmd ≡ a) ⊎ (cmd ≡ b)
  either cmd a b h = ground (arith, eq_iff cmd a, eq_iff cmd b)

  update_Reads :
      (cmd : String) (rest : List String) (st : Statement W)
      → (cmd ≡ "u") ⊎ (cmd ≡ "U")
      → parse_update split cast_value cast_ts parse_policy rest ≡ ok st
      → Reads (cmd ∷ rest) st
  unfolding parse_update
  update_Reads cmd [] st c h = cc
  update_Reads cmd (name ∷ []) st c h = cc
  update_Reads cmd (name ∷ value ∷ []) st c h =
      let (x, cast, made) = >>=-eq-ok (cast_value value) (λ v. ok (update name v none)) h in
      rw (← ok_inj (update name x none) st made) (reads_update cmd name value x c cast)
  update_Reads cmd (name ∷ value ∷ ts ∷ []) st c h =
      let (x, cast, more) =
        >>=-eq-ok (cast_value value) (λ v. cast_ts ts >>= λ t. ok (update name v (some t))) h in
      let (t, cast_t, made) = >>=-eq-ok (cast_ts ts) (λ t. ok (update name x (some t))) more in
      rw (← ok_inj (update name x (some t)) st made)
        (reads_update_at cmd name value ts x t c cast cast_t)
  update_Reads cmd (name ∷ value ∷ ts ∷ more ∷ rest) st c h = cc

  create_Reads :
      (cmd : String) (rest : List String) (st : Statement W)
      → (cmd ≡ "c") ⊎ (cmd ≡ "C")
      → parse_create split cast_value cast_ts parse_policy rest ≡ ok st
      → Reads (cmd ∷ rest) st
  unfolding parse_create
  create_Reads cmd [] st c h = cc
  create_Reads cmd (name ∷ []) st c h = cc
  create_Reads cmd (name ∷ policy ∷ []) st c h =
      let (p, parsed, made) = >>=-eq-ok (parse_policy policy) (λ q. ok (create name (some q))) h in
      rw (← ok_inj (create name (some p)) st made) (reads_create cmd name policy p c parsed)
  create_Reads cmd (name ∷ policy ∷ more ∷ rest) st c h = cc

  drop_Reads :
      (cmd : String) (rest : List String) (st : Statement W)
      → (cmd ≡ "d") ⊎ (cmd ≡ "D")
      → parse_drop split cast_value cast_ts parse_policy rest ≡ ok st
      → Reads (cmd ∷ rest) st
  unfolding parse_drop
  drop_Reads cmd [] st c h = cc
  drop_Reads cmd (name ∷ []) st c h = rw (← ok_inj (drop name) st h) (reads_drop cmd name c)
  drop_Reads cmd (name ∷ more ∷ rest) st c h = cc

  command_Reads :
      (fields : List String) (st : Statement W)
      → parse_command split cast_value cast_ts parse_policy fields ≡ ok st
      → Reads fields st
  unfolding parse_command
  command_Reads [] st h = cc
  command_Reads (cmd ∷ rest) st h = elim (Bool-cases ((cmd ==ₛ "u") || (cmd ==ₛ "U"))) [
    | inl u ↦ update_Reads cmd rest st (either cmd "u" "U" u) (rw u at h)
    | inr not_u ↦ elim (Bool-cases ((cmd ==ₛ "c") || (cmd ==ₛ "C"))) [
      | inl c ↦ create_Reads cmd rest st (either cmd "c" "C" c) (rw (not_u, c) at h)
      | inr not_c ↦ elim (Bool-cases ((cmd ==ₛ "d") || (cmd ==ₛ "D"))) [
        | inl d ↦ drop_Reads cmd rest st (either cmd "d" "D" d) (rw (not_u, not_c, d) at h)
        | inr not_d ↦ absurd (err-ne-ok bad_command st (rw (not_u, not_c, not_d) at h))
      ]
    ]
  ]

  Reads-command :
      {fields : List String} {st : Statement W}
      → Reads fields st
      → parse_command split cast_value cast_ts parse_policy fields ≡ ok st
  unfolding parse_command parse_update parse_create parse_drop
  Reads-command (reads_update cmd name value x (inl u) cast) = rw (u, cast)
  Reads-command (reads_update cmd name value x (inr u) cast) = rw (u, cast)
  Reads-command (reads_update_at cmd name value ts x t (inl u) cast cast_t) = rw (u, cast, cast_t)
  Reads-command (reads_update_at cmd name value ts x t (inr u) cast cast_t) = rw (u, cast, cast_t)
  Reads-command (reads_create cmd name policy p (inl c) parsed) = rw (c, parsed)
  Reads-command (reads_create cmd name policy p (inr c) parsed) = rw (c, parsed)
  Reads-command (reads_drop cmd name (inl d)) = rw d
  Reads-command (reads_drop cmd name (inr d)) = rw d

  -- A datagram is read as a statement exactly if its fields are a command letter of either case with
  -- that command's number of fields, each of which can be read, and the statement holds them.
  pub statement_update_parse_iff :
      (s : String) (st : Statement W)
      → (statement_update_parse split cast_value cast_ts parse_policy s ≡ ok st)
        ↔ Reads (split s) st
  unfolding statement_update_parse
  statement_update_parse_iff s st = (λ h. command_Reads (split s) st h, λ r. Reads-command r)
