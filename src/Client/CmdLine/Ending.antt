-- ===== src/Client/CmdLine/Ending.antt =====
-- That the loop of internal/client/invocation.go ends, and what it keeps.
use nocc.Client.CmdLine.Rounds.{Has}
use nocc.Client.CmdLine.{parse_arg, Ended, at_end, returned, panicked, out_of_fuel, parse_args}
use nocc.Client.CmdOptions.{Parsed, Round, go_on, returns, panics}
use nocc.Prelude.{ℕ, zero, suc, ◌≤◌, Bool, List, [], ◌∷◌, Bytes, arith, length}

-- The loop has `P` at the end of the line, and `Q` where it returns.
abbrev pub Ends : (Parsed → Type 0) → (Parsed → Type 0) → Ended → Type 0
Ends P Q (at_end p) = P p
Ends P Q (returned q) = Q q
Ends P Q panicked = Unit
Ends P Q out_of_fuel = ⊥

module _ (P Q : Parsed → Type 0) (cwd : Bytes) (is_local : Bool)
    (round : (arg : Bytes) (p : Parsed) (rest : List Bytes)
      → P p
      → Has P Q (length rest) (parse_arg cwd is_local arg p rest)) where
  after_round :
      (fuel n : ℕ) (r : Round)
      → n ≤ fuel
      → ((q : Parsed) (left : List Bytes)
          → length left ≤ fuel
          → P q
          → Ends P Q (parse_args fuel cwd is_local q left))
      → Has P Q n r
      → Ends P Q (elim r [
        | go_on q left ↦ parse_args fuel cwd is_local q left
        | returns q ↦ returned q
        | panics ↦ panicked
      ])
  after_round fuel n (go_on q left) l on h = on q left (omega (arith, l, h.1)) h.0
  after_round fuel n (returns q) l on h = h
  after_round fuel n panics l on h = tt

  pub parse_args-Ends :
      (fuel : ℕ) (p : Parsed) (args : List Bytes)
      → length args ≤ fuel
      → P p
      → Ends P Q (parse_args fuel cwd is_local p args)
  unfolding parse_args
  parse_args-Ends fuel p [] l h = h
  parse_args-Ends zero p (arg ∷ rest) l h = absurd (omega (arith, l))
  parse_args-Ends (suc fuel) p (arg ∷ rest) l h =
      after_round fuel (length rest) (parse_arg cwd is_local arg p rest) (omega (arith, l))
        (parse_args-Ends fuel) (round arg p rest h)
