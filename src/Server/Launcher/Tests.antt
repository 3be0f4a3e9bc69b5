-- ===== src/Server/Launcher/Tests.antt =====
-- A launcher of internal/server/cxx-launcher.go with one place, and two sessions.
use nocc.Common.CompilerKilled.{exited}
use nocc.Prelude.Maybe.{◌>>=◌, returns}
use nocc.Prelude.{
  ℕ, ◌≤◌, Option, none, some, List, [], ◌∷◌, ◌≡◌, ◌⊎◌, inl, inr, refl, ◌∙◌, sym, ap, arith,
  get_elem?, set, Option-cases,
}
use nocc.Server.Launcher.Bounds.{IsCounted}
use nocc.Server.Launcher.Counting.{count_of, is_compiling}
use nocc.Server.Launcher.Progress.{Each, CanMove, Reach-IsCounted-CanMove}
use nocc.Server.Launcher.{
  CxxLauncher, CxxEnd, make_cxx_launcher, advance, Launches, Step, launch, move, Reach, made, next,
  Phase, entered, waiting, admitted, compiling, released, pushed,
}

-- A session is launched, or the goroutine of a number takes a step.
data Pick : Type 0 where
  launches : Pick
  moves : ℕ → CxxEnd → Pick

abbrev moved : Launches → ℕ → CxxLauncher × Phase → Launches
moved s i o = record { launcher = o.0; goroutines = set s.goroutines i o.1 }

abbrev next_of : CxxEnd → Launches → ℕ → Phase → Option Launches
next_of e s i p = advance e s.launcher p >>= λ o. some (moved s i o)

step_by : Pick → Launches → Option Launches
step_by launches s = some (record s { goroutines = entered ∷ s.goroutines })
step_by (moves i e) s = get_elem? s.goroutines i >>= next_of e s i

run_picks : List Pick → Launches → Option Launches
unfolding step_by
run_picks [] s = some s
run_picks (p ∷ ps) s = step_by p s >>= run_picks ps

step_by-Step : (p : Pick) (s : Launches) {t : Launches} → step_by p s ≡ some t → Step s t
unfolding step_by
step_by-Step launches s e = returns (Step s) e launch
step_by-Step (moves i e) s {t} h = elim (Option-cases (get_elem? s.goroutines i)) [
  | inl gone ↦ absurd (ground (arith, gone))
  | inr (p, at) ↦ elim (Option-cases (advance e s.launcher p)) [
    | inl stuck ↦ absurd (ground (arith, at, stuck))
    | inr (o, goes) ↦
        let there : some (moved s i o) ≡ some t =
          sym (
            ap (λ (q : Option Phase). q >>= next_of e s i) at
            ∙ ap (λ (r : Option (CxxLauncher × Phase)). r >>= λ o. some (moved s i o)) goes)
          ∙ h in
        returns (Step s) there (move i e p at goes)
  ]
]

run_picks-Reach :
    (n : ℕ) (ps : List Pick) (s t : Launches) → Reach n s → run_picks ps s ≡ some t → Reach n t
unfolding run_picks
run_picks-Reach n [] s t r e = returns (Reach n) e r
run_picks-Reach n (p ∷ ps) s t r e = elim (Option-cases (step_by p s)) [
  | inl stuck ↦ absurd (ground (arith, stuck))
  | inr (u, goes) ↦
      let rest : run_picks ps u ≡ some t =
        sym (ap (λ (o : Option Launches). o >>= run_picks ps) goes) ∙ e in
      run_picks-Reach n ps u t (next r (step_by-Step p s goes)) rest
]

abbrev ends_well : CxxEnd
ends_well = record { exit_code = exited 0; duration = 12000 }

abbrev no_calls : CxxLauncher
no_calls = record {
  max_parallel = 1;
  server_cxx_throttle = 0;
  sessions_ready_but_waiting = 0;
  sessions_now_compiling = 0;
  total_calls = 0;
  total_duration_ms = 0;
  more_10_sec_count = 0;
  more_30_sec_count = 0;
  non_zero_exit_code_count = 0;
}

-- The older session compiles, the newer one waits.
abbrev busy : Launches
busy = record {
  launcher = record no_calls {
    server_cxx_throttle = 1;
    sessions_ready_but_waiting = 1;
    sessions_now_compiling = 1;
  };
  goroutines = waiting ∷ compiling ∷ [];
}

abbrev go : ℕ → Pick
go i = moves i ends_well

made_busy : Reach 1 busy
unfolding run_picks make_cxx_launcher advance
made_busy =
    run_picks-Reach 1 (launches ∷ launches ∷ go 1 ∷ go 0 ∷ go 1 ∷ go 1 ∷ go 1 ∷ [])
      (record { launcher = no_calls; goroutines = [] }) busy (made refl) refl

-- The newer one blocks till the older one has left the channel, and is admitted then.
admitted_later :
    (step_by (go 0) busy ≡ none)
    × (run_picks (go 1 ∷ go 1 ∷ go 1 ∷ go 1 ∷ go 0 ∷ []) busy
        ≡ some (record {
          launcher = record no_calls {
            server_cxx_throttle = 1;
            sessions_ready_but_waiting = 1;
            total_calls = 1;
            total_duration_ms = 12000;
            more_10_sec_count = 1;
          };
          goroutines = admitted ∷ released ∷ [];
        }))
unfolding run_picks advance
admitted_later = (refl, refl)

Reach-IsCounted-CanMove_example :
    IsCounted 1 busy
    × (count_of is_compiling busy.goroutines ≤ 1)
    × (Each (λ p. p ≡ pushed) busy.goroutines ⊎ CanMove busy)
Reach-IsCounted-CanMove_example = Reach-IsCounted-CanMove 1 busy made_busy
