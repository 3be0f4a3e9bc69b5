-- ===== src/Server/Launcher.antt =====
-- internal/server/cxx-launcher.go: the goroutines of `LaunchCxxWhenPossible` on the launcher's channel
-- and counters, each of which is atomic. What the push to the client does is in Server/Session.
pub mod Counting
pub mod Bounds
pub mod Progress
mod Tests
use nocc.Common.CompilerKilled.{ExitCode}
use nocc.Prelude.{
  ℕ, ◌+◌, ◌-◌, Option, none, some, List, [], ◌∷◌, ◌≡◌, ltb, nat_beq, get_elem?, set, if◌then◌else◌,
}
use nocc.Server.Handlers.Replies.{is_zero}

-- `server_cxx_throttle` is the number of elements in the channel, of `max_parallel` at most.
pub record CxxLauncher : Type 0 where
  pub max_parallel : ℕ
  pub server_cxx_throttle : ℕ
  pub sessions_ready_but_waiting : ℕ
  pub sessions_now_compiling : ℕ
  pub total_calls : ℕ
  pub total_duration_ms : ℕ
  pub more_10_sec_count : ℕ
  pub more_30_sec_count : ℕ
  pub non_zero_exit_code_count : ℕ

-- For a number that is not below zero; one that is below is refused as zero is.
unfoldable pub make_cxx_launcher : ℕ → Option CxxLauncher
make_cxx_launcher max_parallel =
    if nat_beq max_parallel 0
    then none
    else some (record {
      max_parallel = max_parallel;
      server_cxx_throttle = 0;
      sessions_ready_but_waiting = 0;
      sessions_now_compiling = 0;
      total_calls = 0;
      total_duration_ms = 0;
      more_10_sec_count = 0;
      more_30_sec_count = 0;
      non_zero_exit_code_count = 0;
    })

-- How a compiler ends, with the milliseconds that it took.
pub record CxxEnd : Type 0 where
  pub exit_code : ExitCode
  pub duration : ℕ

-- Where a goroutine stands: before its first line, before the send on the channel, behind it, before
-- the compiler starts, with its end, with one less now compiling, with the call counted, behind the
-- receive, and behind the push to the client.
pub data Phase : Type 0 where
  entered : Phase
  waiting : Phase
  admitted : Phase
  starting : Phase
  compiling : Phase
  ended : CxxEnd → Phase
  stepped_down : CxxEnd → Phase
  counted : Phase
  released : Phase
  pushed : Phase

-- The counters are added to one by one; what is read between these is a statistic.
unfoldable pub count_call : CxxEnd → CxxLauncher → CxxLauncher
count_call e l =
    let called : CxxLauncher = record l {
      total_calls = l.total_calls + 1;
      total_duration_ms = l.total_duration_ms + e.duration;
    } in
    if is_zero e.exit_code
    then (if ltb 30000 e.duration
        then record called { more_30_sec_count = l.more_30_sec_count + 1 }
        else if ltb 10000 e.duration
        then record called { more_10_sec_count = l.more_10_sec_count + 1 }
        else called)
    else record called { non_zero_exit_code_count = l.non_zero_exit_code_count + 1 }

-- The next step of a goroutine, whose compiler ends with `e` if it is running. `none`: it blocks on the
-- channel, or is at its end.
unfoldable pub advance : CxxEnd → CxxLauncher → Phase → Option (CxxLauncher × Phase)
unfolding count_call
advance e l entered =
    some (record l { sessions_ready_but_waiting = l.sessions_ready_but_waiting + 1 }, waiting)
advance e l waiting =
    if ltb l.server_cxx_throttle l.max_parallel
    then some (record l { server_cxx_throttle = l.server_cxx_throttle + 1 }, admitted)
    else none
advance e l admitted =
    some (record l { sessions_ready_but_waiting = l.sessions_ready_but_waiting - 1 }, starting)
advance e l starting =
    some (record l { sessions_now_compiling = l.sessions_now_compiling + 1 }, compiling)
advance e l compiling = some (l, ended e)
advance e l (ended r) =
    some (record l { sessions_now_compiling = l.sessions_now_compiling - 1 }, stepped_down r)
advance e l (stepped_down r) = some (count_call r l, counted)
advance e l counted =
    if nat_beq l.server_cxx_throttle 0
    then none
    else some (record l { server_cxx_throttle = l.server_cxx_throttle - 1 }, released)
advance e l released = some (l, pushed)
advance e l pushed = none

-- The launcher with its goroutines, the newest one first.
pub record Launches : Type 0 where
  pub launcher : CxxLauncher
  pub goroutines : List Phase

pub data Step (s : Launches) : Launches → Type 0 where
  launch : Step s (record s { goroutines = entered ∷ s.goroutines })
  move :
      (i : ℕ) (e : CxxEnd) (p : Phase) {l : CxxLauncher} {q : Phase}
      → get_elem? s.goroutines i ≡ some p
      → advance e s.launcher p ≡ some (l, q)
      → Step s (record { launcher = l; goroutines = set s.goroutines i q })

pub data Reach (n : ℕ) : Launches → Type 0 where
  made :
      {l : CxxLauncher}
      → make_cxx_launcher n ≡ some l
      → Reach n (record { launcher = l; goroutines = [] })
  next : {s t : Launches} → Reach n s → Step s t → Reach n t
