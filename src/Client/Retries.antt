-- ===== src/Client/Retries.antt =====
-- The whole of `compileCppRemotelyWithRetries` of internal/client/daemon.go: its attempts, the waits
-- between them and the reconnections, on one daemon.
pub mod Rounds
pub mod Answering
use nocc.Client.Compiling.{Job, Encounters, try_compile_cpp_remotely}
use nocc.Client.Connecting.{Connection, reconnect_unavailable_remotes}
use nocc.Client.Daemon.{Daemon, Response, remote_reply, on_remote_compilation_failed}
use nocc.Client.Routing.{RemoteConnection, Attempt, compiled, failed, no_capable_remote}
use nocc.Prelude.{
  ℕ, zero, suc, ◌+◌, Bool, true, false, Option, none, some, List, [], ◌∷◌, leb, if◌then◌else◌,
}

-- What the attempts meet, by their numbers: the invocation, parsed anew for each, and what the other
-- goroutines do to the daemon while an attempt waits, and while it sleeps behind it; then the times and
-- the connections of the reconnection.
pub record Surroundings : Type 0 where
  pub job : ℕ → Job
  pub encounters : ℕ → Encounters
  pub meanwhile : ℕ → Daemon → Daemon
  pub asleep : ℕ → Daemon → Daemon
  pub now : ℕ → ℕ → ℕ
  pub connect : ℕ → ℕ → Connection

pub data Answer : Type 0 where
  answered : Response → Daemon → Answer
  panicked : Answer
  out_of_fuel : Answer

unfoldable pub try_number : Surroundings → ℕ → Daemon → Option (Daemon × Attempt)
unfolding try_compile_cpp_remotely
try_number s k d = try_compile_cpp_remotely (s.job k) (s.meanwhile k) (s.encounters k) d

-- The sleep and the reconnection.
unfoldable pub before_next : Surroundings → ℕ → Daemon → Daemon
unfolding reconnect_unavailable_remotes
before_next s k d = reconnect_unavailable_remotes (s.now k) (s.connect k) (s.asleep k d)

-- The loop, from attempt number `attempt` on.
unfoldable pub try_from : Surroundings → ℕ → ℕ → Daemon → Answer
unfolding try_number before_next on_remote_compilation_failed
try_from s zero attempt d = out_of_fuel
try_from s (suc fuel) attempt d = elim (try_number s attempt d) [
  | none ↦ panicked
  | some (e, compiled) ↦ answered (remote_reply (s.encounters attempt).exit_code) e
  | some (e, no_capable_remote) ↦ answered (on_remote_compilation_failed e) e
  | some (e, failed) ↦
      let rest = try_from s fuel (attempt + 1) (before_next s attempt e) in
      if leb e.remote_retries attempt then answered (on_remote_compilation_failed e) e else rest
]

abbrev pub no_remotes : List RemoteConnection → Bool
no_remotes [] = true
no_remotes (r ∷ rs) = false

unfoldable pub compile_cpp_remotely_with_retries : Surroundings → ℕ → Daemon → Answer
unfolding try_from on_remote_compilation_failed
compile_cpp_remotely_with_retries s fuel d =
    if no_remotes d.remote_connections
    then answered (on_remote_compilation_failed d) d
    else try_from s fuel 0 d
