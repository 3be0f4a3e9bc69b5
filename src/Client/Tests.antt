-- ===== src/Client/Tests.antt =====
-- Two servers of internal/client/daemon.go, the second one lost before, and two invocations in flight.
use nocc.Client.Compiling.Adding.{waiting_on, register_then_lose}
use nocc.Client.Compiling.Refusing.{IsAvoided, try_compile-IsAvoided}
use nocc.Client.Compiling.{
  CallError, failed_precondition, refused, missing, Encounters, Job, add_recv, add_uploads,
  new_waits, register, try_compile_cpp_remotely, compile_cpp_remotely,
}
use nocc.Client.Connecting.Staying.{hosts, reconnect-Stays}
use nocc.Client.Connecting.{Connection, reconnect_unavailable_remotes}
use nocc.Client.Daemon.Losing.{
  AreBalanced, AreLost, Interrupts, on_remote_became_unavailable-AreLost,
}
use nocc.Client.Daemon.{ActiveInvocation, Daemon, on_remote_became_unavailable}
use nocc.Client.Daemon.{Response, remote_reply}
use nocc.Client.Retries.Answering.{compile_cpp_remotely_with_retries_ends}
use nocc.Client.Retries.Rounds.{outcome, left, told}
use nocc.Client.Retries.{
  Surroundings, Answer, answered, panicked, out_of_fuel, compile_cpp_remotely_with_retries,
}
use nocc.Client.Routing.Retrying.{Ended}
use nocc.Client.Routing.{
  Tried, compile_with_retries, RemoteConnection, failed, can_at,
  choose_remote_connection_for_cpp_compilation,
}
use nocc.Client.Waiting.{Waits}
use nocc.Prelude.Dict.{put}
use nocc.Prelude.Text.{ascii}
use nocc.Prelude.{
  nat_comparable, ℕ, zero, suc, Bool, true, false, none, some, List, [], ◌∷◌, Bytes, ◌≡◌, ◌≢◌, ◌⊎◌,
  inl, refl, arith, get_elem?, Option, ◌-◌, nat_beq, if◌then◌else◌,
}
use nocc.Server.Client.{FileMetadata}

abbrev remote : Bytes → ℕ → Bool → RemoteConnection
remote name c down = record {
  remote_host_port = name;
  is_unavailable = down;
  grpc_client = c;
  create_time = 0;
  incapable_cxx_names = [];
  supports_coverage = true;
}

abbrev remotes : List RemoteConnection
remotes = remote (ascii "a:43210") 1 false ∷ remote (ascii "b:43210") 2 true ∷ []

abbrev waits : Waits
waits = record { wait_uploads = 2; wg_upload = 2; done_recv = false; wg_recv = 1; failed = false }

abbrev on : ℕ → ActiveInvocation
on c = record { remote = c; create_time = 0; waits = waits }

abbrev daemon : Daemon
daemon = record {
  remote_connections = remotes;
  disable_local_cxx = false;
  disable_local_fallback = false;
  remote_retries = 1;
  active_invocations = (7, on 1) ∷ (8, on 2) ∷ [];
  includes_cache = [];
  force_interrupt_timeout = 100;
}

balanced : AreBalanced daemon.active_invocations
balanced = (record { uploads = refl; recv = refl }, (record { uploads = refl; recv = refl }, tt))

on_remote_became_unavailable-AreLost_example :
    (e : Daemon) × (on_remote_became_unavailable 1 daemon ≡ some e)
    × AreLost 1 daemon.remote_connections e.remote_connections
    × Interrupts 1 daemon.remote_connections daemon.active_invocations e.active_invocations
    × AreBalanced e.active_invocations
on_remote_became_unavailable-AreLost_example =
    on_remote_became_unavailable-AreLost 1 daemon balanced

abbrev first_remote : RemoteConnection
first_remote = remote (ascii "a:43210") 1 false

register_then_lose_example :
    (on_remote_became_unavailable 1 (register 9 5 first_remote daemon) ≡ none)
    × AreBalanced (put 9 (waiting_on first_remote 5 (add_recv new_waits)) daemon.active_invocations)
    × AreBalanced (
        put 9
          (waiting_on first_remote 5 (add_uploads 2 (add_recv new_waits)))
          daemon.active_invocations)
register_then_lose_example =
    register_then_lose 9 5 2 first_remote daemon (inl (refl, refl)) balanced

abbrev job : Job
job = record {
  session_id = 9;
  create_time = 5;
  cpp_in_file = ascii "/src/main.cpp";
  cxx_name = ascii "g++";
  coverage = false;
}

abbrev refusal : CallError
refusal = failed_precondition (ascii "no toolchain")

abbrev source : FileMetadata
source = record {
  client_file_name = ascii "/src/main.cpp";
  file_size = 3;
  sha256 = record { b0_7 = 1; b8_15 = 2; b16_23 = 3; b24_31 = 4 };
}

abbrev encounters : Encounters
encounters = record {
  collected = some ([], source);
  down_at_start = false;
  start = refused refusal;
  down_at_upload = false;
  failed_uploads = none;
  failed_recv = none;
  exit_code = 0;
}

own_client :
    (j : ℕ) (s : RemoteConnection) → get_elem? remotes j ≡ some s → s.grpc_client ≡ 1 → j ≡ 0
own_client zero s e own = refl
own_client (suc zero) s e own = ground arith
own_client (suc (suc j)) s e own = ground arith

try_compile-IsAvoided_example :
    (d : Daemon) × (try_compile_cpp_remotely job (λ d. d) encounters daemon ≡ some (d, failed))
    × IsAvoided refusal false (ascii "g++") 0 first_remote d.remote_connections
    × ((j : ℕ) → j ≢ 0 → get_elem? d.remote_connections j ≡ get_elem? remotes j)
unfolding choose_remote_connection_for_cpp_compilation compile_cpp_remotely
try_compile-IsAvoided_example =
    try_compile-IsAvoided job (λ d. d) encounters daemon 0 first_remote refusal (λ c. refl) refl
      refl own_client refl

abbrev connection : ℕ → Connection
connection i = record {
  grpc_client = 3;
  create_time = 2000000000;
  has_client = true;
  supports_coverage = some true;
  upload_stream = true;
  receive_stream = true;
}

reconnect-Stays_example :
    (hosts (reconnect_unavailable_remotes (λ i. 2000000000) connection daemon).remote_connections
      ≡ hosts remotes)
    × ((i : ℕ) × (choose_remote_connection_for_cpp_compilation
            (reconnect_unavailable_remotes (λ i. 2000000000) connection daemon).remote_connections
            (ascii "/src/main.cpp")
            (ascii "g++")
            false
          ≡ some i)
        × ((i ≡ 0) ⊎ (can_at remotes (ascii "g++") false i ≡ false)))
unfolding choose_remote_connection_for_cpp_compilation
reconnect-Stays_example =
    reconnect-Stays (λ i. 2000000000) connection daemon (ascii "/src/main.cpp") (ascii "g++") false
      0 refl

-- The first server refuses the compiler, the second one is up again and takes the file.
abbrev surroundings : Surroundings
surroundings = record {
  job = λ k. job;
  encounters = λ k. if nat_beq k 0 then encounters else record encounters { start = missing [] };
  meanwhile = λ k d. d;
  asleep = λ k d. d;
  now = λ k i. 2000000000;
  connect = λ k. connection;
}

indexes_fit : (k : ℕ) → compile_cpp_remotely (surroundings.encounters k) ≢ none
unfolding compile_cpp_remotely
indexes_fit k = ground arith

compile_cpp_remotely_with_retries_ends_example :
    (t : Tried) × (e : Daemon) × (compile_with_retries 2 1 (outcome surroundings daemon) 0 0
      ≡ some t)
    × Ended 1 0 (outcome surroundings daemon) t
    × (left surroundings daemon (t.attempts - 1) ≡ some e)
    × (compile_cpp_remotely_with_retries surroundings 2 daemon ≡ answered (told surroundings t e) e)
compile_cpp_remotely_with_retries_ends_example =
    compile_cpp_remotely_with_retries_ends surroundings daemon (λ k d. refl) (λ k d. refl)
      indexes_fit 2 (omega arith)

response_of : Answer → Option Response
response_of (answered r d) = some r
response_of panicked = none
response_of out_of_fuel = none

second_server :
    response_of (compile_cpp_remotely_with_retries surroundings 2 daemon) ≡ some (remote_reply 0)
unfolding compile_cpp_remotely_with_retries response_of
second_server = refl
