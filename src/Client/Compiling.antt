-- ===== src/Client/Compiling.antt =====
-- internal/client/compile-remotely.go, the calls of remote-connection.go that it makes, and one attempt to
-- compile a .cpp of internal/client/daemon.go.
pub mod Refusing
pub mod Adding
use nocc.Client.Daemon.{ActiveInvocation, Daemon}
use nocc.Client.Routing.{
  RemoteConnection, Attempt, compiled, failed, no_capable_remote, mark_incapable_of_cxx,
  coverage_capability_name, are_all_remotes_available, choose_remote_connection_for_cpp_compilation,
}
use nocc.Client.Waiting.{Waits}
use nocc.Prelude.Dict.{Dict, put, delete}
use nocc.Prelude.Maybe.{◌>>=◌}
use nocc.Prelude.{
  ℕ, ◌+◌, Bool, true, false, Option, none, some, List, [], ◌∷◌, ◌++◌, Bytes, nat_comparable,
  nat_beq, length, get_elem?, if◌then◌else◌,
}
use nocc.Server.Client.{FileMetadata}

-- The code of an error with its message.
pub data CallError : Type 0 where
  failed_precondition : Bytes → CallError
  unimplemented : Bytes → CallError
  other_error : CallError

pub data StartReply : Type 0 where
  missing : List ℕ → StartReply
  refused : CallError → StartReply

-- What an attempt meets: the dependencies with the .cpp, whether the remote is found unavailable before
-- its two calls, what it replies, and `invocation.err` once the uploads, and the object, are waited for.
pub record Encounters : Type 0 where
  pub collected : Option (List FileMetadata × FileMetadata)
  pub down_at_start : Bool
  pub start : StartReply
  pub down_at_upload : Bool
  pub failed_uploads : Option CallError
  pub failed_recv : Option CallError
  pub exit_code : ℕ

pub data Compiled : Type 0 where
  replied : ℕ → Compiled
  broke : CallError → Compiled

-- `wgRecv.Add(1)`, and the counters of `UploadFilesToRemote`.
unfoldable pub add_recv : Waits → Waits
add_recv w = record w { wg_recv = w.wg_recv + 1 }

unfoldable pub add_uploads : ℕ → Waits → Waits
add_uploads n w = record w { wait_uploads = n; wg_upload = w.wg_upload + n }

-- The files that go to the upload queue, with their indexes. `none`: an index that is out of range
-- panics.
unfoldable pub upload_files_to_remote :
    List FileMetadata → List ℕ → Option (List (ℕ × FileMetadata))
upload_files_to_remote required [] = some []
upload_files_to_remote required (i ∷ is) = get_elem? required i >>= λ file.
    upload_files_to_remote required is >>= λ more. some ((i, file) ∷ more)

abbrev pub or_error : Option CallError → Compiled → Compiled
or_error none c = c
or_error (some e) c = broke e

abbrev pub Sent : Type 0
Sent = Compiled × List (ℕ × FileMetadata)

unfoldable pub compile_started : Encounters → List FileMetadata → List ℕ → Option Sent
unfolding upload_files_to_remote
compile_started m required indexes =
    if m.down_at_upload
    then some (broke other_error, [])
    else upload_files_to_remote required indexes >>= λ queue.
        some (or_error m.failed_uploads (or_error m.failed_recv (replied m.exit_code)), queue)

unfoldable pub compile_collected : Encounters → List FileMetadata → Option Sent
unfolding compile_started
compile_collected m required =
    if m.down_at_start then some (broke other_error, []) else elim m.start [
      | refused e ↦ some (broke e, [])
      | missing indexes ↦ compile_started m required indexes
    ]

unfoldable pub compile_cpp_remotely : Encounters → Option Sent
unfolding compile_collected
compile_cpp_remotely m = elim m.collected [
  | none ↦ some (broke other_error, [])
  | some (h_files, cpp_file) ↦ compile_collected m (h_files ++ (cpp_file ∷ []))
]

-- The connection is a pointer: its place in the list is where its client is.
unfoldable pub mark_at : ℕ → Bytes → Bytes → List RemoteConnection → List RemoteConnection
unfolding mark_incapable_of_cxx
mark_at grpc_client name reason [] = []
mark_at grpc_client name reason (r ∷ rs) =
    (if nat_beq r.grpc_client grpc_client then mark_incapable_of_cxx r name reason else r)
    ∷ mark_at grpc_client name reason rs

unfoldable pub after_error :
    CallError → ℕ → Bytes → Bool → List RemoteConnection → List RemoteConnection
unfolding mark_at coverage_capability_name
after_error (failed_precondition reason) c cxx_name coverage rs = mark_at c cxx_name reason rs
after_error (unimplemented reason) c cxx_name coverage rs =
    if coverage then mark_at c (coverage_capability_name cxx_name) reason rs else rs
after_error other_error c cxx_name coverage rs = rs

abbrev pub new_waits : Waits
new_waits = record {
  wait_uploads = 0;
  wg_upload = 0;
  done_recv = false;
  wg_recv = 0;
  failed = false;
}

unfoldable pub register : ℕ → ℕ → RemoteConnection → Daemon → Daemon
unfolding put
register session_id create_time r d = record d {
  active_invocations =
      put session_id
        (record { remote = r.grpc_client; create_time = create_time; waits = new_waits })
        d.active_invocations;
}

unfoldable pub unregister : ℕ → Daemon → Daemon
unfolding delete
unregister session_id d = record d { active_invocations = delete session_id d.active_invocations }

-- An invocation's own data.
pub record Job : Type 0 where
  pub session_id : ℕ
  pub create_time : ℕ
  pub cpp_in_file : Bytes
  pub cxx_name : Bytes
  pub coverage : Bool

unfoldable pub finish : Job → ℕ → Compiled → Daemon → Daemon × Attempt
unfolding after_error
finish job c (replied exit_code) d = (d, compiled)
finish job c (broke e) d = (
  record d { remote_connections = after_error e c job.cxx_name job.coverage d.remote_connections },
  failed,
)

unfoldable pub try_on :
    Job → (Daemon → Daemon) → Encounters → Daemon → RemoteConnection → Option (Daemon × Attempt)
unfolding register unregister finish compile_cpp_remotely
try_on job meanwhile m d r = compile_cpp_remotely m >>= λ sent. some (
    finish job r.grpc_client sent.0
      (unregister job.session_id (meanwhile (register job.session_id job.create_time r d))))

-- `meanwhile` is what the other goroutines do to the daemon while the attempt waits. `none`: a panic.
unfoldable pub try_compile_cpp_remotely :
    Job → (Daemon → Daemon) → Encounters → Daemon → Option (Daemon × Attempt)
unfolding try_on choose_remote_connection_for_cpp_compilation
try_compile_cpp_remotely job meanwhile m d =
    elim (choose_remote_connection_for_cpp_compilation d.remote_connections job.cpp_in_file
      job.cxx_name job.coverage) [
        | none ↦ some (
          d,
          (if are_all_remotes_available d.remote_connections then no_capable_remote else failed),
        )
        | some i ↦ get_elem? d.remote_connections i >>= try_on job meanwhile m d
      ]
