-- ===== src/Server/Handlers/Starting.antt =====
-- internal/server/nocc-server.go: `StartCompilationSession`, every branch of it.
use nocc.Common.CompilerKilled.{exited}
use nocc.Common.Sha256.{Sha256}
use nocc.Prelude.Dict.{Dict, get, put}
use nocc.Prelude.Maybe.{◌>>=◌}
use nocc.Prelude.{
  ℕ, ◌+◌, Bool, true, false, ◌||◌, not, Option, none, some, List, [], Bytes, bytes_beq,
  bytes_comparable, map, if◌then◌else◌,
}
use nocc.Server.Client.{
  Client, Session, FileMetadata, start_using_files, register_created_session, set_session,
  mkdir_all_for_session,
}
use nocc.Server.CxxCapability.{
  CxxCapabilityCache, Compilers, Mismatch, check_compiler_matches_client,
  check_coverage_matches_client,
}
use nocc.Server.FileCache.{CachePath, lookup_in_cache, path_text}
use nocc.Server.Handlers.{Shared, Machine, Visited, visit_files}
use nocc.Server.ObjCache.{make_obj_cache_key}
use nocc.Server.Session.{
  prepare_server_cxx_cmd_line, launch_cxx_on_server_on_ready_sessions, push_to_client_ready_channel,
}

-- pb.StartCompilationSessionRequest, less the client's id.
pub record Request : Type 0 where
  pub session_id : ℕ
  pub cwd : Bytes
  pub cpp_in_file : Bytes
  pub cxx_name : Bytes
  pub cxx_args : List Bytes
  pub cxx_idirs : List Bytes
  pub required_files : List FileMetadata
  pub cxx_target_triplet : Bytes
  pub coverage_obj_file : Bytes
  pub cxx_version : Bytes

-- The reply with the indexes to upload, or where the error comes from.
pub data Reply : Type 0 where
  accepted : List ℕ → Reply
  unauthenticated : Reply
  failed_precondition : Mismatch → Reply
  unimplemented : Mismatch → Reply
  dependency_conflict : Reply
  system_file_differs : Reply

-- `gone` is the choice of `select` on a client that has disconnected.
pub record Setup : Type 0 where
  pub machine : Machine
  pub compilers : Compilers
  pub sha256 : Bytes → Sha256
  pub obj_tmp_dir : Bytes
  pub obj_cache_dir : Bytes
  pub gone : Bool

abbrev pub no_hash : Sha256
no_hash = record { b0_7 = 0; b8_15 = 0; b16_23 = 0; b24_31 = 0 }

-- The literal of `CreateNewSession`, with its files.
abbrev pub new_session : Request → List ℕ → Session
new_session r files = record {
  session_id = r.session_id;
  cpp_in_file = r.cpp_in_file;
  obj_out_file = [];
  cxx_cwd = [];
  cxx_name = r.cxx_name;
  cxx_cmd_line = [];
  coverage_obj_file = r.coverage_obj_file;
  coverage_notes = none;
  coverage_failed = false;
  files = files;
  obj_cache_key = no_hash;
  obj_cache_exists = false;
  compilation_started = false;
  cxx_exit_code = exited 0;
  cxx_stdout = [];
  cxx_stderr = [];
  cxx_duration = 0;
}

-- The session gets its address: `c.sessions_allocated`.
unfoldable pub add_session : Client → Session → Client
add_session c s = record c {
  session_at = set_session c.session_at c.sessions_allocated s;
  sessions_allocated = c.sessions_allocated + 1;
}

abbrev pub Opened : Type 0
Opened = Shared × Client × Reply

-- The object is in the cache: nothing is uploaded or compiled. `none`: the push blocks.
unfoldable pub serve_from_obj_cache : Setup → Shared → Client → Session → CachePath → Option Opened
unfolding add_session register_created_session push_to_client_ready_channel path_text
serve_from_obj_cache e s c ses path =
    let found = record ses {
      obj_cache_exists = true;
      obj_out_file = path_text e.obj_cache_dir path;
      compilation_started = true;
    } in
    push_to_client_ready_channel e.gone
      (register_created_session (add_session c found) c.sessions_allocated) c.sessions_allocated
    >>= λ d. some (s, d, accepted [])

-- What follows the loop over the files.
unfoldable pub finish_opening : Client → ℕ → Visited → Opened
unfolding register_created_session launch_cxx_on_server_on_ready_sessions
finish_opening c p v =
    let c1 = record c { file_at = v.heap } in
    if v.refused then (v.shared, c1, system_file_differs) else (
      v.shared,
      launch_cxx_on_server_on_ready_sessions (register_created_session c1 p),
      accepted v.requested,
    )

-- From `client.MkdirAllForSession` on. `none`: a panic.
unfoldable pub open_prepared : Setup → Shared → Client → Session → Option Opened
unfolding add_session mkdir_all_for_session visit_files finish_opening
open_prepared e s c ses = mkdir_all_for_session (add_session c ses) c.sessions_allocated >>= λ d.
    (visit_files e.machine 0 ses.files s d.file_at >>= λ v.
    some (finish_opening d c.sessions_allocated v))

-- The object has to be compiled.
unfoldable pub open_for_compilation : Setup → Shared → Client → Request → Session → Option Opened
unfolding prepare_server_cxx_cmd_line open_prepared
open_for_compilation e s c r ses =
    prepare_server_cxx_cmd_line e.obj_tmp_dir c ses r.cwd r.cxx_args r.cxx_idirs >>= λ prepared.
    open_prepared e s c prepared

-- What the obj cache answered decides.
unfoldable pub open_looked_up :
    Setup → Shared → Client → Request → Session → Option CachePath → Option Opened
unfolding serve_from_obj_cache open_for_compilation
open_looked_up e s c r ses (some path) = serve_from_obj_cache e s c ses path
open_looked_up e s c r ses none = open_for_compilation e s c r ses

-- From the lookup in the obj cache on.
unfoldable pub open_session : Setup → Shared → Client → Request → Session → Option Opened
unfolding make_obj_cache_key lookup_in_cache open_looked_up open_for_compilation
open_session e s c r ses =
    if c.disable_obj_cache || not (bytes_beq ses.coverage_obj_file [])
    then open_for_compilation e s c r ses
    else (let key =
          make_obj_cache_key e.sha256 r.cxx_name r.cxx_args (map c.file_at ses.files)
            r.cpp_in_file in
        lookup_in_cache s.obj_file_cache key >>= λ found.
        open_looked_up e (record s { obj_file_cache = found.0 }) c r
          (record ses { obj_cache_key = key }) found.1)

-- From `client.CreateNewSession` on.
unfoldable pub start_session : Setup → Shared → Client → Request → Option Opened
unfolding start_using_files open_session
start_session e s c r = start_using_files e.machine.now c r.required_files >>= λ created.
    elim created.1 [
      | none ↦ some (s, created.0, dependency_conflict)
      | some files ↦ open_session e s created.0 r (new_session r files)
    ]

-- The server, with its clients by their ids.
pub record NoccServer : Type 0 where
  pub active_clients : Dict Bytes Client
  pub cxx_capability : CxxCapabilityCache
  pub shared : Shared

abbrev pub with_client : NoccServer → Bytes → Opened → NoccServer × Reply
with_client server id o =
    (record server { active_clients = put id o.1 server.active_clients; shared = o.0 }, o.2)

-- The two checks of the compiler; the second one is for coverage sessions only.
unfoldable pub check_compilers :
    Compilers → CxxCapabilityCache → Request → CxxCapabilityCache × Option Reply
unfolding check_compiler_matches_client check_coverage_matches_client
check_compilers m k r =
    let target = check_compiler_matches_client m k r.cxx_name r.cxx_target_triplet in
    let coverage = check_coverage_matches_client m target.0 r.cxx_name r.cxx_version in
    elim target.1 [
      | some e ↦ (target.0, some (failed_precondition e))
      | none ↦
          if bytes_beq r.coverage_obj_file []
          then (target.0, none)
          else (coverage.0, elim coverage.1 [ none ↦ none | some e ↦ some (unimplemented e) ])
    ]

unfoldable pub start_compilation_session :
    Setup → NoccServer → Bytes → Request → Option (NoccServer × Reply)
unfolding check_compilers start_session
start_compilation_session e server id r = elim (get id server.active_clients) [
  | none ↦ some (server, unauthenticated)
  | some c ↦
      let checked = check_compilers e.compilers server.cxx_capability r in
      let server1 = record server { cxx_capability = checked.0 } in
      elim checked.1 [
        | some refusal ↦ some (server1, refusal)
        | none ↦ (start_session e server.shared c r >>= λ o. some (with_client server1 id o))
      ]
]
