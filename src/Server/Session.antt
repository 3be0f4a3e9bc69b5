-- ===== src/Server/Session.antt =====
-- internal/server/session.go: the compiler's command line on the server, the start of the compiler,
-- and the channel of ready sessions.
pub mod Waking
use nocc.Prelude.Maybe.{◌>>=◌}
use nocc.Prelude.Paths.{is_abs}
use nocc.Prelude.Text.{ascii, decimal}
use nocc.Prelude.{
  ℕ, Bool, true, false, ◌&&◌, Option, none, some, List, [], ◌∷◌, ◌++◌, Bytes, bytes_beq, map, ltb,
  length, if◌then◌else◌,
}
use nocc.Server.Client.{
  Client, Session, FileState, uploaded, just_created, uploading, upload_error, FileHeap,
  set_session, map_client_file_name_to_server_abs, get_sessions_not_started_compilation,
}
use nocc.Server.CompilerOptions.{file_prefix_map_option}
use nocc.Server.Coverage.{coverage_cxx_args, coverage_notes_file_name}

-- internal/server/obj-cache.go: `{objTmpDir}/{clientID}.{sessionID}.o`
unfoldable pub generate_obj_out_file_name : Bytes → Bytes → ℕ → Bytes
unfolding decimal
generate_obj_out_file_name obj_tmp_dir client_id session_id =
    obj_tmp_dir ++ (b'/' ∷ client_id ++ (b'.' ∷ decimal session_id ++ ascii ".o"))

-- The input file and the directory of the compiler. `none`: an index out of range, for empty names.
unfoldable pub place_of_compilation : Bytes → Session → Bytes → Option (Bytes × Bytes)
unfolding map_client_file_name_to_server_abs
place_of_compilation working_dir s [] = do
  cpp ← map_client_file_name_to_server_abs working_dir s.cpp_in_file
  some (cpp, working_dir)
place_of_compilation working_dir s (x ∷ client_cwd) = elim s.cpp_in_file [
  | [] ↦ none
  | c ∷ name ↦ (do
    abs ← map_client_file_name_to_server_abs working_dir (c ∷ name)
    cwd ← map_client_file_name_to_server_abs working_dir (x ∷ client_cwd)
    some (if is_abs (c ∷ name) then abs else c ∷ name, cwd))
]

-- `-I {dir}` / `-include {file}` pairs. `none`: an option without its directory, or an empty one.
unfoldable pub server_idirs : Bytes → List Bytes → Option (List Bytes)
unfolding map_client_file_name_to_server_abs
server_idirs working_dir [] = some []
server_idirs working_dir (arg ∷ []) = none
server_idirs working_dir (arg ∷ d ∷ rest) =
    map_client_file_name_to_server_abs working_dir d >>= λ server_dir.
    (server_idirs working_dir rest >>= λ others. some (arg ∷ server_dir ∷ others))

abbrev pub prefix_map : Bytes → Bytes → Bytes
prefix_map option working_dir = option ++ (working_dir ++ ascii "=")

-- Everything of the command line that stands before `-o`.
unfoldable pub cxx_options : Bytes → Session → Bytes → List Bytes → List Bytes → List Bytes
unfolding file_prefix_map_option coverage_cxx_args coverage_notes_file_name
cxx_options working_dir s cxx_cwd idirs cxx_args =
    let coverage = bytes_beq s.coverage_obj_file [] in
    (prefix_map (ascii "-fdebug-prefix-map=") working_dir
      ∷ (if coverage then [] else prefix_map (ascii "-fprofile-prefix-map=") working_dir ∷ []))
    ++ (idirs
        ++ (map (λ (arg : Bytes). file_prefix_map_option arg working_dir) cxx_args
            ++ (if coverage
                then []
                else coverage_cxx_args s.coverage_obj_file cxx_cwd
                    (coverage_notes_file_name s.obj_out_file))))

-- `PrepareServerCxxCmdLine`, with the object's name already in the session.
unfoldable pub command_line_in : Bytes → Session → Bytes → List Bytes → List Bytes → Option Session
unfolding place_of_compilation server_idirs cxx_options
command_line_in working_dir s client_cwd cxx_args cxx_idirs = do
  (cpp_in_file, cwd) ← place_of_compilation working_dir s client_cwd
  idirs ← server_idirs working_dir cxx_idirs
  some (record s {
    cxx_cwd = cwd;
    cxx_cmd_line =
        cxx_options working_dir s cwd idirs cxx_args
        ++ (ascii "-o" ∷ s.obj_out_file ∷ cpp_in_file ∷ []);
  })

-- `session.objOutFile = noccServer.ObjFileCache.GenerateObjOutFileName(session)`
abbrev pub with_obj_out_file : Bytes → Client → Session → Session
with_obj_out_file obj_tmp_dir c s = record s {
  obj_out_file = generate_obj_out_file_name obj_tmp_dir c.client_id s.session_id;
}

unfoldable pub prepare_server_cxx_cmd_line :
    Bytes → Client → Session → Bytes → List Bytes → List Bytes → Option Session
unfolding generate_obj_out_file_name command_line_in
prepare_server_cxx_cmd_line obj_tmp_dir c s client_cwd cxx_args cxx_idirs =
    command_line_in c.working_dir (with_obj_out_file obj_tmp_dir c s) client_cwd cxx_args cxx_idirs

abbrev pub is_uploaded : FileState → Bool
is_uploaded uploaded = true
is_uploaded _ = false

unfoldable pub all_uploaded : FileHeap → List ℕ → Bool
all_uploaded h [] = true
all_uploaded h (p ∷ ps) = is_uploaded (h p).state && all_uploaded h ps

-- `atomic.SwapInt32(&session.compilationStarted, 1)`, and the goroutine if it was 0.
unfoldable pub start_once : Client → ℕ → Client
start_once c p =
    let s = c.session_at p in
    if s.compilation_started then c else record c {
      session_at = set_session c.session_at p (record s { compilation_started = true });
      launched = p ∷ c.launched;
    }

unfoldable pub start_compiling_obj_if_possible : Client → ℕ → Client
unfolding all_uploaded start_once
start_compiling_obj_if_possible c p =
    if all_uploaded c.file_at (c.session_at p).files then start_once c p else c

-- The loop of `launchCxxOnServerOnReadySessions`.
unfoldable pub start_each : Client → List ℕ → Client
unfolding start_compiling_obj_if_possible
start_each c [] = c
start_each c (p ∷ ps) = start_each (start_compiling_obj_if_possible c p) ps

unfoldable pub launch_cxx_on_server_on_ready_sessions : Client → Client
unfolding start_each get_sessions_not_started_compilation
launch_cxx_on_server_on_ready_sessions c = start_each c (get_sessions_not_started_compilation c)

-- What `chanReadySessions` buffers.
abbrev pub ready_capacity : ℕ
ready_capacity = 200

-- `select` takes a branch that is not blocked: `gone` is its choice where both are free.
-- `none`: it blocks.
unfoldable pub push_to_client_ready_channel : Bool → Client → ℕ → Option Client
push_to_client_ready_channel gone c p =
    if c.disconnected && gone
    then some c
    else if ltb (length c.ready_sessions) ready_capacity
    then some (record c { ready_sessions = c.ready_sessions ++ (p ∷ []) })
    else if c.disconnected
    then some c
    else none
