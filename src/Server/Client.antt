-- ===== src/Server/Client.antt =====
-- internal/server/client.go: a client machine, its files on the server and its sessions.
-- Files and sessions are shared by pointers, so each stands on a heap: a pointer is an address.
pub mod Names
pub mod Files
pub mod Opening
use nocc.Common.CompilerKilled.{ExitCode}
use nocc.Common.Sha256.{Sha256, sha256_comparable}
use nocc.Prelude.Dict.{Dict, get, put, delete}
use nocc.Prelude.Maybe.{◌>>=◌}
use nocc.Prelude.Paths.{join_path}
use nocc.Prelude.Text.{trim_prefix, before_last}
use nocc.Prelude.{
  ℕ, ◌+◌, ◌-◌, ◌*◌, Bool, true, false, ◌||◌, not, ◌==◌, Option, none, some, List, [], ◌∷◌, ◌++◌,
  map, Bytes, bytes_beq, bytes_comparable, nat_comparable, nat_beq, ltb, length, if◌then◌else◌,
}
use nocc.Server.SystemHeaders.{is_system_header_path}

-- fsFileStateJustCreated, ...Uploading, ...UploadError, ...Uploaded
pub data FileState : Type 0 where
  just_created : FileState
  uploading : FileState
  upload_error : FileState
  uploaded : FileState

-- Times are nanoseconds of the server's clock.
pub record FileInClientDir : Type 0 where
  pub file_size : ℕ
  pub file_sha256 : Sha256
  pub state : FileState
  pub upload_start_time : ℕ
  pub server_file_name : Bytes

abbrev pub FileHeap : Type 0
FileHeap = ℕ → FileInClientDir

-- internal/server/session.go
-- `files` are addresses in the client's file heap. `coverage_failed` is `coverageErr != nil`.
pub record Session : Type 0 where
  pub session_id : ℕ
  pub cpp_in_file : Bytes
  pub obj_out_file : Bytes
  pub cxx_cwd : Bytes
  pub cxx_name : Bytes
  pub cxx_cmd_line : List Bytes
  pub coverage_obj_file : Bytes
  pub coverage_notes : Option Bytes
  pub coverage_failed : Bool
  pub files : List ℕ
  pub obj_cache_key : Sha256
  pub obj_cache_exists : Bool
  pub compilation_started : Bool
  pub cxx_exit_code : ExitCode
  pub cxx_stdout : Bytes
  pub cxx_stderr : Bytes
  pub cxx_duration : ℕ

-- `sessions` and `files` hold addresses, `ready_sessions` is what `chanReadySessions` buffers, and
-- `launched` lists the sessions for which a compiler goroutine was started, the last one first.
pub record Client : Type 0 where
  pub client_id : Bytes
  pub working_dir : Bytes
  pub last_seen : ℕ
  pub sessions : Dict ℕ ℕ
  pub files : Dict Bytes ℕ
  pub dirs : List Bytes
  pub disconnected : Bool
  pub ready_sessions : List ℕ
  pub disable_obj_cache : Bool
  pub file_at : FileHeap
  pub files_allocated : ℕ
  pub session_at : ℕ → Session
  pub sessions_allocated : ℕ
  pub launched : List ℕ

abbrev pub set_file : FileHeap → ℕ → FileInClientDir → FileHeap
set_file h a f b = if nat_beq a b then f else h b

abbrev pub set_session : (ℕ → Session) → ℕ → Session → ℕ → Session
set_session h a s b = if nat_beq a b then s else h b

-- `none`: an index out of range, for the empty name.
unfoldable pub map_client_file_name_to_server_abs : Bytes → Bytes → Option Bytes
unfolding is_system_header_path join_path
map_client_file_name_to_server_abs working_dir [] = none
map_client_file_name_to_server_abs working_dir (c ∷ name) = some (
    if nat_beq c b'/'
    then (if is_system_header_path (c ∷ name) then c ∷ name else working_dir ++ (c ∷ name))
    else join_path working_dir (c ∷ name))

unfoldable pub map_server_abs_to_client_file_name : Bytes → Bytes → Bytes
unfolding trim_prefix
map_server_abs_to_client_file_name working_dir name = trim_prefix name working_dir

unfoldable pub make_new_file : ℕ → Bytes → Bytes → ℕ → Sha256 → Option FileInClientDir
unfolding map_client_file_name_to_server_abs
make_new_file now working_dir name size hash = do
  server_name ← map_client_file_name_to_server_abs working_dir name
  some (record {
    file_size = size;
    file_sha256 = hash;
    state = just_created;
    upload_start_time = now;
    server_file_name = server_name;
  })

-- The file the session is to use, or the conflict of two hashes.
pub data Use : Type 0 where
  using : ℕ → Use
  conflict : Use

-- `client.files[clientFileName] = newFile`, for a file allocated just now.
unfoldable pub add_file : Client → Bytes → FileInClientDir → Client
add_file c name f = record c {
  files = put name c.files_allocated c.files;
  file_at = set_file c.file_at c.files_allocated f;
  files_allocated = c.files_allocated + 1;
}

-- From the write lock on: another goroutine may have made the file since the first look.
unfoldable pub use_or_create : ℕ → Client → Bytes → ℕ → Sha256 → Option (Client × Use)
unfolding make_new_file add_file
use_or_create now c name size hash = elim (get name c.files) [
  | some p ↦ some (c, using p)
  | none ↦
      (make_new_file now c.working_dir name size hash >>= λ f.
      some (add_file c name f, using c.files_allocated))
]

-- `seen` is the client as the read lock shows it, `c` as the write lock does.
unfoldable pub start_using_file_in_session :
    ℕ → Client → Client → Bytes → ℕ → Sha256 → Option (Client × Use)
unfolding use_or_create
start_using_file_in_session now seen c name size hash = elim (get name seen.files) [
  | none ↦ use_or_create now c name size hash
  | some p ↦ some (c, if (c.file_at p).file_sha256 == hash then using p else conflict)
]

-- pb.FileMetadata
pub record FileMetadata : Type 0 where
  pub client_file_name : Bytes
  pub file_size : ℕ
  pub sha256 : Sha256

-- The loop of `CreateNewSession`: `none` inside the pair is the conflict.
unfoldable pub start_using_files :
    ℕ → Client → List FileMetadata → Option (Client × Option (List ℕ))
unfolding start_using_file_in_session
start_using_files now c [] = some (c, some [])
start_using_files now c (f ∷ fs) =
    start_using_file_in_session now c c f.client_file_name f.file_size f.sha256 >>= λ r. elim r.1 [
      | conflict ↦ some (r.0, none)
      | using p ↦
          (start_using_files now r.0 fs >>= λ rest.
          some (rest.0, elim rest.1 [ none ↦ none | some ps ↦ some (p ∷ ps) ]))
    ]

unfoldable pub register_created_session : Client → ℕ → Client
register_created_session c p = record c { sessions = put (c.session_at p).session_id p c.sessions }

unfoldable pub get_session : Client → ℕ → Option ℕ
get_session c id = get id c.sessions

-- The file to remove is the session's object, where it was not taken from the cache.
unfoldable pub close_session : Client → ℕ → Client × Option Bytes
close_session c p =
    let s = c.session_at p in
    (
      record c {
        sessions = delete s.session_id c.sessions;
        session_at = set_session c.session_at p (record s { files = []; coverage_notes = none });
      },
      if s.obj_cache_exists then none else some s.obj_out_file,
    )

unfoldable pub get_active_sessions_count : Client → ℕ
get_active_sessions_count c = length c.sessions

unfoldable pub not_started : Client → Dict ℕ ℕ → List ℕ
not_started c [] = []
not_started c ((id, p) ∷ m) =
    let rest = not_started c m in if (c.session_at p).compilation_started then rest else p ∷ rest

unfoldable pub get_sessions_not_started_compilation : Client → List ℕ
unfolding not_started
get_sessions_not_started_compilation c = not_started c c.sessions

-- An upload is given up after a time that depends on the size of the file.
unfoldable pub upload_timeout : ℕ → ℕ
upload_timeout size = if ltb (5 * 1024 * 1024) size then 60 * 1000000000 else 15 * 1000000000

unfoldable pub is_file_upload_hanged : ℕ → FileInClientDir → Bool
unfolding upload_timeout
is_file_upload_hanged now f = ltb (upload_timeout f.file_size) (now - f.upload_start_time)

-- `client.dirs` holds the keys only, each of which maps to `true`.
abbrev pub is_known : Bytes → List Bytes → Bool
is_known d [] = false
is_known d (e ∷ ds) = bytes_beq e d || is_known d ds

abbrev pub is_last : Bytes → List Bytes → Bool
is_last d [] = false
is_last d (e ∷ ds) = bytes_beq e d

-- The loop of `MkdirAllForSession` over the files, the last directory first. `none`: a name without
-- a slash, which is an index out of range.
unfoldable pub dirs_to_create : Client → List Bytes → List ℕ → Option (List Bytes)
unfolding before_last
dirs_to_create c out [] = some out
dirs_to_create c out (p ∷ ps) = before_last (c.file_at p).server_file_name b'/' >>= λ d.
    dirs_to_create c (if is_known d c.dirs || is_last d out then out else d ∷ out) ps

-- The directories that the session `p` needs are made; errors of the file system are ignored.
unfoldable pub mkdir_all_for_session : Client → ℕ → Option Client
unfolding dirs_to_create
mkdir_all_for_session c p =
    let s = c.session_at p in
    dirs_to_create c [] s.files >>= λ out.
    some
      (record c { dirs = (if is_known s.cxx_cwd c.dirs then out else s.cxx_cwd ∷ out) ++ c.dirs })

-- The directory is renamed and removed; the files are forgotten.
unfoldable pub remove_working_dir : Client → Client
remove_working_dir c = record c { files = [] }

unfoldable pub files_count : Client → ℕ
files_count c = length c.files
