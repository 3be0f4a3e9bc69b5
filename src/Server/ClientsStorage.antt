-- ===== src/Server/ClientsStorage.antt =====
-- internal/server/clients-storage.go: the clients connected to the server.
pub mod Activity
use nocc.Common.CompilerKilled.{exited}
use nocc.Prelude.Dict.{Dict, get, put, delete, has}
use nocc.Prelude.Paths.{join_path}
use nocc.Prelude.{
  ℕ, zero, suc, ◌+◌, ◌-◌, ◌*◌, Bool, true, false, not, Option, none, some, List, [], ◌∷◌, Bytes,
  bytes_comparable, ltb, length, if◌then◌else◌,
}
use nocc.Server.Client.{
  Client, FileInClientDir, Session, just_created, remove_working_dir, get_active_sessions_count,
  files_count,
}

-- Times are nanoseconds.
pub record ClientsStorage : Type 0 where
  pub table : Dict Bytes Client
  pub clients_dir : Bytes
  pub completed_count : ℕ
  pub last_purge_time : ℕ
  pub check_inactive_timeout : ℕ
  pub unique_remotes_list : Dict Bytes Bytes

unfoldable pub make_clients_storage : Bytes → ℕ → ClientsStorage
make_clients_storage dir timeout = record {
  table = [];
  clients_dir = dir;
  completed_count = 0;
  last_purge_time = 0;
  check_inactive_timeout = timeout;
  unique_remotes_list = [];
}

unfoldable pub get_client : ClientsStorage → Bytes → Option Client
get_client a id = get id a.table

-- What stands at an address that is not in use.
abbrev no_file : FileInClientDir
no_file = record {
  file_size = 0;
  file_sha256 = record { b0_7 = 0; b8_15 = 0; b16_23 = 0; b24_31 = 0 };
  state = just_created;
  upload_start_time = 0;
  server_file_name = [];
}

abbrev no_session : Session
no_session = record {
  session_id = 0;
  cpp_in_file = [];
  obj_out_file = [];
  cxx_cwd = [];
  cxx_name = [];
  cxx_cmd_line = [];
  coverage_obj_file = [];
  coverage_notes = none;
  coverage_failed = false;
  files = [];
  obj_cache_key = record { b0_7 = 0; b8_15 = 0; b16_23 = 0; b24_31 = 0 };
  obj_cache_exists = false;
  compilation_started = false;
  cxx_exit_code = exited 0;
  cxx_stdout = [];
  cxx_stderr = [];
  cxx_duration = 0;
}

abbrev pub new_client : ℕ → Bytes → Bytes → Bool → Client
new_client now id working_dir disable_obj_cache = record {
  client_id = id;
  working_dir = working_dir;
  last_seen = now;
  sessions = [];
  files = [];
  dirs = [];
  disconnected = false;
  ready_sessions = [];
  disable_obj_cache = disable_obj_cache;
  file_at = λ p. no_file;
  files_allocated = 0;
  session_at = λ p. no_session;
  sessions_allocated = 0;
  launched = [];
}

-- The table forgets the client, whose channel is closed; its goroutines go on without it.
unfoldable pub delete_client : ClientsStorage → Client → ClientsStorage
delete_client a c = record a {
  table = delete c.client_id a.table;
  completed_count = a.completed_count + 1;
}

abbrev pub disconnect : Client → Client
disconnect c = record (remove_working_dir c) { disconnected = true }

-- `made` says that the working directory could be made; `none` in the pair is the error.
unfoldable pub on_client_connected :
    ℕ → Bool → ClientsStorage → Bytes → Bool → ClientsStorage × Option Client
unfolding delete_client join_path
on_client_connected now made a id disable_obj_cache =
    let b : ClientsStorage = elim (get id a.table) [ none ↦ a | some old ↦ delete_client a old ] in
    let c = new_client now id (join_path b.clients_dir id) disable_obj_cache in
    if made then (record b { table = put id c b.table }, some c) else (b, none)

-- The client that the loop finds: one that was not seen for longer than the timeout.
unfoldable pub find_inactive : ℕ → ℕ → Dict Bytes Client → Option Client
find_inactive now timeout [] = none
find_inactive now timeout ((id, c) ∷ m) =
    let rest = find_inactive now timeout m in
    if ltb timeout (now - c.last_seen) then some c else rest

unfoldable pub delete_each_inactive : ℕ → ℕ → ClientsStorage → Option ClientsStorage
unfolding find_inactive delete_client
delete_each_inactive zero now a = none
delete_each_inactive (suc fuel) now a = elim (find_inactive now a.check_inactive_timeout a.table) [
  | none ↦ some a
  | some c ↦ delete_each_inactive fuel now (delete_client a c)
]

-- `lastPurgeTime` is read here and written nowhere. `none`: the loop has not ended.
unfoldable pub delete_inactive_clients : ℕ → ℕ → ClientsStorage → Option ClientsStorage
unfolding delete_each_inactive
delete_inactive_clients fuel now a =
    if ltb (now - a.last_purge_time) (60 * 1000000000)
    then some a
    else delete_each_inactive fuel now a

unfoldable pub stop_all_clients : ClientsStorage → ClientsStorage
stop_all_clients a = record a { table = [] }

unfoldable pub active_count : ClientsStorage → ℕ
active_count a = length a.table

unfoldable pub sum_clients : (Client → ℕ) → Dict Bytes Client → ℕ
sum_clients f [] = 0
sum_clients f ((id, c) ∷ m) = f c + sum_clients f m

unfoldable pub active_sessions_count : ClientsStorage → ℕ
unfolding sum_clients get_active_sessions_count
active_sessions_count a = sum_clients get_active_sessions_count a.table

unfoldable pub total_files_count_in_dirs : ClientsStorage → ℕ
unfolding sum_clients files_count
total_files_count_in_dirs a = sum_clients files_count a.table

unfoldable pub is_remotes_list_seen_the_first_time :
    ClientsStorage → Bytes → Bytes → ClientsStorage × Bool
unfolding has
is_remotes_list_seen_the_first_time a remotes id =
    let exists = has remotes a.unique_remotes_list in
    (
      if exists then a else record a { unique_remotes_list = put remotes id a.unique_remotes_list },
      not exists,
    )
