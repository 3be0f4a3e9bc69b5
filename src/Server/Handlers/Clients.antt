-- ===== src/Server/Handlers/Clients.antt =====
-- internal/server/nocc-server.go: the requests about a whole client, and about the caches.
use nocc.Prelude.{ℕ, Bool, Option, none, some, [], Bytes, bytes_beq, if◌then◌else◌}
use nocc.Server.Client.{Client}
use nocc.Server.ClientsStorage.{
  ClientsStorage, get_client, on_client_connected, is_remotes_list_seen_the_first_time,
}
use nocc.Server.FileCache.{get_files_count, drop_all}
use nocc.Server.Handlers.{Shared}

-- `made` says that the working directory could be made; without one there is an error.
unfoldable pub start_client :
    ℕ → Bool → Bytes → ClientsStorage → Bytes → Bool → ClientsStorage × Option Client
unfolding on_client_connected is_remotes_list_seen_the_first_time
start_client now made all_remotes_delim a id disable_obj_cache =
    let (b, connected) = on_client_connected now made a id disable_obj_cache in
    elim connected [
      | none ↦ (b, none)
      | some c ↦ (
        if bytes_beq all_remotes_delim []
            then b
            else (is_remotes_list_seen_the_first_time b all_remotes_delim c.client_id).0,
        some c,
      )
    ]

-- The client that a goroutine of its own then deletes.
unfoldable pub stop_client : ClientsStorage → Bytes → Option Client
unfolding get_client
stop_client a id = get_client a id

-- With the numbers of the files dropped.
unfoldable pub drop_all_caches : Shared → Shared × ℕ × ℕ
unfolding drop_all get_files_count
drop_all_caches s = (
  record s {
    src_file_cache = drop_all s.src_file_cache;
    obj_file_cache = drop_all s.obj_file_cache;
  },
  get_files_count s.src_file_cache,
  get_files_count s.obj_file_cache,
)
