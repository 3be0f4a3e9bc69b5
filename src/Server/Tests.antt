-- ===== src/Server/Tests.antt =====
-- Small clients and files, compilers and headers: runs of the operations, and the theorems at these.
use nocc.Common.Sha256.{Sha256, sha256_comparable}
use nocc.Prelude.Dict.{get, put, delete}
use nocc.Prelude.Text.{ascii}
use nocc.Prelude.{
  ℕ, true, Option, none, some, List, [], ◌∷◌, Bytes, ◌≡◌, ◌↔◌, refl, arith, bytes_comparable,
  nat_comparable, bytes_beq_iff, subst,
}
use nocc.Server.Client.Files.{IsFiled}
use nocc.Server.Client.Names.{map_server_abs_to_client_file_name_abs}
use nocc.Server.Client.Opening.{start_using_files_opens, Opened}
use nocc.Server.Client.{
  Client, FileInClientDir, FileMetadata, using, conflict, just_created, start_using_file_in_session,
  start_using_files, map_client_file_name_to_server_abs, map_server_abs_to_client_file_name,
}
use nocc.Server.ClientsStorage.Activity.{delete_each_inactive-Purged, Purged}
use nocc.Server.ClientsStorage.{
  ClientsStorage, new_client, delete_each_inactive, on_client_connected, delete_client,
}
use nocc.Server.Handlers.Clients.{start_client, stop_client}
use nocc.Server.CxxCapability.Matching.{
  check_compiler_matches_client-Agrees, check_coverage_matches_client-Agrees, Agrees, IsTarget,
}
use nocc.Server.CxxCapability.{
  Compilers, make_cxx_capability_cache, check_compiler_matches_client,
  check_coverage_matches_client,
}
use nocc.Server.ObjCache.{make_obj_cache_key}
use nocc.Server.SystemHeaders.Agreement.{is_system_header-Agrees}
use nocc.Server.SystemHeaders.Agreement as Headers
use nocc.Server.SystemHeaders.{
  Disk, make_system_headers_cache, is_system_header, is_same_header, header_on_disk,
}

abbrev pub hash : ℕ → Sha256
hash n = record { b0_7 = n; b8_15 = 0; b16_23 = 0; b24_31 = 0 }

-- A disk with one file of seven bytes at each path.
abbrev pub disk : Disk
disk = record { stat_size = λ p. some 7; file_hash = λ p. some (hash 1) }

abbrev pub dir : Bytes
dir = ascii "/tmp/c"

abbrev pub alice : Client
alice = new_client 0 (ascii "alice") dir true

abbrev pub source : FileMetadata
source = record { client_file_name = ascii "/a.cpp"; file_size = 5; sha256 = hash 1 }

abbrev pub edited : FileMetadata
edited = record { client_file_name = ascii "/a.cpp"; file_size = 6; sha256 = hash 2 }

abbrev pub file_named : Bytes → FileInClientDir
file_named name = record {
  file_size = 5;
  file_sha256 = hash 1;
  state = just_created;
  upload_start_time = 0;
  server_file_name = name;
}

-- A client that has sent `/a.cpp` before.
abbrev bob : Client
bob = record alice {
  files = (ascii "/a.cpp", 0) ∷ [];
  files_allocated = 1;
  file_at = λ p. file_named (ascii "/tmp/c/a.cpp");
}

is_system_header-Agrees_example :
    ((is_system_header disk make_system_headers_cache (ascii "/usr/local/a.h") 7 (hash 1)).1
      ≡ is_same_header (header_on_disk disk (ascii "/usr/local/a.h")) 7 (hash 1))
    × Headers.Agrees disk
        (is_system_header disk make_system_headers_cache (ascii "/usr/local/a.h") 7 (hash 1)).0
unfolding make_system_headers_cache get
is_system_header-Agrees_example =
    is_system_header-Agrees disk make_system_headers_cache (ascii "/usr/local/a.h") 7 (hash 1)
      (record { known = λ p h e. cc e })

abbrev pub gcc : Compilers
gcc = record {
  look_path = λ n. true;
  dump_machine = λ n. some (ascii "aarch64-linux-gnu");
  dump_full_version = λ n. some (ascii "12.2.0");
  probe_coverage = λ n. none;
}

fresh-Agrees : Agrees gcc make_cxx_capability_cache
unfolding make_cxx_capability_cache get
fresh-Agrees = record { target = λ n k e. cc e; coverage = λ n k e. cc e }

check_compiler_matches_client-Agrees_example :
    (((check_compiler_matches_client gcc make_cxx_capability_cache
          (ascii "g++")
          (ascii "x86_64-linux-gnu")).1
        ≡ none)
      ↔ IsTarget gcc (ascii "g++") (ascii "x86_64-linux-gnu"))
    × Agrees gcc
        (check_compiler_matches_client gcc make_cxx_capability_cache
          (ascii "g++")
          (ascii "x86_64-linux-gnu")).0
check_compiler_matches_client-Agrees_example =
    check_compiler_matches_client-Agrees gcc make_cxx_capability_cache (ascii "g++")
      (ascii "x86_64-linux-gnu") fresh-Agrees

check_coverage_matches_client-Agrees_example :
    (((check_coverage_matches_client gcc make_cxx_capability_cache (ascii "g++") (ascii "12.2.0")).1
        ≡ none)
      ↔ ((gcc.look_path (ascii "g++") ≡ true)
          × ((gcc.dump_full_version (ascii "g++") ≡ some (ascii "12.2.0"))
              × (gcc.probe_coverage (ascii "g++") ≡ none))))
    × Agrees gcc
        (check_coverage_matches_client gcc make_cxx_capability_cache
          (ascii "g++")
          (ascii "12.2.0")).0
check_coverage_matches_client-Agrees_example =
    check_coverage_matches_client-Agrees gcc make_cxx_capability_cache (ascii "g++")
      (ascii "12.2.0") fresh-Agrees

map_server_abs_to_client_file_name_abs_example :
    map_server_abs_to_client_file_name dir (ascii "/tmp/c/a.cpp") ≡ ascii "/a.cpp"
unfolding map_client_file_name_to_server_abs
map_server_abs_to_client_file_name_abs_example =
    map_server_abs_to_client_file_name_abs dir (ascii "a.cpp") (λ e. cc e) (ascii "/tmp/c/a.cpp")
      refl

-- The arguments reach the key by their text and their number alone.
shared_key :
    make_obj_cache_key (λ s. hash 0) (ascii "g++") (ascii "-DA" ∷ ascii "B" ∷ []) [] (ascii "a.cpp")
    ≡ make_obj_cache_key
        (λ s. hash 0)
        (ascii "g++")
        (ascii "-D" ∷ ascii "AB" ∷ [])
        []
        (ascii "a.cpp")
unfolding make_obj_cache_key
shared_key = refl

bob-IsFiled : IsFiled bob
unfolding get map_client_file_name_to_server_abs
bob-IsFiled = record {
  below = λ n p h. ground arith;
  named = λ n p h.
      let same : ascii "/a.cpp" ≡ n = ground (arith, bytes_beq_iff (ascii "/a.cpp") n) in
      subst (λ k. map_client_file_name_to_server_abs dir k ≡ some (ascii "/tmp/c/a.cpp")) same refl;
}

-- A request for the file that bob has, and for a new one.
start_using_files_opens_example :
    (d : Client) × (r : Option (List ℕ)) × (start_using_files 9 bob (source ∷ edited ∷ [])
      ≡ some (d, r))
    × Opened bob (source ∷ edited ∷ []) d r
start_using_files_opens_example =
    start_using_files_opens 9 bob (source ∷ edited ∷ []) bob-IsFiled (cc, (cc, tt))

-- A file that is made between the two looks is used as it is; asked for at once, it is a conflict.
made_between :
    (start_using_file_in_session 9 alice bob (ascii "/a.cpp") 6 (hash 2) ≡ some (bob, using 0))
    × (start_using_file_in_session 9 bob bob (ascii "/a.cpp") 6 (hash 2) ≡ some (bob, conflict))
unfolding get start_using_file_in_session
made_between = (refl, refl)

abbrev storage : ClientsStorage
storage = record {
  table = (ascii "alice", alice) ∷ [];
  clients_dir = ascii "/tmp";
  completed_count = 0;
  last_purge_time = 0;
  check_inactive_timeout = 3;
  unique_remotes_list = [];
}

-- A client that is stopped and connects again before it is deleted: the goroutine of StopClient deletes
-- the new one, and closes the channel of the old one a second time.
late_delete :
    (stop_client storage (ascii "alice") ≡ some alice)
    × ((delete_client (start_client 9 true [] storage (ascii "alice") true).0 alice).table ≡ [])
unfolding stop_client start_client on_client_connected delete_client get put delete
late_delete = (refl, refl)

delete_each_inactive-Purged_example :
    (b : ClientsStorage) × (delete_each_inactive 2 9 storage ≡ some b)
    × Purged 9 3 storage.table b.table
unfolding get
delete_each_inactive-Purged_example =
    delete_each_inactive-Purged 2 9 storage (omega arith) (refl, tt) (refl, tt)
