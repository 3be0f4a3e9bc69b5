-- ===== src/Server/Handlers/Tests.antt =====
-- Two requests for files and a new session: runs of the handlers, and the theorems at these.
use nocc.Server.Tests.{hash, disk, dir, alice, source, file_named, gcc}
use nocc.Common.Sha256.{sha256_comparable}
use nocc.Prelude.Dict.{get, put, delete}
use nocc.Prelude.Text.{ascii}
use nocc.Prelude.{
  ℕ, ◌-◌, true, false, Option, none, some, [], ◌∷◌, ◌≡◌, refl, bytes_comparable, nat_comparable,
  if◌then◌else◌, ltb, nat_beq,
}
use nocc.Server.Client.{Client, upload_timeout}
use nocc.Server.FileCache.{make_file_cache}
use nocc.Server.Handlers.Starting.{Setup, Request, Reply, start_session}
use nocc.Server.Handlers.Visiting.Loops.{visit_files-LoopVisited}
use nocc.Server.Handlers.Visiting.Refusals.{refused_stays}
use nocc.Server.Handlers.Visiting.Requests.{LoopVisited}
use nocc.Server.Handlers.Waking.Reaching.{here, next, start, Reach-IsWaking}
use nocc.Server.Handlers.Waking.{IsWaking}
use nocc.Server.Handlers.{
  Machine, Shared, Visited, visit_files, visit_file, restarted, wait, request,
}
use nocc.Server.SystemHeaders.{make_system_headers_cache, is_system_header_path}

program : Unit {0}
unfolding make_system_headers_cache make_file_cache visit_files get put delete start_session
    is_system_header_path visit_file upload_timeout
program = tt

abbrev machine : ℕ → Machine
machine n = record { disk = disk; now = n; link_ok = λ p. false }

abbrev shared : Shared
shared = record {
  system_headers = make_system_headers_cache;
  src_file_cache = make_file_cache 100 (λ n. n);
  obj_file_cache = make_file_cache 100 (λ n. n);
}

-- What the handlers leave of the caches.
abbrev shared_seen : Shared
shared_seen = record shared {
  system_headers = record {
    headers =
        (
          ascii "/usr/local/a.h",
          some (record {
            server_file_name = ascii "/usr/local/a.h";
            file_size = 7;
            file_sha256 = hash 1;
          }),
        )
        ∷ [];
  };
}

abbrev visited_two : Visited
visited_two = record {
  shared = shared;
  heap = λ p.
      if nat_beq 3 p
      then restarted 5 (file_named (ascii "/tmp/c/a.cpp"))
      else if nat_beq 4 p
      then restarted 5 (file_named (ascii "/tmp/c/a.cpp"))
      else if nat_beq 3 p
      then restarted 5 (file_named (ascii "/tmp/c/a.cpp"))
      else file_named (ascii "/tmp/c/a.cpp");
  requested = 0 ∷ 1 ∷ [];
  refused = false;
}

-- Two sessions' files: new ones, one of them a system file of another content.
visit_files-LoopVisited_example :
    LoopVisited (machine 5) 0 (3 ∷ 4 ∷ 3 ∷ []) (λ p. file_named (ascii "/tmp/c/a.cpp")) visited_two
unfolding program
visit_files-LoopVisited_example =
    visit_files-LoopVisited (machine 5) 0 (3 ∷ 4 ∷ 3 ∷ []) shared
      (λ p. file_named (ascii "/tmp/c/a.cpp")) refl

refused_stays_example :
    (visit_file (machine 9) shared (restarted 5 (file_named (ascii "/usr/local/a.h"))) ≡ (
      if ltb (upload_timeout 5) (9 - 5)
      then some (shared, restarted 9 (file_named (ascii "/usr/local/a.h")), request)
      else some (shared, restarted 5 (file_named (ascii "/usr/local/a.h")), wait)))
    × (is_system_header_path (ascii "/usr/local/a.h") ≡ true)
unfolding program
refused_stays_example =
    refused_stays (machine 5) (machine 9) shared shared_seen shared
      (file_named (ascii "/usr/local/a.h")) (restarted 5 (file_named (ascii "/usr/local/a.h"))) refl

abbrev wanted : Request
wanted = record {
  session_id = 7;
  cwd = ascii "/p";
  cpp_in_file = ascii "a.cpp";
  cxx_name = ascii "g++";
  cxx_args = [];
  cxx_idirs = [];
  required_files = source ∷ [];
  cxx_target_triplet = [];
  coverage_obj_file = [];
  cxx_version = [];
}

abbrev setup : Setup
setup = record {
  machine = machine 5;
  compilers = gcc;
  sha256 = λ s. hash 0;
  obj_tmp_dir = ascii "/o";
  obj_cache_dir = ascii "/oc";
  gone = false;
}

abbrev client_of : Option (Shared × Client × Reply) → Client
client_of none = alice
client_of (some o) = o.1

Reach-IsWaking_example : IsWaking (client_of (start_session setup shared alice wanted))
unfolding program
Reach-IsWaking_example =
    Reach-IsWaking 0 (ascii "alice") dir true (next here (start setup shared wanted refl))
