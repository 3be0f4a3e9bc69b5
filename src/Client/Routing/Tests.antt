-- ===== src/Client/Routing/Tests.antt =====
-- Three servers of internal/client/daemon.go, of which one is down and one has refused g++.
use nocc.Client.Routing.Choosing.{choose_remote-IsFirst, IsFirst}
use nocc.Client.Routing.{
  RemoteConnection, Attempt, compiled, failed, compile_with_retries, can_at, start_index,
  choose_remote_connection_for_cpp_compilation, mark_incapable_of_cxx,
}
use nocc.Prelude.Text.{ascii}
use nocc.Prelude.{ℕ, true, false, Bool, some, List, [], ◌∷◌, Bytes, ◌≡◌, refl, if◌then◌else◌, ltb}

abbrev remote : Bytes → Bool → RemoteConnection
remote name down = record {
  remote_host_port = name;
  is_unavailable = down;
  grpc_client = 0;
  create_time = 0;
  incapable_cxx_names = [];
  supports_coverage = true;
}

abbrev three_remotes : List RemoteConnection
three_remotes =
    remote (ascii "a:43210") true
    ∷ mark_incapable_of_cxx (remote (ascii "b:43210") false) (ascii "g++") (ascii "no toolchain")
    ∷ remote (ascii "c:43210") false
    ∷ []

chosen :
    choose_remote_connection_for_cpp_compilation three_remotes
      (ascii "/src/main.cpp")
      (ascii "g++")
      true
    ≡ some 2
unfolding choose_remote_connection_for_cpp_compilation mark_incapable_of_cxx
chosen = refl

choose_remote-IsFirst_example :
    IsFirst
      (can_at three_remotes (ascii "g++") true)
      3
      (choose_remote_connection_for_cpp_compilation three_remotes
        (ascii "/src/main.cpp")
        (ascii "g++")
        true)
      (start_index (ascii "/src/main.cpp") 3)
      3
choose_remote-IsFirst_example =
    choose_remote-IsFirst three_remotes (ascii "/src/main.cpp") (ascii "g++") true

-- Two attempts fail, and the third one compiles.
abbrev third_compiles : ℕ → Attempt
third_compiles attempt = if ltb attempt 2 then failed else compiled

slept_thrice :
    compile_with_retries 4 3 third_compiles 0 0
    ≡ some (record { attempts = 3; slept = 3; has_reply = true })
unfolding compile_with_retries
slept_thrice = refl
