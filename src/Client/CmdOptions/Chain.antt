-- ===== src/Client/CmdOptions/Chain.antt =====
-- internal/client/invocation.go: the chain of tests that an option goes through.
use nocc.Client.CmdOptions.{
  unsupported_option, march_native, Parsed, Round, go_on, returns, panics, fail, add_arg, try_file,
  try_str,
}
use nocc.Client.DepFlags.{DepCmdFlags, set_cmd_flag_mf, set_cmd_flag_mt, set_cmd_flag_mq}
use nocc.Client.FileNames.{path_abs}
use nocc.Client.IncludeDirs.{IncludeDirs}
use nocc.Prelude.Text.{ascii, has_prefix}
use nocc.Prelude.{Bool, true, false, ◌||◌, List, [], ◌∷◌, ◌++◌, Bytes, bytes_beq, if◌then◌else◌}

abbrev pub is_one_of : List Bytes → Bytes → Bool
is_one_of [] arg = false
is_one_of (o ∷ os) arg = bytes_beq arg o || is_one_of os arg

unfoldable pub starts_with_one_of : List Bytes → Bytes → Bool
unfolding has_prefix
starts_with_one_of [] arg = false
starts_with_one_of (o ∷ os) arg = has_prefix arg o || starts_with_one_of os arg

-- The first switch, where it does not return, on the tests of its cases.
unfoldable pub noted : Bool → Bool → Bool → Bool → Bool → Bool → Bytes → Parsed → Parsed
noted both arcs no_arcs notes no_notes elsewhere arg p =
    if both
    then record p { coverage_arcs = true; coverage_notes = true }
    else if arcs
    then record p { coverage_arcs = true }
    else if no_arcs
    then record p { coverage_arcs = false }
    else if notes
    then record p { coverage_notes = true }
    else if no_notes
    then record p { coverage_notes = false }
    else if elsewhere
    then record p { coverage_conflict = arg }
    else p

unfoldable pub note_coverage : Bytes → Parsed → Parsed
unfolding starts_with_one_of
note_coverage arg p =
    noted (is_one_of (ascii "--coverage" ∷ ascii "-coverage" ∷ []) arg)
      (bytes_beq arg (ascii "-fprofile-arcs")) (bytes_beq arg (ascii "-fno-profile-arcs"))
      (bytes_beq arg (ascii "-ftest-coverage")) (bytes_beq arg (ascii "-fno-test-coverage"))
      (starts_with_one_of
          (ascii "-fprofile-dir"
            ∷ ascii "-fprofile-note"
            ∷ ascii "-fprofile-prefix-path"
            ∷ ascii "-dumpbase"
            ∷ ascii "-save-temps"
            ∷ [])
          arg
        || bytes_beq arg (ascii "-dumpdir"))
      arg p

unfoldable pub is_profile_option : Bytes → Bool
unfolding starts_with_one_of
is_profile_option arg =
    starts_with_one_of
      (ascii "-fprofile-generate" ∷ ascii "-fprofile-use" ∷ ascii "-fauto-profile" ∷ []) arg

unfoldable pub is_unsupported_option : Bytes → Bool
unfolding starts_with_one_of
is_unsupported_option arg =
    is_one_of (ascii "-I-" ∷ ascii "-E" ∷ ascii "-nostdinc" ∷ ascii "-nostdinc++" ∷ []) arg
    || starts_with_one_of (ascii "-iprefix" ∷ ascii "-idirafter" ∷ ascii "--sysroot" ∷ []) arg

abbrev pub is_dir_option : Bytes → Bool
is_dir_option = is_one_of (ascii "-I" ∷ ascii "-iquote" ∷ ascii "-isystem" ∷ ascii "-include" ∷ [])

-- `is_local` says that the only remote is 127.0.0.1.
abbrev pub sysroot : Bool → Bytes → Parsed → List Bytes → Round
sysroot false arg p rest = returns (fail unsupported_option p)
sysroot true arg p [] = panics
sysroot true arg p (dir ∷ rest) = go_on (add_arg dir (add_arg arg p)) rest

abbrev pub xclang : Parsed → List Bytes → Round
xclang p [] = go_on (add_arg (ascii "-Xclang") p) []
xclang p (x ∷ rest) =
    if is_dir_option x
    then go_on p (x ∷ rest)
    else go_on (add_arg x (add_arg (ascii "-Xclang") p)) rest

abbrev pub set_deps : (DepCmdFlags → DepCmdFlags) → Parsed → Parsed
set_deps f p = record p { deps_flags = f p.deps_flags }

-- The end of the chain, from -MD on.
unfoldable pub parse_flag : Bytes → Parsed → List Bytes → Round
parse_flag arg p rest =
    if bytes_beq arg (ascii "-MD")
    then go_on (set_deps (λ f. record f { flag_md = true }) p) rest
    else if bytes_beq arg (ascii "-MMD")
    then go_on (set_deps (λ f. record f { flag_mmd = true }) p) rest
    else if bytes_beq arg (ascii "-MP")
    then go_on (set_deps (λ f. record f { flag_mp = true }) p) rest
    else if is_one_of (ascii "-M" ∷ ascii "-MM" ∷ ascii "-MG" ∷ []) arg
    then returns (fail unsupported_option p)
    else if bytes_beq arg (ascii "-Xclang")
    then xclang p rest
    else go_on (add_arg arg p) rest

-- From -march=native on.
unfoldable pub parse_other_option : Bytes → Bool → Bytes → Parsed → List Bytes → Round
unfolding is_unsupported_option parse_flag try_str path_abs set_cmd_flag_mf set_cmd_flag_mt
    set_cmd_flag_mq
parse_other_option cwd is_local arg p rest =
    if bytes_beq arg (ascii "-march=native")
    then returns (fail march_native p)
    else if is_unsupported_option arg
    then returns (fail unsupported_option p)
    else if bytes_beq arg (ascii "-isysroot")
    then sysroot is_local arg p rest
    else if bytes_beq arg (ascii "-Xarch_arm64")
    then go_on p rest
    else try_str (ascii "-MF") (λ v. set_deps (set_cmd_flag_mf (path_abs cwd v))) arg
        (try_str (ascii "-MT") (λ v. set_deps (set_cmd_flag_mt v)) arg
          (try_str (ascii "-MQ") (λ v. set_deps (set_cmd_flag_mq v)) arg (parse_flag arg)))
        p rest

abbrev pub set_dirs : (IncludeDirs → IncludeDirs) → Parsed → Parsed
set_dirs f p = record p { cxx_i_dirs = f p.cxx_i_dirs }

abbrev pub add_dir_i : Bytes → IncludeDirs → IncludeDirs
add_dir_i v d = record d { dirs_i = d.dirs_i ++ (v ∷ []) }

abbrev pub add_dir_iquote : Bytes → IncludeDirs → IncludeDirs
add_dir_iquote v d = record d { dirs_iquote = d.dirs_iquote ++ (v ∷ []) }

abbrev pub add_dir_isystem : Bytes → IncludeDirs → IncludeDirs
add_dir_isystem v d = record d { dirs_isystem = d.dirs_isystem ++ (v ∷ []) }

abbrev pub add_file_i : Bytes → IncludeDirs → IncludeDirs
add_file_i v d = record d { files_i = d.files_i ++ (v ∷ []) }

-- An argument that starts with a dash.
unfoldable pub parse_option : Bytes → Bool → Bytes → Parsed → List Bytes → Round
unfolding try_file path_abs parse_other_option note_coverage noted is_profile_option
parse_option cwd is_local arg p rest =
    let chain =
      try_file (ascii "-o") (λ v q. record q { obj_out_file = v }) arg
        (try_file (ascii "-I") (λ v. set_dirs (add_dir_i (path_abs cwd v))) arg
          (try_file (ascii "-iquote") (λ v. set_dirs (add_dir_iquote (path_abs cwd v))) arg
            (try_file (ascii "-isystem") (λ v. set_dirs (add_dir_isystem (path_abs cwd v))) arg
              (try_file (ascii "-include") (λ v. set_dirs (add_file_i (path_abs cwd v))) arg
                (parse_other_option cwd is_local arg)))))
        (note_coverage arg p) rest in
    if is_profile_option arg then returns (fail unsupported_option p) else chain
