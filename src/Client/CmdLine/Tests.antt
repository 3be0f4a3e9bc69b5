-- ===== src/Client/CmdLine/Tests.antt =====
-- Command lines of internal/client/invocation.go.
use nocc.Client.CmdLine.Dirs.{parse_args-as_cxx_args}
use nocc.Client.CmdLine.{parse_args, parse_arg}
use nocc.Client.CmdOptions.Chain.{set_dirs, add_dir_i}
use nocc.Client.CmdOptions.{Parsed, compiling_cpp, nothing_parsed, go_on, add_arg}
use nocc.Client.IncludeDirs.{IncludeDirs, as_cxx_args, merge_with, count_dirs}
use nocc.Prelude.Text.{ascii}
use nocc.Prelude.{true, false, none, List, [], ◌∷◌, ◌++◌, Bytes, ◌≡◌, refl}

abbrev line : List Bytes
line =
    ascii "-Wall"
    ∷ ascii "-Iinc"
    ∷ ascii "-isystem"
    ∷ ascii "/usr/inc"
    ∷ ascii "-MD"
    ∷ ascii "-MF"
    ∷ ascii "a.d"
    ∷ ascii "-o"
    ∷ ascii "a.o"
    ∷ ascii "a.cpp"
    ∷ []

abbrev parsed_line : Parsed
parsed_line = record {
  invoke_type = compiling_cpp;
  error = none;
  cpp_in_file = ascii "a.cpp";
  obj_out_file = ascii "a.o";
  cxx_args = ascii "-Wall" ∷ [];
  cxx_i_dirs = record {
    dirs_i = ascii "/w/inc" ∷ [];
    dirs_iquote = [];
    dirs_isystem = ascii "/usr/inc" ∷ [];
    files_i = [];
  };
  deps_flags = record {
    flag_mf = ascii "/w/a.d";
    flag_mt = [];
    flag_md = true;
    flag_mmd = false;
    flag_mp = false;
  };
  coverage_arcs = false;
  coverage_notes = false;
  coverage_conflict = [];
  cxx_version = [];
}

-- The option that was to be refused is taken for an include dir.
dash_i_dash :
    (p : Parsed) (rest : List Bytes)
    → parse_arg (ascii "/w") false (ascii "-I-") p rest
      ≡ go_on (set_dirs (add_dir_i (ascii "/w/-")) p) rest
unfolding parse_arg
dash_i_dash p rest = refl

-- A library with this ending is an argument like others.
linked_with_so :
    (p : Parsed) (rest : List Bytes)
    → parse_arg (ascii "/w") false (ascii "libx.so") p rest
      ≡ go_on (add_arg (ascii "libx.so") p) rest
unfolding parse_arg
linked_with_so p rest = refl

abbrev dirs : IncludeDirs
dirs = record {
  dirs_i = ascii "/a" ∷ [];
  dirs_iquote = [];
  dirs_isystem = ascii "/b" ∷ ascii "/c" ∷ [];
  files_i = ascii "/d.h" ∷ [];
}

parse_args-as_cxx_args_example :
    parse_args 14 (ascii "/w") false nothing_parsed (as_cxx_args dirs ++ line)
    ≡ parse_args 10 (ascii "/w") false (set_dirs (λ e. merge_with e dirs) nothing_parsed) line
unfolding count_dirs
parse_args-as_cxx_args_example =
    parse_args-as_cxx_args 10 (ascii "/w") false nothing_parsed dirs line (record {
      dirs_i = (refl, tt);
      dirs_iquote = tt;
      dirs_isystem = (refl, (refl, tt));
      files_i = (refl, tt);
    })
