-- ===== src/Client/DepFiles/Tests.antt =====
-- Small .o.d files of internal/client/dep-files.go.
use nocc.Client.DepFiles.{
  escape_makefile_spaces, out_of_fuel, DepFile, write_to_bytes, parse_dep_file_contents, ok, err,
  panics,
}
use nocc.Client.DepFiles.Ending.{parse-ends}
use nocc.Client.DepFiles.RoundTrip.{parse-write_to_bytes, AllWritable}
use nocc.Prelude.Text.{ascii}
use nocc.Prelude.{[], ◌∷◌, ◌≡◌, ◌≢◌, refl, arith}

abbrev two_targets : DepFile
two_targets =
    record { target_name = ascii "o/a\\ b.o"; target_dep_list = ascii "a b.cpp" ∷ ascii "a.h" ∷ [] }
    ∷ record { target_name = ascii "a.h"; target_dep_list = [] }
    ∷ []

two_targets_text : write_to_bytes two_targets ≡ ascii "o/a\\ b.o: a\\ b.cpp \\\n  a.h\n\na.h:\n"
unfolding write_to_bytes escape_makefile_spaces
two_targets_text = refl

two_targets_parsed : parse_dep_file_contents (write_to_bytes two_targets) ≡ ok two_targets
unfolding write_to_bytes parse_dep_file_contents escape_makefile_spaces
two_targets_parsed = refl

-- A backslash at the end.
cut_short : parse_dep_file_contents (ascii "a.o: a\\") ≡ err panics
unfolding parse_dep_file_contents
cut_short = refl

two_targets-AllWritable : AllWritable two_targets
unfolding escape_makefile_spaces
two_targets-AllWritable = (
  record {
    plain_name = ascii "o/a b.o";
    escaped = refl;
    no_backslash = omega arith;
    no_newline = omega arith;
    no_blank_first = refl;
    deps = omega arith;
  },
  (
    record {
      plain_name = ascii "a.h";
      escaped = refl;
      no_backslash = omega arith;
      no_newline = omega arith;
      no_blank_first = refl;
      deps = tt;
    },
    tt,
  ),
)

parse-write_to_bytes_example : parse_dep_file_contents (write_to_bytes two_targets) ≡ ok two_targets
parse-write_to_bytes_example = parse-write_to_bytes two_targets two_targets-AllWritable

parse-ends_example : parse_dep_file_contents (ascii "a.o: a\\") ≢ err out_of_fuel
parse-ends_example = parse-ends (ascii "a.o: a\\")
