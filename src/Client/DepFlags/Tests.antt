-- ===== src/Client/DepFlags/Tests.antt =====
-- A command line with -MMD -MP for internal/client/dep-cmd-flags.go.
use nocc.Client.DepFlags.{
  DepCmdFlags, dep_file_of, generate_dep_file, calc_output_dep_file_name, quote_makefile_target,
}
use nocc.Client.FileNames.{Invocation}
use nocc.Client.IncludedFile.{IncludedFile}
use nocc.Prelude.Text.{ascii}
use nocc.Prelude.{some, true, false, [], ◌∷◌, Bytes, ◌≡◌, refl}

abbrev mmd_mp : DepCmdFlags
mmd_mp = record { flag_mf = []; flag_mt = []; flag_md = false; flag_mmd = true; flag_mp = true }

abbrev invocation : Invocation
invocation = record {
  cwd = ascii "/w";
  cpp_in_file = ascii "a.cpp";
  obj_out_file = ascii "o/a.o";
  cxx_name = ascii "g++";
  coverage_arcs = false;
  coverage_notes = false;
}

abbrev included : Bytes → IncludedFile
included file_name = record {
  file_name = file_name;
  file_size = some 1;
  file_sha256 = record { b0_7 = 1; b8_15 = 2; b16_23 = 3; b24_31 = 4 };
}

-- The system header is left out, and the name in the working directory is relative.
generated :
    generate_dep_file mmd_mp invocation
      (ascii "/usr/include" ∷ [])
      (included (ascii "/w/my a.h") ∷ included (ascii "/usr/include/stdio.h") ∷ [])
    ≡ dep_file_of mmd_mp (ascii "o/a.o") (ascii "a.cpp" ∷ ascii "my a.h" ∷ [])
unfolding generate_dep_file
generated = refl

output_file : calc_output_dep_file_name mmd_mp invocation ≡ ascii "/w/o/a.d"
unfolding calc_output_dep_file_name
output_file = refl

-- A dollar and a tab behind a backslash.
quoted : quote_makefile_target (ascii "a$b\\\tc#") ≡ ascii "a$$b\\\\\\\tc\\#"
unfolding quote_makefile_target
quoted = refl

blank_kept : quote_makefile_target (ascii "my a.o") ≡ ascii "my a.o"
unfolding quote_makefile_target
blank_kept = refl
