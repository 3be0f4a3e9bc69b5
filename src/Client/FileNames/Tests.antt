-- ===== src/Client/FileNames/Tests.antt =====
-- A coverage invocation of internal/client/invocation.go.
use nocc.Client.FileNames.{
  Invocation, get_cpp_in_file_abs, get_notes_out_file_abs, capability_name, is_source_file_name,
  is_header_file_name,
}
use nocc.Prelude.Text.{ascii}
use nocc.Prelude.{true, false, some, ◌≡◌, refl}

abbrev invocation : Invocation
invocation = record {
  cwd = ascii "/w";
  cpp_in_file = ascii "a.cpp";
  obj_out_file = ascii "o/a.cpp.o";
  cxx_name = ascii "g++";
  coverage_arcs = false;
  coverage_notes = true;
}

cpp_in_file : get_cpp_in_file_abs invocation (ascii "/w") ≡ some (ascii "/w/a.cpp")
unfolding get_cpp_in_file_abs
cpp_in_file = refl

notes_out_file : get_notes_out_file_abs invocation ≡ ascii "/w/o/a.cpp.gcno"
unfolding get_notes_out_file_abs
notes_out_file = refl

refused_name : capability_name invocation ≡ ascii "g++ --coverage"
unfolding capability_name
refused_name = refl

source_name : is_source_file_name (ascii "a.cxx") ≡ true
unfolding is_source_file_name
source_name = refl

header_name : is_header_file_name (ascii "a.cxx") ≡ false
unfolding is_header_file_name
header_name = refl
