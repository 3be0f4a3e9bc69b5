-- ===== src/Client/FileNames.antt =====
-- internal/client/invocation.go: the files of an invocation, by their names.
mod Tests
use nocc.Client.Routing.{coverage_capability_name}
use nocc.Prelude.Paths.{is_abs, join_path}
use nocc.Prelude.Text.{ascii, has_suffix, trim_suffix}
use nocc.Prelude.{Bool, ◌||◌, [], ◌++◌, Bytes, Option, none, some, bytes_beq, if◌then◌else◌}

unfoldable pub is_source_file_name : Bytes → Bool
unfolding has_suffix
is_source_file_name file_name =
    has_suffix file_name (ascii ".cpp")
    || (has_suffix file_name (ascii ".cc")
        || (has_suffix file_name (ascii ".cxx") || has_suffix file_name (ascii ".c")))

unfoldable pub is_header_file_name : Bytes → Bool
unfolding has_suffix
is_header_file_name file_name =
    has_suffix file_name (ascii ".h")
    || (has_suffix file_name (ascii ".hh")
        || (has_suffix file_name (ascii ".hxx") || has_suffix file_name (ascii ".hpp")))

unfoldable pub path_abs : Bytes → Bytes → Bytes
unfolding join_path
path_abs cwd rel_path =
    if bytes_beq rel_path [] || is_abs rel_path then rel_path else join_path cwd rel_path

-- The fields of the source's `Invocation` that name files and the compiler, and that coverage has.
pub record Invocation : Type 0 where
  pub cwd : Bytes
  pub cpp_in_file : Bytes
  pub obj_out_file : Bytes
  pub cxx_name : Bytes
  pub coverage_arcs : Bool
  pub coverage_notes : Bool

-- `none`: the index panics on the empty name.
unfoldable pub get_cpp_in_file_abs : Invocation → Bytes → Option Bytes
get_cpp_in_file_abs i cwd =
    if bytes_beq i.cpp_in_file []
    then none
    else if is_abs i.cpp_in_file
    then some i.cpp_in_file
    else some (cwd ++ ascii "/" ++ i.cpp_in_file)

unfoldable pub get_obj_out_file_abs : Invocation → Bytes
unfolding path_abs
get_obj_out_file_abs i = path_abs i.cwd i.obj_out_file

unfoldable pub is_coverage : Invocation → Bool
is_coverage i = i.coverage_arcs || i.coverage_notes

-- The empty name where no .gcno is written.
unfoldable pub get_notes_out_file_abs : Invocation → Bytes
unfolding get_obj_out_file_abs trim_suffix
get_notes_out_file_abs i =
    if i.coverage_notes
    then trim_suffix (get_obj_out_file_abs i) (ascii ".o") ++ ascii ".gcno"
    else []

unfoldable pub capability_name : Invocation → Bytes
unfolding is_coverage coverage_capability_name
capability_name i = if is_coverage i then coverage_capability_name i.cxx_name else i.cxx_name
