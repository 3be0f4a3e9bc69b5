-- ===== src/Server/CompilerOptions.antt =====
-- internal/server/compiler-options.go: `-ffile-prefix-map`, for the place of the sources on the server.
use nocc.Prelude.Paths.{is_abs, join_path}
use nocc.Prelude.Text.{ascii, has_prefix, split, join}
use nocc.Prelude.{List, [], ◌∷◌, Bytes, if◌then◌else◌}

abbrev pub prefix_map_option : Bytes
prefix_map_option = ascii "-ffile-prefix-map"

-- The parts at `=`: the second one, if it is an absolute path, goes under `replaced`.
unfoldable pub moved_parts : Bytes → List Bytes → List Bytes
unfolding join_path
moved_parts replaced (option ∷ old ∷ rest) =
    option ∷ (if is_abs old then join_path replaced old else old) ∷ rest
moved_parts replaced parts = parts

unfoldable pub file_prefix_map_option : Bytes → Bytes → Bytes
unfolding has_prefix moved_parts split join
file_prefix_map_option cxx_arg replaced =
    if has_prefix cxx_arg prefix_map_option
    then join (moved_parts replaced (split cxx_arg b'=')) (b'=' ∷ [])
    else cxx_arg
