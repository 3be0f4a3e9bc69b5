-- ===== src/Client/IncludeDirs.antt =====
-- internal/client/include-dirs.go: the include dirs of a command line.
use nocc.Prelude.Text.{ascii}
use nocc.Prelude.{ℕ, ◌+◌, Bool, ◌&&◌, List, [], ◌∷◌, ◌++◌, Bytes, length, nat_beq}

pub record IncludeDirs : Type 0 where
  pub dirs_i : List Bytes
  pub dirs_iquote : List Bytes
  pub dirs_isystem : List Bytes
  pub files_i : List Bytes

unfoldable pub make_include_dirs : IncludeDirs
make_include_dirs = record { dirs_i = []; dirs_iquote = []; dirs_isystem = []; files_i = [] }

unfoldable pub is_empty_dirs : IncludeDirs → Bool
is_empty_dirs d =
    nat_beq (length d.dirs_i) 0
    && (nat_beq (length d.dirs_iquote) 0 && nat_beq (length d.dirs_isystem) 0)

unfoldable pub count_dirs : IncludeDirs → ℕ
count_dirs d = length d.dirs_i + length d.dirs_iquote + length d.dirs_isystem + length d.files_i

-- One of the four loops.
unfoldable pub with_option : Bytes → List Bytes → List Bytes
with_option option [] = []
with_option option (d ∷ ds) = option ∷ d ∷ with_option option ds

unfoldable pub as_cxx_args : IncludeDirs → List Bytes
unfolding with_option
as_cxx_args d =
    with_option (ascii "-I") d.dirs_i
    ++ (with_option (ascii "-iquote") d.dirs_iquote
        ++ (with_option (ascii "-isystem") d.dirs_isystem
            ++ with_option (ascii "-include") d.files_i))

unfoldable pub merge_with : IncludeDirs → IncludeDirs → IncludeDirs
merge_with d other = record {
  dirs_i = d.dirs_i ++ other.dirs_i;
  dirs_iquote = d.dirs_iquote ++ other.dirs_iquote;
  dirs_isystem = d.dirs_isystem ++ other.dirs_isystem;
  files_i = d.files_i ++ other.files_i;
}
