-- ===== src/Client/OwnIncludes/Paths.antt =====
-- internal/client/own-includes-parser.go: where an include is searched, in order.
use nocc.Client.IncludeDirs.{IncludeDirs}
use nocc.Client.IncludeStatements.{IncludedArg}
use nocc.Prelude.Paths.{dir, join_path, is_abs}
use nocc.Prelude.Text.{ascii, contains, has_prefix}
use nocc.Prelude.{
  Bool, false, ◌||◌, ◌-◌, Option, none, some, List, [], ◌∷◌, ◌++◌, Bytes, length, take, ltb,
  if◌then◌else◌,
}

unfoldable pub is_in_dirs : Bytes → List Bytes → Bool
unfolding has_prefix
is_in_dirs name [] = false
is_in_dirs name (d ∷ ds) = has_prefix name d || is_in_dirs name ds

unfoldable pub should_cache_h_file : IncludeDirs → Bytes → Bool
unfolding is_in_dirs contains
should_cache_h_file dirs name =
    if is_in_dirs name dirs.dirs_i
    then false
    else is_in_dirs name dirs.dirs_isystem
      || (contains name (ascii "/kphp/cl/") || contains name (ascii "/kphp/cl_l/"))

unfoldable pub in_dirs : List Bytes → Bytes → List Bytes
unfolding join_path
in_dirs [] arg = []
in_dirs (d ∷ ds) arg = join_path d arg ∷ in_dirs ds arg

unfoldable pub near : Bytes → IncludeDirs → IncludedArg → List Bytes
unfolding in_dirs dir join_path
near current dirs arg =
    if arg.is_quote
    then join_path (dir current) arg.inside_str ∷ in_dirs dirs.dirs_iquote arg.inside_str
    else []

-- The full paths to attempt, of an argument that is not empty.
unfoldable pub candidates : Bytes → IncludeDirs → IncludedArg → List Bytes
unfolding near in_dirs
candidates current dirs arg =
    if is_abs arg.inside_str
    then arg.inside_str ∷ []
    else near current dirs arg
      ++ (in_dirs dirs.dirs_i arg.inside_str ++ in_dirs dirs.dirs_isystem arg.inside_str)

-- For #include_next: what follows the first candidate of which the dir starts the current file's name.
-- `none`: the candidate is shorter than the argument, a panic.
unfoldable pub behind_current_dir : Bytes → Bytes → List Bytes → Option (List Bytes)
unfolding has_prefix
behind_current_dir current inside_str [] = some []
behind_current_dir current inside_str (c ∷ cs) =
    let n = length c - length inside_str in
    let rest = behind_current_dir current inside_str cs in
    if ltb (length c) (length inside_str)
    then none
    else if has_prefix current (take n c)
    then some cs
    else rest
