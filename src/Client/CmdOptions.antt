-- ===== src/Client/CmdOptions.antt =====
-- internal/client/invocation.go: an option of `ParseCmdLineInvocation`, with what is left of the
-- command line behind it in place of an index.
pub mod Chain
use nocc.Client.DepFlags.{
  DepCmdFlags, no_dep_flags, set_cmd_flag_mf, set_cmd_flag_mt, set_cmd_flag_mq,
}
use nocc.Client.FileNames.{path_abs}
use nocc.Client.IncludeDirs.{IncludeDirs, make_include_dirs}
use nocc.Prelude.Text.{ascii, has_prefix}
use nocc.Prelude.{
  Bool, true, false, ◌||◌, Option, none, some, List, [], ◌∷◌, ◌++◌, Bytes, bytes_beq, length, drop,
  if◌then◌else◌,
}

pub data InvokeType : Type 0 where
  unsupported : InvokeType
  compiling_cpp : InvokeType
  compiling_pch : InvokeType
  linking : InvokeType

pub data ParseError : Type 0 where
  no_argument : ParseError
  unsupported_option : ParseError
  march_native : ParseError
  multiple_inputs : ParseError
  no_input : ParseError
  output_extension : ParseError
  coverage_option : ParseError
  unknown_version : ParseError

-- The fields of the source's `Invocation` that are parsed, and `coverageConflict`.
pub record Parsed : Type 0 where
  pub invoke_type : InvokeType
  pub error : Option ParseError
  pub cpp_in_file : Bytes
  pub obj_out_file : Bytes
  pub cxx_args : List Bytes
  pub cxx_i_dirs : IncludeDirs
  pub deps_flags : DepCmdFlags
  pub coverage_arcs : Bool
  pub coverage_notes : Bool
  pub coverage_conflict : Bytes
  pub cxx_version : Bytes

unfoldable pub nothing_parsed : Parsed
unfolding make_include_dirs no_dep_flags
nothing_parsed = record {
  invoke_type = unsupported;
  error = none;
  cpp_in_file = [];
  obj_out_file = [];
  cxx_args = [];
  cxx_i_dirs = make_include_dirs;
  deps_flags = no_dep_flags;
  coverage_arcs = false;
  coverage_notes = false;
  coverage_conflict = [];
  cxx_version = [];
}

-- One round of the loop: on with what is left, a `return`, or an index past the end.
pub data Round : Type 0 where
  go_on : Parsed → List Bytes → Round
  returns : Parsed → Round
  panics : Round

abbrev pub fail : ParseError → Parsed → Parsed
fail e p = record p { error = some e }

abbrev pub add_arg : Bytes → Parsed → Parsed
add_arg arg p = record p { cxx_args = p.cxx_args ++ (arg ∷ []) }

-- What `parseArgFile` finds.
pub data Taken : Type 0 where
  taken : Bytes → List Bytes → Taken
  missing : Taken
  past_end : Taken
  other : Taken

abbrev pub take_next : List Bytes → Taken
take_next [] = past_end
take_next (v ∷ rest) = taken v rest

abbrev pub take_file : List Bytes → Taken
take_file [] = missing
take_file (v ∷ rest) = if bytes_beq v (ascii "-Xclang") then take_next rest else taken v rest

unfoldable pub parse_arg_file : Bytes → Bytes → List Bytes → Taken
unfolding has_prefix
parse_arg_file key arg rest =
    if bytes_beq arg key
    then take_file rest
    else if has_prefix arg key
    then taken (drop (length key) arg) rest
    else other

-- `if x, ok := parseArgFile(key, arg, &i); ok { set; continue } else …`
unfoldable pub try_file :
    Bytes
    → (Bytes → Parsed → Parsed)
    → Bytes
    → (Parsed → List Bytes → Round)
    → Parsed
    → List Bytes
    → Round
unfolding parse_arg_file
try_file key set arg next p rest = elim (parse_arg_file key arg rest) [
  | taken v left ↦ go_on (set v p) left
  | missing ↦ next (fail no_argument p) rest
  | past_end ↦ panics
  | other ↦ next p rest
]

-- The same with `parseArgStr`, where an empty argument is passed over, but not handled.
abbrev pub take_str :
    (Bytes → Parsed → Parsed) → (Parsed → List Bytes → Round) → Parsed → List Bytes → Round
take_str set next p [] = next (fail no_argument p) []
take_str set next p (v ∷ rest) = if bytes_beq v [] then next p rest else go_on (set v p) rest

unfoldable pub try_str :
    Bytes
    → (Bytes → Parsed → Parsed)
    → Bytes
    → (Parsed → List Bytes → Round)
    → Parsed
    → List Bytes
    → Round
try_str key set arg next p rest =
    if bytes_beq arg key then take_str set next p rest else next p rest
