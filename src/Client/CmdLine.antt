-- ===== src/Client/CmdLine.antt =====
-- internal/client/invocation.go: `ParseCmdLineInvocation`, the command line of a compiler.
pub mod Rounds
pub mod Ending
pub mod Accepting
pub mod Dirs
mod Tests
use nocc.Client.CmdOptions.Chain.{parse_option}
use nocc.Client.CmdOptions.{
  InvokeType, unsupported, compiling_cpp, compiling_pch, linking, ParseError, multiple_inputs,
  no_input, output_extension, coverage_option, unknown_version, Parsed, nothing_parsed, Round,
  go_on, returns, panics, fail, add_arg,
}
use nocc.Client.FileNames.{is_source_file_name, is_header_file_name}
use nocc.Prelude.Text.{ascii, has_prefix, has_suffix, contains}
use nocc.Prelude.{
  ℕ, zero, suc, Bool, true, false, ◌&&◌, ◌||◌, not, Option, none, some, List, [], ◌∷◌, Bytes,
  bytes_beq, nat_beq, length, if◌then◌else◌,
}

unfoldable pub is_linked_file : Bytes → Bool
unfolding has_prefix has_suffix
is_linked_file arg =
    has_suffix arg (ascii ".o") || (has_prefix arg (ascii ".so") || has_suffix arg (ascii ".a"))

-- Any other argument that is not empty.
unfoldable pub parse_file : Bytes → Parsed → List Bytes → Round
unfolding is_source_file_name is_header_file_name is_linked_file
parse_file arg p rest =
    if is_source_file_name arg || is_header_file_name arg
    then if bytes_beq p.cpp_in_file []
      then go_on (record p { cpp_in_file = arg }) rest
      else returns (fail multiple_inputs p)
    else if is_linked_file arg
    then returns (record p { invoke_type = linking })
    else go_on (add_arg arg p) rest

unfoldable pub parse_arg : Bytes → Bool → Bytes → Parsed → List Bytes → Round
unfolding parse_option parse_file
parse_arg cwd is_local [] p rest = go_on p rest
parse_arg cwd is_local (c ∷ s) p rest =
    if nat_beq c b'-' then parse_option cwd is_local (c ∷ s) p rest else parse_file (c ∷ s) p rest

-- How the loop ends: at the end of the line, by a `return`, or by a panic.
pub data Ended : Type 0 where
  at_end : Parsed → Ended
  returned : Parsed → Ended
  panicked : Ended
  out_of_fuel : Ended

unfoldable pub parse_args : ℕ → Bytes → Bool → Parsed → List Bytes → Ended
parse_args fuel cwd is_local p [] = at_end p
parse_args zero cwd is_local p (arg ∷ rest) = out_of_fuel
parse_args (suc fuel) cwd is_local p (arg ∷ rest) = elim (parse_arg cwd is_local arg p rest) [
  | go_on q left ↦ parse_args fuel cwd is_local q left
  | returns q ↦ returned q
  | panics ↦ panicked
]

abbrev pub is_coverage_parsed : Parsed → Bool
is_coverage_parsed p = p.coverage_arcs || p.coverage_notes

abbrev pub with_type : InvokeType → Parsed → Parsed
with_type t p = record p { invoke_type = t }

-- What is asked at last: the input and the output.
unfoldable pub check_files : Parsed → Parsed
unfolding has_suffix contains
check_files p =
    if bytes_beq p.cpp_in_file []
    then fail no_input p
    else if has_suffix p.obj_out_file (ascii ".o")
    then with_type compiling_cpp p
    else if contains p.obj_out_file (ascii ".gch") || contains p.obj_out_file (ascii ".pch")
    then with_type compiling_pch p
    else fail output_extension p

-- The checks of a line without an error; `version` is the answer of `GetCxxVersion`.
unfoldable pub check_coverage : Bytes → Parsed → Parsed
unfolding check_files
check_coverage version p =
    if is_coverage_parsed p
    then if not (bytes_beq p.coverage_conflict [])
      then fail coverage_option p
      else if bytes_beq version []
      then fail unknown_version p
      else check_files (record p { cxx_version = version })
    else check_files p

-- What follows the loop.
unfoldable pub check_parsed : Bytes → Parsed → Parsed
unfolding check_coverage
check_parsed version p = elim p.error [ some e ↦ p | none ↦ check_coverage version p ]

-- `none`: a panic. The compiler's name, which stands first in the line, is not in `args`.
unfoldable pub parse_cmd_line_invocation : Bytes → Bool → Bytes → List Bytes → Option Parsed
unfolding parse_args parse_arg check_parsed nothing_parsed
parse_cmd_line_invocation cwd is_local version args =
    elim (parse_args (length args) cwd is_local nothing_parsed args) [
      | at_end p ↦ some (check_parsed version p)
      | returned p ↦ some p
      | panicked ↦ none
      | out_of_fuel ↦ none
    ]
