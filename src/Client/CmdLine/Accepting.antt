-- ===== src/Client/CmdLine/Accepting.antt =====
-- Which command lines internal/client/invocation.go accepts for a remote compilation.
use nocc.Client.CmdLine.{is_coverage_parsed}
use nocc.Client.CmdOptions.{Parsed, ParseError, unsupported, compiling_cpp, compiling_pch, linking}
use nocc.Client.FileNames.{is_source_file_name, is_header_file_name}
use nocc.Prelude.Text.{ascii, has_suffix, contains}
use nocc.Prelude.{true, false, ◌||◌, none, some, [], Bytes, ◌≡◌, ◌≢◌, ◌⊎◌}

abbrev IsInput : Bytes → Type 0
IsInput name = (is_source_file_name name || is_header_file_name name) ≡ true

-- While arguments are read.
record IsOpen (p : Parsed) : Type 0 where
  input : (p.cpp_in_file ≡ []) ⊎ IsInput p.cpp_in_file
  untyped : p.invoke_type ≡ unsupported

-- A result that is not to be compiled remotely.
abbrev Refused : Parsed → Type 0
Refused p = (p.invoke_type ≡ unsupported) × ((e : ParseError) × (p.error ≡ some e))

abbrev Stopped : Parsed → Type 0
Stopped p = (p.invoke_type ≡ linking) ⊎ Refused p

-- What holds of a command line to be compiled, with the version of the compiler that was asked for.
pub record IsCompiled (version : Bytes) (p : Parsed) : Type 0 where
  pub no_error : p.error ≡ none
  pub input : IsInput p.cpp_in_file
  pub covered :
      is_coverage_parsed p ≡ true
      → (p.coverage_conflict ≡ []) × (p.cxx_version ≡ version) × (version ≢ [])

-- What the line is parsed to.
pub data IsParsed (version : Bytes) (p : Parsed) : Type 0 where
  cpp :
      p.invoke_type ≡ compiling_cpp
      → has_suffix p.obj_out_file (ascii ".o") ≡ true
      → IsCompiled version p
      → IsParsed version p
  pch :
      p.invoke_type ≡ compiling_pch
      → has_suffix p.obj_out_file (ascii ".o") ≡ false
      → (contains p.obj_out_file (ascii ".gch") || contains p.obj_out_file (ascii ".pch")) ≡ true
      → IsCompiled version p
      → IsParsed version p
  link : p.invoke_type ≡ linking → IsParsed version p
  refused : Refused p → IsParsed version p
