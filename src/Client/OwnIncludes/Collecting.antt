-- ===== src/Client/OwnIncludes/Collecting.antt =====
-- internal/client/own-includes-parser.go: the dependencies of a .cpp.
use nocc.Client.OwnIncludes.{Contents, Disk, OwnIncludesParser, Include, nested_arg, statements_of}
use nocc.Client.OwnIncludes.Searching.{on_hash_include}
use nocc.Client.IncludedFile.{IncludedFile}
use nocc.Client.IncludeStatements.{IncludedArg}
use nocc.Client.IncludesCache.{IncludesCache}
use nocc.Client.OwnIncludes.Outcome.{Run, went, stuck, ◌then◌}
use nocc.Client.IncludeDirs.{IncludeDirs}
use nocc.Client.FileNames.{is_source_file_name}
use nocc.Prelude.Text.{ascii}
use nocc.Prelude.{
  ℕ, Bool, false, Option, none, some, List, [], ◌∷◌, Bytes, bytes_comparable, length, if◌then◌else◌,
}

unfoldable pub include_each :
    Include → Bytes → Bool → List Bytes → OwnIncludesParser → Run OwnIncludesParser
unfolding ◌then◌
include_each go cpp search_for_pch [] inc = went inc
include_each go cpp search_for_pch (f ∷ fs) inc =
    go cpp (nested_arg f) search_for_pch inc then λ r. include_each go cpp search_for_pch fs r.1

-- Only the first #include can be a precompiled header.
unfoldable pub include_statements :
    Include → Bytes → Bool → List IncludedArg → OwnIncludesParser → Run OwnIncludesParser
unfolding ◌then◌
include_statements go cpp try_pch [] inc = went inc
include_statements go cpp try_pch (arg ∷ args) inc =
    go cpp arg try_pch inc then λ r. include_statements go cpp false args r.1

-- `cpp` is what CalcSHA256OfFileName gives. The result is the file, if there was no error.
unfoldable pub process_cpp_in_file :
    ℕ
    → Disk
    → Bytes
    → Option Contents
    → Bool
    → List Bytes
    → OwnIncludesParser
    → Run (Option IncludedFile × OwnIncludesParser)
unfolding on_hash_include include_each include_statements statements_of ◌then◌
process_cpp_in_file fuel disk name cpp search_for_pch explicit_includes inc =
    let go = on_hash_include fuel disk in
    go name (nested_arg (ascii "stdc-predef.h")) false inc then λ r.
    include_each go name search_for_pch explicit_includes r.1 then λ explicit. elim cpp [
      | none ↦ went (none, explicit)
      | some c ↦ elim (statements_of c) [
        | none ↦ stuck
        | some args ↦ include_statements go name search_for_pch args explicit then λ last. went (
          (if last.err
              then none
              else some (record {
                file_name = name;
                file_size = some (length c.buffer);
                file_sha256 = c.sha256;
              })),
          last,
        )
      ]
    ]

unfoldable pub make_own_includes_parser : IncludeDirs → IncludesCache → OwnIncludesParser
make_own_includes_parser dirs cache = record {
  include_dirs = dirs;
  includes_cache = cache;
  err = false;
  uniq_seen = [];
  h_files = [];
}

unfoldable pub collect_dependent_includes_by_own_parser :
    ℕ
    → Disk
    → IncludesCache
    → Bytes
    → Option Contents
    → IncludeDirs
    → Run (Option IncludedFile × OwnIncludesParser)
unfolding process_cpp_in_file make_own_includes_parser is_source_file_name
collect_dependent_includes_by_own_parser fuel disk cache name cpp dirs =
    process_cpp_in_file fuel disk name cpp (is_source_file_name name) dirs.files_i
      (make_own_includes_parser dirs cache)
