-- ===== src/Client/OwnIncludes.antt =====
-- internal/client/own-includes-parser.go: the search of includes and the recursion over them. A pointer
-- to a dependency is its place in `h_files`.
mod Outcome
pub mod Searching
pub mod Collecting
mod Paths
mod Seen
mod Keeping
mod Steps
mod Nested
mod Attempting
mod Recursion
mod Complete
pub mod Dependencies
mod Tests
use nocc.Client.IncludedFile.{IncludedFile}
use nocc.Client.IncludeStatements.{IncludedArg, collect_include_statements_in_file}
use nocc.Client.IncludesCache.{
  CachedHFile, IncludesCache, get_include_resolve, add_include_resolve, get_h_file_info,
  add_h_file_info, locate_own_pch_file, zero_sha256,
}
use nocc.Client.OwnIncludes.Paths.{should_cache_h_file, candidates, behind_current_dir}
use nocc.Client.OwnIncludes.Outcome.{Run, went, stuck, spent, ◌then◌}
use nocc.Client.IncludeDirs.{IncludeDirs}
use nocc.Client.FileNames.{is_source_file_name}
use nocc.Common.Sha256.{Sha256}
use nocc.Prelude.Dict.{Dict, get, put}
use nocc.Prelude.Text.{ascii}
use nocc.Prelude.{
  ℕ, zero, suc, ◌+◌, Bool, true, false, ◌&&◌, Option, none, some, List, [], ◌∷◌, ◌++◌, Bytes,
  bytes_beq, bytes_comparable, length, get_elem?, set, if◌then◌else◌,
}

-- What `CalcSHA256OfFile` gives. `beyond` is what the buffer's array holds behind the file.
pub record Contents : Type 0 where
  pub sha256 : Sha256
  pub buffer : Bytes
  pub beyond : Bytes

pub record DiskFile : Type 0 where
  pub size : ℕ
  pub contents : Option Contents

-- What the disk answers, the same during the collection. `open_file` is os.Open with Stat, `stat` is
-- os.Stat, `pch_hash` what ParseOwnPchFile reads.
pub record Disk : Type 0 where
  pub open_file : Bytes → Option DiskFile
  pub stat : Bytes → Option ℕ
  pub pch_hash : Bytes → Option Sha256

-- A key of `uniq_seen` with `none` is a file that does not exist. `err` says that `inc.err` is set.
pub record OwnIncludesParser : Type 0 where
  pub include_dirs : IncludeDirs
  pub includes_cache : IncludesCache
  pub err : Bool
  pub uniq_seen : Dict Bytes (Option ℕ)
  pub h_files : List IncludedFile

-- The variable `hFile` and the result of an attempt.
pub record Attempt : Type 0 where
  pub h_file : Option ℕ
  pub found : Bool
  pub inc : OwnIncludesParser

abbrev pub Include : Type 0
Include = Bytes → IncludedArg → Bool → OwnIncludesParser → Run (Option ℕ × OwnIncludesParser)

abbrev pub is_some : {A : Type 0} → Option A → Bool
is_some none = false
is_some (some x) = true

abbrev pub add_h_file : Bytes → IncludedFile → OwnIncludesParser → OwnIncludesParser
add_h_file name file inc = record inc {
  uniq_seen = put name (some (length inc.h_files)) inc.uniq_seen;
  h_files = inc.h_files ++ (file ∷ []);
}

-- `inc.uniqSeen[hFileName] = nil`
unfoldable pub missing : Bytes → OwnIncludesParser → OwnIncludesParser
unfolding put
missing name inc = record inc { uniq_seen = put name none inc.uniq_seen }

unfoldable pub add_pch : Bytes → IncludedFile → OwnIncludesParser → OwnIncludesParser
unfolding put
add_pch name pch inc =
    let there = record inc { uniq_seen = put name (some (length inc.h_files)) inc.uniq_seen } in
    add_h_file pch.file_name pch there

unfoldable pub set_sha256 : ℕ → Sha256 → OwnIncludesParser → OwnIncludesParser
set_sha256 i hash inc = elim (get_elem? inc.h_files i) [
  | none ↦ inc
  | some file ↦ record inc { h_files = set inc.h_files i (record file { file_sha256 = hash }) }
]

unfoldable pub name_of : Option ℕ → OwnIncludesParser → List Bytes
name_of none inc = []
name_of (some i) inc = elim (get_elem? inc.h_files i) [
  | none ↦ []
  | some file ↦ file.file_name ∷ []
]

-- The loops over the statements of a file, with the names of those that are found.
unfoldable pub include_all :
    Include → Bytes → List IncludedArg → OwnIncludesParser → Run (List Bytes × OwnIncludesParser)
unfolding name_of ◌then◌
include_all go name [] inc = went ([], inc)
include_all go name (arg ∷ args) inc = go name arg false inc then λ r.
    include_all go name args r.1 then λ s. went (name_of r.0 r.1 ++ s.0, s.1)

-- `nestedInclude` is resolved, it starts from /
abbrev pub nested_arg : Bytes → IncludedArg
nested_arg name = record { inside_str = name; is_quote = false; is_include_next = false }

abbrev pub nested_args : List Bytes → List IncludedArg
nested_args [] = []
nested_args (n ∷ ns) = nested_arg n ∷ nested_args ns

-- Enough rounds for a file that ends in an end of line.
unfoldable pub statements_of : Contents → Option (List IncludedArg)
unfolding collect_include_statements_in_file
statements_of c = collect_include_statements_in_file (length c.buffer + 1) c.buffer c.beyond

unfoldable pub remember :
    Bytes → ℕ → Sha256 → Bool → List Bytes → OwnIncludesParser → OwnIncludesParser
unfolding add_h_file_info
remember name size hash true nested inc = record inc {
  includes_cache =
      add_h_file_info name
        (record { file_size = some size; file_sha256 = hash; nested_includes = nested })
        inc.includes_cache;
}
remember name size hash false nested inc = inc

unfoldable pub process_h_file :
    Include → Bytes → ℕ → DiskFile → Bool → OwnIncludesParser → Run OwnIncludesParser
unfolding include_all statements_of set_sha256 remember ◌then◌
process_h_file go name i file should_cache inc = elim file.contents [
  | none ↦ went (record inc { err = true })
  | some c ↦ elim (statements_of c) [
    | none ↦ stuck
    | some args ↦ include_all go name args (set_sha256 i c.sha256 inc) then λ r.
        went (remember name file.size c.sha256 should_cache r.0 r.1)
  ]
]

abbrev pub found_at : Option ℕ → OwnIncludesParser → Attempt
found_at h inc = record { h_file = h; found = true; inc = inc }

unfoldable pub open_h_file : Include → Disk → Bytes → Bool → OwnIncludesParser → Run Attempt
unfolding process_h_file missing ◌then◌
open_h_file go disk name should_cache inc = elim (disk.open_file name) [
  | none ↦ went (record { h_file = none; found = false; inc = missing name inc })
  | some file ↦
      let i = length inc.h_files in
      let h : IncludedFile = record {
        file_name = name;
        file_size = some file.size;
        file_sha256 = zero_sha256;
      } in
      process_h_file go name i file should_cache (add_h_file name h inc) then λ inc'.
      went (found_at (some i) inc')
]

unfoldable pub use_cached : Include → Bytes → CachedHFile → OwnIncludesParser → Run Attempt
unfolding include_all ◌then◌
use_cached go name cached inc =
    let i = length inc.h_files in
    let h : IncludedFile = record {
      file_name = name;
      file_size = cached.file_size;
      file_sha256 = cached.file_sha256;
    } in
    include_all go name (nested_args cached.nested_includes) (add_h_file name h inc) then λ r.
    went (found_at (some i) r.1)

-- A file that is seen first.
unfoldable pub visit_h_file : Include → Disk → Bytes → OwnIncludesParser → Run Attempt
unfolding open_h_file use_cached should_cache_h_file get_h_file_info
visit_h_file go disk name inc =
    let should_cache = should_cache_h_file inc.include_dirs name in
    elim should_cache [
      | false ↦ open_h_file go disk name false inc
      | true ↦ elim (get_h_file_info name inc.includes_cache) [
        | none ↦ open_h_file go disk name true inc
        | some cached ↦ use_cached go name cached inc
      ]
    ]
