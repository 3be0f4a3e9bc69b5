-- ===== src/Client/OwnIncludes/Dependencies.antt =====
-- internal/client/own-includes-parser.go: what CollectDependentIncludesByOwnParser finds.
use nocc.Client.IncludeDirs.{IncludeDirs}
use nocc.Client.FileNames.{is_source_file_name}
use nocc.Client.IncludedFile.{IncludedFile}
use nocc.Client.IncludesCache.{CachedHFile, IncludesCache, own_pch_of}
use nocc.Client.OwnIncludes.Collecting.{
  make_own_includes_parser, collect_dependent_includes_by_own_parser,
}
use nocc.Client.OwnIncludes.Complete.{Collected, start-IsSound, process_cpp_in_file-Holds}
use nocc.Client.OwnIncludes.Outcome.{spent, Holds}
use nocc.Client.OwnIncludes.Paths.{should_cache_h_file}
use nocc.Client.OwnIncludes.Seen.{Seen}
use nocc.Client.OwnIncludes.{Contents, DiskFile, Disk}
use nocc.Prelude.Dict.{get}
use nocc.Prelude.{
  ℕ, ◌<◌, false, Option, none, some, List, [], ◌∷◌, Bytes, IsIn, ◌≡◌, ◌≢◌, ◌⊎◌, refl, subst,
  bytes_comparable, length,
}

-- The first of some paths that exists is a dependency.
abbrev pub IsFound : Disk → List Bytes → List Bytes → Type 0
IsFound disk deps [] = Unit
IsFound disk deps (c ∷ cs) = IsIn c deps ⊎ ((disk.open_file c ≡ none) × IsFound disk deps cs)

-- The .cpp, or an opened dependency that is not cached, with its contents.
abbrev pub IsRead :
    Disk → IncludeDirs → List Bytes → Bytes → Option Contents → Bytes → Contents → Type 0
IsRead disk dirs deps name cpp f c =
    ((f ≡ name) × (cpp ≡ some c))
    ⊎ (IsIn f deps
        × ((should_cache_h_file dirs f ≡ false)
            × ((file : DiskFile) × ((disk.open_file f ≡ some file) × (file.contents ≡ some c)))))

module _ (disk : Disk) (existing : List Bytes) (dirs : IncludeDirs) (cache : IncludesCache)
    (openable : (f : Bytes) (file : DiskFile) → disk.open_file f ≡ some file → IsIn f existing)
    (pch_closed : (f : Bytes) → disk.open_file (own_pch_of f) ≡ none)
    (pch_missing : (f : Bytes) → disk.stat (own_pch_of f) ≡ none)
    (known : (f : Bytes) (c : CachedHFile)
      → get f cache.h_files_info ≡ some c
      → IsIn f existing ⊎ (c.nested_includes ≡ []))
    (no_pch : (f : Bytes) (c : CachedHFile)
      → get (own_pch_of f) cache.h_files_info ≡ some c
      → c.file_size ≡ none) where
  collect-Holds :
      (fuel : ℕ) (name : Bytes) (cpp : Option Contents)
      → length existing < fuel
      → Holds
          (Collected disk existing dirs name cpp)
          (collect_dependent_includes_by_own_parser fuel disk cache name cpp dirs)
  unfolding collect_dependent_includes_by_own_parser make_own_includes_parser
  collect-Holds fuel name cpp enough =
      process_cpp_in_file-Holds disk existing dirs openable pch_closed pch_missing fuel name cpp
        (is_source_file_name name) dirs.files_i (make_own_includes_parser dirs cache)
        (start-IsSound disk existing dirs cache known no_pch) refl enough

  -- The collection of the dependencies of a .cpp recurses no deeper than there are files that can be
  -- opened or are remembered with includes, cyclic includes or not, where no .nocc-pch file exists: with
  -- more rounds than such files it is not cut off.
  pub collect-Ends :
      (fuel : ℕ) (name : Bytes) (cpp : Option Contents)
      → length existing < fuel
      → collect_dependent_includes_by_own_parser fuel disk cache name cpp dirs ≢ spent
  collect-Ends fuel name cpp enough e =
      subst (Holds (Collected disk existing dirs name cpp)) e (collect-Holds fuel name cpp enough)
