-- ===== src/Client/OwnIncludes/Keeping.antt =====
-- internal/client/own-includes-parser.go: what holds of the parser's state while the includes are
-- collected, and what a step of the collection keeps.
use nocc.Client.IncludeDirs.{IncludeDirs}
use nocc.Client.IncludedFile.{IncludedFile}
use nocc.Client.IncludeStatements.{IncludedArg}
use nocc.Client.IncludesCache.{CachedHFile, own_pch_of}
use nocc.Client.OwnIncludes.Paths.{should_cache_h_file}
use nocc.Client.OwnIncludes.Seen.{Seen, Grows, AllSearched, Grows-AllSearched}
use nocc.Client.OwnIncludes.{Contents, DiskFile, Disk, OwnIncludesParser, statements_of}
use nocc.Prelude.Dict.{get}
use nocc.Prelude.{
  ℕ, false, none, some, List, [], ◌∷◌, Bytes, IsIn, ◌≡◌, ◌⊎◌, inl, inr, sym, ◌∙◌, arith,
  bytes_comparable, Option-cases,
}

-- The names of the dependencies, in order.
abbrev pub names : List IncludedFile → List Bytes
names [] = []
names (f ∷ fs) = f.file_name ∷ names fs

abbrev pub AreDistinct : List Bytes → Type 0
AreDistinct [] = Unit
AreDistinct (x ∷ xs) = (IsIn x xs → ⊥) × AreDistinct xs

-- `existing` are the files that can be opened or are remembered with includes. A file that is known
-- not to exist cannot be opened; no dependency stands twice,
-- and the dependencies are the paths that were found.
pub record IsSound (disk : Disk) (existing : List Bytes) (dirs : IncludeDirs)
    (inc : OwnIncludesParser) : Type 0 where
  pub same_dirs : inc.include_dirs ≡ dirs
  pub known :
      (f : Bytes) (c : CachedHFile)
      → get f inc.includes_cache.h_files_info ≡ some c
      → IsIn f existing ⊎ (c.nested_includes ≡ [])
  pub no_pch :
      (f : Bytes) (c : CachedHFile)
      → get (own_pch_of f) inc.includes_cache.h_files_info ≡ some c
      → c.file_size ≡ none
  pub truthful : (f : Bytes) → get f inc.uniq_seen ≡ some none → disk.open_file f ≡ none
  pub distinct : AreDistinct (names inc.h_files)
  pub listed :
      (f : Bytes) (i : ℕ) → get f inc.uniq_seen ≡ some (some i) → IsIn f (names inc.h_files)
  pub apart : (f : Bytes) → get f inc.uniq_seen ≡ none → IsIn f (names inc.h_files) → ⊥

-- The includes of an opened file were searched.
abbrev pub FileSearched : Disk → IncludeDirs → Seen → Bytes → Type 0
FileSearched disk dirs s f =
    (file : DiskFile) (c : Contents) (args : List IncludedArg)
    → disk.open_file f ≡ some file
    → file.contents ≡ some c
    → statements_of c ≡ some args
    → AllSearched dirs f s args

pub Grows-FileSearched :
    (disk : Disk) (dirs : IncludeDirs) (s t : Seen) (f : Bytes)
    → Grows s t
    → FileSearched disk dirs s f
    → FileSearched disk dirs t f
Grows-FileSearched disk dirs s t f g h file c args o r a =
    Grows-AllSearched dirs f s t args g (h file c args o r a)

-- The files that became known between two states, and are not cached.
abbrev pub NewSearched : Disk → IncludeDirs → Seen → Seen → Type 0
NewSearched disk dirs s t =
    (f : Bytes) (i : ℕ)
    → get f s ≡ none
    → get f t ≡ some (some i)
    → should_cache_h_file dirs f ≡ false
    → FileSearched disk dirs t f

pub record IsAfter (disk : Disk) (existing : List Bytes) (dirs : IncludeDirs) (s : Seen)
    (inc : OwnIncludesParser) : Type 0 where
  pub sound : IsSound disk existing dirs inc
  pub grows : Grows s inc.uniq_seen
  pub searched : NewSearched disk dirs s inc.uniq_seen

module _ (disk : Disk) (existing : List Bytes) (dirs : IncludeDirs) where
  pub stay-IsAfter :
      (inc : OwnIncludesParser)
      → IsSound disk existing dirs inc
      → IsAfter disk existing dirs inc.uniq_seen inc
  stay-IsAfter inc h = record {
    sound = h;
    grows = λ k v e. e;
    searched = λ f i new seen. ground arith;
  }

  pub trans-IsAfter :
      (s : Seen) (mid last : OwnIncludesParser)
      → IsAfter disk existing dirs s mid
      → IsAfter disk existing dirs mid.uniq_seen last
      → IsAfter disk existing dirs s last
  trans-IsAfter s mid last a b = record {
    sound = b.sound;
    grows = λ k v e. b.grows k v (a.grows k v e);
    searched = λ f i new seen plain. elim (Option-cases (get f mid.uniq_seen)) [
      | inl none_yet ↦ b.searched f i none_yet seen plain
      | inr (v, there) ↦
          Grows-FileSearched disk dirs mid.uniq_seen last.uniq_seen f b.grows
            (a.searched f i new (there ∙ (sym (b.grows f v there) ∙ seen)) plain)
    ];
  }
