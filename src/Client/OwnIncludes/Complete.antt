-- ===== src/Client/OwnIncludes/Complete.antt =====
-- internal/client/own-includes-parser.go: the collection of the dependencies of a .cpp ends, and misses
-- none that is included in quotes.
use mathlib.Core.Option.{some-injective}
use nocc.Client.IncludeDirs.{IncludeDirs}
use nocc.Client.IncludedFile.{IncludedFile}
use nocc.Client.IncludeStatements.{IncludedArg}
use nocc.Client.IncludesCache.{CachedHFile, IncludesCache, own_pch_of}
use nocc.Client.OwnIncludes.Collecting.{
  include_each, include_statements, process_cpp_in_file, make_own_includes_parser,
}
use nocc.Client.OwnIncludes.Keeping.{IsSound, IsAfter, stay-IsAfter, trans-IsAfter}
use nocc.Client.OwnIncludes.Outcome.{Holds, then-Holds, weaken-Holds}
use nocc.Client.OwnIncludes.Paths.{candidates}
use nocc.Client.OwnIncludes.Nested.{Works, Included}
use nocc.Client.OwnIncludes.Recursion.{on_hash_include-Works}
use nocc.Client.OwnIncludes.Searching.{on_hash_include}
use nocc.Client.OwnIncludes.Seen.{Seen, Grows-Searched, AllSearched, unseen, unseen-Grows}
use nocc.Client.OwnIncludes.{
  Contents, DiskFile, Disk, OwnIncludesParser, Include, nested_arg, statements_of,
}
use nocc.Prelude.Dict.{get}
use nocc.Prelude.Text.{ascii}
use nocc.Prelude.{
  ℕ, ◌<◌, Bool, false, Option, none, some, List, [], ◌∷◌, Bytes, IsIn, ◌≡◌, ◌⊎◌, inl, inr, refl,
  sym, subst, ◌∙◌, ap, arith, bytes_comparable, length, Option-cases,
}

module _ (disk : Disk) (existing : List Bytes) (dirs : IncludeDirs) where
  include_each-Holds :
      (n : ℕ) (go : Include) (name : Bytes) (pch : Bool) (fs : List Bytes) (inc : OwnIncludesParser)
      → Works disk existing dirs n go
      → IsSound disk existing dirs inc
      → unseen existing inc.uniq_seen < n
      → Holds (IsAfter disk existing dirs inc.uniq_seen) (include_each go name pch fs inc)
  unfolding include_each
  include_each-Holds n go name pch [] inc works s l = stay-IsAfter disk existing dirs inc s
  include_each-Holds n go name pch (f ∷ fs) inc works s l =
      then-Holds (Included disk existing dirs name (nested_arg f) inc.uniq_seen) _
        (go name (nested_arg f) pch inc) _ (works name (nested_arg f) pch inc s l)
        λ r h.
          let grown = unseen-Grows existing inc.uniq_seen r.1.uniq_seen h.0.grows in
          weaken-Holds (IsAfter disk existing dirs r.1.uniq_seen) _
            (include_each go name pch fs r.1)
            (λ last k. trans-IsAfter disk existing dirs inc.uniq_seen r.1 last h.0 k)
            (include_each-Holds n go name pch fs r.1 works h.0.sound (omega (arith, l, grown)))

  abbrev Statements : Bytes → List IncludedArg → Seen → OwnIncludesParser → Type 0
  Statements name args s inc =
      IsAfter disk existing dirs s inc × AllSearched dirs name inc.uniq_seen args

  include_statements-Holds :
      (n : ℕ) (go : Include) (name : Bytes) (pch : Bool) (args : List IncludedArg)
      (inc : OwnIncludesParser)
      → Works disk existing dirs n go
      → IsSound disk existing dirs inc
      → unseen existing inc.uniq_seen < n
      → Holds (Statements name args inc.uniq_seen) (include_statements go name pch args inc)
  unfolding include_statements
  include_statements-Holds n go name pch [] inc works s l =
      (stay-IsAfter disk existing dirs inc s, tt)
  include_statements-Holds n go name pch (arg ∷ args) inc works s l =
      then-Holds (Included disk existing dirs name arg inc.uniq_seen) _ (go name arg pch inc) _
        (works name arg pch inc s l)
        λ r h.
          let grown = unseen-Grows existing inc.uniq_seen r.1.uniq_seen h.0.grows in
          weaken-Holds (Statements name args r.1.uniq_seen)
            (Statements name (arg ∷ args) inc.uniq_seen) (include_statements go name false args r.1)
            (λ last k. (
              trans-IsAfter disk existing dirs inc.uniq_seen r.1 last h.0 k.0,
              (
                (λ quote next.
                    Grows-Searched r.1.uniq_seen last.uniq_seen (candidates name dirs arg) k.0.grows
                      (h.1 quote next)),
                k.1,
              ),
            ))
            (include_statements-Holds n go name false args r.1 works h.0.sound
              (omega (arith, l, grown)))

  -- What holds at the end.
  abbrev pub Collected : Bytes → Option Contents → Option IncludedFile × OwnIncludesParser → Type 0
  Collected name cpp r =
      IsAfter disk existing dirs [] r.1
      × ((c : Contents) (args : List IncludedArg)
          → cpp ≡ some c
          → statements_of c ≡ some args
          → AllSearched dirs name r.1.uniq_seen args)

  unseen_start : (ns : List Bytes) → unseen ns [] ≡ length ns
  unfolding get
  unseen_start [] = refl
  unseen_start (n ∷ ns) = omega (arith, unseen_start ns)

  pub start-IsSound :
      (cache : IncludesCache)
      → ((f : Bytes) (c : CachedHFile)
          → get f cache.h_files_info ≡ some c
          → IsIn f existing ⊎ (c.nested_includes ≡ []))
      → ((f : Bytes) (c : CachedHFile)
          → get (own_pch_of f) cache.h_files_info ≡ some c
          → c.file_size ≡ none)
      → IsSound disk existing dirs (make_own_includes_parser dirs cache)
  unfolding make_own_includes_parser get
  start-IsSound cache known no_pch = record {
    same_dirs = refl;
    known = known;
    no_pch = no_pch;
    truthful = λ f e. ground arith;
    distinct = tt;
    listed = λ f i e. ground arith;
    apart = λ f e i. i;
  }

  module _
      (openable : (f : Bytes) (file : DiskFile) → disk.open_file f ≡ some file → IsIn f existing)
      (pch_closed : (f : Bytes) → disk.open_file (own_pch_of f) ≡ none)
      (pch_missing : (f : Bytes) → disk.stat (own_pch_of f) ≡ none) where
    pub process_cpp_in_file-Holds :
        (fuel : ℕ) (name : Bytes) (cpp : Option Contents) (pch : Bool) (fs : List Bytes)
        (inc : OwnIncludesParser)
        → IsSound disk existing dirs inc
        → inc.uniq_seen ≡ []
        → length existing < fuel
        → Holds (Collected name cpp) (process_cpp_in_file fuel disk name cpp pch fs inc)
    unfolding process_cpp_in_file
    process_cpp_in_file-Holds fuel name cpp pch fs inc s fresh enough =
        let go = on_hash_include fuel disk in
        let works = on_hash_include-Works disk existing dirs openable pch_closed pch_missing fuel in
        let implicit = nested_arg (ascii "stdc-predef.h") in
        let l : unseen existing inc.uniq_seen < fuel =
          subst (λ t. unseen existing t < fuel) (sym fresh)
            (omega (arith, enough, unseen_start existing)) in
        then-Holds (Included disk existing dirs name implicit inc.uniq_seen) _
          (go name implicit false inc) _ (works name implicit false inc s l)
          λ r h.
            let g = unseen-Grows existing inc.uniq_seen r.1.uniq_seen h.0.grows in
            then-Holds (IsAfter disk existing dirs r.1.uniq_seen) _
              (include_each go name pch fs r.1) _
              (include_each-Holds fuel go name pch fs r.1 works h.0.sound (omega (arith, l, g)))
              λ explicit k.
                let g' = unseen-Grows existing r.1.uniq_seen explicit.uniq_seen k.grows in
                let both =
                  subst (λ t. IsAfter disk existing dirs t explicit) fresh
                    (trans-IsAfter disk existing dirs inc.uniq_seen r.1 explicit h.0 k) in
                elim (Option-cases cpp) [
                  | inl e ↦ rw e (both, λ c args here. ground arith)
                  | inr (c, e) ↦ elim (Option-cases (statements_of c)) [
                    | inl d ↦ rw (e, d) tt
                    | inr (args, d) ↦
                        rw (e, d)
                          (then-Holds (Statements name args explicit.uniq_seen) _
                            (include_statements go name pch args explicit) _
                            (include_statements-Holds fuel go name pch args explicit works k.sound
                              (omega (arith, l, g, g')))
                            λ last q. (
                              trans-IsAfter disk existing dirs [] explicit last both q.0,
                              λ c' args' x y.
                                  let same = ap statements_of (some-injective c c' x) in
                                  subst (AllSearched dirs name last.uniq_seen)
                                    (some-injective args args' (sym d ∙ (same ∙ y))) q.1,
                            ))
                  ]
                ]
