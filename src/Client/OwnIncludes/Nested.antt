-- ===== src/Client/OwnIncludes/Nested.antt =====
-- internal/client/own-includes-parser.go: the statements of a file that is included.
use nocc.Client.IncludeDirs.{IncludeDirs}
use nocc.Client.IncludeStatements.{IncludedArg}
use nocc.Client.IncludesCache.{own_pch_of}
use nocc.Client.OwnIncludes.Outcome.{Holds, then-Holds}
use nocc.Client.OwnIncludes.Paths.{candidates}
use nocc.Client.OwnIncludes.Keeping.{IsSound, IsAfter, FileSearched, stay-IsAfter, trans-IsAfter}
use nocc.Client.OwnIncludes.Seen.{
  Seen, Grows-Searched, ArgSearched, AllSearched, Grows-AllSearched, unseen, unseen-Grows,
}
use nocc.Client.OwnIncludes.Steps.{set_sha256-IsAfter, info-IsAfter, err-IsAfter}
use nocc.Client.OwnIncludes.{
  Contents, DiskFile, Disk, OwnIncludesParser, Attempt, Include, set_sha256, include_all,
  statements_of, remember, process_h_file,
}
use mathlib.Core.Option.{some-injective}
use nocc.Common.Sha256.{Sha256}
use nocc.Prelude.Dict.{get}
use nocc.Prelude.{
  ℕ, ◌<◌, Bool, true, false, Option, none, some, List, [], ◌∷◌, Bytes, IsIn, ◌≡◌, ◌⊎◌, inl, inr,
  sym, subst, ◌∙◌, ap, arith, bytes_comparable, Option-cases,
}

module _ (disk : Disk) (existing : List Bytes) (dirs : IncludeDirs) where
  abbrev pub Sound : OwnIncludesParser → Type 0
  Sound inc = IsSound disk existing dirs inc

  abbrev pub After : Seen → OwnIncludesParser → Type 0
  After s inc = IsAfter disk existing dirs s inc

  abbrev pub Included : Bytes → IncludedArg → Seen → Option ℕ × OwnIncludesParser → Type 0
  Included current arg s r = After s r.1 × ArgSearched dirs current r.1.uniq_seen arg

  -- An include works where less than `n` of the existing files are left.
  abbrev pub Works : ℕ → Include → Type 0
  Works n go =
      (current : Bytes) (arg : IncludedArg) (try_pch : Bool) (inc : OwnIncludesParser)
      → Sound inc
      → unseen existing inc.uniq_seen < n
      → Holds (Included current arg inc.uniq_seen) (go current arg try_pch inc)

  -- What is known of a path that was attempted.
  abbrev pub Attempted : Bytes → Seen → Attempt → Type 0
  Attempted name s a =
      After s a.inc
      × (((a.found ≡ true) × ((i : ℕ) × (get name a.inc.uniq_seen ≡ some (some i))))
          ⊎ ((a.found ≡ false) × (get name a.inc.uniq_seen ≡ some none)))

  pub include_all-Holds :
      (n : ℕ) (go : Include) (name : Bytes) (args : List IncludedArg) (inc : OwnIncludesParser)
      → Works n go
      → Sound inc
      → unseen existing inc.uniq_seen < n
      → Holds
          (λ (r : List Bytes × OwnIncludesParser).
            After inc.uniq_seen r.1 × AllSearched dirs name r.1.uniq_seen args)
          (include_all go name args inc)
  unfolding include_all
  include_all-Holds n go name [] inc works s l = (stay-IsAfter disk existing dirs inc s, tt)
  include_all-Holds n go name (arg ∷ args) inc works s l =
      then-Holds (Included name arg inc.uniq_seen) _ (go name arg false inc) _
        (works name arg false inc s l)
        λ r h.
          let grows = unseen-Grows existing inc.uniq_seen r.1.uniq_seen h.0.grows in
          then-Holds
            (λ (q : List Bytes × OwnIncludesParser).
              After r.1.uniq_seen q.1 × AllSearched dirs name q.1.uniq_seen args)
            _ (include_all go name args r.1) _
            (include_all-Holds n go name args r.1 works h.0.sound (omega (arith, l, grows)))
            λ q k. (
              trans-IsAfter disk existing dirs inc.uniq_seen r.1 q.1 h.0 k.0,
              (
                (λ quote next.
                    Grows-Searched r.1.uniq_seen q.1.uniq_seen (candidates name dirs arg) k.0.grows
                      (h.1 quote next)),
                k.1,
              ),
            )

  module _
      (openable : (f : Bytes) (file : DiskFile) → disk.open_file f ≡ some file → IsIn f existing)
      (pch_closed : (f : Bytes) → disk.open_file (own_pch_of f) ≡ none)
      (pch_missing : (f : Bytes) → disk.stat (own_pch_of f) ≡ none) where
    remember-IsAfter :
        (name : Bytes) (file : DiskFile) (h : Sha256) (should_cache : Bool) (nested : List Bytes)
        (inc : OwnIncludesParser)
        → Sound inc
        → disk.open_file name ≡ some file
        → After inc.uniq_seen (remember name file.size h should_cache nested inc)
    unfolding remember
    remember-IsAfter name file h false nested inc s opened = stay-IsAfter disk existing dirs inc s
    remember-IsAfter name file h true nested inc s opened =
        info-IsAfter disk existing dirs name
          (record { file_size = some file.size; file_sha256 = h; nested_includes = nested }) inc s
          (inl (openable name file opened))
          λ f same.
            let closed : disk.open_file name ≡ none =
              subst (λ x. disk.open_file x ≡ none) (sym same) (pch_closed f) in
            ground arith

    all-FileSearched :
        (name : Bytes) (t : Seen) (file : DiskFile) (c : Contents) (args : List IncludedArg)
        → disk.open_file name ≡ some file
        → file.contents ≡ some c
        → statements_of c ≡ some args
        → AllSearched dirs name t args
        → FileSearched disk dirs t name
    all-FileSearched name t file c args o r a h file' c' args' o' r' a' =
        let same_file : file ≡ file' = some-injective file file' (sym o ∙ o') in
        let same : c ≡ c' =
          some-injective c c' (sym r ∙ (ap (λ (x : DiskFile). x.contents) same_file ∙ r')) in
        let same_args : args ≡ args' =
          some-injective args args' (sym a ∙ (ap statements_of same ∙ a')) in
        subst (AllSearched dirs name t) same_args h

    pub process_h_file-Holds :
        (n : ℕ) (go : Include) (name : Bytes) (i : ℕ) (file : DiskFile) (should_cache : Bool)
        (inc : OwnIncludesParser)
        → Works n go
        → Sound inc
        → unseen existing inc.uniq_seen < n
        → disk.open_file name ≡ some file
        → Holds
            (λ (r : OwnIncludesParser).
              After inc.uniq_seen r × FileSearched disk dirs r.uniq_seen name)
            (process_h_file go name i file should_cache inc)
    unfolding process_h_file
    process_h_file-Holds n go name i file should_cache inc works s l opened =
        elim (Option-cases file.contents) [
          | inl e ↦
              rw (e, process_h_file)
                (err-IsAfter disk existing dirs inc s, λ file' c args o r a. ground arith)
          | inr (c, e) ↦ elim (Option-cases (statements_of c)) [
            | inl d ↦ rw (e, process_h_file, d) tt
            | inr (args, d) ↦
                let hashed = set_sha256-IsAfter disk existing dirs i c.sha256 inc s in
                let start = set_sha256 i c.sha256 inc in
                let grown = unseen-Grows existing inc.uniq_seen start.uniq_seen hashed.grows in
                rw (e, process_h_file, d)
                  (then-Holds
                    (λ (r : List Bytes × OwnIncludesParser).
                      After start.uniq_seen r.1 × AllSearched dirs name r.1.uniq_seen args)
                    _ (include_all go name args start) _
                    (include_all-Holds n go name args start works hashed.sound
                      (omega (arith, l, grown)))
                    λ r h.
                      let kept =
                        remember-IsAfter name file c.sha256 should_cache r.0 r.1 h.0.sound opened in
                      let last = remember name file.size c.sha256 should_cache r.0 r.1 in
                      (
                        trans-IsAfter disk existing dirs inc.uniq_seen start last hashed
                            (trans-IsAfter disk existing dirs start.uniq_seen r.1 last h.0 kept),
                        all-FileSearched name last.uniq_seen file c args opened e d (
                            Grows-AllSearched dirs name r.1.uniq_seen last.uniq_seen args kept.grows
                              h.1),
                      ))
          ]
        ]
