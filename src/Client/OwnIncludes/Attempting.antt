-- ===== src/Client/OwnIncludes/Attempting.antt =====
-- internal/client/own-includes-parser.go: an attempt at a path keeps the state sound.
use nocc.Client.OwnIncludes.Nested.{
  Sound, After, Works, Attempted, include_all-Holds, process_h_file-Holds,
}
use nocc.Client.IncludeDirs.{IncludeDirs}
use nocc.Client.IncludedFile.{IncludedFile}
use nocc.Client.IncludesCache.{
  CachedHFile, IncludesCache, own_pch_of, own_pch_info, add_h_file_info, get_h_file_info,
  locate_own_pch_file, zero_sha256,
}
use nocc.Client.OwnIncludes.Outcome.{Holds, then-Holds, weaken-Holds}
use nocc.Client.OwnIncludes.Paths.{should_cache_h_file}
use nocc.Client.OwnIncludes.Keeping.{FileSearched, stay-IsAfter}
use nocc.Client.OwnIncludes.Seen.{Grows-put, unseen, unseen_less}
use nocc.Client.OwnIncludes.Steps.{add_h_file-IsSound, missing-IsAfter, info-IsAfter}
use nocc.Client.OwnIncludes.Searching.{pch_or_h_file, attempt}
use nocc.Client.OwnIncludes.{
  DiskFile, Disk, OwnIncludesParser, Include, add_h_file, missing, include_all, nested_args,
  process_h_file, found_at, open_h_file, use_cached, visit_h_file,
}
use nocc.Common.Sha256.{Sha256}
use nocc.Prelude.Dict.{get, get-put_split, get-put_self}
use nocc.Prelude.{
  ℕ, suc, ◌<◌, Bool, true, false, Option, none, some, List, [], Bytes, IsIn, ◌≡◌, ◌⊎◌, inl, inr,
  refl, sym, subst, ◌∙◌, ap, arith, bytes_comparable, length, Option-cases, Bool-cases,
}

module _ (disk : Disk) (existing : List Bytes) (dirs : IncludeDirs) where
  module _
      (openable : (f : Bytes) (file : DiskFile) → disk.open_file f ≡ some file → IsIn f existing)
      (pch_closed : (f : Bytes) → disk.open_file (own_pch_of f) ≡ none)
      (pch_missing : (f : Bytes) → disk.stat (own_pch_of f) ≡ none) where
    -- A new dependency, with what follows it.
    added-Attempted :
        (name : Bytes) (h : IncludedFile) (inc last : OwnIncludesParser)
        → Sound disk existing dirs inc
        → get name inc.uniq_seen ≡ none
        → After disk existing dirs (add_h_file name h inc).uniq_seen last
        → (should_cache_h_file dirs name ≡ false → FileSearched disk dirs last.uniq_seen name)
        → Attempted disk existing dirs name inc.uniq_seen
            (found_at (some (length inc.h_files)) last)
    added-Attempted name h inc last s new after own =
        let i = length inc.h_files in
        let there = get-put_self name (some i) inc.uniq_seen in
        (
          record {
            sound = after.sound;
            grows = λ k v e. after.grows k v (Grows-put name (some i) inc.uniq_seen new k v e);
            searched = λ f j unknown seen plain.
                elim (Option-cases (get f (add_h_file name h inc).uniq_seen)) [
                  | inl none_yet ↦ after.searched f j none_yet seen plain
                  | inr (v, e) ↦ elim (get-put_split name f (some i) inc.uniq_seen (some v) e) [
                    | inl (here, _) ↦
                        subst (FileSearched disk dirs last.uniq_seen) here
                          (own (subst (λ x. should_cache_h_file dirs x ≡ false) (sym here) plain))
                    | inr (_, old) ↦ ground arith
                  ]
                ];
          },
          inl (refl, (i, after.grows name (some i) there)),
        )

    open_h_file-Holds :
        (n : ℕ) (go : Include) (name : Bytes) (should_cache : Bool) (inc : OwnIncludesParser)
        → Works disk existing dirs n go
        → Sound disk existing dirs inc
        → unseen existing inc.uniq_seen < suc n
        → get name inc.uniq_seen ≡ none
        → Holds
            (Attempted disk existing dirs name inc.uniq_seen)
            (open_h_file go disk name should_cache inc)
    unfolding open_h_file missing
    open_h_file-Holds n go name should_cache inc works s l new =
        elim (Option-cases (disk.open_file name)) [
          | inl e ↦
              rw (e, open_h_file)
                (
                  missing-IsAfter disk existing dirs name inc s new e,
                  inr (refl, get-put_self name none inc.uniq_seen),
                )
          | inr (file, e) ↦
              let i = length inc.h_files in
              let h : IncludedFile = record {
                file_name = name;
                file_size = some file.size;
                file_sha256 = zero_sha256;
              } in
              let start = add_h_file name h inc in
              let less =
                unseen_less name (some i) existing inc.uniq_seen start.uniq_seen
                  (Grows-put name (some i) inc.uniq_seen new) (openable name file e) new
                  (get-put_self name (some i) inc.uniq_seen) in
              rw (e, open_h_file)
                (then-Holds
                  (λ (r : OwnIncludesParser).
                    After disk existing dirs start.uniq_seen r
                    × FileSearched disk dirs r.uniq_seen name)
                  _ (process_h_file go name i file should_cache start) _
                  (process_h_file-Holds disk existing dirs openable pch_closed pch_missing n go name
                    i file should_cache start works
                    (add_h_file-IsSound disk existing dirs name h inc s new refl)
                    (omega (arith, l, less)) e)
                  λ r k. added-Attempted name h inc r s new k.0 (λ _. k.1))
        ]

    use_cached-Holds :
        (n : ℕ) (go : Include) (name : Bytes) (c : CachedHFile) (inc : OwnIncludesParser)
        → Works disk existing dirs n go
        → Sound disk existing dirs inc
        → unseen existing inc.uniq_seen < suc n
        → get name inc.uniq_seen ≡ none
        → IsIn name existing ⊎ (c.nested_includes ≡ [])
        → should_cache_h_file dirs name ≡ true
        → Holds (Attempted disk existing dirs name inc.uniq_seen) (use_cached go name c inc)
    unfolding use_cached include_all
    use_cached-Holds n go name c inc works s l new there cached =
        let i = length inc.h_files in
        let h : IncludedFile = record {
          file_name = name;
          file_size = c.file_size;
          file_sha256 = c.file_sha256;
        } in
        let start = add_h_file name h inc in
        let sound = add_h_file-IsSound disk existing dirs name h inc s new refl in
        then-Holds
          (λ (r : List Bytes × OwnIncludesParser). After disk existing dirs start.uniq_seen r.1) _
          (include_all go name (nested_args c.nested_includes) start) _
          (elim there [
            | inl k ↦
                let less =
                  unseen_less name (some i) existing inc.uniq_seen start.uniq_seen
                    (Grows-put name (some i) inc.uniq_seen new) k new
                    (get-put_self name (some i) inc.uniq_seen) in
                weaken-Holds _
                  (λ (r : List Bytes × OwnIncludesParser).
                    After disk existing dirs start.uniq_seen r.1)
                  (include_all go name (nested_args c.nested_includes) start) (λ r q. q.0)
                  (include_all-Holds disk existing dirs n go name (nested_args c.nested_includes)
                    start works sound (omega (arith, l, less)))
            | inr e ↦
                subst
                  (λ ns.
                    Holds
                      (λ (r : List Bytes × OwnIncludesParser).
                        After disk existing dirs start.uniq_seen r.1)
                      (include_all go name (nested_args ns) start))
                  (sym e) (stay-IsAfter disk existing dirs start sound)
          ])
          λ r k. added-Attempted name h inc r.1 s new k (λ plain. ground arith)

    visit_h_file-Holds :
        (n : ℕ) (go : Include) (name : Bytes) (inc : OwnIncludesParser)
        → Works disk existing dirs n go
        → Sound disk existing dirs inc
        → unseen existing inc.uniq_seen < suc n
        → get name inc.uniq_seen ≡ none
        → Holds (Attempted disk existing dirs name inc.uniq_seen) (visit_h_file go disk name inc)
    unfolding visit_h_file get_h_file_info
    visit_h_file-Holds n go name inc works s l new =
        let same = ap (λ d. should_cache_h_file d name) s.same_dirs in
        elim (Bool-cases (should_cache_h_file inc.include_dirs name)) [
          | inr plain ↦
              rw (plain, visit_h_file) (open_h_file-Holds n go name false inc works s l new)
          | inl cached ↦ elim (Option-cases (get name inc.includes_cache.h_files_info)) [
            | inl e ↦
                rw (cached, visit_h_file, e) (open_h_file-Holds n go name true inc works s l new)
            | inr (c, e) ↦
                rw (cached, visit_h_file, e)
                  (use_cached-Holds n go name c inc works s l new (s.known name c e)
                    (sym same ∙ cached))
          ]
        ]

    -- No precompiled header is found, and that is remembered.
    no_pch_file :
        (name : Bytes) (hash : Option Sha256) (inc : OwnIncludesParser)
        → Sound disk existing dirs inc
        → (cache : IncludesCache) × (locate_own_pch_file name none hash inc.includes_cache
            ≡ (none, cache))
          × After disk existing dirs inc.uniq_seen (record inc { includes_cache = cache })
    unfolding locate_own_pch_file get_h_file_info own_pch_info
    no_pch_file name hash inc s =
        let pch = own_pch_of name in
        let info : CachedHFile = record {
          file_size = none;
          file_sha256 = zero_sha256;
          nested_includes = [];
        } in
        elim (Option-cases (get pch inc.includes_cache.h_files_info)) [
          | inl e ↦
              rw (e, locate_own_pch_file)
                (
                  add_h_file_info pch info inc.includes_cache,
                  refl,
                  info-IsAfter disk existing dirs pch info inc s (inr refl) (λ f _. refl),
                )
          | inr (c, e) ↦
              rw (e, locate_own_pch_file, s.no_pch name c e)
                (inc.includes_cache, refl, stay-IsAfter disk existing dirs inc s)
        ]

    pch_or_h_file-Holds :
        (n : ℕ) (go : Include) (name : Bytes) (inc : OwnIncludesParser)
        → Works disk existing dirs n go
        → Sound disk existing dirs inc
        → unseen existing inc.uniq_seen < suc n
        → get name inc.uniq_seen ≡ none
        → Holds (Attempted disk existing dirs name inc.uniq_seen) (
            pch_or_h_file go disk name inc (
              locate_own_pch_file name
                (disk.stat (own_pch_of name))
                (disk.pch_hash (own_pch_of name))
                inc.includes_cache))
    unfolding pch_or_h_file
    pch_or_h_file-Holds n go name inc works s l new =
        let (cache, e, after) = no_pch_file name (disk.pch_hash (own_pch_of name)) inc s in
        rw (pch_missing name, e)
          (visit_h_file-Holds n go name (record inc { includes_cache = cache }) works after.sound l
            new)

    pub attempt-Holds :
        (n : ℕ) (go : Include) (try_pch : Bool) (name : Bytes) (inc : OwnIncludesParser)
        → Works disk existing dirs n go
        → Sound disk existing dirs inc
        → unseen existing inc.uniq_seen < suc n
        → Holds (Attempted disk existing dirs name inc.uniq_seen) (attempt go disk try_pch name inc)
    unfolding attempt
    attempt-Holds n go try_pch name inc works s l = elim (Option-cases (get name inc.uniq_seen)) [
      | inr (none, e) ↦ rw (e, attempt) (stay-IsAfter disk existing dirs inc s, inr (refl, e))
      | inr (some i, e) ↦
          rw (e, attempt) (stay-IsAfter disk existing dirs inc s, inl (refl, (i, e)))
      | inl e ↦ elim (Bool-cases try_pch) [
        | inl wanted ↦ rw (e, attempt, wanted) (pch_or_h_file-Holds n go name inc works s l e)
        | inr plain ↦ rw (e, attempt, plain) (visit_h_file-Holds n go name inc works s l e)
      ]
    ]
