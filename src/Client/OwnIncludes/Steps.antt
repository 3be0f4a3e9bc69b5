-- ===== src/Client/OwnIncludes/Steps.antt =====
-- internal/client/own-includes-parser.go: the changes of the parser's state keep it sound.
use nocc.Client.IncludeDirs.{IncludeDirs}
use nocc.Client.IncludedFile.{IncludedFile}
use nocc.Client.IncludesCache.{CachedHFile, own_pch_of, add_h_file_info, add_include_resolve}
use nocc.Client.OwnIncludes.Keeping.{names, AreDistinct, IsSound, IsAfter, stay-IsAfter}
use nocc.Client.OwnIncludes.Seen.{Grows-put}
use nocc.Client.OwnIncludes.{Disk, OwnIncludesParser, add_h_file, missing, set_sha256}
use mathlib.Core.Option.{some-injective}
use nocc.Common.Sha256.{Sha256}
use nocc.Prelude.Dict.{get, get-put_split}
use nocc.Prelude.{
  ℕ, zero, suc, true, none, some, List, [], ◌∷◌, ◌++◌, Bytes, IsIn, ◌≡◌, ◌⊎◌, inl, inr, refl, sym,
  subst, ◌∙◌, ap, arith, bytes_comparable, length, get_elem?, set, Option-cases,
}

names-append :
    (fs : List IncludedFile) (f : IncludedFile)
    → names (fs ++ (f ∷ [])) ≡ names fs ++ (f.file_name ∷ [])
names-append [] f = refl
names-append (g ∷ fs) f = ap (λ ns. g.file_name ∷ ns) (names-append fs f)

names-set :
    (fs : List IncludedFile) (i : ℕ) (f : IncludedFile) (h : Sha256)
    → get_elem? fs i ≡ some f
    → names (set fs i (record f { file_sha256 = h })) ≡ names fs
names-set [] i f h e = refl
names-set (g ∷ fs) zero f h e =
    ap (λ (x : IncludedFile). x.file_name ∷ names fs) (sym (some-injective g f e))
names-set (g ∷ fs) (suc i) f h e = ap (λ ns. g.file_name ∷ ns) (names-set fs i f h e)

split-IsIn : (x y : Bytes) (xs : List Bytes) → IsIn x (xs ++ (y ∷ [])) → IsIn x xs ⊎ (y ≡ x)
split-IsIn x y [] (inl e) = inr e
split-IsIn x y [] (inr i) = absurd i
split-IsIn x y (z ∷ xs) (inl e) = inl (inl e)
split-IsIn x y (z ∷ xs) (inr i) = elim (split-IsIn x y xs i) [ inl j ↦ inl (inr j) | inr e ↦ inr e ]

last-IsIn : (x y : Bytes) (xs : List Bytes) → y ≡ x → IsIn x (xs ++ (y ∷ []))
last-IsIn x y [] e = inl e
last-IsIn x y (z ∷ xs) e = inr (last-IsIn x y xs e)

front-IsIn : (x y : Bytes) (xs : List Bytes) → IsIn x xs → IsIn x (xs ++ (y ∷ []))
front-IsIn x y [] i = absurd i
front-IsIn x y (z ∷ xs) (inl e) = inl e
front-IsIn x y (z ∷ xs) (inr i) = inr (front-IsIn x y xs i)

append-AreDistinct :
    (xs : List Bytes) (y : Bytes) → AreDistinct xs → (IsIn y xs → ⊥) → AreDistinct (xs ++ (y ∷ []))
append-AreDistinct [] y d new = ((λ i. i), tt)
append-AreDistinct (x ∷ xs) y (out, d) new = (
  (λ i. elim (split-IsIn x y xs i) [ inl j ↦ out j | inr e ↦ new (inl (sym e)) ]),
  append-AreDistinct xs y d (λ i. new (inr i)),
)

module _ (disk : Disk) (existing : List Bytes) (dirs : IncludeDirs) where
  pub add_h_file-IsSound :
      (name : Bytes) (h : IncludedFile) (inc : OwnIncludesParser)
      → IsSound disk existing dirs inc
      → get name inc.uniq_seen ≡ none
      → h.file_name ≡ name
      → IsSound disk existing dirs (add_h_file name h inc)
  add_h_file-IsSound name h inc s new same = record {
    same_dirs = s.same_dirs;
    known = s.known;
    no_pch = s.no_pch;
    truthful = λ f e.
        elim (get-put_split name f (some (length inc.h_files)) inc.uniq_seen (some none) e) [
          | inl (here, odd) ↦ ground arith
          | inr (there, old) ↦ s.truthful f old
        ];
    distinct = subst AreDistinct (sym (names-append inc.h_files h)) (
        append-AreDistinct (names inc.h_files) h.file_name s.distinct
          (λ i. s.apart name new (subst (λ x. IsIn x (names inc.h_files)) same i)));
    listed = λ f i e.
        subst (IsIn f) (sym (names-append inc.h_files h))
          (elim (get-put_split name f (some (length inc.h_files)) inc.uniq_seen (some (some i)) e) [
            | inl (here, _) ↦ last-IsIn f h.file_name (names inc.h_files) (same ∙ here)
            | inr (_, old) ↦ front-IsIn f h.file_name (names inc.h_files) (s.listed f i old)
          ]);
    apart = λ f unknown i.
        elim (get-put_split name f (some (length inc.h_files)) inc.uniq_seen none unknown) [
          | inl (here, odd) ↦ ground arith
          | inr (there, old) ↦
              elim (split-IsIn f h.file_name (names inc.h_files)
                (subst (IsIn f) (names-append inc.h_files h) i)) [
                  | inl j ↦ s.apart f old j
                  | inr e ↦ there (sym same ∙ e)
                ]
        ];
  }

  pub missing-IsAfter :
      (name : Bytes) (inc : OwnIncludesParser)
      → IsSound disk existing dirs inc
      → get name inc.uniq_seen ≡ none
      → disk.open_file name ≡ none
      → IsAfter disk existing dirs inc.uniq_seen (missing name inc)
  unfolding missing
  missing-IsAfter name inc s new closed = record {
    sound = record {
      same_dirs = s.same_dirs;
      known = s.known;
      no_pch = s.no_pch;
      truthful = λ f e. elim (get-put_split name f none inc.uniq_seen (some none) e) [
        | inl (here, _) ↦ subst (λ x. disk.open_file x ≡ none) here closed
        | inr (there, old) ↦ s.truthful f old
      ];
      distinct = s.distinct;
      listed = λ f i e. elim (get-put_split name f none inc.uniq_seen (some (some i)) e) [
        | inl (here, odd) ↦ ground arith
        | inr (there, old) ↦ s.listed f i old
      ];
      apart = λ f unknown i. elim (get-put_split name f none inc.uniq_seen none unknown) [
        | inl (here, odd) ↦ ground arith
        | inr (there, old) ↦ s.apart f old i
      ];
    };
    grows = Grows-put name none inc.uniq_seen new;
    searched = λ f i unknown seen plain.
        elim (get-put_split name f none inc.uniq_seen (some (some i)) seen) [
          | inl (here, odd) ↦ ground arith
          | inr (there, old) ↦ ground arith
        ];
  }

  pub set_sha256-IsAfter :
      (i : ℕ) (h : Sha256) (inc : OwnIncludesParser)
      → IsSound disk existing dirs inc
      → IsAfter disk existing dirs inc.uniq_seen (set_sha256 i h inc)
  unfolding set_sha256
  set_sha256-IsAfter i h inc s = elim (Option-cases (get_elem? inc.h_files i)) [
    | inl e ↦ rw (e, set_sha256) (stay-IsAfter disk existing dirs inc s)
    | inr (f, e) ↦
        let same = names-set inc.h_files i f h e in
        let inc' = record inc { h_files = set inc.h_files i (record f { file_sha256 = h }) } in
        rw (e, set_sha256)
          (stay-IsAfter disk existing dirs inc' (record {
            same_dirs = s.same_dirs;
            known = s.known;
            no_pch = s.no_pch;
            truthful = s.truthful;
            distinct = subst AreDistinct (sym same) s.distinct;
            listed = λ g j e. subst (IsIn g) (sym same) (s.listed g j e);
            apart = λ g new j. s.apart g new (subst (IsIn g) same j);
          }))
  ]

  -- A change of what is remembered of files.
  pub info-IsAfter :
      (name : Bytes) (c : CachedHFile) (inc : OwnIncludesParser)
      → IsSound disk existing dirs inc
      → IsIn name existing ⊎ (c.nested_includes ≡ [])
      → ((f : Bytes) → name ≡ own_pch_of f → c.file_size ≡ none)
      → IsAfter disk existing dirs inc.uniq_seen
          (record inc { includes_cache = add_h_file_info name c inc.includes_cache })
  unfolding add_h_file_info
  info-IsAfter name c inc s there sizeless =
      let inc' = record inc { includes_cache = add_h_file_info name c inc.includes_cache } in
      let info = inc.includes_cache.h_files_info in
      stay-IsAfter disk existing dirs inc' (record {
        same_dirs = s.same_dirs;
        known = λ f d e. elim (get-put_split name f c info (some d) e) [
          | inl (here, v) ↦
              let same : c ≡ d = some-injective c d v in
              elim there [
                | inl i ↦ inl (subst (λ x. IsIn x existing) here i)
                | inr n ↦ inr (subst (λ (x : CachedHFile). x.nested_includes ≡ []) same n)
              ]
          | inr (_, old) ↦ s.known f d old
        ];
        no_pch = λ f d e. elim (get-put_split name (own_pch_of f) c info (some d) e) [
          | inl (here, v) ↦
              subst (λ (x : CachedHFile). x.file_size ≡ none) (some-injective c d v)
                (sizeless f here)
          | inr (_, old) ↦ s.no_pch f d old
        ];
        truthful = s.truthful;
        distinct = s.distinct;
        listed = s.listed;
        apart = s.apart;
      })

  -- A change of how includes are resolved.
  pub resolve-IsAfter :
      (arg name : Bytes) (inc : OwnIncludesParser)
      → IsSound disk existing dirs inc
      → IsAfter disk existing dirs inc.uniq_seen
          (record inc { includes_cache = add_include_resolve arg name inc.includes_cache })
  unfolding add_include_resolve
  resolve-IsAfter arg name inc s =
      let inc' = record inc { includes_cache = add_include_resolve arg name inc.includes_cache } in
      stay-IsAfter disk existing dirs inc' (record {
        same_dirs = s.same_dirs;
        known = s.known;
        no_pch = s.no_pch;
        truthful = s.truthful;
        distinct = s.distinct;
        listed = s.listed;
        apart = s.apart;
      })

  pub err-IsAfter :
      (inc : OwnIncludesParser)
      → IsSound disk existing dirs inc
      → IsAfter disk existing dirs inc.uniq_seen (record inc { err = true })
  err-IsAfter inc s =
      stay-IsAfter disk existing dirs (record inc { err = true })
        (record {
          same_dirs = s.same_dirs;
          known = s.known;
          no_pch = s.no_pch;
          truthful = s.truthful;
          distinct = s.distinct;
          listed = s.listed;
          apart = s.apart;
        })
