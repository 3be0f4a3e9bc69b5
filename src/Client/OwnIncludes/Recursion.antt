-- ===== src/Client/OwnIncludes/Recursion.antt =====
-- internal/client/own-includes-parser.go: the recursion over the includes ends and keeps the state sound.
use nocc.Client.OwnIncludes.Nested.{Sound, After, Works, Included, Attempted}
use nocc.Client.OwnIncludes.Attempting.{attempt-Holds}
use nocc.Client.IncludeDirs.{IncludeDirs}
use nocc.Client.IncludeStatements.{IncludedArg}
use nocc.Client.IncludesCache.{own_pch_of, get_include_resolve}
use nocc.Client.OwnIncludes.Outcome.{Run, stuck, Holds, then-Holds, weaken-Holds}
use nocc.Client.OwnIncludes.Paths.{should_cache_h_file, candidates, behind_current_dir}
use nocc.Client.OwnIncludes.Keeping.{stay-IsAfter, trans-IsAfter}
use nocc.Client.OwnIncludes.Seen.{Seen, Searched, unseen, unseen-Grows}
use nocc.Client.OwnIncludes.Steps.{resolve-IsAfter}
use nocc.Client.OwnIncludes.Searching.{
  attempt, note_resolved, not_found, try_each, resolve_angle, resolve_included_arg, include_with,
  on_hash_include,
}
use nocc.Client.OwnIncludes.{DiskFile, Disk, OwnIncludesParser, Attempt}
use nocc.Prelude.Text.{ascii}
use nocc.Prelude.{
  ℕ, zero, suc, ◌<◌, Bool, true, false, Option, none, some, List, [], ◌∷◌, Bytes, IsIn, ◌≡◌, inl,
  inr, refl, sym, subst, arith, bytes_comparable, bytes_beq, Option-cases, Bool-cases,
  either_branch,
}

module _ (disk : Disk) (existing : List Bytes) (dirs : IncludeDirs) where
  module _
      (openable : (f : Bytes) (file : DiskFile) → disk.open_file f ≡ some file → IsIn f existing)
      (pch_closed : (f : Bytes) → disk.open_file (own_pch_of f) ≡ none)
      (pch_missing : (f : Bytes) → disk.stat (own_pch_of f) ≡ none) where
    note_resolved-IsAfter :
        (is_angle : Bool) (arg name : Bytes) (inc : OwnIncludesParser)
        → Sound disk existing dirs inc
        → After disk existing dirs inc.uniq_seen (note_resolved is_angle arg name inc)
    unfolding note_resolved
    note_resolved-IsAfter false arg name inc s = stay-IsAfter disk existing dirs inc s
    note_resolved-IsAfter true arg name inc s =
        either_branch (After disk existing dirs inc.uniq_seen)
          (should_cache_h_file inc.include_dirs name) _ inc
          (resolve-IsAfter disk existing dirs arg name inc s)
          (stay-IsAfter disk existing dirs inc s)

    not_found-IsAfter :
        (is_angle : Bool) (arg : Bytes) (inc : OwnIncludesParser)
        → Sound disk existing dirs inc
        → After disk existing dirs inc.uniq_seen (not_found is_angle arg inc)
    not_found-IsAfter false arg inc s = stay-IsAfter disk existing dirs inc s
    not_found-IsAfter true arg inc s = resolve-IsAfter disk existing dirs arg (ascii "NO") inc s

    -- Attempts that work where less than `m` of the existing files are left.
    abbrev EachWorks : ℕ → (Bytes → OwnIncludesParser → Run Attempt) → Type 0
    EachWorks m each =
        (name : Bytes) (inc : OwnIncludesParser)
        → Sound disk existing dirs inc
        → unseen existing inc.uniq_seen < m
        → Holds (Attempted disk existing dirs name inc.uniq_seen) (each name inc)

    abbrev Tried : List Bytes → Seen → Option ℕ × OwnIncludesParser → Type 0
    Tried cs s r = After disk existing dirs s r.1 × Searched r.1.uniq_seen cs

    try_each-Holds :
        (m : ℕ) (each : Bytes → OwnIncludesParser → Run Attempt) (is_angle : Bool) (arg : Bytes)
        (cs : List Bytes) (inc : OwnIncludesParser)
        → EachWorks m each
        → Sound disk existing dirs inc
        → unseen existing inc.uniq_seen < m
        → Holds (Tried cs inc.uniq_seen) (try_each each is_angle arg cs inc)
    unfolding try_each
    try_each-Holds m each is_angle arg [] inc works s l = (not_found-IsAfter is_angle arg inc s, tt)
    try_each-Holds m each is_angle arg (c ∷ cs) inc works s l =
        then-Holds (Attempted disk existing dirs c inc.uniq_seen) (Tried (c ∷ cs) inc.uniq_seen)
          (each c inc) _ (works c inc s l)
          λ a h. elim h.1 [
            | inl (found, (i, there)) ↦
                let noted = note_resolved-IsAfter is_angle arg c a.inc h.0.sound in
                let last = note_resolved is_angle arg c a.inc in
                rw found (
                  trans-IsAfter disk existing dirs inc.uniq_seen a.inc last h.0 noted,
                  inl (i, noted.grows c (some i) there),
                )
            | inr (lost, gone) ↦
                let grown = unseen-Grows existing inc.uniq_seen a.inc.uniq_seen h.0.grows in
                rw lost (
                  weaken-Holds (Tried cs a.inc.uniq_seen) (Tried (c ∷ cs) inc.uniq_seen)
                    (try_each each is_angle arg cs a.inc)
                    (λ r k. (
                      trans-IsAfter disk existing dirs inc.uniq_seen a.inc r.1 h.0 k.0,
                      inr (k.0.grows c none gone, k.1),
                    ))
                    (try_each-Holds m each is_angle arg cs a.inc works h.0.sound
                      (omega (arith, l, grown))))
          ]

    abbrev Resolved : Seen → Option ℕ × OwnIncludesParser → Type 0
    Resolved s r = After disk existing dirs s r.1

    resolve_angle-Holds :
        (m : ℕ) (each : Bytes → OwnIncludesParser → Run Attempt) (current : Bytes)
        (arg : IncludedArg) (inc : OwnIncludesParser)
        → EachWorks m each
        → Sound disk existing dirs inc
        → unseen existing inc.uniq_seen < m
        → Holds (Resolved inc.uniq_seen) (resolve_angle each current arg inc)
    unfolding resolve_angle
    resolve_angle-Holds m each current arg inc works s l =
        elim (Option-cases (get_include_resolve arg.inside_str inc.includes_cache)) [
          | inl e ↦
              let cs = candidates current inc.include_dirs arg in
              rw (e, resolve_angle)
                (weaken-Holds (Tried cs inc.uniq_seen) (Resolved inc.uniq_seen)
                  (try_each each true arg.inside_str cs inc) (λ r k. k.0)
                  (try_each-Holds m each true arg.inside_str cs inc works s l))
          | inr (name, e) ↦ elim (Bool-cases (bytes_beq name (ascii "NO"))) [
            | inl absent ↦ rw (e, resolve_angle, absent) (stay-IsAfter disk existing dirs inc s)
            | inr there ↦
                rw (e, resolve_angle, there)
                  (then-Holds (Attempted disk existing dirs name inc.uniq_seen)
                    (Resolved inc.uniq_seen) (each name inc) _ (works name inc s l) λ a h. h.0)
          ]
        ]

    resolve_included_arg-Holds :
        (m : ℕ) (each : Bytes → OwnIncludesParser → Run Attempt) (current : Bytes)
        (arg : IncludedArg) (inc : OwnIncludesParser)
        → EachWorks m each
        → Sound disk existing dirs inc
        → unseen existing inc.uniq_seen < m
        → Holds
            (Included disk existing dirs current arg inc.uniq_seen)
            (resolve_included_arg each current arg inc)
    unfolding resolve_included_arg
    resolve_included_arg-Holds m each current arg inc works s l =
        let cs = candidates current inc.include_dirs arg in
        let P = Included disk existing dirs current arg inc.uniq_seen in
        let res = resolve_included_arg each current arg inc in
        elim (Bool-cases arg.is_include_next) [
          | inl next ↦ elim (Option-cases (behind_current_dir current arg.inside_str cs)) [
            | inl e ↦
                let same : res ≡ stuck = rw (next, resolve_included_arg, e) refl in
                subst (Holds P) (sym same) tt
            | inr (later, e) ↦
                let go = try_each each false arg.inside_str later inc in
                let same : res ≡ go = rw (next, resolve_included_arg, e) refl in
                subst (Holds P) (sym same) (
                  weaken-Holds (Tried later inc.uniq_seen) P go
                    (λ r k. (k.0, λ quote plain. ground arith))
                    (try_each-Holds m each false arg.inside_str later inc works s l))
          ]
          | inr plain ↦ elim (Bool-cases arg.is_quote) [
            | inl quote ↦
                let go = try_each each false arg.inside_str cs inc in
                let same : res ≡ go = simp (plain, resolve_included_arg, quote) in
                subst (Holds P) (sym same) (
                  weaken-Holds (Tried cs inc.uniq_seen) P go
                    (λ r k. (
                      k.0,
                      λ _ _.
                          subst (λ d. Searched r.1.uniq_seen (candidates current d arg)) s.same_dirs
                            k.1,
                    ))
                    (try_each-Holds m each false arg.inside_str cs inc works s l))
            | inr angle ↦
                let go = resolve_angle each current arg inc in
                let same : res ≡ go = rw (plain, resolve_included_arg, angle) refl in
                subst (Holds P) (sym same) (
                  weaken-Holds (Resolved inc.uniq_seen) P go (λ r k. (k, λ quote _. ground arith))
                    (resolve_angle-Holds m each current arg inc works s l))
          ]
        ]

    pub on_hash_include-Works :
        (fuel : ℕ) → Works disk existing dirs fuel (on_hash_include fuel disk)
    unfolding on_hash_include include_with
    on_hash_include-Works zero current arg try_pch inc s l = omega (arith, l)
    on_hash_include-Works (suc fuel) current arg try_pch inc s l =
        elim (Bool-cases (bytes_beq arg.inside_str [])) [
          | inl empty ↦ rw (empty, on_hash_include, include_with) tt
          | inr some_text ↦
              rw (some_text, on_hash_include, include_with)
                (resolve_included_arg-Holds (suc fuel)
                  (attempt (on_hash_include fuel disk) disk try_pch) current arg inc
                  (λ name inc' s' l'.
                    attempt-Holds disk existing dirs openable pch_closed pch_missing fuel
                      (on_hash_include fuel disk) try_pch name inc' (on_hash_include-Works fuel) s'
                      l')
                  s l)
        ]
