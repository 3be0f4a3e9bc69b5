-- ===== src/Client/OwnIncludes/Searching.antt =====
-- internal/client/own-includes-parser.go: the attempts at the paths of an include.
use nocc.Client.OwnIncludes.{
  Disk, OwnIncludesParser, Attempt, Include, is_some, add_pch, visit_h_file,
}
use nocc.Client.IncludedFile.{IncludedFile}
use nocc.Client.IncludeStatements.{IncludedArg}
use nocc.Client.IncludesCache.{
  IncludesCache, get_include_resolve, add_include_resolve, locate_own_pch_file,
}
use nocc.Client.OwnIncludes.Paths.{should_cache_h_file, candidates, behind_current_dir}
use nocc.Client.OwnIncludes.Outcome.{Run, went, stuck, spent, ◌then◌}
use nocc.Prelude.Dict.{get}
use nocc.Prelude.Text.{ascii}
use nocc.Prelude.{
  ℕ, zero, suc, Bool, true, false, Option, none, some, List, [], ◌∷◌, ◌++◌, Bytes, bytes_beq,
  bytes_comparable, if◌then◌else◌,
}

unfoldable pub pch_or_h_file :
    Include → Disk → Bytes → OwnIncludesParser → Option IncludedFile × IncludesCache → Run Attempt
unfolding visit_h_file add_pch
pch_or_h_file go disk name inc (none, cache) =
    visit_h_file go disk name (record inc { includes_cache = cache })
pch_or_h_file go disk name inc (some pch, cache) = went (record {
  h_file = none;
  found = true;
  inc = add_pch name pch (record inc { includes_cache = cache });
})

-- `onEachResolveAttempt`
unfoldable pub attempt : Include → Disk → Bool → Bytes → OwnIncludesParser → Run Attempt
unfolding get pch_or_h_file visit_h_file locate_own_pch_file
attempt go disk try_pch_instead name inc = elim (get name inc.uniq_seen) [
  | some h ↦ went (record { h_file = h; found = is_some h; inc = inc })
  | none ↦ elim try_pch_instead [
    | false ↦ visit_h_file go disk name inc
    | true ↦
        let pch = name ++ ascii ".nocc-pch" in
        pch_or_h_file go disk name inc
          (locate_own_pch_file name (disk.stat pch) (disk.pch_hash pch) inc.includes_cache)
  ]
]

-- What the wrapper of a search for <arg> does with a file that is found.
unfoldable pub note_resolved : Bool → Bytes → Bytes → OwnIncludesParser → OwnIncludesParser
unfolding should_cache_h_file add_include_resolve
note_resolved false arg name inc = inc
note_resolved true arg name inc =
    if should_cache_h_file inc.include_dirs name
    then record inc { includes_cache = add_include_resolve arg name inc.includes_cache }
    else inc

abbrev pub not_found : Bool → Bytes → OwnIncludesParser → OwnIncludesParser
not_found false arg inc = inc
not_found true arg inc = record inc {
  includes_cache = add_include_resolve arg (ascii "NO") inc.includes_cache;
}

-- The loops of attempts, up to the first that finds a file.
unfoldable pub try_each :
    (Bytes → OwnIncludesParser → Run Attempt)
    → Bool
    → Bytes
    → List Bytes
    → OwnIncludesParser
    → Run (Option ℕ × OwnIncludesParser)
unfolding note_resolved add_include_resolve ◌then◌
try_each each is_angle arg [] inc = went (none, not_found is_angle arg inc)
try_each each is_angle arg (c ∷ cs) inc = each c inc then λ a. elim a.found [
  | true ↦ went (a.h_file, note_resolved is_angle arg c a.inc)
  | false ↦ try_each each is_angle arg cs a.inc
]

-- For <arg>: what is remembered, or the search.
unfoldable pub resolve_angle :
    (Bytes → OwnIncludesParser → Run Attempt)
    → Bytes
    → IncludedArg
    → OwnIncludesParser
    → Run (Option ℕ × OwnIncludesParser)
unfolding try_each candidates get_include_resolve ◌then◌
resolve_angle each current arg inc = elim (get_include_resolve arg.inside_str inc.includes_cache) [
  | none ↦ try_each each true arg.inside_str (candidates current inc.include_dirs arg) inc
  | some name ↦ elim (bytes_beq name (ascii "NO")) [
    | true ↦ went (none, inc)
    | false ↦ each name inc then λ a. went (a.h_file, a.inc)
  ]
]

unfoldable pub resolve_included_arg :
    (Bytes → OwnIncludesParser → Run Attempt)
    → Bytes
    → IncludedArg
    → OwnIncludesParser
    → Run (Option ℕ × OwnIncludesParser)
unfolding resolve_angle try_each candidates behind_current_dir
resolve_included_arg each current arg inc =
    let cs = candidates current inc.include_dirs arg in
    elim arg.is_include_next [
      | true ↦ elim (behind_current_dir current arg.inside_str cs) [
        | none ↦ stuck
        | some later ↦ try_each each false arg.inside_str later inc
      ]
      | false ↦ elim arg.is_quote [
        | true ↦ try_each each false arg.inside_str cs inc
        | false ↦ resolve_angle each current arg inc
      ]
    ]

-- An empty argument makes `insideStr[0]` panic.
unfoldable pub include_with : Include → Disk → Include
unfolding resolve_included_arg attempt
include_with go disk current arg try_pch_instead inc = elim (bytes_beq arg.inside_str []) [
  | true ↦ stuck
  | false ↦ resolve_included_arg (attempt go disk try_pch_instead) current arg inc
]

unfoldable pub on_hash_include : ℕ → Disk → Include
unfolding include_with
on_hash_include zero disk = λ current arg try_pch_instead inc. spent
on_hash_include (suc fuel) disk = include_with (on_hash_include fuel disk) disk
