-- ===== src/Client/OwnIncludes/Tests.antt =====
-- Two headers that include each other, for internal/client/own-includes-parser.go.
use nocc.Client.IncludeDirs.{IncludeDirs}
use nocc.Client.IncludesCache.{IncludesCache, own_pch_of, zero_sha256}
use nocc.Client.IncludeStatements.{IncludedArg}
use nocc.Client.IncludedFile.{IncludedFile}
use nocc.Client.OwnIncludes.Collecting.{collect_dependent_includes_by_own_parser}
use nocc.Client.OwnIncludes.Dependencies.{collect-Ends}
use nocc.Client.OwnIncludes.Keeping.{names}
use nocc.Client.OwnIncludes.Outcome.{went, stuck, spent}
use nocc.Client.OwnIncludes.{Contents, DiskFile, Disk, OwnIncludesParser}
use nocc.Prelude.Dict.{get}
use nocc.Prelude.Text.{ascii}
use nocc.Prelude.{
  ℕ, true, false, Option, none, some, List, [], ◌∷◌, Bytes, IsIn, ◌≡◌, ◌≢◌, inl, inr, refl, arith,
  nat_beq, bytes_comparable, length, if◌then◌else◌, Bool-cases, ◌==◌, sym, ◌∙◌, bytes_beq_iff,
  either_branch,
}

abbrev contents : Bytes → Contents
contents text = record { sha256 = zero_sha256; buffer = text; beyond = [] }

abbrev file : Bytes → DiskFile
file text = record { size = length text; contents = some (contents text) }

abbrev a_hpp : Bytes
a_hpp = ascii "/p/a.hpp"

abbrev b_hpp : Bytes
b_hpp = ascii "/p/b.hpp"

abbrev last_from : ℕ → Bytes → ℕ
last_from x [] = x
last_from x (y ∷ s) = last_from y s

last_of_pch : (f : Bytes) (x : ℕ) → last_from x (own_pch_of f) ≡ b'h'
last_of_pch [] x = refl
last_of_pch (y ∷ f) x = last_of_pch f y

-- No path that ends in another byte than p exists.
abbrev open_at : Bytes → Option DiskFile
open_at f =
    if nat_beq (last_from 0 f) b'p'
    then if f == a_hpp
      then some (file (ascii "#include \"b.hpp\"\n"))
      else if f == b_hpp
      then some (file (ascii "#include \"a.hpp\"\n"))
      else none
    else none

abbrev disk : Disk
disk = record { open_file = open_at; stat = λ f. none; pch_hash = λ f. none }

abbrev existing : List Bytes
existing = a_hpp ∷ b_hpp ∷ []

none-some : {A : Type 0} (x : A) → none ≡ some x → ⊥
none-some x e = ground arith

openable : (f : Bytes) (x : DiskFile) → disk.open_file f ≡ some x → IsIn f existing
openable f x e = elim (Bool-cases (f == a_hpp)) [
  | inl a ↦ inl (sym ((bytes_beq_iff f a_hpp).0 a))
  | inr c ↦ elim (Bool-cases (f == b_hpp)) [
    | inl b ↦ inr (inl (sym ((bytes_beq_iff f b_hpp).0 b)))
    | inr d ↦
        let gone : disk.open_file f ≡ none =
          either_branch (λ o. o ≡ none) (nat_beq (last_from 0 f) b'p') _ none (rw (c, d) refl)
            refl in
        absurd (none-some x (sym gone ∙ e))
  ]
]

pch_closed : (f : Bytes) → disk.open_file (own_pch_of f) ≡ none
pch_closed f = rw (last_of_pch f 0) refl

abbrev cache : IncludesCache
cache = record {
  cxx_name = ascii "g++";
  cxx_def_i_dirs = record { dirs_i = []; dirs_iquote = []; dirs_isystem = []; files_i = [] };
  includes_resolve = [];
  h_files_info = [];
}

abbrev dirs : IncludeDirs
dirs = record { dirs_i = []; dirs_iquote = []; dirs_isystem = []; files_i = [] }

abbrev cpp : Contents
cpp = contents (ascii "#include \"a.hpp\"\n")

abbrev final : Option IncludedFile × OwnIncludesParser
unfolding collect_dependent_includes_by_own_parser
final =
    elim (collect_dependent_includes_by_own_parser 3 disk cache (ascii "/p/x.cpp") (some cpp)
      dirs) [
        | went r ↦ r
        | stuck ↦ (
          none,
          record {
            include_dirs = dirs;
            includes_cache = cache;
            err = false;
            uniq_seen = [];
            h_files = [];
          },
        )
        | spent ↦ (
          none,
          record {
            include_dirs = dirs;
            includes_cache = cache;
            err = false;
            uniq_seen = [];
            h_files = [];
          },
        )
      ]

both : names final.1.h_files ≡ a_hpp ∷ b_hpp ∷ []
unfolding final
both = refl

collect-Ends_example :
    collect_dependent_includes_by_own_parser 3 disk cache (ascii "/p/x.cpp") (some cpp) dirs ≢ spent
unfolding get
collect-Ends_example =
    collect-Ends disk existing dirs cache openable pch_closed (λ f. refl)
      (λ f c e. absurd (none-some c e)) (λ f c e. absurd (none-some c e)) 3 (ascii "/p/x.cpp")
      (some cpp) (omega arith)

abbrev include_b : IncludedArg
include_b = record { inside_str = ascii "b.hpp"; is_quote = true; is_include_next = false }
