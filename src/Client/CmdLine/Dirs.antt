-- ===== src/Client/CmdLine/Dirs.antt =====
-- That internal/client/invocation.go reads the include dirs as include-dirs.go writes them.
use mathlib.Core.List.{append-nil, append_assoc}
use nocc.Client.CmdLine.{parse_arg, parse_args}
use nocc.Client.CmdOptions.Chain.{
  parse_option, set_dirs, add_dir_i, add_dir_iquote, add_dir_isystem, add_file_i,
}
use nocc.Client.CmdOptions.{Parsed, go_on}
use nocc.Client.IncludeDirs.{IncludeDirs, with_option, as_cxx_args, merge_with, count_dirs}
use nocc.Prelude.Text.{ascii}
use nocc.Prelude.{
  ℕ, suc, ◌+◌, Bool, List, [], ◌∷◌, ◌++◌, Bytes, ◌≡◌, refl, ap, subst, ◌∙◌, sym, arith, length,
}

-- Absolute names.
abbrev pub AllAbs : List Bytes → Type 0
AllAbs [] = Unit
AllAbs ([] ∷ ds) = ⊥
AllAbs ((c ∷ s) ∷ ds) = (c ≡ b'/') × AllAbs ds

dir_i_round :
    (cwd : Bytes) (is_local : Bool) (p : Parsed) (s : Bytes) (rest : List Bytes)
    → parse_arg cwd is_local (ascii "-I") p ((b'/' ∷ s) ∷ rest)
      ≡ go_on (set_dirs (add_dir_i (b'/' ∷ s)) p) rest
unfolding parse_arg parse_option
dir_i_round cwd is_local p s rest = refl

dir_iquote_round :
    (cwd : Bytes) (is_local : Bool) (p : Parsed) (s : Bytes) (rest : List Bytes)
    → parse_arg cwd is_local (ascii "-iquote") p ((b'/' ∷ s) ∷ rest)
      ≡ go_on (set_dirs (add_dir_iquote (b'/' ∷ s)) p) rest
unfolding parse_arg parse_option
dir_iquote_round cwd is_local p s rest = refl

dir_isystem_round :
    (cwd : Bytes) (is_local : Bool) (p : Parsed) (s : Bytes) (rest : List Bytes)
    → parse_arg cwd is_local (ascii "-isystem") p ((b'/' ∷ s) ∷ rest)
      ≡ go_on (set_dirs (add_dir_isystem (b'/' ∷ s)) p) rest
unfolding parse_arg parse_option
dir_isystem_round cwd is_local p s rest = refl

file_i_round :
    (cwd : Bytes) (is_local : Bool) (p : Parsed) (s : Bytes) (rest : List Bytes)
    → parse_arg cwd is_local (ascii "-include") p ((b'/' ∷ s) ∷ rest)
      ≡ go_on (set_dirs (add_file_i (b'/' ∷ s)) p) rest
unfolding parse_arg parse_option
file_i_round cwd is_local p s rest = refl

abbrev Add : Type 0
Add = Bytes → IncludeDirs → IncludeDirs

add_all : Add → List Bytes → IncludeDirs → IncludeDirs
add_all add [] d = d
add_all add (v ∷ vs) d = add_all add vs (add v d)

module _ (cwd : Bytes) (is_local : Bool) (key : Bytes) (add : Add)
    (round : (p : Parsed) (s : Bytes) (rest : List Bytes)
      → parse_arg cwd is_local key p ((b'/' ∷ s) ∷ rest)
        ≡ go_on (set_dirs (add (b'/' ∷ s)) p) rest) where
  read_one :
      (fuel : ℕ) (p : Parsed) (s : Bytes) (rest : List Bytes)
      → parse_args (suc fuel) cwd is_local p (key ∷ (b'/' ∷ s) ∷ rest)
        ≡ parse_args fuel cwd is_local (set_dirs (add (b'/' ∷ s)) p) rest
  unfolding parse_args
  read_one fuel p s rest = rw (round p s rest, parse_args)

  -- One of the four loops of AsCxxArgs, read back.
  parse_args-with_option :
      (fuel : ℕ) (p : Parsed) (ds rest : List Bytes)
      → AllAbs ds
      → parse_args (length ds + fuel) cwd is_local p (with_option key ds ++ rest)
        ≡ parse_args fuel cwd is_local (set_dirs (add_all add ds) p) rest
  unfolding with_option add_all
  parse_args-with_option fuel p [] rest h = let e : 0 + fuel ≡ fuel = omega arith in rw e
  parse_args-with_option fuel p ([] ∷ ds) rest h = absurd h
  parse_args-with_option fuel p ((c ∷ s) ∷ ds) rest h =
      let e : suc (length ds) + fuel ≡ suc (length ds + fuel) = omega arith in
      let q = set_dirs (add (b'/' ∷ s)) p in
      subst
        (λ (b : ℕ).
          parse_args (length ((b ∷ s) ∷ ds) + fuel) cwd is_local p
            (with_option key ((b ∷ s) ∷ ds) ++ rest)
          ≡ parse_args fuel cwd is_local (set_dirs (add_all add ((b ∷ s) ∷ ds)) p) rest)
        (sym h.0)
        (rw e (
          read_one (length ds + fuel) p s (with_option key ds ++ rest)
          ∙ parse_args-with_option fuel q ds rest h.1))

add_all-dir_i :
    (ds : List Bytes) (d : IncludeDirs)
    → add_all add_dir_i ds d ≡ record d { dirs_i = d.dirs_i ++ ds }
unfolding add_all
add_all-dir_i [] d = ground (arith, append-nil d.dirs_i)
add_all-dir_i (v ∷ ds) d =
    add_all-dir_i ds (add_dir_i v d) ∙ ground (arith, append_assoc d.dirs_i (v ∷ []) ds)

add_all-dir_iquote :
    (ds : List Bytes) (d : IncludeDirs)
    → add_all add_dir_iquote ds d ≡ record d { dirs_iquote = d.dirs_iquote ++ ds }
unfolding add_all
add_all-dir_iquote [] d = ground (arith, append-nil d.dirs_iquote)
add_all-dir_iquote (v ∷ ds) d =
    add_all-dir_iquote ds (add_dir_iquote v d)
    ∙ ground (arith, append_assoc d.dirs_iquote (v ∷ []) ds)

add_all-dir_isystem :
    (ds : List Bytes) (d : IncludeDirs)
    → add_all add_dir_isystem ds d ≡ record d { dirs_isystem = d.dirs_isystem ++ ds }
unfolding add_all
add_all-dir_isystem [] d = ground (arith, append-nil d.dirs_isystem)
add_all-dir_isystem (v ∷ ds) d =
    add_all-dir_isystem ds (add_dir_isystem v d)
    ∙ ground (arith, append_assoc d.dirs_isystem (v ∷ []) ds)

add_all-file_i :
    (ds : List Bytes) (d : IncludeDirs)
    → add_all add_file_i ds d ≡ record d { files_i = d.files_i ++ ds }
unfolding add_all
add_all-file_i [] d = ground (arith, append-nil d.files_i)
add_all-file_i (v ∷ ds) d =
    add_all-file_i ds (add_file_i v d) ∙ ground (arith, append_assoc d.files_i (v ∷ []) ds)

add_each : IncludeDirs → IncludeDirs → IncludeDirs
unfolding add_all
add_each other d = add_all add_file_i other.files_i (
    add_all add_dir_isystem other.dirs_isystem
      (add_all add_dir_iquote other.dirs_iquote (add_all add_dir_i other.dirs_i d)))

add_each-merge_with : (other d : IncludeDirs) → add_each other d ≡ merge_with d other
unfolding add_each merge_with
add_each-merge_with other d = rw (
  add_all-dir_i other.dirs_i d,
  add_all-dir_iquote other.dirs_iquote _,
  add_all-dir_isystem other.dirs_isystem _,
  add_all-file_i other.files_i _,
)

pub record IsAbsDirs (d : IncludeDirs) : Type 0 where
  pub dirs_i : AllAbs d.dirs_i
  pub dirs_iquote : AllAbs d.dirs_iquote
  pub dirs_isystem : AllAbs d.dirs_isystem
  pub files_i : AllAbs d.files_i

-- Include dirs with absolute names, written as arguments, are read in as many rounds as they are, and
-- then stand behind those that were read before, each in its list and in the same order; the rest of the
-- command line is read as if they were not there.
pub parse_args-as_cxx_args :
    (fuel : ℕ) (cwd : Bytes) (is_local : Bool) (p : Parsed) (d : IncludeDirs) (rest : List Bytes)
    → IsAbsDirs d
    → parse_args (count_dirs d + fuel) cwd is_local p (as_cxx_args d ++ rest)
      ≡ parse_args fuel cwd is_local (set_dirs (λ e. merge_with e d) p) rest
unfolding as_cxx_args count_dirs
parse_args-as_cxx_args fuel cwd is_local p d rest h =
    let f3 = length d.files_i + fuel in
    let f2 = length d.dirs_isystem + f3 in
    let f1 = length d.dirs_iquote + f2 in
    let e : length d.dirs_i + length d.dirs_iquote + length d.dirs_isystem + length d.files_i + fuel
        ≡ length d.dirs_i + f1 =
      omega arith in
    rw (e, append_assoc, append_assoc, append_assoc)
      (parse_args-with_option cwd is_local (ascii "-I") add_dir_i (dir_i_round cwd is_local) f1 p
          d.dirs_i _ h.dirs_i
        ∙ parse_args-with_option cwd is_local (ascii "-iquote") add_dir_iquote
            (dir_iquote_round cwd is_local) f2 _ d.dirs_iquote _ h.dirs_iquote
        ∙ parse_args-with_option cwd is_local (ascii "-isystem") add_dir_isystem
            (dir_isystem_round cwd is_local) f3 _ d.dirs_isystem _ h.dirs_isystem
        ∙ parse_args-with_option cwd is_local (ascii "-include") add_file_i
            (file_i_round cwd is_local) fuel _ d.files_i rest h.files_i
        ∙ ap (λ (e : IncludeDirs). parse_args fuel cwd is_local (record p { cxx_i_dirs = e }) rest)
            (unfold add_each in add_each-merge_with d p.cxx_i_dirs))
