-- ===== src/Client/DepFiles/Items.antt =====
-- The dependencies of a target, read back by internal/client/dep-files.go.
use mathlib.Core.List.{append_assoc, append-nil}
use nocc.Client.DepFiles.{
  ok, ◌>>=◌, escape_makefile_spaces, write_more_deps, write_deps, is_space, skip_dep_spaces,
  read_dep_item, parse_next_dep_item, parse_dep_items,
}
use nocc.Prelude.Text.{replace_byte}
use nocc.Prelude.{
  ℕ, zero, suc, ◌<◌, ◌≤◌, false, List, [], ◌∷◌, ◌++◌, Bytes, ◌≡◌, ◌≢◌, refl, ◌∙◌, ◌⊎◌, inl, inr,
  arith, nat_beq, length, length-append, if◌then◌else◌,
}

-- The three replacements at once.
abbrev pub escape_byte : ℕ → Bytes
escape_byte c =
    if nat_beq c b'\n'
    then b'\\' ∷ b'\n' ∷ []
    else if nat_beq c b' '
    then b'\\' ∷ b' ' ∷ []
    else if nat_beq c b':'
    then b'\\' ∷ b':' ∷ []
    else c ∷ []

unfoldable pub escape_each : Bytes → Bytes
escape_each [] = []
escape_each (c ∷ s) = escape_byte c ++ escape_each s

pub escape-escape_each : (s : Bytes) → escape_makefile_spaces s ≡ escape_each s
unfolding escape_makefile_spaces escape_each replace_byte
escape-escape_each [] = refl
escape-escape_each (c ∷ s) = ground (arith, escape-escape_each s)

abbrev pub Lacks : ℕ → Bytes → Type 0
Lacks b [] = Unit
Lacks b (c ∷ s) = (c ≢ b) × Lacks b s

-- A name that starts with a byte that is not escaped.
abbrev pub StartsPlain : Bytes → Type 0
StartsPlain [] = ⊥
StartsPlain (c ∷ s) = (c ≢ b'\n') × (c ≢ b' ') × (c ≢ b':')

abbrev pub NoBlankFirst : Bytes → Type 0
NoBlankFirst [] = Unit
NoBlankFirst (c ∷ s) = is_space c ≡ false

-- Where a dependency ends.
abbrev Ends : Bytes → Type 0
Ends [] = ⊥
Ends (c ∷ s) = (c ≡ b' ') ⊎ (c ≡ b'\n')

read_dep_item-escape_each :
    (name d rest : Bytes)
    → Lacks b'\\' d
    → read_dep_item name false (escape_each d ++ rest) ≡ read_dep_item (name ++ d) false rest
unfolding escape_each read_dep_item
read_dep_item-escape_each name [] rest h = rw append-nil
read_dep_item-escape_each name (c ∷ d) rest (h, hs) =
    ground
      (arith, read_dep_item-escape_each (name ++ (c ∷ [])) d rest, append_assoc name (c ∷ []) d)

skip_dep_spaces-escape_each :
    (d rest : Bytes)
    → Lacks b'\\' d
    → StartsPlain d
    → skip_dep_spaces false (escape_each d ++ rest) ≡ escape_each d ++ rest
unfolding escape_each skip_dep_spaces
skip_dep_spaces-escape_each [] rest l h = absurd h
skip_dep_spaces-escape_each (c ∷ d) rest l h = ground arith

read_dep_item-Ends :
    (name rest : Bytes) → Ends rest → read_dep_item name false rest ≡ ok (name, rest)
unfolding read_dep_item
read_dep_item-Ends name [] h = absurd h
read_dep_item-Ends name (c ∷ s) h = ground arith

-- What reads as this dependency, with what stands behind it.
next_dep_item :
    (d rest s : Bytes)
    → Lacks b'\\' d
    → StartsPlain d
    → Ends rest
    → skip_dep_spaces false s ≡ escape_each d ++ rest
    → parse_next_dep_item s ≡ ok (d, rest)
unfolding parse_next_dep_item
next_dep_item [] rest s l h e p = absurd h
next_dep_item (c ∷ d) rest s l h e p =
    let q = read_dep_item-escape_each [] (c ∷ d) rest l ∙ read_dep_item-Ends (c ∷ d) rest e in
    rw (p, parse_next_dep_item) (unfold escape_each in ground (arith, q))

abbrev pub AllPlain : List Bytes → Type 0
AllPlain [] = Unit
AllPlain (d ∷ ds) = (Lacks b'\\' d × StartsPlain d) × AllPlain ds

more_deps : List Bytes → Bytes → Bytes
more_deps ds rest = write_more_deps ds ++ (b'\n' ∷ rest)

more_deps-Ends : (ds : List Bytes) (rest : Bytes) → Ends (more_deps ds rest)
unfolding more_deps write_more_deps
more_deps-Ends [] rest = inr refl
more_deps-Ends (d ∷ ds) rest = inl refl

-- The first dependency stands behind a blank, the others behind a line break too.
next_dep_item_first :
    (d : Bytes) (ds : List Bytes) (rest : Bytes)
    → Lacks b'\\' d × StartsPlain d
    → parse_next_dep_item (b' ' ∷ (escape_makefile_spaces d ++ more_deps ds rest))
      ≡ ok (d, more_deps ds rest)
unfolding skip_dep_spaces
next_dep_item_first d ds rest h =
    next_dep_item d (more_deps ds rest) _ h.0 h.1 (more_deps-Ends ds rest)
      (rw escape-escape_each (skip_dep_spaces-escape_each d (more_deps ds rest) h.0 h.1))

next_dep_item_more :
    (d : Bytes) (ds : List Bytes) (rest : Bytes)
    → Lacks b'\\' d × StartsPlain d
    → parse_next_dep_item (more_deps (d ∷ ds) rest) ≡ ok (d, more_deps ds rest)
unfolding skip_dep_spaces write_more_deps
next_dep_item_more d ds rest h =
    next_dep_item d (more_deps ds rest) _ h.0 h.1 (more_deps-Ends ds rest) (
      unfold more_deps in
      rw (escape-escape_each, append_assoc)
        (skip_dep_spaces-escape_each d (more_deps ds rest) h.0 h.1))

parse_dep_items-more_deps :
    (fuel : ℕ) (ds items : List Bytes) (rest : Bytes)
    → AllPlain ds
    → length ds < fuel
    → parse_dep_items fuel items (more_deps ds rest) ≡ ok (items ++ ds, rest)
unfolding parse_dep_items
parse_dep_items-more_deps zero ds items rest h l = absurd (omega (arith, l))
parse_dep_items-more_deps (suc fuel) [] items rest h l =
    unfold more_deps write_more_deps parse_next_dep_item skip_dep_spaces in rw append-nil
parse_dep_items-more_deps (suc fuel) ([] ∷ ds) items rest h l = absurd h.0.1
parse_dep_items-more_deps (suc fuel) ((c ∷ d) ∷ ds) items rest h l =
    rw (next_dep_item_more (c ∷ d) ds rest h.0, ◌>>=◌)
      (parse_dep_items-more_deps fuel ds (items ++ ((c ∷ d) ∷ [])) rest h.1 (omega (arith, l))
        ∙ rw append_assoc)

-- The dependencies, read behind the name of the target.
pub parse_dep_items-write_deps :
    (fuel : ℕ) (ds : List Bytes) (rest : Bytes)
    → AllPlain ds
    → length ds < fuel
    → parse_dep_items fuel [] (write_deps ds ++ (b'\n' ∷ rest)) ≡ ok (ds, rest)
unfolding write_deps
parse_dep_items-write_deps fuel [] rest h l =
    unfold more_deps write_more_deps in parse_dep_items-more_deps fuel [] [] rest h l
parse_dep_items-write_deps zero (d ∷ ds) rest h l = absurd (omega (arith, l))
parse_dep_items-write_deps (suc fuel) ([] ∷ ds) rest h l = absurd h.0.1
parse_dep_items-write_deps (suc fuel) ((c ∷ d) ∷ ds) rest h l =
    let first = next_dep_item_first (c ∷ d) ds rest h.0 in
    let others = parse_dep_items-more_deps fuel ds ((c ∷ d) ∷ []) rest h.1 (omega (arith, l)) in
    unfold parse_dep_items more_deps in rw (append_assoc, first, ◌>>=◌) others

length-write_more_deps : (ds : List Bytes) → length ds ≤ length (write_more_deps ds)
unfolding write_more_deps
length-write_more_deps [] = omega arith
length-write_more_deps (d ∷ ds) = omega (
  arith,
  length-write_more_deps ds,
  length-append (escape_makefile_spaces d) (write_more_deps ds),
)

pub length-write_deps : (ds : List Bytes) → length ds ≤ length (write_deps ds)
unfolding write_deps
length-write_deps [] = omega arith
length-write_deps (d ∷ ds) = omega (
  arith,
  length-write_more_deps ds,
  length-append (escape_makefile_spaces d) (write_more_deps ds),
)
