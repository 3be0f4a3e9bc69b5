-- ===== src/Client/DepFiles/RoundTrip.antt =====
-- That internal/client/dep-files.go reads back what it has written.
use mathlib.Core.List.{append_assoc, append-nil}
use nocc.Client.DepFiles.{
  ok, ◌>>=◌, DepFileTarget, DepFile, escape_makefile_spaces, write_deps, write_target,
  write_more_targets, write_to_bytes, is_at_end, parse_skip_spaces, parse_target_name, parse_target,
  parse_targets, parse_dep_file_contents,
}
use nocc.Prelude.{
  ℕ, zero, suc, ◌<◌, ◌≤◌, false, List, [], ◌∷◌, ◌++◌, Bytes, ◌≡◌, refl, ◌∙◌, arith, length,
  length-append,
}
use nocc.Client.DepFiles.Items.{
  escape_each, escape-escape_each, parse_dep_items-write_deps, length-write_deps, Lacks, AllPlain,
  NoBlankFirst,
}

parse_target_name-escape_each :
    (name t rest : Bytes)
    → Lacks b'\\' t
    → Lacks b'\n' t
    → parse_target_name name false (escape_each t ++ (b':' ∷ rest))
      ≡ ok (escape_makefile_spaces (name ++ t), rest)
unfolding escape_each parse_target_name
parse_target_name-escape_each name [] rest h k = rw append-nil
parse_target_name-escape_each name (c ∷ t) rest h k = ground (
  arith,
  h.0,
  k.0,
  parse_target_name-escape_each (name ++ (c ∷ [])) t rest h.1 k.1,
  append_assoc name (c ∷ []) t,
)

-- A target whose name is escaped already, as the source demands it.
pub record IsWritable (t : DepFileTarget) : Type 0 where
  pub plain_name : Bytes
  pub escaped : t.target_name ≡ escape_makefile_spaces plain_name
  pub no_backslash : Lacks b'\\' plain_name
  pub no_newline : Lacks b'\n' plain_name
  pub no_blank_first : NoBlankFirst plain_name
  pub deps : AllPlain t.target_dep_list

parse_target_written :
    (name plain : Bytes) (ds : List Bytes) (rest : Bytes)
    → name ≡ escape_makefile_spaces plain
    → Lacks b'\\' plain
    → Lacks b'\n' plain
    → AllPlain ds
    → parse_target (name ++ (b':' ∷ (write_deps ds ++ (b'\n' ∷ rest))))
      ≡ ok (record { target_name = name; target_dep_list = ds }, rest)
unfolding parse_target
parse_target_written name plain ds rest e h k a =
    let behind = write_deps ds ++ (b'\n' ∷ rest) in
    let written = parse_target_name-escape_each [] plain behind h k in
    let read : parse_target_name [] false (name ++ (b':' ∷ behind)) ≡ ok (name, behind) =
      cc (written, escape-escape_each plain) in
    let deps =
      parse_dep_items-write_deps (suc (length behind)) ds rest a
        (omega (arith, length-write_deps ds, length-append (write_deps ds) (b'\n' ∷ rest))) in
    rw (read, ◌>>=◌, deps)

parse_target-write_target :
    (t : DepFileTarget) (rest : Bytes)
    → IsWritable t
    → parse_target (write_target t ++ rest) ≡ ok (t, rest)
unfolding write_target
parse_target-write_target t rest w =
    rw (append_assoc, append_assoc)
      (parse_target_written t.target_name w.plain_name t.target_dep_list rest w.escaped
        w.no_backslash w.no_newline w.deps)

parse_skip_spaces-escape_each :
    (plain rest : Bytes)
    → NoBlankFirst plain
    → parse_skip_spaces (escape_each plain ++ (b':' ∷ rest)) ≡ escape_each plain ++ (b':' ∷ rest)
unfolding parse_skip_spaces escape_each
parse_skip_spaces-escape_each [] rest h = refl
parse_skip_spaces-escape_each (c ∷ plain) rest h = ground (arith, h)

is_at_end-append : (name rest : Bytes) (c : ℕ) → is_at_end (name ++ (c ∷ rest)) ≡ false
is_at_end-append [] rest c = refl
is_at_end-append (d ∷ name) rest c = refl

parse_skip_spaces-write_target :
    (t : DepFileTarget) (rest : Bytes)
    → IsWritable t
    → parse_skip_spaces (write_target t ++ rest) ≡ write_target t ++ rest
unfolding write_target
parse_skip_spaces-write_target t rest w =
    let behind = write_deps t.target_dep_list ++ (b'\n' ∷ rest) in
    let skip = parse_skip_spaces-escape_each w.plain_name behind w.no_blank_first in
    rw (append_assoc, append_assoc) (cc (skip, w.escaped, escape-escape_each w.plain_name))

is_at_end-write_target :
    (t : DepFileTarget) (rest : Bytes) → is_at_end (write_target t ++ rest) ≡ false
unfolding write_target
is_at_end-write_target t rest = rw append_assoc (is_at_end-append t.target_name _ b':')

-- One round reads a target that stands next in the text.
parse_targets_round :
    (fuel : ℕ) (targets : DepFile) (t : DepFileTarget) (s rest : Bytes)
    → IsWritable t
    → parse_skip_spaces s ≡ write_target t ++ rest
    → parse_targets (suc fuel) targets s ≡ parse_targets fuel (targets ++ (t ∷ [])) rest
unfolding parse_targets
parse_targets_round fuel targets t s rest w e =
    rw (e, is_at_end-write_target t rest, parse_target-write_target t rest w, ◌>>=◌)

abbrev pub AllWritable : DepFile → Type 0
AllWritable [] = Unit
AllWritable (t ∷ ts) = IsWritable t × AllWritable ts

parse_targets-write_more_targets :
    (fuel : ℕ) (targets ts : DepFile)
    → AllWritable ts
    → length ts < fuel
    → parse_targets fuel targets (write_more_targets ts) ≡ ok (targets ++ ts)
unfolding write_more_targets
parse_targets-write_more_targets zero targets ts h l = absurd (omega (arith, l))
parse_targets-write_more_targets (suc fuel) targets [] h l =
    unfold parse_targets parse_skip_spaces in rw append-nil
parse_targets-write_more_targets (suc fuel) targets (t ∷ ts) h l =
    let at_target = parse_skip_spaces-write_target t (write_more_targets ts) h.0 in
    parse_targets_round fuel targets t (b'\n' ∷ (write_target t ++ write_more_targets ts))
      (write_more_targets ts) h.0 (unfold parse_skip_spaces in at_target)
    ∙ parse_targets-write_more_targets fuel (targets ++ (t ∷ [])) ts h.1 (omega (arith, l))
    ∙ rw append_assoc

length-write_more_targets : (ts : DepFile) → length ts ≤ length (write_more_targets ts)
unfolding write_more_targets
length-write_more_targets [] = omega arith
length-write_more_targets (t ∷ ts) =
    omega
      (arith, length-write_more_targets ts, length-append (write_target t) (write_more_targets ts))

length-written :
    (t : DepFileTarget) (ts : DepFile)
    → length ts < length (write_target t ++ write_more_targets ts)
unfolding write_target
length-written t ts =
    let behind = write_deps t.target_dep_list ++ b'\n' ∷ [] in
    omega (
      arith,
      length-write_more_targets ts,
      length-append (write_target t) (write_more_targets ts),
      length-append t.target_name (b':' ∷ behind),
    )

-- A .o.d file that is written reads back as it was, if each target's name is the escaped form of a name
-- without backslashes and newlines that does not start with white space, and no dependency is empty,
-- holds a backslash, or starts with a blank, a colon or a newline.
pub parse-write_to_bytes :
    (file : DepFile) → AllWritable file → parse_dep_file_contents (write_to_bytes file) ≡ ok file
unfolding parse_dep_file_contents write_to_bytes
parse-write_to_bytes [] h = unfold parse_targets parse_skip_spaces in refl
parse-write_to_bytes (t ∷ ts) h =
    let text = write_target t ++ write_more_targets ts in
    parse_targets_round (length text) [] t text (write_more_targets ts) h.0
      (parse_skip_spaces-write_target t (write_more_targets ts) h.0)
    ∙ parse_targets-write_more_targets (length text) (t ∷ []) ts h.1 (length-written t ts)
