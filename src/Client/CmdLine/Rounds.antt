-- ===== src/Client/CmdLine/Rounds.antt =====
-- One round of the loop of internal/client/invocation.go: what it keeps, and what it leaves of the line.
use nocc.Client.CmdLine.{parse_arg, parse_file, is_linked_file}
use nocc.Client.CmdOptions.Chain.{
  noted, note_coverage, is_profile_option, is_unsupported_option, is_one_of, is_dir_option, sysroot,
  xclang, set_deps, parse_flag, parse_other_option, set_dirs, parse_option, add_dir_i,
  add_dir_iquote, add_dir_isystem, add_file_i,
}
use nocc.Client.CmdOptions.{
  Parsed, ParseError, linking, Round, go_on, returns, panics, fail, add_arg, Taken, taken, missing,
  past_end, other, parse_arg_file, try_file, take_str, try_str,
}
use nocc.Client.DepFlags.{DepCmdFlags, set_cmd_flag_mf, set_cmd_flag_mt, set_cmd_flag_mq}
use nocc.Client.IncludeDirs.{IncludeDirs}
use nocc.Client.FileNames.{path_abs, is_source_file_name, is_header_file_name}
use nocc.Prelude.Text.{ascii, has_prefix}
use nocc.Prelude.{
  ℕ, suc, ◌≤◌, Bool, true, false, ◌||◌, List, [], ◌∷◌, Bytes, ◌≡◌, refl, arith, bytes_beq, nat_beq,
  length, either_branch, Bool-cases, inl, inr,
}

-- A round that goes on has `P` and leaves at most `n` arguments; one that returns has `Q`.
abbrev pub Has : (Parsed → Type 0) → (Parsed → Type 0) → ℕ → Round → Type 0
Has P Q n (go_on q left) = P q × (length left ≤ n)
Has P Q n (returns q) = Q q
Has P Q n panics = Unit

-- What an argument in front of `n` others leaves, if it is taken.
abbrev Leaves : ℕ → Taken → Type 0
Leaves n (taken v left) = length left ≤ n
Leaves n missing = Unit
Leaves n past_end = Unit
Leaves n other = Unit

parse_arg_file-Leaves :
    (key arg : Bytes) (rest : List Bytes) → Leaves (length rest) (parse_arg_file key arg rest)
unfolding parse_arg_file
parse_arg_file-Leaves key arg [] =
    either_branch (Leaves 0) (bytes_beq arg key) _ _ tt
      (either_branch (Leaves 0) (has_prefix arg key) _ _ (omega arith) tt)
parse_arg_file-Leaves key arg (v ∷ []) =
    either_branch (Leaves 1) (bytes_beq arg key) _ _
      (either_branch (Leaves 1) (bytes_beq v (ascii "-Xclang")) past_end (taken v []) tt
        (omega arith))
      (either_branch (Leaves 1) (has_prefix arg key) _ _ (omega arith) tt)
parse_arg_file-Leaves key arg (v ∷ w ∷ rest) =
    let n = suc (suc (length rest)) in
    either_branch (Leaves n) (bytes_beq arg key) _ _
      (either_branch (Leaves n) (bytes_beq v (ascii "-Xclang")) (taken w rest) (taken v (w ∷ rest))
        (omega arith) (omega arith))
      (either_branch (Leaves n) (has_prefix arg key) _ _ (omega arith) tt)

Leaves-le : (m n : ℕ) (t : Taken) → m ≤ n → Leaves m t → Leaves n t
Leaves-le m n (taken v left) l h = omega (arith, l, h)
Leaves-le m n missing l h = tt
Leaves-le m n past_end l h = tt
Leaves-le m n other l h = tt

noted_fields :
    (both arcs no_arcs notes no_notes elsewhere : Bool) (arg : Bytes) (p q : Parsed)
    → noted both arcs no_arcs notes no_notes elsewhere arg p ≡ q
    → (q.cpp_in_file ≡ p.cpp_in_file) × (q.invoke_type ≡ p.invoke_type)
unfolding noted
noted_fields both arcs no_arcs notes no_notes elsewhere arg p q e =
    (ground (arith, e), ground (arith, e))

note_coverage_fields :
    (arg : Bytes) (p : Parsed)
    → ((note_coverage arg p).cpp_in_file ≡ p.cpp_in_file)
      × ((note_coverage arg p).invoke_type ≡ p.invoke_type)
unfolding note_coverage
note_coverage_fields arg p = noted_fields _ _ _ _ _ _ arg p _ refl

-- `keep`: `P` is about the input file and the type only.
module _ (P Q : Parsed → Type 0)
    (keep : (p q : Parsed)
      → q.cpp_in_file ≡ p.cpp_in_file
      → q.invoke_type ≡ p.invoke_type
      → P p
      → P q)
    (stop : (p : Parsed) (e : ParseError) → P p → Q (fail e p)) where
  -- What the rest of a chain does with at most `n` arguments.
  abbrev Next : ℕ → (Parsed → List Bytes → Round) → Type 0
  Next n next = (p : Parsed) (rest : List Bytes) → P p → length rest ≤ n → Has P Q n (next p rest)

  abbrev Keeps : (Bytes → Parsed → Parsed) → Type 0
  Keeps set = (v : Bytes) (p : Parsed) → P p → P (set v p)

  taken-Has :
      (n : ℕ) (set : Bytes → Parsed → Parsed) (next : Parsed → List Bytes → Round) (p : Parsed)
      (rest : List Bytes) (t : Taken)
      → Keeps set
      → Next n next
      → P p
      → length rest ≤ n
      → Leaves n t
      → Has P Q n (elim t [
        | taken v left ↦ go_on (set v p) left
        | missing ↦ next (fail ParseError.no_argument p) rest
        | past_end ↦ panics
        | other ↦ next p rest
      ])
  taken-Has n set next p rest (taken v left) k nx h l t = (k v p h, t)
  taken-Has n set next p rest missing k nx h l t =
      nx (fail ParseError.no_argument p) rest (keep p (fail ParseError.no_argument p) refl refl h) l
  taken-Has n set next p rest past_end k nx h l t = tt
  taken-Has n set next p rest other k nx h l t = nx p rest h l

  try_file-Next :
      (n : ℕ) (key arg : Bytes) (set : Bytes → Parsed → Parsed) (next : Parsed → List Bytes → Round)
      → Keeps set
      → Next n next
      → Next n (try_file key set arg next)
  unfolding try_file
  try_file-Next n key arg set next k nx p rest h l =
      taken-Has n set next p rest (parse_arg_file key arg rest) k nx h l (
        Leaves-le (length rest) n (parse_arg_file key arg rest) l
          (parse_arg_file-Leaves key arg rest))

  take_str-Next :
      (n : ℕ) (set : Bytes → Parsed → Parsed) (next : Parsed → List Bytes → Round)
      → Keeps set
      → Next n next
      → Next n (take_str set next)
  take_str-Next n set next k nx p [] h l =
      nx (fail ParseError.no_argument p) [] (keep p (fail ParseError.no_argument p) refl refl h) l
  take_str-Next n set next k nx p (v ∷ rest) h l =
      either_branch (Has P Q n) (bytes_beq v []) (next p rest) (go_on (set v p) rest)
        (nx p rest h (omega (arith, l))) (k v p h, omega (arith, l))

  try_str-Next :
      (n : ℕ) (key arg : Bytes) (set : Bytes → Parsed → Parsed) (next : Parsed → List Bytes → Round)
      → Keeps set
      → Next n next
      → Next n (try_str key set arg next)
  unfolding try_str
  try_str-Next n key arg set next k nx p rest h l =
      either_branch (Has P Q n) (bytes_beq arg key) (take_str set next p rest) (next p rest)
        (take_str-Next n set next k nx p rest h l) (nx p rest h l)

  sysroot-Has : (n : ℕ) (is_local : Bool) (arg : Bytes) → Next n (sysroot is_local arg)
  sysroot-Has n false arg p rest h l = stop p ParseError.unsupported_option h
  sysroot-Has n true arg p [] h l = tt
  sysroot-Has n true arg p (dir ∷ rest) h l =
      (keep p (add_arg dir (add_arg arg p)) refl refl h, omega (arith, l))

  xclang-Has : (n : ℕ) → Next n xclang
  xclang-Has n p [] h l = (keep p (add_arg (ascii "-Xclang") p) refl refl h, l)
  xclang-Has n p (x ∷ rest) h l =
      either_branch (Has P Q n) (is_dir_option x) (go_on p (x ∷ rest))
        (go_on (add_arg x (add_arg (ascii "-Xclang") p)) rest) (h, l)
        (keep p (add_arg x (add_arg (ascii "-Xclang") p)) refl refl h, omega (arith, l))

  parse_flag-Next : (n : ℕ) (arg : Bytes) → Next n (parse_flag arg)
  unfolding parse_flag
  parse_flag-Next n arg p rest h l =
      let H = Has P Q n in
      either_branch H (bytes_beq arg (ascii "-MD")) _ _ (keep p _ refl refl h, l)
        (either_branch H (bytes_beq arg (ascii "-MMD")) _ _ (keep p _ refl refl h, l)
          (either_branch H (bytes_beq arg (ascii "-MP")) _ _ (keep p _ refl refl h, l)
            (either_branch H (is_one_of (ascii "-M" ∷ ascii "-MM" ∷ ascii "-MG" ∷ []) arg) _ _
              (stop p ParseError.unsupported_option h)
              (either_branch H (bytes_beq arg (ascii "-Xclang")) _ _ (xclang-Has n p rest h l)
                (keep p (add_arg arg p) refl refl h, l)))))

  set_deps-Keeps : (f : Bytes → DepCmdFlags → DepCmdFlags) → Keeps (λ v. set_deps (f v))
  set_deps-Keeps f v p h = keep p (set_deps (f v) p) refl refl h

  set_dirs-Keeps : (f : Bytes → IncludeDirs → IncludeDirs) → Keeps (λ v. set_dirs (f v))
  set_dirs-Keeps f v p h = keep p (set_dirs (f v) p) refl refl h

  parse_other_option-Next :
      (n : ℕ) (cwd : Bytes) (is_local : Bool) (arg : Bytes)
      → Next n (parse_other_option cwd is_local arg)
  unfolding parse_other_option
  parse_other_option-Next n cwd is_local arg p rest h l =
      let H = Has P Q n in
      either_branch H (bytes_beq arg (ascii "-march=native")) _ _ (stop p ParseError.march_native h)
        (either_branch H (is_unsupported_option arg) _ _ (stop p ParseError.unsupported_option h) (
          either_branch H (bytes_beq arg (ascii "-isysroot")) _ _
            (sysroot-Has n is_local arg p rest h l)
            (either_branch H (bytes_beq arg (ascii "-Xarch_arm64")) _ _ (h, l)
              (try_str-Next n (ascii "-MF") arg _ _
                (set_deps-Keeps (λ v. set_cmd_flag_mf (path_abs cwd v)))
                (try_str-Next n (ascii "-MT") arg _ _ (set_deps-Keeps (λ v. set_cmd_flag_mt v)) (
                  try_str-Next n (ascii "-MQ") arg _ _ (set_deps-Keeps (λ v. set_cmd_flag_mq v))
                    (parse_flag-Next n arg)))
                p rest h l))))

  note_coverage-Keeps : Keeps note_coverage
  note_coverage-Keeps arg p h =
      let (same_input, same_type) = note_coverage_fields arg p in
      keep p (note_coverage arg p) same_input same_type h

  parse_option-Next :
      (n : ℕ) (cwd : Bytes) (is_local : Bool) (arg : Bytes) → Next n (parse_option cwd is_local arg)
  unfolding parse_option
  parse_option-Next n cwd is_local arg p rest h l =
      either_branch (Has P Q n) (is_profile_option arg) _ _ (stop p ParseError.unsupported_option h)
        (try_file-Next n (ascii "-o") arg _ _
          (λ v q k. keep q (record q { obj_out_file = v }) refl refl k)
          (try_file-Next n (ascii "-I") arg _ _ (set_dirs-Keeps (λ v. add_dir_i (path_abs cwd v))) (
            try_file-Next n (ascii "-iquote") arg _ _
              (set_dirs-Keeps (λ v. add_dir_iquote (path_abs cwd v)))
              (try_file-Next n (ascii "-isystem") arg _ _
                (set_dirs-Keeps (λ v. add_dir_isystem (path_abs cwd v)))
                (try_file-Next n (ascii "-include") arg _ _
                  (set_dirs-Keeps (λ v. add_file_i (path_abs cwd v)))
                  (parse_other_option-Next n cwd is_local arg)))))
          (note_coverage arg p) rest (note_coverage-Keeps arg p h) l)

  module _
      (input : (p : Parsed) (arg : Bytes)
        → (is_source_file_name arg || is_header_file_name arg) ≡ true
        → P p
        → P (record p { cpp_in_file = arg }))
      (link : (p : Parsed) → P p → Q (record p { invoke_type = linking })) where
    parse_file-Next : (n : ℕ) (arg : Bytes) → Next n (parse_file arg)
    unfolding parse_file
    parse_file-Next n arg p rest h l =
        elim (Bool-cases (is_source_file_name arg || is_header_file_name arg)) [
          | inl named ↦ rw named (
              either_branch (Has P Q n) (bytes_beq p.cpp_in_file []) _ _ (input p arg named h, l)
                (stop p ParseError.multiple_inputs h))
          | inr plain ↦ rw plain (
              either_branch (Has P Q n) (is_linked_file arg) _ _ (link p h)
                (keep p (add_arg arg p) refl refl h, l))
        ]

    pub parse_arg-Has :
        (cwd : Bytes) (is_local : Bool) (arg : Bytes) (p : Parsed) (rest : List Bytes)
        → P p
        → Has P Q (length rest) (parse_arg cwd is_local arg p rest)
    unfolding parse_arg
    parse_arg-Has cwd is_local [] p rest h = (h, omega arith)
    parse_arg-Has cwd is_local (c ∷ s) p rest h =
        either_branch (Has P Q (length rest)) (nat_beq c b'-') _ _
          (parse_option-Next (length rest) cwd is_local (c ∷ s) p rest h (omega arith))
          (parse_file-Next (length rest) (c ∷ s) p rest h (omega arith))
