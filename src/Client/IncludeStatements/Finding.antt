-- ===== src/Client/IncludeStatements/Finding.antt =====
-- What internal/client/own-includes-parser.go finds in a file of include statements and comments.
use mathlib.Core.List.{append-nil, append_assoc}
use nocc.Client.IncludeStatements.Places.{
  Lacks, IsFresh, drop-inside, index_from-behind, index_from-over, move_drop, moved-IsFresh,
  str_chr-at,
}
use nocc.Client.IncludeStatements.Stepping.{
  at, closing, opening, inside, loop-Goes, search-over, to_hash, over_include, over_blank,
  over_opening, over_byte, over_closing, over_comment,
}
use nocc.Client.IncludeStatements.{
  IncludedArg, outside, after_hash, after_include, index_from, str_chr, buffer_size, scan_to_hash,
  scan_outside, scan_in, scan_step, scan_loop, scan_start, collect_include_statements_in_file,
}
use nocc.Prelude.Text.{ascii}
use nocc.Prelude.{
  ℕ, zero, suc, ◌+◌, ◌-◌, ◌<◌, Bool, true, false, Option, none, some, List, [], ◌∷◌, ◌++◌, Bytes,
  ltb, length, drop, ◌≡◌, refl, sym, ◌∙◌, subst, ap, arith, Option-cases, inl, inr, length-append,
}

-- An include statement, with an argument in quotes or in angle brackets, or a line comment: behind a
-- text before it.
pub data Piece : Type 0 where
  statement : Bytes → Bool → Bytes → Piece
  comment : Bytes → Bytes → Piece

abbrev pub file_of : List Piece → Bytes
file_of [] = b'\n' ∷ []
file_of (statement gap is_quote arg ∷ ps) =
    gap ++ (ascii "#include " ++ (opening is_quote ∷ (arg ++ (closing is_quote ∷ file_of ps))))
file_of (comment gap text ∷ ps) = gap ++ (b'/' ∷ b'/' ∷ (text ++ (b'\n' ∷ file_of ps)))

abbrev pub args_of : List Piece → List IncludedArg
args_of [] = []
args_of (statement gap is_quote arg ∷ ps) =
    record { inside_str = arg; is_quote = is_quote; is_include_next = false } ∷ args_of ps
args_of (comment gap text ∷ ps) = args_of ps

-- The text before has no # and no slash, an argument is in one line and does not hold what ends it, and
-- a comment is in one line.
abbrev pub IsPlain : Piece → Type 0
IsPlain (statement gap is_quote arg) =
    Lacks b'#' gap × (Lacks b'/' gap × (Lacks b'\n' arg × Lacks (closing is_quote) arg))
IsPlain (comment gap text) = Lacks b'#' gap × (Lacks b'/' gap × Lacks b'\n' text)

abbrev pub ArePlain : List Piece → Type 0
ArePlain [] = Unit
ArePlain (p ∷ ps) = IsPlain p × ArePlain ps

no_hash-no_args :
    (i : ℕ) (ps : List Piece)
    → ArePlain ps
    → index_from b'#' i (file_of ps) ≡ none
    → args_of ps ≡ []
unfolding index_from
no_hash-no_args i [] h e = refl
no_hash-no_args i (statement gap is_quote arg ∷ ps) ((no_hash, h), hs) e =
    let found = sym (
      index_from-over b'#' i gap
        (ascii "#include " ++ (opening is_quote ∷ (arg ++ (closing is_quote ∷ file_of ps))))
        no_hash) in
    let wrong : some (i + length gap) ≡ none = found ∙ e in ground arith
no_hash-no_args i (comment gap text ∷ ps) (h, hs) e =
    let whole = b'/' ∷ b'/' ∷ (text ++ (b'\n' ∷ file_of ps)) in
    let (j, f) = index_from-behind b'#' i gap whole e in
    let (k, g) = index_from-behind b'#' j (b'/' ∷ b'/' ∷ text) (b'\n' ∷ file_of ps) f in
    let (l, n) = index_from-behind b'#' k (b'\n' ∷ []) (file_of ps) g in no_hash-no_args l ps hs n

module _ (visible rest : Bytes) where
  no_hash-ends :
      (fuel o : ℕ) (hash slash : Option ℕ) (start : ℕ) (is_next : Bool)
      (includes : List IncludedArg)
      → o < length visible
      → IsFresh visible rest b'#' o hash
      → str_chr (visible ++ rest) b'#' (length visible) o ≡ none
      → scan_loop
          (suc fuel)
          (visible ++ rest)
          (length visible)
          (at outside o hash slash start is_next includes)
        ≡ some includes
  unfolding scan_loop scan_step scan_in scan_outside scan_to_hash
  no_hash-ends fuel o hash slash start is_next includes i fresh nowhere =
      let less : ltb o (length visible) ≡ true = ground arith in rw (less, fresh, nowhere) refl

  over_argument :
      (w t : Bytes) (fuel p : ℕ) (is_quote : Bool) (hash slash : Option ℕ) (start : ℕ)
      (is_next : Bool) (includes : List IncludedArg)
      → drop p visible ≡ w ++ (closing is_quote ∷ t)
      → Lacks b'\n' w
      → Lacks (closing is_quote) w
      → scan_loop
          (length w + fuel)
          (visible ++ rest)
          (length visible)
          (at (inside is_quote) p hash slash start is_next includes)
        ≡ scan_loop fuel
            (visible ++ rest)
            (length visible)
            (at (inside is_quote) (p + length w) hash slash start is_next includes)
  over_argument [] t fuel p is_quote hash slash start is_next includes e l c =
      let run = λ (n q : ℕ).
        scan_loop n (visible ++ rest) (length visible)
          (at (inside is_quote) q hash slash start is_next includes) in
      ap (λ n. run n p) {x = 0 + fuel} {y = fuel} (omega arith)
      ∙ ap (run fuel) {x = p} {y = p + 0} (omega arith)
  over_argument (x ∷ w) t fuel p is_quote hash slash start is_next includes e (xl, l) (xc, c) =
      let run = λ (n q : ℕ).
        scan_loop n (visible ++ rest) (length visible)
          (at (inside is_quote) q hash slash start is_next includes) in
      let behind = w ++ (closing is_quote ∷ t) in
      ap (λ n. run n p) {x = suc (length w) + fuel} {y = suc (length w + fuel)} (omega arith)
      ∙ loop-Goes visible rest (length w + fuel)
          (at (inside is_quote) p hash slash start is_next includes)
          (at (inside is_quote) (p + 1) hash slash start is_next includes)
          (drop-inside p x visible behind e)
          (over_byte visible rest start is_next includes is_quote p x hash slash behind e xl xc)
      ∙ over_argument w t fuel (p + 1) is_quote hash slash start is_next includes
          (move_drop (x ∷ []) p visible behind e) l c
      ∙ ap (run fuel) {x = (p + 1) + length w} {y = p + suc (length w)} (omega arith)

  -- Along a whole statement.
  over_statement :
      (gap : Bytes) (is_quote : Bool) (arg t : Bytes) (fuel o : ℕ) (hash slash : Option ℕ)
      (start : ℕ) (is_next : Bool) (includes : List IncludedArg)
      → drop o visible
        ≡ gap ++ (ascii "#include " ++ (opening is_quote ∷ (arg ++ (closing is_quote ∷ t))))
      → IsPlain (statement gap is_quote arg)
      → IsFresh visible rest b'#' o hash
      → IsFresh visible rest b'/' o slash
      → scan_loop
          (suc (suc (suc (suc (length arg + suc fuel)))))
          (visible ++ rest)
          (length visible)
          (at outside o hash slash start is_next includes)
        ≡ scan_loop fuel (visible ++ rest) (length visible) (
            at outside
              (o + length gap + 1 + 7 + 1 + 1 + length arg + 1)
              (some (o + length gap))
              (str_chr (visible ++ rest) b'/' (length visible) o)
              (o + length gap + 1 + 7 + 1 + 1)
              false
              (includes
                ++ (record { inside_str = arg; is_quote = is_quote; is_include_next = false }
                    ∷ [])))
  over_statement gap is_quote arg t fuel o hash slash start is_next includes e
        (no_hash, (no_slash, (no_line, no_close))) hash_fresh slash_fresh =
      let found : IncludedArg = record {
        inside_str = arg;
        is_quote = is_quote;
        is_include_next = false;
      } in
      let quoted = opening is_quote ∷ (arg ++ (closing is_quote ∷ t)) in
      let h = o + length gap in
      let p = h + 1 in
      let q = p + 7 + 1 + 1 in
      let next = str_chr (visible ++ rest) b'/' (length visible) o in
      let at_hash = move_drop gap o visible (ascii "#include " ++ quoted) e in
      let at_include = move_drop (b'#' ∷ []) h visible (ascii "include " ++ quoted) at_hash in
      let at_blank = move_drop (ascii "include") p visible (b' ' ∷ quoted) at_include in
      let at_opening = move_drop (b' ' ∷ []) (p + 7) visible quoted at_blank in
      let at_arg =
        move_drop (opening is_quote ∷ []) (p + 7 + 1) visible (arg ++ (closing is_quote ∷ t))
          at_opening in
      let at_closing = move_drop arg q visible (closing is_quote ∷ t) at_arg in
      let i = drop-inside h b'#' visible (ascii "include " ++ quoted) at_hash in
      let n = length arg + suc fuel in
      loop-Goes visible rest (suc (suc (suc n))) (at outside o hash slash start is_next includes)
        (at after_hash p (some h) next start is_next includes) (omega (arith, i))
        (to_hash visible rest start is_next includes o hash slash gap (ascii "include " ++ quoted) e
          no_hash no_slash hash_fresh slash_fresh)
      ∙ loop-Goes visible rest (suc (suc n)) (at after_hash p (some h) next start is_next includes)
          (at after_include (p + 7) (some h) next start false includes)
          (drop-inside p b'i' visible (ascii "nclude " ++ quoted) at_include)
          (over_include visible rest start is_next includes p (some h) next quoted at_include)
      ∙ loop-Goes visible rest (suc n) (at after_include (p + 7) (some h) next start false includes)
          (at after_include (p + 7 + 1) (some h) next start false includes)
          (drop-inside (p + 7) b' ' visible quoted at_blank)
          (over_blank visible rest start false includes (p + 7) (some h) next quoted at_blank)
      ∙ loop-Goes visible rest n (at after_include (p + 7 + 1) (some h) next start false includes)
          (at (inside is_quote) q (some h) next q false includes)
          (drop-inside (p + 7 + 1) (opening is_quote) visible (arg ++ (closing is_quote ∷ t))
            at_opening)
          (over_opening visible rest start false includes is_quote (p + 7 + 1) (some h) next
            (arg ++ (closing is_quote ∷ t)) at_opening)
      ∙ over_argument arg t (suc fuel) q is_quote (some h) next q false includes at_arg no_line
          no_close
      ∙ loop-Goes visible rest fuel
          (at (inside is_quote) (q + length arg) (some h) next q false includes)
          (at outside (q + length arg + 1) (some h) next q false (includes ++ (found ∷ [])))
          (drop-inside (q + length arg) (closing is_quote) visible t at_closing)
          (over_closing visible rest q false includes is_quote (some h) next arg t at_arg)

  -- Behind a piece of the file, what was found before is up to date.
  behind :
      (gap x : Bytes) (y : ℕ) (t : Bytes) (o : ℕ)
      → drop o visible ≡ gap ++ (x ++ (y ∷ t))
      → (to : ℕ) → to ≡ o + length gap + length x + 1
      → (drop to visible ≡ t)
        × ((chr : ℕ)
            → IsFresh visible rest chr to (str_chr (visible ++ rest) chr (length visible) o))
  behind gap x y t o e to at_end =
      let w = gap ++ (x ++ (y ∷ [])) in
      let joined : drop o visible ≡ w ++ t =
        e
        ∙ ap (λ l. gap ++ l) (sym (append_assoc x (y ∷ []) t))
        ∙ sym (append_assoc gap (x ++ (y ∷ [])) t) in
      let place : o + length w ≡ to =
        omega (arith, at_end, length-append gap (x ++ (y ∷ [])), length-append x (y ∷ [])) in
      (
        subst (λ i. drop i visible ≡ t) place (move_drop w o visible t joined),
        λ chr.
            subst
              (λ i. IsFresh visible rest chr i (str_chr (visible ++ rest) chr (length visible) o))
              place (moved-IsFresh visible rest chr o w t joined),
      )

  -- All that is left.
  scan_loop-finds :
      (ps : List Piece) (fuel o : ℕ) (hash slash : Option ℕ) (start : ℕ) (is_next : Bool)
      (includes : List IncludedArg)
      → drop o visible ≡ file_of ps
      → IsFresh visible rest b'#' o hash
      → IsFresh visible rest b'/' o slash
      → ArePlain ps
      → length (file_of ps) < fuel
      → scan_loop fuel
          (visible ++ rest)
          (length visible)
          (at outside o hash slash start is_next includes)
        ≡ some (includes ++ args_of ps)
  unfolding index_from
  scan_loop-finds ps zero o hash slash start is_next includes e hash_fresh slash_fresh plain
        enough =
      absurd (omega (arith, enough))
  scan_loop-finds [] (suc fuel) o hash slash start is_next includes e hash_fresh slash_fresh plain
        enough =
      let nowhere : str_chr (visible ++ rest) b'#' (length visible) o ≡ none =
        str_chr-at visible rest b'#' o (b'\n' ∷ []) e in
      no_hash-ends fuel o hash slash start is_next includes (drop-inside o b'\n' visible [] e)
        hash_fresh nowhere
      ∙ ap some (sym (append-nil includes))
  scan_loop-finds (statement gap is_quote arg ∷ ps) (suc fuel) o hash slash start is_next includes e
        hash_fresh slash_fresh (plain, more) enough =
      let arg_found : IncludedArg = record {
        inside_str = arg;
        is_quote = is_quote;
        is_include_next = false;
      } in
      let h = o + length gap in
      let q = h + 1 + 7 + 1 + 1 in
      let next = str_chr (visible ++ rest) b'/' (length visible) o in
      let x = ascii "#include " ++ (opening is_quote ∷ arg) in
      let y = closing is_quote in
      let sizes = length-append gap (x ++ (y ∷ file_of ps)) in
      let arg_sizes = length-append arg (y ∷ file_of ps) in
      let left = suc fuel - (5 + length arg) in
      let spent : suc (suc (suc (suc (length arg + suc left)))) ≡ suc fuel =
        omega (arith, enough, sizes, arg_sizes) in
      let (there, fresh) = behind gap x y (file_of ps) o e (q + length arg + 1) (omega arith) in
      let at_hash =
        search-over visible rest b'#' o gap
          (ascii "include " ++ (opening is_quote ∷ (arg ++ (y ∷ file_of ps)))) e plain.0 in
      subst
        (λ n.
          scan_loop n (visible ++ rest) (length visible)
            (at outside o hash slash start is_next includes)
          ≡ some (includes ++ (arg_found ∷ args_of ps)))
        spent
        (over_statement gap is_quote arg (file_of ps) left o hash slash start is_next includes e
            plain hash_fresh slash_fresh
          ∙ scan_loop-finds ps left (q + length arg + 1) (some h) next q false
              (includes ++ (arg_found ∷ [])) there
              (subst (IsFresh visible rest b'#' (q + length arg + 1)) at_hash (fresh b'#'))
              (fresh b'/') more (omega (arith, enough, sizes, arg_sizes))
          ∙ ap some (append_assoc includes (arg_found ∷ []) (args_of ps)))
  scan_loop-finds (comment gap text ∷ ps) (suc fuel) o hash slash start is_next includes e
        hash_fresh slash_fresh (plain, more) enough =
      let x = b'/' ∷ b'/' ∷ text in
      let whole = x ++ (b'\n' ∷ file_of ps) in
      let to = o + length gap + suc (suc (length text)) + 1 in
      let i =
        drop-inside (o + length gap) b'/' visible (b'/' ∷ (text ++ (b'\n' ∷ file_of ps)))
          (move_drop gap o visible whole e) in
      let inside_file : o < length visible = omega (arith, i) in
      let (there, fresh) = behind gap x b'\n' (file_of ps) o e to (omega arith) in
      let slash_at =
        search-over visible rest b'/' o gap (b'/' ∷ (text ++ (b'\n' ∷ file_of ps))) e plain.1.0 in
      elim (Option-cases (str_chr (visible ++ rest) b'#' (length visible) o)) [
        | inl nowhere ↦
            let lacking =
              no_hash-no_args o (comment gap text ∷ ps) (plain, more)
                (sym (str_chr-at visible rest b'#' o (gap ++ whole) e) ∙ nowhere) in
            no_hash-ends fuel o hash slash start is_next includes inside_file hash_fresh nowhere
            ∙ ap some (sym (append-nil includes) ∙ ap (λ l. includes ++ l) (sym lacking))
        | inr (h, found) ↦
            loop-Goes visible rest fuel (at outside o hash slash start is_next includes)
              (at outside to (some h) (some (o + length gap)) start is_next includes) inside_file
              (over_comment visible rest start is_next includes o h hash slash gap text (file_of ps)
                e plain.0 plain.1.0 plain.1.1 hash_fresh slash_fresh found)
            ∙ scan_loop-finds ps fuel to (some h) (some (o + length gap)) start is_next includes
                there (subst (IsFresh visible rest b'#' to) found (fresh b'#'))
                (subst (IsFresh visible rest b'/' to) slash_at (fresh b'/')) more
                (omega
                  (arith, enough, length-append gap whole, length-append text (b'\n' ∷ file_of ps)))
      ]

-- In a file that starts with include statements, in quotes or in angle brackets, and line comments,
-- with no # and no slash in the text before each, exactly the arguments of the statements are found, in
-- their order, whatever the comments hold: where the loop's bound is the end of the line behind the
-- last of them, and with a round for each byte up to there and one more.
pub collect_include_statements_in_file-finds :
    (ps : List Piece) (rest beyond : Bytes)
    → ArePlain ps
    → buffer_size (file_of ps ++ rest) beyond ≡ some (length (file_of ps))
    → collect_include_statements_in_file (suc (length (file_of ps))) (file_of ps ++ rest) beyond
      ≡ some (args_of ps)
unfolding collect_include_statements_in_file scan_start
collect_include_statements_in_file-finds ps rest beyond plain bound =
    let file = file_of ps in
    rw (bound, collect_include_statements_in_file)
      (scan_loop-finds file rest ps (suc (length file)) 0
        (str_chr (file ++ rest) b'#' (length file) 0) (str_chr (file ++ rest) b'/' (length file) 0)
        0 false [] refl (moved-IsFresh file rest b'#' 0 [] file refl)
        (moved-IsFresh file rest b'/' 0 [] file refl) plain (omega arith))
