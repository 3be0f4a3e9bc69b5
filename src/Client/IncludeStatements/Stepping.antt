-- ===== src/Client/IncludeStatements/Stepping.antt =====
-- The steps of internal/client/own-includes-parser.go along an include statement and a comment.
use mathlib.Core.List.{append_assoc}
use nocc.Client.IncludeStatements.Indices.{From, str_chr-Within}
use nocc.Client.IncludeStatements.Places.{
  Lacks, IsFresh, drop-before, take-append, drop-append, drop-inside, get_elem-at, index_from-over,
  move_drop, str_chr-at,
}
use nocc.Client.IncludeStatements.{
  IncludedArg, Scan, ScanState, outside, after_hash, after_include, inside_quotes, inside_angles,
  again, is_at, index_from, str_chr, skip_slash, slash_or_hash, scan_to_hash, scan_outside,
  scan_after_hash, scan_after_include, scan_inside, scan_in, scan_step, scan_loop,
}
use nocc.Prelude.Text.{ascii}
use nocc.Prelude.{
  ℕ, suc, ◌+◌, ◌-◌, ◌<◌, ◌≤◌, Bool, true, false, Option, some, List, [], ◌∷◌, ◌++◌, Bytes, nat_beq,
  nat_beq_iff, ltb, length, take, drop, get_elem?, ◌≡◌, refl, sym, ◌∙◌, subst, ap, arith,
  Bool-cases, Option-cases, inl, inr,
}

abbrev pub at : ScanState → ℕ → Option ℕ → Option ℕ → ℕ → Bool → List IncludedArg → Scan
at state offset next_hash next_slash start is_next includes = record {
  state = state;
  offset = offset;
  next_hash = next_hash;
  next_slash = next_slash;
  start = start;
  is_inside_include_next = is_next;
  includes = includes;
}

-- The byte that ends an argument, the one that starts it, and the state inside.
abbrev pub closing : Bool → ℕ
closing true = b'"'
closing false = b'>'

abbrev pub opening : Bool → ℕ
opening true = b'"'
opening false = b'<'

abbrev pub inside : Bool → ScanState
inside true = inside_quotes
inside false = inside_angles

module _ (visible rest : Bytes) where
  abbrev pub Goes : Scan → Scan → Type 0
  Goes s t = scan_step (visible ++ rest) (length visible) s ≡ again t

  pub loop-Goes :
      (fuel : ℕ) (s t : Scan)
      → s.offset < length visible
      → Goes s t
      → scan_loop (suc fuel) (visible ++ rest) (length visible) s
        ≡ scan_loop fuel (visible ++ rest) (length visible) t
  unfolding scan_loop
  loop-Goes fuel s t i e =
      let less : ltb s.offset (length visible) ≡ true = ground arith in rw (less, e) refl

  byte-at : (o x : ℕ) (t : Bytes) → drop o visible ≡ x ∷ t → get_elem? (visible ++ rest) o ≡ some x
  byte-at o x t e = get_elem-at o x (visible ++ rest) (t ++ rest) (drop-append o x visible t rest e)

  pub search-over :
      (chr o : ℕ) (gap t : Bytes)
      → drop o visible ≡ gap ++ (chr ∷ t)
      → Lacks chr gap
      → str_chr (visible ++ rest) chr (length visible) o ≡ some (o + length gap)
  unfolding index_from
  search-over chr o gap t e h =
      let same = (nat_beq_iff chr chr).1 refl in
      let here : index_from chr (o + length gap) (chr ∷ t) ≡ some (o + length gap) = rw same refl in
      str_chr-at visible rest chr o (gap ++ (chr ∷ t)) e
      ∙ index_from-over chr o gap (chr ∷ t) h
      ∙ here

  argument-at :
      (start : ℕ) (arg : Bytes) (chr : ℕ) (t : Bytes)
      → drop start visible ≡ arg ++ (chr ∷ t)
      → take (start + length arg - start) (drop start (visible ++ rest)) ≡ arg
  argument-at start arg chr t e =
      let i =
        drop-inside (start + length arg) chr visible t (move_drop arg start visible (chr ∷ t) e) in
      ap (λ n. take n (drop start (visible ++ rest))) {x = start + length arg - start}
        {y = length arg} (omega arith)
      ∙ ap (take (length arg)) (
          drop-before start visible rest (omega (arith, i))
          ∙ ap (λ l. l ++ rest) e
          ∙ append_assoc arg (chr ∷ t) rest)
      ∙ take-append arg (chr ∷ (t ++ rest))

  module _ (start : ℕ) (is_next : Bool) (includes : List IncludedArg) where
    pub to_hash :
        (o : ℕ) (hash slash : Option ℕ) (gap t : Bytes)
        → drop o visible ≡ gap ++ (b'#' ∷ t)
        → Lacks b'#' gap
        → Lacks b'/' gap
        → IsFresh visible rest b'#' o hash
        → IsFresh visible rest b'/' o slash
        → Goes (at outside o hash slash start is_next includes) (
            at after_hash
              (o + length gap + 1)
              (some (o + length gap))
              (str_chr (visible ++ rest) b'/' (length visible) o)
              start
              is_next
              includes)
    unfolding scan_step scan_in scan_outside scan_to_hash slash_or_hash
    to_hash o hash slash gap t e no_hash no_slash hash_fresh slash_fresh =
        let found = search-over b'#' o gap t e no_hash in
        let h = o + length gap in
        elim (Option-cases (str_chr (visible ++ rest) b'/' (length visible) o)) [
          | inl nowhere ↦ rw (hash_fresh, found, slash_fresh, nowhere) refl
          | inr (k, there) ↦
              let over =
                str_chr-at visible rest b'/' o (gap ++ (b'#' ∷ t)) e
                ∙ index_from-over b'/' o gap (b'#' ∷ t) no_slash
                ∙ sym (
                    str_chr-at visible rest b'/' h (b'#' ∷ t)
                      (move_drop gap o visible (b'#' ∷ t) e)) in
              let late : h ≤ k =
                subst (From h) (sym over ∙ there)
                  (str_chr-Within (visible ++ rest) b'/' (length visible) h).1 in
              let less : ltb k h ≡ false = ground arith in
              rw (hash_fresh, found, slash_fresh, there, less) refl
        ]

    pub over_include :
        (p : ℕ) (hash slash : Option ℕ) (t : Bytes)
        → drop p visible ≡ ascii "include " ++ t
        → Goes
            (at after_hash p hash slash start is_next includes)
            (at after_include (p + 7) hash slash start false includes)
    unfolding scan_step scan_in scan_after_hash
    over_include p hash slash t e =
        let byte = byte-at p b'i' (ascii "nclude " ++ t) e in
        let behind = drop-append p b'i' visible (ascii "nclude " ++ t) rest e in
        let on = move_drop (ascii "include") p visible (b' ' ∷ t) e in
        let more : ltb (p + 7) (length visible) ≡ true =
          let i = drop-inside (p + 7) b' ' visible t on in ground arith in
        elim (Bool-cases (ltb (p + 12) (length visible))) [
          | inl long ↦ rw (is_at, byte, behind, more, long) refl
          | inr short ↦ rw (is_at, byte, behind, more, short) refl
        ]

    pub over_blank :
        (p : ℕ) (hash slash : Option ℕ) (t : Bytes)
        → drop p visible ≡ b' ' ∷ t
        → Goes
            (at after_include p hash slash start is_next includes)
            (at after_include (p + 1) hash slash start is_next includes)
    unfolding scan_step scan_in scan_after_include
    over_blank p hash slash t e = let byte = byte-at p b' ' t e in rw (is_at, byte) refl

    pub over_opening :
        (is_quote : Bool) (p : ℕ) (hash slash : Option ℕ) (t : Bytes)
        → drop p visible ≡ opening is_quote ∷ t
        → Goes
            (at after_include p hash slash start is_next includes)
            (at (inside is_quote) (p + 1) hash slash (p + 1) is_next includes)
    unfolding scan_step scan_in scan_after_include
    over_opening true p hash slash t e = let byte = byte-at p b'"' t e in rw (is_at, byte) refl
    over_opening false p hash slash t e = let byte = byte-at p b'<' t e in rw (is_at, byte) refl

    pub over_byte :
        (is_quote : Bool) (p x : ℕ) (hash slash : Option ℕ) (t : Bytes)
        → drop p visible ≡ x ∷ t
        → nat_beq x b'\n' ≡ false
        → nat_beq x (closing is_quote) ≡ false
        → Goes
            (at (inside is_quote) p hash slash start is_next includes)
            (at (inside is_quote) (p + 1) hash slash start is_next includes)
    unfolding scan_step scan_in scan_inside
    over_byte true p x hash slash t e no_line no_close =
        let byte = byte-at p x t e in rw (is_at, byte, no_line, no_close) refl
    over_byte false p x hash slash t e no_line no_close =
        let byte = byte-at p x t e in rw (is_at, byte, no_line, no_close) refl

    pub over_closing :
        (is_quote : Bool) (hash slash : Option ℕ) (arg t : Bytes)
        → drop start visible ≡ arg ++ (closing is_quote ∷ t)
        → Goes (at (inside is_quote) (start + length arg) hash slash start is_next includes) (
            at outside (start + length arg + 1) hash slash start is_next (
              includes
              ++ (record { inside_str = arg; is_quote = is_quote; is_include_next = is_next }
                  ∷ [])))
    unfolding scan_step scan_in scan_inside
    over_closing true hash slash arg t e =
        let on = move_drop arg start visible (b'"' ∷ t) e in
        let byte = byte-at (start + length arg) b'"' t on in
        rw (is_at, byte, argument-at start arg b'"' t e) refl
    over_closing false hash slash arg t e =
        let on = move_drop arg start visible (b'>' ∷ t) e in
        let byte = byte-at (start + length arg) b'>' t on in
        rw (is_at, byte, argument-at start arg b'>' t e) refl

    pub over_comment :
        (o h : ℕ) (hash slash : Option ℕ) (gap text t : Bytes)
        → drop o visible ≡ gap ++ (b'/' ∷ b'/' ∷ (text ++ (b'\n' ∷ t)))
        → Lacks b'#' gap
        → Lacks b'/' gap
        → Lacks b'\n' text
        → IsFresh visible rest b'#' o hash
        → IsFresh visible rest b'/' o slash
        → str_chr (visible ++ rest) b'#' (length visible) o ≡ some h
        → Goes (at outside o hash slash start is_next includes) (
            at outside
              (o + length gap + suc (suc (length text)) + 1)
              (some h)
              (some (o + length gap))
              start
              is_next
              includes)
    unfolding scan_step scan_in scan_outside scan_to_hash slash_or_hash skip_slash index_from
    over_comment o h hash slash gap text t e no_hash no_slash no_line hash_fresh slash_fresh found =
        let k = o + length gap in
        let comment = b'/' ∷ b'/' ∷ text in
        let whole = comment ++ (b'\n' ∷ t) in
        let there = search-over b'/' o gap (b'/' ∷ (text ++ (b'\n' ∷ t))) e no_slash in
        let on = move_drop gap o visible whole e in
        let next = move_drop (b'/' ∷ []) k visible (b'/' ∷ (text ++ (b'\n' ∷ t))) on in
        let byte : get_elem? (visible ++ rest) (k + 1) ≡ some b'/' =
          byte-at (k + 1) b'/' (text ++ (b'\n' ∷ t)) next in
        let line = search-over b'\n' k comment t on (refl, (refl, no_line)) in
        let over =
          str_chr-at visible rest b'#' o (gap ++ whole) e
          ∙ index_from-over b'#' o gap whole no_hash
          ∙ sym (str_chr-at visible rest b'#' (k + 1) (b'/' ∷ (text ++ (b'\n' ∷ t))) next) in
        let late : k + 1 ≤ h =
          subst (From (k + 1)) (sym over ∙ found)
            (str_chr-Within (visible ++ rest) b'#' (length visible) (k + 1)).1 in
        let less : ltb k h ≡ true = ground arith in
        rw (hash_fresh, found, slash_fresh, there, less, is_at, byte, line) refl
