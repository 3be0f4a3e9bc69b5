-- ===== src/Client/IncludeStatements/Rounds.antt =====
-- A round of the loop of internal/client/own-includes-parser.go goes forward.
use nocc.Client.IncludeStatements.Indices.{
  Below, From, str_chr-Within, renew-Within, renew-From, comment_end-From,
}
use nocc.Client.IncludeStatements.{
  is_blank, is_text_at, str_chr, ScanState, outside, after_hash, after_include, inside_quotes,
  inside_angles, Scan, is_at, Step, again, done, renew, skip_slash, slash_or_hash, scan_to_hash,
  scan_outside, scan_after_hash, scan_after_include, scan_inside, scan_in,
}
use nocc.Prelude.Text.{ascii}
use nocc.Prelude.{
  ℕ, ◌+◌, ◌≤◌, ◌<◌, Bool, true, false, ◌&&◌, Option, none, some, Bytes, ◌≡◌, subst, arith, ltb,
  take, drop, either_branch,
}

-- A round goes forward, and keeps the next slash within the text.
abbrev pub Moves : ℕ → ℕ → Step → Type 0
Moves size n (again t) = (n < t.offset) × Below size t.next_slash
Moves size n (done includes) = Unit

comment-Moves :
    (size n k : ℕ) (s : Scan) (o : Option ℕ)
    → n ≤ k
    → From (k + 1) o
    → Below size s.next_slash
    → Moves size n
        (elim o [ none ↦ done s.includes | some j ↦ again (record s { offset = j + 1 }) ])
comment-Moves size n k s none l f h = tt
comment-Moves size n k s (some j) l f h = (omega (arith, l, f), h)

module _ (buffer : Bytes) (size : ℕ)
    (closed : (k : ℕ) → k < size → (j : ℕ) × (str_chr buffer b'\n' size k ≡ some j)) where
  skip_slash-Moves :
      (n k : ℕ) (s : Scan)
      → n ≤ k
      → k < size
      → Below size s.next_slash
      → Moves size n (skip_slash buffer size k s)
  unfolding skip_slash
  skip_slash-Moves n k s l b h =
      let (j, found) = closed k b in
      let line : From k (str_chr buffer b'\n' size k) = (str_chr-Within buffer b'\n' size k).1 in
      either_branch (Moves size n) (is_at buffer (k + 1) b'/') _ _
        (rw found (let r : k ≤ j = subst (From k) found line in omega (arith, l, r), h))
        (either_branch (Moves size n) (is_at buffer (k + 1) b'*') _ _
          (comment-Moves size n k s _ l
            (comment_end-From b'/' (k + 1) (drop (k + 1) (take size buffer))) h)
          (omega (arith, l), h))

  slash_or_hash-Moves :
      (n h : ℕ) (o : Option ℕ) (s : Scan)
      → n ≤ h
      → From n o
      → Below size o
      → Below size s.next_slash
      → Moves size n (slash_or_hash buffer size h o s)
  unfolding slash_or_hash
  slash_or_hash-Moves n h none s l f b k = (omega (arith, l), k)
  slash_or_hash-Moves n h (some i) s l f b k =
      either_branch (Moves size n) (ltb i h) (skip_slash buffer size i s) _
        (skip_slash-Moves n i s f b k) (omega (arith, l), k)

  scan_to_hash-Moves :
      (o : Option ℕ) (s : Scan)
      → From s.offset o
      → Below size s.next_slash
      → Moves size s.offset (scan_to_hash buffer size o s)
  unfolding scan_to_hash
  scan_to_hash-Moves none s f b = tt
  scan_to_hash-Moves (some h) s f b =
      let (inside, later) = renew-Within buffer b'/' size s.offset s.next_slash b in
      slash_or_hash-Moves s.offset h (renew buffer b'/' size s.offset s.next_slash)
        (record s { next_slash = renew buffer b'/' size s.offset s.next_slash }) f later inside
        inside

  scan_outside-Moves :
      (s : Scan) → Below size s.next_slash → Moves size s.offset (scan_outside buffer size s)
  unfolding scan_outside
  scan_outside-Moves s b =
      scan_to_hash-Moves (renew buffer b'#' size s.offset s.next_hash)
        (record s { next_hash = renew buffer b'#' size s.offset s.next_hash })
        (renew-From buffer b'#' size s.offset s.next_hash) b

  scan_after_hash-Moves :
      (s : Scan) → Below size s.next_slash → Moves size s.offset (scan_after_hash buffer size s)
  unfolding scan_after_hash
  scan_after_hash-Moves s b =
      let i = s.offset in
      let M = Moves size i in
      either_branch M (is_blank buffer i) _ _ (omega arith, b)
        (either_branch M (ltb (i + 12) size && is_text_at buffer i (ascii "include_next")) _ _
          (omega arith, b)
          (either_branch M (ltb (i + 7) size && is_text_at buffer i (ascii "include")) _ _
            (omega arith, b) (omega arith, b)))

  scan_after_include-Moves :
      (s : Scan) → Below size s.next_slash → Moves size s.offset (scan_after_include buffer s)
  unfolding scan_after_include
  scan_after_include-Moves s b =
      let i = s.offset in
      let M = Moves size i in
      either_branch M (is_blank buffer i) _ _ (omega arith, b)
        (either_branch M (is_at buffer i b'<') _ _ (omega arith, b)
          (either_branch M (is_at buffer i b'"') _ _ (omega arith, b) (omega arith, b)))

  scan_inside-Moves :
      (close : ℕ) (q : Bool) (s : Scan)
      → Below size s.next_slash
      → Moves size s.offset (scan_inside close q buffer s)
  unfolding scan_inside
  scan_inside-Moves close q s b =
      let i = s.offset in
      let M = Moves size i in
      either_branch M (is_at buffer i b'\n') _ _ (omega arith, b)
        (either_branch M (is_at buffer i close) _ _ (omega arith, b) (omega arith, b))

  pub scan_in-Moves :
      (state : ScanState) (s : Scan)
      → Below size s.next_slash
      → Moves size s.offset (scan_in state buffer size s)
  unfolding scan_in
  scan_in-Moves outside s b = scan_outside-Moves s b
  scan_in-Moves after_hash s b = scan_after_hash-Moves s b
  scan_in-Moves after_include s b = scan_after_include-Moves s b
  scan_in-Moves inside_quotes s b = scan_inside-Moves b'"' true s b
  scan_in-Moves inside_angles s b = scan_inside-Moves b'>' false s b
