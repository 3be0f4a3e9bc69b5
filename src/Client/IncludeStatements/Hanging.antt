-- ===== src/Client/IncludeStatements/Hanging.antt =====
-- When the loop of internal/client/own-includes-parser.go over a file never ends.
use nocc.Client.IncludeStatements.Indices.{Below, str_chr-Within}
use nocc.Client.IncludeStatements.{
  str_chr, is_at, again, renew, skip_slash, slash_or_hash, scan_to_hash, scan_outside, scan_in,
  scan_step, scan_loop, scan_start, buffer_size, collect_include_statements_in_file,
}
use nocc.Prelude.{
  ℕ, zero, suc, ◌<◌, true, false, none, some, Bytes, ◌≡◌, refl, arith, ltb, subst, ◌+◌,
}

module _ (buffer : Bytes) (size h k : ℕ) (hash : str_chr buffer b'#' size 0 ≡ some h)
    (slash : str_chr buffer b'/' size 0 ≡ some k) (before : k < h)
    (comment : is_at buffer (k + 1) b'/' ≡ true)
    (unended : str_chr buffer b'\n' size k ≡ none) where
  stays : scan_step buffer size (scan_start buffer size) ≡ again (scan_start buffer size)
  unfolding scan_step scan_in scan_outside scan_to_hash slash_or_hash skip_slash renew scan_start
  stays =
      let first : ltb h 0 ≡ false = ground arith in
      let second : ltb k 0 ≡ false = ground arith in
      let less : ltb k h ≡ true = ground arith in
      rw (hash, slash, first, second, less, comment, unended) refl

  scan_loop-hangs : (fuel : ℕ) → scan_loop fuel buffer size (scan_start buffer size) ≡ none
  unfolding scan_loop scan_start
  scan_loop-hangs zero = refl
  scan_loop-hangs (suc fuel) =
      let more : ltb 0 size ≡ true =
        let inside : h < size = subst (Below size) hash (str_chr-Within buffer b'#' size 0).0 in
        ground arith in
      rw (more, stays) (scan_loop-hangs fuel)

-- A file whose first slash starts a line comment before the first hash, in a line that no end of
-- line ends, is read for ever: at the end of the comment the loop is where it started, and no number
-- of rounds is enough.
pub collect_include_statements_in_file-hangs :
    (buffer beyond : Bytes) (size h k : ℕ)
    → buffer_size buffer beyond ≡ some size
    → str_chr buffer b'#' size 0 ≡ some h
    → str_chr buffer b'/' size 0 ≡ some k
    → k < h
    → is_at buffer (k + 1) b'/' ≡ true
    → str_chr buffer b'\n' size k ≡ none
    → (fuel : ℕ) → collect_include_statements_in_file fuel buffer beyond ≡ none
unfolding collect_include_statements_in_file
collect_include_statements_in_file-hangs buffer beyond size h k e hash slash before comment unended
      fuel =
    rw (e, collect_include_statements_in_file)
      (scan_loop-hangs buffer size h k hash slash before comment unended fuel)
