-- ===== src/Client/IncludeStatements.antt =====
-- internal/client/own-includes-parser.go: the #include statements of a file
-- (`collectIncludeStatementsInFile`). An index of -1 is `none`.
pub mod Ending
pub mod Hanging
mod Finding
mod Indices
mod Places
mod Rounds
mod Stepping
mod Tests
use nocc.Prelude.Text.{ascii}
use nocc.Prelude.{
  ℕ, zero, suc, ◌+◌, ◌-◌, Bool, true, false, ◌&&◌, ◌||◌, Option, none, some, List, [], ◌∷◌, ◌++◌,
  Bytes, nat_beq, ltb, bytes_beq, length, take, drop, get_elem?, if◌then◌else◌,
}

pub record IncludedArg : Type 0 where
  pub inside_str : Bytes
  pub is_quote : Bool
  pub is_include_next : Bool

-- The first place of a byte in a text whose first byte is number `i`.
unfoldable pub index_from : ℕ → ℕ → Bytes → Option ℕ
index_from chr i [] = none
index_from chr i (x ∷ s) = if nat_beq x chr then some i else index_from chr (i + 1) s

-- `strChr(buffer, chr, bufferSize, offset)`, called with an offset up to the size only.
unfoldable pub str_chr : Bytes → ℕ → ℕ → ℕ → Option ℕ
unfolding index_from
str_chr buffer chr size offset = index_from chr offset (drop offset (take size buffer))

-- `bytes.LastIndexByte`
unfoldable pub last_index_byte : ℕ → ℕ → Bytes → Option ℕ
last_index_byte chr i [] = none
last_index_byte chr i (x ∷ s) = elim (last_index_byte chr (i + 1) s) [
  | some k ↦ some k
  | none ↦ if nat_beq x chr then some i else none
]

pub data ScanState : Type 0 where
  outside : ScanState
  after_hash : ScanState
  after_include : ScanState
  inside_quotes : ScanState
  inside_angles : ScanState

-- The variables of the loop.
pub record Scan : Type 0 where
  pub state : ScanState
  pub offset : ℕ
  pub next_hash : Option ℕ
  pub next_slash : Option ℕ
  pub start : ℕ
  pub is_inside_include_next : Bool
  pub includes : List IncludedArg

abbrev pub is_at : Bytes → ℕ → ℕ → Bool
is_at buffer i chr = elim (get_elem? buffer i) [ none ↦ false | some x ↦ nat_beq x chr ]

abbrev pub is_text_at : Bytes → ℕ → Bytes → Bool
is_text_at buffer i text = bytes_beq (take (length text) (drop i buffer)) text

-- `bufferSize`: up to the end of the line of the last hash that is no #endif. `beyond` is what the
-- buffer's array holds behind the file, since a slice reaches into it. `none`: a panic.
abbrev pub cut_at : Bytes → Option ℕ → Option ℕ
unfolding str_chr
cut_at buffer none = some (length buffer)
cut_at buffer (some k) = elim (str_chr buffer b'\n' (length buffer) k) [
  | none ↦ some (length buffer)
  | some j ↦ some (j + 1)
]

abbrev pub size_at : Bytes → Bytes → ℕ → Option ℕ
unfolding last_index_byte str_chr
size_at buffer beyond k =
    let earlier = cut_at buffer (last_index_byte b'#' 0 (take (k - 1) buffer)) in
    if ltb (length buffer + length beyond) (k + 6)
    then none
    else if is_text_at (buffer ++ beyond) k (ascii "#endif")
    then if nat_beq k 0 then none else earlier
    else cut_at buffer (some k)

unfoldable pub buffer_size : Bytes → Bytes → Option ℕ
unfolding last_index_byte str_chr
buffer_size buffer beyond = elim (last_index_byte b'#' 0 buffer) [
  | none ↦ some (length buffer)
  | some k ↦ size_at buffer beyond k
]

-- The loop that looks for the end of a comment: a slash behind a star.
unfoldable pub comment_end : ℕ → ℕ → Bytes → Option ℕ
comment_end before i [] = none
comment_end before i (x ∷ s) =
    if nat_beq x b'/' && nat_beq before b'*' then some i else comment_end x (i + 1) s

-- `break Loop` is `done`.
pub data Step : Type 0 where
  again : Scan → Step
  done : List IncludedArg → Step

unfoldable pub renew : Bytes → ℕ → ℕ → ℕ → Option ℕ → Option ℕ
unfolding str_chr
renew buffer chr size offset none = none
renew buffer chr size offset (some k) =
    if ltb k offset then str_chr buffer chr size offset else some k

abbrev pub behind : Option ℕ → ℕ
behind none = 0
behind (some k) = k + 1

-- At a slash that stands before the next hash. The search for the end of the line gives -1 if there is
-- none, and the loop goes on at 0.
unfoldable pub skip_slash : Bytes → ℕ → ℕ → Scan → Step
unfolding comment_end str_chr
skip_slash buffer size k s =
    if is_at buffer (k + 1) b'/'
    then again (record s { offset = behind (str_chr buffer b'\n' size k) })
    else if is_at buffer (k + 1) b'*'
    then elim (comment_end b'/' (k + 1) (drop (k + 1) (take size buffer))) [
      | none ↦ done s.includes
      | some j ↦ again (record s { offset = j + 1 })
    ]
    else again (record s { offset = k + 1 })

abbrev at_hash : ℕ → Scan → Step
at_hash h s = again (record s { offset = h + 1; state = after_hash })

unfoldable pub slash_or_hash : Bytes → ℕ → ℕ → Option ℕ → Scan → Step
unfolding skip_slash
slash_or_hash buffer size h none s = at_hash h s
slash_or_hash buffer size h (some k) s = if ltb k h then skip_slash buffer size k s else at_hash h s

unfoldable pub scan_to_hash : Bytes → ℕ → Option ℕ → Scan → Step
unfolding slash_or_hash renew
scan_to_hash buffer size none s = done s.includes
scan_to_hash buffer size (some h) s =
    let slash = renew buffer b'/' size s.offset s.next_slash in
    slash_or_hash buffer size h slash (record s { next_slash = slash })

unfoldable pub scan_outside : Bytes → ℕ → Scan → Step
unfolding scan_to_hash renew
scan_outside buffer size s =
    let hash = renew buffer b'#' size s.offset s.next_hash in
    scan_to_hash buffer size hash (record s { next_hash = hash })

abbrev pub to : ScanState → ℕ → Scan → Step
to state offset s = again (record s { state = state; offset = offset })

abbrev pub is_blank : Bytes → ℕ → Bool
is_blank buffer i = is_at buffer i b' ' || is_at buffer i b'\t'

unfoldable pub scan_after_hash : Bytes → ℕ → Scan → Step
scan_after_hash buffer size s =
    let i = s.offset in
    if is_blank buffer i
    then to after_hash (i + 1) s
    else if ltb (i + 12) size && is_text_at buffer i (ascii "include_next")
    then to after_include (i + 12) (record s { is_inside_include_next = true })
    else if ltb (i + 7) size && is_text_at buffer i (ascii "include")
    then to after_include (i + 7) (record s { is_inside_include_next = false })
    else to outside (i + 1) s

unfoldable pub scan_after_include : Bytes → Scan → Step
scan_after_include buffer s =
    let i = s.offset in
    if is_blank buffer i
    then to after_include (i + 1) s
    else if is_at buffer i b'<'
    then to inside_angles (i + 1) (record s { start = i + 1 })
    else if is_at buffer i b'"'
    then to inside_quotes (i + 1) (record s { start = i + 1 })
    else to outside (i + 1) s

-- `close` is the byte that ends the argument.
unfoldable pub scan_inside : ℕ → Bool → Bytes → Scan → Step
scan_inside close is_quote buffer s =
    let i = s.offset in
    let arg : IncludedArg = record {
      inside_str = take (i - s.start) (drop s.start buffer);
      is_quote = is_quote;
      is_include_next = s.is_inside_include_next;
    } in
    if is_at buffer i b'\n'
    then to outside (i + 1) s
    else if is_at buffer i close
    then to outside (i + 1) (record s { includes = s.includes ++ (arg ∷ []) })
    else again (record s { offset = i + 1 })

unfoldable pub scan_in : ScanState → Bytes → ℕ → Scan → Step
unfolding scan_outside scan_after_hash scan_after_include scan_inside
scan_in outside buffer size s = scan_outside buffer size s
scan_in after_hash buffer size s = scan_after_hash buffer size s
scan_in after_include buffer size s = scan_after_include buffer s
scan_in inside_quotes buffer size s = scan_inside b'"' true buffer s
scan_in inside_angles buffer size s = scan_inside b'>' false buffer s

unfoldable pub scan_step : Bytes → ℕ → Scan → Step
unfolding scan_in
scan_step buffer size s = scan_in s.state buffer size s

-- The loop. `none`: out of fuel.
unfoldable pub scan_loop : ℕ → Bytes → ℕ → Scan → Option (List IncludedArg)
scan_loop zero buffer size s = none
scan_loop (suc fuel) buffer size s =
    let rest : Option (List IncludedArg) = elim (scan_step buffer size s) [
      | again t ↦ scan_loop fuel buffer size t
      | done includes ↦ some includes
    ] in
    if ltb s.offset size then rest else some s.includes

unfoldable pub scan_start : Bytes → ℕ → Scan
unfolding str_chr
scan_start buffer size = record {
  state = outside;
  offset = 0;
  next_hash = str_chr buffer b'#' size 0;
  next_slash = str_chr buffer b'/' size 0;
  start = 0;
  is_inside_include_next = false;
  includes = [];
}

-- `none`: a panic, or out of fuel.
unfoldable pub collect_include_statements_in_file : ℕ → Bytes → Bytes → Option (List IncludedArg)
unfolding buffer_size scan_loop scan_step scan_start
collect_include_statements_in_file fuel buffer beyond = elim (buffer_size buffer beyond) [
  | none ↦ none
  | some size ↦ scan_loop fuel buffer size (scan_start buffer size)
]
