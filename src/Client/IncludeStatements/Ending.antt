-- ===== src/Client/IncludeStatements/Ending.antt =====
-- When the loop of internal/client/own-includes-parser.go over a file ends.
use nocc.Client.IncludeStatements.{
  last_index_byte, cut_at, size_at, buffer_size, scan_start, collect_include_statements_in_file,
}
use nocc.Client.IncludeStatements.Indices.{
  index_from-finds, Stands, index_from-Stands, get_elem-drop, get_elem-take, Below, str_chr-Within,
}
use nocc.Client.IncludeStatements.Rounds.{Moves, scan_in-Moves}
use nocc.Client.IncludeStatements.{
  IncludedArg, is_text_at, str_chr, Scan, Step, again, done, scan_step, scan_loop,
}
use nocc.Prelude.Text.{ascii}
use nocc.Prelude.{
  ℕ, zero, suc, ◌+◌, ◌-◌, ◌<◌, Option, none, some, List, [], ◌∷◌, ◌++◌, Bytes, ◌≡◌, refl, sym,
  subst, ◌∙◌, ap, arith, nat_beq, ltb, length-append, get_elem?, length, take, drop, either_branch,
  Bool-cases, Option-cases, inl, inr,
}

module _ (buffer : Bytes) (size : ℕ)
    (closed : (k : ℕ) → k < size → (j : ℕ) × (str_chr buffer b'\n' size k ≡ some j)) where
  abbrev Ends : Option (List IncludedArg) → Type 0
  Ends o = (r : List IncludedArg) × (o ≡ some r)

  after-Ends :
      (fuel : ℕ) (o : Step)
      → ((t : Scan) → o ≡ again t → Ends (scan_loop fuel buffer size t))
      → Ends (elim o [ again t ↦ scan_loop fuel buffer size t | done includes ↦ some includes ])
  after-Ends fuel (again t) h = h t refl
  after-Ends fuel (done includes) h = (includes, refl)

  scan_loop-Ends :
      (fuel : ℕ) (s : Scan)
      → 0 < fuel
      → size < s.offset + fuel
      → Below size s.next_slash
      → Ends (scan_loop fuel buffer size s)
  unfolding scan_loop scan_step
  scan_loop-Ends zero s p l b = absurd (omega (arith, p))
  scan_loop-Ends (suc fuel) s p l b = elim (Bool-cases (ltb s.offset size)) [
    | inl more ↦ rw more (
        after-Ends fuel (scan_step buffer size s) λ t e.
          let (l', b') : Moves size s.offset (again t) =
            subst (Moves size s.offset) e (scan_in-Moves buffer size closed s.state s b) in
          scan_loop-Ends fuel t (ground (arith, more, l)) (omega (arith, l, l')) b')
    | inr last ↦ rw last (s.includes, refl)
  ]

-- What ends in an end of line.
abbrev IsClosed : Bytes → ℕ → Type 0
IsClosed buffer size = (0 < size) × (get_elem? buffer (size - 1) ≡ some b'\n')

IsClosed-finds :
    (buffer : Bytes) (size : ℕ)
    → IsClosed buffer size
    → (k : ℕ) → k < size
    → (j : ℕ) × (str_chr buffer b'\n' size k ≡ some j)
unfolding str_chr
IsClosed-finds buffer size (p, e) k l =
    let kept = take size buffer in
    index_from-finds b'\n' k (size - 1 - k) (drop k kept) (
      get_elem-drop k (size - 1 - k) kept
      ∙ ap (get_elem? kept) {x = k + (size - 1 - k)} {y = size - 1} (omega (arith, p, l))
      ∙ get_elem-take size (size - 1) buffer (omega (arith, p))
      ∙ e)

abbrev CutClosed : Bytes → Option ℕ → Type 0
CutClosed buffer none = Unit
CutClosed buffer (some size) = IsClosed buffer size

found-CutClosed :
    (buffer : Bytes) (k : ℕ) (o : Option ℕ)
    → IsClosed buffer (length buffer)
    → Below (length buffer) o
    → Stands b'\n' k (drop k (take (length buffer) buffer)) o
    → CutClosed buffer (elim o [ none ↦ some (length buffer) | some j ↦ some (j + 1) ])
found-CutClosed buffer k none c b s = c
found-CutClosed buffer k (some j) c b (m, e, g) =
    let kept = take (length buffer) buffer in
    let there : get_elem? buffer j ≡ some b'\n' =
      sym (get_elem-take (length buffer) j buffer b)
      ∙ ap (get_elem? kept) {x = j} {y = k + m} e
      ∙ sym (get_elem-drop k m kept)
      ∙ g in
    (omega arith, ap (get_elem? buffer) {x = j + 1 - 1} {y = j} (omega arith) ∙ there)

cut_at-CutClosed :
    (buffer : Bytes) (o : Option ℕ)
    → IsClosed buffer (length buffer)
    → CutClosed buffer (cut_at buffer o)
unfolding cut_at str_chr
cut_at-CutClosed buffer none c = c
cut_at-CutClosed buffer (some k) c =
    found-CutClosed buffer k _ c (str_chr-Within buffer b'\n' (length buffer) k).0
      (index_from-Stands b'\n' k (drop k (take (length buffer) buffer)))

size_at-CutClosed :
    (buffer beyond : Bytes) (k : ℕ)
    → IsClosed buffer (length buffer)
    → CutClosed buffer (size_at buffer beyond k)
unfolding size_at
size_at-CutClosed buffer beyond k c =
    let C = CutClosed buffer in
    either_branch C (ltb (length buffer + length beyond) (k + 6)) none _ tt (
      either_branch C (is_text_at (buffer ++ beyond) k (ascii "#endif")) _ _
        (either_branch C (nat_beq k 0) none _ tt (cut_at-CutClosed buffer _ c))
        (cut_at-CutClosed buffer (some k) c))

buffer_size-CutClosed :
    (buffer beyond : Bytes)
    → IsClosed buffer (length buffer)
    → CutClosed buffer (buffer_size buffer beyond)
unfolding buffer_size
buffer_size-CutClosed buffer beyond c = elim (Option-cases (last_index_byte b'#' 0 buffer)) [
  | inl e ↦ rw (e, buffer_size) c
  | inr (k, e) ↦ rw (e, buffer_size) (size_at-CutClosed buffer beyond k c)
]

get_elem-last : (s : Bytes) (x : ℕ) → get_elem? (s ++ (x ∷ [])) (length s) ≡ some x
get_elem-last [] x = refl
get_elem-last (y ∷ s) x = get_elem-last s x

ended-IsClosed : (text : Bytes) → IsClosed (text ++ (b'\n' ∷ [])) (length (text ++ (b'\n' ∷ [])))
ended-IsClosed text =
    let n = length-append text (b'\n' ∷ []) in
    let file = text ++ (b'\n' ∷ []) in
    (
      omega (arith, n),
      ap (get_elem? file) {x = length file - 1} {y = length text} (omega (arith, n))
          ∙ get_elem-last text b'\n',
    )

-- The scan of any file that ends in an end of line ends with some list of statements, and without a
-- panic: where the loop's bound is computed without one, one round more than the bytes that the loop
-- reads is enough.
pub collect_include_statements_in_file-Ends :
    (text beyond : Bytes) (size : ℕ)
    → buffer_size (text ++ (b'\n' ∷ [])) beyond ≡ some size
    → (r : List IncludedArg) × (collect_include_statements_in_file
          (size + 1)
          (text ++ (b'\n' ∷ []))
          beyond
        ≡ some r)
unfolding collect_include_statements_in_file scan_start
collect_include_statements_in_file-Ends text beyond size e =
    let file = text ++ (b'\n' ∷ []) in
    let closed = buffer_size-CutClosed file beyond (ended-IsClosed text) in
    rw (e, collect_include_statements_in_file)
      (scan_loop-Ends file size (IsClosed-finds file size (subst (CutClosed file) e closed))
        (size + 1) (scan_start file size) (omega arith) (omega arith)
        (str_chr-Within file b'/' size 0).0)
