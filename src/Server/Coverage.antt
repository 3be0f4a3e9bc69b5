-- ===== src/Server/Coverage.antt =====
-- internal/server/coverage.go: the command line of a coverage compilation, and the .gcno's directory.
pub mod Patching
mod Tests
use nocc.Prelude.Maybe.{◌>>=◌}
use nocc.Prelude.Paths.{base, dir}
use nocc.Prelude.Text.{ascii, has_prefix, trim_suffix}
use nocc.Prelude.{
  ℕ, zero, suc, ◌+◌, ◌-◌, ◌*◌, ◌/◌, ◌%◌, Bool, true, false, Option, none, some, List, [], ◌∷◌, ◌++◌,
  Bytes, bytes_beq, leb, ltb, ◌&&◌, length, take, drop, if◌then◌else◌,
}

unfoldable pub coverage_notes_file_name : Bytes → Bytes
unfolding trim_suffix
coverage_notes_file_name obj_out_file = trim_suffix obj_out_file (ascii ".o") ++ ascii ".gcno"

unfoldable pub coverage_cxx_args : Bytes → Bytes → Bytes → List Bytes
unfolding trim_suffix base dir
coverage_cxx_args client_obj_file cxx_cwd notes_file =
    ascii "-dumpdir"
    ∷ []
    ∷ ascii "-dumpbase"
    ∷ trim_suffix (base client_obj_file) (ascii ".o")
    ∷ (ascii "-fprofile-dir=" ++ dir client_obj_file)
    ∷ (ascii "-fprofile-prefix-path=" ++ cxx_cwd)
    ∷ (ascii "-fprofile-note=" ++ notes_file)
    ∷ []

pub data ByteOrder : Type 0 where
  little_endian : ByteOrder
  big_endian : ByteOrder

-- `order.AppendUint32(nil, uint32(n))`
unfoldable pub uint32_bytes : ByteOrder → ℕ → Bytes
uint32_bytes little_endian n = n % 256 ∷ n / 256 % 256 ∷ n / 65536 % 256 ∷ n / 16777216 % 256 ∷ []
uint32_bytes big_endian n = n / 16777216 % 256 ∷ n / 65536 % 256 ∷ n / 256 % 256 ∷ n % 256 ∷ []

unfoldable pub zeros : ℕ → Bytes
zeros zero = []
zeros (suc n) = 0 ∷ zeros n

-- Where the length word stands, and whether it counts words of four bytes.
pub record Layout : Type 0 where
  pub offset : ℕ
  pub length_words : Bool

-- The closure `record`: the length word, the string, and its NUL and padding.
unfoldable pub string_record : ByteOrder → Layout → Bytes → Bytes
unfolding uint32_bytes zeros
string_record order l s =
    let n = if l.length_words then (length s + 4) / 4 else length s + 1 in
    let size = if l.length_words then (length s + 4) / 4 * 4 else length s + 1 in
    uint32_bytes order n ++ (s ++ zeros (size - length s))

unfoldable pub fits_layout : ByteOrder → Bytes → Bytes → Layout → Bool
unfolding has_prefix string_record
fits_layout order gcno server_cwd l =
    leb l.offset (length gcno) && has_prefix (drop l.offset gcno) (string_record order l server_cwd)

abbrev pub layout : ℕ → Bool → Layout
layout n words = record { offset = n; length_words = words }

-- The order in which the source tries them.
abbrev pub all_layouts : List Layout
all_layouts = layout 12 false ∷ layout 12 true ∷ layout 16 false ∷ layout 16 true ∷ []

unfoldable pub found_layouts : ByteOrder → Bytes → Bytes → List Layout → List Layout
unfolding fits_layout
found_layouts order gcno server_cwd [] = []
found_layouts order gcno server_cwd (l ∷ ls) =
    let rest = found_layouts order gcno server_cwd ls in
    if fits_layout order gcno server_cwd l then l ∷ rest else rest

unfoldable pub gcno_order : Bytes → Option ByteOrder
gcno_order gcno =
    if bytes_beq (take 4 gcno) (ascii "oncg")
    then some little_endian
    else if bytes_beq (take 4 gcno) (ascii "gcno")
    then some big_endian
    else none

unfoldable pub patch_at : ByteOrder → Bytes → Bytes → Bytes → Layout → Bytes
unfolding string_record
patch_at order gcno server_cwd client_cwd l =
    take l.offset gcno
    ++ (string_record order l client_cwd
        ++ drop (l.offset + length (string_record order l server_cwd)) gcno)

abbrev pub only_one : List Layout → Option Layout
only_one (l ∷ []) = some l
only_one _ = none

-- `none` stands for each of the errors.
unfoldable pub patch_gcno_cwd : Bytes → Bytes → Bytes → Option Bytes
unfolding gcno_order found_layouts patch_at
patch_gcno_cwd gcno server_cwd client_cwd = if ltb (length gcno) 4 then none else (do
  order ← gcno_order gcno
  l ← only_one (found_layouts order gcno server_cwd all_layouts)
  some (patch_at order gcno server_cwd client_cwd l))
