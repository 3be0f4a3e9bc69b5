-- ===== src/Client/DepFiles.antt =====
-- internal/client/dep-files.go: the text of a .o.d file, parsed and written. A parser takes what is
-- left of the text from the current offset on, and returns what it leaves.
pub mod Items
pub mod RoundTrip
pub mod Ending
mod Tests
use nocc.Prelude.Text.{has_suffix, replace_byte}
use nocc.Prelude.{
  ℕ, zero, suc, ◌+◌, Bool, true, false, ◌||◌, Option, none, some, List, [], ◌∷◌, ◌++◌, Bytes,
  nat_beq, bytes_beq, length, if◌then◌else◌,
}

-- `colon_expected` is the error of the source; `panics` is an index past the end of the text.
pub data Stop : Type 0 where
  colon_expected : Stop
  panics : Stop
  out_of_fuel : Stop

pub data Result (A : Type 0) : Type 0 where
  ok : A → Result A
  err : Stop → Result A

infixl 5 ◌>>=◌
abbrev pub ◌>>=◌ : {A B : Type 0} → Result A → (A → Result B) → Result B
ok a >>= f = f a
err e >>= f = err e

pub record DepFileTarget : Type 0 where
  pub target_name : Bytes
  pub target_dep_list : List Bytes

abbrev pub DepFile : Type 0
DepFile = List DepFileTarget

unfoldable pub find_dep_list_by_target_name : DepFile → Bytes → List Bytes
find_dep_list_by_target_name [] name = []
find_dep_list_by_target_name (t ∷ ts) name =
    if bytes_beq t.target_name name then t.target_dep_list else find_dep_list_by_target_name ts name

unfoldable pub escape_makefile_spaces : Bytes → Bytes
unfolding replace_byte
escape_makefile_spaces name =
    replace_byte
      (replace_byte (replace_byte name b'\n' (b'\\' ∷ b'\n' ∷ [])) b' ' (b'\\' ∷ b' ' ∷ [])) b':'
      (b'\\' ∷ b':' ∷ [])

-- The dependencies behind the first one, each on a line of its own.
unfoldable pub write_more_deps : List Bytes → Bytes
write_more_deps [] = []
write_more_deps (d ∷ ds) =
    b' ' ∷ b'\\' ∷ b'\n' ∷ b' ' ∷ b' ' ∷ (escape_makefile_spaces d ++ write_more_deps ds)

unfoldable pub write_deps : List Bytes → Bytes
unfolding write_more_deps
write_deps [] = []
write_deps (d ∷ ds) = b' ' ∷ (escape_makefile_spaces d ++ write_more_deps ds)

unfoldable pub write_target : DepFileTarget → Bytes
unfolding write_deps
write_target t = t.target_name ++ (b':' ∷ (write_deps t.target_dep_list ++ b'\n' ∷ []))

-- An empty line stands between two targets.
unfoldable pub write_more_targets : DepFile → Bytes
unfolding write_target
write_more_targets [] = []
write_more_targets (t ∷ ts) = b'\n' ∷ (write_target t ++ write_more_targets ts)

unfoldable pub write_to_bytes : DepFile → Bytes
unfolding write_more_targets
write_to_bytes [] = []
write_to_bytes (t ∷ ts) = write_target t ++ write_more_targets ts

-- `unicode.IsSpace` on the value of a byte.
abbrev pub is_space : ℕ → Bool
is_space c =
    nat_beq c b' '
    || (nat_beq c b'\t'
        || (nat_beq c b'\n'
            || (nat_beq c 11
                || (nat_beq c 12 || (nat_beq c b'\r' || (nat_beq c 0x85 || nat_beq c 0xA0))))))

unfoldable pub parse_skip_spaces : Bytes → Bytes
parse_skip_spaces [] = []
parse_skip_spaces (c ∷ s) = if is_space c then parse_skip_spaces s else c ∷ s

-- What a byte that is neither `:` nor a newline adds to a target's name.
abbrev pub add_to_target_name : Bytes → ℕ → Bytes
add_to_target_name name c =
    if nat_beq c b'\\'
    then name
    else if nat_beq c b' '
    then if has_suffix name (b' ' ∷ []) then name else name ++ (b' ' ∷ [])
    else name ++ (c ∷ [])

-- The second argument says that a backslash stands before the text.
unfoldable pub parse_target_name : Bytes → Bool → Bytes → Result (Bytes × Bytes)
unfolding escape_makefile_spaces has_suffix
parse_target_name name true [] = err panics
parse_target_name name true (c ∷ s) =
    parse_target_name (if nat_beq c b'\n' then name else name ++ (c ∷ [])) false s
parse_target_name name false [] = err colon_expected
parse_target_name name false (c ∷ s) =
    let rest = parse_target_name (add_to_target_name name c) (nat_beq c b'\\') s in
    if nat_beq c b':'
    then ok (escape_makefile_spaces name, s)
    else if nat_beq c b'\n'
    then err colon_expected
    else rest

-- The first loop of `parseNextDepItem`: a backslash is skipped with the byte behind it.
unfoldable pub skip_dep_spaces : Bool → Bytes → Bytes
skip_dep_spaces _ [] = []
skip_dep_spaces true (c ∷ s) = skip_dep_spaces false s
skip_dep_spaces false (c ∷ s) =
    let rest = skip_dep_spaces (nat_beq c b'\\') s in
    if nat_beq c b' ' || nat_beq c b'\\' then rest else c ∷ s

-- The second loop.
unfoldable pub read_dep_item : Bytes → Bool → Bytes → Result (Bytes × Bytes)
read_dep_item name true [] = err panics
read_dep_item name true (c ∷ s) = read_dep_item (name ++ (c ∷ [])) false s
read_dep_item name false [] = ok (name, [])
read_dep_item name false (c ∷ s) =
    let rest =
      read_dep_item (if nat_beq c b'\\' then name else name ++ (c ∷ [])) (nat_beq c b'\\') s in
    if nat_beq c b' ' || nat_beq c b'\n' then ok (name, c ∷ s) else rest

abbrev pub dep_item_at : Bytes → Result (Bytes × Bytes)
dep_item_at [] = ok ([], [])
dep_item_at (c ∷ s) = if nat_beq c b'\n' then ok ([], s) else read_dep_item [] false (c ∷ s)

unfoldable pub parse_next_dep_item : Bytes → Result (Bytes × Bytes)
unfolding skip_dep_spaces read_dep_item
parse_next_dep_item s = dep_item_at (skip_dep_spaces false s)

-- The inner loop of `parseDepFileContents`.
unfoldable pub parse_dep_items : ℕ → List Bytes → Bytes → Result (List Bytes × Bytes)
unfolding parse_next_dep_item
parse_dep_items zero items s = err out_of_fuel
parse_dep_items (suc fuel) items s = parse_next_dep_item s >>= λ (item, rest).
    let more = parse_dep_items fuel (items ++ (item ∷ [])) rest in
    if bytes_beq item [] then ok (items, rest) else more

-- One round of the outer loop.
unfoldable pub parse_target : Bytes → Result (DepFileTarget × Bytes)
unfolding parse_target_name parse_dep_items
parse_target s = parse_target_name [] false s >>= λ (name, behind_name).
    parse_dep_items (suc (length behind_name)) [] behind_name >>= λ (items, rest).
    ok (record { target_name = name; target_dep_list = items }, rest)

abbrev pub is_at_end : Bytes → Bool
is_at_end [] = true
is_at_end (c ∷ s) = false

-- The outer loop.
unfoldable pub parse_targets : ℕ → DepFile → Bytes → Result DepFile
unfolding parse_skip_spaces parse_target
parse_targets zero targets s = err out_of_fuel
parse_targets (suc fuel) targets s =
    let more = parse_target (parse_skip_spaces s) >>= λ (t, rest).
    parse_targets fuel (targets ++ (t ∷ [])) rest in
    if is_at_end (parse_skip_spaces s) then ok targets else more

unfoldable pub parse_dep_file_contents : Bytes → Result DepFile
unfolding parse_targets
parse_dep_file_contents s = parse_targets (suc (length s)) [] s
