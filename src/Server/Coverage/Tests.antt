-- ===== src/Server/Coverage/Tests.antt =====
-- A .gcno of gcc 12, little-endian, with a directory of two bytes.
use nocc.Prelude.Text.{ascii, has_prefix}
use nocc.Prelude.{ℕ, ◌≡◌, none, some, [], ◌∷◌, ◌++◌, Bytes, refl}
use nocc.Server.Coverage.Patching.{Patched, patch_gcno_cwd-Patched}
use nocc.Server.Coverage.{patch_gcno_cwd}

-- A header of twelve bytes, the length of the string, the string, its NUL, and what follows.
abbrev gcno_in : Bytes → ℕ → Bytes
gcno_in cwd n =
    ascii "oncg" ++ (1 ∷ 2 ∷ 3 ∷ 4 ∷ 5 ∷ 6 ∷ 7 ∷ 8 ∷ n ∷ 0 ∷ 0 ∷ 0 ∷ cwd ++ (0 ∷ 9 ∷ []))

patched :
    patch_gcno_cwd (gcno_in (ascii "/s") 3) (ascii "/s") (ascii "/cc")
    ≡ some (gcno_in (ascii "/cc") 4)
unfolding patch_gcno_cwd has_prefix
patched = refl

-- The directory is not the one that the file has.
nothing_fits : patch_gcno_cwd (gcno_in (ascii "/s") 3) (ascii "/t") (ascii "/cc") ≡ none
unfolding patch_gcno_cwd has_prefix
nothing_fits = refl

patch_gcno_cwd-Patched_example :
    Patched (gcno_in (ascii "/s") 3) (ascii "/s") (ascii "/cc") (gcno_in (ascii "/cc") 4)
patch_gcno_cwd-Patched_example =
    patch_gcno_cwd-Patched (gcno_in (ascii "/s") 3) (ascii "/s") (ascii "/cc") patched
