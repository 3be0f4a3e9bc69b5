-- ===== src/Prelude/Paths.antt =====
-- Go's `path` (and `path/filepath` on Unix): `Clean`, `Join`, `Base`, `Dir`, `Ext`.
use mathlib.Core.Bool.{Bool, false}
use mathlib.Core.Option.{none, some}
use mathlib.Core.List.{List, [], ◌∷◌, ◌++◌, reverse}
use nocc.Prelude.Equality.{Bytes, bytes_beq}
use nocc.Prelude.Tests.{if◌then◌else◌, nat_beq}
use nocc.Prelude.Text.{split, join, before_last}

abbrev pub slash : Bytes
slash = b'/' ∷ []

abbrev pub dot : Bytes
dot = b'.' ∷ []

abbrev pub dot_dot : Bytes
dot_dot = b'.' ∷ b'.' ∷ []

abbrev pub is_abs : Bytes → Bool
is_abs [] = false
is_abs (c ∷ _) = nat_beq c b'/'

-- An element `..`, on the elements before it, the last one first.
unfoldable pub go_up : Bool → List Bytes → List Bytes
go_up rooted [] = if rooted then [] else dot_dot ∷ []
go_up rooted (e ∷ es) = if bytes_beq e dot_dot then dot_dot ∷ e ∷ es else es

unfoldable pub clean_onto : Bool → List Bytes → List Bytes → List Bytes
unfolding go_up
clean_onto rooted out [] = reverse out
clean_onto rooted out (e ∷ es) =
    clean_onto rooted
      (if bytes_beq e []
        then out
        else if bytes_beq e dot
        then out
        else if bytes_beq e dot_dot
        then go_up rooted out
        else e ∷ out)
      es

-- An empty path is `.`.
abbrev or_dot : Bytes → Bytes
or_dot [] = dot
or_dot (c ∷ s) = c ∷ s

unfoldable pub clean : Bytes → Bytes
unfolding clean_onto split join
clean p =
    let parts = clean_onto (is_abs p) [] (split p b'/') in
    if is_abs p then b'/' ∷ join parts slash else or_dot (join parts slash)

-- `path.Join(a, b)`
unfoldable pub join_path : Bytes → Bytes → Bytes
unfolding clean
join_path [] [] = []
join_path [] b = clean b
join_path a [] = clean a
join_path a b = clean (a ++ b'/' ∷ b)

-- What stands behind the last slash, and up to it, the slash included.
unfoldable pub base_onto : Bytes → Bytes → Bytes
base_onto out [] = reverse out
base_onto out (c ∷ s) = base_onto (if nat_beq c b'/' then [] else c ∷ out) s

-- `path.Base(p)`: the last element, without slashes behind it.
abbrev strip_slashes : Bytes → Bytes
strip_slashes [] = []
strip_slashes (c ∷ s) = if nat_beq c b'/' then strip_slashes s else c ∷ s

abbrev base_or : Bool → Bytes → Bytes
base_or empty [] = if empty then dot else slash
base_or empty (c ∷ s) = c ∷ s

unfoldable pub base : Bytes → Bytes
unfolding base_onto
base p = base_or (bytes_beq p []) (base_onto [] (reverse (strip_slashes (reverse p))))

-- `path.Dir(p)`: what `Clean` makes of the bytes up to the last slash.
unfoldable pub dir : Bytes → Bytes
unfolding clean before_last
dir p = elim (before_last p b'/') [ none ↦ dot | some front ↦ clean (front ++ slash) ]

-- `path.Ext(p)`: from the last dot of the last element on, on the bytes from the last one back.
unfoldable pub ext_back : Bytes → Bytes → Bytes
ext_back behind [] = []
ext_back behind (c ∷ s) =
    let on = ext_back (c ∷ behind) s in
    if nat_beq c b'/' then [] else if nat_beq c b'.' then c ∷ behind else on

unfoldable pub ext : Bytes → Bytes
unfolding ext_back
ext p = ext_back [] (reverse p)
