-- ===== src/Server/FileCache/Links.antt =====
-- The doubly linked list of internal/server/file-cache.go, xs a segment of the heap between two
-- pointers, and what the pointer writes of the cache do to a segment.
use nocc.Prelude.{ℕ, Option, none, some, List, [], ◌∷◌, ◌++◌, ◌≡◌, ◌≢◌, sym, arith}
use nocc.Server.FileCache.{LruNode, Heap, update, set_next, set_prev}

abbrev pub first : List ℕ → Option ℕ → Option ℕ
first [] r = r
first (a ∷ _) r = some a

abbrev pub last : Option ℕ → List ℕ → Option ℕ
last q [] = q
last q (a ∷ xs) = last (some a) xs

-- The nodes `ns` are linked one to the next; `q` stands before the first, `r` behind the last.
abbrev pub Links : Heap → Option ℕ → List ℕ → Option ℕ → Type 0
Links h q [] r = Unit
Links h q (a ∷ xs) r = ((h a).prev ≡ q) × ((h a).next ≡ first xs r) × Links h (some a) xs r

abbrev pub NotIn : ℕ → List ℕ → Type 0
NotIn a [] = Unit
NotIn a (b ∷ bs) = (a ≢ b) × NotIn a bs

abbrev pub Distinct : List ℕ → Type 0
Distinct [] = Unit
Distinct (a ∷ xs) = NotIn a xs × Distinct xs

pub NotIn-append : (a : ℕ) (xs ys : List ℕ) → NotIn a (xs ++ ys) → NotIn a xs × NotIn a ys
NotIn-append a [] ys h = (tt, h)
NotIn-append a (x ∷ xs) ys h = let r = NotIn-append a xs ys h.1 in ((h.0, r.0), r.1)

pub append-NotIn : (a : ℕ) (xs ys : List ℕ) → NotIn a xs → NotIn a ys → NotIn a (xs ++ ys)
append-NotIn a [] ys h k = k
append-NotIn a (x ∷ xs) ys h k = (h.0, append-NotIn a xs ys h.1 k)

-- A list with one node taken out of the middle.
pub record Parted (pre : List ℕ) (n : ℕ) (suf : List ℕ) : Type 0 where
  pub rest : Distinct (pre ++ suf)
  pub absent : NotIn n (pre ++ suf)
  pub front : Distinct pre
  pub back : Distinct suf

pub Distinct-Parted :
    (pre : List ℕ) (n : ℕ) (suf : List ℕ) → Distinct (pre ++ n ∷ suf) → Parted pre n suf
Distinct-Parted [] n suf d = record { rest = d.1; absent = d.0; front = tt; back = d.1 }
Distinct-Parted (a ∷ pre) n suf d =
    let r = Distinct-Parted pre n suf d.1 in
    let s = NotIn-append a pre (n ∷ suf) d.0 in
    record {
      rest = (append-NotIn a pre suf s.0 s.1.1, r.rest);
      absent = ((λ e. s.1.0 (sym e)), r.absent);
      front = (s.0, r.front);
      back = r.back;
    }

pub Links-append :
    (h : Heap) (q : Option ℕ) (xs ys : List ℕ) (r : Option ℕ)
    → Links h q (xs ++ ys) r
    → Links h q xs (first ys r) × Links h (last q xs) ys r
Links-append h q [] ys r l = (tt, l)
Links-append h q (x ∷ []) ys r l = ((l.0, l.1, tt), l.2)
Links-append h q (x ∷ y ∷ xs) ys r l =
    let s = Links-append h (some x) (y ∷ xs) ys r l.2 in ((l.0, l.1, s.0), s.1)

pub append-Links :
    (h : Heap) (q : Option ℕ) (xs ys : List ℕ) (r : Option ℕ)
    → Links h q xs (first ys r)
    → Links h (last q xs) ys r
    → Links h q (xs ++ ys) r
append-Links h q [] ys r l m = m
append-Links h q (x ∷ []) ys r l m = (l.0, l.1, m)
append-Links h q (x ∷ y ∷ xs) ys r l m = (l.0, l.1, append-Links h (some x) (y ∷ xs) ys r l.2 m)

-- A write at a node outside of a segment leaves it alone.
pub update-Links :
    (h : Heap) (p : ℕ) (v : LruNode) (q : Option ℕ) (xs : List ℕ) (r : Option ℕ)
    → NotIn p xs
    → Links h q xs r
    → Links (update h p v) q xs r
update-Links h p v q [] r d l = tt
update-Links h p v q (a ∷ xs) r d l =
    (ground arith, ground arith, update-Links h p v (some a) xs r d.1 l.2)

-- The last node is one of the nodes.
pub last-ne : (a b p : ℕ) (xs : List ℕ) → NotIn a (b ∷ xs) → last (some b) xs ≡ some p → a ≢ p
last-ne a b p [] d e = ground arith
last-ne a b p (c ∷ xs) d e = last-ne a c p xs d.1 e

-- A new pointer behind the last node.
pub set_next-Links :
    (h : Heap) (p : ℕ) (y : Option ℕ) (q : Option ℕ) (xs : List ℕ) (r : Option ℕ)
    → Distinct xs
    → last none xs ≡ some p
    → Links h q xs r
    → Links (set_next h p y) q xs y
set_next-Links h p y q [] r d e l = tt
set_next-Links h p y q (a ∷ []) r d e l = (ground arith, ground arith, tt)
set_next-Links h p y q (a ∷ b ∷ xs) r d e l =
    let ne = last-ne a b p xs d.0 e in
    (ground arith, ground arith, set_next-Links h p y (some a) (b ∷ xs) r d.1 e l.2)

-- A new pointer before the first node.
pub set_prev-Links :
    (h : Heap) (y : Option ℕ) (q : Option ℕ) (a : ℕ) (xs : List ℕ) (r : Option ℕ)
    → Distinct (a ∷ xs)
    → Links h q (a ∷ xs) r
    → Links (set_prev h a y) y (a ∷ xs) r
set_prev-Links h y q a xs r d l =
    (ground arith, ground arith, update-Links h a _ (some a) xs r d.0 l.2)
