-- ===== src/Server/FileCache/Order.antt =====
-- The order of use in internal/server/file-cache.go: the linked list against a list of keys.
pub mod Lookup
pub mod Save
pub mod Purge
use mathlib.Core.Option
use mathlib.Core.Path.{ap₂, subst}
use nocc.Common.Sha256.{Sha256, sha256_comparable, sha256_beq, sha256_beq_iff}
use nocc.Prelude.Dict.{get, IsMap, put, get-put_self, get-put_ne, put-IsMap}
use nocc.Prelude.Maybe.{◌>>=◌}
use nocc.Prelude.{
  ℕ, suc, ◌+◌, ◌<◌, ◌≤◌, Bool, true, false, ◌||◌, Option, none, some, List, [], ◌∷◌, ◌++◌, map,
  Bytes, ◌≡◌, ◌≢◌, ◌⊎◌, inl, inr, refl, sym, ap, ◌∙◌, arith, if◌then◌else◌, ◌==◌, Comparable,
  Option-cases, Bool-cases, nat_beq,
}
use nocc.Server.FileCache.Links.{
  first, last, Links, NotIn, Distinct, Parted, Distinct-Parted, NotIn-append, append-NotIn,
  Links-append, append-Links, update-Links, set_next-Links, set_prev-Links,
}
use nocc.Server.FileCache.{
  FileCache, CachedFile, CachePath, Heap, LruNode, update, set_next, set_prev, is_at, move_to_front,
  lookup_in_cache, unlink_next, save_entry, add_entry, link_head, tail_or, fresh_path,
}

abbrev pub In : ℕ → List ℕ → Type 0
In a [] = ⊥
In a (b ∷ bs) = (a ≡ b) ⊎ In a bs

abbrev pub Below : ℕ → List ℕ → Type 0
Below n [] = Unit
Below n (a ∷ xs) = (a < n) × Below n xs

Below-mono : (n m : ℕ) (xs : List ℕ) → n ≤ m → Below n xs → Below m xs
Below-mono n m [] le h = tt
Below-mono n m (x ∷ xs) le h = (omega arith, Below-mono n m xs le h.1)

pub Below-append : (n : ℕ) (xs ys : List ℕ) → Below n (xs ++ ys) → Below n xs × Below n ys
Below-append n [] ys h = (tt, h)
Below-append n (x ∷ xs) ys h = let r = Below-append n xs ys h.1 in ((h.0, r.0), r.1)

pub append-Below : (n : ℕ) (xs ys : List ℕ) → Below n xs → Below n ys → Below n (xs ++ ys)
append-Below n [] ys h k = k
append-Below n (x ∷ xs) ys h k = (h.0, append-Below n xs ys h.1 k)

-- A node of a list stands somewhere in it.
pub In-split :
    (a : ℕ) (ns : List ℕ) → In a ns → (pre : List ℕ) × (suf : List ℕ) × (ns ≡ pre ++ a ∷ suf)
In-split a [] h = absurd h
In-split a (b ∷ bs) (inl e) = ([], bs, rw e)
In-split a (b ∷ bs) (inr h) = let (pre, suf, e) = In-split a bs h in (b ∷ pre, suf, ap (◌∷◌ b) e)

pub In-middle : (a n : ℕ) (pre suf : List ℕ) → In a (pre ++ n ∷ suf) → In a (n ∷ (pre ++ suf))
In-middle a n [] suf h = h
In-middle a n (b ∷ pre) suf (inl e) = inr (inl e)
In-middle a n (b ∷ pre) suf (inr h) = elim (In-middle a n pre suf h) [
  | inl e ↦ inl e
  | inr k ↦ inr (inr k)
]

pub middle-In : (a n : ℕ) (pre suf : List ℕ) → In a (n ∷ (pre ++ suf)) → In a (pre ++ n ∷ suf)
middle-In a n [] suf h = h
middle-In a n (b ∷ pre) suf (inl e) = inr (middle-In a n pre suf (inl e))
middle-In a n (b ∷ pre) suf (inr (inl e)) = inl e
middle-In a n (b ∷ pre) suf (inr (inr h)) = inr (middle-In a n pre suf (inr h))

-- The list `ns`, the most recently used node first, is the linked list of the cache, and the table
-- has one entry for each of its nodes.
pub record IsOrdered (c : FileCache) (ns : List ℕ) : Type 0 where
  pub head : c.lru_head ≡ first ns none
  pub tail : c.lru_tail ≡ last none ns
  pub links : Links c.nodes none ns none
  pub distinct : Distinct ns
  pub below : Below c.allocated ns
  pub once : IsMap c.table
  pub owned :
      (k : Sha256) (f : CachedFile)
      → get k c.table ≡ some f
      → In f.lru_node ns × ((c.nodes f.lru_node).key ≡ k)
  pub filed :
      (a : ℕ)
      → In a ns
      → (f : CachedFile) × (get (c.nodes a).key c.table ≡ some f) × (f.lru_node ≡ a)

-- The keys in order of use: what the cache is, without its pointers.
abbrev pub keys : Heap → List ℕ → List Sha256
keys h [] = []
keys h (a ∷ ns) = (h a).key ∷ keys h ns

abbrev pub contains : Sha256 → List Sha256 → Bool
contains k [] = false
contains k (j ∷ ks) = sha256_beq j k || contains k ks

abbrev pub remove : Sha256 → List Sha256 → List Sha256
remove k [] = []
remove k (j ∷ ks) = if sha256_beq j k then ks else j ∷ remove k ks

-- The key moves to the front, if it is there.
abbrev pub touch : Sha256 → List Sha256 → List Sha256
touch k ks = if contains k ks then k ∷ remove k ks else ks

pub keys_cong :
    (h k : Heap) (ns : List ℕ) → ((a : ℕ) → In a ns → (k a).key ≡ (h a).key) → keys k ns ≡ keys h ns
keys_cong h k [] e = refl
keys_cong h k (a ∷ ns) e = ap₂ ◌∷◌ (e a (inl refl)) (keys_cong h k ns (λ b i. e b (inr i)))

touch_absent :
    (h : Heap) (k : Sha256) (ns : List ℕ)
    → ((a : ℕ) → In a ns → (h a).key ≢ k)
    → contains k (keys h ns) ≡ false
touch_absent h k [] ne = refl
touch_absent h k (a ∷ ns) ne =
    ground (
      arith,
      ne a (inl refl),
      sha256_beq_iff (h a).key k,
      touch_absent h k ns (λ b i. ne b (inr i)),
    )

-- The key of a node in the middle, with no node of that key before it.
touch_middle :
    (h : Heap) (k : Sha256) (n : ℕ) (pre suf : List ℕ)
    → (h n).key ≡ k
    → ((a : ℕ) → In a pre → (h a).key ≢ k)
    → (contains k (keys h (pre ++ n ∷ suf)) ≡ true)
      × (remove k (keys h (pre ++ n ∷ suf)) ≡ keys h (pre ++ suf))
touch_middle h k n [] suf e ne = ground (arith, sha256_beq_iff (h n).key k)
touch_middle h k n (a ∷ pre) suf e ne = ground (
  arith,
  ne a (inl refl),
  sha256_beq_iff (h a).key k,
  touch_middle h k n pre suf e (λ b i. ne b (inr i)),
)

touch_found :
    (h : Heap) (k : Sha256) (n : ℕ) (pre suf : List ℕ)
    → (h n).key ≡ k
    → ((a : ℕ) → In a pre → (h a).key ≢ k)
    → touch k (keys h (pre ++ n ∷ suf)) ≡ k ∷ keys h (pre ++ suf)
touch_found h k n pre suf e ne =
    let (found, rest) = touch_middle h k n pre suf e ne in rw (found, rest)

In-NotIn : (a n : ℕ) (ns : List ℕ) → In a ns → NotIn n ns → a ≢ n
In-NotIn a n (b ∷ ns) (inl e) d = λ p. d.0 (sym p ∙ e)
In-NotIn a n (b ∷ ns) (inr i) d = In-NotIn a n ns i d.1
In-NotIn a n [] i d = absurd i

In-front : (a n : ℕ) (pre suf : List ℕ) → In a pre → In a (pre ++ n ∷ suf)
In-front a n [] suf i = absurd i
In-front a n (b ∷ pre) suf (inl e) = inl e
In-front a n (b ∷ pre) suf (inr i) = inr (In-front a n pre suf i)

module _ (c : FileCache) (ns : List ℕ) (o : IsOrdered c ns) where
  -- A key with no entry has no node.
  absent_ne : (k : Sha256) → get k c.table ≡ none → (a : ℕ) → In a ns → (c.nodes a).key ≢ k
  absent_ne k e a i p = let (f, got, _) = o.filed a i in cc (rw p at got)

  -- A key has one node.
  other_ne :
      (k : Sha256) {f : CachedFile}
      → get k c.table ≡ some f
      → (a : ℕ) → In a ns
      → a ≢ f.lru_node
      → (c.nodes a).key ≢ k
  other_ne k {f} e a i ne p =
      let (g, got, at) = o.filed a i in
      let same : some g ≡ some f = sym (rw p at got) ∙ e in
      ne (sym at ∙ ap (λ x. Option.get_or (Option.map (λ (y : CachedFile). y.lru_node) x) a) same)

-- The fields that the order does not read.
pub kept-IsOrdered :
    (c d : FileCache) (ns : List ℕ)
    → IsOrdered c ns
    → (d.lru_head ≡ c.lru_head)
      × (d.lru_tail ≡ c.lru_tail)
      × (d.nodes ≡ c.nodes)
      × (d.table ≡ c.table)
    → c.allocated ≤ d.allocated
    → IsOrdered d ns
kept-IsOrdered c d ns o (h, t, n, m) le = record {
  head = h ∙ o.head;
  tail = t ∙ o.tail;
  links = subst (λ x. Links x none ns none) (sym n) o.links;
  distinct = o.distinct;
  below = Below-mono c.allocated d.allocated ns le o.below;
  once = subst (λ x. IsMap x) (sym m) o.once;
  owned = λ k f got.
      let (i, e) = o.owned k f (rw m at got) in (i, ap (λ (x : Heap). (x f.lru_node).key) n ∙ e);
  filed = λ a i. let (f, got, e) = o.filed a i in (f, rw (m, n) got, e);
}
