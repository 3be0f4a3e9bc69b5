-- ===== src/Server/FileCache/Limit.antt =====
-- The loop of `purgeLastElementsTillLimit` of internal/server/file-cache.go: it ends exactly if the
-- most recently used file fits, and then removes no more than it has to.
pub mod Saving
pub mod Dropping
use mathlib.Core.List.{append_assoc, append-nil}
use mathlib.Core.Path.{subst}
use nocc.Common.Sha256.{Sha256, sha256_comparable, sha256_beq, sha256_beq_iff}
use nocc.Prelude.Dict.{
  Dict, get, delete, sum_of, sum_of-delete, get-delete_ne, get-delete_self, IsMap,
}
use nocc.Prelude.{
  ℕ, zero, suc, ◌+◌, ◌-◌, ◌≤◌, ◌<◌, Bool, true, false, Option, none, some, List, [], ◌∷◌, ◌++◌, ◌≡◌,
  ◌≢◌, ◌⊎◌, inl, inr, refl, sym, ap, ◌∙◌, arith, length, length-append, ltb, if◌then◌else◌,
  Bool-cases, Option-cases, ◌==◌, same_self,
}
use nocc.Server.FileCache.Accounting.{IsAccounted, purge_once-IsAccounted, le-sum_of}
use nocc.Server.FileCache.Order.Purge.{Purged, purge_once-Purged, purge_once_single}
use nocc.Server.FileCache.Order.{In, IsOrdered}
use nocc.Server.FileCache.{FileCache, CachedFile, purge_once, purge_till_limit}

-- A list is empty or has a last node.
snoc_cases : (ns : List ℕ) → (ns ≡ []) ⊎ ((xs : List ℕ) × (x : ℕ) × (ns ≡ xs ++ x ∷ []))
snoc_cases [] = inl refl
snoc_cases (n ∷ ns) = elim (snoc_cases ns) [
  | inl e ↦ inr ([], n, ap (◌∷◌ n) e)
  | inr (xs, x, e) ↦ inr (n ∷ xs, x, ap (◌∷◌ n) e)
]

no_keys : {V : Type 0} (m : Dict Sha256 V) → ((k : Sha256) → get k m ≡ none) → m ≡ []
unfolding get
no_keys [] h = refl
no_keys ((k, v) ∷ m) h = cc (rw (same_self k) at (h k))

rest_none :
    (c : FileCache) (n : ℕ)
    → IsOrdered c (n ∷ [])
    → (k : Sha256) → get k (delete (c.nodes n).key c.table) ≡ none
rest_none c n o k =
    let key = (c.nodes n).key in
    elim (Bool-cases (sha256_beq key k)) [
      | inl same ↦ rw (← (sha256_beq_iff key k).0 same) (get-delete_self key c.table o.once)
      | inr other ↦
          let ne : key ≢ k = λ e. ground (arith, sha256_beq_iff key k) in
          get-delete_ne key k c.table ne ∙ (elim (Option-cases (get k c.table)) [
            | inl gone ↦ gone
            | inr (g, got) ↦
                let (i, e) = o.owned k g got in
                absurd (
                  ne (
                    (elim i [ inl at ↦ ap (λ a. (c.nodes a).key) (sym at) | inr x ↦ absurd x ])
                    ∙ e))
          ])
    ]

-- With one node there is one file.
sum_of_single :
    (c : FileCache) (n : ℕ) {f : CachedFile} (g : CachedFile → ℕ)
    → IsOrdered c (n ∷ [])
    → get (c.nodes n).key c.table ≡ some f
    → sum_of g c.table ≡ g f
sum_of_single c n {f} g o got =
    let key = (c.nodes n).key in
    let rest = no_keys (delete key c.table) (rest_none c n o) in
    omega (arith, sum_of-delete g key c.table got, ap (sum_of g) rest)

-- The rounds keep the head and its file.
purge_once-head :
    (c : FileCache) (hd : ℕ) (ns : List ℕ) {f : CachedFile}
    → IsOrdered c (hd ∷ ns)
    → get (c.nodes hd).key c.table ≡ some f
    → (ms : List ℕ) × IsOrdered (purge_once c) (hd ∷ ms)
      × (get ((purge_once c).nodes hd).key (purge_once c).table ≡ some f)
purge_once-head c hd ns {f} o got = elim (snoc_cases ns) [
  | inl e ↦
      let same = purge_once_single c hd (subst (λ l. IsOrdered c (hd ∷ l)) e o) in
      (ns, rw same o, rw same got)
  | inr (xs, x, e) ↦
      let (g, p) = purge_once-Purged c hd x xs (subst (λ l. IsOrdered c (hd ∷ l)) e o) in
      (xs, p.ordered, ap (λ k. get k (purge_once c).table) (p.key hd) ∙ p.rest hd (inl refl) ∙ got)
]

-- If the most recently used file is over the limit by itself, the loop never ends.
pub purge_till_limit-eq-none :
    (fuel limit : ℕ) (c : FileCache) (hd : ℕ) (ns : List ℕ) {f : CachedFile}
    → IsAccounted c
    → IsOrdered c (hd ∷ ns)
    → get (c.nodes hd).key c.table ≡ some f
    → limit < f.file_size
    → purge_till_limit fuel limit c ≡ none
unfolding purge_till_limit
purge_till_limit-eq-none zero limit c hd ns a o got big = refl
purge_till_limit-eq-none (suc fuel) limit c hd ns {f} a o got big =
    let le = le-sum_of (λ (g : CachedFile). g.file_size) (c.nodes hd).key {f = f} c got in
    let (ms, o', got') = purge_once-head c hd ns o got in
    ground (
      arith,
      a.size,
      purge_till_limit-eq-none fuel limit (purge_once c) hd ms {f = f} (purge_once-IsAccounted c a)
          o' got' big,
    )

-- What the loop owes: `d` keeps the head and the nodes `kept` behind it, fits the limit, and has
-- lost only what it had to.
abbrev pub Needed : FileCache → ℕ → FileCache → List ℕ → Type 0
Needed c limit d [] = d ≡ c
Needed c limit d (x ∷ _) =
    (f : CachedFile) × (get (c.nodes x).key c.table ≡ some f)
    × (limit < d.total_size_on_disk + f.file_size)

pub record Settled (c : FileCache) (hd : ℕ) (ns : List ℕ) (limit : ℕ) (d : FileCache) : Type 0 where
  pub kept : List ℕ
  pub dropped : List ℕ
  pub split : ns ≡ kept ++ dropped
  pub ordered : IsOrdered d (hd ∷ kept)
  pub key : (a : ℕ) → (d.nodes a).key ≡ (c.nodes a).key
  pub small : d.total_size_on_disk ≤ limit
  pub same : (a : ℕ) → In a (hd ∷ kept) → get (c.nodes a).key d.table ≡ get (c.nodes a).key c.table
  pub needed : Needed c limit d dropped

In-append : (a : ℕ) (xs ys : List ℕ) → In a xs → In a (xs ++ ys)
In-append a [] ys i = absurd i
In-append a (x ∷ xs) ys (inl e) = inl e
In-append a (x ∷ xs) ys (inr i) = inr (In-append a xs ys i)

In-split-head : (x : ℕ) (xs ys : List ℕ) → In x (xs ++ x ∷ ys)
In-split-head x [] ys = inl refl
In-split-head x (a ∷ xs) ys = inr (In-split-head x xs ys)

In-prefix : (a hd : ℕ) (ns xs ys : List ℕ) → ns ≡ xs ++ ys → In a (hd ∷ xs) → In a (hd ∷ ns)
In-prefix a hd ns xs ys e (inl h) = inl h
In-prefix a hd ns xs ys e (inr i) = inr (subst (In a) (sym e) (In-append a xs ys i))

-- One more round before the others.
Settled-round :
    (c : FileCache) (hd t : ℕ) (xs : List ℕ) (limit : ℕ) {f : CachedFile} {d : FileCache}
    → limit < c.total_size_on_disk
    → f.file_size ≤ c.total_size_on_disk
    → Purged c (purge_once c) (hd ∷ xs) t f
    → Settled (purge_once c) hd xs limit d
    → Settled c hd (xs ++ t ∷ []) limit d
Settled-round c hd t xs limit {f} {d} over le p s = record {
  kept = s.kept;
  dropped = s.dropped ++ t ∷ [];
  split = rw s.split (append_assoc s.kept s.dropped (t ∷ []));
  ordered = s.ordered;
  key = λ a. s.key a ∙ p.key a;
  small = s.small;
  same = λ a i.
      ap (λ k. get k d.table) (sym (p.key a))
      ∙ s.same a i
      ∙ ap (λ k. get k (purge_once c).table) (p.key a)
      ∙ p.rest a (In-prefix a hd xs s.kept s.dropped s.split i);
  needed = more s.dropped s.split s.needed;
}
  where
    more :
        (l : List ℕ)
        → xs ≡ s.kept ++ l
        → Needed (purge_once c) limit d l
        → Needed c limit d (l ++ t ∷ [])
    more [] e n = (f, p.was, omega (arith, ap (λ (y : FileCache). y.total_size_on_disk) n, p.less))
    more (x ∷ l) e (g, got, big) =
        let i : In x (hd ∷ xs) = inr (subst (In x) (sym e) (In-split-head x s.kept l)) in
        (g, sym (p.rest x i) ∙ ap (λ k. get k (purge_once c).table) (sym (p.key x)) ∙ got, big)

within-Settled :
    (c : FileCache) (hd : ℕ) (ns : List ℕ) (limit : ℕ)
    → IsOrdered c (hd ∷ ns)
    → c.total_size_on_disk ≤ limit
    → Settled c hd ns limit c
within-Settled c hd ns limit o le = record {
  kept = ns;
  dropped = [];
  split = sym (append-nil ns);
  ordered = o;
  key = λ a. refl;
  same = λ a i. refl;
  small = le;
  needed = refl;
}

-- On a cache in order, whose size on disk is that of its files: if the most recently used file
-- fits, the loop ends within as many rounds as there are files. The files kept are the most
-- recently used ones, in order, and no longer run of them would fit.
pub purge_till_limit-Settled :
    (fuel limit : ℕ) (c : FileCache) (hd : ℕ) (ns : List ℕ) {f : CachedFile}
    → length ns < fuel
    → IsAccounted c
    → IsOrdered c (hd ∷ ns)
    → get (c.nodes hd).key c.table ≡ some f
    → f.file_size ≤ limit
    → (d : FileCache) × (purge_till_limit fuel limit c ≡ some d) × Settled c hd ns limit d
unfolding purge_till_limit
purge_till_limit-Settled zero limit c hd ns l a o got small = absurd (omega arith)
purge_till_limit-Settled (suc fuel) limit c hd ns {f} l a o got small =
    elim (Bool-cases (ltb limit c.total_size_on_disk)) [
      | inr fits ↦ (c, rw fits, within-Settled c hd ns limit o (ground arith))
      | inl over ↦ elim (snoc_cases ns) [
        | inl e ↦
            let one =
              sum_of_single c hd (λ (g : CachedFile). g.file_size)
                (subst (λ l. IsOrdered c (hd ∷ l)) e o) got in
            absurd (ground (arith, a.size, one))
        | inr (xs, t, e) ↦
            let (g, p) = purge_once-Purged c hd t xs (subst (λ l. IsOrdered c (hd ∷ l)) e o) in
            let got' =
              ap (λ k. get k (purge_once c).table) (p.key hd) ∙ p.rest hd (inl refl) ∙ got in
            let le = le-sum_of (λ (y : CachedFile). y.file_size) (c.nodes t).key {f = g} c p.was in
            let short : length xs < fuel = omega (arith, ap length e, length-append xs (t ∷ [])) in
            let (d, done, s) =
              purge_till_limit-Settled fuel limit (purge_once c) hd xs {f = f} short
                (purge_once-IsAccounted c a) p.ordered got' small in
            (
              d,
              rw over done,
              subst (λ l. Settled c hd l limit d) (sym e)
                  (Settled-round c hd t xs limit (ground arith) (omega (arith, le, a.size)) p s),
            )
      ]
    ]
