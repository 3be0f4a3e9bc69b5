-- ===== src/Server/FileCache/Order/Purge.antt =====
-- One round of `purgeLastElementsTillLimit` of internal/server/file-cache.go on the order of use.
use mathlib.Core.Path.{subst}
use native.Mathlib.Nat.{le_refl}
use nocc.Common.Sha256.{sha256_comparable}
use nocc.Prelude.Dict.{get, delete, get-delete_ne, get-delete_self, delete-IsMap}
use nocc.Prelude.{
  ℕ, ◌-◌, Option, none, some, List, [], ◌∷◌, ◌++◌, ◌≡◌, ◌≢◌, inl, inr, refl, sym, ap, ◌∙◌, arith,
}
use nocc.Server.FileCache.Links.{last, Distinct-Parted, NotIn-append, Links-append, set_next-Links}
use nocc.Server.FileCache.Moves.{last-append, last-some}
use nocc.Server.FileCache.Order.{
  In, In-front, In-NotIn, Below-append, IsOrdered, kept-IsOrdered, other_ne,
}
use nocc.Server.FileCache.{FileCache, CachedFile, Heap, set_next, purge_once, forget_file}

In-back : (a t : ℕ) (xs : List ℕ) → a ≢ t → In a (xs ++ t ∷ []) → In a xs
In-back a t [] ne (inl e) = absurd (ne e)
In-back a t [] ne (inr i) = absurd i
In-back a t (x ∷ xs) ne (inl e) = inl e
In-back a t (x ∷ xs) ne (inr i) = inr (In-back a t xs ne i)

In-here : (t : ℕ) (xs ys : List ℕ) → In t (xs ++ t ∷ ys)
In-here t [] ys = inl refl
In-here t (x ∷ xs) ys = inr (In-here t xs ys)

set_next-key : (h : Heap) (p : ℕ) (y : Option ℕ) (a : ℕ) → (set_next h p y a).key ≡ (h a).key
set_next-key h p y a = ground arith

-- A cache that has lost its last node, whose file it was.
pub record Purged (c d : FileCache) (ns : List ℕ) (t : ℕ) (f : CachedFile) : Type 0 where
  pub was : get (c.nodes t).key c.table ≡ some f
  pub ordered : IsOrdered d ns
  pub key : (a : ℕ) → (d.nodes a).key ≡ (c.nodes a).key
  pub less : d.total_size_on_disk ≡ c.total_size_on_disk - f.file_size
  pub rest : (a : ℕ) → In a ns → get (c.nodes a).key d.table ≡ get (c.nodes a).key c.table

abbrev cut : FileCache → ℕ → ℕ → FileCache
cut c t p = record c {
  lru_tail = some p;
  nodes = set_next c.nodes p none;
  table = delete (c.nodes t).key c.table;
}

purge_once-eq :
    (c : FileCache) (t p : ℕ) {f : CachedFile}
    → c.lru_tail ≡ some t
    → (c.nodes t).prev ≡ some p
    → get (c.nodes t).key c.table ≡ some f
    → purge_once c ≡ forget_file (cut c t p) (some f)
unfolding purge_once
purge_once-eq c t p e pr got = ground arith

-- One node alone stays.
pub purge_once_single : (c : FileCache) (n : ℕ) → IsOrdered c (n ∷ []) → purge_once c ≡ c
unfolding purge_once
purge_once_single c n o = let pr = o.links.0 in let tail = o.tail in ground arith

module _ (c : FileCache) (hd t : ℕ) (pre : List ℕ) (o : IsOrdered c (hd ∷ (pre ++ t ∷ []))) where
  front_ne : (a : ℕ) → In a (hd ∷ pre) → (c.nodes a).key ≢ (c.nodes t).key
  front_ne a i =
      let (f, got, at) = o.filed t (In-here t (hd ∷ pre) []) in
      let parts = Distinct-Parted (hd ∷ pre) t [] o.distinct in
      let apart = In-NotIn a t (hd ∷ pre) i (NotIn-append t (hd ∷ pre) [] parts.absent).0 in
      other_ne c _ o (c.nodes t).key got a (In-front a t (hd ∷ pre) [] i) (λ e. apart (e ∙ at))

  cut-IsOrdered : (p : ℕ) → last (some hd) pre ≡ some p → IsOrdered (cut c t p) (hd ∷ pre)
  cut-IsOrdered p end =
      let parts = Distinct-Parted (hd ∷ pre) t [] o.distinct in
      let l = Links-append c.nodes none (hd ∷ pre) (t ∷ []) none o.links in
      record {
        head = o.head;
        tail = sym end;
        links = set_next-Links c.nodes p none none (hd ∷ pre) _ parts.front end l.0;
        distinct = parts.front;
        below = (Below-append c.allocated (hd ∷ pre) (t ∷ []) o.below).0;
        once = delete-IsMap (c.nodes t).key c.table o.once;
        owned = λ k f got.
            let ne : (c.nodes t).key ≢ k =
              λ e. cc (rw e at (get-delete_self (c.nodes t).key c.table o.once), got) in
            let (i, e) = o.owned k f (sym (get-delete_ne (c.nodes t).key k c.table ne) ∙ got) in
            let apart : f.lru_node ≢ t = λ q. ne (sym (ap (λ b. (c.nodes b).key) q) ∙ e) in
            (In-back f.lru_node t (hd ∷ pre) apart i, set_next-key c.nodes p none f.lru_node ∙ e);
        filed = λ a i.
            let (f, got, e) = o.filed a (In-front a t (hd ∷ pre) [] i) in
            let kept =
              get-delete_ne (c.nodes t).key (c.nodes a).key c.table (λ q. front_ne a i (sym q)) in
            (f, rw (set_next-key c.nodes p none a) (kept ∙ got), e);
      }

  forget_file-Purged :
      (p : ℕ) {f : CachedFile}
      → last (some hd) pre ≡ some p
      → get (c.nodes t).key c.table ≡ some f
      → Purged c (forget_file (cut c t p) (some f)) (hd ∷ pre) t f
  unfolding forget_file
  forget_file-Purged p end got =
      let o' = cut-IsOrdered p end in
      record {
        was = got;
        ordered =
            kept-IsOrdered (cut c t p) _ (hd ∷ pre) o' (refl, refl, refl, refl)
              (le_refl c.allocated);
        key = λ a. set_next-key c.nodes p none a;
        less = refl;
        rest = λ a i.
            get-delete_ne (c.nodes t).key (c.nodes a).key c.table (λ q. front_ne a i (sym q));
      }

  -- With two nodes or more, one round removes the last node and its file, and nothing else.
  pub purge_once-Purged : (f : CachedFile) × Purged c (purge_once c) (hd ∷ pre) t f
  purge_once-Purged =
      let (p, end) = last-some hd pre in
      let (f, got, _) = o.filed t (In-here t (hd ∷ pre) []) in
      let l = Links-append c.nodes none (hd ∷ pre) (t ∷ []) none o.links in
      let tail = o.tail ∙ last-append none (hd ∷ pre) t [] in
      let e = purge_once-eq c t p tail (l.1.0 ∙ end) got in
      (f, subst (λ d. Purged c d (hd ∷ pre) t f) (sym e) (forget_file-Purged p end got))
