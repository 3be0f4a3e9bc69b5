-- ===== src/Server/FileCache/Order/Lookup.antt =====
-- `LookupInCache` of internal/server/file-cache.go on the order of use.
use mathlib.Core.Option
use mathlib.Core.Path.{subst}
use nocc.Common.Sha256.{Sha256, sha256_comparable, sha256_beq_iff}
use nocc.Prelude.Dict.{get}
use nocc.Prelude.{
  ℕ, none, some, List, [], ◌∷◌, ◌++◌, ◌≡◌, ◌≢◌, inl, inr, refl, sym, ap, ◌∙◌, arith, Option-cases,
}
use nocc.Server.FileCache.Links.{last, Links, Distinct-Parted, NotIn-append}
use nocc.Server.FileCache.Moves.{move_to_front_lem}
use nocc.Server.FileCache.Order.{
  In-split, In-middle, middle-In, In-front, In-NotIn, Below, Below-append, append-Below, IsOrdered,
  keys, keys_cong, touch, touch_absent, touch_found, absent_ne, other_ne,
}
use nocc.Server.FileCache.{
  FileCache, CachedFile, move_to_front, unlink_next, to_front, lookup_in_cache,
}

-- What a lookup makes of the cache: the same files, and the key in front if it is there.
pub record Looked (c : FileCache) (ns : List ℕ) (key : Sha256) : Type 0 where
  pub after : FileCache
  pub order : List ℕ
  pub looks :
      lookup_in_cache c key ≡ some (after, Option.map (λ f. f.path_in_cache) (get key c.table))
  pub ordered : IsOrdered after order
  pub touched : keys after.nodes order ≡ touch key (keys c.nodes ns)
  pub table : after.table ≡ c.table

move_to_front-same :
    (c : FileCache) (n : ℕ) {d : FileCache}
    → move_to_front c n ≡ some d
    → (d.table ≡ c.table) × (d.allocated ≡ c.allocated)
unfolding move_to_front unlink_next to_front
move_to_front-same c n e = ground arith

-- The invariant only depends on the order through its nodes, once these are linked.
reorder-IsOrdered :
    (c d : FileCache) (n : ℕ) (pre suf : List ℕ)
    → IsOrdered c (pre ++ n ∷ suf)
    → d.lru_head ≡ some n
    → d.lru_tail ≡ last (some n) (pre ++ suf)
    → Links d.nodes none (n ∷ (pre ++ suf)) none
    → ((a : ℕ) → (d.nodes a).key ≡ (c.nodes a).key)
    → (d.table ≡ c.table) × (d.allocated ≡ c.allocated)
    → IsOrdered d (n ∷ (pre ++ suf))
reorder-IsOrdered c d n pre suf o h t l k s =
    let parts = Distinct-Parted pre n suf o.distinct in
    let b = Below-append c.allocated pre (n ∷ suf) o.below in
    record {
      head = h;
      tail = t;
      links = l;
      distinct = (parts.absent, parts.rest);
      below =
          subst (λ x. Below x (n ∷ (pre ++ suf))) (sym s.1)
            (b.1.0, append-Below c.allocated pre suf b.0 b.1.1);
      once = rw (s.0) o.once;
      owned = λ key f got.
          let (i, e) = o.owned key f (rw (s.0) at got) in
          (In-middle _ n pre suf i, k f.lru_node ∙ e);
      filed = λ a i.
          let (f, got, at) = o.filed a (middle-In a n pre suf i) in (f, rw (k a, s.0) got, at);
    }

module _ (c : FileCache) (key : Sha256) where
  lookup_miss : (ns : List ℕ) → IsOrdered c ns → get key c.table ≡ none → Looked c ns key
  unfolding lookup_in_cache
  lookup_miss ns o e = record {
    after = c;
    order = ns;
    looks = rw (e, lookup_in_cache);
    ordered = o;
    touched = rw (touch_absent c.nodes key ns (absent_ne c ns o key e));
    table = refl;
  }

  lookup_head :
      (n : ℕ) (ns : List ℕ) {f : CachedFile}
      → IsOrdered c (n ∷ ns)
      → get key c.table ≡ some f
      → f.lru_node ≡ n
      → Looked c (n ∷ ns) key
  unfolding lookup_in_cache
  lookup_head n ns {f} o e at =
      let head : c.lru_head ≡ some n = o.head in
      record {
        after = c;
        order = n ∷ ns;
        looks = ground arith;
        ordered = o;
        touched = ground (arith, (o.owned key f e).1, sha256_beq_iff (c.nodes n).key key);
        table = refl;
      }

  lookup_middle :
      (hd : ℕ) (pre suf : List ℕ) {f : CachedFile}
      → IsOrdered c (hd ∷ (pre ++ f.lru_node ∷ suf))
      → get key c.table ≡ some f
      → Looked c (hd ∷ (pre ++ f.lru_node ∷ suf)) key
  unfolding lookup_in_cache
  lookup_middle hd pre suf {f} o e =
      let n = f.lru_node in
      let parts = Distinct-Parted (hd ∷ pre) n suf o.distinct in
      let (d, moved, h, t, l, k) =
        move_to_front_lem c hd n pre suf o.head o.tail o.links o.distinct in
      let same = move_to_front-same c n moved in
      let ne : hd ≢ n = λ p. parts.absent.0 (sym p) in
      let front = touch_found c.nodes key n (hd ∷ pre) suf (o.owned key f e).1 (λ a i.
        other_ne c _ o key e a (In-front a n (hd ∷ pre) suf i)
          (In-NotIn a n (hd ∷ pre) i (NotIn-append n (hd ∷ pre) suf parts.absent).0)) in
      record {
        after = d;
        order = n ∷ hd ∷ (pre ++ suf);
        looks = ground arith;
        ordered = reorder-IsOrdered c d n (hd ∷ pre) suf o h t l k same;
        touched =
            keys_cong c.nodes d.nodes (n ∷ hd ∷ (pre ++ suf)) (λ a _. k a)
            ∙ ap (λ x. x ∷ keys c.nodes (hd ∷ (pre ++ suf))) (o.owned key f e).1
            ∙ sym front;
        table = same.0;
      }

  found :
      (pre suf : List ℕ) {f : CachedFile}
      → get key c.table ≡ some f
      → IsOrdered c (pre ++ f.lru_node ∷ suf)
      → Looked c (pre ++ f.lru_node ∷ suf) key
  found [] suf {f} e o = lookup_head f.lru_node suf o e refl
  found (hd ∷ pre) suf e o = lookup_middle hd pre suf o e

  -- On a cache in order a lookup never meets a nil pointer, and returns the path in the table. A key
  -- that is there becomes the most recently used one, and all others keep their order.
  pub lookup-Looked : (ns : List ℕ) → IsOrdered c ns → Looked c ns key
  lookup-Looked ns o = elim (Option-cases (get key c.table)) [
    | inl e ↦ lookup_miss ns o e
    | inr (f, e) ↦
        let (pre, suf, split) = In-split f.lru_node ns (o.owned key f e).0 in
        subst (λ x. Looked c x key) (sym split) (found pre suf e (subst (IsOrdered c) split o))
  ]
