-- ===== src/Server/FileCache/Order/Save.antt =====
-- The critical section of `SaveFileToCache` of internal/server/file-cache.go on the order of use.
use mathlib.Core.Path.{ap₂, subst}
use native.Mathlib.Nat.{le_refl}
use nocc.Common.Sha256.{Sha256, sha256_comparable, sha256_beq_iff}
use nocc.Prelude.Dict.{get, put, get-put, get-put_self, get-put_ne, put-IsMap}
use nocc.Prelude.{
  ℕ, ◌+◌, Option, none, some, List, [], ◌∷◌, ◌≡◌, ◌≢◌, inl, inr, refl, sym, ap, ◌∙◌, arith, Bytes,
  ◌==◌, Bool-cases,
}
use nocc.Server.FileCache.Links.{first, last, Links, NotIn, update-Links, set_prev-Links}
use nocc.Server.FileCache.Order.{In, Below, IsOrdered, keys, keys_cong, kept-IsOrdered, In-NotIn}
use nocc.Server.FileCache.{
  FileCache, fresh_path, CachedFile, CachePath, LruNode, Heap, update, add_entry, save_entry,
  link_head, tail_or,
}

Below-NotIn : (n : ℕ) (ns : List ℕ) → Below n ns → NotIn n ns
Below-NotIn n [] b = tt
Below-NotIn n (a ∷ ns) b = ((λ e. omega arith), Below-NotIn n ns b.1)

Below-suc : (n : ℕ) (ns : List ℕ) → Below n ns → Below (n + 1) ns
Below-suc n [] b = tt
Below-suc n (a ∷ ns) b = (omega arith, Below-suc n ns b.1)

-- The new node before the list, on the heap of `add_entry`.
record IsLinked (c : FileCache) (key : Sha256) (ns : List ℕ) (h : Heap) : Type 0 where
  links : Links h none (c.allocated ∷ ns) none
  new : (h c.allocated).key ≡ key
  old : (a : ℕ) → a ≢ c.allocated → (h a).key ≡ (c.nodes a).key

link_head_lem :
    (c : FileCache) (key : Sha256) (ns : List ℕ)
    → IsOrdered c ns
    → IsLinked c key ns (
        link_head
          (update c.nodes c.allocated (record { next = first ns none; prev = none; key = key }))
          (first ns none)
          c.allocated)
unfolding link_head
link_head_lem c key [] o = record {
  links = ground arith;
  new = ground arith;
  old = λ a ne. ground arith;
}
link_head_lem c key (hd ∷ ns) o =
    let n = c.allocated in
    let v : LruNode = record { next = some hd; prev = none; key = key } in
    let h = update c.nodes n v in
    let d = Below-NotIn n (hd ∷ ns) o.below in
    record {
      links = (
        ground arith,
        ground arith,
        set_prev-Links h (some n) none hd ns none o.distinct
            (update-Links c.nodes n v none (hd ∷ ns) none d o.links),
      );
      new = ground arith;
      old = λ a ne. ground arith;
    }

module _ (c : FileCache) (ns : List ℕ) (o : IsOrdered c ns) (key : Sha256)
    (new : get key c.table ≡ none) (v : CachedFile) (at : v.lru_node ≡ c.allocated) (h : Heap)
    (l : IsLinked c key ns h) where
  put-owned :
      (k : Sha256) (f : CachedFile)
      → get k (put key v c.table) ≡ some f
      → In f.lru_node (c.allocated ∷ ns) × ((h f.lru_node).key ≡ k)
  put-owned k f got = elim (Bool-cases (key == k)) [
    | inl same ↦
        let e : v ≡ f = ground (arith, get-put key k v c.table) in
        let p : key ≡ k = (sha256_beq_iff key k).0 same in rw (← e, at) (inl refl, l.new ∙ p)
    | inr other ↦
        let old = sym (get-put key k v c.table ∙ rw other) ∙ got in
        let (i, e) = o.owned k f old in
        (
          inr i,
          l.old f.lru_node
                (In-NotIn f.lru_node c.allocated ns i (Below-NotIn c.allocated ns o.below))
              ∙ e,
        )
  ]

  put-filed :
      (a : ℕ)
      → In a (c.allocated ∷ ns)
      → (f : CachedFile) × (get (h a).key (put key v c.table) ≡ some f) × (f.lru_node ≡ a)
  put-filed a (inl e) = (v, rw (e, l.new, get-put_self), at ∙ sym e)
  put-filed a (inr i) =
      let (f, got, is) = o.filed a i in
      let same = l.old a (In-NotIn a c.allocated ns i (Below-NotIn c.allocated ns o.below)) in
      let ne : key ≢ (c.nodes a).key = λ p. cc (new, rw (← p) at got) in
      (f, rw same (get-put_ne key (c.nodes a).key v c.table ne ∙ got), is)

tail_or_lem : (n : ℕ) (ns : List ℕ) → tail_or (last none ns) n ≡ last (some n) ns
tail_or_lem n [] = refl
tail_or_lem n (a ∷ []) = refl
tail_or_lem n (a ∷ b ∷ ns) = tail_or_lem n (b ∷ ns)

module _ (c : FileCache) (ns : List ℕ) (o : IsOrdered c ns) (key : Sha256)
    (new : get key c.table ≡ none) where
  linked : IsLinked c key ns (
      link_head
        (update c.nodes c.allocated (record { next = c.lru_head; prev = none; key = key }))
        c.lru_head
        c.allocated)
  linked =
      let n = c.allocated in
      let h = λ (hd : Option ℕ).
        link_head (update c.nodes n (record { next = hd; prev = none; key = key })) hd n in
      subst (λ hd. IsLinked c key ns (h hd)) (sym o.head) (link_head_lem c key ns o)

  add_entry-IsOrdered :
      (size : ℕ) (path : CachePath) → IsOrdered (add_entry c key size path) (c.allocated ∷ ns)
  unfolding add_entry
  add_entry-IsOrdered size path =
      let n = c.allocated in
      let v : CachedFile = record { path_in_cache = path; file_size = size; lru_node = n } in
      let l = linked in
      record {
        head = refl;
        tail = ap (λ t. tail_or t n) o.tail ∙ tail_or_lem n ns;
        links = l.links;
        distinct = (Below-NotIn n ns o.below, o.distinct);
        below = (omega arith, Below-suc n ns o.below);
        once = put-IsMap key _ c.table o.once;
        owned = put-owned c ns o key new v refl _ l;
        filed = put-filed c ns o key new v refl _ l;
      }

  add_entry-keys :
      (size : ℕ) (path : CachePath)
      → keys (add_entry c key size path).nodes (c.allocated ∷ ns) ≡ key ∷ keys c.nodes ns
  unfolding add_entry
  add_entry-keys size path =
      let n = c.allocated in
      let l = linked in
      ap₂ ◌∷◌ l.new (
        keys_cong c.nodes (add_entry c key size path).nodes ns
          (λ a i. l.old a (In-NotIn a n ns i (Below-NotIn n ns o.below))))

module _ (c : FileCache) (ns : List ℕ) (o : IsOrdered c ns) (name : Bytes) (key : Sha256)
    (size : ℕ) where
  -- Saving a key that is not in the table makes it the most recently used one, and all other keys
  -- keep their order.
  pub save_entry_new :
      get key c.table ≡ none
      → IsOrdered (save_entry c name key size) (c.allocated ∷ ns)
        × (keys (save_entry c name key size).nodes (c.allocated ∷ ns) ≡ key ∷ keys c.nodes ns)
  unfolding save_entry
  save_entry_new new =
      let c1 = record c {
        last_index = c.last_index + 1;
        on_disk = fresh_path c name ∷ c.on_disk;
      } in
      let o1 = kept-IsOrdered c c1 ns o (refl, refl, refl, refl) (le_refl c.allocated) in
      let path = fresh_path c name in
      let e : save_entry c name key size ≡ add_entry c1 key size path = rw (new, save_entry) in
      subst
        (λ d.
          IsOrdered d (c.allocated ∷ ns)
          × (keys d.nodes (c.allocated ∷ ns) ≡ key ∷ keys c.nodes ns))
        (sym e)
        (add_entry-IsOrdered c1 ns o1 key new size path, add_entry-keys c1 ns o1 key new size path)
