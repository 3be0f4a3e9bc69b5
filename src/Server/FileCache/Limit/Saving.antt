-- ===== src/Server/FileCache/Limit/Saving.antt =====
-- `SaveFileToCache` of internal/server/file-cache.go as a whole, and what `DropAll` leaves behind.
use nocc.Common.Sha256.{Sha256, sha256_comparable}
use nocc.Prelude.Dict.{get, get-put_self}
use nocc.Prelude.Maybe.{◌>>=◌}
use nocc.Prelude.{
  ℕ, ◌≤◌, ◌<◌, true, none, some, List, ◌∷◌, Bytes, ◌≡◌, inl, refl, sym, ap, ◌∙◌, length,
}
use nocc.Server.FileCache.Accounting.{IsAccounted, save_entry-IsAccounted}
use nocc.Server.FileCache.Limit.{Settled, purge_till_limit-Settled, purge_till_limit-eq-none}
use nocc.Server.FileCache.Order.Save.{save_entry_new}
use nocc.Server.FileCache.Order.{IsOrdered}
use nocc.Server.FileCache.{FileCache, CachedFile, save_entry, save_file_to_cache, fresh_path}

abbrev pub entry : FileCache → Bytes → ℕ → CachedFile
entry c name size = record {
  path_in_cache = fresh_path c name;
  file_size = size;
  lru_node = c.allocated;
}

save_entry_keeps :
    (c : FileCache) (name : Bytes) (key : Sha256) (size : ℕ)
    → get key c.table ≡ none
    → get key (save_entry c name key size).table ≡ some (entry c name size)
unfolding save_entry
save_entry_keeps c name key size new =
    rw (new, save_entry) (get-put_self key (entry c name size) c.table)

cons_head : {x y : Sha256} {xs ys : List Sha256} → x ∷ xs ≡ y ∷ ys → x ≡ y
cons_head e = cc

module _ (c : FileCache) (ns : List ℕ) (name : Bytes) (key : Sha256) (size fuel : ℕ)
    (a : IsAccounted c) (o : IsOrdered c ns) (new : get key c.table ≡ none) where
  abbrev saved : FileCache
  saved = save_entry c name key size

  saved_first : (saved.nodes c.allocated).key ≡ key
  saved_first = cons_head (save_entry_new c ns o name key size new).1

  saved_entry : get (saved.nodes c.allocated).key saved.table ≡ some (entry c name size)
  saved_entry = rw saved_first (save_entry_keeps c name key size new)

  -- On a cache in order, whose size on disk is that of its files, a new file that fits the hard
  -- limit is saved, with more rounds than there are files: the call ends, the cache is within the
  -- limit, and of the other files the most recently used ones stay, as long a run of them as fits.
  pub save_file_to_cache_new :
      size ≤ c.hard_limit
      → length ns < fuel
      → (d : FileCache) × (save_file_to_cache fuel c true name key size ≡ some (d, true))
        × Settled saved c.allocated ns c.hard_limit d
        × (get key d.table ≡ some (entry c name size))
  unfolding save_file_to_cache
  save_file_to_cache_new small enough =
      let o1 = (save_entry_new c ns o name key size new).0 in
      let (d, done, s) =
        purge_till_limit-Settled fuel c.hard_limit saved c.allocated ns {f = entry c name size}
          enough (save_entry-IsAccounted c a name key size) o1 saved_entry small in
      (
        d,
        ap (λ m. m >>= λ c'. some (c', true)) done,
        s,
        ap (λ k. get k d.table) (sym saved_first) ∙ s.same c.allocated (inl refl) ∙ saved_entry,
      )

  -- On a cache in order, whose size on disk is that of its files, a new file over the hard limit is
  -- never saved: the call does not end, with any fuel.
  pub save_file_to_cache-eq-none :
      c.hard_limit < size → save_file_to_cache fuel c true name key size ≡ none
  unfolding save_file_to_cache
  save_file_to_cache-eq-none big =
      let o1 = (save_entry_new c ns o name key size new).0 in
      ap (λ m. m >>= λ c'. some (c', true))
        (purge_till_limit-eq-none fuel c.hard_limit saved c.allocated ns {f = entry c name size}
          (save_entry-IsAccounted c a name key size) o1 saved_entry big)
