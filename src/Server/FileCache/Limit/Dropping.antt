-- ===== src/Server/FileCache/Limit/Dropping.antt =====
-- What `DropAll` of internal/server/file-cache.go leaves behind: a tail that is in no list.
use nocc.Common.Sha256.{Sha256, sha256_comparable, sha256_beq}
use nocc.Prelude.Dict.{get, put}
use nocc.Prelude.Maybe.{◌>>=◌}
use nocc.Prelude.{
  ℕ, zero, suc, ◌+◌, ◌<◌, true, false, none, some, [], ◌∷◌, Bytes, ◌≡◌, inl, inr, refl, ap, arith,
  ltb, Bool-cases,
}
use nocc.Server.FileCache.Order.{IsOrdered}
use nocc.Server.FileCache.{
  FileCache, save_entry, purge_once, purge_till_limit, save_file_to_cache, drop_all, is_at,
}

-- The loop makes no step once the tail has no node before it.
purge_stuck :
    (fuel limit t : ℕ) (c : FileCache)
    → c.lru_tail ≡ some t
    → (c.nodes t).prev ≡ none
    → limit < c.total_size_on_disk
    → purge_till_limit fuel limit c ≡ none
unfolding purge_till_limit
purge_stuck zero limit t c e pr over = refl
purge_stuck (suc fuel) limit t c e pr over =
    let same : purge_once c ≡ c = unfold purge_once in ground arith in
    elim (Bool-cases (ltb limit c.total_size_on_disk)) [
      | inl go ↦ rw (go, same) (purge_stuck fuel limit t c e pr over)
      | inr stop ↦ absurd (ground arith)
    ]

-- The tail `t` stands alone, apart from the list that begins at the head.
pub record IsStale (c : FileCache) (t : ℕ) : Type 0 where
  pub tail : c.lru_tail ≡ some t
  pub alone : (c.nodes t).prev ≡ none
  pub old : t < c.allocated
  pub apart : is_at c.lru_head t ≡ false

drop_all-IsStale : (c : FileCache) (t : ℕ) → IsOrdered c (t ∷ []) → IsStale (drop_all c) t
unfolding drop_all
drop_all-IsStale c t o = record { tail = o.tail; alone = o.links.0; old = o.below.0; apart = refl }

save_entry-IsStale :
    (c : FileCache) (t : ℕ) (name : Bytes) (key : Sha256) (size : ℕ)
    → IsStale c t
    → get key c.table ≡ none
    → IsStale (save_entry c name key size) t
      × ((save_entry c name key size).total_size_on_disk ≡ c.total_size_on_disk + size)
unfolding save_entry
save_entry-IsStale c t name key size s new =
    rw (new, save_entry)
      (
        record {
          tail = ground arith;
          alone = ground arith;
          old = ground arith;
          apart = ground arith;
        },
        refl,
      )

-- `DropAll` does not reset the tail: it still points at the node of a cache with one file. Two new
-- files saved after it, over the hard limit together, are then more than the loop can purge: the
-- second call does not end, with any fuel.
pub drop_all_stuck :
    (c : FileCache) (t fuel : ℕ) (m n : Bytes) (k j : Sha256) (s r : ℕ)
    → IsOrdered c (t ∷ [])
    → sha256_beq k j ≡ false
    → c.hard_limit < s + r
    → save_file_to_cache fuel (save_entry (drop_all c) m k s) true n j r ≡ none
unfolding save_file_to_cache
drop_all_stuck c t fuel m n k j s r o ne over =
    let c1 = save_entry (drop_all c) m k s in
    let (s1, t1) =
      save_entry-IsStale (drop_all c) t m k s (drop_all-IsStale c t o)
        (unfold drop_all get in refl) in
    let new : get j c1.table ≡ none = unfold save_entry drop_all get put in rw ne in
    let (s2, t2) = save_entry-IsStale c1 t n j r s1 new in
    let zero_total : (drop_all c).total_size_on_disk ≡ 0 = unfold drop_all in refl in
    let limit : c1.hard_limit ≡ c.hard_limit = unfold save_entry drop_all get in refl in
    ap (λ x. x >>= λ c'. some (c', true))
      (purge_stuck fuel c1.hard_limit t (save_entry c1 n j r) s2.tail s2.alone
        (omega (arith, t1, t2, zero_total, limit)))
