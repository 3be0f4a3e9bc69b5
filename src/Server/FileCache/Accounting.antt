-- ===== src/Server/FileCache/Accounting.antt =====
-- The bookkeeping of internal/server/file-cache.go: sizes and files on disk, in every state.
use nocc.Common.Sha256.{Sha256, sha256_comparable}
use nocc.Prelude.Dict.{
  delete-Absent, get, sum_of, IsMap, sum_of-put-Absent, sum_of-delete, put-IsMap, delete-IsMap,
}
use nocc.Prelude.{
  ℕ, zero, suc, ◌+◌, ◌-◌, ◌≤◌, Bool, true, false, Option, none, some, List, [], ◌∷◌, Bytes, ◌≡◌,
  ◌↔◌, refl, arith, if◌then◌else◌, ltb, Option-cases, Bool-cases, inl, inr, bytes_beq_iff,
}
use nocc.Server.FileCache.{
  FileCache, CachePath, CachedFile, path_beq, remove_file, save_entry, fresh_path, purge_once,
  purge_till_limit, purge_last_elements_if_required, lookup_in_cache, move_to_front, drop_all,
  save_file_to_cache, unlink_next, to_front, purge_tail, make_file_cache,
}

path_beq_iff : (p q : CachePath) → (path_beq p q ≡ true) ↔ (p ≡ q)
path_beq_iff p q = ground (arith, bytes_beq_iff p.file_name q.file_name)

abbrev one_if : Bool → ℕ
one_if b = if b then 1 else 0

-- How often a path stands in the directory, and how many table entries have it.
abbrev pub copies : CachePath → List CachePath → ℕ
copies p [] = 0
copies p (q ∷ qs) = one_if (path_beq q p) + copies p qs

abbrev pub tally : CachePath → CachedFile → ℕ
tally p f = one_if (path_beq f.path_in_cache p)

pub record IsAccounted (c : FileCache) : Type 0 where
  pub once : IsMap c.table
  pub size : c.total_size_on_disk ≡ sum_of (λ f. f.file_size) c.table
  pub disk : (p : CachePath) → copies p c.on_disk ≡ sum_of (tally p) c.table

copies-remove_file_self :
    (p : CachePath) (qs : List CachePath) → copies p (remove_file p qs) ≡ copies p qs - 1
unfolding remove_file
copies-remove_file_self p [] = omega arith
copies-remove_file_self p (q ∷ qs) = ground (arith, copies-remove_file_self p qs)

copies-remove_file_ne :
    (p r : CachePath) (qs : List CachePath)
    → path_beq p r ≡ false
    → copies r (remove_file p qs) ≡ copies r qs
unfolding remove_file
copies-remove_file_ne p r [] h = refl
copies-remove_file_ne p r (q ∷ qs) h =
    ground (arith, copies-remove_file_ne p r qs, path_beq_iff q p)

copies-remove_file :
    (p r : CachePath) (qs : List CachePath)
    → copies r (remove_file p qs) ≡ copies r qs - one_if (path_beq p r)
copies-remove_file p r qs = elim (Bool-cases (path_beq p r)) [
  | inl same ↦
      let e : p ≡ r = (path_beq_iff p r).0 same in rw (same, ← e) (copies-remove_file_self p qs)
  | inr other ↦ rw other (omega (arith, copies-remove_file_ne p r qs other))
]

-- An entry is a part of the sum over the table.
pub le-sum_of :
    (g : CachedFile → ℕ) (k : Sha256) {f : CachedFile} (c : FileCache)
    → get k c.table ≡ some f
    → g f ≤ sum_of g c.table
le-sum_of g k c h = omega (arith, sum_of-delete g k c.table h)

module _ (c : FileCache) (a : IsAccounted c) where
  save_new-IsAccounted :
      (name : Bytes) (key : Sha256) (n : ℕ)
      → get key c.table ≡ none
      → IsAccounted (save_entry c name key n)
  unfolding save_entry
  save_new-IsAccounted name key n new =
      rw (new, save_entry)
        (record {
          once = put-IsMap key _ c.table a.once;
          size = omega (
            arith,
            a.size,
            sum_of-put-Absent (λ (f : CachedFile). f.file_size) key _ c.table new,
          );
          disk = λ p. omega (arith, a.disk p, sum_of-put-Absent (tally p) key _ c.table new);
        })

  save_old-IsAccounted :
      (name : Bytes) (key : Sha256) (n : ℕ) {f : CachedFile}
      → get key c.table ≡ some f
      → IsAccounted (save_entry c name key n)
  unfolding save_entry
  save_old-IsAccounted name key n old =
      rw (old, save_entry)
        (record {
          once = a.once;
          size = a.size;
          disk = λ p. omega (
            arith,
            a.disk p,
            copies-remove_file (fresh_path c name) p (fresh_path c name ∷ c.on_disk),
          );
        })

  pub save_entry-IsAccounted :
      (name : Bytes) (key : Sha256) (n : ℕ) → IsAccounted (save_entry c name key n)
  save_entry-IsAccounted name key n = elim (Option-cases (get key c.table)) [
    | inl new ↦ save_new-IsAccounted name key n new
    | inr (f, old) ↦ save_old-IsAccounted name key n old
  ]

  purge_tail-IsAccounted : (tail p : ℕ) → IsAccounted (purge_tail c tail p)
  unfolding purge_tail
  purge_tail-IsAccounted tail p =
      let key = (c.nodes tail).key in
      elim (Option-cases (get key c.table)) [
        | inl gone ↦
            rw (gone, purge_tail, delete-Absent)
              (record { once = a.once; size = a.size; disk = a.disk })
        | inr (f, found) ↦
            rw (found, purge_tail)
              (record {
                once = delete-IsMap key c.table a.once;
                size = omega (
                  arith,
                  a.size,
                  sum_of-delete (λ (g : CachedFile). g.file_size) key c.table found,
                );
                disk = λ q. omega (
                  arith,
                  a.disk q,
                  sum_of-delete (tally q) key c.table found,
                  copies-remove_file f.path_in_cache q c.on_disk,
                );
              })
      ]

  pub purge_once-IsAccounted : IsAccounted (purge_once c)
  unfolding purge_once
  purge_once-IsAccounted = grind (arith, purge_tail-IsAccounted)

keep-IsAccounted :
    (c : FileCache) {d : FileCache}
    → IsAccounted c
    → d.table ≡ c.table
    → d.total_size_on_disk ≡ c.total_size_on_disk
    → d.on_disk ≡ c.on_disk
    → IsAccounted d
keep-IsAccounted c a t n l = record {
  once = rw t a.once;
  size = rw (t, n) a.size;
  disk = λ p. rw (t, l) (a.disk p);
}

pub purge_till_limit-IsAccounted :
    (fuel limit : ℕ) (c : FileCache) {c' : FileCache}
    → IsAccounted c
    → purge_till_limit fuel limit c ≡ some c'
    → IsAccounted c'
unfolding purge_till_limit
purge_till_limit-IsAccounted zero limit c a e = cc
purge_till_limit-IsAccounted (suc fuel) limit c a e =
    elim (Bool-cases (ltb limit c.total_size_on_disk)) [
      | inl over ↦
          purge_till_limit-IsAccounted fuel limit (purge_once c) (purge_once-IsAccounted c a)
            (rw (over, purge_till_limit) at e)
      | inr fits ↦ keep-IsAccounted c a (ground arith) (ground arith) (ground arith)
    ]

-- One operation of the cache, however the file system answers.
pub data Step : FileCache → FileCache → Type 0 where
  lookup :
      {c c' : FileCache} {r : Option CachePath} (key : Sha256)
      → lookup_in_cache c key ≡ some (c', r)
      → Step c c'
  save :
      {c c' : FileCache} {good : Bool} (fuel : ℕ) (linked : Bool) (name : Bytes) (key : Sha256)
      (n : ℕ)
      → save_file_to_cache fuel c linked name key n ≡ some (c', good)
      → Step c c'
  purge :
      {c c' : FileCache} (fuel : ℕ) → purge_last_elements_if_required fuel c ≡ some c' → Step c c'
  drop : {c c' : FileCache} → c' ≡ drop_all c → Step c c'

pub data Reach (c : FileCache) : FileCache → Type 0 where
  here : Reach c c
  next : {d e : FileCache} → Reach c d → Step d e → Reach c e

lookup-IsAccounted :
    {c c' : FileCache} {r : Option CachePath} (key : Sha256)
    → IsAccounted c
    → lookup_in_cache c key ≡ some (c', r)
    → IsAccounted c'
unfolding lookup_in_cache move_to_front unlink_next to_front
lookup-IsAccounted {c} key a e = keep-IsAccounted c a (ground arith) (ground arith) (ground arith)

save-IsAccounted :
    {c c' : FileCache} {good : Bool} (fuel : ℕ) (linked : Bool) (name : Bytes) (key : Sha256)
    (n : ℕ)
    → IsAccounted c
    → save_file_to_cache fuel c linked name key n ≡ some (c', good)
    → IsAccounted c'
unfolding save_file_to_cache
save-IsAccounted {c} fuel false name key n a e =
    keep-IsAccounted c a (ground arith) (ground arith) (ground arith)
save-IsAccounted {c} fuel true name key n a e =
    elim (Option-cases (purge_till_limit fuel c.hard_limit (save_entry c name key n))) [
      | inl stuck ↦ cc (rw stuck at e)
      | inr (d, ended) ↦
          let same = rw ended at e in
          keep-IsAccounted d
            (purge_till_limit-IsAccounted fuel c.hard_limit _
              (save_entry-IsAccounted c a name key n) ended)
            (ground arith) (ground arith) (ground arith)
    ]

drop_all-IsAccounted : (c : FileCache) → IsAccounted (drop_all c)
unfolding drop_all
drop_all-IsAccounted c = record { once = tt; size = refl; disk = λ p. refl }

Step-IsAccounted : {c c' : FileCache} → Step c c' → IsAccounted c → IsAccounted c'
unfolding purge_last_elements_if_required
Step-IsAccounted (lookup key e) a = lookup-IsAccounted key a e
Step-IsAccounted (save fuel linked name key n e) a = save-IsAccounted fuel linked name key n a e
Step-IsAccounted (purge {c} fuel e) a = purge_till_limit-IsAccounted fuel c.soft_limit c a e
Step-IsAccounted (drop {c} e) a = rw e (drop_all-IsAccounted c)

pub make_file_cache-IsAccounted : (n : ℕ) (f : ℕ → ℕ) → IsAccounted (make_file_cache n f)
unfolding make_file_cache
make_file_cache-IsAccounted n f = record { once = tt; size = refl; disk = λ p. refl }

Reach-IsAccounted-from : {c d : FileCache} → IsAccounted c → Reach c d → IsAccounted d
Reach-IsAccounted-from a here = a
Reach-IsAccounted-from a (next r s) = Step-IsAccounted s (Reach-IsAccounted-from a r)

-- In every state that a new cache can reach by lookups, saves, purges and drops, with the purge
-- ended in each, the size on disk is the sum of the sizes in the table, and every path stands in
-- the cache directory as often as in the table.
pub Reach-IsAccounted :
    (limit : ℕ) (percent_80 : ℕ → ℕ) {c : FileCache}
    → Reach (make_file_cache limit percent_80) c
    → IsAccounted c
Reach-IsAccounted limit percent_80 r =
    Reach-IsAccounted-from (make_file_cache-IsAccounted limit percent_80) r
