-- ===== src/Server/FileCache.antt =====
-- internal/server/file-cache.go: files by sha256, the least recently used one removed first.
-- The list of nodes is linked by pointers, so the nodes stand on a heap: a pointer is an address,
-- `nil` is `none`, and a dereference of `nil` stops the operation (`none`).
-- Each operation's critical section is one step; `os.Link` answers through an argument.
pub mod Links
pub mod Accounting
pub mod Moves
pub mod Order
pub mod Limit
mod Tests
use nocc.Common.Sha256.{Sha256, sha256_comparable}
use nocc.Prelude.Dict.{Dict, get, put, delete}
use nocc.Prelude.Maybe.{◌>>=◌}
use nocc.Prelude.Text.{upper_hex}
use nocc.Prelude.{
  ℕ, zero, suc, ◌+◌, ◌-◌, ◌%◌, Bool, true, false, Option, none, some, List, [], ◌∷◌, ◌++◌, Bytes,
  bytes_beq, nat_beq, ◌&&◌, ltb, length, if◌then◌else◌,
}

pub record LruNode : Type 0 where
  pub next : Option ℕ
  pub prev : Option ℕ
  pub key : Sha256

abbrev pub Heap : Type 0
Heap = ℕ → LruNode

-- `{cacheDir}/{shard}/{name}.{id}`: the id stands behind the last dot, so the parts tell paths apart.
pub record CachePath : Type 0 where
  pub shard : ℕ
  pub file_name : Bytes
  pub unique_id : ℕ

pub record CachedFile : Type 0 where
  pub path_in_cache : CachePath
  pub file_size : ℕ
  pub lru_node : ℕ

unfoldable pub path_text : Bytes → CachePath → Bytes
unfolding upper_hex
path_text cache_dir p =
    cache_dir
    ++ (b'/' ∷ upper_hex p.shard ++ (b'/' ∷ p.file_name ++ (b'.' ∷ upper_hex p.unique_id)))

-- `nodes` and `allocated` are the heap, `on_disk` the files in `cacheDir`.
pub record FileCache : Type 0 where
  pub table : Dict Sha256 CachedFile
  pub lru_head : Option ℕ
  pub lru_tail : Option ℕ
  pub nodes : Heap
  pub allocated : ℕ
  pub last_index : ℕ
  pub purged_count : ℕ
  pub total_size_on_disk : ℕ
  pub hard_limit : ℕ
  pub soft_limit : ℕ
  pub on_disk : List CachePath

abbrev pub update : Heap → ℕ → LruNode → Heap
update h a n b = if nat_beq a b then n else h b

abbrev pub set_next : Heap → ℕ → Option ℕ → Heap
set_next h a p = update h a (record (h a) { next = p })

abbrev pub set_prev : Heap → ℕ → Option ℕ → Heap
set_prev h a p = update h a (record (h a) { prev = p })

abbrev pub is_at : Option ℕ → ℕ → Bool
is_at none n = false
is_at (some m) n = nat_beq m n

abbrev pub path_beq : CachePath → CachePath → Bool
path_beq p q =
    nat_beq p.shard q.shard
    && (bytes_beq p.file_name q.file_name && nat_beq p.unique_id q.unique_id)

-- `os.Remove`, with its error ignored.
unfoldable pub remove_file : CachePath → List CachePath → List CachePath
remove_file p [] = []
remove_file p (q ∷ qs) = if path_beq q p then qs else q ∷ remove_file p qs

abbrev pub shards_dir_count : ℕ
shards_dir_count = 256

-- The soft limit is 80 % of the hard one, by floating-point arithmetic: it comes as an argument.
unfoldable pub make_file_cache : ℕ → (ℕ → ℕ) → FileCache
make_file_cache limit_bytes percent_80 = record {
  table = [];
  lru_head = none;
  lru_tail = none;
  nodes = λ a. record {
    next = none;
    prev = none;
    key = record { b0_7 = 0; b8_15 = 0; b16_23 = 0; b24_31 = 0 };
  };
  allocated = 0;
  last_index = 0;
  purged_count = 0;
  total_size_on_disk = 0;
  hard_limit = limit_bytes;
  soft_limit = percent_80 limit_bytes;
  on_disk = [];
}

-- The second half of the unlinking in `LookupInCache`: node `n` and its successor, if any.
unfoldable pub unlink_next : FileCache → ℕ → Option ℕ → FileCache
unlink_next c n none = record c { lru_tail = (c.nodes n).prev }
unlink_next c n (some s) = record c { nodes = set_prev c.nodes s (c.nodes n).prev }

-- `lruNode.prev.next = lruNode.next`, for the node `p` before.
abbrev pub relinked : FileCache → ℕ → Option ℕ → FileCache
relinked c p y = record c { nodes = set_next c.nodes p y }

-- The last writes of `LookupInCache`: an unlinked node comes to the front.
unfoldable pub to_front : FileCache → ℕ → Option FileCache
to_front c n = do
  let h = set_next (set_prev c.nodes n none) n c.lru_head
  hd ← c.lru_head
  some (record c { nodes = set_prev h hd (some n); lru_head = some n })

-- The body of the `if` of `LookupInCache`, for a node that is not at the head.
unfoldable pub move_to_front : FileCache → ℕ → Option FileCache
unfolding unlink_next to_front
move_to_front c n = do
  p ← (c.nodes n).prev
  let c1 = relinked c p (c.nodes n).next
  to_front (unlink_next c1 n (c1.nodes n).next) n

-- `none` inside the pair is the empty path of a missing file.
unfoldable pub lookup_in_cache : FileCache → Sha256 → Option (FileCache × Option CachePath)
lookup_in_cache c key = elim (get key c.table) [
  | none ↦ some (c, none)
  | some f ↦
      if is_at c.lru_head f.lru_node
      then some (c, some f.path_in_cache)
      else (do c' ← move_to_front c f.lru_node; some (c', some f.path_in_cache))
]

-- `linked` says that `os.Link` gave no error, or that the file was there.
unfoldable pub create_hard_link_from_cache : FileCache → Sha256 → Bool → Option (FileCache × Bool)
create_hard_link_from_cache c key linked = do
  (c', path) ← lookup_in_cache c key
  some (c', elim path [ none ↦ false | some _ ↦ linked ])

-- `if cache.lruHead != nil { cache.lruHead.prev = newHead }`
unfoldable pub link_head : Heap → Option ℕ → ℕ → Heap
link_head h none n = h
link_head h (some hd) n = set_prev h hd (some n)

-- `if cache.lruTail == nil { cache.lruTail = newHead }`
abbrev pub tail_or : Option ℕ → ℕ → Option ℕ
tail_or none n = some n
tail_or (some t) n = some t

-- The critical section of `SaveFileToCache` for a key that is not in the table.
unfoldable pub add_entry : FileCache → Sha256 → ℕ → CachePath → FileCache
unfolding link_head
add_entry c key file_size path =
    let n = c.allocated in
    let h = update c.nodes n (record { next = c.lru_head; prev = none; key = key }) in
    record c {
      total_size_on_disk = c.total_size_on_disk + file_size;
      table =
          put key (record { path_in_cache = path; file_size = file_size; lru_node = n }) c.table;
      nodes = link_head h c.lru_head n;
      allocated = c.allocated + 1;
      lru_head = some n;
      lru_tail = tail_or c.lru_tail n;
    }

-- One more link in the cache directory, under a fresh id.
abbrev pub fresh_path : FileCache → Bytes → CachePath
fresh_path c name = record {
  shard = (c.last_index + 1) % shards_dir_count;
  file_name = name;
  unique_id = c.last_index + 1;
}

unfoldable pub save_entry : FileCache → Bytes → Sha256 → ℕ → FileCache
unfolding add_entry remove_file
save_entry c name key file_size =
    let path = fresh_path c name in
    let c1 = record c { last_index = c.last_index + 1; on_disk = path ∷ c.on_disk } in
    elim (get key c.table) [
      | none ↦ add_entry c1 key file_size path
      | some _ ↦ record c1 { on_disk = remove_file path c1.on_disk; allocated = c.allocated + 1 }
    ]

-- What follows the critical section of one round of the purge: `removingFile.lruNode != nil`.
unfoldable pub forget_file : FileCache → Option CachedFile → FileCache
unfolding remove_file
forget_file c none = c
forget_file c (some f) = record c {
  on_disk = remove_file f.path_in_cache c.on_disk;
  total_size_on_disk = c.total_size_on_disk - f.file_size;
  purged_count = c.purged_count + 1;
}

-- The round with both `tail` and `tail.prev` there.
unfoldable pub purge_tail : FileCache → ℕ → ℕ → FileCache
unfolding forget_file
purge_tail c tail p =
    let key = (c.nodes tail).key in
    let c1 = record c {
      lru_tail = some p;
      nodes = set_next c.nodes p none;
      table = delete key c.table;
    } in
    forget_file c1 (get key c.table)

-- One round of the loop of `purgeLastElementsTillLimit`.
unfoldable pub purge_once : FileCache → FileCache
unfolding purge_tail
purge_once c = elim c.lru_tail [
  | none ↦ c
  | some tail ↦ elim (c.nodes tail).prev [ none ↦ c | some p ↦ purge_tail c tail p ]
]

-- `none`: the loop has not ended after `fuel` rounds.
unfoldable pub purge_till_limit : ℕ → ℕ → FileCache → Option FileCache
purge_till_limit zero limit c = none
purge_till_limit (suc fuel) limit c =
    let rest = purge_till_limit fuel limit (purge_once c) in
    if ltb limit c.total_size_on_disk then rest else some c

-- `linked` says that `os.Link` gave no error; the flag returned, that there was no error.
unfoldable pub save_file_to_cache :
    ℕ → FileCache → Bool → Bytes → Sha256 → ℕ → Option (FileCache × Bool)
unfolding save_entry
save_file_to_cache fuel c linked name key file_size =
    if linked
    then (do
      c' ← purge_till_limit fuel c.hard_limit (save_entry c name key file_size)
      some (c', true))
    else some (record c { last_index = c.last_index + 1 }, false)

unfoldable pub purge_last_elements_if_required : ℕ → FileCache → Option FileCache
purge_last_elements_if_required fuel c = purge_till_limit fuel c.soft_limit c

unfoldable pub get_files_count : FileCache → ℕ
get_files_count c = length c.table

-- `lruHead` is cleared twice in the source, `lruTail` never.
unfoldable pub drop_all : FileCache → FileCache
drop_all c = record c {
  purged_count = c.purged_count + length c.table;
  total_size_on_disk = 0;
  table = [];
  lru_head = none;
  on_disk = [];
}
