-- ===== src/Server/FileCache/Tests.antt =====
-- A cache of 100 bytes with a few files: runs of the operations, and the theorems at these.
use mathlib.Core.Option
use nocc.Common.Sha256.{Sha256, sha256_comparable}
use nocc.Prelude.Dict.{get, put, delete}
use nocc.Prelude.Maybe.{◌>>=◌}
use nocc.Prelude.{ℕ, ◌*◌, ◌/◌, true, Option, none, some, [], ◌∷◌, Bytes, ◌≡◌, refl, arith}
use nocc.Server.FileCache.Accounting.{
  save_entry-IsAccounted, make_file_cache-IsAccounted, IsAccounted, here, next, save, drop,
  Reach-IsAccounted,
}
use nocc.Server.FileCache.Limit.Dropping.{drop_all_stuck}
use nocc.Server.FileCache.Limit.Saving.{entry, save_file_to_cache_new, save_file_to_cache-eq-none}
use nocc.Server.FileCache.Limit.{Settled, purge_till_limit-Settled}
use nocc.Server.FileCache.Order.Lookup.{Looked, lookup-Looked}
use nocc.Server.FileCache.Order.Save.{save_entry_new}
use nocc.Server.FileCache.Order.{IsOrdered}
use nocc.Server.FileCache.{
  FileCache, make_file_cache, save_entry, save_file_to_cache, purge_till_limit, purge_once,
  lookup_in_cache, drop_all, move_to_front, create_hard_link_from_cache,
  purge_last_elements_if_required, get_files_count,
}

abbrev hash : ℕ → Sha256
hash n = record { b0_7 = n; b8_15 = 0; b16_23 = 0; b24_31 = 0 }

abbrev eighty : ℕ → ℕ
eighty n = n * 80 / 100

abbrev fresh : FileCache
fresh = make_file_cache 100 eighty

abbrev name : Bytes
name = b'a' ∷ []

abbrev one : FileCache
one = save_entry fresh name (hash 1) 50

abbrev two : FileCache
two = save_entry one name (hash 2) 40

program : Unit {0}
unfolding make_file_cache save_entry get put delete save_file_to_cache purge_till_limit purge_once
    lookup_in_cache drop_all move_to_front
program = tt

fresh-IsOrdered : IsOrdered fresh []
unfolding program
fresh-IsOrdered = record {
  head = refl;
  tail = refl;
  links = tt;
  distinct = tt;
  below = tt;
  once = tt;
  owned = λ k f e. cc;
  filed = λ a i. absurd i;
}

one-IsOrdered : IsOrdered one (0 ∷ [])
unfolding program
one-IsOrdered = (save_entry_new fresh [] fresh-IsOrdered name (hash 1) 50 refl).0

two-IsOrdered : IsOrdered two (1 ∷ 0 ∷ [])
unfolding program
two-IsOrdered = (save_entry_new one (0 ∷ []) one-IsOrdered name (hash 2) 40 refl).0

two-IsAccounted : IsAccounted two
two-IsAccounted =
    save_entry-IsAccounted one
      (save_entry-IsAccounted fresh (make_file_cache-IsAccounted 100 eighty) name (hash 1) 50) name
      (hash 2) 40

-- The second file is looked up, then the first; then a third one removes the second.
abbrev sizes : Option FileCache → Option ℕ × Option ℕ
sizes o = (Option.map (λ c. c.total_size_on_disk) o, Option.map (λ c. c.purged_count) o)

runs :
    (Option.map (λ r. r.1) (lookup_in_cache two (hash 1))
      ≡ some (some (entry fresh name 50).path_in_cache))
    × (Option.map (λ r. r.1) (lookup_in_cache two (hash 7)) ≡ some none)
    × (sizes (do
      (c, _) ← lookup_in_cache two (hash 1)
      (d, _) ← save_file_to_cache 3 c true name (hash 3) 45
      some d)
        ≡ (some 95, some 1))
    × (save_file_to_cache 9 fresh true name (hash 1) 101 ≡ none)
unfolding program
runs = (refl, refl, refl, refl)

helpers :
    (get_files_count two ≡ 2)
    × (Option.map (λ r. r.1) (create_hard_link_from_cache two (hash 1) true) ≡ some true)
    × (sizes (purge_last_elements_if_required 3 two) ≡ (some 40, some 1))
unfolding program get_files_count create_hard_link_from_cache purge_last_elements_if_required
helpers = (refl, refl, refl)

save_file_to_cache_new_example :
    (d : FileCache) × (save_file_to_cache 3 two true name (hash 3) 60 ≡ some (d, true))
    × Settled (save_entry two name (hash 3) 60) two.allocated (1 ∷ 0 ∷ []) two.hard_limit d
    × (get (hash 3) d.table ≡ some (entry two name 60))
unfolding program
save_file_to_cache_new_example =
    save_file_to_cache_new two (1 ∷ 0 ∷ []) name (hash 3) 60 3 two-IsAccounted two-IsOrdered refl
      (omega arith) (omega arith)

lookup-Looked_example : Looked two (1 ∷ 0 ∷ []) (hash 1)
lookup-Looked_example = lookup-Looked two (hash 1) (1 ∷ 0 ∷ []) two-IsOrdered

purge_till_limit-Settled_example :
    (d : FileCache) × (purge_till_limit 2 60 two ≡ some d) × Settled two 1 (0 ∷ []) 60 d
unfolding program
purge_till_limit-Settled_example =
    purge_till_limit-Settled 2 60 two 1 (0 ∷ []) {f = entry one name 40} (omega arith)
      two-IsAccounted two-IsOrdered refl (omega arith)

Reach-IsAccounted_example : IsAccounted (drop_all two)
unfolding program
Reach-IsAccounted_example = Reach-IsAccounted 100 eighty (
    next
      (next (next here (save {good = true} 5 true name (hash 1) 50 refl))
        (save {good = true} 5 true name (hash 2) 40 refl))
      (drop refl))

save_file_to_cache-eq-none_example : save_file_to_cache 9 two true name (hash 3) 101 ≡ none
unfolding program
save_file_to_cache-eq-none_example =
    save_file_to_cache-eq-none two (1 ∷ 0 ∷ []) name (hash 3) 101 9 two-IsAccounted two-IsOrdered
      refl (omega arith)

drop_all_stuck_example :
    save_file_to_cache 9 (save_entry (drop_all one) name (hash 1) 60) true name (hash 2) 60 ≡ none
unfolding program
drop_all_stuck_example =
    drop_all_stuck one 0 9 name name (hash 1) (hash 2) 60 60 one-IsOrdered refl (omega arith)
