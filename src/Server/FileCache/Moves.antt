-- ===== src/Server/FileCache/Moves.antt =====
-- Taking a node out of the list, and putting it at the front: `LookupInCache` on the heap.
use mathlib.Core.Path.{subst}
use nocc.Prelude.Maybe.{◌>>=◌}
use nocc.Prelude.{ℕ, Option, none, some, List, [], ◌∷◌, ◌++◌, ◌≡◌, ◌≢◌, refl, sym, ap, ◌∙◌, arith}
use nocc.Server.FileCache.Links.{
  first, last, Links, NotIn, Distinct, Distinct-Parted, NotIn-append, Links-append, append-Links,
  update-Links, set_next-Links, set_prev-Links, last-ne,
}
use nocc.Server.FileCache.{
  FileCache, set_next, set_prev, relinked, to_front, move_to_front, unlink_next,
}

pub last-some : (q : ℕ) (xs : List ℕ) → (p : ℕ) × (last (some q) xs ≡ some p)
last-some q [] = (q, refl)
last-some q (x ∷ xs) = last-some x xs

pub last-append :
    (q : Option ℕ) (xs : List ℕ) (y : ℕ) (ys : List ℕ) → last q (xs ++ y ∷ ys) ≡ last (some y) ys
last-append q [] y ys = refl
last-append q (x ∷ xs) y ys = last-append (some x) xs y ys

last-append-nil : (q : Option ℕ) (xs : List ℕ) → last q (xs ++ []) ≡ last q xs
last-append-nil q [] = refl
last-append-nil q (x ∷ xs) = last-append-nil (some x) xs

Distinct-append-NotIn : (xs ys : List ℕ) (s : ℕ) → Distinct (xs ++ s ∷ ys) → NotIn s xs
Distinct-append-NotIn [] ys s d = tt
Distinct-append-NotIn (x ∷ xs) ys s d =
    ((λ e. (NotIn-append x xs (s ∷ ys) d.0).1.0 (sym e)), Distinct-append-NotIn xs ys s d.1)

last-NotIn :
    (x p : ℕ) (xs ys : List ℕ) → Distinct (x ∷ (xs ++ ys)) → last (some x) xs ≡ some p → NotIn p ys
last-NotIn x p [] ys d e = let q : x ≡ p = ground arith in rw (← q) d.0
last-NotIn x p (y ∷ xs) ys d e = last-NotIn y p xs ys d.1 e

record IsUnlinked (d : FileCache) (ns : List ℕ) : Type 0 where
  tail : d.lru_tail ≡ last none ns
  links : Links d.nodes none ns none

to_front_lem :
    (c : FileCache) (hd n : ℕ) (ns : List ℕ)
    → c.lru_head ≡ some hd
    → Links c.nodes none (hd ∷ ns) none
    → Distinct (hd ∷ ns)
    → NotIn n (hd ∷ ns)
    → (d : FileCache) × (to_front c n ≡ some d)
      × (d.lru_head ≡ some n)
      × (d.lru_tail ≡ c.lru_tail)
      × Links d.nodes none (n ∷ hd ∷ ns) none
      × ((a : ℕ) → (d.nodes a).key ≡ (c.nodes a).key)
unfolding to_front
to_front_lem c hd n ns e l d ni =
    let h1 = set_prev c.nodes n none in
    let h = set_next h1 n (some hd) in
    let kept : Links h none (hd ∷ ns) none =
      update-Links h1 n _ none (hd ∷ ns) none ni
        (update-Links c.nodes n _ none (hd ∷ ns) none ni l) in
    (
      record c { nodes = set_prev h hd (some n); lru_head = some n },
      rw e,
      refl,
      refl,
      (ground arith, ground arith, set_prev-Links h (some n) none hd ns none d kept),
      λ a. ground arith,
    )

module _ (c : FileCache) (hd n p : ℕ) (pre : List ℕ) (last_is : last (some hd) pre ≡ some p) where
  unlink_next_lem :
      (suf : List ℕ)
      → c.lru_tail ≡ last none (hd ∷ (pre ++ n ∷ suf))
      → ((relinked c p (first suf none)).nodes n).prev ≡ some p
      → Links c.nodes none (hd ∷ pre) (some n)
      → Links c.nodes (some n) suf none
      → Distinct (hd ∷ (pre ++ suf))
      → Distinct (hd ∷ pre)
      → Distinct suf
      → IsUnlinked
          (unlink_next (relinked c p (first suf none)) n (first suf none))
          (hd ∷ (pre ++ suf))
  unfolding unlink_next
  unlink_next_lem [] t pr lp ls d dp ds = record {
    tail = pr ∙ sym (last-append-nil (some hd) pre ∙ last_is);
    links =
        append-Links (set_next c.nodes p none) none (hd ∷ pre) [] none
          (set_next-Links c.nodes p none none (hd ∷ pre) _ dp last_is lp) tt;
  }
  unlink_next_lem (s ∷ suf) t pr lp ls d dp ds =
      let h = set_next c.nodes p (some s) in
      let absent = Distinct-append-NotIn (hd ∷ pre) suf s d in
      let ne : p ≢ s = λ e. last-ne s hd p pre absent last_is (sym e) in
      let front : Links h none (hd ∷ pre) (some s) =
        set_next-Links c.nodes p (some s) none (hd ∷ pre) _ dp last_is lp in
      let back : Links h (some n) (s ∷ suf) none =
        update-Links c.nodes p _ (some n) (s ∷ suf) none (last-NotIn hd p pre (s ∷ suf) d last_is)
          ls in
      record {
        tail = t ∙ last-append (some hd) pre n (s ∷ suf) ∙ sym (last-append (some hd) pre s suf);
        links =
            subst (λ x. Links (set_prev h s x) none (hd ∷ (pre ++ s ∷ suf)) none) (sym pr)
              (append-Links (set_prev h s (some p)) none (hd ∷ pre) (s ∷ suf) none
                (update-Links h s _ none (hd ∷ pre) (some s) absent front)
                (rw last_is (set_prev-Links h (some p) (some n) s suf none ds back)));
      }

record IsKept (c d : FileCache) : Type 0 where
  head : d.lru_head ≡ c.lru_head
  key : (a : ℕ) → (d.nodes a).key ≡ (c.nodes a).key

unlink_next-IsKept :
    (c : FileCache) (p n : ℕ) (y z : Option ℕ) → IsKept c (unlink_next (relinked c p y) n z)
unfolding unlink_next
unlink_next-IsKept c p n y none = record { head = refl; key = λ a. ground arith }
unlink_next-IsKept c p n y (some s) = record { head = refl; key = λ a. ground arith }

-- The next pointer of `n` is read again behind the first write, which is not at `n`.
move_to_front-eq :
    (c : FileCache) (n p : ℕ) (y : Option ℕ)
    → (c.nodes n).prev ≡ some p
    → (c.nodes n).next ≡ y
    → n ≢ p
    → move_to_front c n ≡ to_front (unlink_next (relinked c p y) n y) n
unfolding move_to_front
move_to_front-eq c n p y pr nx ne =
    let same : ((relinked c p y).nodes n).next ≡ y = ground arith in
    let at = λ (q : ℕ) (z : Option ℕ).
      to_front (unlink_next (relinked c q z) n ((relinked c q z).nodes n).next) n in
    ap (λ o. o >>= λ q. at q (c.nodes n).next) pr
    ∙ ap (at p) nx
    ∙ ap (λ z. to_front (unlink_next (relinked c p y) n z) n) same

pub move_to_front_lem :
    (c : FileCache) (hd n : ℕ) (pre suf : List ℕ)
    → c.lru_head ≡ some hd
    → c.lru_tail ≡ last none (hd ∷ (pre ++ n ∷ suf))
    → Links c.nodes none (hd ∷ (pre ++ n ∷ suf)) none
    → Distinct (hd ∷ (pre ++ n ∷ suf))
    → (d : FileCache) × (move_to_front c n ≡ some d)
      × (d.lru_head ≡ some n)
      × (d.lru_tail ≡ last (some n) (hd ∷ (pre ++ suf)))
      × Links d.nodes none (n ∷ hd ∷ (pre ++ suf)) none
      × ((a : ℕ) → (d.nodes a).key ≡ (c.nodes a).key)
move_to_front_lem c hd n pre suf e t l d =
    let (p, last_is) = last-some hd pre in
    let s = Links-append c.nodes none (hd ∷ pre) (n ∷ suf) none l in
    let parts = Distinct-Parted (hd ∷ pre) n suf d in
    let y = first suf none in
    let u = unlink_next (relinked c p y) n y in
    let pr : (c.nodes n).prev ≡ some p = s.1.0 ∙ last_is in
    let ne : n ≢ p = last-ne n hd p pre (NotIn-append n (hd ∷ pre) suf parts.absent).0 last_is in
    let pr' : ((relinked c p y).nodes n).prev ≡ some p = ground arith in
    let un =
      unlink_next_lem c hd n p pre last_is suf t pr' s.0 s.1.2 parts.rest parts.front parts.back in
    let kept = unlink_next-IsKept c p n y y in
    let (x, done, at, end, linked, same) =
      to_front_lem u hd n (pre ++ suf) (kept.head ∙ e) un.links parts.rest parts.absent in
    (
      x,
      move_to_front-eq c n p y pr s.1.1 ne ∙ done,
      at,
      end ∙ un.tail,
      linked,
      λ a. same a ∙ kept.key a,
    )
