-- ===== src/Server/Handlers/Visiting/Rounds.antt =====
-- One round of the loop over the files of a session in internal/server/nocc-server.go (`StartCompilationSession`).
use nocc.Prelude.{
  ℕ, zero, suc, ◌+◌, false, some, List, ◌∷◌, ◌≡◌, ◌≢◌, ◌⊎◌, inl, inr, refl, subst, sym, ap, ◌∙◌,
  arith, Bool-cases, get_elem?, IsIn, nat_beq, nat_beq_iff,
}
use nocc.Server.Client.{FileInClientDir, FileHeap, set_file, uploading}
use nocc.Server.Handlers.Visiting.Requests.{
  Asked, LoopVisited, noted, after, verdict-cases, noted-tail, noted-cases, noted-IsIn,
}
use nocc.Server.Handlers.Visiting.{Needs, IsMoving, FileVisited}
use nocc.Server.Handlers.{Machine, Verdict, request, refuse, Visited}

-- The first file `p0` becomes `g`; the loop goes on to `v`.
module _ (m : Machine) (i p0 : ℕ) (ps : List ℕ) (h : FileHeap) (g : FileInClientDir)
    (verdict : Verdict) (v : Visited) (goes : verdict ≢ refuse)
    (first : FileVisited m (h p0) g verdict)
    (rest : LoopVisited m (i + 1) ps (set_file h p0 g) v) where
  at_first : set_file h p0 g p0 ≡ g
  at_first = ground arith

  first_kept : v.heap p0 ≡ g
  first_kept = rest.kept p0 (rw at_first (first.calm goes)) ∙ at_first

  other_kept : (p : ℕ) → nat_beq p0 p ≡ false → set_file h p0 g p ≡ h p
  other_kept p other = rw other refl

  -- A file that the rest of the loop finds in need is another one.
  elsewhere : (p : ℕ) → Needs m (set_file h p0 g p) → set_file h p0 g p ≡ h p
  elsewhere p n = elim (Bool-cases (nat_beq p0 p)) [
    | inl same ↦ absurd (first.calm goes (rw same at n))
    | inr other ↦ rw other refl
  ]

  cons-IsMoving : v.refused ≡ false → (p : ℕ) → IsIn p (p0 ∷ ps) → IsMoving (v.heap p)
  cons-IsMoving ok p (inl e) = subst (λ q. IsMoving (v.heap q)) e (rw first_kept first.moving)
  cons-IsMoving ok p (inr l) = rest.moving ok p l

  cons_calm : v.refused ≡ false → (p : ℕ) → IsIn p (p0 ∷ ps) → Needs m (v.heap p) → ⊥
  cons_calm ok p (inl e) = subst (λ q. Needs m (v.heap q) → ⊥) e (rw first_kept (first.calm goes))
  cons_calm ok p (inr l) = rest.calm ok p l

  cons_kept : (p : ℕ) → (Needs m (h p) → ⊥) → v.heap p ≡ h p
  cons_kept p calm = elim (Bool-cases (nat_beq p0 p)) [
    | inl same ↦
        let e : p0 ≡ p = (nat_beq_iff p0 p).0 same in
        subst (λ q. v.heap q ≡ h q) e
          (first_kept ∙ first.kept (subst (λ q. Needs m (h q) → ⊥) (sym e) calm))
    | inr other ↦
        let e = other_kept p other in rest.kept p (subst (λ f. Needs m f → ⊥) (sym e) calm) ∙ e
  ]

  cons_others : (p : ℕ) → (IsIn p (p0 ∷ ps) → ⊥) → v.heap p ≡ h p
  cons_others p out = elim (Bool-cases (nat_beq p0 p)) [
    | inl same ↦ absurd (out (inl ((nat_beq_iff p0 p).0 same)))
    | inr other ↦ rest.others p (λ l. out (inr l)) ∙ other_kept p other
  ]

  tail_asks :
      (k p : ℕ)
      → IsIn (i + 1 + k) v.requested
      → get_elem? ps k ≡ some p
      → Needs m (h p) × (((v.heap p).state ≡ uploading) × ((v.heap p).upload_start_time ≡ m.now))
  tail_asks k p l at =
      let (n, there) = rest.asks k p l at in (subst (λ f. Needs m f) (elsewhere p n) n, there)

  -- The verdict is `request` where the first index is listed.
  first_listed : IsIn i (noted verdict i v.requested) → verdict ≡ request
  first_listed l = elim (verdict-cases verdict) [
    | inl e ↦
        let (k, p, out, at) = rest.inside i (subst (λ w. IsIn i (noted w i v.requested)) e l) in
        absurd (omega (arith, out))
    | inr (inl e) ↦ e
    | inr (inr e) ↦ absurd (goes e)
  ]

  cons_asks :
      (k p : ℕ)
      → IsIn (i + k) (noted verdict i v.requested)
      → get_elem? (p0 ∷ ps) k ≡ some p
      → Needs m (h p) × (((v.heap p).state ≡ uploading) × ((v.heap p).upload_start_time ≡ m.now))
  cons_asks zero p l at =
      let e : p0 ≡ p = cc at in
      subst
        (λ q.
          Needs m (h q) × (((v.heap q).state ≡ uploading) × ((v.heap q).upload_start_time ≡ m.now)))
        e
        (rw first_kept (
          first.asks
            (first_listed (subst (λ j. IsIn j (noted verdict i v.requested)) (omega arith) l))))
  cons_asks (suc k) p l at = tail_asks k p (noted-tail verdict i k v.requested l) at

  cons_inside :
      (j : ℕ)
      → IsIn j (noted verdict i v.requested)
      → (k p : ℕ) × (j ≡ i + k) × (get_elem? (p0 ∷ ps) k ≡ some p)
  cons_inside j l = elim (noted-cases verdict i j v.requested l) [
    | inl e ↦ (0, p0, omega (arith, e), refl)
    | inr l' ↦ let (k, p, e, at) = rest.inside j l' in (suc k, p, omega (arith, e), at)
  ]

  -- The first file is not asked for again.
  not_again : (k : ℕ) → IsIn (i + 1 + k) v.requested → get_elem? ps k ≡ some p0 → ⊥
  not_again k l at = first.calm goes (subst (λ f. Needs m f) at_first ((rest.asks k p0 l at).0))

  cons_once :
      (k l p : ℕ)
      → IsIn (i + k) (noted verdict i v.requested)
      → IsIn (i + l) (noted verdict i v.requested)
      → get_elem? (p0 ∷ ps) k ≡ some p
      → get_elem? (p0 ∷ ps) l ≡ some p
      → k ≡ l
  cons_once zero zero p a b at to = refl
  cons_once zero (suc l) p a b at to =
      absurd (not_again l (noted-tail verdict i l v.requested b) (rw (← at) at to))
  cons_once (suc k) zero p a b at to =
      absurd (not_again k (noted-tail verdict i k v.requested a) (rw (← to) at at))
  cons_once (suc k) (suc l) p a b at to = ap suc (
      rest.once k l p (noted-tail verdict i k v.requested a) (noted-tail verdict i l v.requested b)
        at to)

  first_covers :
      g.state ≡ uploading
      → (v.heap p0 ≡ h p0) ⊎ Asked m i (p0 ∷ ps) (noted verdict i v.requested) p0
  first_covers st = elim (verdict-cases verdict) [
    | inl e ↦ inl (first_kept ∙ first.quiet e st)
    | inr (inl e) ↦ inr (record {
      place = 0;
      here = refl;
      listed = subst (λ w. IsIn (i + 0) (noted w i v.requested)) (sym e) (inl (omega arith));
    })
    | inr (inr e) ↦ absurd (goes e)
  ]

  cons_covers :
      v.refused ≡ false
      → (p : ℕ) → IsIn p (p0 ∷ ps)
      → (v.heap p).state ≡ uploading
      → (v.heap p ≡ h p) ⊎ Asked m i (p0 ∷ ps) (noted verdict i v.requested) p
  cons_covers ok p (inl e) st =
      subst (λ q. (v.heap q ≡ h q) ⊎ Asked m i (p0 ∷ ps) (noted verdict i v.requested) q) e
        (first_covers (
          ap (λ f. f.state) (sym first_kept)
          ∙ subst (λ q. (v.heap q).state ≡ uploading) (sym e) st))
  cons_covers ok p (inr l) st = elim (rest.covers ok p l st) [
    | inl was ↦ elim (Bool-cases (nat_beq p0 p)) [
      | inl same ↦
          let e : p0 ≡ p = (nat_beq_iff p0 p).0 same in
          subst (λ q. (v.heap q ≡ h q) ⊎ Asked m i (p0 ∷ ps) (noted verdict i v.requested) q) e
            (first_covers (
              ap (λ f. f.state) (sym first_kept)
              ∙ subst (λ q. (v.heap q).state ≡ uploading) (sym e) st))
      | inr other ↦ inl (was ∙ other_kept p other)
    ]
    | inr a ↦ inr (record {
      place = suc a.place;
      here = a.here;
      listed =
          noted-IsIn verdict i (i + suc a.place) v.requested
            (subst (λ j. IsIn j v.requested) (omega arith) a.listed);
    })
  ]

  pub cons-LoopVisited : LoopVisited m i (p0 ∷ ps) h (after verdict i v)
  cons-LoopVisited = record {
    moving = cons-IsMoving;
    calm = cons_calm;
    kept = cons_kept;
    others = cons_others;
    asks = cons_asks;
    inside = cons_inside;
    once = cons_once;
    covers = cons_covers;
  }
