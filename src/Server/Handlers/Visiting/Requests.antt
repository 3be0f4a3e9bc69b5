-- ===== src/Server/Handlers/Visiting/Requests.antt =====
-- What the loop over the files of a session in internal/server/nocc-server.go promises.
use nocc.Prelude.{
  ℕ, suc, ◌+◌, false, some, List, ◌∷◌, ◌≡◌, ◌⊎◌, inl, inr, refl, subst, arith, get_elem?, IsIn,
}
use nocc.Server.Client.{FileHeap, uploading}
use nocc.Server.Handlers.Visiting.{Needs, IsMoving}
use nocc.Server.Handlers.{Machine, Verdict, wait, request, refuse, Visited}

-- The file at `p` is asked for by its index.
pub record Asked (m : Machine) (i : ℕ) (ps : List ℕ) (requested : List ℕ) (p : ℕ) : Type 0 where
  pub place : ℕ
  pub here : get_elem? ps place ≡ some p
  pub listed : IsIn (i + place) requested

-- What the loop does, from the heap `h` and the index `i` on.
pub record LoopVisited (m : Machine) (i : ℕ) (ps : List ℕ) (h : FileHeap) (v : Visited)
    : Type 0 where
  pub moving : v.refused ≡ false → (p : ℕ) → IsIn p ps → IsMoving (v.heap p)
  pub calm : v.refused ≡ false → (p : ℕ) → IsIn p ps → Needs m (v.heap p) → ⊥
  pub kept : (p : ℕ) → (Needs m (h p) → ⊥) → v.heap p ≡ h p
  pub others : (p : ℕ) → (IsIn p ps → ⊥) → v.heap p ≡ h p
  pub asks :
      (k p : ℕ)
      → IsIn (i + k) v.requested
      → get_elem? ps k ≡ some p
      → Needs m (h p) × (((v.heap p).state ≡ uploading) × ((v.heap p).upload_start_time ≡ m.now))
  pub inside : (j : ℕ) → IsIn j v.requested → (k p : ℕ) × (j ≡ i + k) × (get_elem? ps k ≡ some p)
  pub once :
      (k l p : ℕ)
      → IsIn (i + k) v.requested
      → IsIn (i + l) v.requested
      → get_elem? ps k ≡ some p
      → get_elem? ps l ≡ some p
      → k ≡ l
  pub covers :
      v.refused ≡ false
      → (p : ℕ) → IsIn p ps
      → (v.heap p).state ≡ uploading
      → (v.heap p ≡ h p) ⊎ Asked m i ps v.requested p

abbrev pub noted : Verdict → ℕ → List ℕ → List ℕ
noted request i l = i ∷ l
noted _ i l = l

abbrev pub after : Verdict → ℕ → Visited → Visited
after verdict i v = record v { requested = noted verdict i v.requested }

pub verdict-cases : (w : Verdict) → (w ≡ wait) ⊎ ((w ≡ request) ⊎ (w ≡ refuse))
verdict-cases wait = inl refl
verdict-cases request = inr (inl refl)
verdict-cases refuse = inr (inr refl)

pub noted-tail :
    (verdict : Verdict) (i k : ℕ) (l : List ℕ)
    → IsIn (i + suc k) (noted verdict i l)
    → IsIn (i + 1 + k) l
noted-tail request i k l (inl e) = absurd (omega (arith, e))
noted-tail request i k l (inr h) = subst (λ j. IsIn j l) (omega arith) h
noted-tail wait i k l h = subst (λ j. IsIn j l) (omega arith) h
noted-tail refuse i k l h = subst (λ j. IsIn j l) (omega arith) h

pub noted-cases :
    (verdict : Verdict) (i j : ℕ) (l : List ℕ) → IsIn j (noted verdict i l) → (i ≡ j) ⊎ IsIn j l
noted-cases request i j l h = h
noted-cases wait i j l h = inr h
noted-cases refuse i j l h = inr h

pub noted-IsIn : (verdict : Verdict) (i j : ℕ) (l : List ℕ) → IsIn j l → IsIn j (noted verdict i l)
noted-IsIn request i j l h = inr h
noted-IsIn wait i j l h = h
noted-IsIn refuse i j l h = h
