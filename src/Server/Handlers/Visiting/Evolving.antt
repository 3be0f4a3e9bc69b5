-- ===== src/Server/Handlers/Visiting/Evolving.antt =====
-- How the states of all files move in the loop of internal/server/nocc-server.go, refused or not.
use nocc.Prelude.Maybe.{returns}
use nocc.Prelude.{
  ℕ, ◌+◌, true, false, some, List, [], ◌∷◌, ◌≡◌, ◌↔◌, ◌⊎◌, inl, inr, refl, arith, Option-cases,
  IsIn, nat_beq_iff,
}
use nocc.Server.Client.{
  FileInClientDir, FileHeap, set_file, FileState, just_created, uploading, upload_error, uploaded,
}
use nocc.Server.Handlers.Visiting.{FileVisited, visit_file-FileVisited}
use nocc.Server.Handlers.{
  Machine, Shared, Verdict, wait, request, refuse, Visited, visit_file, visit_files,
}
use nocc.Server.Session.{all_uploaded, is_uploaded}

-- No file becomes new again, and only new files become uploaded.
pub record Evolves (h k : FileHeap) : Type 0 where
  pub never_new : (p : ℕ) → (k p).state ≡ just_created → (h p).state ≡ just_created
  pub back :
      (p : ℕ) → (k p).state ≡ uploaded → ((h p).state ≡ uploaded) ⊎ ((h p).state ≡ just_created)
  pub same_name : (p : ℕ) → (k p).server_file_name ≡ (h p).server_file_name

Evolves-refl : (h : FileHeap) → Evolves h h
Evolves-refl h = record { never_new = λ p e. e; back = λ p e. inl e; same_name = λ p. refl }

Evolves-trans : {h k l : FileHeap} → Evolves h k → Evolves k l → Evolves h l
Evolves-trans a b = record {
  never_new = λ p e. a.never_new p (b.never_new p e);
  back = λ p e. elim (b.back p e) [ inl u ↦ a.back p u | inr n ↦ inr (a.never_new p n) ];
  same_name = λ p. cc (a.same_name p, b.same_name p);
}

set_file-Evolves :
    {m : Machine} {v : Verdict} (h : FileHeap) (p : ℕ) (g : FileInClientDir)
    → FileVisited m (h p) g v
    → Evolves h (set_file h p g)
set_file-Evolves h p g f = record {
  never_new = λ q e. ground (arith, nat_beq_iff p q, f.moving);
  back = λ q e. ground (arith, nat_beq_iff p q, f.back);
  same_name = λ q. ground (arith, nat_beq_iff p q, f.same_name);
}

visit_files-evolving :
    (verdict : Verdict) (m : Machine) (i p : ℕ) (ps : List ℕ) (s s1 : Shared) (h : FileHeap)
    (g : FileInClientDir) {v : Visited}
    → visit_file m s (h p) ≡ some (s1, g, verdict)
    → visit_files m i (p ∷ ps) s h ≡ some v
    → ((w : Visited)
        → visit_files m (i + 1) ps s1 (set_file h p g) ≡ some w
        → Evolves (set_file h p g) w.heap)
    → Evolves h v.heap
unfolding visit_files
visit_files-evolving refuse m i p ps s s1 h g e eq ih =
    returns (λ w. Evolves h w.heap) (rw (e, visit_files) at eq)
      (set_file-Evolves h p g (visit_file-FileVisited m (h p) s e))
visit_files-evolving wait m i p ps s s1 h g e eq ih =
    let next = rw (e, visit_files) at eq in
    Evolves-trans (set_file-Evolves h p g (visit_file-FileVisited m (h p) s e)) (ih _ next)
visit_files-evolving request m i p ps s s1 h g e eq ih =
    elim (Option-cases (visit_files m (i + 1) ps s1 (set_file h p g))) [
      | inl panic ↦ cc (rw (e, visit_files, panic) at eq)
      | inr (w, ended) ↦
          returns (λ u. Evolves h u.heap) (rw (e, visit_files, ended) at eq)
            (Evolves-trans (set_file-Evolves h p g (visit_file-FileVisited m (h p) s e))
              (ih w ended))
    ]

pub visit_files-Evolves :
    (m : Machine) (i : ℕ) (ps : List ℕ) (s : Shared) (h : FileHeap) {v : Visited}
    → visit_files m i ps s h ≡ some v
    → Evolves h v.heap
unfolding visit_files
visit_files-Evolves m i [] s h e = returns (λ w. Evolves h w.heap) e (Evolves-refl h)
visit_files-Evolves m i (p ∷ ps) s h e = elim (Option-cases (visit_file m s (h p))) [
  | inl panic ↦ cc (rw (panic, visit_files) at e)
  | inr (r, first) ↦
      visit_files-evolving r.2 m i p ps s r.0 h r.1 first e
        (λ w ended. visit_files-Evolves m (i + 1) ps r.0 (set_file h p r.1) ended)
]

is_uploaded-uploaded : (f : FileInClientDir) → (is_uploaded f.state ≡ true) ↔ (f.state ≡ uploaded)
is_uploaded-uploaded f = at f.state
  where
    at : (st : FileState) → (is_uploaded st ≡ true) ↔ (st ≡ uploaded)
    at just_created = ground arith
    at uploading = ground arith
    at upload_error = ground arith
    at uploaded = ground arith

-- A session all of whose files are there now had them, or had a new one.
all_uploaded-back :
    (h k : FileHeap) (ps : List ℕ)
    → ((p : ℕ) → IsIn p ps → (k p).state ≡ uploaded → (h p).state ≡ uploaded)
    → all_uploaded k ps ≡ true
    → all_uploaded h ps ≡ true
unfolding all_uploaded
all_uploaded-back h k [] b e = refl
all_uploaded-back h k (p ∷ ps) b e = ground (
  arith,
  b p (inl refl),
  all_uploaded-back h k ps (λ q l. b q (inr l)),
  is_uploaded-uploaded (k p),
  is_uploaded-uploaded (h p),
)

-- A session that waits, and has no new file, waits on.
pub waits_on :
    (h k : FileHeap) (ps : List ℕ)
    → ((p : ℕ) → IsIn p ps → (k p).state ≡ uploaded → (h p).state ≡ uploaded)
    → all_uploaded h ps ≡ false
    → all_uploaded k ps ≡ false
waits_on h k ps b e = ground (arith, all_uploaded-back h k ps b)
