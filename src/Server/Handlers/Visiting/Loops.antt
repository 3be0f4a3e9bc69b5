-- ===== src/Server/Handlers/Visiting/Loops.antt =====
-- The loop over the files of a session in internal/server/nocc-server.go (`StartCompilationSession`).
use nocc.Prelude.Maybe.{returns}
use nocc.Prelude.{
  ℕ, ◌+◌, true, false, some, List, [], ◌∷◌, ◌≡◌, inl, inr, refl, subst, sym, ap, ◌∙◌, Option-cases,
  Bool-cases, nat_beq, nat_beq_iff,
}
use nocc.Server.Client.{FileInClientDir, FileHeap, set_file}
use nocc.Server.Handlers.Visiting.Requests.{LoopVisited}
use nocc.Server.Handlers.Visiting.Rounds.{cons-LoopVisited}
use nocc.Server.Handlers.Visiting.{Needs, FileVisited, visit_file-FileVisited}
use nocc.Server.Handlers.{
  Machine, Shared, Verdict, wait, request, refuse, Visited, visit_file, visit_files,
}

-- The loop stops at a system file that differs.
stop-LoopVisited :
    (m : Machine) (i p0 : ℕ) (ps : List ℕ) (h : FileHeap) (g : FileInClientDir) (s : Shared)
    → FileVisited m (h p0) g refuse
    → LoopVisited m i
        (p0 ∷ ps)
        h
        (record { shared = s; heap = set_file h p0 g; requested = []; refused = true })
stop-LoopVisited m i p0 ps h g s first = record {
  moving = λ ok. cc ok;
  calm = λ ok. cc ok;
  kept = λ p calm. elim (Bool-cases (nat_beq p0 p)) [
    | inl same ↦
        let e : p0 ≡ p = (nat_beq_iff p0 p).0 same in
        rw same (first.kept (subst (λ q. Needs m (h q) → ⊥) (sym e) calm) ∙ ap h e)
    | inr other ↦ rw other refl
  ];
  others = λ p out. elim (Bool-cases (nat_beq p0 p)) [
    | inl same ↦ absurd (out (inl ((nat_beq_iff p0 p).0 same)))
    | inr other ↦ rw other refl
  ];
  asks = λ k p l. absurd l;
  inside = λ j l. absurd l;
  once = λ k l p a. absurd a;
  covers = λ ok. cc ok;
}

empty-LoopVisited :
    (m : Machine) (i : ℕ) (s : Shared) (h : FileHeap)
    → LoopVisited m i [] h (record { shared = s; heap = h; requested = []; refused = false })
empty-LoopVisited m i s h = record {
  moving = λ ok p l. absurd l;
  calm = λ ok p l. absurd l;
  kept = λ p calm. refl;
  others = λ p out. refl;
  asks = λ k p l. absurd l;
  inside = λ j l. absurd l;
  once = λ k l p a. absurd a;
  covers = λ ok p l. absurd l;
}

visit_files-step :
    (verdict : Verdict) (m : Machine) (i p0 : ℕ) (ps : List ℕ) (s s1 : Shared) (h : FileHeap)
    (g : FileInClientDir) {v : Visited}
    → visit_file m s (h p0) ≡ some (s1, g, verdict)
    → visit_files m i (p0 ∷ ps) s h ≡ some v
    → ((w : Visited)
        → visit_files m (i + 1) ps s1 (set_file h p0 g) ≡ some w
        → LoopVisited m (i + 1) ps (set_file h p0 g) w)
    → LoopVisited m i (p0 ∷ ps) h v
unfolding visit_files
visit_files-step refuse m i p0 ps s s1 h g e eq ih =
    returns (λ w. LoopVisited m i (p0 ∷ ps) h w) (rw (e, visit_files) at eq)
      (stop-LoopVisited m i p0 ps h g s1 (visit_file-FileVisited m (h p0) s e))
visit_files-step wait m i p0 ps s s1 h g e eq ih =
    let next = rw (e, visit_files) at eq in
    cons-LoopVisited m i p0 ps h g wait _ (λ q. cc q) (visit_file-FileVisited m (h p0) s e)
      (ih _ next)
visit_files-step request m i p0 ps s s1 h g {v} e eq ih =
    elim (Option-cases (visit_files m (i + 1) ps s1 (set_file h p0 g))) [
      | inl panic ↦ cc (rw (e, visit_files, panic) at eq)
      | inr (w, ended) ↦
          returns (λ u. LoopVisited m i (p0 ∷ ps) h u) (rw (e, visit_files, ended) at eq)
            (cons-LoopVisited m i p0 ps h g request w (λ q. cc q)
              (visit_file-FileVisited m (h p0) s e) (ih w ended))
    ]

-- The loop that StartCompilationSession runs over a session's files asks the client only for files that
-- were just created or whose upload failed or hung, for none twice, and each of these is uploading
-- from now on. After the loop, unless a system file was refused, each file of the session is uploading
-- or uploaded, no upload of it is hung, and a file that is uploading is as it was or asked for now.
-- Files that nobody has to be asked for, uploaded ones among them, and those of other sessions only,
-- stay as they were.
pub visit_files-LoopVisited :
    (m : Machine) (i : ℕ) (ps : List ℕ) (s : Shared) (h : FileHeap) {v : Visited}
    → visit_files m i ps s h ≡ some v
    → LoopVisited m i ps h v
unfolding visit_files
visit_files-LoopVisited m i [] s h e =
    returns (λ w. LoopVisited m i [] h w) e (empty-LoopVisited m i s h)
visit_files-LoopVisited m i (p ∷ ps) s h e = elim (Option-cases (visit_file m s (h p))) [
  | inl panic ↦ cc (rw (panic, visit_files) at e)
  | inr (r, first) ↦
      visit_files-step r.2 m i p ps s r.0 h r.1 first e
        (λ w ended. visit_files-LoopVisited m (i + 1) ps r.0 (set_file h p r.1) ended)
]
