-- ===== src/Server/Handlers/Visiting.antt =====
-- The switch over the state of a file in internal/server/nocc-server.go (`StartCompilationSession`).
pub mod Requests
pub mod Rounds
pub mod Loops
pub mod Evolving
pub mod Refusals
use nocc.Prelude.Maybe.{◌>>=◌, returns}
use nocc.Prelude.{
  ℕ, Bool, true, false, Option, none, some, ◌≡◌, ◌≢◌, ◌⊎◌, inl, inr, refl, arith, Option-cases,
  Bool-cases, if◌then◌else◌,
}
use nocc.Server.Client.{
  FileInClientDir, FileState, just_created, uploading, upload_error, uploaded,
  is_file_upload_hanged, upload_timeout,
}
use nocc.Server.FileCache.{create_hard_link_from_cache}
use nocc.Server.Handlers.{
  Machine, Shared, Verdict, wait, request, refuse, visit_file, visit_created, visit_system_file,
  visit_source_file, restarted, with_state,
}
use nocc.Server.SystemHeaders.{is_system_header_path}

-- A file that somebody has to be asked for.
abbrev pub Needs : Machine → FileInClientDir → Type 0
Needs m f =
    (f.state ≡ just_created)
    ⊎ ((f.state ≡ upload_error) ⊎ ((f.state ≡ uploading) × (is_file_upload_hanged m.now f ≡ true)))

-- A file on its way or there.
abbrev pub IsMoving : FileInClientDir → Type 0
IsMoving f = (f.state ≡ uploading) ⊎ (f.state ≡ uploaded)

-- What a visit does to a file `f`: it is `g` afterwards.
pub record FileVisited (m : Machine) (f g : FileInClientDir) (v : Verdict) : Type 0 where
  pub moving : IsMoving g
  pub calm : v ≢ refuse → Needs m g → ⊥
  pub asks : v ≡ request → Needs m f × ((g.state ≡ uploading) × (g.upload_start_time ≡ m.now))
  pub kept : (Needs m f → ⊥) → g ≡ f
  pub quiet : v ≡ wait → g.state ≡ uploading → g ≡ f
  pub refuses :
      v ≡ refuse
      → (f.state ≡ just_created)
        × ((g ≡ restarted m.now f) × (is_system_header_path f.server_file_name ≡ true))
  pub back : g.state ≡ uploaded → (f.state ≡ uploaded) ⊎ (f.state ≡ just_created)
  pub same_name : g.server_file_name ≡ f.server_file_name

restarted-calm : (m : Machine) (f : FileInClientDir) → Needs m (restarted m.now f) → ⊥
unfolding is_file_upload_hanged upload_timeout
restarted-calm m f h = ground (arith)

-- The ways out of the switch.
module _ (m : Machine) (f : FileInClientDir) where
  asked-FileVisited : Needs m f → FileVisited m f (restarted m.now f) request
  asked-FileVisited n = record {
    moving = inl refl;
    calm = λ r h. restarted-calm m f h;
    asks = λ e. (n, (refl, refl));
    kept = λ u. absurd (u n);
    quiet = λ e. cc;
    refuses = λ e. cc;
    back = λ e. cc e;
    same_name = refl;
  }

  known-FileVisited : IsMoving f → (Needs m f → ⊥) → FileVisited m f f wait
  known-FileVisited moving calm = record {
    moving = moving;
    calm = λ r h. calm h;
    asks = λ e. cc e;
    kept = λ u. refl;
    quiet = λ e u. refl;
    refuses = λ e. cc e;
    back = λ e. inl e;
    same_name = refl;
  }

  found-FileVisited :
      f.state ≡ just_created → FileVisited m f (with_state uploaded (restarted m.now f)) wait
  found-FileVisited st = record {
    moving = inr refl;
    calm = λ r h. ground arith;
    asks = λ e. cc e;
    kept = λ u. absurd (u (inl st));
    quiet = λ e u. cc u;
    refuses = λ e. cc e;
    back = λ e. inr st;
    same_name = refl;
  }

  refused-FileVisited :
      f.state ≡ just_created
      → is_system_header_path f.server_file_name ≡ true
      → FileVisited m f (restarted m.now f) refuse
  refused-FileVisited st system = record {
    moving = inl refl;
    calm = λ r h. absurd (r refl);
    asks = λ e. cc e;
    kept = λ u. absurd (u (inl st));
    quiet = λ e. cc e;
    refuses = λ e. (st, (refl, system));
    back = λ e. cc e;
    same_name = refl;
  }

  uploading-FileVisited :
      f.state ≡ uploading
      → FileVisited m f
          (if is_file_upload_hanged m.now f then restarted m.now f else f)
          (if is_file_upload_hanged m.now f then request else wait)
  uploading-FileVisited st = elim (Bool-cases (is_file_upload_hanged m.now f)) [
    | inl hung ↦ rw hung (asked-FileVisited (inr (inr (st, hung))))
    | inr fine ↦ rw fine (known-FileVisited (inl st) (λ h. ground arith))
  ]

  -- `found` says that the file need not be uploaded.
  system-FileVisited :
      f.state ≡ just_created
      → is_system_header_path f.server_file_name ≡ true
      → (found : Bool)
      → FileVisited m f
          (if found then with_state uploaded (restarted m.now f) else restarted m.now f)
          (if found then wait else refuse)
  system-FileVisited st system true = found-FileVisited st
  system-FileVisited st system false = refused-FileVisited st system

  source-FileVisited :
      f.state ≡ just_created
      → (found : Bool)
      → FileVisited m f
          (if found then with_state uploaded (restarted m.now f) else restarted m.now f)
          (if found then wait else request)
  source-FileVisited st true = found-FileVisited st
  source-FileVisited st false = asked-FileVisited (inl st)

  visit_created-FileVisited :
      (s : Shared) {r : Shared × FileInClientDir × Verdict}
      → f.state ≡ just_created
      → visit_created m s f ≡ some r
      → FileVisited m f r.1 r.2
  unfolding visit_created visit_system_file visit_source_file
  visit_created-FileVisited s st e = elim (Bool-cases (is_system_header_path f.server_file_name)) [
    | inl system ↦
        returns (λ q. FileVisited m f q.1 q.2) (rw (system, visit_created) at e)
          (system-FileVisited st system _)
    | inr source ↦
        elim (Option-cases (
          create_hard_link_from_cache s.src_file_cache f.file_sha256
            (m.link_ok f.server_file_name))) [
              | inl panic ↦ cc (rw (source, visit_created, visit_source_file, panic) at e)
              | inr (l, linked) ↦
                  returns (λ q. FileVisited m f q.1 q.2)
                    (rw (source, visit_created, visit_source_file, linked) at e)
                    (source-FileVisited st l.1)
            ]
  ]

  state-cases :
      (f.state ≡ just_created)
      ⊎ ((f.state ≡ uploading) ⊎ ((f.state ≡ upload_error) ⊎ (f.state ≡ uploaded)))
  state-cases = cases f.state
    where
      cases :
          (st : FileState)
          → (st ≡ just_created) ⊎ ((st ≡ uploading) ⊎ ((st ≡ upload_error) ⊎ (st ≡ uploaded)))
      cases just_created = inl refl
      cases uploading = inr (inl refl)
      cases upload_error = inr (inr (inl refl))
      cases uploaded = inr (inr (inr refl))

  pub visit_file-FileVisited :
      (s : Shared) {r : Shared × FileInClientDir × Verdict}
      → visit_file m s f ≡ some r
      → FileVisited m f r.1 r.2
  unfolding visit_file
  visit_file-FileVisited s e = elim state-cases [
    | inl st ↦ visit_created-FileVisited s st (rw (st, visit_file) at e)
    | inr (inl st) ↦
        returns (λ q. FileVisited m f q.1 q.2) (rw (st, visit_file) at e) (uploading-FileVisited st)
    | inr (inr (inl st)) ↦
        returns (λ q. FileVisited m f q.1 q.2) (rw (st, visit_file) at e)
          (asked-FileVisited (inr (inl st)))
    | inr (inr (inr st)) ↦
        returns (λ q. FileVisited m f q.1 q.2) (rw (st, visit_file) at e)
          (known-FileVisited (inr st) (λ h. ground arith))
  ]
