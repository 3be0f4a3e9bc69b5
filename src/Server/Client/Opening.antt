-- ===== src/Server/Client/Opening.antt =====
-- The files of a new session in internal/server/client.go (`CreateNewSession`), and two goroutines at
-- the same file.
use nocc.Common.Sha256.{sha256_comparable}
use nocc.Prelude.Dict.{get}
use nocc.Prelude.Maybe.{returns_pair}
use nocc.Prelude.{
  ℕ, Option, none, some, List, [], ◌∷◌, Bytes, ◌≡◌, ◌≢◌, refl, subst, ◌⊎◌, arith, Option-cases, inl,
  inr, bytes_comparable,
}
use nocc.Server.Client.Files.{
  IsFiled, Keeps, Keeps-refl, Keeps-trans, HasFiles, HasFile-Keeps, Used, start_using_file-Used,
}
use nocc.Server.Client.{
  Client, FileMetadata, Use, using, conflict, start_using_file_in_session, start_using_files,
  use_or_create, make_new_file, map_client_file_name_to_server_abs,
}

-- A name that the client sent with another hash before.
pub record HasConflict (c : Client) (m : FileMetadata) : Type 0 where
  pub address : ℕ
  pub known : get m.client_file_name c.files ≡ some address
  pub differs : (c.file_at address).file_sha256 ≢ m.sha256

abbrev pub AnyConflict : Client → List FileMetadata → Type 0
AnyConflict c [] = ⊥
AnyConflict c (m ∷ ms) = HasConflict c m ⊎ AnyConflict c ms

HasConflict-Keeps :
    {c d : Client} (m : FileMetadata) → IsFiled c → Keeps c d → HasConflict c m → HasConflict d m
HasConflict-Keeps m i k h = record {
  address = h.address;
  known = k.same_name m.client_file_name h.address h.known;
  differs = λ e.
      h.differs (rw (k.same_file h.address (i.below m.client_file_name h.address h.known)) at e);
}

Used-HasConflict :
    {c d : Client} (m : FileMetadata) → IsFiled c → Used c m d conflict → HasConflict d m
Used-HasConflict m i u =
    let (p, known, differs) = u.differs refl in
    HasConflict-Keeps m i u.keeps (record { address = p; known = known; differs = differs })

-- What the loop over the files of a request promises.
pub record Opened (c : Client) (ms : List FileMetadata) (d : Client) (r : Option (List ℕ))
    : Type 0 where
  pub filed : IsFiled d
  pub keeps : Keeps c d
  pub has_files : (ps : List ℕ) → r ≡ some ps → HasFiles d ms ps
  pub conflicts : r ≡ none → AnyConflict d ms

module _ (now : ℕ) where
  cons-Opened :
      {c c1 : Client} (m : FileMetadata) (ms : List FileMetadata) (p : ℕ)
      (r : Client × Option (List ℕ))
      → Used c m c1 (using p)
      → Opened c1 ms r.0 r.1
      → Opened c (m ∷ ms) r.0 (elim r.1 [ none ↦ none | some ps ↦ some (p ∷ ps) ])
  cons-Opened m ms p (d, none) u o = record {
    filed = o.filed;
    keeps = Keeps-trans u.keeps o.keeps;
    has_files = λ qs e. cc e;
    conflicts = λ e. inr (o.conflicts refl);
  }
  cons-Opened {c} {c1} m ms p (d, some ps) u o = record {
    filed = o.filed;
    keeps = Keeps-trans u.keeps o.keeps;
    has_files = λ qs e.
        let same : (p ∷ ps) ≡ qs = cc e in
        subst (λ q. HasFiles d (m ∷ ms) q) same
          (HasFile-Keeps m p u.filed o.keeps (u.has_file p refl), o.has_files ps refl);
    conflicts = λ e. cc e;
  }

  start_using_files-step :
      (c c1 : Client) (u : Use) (m : FileMetadata) (ms : List FileMetadata) {d : Client}
      {r : Option (List ℕ)}
      → start_using_file_in_session now c c m.client_file_name m.file_size m.sha256 ≡ some (c1, u)
      → start_using_files now c (m ∷ ms) ≡ some (d, r)
      → ((d2 : Client) (r2 : Option (List ℕ))
          → start_using_files now c1 ms ≡ some (d2, r2)
          → Opened c1 ms d2 r2)
      → IsFiled c
      → Used c m c1 u
      → Opened c (m ∷ ms) d r
  unfolding start_using_files
  start_using_files-step c c1 conflict m ms e eq ih i used =
      returns_pair (λ x y. Opened c (m ∷ ms) x y) (rw (e, start_using_files) at eq)
        (record {
          filed = used.filed;
          keeps = used.keeps;
          has_files = λ ps h. cc h;
          conflicts = λ h. inl (Used-HasConflict m i used);
        })
  start_using_files-step c c1 (using p) m ms e eq ih i used =
      elim (Option-cases (start_using_files now c1 ms)) [
        | inl panic ↦ cc (rw (e, start_using_files, panic) at eq)
        | inr (rest, ended) ↦
            returns_pair (λ x y. Opened c (m ∷ ms) x y) (rw (e, start_using_files, ended) at eq)
              (cons-Opened m ms p rest used (ih rest.0 rest.1 ended))
      ]

  -- Where CreateNewSession gives a session of a client whose files stand at their names, each file of
  -- it is the client's file of the name asked for, with the hash asked for. Where it reports a conflict, a name of
  -- the request is known with another hash. In both cases the files known before are as they were.
  pub start_using_files-Opened :
      (c : Client) (ms : List FileMetadata) {d : Client} {r : Option (List ℕ)}
      → IsFiled c
      → start_using_files now c ms ≡ some (d, r)
      → Opened c ms d r
  unfolding start_using_files
  start_using_files-Opened c [] i e =
      returns_pair (λ x y. Opened c [] x y) e
        (record {
          filed = i;
          keeps = Keeps-refl c;
          has_files =
              λ ps h. subst (λ q. HasFiles c [] q) (let g : ◌≡◌ {A = List ℕ} [] ps = cc h in g) tt;
          conflicts = λ h. cc h;
        })
  start_using_files-Opened c (m ∷ ms) i e =
      elim (Option-cases
        (start_using_file_in_session now c c m.client_file_name m.file_size m.sha256)) [
          | inl panic ↦ cc (rw (panic, start_using_files) at e)
          | inr (u, first) ↦
              let used = start_using_file-Used c i m now first in
              start_using_files-step c u.0 u.1 m ms first e
                (λ d2 r2 e2. start_using_files-Opened u.0 ms used.filed e2) i used
        ]

abbrev pub AllNamed : List FileMetadata → Type 0
AllNamed [] = Unit
AllNamed (m ∷ ms) = (m.client_file_name ≢ []) × AllNamed ms

mapped : (w n : Bytes) → n ≢ [] → map_client_file_name_to_server_abs w n ≢ none
unfolding map_client_file_name_to_server_abs
mapped w [] h e = h refl
mapped w (x ∷ n) h e = cc e

module _ (now : ℕ) where
  start_using_file_ne :
      (c : Client) (m : FileMetadata)
      → m.client_file_name ≢ []
      → start_using_file_in_session now c c m.client_file_name m.file_size m.sha256 ≢ none
  unfolding start_using_file_in_session use_or_create make_new_file
  start_using_file_ne c m h = ground (arith, mapped c.working_dir m.client_file_name h)

  opened_ne :
      (u : Use) (ms : List FileMetadata) (c d : Client) (m : FileMetadata)
      → start_using_file_in_session now c c m.client_file_name m.file_size m.sha256 ≡ some (d, u)
      → start_using_files now d ms ≢ none
      → start_using_files now c (m ∷ ms) ≢ none
  unfolding start_using_files
  opened_ne conflict ms c d m e h = rw (e, start_using_files) (λ q. cc q)
  opened_ne (using p) ms c d m e h = rw (e, start_using_files) (ground (arith, h))

  start_using_files_ne :
      (c : Client) (ms : List FileMetadata) → AllNamed ms → start_using_files now c ms ≢ none
  unfolding start_using_files
  start_using_files_ne c [] h = λ e. cc e
  start_using_files_ne c (m ∷ ms) h =
      elim (Option-cases
        (start_using_file_in_session now c c m.client_file_name m.file_size m.sha256)) [
          | inl panic ↦ absurd (start_using_file_ne c m h.0 panic)
          | inr (r, first) ↦ opened_ne r.1 ms c r.0 m first (start_using_files_ne r.0 ms h.1)
        ]

  -- CreateNewSession ends without a panic on a request whose names are not empty. The session it gives
  -- a client whose files stand at their names has, for each file asked for, the client's file of that
  -- name, with the hash asked for. Where it reports a conflict, a name of the request is known with
  -- another hash. In both cases the files known before are as they were.
  pub start_using_files_opens :
      (c : Client) (ms : List FileMetadata)
      → IsFiled c
      → AllNamed ms
      → (d : Client) × (r : Option (List ℕ)) × (start_using_files now c ms ≡ some (d, r))
        × Opened c ms d r
  start_using_files_opens c ms i h = elim (Option-cases (start_using_files now c ms)) [
    | inl panic ↦ absurd (start_using_files_ne c ms h panic)
    | inr (r, e) ↦ (r.0, r.1, e, start_using_files-Opened now c ms i e)
  ]
