-- ===== src/Server/Client/Files.antt =====
-- The files of a client in internal/server/client.go: one for a name, with the hash it was asked for.
use nocc.Common.Sha256.{sha256_comparable, sha256_beq_iff}
use nocc.Prelude.Dict.{get, get-put, get-put_self}
use nocc.Prelude.Maybe.{returns_pair}
use nocc.Prelude.{
  ℕ, ◌<◌, none, some, List, [], ◌∷◌, Bytes, ◌≡◌, ◌≢◌, ◌==◌, refl, subst, arith, if◌then◌else◌,
  Option-cases, inl, inr, bytes_beq_iff, bytes_comparable,
}
use nocc.Server.Client.{
  Client, FileInClientDir, FileMetadata, make_new_file, add_file, use_or_create,
  start_using_file_in_session, Use, using, conflict, map_client_file_name_to_server_abs,
}

-- The addresses in use are allocated, and each file stands at its name's place on the server.
pub record IsFiled (c : Client) : Type 0 where
  pub below : (n : Bytes) (p : ℕ) → get n c.files ≡ some p → p < c.files_allocated
  pub named :
      (n : Bytes) (p : ℕ)
      → get n c.files ≡ some p
      → map_client_file_name_to_server_abs c.working_dir n ≡ some (c.file_at p).server_file_name

-- A later state in which the files known before are the same.
pub record Keeps (c d : Client) : Type 0 where
  pub same_name : (n : Bytes) (p : ℕ) → get n c.files ≡ some p → get n d.files ≡ some p
  pub same_file : (p : ℕ) → p < c.files_allocated → d.file_at p ≡ c.file_at p
  pub more : (p : ℕ) → p < c.files_allocated → p < d.files_allocated
  pub same_dir : d.working_dir ≡ c.working_dir
  pub same_sessions : d.sessions ≡ c.sessions
  pub same_heap : d.session_at ≡ c.session_at
  pub same_count : d.sessions_allocated ≡ c.sessions_allocated
  pub same_launched : d.launched ≡ c.launched
  pub same_ready : d.ready_sessions ≡ c.ready_sessions

pub Keeps-refl : (c : Client) → Keeps c c
Keeps-refl c = record {
  same_name = λ n p e. e;
  same_file = λ p l. refl;
  more = λ p l. l;
  same_dir = refl;
  same_sessions = refl;
  same_heap = refl;
  same_count = refl;
  same_launched = refl;
  same_ready = refl;
}

pub Keeps-trans : {b c d : Client} → Keeps b c → Keeps c d → Keeps b d
Keeps-trans k l = record {
  same_name = λ n p e. l.same_name n p (k.same_name n p e);
  same_file = λ p b. cc (l.same_file p (k.more p b), k.same_file p b);
  more = λ p b. l.more p (k.more p b);
  same_dir = cc (k.same_dir, l.same_dir);
  same_sessions = cc (k.same_sessions, l.same_sessions);
  same_heap = cc (k.same_heap, l.same_heap);
  same_count = cc (k.same_count, l.same_count);
  same_launched = cc (k.same_launched, l.same_launched);
  same_ready = cc (k.same_ready, l.same_ready);
}

-- The file that the client asked for, by its name and its hash.
pub record HasFile (c : Client) (f : FileMetadata) (p : ℕ) : Type 0 where
  pub known : get f.client_file_name c.files ≡ some p
  pub same_hash : (c.file_at p).file_sha256 ≡ f.sha256

abbrev pub HasFiles : Client → List FileMetadata → List ℕ → Type 0
HasFiles c [] [] = Unit
HasFiles c (f ∷ fs) (p ∷ ps) = HasFile c f p × HasFiles c fs ps
HasFiles c _ _ = ⊥

pub HasFile-Keeps :
    {c d : Client} (f : FileMetadata) (p : ℕ)
    → IsFiled c
    → Keeps c d
    → HasFile c f p
    → HasFile d f p
HasFile-Keeps f p i k h = record {
  known = k.same_name f.client_file_name p h.known;
  same_hash = rw (k.same_file p (i.below f.client_file_name p h.known)) h.same_hash;
}

module _ (c : Client) (i : IsFiled c) (name : Bytes) (new : get name c.files ≡ none)
    (f : FileInClientDir) where
  add_file-IsFiled :
      map_client_file_name_to_server_abs c.working_dir name ≡ some f.server_file_name
      → IsFiled (add_file c name f)
  unfolding add_file
  add_file-IsFiled e = record {
    below = λ n p h. ground (arith, get-put name n c.files_allocated c.files, i.below n p);
    named = λ n p h. ground (
      arith,
      get-put name n c.files_allocated c.files,
      i.below n p,
      i.named n p,
      bytes_beq_iff name n,
    );
  }

  add_file-Keeps : Keeps c (add_file c name f)
  unfolding add_file
  add_file-Keeps = record {
    same_name =
        λ n p e. ground (arith, get-put name n c.files_allocated c.files, bytes_beq_iff name n);
    same_file = λ p l. ground (arith);
    more = λ p l. omega (arith);
    same_dir = refl;
    same_sessions = refl;
    same_heap = refl;
    same_count = refl;
    same_launched = refl;
    same_ready = refl;
  }

  add_file-HasFile :
      (m : FileMetadata)
      → m.client_file_name ≡ name
      → f.file_sha256 ≡ m.sha256
      → HasFile (add_file c name f) m c.files_allocated
  unfolding add_file
  add_file-HasFile m n h = record {
    known = rw n (get-put_self name c.files_allocated c.files);
    same_hash = ground (arith);
  }

-- What a use of a file promises.
pub record Used (c : Client) (f : FileMetadata) (c' : Client) (u : Use) : Type 0 where
  pub filed : IsFiled c'
  pub keeps : Keeps c c'
  pub has_file : (p : ℕ) → u ≡ using p → HasFile c' f p
  pub differs :
      u ≡ conflict
      → (p : ℕ) × (get f.client_file_name c.files ≡ some p) × ((c.file_at p).file_sha256 ≢ f.sha256)

module _ (c : Client) (i : IsFiled c) (m : FileMetadata) where
  add_file-Used :
      get m.client_file_name c.files ≡ none
      → (f : FileInClientDir) → f.file_sha256 ≡ m.sha256
      → map_client_file_name_to_server_abs c.working_dir m.client_file_name
        ≡ some f.server_file_name
      → Used c m (add_file c m.client_file_name f) (using c.files_allocated)
  add_file-Used new f h named = record {
    filed = add_file-IsFiled c i m.client_file_name new f named;
    keeps = add_file-Keeps c i m.client_file_name new f;
    has_file = λ p same.
        let at : c.files_allocated ≡ p = cc same in
        subst (λ q. HasFile (add_file c m.client_file_name f) m q) at
          (add_file-HasFile c i m.client_file_name new f m refl h);
    differs = λ u. cc u;
  }

  create-Used :
      (now : ℕ) {c' : Client} {u : Use}
      → get m.client_file_name c.files ≡ none
      → use_or_create now c m.client_file_name m.file_size m.sha256 ≡ some (c', u)
      → Used c m c' u
  unfolding use_or_create make_new_file
  create-Used now new e =
      elim (Option-cases (map_client_file_name_to_server_abs c.working_dir m.client_file_name)) [
        | inl panic ↦ cc (rw (new, panic, use_or_create, make_new_file) at e)
        | inr (n, named) ↦
            returns_pair (λ d v. Used c m d v) (rw (new, named, use_or_create, make_new_file) at e)
              (add_file-Used new _ refl named)
      ]

  known-Used :
      (p : ℕ)
      → get m.client_file_name c.files ≡ some p
      → Used c m c (if (c.file_at p).file_sha256 == m.sha256 then using p else conflict)
  known-Used p known = record {
    filed = i;
    keeps = Keeps-refl c;
    has_file = λ q same. record {
      known = ground (arith);
      same_hash = ground (arith, sha256_beq_iff (c.file_at p).file_sha256 m.sha256);
    };
    differs =
        λ u. (p, known, λ same. ground (arith, sha256_beq_iff (c.file_at p).file_sha256 m.sha256));
  }

  pub start_using_file-Used :
      (now : ℕ) {c' : Client} {u : Use}
      → start_using_file_in_session now c c m.client_file_name m.file_size m.sha256 ≡ some (c', u)
      → Used c m c' u
  unfolding start_using_file_in_session
  start_using_file-Used now e = elim (Option-cases (get m.client_file_name c.files)) [
    | inl new ↦ create-Used now new (rw (new, start_using_file_in_session) at e)
    | inr (p, known) ↦
        returns_pair (λ d v. Used c m d v) (rw (known, start_using_file_in_session) at e)
          (known-Used p known)
  ]
