-- ===== src/Server/Handlers.antt =====
-- internal/server/nocc-server.go: the grpc handlers, on the state of one client and of the caches.
-- A handler runs as one step: other goroutines run between handlers.
pub mod Visiting
pub mod Starting
pub mod Waking
pub mod Uploads
pub mod Replies
pub mod Clients
mod Tests
use nocc.Common.Sha256.{Sha256}
use nocc.Prelude.Maybe.{◌>>=◌}
use nocc.Prelude.{
  ℕ, ◌+◌, Bool, true, false, Option, none, some, List, [], ◌∷◌, Bytes, if◌then◌else◌,
}
use nocc.Server.Client.{
  FileInClientDir, FileHeap, FileState, just_created, uploading, upload_error, uploaded, set_file,
  is_file_upload_hanged,
}
use nocc.Server.FileCache.{FileCache, create_hard_link_from_cache}
use nocc.Server.SystemHeaders.{SystemHeadersCache, Disk, is_system_header_path, is_system_header}

-- The caches that the clients of a server share.
pub record Shared : Type 0 where
  pub system_headers : SystemHeadersCache
  pub src_file_cache : FileCache
  pub obj_file_cache : FileCache

-- What a handler sees of the machine: the disk, the clock, and whether a hard link to a path can be
-- made.
pub record Machine : Type 0 where
  pub disk : Disk
  pub now : ℕ
  pub link_ok : Bytes → Bool

-- What becomes of one file of a session.
pub data Verdict : Type 0 where
  wait : Verdict
  request : Verdict
  refuse : Verdict

abbrev pub with_state : FileState → FileInClientDir → FileInClientDir
with_state st f = record f { state = st }

-- `file.state = fsFileStateUploading; file.uploadStartTime = time.Now()`
abbrev pub restarted : ℕ → FileInClientDir → FileInClientDir
restarted now f = record f { state = uploading; upload_start_time = now }

-- A file inside the system's directories must be the server's own.
unfoldable pub visit_system_file :
    Machine → Shared → FileInClientDir → Shared × FileInClientDir × Verdict
unfolding is_system_header
visit_system_file m s f =
    let (headers, same) =
      is_system_header m.disk s.system_headers f.server_file_name f.file_size f.file_sha256 in
    (
      record s { system_headers = headers },
      if same then with_state uploaded f else f,
      if same then wait else refuse,
    )

-- The src cache has it, or the client is asked. The link to a compiled pch, whose error is ignored,
-- changes the disk only.
unfoldable pub visit_source_file :
    Machine → Shared → FileInClientDir → Option (Shared × FileInClientDir × Verdict)
unfolding create_hard_link_from_cache
visit_source_file m s f =
    create_hard_link_from_cache s.src_file_cache f.file_sha256 (m.link_ok f.server_file_name)
    >>= λ r. some (
      record s { src_file_cache = r.0 },
      if r.1 then with_state uploaded f else f,
      if r.1 then wait else request,
    )

-- `case fsFileStateJustCreated`
unfoldable pub visit_created :
    Machine → Shared → FileInClientDir → Option (Shared × FileInClientDir × Verdict)
unfolding is_system_header_path visit_system_file visit_source_file
visit_created m s f =
    let g = restarted m.now f in
    if is_system_header_path f.server_file_name
    then some (visit_system_file m s g)
    else visit_source_file m s g

-- The switch over the state of a file. `none`: a panic.
unfoldable pub visit_file :
    Machine → Shared → FileInClientDir → Option (Shared × FileInClientDir × Verdict)
unfolding visit_created is_file_upload_hanged
visit_file m s f = elim f.state [
  | just_created ↦ visit_created m s f
  | uploading ↦
      let hanged = is_file_upload_hanged m.now f in
      some (s, if hanged then restarted m.now f else f, if hanged then request else wait)
  | upload_error ↦ some (s, restarted m.now f, request)
  | uploaded ↦ some (s, f, wait)
]

-- What the loop over a session's files has done; `requested` are the indexes, and `refused` says that
-- it stopped at a system file that differs.
pub record Visited : Type 0 where
  pub shared : Shared
  pub heap : FileHeap
  pub requested : List ℕ
  pub refused : Bool

abbrev pub add_request : ℕ → Visited → Visited
add_request i v = record v { requested = i ∷ v.requested }

unfoldable pub visit_files : Machine → ℕ → List ℕ → Shared → FileHeap → Option Visited
unfolding visit_file
visit_files m i [] s h = some (record { shared = s; heap = h; requested = []; refused = false })
visit_files m i (p ∷ ps) s h = visit_file m s (h p) >>= λ (s1, f, verdict).
    let h1 = set_file h p f in
    let rest = visit_files m (i + 1) ps s1 h1 in
    elim verdict [
      | wait ↦ rest
      | request ↦ (rest >>= λ v. some (add_request i v))
      | refuse ↦ some (record { shared = s1; heap = h1; requested = []; refused = true })
    ]
