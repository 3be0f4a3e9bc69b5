-- ===== src/Server/Handlers/Visiting/Refusals.antt =====
-- A system file that differs, in internal/server/nocc-server.go: what the refused session leaves.
use nocc.Prelude.{ℕ, ◌-◌, true, some, ◌≡◌, refl, ltb, if◌then◌else◌, Bool-cases, inl, inr}
use nocc.Server.Client.{FileInClientDir, is_file_upload_hanged, upload_timeout}
use nocc.Server.Handlers.Visiting.{visit_file-FileVisited}
use nocc.Server.Handlers.{Machine, Shared, wait, request, refuse, visit_file, restarted}
use nocc.Server.SystemHeaders.{is_system_header_path}

visit_restarted :
    (begun now : ℕ) (m : Machine) (s : Shared) (f : FileInClientDir)
    → m.now ≡ now
    → visit_file m s (restarted begun f) ≡ (
        if ltb (upload_timeout f.file_size) (now - begun)
        then some (s, restarted now f, request)
        else some (s, restarted begun f, wait))
unfolding visit_file is_file_upload_hanged
visit_restarted begun now m s f e =
    rw (← e) (elim (Bool-cases (ltb (upload_timeout f.file_size) (m.now - begun))) [
      | inl late ↦ rw late refl
      | inr early ↦ rw early refl
    ])

-- A session that is refused since a system file differs leaves that file as one that is uploading,
-- though nobody was asked for it. The next session with it waits for it within the time of an upload,
-- and after that asks the client to upload it, to its path among the system's files.
pub refused_stays :
    (m later : Machine) (s s1 s2 : Shared) (f g : FileInClientDir)
    → visit_file m s f ≡ some (s1, g, refuse)
    → (visit_file later s2 g ≡ (
        if ltb (upload_timeout f.file_size) (later.now - m.now)
        then some (s2, restarted later.now f, request)
        else some (s2, restarted m.now f, wait)))
      × (is_system_header_path g.server_file_name ≡ true)
refused_stays m later s s1 s2 f g e =
    let v = visit_file-FileVisited m f s e in
    let (fresh, (same, system)) = v.refuses refl in
    rw same (visit_restarted m.now later.now later s2 f refl, system)
