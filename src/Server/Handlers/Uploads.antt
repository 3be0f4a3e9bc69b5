-- ===== src/Server/Handlers/Uploads.antt =====
-- internal/server/nocc-server.go and files-stream-server.go: `UploadFileStream`, one file of it.
use nocc.Prelude.Maybe.{◌>>=◌}
use nocc.Prelude.Paths.{base}
use nocc.Prelude.Text.{ascii, has_suffix}
use nocc.Prelude.{
  ℕ, Bool, true, false, ◌&&◌, not, Option, none, some, List, [], ◌∷◌, ◌++◌, Bytes, ltb, length,
  get_elem?, nat_beq, if◌then◌else◌,
}
use nocc.Server.Client.{Client, FileState, upload_error, uploaded, set_file, get_session}
use nocc.Server.FileCache.{save_file_to_cache}
use nocc.Server.Handlers.{Shared, with_state}
use nocc.Server.Session.{launch_cxx_on_server_on_ready_sessions}

-- pb.UploadFileChunkRequest, less the client's id.
pub record Chunk : Type 0 where
  pub session_id : ℕ
  pub file_index : ℕ
  pub chunk_body : Bytes

-- How `receiveUploadedFileByChunks` ends: with the contents of the file, or an error, after which
-- the temporary file is removed. The chunks behind the file's stay in the stream.
pub data Received : Type 0 where
  contents : Bytes → List Chunk → Received
  failed : Received

-- `nextChunk.SessionID != firstChunk.SessionID || nextChunk.FileIndex != firstChunk.FileIndex`
abbrev pub is_of_same_file : Chunk → Chunk → Bool
is_of_same_file a b = nat_beq a.session_id b.session_id && nat_beq a.file_index b.file_index

-- The loop, with what was written so far; a stream that has ended is an error.
unfoldable pub receive_chunks : Chunk → ℕ → Bytes → List Chunk → Received
receive_chunks first expected written [] =
    if ltb (length written) expected then failed else contents written []
receive_chunks first expected written (next ∷ stream) =
    let rest = receive_chunks first expected (written ++ next.chunk_body) stream in
    if ltb (length written) expected
    then (if is_of_same_file next first then rest else failed)
    else contents written (next ∷ stream)

-- `writable` says that the temporary file could be made, written and renamed.
unfoldable pub receive_uploaded_file_by_chunks : Bool → Chunk → ℕ → List Chunk → Received
unfolding receive_chunks
receive_uploaded_file_by_chunks writable first expected stream =
    if writable then receive_chunks first expected first.chunk_body stream else failed

pub data UploadReply : Type 0 where
  received : UploadReply
  unknown_session : UploadReply
  not_received : UploadReply
  not_compiled : UploadReply

abbrev pub mark_file : Client → ℕ → FileState → Client
mark_file c q st = record c { file_at = set_file c.file_at q (with_state st (c.file_at q)) }

abbrev pub own_pch_suffix : Bytes
own_pch_suffix = ascii ".nocc-pch"

-- The file is there: it is marked before the sessions are looked at, and saved to the src cache
-- after. `none`: the purge has not ended after `fuel` rounds.
unfoldable pub accept_upload :
    ℕ → Bool → Shared → Client → ℕ → Option (Shared × Client × UploadReply)
unfolding launch_cxx_on_server_on_ready_sessions save_file_to_cache
accept_upload fuel linked s c q =
    let f = c.file_at q in
    let d = launch_cxx_on_server_on_ready_sessions (mark_file c q uploaded) in
    save_file_to_cache fuel s.src_file_cache linked (base f.server_file_name) f.file_sha256
      f.file_size
    >>= λ r. some (record s { src_file_cache = r.0 }, d, received)

-- `arrived` is whether all chunks came, `pch_compiled` whether the compiler made a .gch of an own
-- pch file.
unfoldable pub finish_upload :
    ℕ → Bool → Bool → Bool → Shared → Client → ℕ → Option (Shared × Client × UploadReply)
unfolding accept_upload
finish_upload fuel linked arrived pch_compiled s c q =
    if not arrived
    then some (s, mark_file c q upload_error, not_received)
    else if has_suffix (c.file_at q).server_file_name own_pch_suffix && not pch_compiled
    then some (s, mark_file c q upload_error, not_compiled)
    else accept_upload fuel linked s c q

abbrev pub is_contents : Received → Bool
is_contents (contents _ _) = true
is_contents failed = false

-- One round of the handler's loop, for a client that is known.
unfoldable pub upload_file :
    ℕ
    → ℕ
    → Bool
    → Bool
    → Bool
    → Shared
    → Client
    → Chunk
    → List Chunk
    → Option (Shared × Client × UploadReply)
unfolding get_session receive_uploaded_file_by_chunks finish_upload
upload_file now fuel linked writable pch_compiled s c first stream =
    let seen = record c { last_seen = now } in
    elim (get_session c first.session_id) [
      | none ↦ some (s, seen, unknown_session)
      | some p ↦ elim (get_elem? (c.session_at p).files first.file_index) [
        | none ↦ some (s, seen, unknown_session)
        | some q ↦
            finish_upload fuel linked
              (is_contents
                (receive_uploaded_file_by_chunks writable first (c.file_at q).file_size stream))
              pch_compiled s seen q
      ]
    ]
