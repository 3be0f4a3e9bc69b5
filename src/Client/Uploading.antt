-- ===== src/Client/Uploading.antt =====
-- internal/client/files-uploading.go: a file on its way to the server.
use nocc.Prelude.{ℕ, List, [], ◌∷◌, Bytes}
use nocc.Server.Handlers.Uploads.{Chunk}

abbrev pub file_chunk : ℕ → ℕ → Bytes → Chunk
file_chunk session_id file_index body = record {
  session_id = session_id;
  file_index = file_index;
  chunk_body = body;
}

unfoldable pub chunks_of : ℕ → ℕ → List Bytes → List Chunk
chunks_of session_id file_index [] = []
chunks_of session_id file_index (body ∷ bodies) =
    file_chunk session_id file_index body ∷ chunks_of session_id file_index bodies

-- The chunks that a file is sent in, from what each `Read` gives before EOF: one chunk at least.
unfoldable pub upload_file_by_chunks : ℕ → ℕ → List Bytes → List Chunk
unfolding chunks_of
upload_file_by_chunks session_id file_index [] = file_chunk session_id file_index [] ∷ []
upload_file_by_chunks session_id file_index (body ∷ bodies) =
    chunks_of session_id file_index (body ∷ bodies)
