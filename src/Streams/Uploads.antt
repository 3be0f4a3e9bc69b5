-- ===== src/Streams/Uploads.antt =====
-- A file that a client uploads, as the server gets it.
use mathlib.Core.List.{append-nil, append_assoc}
use nocc.Client.Uploading.{file_chunk, chunks_of, upload_file_by_chunks}
use nocc.Prelude.{ℕ, ◌+◌, true, List, [], ◌∷◌, ◌++◌, Bytes, ◌≡◌, refl, arith, length, length-append}
use nocc.Server.Handlers.Uploads.{Chunk, contents, receive_chunks, receive_uploaded_file_by_chunks}
use nocc.Streams.{all_bytes, NoEmpty}

-- All bytes are there: the rest of the stream is for the next file.
receive_chunks_full :
    (first : Chunk) (expected : ℕ) (written : Bytes) (more : List Chunk)
    → expected ≡ length written
    → receive_chunks first expected written more ≡ contents written more
unfolding receive_chunks
receive_chunks_full first expected written [] e = ground (arith, e)
receive_chunks_full first expected written (next ∷ more) e = ground (arith, e)

module _ (session_id file_index : ℕ) (first_body : Bytes) (expected : ℕ) where
  receive_chunks-chunks_of :
      (written : Bytes) (bodies : List Bytes) (more : List Chunk)
      → NoEmpty bodies
      → expected ≡ length written + length (all_bytes bodies)
      → receive_chunks
          (file_chunk session_id file_index first_body)
          expected
          written
          (chunks_of session_id file_index bodies ++ more)
        ≡ contents (written ++ all_bytes bodies) more
  unfolding chunks_of receive_chunks
  receive_chunks-chunks_of written [] more h e = rw append-nil (
      receive_chunks_full (file_chunk session_id file_index first_body) expected written more
        (omega (arith, e)))
  receive_chunks-chunks_of written (b ∷ bodies) more h e = ground (
    arith,
    h.0,
    length-append b (all_bytes bodies),
    receive_chunks-chunks_of (written ++ b) bodies more h.1
        (omega (arith, e, length-append written b, length-append b (all_bytes bodies))),
    append_assoc written b (all_bytes bodies),
  )

-- A file whose contents are uploaded, read in pieces that are not empty, reaches the server whole if it
-- has the size announced and can be written there, and nothing of the stream behind it is consumed.
pub receive-upload :
    (session_id file_index : ℕ) (pieces : List Bytes) (first : Chunk) (rest more : List Chunk)
    → NoEmpty pieces
    → upload_file_by_chunks session_id file_index pieces ≡ first ∷ rest
    → receive_uploaded_file_by_chunks true first (length (all_bytes pieces)) (rest ++ more)
      ≡ contents (all_bytes pieces) more
unfolding upload_file_by_chunks receive_uploaded_file_by_chunks
receive-upload session_id file_index [] first rest more h e =
    let p : first ≡ file_chunk session_id file_index [] = cc e in
    let q : rest ≡ [] = cc e in
    rw (p, q) (receive_chunks_full (file_chunk session_id file_index []) 0 [] more refl)
receive-upload session_id file_index (b ∷ bodies) first rest more h e =
    let p : first ≡ file_chunk session_id file_index b = unfold chunks_of in cc e in
    let q : rest ≡ chunks_of session_id file_index bodies = unfold chunks_of in cc e in
    rw (p, q)
      (receive_chunks-chunks_of session_id file_index b (length (b ++ all_bytes bodies)) b bodies
        more h.1 (length-append b (all_bytes bodies)))
