-- ===== src/Client/Receiving/Tests.antt =====
-- An object of five bytes of internal/client/files-receiving.go, whose stream breaks.
use nocc.Client.Receiving.Finishing.{handle_first_chunk-Finished, Finished}
use nocc.Client.Receiving.{Disk, cut, recv, write, receive_obj_file_by_chunks, handle_first_chunk}
use nocc.Common.CompilerKilled.{exited}
use nocc.Prelude.Text.{ascii}
use nocc.Prelude.{true, false, none, some, [], ◌∷◌, Bytes, ◌≡◌, refl}
use nocc.Server.Sending.{ObjChunk}

abbrev chunk : Bytes → ObjChunk
chunk body = record {
  session_id = 7;
  cxx_exit_code = exited 0;
  cxx_stdout = [];
  cxx_stderr = [];
  cxx_duration = 5;
  file_size = 5;
  notes_file_size = 2;
  chunk_body = body;
}

abbrev disk : Disk
disk = record {
  write_file = cut 3;
  removes = false;
  writable = true;
  notes_writable = true;
  renames = true;
}

broken :
    (receive_obj_file_by_chunks disk true (chunk (ascii "hel")) (chunk (ascii "lo") ∷ [])).error
    ≡ some recv
unfolding receive_obj_file_by_chunks
broken = refl

-- An object of one chunk, on a disk that is full after three bytes.
full :
    receive_obj_file_by_chunks disk false
      (record (chunk (ascii "hello")) { notes_file_size = 0 })
      []
    ≡ record {
      obj = some (ascii "hel");
      notes = none;
      error = some write;
      recreate = false;
      stream = [];
    }
unfolding receive_obj_file_by_chunks
full = refl

handle_first_chunk-Finished_example :
    Finished disk true
      (chunk (ascii "hel"))
      (handle_first_chunk disk (some true) (chunk (ascii "hel")) (chunk (ascii "loab") ∷ []))
handle_first_chunk-Finished_example =
    handle_first_chunk-Finished disk true (chunk (ascii "hel")) (chunk (ascii "loab") ∷ [])
