-- ===== src/Streams/Tests.antt =====
-- A file of five bytes up the stream, and an object with a .gcno down it.
use nocc.Client.Receiving.{receive_obj_file_by_chunks}
use nocc.Client.Uploading.{file_chunk, upload_file_by_chunks}
use nocc.Common.CompilerKilled.{exited}
use nocc.Prelude.Text.{ascii}
use nocc.Prelude.{true, false, some, List, [], ◌∷◌, ◌++◌, Bytes, ◌≡◌, ◌↔◌, refl, arith}
use nocc.Server.Client.{Session}
use nocc.Server.Handlers.Uploads.{Chunk, contents, receive_uploaded_file_by_chunks}
use nocc.Server.Sending.{ObjChunk, obj_chunk, send_obj_file_by_chunks}
use nocc.Streams.Objects.{receive-send, send_nothing, sound_disk, delivered, read_file}
use nocc.Streams.Uploads.{receive-upload}
use nocc.Streams.{all_bytes}

abbrev hello : List Bytes
hello = ascii "hel" ∷ ascii "lo" ∷ []

abbrev next_file : List Chunk
next_file = file_chunk 7 1 (ascii "x") ∷ []

receive-upload_example :
    receive_uploaded_file_by_chunks true
      (file_chunk 7 0 (ascii "hel"))
      5
      (file_chunk 7 0 (ascii "lo") ∷ next_file)
    ≡ contents (ascii "hello") next_file
receive-upload_example =
    receive-upload 7 0 hello (file_chunk 7 0 (ascii "hel")) (file_chunk 7 0 (ascii "lo") ∷ [])
      next_file (omega arith) (unfold upload_file_by_chunks in refl)

-- A coverage session whose .gcno has three bytes, or none.
abbrev session : Bytes → Session
session notes = record {
  session_id = 7;
  cpp_in_file = ascii "/tmp/a.cpp";
  obj_out_file = ascii "/tmp/a.o";
  cxx_cwd = ascii "/tmp";
  cxx_name = ascii "g++";
  cxx_cmd_line = [];
  coverage_obj_file = ascii "/w/a.o";
  coverage_notes = some notes;
  coverage_failed = false;
  files = [];
  obj_cache_key = record { b0_7 = 0; b8_15 = 0; b16_23 = 0; b24_31 = 0 };
  obj_cache_exists = false;
  compilation_started = true;
  cxx_exit_code = exited 0;
  cxx_stdout = [];
  cxx_stderr = [];
  cxx_duration = 5;
}

abbrev with_notes : Session
with_notes = session (ascii "abc")

abbrev first_chunk : ObjChunk
unfolding obj_chunk
first_chunk = obj_chunk with_notes 5 (ascii "hel")

abbrev other_chunks : List ObjChunk
unfolding obj_chunk
other_chunks =
    obj_chunk with_notes 5 (ascii "lo")
    ∷ obj_chunk with_notes 5 (ascii "ab")
    ∷ obj_chunk with_notes 5 (ascii "c")
    ∷ []

sent :
    send_obj_file_by_chunks 4 2 with_notes (some (read_file hello))
    ≡ (first_chunk ∷ other_chunks, true)
unfolding send_obj_file_by_chunks
sent = refl

receive-send_example :
    receive_obj_file_by_chunks sound_disk true first_chunk (other_chunks ++ first_chunk ∷ [])
    ≡ delivered true (ascii "hello") (ascii "abc") (first_chunk ∷ [])
receive-send_example =
    receive-send true with_notes 4 2 hello first_chunk other_chunks (first_chunk ∷ []) (omega arith)
      (omega arith) sent

send_nothing_example :
    (send_obj_file_by_chunks 0 2 (session []) (some (read_file [])) ≡ ([], true))
    ↔ (all_bytes [] ++ [] ≡ [])
send_nothing_example = send_nothing (session []) 0 2 [] (omega arith) tt
