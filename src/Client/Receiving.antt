-- ===== src/Client/Receiving.antt =====
-- internal/client/files-receiving.go: a compiled object that comes from the server.
pub mod Placing
pub mod Finishing
mod Tests
use nocc.Common.CompilerKilled.{ExitCode, compiler_was_killed}
use nocc.Prelude.{
  ℕ, ◌+◌, ◌-◌, Bool, true, false, ◌&&◌, ◌||◌, not, Option, none, some, List, [], ◌∷◌, ◌++◌, Bytes,
  ltb, leb, nat_beq, length, take, drop, if◌then◌else◌,
}
use nocc.Server.Handlers.Replies.{is_zero}
use nocc.Server.Sending.{ObjChunk}

-- What `os.WriteFile` does: it writes all; it cannot open the file; or it fails, with so many bytes
-- left in the file, which it has truncated.
pub data WriteFile : Type 0 where
  whole : WriteFile
  refused : WriteFile
  cut : ℕ → WriteFile

-- How the disk does: what the write of an object in its place does, and whether a wrong object can be
-- removed; whether the temporary file of an object can be written, whether the .gcno can, and whether
-- the object can be renamed to its place.
pub record Disk : Type 0 where
  pub write_file : WriteFile
  pub removes : Bool
  pub writable : Bool
  pub notes_writable : Bool
  pub renames : Bool

pub data ReceiveError : Type 0 where
  recv : ReceiveError
  write : ReceiveError
  killed_on_remote : ReceiveError
  no_gcno : ReceiveError

-- What of this compilation comes to stand at the place of the object, and of the .gcno; the error; whether the stream is to
-- be made anew; what is left of the stream.
pub record Placed : Type 0 where
  pub obj : Option Bytes
  pub notes : Option Bytes
  pub error : Option ReceiveError
  pub recreate : Bool
  pub stream : List ObjChunk

-- The variables of the loop: what the temporary file holds, the notes, and `objLeft`.
pub record Loop : Type 0 where
  pub body : Bytes
  pub notes : Bytes
  pub obj_left : ℕ

-- The closure `write`.
unfoldable pub write_body : Loop → Bytes → Loop
write_body l body = record {
  body = l.body ++ take l.obj_left body;
  notes = l.notes ++ drop l.obj_left body;
  obj_left = l.obj_left - length body;
}

-- The loop of `receiveObjFileByChunks`: its variables at the end, whether `errRecv` is nil, and what is
-- left of the stream. A stream that has ended is an error.
unfoldable pub receive_loop : ℕ → ℕ → ℕ → Loop → List ObjChunk → Loop × Bool × List ObjChunk
receive_loop session_id expected received l [] = (l, leb expected received, [])
receive_loop session_id expected received l (next ∷ stream) =
    let rest =
      receive_loop session_id expected (received + length next.chunk_body)
        (write_body l next.chunk_body) stream in
    if leb expected received
    then (l, true, next ∷ stream)
    else if nat_beq next.session_id session_id
    then rest
    else (l, false, stream)

abbrev pub is_there : Bytes → Bool
is_there [] = false
is_there (c ∷ s) = true

-- What follows the loop: the .gcno is placed before the object. `has_place` says that the .gcno has a
-- name.
unfoldable pub place : Disk → Bool → Loop → Bool → List ObjChunk → Placed
place disk has_place l arrived stream =
    let has_notes = has_place && is_there l.notes in
    let placed_notes = arrived && (disk.writable && has_notes) in
    let no_error = disk.writable && (not has_notes || disk.notes_writable) in
    record {
      obj = if arrived && (no_error && disk.renames) then some l.body else none;
      notes = if placed_notes && disk.notes_writable then some l.notes else none;
      error =
          if not arrived then some recv else if no_error && disk.renames then none else some write;
      recreate = not arrived;
      stream = stream;
    }

-- After the first chunk.
unfoldable pub started : ObjChunk → Loop
unfolding write_body
started first =
    write_body (record { body = []; notes = []; obj_left = first.file_size }) first.chunk_body

-- An object that came in one chunk, with no .gcno, is written where it belongs.
unfoldable pub place_at_once : WriteFile → Bytes → List ObjChunk → Placed
place_at_once whole body stream = record {
  obj = some body;
  notes = none;
  error = none;
  recreate = false;
  stream = stream;
}
place_at_once refused body stream = record {
  obj = none;
  notes = none;
  error = some write;
  recreate = false;
  stream = stream;
}
place_at_once (cut n) body stream = record {
  obj = some (take n body);
  notes = none;
  error = some write;
  recreate = false;
  stream = stream;
}

unfoldable pub receive_obj_file_by_chunks : Disk → Bool → ObjChunk → List ObjChunk → Placed
unfolding receive_loop place place_at_once started
receive_obj_file_by_chunks disk has_place first stream =
    let expected = first.file_size + first.notes_file_size in
    let received = length first.chunk_body in
    let (l, arrived, rest) =
      receive_loop first.session_id expected received (started first) stream in
    if leb expected received && nat_beq first.notes_file_size 0
    then place_at_once disk.write_file first.chunk_body stream
    else place disk has_place l arrived rest

-- What `monitorRemoteStreamForObjReceiving` does with the first chunk of an object. `DoneRecvObj` is
-- called, with an error or without one, if the invocation is known; `shown` is the exit code that the
-- user sees, if the compiler has ended there.
pub record Handled : Type 0 where
  pub done : Option (Option ReceiveError)
  pub shown : Option ExitCode
  pub placed : Placed

abbrev pub nothing_placed : List ObjChunk → Placed
nothing_placed stream = record {
  obj = none;
  notes = none;
  error = none;
  recreate = false;
  stream = stream;
}

-- An invocation is known, or not; `coverage_notes` is its field. An object of an unknown one goes to a
-- file in /tmp, so nothing is placed, and an error of that makes the stream anew.
abbrev pub drop_obj : Placed → Placed
drop_obj p = record p {
  obj = none;
  notes = none;
  recreate = elim p.error [ none ↦ false | some e ↦ true ];
}

abbrev pub check_gcno : Disk → Bool → ObjChunk → Placed → Placed
check_gcno disk coverage_notes first p =
    if elim p.error [ none ↦ coverage_notes && nat_beq first.notes_file_size 0 | some e ↦ false ]
    then record p { obj = if disk.removes then none else p.obj; error = some no_gcno }
    else p

unfoldable pub handle_first_chunk : Disk → Option Bool → ObjChunk → List ObjChunk → Handled
unfolding receive_obj_file_by_chunks compiler_was_killed
handle_first_chunk disk invocation first stream = elim invocation [
  | none ↦ record {
    done = none;
    shown = none;
    placed =
        if is_zero first.cxx_exit_code
        then drop_obj (receive_obj_file_by_chunks disk false first stream)
        else nothing_placed stream;
  }
  | some coverage_notes ↦
      let p =
        check_gcno disk coverage_notes first
          (receive_obj_file_by_chunks disk coverage_notes first stream) in
      if compiler_was_killed first.cxx_exit_code first.cxx_stderr
      then record {
        done = some (some killed_on_remote);
        shown = none;
        placed = nothing_placed stream;
      }
      else if not (is_zero first.cxx_exit_code)
      then record {
        done = some none;
        shown = some first.cxx_exit_code;
        placed = nothing_placed stream;
      }
      else record { done = some p.error; shown = some first.cxx_exit_code; placed = p }
]
