-- ===== src/Server/Sending.antt =====
-- internal/server/files-stream-server.go: a compiled object on its way to the client.
use nocc.Common.CompilerKilled.{ExitCode}
use nocc.Prelude.{
  ℕ, zero, suc, Bool, false, Option, none, some, List, [], ◌∷◌, ◌++◌, Bytes, leb, length, take,
  drop, if◌then◌else◌,
}
use nocc.Server.Client.{Session}

-- pb.RecvCompiledObjChunkReply.
pub record ObjChunk : Type 0 where
  pub session_id : ℕ
  pub cxx_exit_code : ExitCode
  pub cxx_stdout : Bytes
  pub cxx_stderr : Bytes
  pub cxx_duration : ℕ
  pub file_size : ℕ
  pub notes_file_size : ℕ
  pub chunk_body : Bytes

-- A file that could be opened: its size, what each `Read` gives, and whether the last one says EOF.
pub record FileReads : Type 0 where
  pub size : ℕ
  pub pieces : List Bytes
  pub is_read : Bool

abbrev pub notes_of : Session → Bytes
notes_of s = elim s.coverage_notes [ none ↦ [] | some notes ↦ notes ]

unfoldable pub obj_chunk : Session → ℕ → Bytes → ObjChunk
obj_chunk s size body = record {
  session_id = s.session_id;
  cxx_exit_code = s.cxx_exit_code;
  cxx_stdout = s.cxx_stdout;
  cxx_stderr = s.cxx_stderr;
  cxx_duration = s.cxx_duration;
  file_size = size;
  notes_file_size = length (notes_of s);
  chunk_body = body;
}

-- The loop over the notes, for a buffer that is not empty; a round for each byte is enough.
unfoldable pub notes_pieces : ℕ → ℕ → Bytes → List Bytes
notes_pieces zero buf notes = []
notes_pieces (suc fuel) buf [] = []
notes_pieces (suc fuel) buf (c ∷ notes) =
    take buf (c ∷ notes) ∷ notes_pieces fuel buf (drop buf (c ∷ notes))

unfoldable pub obj_chunks : Session → ℕ → List Bytes → List ObjChunk
unfolding obj_chunk
obj_chunks s size [] = []
obj_chunks s size (body ∷ bodies) = obj_chunk s size body ∷ obj_chunks s size bodies

-- What is sent if the first `sends` calls of `Send` succeed, and whether all did.
abbrev pub send_all : ℕ → List ObjChunk → List ObjChunk × Bool
send_all sends chunks = (take sends chunks, leb (length chunks) sends)

-- The chunks sent, and whether there was no error. `file` is `none` if the object cannot be opened.
unfoldable pub send_obj_file_by_chunks : ℕ → ℕ → Session → Option FileReads → List ObjChunk × Bool
unfolding obj_chunks notes_pieces
send_obj_file_by_chunks sends buf s file = elim file [
  | none ↦ ([], false)
  | some f ↦
      if f.is_read
      then send_all sends
          (obj_chunks s f.size (f.pieces ++ notes_pieces (length (notes_of s)) buf (notes_of s)))
      else (take sends (obj_chunks s f.size f.pieces), false)
]
