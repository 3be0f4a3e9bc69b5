-- ===== src/Client/Receiving/Placing.antt =====
-- What internal/client/files-receiving.go lets stand at the place of an object.
use nocc.Client.Receiving.{
  Disk, WriteFile, whole, refused, cut, ReceiveError, Placed, Loop, write_body, receive_loop,
  is_there, place, place_at_once, started, receive_obj_file_by_chunks,
}
use nocc.Prelude.{
  ℕ, zero, suc, ◌+◌, ◌-◌, ◌<◌, ◌≤◌, Bool, true, false, ◌&&◌, none, some, List, [], ◌∷◌, Bytes, ◌≡◌,
  ◌⊎◌, refl, arith, Bool-cases, inl, inr, length, length-append, take, drop, leb, nat_beq,
}
use nocc.Server.Sending.{ObjChunk}

-- What has been received so far: first the object up to its size, then the notes.
record IsSplit (size received : ℕ) (l : Loop) : Type 0 where
  all : length l.body + length l.notes ≡ received
  left : length l.body + l.obj_left ≡ size
  notes_last : 0 < l.obj_left → length l.notes ≡ 0

length-take-drop : (n : ℕ) (s : Bytes) → length (take n s) + length (drop n s) ≡ length s
length-take-drop zero s = omega arith
length-take-drop (suc n) [] = omega arith
length-take-drop (suc n) (x ∷ s) = omega (arith, length-take-drop n s)

length-drop : (n : ℕ) (s : Bytes) → length (drop n s) ≡ length s - n
length-drop zero s = omega arith
length-drop (suc n) [] = omega arith
length-drop (suc n) (x ∷ s) = omega (arith, length-drop n s)

write_body-IsSplit :
    (size received : ℕ) (l : Loop) (body : Bytes)
    → IsSplit size received l
    → IsSplit size (received + length body) (write_body l body)
unfolding write_body
write_body-IsSplit size received l body h =
    let t = length-take-drop l.obj_left body in
    let d = length-drop l.obj_left body in
    let b = length-append l.body (take l.obj_left body) in
    let n = length-append l.notes (drop l.obj_left body) in
    record {
      all = omega (arith, t, b, n, h.all);
      left = omega (arith, t, d, b, h.left);
      notes_last = λ p. omega (arith, t, d, n, p, h.notes_last (omega (arith, p)));
    }

module _ (session_id size expected : ℕ) where
  receive_loop-IsSplit :
      (received : ℕ) (l : Loop) (stream : List ObjChunk)
      → IsSplit size received l
      → (receive_loop session_id expected received l stream).1 ≡ true
      → (r : ℕ) × (expected ≤ r)
        × IsSplit size r (receive_loop session_id expected received l stream).0
  unfolding receive_loop
  receive_loop-IsSplit received l [] h e = (received, ground (arith, e), h)
  receive_loop-IsSplit received l (next ∷ stream) h e = elim (Bool-cases (leb expected received)) [
    | inl enough ↦ rw enough (received, ground arith, h)
    | inr more ↦ elim (Bool-cases (nat_beq next.session_id session_id)) [
      | inl same ↦
          rw (more, same)
            (receive_loop-IsSplit (received + length next.chunk_body) (write_body l next.chunk_body)
              stream (write_body-IsSplit size received l next.chunk_body h) (rw (more, same) at e))
      | inr other ↦ absurd (cc (rw (more, other) at e))
    ]
  ]

-- An object that came in one chunk, and that a failed write in its place has cut.
abbrev pub IsCut : Disk → ObjChunk → Placed → Type 0
IsCut disk first p =
    (n : ℕ) × (disk.write_file ≡ cut n)
    × (p.obj ≡ some (take n first.chunk_body))
    × (first.file_size ≤ length first.chunk_body)
    × (first.notes_file_size ≡ 0)

-- What is placed of an object, which comes with a .gcno if its first chunk says so.
pub record IsWhole (disk : Disk) (has_place : Bool) (first : ObjChunk) (p : Placed) : Type 0 where
  pub obj_whole : p.error ≡ none → (b : Bytes) × (p.obj ≡ some b) × (first.file_size ≤ length b)
  pub notes_whole :
      p.error ≡ none
      → has_place ≡ true
      → 0 < first.notes_file_size
      → (n : Bytes) × (p.notes ≡ some n) × (first.notes_file_size ≤ length n)
  pub errored : (e : ReceiveError) → p.error ≡ some e → (p.obj ≡ none) ⊎ IsCut disk first p

-- Once all bytes have come, both files have theirs.
split_enough :
    (size notes_size r : ℕ) (l : Loop)
    → IsSplit size r l
    → size + notes_size ≤ r
    → (size ≤ length l.body) × (notes_size ≤ length l.notes)
split_enough size notes_size r l h e = elim (Bool-cases (nat_beq l.obj_left 0)) [
  | inl z ↦
      let y : l.obj_left ≡ 0 = ground arith in
      (omega (arith, h.left, y), omega (arith, h.left, h.all, y, e))
  | inr p ↦ absurd (
      omega (
        arith,
        h.left,
        h.all,
        e,
        (let q : 0 < l.obj_left = ground arith in h.notes_last q),
        (let q : 0 < l.obj_left = ground arith in q),
      ))
]

is_there_lem : (s : Bytes) → 0 < length s → is_there s ≡ true
is_there_lem [] h = absurd (omega (arith, h))
is_there_lem (c ∷ s) h = refl

place-IsWhole :
    (disk : Disk) (has_place : Bool) (first : ObjChunk) (l : Loop) (arrived : Bool)
    (stream : List ObjChunk)
    → (arrived ≡ true
        → (first.file_size ≤ length l.body) × (first.notes_file_size ≤ length l.notes))
    → IsWhole disk has_place first (place disk has_place l arrived stream)
unfolding place
place-IsWhole disk has_place first l false stream h = record {
  obj_whole = λ e. cc e;
  notes_whole = λ e. cc e;
  errored = λ e h. inl refl;
}
place-IsWhole disk has_place first l true stream h =
    let (whole_obj, noted) = h refl in
    record {
      obj_whole = λ e. (l.body, ground arith, whole_obj);
      notes_whole = λ e k n. (l.notes, ground (arith, is_there_lem l.notes), noted);
      errored = λ e b. inl (ground arith);
    }

place_at_once-IsWhole :
    (disk : Disk) (has_place : Bool) (first : ObjChunk) (stream : List ObjChunk) (w : WriteFile)
    → disk.write_file ≡ w
    → first.file_size ≤ length first.chunk_body
    → first.notes_file_size ≡ 0
    → IsWhole disk has_place first (place_at_once w first.chunk_body stream)
unfolding place_at_once
place_at_once-IsWhole disk has_place first stream whole d l z = record {
  obj_whole = λ e. (first.chunk_body, refl, l);
  notes_whole = λ e k n. absurd (omega (arith, z, n));
  errored = λ e h. cc h;
}
place_at_once-IsWhole disk has_place first stream refused d l z = record {
  obj_whole = λ e. cc e;
  notes_whole = λ e. cc e;
  errored = λ e h. inl refl;
}
place_at_once-IsWhole disk has_place first stream (cut n) d l z = record {
  obj_whole = λ e. cc e;
  notes_whole = λ e. cc e;
  errored = λ e h. inr (n, d, refl, l, z);
}

-- The first chunk splits as the others do.
started-IsSplit :
    (first : ObjChunk) → IsSplit first.file_size (length first.chunk_body) (started first)
unfolding started write_body
started-IsSplit first =
    let n = first.file_size in
    let t = length-take-drop n first.chunk_body in
    let d = length-drop n first.chunk_body in
    record {
      all = omega (arith, t);
      left = omega (arith, t, d);
      notes_last = λ p. omega (arith, t, d, p);
    }

pub receive_obj-IsWhole :
    (disk : Disk) (has_place : Bool) (first : ObjChunk) (stream : List ObjChunk)
    → IsWhole disk has_place first (receive_obj_file_by_chunks disk has_place first stream)
unfolding receive_obj_file_by_chunks
receive_obj-IsWhole disk has_place first stream =
    let expected = first.file_size + first.notes_file_size in
    let received = length first.chunk_body in
    elim (Bool-cases (leb expected received && nat_beq first.notes_file_size 0)) [
      | inl at_once ↦
          let l : first.file_size ≤ length first.chunk_body = ground (arith, at_once) in
          let z : first.notes_file_size ≡ 0 = ground (arith, at_once) in
          rw at_once (place_at_once-IsWhole disk has_place first stream disk.write_file refl l z)
      | inr in_parts ↦
          let (l, all_arrived, rest) =
            receive_loop first.session_id expected received (started first) stream in
          rw in_parts (
            place-IsWhole disk has_place first l all_arrived rest (λ arrived.
              let (r, enough, split) =
                receive_loop-IsSplit first.session_id first.file_size expected received
                  (started first) stream (started-IsSplit first) arrived in
              split_enough first.file_size first.notes_file_size r l split enough))
    ]
