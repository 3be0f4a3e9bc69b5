-- ===== src/Streams/Objects.antt =====
-- An object with its .gcno that the server sends, as the client places it.
use mathlib.Core.List.{append-nil}
use nocc.Client.Receiving.{whole, place, place_at_once}
use nocc.Client.Receiving.{
  Disk, Placed, write_body, receive_loop, started, is_there, receive_obj_file_by_chunks,
}
use nocc.Prelude.{
  ℕ, zero, suc, ◌+◌, ◌<◌, ◌≤◌, Bool, true, false, ◌&&◌, List, [], ◌∷◌, ◌++◌, Bytes, none, some, ◌≡◌,
  refl, arith, length, length-append, leb, nat_beq, if◌then◌else◌, Bool-cases, inl, inr, ap, ◌∙◌,
  sym, subst, ◌↔◌,
}
use nocc.Server.Client.{Session}
use nocc.Server.Sending.{
  ObjChunk, FileReads, notes_of, obj_chunk, notes_pieces, obj_chunks, send_all,
  send_obj_file_by_chunks,
}
use nocc.Streams.{
  all_bytes, NoEmpty, NoEmpty-append, take_all, take_own, drop_own, all_bytes-append,
}
use nocc.Streams.Pieces.{
  notes_pieces-all_bytes, notes_pieces-NoEmpty, write_body-append, obj_chunks_cons,
  receive_loop-obj_chunks,
}

-- The disk gives no error.
abbrev pub sound_disk : Disk
sound_disk = record {
  write_file = whole;
  removes = true;
  writable = true;
  notes_writable = true;
  renames = true;
}

-- What the client has then.
abbrev pub delivered : Bool → Bytes → Bytes → List ObjChunk → Placed
delivered has_place obj notes more = record {
  obj = some obj;
  notes = if has_place && is_there notes then some notes else none;
  error = none;
  recreate = false;
  stream = more;
}

sent_all :
    (sends : ℕ) (chunks out : List ObjChunk) → send_all sends chunks ≡ (out, true) → chunks ≡ out
sent_all sends chunks out e =
    let l : leb (length chunks) sends ≡ true = ap (λ (p : List ObjChunk × Bool). p.1) e in
    sym (take_all sends chunks (ground (arith, l))) ∙ ap (λ (p : List ObjChunk × Bool). p.0) e

nothing_left : (bs : List Bytes) → NoEmpty bs → length (all_bytes bs) ≡ 0 → bs ≡ []
nothing_left [] h e = refl
nothing_left (b ∷ bs) h e = absurd (omega (arith, h.0, e, length-append b (all_bytes bs)))

no_bytes : (b : Bytes) → length b ≡ 0 → b ≡ []
no_bytes [] e = refl
no_bytes (c ∷ b) e = absurd (omega (arith, e))

module _ (has_place : Bool) (s : Session) (obj b : Bytes) (bs : List Bytes) (more : List ObjChunk)
    (split : obj ++ notes_of s ≡ b ++ all_bytes bs) (no_empty : NoEmpty bs) where
  lengths : length obj + length (notes_of s) ≡ length b + length (all_bytes bs)
  lengths =
      omega (arith, ap length split, length-append obj (notes_of s), length-append b (all_bytes bs))

  written_whole :
      write_body (started (obj_chunk s (length obj) b)) (all_bytes bs)
      ≡ record { body = obj; notes = notes_of s; obj_left = 0 }
  unfolding obj_chunk started write_body
  written_whole =
      write_body-append (record { body = []; notes = []; obj_left = length obj }) b (all_bytes bs)
      ∙ rw (← split) (
          ground (
            arith,
            take_own obj (notes_of s),
            drop_own obj (notes_of s),
            length-append obj (notes_of s),
          ))

  looped :
      receive_loop s.session_id
        (length obj + length (notes_of s))
        (length b)
        (started (obj_chunk s (length obj) b))
        (obj_chunks s (length obj) bs ++ more)
      ≡ (record { body = obj; notes = notes_of s; obj_left = 0 }, true, more)
  looped =
      receive_loop-obj_chunks s (length obj) (length obj + length (notes_of s)) (length b)
        (started (obj_chunk s (length obj) b)) bs more no_empty lengths
      ∙ rw written_whole

  one_piece : length (notes_of s) ≡ 0 → length obj ≤ length b → (b ≡ obj) × (bs ≡ [])
  one_piece n l =
      let gone : bs ≡ [] = nothing_left bs no_empty (omega (arith, lengths, n, l)) in
      let whole : obj ++ [] ≡ b ++ [] = cc (split, no_bytes (notes_of s) n, gone) in
      (cc (whole, append-nil obj, append-nil b), gone)

  placed_whole :
      receive_obj_file_by_chunks sound_disk has_place
        (obj_chunk s (length obj) b)
        (obj_chunks s (length obj) bs ++ more)
      ≡ delivered has_place obj (notes_of s) more
  unfolding receive_obj_file_by_chunks place_at_once place obj_chunk obj_chunks
  placed_whole =
      elim (Bool-cases
        (leb (length obj + length (notes_of s)) (length b) && nat_beq (length (notes_of s)) 0)) [
          | inl at_once ↦
              let n : length (notes_of s) ≡ 0 = ground (arith, at_once) in
              let (same, gone) = one_piece n (ground (arith, at_once)) in
              rw at_once (ground (arith, same, gone, no_bytes (notes_of s) n))
          | inr in_parts ↦ rw (in_parts, looped) (ground arith)
        ]

-- The file of an object that is read without an error.
abbrev pub read_file : List Bytes → FileReads
read_file pieces = record { size = length (all_bytes pieces); pieces = pieces; is_read = true }

module _ (s : Session) (buf : ℕ) (pieces : List Bytes) (some_buf : 0 < buf) where
  sent_bodies : List Bytes
  sent_bodies = pieces ++ notes_pieces (length (notes_of s)) buf (notes_of s)

  all_bytes-sent_bodies : all_bytes pieces ++ notes_of s ≡ all_bytes sent_bodies
  unfolding sent_bodies
  all_bytes-sent_bodies = rw (
    all_bytes-append,
    notes_pieces-all_bytes (length (notes_of s)) buf (notes_of s) some_buf (omega arith),
  )

  sent_bodies-NoEmpty : NoEmpty pieces → NoEmpty sent_bodies
  unfolding sent_bodies
  sent_bodies-NoEmpty h =
      NoEmpty-append pieces (notes_pieces (length (notes_of s)) buf (notes_of s)) h
        (notes_pieces-NoEmpty (length (notes_of s)) buf (notes_of s) some_buf)

-- An object that is sent without an error, in any pieces that are not empty, and with its .gcno if it
-- has one, is placed by the client as it was, if its disk gives no error, with the .gcno beside it if
-- the client has a place for one, as for coverage, and else without; and what stands behind it on the
-- stream is left there.
pub receive-send :
    (has_place : Bool) (s : Session) (sends buf : ℕ) (pieces : List Bytes) (first : ObjChunk)
    (rest more : List ObjChunk)
    → 0 < buf
    → NoEmpty pieces
    → send_obj_file_by_chunks sends buf s (some (read_file pieces)) ≡ (first ∷ rest, true)
    → receive_obj_file_by_chunks sound_disk has_place first (rest ++ more)
      ≡ delivered has_place (all_bytes pieces) (notes_of s) more
receive-send has_place s sends buf pieces first rest more p h e =
    let bodies = sent_bodies s buf pieces p in
    let size = length (all_bytes pieces) in
    let chunks : obj_chunks s size bodies ≡ first ∷ rest =
      sent_all sends (obj_chunks s size bodies) (first ∷ rest)
        (unfold send_obj_file_by_chunks sent_bodies in e) in
    let (b, bs, split, is_first, is_rest) = obj_chunks_cons s size bodies first rest chunks in
    let bytes : all_bytes pieces ++ notes_of s ≡ b ++ all_bytes bs =
      all_bytes-sent_bodies s buf pieces p ∙ ap all_bytes split in
    let no_empty = subst NoEmpty split (sent_bodies-NoEmpty s buf pieces p h) in
    rw (is_first, is_rest) (placed_whole has_place s (all_bytes pieces) b bs more bytes no_empty.1)

nothing_sent :
    (s : Session) (size : ℕ) (bodies : List Bytes) → obj_chunks s size bodies ≡ [] → bodies ≡ []
unfolding obj_chunks
nothing_sent s size [] e = refl
nothing_sent s size (b ∷ bs) e = cc e

send_all_none : (sends : ℕ) → send_all sends [] ≡ ([], true)
send_all_none zero = refl
send_all_none (suc sends) = ground arith

-- Nothing is sent, and no error reported, exactly if the object, read in pieces that are not empty, has
-- no bytes and comes without a .gcno, or with an empty one.
pub send_nothing :
    (s : Session) (sends buf : ℕ) (pieces : List Bytes)
    → 0 < buf
    → NoEmpty pieces
    → (send_obj_file_by_chunks sends buf s (some (read_file pieces)) ≡ ([], true))
      ↔ (all_bytes pieces ++ notes_of s ≡ [])
send_nothing s sends buf pieces p h =
    let bodies = sent_bodies s buf pieces p in
    let size = length (all_bytes pieces) in
    (
      (λ e.
          let none_sent : obj_chunks s size bodies ≡ [] =
            sent_all sends (obj_chunks s size bodies) []
              (unfold send_obj_file_by_chunks sent_bodies in e) in
          all_bytes-sent_bodies s buf pieces p
          ∙ ap all_bytes (nothing_sent s size bodies none_sent)),
      (λ e.
          let gone : bodies ≡ [] =
            nothing_left bodies (sent_bodies-NoEmpty s buf pieces p h)
              (ap length (sym (all_bytes-sent_bodies s buf pieces p) ∙ e)) in
          let sent : send_all sends (obj_chunks s size bodies)
              ≡ send_all sends (obj_chunks s size []) =
            ap (λ b. send_all sends (obj_chunks s size b)) gone in
          unfold send_obj_file_by_chunks sent_bodies obj_chunks in sent ∙ send_all_none sends),
    )
