-- ===== src/Streams/Pieces.antt =====
-- The chunks of an object, as `receive_loop` puts them together again.
use mathlib.Core.List.{append-nil, append_assoc}
use nocc.Client.Receiving.{Loop, write_body, receive_loop}
use nocc.Prelude.{
  ℕ, zero, suc, ◌+◌, ◌-◌, ◌<◌, ◌≤◌, true, List, [], ◌∷◌, ◌++◌, Bytes, ◌≡◌, refl, arith, length,
  length-append, take, drop,
}
use nocc.Server.Client.{Session}
use nocc.Server.Sending.{ObjChunk, obj_chunk, notes_pieces, obj_chunks}
use nocc.Streams.{all_bytes, NoEmpty, take-drop, take-append, drop-append, length-drop_lt}

-- The notes are sent whole.
pub notes_pieces-all_bytes :
    (fuel buf : ℕ) (notes : Bytes)
    → 0 < buf
    → length notes ≤ fuel
    → all_bytes (notes_pieces fuel buf notes) ≡ notes
unfolding notes_pieces
notes_pieces-all_bytes zero buf [] b l = refl
notes_pieces-all_bytes zero buf (c ∷ notes) b l = absurd (omega (arith, l))
notes_pieces-all_bytes (suc fuel) buf [] b l = refl
notes_pieces-all_bytes (suc fuel) buf (c ∷ notes) b l =
    rw
      (notes_pieces-all_bytes fuel buf (drop buf (c ∷ notes)) b
        (omega (arith, b, l, length-drop_lt buf c notes b)))
      (take-drop buf (c ∷ notes))

pub notes_pieces-NoEmpty :
    (fuel buf : ℕ) (notes : Bytes) → 0 < buf → NoEmpty (notes_pieces fuel buf notes)
unfolding notes_pieces
notes_pieces-NoEmpty zero buf notes b = tt
notes_pieces-NoEmpty (suc fuel) buf [] b = tt
notes_pieces-NoEmpty (suc fuel) zero (c ∷ notes) b = absurd (omega (arith, b))
notes_pieces-NoEmpty (suc fuel) (suc buf) (c ∷ notes) b =
    (omega arith, notes_pieces-NoEmpty fuel (suc buf) (drop buf notes) b)

take_nil : (n : ℕ) → take {A = ℕ} n [] ≡ []
take_nil zero = refl
take_nil (suc n) = refl

drop_nil : (n : ℕ) → drop {A = ℕ} n [] ≡ []
drop_nil zero = refl
drop_nil (suc n) = refl

write_body_nil : (l : Loop) → write_body l [] ≡ l
unfolding write_body
write_body_nil l =
    ground (arith, take_nil l.obj_left, drop_nil l.obj_left, append-nil l.body, append-nil l.notes)

pub write_body-append :
    (l : Loop) (a b : Bytes) → write_body (write_body l a) b ≡ write_body l (a ++ b)
unfolding write_body
write_body-append l a b = ground (
  arith,
  take-append l.obj_left a b,
  drop-append l.obj_left a b,
  length-append a b,
  append_assoc l.body (take l.obj_left a) (take (l.obj_left - length a) b),
  append_assoc l.notes (drop l.obj_left a) (drop (l.obj_left - length a) b),
)

module _ (s : Session) (size expected : ℕ) where
  pub receive_loop-obj_chunks :
      (received : ℕ) (l : Loop) (bodies : List Bytes) (more : List ObjChunk)
      → NoEmpty bodies
      → expected ≡ received + length (all_bytes bodies)
      → receive_loop s.session_id expected received l (obj_chunks s size bodies ++ more)
        ≡ (write_body l (all_bytes bodies), true, more)
  unfolding obj_chunks obj_chunk receive_loop
  receive_loop-obj_chunks received l [] [] h e = ground (arith, e, write_body_nil l)
  receive_loop-obj_chunks received l [] (next ∷ more) h e = ground (arith, e, write_body_nil l)
  receive_loop-obj_chunks received l (b ∷ bodies) more h e = ground (
    arith,
    e,
    h.0,
    length-append b (all_bytes bodies),
    receive_loop-obj_chunks (received + length b) (write_body l b) bodies more h.1
        (omega (arith, e, length-append b (all_bytes bodies))),
    write_body-append l b (all_bytes bodies),
  )

pub obj_chunks_cons :
    (s : Session) (size : ℕ) (bodies : List Bytes) (first : ObjChunk) (rest : List ObjChunk)
    → obj_chunks s size bodies ≡ first ∷ rest
    → (b : Bytes) × (bs : List Bytes) × (bodies ≡ b ∷ bs)
      × (first ≡ obj_chunk s size b)
      × (rest ≡ obj_chunks s size bs)
unfolding obj_chunks
obj_chunks_cons s size [] first rest e = cc e
obj_chunks_cons s size (b ∷ bs) first rest e = (b, bs, refl, cc e, cc e)
