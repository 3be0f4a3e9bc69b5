-- ===== src/Server/Handlers/Waking/Uploading.antt =====
-- `UploadFileStream` of internal/server/nocc-server.go forgets no session.
use nocc.Prelude.{
  ℕ, Bool, true, false, ◌&&◌, not, some, List, ◌≡◌, inl, inr, arith, Bool-cases, Option-cases,
  nat_beq_iff, get_elem?,
}
use nocc.Prelude.Maybe.{returns}
use nocc.Prelude.Text.{has_suffix}
use nocc.Prelude.Paths.{base}
use nocc.Server.Client.{Client, uploaded, upload_error, get_session}
use nocc.Server.FileCache.{save_file_to_cache}
use nocc.Server.Handlers.Uploads.{
  UploadReply, Chunk, mark_file, accept_upload, finish_upload, upload_file, own_pch_suffix,
}
use nocc.Server.Handlers.Visiting.Evolving.{Evolves}
use nocc.Server.Handlers.Waking.{IsWaking, IsReady, Every-map, evolve-IsWaking, launch_cxx-IsWaking}
use nocc.Server.Handlers.{Shared}

mark_error-Evolves : (c : Client) (q : ℕ) → Evolves c.file_at (mark_file c q upload_error).file_at
mark_error-Evolves c q = record {
  never_new = λ p e. ground (arith, nat_beq_iff q p);
  back = λ p e. ground (arith, nat_beq_iff q p);
  same_name = λ p. ground (arith, nat_beq_iff q p);
}

mark_error-IsWaking : (c : Client) (q : ℕ) → IsWaking c → IsWaking (mark_file c q upload_error)
mark_error-IsWaking c q w = evolve-IsWaking c _ (mark_error-Evolves c q) w

mark_uploaded-IsReady : (c : Client) (q : ℕ) → IsWaking c → IsReady (mark_file c q uploaded)
mark_uploaded-IsReady c q w = record {
  filed = record {
    below = w.filed.below;
    named = λ n p e. ground (arith, w.filed.named n p, nat_beq_iff q p);
  };
  settled =
      Every-map c.sessions
        (λ p g. record {
          allocated = g.allocated;
          below = g.below;
          visited = elim g.visited [
            | inl started ↦ inl started
            | inr seen ↦ inr (λ r l. ground (arith, seen r l, nat_beq_iff q r))
          ];
        })
        w.guarded;
  once = w.once;
  launched_below = w.launched_below;
  ready_below = w.ready_below;
  ready_started = w.ready_started;
}

accept_upload-IsWaking :
    (fuel : ℕ) (linked : Bool) (s : Shared) (c : Client) (q : ℕ) {o : Shared × Client × UploadReply}
    → IsWaking c
    → accept_upload fuel linked s c q ≡ some o
    → IsWaking o.1
unfolding accept_upload
accept_upload-IsWaking fuel linked s c q w eq =
    let f = c.file_at q in
    elim (Option-cases (
      save_file_to_cache fuel s.src_file_cache linked (base f.server_file_name) f.file_sha256
        f.file_size)) [
          | inl stuck ↦ cc (rw (stuck, accept_upload) at eq)
          | inr (r, saved) ↦
              returns (λ (o : Shared × Client × UploadReply). IsWaking o.1)
                (rw (saved, accept_upload) at eq)
                (launch_cxx-IsWaking (mark_file c q uploaded) (mark_uploaded-IsReady c q w))
        ]

finish_upload-IsWaking :
    (fuel : ℕ) (linked arrived pch_compiled : Bool) (s : Shared) (c : Client) (q : ℕ)
    {o : Shared × Client × UploadReply}
    → IsWaking c
    → finish_upload fuel linked arrived pch_compiled s c q ≡ some o
    → IsWaking o.1
unfolding finish_upload
finish_upload-IsWaking fuel linked false pch_compiled s c q w eq =
    returns (λ (o : Shared × Client × UploadReply). IsWaking o.1) eq (mark_error-IsWaking c q w)
finish_upload-IsWaking fuel linked true pch_compiled s c q w eq =
    elim (Bool-cases
      (has_suffix (c.file_at q).server_file_name own_pch_suffix && not pch_compiled)) [
        | inl broken ↦
            returns (λ (o : Shared × Client × UploadReply). IsWaking o.1)
              (rw (broken, finish_upload) at eq) (mark_error-IsWaking c q w)
        | inr fine ↦ accept_upload-IsWaking fuel linked s c q w (rw (fine, finish_upload) at eq)
      ]

pub seen-IsWaking : (now : ℕ) (c : Client) → IsWaking c → IsWaking (record c { last_seen = now })
seen-IsWaking now c w = record {
  filed = record { below = w.filed.below; named = w.filed.named };
  guarded =
      Every-map c.sessions
        (λ p g. record {
          allocated = g.allocated;
          below = g.below;
          visited = g.visited;
          served = g.served;
        })
        w.guarded;
  once = w.once;
  launched_below = w.launched_below;
  ready_below = w.ready_below;
  ready_started = w.ready_started;
}

-- An upload, whether it arrives or not, forgets no session.
pub upload_file-IsWaking :
    (now fuel : ℕ) (linked writable pch_compiled : Bool) (s : Shared) (c : Client) (first : Chunk)
    (stream : List Chunk) {o : Shared × Client × UploadReply}
    → IsWaking c
    → upload_file now fuel linked writable pch_compiled s c first stream ≡ some o
    → IsWaking o.1
unfolding upload_file get_session
upload_file-IsWaking now fuel linked writable pch_compiled s c first stream w eq =
    let seen = seen-IsWaking now c w in
    elim (Option-cases (get_session c first.session_id)) [
      | inl unknown ↦
          returns (λ (o : Shared × Client × UploadReply). IsWaking o.1)
            (rw (unknown, upload_file) at eq) seen
      | inr (p, known) ↦ elim (Option-cases (get_elem? (c.session_at p).files first.file_index)) [
        | inl outside ↦
            returns (λ (o : Shared × Client × UploadReply). IsWaking o.1)
              (rw (known, upload_file, outside) at eq) seen
        | inr (q, inside) ↦
            finish_upload-IsWaking fuel linked _ pch_compiled s (record c { last_seen = now }) q
              seen (rw (known, upload_file, inside) at eq)
      ]
    ]
