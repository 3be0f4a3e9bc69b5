-- ===== src/Server/Handlers/Waking/Reaching.antt =====
-- All that happens to a client of internal/server, step by step.
use nocc.Prelude.Dict.{get}
use nocc.Prelude.{ℕ, Bool, some, List, Bytes, ◌≡◌, IsIn, subst, arith, sym}
use nocc.Server.Client.{Client, remove_working_dir}
use nocc.Server.ClientsStorage.{new_client, disconnect}
use nocc.Server.Handlers.Replies.{CxxResult, Stream, end_compilation, recv_compiled_obj}
use nocc.Server.Handlers.Starting.{Setup, Request, Opened, start_session}
use nocc.Server.Handlers.Uploads.{Chunk, UploadReply, upload_file}
use nocc.Server.Handlers.Waking.Accepting.{start_session-IsWaking, push-IsWaking}
use nocc.Server.Handlers.Waking.Replying.{IsStarted, end_compilation-IsWaking, recv-RepliesWell}
use nocc.Server.Handlers.Waking.Uploading.{upload_file-IsWaking}
use nocc.Server.Handlers.Waking.{IsWaking, Every-map}
use nocc.Server.Handlers.{Shared}
use nocc.Server.Session.{push_to_client_ready_channel}

-- One handler, the end of one compiler, or one goroutine that gives a session back: however the
-- caches, the disk, the streams and the compiler answer.
pub data Step : Client → Client → Type 0 where
  start :
      {c : Client} {o : Opened} (e : Setup) (s : Shared) (r : Request)
      → start_session e s c r ≡ some o
      → Step c o.1
  upload :
      {c : Client} {o : Shared × Client × UploadReply} (now fuel : ℕ)
      (linked writable pch_compiled : Bool) (s : Shared) (first : Chunk) (stream : List Chunk)
      → upload_file now fuel linked writable pch_compiled s c first stream ≡ some o
      → Step c o.1
  compiled :
      {c d : Client} (gone : Bool) (p : ℕ) (r : CxxResult)
      → IsIn p c.launched
      → end_compilation gone c p r ≡ some d
      → Step c d
  reply : {c d : Client} (t : Stream) → d ≡ (recv_compiled_obj t c).0 → Step c d
  give_back :
      {c d : Client} (gone : Bool) (p : ℕ)
      → IsStarted c p
      → push_to_client_ready_channel gone c p ≡ some d
      → Step c d
  leave : {c d : Client} → d ≡ disconnect c → Step c d

pub data Reach (c : Client) : Client → Type 0 where
  here : Reach c c
  next : {d e : Client} → Reach c d → Step d e → Reach c e

disconnect-IsWaking : (c : Client) → IsWaking c → IsWaking (disconnect c)
unfolding remove_working_dir get
disconnect-IsWaking c w = record {
  filed = record { below = λ n p e. cc e; named = λ n p e. cc e };
  guarded =
      Every-map c.sessions
        (λ q g. record {
          allocated = g.allocated;
          below = g.below;
          visited = g.visited;
          served = g.served;
        })
        w.guarded;
  once = w.once;
  launched_below = w.launched_below;
  ready_below = w.ready_below;
  ready_started = w.ready_started;
}

Step-IsWaking : {c d : Client} → Step c d → IsWaking c → IsWaking d
Step-IsWaking {c} (start e s r eq) w = start_session-IsWaking e s c r w eq
Step-IsWaking {c} (upload now fuel linked writable pch s first stream eq) w =
    upload_file-IsWaking now fuel linked writable pch s c first stream w eq
Step-IsWaking {c} (compiled gone p r l eq) w = end_compilation-IsWaking gone c p r w l eq
Step-IsWaking {c} (reply t e) w = subst IsWaking (sym e) ((recv-RepliesWell t c w).0)
Step-IsWaking {c} (give_back gone p started eq) w = push-IsWaking gone c p w started.0 started.1 eq
Step-IsWaking {c} (leave e) w = subst IsWaking (sym e) (disconnect-IsWaking c w)

new_client-IsWaking :
    (now : ℕ) (id dir : Bytes) (disable : Bool) → IsWaking (new_client now id dir disable)
unfolding get
new_client-IsWaking now id dir disable = record {
  filed = record { below = λ n p e. cc e; named = λ n p e. cc e };
  guarded = tt;
  once = λ p. omega arith;
  launched_below = λ p l. absurd l;
  ready_below = λ p l. absurd l;
  ready_started = λ p l. absurd l;
}

Reach-IsWaking-from : {c d : Client} → IsWaking c → Reach c d → IsWaking d
Reach-IsWaking-from w here = w
Reach-IsWaking-from w (next r s) = Step-IsWaking s (Reach-IsWaking-from w r)

-- In every state that a new client can reach, each registered session has the compiler started for
-- it, or waits for a file that is not uploaded, and then none of its files is just created, as a file
-- is before the loop over a session's files has looked at it: no session is forgotten with all its
-- files there. The compiler was started once at most for each session, and only sessions that were
-- started wait for the client.
pub Reach-IsWaking :
    (now : ℕ) (id dir : Bytes) (disable_obj_cache : Bool) {c : Client}
    → Reach (new_client now id dir disable_obj_cache) c
    → IsWaking c
Reach-IsWaking now id dir disable_obj_cache r =
    Reach-IsWaking-from (new_client-IsWaking now id dir disable_obj_cache) r
