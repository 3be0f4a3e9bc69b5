-- ===== src/Server/Handlers/Replies.antt =====
-- internal/server/cxx-launcher.go and nocc-server.go: from the end of the compiler to the client
-- (`LaunchCxxWhenPossible`, `RecvCompiledObjStream`), one session of it.
use nocc.Common.CompilerKilled.{ExitCode, exited, below_zero, compiler_was_killed}
use nocc.Common.Sha256.{is_empty}
use nocc.Prelude.Maybe.{◌>>=◌}
use nocc.Prelude.Paths.{base}
use nocc.Prelude.Text.{remove_all_from, ascii}
use nocc.Prelude.{
  ℕ, Bool, false, ◌&&◌, ◌++◌, not, bytes_beq, Option, none, some, List, [], ◌∷◌, Bytes, nat_beq,
  if◌then◌else◌,
}
use nocc.Server.Client.{Client, Session, set_session, close_session}
use nocc.Server.FileCache.{FileCache, save_file_to_cache}
use nocc.Server.Session.{push_to_client_ready_channel}

-- What `cxxCommand.Run` and the reading of the .gcno gave; `run_error` is the error's text, which is
-- empty for no error.
pub record CxxResult : Type 0 where
  pub exit_code : ExitCode
  pub stdout : Bytes
  pub stderr : Bytes
  pub run_error : Bytes
  pub duration : ℕ
  pub notes : Option Bytes
  pub notes_failed : Bool

-- `patchStdoutDropServerPaths`
unfoldable pub patch_stdout_drop_server_paths : Bytes → Bytes → Bytes
unfolding remove_all_from
patch_stdout_drop_server_paths working_dir out = remove_all_from 0 out working_dir

-- `session.cxxStderr`, before the server's paths are dropped from it.
abbrev pub error_text : CxxResult → Bytes
error_text r = if bytes_beq r.stderr [] then r.run_error else r.stderr

abbrev pub is_zero : ExitCode → Bool
is_zero (exited code) = nat_beq code 0
is_zero below_zero = false

-- The object goes to the obj cache where the compiler said nothing at all and the session has a key;
-- `stat_size` is what `os.Stat` says of it. `none`: the purge has not ended after `fuel` rounds.
unfoldable pub save_obj_to_cache :
    ℕ → Bool → Option ℕ → FileCache → Session → CxxResult → Option FileCache
unfolding is_empty base save_file_to_cache
save_obj_to_cache fuel linked stat_size cache s r =
    if not (is_empty s.obj_cache_key)
      && (is_zero r.exit_code && (bytes_beq r.stdout [] && bytes_beq (error_text r) []))
    then elim stat_size [
      | none ↦ some cache
      | some size ↦
          (save_file_to_cache fuel cache linked (base s.cpp_in_file ++ ascii ".o") s.obj_cache_key
              size
            >>= λ saved. some saved.0)
    ]
    else some cache

-- The session's fields after `launchServerCxxForCpp`; the notes are those of a coverage session.
unfoldable pub with_result : Bytes → CxxResult → Session → Session
unfolding patch_stdout_drop_server_paths
with_result working_dir r s = record s {
  cxx_exit_code = r.exit_code;
  cxx_stdout = patch_stdout_drop_server_paths working_dir r.stdout;
  cxx_stderr = patch_stdout_drop_server_paths working_dir (error_text r);
  cxx_duration = r.duration;
  coverage_notes = r.notes;
  coverage_failed = r.notes_failed;
}

-- The end of `LaunchCxxWhenPossible`. `none`: the push blocks.
unfoldable pub end_compilation : Bool → Client → ℕ → CxxResult → Option Client
unfolding with_result push_to_client_ready_channel
end_compilation gone c p r =
    push_to_client_ready_channel gone
      (record c {
        session_at = set_session c.session_at p (with_result c.working_dir r (c.session_at p));
      })
      p

-- How the stream does: whether it has ended, and whether a send on it succeeds; one that fails has
-- ended or not.
pub record Stream : Type 0 where
  pub now : ℕ
  pub ended_before : Bool
  pub sends : Bool
  pub ended_after : Bool

pub data Outcome : Type 0 where
  nothing_ready : Outcome
  given_back : Outcome
  killed : Outcome
  no_notes : Outcome
  lost : Outcome
  compile_error : Outcome
  object_sent : Outcome

-- The reply on a stream that is alive.
unfoldable pub reply_alive : Stream → Client → ℕ → Client × Outcome × List ℕ
reply_alive t c p =
    let s = c.session_at p in
    if compiler_was_killed s.cxx_exit_code s.cxx_stderr
    then ((close_session c p).0, killed, [])
    else if s.coverage_failed
    then ((close_session c p).0, no_notes, [])
    else if t.sends
    then ((close_session c p).0, if is_zero s.cxx_exit_code then object_sent else compile_error, [])
    else (c, lost, if t.ended_after then p ∷ [] else [])

-- The session `p` is the client's next ready one; `giveBack` pushes it again in a goroutine, later.
-- The last component are the sessions given back.
unfoldable pub reply_session : Stream → Client → ℕ → Client × Outcome × List ℕ
reply_session t c p =
    if t.ended_before
    then (c, given_back, p ∷ [])
    else reply_alive t (record c { last_seen = t.now }) p

-- `case session := <-client.chanReadySessions`
unfoldable pub recv_compiled_obj : Stream → Client → Client × Outcome × List ℕ
recv_compiled_obj t c = elim c.ready_sessions [
  | [] ↦ (c, nothing_ready, [])
  | p ∷ ps ↦ reply_session t (record c { ready_sessions = ps }) p
]
