-- ===== src/Server/Handlers/Waking/Opening.antt =====
-- A session that `StartCompilationSession` of internal/server/nocc-server.go compiles.
use nocc.Prelude.Maybe.{returns}
use nocc.Prelude.{
  ℕ, ◌<◌, some, List, [], ◌∷◌, Bytes, ◌≡◌, inl, inr, refl, arith, Bool-cases, Option-cases, IsIn,
  subst, sym,
}
use nocc.Server.Client.Files.{IsFiled, HasFiles}
use nocc.Server.Client.{
  Client, Session, FileMetadata, register_created_session, mkdir_all_for_session, dirs_to_create,
}
use nocc.Server.Handlers.Starting.{
  Setup, Request, Opened, add_session, open_for_compilation, open_prepared, finish_opening,
}
use nocc.Server.Handlers.Visiting.Evolving.{visit_files-Evolves}
use nocc.Server.Handlers.Visiting.Loops.{visit_files-LoopVisited}
use nocc.Server.Handlers.Waking.Starting.{add_session-IsWaking, added_session}
use nocc.Server.Handlers.Waking.{
  IsWaking, IsReady, IsSettled, Every-map, Every-put, evolve-IsWaking, launch_cxx-IsWaking, forget,
}
use nocc.Server.Handlers.{Shared, Visited, visit_files}
use nocc.Server.Session.{
  prepare_server_cxx_cmd_line, with_obj_out_file, command_line_in, place_of_compilation,
  server_idirs,
}

pub register-IsReady :
    (c : Client) (p : ℕ) → IsWaking c → IsSettled c p → IsReady (register_created_session c p)
unfolding register_created_session
register-IsReady c p w s = record {
  filed = record { below = w.filed.below; named = w.filed.named };
  settled =
      Every-map _ (λ q t. record { allocated = t.allocated; below = t.below; visited = t.visited })
        (Every-put (IsSettled c) (c.session_at p).session_id p c.sessions s
          (Every-map c.sessions (forget c) w.guarded));
  once = w.once;
  launched_below = w.launched_below;
  ready_below = w.ready_below;
  ready_started = w.ready_started;
}

pub files_below :
    (d : Client) (ms : List FileMetadata) (ps : List ℕ) (q : ℕ)
    → IsFiled d
    → HasFiles d ms ps
    → IsIn q ps
    → q < d.files_allocated
files_below d [] [] q f h l = absurd l
files_below d [] (p ∷ ps) q f h l = absurd h
files_below d (m ∷ ms) [] q f h l = absurd h
files_below d (m ∷ ms) (p ∷ ps) q f h (inl e) =
    subst (λ r. r < d.files_allocated) e (f.below m.client_file_name p (h.0).known)
files_below d (m ∷ ms) (p ∷ ps) q f h (inr l) = files_below d ms ps q f h.1 l

command_line-files :
    (w : Bytes) (s : Session) (cwd : Bytes) (args idirs : List Bytes) {t : Session}
    → command_line_in w s cwd args idirs ≡ some t
    → t.files ≡ s.files
unfolding command_line_in
command_line-files w s cwd args idirs {t} e = elim (Option-cases (place_of_compilation w s cwd)) [
  | inl panic ↦ cc (rw (panic, command_line_in) at e)
  | inr (place, placed) ↦ elim (Option-cases (server_idirs w idirs)) [
    | inl panic ↦ cc (rw (placed, command_line_in, panic) at e)
    | inr (dirs, found) ↦
        returns (λ (u : Session). u.files ≡ s.files) (rw (placed, command_line_in, found) at e) refl
  ]
]

-- The command line does not change which files a session needs.
prepare-files :
    (tmp : Bytes) (c : Client) (s : Session) (cwd : Bytes) (args idirs : List Bytes) {t : Session}
    → prepare_server_cxx_cmd_line tmp c s cwd args idirs ≡ some t
    → t.files ≡ s.files
unfolding prepare_server_cxx_cmd_line
prepare-files tmp c s cwd args idirs e =
    command_line-files c.working_dir (with_obj_out_file tmp c s) cwd args idirs e

mkdir-dirs :
    (c : Client) (p : ℕ) {d : Client}
    → mkdir_all_for_session c p ≡ some d
    → (dirs : List Bytes) × (record c { dirs = dirs } ≡ d)
unfolding mkdir_all_for_session
mkdir-dirs c p {d} e = elim (Option-cases (dirs_to_create c [] (c.session_at p).files)) [
  | inl panic ↦ cc (rw (panic, mkdir_all_for_session) at e)
  | inr (out, made) ↦
      returns (λ (x : Client). (dirs : List Bytes) × (record c { dirs = dirs } ≡ x))
        (rw (made, mkdir_all_for_session) at e) (_, refl)
]

dirs-IsWaking : (c : Client) (ds : List Bytes) → IsWaking c → IsWaking (record c { dirs = ds })
dirs-IsWaking c ds w = record {
  filed = record { below = w.filed.below; named = w.filed.named };
  guarded =
      Every-map c.sessions
        (λ p g. record {
          allocated = g.allocated;
          below = g.below;
          visited = g.visited;
          served = g.served;
        })
        w.guarded;
  once = w.once;
  launched_below = w.launched_below;
  ready_below = w.ready_below;
  ready_started = w.ready_started;
}

module _ (c : Client) (p : ℕ) (s : Shared) (e : Setup) {v : Visited}
    (loop : visit_files e.machine 0 (c.session_at p).files s c.file_at ≡ some v) where
  finish_opening-IsWaking :
      IsWaking c
      → p < c.sessions_allocated
      → ((q : ℕ) → IsIn q (c.session_at p).files → q < c.files_allocated)
      → IsWaking (finish_opening c p v).1
  unfolding finish_opening
  finish_opening-IsWaking w l below =
      let visited = visit_files-LoopVisited e.machine 0 (c.session_at p).files s c.file_at loop in
      let evolved =
        evolve-IsWaking c v.heap
          (visit_files-Evolves e.machine 0 (c.session_at p).files s c.file_at loop) w in
      elim (Bool-cases v.refused) [
        | inl refused ↦ rw (refused, finish_opening) evolved
        | inr accepted ↦
            rw (accepted, finish_opening)
              (launch_cxx-IsWaking _ (
                register-IsReady _ p evolved (record {
                  allocated = l;
                  below = below;
                  visited = inr (λ q i new. elim (visited.moving accepted q i) [
                    | inl u ↦ cc (u, new)
                    | inr u ↦ cc (u, new)
                  ]);
                })))
      ]

module _ (e : Setup) (s : Shared) (c : Client) (ses : Session) (w : IsWaking c)
    (below : (q : ℕ) → IsIn q ses.files → q < c.files_allocated) where
  made-IsWaking :
      (dirs : List Bytes) (v : Visited)
      → visit_files e.machine 0 ses.files s (add_session c ses).file_at ≡ some v
      → IsWaking
          (finish_opening (record (add_session c ses) { dirs = dirs }) c.sessions_allocated v).1
  unfolding add_session
  made-IsWaking dirs v loop =
      let at = added_session c ses in
      finish_opening-IsWaking (record (add_session c ses) { dirs = dirs }) c.sessions_allocated s e
        (subst (λ (t : Session). visit_files e.machine 0 t.files s c.file_at ≡ some v) (sym at)
          loop)
        (dirs-IsWaking (add_session c ses) dirs (add_session-IsWaking c ses w)) (omega arith)
        (subst (λ (t : Session). (q : ℕ) → IsIn q t.files → q < c.files_allocated) (sym at) below)

  open_prepared-IsWaking : {o : Opened} → open_prepared e s c ses ≡ some o → IsWaking o.1
  unfolding open_prepared
  open_prepared-IsWaking {o} eq =
      elim (Option-cases (mkdir_all_for_session (add_session c ses) c.sessions_allocated)) [
        | inl panic ↦ cc (rw (panic, open_prepared) at eq)
        | inr (d, made) ↦
            let (dirs, same) = mkdir-dirs (add_session c ses) c.sessions_allocated made in
            elim (Option-cases (visit_files e.machine 0 ses.files s d.file_at)) [
              | inl panic ↦ cc (rw (made, open_prepared, panic) at eq)
              | inr (v, loop) ↦
                  returns (λ (x : Opened). IsWaking x.1) (rw (made, open_prepared, loop) at eq)
                    (subst (λ (x : Client). IsWaking (finish_opening x c.sessions_allocated v).1)
                      same
                      (made-IsWaking dirs v (
                        subst
                          (λ (x : Client). visit_files e.machine 0 ses.files s x.file_at ≡ some v)
                          (sym same) loop)))
            ]
      ]

-- A session that is opened for compilation, whether a system file is refused or not, leaves none
-- forgotten.
pub open_for_compilation-IsWaking :
    (e : Setup) (s : Shared) (c : Client) (r : Request) (ses : Session) {o : Opened}
    → IsWaking c
    → ((q : ℕ) → IsIn q ses.files → q < c.files_allocated)
    → open_for_compilation e s c r ses ≡ some o
    → IsWaking o.1
unfolding open_for_compilation
open_for_compilation-IsWaking e s c r ses w below eq =
    elim (Option-cases
      (prepare_server_cxx_cmd_line e.obj_tmp_dir c ses r.cwd r.cxx_args r.cxx_idirs)) [
        | inl panic ↦ cc (rw (panic, open_for_compilation) at eq)
        | inr (t, prepared) ↦
            let same = prepare-files e.obj_tmp_dir c ses r.cwd r.cxx_args r.cxx_idirs prepared in
            open_prepared-IsWaking e s c t w (λ q l. below q (subst (λ qs. IsIn q qs) same l))
              (rw (prepared, open_for_compilation) at eq)
      ]
