-- ===== src/Server/Handlers/Waking/Accepting.antt =====
-- `StartCompilationSession` and `UploadFileStream` of internal/server/nocc-server.go, every branch.
use nocc.Prelude.Maybe.{returns}
use nocc.Prelude.{
  ℕ, ◌<◌, Bool, true, ◌||◌, not, Option, none, some, List, [], ◌∷◌, bytes_beq, ◌≡◌, ◌⊎◌, inl, inr,
  refl, arith, Bool-cases, Option-cases, IsIn, length, subst, sym, ◌++◌, map, ltb, ◌&&◌,
}
use nocc.Server.Client.Opening.{start_using_files-Opened}
use nocc.Server.Client.{Client, Session, register_created_session, start_using_files}
use nocc.Server.FileCache.{CachePath, path_text, lookup_in_cache}
use nocc.Server.Handlers.Starting.{
  Setup, Request, Opened, add_session, open_session, open_looked_up, serve_from_obj_cache,
  start_session, new_session,
}
use nocc.Server.Handlers.Waking.Opening.{open_for_compilation-IsWaking, files_below}
use nocc.Server.Handlers.Waking.Starting.{add_session-IsWaking, added_session, keep-IsWaking}
use nocc.Server.Handlers.Waking.{IsWaking, IsGuarded, Every-map, Every-put}
use nocc.Server.Handlers.{Shared}
use nocc.Server.ObjCache.{make_obj_cache_key}
use nocc.Server.Session.{push_to_client_ready_channel, ready_capacity}

IsIn-append : (p q : ℕ) (l : List ℕ) → IsIn p (l ++ (q ∷ [])) → (q ≡ p) ⊎ IsIn p l
IsIn-append p q [] (inl e) = inl e
IsIn-append p q [] (inr i) = absurd i
IsIn-append p q (x ∷ l) (inl e) = inr (inl e)
IsIn-append p q (x ∷ l) (inr i) = elim (IsIn-append p q l i) [ inl e ↦ inl e | inr j ↦ inr (inr j) ]

abbrev pushed : Client → ℕ → Client
pushed c p = record c { ready_sessions = c.ready_sessions ++ (p ∷ []) }

push-cases :
    (gone : Bool) (c : Client) (p : ℕ) {d : Client}
    → push_to_client_ready_channel gone c p ≡ some d
    → (c ≡ d) ⊎ (pushed c p ≡ d)
unfolding push_to_client_ready_channel
push-cases gone c p e = elim (Bool-cases (c.disconnected && gone)) [
  | inl left ↦ inl (returns (λ x. c ≡ x) (rw (left, push_to_client_ready_channel) at e) refl)
  | inr here ↦ elim (Bool-cases (ltb (length c.ready_sessions) ready_capacity)) [
    | inl room ↦
        inr
          (returns (λ x. pushed c p ≡ x) (rw (here, push_to_client_ready_channel, room) at e) refl)
    | inr full ↦ elim (Bool-cases c.disconnected) [
      | inl gone_too ↦ ground arith
      | inr blocked ↦ ground arith
    ]
  ]
]

pushed-IsWaking :
    (c : Client) (p : ℕ)
    → IsWaking c
    → p < c.sessions_allocated
    → (c.session_at p).compilation_started ≡ true
    → IsWaking (pushed c p)
pushed-IsWaking c p w l started = record {
  filed = record { below = w.filed.below; named = w.filed.named };
  guarded =
      Every-map c.sessions
        (λ q g. record {
          allocated = g.allocated;
          below = g.below;
          visited = g.visited;
          served = g.served;
        })
        w.guarded;
  once = w.once;
  launched_below = w.launched_below;
  ready_below = λ q i. elim (IsIn-append q p c.ready_sessions i) [
    | inl e ↦ subst (λ r. r < c.sessions_allocated) e l
    | inr j ↦ w.ready_below q j
  ];
  ready_started = λ q i. elim (IsIn-append q p c.ready_sessions i) [
    | inl e ↦ subst (λ r. (c.session_at r).compilation_started ≡ true) e started
    | inr j ↦ w.ready_started q j
  ];
}

-- A started session in the channel of the ready ones.
pub push-IsWaking :
    (gone : Bool) (c : Client) (p : ℕ) {d : Client}
    → IsWaking c
    → p < c.sessions_allocated
    → (c.session_at p).compilation_started ≡ true
    → push_to_client_ready_channel gone c p ≡ some d
    → IsWaking d
unfolding push_to_client_ready_channel
push-IsWaking gone c p w l started e = elim (push-cases gone c p e) [
  | inl same ↦ subst IsWaking same w
  | inr more ↦ subst IsWaking more (pushed-IsWaking c p w l started)
]

register_started-IsWaking :
    (c : Client) (p : ℕ)
    → IsWaking c
    → p < c.sessions_allocated
    → ((q : ℕ) → IsIn q (c.session_at p).files → q < c.files_allocated)
    → (c.session_at p).compilation_started ≡ true
    → IsWaking (register_created_session c p)
unfolding register_created_session
register_started-IsWaking c p w l below started = record {
  filed = record { below = w.filed.below; named = w.filed.named };
  guarded =
      Every-map _
        (λ q g. record {
          allocated = g.allocated;
          below = g.below;
          visited = g.visited;
          served = g.served;
        })
        (Every-put (IsGuarded c) (c.session_at p).session_id p c.sessions
          (record { allocated = l; below = below; visited = inl started; served = inl started })
          w.guarded);
  once = w.once;
  launched_below = w.launched_below;
  ready_below = w.ready_below;
  ready_started = w.ready_started;
}

-- A new session that needs no compiler.
module _ (c : Client) (ses : Session) (w : IsWaking c) (started : ses.compilation_started ≡ true)
    (below : (q : ℕ) → IsIn q ses.files → q < c.files_allocated) where
  new_started : ((add_session c ses).session_at c.sessions_allocated).compilation_started ≡ true
  new_started = rw (added_session c ses) started

  registered-IsWaking : IsWaking (register_created_session (add_session c ses) c.sessions_allocated)
  unfolding add_session
  registered-IsWaking =
      let at = added_session c ses in
      register_started-IsWaking (add_session c ses) c.sessions_allocated
        (add_session-IsWaking c ses w) (omega arith)
        (subst (λ (t : Session). (q : ℕ) → IsIn q t.files → q < c.files_allocated) (sym at) below)
        new_started

  new_pushed-IsWaking :
      (gone : Bool) {d : Client}
      → push_to_client_ready_channel gone
          (register_created_session (add_session c ses) c.sessions_allocated)
          c.sessions_allocated
        ≡ some d
      → IsWaking d
  unfolding add_session register_created_session
  new_pushed-IsWaking gone e =
      push-IsWaking gone (register_created_session (add_session c ses) c.sessions_allocated)
        c.sessions_allocated registered-IsWaking (omega arith) new_started e

module _ (e : Setup) (s : Shared) (c : Client) (ses : Session) (w : IsWaking c)
    (below : (q : ℕ) → IsIn q ses.files → q < c.files_allocated) where
  serve-IsWaking :
      (path : CachePath) {o : Opened} → serve_from_obj_cache e s c ses path ≡ some o → IsWaking o.1
  unfolding serve_from_obj_cache
  serve-IsWaking path eq =
      let found : Session = record ses {
        obj_cache_exists = true;
        obj_out_file = path_text e.obj_cache_dir path;
        compilation_started = true;
      } in
      elim (Option-cases (
        push_to_client_ready_channel e.gone
          (register_created_session (add_session c found) c.sessions_allocated)
          c.sessions_allocated)) [
            | inl blocked ↦ cc (rw (blocked, serve_from_obj_cache) at eq)
            | inr (x, pushed_on) ↦
                returns (λ (o : Opened). IsWaking o.1) (rw (pushed_on, serve_from_obj_cache) at eq)
                  (new_pushed-IsWaking c found w refl below e.gone pushed_on)
          ]

  open_looked_up-IsWaking :
      (r : Request) (path : Option CachePath) {o : Opened}
      → open_looked_up e s c r ses path ≡ some o
      → IsWaking o.1
  unfolding open_looked_up
  open_looked_up-IsWaking r none eq = open_for_compilation-IsWaking e s c r ses w below eq
  open_looked_up-IsWaking r (some path) eq = serve-IsWaking path eq

open_session-IsWaking :
    (e : Setup) (s : Shared) (c : Client) (ses : Session) (r : Request) {o : Opened}
    → IsWaking c
    → ((q : ℕ) → IsIn q ses.files → q < c.files_allocated)
    → open_session e s c r ses ≡ some o
    → IsWaking o.1
unfolding open_session
open_session-IsWaking e s c ses r w below eq =
    let key =
      make_obj_cache_key e.sha256 r.cxx_name r.cxx_args (map c.file_at ses.files) r.cpp_in_file in
    elim (Bool-cases (c.disable_obj_cache || not (bytes_beq ses.coverage_obj_file []))) [
      | inl no_cache ↦
          open_for_compilation-IsWaking e s c r ses w below (rw (no_cache, open_session) at eq)
      | inr cached ↦ elim (Option-cases (lookup_in_cache s.obj_file_cache key)) [
        | inl panic ↦ cc (rw (cached, open_session, panic) at eq)
        | inr (found, looked) ↦
            open_looked_up-IsWaking e (record s { obj_file_cache = found.0 }) c
              (record ses { obj_cache_key = key }) w below r found.1
              (rw (cached, open_session, looked) at eq)
      ]
    ]

-- StartCompilationSession, from the creation of the session on: whichever way it ends, and also where
-- it gives an error, no registered session is forgotten.
pub start_session-IsWaking :
    (e : Setup) (s : Shared) (c : Client) (r : Request) {o : Opened}
    → IsWaking c
    → start_session e s c r ≡ some o
    → IsWaking o.1
unfolding start_session
start_session-IsWaking e s c r w eq =
    elim (Option-cases (start_using_files e.machine.now c r.required_files)) [
      | inl panic ↦ cc (rw (panic, start_session) at eq)
      | inr (created, made) ↦
          let opened = start_using_files-Opened e.machine.now c r.required_files w.filed made in
          let d_waking = keep-IsWaking opened.filed opened.keeps w in
          elim (Option-cases created.1) [
            | inl conflict ↦
                returns (λ (o : Opened). IsWaking o.1) (rw (made, start_session, conflict) at eq)
                  d_waking
            | inr (files, all) ↦
                open_session-IsWaking e s created.0 (new_session r files) r d_waking
                  (λ q l.
                    files_below created.0 r.required_files files q opened.filed
                      (opened.has_files files all) l)
                  (rw (made, start_session, all) at eq)
          ]
    ]
