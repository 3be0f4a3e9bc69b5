-- ===== src/Server/Session/Waking.antt =====
-- When internal/server/session.go starts the compiler: for each registered session whose files are
-- there, and once.
use nocc.Prelude.Dict.{Dict}
use nocc.Prelude.{
  ℕ, true, false, List, [], ◌∷◌, ◌≡◌, ◌+◌, ◌≤◌, IsIn, ◌⊎◌, inl, inr, refl, arith, Bool-cases,
  nat_beq, nat_beq_iff, nat_comparable, if◌then◌else◌, subst, sym,
}
use nocc.Server.Client.{Client, not_started, get_sessions_not_started_compilation}
use nocc.Server.Session.{
  all_uploaded, start_once, start_compiling_obj_if_possible, start_each,
  launch_cxx_on_server_on_ready_sessions,
}

-- A session that the compiler was started for, or that waits for a file.
abbrev pub IsServed : Client → ℕ → Type 0
IsServed c p =
    ((c.session_at p).compilation_started ≡ true)
    ⊎ (all_uploaded c.file_at (c.session_at p).files ≡ false)

abbrev pub Every : (ℕ → Type 0) → Dict ℕ ℕ → Type 0
Every P [] = Unit
Every P ((id, p) ∷ m) = P p × Every P m

abbrev pub times : ℕ → List ℕ → ℕ
times p [] = 0
times p (q ∷ qs) = (if nat_beq q p then 1 else 0) + times p qs

-- The compiler was started at most once for each session, and not for one that is not marked.
abbrev pub IsLaunchedOnce : Client → Type 0
IsLaunchedOnce c =
    (p : ℕ) → times p c.launched ≤ (if (c.session_at p).compilation_started then 1 else 0)

-- A later state of the client in which more sessions may have been started and nothing else changed.
pub record Starts (c d : Client) : Type 0 where
  pub same_files : d.file_at ≡ c.file_at
  pub same_sessions : d.sessions ≡ c.sessions
  pub same_names : d.files ≡ c.files
  pub same_dir : d.working_dir ≡ c.working_dir
  pub same_room : d.files_allocated ≡ c.files_allocated
  pub same_count : d.sessions_allocated ≡ c.sessions_allocated
  pub same_ready : d.ready_sessions ≡ c.ready_sessions
  pub same_needs : (p : ℕ) → (d.session_at p).files ≡ (c.session_at p).files
  pub more :
      (p : ℕ)
      → (c.session_at p).compilation_started ≡ true
      → (d.session_at p).compilation_started ≡ true
  pub once : IsLaunchedOnce c → IsLaunchedOnce d
  pub complete :
      (p : ℕ)
      → IsIn p d.launched
      → IsIn p c.launched ⊎ (all_uploaded c.file_at (c.session_at p).files ≡ true)

Starts-refl : (c : Client) → Starts c c
Starts-refl c = record {
  same_files = refl;
  same_sessions = refl;
  same_names = refl;
  same_dir = refl;
  same_room = refl;
  same_count = refl;
  same_ready = refl;
  same_needs = λ p. refl;
  more = λ p e. e;
  once = λ l. l;
  complete = λ p l. inl l;
}

Starts-trans : {b c d : Client} → Starts b c → Starts c d → Starts b d
Starts-trans k l = record {
  same_files = cc (k.same_files, l.same_files);
  same_sessions = cc (k.same_sessions, l.same_sessions);
  same_names = cc (k.same_names, l.same_names);
  same_dir = cc (k.same_dir, l.same_dir);
  same_room = cc (k.same_room, l.same_room);
  same_count = cc (k.same_count, l.same_count);
  same_ready = cc (k.same_ready, l.same_ready);
  same_needs = λ p. cc (k.same_needs p, l.same_needs p);
  more = λ p e. l.more p (k.more p e);
  once = λ o. l.once (k.once o);
  complete = λ p i. elim (l.complete p i) [
    | inl early ↦ k.complete p early
    | inr all ↦ inr (rw (k.same_files, k.same_needs p) at all)
  ];
}

IsServed-Starts : {c d : Client} (p : ℕ) → Starts c d → IsServed c p → IsServed d p
IsServed-Starts p k (inl started) = inl (k.more p started)
IsServed-Starts p k (inr waits) = inr (rw (k.same_files, k.same_needs p) waits)

start_once-once : (c : Client) (p : ℕ) → IsLaunchedOnce c → IsLaunchedOnce (start_once c p)
unfolding start_once
start_once-once c p o q = ground (arith, o q, o p, nat_beq_iff p q)

start_once-Starts :
    (c : Client) (p : ℕ)
    → all_uploaded c.file_at (c.session_at p).files ≡ true
    → Starts c (start_once c p)
unfolding start_once
start_once-Starts c p all = elim (Bool-cases (c.session_at p).compilation_started) [
  | inl started ↦ rw started (Starts-refl c)
  | inr not_yet ↦ rw not_yet (record {
    same_files = refl;
    same_sessions = refl;
    same_names = refl;
    same_dir = refl;
    same_room = refl;
    same_count = refl;
    same_ready = refl;
    same_needs = λ q. ground (arith, nat_beq_iff p q);
    more = λ q e. ground (arith, nat_beq_iff p q);
    once = λ o. (rw (not_yet, start_once) at (start_once-once c p o));
    complete = λ q i. elim i [
      | inl e ↦ inr (subst (λ r. all_uploaded c.file_at (c.session_at r).files ≡ true) e all)
      | inr l ↦ inl l
    ];
  })
]

start_if-Starts : (c : Client) (p : ℕ) → Starts c (start_compiling_obj_if_possible c p)
unfolding start_compiling_obj_if_possible
start_if-Starts c p = elim (Bool-cases (all_uploaded c.file_at (c.session_at p).files)) [
  | inl all ↦ rw all (start_once-Starts c p all)
  | inr some_missing ↦ rw some_missing (Starts-refl c)
]

start_if-IsServed : (c : Client) (p : ℕ) → IsServed (start_compiling_obj_if_possible c p) p
unfolding start_compiling_obj_if_possible start_once
start_if-IsServed c p = ground arith

start_each-Starts : (c : Client) (ps : List ℕ) → Starts c (start_each c ps)
unfolding start_each
start_each-Starts c [] = Starts-refl c
start_each-Starts c (p ∷ ps) =
    Starts-trans (start_if-Starts c p) (start_each-Starts (start_compiling_obj_if_possible c p) ps)

not_started-skip :
    (d : Client) (id p : ℕ) (m : Dict ℕ ℕ)
    → (d.session_at p).compilation_started ≡ true
    → not_started d ((id, p) ∷ m) ≡ not_started d m
unfolding not_started
not_started-skip d id p m e = rw e refl

not_started-take :
    (d : Client) (id p : ℕ) (m : Dict ℕ ℕ)
    → (d.session_at p).compilation_started ≡ false
    → not_started d ((id, p) ∷ m) ≡ p ∷ not_started d m
unfolding not_started
not_started-take d id p m e = rw e refl

-- What the loop has served, or was served before.
start_each-IsServed :
    (c d : Client) (m : Dict ℕ ℕ) → Starts d c → Every (IsServed (start_each c (not_started d m))) m
unfolding start_each not_started
start_each-IsServed c d [] k = tt
start_each-IsServed c d ((id, p) ∷ m) k = elim (Bool-cases (d.session_at p).compilation_started) [
  | inl started ↦
      subst (λ l. IsServed (start_each c l) p × Every (IsServed (start_each c l)) m)
        (sym (not_started-skip d id p m started))
        (
          IsServed-Starts p (start_each-Starts c (not_started d m)) (inl (k.more p started)),
          start_each-IsServed c d m k,
        )
  | inr not_yet ↦
      let c1 = start_compiling_obj_if_possible c p in
      subst (λ l. IsServed (start_each c l) p × Every (IsServed (start_each c l)) m)
        (sym (not_started-take d id p m not_yet))
        (
          IsServed-Starts p (start_each-Starts c1 (not_started d m)) (start_if-IsServed c p),
          start_each-IsServed c1 d m (Starts-trans k (start_if-Starts c p)),
        )
]

-- After launchCxxOnServerOnReadySessions, each registered session has the compiler started for it or
-- a file that is not uploaded; the sessions' files and the sessions started before are as before.
pub launch_cxx-IsServed :
    (c : Client)
    → Every (IsServed (launch_cxx_on_server_on_ready_sessions c)) c.sessions
      × Starts c (launch_cxx_on_server_on_ready_sessions c)
unfolding launch_cxx_on_server_on_ready_sessions get_sessions_not_started_compilation
launch_cxx-IsServed c = (
  start_each-IsServed c c c.sessions (Starts-refl c),
  start_each-Starts c (get_sessions_not_started_compilation c),
)

start_if-launched :
    (c : Client) (p q : ℕ)
    → IsIn q (start_compiling_obj_if_possible c p).launched
    → (p ≡ q) ⊎ IsIn q c.launched
unfolding start_compiling_obj_if_possible start_once
start_if-launched c p q l = elim (Bool-cases (all_uploaded c.file_at (c.session_at p).files)) [
  | inl all ↦ elim (Bool-cases (c.session_at p).compilation_started) [
    | inl started ↦ inr (rw (all, start_compiling_obj_if_possible, start_once, started) at l)
    | inr not_yet ↦ (rw (all, start_compiling_obj_if_possible, start_once, not_yet) at l)
  ]
  | inr missing ↦ inr (rw (missing, start_compiling_obj_if_possible) at l)
]

start_each-launched :
    (c : Client) (ps : List ℕ) (q : ℕ)
    → IsIn q (start_each c ps).launched
    → IsIn q ps ⊎ IsIn q c.launched
unfolding start_each
start_each-launched c [] q l = inr l
start_each-launched c (p ∷ ps) q l =
    elim (start_each-launched (start_compiling_obj_if_possible c p) ps q l) [
      | inl later ↦ inl (inr later)
      | inr early ↦ elim (start_if-launched c p q early) [ inl e ↦ inl (inl e) | inr old ↦ inr old ]
    ]

not_started-Every :
    (P : ℕ → Type 0) (c : Client) (m : Dict ℕ ℕ) (q : ℕ)
    → Every P m
    → IsIn q (not_started c m)
    → P q
unfolding not_started
not_started-Every P c [] q e l = absurd l
not_started-Every P c ((id, p) ∷ m) q e l = elim (Bool-cases (c.session_at p).compilation_started) [
  | inl started ↦
      not_started-Every P c m q e.1 (subst (λ s. IsIn q s) (not_started-skip c id p m started) l)
  | inr not_yet ↦ elim (subst (λ s. IsIn q s) (not_started-take c id p m not_yet) l) [
    | inl same ↦ subst P same e.0
    | inr later ↦ not_started-Every P c m q e.1 later
  ]
]

-- What holds of the registered sessions and of those launched before holds of those launched now.
pub launch_cxx-launched :
    (P : ℕ → Type 0) (c : Client) (q : ℕ)
    → Every P c.sessions
    → ((p : ℕ) → IsIn p c.launched → P p)
    → IsIn q (launch_cxx_on_server_on_ready_sessions c).launched
    → P q
unfolding launch_cxx_on_server_on_ready_sessions get_sessions_not_started_compilation
launch_cxx-launched P c q e old l =
    elim (start_each-launched c (get_sessions_not_started_compilation c) q l) [
      | inl now ↦ not_started-Every P c c.sessions q e now
      | inr before ↦ old q before
    ]
