-- ===== src/Server/Handlers/Waking.antt =====
-- No session is forgotten: the invariant of a client's sessions that the handlers of
-- internal/server/nocc-server.go keep.
pub mod Starting
pub mod Opening
pub mod Accepting
pub mod Uploading
pub mod Replying
pub mod Reaching
use nocc.Prelude.Dict.{Dict, put, delete}
use nocc.Prelude.{
  ℕ, ◌+◌, ◌≤◌, ◌<◌, Bool, true, false, Option, none, some, List, [], ◌∷◌, ◌≡◌, ◌≢◌, ◌⊎◌, inl, inr,
  refl, arith, Bool-cases, IsIn, nat_beq, nat_beq_iff, nat_comparable, if◌then◌else◌, subst, sym,
}
use nocc.Server.Client.Files.{IsFiled, Keeps}
use nocc.Server.Client.{
  Client, Session, FileHeap, FileState, just_created, uploaded, set_session,
  register_created_session,
}
use nocc.Server.Handlers.Starting.{add_session}
use nocc.Server.Handlers.Visiting.Evolving.{Evolves, waits_on}
use nocc.Server.Session.Waking.{
  Every, IsServed, Starts, launch_cxx-IsServed, launch_cxx-launched, IsLaunchedOnce,
}
use nocc.Server.Session.{all_uploaded, launch_cxx_on_server_on_ready_sessions}

-- The compiler was started, or no file of the session is as it was made.
abbrev pub IsVisited : Client → ℕ → Type 0
IsVisited c p =
    ((c.session_at p).compilation_started ≡ true)
    ⊎ ((q : ℕ) → IsIn q (c.session_at p).files → (c.file_at q).state ≢ just_created)

-- A session at an address in use, with files at addresses in use, that is not forgotten.
pub record IsGuarded (c : Client) (p : ℕ) : Type 0 where
  pub allocated : p < c.sessions_allocated
  pub below : (q : ℕ) → IsIn q (c.session_at p).files → q < c.files_allocated
  pub visited : IsVisited c p
  pub served : IsServed c p

-- All registered sessions are guarded; those that compile, or wait for the client, were started.
pub record IsWaking (c : Client) : Type 0 where
  pub filed : IsFiled c
  pub guarded : Every (IsGuarded c) c.sessions
  pub once : IsLaunchedOnce c
  pub launched_below : (p : ℕ) → IsIn p c.launched → p < c.sessions_allocated
  pub ready_below : (p : ℕ) → IsIn p c.ready_sessions → p < c.sessions_allocated
  pub ready_started :
      (p : ℕ) → IsIn p c.ready_sessions → (c.session_at p).compilation_started ≡ true

pub Every-map : {P Q : ℕ → Type 0} (m : Dict ℕ ℕ) → ((p : ℕ) → P p → Q p) → Every P m → Every Q m
Every-map [] f e = tt
Every-map ((id, p) ∷ m) f (e, es) = (f p e, Every-map m f es)

pub Every-put : (P : ℕ → Type 0) (id p : ℕ) (m : Dict ℕ ℕ) → P p → Every P m → Every P (put id p m)
unfolding put
Every-put P id p [] h e = (h, tt)
Every-put P id p ((j, q) ∷ m) h (e, es) = elim (Bool-cases (nat_beq j id)) [
  | inl same ↦ rw same (h, es)
  | inr other ↦ rw other (e, Every-put P id p m h es)
]

pub Every-delete : (P : ℕ → Type 0) (id : ℕ) (m : Dict ℕ ℕ) → Every P m → Every P (delete id m)
unfolding delete
Every-delete P id [] e = tt
Every-delete P id ((j, q) ∷ m) (e, es) = elim (Bool-cases (nat_beq j id)) [
  | inl same ↦ rw same es
  | inr other ↦ rw other (e, Every-delete P id m es)
]

-- What a launch needs: all but that no session is forgotten.
pub record IsSettled (c : Client) (p : ℕ) : Type 0 where
  pub allocated : p < c.sessions_allocated
  pub below : (q : ℕ) → IsIn q (c.session_at p).files → q < c.files_allocated
  pub visited : IsVisited c p

pub record IsReady (c : Client) : Type 0 where
  pub filed : IsFiled c
  pub settled : Every (IsSettled c) c.sessions
  pub once : IsLaunchedOnce c
  pub launched_below : (p : ℕ) → IsIn p c.launched → p < c.sessions_allocated
  pub ready_below : (p : ℕ) → IsIn p c.ready_sessions → p < c.sessions_allocated
  pub ready_started :
      (p : ℕ) → IsIn p c.ready_sessions → (c.session_at p).compilation_started ≡ true

guard : {c d : Client} (p : ℕ) → Starts c d → IsServed d p → IsSettled c p → IsGuarded d p
guard p k served s = record {
  allocated = rw k.same_count s.allocated;
  below = λ q l. rw k.same_room (s.below q (rw (k.same_needs p) at l));
  visited = elim s.visited [
    | inl started ↦ inl (k.more p started)
    | inr seen ↦ inr (λ q l. rw k.same_files (seen q (rw (k.same_needs p) at l)))
  ];
  served = served;
}

guard_each :
    {c d : Client} (m : Dict ℕ ℕ)
    → Starts c d
    → Every (IsServed d) m
    → Every (IsSettled c) m
    → Every (IsGuarded d) m
guard_each [] k served settled = tt
guard_each ((id, p) ∷ m) k served settled =
    (guard p k served.0 settled.0, guard_each m k served.1 settled.1)

IsFiled-Starts : {c d : Client} → Starts c d → IsFiled c → IsFiled d
IsFiled-Starts k f = record {
  below = λ n p e. rw k.same_room (f.below n p (rw k.same_names at e));
  named = λ n p e. rw (k.same_dir, k.same_files) (f.named n p (rw k.same_names at e));
}

pub launch_cxx-IsWaking :
    (c : Client) → IsReady c → IsWaking (launch_cxx_on_server_on_ready_sessions c)
launch_cxx-IsWaking c r =
    let (served, k) = launch_cxx-IsServed c in
    let d = launch_cxx_on_server_on_ready_sessions c in
    record {
      filed = IsFiled-Starts k r.filed;
      guarded =
          subst (λ m. Every (IsGuarded d) m) (sym k.same_sessions)
            (guard_each c.sessions k served r.settled);
      once = k.once r.once;
      launched_below = λ p l. rw k.same_count (
          launch_cxx-launched (λ q. q < c.sessions_allocated) c p
            (Every-map c.sessions (λ q s. s.allocated) r.settled) r.launched_below l);
      ready_below = λ p l. rw k.same_count (r.ready_below p (rw k.same_ready at l));
      ready_started = λ p l. k.more p (r.ready_started p (rw k.same_ready at l));
    }

evolve-IsServed :
    (c : Client) (h : FileHeap) (p : ℕ)
    → Evolves c.file_at h
    → IsVisited c p
    → IsServed c p
    → IsServed (record c { file_at = h }) p
evolve-IsServed c h p e (inl started) served = inl started
evolve-IsServed c h p e (inr seen) (inl started) = inl started
evolve-IsServed c h p e (inr seen) (inr waits) = inr (
    waits_on c.file_at h (c.session_at p).files
      (λ q l u. elim (e.back q u) [ inl was ↦ was | inr new ↦ absurd (seen q l new) ]) waits)

evolve-IsVisited :
    (c : Client) (h : FileHeap) (p : ℕ)
    → Evolves c.file_at h
    → IsVisited c p
    → IsVisited (record c { file_at = h }) p
evolve-IsVisited c h p e (inl started) = inl started
evolve-IsVisited c h p e (inr seen) = inr (λ q l new. seen q l (e.never_new q new))

-- A change of files in which only new ones become uploaded forgets no session.
pub evolve-IsWaking :
    (c : Client) (h : FileHeap)
    → Evolves c.file_at h
    → IsWaking c
    → IsWaking (record c { file_at = h })
evolve-IsWaking c h e w = record {
  filed = record {
    below = w.filed.below;
    named = λ n p k. rw (e.same_name p) (w.filed.named n p k);
  };
  guarded =
      Every-map c.sessions
        (λ p g. record {
          allocated = g.allocated;
          below = g.below;
          visited = evolve-IsVisited c h p e g.visited;
          served = evolve-IsServed c h p e g.visited g.served;
        })
        w.guarded;
  once = w.once;
  launched_below = w.launched_below;
  ready_below = w.ready_below;
  ready_started = w.ready_started;
}

pub forget : (c : Client) (p : ℕ) → IsGuarded c p → IsSettled c p
forget c p g = record { allocated = g.allocated; below = g.below; visited = g.visited }
