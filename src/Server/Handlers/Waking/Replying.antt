-- ===== src/Server/Handlers/Waking/Replying.antt =====
-- The end of the compiler, the replies and the end of a client in internal/server forget no session.
use nocc.Common.CompilerKilled.{compiler_was_killed}
use nocc.Prelude.{
  ℕ, ◌≤◌, ◌<◌, Bool, true, none, some, List, [], ◌∷◌, ◌≡◌, ◌⊎◌, inl, inr, refl, arith, Bool-cases,
  either_branch, IsIn, nat_beq, nat_beq_iff, subst, sym,
}
use nocc.Server.Client.{Client, Session, set_session, close_session}
use nocc.Server.Handlers.Replies.{
  CxxResult, Stream, Outcome, given_back, killed, no_notes, lost, end_compilation, with_result,
  reply_session, reply_alive, recv_compiled_obj,
}
use nocc.Server.Handlers.Waking.Accepting.{push-IsWaking}
use nocc.Server.Handlers.Waking.Uploading.{seen-IsWaking}
use nocc.Server.Handlers.Waking.{IsWaking, IsGuarded, Every-map, Every-delete}
use nocc.Server.Session.Waking.{times}

IsIn-times : (p : ℕ) (qs : List ℕ) → IsIn p qs → 1 ≤ times p qs
IsIn-times p [] l = absurd l
IsIn-times p (q ∷ qs) (inl e) = ground (arith, nat_beq_iff q p)
IsIn-times p (q ∷ qs) (inr l) = omega (arith, IsIn-times p qs l)

-- A session that the compiler was launched for is marked.
pub launched-started :
    (c : Client) (p : ℕ)
    → IsWaking c
    → IsIn p c.launched
    → (c.session_at p).compilation_started ≡ true
launched-started c p w l = ground (arith, w.once p, IsIn-times p c.launched l)

-- A change of one session that was started, with no more files than it had.
module _ (c : Client) (p : ℕ) (s : Session) (w : IsWaking c)
    (started : (c.session_at p).compilation_started ≡ true) (still : s.compilation_started ≡ true)
    (fewer : (q : ℕ) → IsIn q s.files → IsIn q (c.session_at p).files) where
  abbrev changed : Client
  changed = record c { session_at = set_session c.session_at p s }

  change-started :
      (q : ℕ)
      → (c.session_at q).compilation_started ≡ true
      → (changed.session_at q).compilation_started ≡ true
  change-started q e = ground (arith, still)

  same_mark :
      (q : ℕ) → (changed.session_at q).compilation_started ≡ (c.session_at q).compilation_started
  same_mark q = ground (arith, still, started, nat_beq_iff p q)

  change-IsGuarded : (q : ℕ) → IsGuarded c q → IsGuarded changed q
  change-IsGuarded q g = elim (Bool-cases (nat_beq p q)) [
    | inl same ↦
        let e : p ≡ q = (nat_beq_iff p q).0 same in
        record {
          allocated = g.allocated;
          below =
              rw same (λ r l. g.below r (subst (λ x. IsIn r (c.session_at x).files) e (fewer r l)));
          visited = rw same (inl still);
          served = rw same (inl still);
        }
    | inr other ↦ record {
      allocated = g.allocated;
      below = rw other g.below;
      visited = rw other g.visited;
      served = rw other g.served;
    }
  ]

  change-IsWaking : IsWaking changed
  change-IsWaking = record {
    filed = record { below = w.filed.below; named = w.filed.named };
    guarded = Every-map c.sessions change-IsGuarded w.guarded;
    once = λ q. rw (same_mark q) (w.once q);
    launched_below = w.launched_below;
    ready_below = w.ready_below;
    ready_started = λ q l. change-started q (w.ready_started q l);
  }

-- The result of the compiler reaches the channel.
pub end_compilation-IsWaking :
    (gone : Bool) (c : Client) (p : ℕ) (r : CxxResult) {d : Client}
    → IsWaking c
    → IsIn p c.launched
    → end_compilation gone c p r ≡ some d
    → IsWaking d
unfolding end_compilation with_result
end_compilation-IsWaking gone c p r w l e =
    let started = launched-started c p w l in
    push-IsWaking gone _ p
      (change-IsWaking c p (with_result c.working_dir r (c.session_at p)) w started started
        (λ q i. i))
      (w.launched_below p l) (ground (arith, started)) e

close-IsWaking :
    (c : Client) (p : ℕ)
    → IsWaking c
    → (c.session_at p).compilation_started ≡ true
    → IsWaking (close_session c p).0
unfolding close_session
close-IsWaking c p w started =
    let v =
      change-IsWaking c p (record (c.session_at p) { files = []; coverage_notes = none }) w started
        started (λ q i. absurd i) in
    record {
      filed = record { below = v.filed.below; named = v.filed.named };
      guarded =
          Every-map _
            (λ q g. record {
              allocated = g.allocated;
              below = g.below;
              visited = g.visited;
              served = g.served;
            })
            (Every-delete
              (IsGuarded (
                changed c p (record (c.session_at p) { files = []; coverage_notes = none }) w
                  started started (λ q i. absurd i)))
              (c.session_at p).session_id c.sessions v.guarded);
      once = v.once;
      launched_below = v.launched_below;
      ready_below = v.ready_below;
      ready_started = v.ready_started;
    }

-- A reply leaves the client alone, and may give its session back; or it closes the session.
pub record Replied (c : Client) (p : ℕ) (r : Client × Outcome × List ℕ) : Type 0 where
  pub client : (r.0 ≡ c) ⊎ (r.0 ≡ (close_session c p).0)
  pub returned : (q : ℕ) → IsIn q r.2 → (r.0 ≡ c) × (p ≡ q)

left : (c : Client) (p : ℕ) (o : Outcome) → Replied c p (c, o, [])
left c p o = record { client = inl refl; returned = λ q l. absurd l }

given : (c : Client) (p : ℕ) (o : Outcome) → Replied c p (c, o, p ∷ [])
given c p o = record {
  client = inl refl;
  returned = λ q l. (refl, elim l [ inl e ↦ e | inr n ↦ absurd n ]);
}

closed : (c : Client) (p : ℕ) (o : Outcome) → Replied c p ((close_session c p).0, o, [])
closed c p o = record { client = inr refl; returned = λ q l. absurd l }

reply-Replied : (t : Stream) (c : Client) (p : ℕ) → Replied c p (reply_alive t c p)
unfolding reply_alive
reply-Replied t c p =
    let s = c.session_at p in
    elim (Bool-cases (compiler_was_killed s.cxx_exit_code s.cxx_stderr)) [
      | inl dead ↦ rw (reply_alive, dead) (closed c p killed)
      | inr alive ↦ elim (Bool-cases s.coverage_failed) [
        | inl bad ↦ rw (reply_alive, alive, bad) (closed c p no_notes)
        | inr good ↦ elim (Bool-cases t.sends) [
          | inl sent ↦ rw (reply_alive, alive, good, sent) (closed c p _)
          | inr not_sent ↦ elim (Bool-cases t.ended_after) [
            | inl over ↦ rw (reply_alive, alive, good, not_sent, over) (given c p lost)
            | inr not_over ↦ rw (reply_alive, alive, good, not_sent, not_over) (left c p lost)
          ]
        ]
      ]
    ]

Replied-IsWaking :
    (c : Client) (p : ℕ) {r : Client × Outcome × List ℕ}
    → IsWaking c
    → (c.session_at p).compilation_started ≡ true
    → Replied c p r
    → IsWaking r.0
Replied-IsWaking c p w started a = elim a.client [
  | inl same ↦ subst IsWaking (sym same) w
  | inr shut ↦ subst IsWaking (sym shut) (close-IsWaking c p w started)
]

popped-IsWaking :
    (c : Client) (p : ℕ) (ps : List ℕ)
    → c.ready_sessions ≡ p ∷ ps
    → IsWaking c
    → IsWaking (record c { ready_sessions = ps })
popped-IsWaking c p ps e w = record {
  filed = record { below = w.filed.below; named = w.filed.named };
  guarded =
      Every-map c.sessions
        (λ q g. record {
          allocated = g.allocated;
          below = g.below;
          visited = g.visited;
          served = g.served;
        })
        w.guarded;
  once = w.once;
  launched_below = w.launched_below;
  ready_below = λ q l. w.ready_below q (rw e (inr l));
  ready_started = λ q l. w.ready_started q (rw e (inr l));
}

-- A session that was started, at an address in use.
abbrev pub IsStarted : Client → ℕ → Type 0
IsStarted c p = (p < c.sessions_allocated) × ((c.session_at p).compilation_started ≡ true)

ready-cases : (l : List ℕ) → (l ≡ []) ⊎ ((p : ℕ) × (ps : List ℕ) × (l ≡ p ∷ ps))
ready-cases [] = inl refl
ready-cases (p ∷ ps) = inr (p, ps, refl)

-- What a reply promises: no session is forgotten, and those it gives back were started.
abbrev pub RepliesWell : Client × Outcome × List ℕ → Type 0
RepliesWell r = IsWaking r.0 × ((q : ℕ) → IsIn q r.2 → IsStarted r.0 q)

Replied-RepliesWell :
    (c : Client) (p : ℕ) (r : Client × Outcome × List ℕ)
    → IsWaking c
    → IsStarted c p
    → Replied c p r
    → RepliesWell r
Replied-RepliesWell c p r w started a = (
  Replied-IsWaking c p w started.1 a,
  λ q l.
      let (same, at) = a.returned q l in
      subst (λ x. IsStarted x q) (sym same) (subst (λ y. IsStarted c y) at started),
)

reply_session-RepliesWell :
    (t : Stream) (c : Client) (p : ℕ)
    → IsWaking c
    → IsStarted c p
    → RepliesWell (reply_session t c p)
unfolding reply_session
reply_session-RepliesWell t c p w started =
    either_branch RepliesWell t.ended_before _ _
      (Replied-RepliesWell c p _ w started (given c p given_back))
      (Replied-RepliesWell (record c { last_seen = t.now }) p
        (reply_alive t (record c { last_seen = t.now }) p) (seen-IsWaking t.now c w) started
        (reply-Replied t (record c { last_seen = t.now }) p))

pub recv-RepliesWell : (t : Stream) (c : Client) → IsWaking c → RepliesWell (recv_compiled_obj t c)
unfolding recv_compiled_obj
recv-RepliesWell t c w = elim (ready-cases c.ready_sessions) [
  | inl none_ready ↦ rw (recv_compiled_obj, none_ready) (w, λ q l. absurd l)
  | inr (p, ps, e) ↦
      rw (recv_compiled_obj, e)
        (reply_session-RepliesWell t (record c { ready_sessions = ps }) p
          (popped-IsWaking c p ps e w)
          (w.ready_below p (rw e (inl refl)), w.ready_started p (rw e (inl refl))))
]
