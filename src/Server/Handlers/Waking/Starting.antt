-- ===== src/Server/Handlers/Waking/Starting.antt =====
-- `StartCompilationSession` of internal/server/nocc-server.go forgets no session.
use nocc.Prelude.{
  ℕ, ◌<◌, List, [], ◌∷◌, ◌≡◌, ◌⊎◌, inl, inr, refl, arith, Bool-cases, IsIn, nat_beq, nat_beq_iff,
  nat_comparable, subst, sym, ◌∙◌,
}
use nocc.Server.Client.Files.{IsFiled, Keeps}
use nocc.Server.Client.{Client, Session, FileHeap}
use nocc.Server.Handlers.Starting.{add_session}
use nocc.Server.Handlers.Waking.{IsWaking, IsGuarded, Every-map}
use nocc.Server.Session.Waking.{Every, IsLaunchedOnce, times}
use nocc.Server.Session.{all_uploaded}

all_uploaded-agree :
    (h k : FileHeap) (ps : List ℕ)
    → ((p : ℕ) → IsIn p ps → k p ≡ h p)
    → all_uploaded k ps ≡ all_uploaded h ps
unfolding all_uploaded
all_uploaded-agree h k [] e = refl
all_uploaded-agree h k (p ∷ ps) e =
    rw (e p (inl refl), all_uploaded-agree h k ps (λ q l. e q (inr l))) refl

keep-IsGuarded : {c d : Client} (p : ℕ) → Keeps c d → IsGuarded c p → IsGuarded d p
keep-IsGuarded {c} {d} p k g = record {
  allocated = rw k.same_count g.allocated;
  below = λ q l. k.more q (g.below q (rw k.same_heap at l));
  visited = elim g.visited [
    | inl started ↦ inl (rw k.same_heap started)
    | inr seen ↦ inr (λ q l new.
        let m = rw k.same_heap at l in seen q m (rw (k.same_file q (g.below q m)) at new))
  ];
  served = elim g.served [
    | inl started ↦ inl (rw k.same_heap started)
    | inr waits ↦ inr (
        rw k.same_heap (
          all_uploaded-agree c.file_at d.file_at (c.session_at p).files
            (λ q l. k.same_file q (g.below q l))
          ∙ waits))
  ];
}

-- New files forget no session.
pub keep-IsWaking : {c d : Client} → IsFiled d → Keeps c d → IsWaking c → IsWaking d
keep-IsWaking {c} {d} f k w = record {
  filed = f;
  guarded =
      subst (λ m. Every (IsGuarded d) m) (sym k.same_sessions)
        (Every-map c.sessions (λ p g. keep-IsGuarded p k g) w.guarded);
  once = λ p. rw (k.same_launched, k.same_heap) (w.once p);
  launched_below = λ p l. rw k.same_count (w.launched_below p (rw k.same_launched at l));
  ready_below = λ p l. rw k.same_count (w.ready_below p (rw k.same_ready at l));
  ready_started = λ p l. rw k.same_heap (w.ready_started p (rw k.same_ready at l));
}

times-out : (p : ℕ) (qs : List ℕ) → (IsIn p qs → ⊥) → times p qs ≡ 0
times-out p [] out = refl
times-out p (q ∷ qs) out =
    ground (arith, times-out p qs (λ l. out (inr l)), λ (e : q ≡ p). out (inl e), nat_beq_iff q p)

module _ (c : Client) (s : Session) where
  other_session :
      (p : ℕ) → p < c.sessions_allocated → (add_session c s).session_at p ≡ c.session_at p
  unfolding add_session
  other_session p l = ground arith

  pub added_session : (add_session c s).session_at c.sessions_allocated ≡ s
  unfolding add_session
  added_session = ground arith

  fresh_or_other :
      (p : ℕ) → (c.sessions_allocated ≡ p) ⊎ ((add_session c s).session_at p ≡ c.session_at p)
  unfolding add_session
  fresh_or_other p = elim (Bool-cases (nat_beq c.sessions_allocated p)) [
    | inl same ↦ inl ((nat_beq_iff c.sessions_allocated p).0 same)
    | inr other ↦ inr (rw other refl)
  ]

  add-IsGuarded : (p : ℕ) → IsGuarded c p → IsGuarded (add_session c s) p
  unfolding add_session
  add-IsGuarded p g =
      let e = other_session p g.allocated in
      record {
        allocated = omega (arith, g.allocated);
        below = λ q l. g.below q (rw e at l);
        visited = rw e g.visited;
        served = rw e g.served;
      }

  add-once : IsWaking c → IsLaunchedOnce (add_session c s)
  unfolding add_session
  add-once w p = elim (fresh_or_other p) [
    | inl e ↦
        let none_yet = times-out p c.launched (λ l. omega (arith, e, w.launched_below p l)) in
        omega (arith, none_yet)
    | inr e ↦ rw e (w.once p)
  ]

  -- A session that is not registered yet forgets no other.
  pub add_session-IsWaking : IsWaking c → IsWaking (add_session c s)
  unfolding add_session
  add_session-IsWaking w = record {
    filed = record { below = w.filed.below; named = w.filed.named };
    guarded = Every-map c.sessions add-IsGuarded w.guarded;
    once = add-once w;
    launched_below = λ p l. omega (arith, w.launched_below p l);
    ready_below = λ p l. omega (arith, w.ready_below p l);
    ready_started = λ p l. rw (other_session p (w.ready_below p l)) (w.ready_started p l);
  }
