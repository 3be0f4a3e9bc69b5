-- ===== src/Client/Daemon/Losing.antt =====
-- What the loss of a remote does to the invocations of internal/client/daemon.go.
use nocc.Client.Daemon.{
  ActiveInvocation, Daemon, Held, interrupt, interrupt_where, is_on,
  interrupt_invocations_on_remote, lose_each, on_remote_became_unavailable,
}
use nocc.Client.Routing.{RemoteConnection}
use nocc.Client.Waiting.Releasing.{IsBalanced, IsReleased, force_interrupt-IsReleased}
use nocc.Client.Waiting.{Waits}
use nocc.Prelude.Dict.{Dict}
use nocc.Prelude.{
  ◌⊎◌, ℕ, suc, Bool, true, false, ◌&&◌, ◌||◌, not, some, List, [], ◌∷◌, ◌≡◌, ◌≢◌, refl, sym, ◌∙◌,
  subst, arith, nat_beq, nat_beq_iff, nat_comparable, Bool-cases, inl, inr, if◌then◌else◌,
}

-- The wait groups of each wait for what its counters say.
abbrev pub AreBalanced : Dict ℕ ActiveInvocation → Type 0
AreBalanced [] = Unit
AreBalanced ((id, a) ∷ m) = IsBalanced a.waits × AreBalanced m

-- What is interrupted on a remote waits for nothing, and the rest is as it was.
abbrev pub OneInterrupted : ℕ → ActiveInvocation → ActiveInvocation → Type 0
OneInterrupted c a b =
    (b.remote ≡ a.remote) × (a.remote ≡ c → IsReleased b.waits) × (a.remote ≢ c → b ≡ a)

abbrev pub AreInterrupted : ℕ → Dict ℕ ActiveInvocation → Dict ℕ ActiveInvocation → Type 0
AreInterrupted c [] [] = Unit
AreInterrupted c [] (y ∷ ys) = ⊥
AreInterrupted c (x ∷ xs) [] = ⊥
AreInterrupted c ((i, a) ∷ xs) ((j, b) ∷ ys) =
    (i ≡ j) × OneInterrupted c a b × AreInterrupted c xs ys

released-IsBalanced : (w : Waits) → IsReleased w → IsBalanced w
released-IsBalanced w r = record {
  uploads = r.upload ∙ sym r.no_uploads;
  recv = ground (arith, r.recv, r.done);
}

-- An entry is interrupted if it is on the remote.
interrupt_one :
    (c : ℕ) (a : ActiveInvocation)
    → IsBalanced a.waits
    → (b : ActiveInvocation) × ((if is_on c a then interrupt a else some a) ≡ some b)
      × OneInterrupted c a b
      × IsBalanced b.waits
unfolding interrupt
interrupt_one c a h = elim (Bool-cases (is_on c a)) [
  | inl here ↦
      let (w, e, r) =
        force_interrupt-IsReleased (suc a.waits.wait_uploads) a.waits h (omega arith) in
      (
        record a { waits = w },
        rw here (rw e refl),
        (refl, (λ _. r), (λ other. absurd (other ((nat_beq_iff a.remote c).0 here)))),
        released-IsBalanced w r,
      )
  | inr other ↦
      (a, rw other refl, (refl, (λ same. ground (arith, nat_beq_iff a.remote c)), (λ _. refl)), h)
]

interrupt_where-AreInterrupted :
    (c : ℕ) (m : Dict ℕ ActiveInvocation)
    → AreBalanced m
    → (n : Dict ℕ ActiveInvocation) × (interrupt_where (is_on c) m ≡ some n)
      × AreInterrupted c m n
      × AreBalanced n
unfolding interrupt_where
interrupt_where-AreInterrupted c [] h = ([], refl, tt, tt)
interrupt_where-AreInterrupted c ((i, a) ∷ m) (h, hs) =
    let (b, e, one, k) = interrupt_one c a h in
    let (n, es, all, ks) = interrupt_where-AreInterrupted c m hs in
    ((i, b) ∷ n, rw e (rw es refl), (refl, one, all), (k, ks))

AreInterrupted-trans :
    (c : ℕ) (l m n : Dict ℕ ActiveInvocation)
    → AreInterrupted c l m
    → AreInterrupted c m n
    → AreInterrupted c l n
AreInterrupted-trans c [] [] n h k = k
AreInterrupted-trans c [] (y ∷ m) n h k = absurd h
AreInterrupted-trans c (x ∷ l) [] n h k = absurd h
AreInterrupted-trans c (x ∷ l) (y ∷ m) [] h k = absurd k
AreInterrupted-trans c ((i, a) ∷ l) ((j, b) ∷ m) ((k, d) ∷ n) (e, f, h) (e', f', h') = (
  e ∙ e',
  (
    f'.0 ∙ f.0,
    (λ here. f'.1 (f.0 ∙ here)),
    (λ other. f'.2 (λ here. other (sym f.0 ∙ here)) ∙ f.2 other),
  ),
  AreInterrupted-trans c l m n h h',
)

-- A remote of this client that was available.
abbrev pub HasLost : ℕ → List RemoteConnection → Type 0
HasLost c [] = ⊥
HasLost c (r ∷ rs) = ((r.grpc_client ≡ c) × (r.is_unavailable ≡ false)) ⊎ HasLost c rs

abbrev pub AreLost : ℕ → List RemoteConnection → List RemoteConnection → Type 0
AreLost c [] [] = Unit
AreLost c [] (s ∷ ss) = ⊥
AreLost c (r ∷ rs) [] = ⊥
AreLost c (r ∷ rs) (s ∷ ss) =
    (r.grpc_client ≡ c → s ≡ record r { is_unavailable = true })
    × (r.grpc_client ≢ c → s ≡ r)
    × AreLost c rs ss

abbrev pub Interrupts :
    ℕ → List RemoteConnection → Dict ℕ ActiveInvocation → Dict ℕ ActiveInvocation → Type 0
Interrupts c rs m n = (HasLost c rs × AreInterrupted c m n) ⊎ ((HasLost c rs → ⊥) × (n ≡ m))

abbrev is_lost : ℕ → RemoteConnection → Bool
is_lost c r = nat_beq r.grpc_client c && not r.is_unavailable

head-AreLost :
    (c : ℕ) (r : RemoteConnection) (rs ss : List RemoteConnection)
    → AreLost c rs ss
    → AreLost c (r ∷ rs) (record r { is_unavailable = is_lost c r || r.is_unavailable } ∷ ss)
head-AreLost c r rs ss h =
    let same = nat_beq_iff r.grpc_client c in
    ((λ here. ground (arith, same)), (λ other. ground (arith, same)), h)

-- After what happens at the first remote, the others.
first-Interrupts :
    (c : ℕ) (r : RemoteConnection) (rs : List RemoteConnection) (l m n : Dict ℕ ActiveInvocation)
    → ((is_lost c r ≡ true) × AreInterrupted c l m) ⊎ ((is_lost c r ≡ false) × (m ≡ l))
    → Interrupts c rs m n
    → Interrupts c (r ∷ rs) l n
first-Interrupts c r rs l m n (inl (lost, h)) (inl (has, k)) =
    inl (inr has, AreInterrupted-trans c l m n h k)
first-Interrupts c r rs l m n (inl (lost, h)) (inr (none, k)) = inl (
  inl (ground (arith, nat_beq_iff r.grpc_client c), ground arith),
  subst (AreInterrupted c l) (sym k) h,
)
first-Interrupts c r rs l m n (inr (kept, h)) (inl (has, k)) =
    inl (inr has, subst (λ x. AreInterrupted c x n) h k)
first-Interrupts c r rs l m n (inr (kept, h)) (inr (none, k)) = inr (
  (λ has. elim has [
    | inl (here, up) ↦ ground (arith, nat_beq_iff r.grpc_client c)
    | inr later ↦ none later
  ]),
  k ∙ h,
)

first_interrupted :
    (c : ℕ) (r : RemoteConnection) (l : Dict ℕ ActiveInvocation)
    → AreBalanced l
    → (m : Dict ℕ ActiveInvocation) × ((if is_lost c r
          then interrupt_invocations_on_remote c l
          else some l)
        ≡ some m)
      × (((is_lost c r ≡ true) × AreInterrupted c l m) ⊎ ((is_lost c r ≡ false) × (m ≡ l)))
      × AreBalanced m
unfolding interrupt_invocations_on_remote
first_interrupted c r l h = elim (Bool-cases (is_lost c r)) [
  | inl lost ↦
      let (m, e, all, k) = interrupt_where-AreInterrupted c l h in
      (m, rw lost e, inl (lost, all), k)
  | inr kept ↦ (l, rw kept refl, inr (kept, refl), h)
]

lose_each-AreLost :
    (c : ℕ) (rs : List RemoteConnection) (l : Dict ℕ ActiveInvocation)
    → AreBalanced l
    → (held : Held) × (lose_each c (rs, l) ≡ some held)
      × AreLost c rs held.0
      × Interrupts c rs l held.1
      × AreBalanced held.1
unfolding lose_each
lose_each-AreLost c [] l h = (([], l), refl, tt, inr ((λ has. has), refl), h)
lose_each-AreLost c (r ∷ rs) l h =
    let (m, e, first, k) = first_interrupted c r l h in
    let (held, es, lost, all, ks) = lose_each-AreLost c rs m k in
    (
      (record r { is_unavailable = is_lost c r || r.is_unavailable } ∷ held.0, held.1),
      rw e (rw es refl),
      head-AreLost c r rs held.0 lost,
      first-Interrupts c r rs l m held.1 first all,
      ks,
    )

-- When the streams of a connection are lost, that connection is unavailable, known by its client and
-- not by its host, and all others stay as they are. If it was available before, each invocation in
-- flight on it waits for nothing any more, each other is as it was, and no wait group is released too
-- often; if not, no invocation changes. The wait groups wait for what their counters say, before and
-- after.
pub on_remote_became_unavailable-AreLost :
    (c : ℕ) (d : Daemon)
    → AreBalanced d.active_invocations
    → (e : Daemon) × (on_remote_became_unavailable c d ≡ some e)
      × AreLost c d.remote_connections e.remote_connections
      × Interrupts c d.remote_connections d.active_invocations e.active_invocations
      × AreBalanced e.active_invocations
unfolding on_remote_became_unavailable
on_remote_became_unavailable-AreLost c d h =
    let (held, e, lost, all, k) = lose_each-AreLost c d.remote_connections d.active_invocations h in
    (record d { remote_connections = held.0; active_invocations = held.1 }, rw e refl, lost, all, k)
