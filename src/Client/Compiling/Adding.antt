-- ===== src/Client/Compiling/Adding.antt =====
-- When the wait groups of internal/client/compile-remotely.go are added to, and when that is too late.
use nocc.Client.Compiling.{add_recv, add_uploads, new_waits, register}
use nocc.Client.Daemon.Losing.{HasLost, AreBalanced}
use nocc.Client.Daemon.{
  ActiveInvocation, Daemon, interrupt, interrupt_where, is_on, interrupt_invocations_on_remote,
  lose_each, on_remote_became_unavailable,
}
use nocc.Client.Routing.{RemoteConnection}
use nocc.Client.Waiting.Releasing.{IsBalanced}
use nocc.Client.Waiting.{Waits, force_interrupt}
use nocc.Prelude.Dict.{Dict, put}
use nocc.Prelude.Maybe.{◌>>=◌}
use nocc.Prelude.{
  ℕ, Bool, true, ◌&&◌, not, Option, none, some, List, [], ◌∷◌, ◌≡◌, refl, arith, nat_beq,
  nat_beq_iff, nat_comparable, ◌==◌, Bool-cases, inl, inr, if◌then◌else◌,
}

put-AreBalanced :
    (id : ℕ) (a : ActiveInvocation) (m : Dict ℕ ActiveInvocation)
    → IsBalanced a.waits
    → AreBalanced m
    → AreBalanced (put id a m)
unfolding put
put-AreBalanced id a [] b h = (b, tt)
put-AreBalanced id a ((j, x) ∷ m) b (h, hs) = elim (Bool-cases (j == id)) [
  | inl same ↦ rw same (b, hs)
  | inr other ↦ rw other (h, put-AreBalanced id a m b hs)
]

none_first :
    {A B : Type 0} (o : Option A) (f : A → Option B) → ((a : A) → f a ≡ none) → (o >>= f) ≡ none
none_first none f h = refl
none_first (some a) f h = h a

interrupt_where_fails :
    (wanted : ActiveInvocation → Bool) (id : ℕ) (a : ActiveInvocation) (m : Dict ℕ ActiveInvocation)
    → wanted a ≡ true
    → interrupt a ≡ none
    → interrupt_where wanted (put id a m) ≡ none
unfolding interrupt_where put
interrupt_where_fails wanted id a [] w f = rw w (rw f refl)
interrupt_where_fails wanted id a ((j, b) ∷ m) w f = elim (Bool-cases (j == id)) [
  | inl same ↦ rw same (rw w (rw f refl))
  | inr other ↦ rw other (
      none_first (if wanted b then interrupt b else some b) _
        (λ x. rw (interrupt_where_fails wanted id a m w f) refl))
]

lose_each_fails :
    (c : ℕ) (rs : List RemoteConnection) (m : Dict ℕ ActiveInvocation)
    → interrupt_invocations_on_remote c m ≡ none
    → HasLost c rs
    → lose_each c (rs, m) ≡ none
unfolding lose_each
lose_each_fails c [] m f h = absurd h
lose_each_fails c (r ∷ rs) m f h =
    elim (Bool-cases (nat_beq r.grpc_client c && not r.is_unavailable)) [
      | inl lost ↦ rw lost (rw f refl)
      | inr kept ↦
          let later : HasLost c rs = elim h [
            | inl (here, up) ↦ ground (arith, nat_beq_iff r.grpc_client c)
            | inr there ↦ there
          ] in
          rw kept (rw (lose_each_fails c rs m f later) refl)
    ]

-- An invocation that waits on a remote.
abbrev pub waiting_on : RemoteConnection → ℕ → Waits → ActiveInvocation
waiting_on r create_time w = record { remote = r.grpc_client; create_time = create_time; waits = w }

-- An invocation is registered before its wait group for the object is added to: if its remote is lost
-- in between, the interruption releases that group too early, and the daemon panics, whatever else is
-- in flight. Once that group, and then the one of the uploads, is added to, the groups wait again for
-- what the counters say.
pub register_then_lose :
    (session_id create_time uploads : ℕ) (r : RemoteConnection) (d : Daemon)
    → HasLost r.grpc_client d.remote_connections
    → AreBalanced d.active_invocations
    → (on_remote_became_unavailable r.grpc_client (register session_id create_time r d) ≡ none)
      × AreBalanced
          (put session_id (waiting_on r create_time (add_recv new_waits)) d.active_invocations)
      × AreBalanced (
          put session_id
            (waiting_on r create_time (add_uploads uploads (add_recv new_waits)))
            d.active_invocations)
unfolding on_remote_became_unavailable register interrupt_invocations_on_remote interrupt
    force_interrupt add_recv add_uploads
register_then_lose session_id create_time uploads r d lost h =
    let a = waiting_on r create_time new_waits in
    (
      rw
          (lose_each_fails r.grpc_client d.remote_connections
            (put session_id a d.active_invocations)
            (interrupt_where_fails (is_on r.grpc_client) session_id a d.active_invocations
              ((nat_beq_iff r.grpc_client r.grpc_client).1 refl) refl)
            lost)
          refl,
      put-AreBalanced session_id _ d.active_invocations (record { uploads = refl; recv = refl }) h,
      put-AreBalanced session_id _ d.active_invocations
          (record { uploads = omega arith; recv = refl }) h,
    )
