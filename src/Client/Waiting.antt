-- ===== src/Client/Waiting.antt =====
-- internal/client/invocation.go: the counters on which an invocation waits.
pub mod Releasing
mod Tests
use nocc.Prelude.Maybe.{◌>>=◌}
use nocc.Prelude.{
  ℕ, zero, suc, ◌+◌, ◌-◌, Bool, true, false, Option, none, some, ◌≡◌, refl, arith, nat_beq,
  if◌then◌else◌,
}

-- `wg_upload` and `wg_recv` are what the two wait groups still wait for; `failed` is `err != nil`.
pub record Waits : Type 0 where
  pub wait_uploads : ℕ
  pub wg_upload : ℕ
  pub done_recv : Bool
  pub wg_recv : ℕ
  pub failed : Bool

-- `none`: a wait group released more often than it was added, which panics.
unfoldable pub wg_done : ℕ → Option ℕ
wg_done zero = none
wg_done (suc n) = some n

abbrev pub with_error : Bool → Waits → Waits
with_error error w = if error then record w { failed = true } else w

unfoldable pub done_recv_obj : Bool → Waits → Option Waits
unfolding wg_done
done_recv_obj error w = if w.done_recv then some w else elim (wg_done w.wg_recv) [
  | none ↦ none
  | some n ↦ some (record (with_error error w) { done_recv = true; wg_recv = n })
]

unfoldable pub done_upload_file : Bool → Waits → Option Waits
unfolding wg_done
done_upload_file error w =
    if nat_beq w.wait_uploads 0 then some (with_error error w) else elim (wg_done w.wg_upload) [
      | none ↦ none
      | some n ↦
          some (record (with_error error w) { wait_uploads = w.wait_uploads - 1; wg_upload = n })
    ]

-- The loop of `ForceInterrupt`. `none`: a panic, or out of fuel.
unfoldable pub drain_uploads : ℕ → Waits → Option Waits
unfolding done_upload_file
drain_uploads zero w = none
drain_uploads (suc fuel) w =
    let rest = done_upload_file true w >>= drain_uploads fuel in
    if nat_beq w.wait_uploads 0 then some w else rest

unfoldable pub force_interrupt : ℕ → Waits → Option Waits
unfolding drain_uploads done_recv_obj
force_interrupt fuel w = drain_uploads fuel w >>= done_recv_obj true
