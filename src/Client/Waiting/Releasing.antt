-- ===== src/Client/Waiting/Releasing.antt =====
-- That internal/client/invocation.go releases both wait groups, and neither too often.
use nocc.Prelude.{
  ℕ, zero, suc, ◌-◌, ◌<◌, Bool, true, false, some, ◌≡◌, refl, arith, Bool-cases, inl, inr, nat_beq,
  if◌then◌else◌, ◌∙◌,
}
use nocc.Client.Waiting.{
  Waits, wg_done, with_error, done_recv_obj, done_upload_file, drain_uploads, force_interrupt,
}

-- The groups wait for what the counters say.
pub record IsBalanced (w : Waits) : Type 0 where
  pub uploads : w.wg_upload ≡ w.wait_uploads
  pub recv : w.wg_recv ≡ (if w.done_recv then 0 else 1)

abbrev one_less : Bool → Waits → Waits
one_less error w = record (with_error error w) {
  wait_uploads = w.wait_uploads - 1;
  wg_upload = w.wg_upload - 1;
}

done_upload_file_lem :
    (error : Bool) (w : Waits)
    → w.wg_upload ≡ w.wait_uploads
    → done_upload_file error w ≡ some (one_less error w)
unfolding done_upload_file wg_done
done_upload_file_lem error w e = ground (arith, e)

IsBalanced-one_less : (error : Bool) (w : Waits) → IsBalanced w → IsBalanced (one_less error w)
IsBalanced-one_less true w b = record { uploads = omega (arith, b.uploads); recv = b.recv }
IsBalanced-one_less false w b = record { uploads = omega (arith, b.uploads); recv = b.recv }

-- The state in which nothing waits.
pub record IsReleased (w : Waits) : Type 0 where
  pub no_uploads : w.wait_uploads ≡ 0
  pub upload : w.wg_upload ≡ 0
  pub done : w.done_recv ≡ true
  pub recv : w.wg_recv ≡ 0

drain_uploads-IsBalanced :
    (fuel : ℕ) (w : Waits)
    → IsBalanced w
    → w.wait_uploads < fuel
    → (v : Waits) × (drain_uploads fuel w ≡ some v) × IsBalanced v × (v.wait_uploads ≡ 0)
unfolding drain_uploads
drain_uploads-IsBalanced zero w b l = absurd (omega (arith, l))
drain_uploads-IsBalanced (suc fuel) w b l = elim (Bool-cases (nat_beq w.wait_uploads 0)) [
  | inl none_left ↦ (w, rw (drain_uploads, none_left) refl, b, ground arith)
  | inr some_left ↦
      let (v, ended, c, z) =
        drain_uploads-IsBalanced fuel (one_less true w) (IsBalanced-one_less true w b)
          (ground arith) in
      (v, ground (arith, done_upload_file_lem true w b.uploads, ended), c, z)
]

recv_lem :
    (w : Waits)
    → IsBalanced w
    → w.wait_uploads ≡ 0
    → (v : Waits) × (done_recv_obj true w ≡ some v) × IsReleased v
unfolding done_recv_obj wg_done
recv_lem w b z = elim (Bool-cases w.done_recv) [
  | inl was ↦ (
    w,
    ground (arith, was),
    record {
      no_uploads = z;
      upload = b.uploads ∙ z;
      done = was;
      recv = ground (arith, was, b.recv);
    },
  )
  | inr not_yet ↦ (
    record (with_error true w) { done_recv = true; wg_recv = 0 },
    ground (arith, not_yet, b.recv),
    record { no_uploads = z; upload = b.uploads ∙ z; done = refl; recv = refl },
  )
]

-- ForceInterrupt ends within one round more than there are uploads left, without releasing a wait
-- group once too often, and leaves nothing to wait for. The wait groups wait for what the counters
-- say.
pub force_interrupt-IsReleased :
    (fuel : ℕ) (w : Waits)
    → IsBalanced w
    → w.wait_uploads < fuel
    → (v : Waits) × (force_interrupt fuel w ≡ some v) × IsReleased v
unfolding force_interrupt
force_interrupt-IsReleased fuel w b l =
    let (u, drained, c, z) = drain_uploads-IsBalanced fuel w b l in
    let (v, received, r) = recv_lem u c z in (v, rw (force_interrupt, drained) received, r)
