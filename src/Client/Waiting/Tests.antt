-- ===== src/Client/Waiting/Tests.antt =====
-- An invocation of internal/client/invocation.go with two uploads under way.
use nocc.Client.Waiting.{Waits, force_interrupt}
use nocc.Prelude.{true, false, some, ◌≡◌, refl}

abbrev two_uploads : Waits
two_uploads = record {
  wait_uploads = 2;
  wg_upload = 2;
  done_recv = false;
  wg_recv = 1;
  failed = false;
}

interrupted :
    force_interrupt 3 two_uploads
    ≡ some
        (record { wait_uploads = 0; wg_upload = 0; done_recv = true; wg_recv = 0; failed = true })
unfolding force_interrupt
interrupted = refl
