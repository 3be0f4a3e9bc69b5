-- ===== src/Client/Routing/Retrying.antt =====
-- The retries of internal/client/daemon.go (`compileCppRemotelyWithRetries`).
use nocc.Prelude.{
  ℕ, zero, suc, ◌+◌, ◌-◌, ◌≤◌, ◌<◌, Bool, true, false, some, ◌≡◌, ◌⊎◌, ◌↔◌, inl, inr, refl, arith,
  Bool-cases, leb, nat_beq, nat_beq_iff, subst,
}
use nocc.Client.Routing.{
  Attempt, compiled, failed, no_capable_remote, Tried, compile_with_retries, remote_retry_delay,
}

-- How the attempts from number `first` on end.
pub record Ended (retries first : ℕ) (outcome : ℕ → Attempt) (t : Tried) : Type 0 where
  pub some_attempt : first < t.attempts
  pub not_more : t.attempts ≤ retries + 1
  pub all_failed : (k : ℕ) → first ≤ k → k + 1 < t.attempts → outcome k ≡ failed
  pub reply : (t.has_reply ≡ true) ↔ (outcome (t.attempts - 1) ≡ compiled)
  pub gives_up :
      t.has_reply ≡ false
      → (outcome (t.attempts - 1) ≡ no_capable_remote) ⊎ (t.attempts ≡ retries + 1)

pub Attempt-cases : (a : Attempt) → (a ≡ compiled) ⊎ ((a ≡ failed) ⊎ (a ≡ no_capable_remote))
Attempt-cases compiled = inl refl
Attempt-cases failed = inr (inl refl)
Attempt-cases no_capable_remote = inr (inr refl)

module _ (retries : ℕ) (outcome : ℕ → Attempt) where
  -- The last attempt is the first one of those left.
  last-Ended :
      (first slept : ℕ) (r : Bool)
      → first ≤ retries
      → (r ≡ true) ↔ (outcome first ≡ compiled)
      → (r ≡ false → (outcome first ≡ no_capable_remote) ⊎ (first ≡ retries))
      → Ended retries first outcome (record { attempts = first + 1; slept = slept; has_reply = r })
  last-Ended first slept r l reply gives_up =
      let e : first ≡ first + 1 - 1 = omega arith in
      record {
        some_attempt = omega arith;
        not_more = omega (arith, l);
        all_failed = λ k a b. absurd (omega (arith, a, b));
        reply = subst (λ k. (r ≡ true) ↔ (outcome k ≡ compiled)) e reply;
        gives_up = λ f. elim (gives_up f) [
          | inl n ↦ inl (subst (λ k. outcome k ≡ no_capable_remote) e n)
          | inr last ↦ inr (omega (arith, last))
        ];
      }

  more-Ended :
      (first : ℕ) (t : Tried)
      → outcome first ≡ failed
      → Ended retries (first + 1) outcome t
      → Ended retries first outcome t
  more-Ended first t f e = record {
    some_attempt = omega (arith, e.some_attempt);
    not_more = e.not_more;
    all_failed = λ k a b. elim (Bool-cases (nat_beq first k)) [
      | inl same ↦ subst (λ j. outcome j ≡ failed) ((nat_beq_iff first k).0 same) f
      | inr other ↦ let above : first + 1 ≤ k = ground arith in e.all_failed k above b
    ];
    reply = e.reply;
    gives_up = e.gives_up;
  }

  -- From attempt number `first` on, and so from 0 on, the loop ends with attempts of numbers up to the
  -- count of retries, at least one of them: all but the last one failed. There is a reply exactly if
  -- the last one compiled; without one, no remote is capable, or no attempt is left.
  pub compile_with_retries-Ended :
      (fuel first slept : ℕ)
      → first ≤ retries
      → retries < first + fuel
      → (t : Tried) × (compile_with_retries fuel retries outcome first slept ≡ some t)
        × Ended retries first outcome t
  unfolding compile_with_retries
  compile_with_retries-Ended zero first slept l enough = absurd (omega (arith, l, enough))
  compile_with_retries-Ended (suc fuel) first slept l enough =
      elim (Attempt-cases (outcome first)) [
        | inl done ↦ (
          _,
          rw (done, compile_with_retries) refl,
          last-Ended first slept true l (ground (arith, done)) (λ f. cc f),
        )
        | inr (inr refused) ↦ (
          _,
          rw (refused, compile_with_retries) refl,
          last-Ended first slept false l (ground (arith, refused)) (λ f. inl refused),
        )
        | inr (inl bad) ↦ elim (Bool-cases (leb retries first)) [
          | inl no_more ↦ (
            _,
            rw (bad, compile_with_retries, no_more) refl,
            last-Ended first slept false l (ground (arith, bad)) (λ f. inr (ground arith)),
          )
          | inr again ↦
              let (t, ended, e) =
                compile_with_retries-Ended fuel (first + 1) (slept + remote_retry_delay first)
                  (ground arith) (omega (arith, enough)) in
              (t, rw (bad, compile_with_retries, again) ended, more-Ended first t bad e)
        ]
      ]
