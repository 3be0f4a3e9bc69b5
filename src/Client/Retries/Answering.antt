-- ===== src/Client/Retries/Answering.antt =====
-- That an invocation is answered, and how, by the retries of internal/client/daemon.go.
use mathlib.Core.Option.{some-injective}
use nocc.Client.Compiling.{compile_cpp_remotely}
use nocc.Client.Daemon.{Daemon, on_remote_compilation_failed}
use nocc.Client.Retries.{
  Surroundings, answered, try_number, before_next, try_from, no_remotes,
  compile_cpp_remotely_with_retries,
}
use nocc.Client.Routing.Retrying.{Attempt-cases, Ended, compile_with_retries-Ended}
use nocc.Client.Routing.{
  Attempt, compiled, failed, no_capable_remote, Tried, compile_with_retries, remote_retry_delay,
}
use nocc.Prelude.{
  ℕ, zero, suc, ◌+◌, ◌-◌, ◌≤◌, ◌<◌, true, false, none, some, ◌≡◌, ◌≢◌, ◌⊎◌, inl, inr, refl, sym, ap,
  subst, arith, leb, ◌∙◌, Bool-cases, if◌then◌else◌,
}
use nocc.Client.Retries.Rounds.{
  reached, outcome, left, told, try_number_ends, try_from_again, try_from_last, try_from_compiled,
  compile_with_retries_again, compile_with_retries_last, compile_with_retries_compiled, outcome_at,
  left_at, reached_next,
}

module _ (s : Surroundings) (d : Daemon)
    (meanwhile_keeps : (k : ℕ) (c : Daemon) → (s.meanwhile k c).remote_retries ≡ c.remote_retries)
    (asleep_keeps : (k : ℕ) (c : Daemon) → (s.asleep k c).remote_retries ≡ c.remote_retries)
    (indexes_fit : (k : ℕ) → compile_cpp_remotely (s.encounters k) ≢ none) where
  before_next_retries : (k : ℕ) (c : Daemon) → (before_next s k c).remote_retries ≡ c.remote_retries
  unfolding before_next
  before_next_retries k c = asleep_keeps k c

  -- From an attempt on, the loop does as the loop of retries.
  abbrev IsTold : ℕ → ℕ → ℕ → Daemon → Type 0
  IsTold fuel k slept e =
      (t : Tried) × (e' : Daemon) × (compile_with_retries fuel d.remote_retries (outcome s d) k
          slept
        ≡ some t)
      × (left s d (t.attempts - 1) ≡ some e')
      × (try_from s fuel k e ≡ answered (told s t e') e')

  module _ (fuel k slept : ℕ) (e f : Daemon) (a : Attempt) (at : reached s d k ≡ some e)
      (step : try_number s k e ≡ some (f, a)) (same : f.remote_retries ≡ d.remote_retries) where
    compiled-IsTold : a ≡ compiled → IsTold (suc fuel) k slept e
    compiled-IsTold done = (
      record { attempts = k + 1; slept = slept; has_reply = true },
      f,
      compile_with_retries_compiled fuel d.remote_retries (outcome s d) k slept
          (outcome_at s d k at step ∙ done),
      left_at s d k at step,
      try_from_compiled s fuel k e f (step ∙ ap (λ b. some (f, b)) done),
    )

    last-IsTold :
        (a ≡ no_capable_remote) ⊎ ((a ≡ failed) × (leb d.remote_retries k ≡ true))
        → IsTold (suc fuel) k slept e
    last-IsTold why = (
      record { attempts = k + 1; slept = slept; has_reply = false },
      f,
      compile_with_retries_last fuel d.remote_retries (outcome s d) k slept a
          (outcome_at s d k at step) why,
      left_at s d k at step,
      try_from_last s fuel k e f a step
          (subst (λ n. (a ≡ no_capable_remote) ⊎ ((a ≡ failed) × (leb n k ≡ true))) (sym same) why),
    )

    again-IsTold :
        a ≡ failed
        → leb d.remote_retries k ≡ false
        → IsTold fuel (k + 1) (slept + remote_retry_delay k) (before_next s k f)
        → IsTold (suc fuel) k slept e
    again-IsTold bad more (t, e', tried, behind, told_so) = (
      t,
      e',
      compile_with_retries_again fuel d.remote_retries (outcome s d) k slept
            (outcome_at s d k at step ∙ bad) more
          ∙ tried,
      behind,
      try_from_again s fuel k e f (step ∙ ap (λ b. some (f, b)) bad)
            (subst (λ n. leb n k ≡ false) (sym same) more)
          ∙ told_so,
    )

  try_from-IsTold :
      (fuel k slept : ℕ) (e : Daemon)
      → reached s d k ≡ some e
      → e.remote_retries ≡ d.remote_retries
      → k ≤ d.remote_retries
      → d.remote_retries < k + fuel
      → IsTold fuel k slept e
  try_from-IsTold zero k slept e at same l enough = absurd (omega (arith, l, enough))
  try_from-IsTold (suc fuel) k slept e at same l enough =
      let (f, a, step, keeps) = try_number_ends s meanwhile_keeps indexes_fit k e in
      let retries = keeps ∙ same in
      elim (Attempt-cases a) [
        | inl done ↦ compiled-IsTold fuel k slept e f a at step retries done
        | inr (inr refused) ↦ last-IsTold fuel k slept e f a at step retries (inl refused)
        | inr (inl bad) ↦ elim (Bool-cases (leb d.remote_retries k)) [
          | inl no_more ↦ last-IsTold fuel k slept e f a at step retries (inr (bad, no_more))
          | inr more ↦ again-IsTold fuel k slept e f a at step retries bad more (
              try_from-IsTold fuel (k + 1) (slept + remote_retry_delay k) (before_next s k f)
                (reached_next s d k at step) (before_next_retries k f ∙ retries) (ground arith)
                (omega (arith, enough)))
        ]
      ]

  -- A .cpp is answered, by a remote or by the daemon itself, after the attempts that the loop of retries
  -- makes when each attempt ends as it does on the daemon that the attempts before it, the sleeps and
  -- the reconnections left: all but the last one failed, the last one has the number of the retries at
  -- most, and what the caller is told is the exit code of the last one, if it compiled, and else what
  -- the daemon does without a remote. Without any remotes there is no attempt. Nothing else changes the
  -- number of retries, and the remotes ask for files that they were told of only.
  pub compile_cpp_remotely_with_retries_ends :
      (fuel : ℕ)
      → d.remote_retries < fuel
      → (t : Tried) × (e : Daemon) × (compile_with_retries fuel d.remote_retries (outcome s d) 0 0
          ≡ some t)
        × Ended d.remote_retries 0 (outcome s d) t
        × (left s d (t.attempts - 1) ≡ some e)
        × (compile_cpp_remotely_with_retries s fuel d ≡ (
            if no_remotes d.remote_connections
            then answered (on_remote_compilation_failed d) d
            else answered (told s t e) e))
  unfolding compile_cpp_remotely_with_retries
  compile_cpp_remotely_with_retries_ends fuel enough =
      let (t, e, tried, behind, told_so) =
        try_from-IsTold fuel 0 0 d refl refl (omega arith) (omega (arith, enough)) in
      let (t', tried', ends) =
        compile_with_retries-Ended d.remote_retries (outcome s d) fuel 0 0 (omega arith)
          (omega (arith, enough)) in
      let same : t' ≡ t = some-injective t' t (sym tried' ∙ tried) in
      (
        t,
        e,
        tried,
        subst (Ended d.remote_retries 0 (outcome s d)) same ends,
        behind,
        rw told_so refl,
      )
