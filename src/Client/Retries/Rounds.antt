-- ===== src/Client/Retries/Rounds.antt =====
-- The attempts of internal/client/daemon.go one by one, and a round of the loop around these.
use nocc.Client.Compiling.{
  compile_cpp_remotely, try_compile_cpp_remotely, try_on, finish, register, unregister, Compiled,
  replied, broke, Job,
}
use nocc.Client.Daemon.{Daemon, Response, remote_reply, on_remote_compilation_failed}
use nocc.Client.Retries.{Surroundings, answered, try_number, before_next, try_from}
use nocc.Client.Routing.Choosing.{IsFirst, choose_remote-IsFirst}
use nocc.Client.Routing.{
  RemoteConnection, Attempt, compiled, failed, no_capable_remote, Tried, compile_with_retries,
  remote_retry_delay, can_at, choose_remote_connection_for_cpp_compilation,
  are_all_remotes_available, start_index,
}
use nocc.Prelude.Maybe.{◌>>=◌}
use nocc.Prelude.{
  ℕ, zero, suc, ◌+◌, ◌-◌, Bool, true, false, Option, none, some, List, Bytes, ◌≡◌, ◌≢◌, ◌⊎◌, inl,
  inr, refl, ap, subst, arith, leb, length, get_elem?, ◌∙◌, Option-cases, if◌then◌else◌,
}

can_at-get_elem? :
    (rs : List RemoteConnection) (name : Bytes) (coverage : Bool) (i : ℕ)
    → can_at rs name coverage i ≡ true
    → (r : RemoteConnection) × (get_elem? rs i ≡ some r)
can_at-get_elem? rs name coverage i can = elim (Option-cases (get_elem? rs i)) [
  | inl gone ↦ absurd (ground (arith, gone))
  | inr found ↦ found
]

-- The index that is chosen is one of the list.
chosen-get_elem? :
    (rs : List RemoteConnection) (file name : Bytes) (coverage : Bool) (i : ℕ)
    → choose_remote_connection_for_cpp_compilation rs file name coverage ≡ some i
    → (r : RemoteConnection) × (get_elem? rs i ≡ some r)
chosen-get_elem? rs file name coverage i chosen =
    let first =
      subst
        (λ o.
          IsFirst (can_at rs name coverage) (length rs) o (start_index file (length rs))
            (length rs))
        chosen (choose_remote-IsFirst rs file name coverage) in
    can_at-get_elem? rs name coverage i first.3

finish_retries :
    (job : Job) (client : ℕ) (c : Compiled) (d : Daemon)
    → (finish job client c d).0.remote_retries ≡ d.remote_retries
unfolding finish
finish_retries job client (replied code) d = refl
finish_retries job client (broke e) d = refl

module _ (s : Surroundings)
    (meanwhile_keeps : (k : ℕ) (d : Daemon) → (s.meanwhile k d).remote_retries ≡ d.remote_retries)
    (indexes_fit : (k : ℕ) → compile_cpp_remotely (s.encounters k) ≢ none) where
  -- An attempt ends, and leaves the number of retries.
  pub try_number_ends :
      (k : ℕ) (d : Daemon)
      → (e : Daemon) × (a : Attempt) × (try_number s k d ≡ some (e, a))
        × (e.remote_retries ≡ d.remote_retries)
  unfolding try_number try_on register unregister
  try_number_ends k d =
      let job = s.job k in
      elim (Option-cases (
        choose_remote_connection_for_cpp_compilation d.remote_connections job.cpp_in_file
          job.cxx_name job.coverage)) [
            | inl nowhere ↦ (
              d,
              (if are_all_remotes_available d.remote_connections
                  then no_capable_remote
                  else failed),
              rw (try_number, try_compile_cpp_remotely, nowhere) refl,
              refl,
            )
            | inr (i, chosen) ↦
                let (r, at) =
                  chosen-get_elem? d.remote_connections job.cpp_in_file job.cxx_name job.coverage i
                    chosen in
                elim (Option-cases (compile_cpp_remotely (s.encounters k))) [
                  | inl panic ↦ absurd (indexes_fit k panic)
                  | inr ((c, queue), ends) ↦
                      let registered = register job.session_id job.create_time r d in
                      let left = unregister job.session_id (s.meanwhile k registered) in
                      let o = finish job r.grpc_client c left in
                      (
                        o.0,
                        o.1,
                        rw (try_number, try_compile_cpp_remotely, chosen, at, try_on, ends) refl,
                        omega (
                          arith,
                          finish_retries job r.grpc_client c left,
                          meanwhile_keeps k registered,
                        ),
                      )
                ]
          ]

-- The daemon before an attempt, where all before it were made.
abbrev pub reached : Surroundings → Daemon → ℕ → Option Daemon
reached s d zero = some d
reached s d (suc k) = reached s d k >>= λ e. try_number s k e >>= λ o. some (before_next s k o.0)

abbrev pub ended : Option (Daemon × Attempt) → Attempt
ended none = failed
ended (some o) = o.1

-- How an attempt then ends.
abbrev pub outcome : Surroundings → Daemon → ℕ → Attempt
outcome s d k = ended (reached s d k >>= try_number s k)

-- The daemon behind it.
abbrev pub left : Surroundings → Daemon → ℕ → Option Daemon
left s d k = reached s d k >>= λ e. try_number s k e >>= λ o. some o.0

-- What the caller is told after the attempts.
abbrev pub told : Surroundings → Tried → Daemon → Response
told s t e =
    if t.has_reply
    then remote_reply (s.encounters (t.attempts - 1)).exit_code
    else on_remote_compilation_failed e

-- A round of the loop, by the end of its attempt, is one of `compile_with_retries`.
module _ (s : Surroundings) (fuel k : ℕ) (e f : Daemon) where
  pub try_from_again :
      try_number s k e ≡ some (f, failed)
      → leb f.remote_retries k ≡ false
      → try_from s (suc fuel) k e ≡ try_from s fuel (k + 1) (before_next s k f)
  unfolding try_from
  try_from_again step more = rw (step, try_from, more) refl

  pub try_from_last :
      (a : Attempt)
      → try_number s k e ≡ some (f, a)
      → (a ≡ no_capable_remote) ⊎ ((a ≡ failed) × (leb f.remote_retries k ≡ true))
      → try_from s (suc fuel) k e ≡ answered (on_remote_compilation_failed f) f
  unfolding try_from
  try_from_last a step (inl refused) = rw (step, try_from, refused) refl
  try_from_last a step (inr (bad, no_more)) = rw (step, try_from, bad, no_more) refl

  pub try_from_compiled :
      try_number s k e ≡ some (f, compiled)
      → try_from s (suc fuel) k e ≡ answered (remote_reply (s.encounters (k + 1 - 1)).exit_code) f
  unfolding try_from
  try_from_compiled step =
      let number : k ≡ k + 1 - 1 = omega arith in
      rw (step, try_from) (ap (λ n. answered (remote_reply (s.encounters n).exit_code) f) number)

module _ (fuel retries : ℕ) (outcome_of : ℕ → Attempt) (k slept : ℕ) where
  pub compile_with_retries_again :
      outcome_of k ≡ failed
      → leb retries k ≡ false
      → compile_with_retries (suc fuel) retries outcome_of k slept
        ≡ compile_with_retries fuel retries outcome_of (k + 1) (slept + remote_retry_delay k)
  unfolding compile_with_retries
  compile_with_retries_again bad more = rw (bad, compile_with_retries, more) refl

  pub compile_with_retries_last :
      (a : Attempt)
      → outcome_of k ≡ a
      → (a ≡ no_capable_remote) ⊎ ((a ≡ failed) × (leb retries k ≡ true))
      → compile_with_retries (suc fuel) retries outcome_of k slept
        ≡ some (record { attempts = k + 1; slept = slept; has_reply = false })
  unfolding compile_with_retries
  compile_with_retries_last a ends (inl refused) = rw (ends, compile_with_retries, refused) refl
  compile_with_retries_last a ends (inr (bad, no_more)) =
      rw (ends, compile_with_retries, bad, no_more) refl

  pub compile_with_retries_compiled :
      outcome_of k ≡ compiled
      → compile_with_retries (suc fuel) retries outcome_of k slept
        ≡ some (record { attempts = k + 1; slept = slept; has_reply = true })
  unfolding compile_with_retries
  compile_with_retries_compiled done = rw (done, compile_with_retries) refl

pub outcome_at :
    (s : Surroundings) (d : Daemon) (k : ℕ) {e f : Daemon} {a : Attempt}
    → reached s d k ≡ some e
    → try_number s k e ≡ some (f, a)
    → outcome s d k ≡ a
outcome_at s d k at step =
    ap (λ (o : Option Daemon). ended (o >>= try_number s k)) at ∙ ap ended step

pub left_at :
    (s : Surroundings) (d : Daemon) (k : ℕ) {e f : Daemon} {a : Attempt}
    → reached s d k ≡ some e
    → try_number s k e ≡ some (f, a)
    → left s d (k + 1 - 1) ≡ some f
left_at s d k {f = f} at step =
    let next = λ (o : Option (Daemon × Attempt)). o >>= λ r. some r.0 in
    let there : left s d k ≡ some f =
      ap (λ (o : Option Daemon). o >>= λ e. next (try_number s k e)) at ∙ ap next step in
    let number : k ≡ k + 1 - 1 = omega arith in subst (λ n. left s d n ≡ some f) number there

pub reached_next :
    (s : Surroundings) (d : Daemon) (k : ℕ) {e f : Daemon} {a : Attempt}
    → reached s d k ≡ some e
    → try_number s k e ≡ some (f, a)
    → reached s d (k + 1) ≡ some (before_next s k f)
reached_next s d k {f = f} at step =
    let next = λ (o : Option (Daemon × Attempt)). o >>= λ r. some (before_next s k r.0) in
    let there : reached s d (suc k) ≡ some (before_next s k f) =
      ap (λ (o : Option Daemon). o >>= λ e. next (try_number s k e)) at ∙ ap next step in
    let e : suc k ≡ k + 1 = omega arith in
    subst (λ n. reached s d n ≡ some (before_next s k f)) e there
