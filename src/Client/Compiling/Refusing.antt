-- ===== src/Client/Compiling/Refusing.antt =====
-- That a remote of internal/client/daemon.go that refused a compiler is not asked again.
use nocc.Client.Compiling.{
  CallError, failed_precondition, unimplemented, other_error, Encounters, broke, Job, mark_at,
  after_error, register, unregister, finish, try_on, compile_cpp_remotely, try_compile_cpp_remotely,
}
use nocc.Client.Daemon.{Daemon}
use nocc.Client.Routing.Choosing.{IsFirst, choose_remote-IsFirst}
use nocc.Client.Routing.{
  RemoteConnection, failed, mark_incapable_of_cxx, can_compile_with_cxx, can_at, start_index,
  coverage_capability_name, choose_remote_connection_for_cpp_compilation,
}
use nocc.Server.Client.{FileMetadata}
use nocc.Prelude.Dict.{Dict, put, has, get-put_self}
use nocc.Prelude.{
  ℕ, zero, suc, Bool, true, false, none, some, List, [], ◌∷◌, Bytes, bytes_comparable, ◌≡◌, ◌≢◌,
  refl, sym, ◌∙◌, ap, subst, arith, nat_beq, nat_beq_iff, length, get_elem?, if◌then◌else◌,
  Bool-cases, Option-cases, inl, inr,
}

has-put : (k v : Bytes) (m : Dict Bytes Bytes) → has k (put k v m) ≡ true
unfolding has
has-put k v m = rw (has, get-put_self k v m) refl

has-mark :
    (r : RemoteConnection) (name reason : Bytes)
    → has name (mark_incapable_of_cxx r name reason).incapable_cxx_names ≡ true
unfolding mark_incapable_of_cxx
has-mark r name reason = elim (Bool-cases (has name r.incapable_cxx_names)) [
  | inl old ↦ rw (mark_incapable_of_cxx, old) old
  | inr new ↦ rw (mark_incapable_of_cxx, new) (has-put name reason r.incapable_cxx_names)
]

marked : ℕ → Bytes → Bytes → RemoteConnection → RemoteConnection
marked c name reason r = if nat_beq r.grpc_client c then mark_incapable_of_cxx r name reason else r

get_elem?-mark_at :
    (c : ℕ) (name reason : Bytes) (rs : List RemoteConnection) (i : ℕ) (r : RemoteConnection)
    → get_elem? rs i ≡ some r
    → get_elem? (mark_at c name reason rs) i ≡ some (marked c name reason r)
unfolding mark_at marked
get_elem?-mark_at c name reason [] i r e = ground arith
get_elem?-mark_at c name reason (s ∷ rs) zero r e = ground arith
get_elem?-mark_at c name reason (s ∷ rs) (suc i) r e = get_elem?-mark_at c name reason rs i r e

mark_at-none :
    (c : ℕ) (name reason : Bytes) (rs : List RemoteConnection) (i : ℕ)
    → get_elem? rs i ≡ none
    → get_elem? (mark_at c name reason rs) i ≡ none
unfolding mark_at
mark_at-none c name reason [] i e = e
mark_at-none c name reason (s ∷ rs) zero e = ground arith
mark_at-none c name reason (s ∷ rs) (suc i) e = mark_at-none c name reason rs i e

incapable-can_compile :
    (r : RemoteConnection) (cxx_name : Bytes) (coverage : Bool)
    → has cxx_name r.incapable_cxx_names ≡ true
    → can_compile_with_cxx r cxx_name coverage ≡ false
unfolding can_compile_with_cxx
incapable-can_compile r cxx_name coverage e = ground (arith, e)

incapable_coverage :
    (r : RemoteConnection) (cxx_name : Bytes)
    → has (coverage_capability_name cxx_name) r.incapable_cxx_names ≡ true
    → can_compile_with_cxx r cxx_name true ≡ false
unfolding can_compile_with_cxx
incapable_coverage r cxx_name e = ground (arith, e)

-- A remote that cannot take a file is not chosen for it.
not_chosen :
    (rs : List RemoteConnection) (file cxx_name : Bytes) (coverage : Bool) (i : ℕ)
    → can_at rs cxx_name coverage i ≡ false
    → choose_remote_connection_for_cpp_compilation rs file cxx_name coverage ≢ some i
not_chosen rs file cxx_name coverage i cannot e =
    let (k, l, at, can, first) =
      subst
        (λ o.
          IsFirst (can_at rs cxx_name coverage) (length rs) o (start_index file (length rs))
            (length rs))
        e (choose_remote-IsFirst rs file cxx_name coverage) in
    ground (arith, can, cannot)

-- What the connections are after an error of an attempt at the one of an index, `r` before: the refusal
-- is remembered of it, and no file of this compiler, or none with coverage, goes to it any more.
abbrev pub IsAvoided :
    CallError → Bool → Bytes → ℕ → RemoteConnection → List RemoteConnection → Type 0
IsAvoided (failed_precondition reason) coverage cxx_name i r rs =
    (get_elem? rs i ≡ some (mark_incapable_of_cxx r cxx_name reason))
    × ((file : Bytes) (c : Bool)
        → choose_remote_connection_for_cpp_compilation rs file cxx_name c ≢ some i)
IsAvoided (unimplemented reason) true cxx_name i r rs =
    (get_elem? rs i ≡ some (mark_incapable_of_cxx r (coverage_capability_name cxx_name) reason))
    × ((file : Bytes) → choose_remote_connection_for_cpp_compilation rs file cxx_name true ≢ some i)
IsAvoided (unimplemented reason) false cxx_name i r rs = get_elem? rs i ≡ some r
IsAvoided other_error coverage cxx_name i r rs = get_elem? rs i ≡ some r

module _ (rs : List RemoteConnection) (i : ℕ) (r : RemoteConnection) (at : get_elem? rs i ≡ some r)
    (own : (j : ℕ) (s : RemoteConnection)
      → get_elem? rs j ≡ some s
      → s.grpc_client ≡ r.grpc_client
      → j ≡ i) where
  marked_at :
      (name reason : Bytes)
      → get_elem? (mark_at r.grpc_client name reason rs) i
        ≡ some (mark_incapable_of_cxx r name reason)
  unfolding marked
  marked_at name reason =
      get_elem?-mark_at r.grpc_client name reason rs i r at
      ∙ rw ((nat_beq_iff r.grpc_client r.grpc_client).1 refl) refl

  others_kept :
      (name reason : Bytes) (j : ℕ)
      → j ≢ i
      → get_elem? (mark_at r.grpc_client name reason rs) j ≡ get_elem? rs j
  unfolding marked
  others_kept name reason j other = elim (Option-cases (get_elem? rs j)) [
    | inl e ↦ mark_at-none r.grpc_client name reason rs j e ∙ sym e
    | inr (s, e) ↦ elim (Bool-cases (nat_beq s.grpc_client r.grpc_client)) [
      | inl same ↦ absurd (other (own j s e ((nat_beq_iff s.grpc_client r.grpc_client).0 same)))
      | inr differs ↦
          get_elem?-mark_at r.grpc_client name reason rs j s e ∙ (rw (marked, differs) refl ∙ sym e)
    ]
  ]

  after_error-IsAvoided :
      (e : CallError) (cxx_name : Bytes) (coverage : Bool)
      → IsAvoided e coverage cxx_name i r (after_error e r.grpc_client cxx_name coverage rs)
        × ((j : ℕ)
            → j ≢ i
            → get_elem? (after_error e r.grpc_client cxx_name coverage rs) j ≡ get_elem? rs j)
  unfolding after_error
  after_error-IsAvoided (failed_precondition reason) cxx_name coverage =
      let e = marked_at cxx_name reason in
      let s = mark_incapable_of_cxx r cxx_name reason in
      (
        (
          e,
          λ file c.
              not_chosen (mark_at r.grpc_client cxx_name reason rs) file cxx_name c i
                (rw (e, can_at) (incapable-can_compile s cxx_name c (has-mark r cxx_name reason))),
        ),
        others_kept cxx_name reason,
      )
  after_error-IsAvoided (unimplemented reason) cxx_name true =
      let name = coverage_capability_name cxx_name in
      let e = marked_at name reason in
      let s = mark_incapable_of_cxx r name reason in
      (
        (
          e,
          λ file.
              not_chosen (mark_at r.grpc_client name reason rs) file cxx_name true i
                (rw (e, can_at) (incapable_coverage s cxx_name (has-mark r name reason))),
        ),
        others_kept name reason,
      )
  after_error-IsAvoided (unimplemented reason) cxx_name false = (at, λ j other. refl)
  after_error-IsAvoided other_error cxx_name coverage = (at, λ j other. refl)

-- An attempt at the remote that is chosen, which ends in an error of the call, fails and so
-- may be retried, and what the remote refused is not asked of it again: after a refusal of the compiler
-- no file is sent there for it, after one of coverage no file with coverage. Nothing else is
-- remembered: of that connection only the name and the reason are, the other ones are as they were, and
-- after any other error all are. Each connection has a client of its own, and none is replaced or lost
-- meanwhile.
pub try_compile-IsAvoided :
    (job : Job) (meanwhile : Daemon → Daemon) (m : Encounters) (d : Daemon) (i : ℕ)
    (r : RemoteConnection) (e : CallError) {queue : List (ℕ × FileMetadata)}
    → ((c : Daemon) → (meanwhile c).remote_connections ≡ c.remote_connections)
    → choose_remote_connection_for_cpp_compilation d.remote_connections job.cpp_in_file job.cxx_name
        job.coverage
      ≡ some i
    → get_elem? d.remote_connections i ≡ some r
    → ((j : ℕ) (s : RemoteConnection)
        → get_elem? d.remote_connections j ≡ some s
        → s.grpc_client ≡ r.grpc_client
        → j ≡ i)
    → compile_cpp_remotely m ≡ some (broke e, queue)
    → (d' : Daemon) × (try_compile_cpp_remotely job meanwhile m d ≡ some (d', failed))
      × IsAvoided e job.coverage job.cxx_name i r d'.remote_connections
      × ((j : ℕ) → j ≢ i → get_elem? d'.remote_connections j ≡ get_elem? d.remote_connections j)
unfolding try_compile_cpp_remotely try_on finish register unregister
try_compile-IsAvoided job meanwhile m d i r e steady chosen at own ends =
    let registered = register job.session_id job.create_time r d in
    let left = unregister job.session_id (meanwhile registered) in
    let rs = left.remote_connections in
    let same : rs ≡ d.remote_connections = steady registered in
    let kept = after_error-IsAvoided d.remote_connections i r at own e job.cxx_name job.coverage in
    (
      (finish job r.grpc_client (broke e) left).0,
      rw (try_compile_cpp_remotely, chosen, at, try_on, ends) refl,
      subst
          (λ l.
            IsAvoided e job.coverage job.cxx_name i r
              (after_error e r.grpc_client job.cxx_name job.coverage l))
          (sym same) kept.0,
      (λ j other.
          ap (λ l. get_elem? (after_error e r.grpc_client job.cxx_name job.coverage l) j) same
          ∙ kept.1 j other),
    )
