-- ===== src/Client/Daemon.antt =====
-- internal/client/daemon.go: the remotes and the invocations in flight, and what happens to these when a
-- remote is lost, when they hang, and when the daemon quits.
pub mod Losing
use nocc.Client.CmdOptions.{InvokeType, unsupported, compiling_cpp, compiling_pch, linking}
use nocc.Client.IncludesCache.{CachedHFile, IncludesCache, add_h_file_info, clear}
use nocc.Client.Routing.{RemoteConnection, are_all_remotes_available}
use nocc.Client.Waiting.{Waits, force_interrupt}
use nocc.Common.Sha256.{Sha256}
use nocc.Prelude.Dict.{Dict, get, put}
use nocc.Prelude.Maybe.{◌>>=◌}
use nocc.Prelude.{
  ℕ, suc, ◌-◌, Bool, true, false, ◌&&◌, ◌||◌, not, Option, none, some, List, [], ◌∷◌, Bytes,
  bytes_comparable, nat_comparable, nat_beq, ltb, if◌then◌else◌,
}

-- An invocation in flight, as far as others reach it. `remote` is the address of its connection's grpc
-- client.
pub record ActiveInvocation : Type 0 where
  pub remote : ℕ
  pub create_time : ℕ
  pub waits : Waits

pub record Daemon : Type 0 where
  pub remote_connections : List RemoteConnection
  pub disable_local_cxx : Bool
  pub disable_local_fallback : Bool
  pub remote_retries : ℕ
  pub active_invocations : Dict ℕ ActiveInvocation
  pub includes_cache : Dict Bytes IncludesCache
  pub force_interrupt_timeout : ℕ

unfoldable pub find_by_session_id : ℕ → Daemon → Option ActiveInvocation
unfolding get
find_by_session_id session_id d = get session_id d.active_invocations

-- `made` is what MakeIncludesCache gives.
unfoldable pub get_or_create_includes_cache :
    Bytes → IncludesCache → Daemon → IncludesCache × Daemon
unfolding get put
get_or_create_includes_cache cxx_name made d = elim (get cxx_name d.includes_cache) [
  | some cache ↦ (cache, d)
  | none ↦ (made, record d { includes_cache = put cxx_name made d.includes_cache })
]

unfoldable pub interrupt : ActiveInvocation → Option ActiveInvocation
unfolding force_interrupt
interrupt a =
    force_interrupt (suc a.waits.wait_uploads) a.waits >>= λ w. some (record a { waits = w })

-- The loops over the invocations in flight. `none`: a panic.
unfoldable pub interrupt_where :
    (ActiveInvocation → Bool) → Dict ℕ ActiveInvocation → Option (Dict ℕ ActiveInvocation)
unfolding interrupt
interrupt_where wanted [] = some []
interrupt_where wanted ((id, a) ∷ m) =
    let mine = interrupt a in
    (if wanted a then mine else some a) >>= λ b.
    interrupt_where wanted m >>= λ rest. some ((id, b) ∷ rest)

abbrev pub is_on : ℕ → ActiveInvocation → Bool
is_on grpc_client a = nat_beq a.remote grpc_client

unfoldable pub interrupt_invocations_on_remote :
    ℕ → Dict ℕ ActiveInvocation → Option (Dict ℕ ActiveInvocation)
unfolding interrupt_where
interrupt_invocations_on_remote grpc_client active = interrupt_where (is_on grpc_client) active

-- One round of `PeriodicallyInterruptHangedInvocations`.
unfoldable pub interrupt_hanged : ℕ → Daemon → Option (Dict ℕ ActiveInvocation)
unfolding interrupt_where
interrupt_hanged now d =
    interrupt_where (λ a. ltb d.force_interrupt_timeout (now - a.create_time)) d.active_invocations

-- What `QuitDaemonGracefully` does to the invocations.
unfoldable pub interrupt_all : Daemon → Option (Dict ℕ ActiveInvocation)
unfolding interrupt_where
interrupt_all d = interrupt_where (λ a. true) d.active_invocations

abbrev pub Held : Type 0
Held = List RemoteConnection × Dict ℕ ActiveInvocation

-- The loop over the remotes: those of this client that were available.
unfoldable pub lose_each : ℕ → Held → Option Held
unfolding interrupt_invocations_on_remote
lose_each grpc_client ([], active) = some ([], active)
lose_each grpc_client (r ∷ rs, active) =
    let is_lost = nat_beq r.grpc_client grpc_client && not r.is_unavailable in
    let interrupted = interrupt_invocations_on_remote grpc_client active in
    (if is_lost then interrupted else some active) >>= λ active'.
    lose_each grpc_client (rs, active') >>= λ held.
    some (record r { is_unavailable = is_lost || r.is_unavailable } ∷ held.0, held.1)

abbrev pub with_held : Daemon → Held → Daemon
with_held d held = record d { remote_connections = held.0; active_invocations = held.1 }

unfoldable pub on_remote_became_unavailable : ℕ → Daemon → Option Daemon
unfolding lose_each
on_remote_became_unavailable grpc_client d =
    lose_each grpc_client (d.remote_connections, d.active_invocations) >>= λ held.
    some (with_held d held)

unfoldable pub broke_each :
    ℕ → List RemoteConnection → Dict ℕ ActiveInvocation → Option (Dict ℕ ActiveInvocation)
unfolding interrupt_invocations_on_remote
broke_each grpc_client [] active = some active
broke_each grpc_client (r ∷ rs) active =
    let interrupted = interrupt_invocations_on_remote grpc_client active in
    (if nat_beq r.grpc_client grpc_client then interrupted else some active)
    >>= broke_each grpc_client rs

unfoldable pub on_recv_stream_broke : ℕ → Daemon → Option Daemon
unfolding broke_each
on_recv_stream_broke grpc_client d =
    broke_each grpc_client d.remote_connections d.active_invocations >>= λ active.
    some (record d { active_invocations = active })

-- What the daemon answers: the result of a local compiler, or an exit code of its own.
pub data Response : Type 0 where
  ran_locally : Response
  local_cxx_disabled : Response
  could_not_compile_remotely : Response
  saved_pch_file : Response
  remote_reply : ℕ → Response

unfoldable pub fallback_to_local_cxx : Daemon → Response
fallback_to_local_cxx d = if d.disable_local_cxx then local_cxx_disabled else ran_locally

unfoldable pub on_remote_compilation_failed : Daemon → Response
unfolding fallback_to_local_cxx
on_remote_compilation_failed d =
    if not d.disable_local_fallback then fallback_to_local_cxx d else could_not_compile_remotely

-- What GenerateOwnPch and SaveToOwnPchFile give: the name, the hash and the size, if there was no error.
pub record OwnPchOnDisk : Type 0 where
  pub own_pch_file : Bytes
  pub pch_hash : Sha256
  pub saved_size : Option ℕ

-- `collect` is what the collection of the includes leaves in the cache.
unfoldable pub compile_pch :
    Daemon
    → (IncludesCache → IncludesCache)
    → Option OwnPchOnDisk
    → IncludesCache
    → Response × IncludesCache
unfolding add_h_file_info clear fallback_to_local_cxx
compile_pch d collect none cache = (fallback_to_local_cxx d, collect (clear cache))
compile_pch d collect (some pch) cache = elim pch.saved_size [
  | none ↦ (fallback_to_local_cxx d, collect (clear cache))
  | some size ↦ (
    (if not (are_all_remotes_available d.remote_connections) && not d.disable_local_fallback
        then fallback_to_local_cxx d
        else saved_pch_file),
    add_h_file_info pch.own_pch_file
        (record { file_size = some size; file_sha256 = pch.pch_hash; nested_includes = [] })
        (collect (clear cache)),
  )
]

-- `compiled` is what compileCppRemotelyWithRetries answers.
unfoldable pub handle_invocation :
    InvokeType
    → Response
    → (IncludesCache → IncludesCache)
    → Option OwnPchOnDisk
    → Daemon
    → IncludesCache
    → Response × IncludesCache
unfolding fallback_to_local_cxx compile_pch
handle_invocation unsupported compiled collect pch d cache = (fallback_to_local_cxx d, cache)
handle_invocation linking compiled collect pch d cache = (fallback_to_local_cxx d, cache)
handle_invocation compiling_pch compiled collect pch d cache = compile_pch d collect pch cache
handle_invocation compiling_cpp compiled collect pch d cache = (compiled, cache)
