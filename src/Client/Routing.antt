-- ===== src/Client/Routing.antt =====
-- internal/client/daemon.go and remote-connection.go: the choice of a server for a .cpp.
pub mod Choosing
pub mod Retrying
mod Tests
use Prim.Native.Nat.{bit_xor}
use nocc.Prelude.Dict.{Dict, get, put, has}
use nocc.Prelude.Maybe.{◌>>=◌}
use nocc.Prelude.Paths.{base}
use nocc.Prelude.Text.{ascii}
use nocc.Prelude.{
  ℕ, zero, suc, ◌+◌, ◌*◌, ◌%◌, ◌^◌, Bool, true, false, ◌&&◌, not, Option, none, some, List, [], ◌∷◌,
  ◌++◌, Bytes, bytes_comparable, leb, length, get_elem?, if◌then◌else◌,
}

-- `grpc_client` is the address of the connection's client, of which each connection has its own;
-- `incapable_cxx_names` maps to the reasons; times are nanoseconds.
pub record RemoteConnection : Type 0 where
  pub remote_host_port : Bytes
  pub is_unavailable : Bool
  pub grpc_client : ℕ
  pub create_time : ℕ
  pub incapable_cxx_names : Dict Bytes Bytes
  pub supports_coverage : Bool

unfoldable pub coverage_capability_name : Bytes → Bytes
coverage_capability_name cxx_name = cxx_name ++ ascii " --coverage"

-- A reason that is known stays.
unfoldable pub mark_incapable_of_cxx : RemoteConnection → Bytes → Bytes → RemoteConnection
unfolding has
mark_incapable_of_cxx r cxx_name reason =
    if has cxx_name r.incapable_cxx_names
    then r
    else record r { incapable_cxx_names = put cxx_name reason r.incapable_cxx_names }

unfoldable pub can_compile_with_cxx : RemoteConnection → Bytes → Bool → Bool
unfolding has coverage_capability_name
can_compile_with_cxx r cxx_name coverage =
    if r.is_unavailable
    then false
    else if has cxx_name r.incapable_cxx_names
    then false
    else if coverage
    then r.supports_coverage && not (has (coverage_capability_name cxx_name) r.incapable_cxx_names)
    else true

unfoldable pub are_all_remotes_available : List RemoteConnection → Bool
are_all_remotes_available [] = true
are_all_remotes_available (r ∷ rs) = not r.is_unavailable && are_all_remotes_available rs

-- `fnv.New32a`, from a sum on.
unfoldable pub fnv_32a : ℕ → Bytes → ℕ
fnv_32a sum [] = sum
fnv_32a sum (c ∷ s) = fnv_32a (bit_xor sum c * 16777619 % 2 ^ 32) s

unfoldable pub start_index : Bytes → ℕ → ℕ
unfolding fnv_32a base
start_index cpp_in_file n = fnv_32a 2166136261 (base cpp_in_file) % n

-- Whether the remote at an index can take the file.
abbrev pub can_at : List RemoteConnection → Bytes → Bool → ℕ → Bool
can_at rs cxx_name coverage i = elim (get_elem? rs i) [
  | none ↦ false
  | some r ↦ can_compile_with_cxx r cxx_name coverage
]

-- The loop over the offsets, of which `left` are left: the index of the remote.
unfoldable pub walk_forward : List RemoteConnection → Bytes → Bool → ℕ → ℕ → ℕ → Option ℕ
unfolding can_compile_with_cxx
walk_forward rs cxx_name coverage first offset zero = none
walk_forward rs cxx_name coverage first offset (suc left) =
    let rest = walk_forward rs cxx_name coverage first (offset + 1) left in
    let i = (first + offset) % length rs in if can_at rs cxx_name coverage i then some i else rest

-- For a list that is not empty: by nought the program does not divide.
unfoldable pub choose_remote_connection_for_cpp_compilation :
    List RemoteConnection → Bytes → Bytes → Bool → Option ℕ
unfolding walk_forward start_index
choose_remote_connection_for_cpp_compilation rs cpp_in_file cxx_name coverage =
    walk_forward rs cxx_name coverage (start_index cpp_in_file (length rs)) 0 (length rs)

-- In seconds.
unfoldable pub remote_retry_delay : ℕ → ℕ
remote_retry_delay attempt = if leb 4 attempt then 10 else 2 ^ attempt

-- How one attempt to compile ends.
pub data Attempt : Type 0 where
  compiled : Attempt
  failed : Attempt
  no_capable_remote : Attempt

-- What `compileCppRemotelyWithRetries` does: the number of attempts made, the seconds slept, and
-- whether the last one compiled. `outcome` is how each attempt ends, the reconnections before it
-- included. `none`: out of fuel.
pub record Tried : Type 0 where
  pub attempts : ℕ
  pub slept : ℕ
  pub has_reply : Bool

unfoldable pub compile_with_retries : ℕ → ℕ → (ℕ → Attempt) → ℕ → ℕ → Option Tried
unfolding remote_retry_delay
compile_with_retries zero retries outcome attempt slept = none
compile_with_retries (suc fuel) retries outcome attempt slept =
    let rest =
      compile_with_retries fuel retries outcome (attempt + 1)
        (slept + remote_retry_delay attempt) in
    elim (outcome attempt) [
      | compiled ↦ some (record { attempts = attempt + 1; slept = slept; has_reply = true })
      | no_capable_remote ↦
          some (record { attempts = attempt + 1; slept = slept; has_reply = false })
      | failed ↦
          if leb retries attempt
          then some (record { attempts = attempt + 1; slept = slept; has_reply = false })
          else rest
    ]
