-- ===== src/Client/Connecting.antt =====
-- How internal/client/remote-connection.go connects to a server, and how internal/client/daemon.go connects
-- again to those that are unavailable.
pub mod Staying
use nocc.Client.Daemon.{Daemon}
use nocc.Client.Routing.{RemoteConnection}
use nocc.Prelude.{
  ℕ, ◌+◌, ◌-◌, Bool, true, false, ◌&&◌, ◌||◌, not, Option, none, some, List, [], ◌∷◌, Bytes, ltb,
  if◌then◌else◌,
}

-- What connecting gives: the address of the client and the time, whether MakeGRPCClient succeeds, what
-- StartClient replies about coverage, if it succeeds, and whether the two streams do.
pub record Connection : Type 0 where
  pub grpc_client : ℕ
  pub create_time : ℕ
  pub has_client : Bool
  pub supports_coverage : Option Bool
  pub upload_stream : Bool
  pub receive_stream : Bool

-- With whether there is an error.
unfoldable pub make_remote_connection : Bytes → Connection → RemoteConnection × Bool
make_remote_connection host_port c =
    let remote : RemoteConnection = record {
      remote_host_port = host_port;
      is_unavailable = false;
      grpc_client = c.grpc_client;
      create_time = c.create_time;
      incapable_cxx_names = [];
      supports_coverage = false;
    } in
    if not c.has_client then (remote, true) else elim c.supports_coverage [
      | none ↦ (remote, true)
      | some coverage ↦ (
        record remote { supports_coverage = coverage },
        not (c.upload_stream && c.receive_stream),
      )
    ]

abbrev pub or_unavailable : RemoteConnection × Bool → RemoteConnection
or_unavailable (remote, failed) = if failed then record remote { is_unavailable = true } else remote

-- One second.
abbrev min_reconnect_interval : ℕ
min_reconnect_interval = 1000000000

unfoldable pub reconnected : ℕ → Connection → RemoteConnection → RemoteConnection
unfolding make_remote_connection
reconnected now c old =
    if not old.is_unavailable || ltb (now - old.create_time) min_reconnect_interval
    then old
    else or_unavailable (make_remote_connection old.remote_host_port c)

-- The loop from an index on, with the time and the connection at each.
unfoldable pub reconnect_each :
    (ℕ → ℕ) → (ℕ → Connection) → ℕ → List RemoteConnection → List RemoteConnection
unfolding reconnected
reconnect_each now connect i [] = []
reconnect_each now connect i (r ∷ rs) =
    reconnected (now i) (connect i) r ∷ reconnect_each now connect (i + 1) rs

unfoldable pub reconnect_unavailable_remotes : (ℕ → ℕ) → (ℕ → Connection) → Daemon → Daemon
unfolding reconnect_each
reconnect_unavailable_remotes now connect d = record d {
  remote_connections = reconnect_each now connect 0 d.remote_connections;
}
