-- ===== src/Discovery.antt =====
-- internal/discovery/merge.go: discovered servers behind those of NOCC_SERVERS.
mod Keys
mod Merging
mod Tests
use nocc.Prelude.Text.{ascii, trim_suffix}
use nocc.Prelude.{
  ℕ, ◌+◌, Bool, true, false, ◌&&◌, ◌||◌, not, Option, none, some, List, [], ◌∷◌, ◌++◌, Bytes,
  bytes_beq, leb, if◌then◌else◌,
}

-- `Instance` is `host_name`: mDNS names a server's instance after its host.
pub record ServerInfo : Type 0 where
  pub host_port : Bytes
  pub host_name : Bytes
  pub version : Bytes
  pub num_cpu : ℕ
  pub goarch : Bytes
  pub goos : Bytes

-- net.SplitHostPort, whether net.ParseIP takes a host, and the addresses of LookupHost, none on an
-- error.
pub record Network : Type 0 where
  pub split_host_port : Bytes → Option (Bytes × Bytes)
  pub is_ip : Bytes → Bool
  pub lookup_host : Bytes → List Bytes

-- `strings.ToLower` of ASCII text.
unfoldable pub to_lower : Bytes → Bytes
to_lower [] = []
to_lower (c ∷ s) = (if leb b'A' c && leb c b'Z' then c + 32 else c) ∷ to_lower s

abbrev pub with_port : Bytes → Bytes → Bytes
with_port host port = host ++ b':' ∷ port

unfoldable pub each_with_port : List Bytes → Bytes → List Bytes
each_with_port [] port = []
each_with_port (host ∷ hosts) port = with_port host port ∷ each_with_port hosts port

unfoldable pub short_keys : Bytes → Bytes → List Bytes
unfolding trim_suffix
short_keys host port =
    let short = trim_suffix host (ascii ".local") in
    if bytes_beq short host then [] else with_port short port ∷ []

unfoldable pub keys_at : Network → Bytes → Bytes → List Bytes
unfolding short_keys to_lower each_with_port
keys_at net host port =
    with_port (to_lower host) port
    ∷ (short_keys (to_lower host) port
        ++ (if net.is_ip host then [] else each_with_port (net.lookup_host host) port))

unfoldable pub host_port_keys : Network → Bytes → List Bytes
unfolding to_lower keys_at
host_port_keys net host_port = elim (net.split_host_port host_port) [
  | none ↦ to_lower host_port ∷ []
  | some (host, port) ↦ keys_at net host port
]

unfoldable pub ports_of : Network → Bytes → List Bytes
ports_of net host_port = elim (net.split_host_port host_port) [
  | none ↦ []
  | some (host, port) ↦ port ∷ []
]

-- A map to true is the list of its keys.
unfoldable pub static_keys : Network → List Bytes → List Bytes
unfolding host_port_keys
static_keys net [] = []
static_keys net (h ∷ hs) = host_port_keys net h ++ static_keys net hs

unfoldable pub is_key : Bytes → List Bytes → Bool
is_key key [] = false
is_key key (k ∷ ks) = bytes_beq k key || is_key key ks

unfoldable pub is_any_key : List Bytes → List Bytes → Bool
unfolding is_key
is_any_key [] keys = false
is_any_key (key ∷ more) keys = is_key key keys || is_any_key more keys

-- The instance with each port.
unfoldable pub name_keys : Bytes → List Bytes → List Bytes
unfolding to_lower
name_keys name [] = []
name_keys name (port ∷ ports) = with_port (to_lower name) port ∷ name_keys name ports

unfoldable pub is_duplicate : Network → List Bytes → ServerInfo → Bool
unfolding is_any_key host_port_keys name_keys ports_of
is_duplicate net keys info =
    is_any_key (host_port_keys net info.host_port) keys
    || (not (bytes_beq info.host_name [])
        && is_any_key (name_keys info.host_name (ports_of net info.host_port)) keys)

unfoldable pub add_discovered : Network → List Bytes → List Bytes → List ServerInfo → List Bytes
unfolding is_duplicate
add_discovered net keys merged [] = merged
add_discovered net keys merged (info ∷ more) =
    add_discovered net keys
      (if is_duplicate net keys info then merged else merged ++ (info.host_port ∷ [])) more

unfoldable pub merge_with_static_hosts : Network → List Bytes → List ServerInfo → List Bytes
unfolding static_keys add_discovered
merge_with_static_hosts net static_hosts discovered =
    add_discovered net (static_keys net static_hosts) static_hosts discovered
