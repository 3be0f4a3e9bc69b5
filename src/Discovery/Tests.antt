-- ===== src/Discovery/Tests.antt =====
-- Small lists for internal/discovery/merge.go.
use nocc.Discovery.Merging.{AreAdded, merge-AreAdded}
use nocc.Discovery.{ServerInfo, Network, merge_with_static_hosts}
use nocc.Prelude.Text.{ascii, before_last}
use nocc.Prelude.{
  Option, none, some, List, [], ◌∷◌, ◌++◌, Bytes, ◌≡◌, refl, false, drop, length, ◌+◌,
}

-- Host and port at the last colon, and one name that resolves.
abbrev split_at_colon : Bytes → Option (Bytes × Bytes)
unfolding before_last
split_at_colon s = elim (before_last s b':') [
  | none ↦ none
  | some host ↦ some (host, drop (length host + 1) s)
]

abbrev net : Network
unfolding split_at_colon
net = record {
  split_host_port = split_at_colon;
  is_ip = λ host. false;
  lookup_host = λ host. ascii "10.0.0.5" ∷ [];
}

abbrev hosts : List Bytes
hosts = ascii "Build-01:43210" ∷ []

abbrev server : Bytes → Bytes → ServerInfo
server host_port name = record {
  host_port = host_port;
  host_name = name;
  version = [];
  num_cpu = 0;
  goarch = [];
  goos = [];
}

-- The first is the static one under its address, the second another port of it.
abbrev discovered : List ServerInfo
discovered =
    server (ascii "10.0.0.5:43210") (ascii "x")
    ∷ server (ascii "10.0.0.6:43211") (ascii "build-01")
    ∷ []

merged :
    merge_with_static_hosts net hosts discovered
    ≡ ascii "Build-01:43210" ∷ ascii "10.0.0.6:43211" ∷ []
unfolding merge_with_static_hosts net
merged = refl

merge-AreAdded_example :
    (added : List Bytes) × ((merge_with_static_hosts net hosts discovered ≡ hosts ++ added)
      × AreAdded net hosts discovered added)
merge-AreAdded_example = merge-AreAdded net hosts discovered
