-- ===== src/Discovery/Merging.antt =====
-- internal/discovery/merge.go: what is added to the static list.
use mathlib.Core.List.{append-nil, append_assoc}
use nocc.Discovery.Keys.{IsKeyOf, IsKeyOfSome, host_port_keys-IsIn, static_keys-IsIn}
use nocc.Discovery.{
  ServerInfo, Network, to_lower, with_port, host_port_keys, ports_of, static_keys, is_key,
  is_any_key, name_keys, is_duplicate, add_discovered, merge_with_static_hosts,
}
use nocc.Prelude.{
  true, List, [], ◌∷◌, ◌++◌, Bytes, bytes_beq, bytes_beq_iff, IsIn, ◌≡◌, ◌⊎◌, ◌↔◌, inl, inr, refl,
  sym, ◌∙◌, subst, Bool-cases, Option-cases, some, arith,
}

-- A key that two lists share.
abbrev Shared : List Bytes → List Bytes → Type 0
Shared xs ys = (key : Bytes) × (IsIn key xs × IsIn key ys)

is_key_iff : (key : Bytes) (keys : List Bytes) → (is_key key keys ≡ true) ↔ IsIn key keys
unfolding is_key
is_key_iff key [] = ((λ e. ground arith), λ i. absurd i)
is_key_iff key (k ∷ ks) = ground (arith, bytes_beq_iff k key, is_key_iff key ks)

is_any_key-Shared : (xs ys : List Bytes) → is_any_key xs ys ≡ true → Shared xs ys
unfolding is_any_key
is_any_key-Shared [] ys e = ground arith
is_any_key-Shared (x ∷ xs) ys e = elim (Bool-cases (is_key x ys)) [
  | inl here ↦ (x, (inl refl, (is_key_iff x ys).0 here))
  | inr there ↦ let (key, (i, j)) = is_any_key-Shared xs ys (ground arith) in (key, (inr i, j))
]

Shared-is_any_key : (xs ys : List Bytes) → Shared xs ys → is_any_key xs ys ≡ true
unfolding is_any_key
Shared-is_any_key [] ys (key, (i, j)) = absurd i
Shared-is_any_key (x ∷ xs) ys (key, (inl e, j)) =
    let here : is_key x ys ≡ true = (is_key_iff x ys).1 (subst (λ k. IsIn k ys) (sym e) j) in
    rw here refl
Shared-is_any_key (x ∷ xs) ys (key, (inr i, j)) =
    let there = Shared-is_any_key xs ys (key, (i, j)) in ground arith

-- A server is known by a key that one of the hosts has too: a key of its spelling, or the name of its
-- instance, if it has one, with its port.
abbrev pub IsKnown : Network → List Bytes → ServerInfo → Type 0
IsKnown net hosts info =
    ((key : Bytes) × (IsKeyOf net info.host_port key × IsKeyOfSome net hosts key))
    ⊎ ((info.host_name ≡ [] → ⊥)
        × ((host : Bytes) × ((port : Bytes) × ((net.split_host_port info.host_port
                  ≡ some (host, port))
                × IsKeyOfSome net hosts (with_port (to_lower info.host_name) port)))))

shared_key :
    (net : Network) (hosts : List Bytes) (host_port : Bytes)
    → Shared (host_port_keys net host_port) (static_keys net hosts)
      ↔ ((key : Bytes) × (IsKeyOf net host_port key × IsKeyOfSome net hosts key))
shared_key net hosts host_port = (
  (λ h.
      let (key, (i, j)) = h in
      (key, ((host_port_keys-IsIn net host_port key).0 i, (static_keys-IsIn net hosts key).0 j))),
  λ h.
      let (key, (i, j)) = h in
      (key, ((host_port_keys-IsIn net host_port key).1 i, (static_keys-IsIn net hosts key).1 j)),
)

shared_name :
    (net : Network) (hosts : List Bytes) (name host_port : Bytes)
    → Shared (name_keys name (ports_of net host_port)) (static_keys net hosts) ↔ (
        (host : Bytes) × ((port : Bytes) × ((net.split_host_port host_port ≡ some (host, port))
            × IsKeyOfSome net hosts (with_port (to_lower name) port))))
unfolding name_keys ports_of
shared_name net hosts name host_port = elim (Option-cases (net.split_host_port host_port)) [
  | inl unsplit ↦
      let e : name_keys name (ports_of net host_port) ≡ [] = rw (unsplit, ports_of) refl in
      (
        (λ h. absurd (subst (λ l. Shared l (static_keys net hosts)) e h).1.0),
        λ h. let (host, (port, (s, k))) = h in ground arith,
      )
  | inr ((host, port), s) ↦
      let named = with_port (to_lower name) port in
      let e : name_keys name (ports_of net host_port) ≡ named ∷ [] = rw (s, ports_of) refl in
      (
        (λ h.
            let (key, (i, j)) = subst (λ l. Shared l (static_keys net hosts)) e h in
            elim i [
              | inl here ↦
                  let k = subst (λ k. IsIn k (static_keys net hosts)) (sym here) j in
                  (host, (port, (s, (static_keys-IsIn net hosts named).0 k)))
              | inr there ↦ absurd there
            ]),
        λ h.
            let (at, (door, (s2, k))) = h in
            let other = with_port (to_lower name) door in
            let f : name_keys name (ports_of net host_port) ≡ other ∷ [] = rw (s2, ports_of) refl in
            subst (λ l. Shared l (static_keys net hosts)) (sym f)
              (other, (inl refl, (static_keys-IsIn net hosts other).1 k)),
      )
]

is_duplicate-IsKnown :
    (net : Network) (hosts : List Bytes) (info : ServerInfo)
    → (is_duplicate net (static_keys net hosts) info ≡ true) ↔ IsKnown net hosts info
unfolding is_duplicate
is_duplicate-IsKnown net hosts info =
    let keys = static_keys net hosts in
    let own = host_port_keys net info.host_port in
    let named = name_keys info.host_name (ports_of net info.host_port) in
    let by_key = shared_key net hosts info.host_port in
    let by_name = shared_name net hosts info.host_name info.host_port in
    (
      (λ e. elim (Bool-cases (is_any_key own keys)) [
        | inl here ↦ inl (by_key.0 (is_any_key-Shared own keys here))
        | inr there ↦ inr (
          (λ empty. let same = (bytes_beq_iff info.host_name []).1 empty in ground arith),
          by_name.0 (is_any_key-Shared named keys (ground arith)),
        )
      ]),
      λ h. elim h [
        | inl own_key ↦ let e = Shared-is_any_key own keys (by_key.1 own_key) in ground arith
        | inr (some_name, key) ↦
            let e = Shared-is_any_key named keys (by_name.1 key) in
            elim (Bool-cases (bytes_beq info.host_name [])) [
              | inl empty ↦ absurd (some_name ((bytes_beq_iff info.host_name []).0 empty))
              | inr full ↦ ground arith
            ]
      ],
    )

-- The servers that are added, in order: those that are not known.
abbrev pub AreAdded : Network → List Bytes → List ServerInfo → List Bytes → Type 0
AreAdded net hosts [] added = added ≡ []
AreAdded net hosts (info ∷ more) added =
    (IsKnown net hosts info × AreAdded net hosts more added)
    ⊎ ((IsKnown net hosts info → ⊥)
        × ((rest : List Bytes) × ((added ≡ info.host_port ∷ rest) × AreAdded net hosts more rest)))

add_discovered-AreAdded :
    (net : Network) (hosts merged : List Bytes) (discovered : List ServerInfo)
    → (added : List Bytes) × ((add_discovered net (static_keys net hosts) merged discovered
          ≡ merged ++ added)
        × AreAdded net hosts discovered added)
unfolding add_discovered
add_discovered-AreAdded net hosts merged [] = ([], (sym (append-nil merged), refl))
add_discovered-AreAdded net hosts merged (info ∷ more) =
    elim (Bool-cases (is_duplicate net (static_keys net hosts) info)) [
      | inl known ↦
          let (added, (e, h)) = add_discovered-AreAdded net hosts merged more in
          (added, (rw known e, inl ((is_duplicate-IsKnown net hosts info).0 known, h)))
      | inr new ↦
          let own = info.host_port ∷ [] in
          let (rest, (e, h)) = add_discovered-AreAdded net hosts (merged ++ own) more in
          (
            info.host_port ∷ rest,
            (
              rw new (e ∙ append_assoc merged own rest),
              inr (
                (λ k. let y = (is_duplicate-IsKnown net hosts info).1 k in ground arith),
                (rest, (refl, h)),
              ),
            ),
          )
    ]

-- The servers of NOCC_SERVERS keep their place and spelling, and behind them stand, in their order,
-- exactly the discovered servers that have a key with none of them in common. The keys of host:port,
-- each with the port behind, are the host in lower case, that without .local, and, if the host is no
-- address, the addresses that it resolves to; a discovered server with an instance name also has that
-- name in lower case. What has no port is its own only key, in lower case.
pub merge-AreAdded :
    (net : Network) (hosts : List Bytes) (discovered : List ServerInfo)
    → (added : List Bytes) × ((merge_with_static_hosts net hosts discovered ≡ hosts ++ added)
        × AreAdded net hosts discovered added)
unfolding merge_with_static_hosts
merge-AreAdded net hosts discovered = add_discovered-AreAdded net hosts hosts discovered
