-- ===== src/Discovery/Keys.antt =====
-- internal/discovery/merge.go: what the keys of hostPortKeys are, said without its lists.
use nocc.Discovery.{
  Network, to_lower, with_port, each_with_port, short_keys, keys_at, host_port_keys, static_keys,
}
use nocc.Prelude.Text.{ascii, trim_suffix}
use nocc.Prelude.{
  Bool, true, false, none, some, List, [], ◌∷◌, ◌++◌, Bytes, bytes_beq, bytes_beq_iff, IsIn, ◌≡◌,
  ◌⊎◌, ◌↔◌, inl, inr, refl, sym, ◌∙◌, ap, Bool-cases, Option-cases, arith, length, length-append,
  if◌then◌else◌, ◌<◌, ℕ, suc, subst,
}

-- A key of a host with a port, in lower case: the host as written, without .local, or an address that
-- it resolves to.
abbrev pub IsKeyAt : Network → Bytes → Bytes → Bytes → Type 0
IsKeyAt net host port key =
    (key ≡ with_port (to_lower host) port)
    ⊎ (((short : Bytes) × ((to_lower host ≡ short ++ ascii ".local")
            × (key ≡ with_port short port)))
        ⊎ ((net.is_ip host ≡ false)
            × ((address : Bytes) × (IsIn address (net.lookup_host host)
                  × (key ≡ with_port address port)))))

-- A key of a spelling: of its host and port, or the spelling if it has no port.
abbrev pub IsKeyOf : Network → Bytes → Bytes → Type 0
IsKeyOf net host_port key =
    ((net.split_host_port host_port ≡ none) × (key ≡ to_lower host_port))
    ⊎ ((host : Bytes) × ((port : Bytes) × ((net.split_host_port host_port ≡ some (host, port))
            × IsKeyAt net host port key)))

-- A key of one of the servers of a list.
abbrev pub IsKeyOfSome : Network → List Bytes → Bytes → Type 0
IsKeyOfSome net hosts key = (host : Bytes) × (IsIn host hosts × IsKeyOf net host key)

-- A list that goes on behind another one is not that one.
longer-false : (u t : Bytes) → 0 < length t → bytes_beq u (u ++ t) ≡ false
longer-false u t more = elim (Bool-cases (bytes_beq u (u ++ t))) [
  | inl same ↦
      let e : length u ≡ length (u ++ t) = ap length ((bytes_beq_iff u (u ++ t)).0 same) in
      absurd (omega (arith, e, more, length-append u t))
  | inr other ↦ other
]

behind-false : (x : ℕ) (u t : Bytes) → bytes_beq (x ∷ (u ++ t)) t ≡ false
behind-false x u t = elim (Bool-cases (bytes_beq (x ∷ (u ++ t)) t)) [
  | inl same ↦
      let e : suc (length (u ++ t)) ≡ length t =
        ap length ((bytes_beq_iff (x ∷ (u ++ t)) t).0 same) in
      absurd (omega (arith, e, length-append u t))
  | inr other ↦ other
]

trim_suffix-cut : (s t : Bytes) → bytes_beq (trim_suffix s t) s ≡ false → s ≡ trim_suffix s t ++ t
unfolding trim_suffix
trim_suffix-cut [] t e = ground arith
trim_suffix-cut (x ∷ s) t e = elim (Bool-cases (bytes_beq (x ∷ s) t)) [
  | inl whole ↦ rw whole ((bytes_beq_iff (x ∷ s) t).0 whole)
  | inr part ↦
      let step : trim_suffix (x ∷ s) t ≡ x ∷ trim_suffix s t = rw part refl in
      let inner : bytes_beq (trim_suffix s t) s ≡ false =
        elim (Bool-cases (bytes_beq (trim_suffix s t) s)) [
          | inl same ↦
              let uncut = step ∙ ap (λ r. x ∷ r) ((bytes_beq_iff (trim_suffix s t) s).0 same) in
              let whole = (bytes_beq_iff (trim_suffix (x ∷ s) t) (x ∷ s)).1 uncut in ground arith
          | inr other ↦ other
        ] in
      rw part (ap (λ r. x ∷ r) (trim_suffix-cut s t inner))
]

trim_suffix-append : (u t : Bytes) → 0 < length t → trim_suffix (u ++ t) t ≡ u
unfolding trim_suffix
trim_suffix-append [] [] more = absurd (omega (arith, more))
trim_suffix-append [] (c ∷ t) more =
    let same = (bytes_beq_iff (c ∷ t) (c ∷ t)).1 refl in rw same refl
trim_suffix-append (x ∷ u) t more =
    rw (behind-false x u t) (ap (λ r. x ∷ r) (trim_suffix-append u t more))

IsIn-append : (key : Bytes) (xs ys : List Bytes) → IsIn key (xs ++ ys) ↔ (IsIn key xs ⊎ IsIn key ys)
IsIn-append key [] ys = ((λ i. inr i), λ h. elim h [ inl i ↦ absurd i | inr j ↦ j ])
IsIn-append key (x ∷ xs) ys = ground (arith, IsIn-append key xs ys)

each_with_port-IsIn :
    (key port : Bytes) (hosts : List Bytes)
    → IsIn key (each_with_port hosts port)
      ↔ ((host : Bytes) × (IsIn host hosts × (key ≡ with_port host port)))
unfolding each_with_port
each_with_port-IsIn key port [] = ((λ i. absurd i), λ h. absurd h.1.0)
each_with_port-IsIn key port (host ∷ hosts) =
    let rest = each_with_port-IsIn key port hosts in
    (
      (λ i. elim i [
        | inl here ↦ (host, (inl refl, sym here))
        | inr there ↦ let (at, (j, e)) = rest.0 there in (at, (inr j, e))
      ]),
      λ h.
          let (at, (j, e)) = h in
          elim j [
            | inl here ↦ inl (ap (λ a. with_port a port) here ∙ sym e)
            | inr there ↦ inr (rest.1 (at, (there, e)))
          ],
    )

abbrev local : Bytes
local = ascii ".local"

short_keys-IsIn :
    (key host port : Bytes)
    → IsIn key (short_keys host port)
      ↔ ((short : Bytes) × ((host ≡ short ++ local) × (key ≡ with_port short port)))
unfolding short_keys
short_keys-IsIn key host port =
    let cut = trim_suffix host local in
    (
      (λ i. elim (Bool-cases (bytes_beq cut host)) [
        | inl same ↦
            let none_cut : short_keys host port ≡ [] = rw same refl in
            absurd (subst (λ l. IsIn key l) none_cut i)
        | inr other ↦
            let one : short_keys host port ≡ with_port cut port ∷ [] = rw other refl in
            elim (subst (λ l. IsIn key l) one i) [
              | inl here ↦ (cut, (trim_suffix-cut host local other, sym here))
              | inr there ↦ absurd there
            ]
      ]),
      λ h.
          let (short, (e, k)) = h in
          let f : cut ≡ short =
            subst (λ s. trim_suffix s local ≡ short) (sym e)
              (trim_suffix-append short local (omega arith)) in
          let other : bytes_beq cut host ≡ false =
            rw (f, e) (longer-false short local (omega arith)) in
          let one : short_keys host port ≡ with_port cut port ∷ [] = rw other refl in
          subst (λ l. IsIn key l) (sym one) (inl (ap (λ s. with_port s port) f ∙ sym k)),
    )

unless-IsIn :
    (b : Bool) (key : Bytes) (l : List Bytes)
    → IsIn key (if b then [] else l) ↔ ((b ≡ false) × IsIn key l)
unless-IsIn true key l = ground arith
unless-IsIn false key l = ground arith

keys_at-IsIn :
    (net : Network) (host port key : Bytes)
    → IsIn key (keys_at net host port) ↔ IsKeyAt net host port key
unfolding keys_at
keys_at-IsIn net host port key =
    let addresses = each_with_port (net.lookup_host host) port in
    let resolved = if net.is_ip host then [] else addresses in
    let short = short_keys-IsIn key (to_lower host) port in
    let split = IsIn-append key (short_keys (to_lower host) port) resolved in
    let unless = unless-IsIn (net.is_ip host) key addresses in
    let each = each_with_port-IsIn key port (net.lookup_host host) in
    (
      (λ i. elim i [
        | inl here ↦ inl (sym here)
        | inr there ↦ elim (split.0 there) [
          | inl s ↦ inr (inl (short.0 s))
          | inr a ↦ inr (inr ((unless.0 a).0, each.0 (unless.0 a).1))
        ]
      ]),
      λ h. elim h [
        | inl here ↦ inl (sym here)
        | inr (inl s) ↦ inr (split.1 (inl (short.1 s)))
        | inr (inr (n, a)) ↦ inr (split.1 (inr (unless.1 (n, each.1 a))))
      ],
    )

pub host_port_keys-IsIn :
    (net : Network) (host_port key : Bytes)
    → IsIn key (host_port_keys net host_port) ↔ IsKeyOf net host_port key
unfolding host_port_keys
host_port_keys-IsIn net host_port key = elim (Option-cases (net.split_host_port host_port)) [
  | inl unsplit ↦
      let e : host_port_keys net host_port ≡ to_lower host_port ∷ [] =
        rw (unsplit, host_port_keys) refl in
      (
        (λ i. elim (subst (λ l. IsIn key l) e i) [
          | inl here ↦ inl (unsplit, sym here)
          | inr there ↦ absurd there
        ]),
        λ h. elim h [
          | inl (n, k) ↦ subst (λ l. IsIn key l) (sym e) (inl (sym k))
          | inr (host, (port, (s, k))) ↦ ground arith
        ],
      )
  | inr ((host, port), s) ↦
      let e : host_port_keys net host_port ≡ keys_at net host port = rw (s, host_port_keys) refl in
      (
        (λ i.
            inr (
              host,
              (port, (s, (keys_at-IsIn net host port key).0 (subst (λ l. IsIn key l) e i))),
            )),
        λ h. elim h [
          | inl (n, k) ↦ ground arith
          | inr (at, (door, (s2, k))) ↦
              let f : host_port_keys net host_port ≡ keys_at net at door =
                rw (s2, host_port_keys) refl in
              subst (λ l. IsIn key l) (sym f) ((keys_at-IsIn net at door key).1 k)
        ],
      )
]

pub static_keys-IsIn :
    (net : Network) (hosts : List Bytes) (key : Bytes)
    → IsIn key (static_keys net hosts) ↔ IsKeyOfSome net hosts key
unfolding static_keys
static_keys-IsIn net [] key = ((λ i. absurd i), λ h. absurd h.1.0)
static_keys-IsIn net (host ∷ hosts) key =
    let rest = static_keys-IsIn net hosts key in
    let own = host_port_keys-IsIn net host key in
    let split = IsIn-append key (host_port_keys net host) (static_keys net hosts) in
    (
      (λ i. elim (split.0 i) [
        | inl here ↦ (host, (inl refl, own.0 here))
        | inr there ↦ let (at, (j, k)) = rest.0 there in (at, (inr j, k))
      ]),
      λ h.
          let (at, (j, k)) = h in
          elim j [
            | inl here ↦ split.1 (inl (own.1 (subst (λ a. IsKeyOf net a key) (sym here) k)))
            | inr there ↦ split.1 (inr (rest.1 (at, (there, k))))
          ],
    )
