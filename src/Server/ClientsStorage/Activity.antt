-- ===== src/Server/ClientsStorage/Activity.antt =====
-- The removal of inactive clients in internal/server/clients-storage.go.
use mathlib.Core.Option.{some-injective}
use nocc.Prelude.Dict.{
  Dict, get, delete, IsMap, delete-IsMap, length-delete, get-delete_ne, get-delete_self,
}
use nocc.Prelude.Maybe.{returns}
use nocc.Prelude.{
  ℕ, zero, suc, ◌-◌, ◌≤◌, ◌<◌, none, some, [], ◌∷◌, Bytes, ◌≡◌, inl, inr, refl, arith,
  bytes_comparable, bytes_beq_iff, ltb, length, Bool-cases, Option-cases, bytes_beq, sym, ap, ◌∙◌,
}
use nocc.Server.Client.{Client}
use nocc.Server.ClientsStorage.{ClientsStorage, find_inactive, delete_client, delete_each_inactive}

-- Each client stands under its own id, once.
abbrev pub IsKeyed : Dict Bytes Client → Type 0
IsKeyed [] = Unit
IsKeyed ((id, c) ∷ m) = (c.client_id ≡ id) × IsKeyed m

-- All clients were seen within the timeout.
abbrev pub AllSeen : ℕ → ℕ → Dict Bytes Client → Type 0
AllSeen now timeout [] = Unit
AllSeen now timeout ((id, c) ∷ m) = (now - c.last_seen ≤ timeout) × AllSeen now timeout m

find_inactive-none :
    (now timeout : ℕ) (m : Dict Bytes Client)
    → find_inactive now timeout m ≡ none
    → AllSeen now timeout m
unfolding find_inactive
find_inactive-none now timeout [] e = tt
find_inactive-none now timeout ((id, c) ∷ m) e =
    (ground arith, find_inactive-none now timeout m (ground arith))

-- What the loop finds stands in the table, under its own id, and was not seen for long.
find_inactive-some :
    (now timeout : ℕ) (m : Dict Bytes Client) {c : Client}
    → IsKeyed m
    → IsMap m
    → find_inactive now timeout m ≡ some c
    → (get c.client_id m ≡ some c) × (timeout < now - c.last_seen)
unfolding find_inactive get
find_inactive-some now timeout [] k u e = cc e
find_inactive-some now timeout ((id, d) ∷ m) {c} k u e =
    elim (Bool-cases (ltb timeout (now - d.last_seen))) [
      | inl old ↦
          returns
            (λ (x : Client).
              (get x.client_id ((id, d) ∷ m) ≡ some x) × (timeout < now - x.last_seen))
            (rw (old, find_inactive) at e)
            (ground (arith, bytes_beq_iff id d.client_id, k.0), ground arith)
      | inr fresh ↦
          let (found, late) =
            find_inactive-some now timeout m k.1 u.1 (rw (fresh, find_inactive) at e) in
          (ground (arith, bytes_beq_iff id c.client_id, found, u.0), late)
    ]

delete-IsKeyed : (id : Bytes) (m : Dict Bytes Client) → IsKeyed m → IsKeyed (delete id m)
unfolding delete
delete-IsKeyed id [] k = tt
delete-IsKeyed id ((j, c) ∷ m) k = elim (Bool-cases (bytes_beq j id)) [
  | inl same ↦ rw same k.1
  | inr other ↦ rw other (k.0, delete-IsKeyed id m k.1)
]

-- What is left of a table `m` when the clients not seen for too long are gone.
pub record Purged (now timeout : ℕ) (m n : Dict Bytes Client) : Type 0 where
  pub seen : AllSeen now timeout n
  pub kept :
      (id : Bytes) (c : Client)
      → get id m ≡ some c
      → now - c.last_seen ≤ timeout
      → get id n ≡ some c
  pub only : (id : Bytes) (c : Client) → get id n ≡ some c → get id m ≡ some c

done-Purged :
    (now timeout : ℕ) (m : Dict Bytes Client)
    → find_inactive now timeout m ≡ none
    → Purged now timeout m m
done-Purged now timeout m e = record {
  seen = find_inactive-none now timeout m e;
  kept = λ id c g l. g;
  only = λ id c g. g;
}

step-Purged :
    (now timeout : ℕ) (m n : Dict Bytes Client) (c : Client)
    → IsMap m
    → get c.client_id m ≡ some c
    → timeout < now - c.last_seen
    → Purged now timeout (delete c.client_id m) n
    → Purged now timeout m n
step-Purged now timeout m n c u found late p = record {
  seen = p.seen;
  kept = λ id d g l. elim (Bool-cases (bytes_beq c.client_id id)) [
    | inl same ↦
        let e : c.client_id ≡ id = (bytes_beq_iff c.client_id id).0 same in
        let f : some c ≡ some d = cc (found, g, e) in
        absurd (omega (arith, late, l, ap (λ (x : Client). x.last_seen) (some-injective c d f)))
    | inr other ↦
        p.kept id d
          (get-delete_ne c.client_id id m
              (λ e. ground (arith, other, bytes_beq_iff c.client_id id, e))
            ∙ g)
          l
  ];
  only = λ id d g. elim (Bool-cases (bytes_beq c.client_id id)) [
    | inl same ↦
        let e : c.client_id ≡ id = (bytes_beq_iff c.client_id id).0 same in
        cc (get-delete_self c.client_id m u, p.only id d g, e)
    | inr other ↦
        sym (
          get-delete_ne c.client_id id m
            (λ e. ground (arith, other, bytes_beq_iff c.client_id id, e)))
        ∙ p.only id d g
  ];
}

-- The loop of DeleteInactiveClients ends within one round more than there are clients: then all that
-- are left were seen within the timeout, all of these were kept, and nothing else changed in the
-- table. Each client stands under its own id, once.
pub delete_each_inactive-Purged :
    (fuel now : ℕ) (a : ClientsStorage)
    → length a.table < fuel
    → IsKeyed a.table
    → IsMap a.table
    → (b : ClientsStorage) × (delete_each_inactive fuel now a ≡ some b)
      × Purged now a.check_inactive_timeout a.table b.table
unfolding delete_each_inactive delete_client
delete_each_inactive-Purged zero now a l k u = absurd (omega (arith, l))
delete_each_inactive-Purged (suc fuel) now a l k u =
    elim (Option-cases (find_inactive now a.check_inactive_timeout a.table)) [
      | inl nobody ↦ (
        a,
        rw (nobody, delete_each_inactive) refl,
        done-Purged now a.check_inactive_timeout a.table nobody,
      )
      | inr (c, idle) ↦
          let (found, late) = find_inactive-some now a.check_inactive_timeout a.table k u idle in
          let (b, ended, p) =
            delete_each_inactive-Purged fuel now (delete_client a c)
              (omega (arith, l, length-delete c.client_id a.table found))
              (delete-IsKeyed c.client_id a.table k) (delete-IsMap c.client_id a.table u) in
          (
            b,
            rw (idle, delete_each_inactive) ended,
            step-Purged now a.check_inactive_timeout a.table b.table c u found late p,
          )
    ]
