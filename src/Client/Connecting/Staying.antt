-- ===== src/Client/Connecting/Staying.antt =====
-- That a reconnection of internal/client/daemon.go leaves the files with their servers.
use nocc.Client.Connecting.{
  Connection, make_remote_connection, reconnected, reconnect_each, reconnect_unavailable_remotes,
}
use nocc.Client.Daemon.{Daemon}
use nocc.Client.Routing.Choosing.{IsFirst, choose_remote-IsFirst}
use nocc.Client.Routing.{
  RemoteConnection, can_at, can_compile_with_cxx, start_index,
  choose_remote_connection_for_cpp_compilation,
}
use nocc.Prelude.{
  ℕ, zero, suc, ◌+◌, ◌%◌, Bool, true, false, Option, none, some, List, [], ◌∷◌, Bytes, ◌≡◌, ◌⊎◌,
  refl, sym, ap, subst, arith, ltb, nat_beq, nat_beq_iff, length, Bool-cases, inl, inr, ◌∙◌,
}

abbrev pub hosts : List RemoteConnection → List Bytes
hosts [] = []
hosts (r ∷ rs) = r.remote_host_port ∷ hosts rs

host-reconnected :
    (now : ℕ) (c : Connection) (r : RemoteConnection)
    → (reconnected now c r).remote_host_port ≡ r.remote_host_port
unfolding reconnected make_remote_connection
host-reconnected now c r = ground arith

reconnected_up :
    (now : ℕ) (c : Connection) (r : RemoteConnection)
    → r.is_unavailable ≡ false
    → reconnected now c r ≡ r
unfolding reconnected
reconnected_up now c r up = ground (arith, up)

module _ (now : ℕ → ℕ) (connect : ℕ → Connection) where
  hosts-reconnect_each :
      (n : ℕ) (rs : List RemoteConnection) → hosts (reconnect_each now connect n rs) ≡ hosts rs
  unfolding reconnect_each
  hosts-reconnect_each n [] = refl
  hosts-reconnect_each n (r ∷ rs) =
      rw (host-reconnected (now n) (connect n) r, hosts-reconnect_each (n + 1) rs) refl

  length-reconnect_each :
      (n : ℕ) (rs : List RemoteConnection) → length (reconnect_each now connect n rs) ≡ length rs
  unfolding reconnect_each
  length-reconnect_each n [] = refl
  length-reconnect_each n (r ∷ rs) = ap suc (length-reconnect_each (n + 1) rs)

  can_at-reconnect_each :
      (n : ℕ) (rs : List RemoteConnection) (cxx_name : Bytes) (coverage : Bool) (j : ℕ)
      → can_at rs cxx_name coverage j ≡ true
      → can_at (reconnect_each now connect n rs) cxx_name coverage j ≡ true
  unfolding reconnect_each can_compile_with_cxx
  can_at-reconnect_each n [] cxx_name coverage j can = can
  can_at-reconnect_each n (r ∷ rs) cxx_name coverage zero can =
      let up : r.is_unavailable ≡ false = ground arith in
      rw (reconnected_up (now n) (connect n) r up) can
  can_at-reconnect_each n (r ∷ rs) cxx_name coverage (suc j) can =
      can_at-reconnect_each (n + 1) rs cxx_name coverage j can

-- Of two first ones, where the second can do what the first can, the second comes no later.
first-first :
    (before after : ℕ → Bool) (n first bound i : ℕ) (o : Option ℕ)
    → ((j : ℕ) → before j ≡ true → after j ≡ true)
    → IsFirst before n (some i) first bound
    → IsFirst after n o first bound
    → (i' : ℕ) × (o ≡ some i') × ((i' ≡ i) ⊎ (before i' ≡ false))
first-first before after n first bound i none more (k, l, at, can, earlier) none_can =
    let no = none_can k l in
    let yes' = more i can in
    let no' : after i ≡ false = subst (λ x. after x ≡ false) (sym at) no in ground arith
first-first before after n first bound i (some i') more (k, l, at, can, earlier)
      (k', l', at', can', earlier') =
    elim (Bool-cases (ltb k' k)) [
      | inl sooner ↦
          (i', refl, inr (subst (λ x. before x ≡ false) (sym at') (earlier k' (ground arith))))
      | inr no_sooner ↦ elim (Bool-cases (nat_beq k k')) [
        | inl same ↦
            let e : k ≡ k' = (nat_beq_iff k k').0 same in
            (i', refl, inl (at' ∙ (ap (λ x. (first + x) % n) (sym e) ∙ sym at)))
        | inr other ↦
            let no = earlier' k (ground arith) in
            let no' : after i ≡ false = subst (λ x. after x ≡ false) (sym at) no in
            let yes' = more i can in ground arith
      ]
    ]

-- A reconnection keeps the servers in their places, and a file that had a server has one after it: the
-- same one, or one that could not take the file before.
pub reconnect-Stays :
    (now : ℕ → ℕ) (connect : ℕ → Connection) (d : Daemon) (file cxx_name : Bytes) (coverage : Bool)
    (i : ℕ)
    → choose_remote_connection_for_cpp_compilation d.remote_connections file cxx_name coverage
      ≡ some i
    → (hosts (reconnect_unavailable_remotes now connect d).remote_connections
        ≡ hosts d.remote_connections)
      × ((i' : ℕ) × (choose_remote_connection_for_cpp_compilation
              (reconnect_unavailable_remotes now connect d).remote_connections
              file
              cxx_name
              coverage
            ≡ some i')
          × ((i' ≡ i) ⊎ (can_at d.remote_connections cxx_name coverage i' ≡ false)))
unfolding reconnect_unavailable_remotes
reconnect-Stays now connect d file cxx_name coverage i chosen =
    let rs = d.remote_connections in
    let rs' = reconnect_each now connect 0 rs in
    let n = length-reconnect_each now connect 0 rs in
    let o = choose_remote_connection_for_cpp_compilation rs' file cxx_name coverage in
    let old =
      subst
        (λ x.
          IsFirst (can_at rs cxx_name coverage) (length rs) x (start_index file (length rs))
            (length rs))
        chosen (choose_remote-IsFirst rs file cxx_name coverage) in
    let new =
      subst (λ l. IsFirst (can_at rs' cxx_name coverage) l o (start_index file l) l) n
        (choose_remote-IsFirst rs' file cxx_name coverage) in
    (
      hosts-reconnect_each now connect 0 rs,
      first-first (can_at rs cxx_name coverage) (can_at rs' cxx_name coverage) (length rs)
          (start_index file (length rs)) (length rs) i o
          (can_at-reconnect_each now connect 0 rs cxx_name coverage) old new,
    )
