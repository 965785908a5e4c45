-- ===== src/Network/Reach.antt =====
-- The histories of kernel/net/network.c: what any sequence of its calls leaves in the table.
use homeserver_os.Base.{
  ℕ, ◌≡◌, refl, false, List, [], ◌∷◌, suc, get_elem?, some, none, Option, Option-cases, Bool-cases,
  inl, inr,
}
use homeserver_os.Base.Int.{ℤ, minus_one, rounds}
use homeserver_os.Base.Table.{find_index}
use homeserver_os.Base.Table.Slots.{All, All-update_at, All-get_elem?}
use homeserver_os.Network.{
  Network, Connection, Ipv4Addr, MacAddr, TcpState, listen, syn_sent, fin_wait, established, closed,
  ◌is◌, max_connections, is_closed, is_slot, init, close_from, opened, tcp_send, tcp_receive,
  tcp_close, established_at, only_established, fill_buffer, at_most, buffer_size,
}
use homeserver_os.Network.Slots.{
  Opening, listening, connecting, open_by, first_state, stores, stores-state, open_by-opened,
  open_by-minus_one,
}

-- One call of a function that writes the table, other than `network_init`.
pub data Step (s : Network) : Network → Type 0 where
  opening : (o : Opening) → Step s (open_by o s).1
  sending : (conn_id : ℤ) (bytes : List ℕ) (len : ℕ) → Step s (tcp_send conn_id bytes len s).1
  closing : (conn_id : ℤ) → Step s (tcp_close conn_id s)

pub data Reach (s : Network) : Network → Type 0 where
  here : Reach s s
  next : {t u : Network} → Reach s t → Step t u → Reach s u

-- The three states that the functions store.
module _ (P : TcpState → Type 0) (lis : P listen) (syn : P syn_sent) (fin : P fin_wait) where
  abbrev Everywhere : Network → Type 0
  Everywhere s = All (λ c. P c.state) s.connections

  first : (o : Opening) → P (first_state o)
  first (listening port) = lis
  first (connecting remote_ip remote_port) = syn

  opened-Everywhere :
      (o : Opening) (s : Network) (r : Option ℕ)
      → Everywhere s
      → Everywhere (opened (stores o s.local_ip) s r).1
  unfolding opened
  opened-Everywhere o s none h = h
  opened-Everywhere o s (some i) h =
      All-update_at (λ c. P c.state) i (stores o s.local_ip)
        (λ c p. rw ((stores-state o s.local_ip c).0) (first o)) s.connections h

  tcp_send-Everywhere :
      (conn_id : ℤ) (bytes : List ℕ) (len : ℕ) (s : Network)
      → Everywhere s
      → Everywhere (tcp_send conn_id bytes len s).1
  unfolding tcp_send
  tcp_send-Everywhere conn_id bytes len s h = elim (Option-cases (established_at conn_id s)) [
    | inl e ↦ rw (e, tcp_send) h
    | inr (c, e) ↦
        let n = at_most buffer_size len in
        rw (e, tcp_send)
          (All-update_at (λ c. P c.state) (rounds conn_id) (fill_buffer bytes n)
            (λ c p. unfold fill_buffer in p) s.connections h)
  ]

  tcp_close-Everywhere :
      (conn_id : ℤ) (s : Network) → Everywhere s → Everywhere (tcp_close conn_id s)
  unfolding tcp_close
  tcp_close-Everywhere conn_id s h = elim (Bool-cases (is_slot conn_id)) [
    | inl e ↦ rw e (
        All-update_at (λ c. P c.state) (rounds conn_id) (λ c. record c { state = fin_wait })
          (λ c p. fin) s.connections h)
    | inr e ↦ rw e h
  ]

  Step-Everywhere : {s t : Network} → Step s t → Everywhere s → Everywhere t
  Step-Everywhere {s} (opening o) h =
      rw (open_by-opened o s)
        (opened-Everywhere o s (find_index is_closed max_connections s.connections) h)
  Step-Everywhere {s} (sending conn_id bytes len) h = tcp_send-Everywhere conn_id bytes len s h
  Step-Everywhere {s} (closing conn_id) h = tcp_close-Everywhere conn_id s h

  Reach-Everywhere : {s t : Network} → Reach s t → Everywhere s → Everywhere t
  Reach-Everywhere here h = h
  Reach-Everywhere (next r st) h = Step-Everywhere st (Reach-Everywhere r h)

abbrev IsIdle : TcpState → Type 0
IsIdle q = (q is established) ≡ false

close_from-IsIdle : (i : ℕ) (cs : List Connection) → All (λ c. IsIdle c.state) (close_from i cs)
unfolding close_from
close_from-IsIdle i [] = tt
close_from-IsIdle i (c ∷ cs) = (refl, close_from-IsIdle (suc i) cs)

only_established-none :
    (r : Option Connection)
    → ((c : Connection) → r ≡ some c → IsIdle c.state)
    → only_established r ≡ none
only_established-none none h = refl
only_established-none (some c) h = rw (h c refl) refl

established_at-none :
    (conn_id : ℤ) (s : Network)
    → All (λ c. IsIdle c.state) s.connections
    → established_at conn_id s ≡ none
unfolding established_at
established_at-none conn_id s h = elim (Bool-cases (is_slot conn_id)) [
  | inl e ↦ rw e (
      only_established-none (get_elem? s.connections (rounds conn_id))
        (λ c q. All-get_elem? (λ c. IsIdle c.state) (rounds conn_id) s.connections h q))
  | inr e ↦ rw e refl
]

-- After `network_init` and any sequence of calls no connection is established, since no function
-- stores that state: `tcp_send` and `tcp_receive` return -1 on every number, and neither the table
-- nor the caller's buffer is written.
pub Reach-no_transfer :
    (ip : Ipv4Addr) (mac : MacAddr) (s : Network) {t : Network}
    → Reach (init ip mac s) t
    → (conn_id : ℤ) (bytes : List ℕ) (len : ℕ)
    → (tcp_send conn_id bytes len t ≡ (minus_one, t))
      × (tcp_receive conn_id bytes len t ≡ (minus_one, bytes))
unfolding init tcp_send tcp_receive
Reach-no_transfer ip mac s {t} r conn_id bytes len =
    let q =
      established_at-none conn_id t
        (Reach-Everywhere IsIdle refl refl refl r (close_from-IsIdle 0 s.connections)) in
    (rw (q, tcp_send) refl, rw (q, tcp_receive) refl)

abbrev IsOpen : TcpState → Type 0
IsOpen q = (q is closed) ≡ false

-- When all connections are in use, `tcp_listen` and `tcp_connect` return -1 and change nothing after
-- any sequence of calls of `tcp_listen`, `tcp_connect`, `tcp_send` and `tcp_close`, the last on each
-- of them included. `network_init`, which closes all connections, is not among these calls.
pub Reach-exhausted :
    {s t : Network}
    → Reach s t
    → All (λ c. IsOpen c.state) s.connections
    → (o : Opening) → open_by o t ≡ (minus_one, t)
Reach-exhausted {s} {t} r h o = open_by-minus_one o t (Reach-Everywhere IsOpen refl refl refl r h)
