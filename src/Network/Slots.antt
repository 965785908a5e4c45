-- ===== src/Network/Slots.antt =====
-- The connection table of kernel/net/network.c: its invariant, and the two functions that open a
-- connection.
use homeserver_os.Base.{
  ℕ, zero, suc, List, [], ◌∷◌, none, ◌+◌, ◌<◌, ◌≤◌, ◌≡◌, ◌≢◌, ◌⊎◌, refl, ◌∙◌, false, arith, length,
  get_elem?, some, Option-cases, inl, inr, not,
}
use homeserver_os.Base.Int.{ℤ, pos, minus_one}
use homeserver_os.Base.Table.{find_index, update_at}
use homeserver_os.Base.Table.Search.{
  FoundAt, find_index-FoundAt, find_index-all, count_if-update_at,
}
use homeserver_os.Base.Table.Slots.{
  All, All-update_at, length-update_at, get_elem?-update_at, get_elem?-update_at_ne,
}
use homeserver_os.Network.{
  Network, Connection, Ipv4Addr, TcpState, listen, syn_sent, closed, max_connections, buffer_size,
  ◌is◌, is_closed, listen_on, connect_to, opened, tcp_listen, tcp_connect, get_active_connections,
}

-- A connection's buffer has its declared size, and no more of it is in use.
pub record IsSlot (c : Connection) : Type 0 where
  pub size : length c.buffer ≡ buffer_size
  pub fits : c.buffer_len ≤ buffer_size

-- Between two calls.
pub record IsValid (s : Network) : Type 0 where
  pub storage : length s.connections ≡ max_connections
  pub slots : All IsSlot s.connections

-- The two ways to open a connection.
pub data Opening : Type 0 where
  listening : (port : ℕ) → Opening
  connecting : (remote_ip : Ipv4Addr) (remote_port : ℕ) → Opening

abbrev pub open_by : Opening → Network → ℤ × Network
open_by (listening port) = tcp_listen port
open_by (connecting remote_ip remote_port) = tcp_connect remote_ip remote_port

abbrev pub stores : Opening → Ipv4Addr → Connection → Connection
stores (listening port) ip = listen_on ip port
stores (connecting remote_ip remote_port) ip = connect_to ip remote_ip remote_port

-- The state that an opening gives, and the ports and addresses that it leaves in the connection.
abbrev pub first_state : Opening → TcpState
first_state (listening port) = listen
first_state (connecting remote_ip remote_port) = syn_sent

abbrev pub Addressed : Opening → Ipv4Addr → Connection → Type 0
Addressed (listening port) ip c = (c.local_ip ≡ ip) × (c.local_port ≡ port)
Addressed (connecting remote_ip remote_port) ip c =
    (c.local_ip ≡ ip) × (c.remote_ip ≡ remote_ip) × (c.remote_port ≡ remote_port)

pub stores-state :
    (o : Opening) (ip : Ipv4Addr) (c : Connection)
    → ((stores o ip c).state ≡ first_state o) × Addressed o ip (stores o ip c)
unfolding listen_on connect_to
stores-state (listening port) ip c = (refl, (refl, refl))
stores-state (connecting remote_ip remote_port) ip c = (refl, (refl, refl, refl))

pub stores-IsSlot :
    (o : Opening) (ip : Ipv4Addr) (c : Connection) → IsSlot c → IsSlot (stores o ip c)
unfolding listen_on connect_to
stores-IsSlot (listening port) ip c h = record { size = h.size; fits = h.fits }
stores-IsSlot (connecting remote_ip remote_port) ip c h = record { size = h.size; fits = h.fits }

pub open_by-opened :
    (o : Opening) (s : Network)
    → open_by o s
      ≡ opened (stores o s.local_ip) s (find_index is_closed max_connections s.connections)
unfolding tcp_listen tcp_connect
open_by-opened (listening port) s = refl
open_by-opened (connecting remote_ip remote_port) s = refl

first_state_open : (o : Opening) (c : Connection) → c.state ≡ first_state o → is_closed c ≡ false
first_state_open (listening port) c e = rw e refl
first_state_open (connecting remote_ip remote_port) c e = rw e refl

-- What an opening of the connection `i` leaves.
pub record Opened (o : Opening) (i : ℕ) (s t : Network) : Type 0 where
  pub in_range : i < max_connections
  pub lowest : FoundAt is_closed s.connections i
  pub connection : Connection
  pub found : get_elem? t.connections i ≡ some connection
  pub state : connection.state ≡ first_state o
  pub addressed : Addressed o s.local_ip connection
  pub others : (j : ℕ) → j ≢ i → get_elem? t.connections j ≡ get_elem? s.connections j
  pub active : get_active_connections t ≡ get_active_connections s + 1
  pub valid : IsValid t

stores-Opened :
    (o : Opening) (s : Network) (i : ℕ)
    → IsValid s
    → i < max_connections
    → FoundAt is_closed s.connections i
    → Opened o i s (record s { connections = update_at i (stores o s.local_ip) s.connections })
unfolding get_active_connections
stores-Opened o s i v lt f =
    let change = stores o s.local_ip in
    let (state, addressed) = stores-state o s.local_ip f.entry in
    let open_now : is_closed (change f.entry) ≡ false = first_state_open o (change f.entry) state in
    let counted =
      count_if-update_at (λ c. not (is_closed c)) max_connections i change s.connections lt
        f.here in
    record {
      in_range = lt;
      lowest = f;
      connection = change f.entry;
      found = get_elem?-update_at i change s.connections f.here;
      state = state;
      addressed = addressed;
      others = λ j ne. get_elem?-update_at_ne i j change s.connections ne;
      active = omega (arith, rw (f.passes, open_now) at counted);
      valid = record {
        storage = length-update_at i change s.connections ∙ v.storage;
        slots = All-update_at IsSlot i change (stores-IsSlot o s.local_ip) s.connections v.slots;
      };
    }

find_closed-none :
    (n : ℕ) (cs : List Connection)
    → All (λ c. (c.state is closed) ≡ false) cs
    → find_index is_closed n cs ≡ none
unfolding find_index
find_closed-none zero cs h = refl
find_closed-none (suc n) [] h = refl
find_closed-none (suc n) (c ∷ cs) h = rw (h.0, find_closed-none n cs h.1) refl

pub open_by-minus_one :
    (o : Opening) (s : Network)
    → All (λ c. (c.state is closed) ≡ false) s.connections
    → open_by o s ≡ (minus_one, s)
unfolding opened
open_by-minus_one o s h =
    open_by-opened o s ∙ rw (find_closed-none max_connections s.connections h) refl

-- `tcp_listen` and `tcp_connect` open the lowest connection that is closed and return its number; the
-- connection has the state and the addresses of the call, no other changes, and one more is active.
-- Where none is closed they return -1 and change nothing.
pub open_by-Opened :
    (o : Opening) (s : Network)
    → IsValid s
    → ((i : ℕ) × (t : Network) × (open_by o s ≡ (pos i, t)) × Opened o i s t)
      ⊎ (((k : ℕ) (c : Connection)
            → k < max_connections
            → get_elem? s.connections k ≡ some c
            → is_closed c ≡ false)
          × (open_by o s ≡ (minus_one, s)))
unfolding opened
open_by-Opened o s v = elim (Option-cases (find_index is_closed max_connections s.connections)) [
  | inl e ↦ inr (
    find_index-all is_closed max_connections s.connections e,
    open_by-opened o s ∙ rw (e, opened) refl,
  )
  | inr (i, e) ↦
      let (lt, f) = find_index-FoundAt is_closed max_connections s.connections e in
      inl (
        i,
        record s { connections = update_at i (stores o s.local_ip) s.connections },
        open_by-opened o s ∙ rw (e, opened) refl,
        stores-Opened o s i v lt f,
      )
]
