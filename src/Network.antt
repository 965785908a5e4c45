-- ===== src/Network.antt =====
-- kernel/net/network.c: the checksum of a packet, and the table of TCP connections. The static
-- variables of the file are the fields of `Network`. The header structures of the file are used by
-- none of its functions.
pub mod Checksum
pub mod Slots
pub mod Reach
pub mod Transfer
mod Tests
use homeserver_os.Base.{
  ℕ, zero, suc, ◌+◌, ◌-◌, ◌*◌, ◌/◌, ◌%◌, ◌^◌, Bool, true, false, not, List, [], ◌∷◌, Option, none,
  some, ◌==◌, ltb, leb, if◌then◌else◌, get_elem?,
}
use homeserver_os.Base.Int.{ℤ, pos, negsuc, minus_one, at_least, rounds, to_int}
use homeserver_os.Base.Table.{find_index, update_at, count_if, copy_out}
use mathlib.Core.Option

-- MAX_CONNECTIONS and BUFFER_SIZE
abbrev pub max_connections : ℕ
max_connections = 64

abbrev pub buffer_size : ℕ
buffer_size = 1500

-- `ipv4_addr_t` and `mac_addr_t`
pub record Ipv4Addr : Type 0 where
  pub octet : List ℕ  -- uint8_t[4]

pub record MacAddr : Type 0 where
  pub octet : List ℕ  -- uint8_t[6]

-- `tcp_state_t`
pub data TcpState : Type 0 where
  closed listen syn_sent syn_received established fin_wait close_wait closing time_wait : TcpState

-- The values that C gives the states, which it compares.
abbrev pub state_value : TcpState → ℕ
state_value closed = 0
state_value listen = 1
state_value syn_sent = 2
state_value syn_received = 3
state_value established = 4
state_value fin_wait = 5
state_value close_wait = 6
state_value closing = 7
state_value time_wait = 8

infix 50 ◌is◌
abbrev pub ◌is◌ : TcpState → TcpState → Bool
a is b = state_value a == state_value b

-- `tcp_connection_t`
pub record Connection : Type 0 where
  pub id : ℕ  -- uint32_t
  pub state : TcpState
  pub local_ip : Ipv4Addr
  pub remote_ip : Ipv4Addr
  pub local_port : ℕ  -- uint16_t
  pub remote_port : ℕ  -- uint16_t
  pub seq_num : ℕ  -- uint32_t
  pub ack_num : ℕ  -- uint32_t
  pub buffer : List ℕ  -- uint8_t[BUFFER_SIZE]
  pub buffer_len : ℕ  -- uint32_t

-- The static variables of the file.
pub record Network : Type 0 where
  pub connections : List Connection  -- [MAX_CONNECTIONS]
  pub local_ip : Ipv4Addr
  pub local_mac : MacAddr

-- The loop of `network_init`, at the rest of the array from `i` on.
unfoldable pub close_from : ℕ → List Connection → List Connection
close_from i [] = []
close_from i (c ∷ cs) = record c { state = closed; id = i } ∷ close_from (suc i) cs

-- `network_init`
unfoldable pub init : Ipv4Addr → MacAddr → Network → Network
init ip mac s = record { connections = close_from 0 s.connections; local_ip = ip; local_mac = mac }

-- The first loop of `calculate_checksum`, and the odd byte behind it. The data is the list of its
-- `len` bytes; the machine reads a word with its low byte first.
unfoldable pub add_words : ℕ → List ℕ → ℕ
add_words sum [] = sum
add_words sum (b ∷ []) = (sum + b) % 2 ^ 32
add_words sum (b ∷ c ∷ more) = add_words ((sum + (b + c * 256)) % 2 ^ 32) more

-- `while (sum >> 16) sum = (sum & 0xFFFF) + (sum >> 16);` `none` means that the fuel ran out.
unfoldable pub fold_carry : ℕ → ℕ → Option ℕ
fold_carry zero sum = none
fold_carry (suc fuel) sum = elim (sum / 2 ^ 16 == 0) [
  | true ↦ some sum
  | false ↦ fold_carry fuel ((sum % 2 ^ 16 + sum / 2 ^ 16) % 2 ^ 32)
]

-- `~sum`, as a uint16_t
abbrev pub complement : ℕ → ℕ
complement sum = (2 ^ 32 - 1 - sum) % 2 ^ 16

-- `calculate_checksum`
unfoldable pub checksum : List ℕ → Option ℕ
checksum bytes = Option.map complement (fold_carry 3 (add_words 0 bytes))

-- `connections[i].state == CONN_CLOSED`
abbrev pub is_closed : Connection → Bool
is_closed c = c.state is closed

-- The two ways out of the loops of `tcp_listen` and `tcp_connect`, which open the first closed
-- connection by the stores `f`.
unfoldable pub opened : (Connection → Connection) → Network → Option ℕ → ℤ × Network
opened f s none = (minus_one, s)
opened f s (some i) = (pos i, record s { connections = update_at i f s.connections })

unfoldable pub listen_on : Ipv4Addr → ℕ → Connection → Connection
listen_on ip port c = record c { state = listen; local_port = port; local_ip = ip }

unfoldable pub connect_to : Ipv4Addr → Ipv4Addr → ℕ → Connection → Connection
connect_to ip remote_ip remote_port c = record c {
  state = syn_sent;
  remote_ip = remote_ip;
  remote_port = remote_port;
  local_ip = ip;
}

-- `tcp_listen`
unfoldable pub tcp_listen : ℕ → Network → ℤ × Network
tcp_listen port s =
    opened (listen_on s.local_ip port) s (find_index is_closed max_connections s.connections)

-- `tcp_connect`
unfoldable pub tcp_connect : Ipv4Addr → ℕ → Network → ℤ × Network
tcp_connect remote_ip remote_port s =
    opened (connect_to s.local_ip remote_ip remote_port) s
      (find_index is_closed max_connections s.connections)

-- `0 <= conn_id && conn_id < MAX_CONNECTIONS`
abbrev pub is_slot : ℤ → Bool
is_slot (pos n) = ltb n max_connections
is_slot (negsuc n) = false

abbrev pub only_established : Option Connection → Option Connection
only_established none = none
only_established (some c) = if c.state is established then some c else none

-- `connections[conn_id]` where the state is ESTABLISHED; `none` is the `return -1` at the test.
unfoldable pub established_at : ℤ → Network → Option Connection
established_at conn_id s =
    if is_slot conn_id then only_established (get_elem? s.connections (rounds conn_id)) else none

-- `len > limit ? limit : len`
abbrev pub at_most : ℕ → ℕ → ℕ
at_most limit len = if ltb limit len then limit else len

-- What `tcp_send` stores.
unfoldable pub fill_buffer : List ℕ → ℕ → Connection → Connection
fill_buffer bytes len c = record c { buffer = copy_out len bytes c.buffer; buffer_len = len }

-- `tcp_send`
unfoldable pub tcp_send : ℤ → List ℕ → ℕ → Network → ℤ × Network
tcp_send conn_id bytes len s = elim (established_at conn_id s) [
  | none ↦ (minus_one, s)
  | some c ↦
      let n = at_most buffer_size len in
      (
        pos n,
        record s { connections = update_at (rounds conn_id) (fill_buffer bytes n) s.connections },
      )
]

-- `tcp_receive`: the result, and the caller's buffer.
unfoldable pub tcp_receive : ℤ → List ℕ → ℕ → Network → ℤ × List ℕ
tcp_receive conn_id out max_len s = elim (established_at conn_id s) [
  | none ↦ (minus_one, out)
  | some c ↦ let n = at_most max_len c.buffer_len in (to_int n, copy_out n c.buffer out)
]

-- `tcp_close`
unfoldable pub tcp_close : ℤ → Network → Network
tcp_close conn_id s =
    if is_slot conn_id
    then record s {
      connections = update_at (rounds conn_id) (λ c. record c { state = fin_wait }) s.connections;
    }
    else s

-- `get_active_connections`
unfoldable pub get_active_connections : Network → ℕ
get_active_connections s = count_if (λ c. not (is_closed c)) max_connections s.connections
