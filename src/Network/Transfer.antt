-- ===== src/Network/Transfer.antt =====
-- `tcp_send` and `tcp_receive` of kernel/net/network.c on an established connection.
use homeserver_os.Base.{ℕ, ◌<◌, ◌≤◌, ◌≡◌, refl, List, length, take, get_elem?, some, arith, ◌∙◌}
use homeserver_os.Base.Int.{ℤ, pos, to_int, rounds}
use homeserver_os.Base.Table.{copy_out, update_at}
use homeserver_os.Base.Table.Slots.{All-get_elem?, get_elem?-update_at}
use homeserver_os.Base.Table.Updates.{take-copy_out, length-copy_out}
use homeserver_os.Network.{
  Network, Connection, established, buffer_size, tcp_send, tcp_receive, established_at, fill_buffer,
  at_most, state_value,
}
use homeserver_os.Network.Slots.{IsValid, IsSlot}

established_at-some :
    (i : ℕ) (c : Connection) (s : Network)
    → i < 64
    → get_elem? s.connections i ≡ some c
    → c.state ≡ established
    → established_at (pos i) s ≡ some c
unfolding established_at
established_at-some i c s lt e q =
    let q' : state_value c.state ≡ 4 = rw q refl in ground (arith, e, q')

tcp_send_lem :
    (conn_id : ℤ) (bytes : List ℕ) (len : ℕ) (s : Network) (c : Connection)
    → established_at conn_id s ≡ some c
    → tcp_send conn_id bytes len s ≡ (
      pos (at_most buffer_size len),
      record s {
        connections =
            update_at (rounds conn_id) (fill_buffer bytes (at_most buffer_size len)) s.connections;
      },
    )
unfolding tcp_send
tcp_send_lem conn_id bytes len s c e = rw (e, tcp_send) refl

tcp_receive_lem :
    (conn_id : ℤ) (out : List ℕ) (max_len : ℕ) (s : Network) (c : Connection)
    → established_at conn_id s ≡ some c
    → tcp_receive conn_id out max_len s ≡ (
      to_int (at_most max_len c.buffer_len),
      copy_out (at_most max_len c.buffer_len) c.buffer out,
    )
unfolding tcp_receive
tcp_receive_lem conn_id out max_len s c e = rw (e, tcp_receive) refl

to_int_small : (n : ℕ) → n ≤ 1500 → to_int n ≡ pos n
to_int_small n h = ground arith

received :
    (n : ℕ) (bytes buffer out : List ℕ)
    → n ≤ length bytes
    → n ≤ length buffer
    → n ≤ length out
    → take n (copy_out n (copy_out n bytes buffer) out) ≡ take n bytes
received n bytes buffer out h k l =
    take-copy_out n (copy_out n bytes buffer) out (rw length-copy_out k) l
    ∙ take-copy_out n bytes buffer h k

-- On a connection that is established, `tcp_send` of `len` bytes stores the first
-- `min len BUFFER_SIZE` of them and returns their number, and a `tcp_receive` into a buffer with room
-- for them returns the same number and leaves those bytes at the buffer's start.
pub receive-send :
    (i : ℕ) (bytes out : List ℕ) (len max_len : ℕ) (s : Network) (c : Connection)
    → IsValid s
    → i < 64
    → get_elem? s.connections i ≡ some c
    → c.state ≡ established
    → len ≤ length bytes
    → at_most buffer_size len ≤ max_len
    → max_len ≤ length out
    → ((tcp_send (pos i) bytes len s).0 ≡ pos (at_most buffer_size len))
      × ((tcp_receive (pos i) out max_len (tcp_send (pos i) bytes len s).1).0
          ≡ pos (at_most buffer_size len))
      × (take
            (at_most buffer_size len)
            (tcp_receive (pos i) out max_len (tcp_send (pos i) bytes len s).1).1
          ≡ take (at_most buffer_size len) bytes)
receive-send i bytes out len max_len s c v lt e q l m o =
    let n = at_most buffer_size len in
    let sent = tcp_send_lem (pos i) bytes len s c (established_at-some i c s lt e q) in
    let c' = fill_buffer bytes n c in
    let t : Network = record s { connections = update_at i (fill_buffer bytes n) s.connections } in
    let same_state : c'.state ≡ established = unfold fill_buffer in q in
    let got = tcp_receive_lem (pos i) out max_len t c' (
      established_at-some i c' t lt (get_elem?-update_at i (fill_buffer bytes n) s.connections e)
        same_state) in
    let filled : c'.buffer_len ≡ n = unfold fill_buffer in refl in
    let stored : c'.buffer ≡ copy_out n bytes c.buffer = unfold fill_buffer in refl in
    let whole : at_most max_len c'.buffer_len ≡ n = rw filled (ground arith) in
    let slot = All-get_elem? IsSlot i s.connections v.slots e in
    rw (sent, got, whole, stored)
      (
        refl,
        to_int_small n (ground arith),
        received n bytes c.buffer out (ground arith) (ground (arith, slot.size)) (ground arith),
      )
