-- ===== src/Network/Tests.antt =====
-- Runs of kernel/net/network.c on small inputs.
use homeserver_os.Base.{
  ℕ, [], ◌∷◌, ◌%◌, ◌/◌, ◌-◌, ◌^◌, ◌≡◌, ◌<◌, ◌⊎◌, ◌++◌, refl, false, arith, replicate, get_elem?,
  some,
}
use homeserver_os.Base.Int.{pos, minus_one}
use homeserver_os.Base.Table.Slots.{All-replicate}
use homeserver_os.Network.{
  Network, Connection, Ipv4Addr, MacAddr, closed, listen, init, tcp_send, tcp_receive, tcp_close,
  get_active_connections, is_closed, max_connections, checksum, ◌is◌, close_from,
}
use homeserver_os.Base.Table.{count_if, update_at}
use homeserver_os.Network.Checksum.{ones_sum, word_total, checksum-ones_sum, checksum-append}
use homeserver_os.Network.Slots.{
  IsValid, IsSlot, Opened, open_by, open_by-Opened, listening, connecting,
}
use homeserver_os.Network.Reach.{here, next, opening, closing, Reach-no_transfer, Reach-exhausted}

abbrev here_ip : Ipv4Addr
here_ip = record { octet = 10 ∷ 0 ∷ 0 ∷ 1 ∷ [] }

abbrev here_mac : MacAddr
here_mac = record { octet = replicate 6 1 }

abbrev blank : Connection
blank = record {
  id = 0;
  state = closed;
  local_ip = record { octet = replicate 4 0 };
  remote_ip = record { octet = replicate 4 0 };
  local_port = 0;
  remote_port = 0;
  seq_num = 0;
  ack_num = 0;
  buffer = replicate 1500 0;
  buffer_len = 0;
}

blank-IsSlot : IsSlot blank
blank-IsSlot = record { size = refl; fits = omega arith }

-- The memory as the program is loaded.
abbrev loaded : Network
loaded = record { connections = replicate 64 blank; local_ip = here_ip; local_mac = here_mac }

loaded-IsValid : IsValid loaded
loaded-IsValid = record { storage = refl; slots = All-replicate IsSlot 64 blank blank-IsSlot }

open_by-Opened_example :
    ((i : ℕ) × (t : Network) × (open_by (listening 80) loaded ≡ (pos i, t))
      × Opened (listening 80) i loaded t)
    ⊎ (((k : ℕ) (c : Connection)
          → k < max_connections
          → get_elem? loaded.connections k ≡ some c
          → is_closed c ≡ false)
        × (open_by (listening 80) loaded ≡ (minus_one, loaded)))
open_by-Opened_example = open_by-Opened (listening 80) loaded loaded-IsValid

-- A server that listens, and a message to it.
Reach-no_transfer_example :
    (tcp_send (pos 0) (1 ∷ []) 1 (open_by (listening 80) (init here_ip here_mac loaded)).1
      ≡ (minus_one, (open_by (listening 80) (init here_ip here_mac loaded)).1))
    × (tcp_receive (pos 0) (1 ∷ []) 1 (open_by (listening 80) (init here_ip here_mac loaded)).1
        ≡ (minus_one, 1 ∷ []))
Reach-no_transfer_example =
    Reach-no_transfer here_ip here_mac loaded (next here (opening (listening 80))) (pos 0) (1 ∷ [])
      1

-- All connections listen; one is closed, and the number is not handed out again.
abbrev full : Network
full = record loaded { connections = replicate 64 (record blank { state = listen }) }

Reach-exhausted_example :
    open_by (connecting here_ip 443) (tcp_close (pos 7) full) ≡ (minus_one, tcp_close (pos 7) full)
Reach-exhausted_example =
    Reach-exhausted (next here (closing (pos 7)))
      (All-replicate (λ (c : Connection). (c.state is closed) ≡ false) 64
        (record blank { state = listen }) refl)
      (connecting here_ip 443)

-- `tcp_close` on a number that was never opened makes the connection active.
close_unused : get_active_connections (tcp_close (pos 3) (init here_ip here_mac loaded)) ≡ 1
unfolding get_active_connections tcp_close init count_if update_at close_from
close_unused = refl

checksum-ones_sum_example :
    checksum (0x45 ∷ 0 ∷ 0xff ∷ 0xff ∷ 7 ∷ [])
    ≡ some (65535 - ones_sum (word_total (0x45 ∷ 0 ∷ 0xff ∷ 0xff ∷ 7 ∷ [])))
checksum-ones_sum_example =
    checksum-ones_sum (0x45 ∷ 0 ∷ 0xff ∷ 0xff ∷ 7 ∷ []) (omega arith) (omega arith)

checksum-append_example :
    (sum : ℕ) × (checksum (0x45 ∷ 0 ∷ 0xff ∷ 0xff ∷ []) ≡ some sum)
    × (sum < 2 ^ 16)
    × (checksum ((0x45 ∷ 0 ∷ 0xff ∷ 0xff ∷ []) ++ sum % 256 ∷ sum / 256 ∷ []) ≡ some 0)
checksum-append_example =
    checksum-append (0x45 ∷ 0 ∷ 0xff ∷ 0xff ∷ []) (omega arith) (omega arith) refl
