-- ===== src/Storage/Tests.antt =====
-- Runs of drivers/storage/ata.c with disks that are always ready.
use homeserver_os.Base.{
  ℕ, zero, suc, ◌+◌, ◌*◌, ◌<◌, ◌≡◌, refl, List, [], ◌∷◌, arith, replicate, some, length-replicate,
  take, length,
}
use Prim.Native.Nat.{bit_and}
use homeserver_os.Storage.Probe.{IsProbed, init-IsProbed}
use homeserver_os.Base.Int.{pos, to_int}
use homeserver_os.Base.Table.Slots.{All-replicate}
use homeserver_os.Storage.{Ports, Storage, AtaDevice, wait, read, write, give_lba, init}
use homeserver_os.Storage.Transfer.{
  send_sectors, receive_sectors, write-send_sectors, read-receive_sectors,
}

-- The bytes 64 and 9 in turn, neither with the bit of a busy disk
abbrev byte_at : ℕ → ℕ
byte_at zero = 64
byte_at (suc zero) = 9
byte_at (suc (suc n)) = byte_at n

not_busy : (n : ℕ) → bit_and (byte_at n) 0x80 ≡ 0
not_busy zero = refl
not_busy (suc zero) = refl
not_busy (suc (suc n)) = not_busy n

small_byte : (n : ℕ) → byte_at n < 256
small_byte zero = omega arith
small_byte (suc zero) = omega arith
small_byte (suc (suc n)) = small_byte n

-- Disks with the number of bytes that they gave and the writes that they took, the last one first
abbrev disks : Ports
disks = record {
  Device = ℕ × List (ℕ × ℕ);
  inb = λ port d. (byte_at d.0, (d.0 + 1, d.1));
  outb = λ port b d. (d.0, (port, b) ∷ d.1);
}

abbrev disk : AtaDevice
disk = record {
  base_io = 0x1F0;
  control_io = 0x3F6;
  drive = 1;
  size_sectors = 4096;
  model = replicate 41 0;
  serial = replicate 21 0;
}

abbrev one_disk : Storage
one_disk = record { devices = replicate 4 disk; count = 1 }

-- The disks behind a wait: one byte was read.
abbrev ready : ℕ → ℕ × List (ℕ × ℕ) → ℕ × List (ℕ × ℕ)
ready base d = (d.0 + 1, d.1)

ready_lem : (base : ℕ) (d : ℕ × List (ℕ × ℕ)) → wait disks 1 base d ≡ some (ready base d)
unfolding wait
ready_lem base d = rw (not_busy d.0, wait) refl

write-send_sectors_example :
    write disks 1 (pos 0) 77 (replicate 512 9) 1 one_disk (0, [])
    ≡ some (
      to_int 1,
      send_sectors disks 1 ready ready_lem 1 0x1F0
          (replicate 512 9)
          (give_lba disks disk 77 1 0x30 (0, [])),
    )
write-send_sectors_example =
    write-send_sectors disks 1 ready ready_lem (pos 0) 77 (replicate 512 9) 1 one_disk disk (0, [])
      refl (All-replicate (λ b. b < 256) 512 9 (omega arith))
      (omega (arith, length-replicate {A = ℕ} 512 9))

read-receive_sectors_example :
    (out : List ℕ) × (read disks 1 (pos 0) 77 (replicate 1024 0) 2 one_disk (0, [])
      ≡ some (
        to_int 2,
        out,
        (receive_sectors disks 1 ready ready_lem 2 0x1F0 (give_lba disks disk 77 2 0x20 (0, []))).1,
      ))
    × (take (2 * 512) out
        ≡ (receive_sectors disks 1 ready ready_lem 2 0x1F0
            (give_lba disks disk 77 2 0x20 (0, []))).0)
    × (length out ≡ length {A = ℕ} (replicate 1024 0))
read-receive_sectors_example =
    read-receive_sectors disks 1 ready ready_lem (λ port d. small_byte d.0) (pos 0) 77
      (replicate 1024 0) 2 one_disk disk (0, []) refl
      (omega (arith, length-replicate {A = ℕ} 1024 0))

init-IsProbed_example :
    (s' : Storage) × (d' : ℕ × List (ℕ × ℕ)) × (init disks 1 one_disk (0, []) ≡ some (s', d'))
    × IsProbed 4 s'
init-IsProbed_example = init-IsProbed disks 1 ready ready_lem one_disk (0, []) refl
