-- ===== src/Storage/Transfer.antt =====
-- `storage_read` and `storage_write` of drivers/storage/ata.c: what passes through the data port.
use homeserver_os.Base.{
  ℕ, zero, suc, ◌+◌, ◌*◌, ◌/◌, ◌%◌, ◌<◌, ◌≤◌, ◌≡◌, refl, sym, ap, ◌∙◌, List, [], ◌∷◌, ◌++◌, some,
  none, arith, length, length-append, take, drop, length-drop,
}
use homeserver_os.Base.Int.{ℤ, to_int, minus_one}
use homeserver_os.Base.Table.{copy_out}
use homeserver_os.Base.Table.Slots.{All}
use homeserver_os.Base.Table.Updates.{take-copy_out, length-copy_out}
use homeserver_os.Storage.{
  Ports, Storage, AtaDevice, register, wait, give_lba, read_word, read_bytes, read_sectors, read,
  device_at, write_words, write_sectors, write,
}

take_whole {ℓ} : {A : Type ℓ} (xs : List A) → take (length xs) xs ≡ xs
take_whole [] = refl
take_whole (x ∷ xs) = ap (λ l. x ∷ l) (take_whole xs)

module _ (p : Ports) where
  open p use {Device, inb, outb}

  -- Bytes written to the data port one after the other, and so many read from it.
  abbrev pub send : List ℕ → ℕ → Device → Device
  send [] base d = d
  send (b ∷ bytes) base d = send bytes base (outb (register base 0) b d)

  abbrev pub receive : ℕ → ℕ → Device → List ℕ × Device
  receive zero base d = ([], d)
  receive (suc n) base d =
      let (b, d1) = inb (register base 0) d in
      let (bytes, d2) = receive n base d1 in (b ∷ bytes, d2)

  write_words-send :
      (n base : ℕ) (buffer : List ℕ) (d : Device)
      → All (λ b. b < 256) buffer
      → n * 2 ≤ length buffer
      → write_words p n base buffer d
        ≡ some (drop (n * 2) buffer, send (take (n * 2) buffer) base d)
  unfolding write_words
  write_words-send zero base buffer d h l = refl
  write_words-send (suc n) base [] d h l = absurd (omega arith)
  write_words-send (suc n) base (low ∷ []) d h l = absurd (omega arith)
  write_words-send (suc n) base (low ∷ high ∷ rest) d h l =
      let twice : suc n * 2 ≡ suc (suc (n * 2)) = omega arith in
      let first : (low + high * 256) % 256 ≡ low = omega (arith, h.0) in
      let second : (low + high * 256) / 256 ≡ high = omega (arith, h.0, h.1.0) in
      rw (twice, first, second)
        (write_words-send n base rest (outb (register base 0) high (outb (register base 0) low d))
          h.1.1 (omega arith))

  module _ (is_byte : (port : ℕ) (d : Device) → (inb port d).0 < 256) where
    read_bytes-receive : (n base : ℕ) (d : Device) → read_bytes p n base d ≡ receive (n * 2) base d
    unfolding read_bytes read_word
    read_bytes-receive zero base d = refl
    read_bytes-receive (suc n) base d =
        let twice : suc n * 2 ≡ suc (suc (n * 2)) = omega arith in
        let port = register base 0 in
        let low = (inb port d).0 in
        let high = (inb port (inb port d).1).0 in
        let d2 = (inb port (inb port d).1).1 in
        let first : (low + high * 256) % 256 ≡ low = omega (arith, is_byte port d) in
        let second : (low + high * 256) / 256 ≡ high =
          omega (arith, is_byte port d, is_byte port (inb port d).1) in
        rw (twice, first, second)
          (λ i.
            (low ∷ high ∷ (read_bytes-receive n base d2 i).0, (read_bytes-receive n base d2 i).1))

  -- Every wait for the disk ends within the fuel, and leaves it settled.
  module _ (fuel : ℕ) (settle : ℕ → Device → Device)
      (ends : (base : ℕ) (d : Device) → wait p fuel base d ≡ some (settle base d)) where
    -- The bytes of so many sectors, with a wait before each.
    abbrev pub send_sectors : ℕ → ℕ → List ℕ → Device → Device
    send_sectors zero base bytes d = d
    send_sectors (suc n) base bytes d =
        send_sectors n base (drop 512 bytes) (send (take 512 bytes) base (settle base d))

    abbrev pub receive_sectors : ℕ → ℕ → Device → List ℕ × Device
    receive_sectors zero base d = ([], d)
    receive_sectors (suc n) base d =
        let (bytes, d1) = receive 512 base (settle base d) in
        let (more, d2) = receive_sectors n base d1 in (bytes ++ more, d2)

    All-drop :
        (n : ℕ) (bytes : List ℕ) → All (λ b. b < 256) bytes → All (λ b. b < 256) (drop n bytes)
    All-drop zero bytes h = h
    All-drop (suc n) [] h = tt
    All-drop (suc n) (b ∷ bytes) h = All-drop n bytes h.1

    write_sectors-send_sectors :
        (n base : ℕ) (buffer : List ℕ) (d : Device)
        → All (λ b. b < 256) buffer
        → n * 512 ≤ length buffer
        → write_sectors p fuel n base buffer d ≡ some (send_sectors n base buffer d)
    unfolding write_sectors
    write_sectors-send_sectors zero base buffer d h l = refl
    write_sectors-send_sectors (suc n) base buffer d h l =
        let d1 = settle base d in
        rw (ends base d) (
          rw (write_words-send 256 base buffer d1 h (omega arith)) (
            write_sectors-send_sectors n base (drop 512 buffer) (send (take 512 buffer) base d1)
              (All-drop 512 buffer h) (omega (arith, length-drop 512 buffer))))

    -- `storage_write` to a disk that was found, of a buffer with so many sectors: after the command
    -- the disk is sent exactly the bytes of the buffer, in their order, 512 behind each wait.
    pub write-send_sectors :
        (device : ℤ) (lba : ℕ) (buffer : List ℕ) (sectors : ℕ) (s : Storage) (dev : AtaDevice)
        (d : Device)
        → device_at device s ≡ some dev
        → All (λ b. b < 256) buffer
        → sectors * 512 ≤ length buffer
        → write p fuel device lba buffer sectors s d
          ≡ some (
            to_int sectors,
            send_sectors sectors dev.base_io buffer (give_lba p dev lba sectors 0x30 d),
          )
    unfolding write
    write-send_sectors device lba buffer sectors s dev d here h l =
        let sent =
          write_sectors-send_sectors sectors dev.base_io buffer (give_lba p dev lba sectors 0x30 d)
            h l in
        rw (here, write) (rw sent refl)

    length-receive : (n base : ℕ) (d : Device) → length (receive n base d).0 ≡ n
    length-receive zero base d = refl
    length-receive (suc n) base d = ap suc (length-receive n base (inb (register base 0) d).1)

    length-receive_sectors :
        (n base : ℕ) (d : Device) → length (receive_sectors n base d).0 ≡ n * 512
    length-receive_sectors zero base d = refl
    length-receive_sectors (suc n) base d =
        let first = receive 512 base (settle base d) in
        omega (
          arith,
          length-append first.0 (receive_sectors n base first.1).0,
          length-receive 512 base (settle base d),
          length-receive_sectors n base first.1,
        )

    module _ (is_byte : (port : ℕ) (d : Device) → (inb port d).0 < 256) where
      read_sectors-receive_sectors :
          (n base : ℕ) (d : Device) → read_sectors p fuel n base d ≡ some (receive_sectors n base d)
      unfolding read_sectors
      read_sectors-receive_sectors zero base d = refl
      read_sectors-receive_sectors (suc n) base d =
          let first = receive 512 base (settle base d) in
          rw (ends base d) (
            rw (read_bytes-receive is_byte 256 base (settle base d))
              (rw (read_sectors-receive_sectors n base first.1) refl))

      -- `storage_read` from a disk that was found, into a buffer with room for so many sectors: after
      -- the command the start of the buffer holds exactly the bytes that the disk gives, in their
      -- order, 512 behind each wait.
      pub read-receive_sectors :
          (device : ℤ) (lba : ℕ) (buffer : List ℕ) (sectors : ℕ) (s : Storage) (dev : AtaDevice)
          (d : Device)
          → device_at device s ≡ some dev
          → sectors * 512 ≤ length buffer
          → (out : List ℕ) × (read p fuel device lba buffer sectors s d
              ≡ some (
                to_int sectors,
                out,
                (receive_sectors sectors dev.base_io (give_lba p dev lba sectors 0x20 d)).1,
              ))
            × (take (sectors * 512) out
                ≡ (receive_sectors sectors dev.base_io (give_lba p dev lba sectors 0x20 d)).0)
            × (length out ≡ length buffer)
      unfolding read
      read-receive_sectors device lba buffer sectors s dev d here room =
          let d1 = give_lba p dev lba sectors 0x20 d in
          let bytes = (receive_sectors sectors dev.base_io d1).0 in
          let size = length-receive_sectors sectors dev.base_io d1 in
          let got = read_sectors-receive_sectors sectors dev.base_io d1 in
          (
            copy_out (length bytes) bytes buffer,
            rw (here, read) (rw got refl),
            ap (λ n. take n (copy_out (length bytes) bytes buffer)) (sym size)
                ∙ take-copy_out (length bytes) bytes buffer (omega arith) (omega (arith, size))
                ∙ take_whole bytes,
            length-copy_out (length bytes) bytes buffer,
          )

-- Disks that answer to nothing, or are not there: -1, and no port is written.
pub missing_device :
    (p : Ports) (fuel : ℕ) (device : ℤ) (lba : ℕ) (buffer : List ℕ) (sectors : ℕ) (s : Storage)
    (d : p.Device)
    → device_at device s ≡ none
    → (read p fuel device lba buffer sectors s d ≡ some (minus_one, buffer, d))
      × (write p fuel device lba buffer sectors s d ≡ some (minus_one, d))
unfolding read write
missing_device p fuel device lba buffer sectors s d e = (rw (e, read) refl, rw (e, write) refl)
