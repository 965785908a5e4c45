-- ===== src/Storage.antt =====
-- drivers/storage/ata.c: the driver of the ATA disks. The disks behind the ports are a parameter: what
-- they answer to a read of a port, and how a read and a write of a port change them. A read of a
-- byte gives a number below 256, which the theorems ask for where they need it. A buffer is shorter
-- than 2^32 bytes, as the address space is, so an index into it does not wrap.
pub mod Transfer
pub mod Probe
mod Tests
use Prim.Native.Nat.{bit_and, bit_or}
use homeserver_os.Base.{
  ℕ, zero, suc, ◌+◌, ◌*◌, ◌/◌, ◌%◌, ◌^◌, Bool, true, false, List, [], ◌∷◌, ◌++◌, Option, none, some,
  ◌==◌, ltb, if◌then◌else◌, get_elem?, get_or, take, drop, length, ◌>>=◌,
}
use homeserver_os.Base.Int.{ℤ, pos, negsuc, minus_one, at_least, rounds, to_int}
use homeserver_os.Base.Table.{update_at, copy_out}

-- The ports, and what is behind them.
pub record Ports : Type 1 where
  pub Device : Type 0
  pub inb : ℕ → Device → ℕ × Device
  pub outb : ℕ → ℕ → Device → Device

-- `ata_device_t`
pub record AtaDevice : Type 0 where
  pub base_io : ℕ  -- uint16_t
  pub control_io : ℕ  -- uint16_t
  pub drive : ℕ  -- uint8_t
  pub size_sectors : ℕ  -- uint32_t
  pub model : List ℕ  -- char[41]
  pub serial : List ℕ  -- char[21]

-- The static variables of the file.
pub record Storage : Type 0 where
  pub devices : List AtaDevice  -- [4]
  pub count : ℕ  -- int

-- ATA_PRIMARY_IO, ATA_SECONDARY_IO, ATA_PRIMARY_CONTROL and ATA_SECONDARY_CONTROL
abbrev pub primary_io : ℕ
primary_io = 0x1F0

abbrev pub secondary_io : ℕ
secondary_io = 0x170

abbrev pub primary_control : ℕ
primary_control = 0x3F6

abbrev pub secondary_control : ℕ
secondary_control = 0x376

-- The register at an offset from the base port, ATA_DATA to ATA_STATUS
abbrev pub register : ℕ → ℕ → ℕ
register base offset = (base + offset) % 2 ^ 16

-- `0xE0 | (drive << 4) | ((lba >> 24) & 0x0F)`, as a uint8_t
abbrev pub drive_byte : ℕ → ℕ → ℕ
drive_byte drive lba = bit_or (bit_or 0xE0 (drive * 16)) (lba / 2 ^ 24 % 16) % 256

-- `(data[61] << 16) | data[60]`
abbrev pub size_of : List ℕ → ℕ
size_of words = (get_or words 61 0 * 2 ^ 16 + get_or words 60 0) % 2 ^ 32

-- The model, two characters to a word, the high byte first.
abbrev pub swapped : List ℕ → List ℕ
swapped [] = []
swapped (w ∷ words) = w / 256 ∷ w % 256 ∷ swapped words

-- What `ata_identify` stores.
unfoldable pub describe : List ℕ → AtaDevice → AtaDevice
describe words dev = record dev {
  size_sectors = size_of words;
  model = swapped (take 20 (drop 27 words)) ++ 0 ∷ [];
}

-- `device < 0 || device >= device_count`, and the entry
abbrev pub device_at : ℤ → Storage → Option AtaDevice
device_at (pos n) s = if ltb n s.count then get_elem? s.devices n else none
device_at (negsuc n) s = none

module _ (p : Ports) where
  open p use {Device, inb, outb}

  -- `ata_wait`; `none` means that the fuel ran out.
  unfoldable pub wait : ℕ → ℕ → Device → Option Device
  wait zero base d = none
  wait (suc fuel) base d =
      let (status, d') = inb (register base 7) d in
      elim (bit_and status 0x80 == 0) [ true ↦ some d' | false ↦ wait fuel base d' ]

  -- The six writes by which the functions give a command, in their order.
  unfoldable pub give : ℕ → ℕ → ℕ → ℕ → ℕ → ℕ → ℕ → Device → Device
  give base drive count low mid high command d = outb (register base 7) command (
      outb (register base 5) high (
        outb (register base 4) mid (
          outb (register base 3) low
            (outb (register base 2) count (outb (register base 6) drive d)))))

  -- The command of `storage_read` and `storage_write`
  unfoldable pub give_lba : AtaDevice → ℕ → ℕ → ℕ → Device → Device
  give_lba dev lba sectors command d =
      give dev.base_io (drive_byte dev.drive lba) (sectors % 256) (lba % 256) (lba / 2 ^ 8 % 256)
        (lba / 2 ^ 16 % 256) command d

  -- `inb(data) | (inb(data) << 8)`, the left operand first
  unfoldable pub read_word : ℕ → Device → ℕ × Device
  read_word base d =
      let (low, d1) = inb (register base 0) d in
      let (high, d2) = inb (register base 0) d1 in (low + high * 256, d2)

  unfoldable pub read_words : ℕ → ℕ → Device → List ℕ × Device
  read_words zero base d = ([], d)
  read_words (suc n) base d =
      let (w, d1) = read_word base d in let (words, d2) = read_words n base d1 in (w ∷ words, d2)

  -- `ata_identify`: the result, the entry and the disks.
  unfoldable pub identify : ℕ → AtaDevice → Device → Option (ℤ × AtaDevice × Device)
  identify fuel dev d =
      let d1 = give dev.base_io (bit_or 0xA0 (dev.drive * 16) % 256) 0 0 0 0 0xEC d in
      let (status, d2) = inb (register dev.base_io 7) d1 in
      elim (status == 0) [
        | true ↦ some (minus_one, dev, d2)
        | false ↦ wait fuel dev.base_io d2 >>= λ d3.
            let (errors, d4) = inb (register dev.base_io 7) d3 in
            elim (bit_and errors 1 == 0) [
              | false ↦ some (minus_one, dev, d4)
              | true ↦
                  let (words, d5) = read_words 256 dev.base_io d4 in
                  some (pos 0, describe words dev, d5)
            ]
      ]

  -- `if (ata_identify(&devices[device_count]) == 0) device_count++;`
  unfoldable pub counted : Storage → ℤ × AtaDevice × Device → Storage × Device
  counted s (pos n, dev, d) = (
    record s {
      devices = update_at s.count (λ old. dev) s.devices;
      count = if n == 0 then s.count + 1 else s.count;
    },
    d,
  )
  counted s (negsuc n, dev, d) =
      (record s { devices = update_at s.count (λ old. dev) s.devices }, d)

  -- One of the four blocks of `storage_init`. `none` means that the fuel ran out, or that the entry is
  -- not in the array.
  unfoldable pub probe : ℕ → ℕ → ℕ → ℕ → Storage × Device → Option (Storage × Device)
  probe fuel base control drive (s, d) = do
    old ← get_elem? s.devices s.count
    let dev : AtaDevice = record old { base_io = base; control_io = control; drive = drive }
    r ← identify fuel dev d
    some (counted s r)

  -- `storage_init`
  unfoldable pub init : ℕ → Storage → Device → Option (Storage × Device)
  init fuel s d = do
    r1 ← probe fuel primary_io primary_control 0 (record s { count = 0 }, d)
    r2 ← probe fuel primary_io primary_control 1 r1
    r3 ← probe fuel secondary_io secondary_control 0 r2
    probe fuel secondary_io secondary_control 1 r3

  -- The inner loop of `storage_read`: the bytes that it stores, in their order.
  unfoldable pub read_bytes : ℕ → ℕ → Device → List ℕ × Device
  read_bytes zero base d = ([], d)
  read_bytes (suc n) base d =
      let (w, d1) = read_word base d in
      let (bytes, d2) = read_bytes n base d1 in (w % 256 ∷ w / 256 ∷ bytes, d2)

  -- The outer loop of `storage_read`
  unfoldable pub read_sectors : ℕ → ℕ → ℕ → Device → Option (List ℕ × Device)
  read_sectors fuel zero base d = some ([], d)
  read_sectors fuel (suc n) base d = wait fuel base d >>= λ d1.
      let (bytes, d2) = read_bytes 256 base d1 in
      read_sectors fuel n base d2 >>= λ r. some (bytes ++ r.0, r.1)

  -- `storage_read`: the result, the caller's buffer and the disks.
  unfoldable pub read : ℕ → ℤ → ℕ → List ℕ → ℕ → Storage → Device → Option (ℤ × List ℕ × Device)
  read fuel device lba buffer sectors s d = elim (device_at device s) [
    | none ↦ some (minus_one, buffer, d)
    | some dev ↦ read_sectors fuel sectors dev.base_io (give_lba dev lba sectors 0x20 d) >>= λ r.
        some (to_int sectors, copy_out (length r.0) r.0 buffer, r.1)
  ]

  -- The inner loop of `storage_write`, and the rest of the buffer. `none` is a read behind its end.
  unfoldable pub write_words : ℕ → ℕ → List ℕ → Device → Option (List ℕ × Device)
  write_words zero base buffer d = some (buffer, d)
  write_words (suc n) base [] d = none
  write_words (suc n) base (low ∷ []) d = none
  write_words (suc n) base (low ∷ high ∷ rest) d =
      let w = low + high * 256 in
      write_words n base rest
        (outb (register base 0) (w / 256) (outb (register base 0) (w % 256) d))

  -- The outer loop of `storage_write`
  unfoldable pub write_sectors : ℕ → ℕ → ℕ → List ℕ → Device → Option Device
  write_sectors fuel zero base buffer d = some d
  write_sectors fuel (suc n) base buffer d = wait fuel base d >>= λ d1.
      write_words 256 base buffer d1 >>= λ r. write_sectors fuel n base r.0 r.1

  -- `storage_write`
  unfoldable pub write : ℕ → ℤ → ℕ → List ℕ → ℕ → Storage → Device → Option (ℤ × Device)
  write fuel device lba buffer sectors s d = elim (device_at device s) [
    | none ↦ some (minus_one, d)
    | some dev ↦
        write_sectors fuel sectors dev.base_io buffer (give_lba dev lba sectors 0x30 d) >>= λ d'.
        some (to_int sectors, d')
  ]

-- `storage_get_device_count`
unfoldable pub get_device_count : Storage → ℕ
get_device_count s = s.count

-- `storage_get_device_size`, in MB; the product has 32 bits.
unfoldable pub get_device_size : ℤ → Storage → ℕ
get_device_size device s = elim (device_at device s) [
  | none ↦ 0
  | some dev ↦ dev.size_sectors * 512 % 2 ^ 32 / 1024 / 1024
]
