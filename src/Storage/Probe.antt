-- ===== src/Storage/Probe.antt =====
-- `storage_init` of drivers/storage/ata.c: which entries the array holds behind it.
use homeserver_os.Base.{
  ℕ, zero, suc, ◌+◌, ◌*◌, ◌%◌, ◌<◌, ◌≤◌, ◌≡◌, refl, ◌∙◌, Bool-cases, inl, inr, List, [], ◌∷◌, some,
  arith, length, take, ◌>>=◌, ◌==◌, ◌⊎◌,
}
use Prim.Native.Nat.{bit_and, bit_or}
use homeserver_os.Base.Int.{ℤ, pos, negsuc, minus_one}
use homeserver_os.Base.Table.{update_at}
use homeserver_os.Base.Table.Slots.{All, length-update_at, get_elem?-some}
use homeserver_os.Storage.{
  Ports, Storage, AtaDevice, primary_io, primary_control, secondary_io, secondary_control, register,
  wait, describe, read_words, give, identify, counted, probe, init,
}

-- The entries in use of an array that is written at its first entry out of use
module _ {A : Type 0} (P : A → Type 0) where
  All-update_behind :
      (i : ℕ) (f : A → A) (xs : List A) → All P (take i xs) → All P (take i (update_at i f xs))
  unfolding update_at
  All-update_behind zero f xs h = tt
  All-update_behind (suc i) f [] h = tt
  All-update_behind (suc i) f (x ∷ xs) h = (h.0, All-update_behind i f xs h.1)

  All-update_next :
      (i : ℕ) (f : A → A) (xs : List A)
      → ((x : A) → P (f x))
      → All P (take i xs)
      → All P (take (suc i) (update_at i f xs))
  unfolding update_at
  All-update_next zero f [] new h = tt
  All-update_next zero f (x ∷ xs) new h = (new x, tt)
  All-update_next (suc i) f [] new h = tt
  All-update_next (suc i) f (x ∷ xs) new h = (h.0, All-update_next i f xs new h.1)

-- The entry stands for the first or the second disk on one of the two channels.
pub record IsPlace (dev : AtaDevice) : Type 0 where
  pub channel :
      ((dev.base_io ≡ primary_io) × (dev.control_io ≡ primary_control))
      ⊎ ((dev.base_io ≡ secondary_io) × (dev.control_io ≡ secondary_control))
  pub unit : dev.drive < 2

-- The array has its size, and its first entries stand for disks.
pub record IsProbed (most : ℕ) (s : Storage) : Type 0 where
  pub size : length s.devices ≡ 4
  pub limit : s.count ≤ most
  pub places : All IsPlace (take s.count s.devices)

counted-IsProbed :
    (p : Ports) (most : ℕ) (s : Storage) (r : ℤ) (dev : AtaDevice) (d : p.Device)
    → IsProbed most s
    → IsPlace dev
    → IsProbed (suc most) (counted p s (r, dev, d)).0
unfolding counted
counted-IsProbed p most s (pos n) dev d h new = elim (Bool-cases (n == 0)) [
  | inl e ↦ rw e (record {
    size = length-update_at s.count (λ old. dev) s.devices ∙ h.size;
    limit = omega (arith, h.limit);
    places =
        let next : s.count + 1 ≡ suc s.count = omega arith in
        rw next (All-update_next IsPlace s.count (λ old. dev) s.devices (λ old. new) h.places);
  })
  | inr e ↦ rw e (record {
    size = length-update_at s.count (λ old. dev) s.devices ∙ h.size;
    limit = omega (arith, h.limit);
    places = All-update_behind IsPlace s.count (λ old. dev) s.devices h.places;
  })
]
counted-IsProbed p most s (negsuc n) dev d h new = record {
  size = length-update_at s.count (λ old. dev) s.devices ∙ h.size;
  limit = omega (arith, h.limit);
  places = All-update_behind IsPlace s.count (λ old. dev) s.devices h.places;
}

module _ (p : Ports) (fuel : ℕ) (settle : ℕ → p.Device → p.Device)
    (ends : (base : ℕ) (d : p.Device) → wait p fuel base d ≡ some (settle base d)) where
  open p use {Device, inb}

  -- `ata_identify` ends, and leaves the place of the entry alone.
  identify-IsPlace :
      (dev : AtaDevice) (d : Device)
      → IsPlace dev
      → (r : ℤ) × (dev' : AtaDevice) × (d' : Device) × (identify p fuel dev d ≡ some (r, dev', d'))
        × IsPlace dev'
  unfolding identify describe
  identify-IsPlace dev d h =
      let d1 = give p dev.base_io (bit_or 0xA0 (dev.drive * 16) % 256) 0 0 0 0 0xEC d in
      let status = inb (register dev.base_io 7) d1 in
      let errors = inb (register dev.base_io 7) (settle dev.base_io status.1) in
      let words = read_words p 256 dev.base_io errors.1 in
      elim (Bool-cases (status.0 == 0)) [
        | inl e ↦ (minus_one, dev, status.1, rw (e, identify) refl, h)
        | inr e ↦ elim (Bool-cases (bit_and errors.0 1 == 0)) [
          | inl e' ↦ (
            pos 0,
            describe words.0 dev,
            words.1,
            rw (e, identify) (rw (ends dev.base_io status.1) (rw (e', ◌>>=◌) refl)),
            record { channel = h.channel; unit = h.unit },
          )
          | inr e' ↦ (
            minus_one,
            dev,
            errors.1,
            rw (e, identify) (rw (ends dev.base_io status.1) (rw (e', ◌>>=◌) refl)),
            h,
          )
        ]
      ]

  probe-IsProbed :
      (base control drive most : ℕ) (s : Storage) (d : Device)
      → ((old : AtaDevice)
          → IsPlace (record old { base_io = base; control_io = control; drive = drive }))
      → most < 4
      → IsProbed most s
      → (s' : Storage) × (d' : Device) × (probe p fuel base control drive (s, d) ≡ some (s', d'))
        × IsProbed (suc most) s'
  unfolding probe
  probe-IsProbed base control drive most s d place room h =
      let (old, here) = get_elem?-some s.count s.devices (omega (arith, h.size, h.limit)) in
      let dev : AtaDevice = record old { base_io = base; control_io = control; drive = drive } in
      let (r, dev', d', e, new) = identify-IsPlace dev d (place old) in
      let next = counted p s (r, dev', d') in
      (next.0, next.1, rw here (rw e refl), counted-IsProbed p most s r dev' d' h new)

  -- `storage_init`, where every wait for a disk ends: it returns, and never writes behind the four
  -- entries; the entries in use, four at most, each stand for the first or the second disk on the
  -- primary or the secondary channel, with the two ports of that channel.
  pub init-IsProbed :
      (s : Storage) (d : Device)
      → length s.devices ≡ 4
      → (s' : Storage) × (d' : Device) × (init p fuel s d ≡ some (s', d')) × IsProbed 4 s'
  unfolding init
  init-IsProbed s d size =
      let (s1, d1, e1, h1) =
        probe-IsProbed primary_io primary_control 0 0 (record s { count = 0 }) d
          (λ old. record { channel = inl (refl, refl); unit = omega arith }) (omega arith)
          (record { size = size; limit = omega arith; places = tt }) in
      let (s2, d2, e2, h2) =
        probe-IsProbed primary_io primary_control 1 1 s1 d1
          (λ old. record { channel = inl (refl, refl); unit = omega arith }) (omega arith) h1 in
      let (s3, d3, e3, h3) =
        probe-IsProbed secondary_io secondary_control 0 2 s2 d2
          (λ old. record { channel = inr (refl, refl); unit = omega arith }) (omega arith) h2 in
      let (s4, d4, e4, h4) =
        probe-IsProbed secondary_io secondary_control 1 3 s3 d3
          (λ old. record { channel = inr (refl, refl); unit = omega arith }) (omega arith) h3 in
      (s4, d4, rw e1 (rw e2 (rw e3 e4)), h4)
