-- ===== src/Auth/Hash.antt =====
-- The hash of security/firewall/firewall.c: how it is stored in a user's entry and read back.
use Prim.Native.Nat.{bit_or}
use homeserver_os.Base.{
  ℕ, zero, suc, ◌+◌, ◌*◌, ◌/◌, ◌%◌, ◌^◌, ◌<◌, ◌≤◌, ◌≡◌, refl, ◌∙◌, List, [], ◌∷◌, arith, length,
  ◌-◌, true, ltb, lt→ltb,
}
use homeserver_os.Base.Bits.{bit, bit-bit_or, bit-zero, bit-ext, bit_or-lt}
use homeserver_os.Base.Shifts.{bit-div, bit-mod_lt, bit-ge, bit-mul, bit-mul_lt}
use homeserver_os.Auth.{shl, widen, hash_from, simple_hash, put_hash, take_hash}
use native.Mathlib.Decide.{dec_lt}

-- The hash is a 32-bit word.
hash_from-lt : (hash : ℕ) (str : List ℕ) → hash < 2 ^ 32 → hash_from hash str < 2 ^ 32
unfolding hash_from
hash_from-lt hash [] h = h
hash_from-lt hash (c ∷ str) h =
    ground
      (arith, hash_from-lt (((shl hash 5 + hash) % 2 ^ 32 + widen c) % 2 ^ 32) str (omega arith))

pub simple_hash-lt : (str : List ℕ) → simple_hash str < 2 ^ 32
unfolding simple_hash
simple_hash-lt str = hash_from-lt 5381 str (omega arith)

-- The stored bytes keep their sign bit clear.
abbrev pub IsPlain : ℕ → Type 0
IsPlain hash = (i : ℕ) → i < 8 → hash / 2 ^ (i * 4) % 256 < 128

-- A byte of the hash, moved back to its place.
abbrev term : ℕ → ℕ → ℕ
term hash i = shl (hash / 2 ^ (i * 4) % 256) (i * 4)

term-above :
    (hash i m : ℕ)
    → i * 4 + m < 32
    → bit (term hash i) (i * 4 + m) ≡ bit (hash / 2 ^ (i * 4) % 256) m
term-above hash i m h =
    bit-mod_lt 32 (hash / 2 ^ (i * 4) % 256 * 2 ^ (i * 4)) (i * 4 + m) h
    ∙ bit-mul (i * 4) (hash / 2 ^ (i * 4) % 256) m

term-inside :
    (hash i m : ℕ) → i * 4 + m < 32 → m < 8 → bit (term hash i) (i * 4 + m) ≡ bit hash (i * 4 + m)
term-inside hash i m h l =
    term-above hash i m h ∙ bit-mod_lt 8 (hash / 2 ^ (i * 4)) m l ∙ bit-div (i * 4) hash m

term-outside : (hash i m : ℕ) → i * 4 + m < 32 → 8 ≤ m → bit (term hash i) (i * 4 + m) ≡ 0
term-outside hash i m h l =
    term-above hash i m h ∙ bit-ge 8 (hash / 2 ^ (i * 4) % 256) m (omega arith) l

term-below : (hash i k : ℕ) → i < 8 → k < i * 4 → bit (term hash i) k ≡ 0
term-below hash i k h l =
    bit-mod_lt 32 (hash / 2 ^ (i * 4) % 256 * 2 ^ (i * 4)) k (omega arith)
    ∙ bit-mul_lt (i * 4) (hash / 2 ^ (i * 4) % 256) k l

-- It has bits of the hash only, and all of its own eight.
term-at :
    (hash i k : ℕ) → i < 8 → k < 32 → i * 4 ≤ k → k < i * 4 + 8 → bit (term hash i) k ≡ bit hash k
term-at hash i k h l a b =
    let place : i * 4 + (k - i * 4) ≡ k = omega arith in
    let t = term-inside hash i (k - i * 4) (omega arith) (omega arith) in rw place at t

term-le : (hash i k : ℕ) → i < 8 → k < 32 → bit (term hash i) k ≤ bit hash k
term-le hash i k h l = elim (dec_lt k (i * 4)) [
  | yes low ↦ omega (arith, term-below hash i k h low)
  | no high ↦ elim (dec_lt k (i * 4 + 8)) [
    | yes inside ↦ omega (arith, term-at hash i k h l (omega arith) inside)
    | no above ↦
        let place : i * 4 + (k - i * 4) ≡ k = omega arith in
        let t = term-outside hash i (k - i * 4) (omega arith) (omega arith) in
        let none_set : bit (term hash i) k ≡ 0 = rw place at t in omega arith
  ]
]

-- What the first j bytes have given.
record Gathered (hash j stored : ℕ) : Type 0 where
  word : stored < 2 ^ 32
  low : (k : ℕ) → k < 32 → k < j * 4 → bit stored k ≡ bit hash k
  others : (k : ℕ) → k < 32 → bit stored k ≤ bit hash k

Gathered-term :
    (hash j stored : ℕ)
    → j < 8
    → Gathered hash j stored
    → Gathered hash (suc j) (bit_or stored (term hash j))
Gathered-term hash j stored h g = record {
  word = bit_or-lt 32 stored (term hash j) g.word (omega arith);
  low = λ k l a. elim (dec_lt k (j * 4)) [
    | yes early ↦
        omega (arith, bit-bit_or stored (term hash j) k, g.low k l early, term-le hash j k h l)
    | no late ↦ omega (
      arith,
      bit-bit_or stored (term hash j) k,
      g.others k l,
      term-at hash j k h l (omega arith) (omega arith),
    )
  ];
  others =
      λ k l. omega (arith, bit-bit_or stored (term hash j) k, g.others k l, term-le hash j k h l);
}

take_hash-Gathered :
    (hash n j stored : ℕ) (buf : List ℕ)
    → IsPlain hash
    → n + j ≡ 8
    → n ≤ length buf
    → Gathered hash j stored
    → Gathered hash 8 (take_hash n j stored (put_hash n j hash buf))
unfolding take_hash put_hash
take_hash-Gathered hash zero j stored buf plain e h g =
    let done : j ≡ 8 = omega arith in rw done at g
take_hash-Gathered hash (suc n) j stored [] plain e h g = absurd (omega arith)
take_hash-Gathered hash (suc n) j stored (b ∷ buf) plain e h g =
    let small : ltb (hash / 2 ^ (j * 4) % 256) 128 ≡ true =
      lt→ltb (hash / 2 ^ (j * 4) % 256) 128 (plain j (omega arith)) in
    rw small (
      take_hash-Gathered hash n (suc j) (bit_or stored (term hash j)) buf plain (omega arith)
        (omega arith) (Gathered-term hash j stored (omega arith) g))

-- A hash with plain bytes is read back as it was stored.
pub take_hash-put_hash :
    (hash : ℕ) (buf : List ℕ)
    → hash < 2 ^ 32
    → IsPlain hash
    → 8 ≤ length buf
    → take_hash 8 0 0 (put_hash 8 0 hash buf) ≡ hash
take_hash-put_hash hash buf h plain room =
    let g = take_hash-Gathered hash 8 0 0 buf plain refl room (record {
      word = omega arith;
      low = λ k l a. absurd (omega arith);
      others = λ k l. omega (arith, bit-zero k);
    }) in
    bit-ext 32 (take_hash 8 0 0 (put_hash 8 0 hash buf)) hash g.word h
      (λ k l. g.low k l (omega arith))
