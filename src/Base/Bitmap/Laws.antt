-- ===== src/Base/Bitmap/Laws.antt =====
-- What the search for a free bit of a bitmap finds.
use Prim.Native.Nat.{bit_and}
use homeserver_os.Base.{
  ℕ, zero, suc, ◌+◌, ◌-◌, ◌^◌, ◌≤◌, ◌<◌, ◌≡◌, ◌⊎◌, inl, inr, List, [], ◌∷◌, Option, none, some,
  arith, ◌==◌, length, true, false, Bool-cases, Option-cases, some_inj,
}
use homeserver_os.Base.Bits.{bit, bit-lt, bit_and-pow, bit-ones, pow_pos}
use homeserver_os.Base.Bitmap.{free_bit, next_word, first_free, used}
use mathlib.Core.Option
use mathlib.Core.Path.{subst}
use native.Mathlib.Decide.{dec_lt}

-- A bit test of the source agrees with the bit.
test_bit : (w j : ℕ) → (bit_and w (2 ^ j) == 0) ≡ (bit w j == 0)
test_bit w j = elim (dec_lt 0 (bit w j)) [
  | yes set ↦
      let one : bit w j ≡ 1 = omega (arith, bit-lt w j) in
      rw (bit_and-pow w j, one) (ground (arith, pow_pos j))
  | no unset ↦
      let none_set : bit w j ≡ 0 = omega arith in rw (bit_and-pow w j, none_set) (ground arith)
]

one_of_taken : (w j : ℕ) → (bit w j == 0) ≡ false → bit w j ≡ 1
one_of_taken w j h = ground (arith, bit-lt w j)

-- A fact about the bits from j on, from the one about bit j and those about the later ones.
bits_from :
    (w j k : ℕ)
    → bit w j ≡ 1
    → ((m : ℕ) → suc j ≤ m → m < k → bit w m ≡ 1)
    → (m : ℕ) → j ≤ m
    → m < k
    → bit w m ≡ 1
bits_from w j k h later m a b = elim (dec_lt j m) [
  | yes lt ↦ later m lt b
  | no ge ↦ let same : m ≡ j = omega arith in rw same h
]

-- The first free bit of a word from `j` on.
record IsFreeBit (j r w k : ℕ) : Type 0 where
  from : j ≤ k
  below : k < j + r
  is_free : bit w k ≡ 0
  earlier : (m : ℕ) → j ≤ m → m < k → bit w m ≡ 1

free_bit-some : (r j w : ℕ) {k : ℕ} → free_bit r j w ≡ some k → IsFreeBit j r w k
unfolding free_bit
free_bit-some zero j w e = absurd (cc)
free_bit-some (suc r) j w {k} e = elim (Bool-cases (bit w j == 0)) [
  | inl free ↦
      let here : some j ≡ some k = rw (test_bit w j, free) at e in
      subst (IsFreeBit j (suc r) w) (some_inj here) (record {
        from = omega arith;
        below = omega arith;
        is_free = ground arith;
        earlier = λ m a b. absurd (omega arith);
      })
  | inr taken ↦
      let there : free_bit r (suc j) w ≡ some k = rw (test_bit w j, taken) at e in
      let h = free_bit-some r (suc j) w there in
      record {
        from = omega (arith, h.from);
        below = omega (arith, h.below);
        is_free = h.is_free;
        earlier = bits_from w j k (one_of_taken w j taken) h.earlier;
      }
]

free_bit-none : (r j w : ℕ) → free_bit r j w ≡ none → (m : ℕ) → j ≤ m → m < j + r → bit w m ≡ 1
unfolding free_bit
free_bit-none zero j w e m a b = absurd (omega arith)
free_bit-none (suc r) j w e m a b = elim (Bool-cases (bit w j == 0)) [
  | inl free ↦ let here : some j ≡ none = rw (test_bit w j, free) at e in absurd (cc here)
  | inr taken ↦
      let there : free_bit r (suc j) w ≡ none = rw (test_bit w j, taken) at e in
      bits_from w j (j + suc r) (one_of_taken w j taken)
        (λ k c d. free_bit-none r (suc j) w there k c (omega arith)) m a b
]

-- The pair (i, j) stands before (i', j') in the order of the loops.
abbrev pub Before : ℕ → ℕ → ℕ → ℕ → Type 0
Before i j i' j' = (i < i') ⊎ ((i ≡ i') × (j < j'))

-- The first free bit of the first `n` words.
pub record IsFirst (width n : ℕ) (ws : List ℕ) (i j : ℕ) : Type 0 where
  pub word : i < n
  pub inside : i < length ws
  pub offset : j < width
  pub is_free : used ws i j ≡ 0
  pub earlier : (k m : ℕ) → m < width → Before k m i j → used ws k m ≡ 1

full_word : (width w : ℕ) → (w == 2 ^ width - 1) ≡ true → (m : ℕ) → m < width → bit w m ≡ 1
full_word width w e m h =
    let same : w ≡ 2 ^ width - 1 = ground arith in rw same (bit-ones width m h)

-- What the loop finds behind a word that is in use throughout.
IsFirst-next :
    (width n w : ℕ) (ws : List ℕ) (i j : ℕ)
    → ((m : ℕ) → m < width → bit w m ≡ 1)
    → IsFirst width n ws i j
    → IsFirst width (suc n) (w ∷ ws) (suc i) j
IsFirst-next width n w ws i j full h = record {
  word = omega (arith, h.word);
  inside = omega (arith, h.inside);
  offset = h.offset;
  is_free = h.is_free;
  earlier = earlier;
}
  where
    earlier : (k m : ℕ) → m < width → Before k m (suc i) j → used (w ∷ ws) k m ≡ 1
    earlier zero m lt b = full m lt
    earlier (suc k) m lt (inl b) = h.earlier k m lt (inl (omega arith))
    earlier (suc k) m lt (inr b) = h.earlier k m lt (inr (omega arith, b.1))

IsFirst-word :
    (width n w : ℕ) (ws : List ℕ) (k : ℕ)
    → IsFreeBit 0 width w k
    → IsFirst width (suc n) (w ∷ ws) 0 k
IsFirst-word width n w ws k h = record {
  word = omega arith;
  inside = omega arith;
  offset = omega (arith, h.below);
  is_free = h.is_free;
  earlier = earlier;
}
  where
    earlier : (i m : ℕ) → m < width → Before i m 0 k → used (w ∷ ws) i m ≡ 1
    earlier zero m lt (inl b) = absurd (omega arith)
    earlier zero m lt (inr b) = h.earlier m (omega arith) b.1
    earlier (suc i) m lt (inl b) = absurd (omega arith)
    earlier (suc i) m lt (inr b) = absurd (omega arith)

module _ (width : ℕ) where
  rest-IsFirst :
      (n w : ℕ) (ws : List ℕ)
      (ih : (i j : ℕ) → first_free width n ws ≡ some (i, j) → IsFirst width n ws i j)
      → ((m : ℕ) → m < width → bit w m ≡ 1)
      → (i j : ℕ) → Option.map next_word (first_free width n ws) ≡ some (i, j)
      → IsFirst width (suc n) (w ∷ ws) i j
  rest-IsFirst n w ws ih full i j e =
      let (p, q, r) = (Option.map-eq-some_iff next_word (first_free width n ws)).0 e in
      subst (λ t. IsFirst width (suc n) (w ∷ ws) t.0 t.1) r
        (IsFirst-next width n w ws p.0 p.1 full (ih p.0 p.1 q))

  pub first_free-IsFirst :
      (n : ℕ) (ws : List ℕ) (i j : ℕ) → first_free width n ws ≡ some (i, j) → IsFirst width n ws i j
  unfolding first_free
  first_free-IsFirst zero ws i j e = absurd (cc)
  first_free-IsFirst (suc n) [] i j e = absurd (cc)
  first_free-IsFirst (suc n) (w ∷ ws) i j e = elim (Bool-cases (w == 2 ^ width - 1)) [
    | inl full ↦
        rest-IsFirst n w ws (first_free-IsFirst n ws) (full_word width w full) i j (rw full at e)
    | inr part ↦ elim (Option-cases (free_bit width 0 w)) [
      | inl none_free ↦
          rest-IsFirst n w ws (first_free-IsFirst n ws)
            (λ m h. free_bit-none width 0 w none_free m (omega arith) (omega arith)) i j
            (rw (part, none_free) at e)
      | inr (k, found) ↦
          let here : ◌≡◌ {A = Option (ℕ × ℕ)} (some (0, k)) (some (i, j)) = rw (part, found) at e in
          subst (λ t. IsFirst width (suc n) (w ∷ ws) t.0 t.1) (some_inj here)
            (IsFirst-word width n w ws k (free_bit-some width 0 w found))
    ]
  ]

  pub first_free-none :
      (n : ℕ) (ws : List ℕ)
      → n ≤ length ws
      → first_free width n ws ≡ none
      → (i j : ℕ) → i < n
      → j < width
      → used ws i j ≡ 1
  unfolding first_free
  first_free-none zero ws h e i j a b = absurd (omega arith)
  first_free-none (suc n) [] h e i j a b = absurd (omega arith)
  first_free-none (suc n) (w ∷ ws) h e zero j a b = elim (Bool-cases (w == 2 ^ width - 1)) [
    | inl full ↦ full_word width w full j b
    | inr part ↦ elim (Option-cases (free_bit width 0 w)) [
      | inl none_free ↦ free_bit-none width 0 w none_free j (omega arith) (omega arith)
      | inr (k, found) ↦
          let q : ◌≡◌ {A = Option (ℕ × ℕ)} (some (0, k)) none = rw (part, found) at e in
          absurd (cc q)
    ]
  ]
  first_free-none (suc n) (w ∷ ws) h e (suc i) j a b =
      first_free-none n ws (omega arith) (later n w ws e) i j (omega arith) b
    where
      later :
          (n w : ℕ) (ws : List ℕ)
          → first_free width (suc n) (w ∷ ws) ≡ none
          → first_free width n ws ≡ none
      later n w ws e = ground arith
