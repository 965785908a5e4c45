-- ===== src/Base/Text.antt =====
-- Strings of C. A parameter `const char *` is the list of its bytes before the closing NUL, so a
-- read at its end gives 0; a `char` array of a struct is a list of all its bytes.
use Prim.Native.Char.{code}
use Prim.Native.String.{String}
use homeserver_os.Base.{
  ℕ, zero, suc, ◌<◌, ◌≤◌, ◌≡◌, refl, Bool, true, List, [], ◌∷◌, arith, ◌==◌, ◌&&◌, if◌then◌else◌,
  take, length,
}

-- The code points of a literal: its bytes, if it is ASCII.
abbrev pub codes : String → List ℕ
codes String.[] = []
codes (String.◌∷◌ c s) = code c ∷ codes s

-- `for (i = 0; i < limit && src[i]; i++) buf[i] = src[i]; buf[i] = '\0';`
-- The walk over `src` and `buf` in step, `n` rounds at most. A write past the end of `buf` is lost.
unfoldable pub copy_text : ℕ → List ℕ → List ℕ → List ℕ
copy_text n src [] = []
copy_text zero src (b ∷ buf) = 0 ∷ buf
copy_text (suc n) [] (b ∷ buf) = 0 ∷ buf
copy_text (suc n) (c ∷ src) (b ∷ buf) = if c == 0 then 0 ∷ buf else c ∷ copy_text n src buf

-- The same loop with no NUL written at its end.
unfoldable pub copy_chars : ℕ → List ℕ → List ℕ → List ℕ
copy_chars n src [] = []
copy_chars zero src (b ∷ buf) = b ∷ buf
copy_chars (suc n) [] (b ∷ buf) = b ∷ buf
copy_chars (suc n) (c ∷ src) (b ∷ buf) = if c == 0 then b ∷ buf else c ∷ copy_chars n src buf

-- The string that a buffer or a parameter holds: what stands before the first NUL.
abbrev pub text : List ℕ → List ℕ
text [] = []
text (c ∷ s) = if c == 0 then [] else c ∷ text s

-- Reading a copied string back gives the string, cut at `n` bytes.
pub text-copy_text :
    (n : ℕ) (src buf : List ℕ) → n < length buf → text (copy_text n src buf) ≡ take n (text src)
unfolding copy_text
text-copy_text n src [] h = absurd (omega arith)
text-copy_text zero src (b ∷ buf) h = refl
text-copy_text (suc n) [] (b ∷ buf) h = refl
text-copy_text (suc n) (c ∷ src) (b ∷ buf) h = ground (arith, text-copy_text n src buf)

pub length-copy_text : (n : ℕ) (src buf : List ℕ) → length (copy_text n src buf) ≡ length buf
unfolding copy_text
length-copy_text n src [] = refl
length-copy_text zero src (b ∷ buf) = refl
length-copy_text (suc n) [] (b ∷ buf) = refl
length-copy_text (suc n) (c ∷ src) (b ∷ buf) = ground (arith, length-copy_text n src buf)

-- `for (j = 0; j < limit && key[j]; j++) if (stored[j] != key[j]) → no match`: the bytes of `key`
-- are looked for at the start of `stored`, whatever stands behind them.
unfoldable pub match_key : ℕ → List ℕ → List ℕ → Bool
match_key zero stored key = true
match_key (suc n) stored [] = true
match_key (suc n) [] (k ∷ key) = k == 0
match_key (suc n) (c ∷ stored) (k ∷ key) =
    if k == 0 then true else (c == k) && match_key n stored key

-- A name that was copied whole is recognised.
pub match_key-copy_text :
    (m n : ℕ) (src buf : List ℕ)
    → length (text src) ≤ n
    → n < length buf
    → match_key m (copy_text n src buf) src ≡ true
unfolding match_key copy_text
match_key-copy_text zero n src buf h l = refl
match_key-copy_text (suc m) n [] [] h l = refl
match_key-copy_text (suc m) n [] (b ∷ buf) h l = refl
match_key-copy_text (suc m) n (c ∷ src) [] h l = absurd (omega arith)
match_key-copy_text (suc m) zero (c ∷ src) (b ∷ buf) h l = ground arith
match_key-copy_text (suc m) (suc n) (c ∷ src) (b ∷ buf) h l =
    ground (arith, match_key-copy_text m n src buf)
