-- ===== src/Api/Paths.antt =====
-- The comparison of paths of web/api/api.c.
use homeserver_os.Base.{
  ℕ, zero, suc, ◌≡◌, ◌↔◌, refl, Bool, true, false, List, [], ◌∷◌, ◌==◌, ◌&&◌, arith, length, take,
  replicate,
}
use homeserver_os.Base.Text.{text, copy_chars}
use homeserver_os.Api.{match_path}

abbrev pub text_eq : List ℕ → List ℕ → Bool
text_eq [] [] = true
text_eq [] (y ∷ b) = false
text_eq (x ∷ a) [] = false
text_eq (x ∷ a) (y ∷ b) = x == y && text_eq a b

pub text_eq_iff : (a b : List ℕ) → (text_eq a b ≡ true) ↔ (a ≡ b)
text_eq_iff [] [] = ((λ e. refl), (λ e. refl))
text_eq_iff [] (y ∷ b) = ((λ e. absurd (cc)), (λ e. absurd (cc)))
text_eq_iff (x ∷ a) [] = ((λ e. absurd (cc)), (λ e. absurd (cc)))
text_eq_iff (x ∷ a) (y ∷ b) =
    let (to, from) = text_eq_iff a b in ((λ e. ground (arith, to)), (λ e. ground (arith, from)))

-- Two arrays match exactly where they hold the same text.
pub match_path-text_eq :
    (n : ℕ) (a b : List ℕ)
    → length a ≡ n
    → length b ≡ n
    → match_path n a b ≡ text_eq (text a) (text b)
unfolding match_path
match_path-text_eq zero [] [] h k = refl
match_path-text_eq zero [] (y ∷ b) h k = absurd (omega arith)
match_path-text_eq zero (x ∷ a) b h k = absurd (omega arith)
match_path-text_eq (suc n) [] b h k = absurd (omega arith)
match_path-text_eq (suc n) (x ∷ a) [] h k = absurd (omega arith)
match_path-text_eq (suc n) (x ∷ a) (y ∷ b) h k =
    ground (arith, match_path-text_eq n a b (omega arith) (omega arith))

-- A path that is copied over zeros is read back, cut at the size of the array.
pub text-copy_chars :
    (n m : ℕ) (src : List ℕ) → text (copy_chars n src (replicate m 0)) ≡ take m (take n (text src))
unfolding copy_chars
text-copy_chars n zero src = refl
text-copy_chars zero (suc m) src = refl
text-copy_chars (suc n) (suc m) [] = refl
text-copy_chars (suc n) (suc m) (c ∷ src) = ground (arith, text-copy_chars n m src)

pub length-copy_chars : (n : ℕ) (src buf : List ℕ) → length (copy_chars n src buf) ≡ length buf
unfolding copy_chars
length-copy_chars n src [] = refl
length-copy_chars zero src (b ∷ buf) = refl
length-copy_chars (suc n) [] (b ∷ buf) = refl
length-copy_chars (suc n) (c ∷ src) (b ∷ buf) = ground (arith, length-copy_chars n src buf)
