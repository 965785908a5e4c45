-- ===== src/Auth/Default.antt =====
-- The administrator that `auth_init` of security/firewall/firewall.c creates.
use homeserver_os.Base.{
  ℕ, zero, suc, ◌*◌, ◌/◌, ◌%◌, ap, take, ◌^◌, ◌≤◌, ◌-◌, ◌≡◌, refl, ◌∙◌, true, false, List, [], ◌∷◌,
  arith, length, some, replicate, inl, inr,
}
use homeserver_os.Base.Int.{pos, minus_one}
use homeserver_os.Base.Text.{codes, text, text-copy_text}
use homeserver_os.Base.Table.Slots.{All}
use homeserver_os.Auth.{
  Auth, User, max_users, simple_hash, hash_from, put_hash, take_hash, fill_user, init, answers_to,
  accepts, verify, get_user_count,
}
use homeserver_os.Auth.Users.{live, IsSlot, IsValid, create_user-Created}
use homeserver_os.Auth.Verify.{candidate, verify-Attempted}
use homeserver_os.Auth.Login.{fill_user-answers_to}

-- What the loops over the hash give does not hang on what the buffer held.
take_hash-put_hash_blank :
    (n j stored hash : ℕ) (buf : List ℕ)
    → n ≤ length buf
    → take_hash n j stored (put_hash n j hash buf)
      ≡ take_hash n j stored (put_hash n j hash (replicate n 0))
unfolding take_hash put_hash
take_hash-put_hash_blank zero j stored hash buf h = refl
take_hash-put_hash_blank (suc n) j stored hash [] h = absurd (omega arith)
take_hash-put_hash_blank (suc n) j stored hash (b ∷ buf) h =
    take_hash-put_hash_blank n (suc j) _ hash buf (omega arith)

admin_hash : simple_hash (codes "admin") ≡ 252902542
unfolding simple_hash hash_from
admin_hash = refl

read_back : take_hash 8 0 0 (put_hash 8 0 252902542 (replicate 8 0)) ≡ 2 ^ 32 - 114
unfolding take_hash put_hash
read_back = refl

abbrev first_user : User → User
first_user = fill_user 1 (codes "admin") (codes "admin") 0 0 (pos 1)

first_user-refuses :
    (u : User) → IsSlot u → accepts (simple_hash (codes "admin")) (first_user u) ≡ false
unfolding accepts fill_user
first_user-refuses u h =
    let stored =
      take_hash-put_hash_blank 8 0 0 252902542 u.password_hash (omega (arith, h.hash_size))
      ∙ read_back in
    rw (admin_hash, stored) refl

-- The low byte of the hash shifted to the right by 0, 4, ... and 28 bits
abbrev pub hash_bytes : ℕ → List ℕ
hash_bytes hash =
    hash % 256
    ∷ hash / 2 ^ 4 % 256
    ∷ hash / 2 ^ 8 % 256
    ∷ hash / 2 ^ 12 % 256
    ∷ hash / 2 ^ 16 % 256
    ∷ hash / 2 ^ 20 % 256
    ∷ hash / 2 ^ 24 % 256
    ∷ hash / 2 ^ 28 % 256
    ∷ []

put_hash_start :
    (n i hash : ℕ) (buf : List ℕ)
    → n ≤ length buf
    → take n (put_hash n i hash buf) ≡ take n (put_hash n i hash (replicate n 0))
unfolding put_hash
put_hash_start zero i hash buf h = refl
put_hash_start (suc n) i hash [] h = absurd (omega arith)
put_hash_start (suc n) i hash (b ∷ buf) h =
    ap (λ l. hash / 2 ^ (i * 4) % 256 ∷ l) (put_hash_start n (suc i) hash buf (omega arith))

put_hash_literal : take 8 (put_hash 8 0 252902542 (replicate 8 0)) ≡ hash_bytes 252902542
unfolding put_hash
put_hash_literal = refl

first_user_stored :
    (u : User)
    → IsSlot u
    → (text (first_user u).username ≡ codes "admin")
      × (take 8 (first_user u).password_hash ≡ hash_bytes (simple_hash (codes "admin")))
unfolding fill_user
first_user_stored u h = (
  text-copy_text 31 (codes "admin") u.username (omega (arith, h.name_size)),
  rw (admin_hash) (
      put_hash_start 8 0 252902542 u.password_hash (omega (arith, h.hash_size)) ∙ put_hash_literal),
)

-- The state that `auth_init` leaves.
pub record OnlyAdmin (t : Auth) : Type 0 where
  pub user : User
  pub only : live t ≡ user ∷ []
  pub counted : get_user_count t ≡ 1
  pub named : text user.username ≡ codes "admin"
  pub hashed : take 8 user.password_hash ≡ hash_bytes (simple_hash (codes "admin"))
  pub is_first : user.id ≡ 1
  pub rights : user.is_admin ≡ pos 1
  pub on : user.enabled ≡ 1
  pub valid : IsValid t
  pub refused : (verify (codes "admin") (codes "admin") t).0 ≡ minus_one

-- Whatever stands in the memory of the table, `auth_init` leaves one user, an enabled administrator
-- with id 1 and the name "admin", whose entry has the bytes of the hash of the password "admin". Yet
-- `auth_verify_user` refuses that name and password with -1.
pub init-OnlyAdmin :
    (s : Auth)
    → length s.users ≡ max_users
    → All IsSlot s.users
    → (t : Auth) × (init s ≡ some t) × OnlyAdmin t
unfolding init get_user_count
init-OnlyAdmin s storage slots =
    let empty : Auth = record s { count = 0; next_id = 1 } in
    let v : IsValid empty = record {
      storage = storage;
      within = omega arith;
      ids = omega arith;
      slots = slots;
      small = omega arith;
    } in
    let (t, made, c) =
      create_user-Created (codes "admin") (codes "admin") 0 0 (pos 1) empty v (omega arith)
        (omega arith) in
    let answers : answers_to (codes "admin") c.user ≡ true = rw c.filled (
      fill_user-answers_to (codes "admin") (codes "admin") 0 0 (pos 1) 1 c.old c.old_slot
        (omega arith)) in
    let refuses : accepts (simple_hash (codes "admin")) c.user ≡ false =
      rw c.filled (first_user-refuses c.old c.old_slot) in
    let first : candidate (codes "admin") t ≡ some c.user = rw (c.appended, answers) refl in
    let a = verify-Attempted (codes "admin") (codes "admin") t c.valid c.user first in
    (
      t,
      rw made refl,
      record {
        user = c.user;
        only = c.appended;
        counted = c.more;
        named = rw c.filled (first_user_stored c.old c.old_slot).0;
        hashed = rw c.filled (first_user_stored c.old c.old_slot).1;
        is_first = c.is_new.named;
        rights = c.is_new.with_rights;
        on = c.is_new.is_enabled;
        valid = c.valid;
        refused = elim a.verdict [
          | inl (e, let_in) ↦ absurd (cc (e, refuses))
          | inr (e, shut_out) ↦ shut_out.returned
        ];
      },
    )
