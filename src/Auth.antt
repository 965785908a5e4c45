-- ===== src/Auth.antt =====
-- security/firewall/firewall.c, the part on users: `users`, `user_count` and `next_user_id` are the
-- fields of `Auth`. The packet filter of the same file is in Firewall.antt; they share no state.
pub mod Hash
pub mod Users
pub mod Verify
pub mod Login
pub mod Lockout
pub mod Default
mod Tests
use homeserver_os.Base.{
  ℕ, zero, suc, ◌+◌, ◌-◌, ◌*◌, ◌/◌, ◌%◌, ◌^◌, Bool, not, ◌&&◌, List, [], ◌∷◌, Option, none, some,
  ◌==◌, ltb, leb, if◌then◌else◌,
}
use homeserver_os.Base.Int.{to_int, ℤ, pos, negsuc, minus_one, min_int, rounds}
use homeserver_os.Base.Text.{codes, copy_text, match_key}
use homeserver_os.Base.Table.{find_first, update_first, write_at, remove_first, copy_out}
use homeserver_os.Base.Table.Ids.{has_id}
use Prim.Native.Nat.{bit_or}
use mathlib.Core.Option

-- MAX_USERS
abbrev pub max_users : ℕ
max_users = 64

-- `user_t`
pub record User : Type 0 where
  pub id : ℕ  -- uint32_t
  pub username : List ℕ  -- char[32]
  pub password_hash : List ℕ  -- char[64]
  pub uid : ℕ  -- uint32_t
  pub gid : ℕ  -- uint32_t
  pub is_admin : ℤ  -- int
  pub enabled : ℕ  -- int
  pub last_login : ℕ  -- uint64_t
  pub failed_attempts : ℕ  -- uint32_t

abbrev pub user_id : User → ℕ
user_id u = u.id

-- The static variables for the users.
pub record Auth : Type 0 where
  pub users : List User  -- [MAX_USERS]
  pub count : ℕ
  pub next_id : ℕ  -- uint32_t

-- `x++` on a uint32_t
abbrev pub inc : ℕ → ℕ
inc x = (x + 1) % 2 ^ 32

-- `x << k` on a uint32_t
abbrev pub shl : ℕ → ℕ → ℕ
shl x k = x * 2 ^ k % 2 ^ 32

-- A byte of a `char` array read into a 32-bit word: `char` is signed, so the upper half of the
-- bytes stands for negative numbers, whose sign bit fills the word.
abbrev pub widen : ℕ → ℕ
widen c = if ltb c 128 then c else 2 ^ 32 - 256 + c

-- The loop of `simple_hash` with the hash so far.
unfoldable pub hash_from : ℕ → List ℕ → ℕ
hash_from hash [] = hash
hash_from hash (c ∷ str) =
    if c == 0 then hash else hash_from (((shl hash 5 + hash) % 2 ^ 32 + widen c) % 2 ^ 32) str

-- `simple_hash`
unfoldable pub simple_hash : List ℕ → ℕ
simple_hash str = hash_from 5381 str

-- The loop of `auth_create_user` that stores the hash: the rounds left, `i`, the hash, and the rest
-- of the buffer from `i` on. Byte 8 becomes NUL.
unfoldable pub put_hash : ℕ → ℕ → ℕ → List ℕ → List ℕ
put_hash n i hash [] = []
put_hash zero i hash (b ∷ buf) = 0 ∷ buf
put_hash (suc n) i hash (b ∷ buf) = hash / 2 ^ (i * 4) % 256 ∷ put_hash n (suc i) hash buf

-- The loop of `auth_verify_user` that reads it: the rounds left, `j`, `stored_hash`, and the rest of
-- the buffer from `j` on.
unfoldable pub take_hash : ℕ → ℕ → ℕ → List ℕ → ℕ
take_hash zero j stored buf = stored
take_hash (suc n) j stored [] = stored
take_hash (suc n) j stored (b ∷ buf) =
    take_hash n (suc j) (bit_or stored (shl (widen b) (j * 4))) buf

-- `auth_create_user`, the stores into the slot that `user` points to.
unfoldable pub fill_user : ℕ → List ℕ → List ℕ → ℕ → ℕ → ℤ → User → User
fill_user id username password uid gid is_admin user = record user {
  id = id;
  uid = uid;
  gid = gid;
  is_admin = is_admin;
  enabled = 1;
  last_login = 0;
  failed_attempts = 0;
  username = copy_text 31 username user.username;
  password_hash = put_hash 8 0 (simple_hash password) user.password_hash;
}

-- `auth_create_user`. `none` is a write past the end of `users`.
unfoldable pub create_user :
    (username password : List ℕ) (uid gid : ℕ) (is_admin : ℤ) → Auth → Option (ℕ × Auth)
create_user username password uid gid is_admin s =
    if leb max_users s.count
    then some (0, s)
    else Option.map
        (λ users.
          (s.next_id, record s { users = users; count = s.count + 1; next_id = inc s.next_id }))
        (write_at s.count (fill_user s.next_id username password uid gid is_admin) s.users)

-- `auth_init`
unfoldable pub init : Auth → Option Auth
init s =
    Option.map {A = ℕ × Auth} (λ r. r.1)
      (create_user (codes "admin") (codes "admin") 0 0 (pos 1)
        (record s { count = 0; next_id = 1 }))

-- The entries that the loop of `auth_verify_user` stops at.
unfoldable pub answers_to : List ℕ → User → Bool
answers_to username user = not (user.enabled == 0) && match_key 32 user.username username

-- `stored_hash == password_hash`
unfoldable pub accepts : ℕ → User → Bool
accepts hash user = take_hash 8 0 0 user.password_hash == hash

-- What happens to the entry.
unfoldable pub attempt : ℕ → User → User
attempt hash user =
    if accepts hash user
    then record user { last_login = 0; failed_attempts = 0 }
    else let failed = inc user.failed_attempts in
      record user { failed_attempts = failed; enabled = if leb 5 failed then 0 else user.enabled }

-- The result, from the entry that the loop stops at and the array after it.
unfoldable pub verdict : ℕ → Auth → Option User → Option (List User) → ℤ × Auth
verdict hash s none users = (minus_one, s)
verdict hash s (some user) none = (minus_one, s)
verdict hash s (some user) (some users) =
    (if accepts hash user then to_int user.id else minus_one, record s { users = users })

-- `auth_verify_user`
unfoldable pub verify : (username password : List ℕ) → Auth → ℤ × Auth
verify username password s =
    let hash = simple_hash password in
    verdict hash s (find_first (answers_to username) s.count s.users)
      (update_first (answers_to username) (λ user. some (attempt hash user)) s.count s.users)

-- `auth_delete_user`
unfoldable pub delete_user : ℕ → Auth → ℤ × Auth
delete_user id s = elim (remove_first (has_id user_id id) s.count s.users) [
  | none ↦ (minus_one, s)
  | some users ↦ (pos 0, record s { users = users; count = s.count - 1 })
]

-- `auth_is_admin`
unfoldable pub is_admin : ℕ → Auth → ℤ
is_admin id s = elim (find_first (has_id user_id id) s.count s.users) [
  | none ↦ pos 0
  | some user ↦ user.is_admin
]

-- `auth_get_users`: the result, and the caller's buffer.
unfoldable pub get_users : List User → ℤ → Auth → ℤ × List User
get_users buffer max_count s =
    let n = min_int s.count max_count in (n, copy_out (rounds n) s.users buffer)

-- `auth_get_user_count`
unfoldable pub get_user_count : Auth → ℕ
get_user_count s = s.count
