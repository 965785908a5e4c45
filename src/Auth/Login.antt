-- ===== src/Auth/Login.antt =====
-- `auth_create_user` and `auth_verify_user` of security/firewall/firewall.c together.
use homeserver_os.Base.{
  ℕ, ◌+◌, ◌^◌, ◌<◌, ◌≤◌, ◌≡◌, ◌∙◌, true, List, arith, length, none, some, ap, inl, inr,
}
use homeserver_os.Base.Int.{to_int, ℤ}
use homeserver_os.Base.Text.{text, match_key-copy_text}
use homeserver_os.Base.Table.Keyed.{find-append_none}
use homeserver_os.Auth.{
  Auth, User, max_users, simple_hash, fill_user, create_user, answers_to, accepts, verify,
}
use homeserver_os.Auth.Hash.{IsPlain, simple_hash-lt, take_hash-put_hash}
use homeserver_os.Auth.Users.{live, IsSlot, IsValid, create_user-Created}
use homeserver_os.Auth.Verify.{candidate, verify-Attempted}

module _ (username password : List ℕ) (uid gid : ℕ) (admin : ℤ) where
  new_user : ℕ → User → User
  new_user id u = fill_user id username password uid gid admin u

  -- The new entry answers to its name, and accepts its password.
  pub fill_user-answers_to :
      (id : ℕ) (u : User)
      → IsSlot u
      → length (text username) ≤ 31
      → answers_to username (fill_user id username password uid gid admin u) ≡ true
  unfolding answers_to fill_user
  fill_user-answers_to id u h fits =
      match_key-copy_text 32 31 username u.username fits (omega (arith, h.name_size))

  fill_user-accepts :
      (id : ℕ) (u : User)
      → IsSlot u
      → IsPlain (simple_hash password)
      → accepts (simple_hash password) (fill_user id username password uid gid admin u) ≡ true
  unfolding accepts fill_user
  fill_user-accepts id u h plain =
      let same =
        take_hash-put_hash (simple_hash password) u.password_hash (simple_hash-lt password) plain
          (omega (arith, h.hash_size)) in
      rw same (ground arith)

  -- A user whose name has at most 31 bytes and answers to no other entry, and the bytes of whose
  -- password's hash all have a clear sign bit, is created and then let in: `auth_verify_user` returns
  -- the id that `auth_create_user` returned, as an int.
  pub verify-create_user :
      (s : Auth)
      → IsValid s
      → s.count < max_users
      → s.next_id + 1 < 2 ^ 32
      → length (text username) ≤ 31
      → candidate username s ≡ none
      → IsPlain (simple_hash password)
      → (t : Auth) × (create_user username password uid gid admin s ≡ some (s.next_id, t))
        × ((verify username password t).0 ≡ to_int s.next_id)
  verify-create_user s v room small fits free plain =
      let (t, made, c) = create_user-Created username password uid gid admin s v room small in
      let answers : answers_to username c.user ≡ true =
        rw c.filled (fill_user-answers_to s.next_id c.old c.old_slot fits) in
      let accepted : accepts (simple_hash password) c.user ≡ true =
        rw c.filled (fill_user-accepts s.next_id c.old c.old_slot plain) in
      let first : candidate username t ≡ some c.user =
        rw c.appended (find-append_none (answers_to username) c.user (live s) free answers) in
      let a = verify-Attempted username password t c.valid c.user first in
      (
        t,
        made,
        elim a.verdict [
          | inl (e, let_in) ↦ let_in.returned ∙ ap to_int c.is_new.named
          | inr (e, shut_out) ↦ absurd (cc (e, accepted))
        ],
      )
