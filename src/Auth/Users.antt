-- ===== src/Auth/Users.antt =====
-- The user table of security/firewall/firewall.c: its invariant, `auth_create_user`,
-- `auth_delete_user` and `auth_is_admin`.
use homeserver_os.Base.{
  ℕ, suc, ◌+◌, ◌-◌, ◌^◌, ◌<◌, ◌≡◌, ◌≢◌, refl, sym, ◌∙◌, false, List, [], ◌∷◌, ◌++◌, arith, length,
  Option, none, some, take, leb, zero,
}
use homeserver_os.Base.Int.{ℤ, pos}
use homeserver_os.Base.Text.{text, text-copy_text, length-copy_text}
use homeserver_os.Base.Table.{find, erase_first}
use homeserver_os.Base.Table.Ids.{has_id, find-append_self, find-append_other}
use homeserver_os.Base.Table.Slots.{All-get_elem?}
use homeserver_os.Base.Table.Laws.{
  write_at-Wrote, remove_first-Removed, remove_first-some, find_first-eq-find,
}
use homeserver_os.Base.Table.Valid.{
  IsTable, write_at-in_bounds, IsTable-write_at, IsTable-remove_first, find_removed_self,
  find_removed_ne, find_next,
}
use homeserver_os.Auth.{
  Auth, User, user_id, inc, max_users, put_hash, fill_user, create_user, delete_user, is_admin,
  simple_hash,
}

-- The users that exist, in the order of the table.
abbrev pub live : Auth → List User
live s = take s.count s.users

abbrev pub user_of : ℕ → Auth → Option User
user_of id s = find (has_id user_id id) (live s)

-- The arrays of a slot have the declared sizes.
pub record IsSlot (u : User) : Type 0 where
  pub name_size : length u.username ≡ 32
  pub hash_size : length u.password_hash ≡ 64

-- Between two calls.
abbrev pub IsValid : Auth → Type 0
IsValid s = IsTable user_id IsSlot max_users s.users s.count s.next_id

length-put_hash : (n i hash : ℕ) (buf : List ℕ) → length (put_hash n i hash buf) ≡ length buf
unfolding put_hash
length-put_hash n i hash [] = refl
length-put_hash zero i hash (b ∷ buf) = refl
length-put_hash (suc n) i hash (b ∷ buf) = ground (arith, length-put_hash n (suc i) hash buf)

-- The parameters of one call of `auth_create_user`.
module _ (username password : List ℕ) (uid gid : ℕ) (admin : ℤ) where
  abbrev fill : ℕ → User → User
  fill id = fill_user id username password uid gid admin

  -- An enabled user with the parameters of the call, the name cut at 31 bytes.
  pub record IsNew (id : ℕ) (u : User) : Type 0 where
    pub named : u.id ≡ id
    pub called : text u.username ≡ take 31 (text username)
    pub with_uid : u.uid ≡ uid
    pub with_gid : u.gid ≡ gid
    pub with_rights : u.is_admin ≡ admin
    pub is_enabled : u.enabled ≡ 1
    pub no_failure : u.failed_attempts ≡ 0

  fill-IsNew : (id : ℕ) (u : User) → IsSlot u → IsNew id (fill id u)
  unfolding fill_user
  fill-IsNew id u h = record {
    named = refl;
    called = text-copy_text 31 username u.username (omega (arith, h.name_size));
    with_uid = refl;
    with_gid = refl;
    with_rights = refl;
    is_enabled = refl;
    no_failure = refl;
  }

  fill-id : (id : ℕ) (u : User) → user_id (fill id u) ≡ id
  unfolding fill_user
  fill-id id u = refl

  fill-IsSlot : (id : ℕ) (u : User) → IsSlot u → IsSlot (fill id u)
  unfolding fill_user
  fill-IsSlot id u h = record {
    name_size = length-copy_text 31 username u.username ∙ h.name_size;
    hash_size = length-put_hash 8 0 (simple_hash password) u.password_hash ∙ h.hash_size;
  }

  -- What a successful `auth_create_user` leaves: the new user under a fresh id, the others unchanged.
  pub record Created (s t : Auth) : Type 0 where
    pub old : User
    pub old_slot : IsSlot old
    pub user : User
    pub filled : user ≡ fill s.next_id old
    pub is_new : IsNew s.next_id user
    pub fresh : user_of s.next_id s ≡ none
    pub found : user_of s.next_id t ≡ some user
    pub others : (j : ℕ) → j ≢ s.next_id → user_of j t ≡ user_of j s
    pub appended : live t ≡ live s ++ user ∷ []
    pub more : t.count ≡ s.count + 1
    pub counter : t.next_id ≡ s.next_id + 1
    pub valid : IsValid t

  -- In a valid table with fewer than 64 users and an id counter below its last value,
  -- `auth_create_user` returns the counter and appends an enabled user with the parameters of the call
  -- under that id; no other user changes, and the table stays valid.
  pub create_user-Created :
      (s : Auth)
      → IsValid s
      → s.count < max_users
      → s.next_id + 1 < 2 ^ 32
      → (t : Auth) × (create_user username password uid gid admin s ≡ some (s.next_id, t))
        × Created s t
  unfolding create_user
  create_user-Created s v room small =
      let (users, e) = write_at-in_bounds user_id IsSlot v (fill s.next_id) room in
      let w = write_at-Wrote s.count (fill s.next_id) s.users e in
      let next : s.count + 1 ≡ suc s.count = omega arith in
      let exact : inc s.next_id ≡ s.next_id + 1 = omega arith in
      let t : Auth = record s { users = users; count = s.count + 1; next_id = inc s.next_id } in
      let appended : live t ≡ live s ++ fill s.next_id w.old ∷ [] = rw next w.live in
      let free : user_of s.next_id s ≡ none = find_next user_id IsSlot v in
      let slot = All-get_elem? IsSlot s.count s.users v.slots w.slot in
      let open_slot : leb max_users s.count ≡ false = ground arith in
      (
        t,
        rw (open_slot, e),
        record {
          old = w.old;
          old_slot = slot;
          user = fill s.next_id w.old;
          filled = refl;
          is_new = fill-IsNew s.next_id w.old slot;
          fresh = free;
          found = rw appended (
              find-append_self user_id s.next_id (live s) (fill s.next_id w.old) free
                (fill-id s.next_id w.old));
          others = λ j ne. rw appended (
              find-append_other user_id j (live s) (fill s.next_id w.old)
                (λ q. ne (sym q ∙ fill-id s.next_id w.old)));
          appended = appended;
          more = refl;
          counter = exact;
          valid =
              IsTable-write_at user_id IsSlot v (fill s.next_id) (fill-id s.next_id)
                (fill-IsSlot s.next_id) e room small;
        },
      )

-- What `auth_delete_user` leaves when a user has the id.
pub record Dropped (id : ℕ) (s t : Auth) : Type 0 where
  pub removed : live t ≡ erase_first (has_id user_id id) (live s)
  pub gone : user_of id t ≡ none
  pub others : (j : ℕ) → j ≢ id → user_of j t ≡ user_of j s
  pub no_admin : is_admin id t ≡ pos 0
  pub fewer : t.count + 1 ≡ s.count
  pub valid : IsValid t

is_admin-none : (id : ℕ) (s : Auth) → user_of id s ≡ none → is_admin id s ≡ pos 0
unfolding is_admin
is_admin-none id s h =
    let missing = find_first-eq-find (has_id user_id id) s.count s.users ∙ h in
    rw (missing, is_admin) refl

-- `auth_delete_user` of an id in use returns 0 and removes its user, who is then no administrator;
-- the others stay in their order, unchanged, and the invariant holds.
pub delete_user-Dropped :
    (id : ℕ) (s : Auth) (v : IsValid s) (u : User)
    → user_of id s ≡ some u
    → (t : Auth) × (delete_user id s ≡ (pos 0, t)) × Dropped id s t
unfolding delete_user
delete_user-Dropped id s v u h =
    let (users, e) = remove_first-some (has_id user_id id) s.count s.users h in
    let d =
      remove_first-Removed (has_id user_id id) s.count s.users (omega (arith, v.storage, v.within))
        e in
    let t : Auth = record s { users = users; count = s.count - 1 } in
    let gone : user_of id t ≡ none = find_removed_self user_id IsSlot v id e in
    (
      t,
      rw (e, delete_user),
      record {
        removed = d.live;
        gone = gone;
        others = λ j ne. find_removed_ne user_id IsSlot v id j ne e;
        no_admin = is_admin-none id t gone;
        fewer = omega (arith, d.nonempty);
        valid = IsTable-remove_first user_id IsSlot v (has_id user_id id) e;
      },
    )
