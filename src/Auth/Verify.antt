-- ===== src/Auth/Verify.antt =====
-- `auth_verify_user` of security/firewall/firewall.c: who is let in, and how an account locks.
use homeserver_os.Base.{
  ℕ, ◌+◌, ◌%◌, ◌^◌, ◌≡◌, ◌≢◌, refl, sym, ◌∙◌, ◌⊎◌, true, false, List, Option, none, some, some_inj,
  take, leb, if◌then◌else◌, Bool-cases, inl, inr,
}
use mathlib.Core.Path.{subst}
use homeserver_os.Base.Int.{to_int, ℤ, minus_one}
use homeserver_os.Base.Table.{find, replace_first}
use homeserver_os.Base.Table.Laws.{find_first-eq-find}
use homeserver_os.Base.Table.Updates.{update_first-Updated, update_first-some}
use homeserver_os.Base.Table.Keyed.{
  find-replace_first_same, find-replace_first_other, IsTable-update_first_same,
}
use homeserver_os.Auth.{
  Auth, User, user_id, simple_hash, answers_to, accepts, attempt, verdict, verify,
}
use homeserver_os.Auth.Users.{live, user_of, IsSlot, IsValid}

-- The entry that `auth_verify_user` stops at: the first enabled one whose name starts with the one given.
abbrev pub candidate : List ℕ → Auth → Option User
candidate username s = find (answers_to username) (live s)

abbrev try : ℕ → User → Option User
try hash u = some (attempt hash u)

attempted : (hash : ℕ) (u : User) → try hash u ≡ some (attempt hash u)
attempted hash u = refl

try-attempt : (hash : ℕ) (u w : User) → try hash u ≡ some w → attempt hash u ≡ w
try-attempt hash u w e = some_inj (sym (attempted hash u) ∙ e)

attempt-id : (hash : ℕ) (u : User) → user_id (attempt hash u) ≡ user_id u
unfolding attempt
attempt-id hash u = elim (Bool-cases (accepts hash u)) [ inl e ↦ rw e refl | inr e ↦ rw e refl ]

attempt-IsSlot : (hash : ℕ) (u : User) → IsSlot u → IsSlot (attempt hash u)
unfolding attempt
attempt-IsSlot hash u h = elim (Bool-cases (accepts hash u)) [
  | inl e ↦ rw e (record { name_size = h.name_size; hash_size = h.hash_size })
  | inr e ↦ rw e (record { name_size = h.name_size; hash_size = h.hash_size })
]

-- What an attempt with the password of hash `hash` makes of the entry `u`.
pub record Accepted (u w : User) (result : ℤ) : Type 0 where
  pub returned : result ≡ to_int u.id
  pub cleared : w.failed_attempts ≡ 0
  pub still_enabled : w.enabled ≡ u.enabled

pub record Rejected (u w : User) (result : ℤ) : Type 0 where
  pub returned : result ≡ minus_one
  pub counted : w.failed_attempts ≡ (u.failed_attempts + 1) % 2 ^ 32
  pub locked : w.enabled ≡ (if leb 5 ((u.failed_attempts + 1) % 2 ^ 32) then 0 else u.enabled)

pub record SameAccount (u w : User) : Type 0 where
  pub same_id : w.id ≡ u.id
  pub same_name : w.username ≡ u.username
  pub same_hash : w.password_hash ≡ u.password_hash
  pub same_rights : w.is_admin ≡ u.is_admin

outcome : ℕ → User → ℤ
outcome hash u = if accepts hash u then to_int u.id else minus_one

attempt-SameAccount : (hash : ℕ) (u : User) → SameAccount u (attempt hash u)
unfolding attempt
attempt-SameAccount hash u = elim (Bool-cases (accepts hash u)) [
  | inl e ↦ rw e (record { same_id = refl; same_name = refl; same_hash = refl; same_rights = refl })
  | inr e ↦ rw e (record { same_id = refl; same_name = refl; same_hash = refl; same_rights = refl })
]

attempt-Accepted :
    (hash : ℕ) (u : User) → accepts hash u ≡ true → Accepted u (attempt hash u) (outcome hash u)
unfolding attempt outcome
attempt-Accepted hash u e = rw e (record { returned = refl; cleared = refl; still_enabled = refl })

attempt-Rejected :
    (hash : ℕ) (u : User) → accepts hash u ≡ false → Rejected u (attempt hash u) (outcome hash u)
unfolding attempt outcome
attempt-Rejected hash u e = rw e (record { returned = refl; counted = refl; locked = refl })

-- What a call that finds the entry `u` leaves.
pub record Attempted (username password : List ℕ) (u : User) (s t : Auth) (result : ℤ)
    : Type 0 where
  pub user : User
  pub found : user_of u.id t ≡ some user
  pub account : SameAccount u user
  pub verdict :
      (accepts (simple_hash password) u ≡ true) × Accepted u user result
      ⊎ (accepts (simple_hash password) u ≡ false) × Rejected u user result
  pub others : (j : ℕ) → j ≢ u.id → user_of j t ≡ user_of j s
  pub same_order : live t ≡ replace_first (answers_to username) user (live s)
  pub same_count : t.count ≡ s.count
  pub valid : IsValid t

module _ (username password : List ℕ) (s : Auth) (v : IsValid s) where
  -- `auth_verify_user` decides on the first enabled user whose name starts with the bytes given: the
  -- password's hash is compared with the one in the entry. If they agree, the id is returned and the
  -- failures are cleared; if not, -1 is returned, the failure is counted, and the fifth disables the
  -- account. No other entry changes, and the invariant holds.
  pub verify-Attempted :
      (u : User)
      → candidate username s ≡ some u
      → Attempted username password u s
          (verify username password s).1
          (verify username password s).0
  unfolding verify verdict outcome
  verify-Attempted u h =
      let hash = simple_hash password in
      let (users, e) =
        update_first-some (answers_to username) (try hash) s.count s.users h (attempted hash u) in
      let c = update_first-Updated (answers_to username) (try hash) s.count s.users e in
      let old : c.old ≡ u = some_inj (sym c.found ∙ h) in
      let new : c.new ≡ attempt hash u = some_inj (sym (rw old at c.passed)) in
      let order : take s.count users
          ≡ replace_first (answers_to username) (attempt hash u) (live s) =
        rw new at c.live in
      let first = find_first-eq-find (answers_to username) s.count s.users ∙ h in
      let same = attempt-id hash u in
      let t : Auth = record s { users = users } in
      rw (first, e)
        (record {
          user = attempt hash u;
          found = rw order (
              (find-replace_first_same user_id (answers_to username) (attempt hash u) 1 s.next_id
                (live s) h same v.ids).1);
          account = attempt-SameAccount hash u;
          verdict = decided hash u;
          others = λ j ne. rw order (
              find-replace_first_other user_id (answers_to username) (attempt hash u) j (live s) h
                same ne);
          same_order = order;
          same_count = refl;
          valid =
              IsTable-update_first_same user_id IsSlot v (answers_to username) (try hash)
                (λ x z q. rw (← try-attempt hash x z q) (attempt-id hash x))
                (λ x z g q. subst IsSlot (try-attempt hash x z q) (attempt-IsSlot hash x g)) e;
        })
    where
      decided :
          (hash : ℕ) (u : User)
          → (accepts hash u ≡ true) × Accepted u (attempt hash u) (outcome hash u)
            ⊎ (accepts hash u ≡ false) × Rejected u (attempt hash u) (outcome hash u)
      decided hash u = elim (Bool-cases (accepts hash u)) [
        | inl e ↦ inl (e, attempt-Accepted hash u e)
        | inr e ↦ inr (e, attempt-Rejected hash u e)
      ]

  -- Where no enabled user's name starts with the one given, -1 is returned and nothing changes.
  pub verify-unknown : candidate username s ≡ none → verify username password s ≡ (minus_one, s)
  unfolding verify verdict
  verify-unknown h =
      let missing = find_first-eq-find (answers_to username) s.count s.users ∙ h in rw missing refl
