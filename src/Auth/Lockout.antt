-- ===== src/Auth/Lockout.antt =====
-- How `auth_verify_user` of security/firewall/firewall.c locks an account.
use homeserver_os.Base.{
  ℕ, ◌+◌, ◌%◌, ◌^◌, ◌<◌, ◌≤◌, ◌≡◌, ◌≢◌, refl, ap, sym, ◌∙◌, true, false, List, [], ◌∷◌, arith,
  length, leb, some, some_inj, Option-cases, inl, inr,
}
use native.Mathlib.Decide.{dec_lt}
use homeserver_os.Base.Table.Keyed.{find-passes, find-replace_first_pass, find-replace_first_same}
use homeserver_os.Auth.{Auth, User, user_id, simple_hash, answers_to, accepts, verify}
use homeserver_os.Auth.Users.{live, user_of, IsValid}
use homeserver_os.Auth.Verify.{candidate, verify-Attempted, verify-unknown, SameAccount}

answers_to-enabled : (username : List ℕ) (u : User) → answers_to username u ≡ true → u.enabled ≢ 0
unfolding answers_to
answers_to-enabled username u h e = ground arith

-- Calls of `auth_verify_user`, one after the other: the names and passwords given.
abbrev pub verify_all : List (List ℕ × List ℕ) → Auth → Auth
verify_all [] s = s
verify_all ((username, password) ∷ calls) s = verify_all calls (verify username password s).1

verify-IsValid :
    (username password : List ℕ) (s : Auth) → IsValid s → IsValid (verify username password s).1
verify-IsValid username password s v = elim (Option-cases (candidate username s)) [
  | inl h ↦ rw (verify-unknown username password s v h) v
  | inr (u, h) ↦ (verify-Attempted username password s v u h).valid
]

verify-locked :
    (username password : List ℕ) (id : ℕ) (s : Auth) (u : User)
    → IsValid s
    → user_of id s ≡ some u
    → u.enabled ≡ 0
    → user_of id (verify username password s).1 ≡ some u
verify-locked username password id s u v h off = elim (Option-cases (candidate username s)) [
  | inl e ↦ rw (verify-unknown username password s v e) h
  | inr (w, e) ↦
      let a = verify-Attempted username password s v w e in a.others id (different w e) ∙ h
]
  where
    different : (w : User) → candidate username s ≡ some w → id ≢ w.id
    different w e same =
        let on = answers_to-enabled username w (find-passes (answers_to username) (live s) e) in
        let there =
          (find-replace_first_same user_id (answers_to username) w 1 s.next_id (live s) e refl
            v.ids).0 in
        let both : some w ≡ some u = sym there ∙ ap (λ k. user_of k s) (sym same) ∙ h in
        let same_user : w ≡ u = some_inj both in on (rw same_user off)

-- Once an account is disabled, no run of calls of `auth_verify_user`, whatever names and passwords
-- they give, changes its entry: it stays locked.
pub verify_all-locked :
    (calls : List (List ℕ × List ℕ)) (id : ℕ) (s : Auth) (u : User)
    → IsValid s
    → user_of id s ≡ some u
    → u.enabled ≡ 0
    → user_of id (verify_all calls s) ≡ some u
verify_all-locked [] id s u v h off = h
verify_all-locked ((username, password) ∷ calls) id s u v h off =
    verify_all-locked calls id (verify username password s).1 u
      (verify-IsValid username password s v) (verify-locked username password id s u v h off) off

-- Wrong passwords for one name.
abbrev pub tries : List ℕ → List (List ℕ) → List (List ℕ × List ℕ)
tries username [] = []
tries username (password ∷ passwords) = (username, password) ∷ tries username passwords

abbrev pub AllWrong : List (List ℕ) → User → Type 0
AllWrong [] u = Unit
AllWrong (password ∷ passwords) u =
    (accepts (simple_hash password) u ≡ false) × AllWrong passwords u

accepts-SameAccount : (hash : ℕ) (u w : User) → SameAccount u w → accepts hash w ≡ accepts hash u
unfolding accepts
accepts-SameAccount hash u w h = rw h.same_hash refl

AllWrong-SameAccount :
    (passwords : List (List ℕ)) (u w : User)
    → SameAccount u w
    → AllWrong passwords u
    → AllWrong passwords w
AllWrong-SameAccount [] u w same h = tt
AllWrong-SameAccount (password ∷ passwords) u w same (e, h) = (
  accepts-SameAccount (simple_hash password) u w same ∙ e,
  AllWrong-SameAccount passwords u w same h,
)

answers_to-SameAccount :
    (username : List ℕ) (u w : User)
    → SameAccount u w
    → w.enabled ≡ u.enabled
    → answers_to username w ≡ answers_to username u
unfolding answers_to
answers_to-SameAccount username u w same on = rw (on, same.same_name) refl

-- An account locks: in a valid table, calls for a name that an enabled user with fewer than five
-- failures answers to first, all with wrong passwords, and enough of them to bring its failures to
-- five, leave it disabled.
pub verify_all-locks :
    (username : List ℕ) (passwords : List (List ℕ)) (s : Auth) (u : User)
    → IsValid s
    → candidate username s ≡ some u
    → AllWrong passwords u
    → u.failed_attempts < 5
    → 5 ≤ u.failed_attempts + length passwords
    → (w : User) × (user_of u.id (verify_all (tries username passwords) s) ≡ some w)
      × (w.enabled ≡ 0)
verify_all-locks username [] s u v h wrong few enough = absurd (omega arith)
verify_all-locks username (password ∷ passwords) s u v h (bad, wrong) few enough =
    let a = verify-Attempted username password s v u h in
    elim a.verdict [
      | inl (good, r) ↦ absurd (cc (good, bad))
      | inr (e, r) ↦ elim (dec_lt u.failed_attempts 4) [
        | yes more ↦
            let five : leb 5 ((u.failed_attempts + 1) % 2 ^ 32) ≡ false = ground arith in
            let on : a.user.enabled ≡ u.enabled = rw five at r.locked in
            let answers : answers_to username a.user ≡ true =
              answers_to-SameAccount username u a.user a.account on
              ∙ find-passes (answers_to username) (live s) h in
            let next : candidate username (verify username password s).1 ≡ some a.user =
              rw a.same_order
                (find-replace_first_pass (answers_to username) a.user (live s) h answers) in
            let (w, found, off) =
              verify_all-locks username passwords (verify username password s).1 a.user a.valid next
                (AllWrong-SameAccount passwords u a.user a.account wrong) (omega (arith, r.counted))
                (omega (arith, r.counted)) in
            (w, rw a.account.same_id at found, off)
        | no last ↦
            let five : leb 5 ((u.failed_attempts + 1) % 2 ^ 32) ≡ true = ground arith in
            let off : a.user.enabled ≡ 0 = rw five at r.locked in
            (
              a.user,
              verify_all-locked (tries username passwords) u.id (verify username password s).1
                  a.user a.valid a.found off,
              off,
            )
      ]
    ]
