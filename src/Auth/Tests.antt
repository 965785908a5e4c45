-- ===== src/Auth/Tests.antt =====
-- Runs of the user half of security/firewall/firewall.c on small inputs.
use homeserver_os.Base.{zero, suc, ◌≡◌, refl, [], ◌∷◌, ◌++◌, some, arith, replicate, false, true}
use homeserver_os.Base.Int.{to_int, pos}
use homeserver_os.Base.Text.{codes, match_key}
use homeserver_os.Base.Table.Slots.{All-replicate}
use homeserver_os.Auth.{
  Auth, User, simple_hash, hash_from, take_hash, accepts, create_user, verify, answers_to, init,
}
use homeserver_os.Auth.Users.{IsSlot, IsValid, user_of}
use homeserver_os.Auth.Hash.{IsPlain}
use homeserver_os.Auth.Verify.{candidate, Attempted, verify-Attempted}
use homeserver_os.Auth.Login.{verify-create_user}
use homeserver_os.Auth.Lockout.{verify_all, tries, verify_all-locked}
use homeserver_os.Auth.Default.{OnlyAdmin, init-OnlyAdmin}

abbrev blank : User
blank = record {
  id = 0;
  username = replicate 32 0;
  password_hash = replicate 64 0;
  uid = 0;
  gid = 0;
  is_admin = pos 0;
  enabled = 0;
  last_login = 0;
  failed_attempts = 0;
}

blank-IsSlot : IsSlot blank
blank-IsSlot = record { name_size = refl; hash_size = refl }

abbrev loaded : Auth
loaded = record { users = replicate 64 blank; count = 0; next_id = 1 }

loaded-IsValid : IsValid loaded
loaded-IsValid = record {
  storage = refl;
  within = omega arith;
  ids = omega arith;
  slots = All-replicate IsSlot 64 blank blank-IsSlot;
  small = omega arith;
}

abbrev anna : User
anna = record blank { id = 1; username = codes "anna" ++ replicate 28 0; enabled = 1 }

abbrev locked_out : User
locked_out = record anna { enabled = 0 }

-- A table with one user.
abbrev with_user : User → Auth
with_user u = record loaded { users = u ∷ replicate 63 blank; count = 1; next_id = 2 }

anna-IsValid : IsValid (with_user anna)
anna-IsValid = record {
  storage = refl;
  within = omega arith;
  ids = omega arith;
  slots =
      (record { name_size = refl; hash_size = refl }, All-replicate IsSlot 63 blank blank-IsSlot);
  small = omega arith;
}

locked_out-IsValid : IsValid (with_user locked_out)
locked_out-IsValid = record {
  storage = refl;
  within = omega arith;
  ids = omega arith;
  slots =
      (record { name_size = refl; hash_size = refl }, All-replicate IsSlot 63 blank blank-IsSlot);
  small = omega arith;
}

anna_answers : answers_to (codes "anna") anna ≡ true
unfolding answers_to match_key
anna_answers = refl

-- So she does to the start of her name.
anna_answers_short : answers_to (codes "an") anna ≡ true
unfolding answers_to match_key
anna_answers_short = refl

guess_fails : accepts (simple_hash (codes "guess")) anna ≡ false
unfolding accepts simple_hash hash_from take_hash
guess_fails = refl

plain_hash : simple_hash (codes "w4ppg9") ≡ 0x21613630
unfolding simple_hash hash_from
plain_hash = refl

IsPlain-word : IsPlain 0x21613630
IsPlain-word zero h = omega arith
IsPlain-word (suc zero) h = omega arith
IsPlain-word (suc (suc zero)) h = omega arith
IsPlain-word (suc (suc (suc zero))) h = omega arith
IsPlain-word (suc (suc (suc (suc zero)))) h = omega arith
IsPlain-word (suc (suc (suc (suc (suc zero))))) h = omega arith
IsPlain-word (suc (suc (suc (suc (suc (suc zero)))))) h = omega arith
IsPlain-word (suc (suc (suc (suc (suc (suc (suc zero))))))) h = omega arith
IsPlain-word (suc (suc (suc (suc (suc (suc (suc (suc i)))))))) h = absurd (omega arith)

IsPlain-password : IsPlain (simple_hash (codes "w4ppg9"))
IsPlain-password = rw plain_hash IsPlain-word

verify-create_user_example :
    (t : Auth) × (create_user (codes "anna") (codes "w4ppg9") 7 7 (pos 0) loaded ≡ some (1, t))
    × ((verify (codes "anna") (codes "w4ppg9") t).0 ≡ to_int 1)
verify-create_user_example =
    verify-create_user (codes "anna") (codes "w4ppg9") 7 7 (pos 0) loaded loaded-IsValid
      (omega arith) (omega arith) (omega arith) refl IsPlain-password

anna_first : candidate (codes "anna") (with_user anna) ≡ some anna
anna_first = rw anna_answers refl

verify-Attempted_example :
    Attempted
      (codes "anna")
      (codes "guess")
      anna
      (with_user anna)
      (verify (codes "anna") (codes "guess") (with_user anna)).1
      (verify (codes "anna") (codes "guess") (with_user anna)).0
verify-Attempted_example =
    verify-Attempted (codes "anna") (codes "guess") (with_user anna) anna-IsValid anna anna_first

verify_all-locked_example :
    user_of 1 (verify_all (tries (codes "anna") (codes "guess" ∷ [])) (with_user locked_out))
    ≡ some locked_out
verify_all-locked_example =
    verify_all-locked (tries (codes "anna") (codes "guess" ∷ [])) 1 (with_user locked_out)
      locked_out locked_out-IsValid refl refl

init-OnlyAdmin_example : (t : Auth) × (init loaded ≡ some t) × OnlyAdmin t
init-OnlyAdmin_example = init-OnlyAdmin loaded refl (All-replicate IsSlot 64 blank blank-IsSlot)
