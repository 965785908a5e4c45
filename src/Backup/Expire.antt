-- ===== src/Backup/Expire.antt =====
-- The first loop of `backup_cleanup_old` of backup/backup.c: it ends, and what it keeps.
use homeserver_os.Base.{
  ℕ, zero, suc, ◌<◌, ◌≡◌, refl, ap, sym, ◌∙◌, true, false, List, [], ◌∷◌, ◌++◌, arith, length,
  length-append, ltb, some, get_elem?, inl, inr, if◌then◌else◌, Bool-cases,
}
use mathlib.Core.Path.{subst}
use mathlib.Core.List.{append_assoc}
use homeserver_os.Base.Table.{erase_first}
use homeserver_os.Base.Table.Ids.{has_id, Ascending}
use homeserver_os.Base.Table.Places.{
  get_elem?-take, get_elem?-middle, find-get_elem?, erase_first_middle,
}
use homeserver_os.Base.Table.Valid.{length-live}
use homeserver_os.Backup.{Backups, Backup, backup_id, is_expired, delete, expire}
use homeserver_os.Backup.Records.{live, IsSlot, IsValid, delete-Deleted}

-- The backups that the policy of `c` does not let expire.
abbrev pub kept : Backups → List Backup → List Backup
kept c [] = []
kept c (b ∷ bs) = if is_expired c b then kept c bs else b ∷ kept c bs

expire_end :
    (fuel : ℕ) (c : Backups) (i : ℕ) (s : Backups)
    → ltb i s.count ≡ false
    → expire (suc fuel) c i s ≡ some s
unfolding expire
expire_end fuel c i s e = rw (e, expire) refl

module _ (fuel : ℕ) (c : Backups) (i : ℕ) (s : Backups) (b : Backup) (inside : ltb i s.count ≡ true)
    (here : get_elem? s.backups i ≡ some b) where
  expire_drop : is_expired c b ≡ true → expire (suc fuel) c i s ≡ expire fuel c i (delete b.id s).1
  unfolding expire
  expire_drop e = rw (inside, here, e, expire) refl

  expire_keep : is_expired c b ≡ false → expire (suc fuel) c i s ≡ expire fuel c (suc i) s
  unfolding expire
  expire_keep e = rw (inside, here, e, expire) refl

-- What the first loop leaves, behind the entries `ps` that it has looked at.
pub record Expired (c : Backups) (ps rest : List Backup) (s t : Backups) : Type 0 where
  pub live_after : live t ≡ ps ++ kept c rest
  pub same_config : t.config ≡ s.config
  pub valid : IsValid t

pub expire-Expired :
    (fuel : ℕ) (c : Backups) (ps rest : List Backup) (s : Backups)
    → IsValid s
    → live s ≡ ps ++ rest
    → length rest < fuel
    → (t : Backups) × (expire fuel c (length ps) s ≡ some t) × Expired c ps rest s t
expire-Expired zero c ps rest s v e lt = absurd (omega arith)
expire-Expired (suc fuel) c ps [] s v e lt =
    let size = length-live backup_id IsSlot v in
    let at_end : ltb (length ps) s.count ≡ false =
      ground (arith, size, ap length e, length-append ps []) in
    (
      s,
      expire_end fuel c (length ps) s at_end,
      record { live_after = e; same_config = refl; valid = v },
    )
expire-Expired (suc fuel) c ps (b ∷ rest) s v e lt =
    let size = length-live backup_id IsSlot v in
    let inside : ltb (length ps) s.count ≡ true =
      ground (arith, size, ap length e, length-append ps (b ∷ rest)) in
    let at_live : get_elem? (live s) (length ps) ≡ some b = rw e (get_elem?-middle ps b rest) in
    let here = get_elem?-take (length ps) s.count s.backups at_live in
    elim (Bool-cases (is_expired c b)) [
      | inl old ↦
          let found = find-get_elem? backup_id 1 s.next_id (length ps) (live s) v.ids at_live in
          let (u, q, d) = delete-Deleted b.id s b v found in
          let erased : live u ≡ ps ++ rest =
            d.erased
            ∙ ap (erase_first (has_id backup_id b.id)) e
            ∙ erase_first_middle backup_id 1 s.next_id ps b rest
                (subst (Ascending backup_id 1 s.next_id) e v.ids) in
          let (t, r, x) = expire-Expired fuel c ps rest u d.valid erased (omega arith) in
          (
            t,
            expire_drop fuel c (length ps) s b inside here old
                ∙ ap (λ r. expire fuel c (length ps) r.1) q
                ∙ r,
            record {
              live_after = rw old x.live_after;
              same_config = x.same_config ∙ d.same_config;
              valid = x.valid;
            },
          )
      | inr new ↦
          let longer : length (ps ++ b ∷ []) ≡ suc (length ps) =
            omega (arith, length-append ps (b ∷ [])) in
          let (t, r, x) =
            expire-Expired fuel c (ps ++ b ∷ []) rest s v (e ∙ sym (append_assoc ps (b ∷ []) rest))
              (omega arith) in
          (
            t,
            expire_keep fuel c (length ps) s b inside here new
                ∙ ap (λ k. expire fuel c k s) (sym longer)
                ∙ r,
            record {
              live_after = x.live_after ∙ append_assoc ps (b ∷ []) (kept c rest) ∙ rw new refl;
              same_config = x.same_config;
              valid = x.valid;
            },
          )
    ]
