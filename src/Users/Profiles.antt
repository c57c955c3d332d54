-- ===== src/Users/Profiles.antt =====
-- What the profile views write: one row for a user, with the fields that were given.
use django_saas_kit.Orm.Clearing.{filter-save_outside}
use django_saas_kit.Orm.Queries.{filter-save, saved, select_pass, filter-create}
use django_saas_kit.Base.{
  not, ◌&&◌, Bool, ==_refl, List, ℕ, [], ◌∷◌, true, ◌≡◌, refl, arith, ◌≤◌, inl, inr, List-cases,
  length, sym, ◌∙◌,
}
use django_saas_kit.Orm.{Orm, ok}
use django_saas_kit.Models.{Db, User, UserProfile}
use django_saas_kit.Http.{reply}
use django_saas_kit.Users.Views.{
  ProfileData, updated, new_profile, update_view, profile_view, get_profile, profile_found,
}
use django_saas_kit.Users.Gdpr.{profile_of}
use mathlib.Core.Path.{fun_ext}

-- The profile that a user has, or gets.
abbrev pub profile_or_new : User → List UserProfile → UserProfile
profile_or_new user [] = new_profile user
profile_or_new user (p ∷ l) = p

module _ ⦃orm : Orm⦄ where
  -- Saving one row over the only row of a user.
  replaced :
      (pk : ℕ) (p new : UserProfile) (t : orm.Table UserProfile)
      → orm.filter (profile_of pk) t ≡ p ∷ []
      → profile_of pk new ≡ true
      → orm.filter (profile_of pk) (orm.save (profile_of pk) (λ q. new) t) ≡ new ∷ []
  replaced pk p new t one owned =
      let own : profile_of pk p ≡ true =
        select_pass (profile_of pk) (orm.all t) [] p
          (sym (orm.filter_lem (profile_of pk) t) ∙ one) in
      let reads : (r : UserProfile)
          → profile_of pk (saved (profile_of pk) (λ q. new) r) ≡ profile_of pk r =
        λ r. ground arith in
      rw (filter-save, fun_ext reads, one, own) refl

  -- The database after a row was saved as the one profile of a user.
  abbrev with_profile : User → UserProfile → orm.Table UserProfile → Db → Db
  with_profile user new t db = record db { profiles = orm.save (profile_of user.pk) (λ p. new) t }

  -- Reading a user's only profile returns it.
  read_only_row :
      (user : User) (new : UserProfile) (db : Db)
      → orm.filter (profile_of user.pk) db.profiles ≡ new ∷ []
      → profile_view user db ≡ (ok (reply 200 new), db)
  unfolding profile_view get_profile profile_found
  read_only_row user new db one = rw one refl

  -- Where a user has at most one profile, an update returns the one it had, or else a new one,
  -- with the given fields assigned; this is then its one row, which reading the profile returns
  -- without writing, and the profiles of the other users are as before.
  pub profile_view-update_view :
      (data' : ProfileData) (user : User) (db : Db)
      → length (orm.filter (profile_of user.pk) db.profiles) ≤ 1
      → let new =
          updated data' (profile_or_new user (orm.filter (profile_of user.pk) db.profiles)) in
        let (r, db') = update_view data' user db in
        (r ≡ ok (reply 200 new))
        × (orm.filter (profile_of user.pk) db'.profiles ≡ new ∷ [])
        × (profile_view user db' ≡ (ok (reply 200 new), db'))
        × ((g : UserProfile → Bool)
            → orm.filter (λ p. g p && not (profile_of user.pk p)) db'.profiles
              ≡ orm.filter (λ p. g p && not (profile_of user.pk p)) db.profiles)
  unfolding update_view get_profile profile_found
  profile_view-update_view data' user db single =
      elim (List-cases (orm.filter (profile_of user.pk) db.profiles)) [
        | inl missing ↦
            let new = updated data' (new_profile user) in
            let t : orm.Table UserProfile = orm.create (new_profile user) db.profiles in
            let alone : orm.filter (profile_of user.pk) t ≡ new_profile user ∷ [] =
              rw (filter-create, missing, ==_refl) refl in
            let one = replaced user.pk (new_profile user) new t alone (==_refl user.pk) in
            rw missing (
              refl,
              one,
              read_only_row user new (with_profile user new t db) one,
              λ g.
                  filter-save_outside g (profile_of user.pk) (λ p. new) t (λ r h. ==_refl user.pk)
                  ∙ rw (filter-create, ==_refl) (ground arith),
            )
        | inr (inl (p, held)) ↦
            let new = updated data' p in
            let own : profile_of user.pk p ≡ true =
              select_pass (profile_of user.pk) (orm.all db.profiles) [] p
                (sym (orm.filter_lem (profile_of user.pk) db.profiles) ∙ held) in
            let one = replaced user.pk p new db.profiles held own in
            rw held (
              refl,
              one,
              read_only_row user new (with_profile user new db.profiles db) one,
              λ g. filter-save_outside g (profile_of user.pk) (λ p. new) db.profiles (λ r h. own),
            )
        | inr (inr (p, p', l, more)) ↦ let k = rw more at single in absurd (omega arith)
      ]
