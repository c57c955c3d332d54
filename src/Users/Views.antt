-- ===== src/Users/Views.antt =====
-- apps/users/views.py: the list of the users of a tenant, and the profile of a user. What the
-- serializer accepted is an argument; the filter backends narrow the list further.
use django_saas_kit.Rbac.Service.{admin, at_user_tenant, owner}
use django_saas_kit.Orm.Queries.{exists}
use django_saas_kit.Users.Gdpr.{profile_of}
use django_saas_kit.Rbac.Permissions.{guarded}
use django_saas_kit.Base.{List, Option, String, ℕ, none, some, [], ◌∷◌, if◌then◌else◌, is_some}
use django_saas_kit.Orm.{Orm}
use django_saas_kit.Models.{Db, User, UserProfile, Tenant}
use django_saas_kit.Http.{Request, Reply, reply, answer}
use django_saas_kit.Action.{
  multiple_objects_returned, conflict, validation, raise, ◌>>◌, ErrorClass, ◌>>=◌, Action, gets,
  pure, modify,
}

-- The fields of a request for a profile that are given.
pub record ProfileData : Type 0 where
  pub bio : Option String
  pub phone : Option String
  pub timezone : Option String
  pub avatar : Option String

abbrev given {ℓ} : {A : Type ℓ} → Option A → A → A
given none old = old
given (some new) old = new

-- `serializer.save()` on an instance: the given fields are assigned
abbrev pub updated : ProfileData → UserProfile → UserProfile
updated data' p = record p {
  bio = given data'.bio p.bio;
  phone = given data'.phone p.phone;
  timezone = given data'.timezone p.timezone;
  avatar = given (elim data'.avatar [ none ↦ none | some file ↦ some (some file) ]) p.avatar;
}

-- The defaults of the model.
abbrev pub new_profile : User → UserProfile
new_profile user = record { user = user.pk; avatar = none; bio = ""; phone = ""; timezone = "UTC" }

abbrev pub without_avatar : UserProfile → UserProfile
without_avatar p = record p { avatar = none }

module _ ⦃orm : Orm⦄ where
  -- `UserListView.get_queryset`
  unfoldable pub user_queryset : Option Tenant → Db → List User
  user_queryset none db = []
  user_queryset (some tenant) db =
      orm.filter (λ u. exists (at_user_tenant u.pk tenant.pk) db.roles) db.users

  unfoldable pub user_list_view : Request → Action (Reply (List User))
  unfolding user_queryset
  user_list_view =
      guarded (owner ∷ admin ∷ [])
        (λ request. gets (λ db. reply 200 (user_queryset request.tenant db)))

  -- `UserProfile.objects.get_or_create(user=...)` on the rows that its lookup has found
  unfoldable pub profile_found : User → List UserProfile → Action UserProfile
  profile_found user [] = do
    modify (λ db. record db { profiles = orm.create (new_profile user) db.profiles })
    pure (new_profile user)
  profile_found user (p ∷ []) = pure p
  profile_found user (p ∷ p' ∷ l) = raise multiple_objects_returned

  -- `ProfileView._get_profile`
  unfoldable pub get_profile : User → Action UserProfile
  unfolding profile_found
  get_profile user = gets (λ db. orm.filter (profile_of user.pk) db.profiles) >>= profile_found user

  -- `MeView.get`, and `ProfileView.get`, which serialise the profile
  unfoldable pub profile_view : User → Action (Reply UserProfile)
  unfolding get_profile
  profile_view user = do profile ← get_profile user; pure (reply 200 profile)

  -- `ProfileView.patch` and `ProfileView.put`
  unfoldable pub update_view : ProfileData → User → Action (Reply UserProfile)
  unfolding get_profile
  update_view data' user = do
    profile ← get_profile user
    modify (λ db. record db {
      profiles = orm.save (profile_of user.pk) (λ p. updated data' profile) db.profiles;
    })
    pure (reply 200 (updated data' profile))

  -- `ProfileView.delete`
  unfoldable pub delete_avatar_view : User → Action (Reply Unit)
  unfolding get_profile
  delete_avatar_view user = do
    profile ← get_profile user
    if is_some profile.avatar
        then (do
          modify (λ db. record db {
            profiles = orm.save (profile_of user.pk) without_avatar db.profiles;
          })
          pure (reply 204 tt))
        else pure (reply 204 tt)

abbrev pub create_status : ErrorClass → Option ℕ
create_status validation = some 400
create_status conflict = some 409
create_status _ = none

-- `UserCreateView.post`, for a call of `create_user`
unfoldable pub user_create_view : ⦃orm : Orm⦄ → Action User → Action (Reply User)
unfolding answer
user_create_view create db = answer create_status (reply 201) (create db)
