-- ===== src/Users/Erasure.antt =====
-- What the erasure of a user removes, and what it keeps.
use django_saas_kit.Rbac.Views.{with_user_pk}
use django_saas_kit.Models.{Db, User}
use django_saas_kit.Orm.{ok, Orm}
use django_saas_kit.Base.{◌+◌, ◌||◌, String, refl, ◌≡◌, none, [], ◌∷◌, arith}
use django_saas_kit.Orm.Clearing.{filter-save_as, filter-save_none}
use django_saas_kit.Orm.Queries.{count, filter-delete_self, filter-save_self}
use django_saas_kit.Users.Gdpr.{
  blacklisted_of, totp_of, Mode, anonymize, hard_delete, anonymized, role_of, notification_of,
  profile_of, token_of, refers, ErasureResult, anonymize_mode, hard_delete_mode,
}

module _ ⦃orm : Orm⦄ (user : User) (db : Db) where
  -- The rows that were deleted, counted; a token that was blacklisted has a row in each of the two
  -- tables.
  abbrev counts : Mode → ErasureResult
  counts mode = record {
    user_id = user.pk;
    mode = mode;
    notifications_deleted = count (notification_of user.pk) db.notifications;
    roles_deleted = count (role_of user.pk) db.roles;
    tokens_deleted = count (token_of user.pk) db.tokens + count (blacklisted_of user.pk) db.tokens;
  }

  pub anonymize_erases :
      (tag : String)
      → orm.filter (with_user_pk user.pk) db.users ≡ user ∷ []
      → let (r, db') = anonymize tag user db in
        (r ≡ ok (counts anonymize_mode))
        × (orm.filter (role_of user.pk) db'.roles ≡ [])
        × (orm.filter (notification_of user.pk) db'.notifications ≡ [])
        × (orm.filter (token_of user.pk) db'.tokens ≡ [])
        × (orm.filter (with_user_pk user.pk) db'.users ≡ anonymized tag user ∷ [])
        × (db' ≡ record db {
          users = db'.users;
          roles = db'.roles;
          notifications = db'.notifications;
          tokens = db'.tokens;
        })
  unfolding anonymize
  anonymize_erases tag stored = rw (orm.atomic_lem) (
    refl,
    filter-delete_self (role_of user.pk) db.roles,
    filter-delete_self (notification_of user.pk) db.notifications,
    filter-delete_self (token_of user.pk) db.tokens,
    rw (filter-save_self (with_user_pk user.pk) (anonymized tag) (λ u. refl) db.users, stored) refl,
    refl,
  )

  -- The deletion of a user returns normally, with the numbers of the deleted rows; then neither its
  -- row, nor its profile, second factor, notifications, roles or tokens are left, and no role,
  -- invitation, audit entry or token refers to it.
  pub hard_delete_erases :
      let (r, db') = hard_delete user db in
      (r ≡ ok (counts hard_delete_mode))
      × (orm.filter (with_user_pk user.pk) db'.users ≡ [])
      × (orm.filter (profile_of user.pk) db'.profiles ≡ [])
      × (orm.filter (totp_of user.pk) db'.totps ≡ [])
      × (orm.filter (notification_of user.pk) db'.notifications ≡ [])
      × (orm.filter (λ r. role_of user.pk r || refers user.pk r.assigned_by) db'.roles ≡ [])
      × (orm.filter (token_of user.pk) db'.tokens ≡ [])
      × (orm.filter
            (λ i. refers user.pk i.invited_by || refers user.pk i.accepted_by)
            db'.invitations
          ≡ [])
      × (orm.filter (λ a. refers user.pk a.actor) db'.audit_logs ≡ [])
  unfolding hard_delete
  hard_delete_erases = rw (orm.atomic_lem) (
    refl,
    filter-delete_self (with_user_pk user.pk) db.users,
    filter-delete_self (profile_of user.pk) db.profiles,
    filter-delete_self (totp_of user.pk) db.totps,
    filter-delete_self (notification_of user.pk) _,
    filter-save_as (λ r. role_of user.pk r || refers user.pk r.assigned_by) (role_of user.pk)
        (λ r. refers user.pk r.assigned_by) (λ r. record r { assigned_by = none }) _
        (λ r. ground arith) (filter-delete_self (role_of user.pk) _),
    filter-save_none (token_of user.pk) (token_of user.pk) (λ t. record t { user = none }) _
        (λ t. ground arith),
    filter-save_as (λ i. refers user.pk i.invited_by || refers user.pk i.accepted_by)
        (λ i. refers user.pk i.accepted_by) (λ i. refers user.pk i.invited_by)
        (λ i. record i { invited_by = none }) _ (λ i. ground arith)
        (filter-save_none (λ i. refers user.pk i.accepted_by) (λ i. refers user.pk i.accepted_by)
          (λ i. record i { accepted_by = none }) _ (λ i. ground arith)),
    filter-save_none (λ a. refers user.pk a.actor) (λ a. refers user.pk a.actor)
        (λ a. record a { actor = none }) _ (λ a. ground arith),
  )
