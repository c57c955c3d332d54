-- ===== src/Notifications.antt =====
-- services/notifications/notification_service.py and apps/notifications/views.py. The push over
-- the channel layer, whose failures are swallowed, writes no row; who gets it is in Socket.
pub mod Reading
pub mod Socket
pub mod Pushes
mod Tests
use django_saas_kit.Text.{lower}
use django_saas_kit.Base.{
  List, Bool, Option, String, ℕ, none, some, [], ◌∷◌, ◌&&◌, ◌==◌, not, true, false, if◌then◌else◌,
  str_eq,
}
use django_saas_kit.Orm.{Orm}
use django_saas_kit.Models.{Db, User, Notification}
use django_saas_kit.Http.{Reply, reply, answer}
use django_saas_kit.Action.{
  validation, ◌>>◌, ◌>>=◌, Action, gets, pure, modify, ErrorClass, the_only, notification_not_found,
}
use django_saas_kit.Users.Gdpr.{notification_of}

abbrev pub new_notification : ℕ → User → (title body : String) → Notification
new_notification pk user title body = record {
  pk = pk;
  user = user.pk;
  title = title;
  body = body;
  is_read = false;
}

-- `pk=notification_id, user=user`
abbrev pub owned_by : ℕ → User → Notification → Bool
owned_by id user n = notification_of user.pk n && n.pk == id

abbrev pub with_notification_pk : ℕ → Notification → Bool
with_notification_pk id n = n.pk == id

abbrev pub set_read : Notification → Notification
set_read n = record n { is_read = true }

-- `request.query_params.get("unread_only", "").lower() == "true"`
abbrev pub is_unread_only : String → Bool
is_unread_only value = str_eq (lower value) "true"

abbrev pub read_status : ErrorClass → Option ℕ
read_status validation = some 404
read_status _ = none

module _ ⦃orm : Orm⦄ where
  -- `NotificationService.create`
  unfoldable pub create : ℕ → User → (title body : String) → Action Notification
  create pk user title body = do
    modify (λ db. record db {
      notifications = orm.create (new_notification pk user title body) db.notifications;
    })
    pure (new_notification pk user title body)

  -- `mark_read` on the notification that it has found
  unfoldable pub mark_found : Notification → Action Notification
  mark_found n = if n.is_read then pure n else (do
    modify (λ db. record db {
      notifications = orm.save (with_notification_pk n.pk) set_read db.notifications;
    })
    pure (set_read n))

  -- `NotificationService.mark_read`
  unfoldable pub mark_read : ℕ → User → Action Notification
  unfolding mark_found
  mark_read id user =
      gets (λ db. orm.filter (owned_by id user) db.notifications)
      >>= the_only notification_not_found
      >>= mark_found

  -- `list_unread` and `list_all`
  unfoldable pub list_unread : User → Db → List Notification
  list_unread user db =
      orm.filter (λ n. notification_of user.pk n && not n.is_read) db.notifications

  unfoldable pub list_all : User → Db → List Notification
  list_all user db = orm.filter (notification_of user.pk) db.notifications

  -- `NotificationListView.get`, before it is cut into pages
  unfoldable pub list_view : (unread_only : String) → User → Action (Reply (List Notification))
  unfolding list_unread list_all
  list_view unread_only user = gets (λ db.
      reply 200 (if is_unread_only unread_only then list_unread user db else list_all user db))

  -- `MarkNotificationReadView.patch`
  unfoldable pub mark_read_view : ℕ → User → Action (Reply Notification)
  unfolding mark_read answer
  mark_read_view id user db = answer read_status (reply 200) (mark_read id user db)
