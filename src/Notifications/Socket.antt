-- ===== src/Notifications/Socket.antt =====
-- apps/notifications/middleware.py and consumers.py: who a websocket belongs to, and which pushes it
-- gets. The channel layer and the reading of a JWT are parameters.
use django_saas_kit.Base.{
  List, Bool, Option, String, ℕ, none, some, [], ◌∷◌, ◌&&◌, ◌==◌, true, false, if◌then◌else◌,
  str_eq, ◌≡◌,
}
use django_saas_kit.Orm.{Orm}
use django_saas_kit.Models.{Db, User}
use django_saas_kit.Http.{Requester, anonymous, authenticated}
use django_saas_kit.Text.{append, lower, strip, starts_with, drop_chars, is_blank}
use django_saas_kit.Rbac.Views.{with_user_pk}

-- The channel layer: the groups, each a set of channels.
pub record ChannelLayer : Type 1 where
  pub Groups : Type 0
  pub empty : Groups
  pub group_add : (group : String) (channel : ℕ) → Groups → Groups
  pub group_discard : (group : String) (channel : ℕ) → Groups → Groups
  -- whether `group_send` to the group reaches the channel
  pub reaches : (group : String) (channel : ℕ) → Groups → Bool
  pub reaches-empty : (g : String) (c : ℕ) → reaches g c empty ≡ false
  pub reaches-group_add :
      (g h : String) (c d : ℕ) (s : Groups)
      → reaches h d (group_add g c s) ≡ (if str_eq g h && c == d then true else reaches h d s)
  pub reaches-group_discard :
      (g h : String) (c d : ℕ) (s : Groups)
      → reaches h d (group_discard g c s) ≡ (if str_eq g h && c == d then false else reaches h d s)

-- `_notification_group`
abbrev pub notification_group : (str : ℕ → String) → ℕ → String
notification_group str pk = append "notifications_" (str pk)

-- The token of the header, and where there is none, the first one of the query.
abbrev pub first_or_blank : List String → String
first_or_blank [] = ""
first_or_blank (token ∷ tokens) = token

unfoldable pub raw_token : (auth_header : String) → (query_tokens : List String) → String
raw_token auth_header query_tokens =
    let given =
      if starts_with "bearer " (lower auth_header) then strip (drop_chars 7 auth_header) else "" in
    if is_blank given then first_or_blank query_tokens else given

module _ ⦃orm : Orm⦄ (access_token : String → Option ℕ) where
  -- `_get_user_from_token` on the rows of the key in the token, of which there is at most one
  abbrev pub scope_user : List User → Requester
  scope_user [] = anonymous
  scope_user (user ∷ l) = authenticated user

  abbrev pub user_of_token : Option ℕ → Db → Requester
  user_of_token none db = anonymous
  user_of_token (some pk) db = scope_user (orm.filter (with_user_pk pk) db.users)

  -- The user that `JWTAuthMiddleware` puts into the scope
  unfoldable pub jwt_auth : (auth_header : String) → (query_tokens : List String) → Db → Requester
  unfolding raw_token
  jwt_auth auth_header query_tokens db =
      let token = raw_token auth_header query_tokens in
      if is_blank token then anonymous else user_of_token (access_token token) db

module _ ⦃layer : ChannelLayer⦄ where
  -- The groups, and for each channel the user of its consumer that has joined one.
  pub record Hub : Type 0 where
    pub groups : layer.Groups
    pub user_at : ℕ → Option ℕ

module _ ⦃layer : ChannelLayer⦄ (str : ℕ → String) where
  abbrev pub at_channel : ℕ → Option ℕ → (ℕ → Option ℕ) → ℕ → Option ℕ
  at_channel channel user before c = if channel == c then user else before c

  -- `NotificationConsumer.connect`: an anonymous user is closed out with 4001
  unfoldable pub connect : ℕ → Requester → Hub → Hub
  connect channel anonymous hub = hub
  connect channel (authenticated user) hub = record {
    groups = layer.group_add (notification_group str user.pk) channel hub.groups;
    user_at = at_channel channel (some user.pk) hub.user_at;
  }

  -- `NotificationConsumer.disconnect`, for the group that the consumer has joined
  abbrev pub leave : ℕ → Option ℕ → Hub → Hub
  leave channel none hub = hub
  leave channel (some pk) hub = record {
    groups = layer.group_discard (notification_group str pk) channel hub.groups;
    user_at = at_channel channel none hub.user_at;
  }

  unfoldable pub disconnect : ℕ → Hub → Hub
  disconnect channel hub = leave channel (hub.user_at channel) hub
