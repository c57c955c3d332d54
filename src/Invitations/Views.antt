-- ===== src/Invitations/Views.antt =====
-- apps/invitations/views.py: which errors of the service become which replies.
use django_saas_kit.Rbac.Service.{admin, owner}
use django_saas_kit.Rbac.Permissions.{guarded}
use django_saas_kit.Invitations.Service.{
  is_pending, accept_invitation, list_pending, revoke_invitation, send_invitation, Env,
}
use django_saas_kit.Base.{◌&&◌, str_eq, Bool, String, Option, ℕ, [], ◌∷◌, List, some, none}
use django_saas_kit.Orm.{Orm, ok}
use django_saas_kit.Models.{TenantInvitation, Tenant, User}
use django_saas_kit.Action.{
  multiple_objects_returned, invitation_not_found, tenant_context_required, gets, not_authenticated,
  Action, ErrorClass, validation, conflict, plan_limit, not_found, ◌>>=◌, pure, raise,
}
use django_saas_kit.Http.{
  answer, anonymous, authenticated, Requester, Reply, reply, failure, Request,
}

-- The `except` clauses of the three views: the status for a class of errors, or `none` where the
-- exception goes on.
abbrev pub send_status : ErrorClass → Option ℕ
send_status conflict = some 409
send_status plan_limit = some 402
send_status validation = some 400
send_status _ = none

abbrev pub accept_status : ErrorClass → Option ℕ
accept_status not_found = some 404
accept_status validation = some 400
accept_status conflict = some 409
accept_status _ = none

abbrev pub revoke_status : ErrorClass → Option ℕ
revoke_status not_found = some 404
revoke_status validation = some 400
revoke_status _ = none

module _ ⦃orm : Orm⦄ where
  create_in : Env → String → String → User → Option Tenant → Action (Reply TenantInvitation)
  create_in env email role user none s = (ok (failure 400 tenant_context_required), s)
  create_in env email role user (some tenant) s =
      answer send_status (reply 201) (send_invitation env tenant email role user s)

  -- `request.user` of a view that lets only authenticated users pass
  create_as : Env → String → String → Requester → Option Tenant → Action (Reply TenantInvitation)
  create_as env email role anonymous tenant = raise not_authenticated
  create_as env email role (authenticated user) tenant = create_in env email role user tenant

  -- `TenantInvitationListCreateView.post`
  unfoldable pub invitation_create_view :
      Env → (email role : String) → Request → Action (Reply TenantInvitation)
  unfolding create_in create_as answer
  invitation_create_view env email role =
      guarded (owner ∷ admin ∷ []) (λ request. create_as env email role request.user request.tenant)

  -- `TenantInvitationListCreateView.get`
  list_in : ℕ → Option Tenant → Action (Reply (List TenantInvitation))
  list_in now none = pure (failure 400 tenant_context_required)
  list_in now (some tenant) = do
    invitations ← gets (list_pending now tenant)
    pure (reply 200 invitations)

  unfoldable pub invitation_list_view : ℕ → Request → Action (Reply (List TenantInvitation))
  unfolding list_in
  invitation_list_view now = guarded (owner ∷ admin ∷ []) (λ request. list_in now request.tenant)

  -- `InvitationDetailView.get`, which anybody may call
  abbrev open_with_token : String → TenantInvitation → Bool
  open_with_token token i = str_eq i.token token && is_pending i.status

  detail_of : List TenantInvitation → Action (Reply TenantInvitation)
  detail_of [] = pure (failure 404 invitation_not_found)
  detail_of (i ∷ []) = pure (reply 200 i)
  detail_of (i ∷ j ∷ l) = raise multiple_objects_returned

  unfoldable pub invitation_detail_view : String → Action (Reply TenantInvitation)
  unfolding detail_of
  invitation_detail_view token = do
    found ← gets (λ db. orm.filter (open_with_token token) db.invitations)
    detail_of found

  accept_as : Env → String → Requester → Action (Reply TenantInvitation)
  accept_as env token anonymous s = raise not_authenticated s
  accept_as env token (authenticated user) s =
      answer accept_status (reply 200) (accept_invitation env token user s)

  -- `InvitationAcceptView.post`, for every authenticated user
  unfoldable pub invitation_accept_view : Env → String → Request → Action (Reply TenantInvitation)
  unfolding accept_as answer
  invitation_accept_view env token request = accept_as env token request.user

  revoke_in : ℕ → User → Option Tenant → Action (Reply Unit)
  revoke_in id user none s = (ok (failure 400 tenant_context_required), s)
  revoke_in id user (some tenant) s =
      answer revoke_status (λ _. reply 204 tt) (revoke_invitation id tenant user s)

  revoke_as : ℕ → Requester → Option Tenant → Action (Reply Unit)
  revoke_as id anonymous tenant = raise not_authenticated
  revoke_as id (authenticated user) tenant = revoke_in id user tenant

  -- `InvitationRevokeView.delete`
  unfoldable pub invitation_revoke_view : ℕ → Request → Action (Reply Unit)
  unfolding revoke_in revoke_as answer
  invitation_revoke_view id =
      guarded (owner ∷ admin ∷ []) (λ request. revoke_as id request.user request.tenant)
