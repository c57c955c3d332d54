-- ===== src/Invitations/Tests.antt =====
-- Runs of the invitation service and its views on concrete rows.
use django_saas_kit.Cache.{local_memory}
use django_saas_kit.Invitations.Emailed.{invitation_emailed}
use django_saas_kit.Mail.Tasks.{invitation_email}
use django_saas_kit.Mail.Samples.{office_recovers, post_of, every_ten, office}
use django_saas_kit.Mail.Worker.{work}
use django_saas_kit.Invitations.Single.{run_all-IsSingle, IsSingle}
use django_saas_kit.Invitations.Limits.{accept_invitation_exceeds}
use django_saas_kit.Action.{Error, invitation_expired, plan_limit_exceeded}
use django_saas_kit.Invitations.Confusion.{create_view-crosses_tenants}
use django_saas_kit.Invitations.Sending.{send_invitation_exact, Sendable}
use django_saas_kit.Rbac.Permissions.{with_pk}
use django_saas_kit.Orm.Queries.{first}
use django_saas_kit.Invitations.Lifecycle.{run_all-Evolves, run_all}
use django_saas_kit.Invitations.Joining.{
  accept_invitation_joins, accept_invitation_refused, Invited,
}
use django_saas_kit.Fixtures.{
  alice, globex, guest, bob, solo, to_guest, acme, env_at, request_of, small_db,
}
use django_saas_kit.Http.{reply, Request}
use django_saas_kit.Models.{send_invitation_email, Db, TenantInvitation}
use django_saas_kit.Text.{append, lower, strip}
use django_saas_kit.Invitations.Steps.{revoke, accept, Evolves, Op, Stored}
use django_saas_kit.Invitations.Service.{
  inviter_name, is_member, accept_url, invitation_task, with_token, set_expired, send_invitation,
  save_invitation, set_accepted, new_invitation, set_revoked, accept_invitation, is_expired,
  is_usable,
}
use django_saas_kit.Rbac.Service.{get_role, at_user_tenant, has_role}
use django_saas_kit.Billing.Plans.{subscription_of, check_member_limit, get_member_count, get_plan}
use django_saas_kit.Invitations.Views.{invitation_create_view}
use django_saas_kit.Orm.{err, ok, memory}
use django_saas_kit.Base.{◌++◌, arith, suc, ◌<◌, ◌⊎◌, true, select, List, [], ◌∷◌, refl, ◌≡◌, some}

-- The guest's acceptance, at the time 500 and at the time 2000.
invited : Invited (env_at 500 0 "") "tok" guest to_guest acme small_db
unfolding select
invited = record { by_token = refl; to_tenant = refl }

invited_late : Invited (env_at 2000 0 "") "tok" guest to_guest acme small_db
unfolding select
invited_late = record { by_token = refl; to_tenant = refl }

no_role_yet : memory.filter (at_user_tenant 3 10) small_db.roles ≡ []
unfolding select
no_role_yet = refl

usable : is_usable 500 to_guest ≡ true
unfolding is_usable
usable = refl

accept_invitation_joins_example :
    let (r, db') = accept_invitation (env_at 500 0 "") "tok" guest small_db in
    (r ≡ ok (set_accepted guest to_guest))
    × (get_role guest acme db' ≡ some "member")
    × (get_member_count acme db' ≡ suc (get_member_count acme small_db))
    × (memory.filter (with_token "tok") db'.invitations ≡ set_accepted guest to_guest ∷ [])
    × (db'.tenants ≡ small_db.tenants)
accept_invitation_joins_example =
    accept_invitation_joins (env_at 500 0 "") "tok" guest to_guest acme small_db invited usable
      no_role_yet refl

accept_invitation_refused_example :
    accept_invitation (env_at 2000 0 "") "tok" guest small_db
    ≡ (err invitation_expired, save_invitation to_guest set_expired small_db)
unfolding is_expired
accept_invitation_refused_example =
    accept_invitation_refused (env_at 2000 0 "") "tok" guest to_guest acme small_db invited_late
      refl

on_solo : get_plan acme small_db ≡ some solo
unfolding get_plan select
on_solo = refl

full : get_member_count acme small_db ≡ 1
unfolding get_member_count select
full = refl

accept_invitation_exceeds_example :
    let db' = (accept_invitation (env_at 500 0 "") "tok" guest small_db).1 in
    (check_member_limit acme small_db ≡ (err plan_limit_exceeded, small_db))
    × (1 < get_member_count acme db')
accept_invitation_exceeds_example =
    accept_invitation_exceeds (env_at 500 0 "") "tok" guest to_guest acme small_db solo invited
      usable no_role_yet refl on_solo (λ e. omega arith) full

-- The guest accepts, and Alice then revokes.
abbrev calls : List Op
calls = accept (env_at 500 0 "") "tok" guest ∷ revoke 30 acme alice ∷ []

stored : Stored to_guest to_guest small_db
unfolding select
stored = refl

run_all-Evolves_example :
    (j : TenantInvitation) × Evolves to_guest j × Stored to_guest j (run_all calls small_db)
run_all-Evolves_example = run_all-Evolves to_guest calls small_db (tt, (tt, tt)) stored

-- The same invitation after it was revoked.
abbrev closed : TenantInvitation
closed = set_revoked to_guest

abbrev closed_db : Db
closed_db = record small_db { invitations = closed ∷ [] }

closed-Stored : Stored closed closed closed_db
unfolding select
closed-Stored = refl

bob_may : Sendable (env_at 0 31 "new") globex " Guest@mail.io" "admin" bob small_db
unfolding strip lower select get_plan get_member_count subscription_of is_member
bob_may = (refl, refl, refl, tt)

invitation_emailed_example :
    let (r, db1) =
      send_invitation (env_at 0 31 "new") globex " Guest@mail.io" "admin" bob small_db in
    let post2 = work office every_ten (post_of db1) in
    let i = new_invitation (env_at 0 31 "new") globex "guest@mail.io" "admin" bob in
    let email =
      invitation_email office "guest@mail.io" "globex" "bob@globex.io" "admin"
        "https://app.io/invitations/new/accept" in
    (r ≡ ok i)
    × (post2.sent ≡ email ∷ [])
    × (email.recipients ≡ "guest@mail.io" ∷ [])
    × (post2.db ≡ record small_db { invitations = i ∷ to_guest ∷ [] })
    × (first (with_token "new") post2.db.invitations ≡ some i)
unfolding strip lower append accept_url inviter_name
invitation_emailed_example =
    invitation_emailed office (env_at 0 31 "new") globex " Guest@mail.io" "admin" bob
      (post_of small_db) every_ten 2 bob_may refl office_recovers

send_invitation_exact_example :
    let i = new_invitation (env_at 0 31 "new") globex "guest@mail.io" "admin" bob in
    (Sendable (env_at 0 31 "new") globex " Guest@mail.io" "admin" bob small_db
      × (send_invitation (env_at 0 31 "new") globex " Guest@mail.io" "admin" bob small_db ≡ (
        ok i,
        record small_db {
          invitations = i ∷ to_guest ∷ [];
          queue =
              send_invitation_email "guest@mail.io" "globex" "bob@globex.io" "admin"
                "https://app.io/invitations/new/accept"
              ∷ [];
        },
      )))
    ⊎ ((¬ Sendable (env_at 0 31 "new") globex " Guest@mail.io" "admin" bob small_db)
        × (e : Error) × (send_invitation
              (env_at 0 31 "new")
              globex
              " Guest@mail.io"
              "admin"
              bob
              small_db
            ≡ (err e, small_db)))
unfolding strip lower invitation_task append
send_invitation_exact_example =
    send_invitation_exact (env_at 0 31 "new") globex " Guest@mail.io" "admin" bob small_db

-- Bob, an owner of `globex` without a role in `acme`, on the host of `acme`, with the key of
-- `globex` in the header.
abbrev crossing : Request
crossing = record (request_of bob acme) { header_tenant = some 20 }

globex_found : first (with_pk 20) small_db.tenants ≡ some globex
unfolding select
globex_found = refl

-- Nobody pays for a plan.
abbrev free_db : Db
free_db = record small_db { subscriptions = [] }

x_sendable : Sendable (env_at 0 31 "new") acme "x@y.z" "owner" bob free_db
unfolding select strip lower get_plan is_member
x_sendable = (refl, refl, refl, tt)

create_view-crosses_tenants_example :
    let i = new_invitation (env_at 0 31 "new") acme "x@y.z" "owner" bob in
    invitation_create_view (env_at 0 31 "new") "x@y.z" "owner" crossing free_db ≡ (
      ok (reply 201 i),
      record free_db {
        invitations = i ∷ free_db.invitations;
        queue = free_db.queue ++ invitation_task (env_at 0 31 "new").frontend_url i acme bob ∷ [];
      },
    )
unfolding select strip lower has_role
create_view-crosses_tenants_example =
    create_view-crosses_tenants (env_at 0 31 "new") "x@y.z" "owner" 30 crossing free_db bob globex
      acme refl refl refl refl globex_found x_sendable

small_db-IsSingle : IsSingle small_db
unfolding select
small_db-IsSingle tenant email = ground arith

run_all-IsSingle_example : IsSingle (run_all calls small_db)
run_all-IsSingle_example = run_all-IsSingle calls small_db small_db-IsSingle
