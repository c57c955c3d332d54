-- ===== src/Rbac/Tests.antt =====
-- Runs of the role service on concrete rows.
use django_saas_kit.Action.{invalid_role}
use django_saas_kit.Rbac.Refinement.{
  answered, service_refines, promised, role_held, ask_role, refused, revoke, ask_any, assign,
  assigned_role, served, Call, Holdings, replies_of, Represents,
}
use django_saas_kit.Orm.{memory}
use django_saas_kit.Rbac.Guards.{role_views_guarded, MayAct}
use django_saas_kit.Fixtures.{bob, acme, request_of, guest, small_db, alice}
use django_saas_kit.Rbac.Roles.{IsUnique}
use django_saas_kit.Rbac.Service.{at_user_tenant, get_role}
use django_saas_kit.Rbac.Views.{revoke_role_view, assign_role_view}
use django_saas_kit.Base.{head?, List, arith, select, true, ◌⊎◌, [], ◌∷◌, refl, ◌≡◌, none, some}

two_owners-IsUnique : IsUnique small_db
unfolding select
two_owners-IsUnique u t = ground arith

role_views_guarded_example :
    (((assign_role_view 10 3 "admin" (request_of bob acme) small_db).1 ≡ small_db)
      ⊎ MayAct ("owner" ∷ "admin" ∷ []) (request_of bob acme) 10 small_db)
    × (((revoke_role_view 10 3 (request_of bob acme) small_db).1 ≡ small_db)
        ⊎ MayAct ("owner" ∷ "admin" ∷ []) (request_of bob acme) 10 small_db)
role_views_guarded_example = role_views_guarded 10 3 "admin" (request_of bob acme) small_db

-- The guest becomes a member, is asked for, and goes again.
abbrev visits : List Call
visits =
    assign guest acme "member" (some alice)
    ∷ ask_any guest acme ("owner" ∷ "member" ∷ [])
    ∷ assign bob acme "king" none
    ∷ revoke guest acme
    ∷ ask_role guest acme
    ∷ []

abbrev small_holdings : Holdings
small_holdings u t = elim (head? (select (at_user_tenant u t) small_db.roles)) [
  | none ↦ none
  | some row ↦ some row.role
]

small_represented : Represents small_holdings small_db
unfolding get_role select
small_represented = (two_owners-IsUnique, λ user tenant. refl)

service_refines_example :
    ((replies_of served visits small_db).0
      ≡ assigned_role "member"
        ∷ answered true
        ∷ refused invalid_role
        ∷ answered true
        ∷ role_held none
        ∷ [])
    × Represents (replies_of promised visits small_holdings).1 (replies_of served visits small_db).1
service_refines_example = service_refines visits small_holdings small_db small_represented
