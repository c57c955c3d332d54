-- ===== src/Http.antt =====
-- Requests and replies as the views see them. Authentication and the parsing of a request are
-- Django's and the REST framework's: a request comes with the user and the ids that they found.
use django_saas_kit.Base.{ℕ, String, Option}
use django_saas_kit.Models.{User, Tenant}
use django_saas_kit.Action.{Error, ErrorClass, class_of}
use django_saas_kit.Orm.{Result, ok, err}
use django_saas_kit.Base.{none, some}

-- `request.user`, and any `user` argument that may be `None` or not authenticated.
pub data Requester : Type 0 where
  anonymous : Requester
  authenticated : User → Requester

pub record Request : Type 0 where
  pub user : Requester
  -- `request.tenant`, which TenantMiddleware sets from the host
  pub tenant : Option Tenant
  -- the `tenant_id` of the URL, and the header `X-Tenant-ID`
  pub url_tenant : Option ℕ
  pub header_tenant : Option ℕ
  pub forwarded_for : Option String
  pub remote_addr : Option String
  pub user_agent : Option String

-- A status code, with the data that is serialised or the error that is shown.
pub data Reply (A : Type 0) : Type 0 where
  reply : (status : ℕ) → A → Reply A
  failure : (status : ℕ) → Error → Reply A

-- `try: ... except ...: return Response({"detail": ...}, status)`
unfoldable pub answer :
    {A B S : Type 0}
    → (ErrorClass → Option ℕ)
    → (A → Reply B)
    → Result Error A × S
    → Result Error (Reply B) × S
answer status success (ok a, s) = (ok (success a), s)
answer status success (err e, s) = elim (status (class_of e)) [
  | none ↦ (err e, s)
  | some code ↦ (ok (failure code e), s)
]
