-- ===== src/Audit.antt =====
-- services/audit/audit_service.py: audit entries, which never break the caller.
pub mod Views
use Prim.Native.String.{String}
use django_saas_kit.Base.{ℕ, Option, none, some, List, if◌then◌else◌}
use django_saas_kit.Orm.{Orm}
use django_saas_kit.Models.{Db, User, Tenant, AuditLog, AuditAction}
use django_saas_kit.Action.{Action, modify}
use django_saas_kit.Text.{is_blank, before, strip}
use django_saas_kit.Http.{Request, Requester, anonymous, authenticated}

-- `x or None` for a text
truthy : Option String → Option String
truthy none = none
truthy (some s) = if is_blank s then none else some s

-- `_get_client_ip`: the first hop of X-Forwarded-For, else the peer's address.
unfoldable pub get_client_ip : Request → Option String
unfolding truthy before strip
get_client_ip request = elim (truthy request.forwarded_for) [
  | some hops ↦ some (strip (before b',' hops))
  | none ↦ truthy request.remote_addr
]

user_of : Requester → Option User
user_of anonymous = none
user_of (authenticated user) = some user

-- the actor: the one that is given, else the user of the request
resolved_actor : Option User → Option Request → Option User
unfolding user_of
resolved_actor (some actor) request = some actor
resolved_actor none none = none
resolved_actor none (some request) = user_of request.user

email_of : Option User → String
email_of none = ""
email_of (some user) = user.email

or_empty : Option String → String
or_empty none = ""
or_empty (some s) = s

pk_of : Option User → Option ℕ
pk_of none = none
pk_of (some user) = some user.pk

tenant_pk : Option Tenant → Option ℕ
tenant_pk none = none
tenant_pk (some tenant) = some tenant.pk

-- The row that `AuditService.log` creates.
unfoldable pub entry :
    AuditAction
    → Option Request
    → Option Tenant
    → Option User
    → String
    → Option ℕ
    → List (String × String)
    → AuditLog
unfolding get_client_ip resolved_actor email_of or_empty pk_of tenant_pk
entry action request tenant actor resource_type resource_id metadata =
    let resolved = resolved_actor actor request in
    record {
      tenant = tenant_pk tenant;
      actor = pk_of resolved;
      actor_email = email_of resolved;
      action = action;
      resource_type = resource_type;
      resource_id = resource_id;
      metadata = metadata;
      ip_address = elim request [ none ↦ none | some r ↦ get_client_ip r ];
      user_agent = elim request [ none ↦ "" | some r ↦ or_empty r.user_agent ];
    }

module _ ⦃orm : Orm⦄ where
  -- `AuditService.log`: a failure to write is logged and swallowed.
  abbrev write : AuditLog → Db → Db
  write row db = record db {
    audit_logs = if db.audit_broken then db.audit_logs else orm.create row db.audit_logs;
  }

  unfoldable pub log :
      AuditAction
      → Option Request
      → Option Tenant
      → Option User
      → String
      → Option ℕ
      → List (String × String)
      → Action Unit
  log action request tenant actor resource_type resource_id metadata =
      modify (write (entry action request tenant actor resource_type resource_id metadata))
