-- ===== src/Fixtures.antt =====
-- Rows and databases for the examples: two tenants, an owner of each, and a guest.
use django_saas_kit.Base.{ℕ, String, true, false, none, some, [], ◌∷◌}
use django_saas_kit.Orm.{memory}
use django_saas_kit.Models.{
  Db, User, Tenant, UserTenantRole, Plan, Subscription, TenantInvitation, pending,
}
use django_saas_kit.Http.{Request, authenticated}
use django_saas_kit.Invitations.Service.{Env}

abbrev user_named : ℕ → String → User
user_named pk email = record {
  pk = pk;
  username = email;
  email = email;
  first_name = "";
  last_name = "";
  password = none;
  is_active = true;
  is_superuser = false;
}

abbrev pub alice : User
alice = user_named 1 "alice@acme.io"

abbrev pub bob : User
bob = user_named 2 "bob@globex.io"

abbrev pub guest : User
guest = user_named 3 "guest@mail.io"

abbrev tenant_named : ℕ → String → Tenant
tenant_named pk slug = record {
  pk = pk;
  name = slug;
  slug = slug;
  schema_name = slug;
  is_active = true;
}

abbrev pub acme : Tenant
acme = tenant_named 10 "acme"

abbrev pub globex : Tenant
globex = tenant_named 20 "globex"

abbrev pub role_row : User → Tenant → String → UserTenantRole
role_row user tenant role = record {
  user = user.pk;
  tenant = tenant.pk;
  role = role;
  assigned_by = none;
}

-- A plan for a single member.
abbrev pub solo : Plan
solo = record { pk = 5; slug = "solo"; name = "Solo"; max_members = 1; max_storage_mb = 0 }

abbrev pub sub_acme : Subscription
sub_acme = record {
  pk = 7;
  tenant = 10;
  plan = some 5;
  stripe_customer_id = "cus_acme";
  stripe_subscription_id = some "sub_acme";
  stripe_price_id = "";
  status = "active";
  current_period_start = none;
  current_period_end = none;
  grace_period_end = none;
  cancel_at_period_end = false;
  trial_end = none;
}

abbrev pub to_guest : TenantInvitation
to_guest = record {
  pk = 30;
  tenant = 10;
  email = "guest@mail.io";
  role = "member";
  token = "tok";
  status = pending;
  invited_by = some 1;
  accepted_by = none;
  expires_at = 1000;
}

-- Alice owns `acme`, which is on the plan `solo`; Bob owns `globex`; the guest is invited to `acme`.
abbrev pub small_db : Db
small_db = record {
  users = alice ∷ bob ∷ guest ∷ [];
  totps = [];
  profiles = [];
  notifications = [];
  tokens = [];
  tenants = acme ∷ globex ∷ [];
  domains = [];
  roles = role_row alice acme "owner" ∷ role_row bob globex "owner" ∷ [];
  plans = solo ∷ [];
  subscriptions = sub_acme ∷ [];
  invitations = to_guest ∷ [];
  flags = [];
  audit_logs = [];
  webhook_events = [];
  queue = [];
  audit_broken = false;
}

-- A request of a user on the host of a tenant, which names no tenant itself.
abbrev pub request_of : User → Tenant → Request
request_of user tenant = record {
  user = authenticated user;
  tenant = some tenant;
  url_tenant = none;
  header_tenant = none;
  forwarded_for = none;
  remote_addr = none;
  user_agent = none;
}

-- The clock and the draws of a call.
abbrev pub env_at : ℕ → ℕ → String → Env
env_at now uuid token = record {
  now = now;
  uuid = uuid;
  token = token;
  frontend_url = "https://app.io";
}
