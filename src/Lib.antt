-- ===== src/Lib.antt =====
-- The core of a multi-tenant SaaS backend written with Django, as functions on a database.
--
-- A method of a service is an `Action`: it takes the database and returns a result, or a raised
-- exception, with the database that it leaves (Action). The database has one table for each model
-- and the queue of Celery tasks (Models). Django's ORM is a parameter, the record `Orm`: its tables,
-- the calls filter, create, save, delete and transaction.atomic, and the documented behaviour of
-- each as a law (Orm, with lemmas in Orm/Queries). Django's cache is the record `Cache`, in the same
-- way: a key that was set is kept until it times out. `memory` and `local_memory` are instances, for
-- the examples on the rows of Fixtures. Requests, users and replies are in Http, the methods of
-- Python's `str` in Text, the names that all files share in Base.
--
-- The parts, with the paths of the repository:
--   Rbac          services/rbac, apps/rbac: Service is RBACService, Permissions the tenant of a
--                 request, the decorator and the permission class, Views the three views; Roles,
--                 Revoking, Guards and Refinement have the proofs.
--   Billing       services/billing, apps/billing: Plans is PlanLimitService, Service is
--                 BillingService, Webhook the view, Worker the task of an event in tasks.py; Access,
--                 Isolation, Deliveries, Delivered and Told have the proofs.
--   Invitations   services/invitations, apps/invitations: Service is InvitationService, Views the
--                 five handlers; the other files have the proofs.
--   Tenants       services/tenants, services/tenant_context.py, apps/tenants: Service is
--                 TenantService, Middleware is TenantMiddleware with its cache; Freshness, Serving
--                 and Creation have the proofs.
--   Features      services/features, apps/features: Service is FeatureService and its views, Dict
--                 Python's dict; Resolution and Setting have the proofs.
--   Users         services/users, apps/users: Service is UserService, Gdpr is GDPRService, Views the
--                 views, Command the erasure from the command line; Registration, Erasure,
--                 Profiles and Listing have the proofs.
--   Authentication apps/authentication, services/auth/password_reset_service.py: Service is the
--                 registration and the token view, TwoFactor the second factor, PasswordReset the
--                 service and its views; Tokens has what they use of other packages. Interleaving
--                 splits the second step of a login where another request can come in between.
--                 Login, Codes, Once, BackupCodes, Races, Overlap and Reset have the proofs.
--   Social        services/auth/social_auth_service.py, apps/authentication/social_views.py:
--                 Usernames and Service; Search and Login have the proofs.
--   Idempotency   services/common/idempotency.py.
--   Notifications services/notifications, apps/notifications: the service and its views, Socket the
--                 websockets; Reading and Pushes have the proofs.
--   Common        apps/common: SoftDelete is models.py, Envelope and SnakeCase exceptions.py,
--                 Redaction logging_config.py, Health the readiness probe, Throttling
--                 throttling.py, Tracing celery_logging.py and the middleware; Restoring, Names,
--                 Messages, Redaction and Following have the proofs.
--   Demo          services/demo/seed_service.py, examples/demo_config.py; Upserts, Tenants, Serving
--                 and Seeding have the proofs.
--   Celery        apps/common/celery_policy.py: the retries of a task.
--   Mail          services/common/email_service.py: a job acts on a `Post`, the database with the
--                 cache of the idempotent tasks and the emails that the mail server has taken. Tasks
--                 has the tasks of tasks.py in the apps that send emails, Worker a worker that takes
--                 any task from the queue; Delivery, Once and Welcome have the proofs.
--   Settings      config/env.py, config/settings/base.py and prod.py: what the program needs to
--                 start; Reading, Startup, Loading and Production have the proofs.
--   Audit         services/audit/audit_service.py and apps/audit/views.py. A write to the audit
--                 table that fails is swallowed; the environment decides whether it fails.
--   Action        also services/exceptions.py: the classes of the errors that are raised.
--
-- Invitations use Billing for the member limit and Rbac for the role that an acceptance assigns; the
-- views of Rbac and Invitations pass through the same permission class; Features reads the plan of a
-- subscription; the middleware of Tenants sets the tenant that the views act on; Rbac, Billing and
-- Invitations write the audit log. The views of Authentication act on the database and the cache, the
-- record `Site`; a social login hands out tokens as the token view does. The webhook of Billing
-- queues a task, as do Billing, Invitations, Users and Authentication for their emails, and the worker
-- of Mail runs them.
--
-- Times are in seconds since a fixed origin, and the clock, new keys and tokens are arguments. A
-- primary key is a number. The search for a free username is the one loop on fuel: one turn more
-- than there are users is enough, which is proved. A task runs at most once more than it has
-- retries: five for an event of Stripe, three for an email. A run is given its time by the number
-- of retries that are left. Requests are taken as authenticated and parsed by the REST framework,
-- a Stripe object is the record of the keys that the handlers read, and the checks of
-- django-waffle, Stripe's library and Django's validators are arguments, as are the templates, the
-- mail server, structlog, python-decouple, dj_database_url and sentry_sdk. The mail server may
-- take an email and fail after that. Columns that no modelled code reads or writes are left out. A
-- new row stands first in its table, whatever the ordering of the model is, and `lower` and
-- `upper` of Python's `str` are modelled for the letters of ASCII alone. Not modelled: log lines,
-- serialised replies, two requests that interleave (each call is one step) but for the second step
-- of a login, the counting of requests, pages of lists, the constants of the settings and admin
-- pages.
pub mod Base
pub mod Orm
pub mod Models
pub mod Action
pub mod Text
pub mod Http
pub mod Cache
pub mod Fixtures
pub mod Audit
pub mod Rbac
pub mod Billing
pub mod Invitations
pub mod Tenants
pub mod Features
pub mod Users
pub mod Idempotency
pub mod Authentication
pub mod Social
pub mod Common
pub mod Notifications
pub mod Celery
pub mod Mail
pub mod Demo
pub mod Settings
