-- ===== src/Models/Rows.antt =====
-- The columns of each model, and the tasks of the Celery queue.
use django_saas_kit.Base.{ℕ, Bool, Option, String, List}

-- Django's user model, which the kit uses as it is.
pub record User : Type 0 where
  pub pk : ℕ
  pub username : String
  pub email : String
  pub first_name : String
  pub last_name : String
  pub password : Option String
  pub is_active : Bool
  pub is_superuser : Bool

pub record UserProfile : Type 0 where
  pub user : ℕ
  pub avatar : Option String
  pub bio : String
  pub phone : String
  pub timezone : String

pub record Notification : Type 0 where
  pub pk : ℕ
  pub user : ℕ
  pub title : String
  pub body : String
  pub is_read : Bool

-- The table of simplejwt. A row of its other table, BlacklistedToken, refers to one of these, no two
-- of them to the same one, and is deleted with it: whether there is one is a column here.
pub record OutstandingToken : Type 0 where
  pub is_blacklisted : Bool
  pub user : Option ℕ

pub record UserTotp : Type 0 where
  pub user : ℕ
  pub secret : String
  pub is_enabled : Bool
  pub backup_codes : List String

pub record Tenant : Type 0 where
  pub pk : ℕ
  pub name : String
  pub slug : String
  pub schema_name : String
  pub is_active : Bool

pub record Domain : Type 0 where
  pub tenant : ℕ
  pub domain : String
  pub is_primary : Bool

pub record UserTenantRole : Type 0 where
  pub user : ℕ
  pub tenant : ℕ
  pub role : String
  pub assigned_by : Option ℕ

pub record Plan : Type 0 where
  pub pk : ℕ
  pub slug : String
  pub name : String
  pub max_members : ℕ
  pub max_storage_mb : ℕ

pub record Subscription : Type 0 where
  pub pk : ℕ
  pub tenant : ℕ
  pub plan : Option ℕ
  pub stripe_customer_id : String
  pub stripe_subscription_id : Option String
  pub stripe_price_id : String
  pub status : String
  pub current_period_start : Option ℕ
  pub current_period_end : Option ℕ
  pub grace_period_end : Option ℕ
  pub cancel_at_period_end : Bool
  pub trial_end : Option ℕ

-- `TenantInvitation.Status`; only the code writes it.
pub data InvitationStatus : Type 0 where
  pending accepted revoked expired : InvitationStatus

pub record TenantInvitation : Type 0 where
  pub pk : ℕ
  pub tenant : ℕ
  pub email : String
  pub role : String
  pub token : String
  pub status : InvitationStatus
  pub invited_by : Option ℕ
  pub accepted_by : Option ℕ
  pub expires_at : ℕ

pub record TenantFeatureFlag : Type 0 where
  pub tenant : ℕ
  pub flag_name : String
  pub is_enabled : Bool
  pub source : String
  pub note : String

-- `AuditLog.Action`
pub data AuditAction : Type 0 where
  login logout login_failed : AuditAction
  password_reset_requested password_reset_confirmed : AuditAction
  user_registered user_deleted : AuditAction
  role_assigned role_revoked : AuditAction
  member_invited invitation_accepted invitation_revoked : AuditAction
  subscription_created subscription_updated subscription_canceled : AuditAction
  payment_succeeded payment_failed : AuditAction

pub record AuditLog : Type 0 where
  pub tenant : Option ℕ
  pub actor : Option ℕ
  pub actor_email : String
  pub action : AuditAction
  pub resource_type : String
  pub resource_id : Option ℕ
  pub metadata : List (String × String)
  pub ip_address : Option String
  pub user_agent : String

pub record WebhookEvent : Type 0 where
  pub stripe_event_id : String
  pub event_type : String

-- Of an event of Stripe, the keys of `data["object"]`, a subscription or an invoice.
-- `items.data[].price.id` is a list of items, each with a price or none, each price with an id or
-- none.
pub record StripeObject : Type 0 where
  pub id : Option String
  pub customer : Option String
  pub status : Option String
  pub subscription : Option String
  pub cancel_at_period_end : Option Bool
  pub current_period_start : Option ℕ
  pub current_period_end : Option ℕ
  pub trial_end : Option ℕ
  pub items : Option (Option (List (Option (Option String))))

-- The tasks that a `.delay(...)` can put into the queue.
pub data Task : Type 0 where
  send_invitation_email :
      (recipient_email tenant_name invited_by_name role accept_url : String) → Task
  send_dunning_email : (tenant : ℕ) → Task
  handle_stripe_event : (event_id event_type : String) → StripeObject → Task
  send_trial_ending_email : (tenant days_remaining : ℕ) → Task
  send_welcome_email : (user : ℕ) → Task
  send_email_notification : (notification : ℕ) → Task
  send_password_reset_email :
      (email user_name reset_link uid token : String) → (hours_valid : ℕ) → Task
