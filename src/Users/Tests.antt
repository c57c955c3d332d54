-- ===== src/Users/Tests.antt =====
-- Runs of the registration and of the erasure on concrete rows.
use django_saas_kit.Users.Listing.{list_views-cross_tenants}
use django_saas_kit.Audit.Views.{audit_queryset, audit_list_view}
use django_saas_kit.Http.{reply}
use django_saas_kit.Users.Views.{user_list_view}
use django_saas_kit.Rbac.Service.{has_role}
use django_saas_kit.Users.Erasure.{anonymize_erases}
use django_saas_kit.Action.{Error}
use django_saas_kit.Rbac.Views.{with_user_pk}
use django_saas_kit.Fixtures.{alice, acme, globex, request_of, bob, small_db}
use django_saas_kit.Users.Gdpr.{
  anonymized, token_of, notification_of, role_of, anonymize_mode, anonymize,
}
use django_saas_kit.Text.{contains_char, is_blank, lower, strip, append}
use django_saas_kit.Users.Service.{new_user, create_user, CreateUserInput}
use django_saas_kit.Users.Registration.{create_user_exact, Registrable}
use django_saas_kit.Models.{send_welcome_email, Db, User}
use django_saas_kit.Orm.{err, ok, memory}
use django_saas_kit.Base.{
  false, str_eq, ◌⊎◌, true, not, Bool, select, String, [], ◌∷◌, refl, ◌≡◌, none, some,
}

-- Validators that ask for a password that is not blank, and a hashing that only marks the password.
abbrev validate : (password username email : String) → Bool
validate password username email = not (is_blank password)

abbrev hash : String → String
hash password = append "hashed:" password

abbrev all_clean : User → Db → Bool
all_clean user db = true

abbrev carol : CreateUserInput
carol = record {
  email = " Carol@Mail.io ";
  username = "carol";
  password = "s3cret";
  first_name = "Carol";
  last_name = "";
}

create_user_exact_example :
    (Registrable validate hash all_clean 4 carol small_db
      × (create_user validate hash all_clean 4 carol small_db ≡ (
        ok (new_user validate hash all_clean 4 carol),
        record small_db {
          users = new_user validate hash all_clean 4 carol ∷ small_db.users;
          queue = send_welcome_email 4 ∷ [];
        },
      )))
    ⊎ ((¬ Registrable validate hash all_clean 4 carol small_db)
        × (e : Error) × (create_user validate hash all_clean 4 carol small_db ≡ (err e, small_db)))
create_user_exact_example = create_user_exact validate hash all_clean 4 carol small_db

carol_registrable : Registrable validate hash all_clean 4 carol small_db
unfolding select strip lower contains_char
carol_registrable = (refl, refl, refl, refl, refl, refl, refl)

-- Bob has a profile, a token and one that was blacklisted.
abbrev erasure_db : Db
erasure_db = record small_db {
  profiles =
      record { user = 2; avatar = none; bio = ""; phone = "+8801700000000"; timezone = "UTC" } ∷ [];
  tokens =
      record { user = some 2; is_blacklisted = false }
      ∷ record { user = some 2; is_blacklisted = true }
      ∷ [];
}

bob_stored : memory.filter (with_user_pk 2) erasure_db.users ≡ bob ∷ []
unfolding select
bob_stored = refl

anonymize_erases_example :
    let (r, db') = anonymize "ab12" bob erasure_db in
    (r
      ≡ ok (record {
        user_id = 2;
        mode = anonymize_mode;
        notifications_deleted = 0;
        roles_deleted = 1;
        tokens_deleted = 3;
      }))
    × (memory.filter (role_of 2) db'.roles ≡ [])
    × (memory.filter (notification_of 2) db'.notifications ≡ [])
    × (memory.filter (token_of 2) db'.tokens ≡ [])
    × (memory.filter (with_user_pk 2) db'.users ≡ anonymized "ab12" bob ∷ [])
    × (db' ≡ record erasure_db {
      users = db'.users;
      roles = db'.roles;
      notifications = db'.notifications;
      tokens = db'.tokens;
    })
unfolding select
anonymize_erases_example = anonymize_erases bob erasure_db "ab12" bob_stored

list_views-cross_tenants_example :
    let request = record (request_of alice globex) { header_tenant = some 10 } in
    (user_list_view request small_db ≡ (ok (reply 200 (bob ∷ [])), small_db))
    × (audit_list_view str_eq none none request small_db
        ≡ (ok (reply 200 (audit_queryset str_eq none none (some globex) small_db)), small_db))
unfolding select has_role
list_views-cross_tenants_example =
    list_views-cross_tenants str_eq none none
      (record (request_of alice globex) { header_tenant = some 10 }) small_db alice acme globex refl
      refl refl refl refl
