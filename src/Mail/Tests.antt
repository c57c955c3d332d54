-- ===== src/Mail/Tests.antt =====
-- Runs of a worker on the rows of the fixtures.
use django_saas_kit.Base.{[], ◌∷◌, ◌≡◌, refl, arith, select}
use django_saas_kit.Orm.{memory}
use django_saas_kit.Cache.{local_memory}
use django_saas_kit.Fixtures.{small_db, bob}
use django_saas_kit.Models.{send_welcome_email, send_dunning_email}
use django_saas_kit.Rbac.Views.{with_user_pk}
use django_saas_kit.Mail.{Post}
use django_saas_kit.Mail.Worker.{work, work_all}
use django_saas_kit.Mail.Samples.{office, every_ten, office_recovers, post_of}
use django_saas_kit.Mail.Welcome.{welcome_once, welcome_email}
use django_saas_kit.Mail.Once.{work_all-Sent, Sent}

-- The task of Bob's welcome email was delivered twice.
abbrev twice : Post
twice = post_of (record small_db {
  queue = send_welcome_email 2 ∷ send_welcome_email 2 ∷ send_dunning_email 10 ∷ [];
})

bob_named : memory.filter (with_user_pk 2) small_db.users ≡ bob ∷ []
unfolding select
bob_named = refl

welcome_once_example :
    let post2 = work office (λ left. 500) (work office every_ten twice) in
    (post2.sent ≡ welcome_email office bob ∷ [])
    × ((welcome_email office bob).recipients ≡ "bob@globex.io" ∷ [])
    × (post2.db ≡ record small_db { queue = send_dunning_email 10 ∷ [] })
welcome_once_example =
    welcome_once office 2 2 bob (send_dunning_email 10 ∷ []) twice every_ten (λ left. 500) refl
      bob_named (λ j. refl) office_recovers (omega arith)

work_all-Sent_example : Sent 12 twice (work_all office every_ten 3 twice)
work_all-Sent_example = work_all-Sent office every_ten 3 twice
