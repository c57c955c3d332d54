-- ===== src/Mail/Samples.antt =====
-- A mail server for the examples, which is down until 80, and a worker that waits ten seconds
-- between the runs of a task.
use django_saas_kit.Base.{if◌then◌else◌, ℕ, none, [], ◌≡◌, ◌-◌, ◌*◌, refl, leb, arith}
use django_saas_kit.Orm.{memory}
use django_saas_kit.Cache.{local_memory}
use django_saas_kit.Models.{Db}
use django_saas_kit.Mail.{refused, taken, Email, Mailer, Post}
use django_saas_kit.Mail.Delivery.{TakenAt}

abbrev pub office : Mailer
office = record {
  render = λ template context. template;
  outcome = λ now email. if leb 80 now then taken else refused;
  date = λ time. "June 01, 2026";
  str = λ n. "7";
  default_from_email = "kit@app.io";
  frontend_url = "https://app.io";
  billing_portal_url = none;
}

-- The first run at 70.
abbrev pub every_ten : ℕ → ℕ
every_ten left = 100 - 10 * left

pub office_recovers : (email : Email) → TakenAt office every_ten email 2
office_recovers email =
    (omega arith, refl, λ j below within. let e : j ≡ 3 = omega arith in rw e refl)

abbrev pub post_of : Db → Post
post_of db = record { db = db; store = λ later key. none; sent = [] }
