-- ===== src/Features/Tests.antt =====
-- Runs of the feature service on concrete rows and settings.
use django_saas_kit.Features.Resolution.{get-for_tenant, HasUniqueFlags}
use django_saas_kit.Fixtures.{small_db, acme}
use django_saas_kit.Features.Setting.{HasUniqueKeys}
use django_saas_kit.Features.Dict.{get}
use django_saas_kit.Features.Service.{is_enabled, for_tenant, Waffle, plan_slug_of}
use django_saas_kit.Models.{Db}
use django_saas_kit.Orm.{memory}
use django_saas_kit.Base.{
  str_eq, Bool, false, if◌then◌else◌, arith, true, String, select, List, [], ◌∷◌, refl, ◌≡◌, none,
  some,
}

-- Waffle knows one switch, which is on.
abbrev some_waffle : Waffle
some_waffle = record {
  installed = true;
  flag_is_active = λ request name. none;
  switch_is_active = λ name. if str_eq name "beta" then some true else none;
}

abbrev some_defaults : List (String × Bool)
some_defaults = ("beta", false) ∷ ("export", true) ∷ []

-- `acme` has turned `export` off.
abbrev flagged_db : Db
flagged_db = record small_db {
  flags =
      record { tenant = 10; flag_name = "export"; is_enabled = false; source = "manual"; note = "" }
      ∷ [];
}

flagged-HasUniqueFlags : HasUniqueFlags flagged_db
unfolding select
flagged-HasUniqueFlags tenant name = ground arith

get-for_tenant_example :
    get "export" (for_tenant some_waffle some_defaults acme none flagged_db)
    ≡ some (is_enabled some_waffle some_defaults "export" none (some acme) flagged_db)
unfolding get
get-for_tenant_example =
    get-for_tenant some_waffle some_defaults acme none "export" flagged_db flagged-HasUniqueFlags

acme_on_solo : plan_slug_of acme flagged_db ≡ some "solo"
unfolding plan_slug_of select
acme_on_solo = refl

solo_keys : HasUniqueKeys (("export", true) ∷ ("api", false) ∷ [])
unfolding get
solo_keys = (refl, (refl, tt))

abbrev plan_setting : List (String × List (String × Bool))
plan_setting = ("solo", ("export", true) ∷ ("api", false) ∷ []) ∷ []

solo_listed : get "solo" plan_setting ≡ some (("export", true) ∷ ("api", false) ∷ [])
unfolding get
solo_listed = refl
