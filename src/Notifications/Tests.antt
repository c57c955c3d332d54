-- ===== src/Notifications/Tests.antt =====
-- Sockets that open and close.
use django_saas_kit.Authentication.Samples.{ones_inj, ones}
use django_saas_kit.Notifications.Pushes.{
  happen, closed, run_events-IsPrivate, opened, IsPrivate, Event, run_events,
}
use django_saas_kit.Notifications.Socket.{disconnect, connect, ChannelLayer, Hub}
use django_saas_kit.Base.{
  ◌==◌, str_eq, if◌then◌else◌, refl, none, ℕ, false, String, List, Bool, [], ◌∷◌, true, ◌&&◌,
}
use django_saas_kit.Orm.{memory}
use django_saas_kit.Fixtures.{alice, bob}
use django_saas_kit.Http.{anonymous, authenticated}

-- A channel layer whose groups are sets, as tests.
instance abbrev in_memory : ChannelLayer
in_memory = record {
  Groups = String → ℕ → Bool;
  empty = λ g c. false;
  group_add = λ g c s h d. if str_eq g h && c == d then true else s h d;
  group_discard = λ g c s h d. if str_eq g h && c == d then false else s h d;
  reaches = λ g c s. s g c;
  reaches-empty = λ g c. refl;
  reaches-group_add = λ g h c d s. refl;
  reaches-group_discard = λ g h c d s. refl;
}

-- Bob opens two sockets and closes one; someone without a token and Alice come too.
abbrev an_hour : List Event
an_hour =
    opened 1 (authenticated bob)
    ∷ opened 2 (authenticated bob)
    ∷ opened 3 anonymous
    ∷ closed 1
    ∷ opened 1 (authenticated alice)
    ∷ []

abbrev nobody_there : Hub
nobody_there = record { groups = λ g c. false; user_at = λ c. none }

run_events-IsPrivate_example : IsPrivate ones (run_events ones an_hour nobody_there)
unfolding run_events connect disconnect happen
run_events-IsPrivate_example =
    run_events-IsPrivate ones ones_inj an_hour nobody_there (refl, (refl, (refl, (tt, (refl, tt)))))
      (λ pk c h. absurd (cc h))
