-- ===== src/Notifications/Pushes.antt =====
-- A push to a user reaches only the sockets that were opened as this user.
use django_saas_kit.Base.{
  ap, List, Option, String, ℕ, none, some, [], ◌∷◌, ◌==◌, true, str_eq, ◌≡◌, refl, arith,
  Bool-cases, inl, inr, eq_iff,
}
use django_saas_kit.Http.{Requester, anonymous, authenticated}
use django_saas_kit.Models.{User}
use django_saas_kit.Text.Laws.{append_cancel}
use django_saas_kit.Notifications.Socket.{
  leave, ChannelLayer, Hub, connect, disconnect, notification_group,
}

-- What happens to a socket.
pub data Event : Type 0 where
  opened : (channel : ℕ) → Requester → Event
  closed : (channel : ℕ) → Event

module _ ⦃layer : ChannelLayer⦄ (str : ℕ → String) where
  unfoldable pub happen : Event → Hub → Hub
  happen (opened channel user) hub = connect str channel user hub
  happen (closed channel) hub = disconnect str channel hub

  unfoldable pub run_events : List Event → Hub → Hub
  unfolding happen
  run_events [] hub = hub
  run_events (event ∷ events) hub = run_events events (happen event hub)

  -- A channel is opened only while no consumer uses it, its name being unique.
  abbrev pub IsUnused : Event → Hub → Type 0
  IsUnused (opened channel user) hub = hub.user_at channel ≡ none
  IsUnused (closed channel) hub = Unit

  abbrev pub AllUnused : List Event → Hub → Type 0
  AllUnused [] hub = Unit
  AllUnused (event ∷ events) hub = IsUnused event hub × AllUnused events (happen event hub)

  -- The group of a user reaches only channels whose consumers are this user's.
  abbrev pub IsPrivate : Hub → Type 0
  IsPrivate hub =
      (pk channel : ℕ)
      → layer.reaches (notification_group str pk) channel hub.groups ≡ true
      → hub.user_at channel ≡ some pk

  module _ (str_inj : (m n : ℕ) → str m ≡ str n → m ≡ n) where
    group_inj :
        (m n : ℕ) → str_eq (notification_group str m) (notification_group str n) ≡ true → m ≡ n
    group_inj m n h = str_inj m n (
        append_cancel "notifications_" (str m) (str n)
          ((eq_iff (notification_group str m) (notification_group str n)).0 h))

    connect-IsPrivate :
        (c : ℕ) (user : User) (hub : Hub)
        → hub.user_at c ≡ none
        → IsPrivate hub
        → IsPrivate (connect str c (authenticated user) hub)
    unfolding connect
    connect-IsPrivate c user hub unused private pk channel h =
        let k = rw layer.reaches-group_add at h in
        elim (Bool-cases (c == channel)) [
          | inr other ↦
              let before : layer.reaches (notification_group str pk) channel hub.groups ≡ true =
                ground arith in
              rw other (private pk channel before)
          | inl here ↦
              elim (Bool-cases
                (str_eq (notification_group str user.pk) (notification_group str pk))) [
                  | inl same ↦ rw here (ap some (group_inj user.pk pk same))
                  | inr apart ↦
                      let before : layer.reaches (notification_group str pk) channel hub.groups
                          ≡ true =
                        ground arith in
                      let at_c : c ≡ channel = ground arith in
                      let held = private pk channel before in
                      let free = rw at_c at unused in absurd (cc (held, free))
                ]
        ]

    leave-IsPrivate :
        (c : ℕ) (user : Option ℕ) (hub : Hub)
        → hub.user_at c ≡ user
        → IsPrivate hub
        → IsPrivate (leave str c user hub)
    leave-IsPrivate c none hub at_c private pk channel h = private pk channel h
    leave-IsPrivate c (some q) hub at_c private pk channel h =
        let k = rw layer.reaches-group_discard at h in
        elim (Bool-cases (c == channel)) [
          | inr other ↦
              let before : layer.reaches (notification_group str pk) channel hub.groups ≡ true =
                ground arith in
              rw other (private pk channel before)
          | inl here ↦
              elim (Bool-cases (str_eq (notification_group str q) (notification_group str pk))) [
                | inl same ↦ absurd (let k' = rw (same, here) at k in cc k')
                | inr apart ↦
                    let before : layer.reaches (notification_group str pk) channel hub.groups
                        ≡ true =
                      ground arith in
                    let at_channel : c ≡ channel = ground arith in
                    let held = private pk channel before in
                    let own = rw at_channel at at_c in
                    let equal : some q ≡ some pk = cc (held, own) in
                    let alike : str_eq (notification_group str q) (notification_group str pk)
                        ≡ true =
                      (eq_iff (notification_group str q) (notification_group str pk)).1
                        (cc equal) in
                    absurd (cc (alike, apart))
              ]
        ]

    happen-IsPrivate :
        (event : Event) (hub : Hub)
        → IsUnused event hub
        → IsPrivate hub
        → IsPrivate (happen event hub)
    unfolding happen connect disconnect
    happen-IsPrivate (opened c anonymous) hub unused private = private
    happen-IsPrivate (opened c (authenticated user)) hub unused private =
        connect-IsPrivate c user hub unused private
    happen-IsPrivate (closed c) hub unused private =
        leave-IsPrivate c (hub.user_at c) hub refl private

    -- Where no two numbers have the same text, over any sequence of openings and closings of
    -- sockets, each opened on a channel that no consumer uses: where a push to a user reached
    -- only channels whose consumers were opened as this user, that stays so.
    pub run_events-IsPrivate :
        (events : List Event) (hub : Hub)
        → AllUnused events hub
        → IsPrivate hub
        → IsPrivate (run_events events hub)
    unfolding run_events
    run_events-IsPrivate [] hub unused private = private
    run_events-IsPrivate (event ∷ events) hub (unused, rest) private =
        run_events-IsPrivate events (happen event hub) rest
          (happen-IsPrivate event hub unused private)
