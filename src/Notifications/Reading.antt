-- ===== src/Notifications/Reading.antt =====
-- What marking a notification as read does, and for whom.
use django_saas_kit.Orm.Clearing.{filter-save_outside}
use django_saas_kit.Orm.Queries.{filter-save_self, filter-and, select_pass, select-select}
use django_saas_kit.Base.{
  map, ap, ◌∙◌, List-cases, ◌≤◌, sym, length, select, Bool, String, ℕ, [], ◌∷◌, ◌&&◌, not, true,
  ◌≡◌, refl, ◌⊎◌, inl, inr, arith, Bool-cases,
}
use django_saas_kit.Orm.{Orm, ok}
use django_saas_kit.Models.{Db, User, Notification}
use django_saas_kit.Http.{answer, reply, failure}
use django_saas_kit.Notifications.{
  notification_of, notification_not_found, mark_read_view, mark_read, mark_found, set_read,
  owned_by, with_notification_pk,
}

read_fields :
    (pk user : ℕ) (title body : String) (is_read : Bool)
    → is_read ≡ true
    → set_read (record { pk = pk; user = user; title = title; body = body; is_read = is_read })
      ≡ record { pk = pk; user = user; title = title; body = body; is_read = is_read }
read_fields pk user title body is_read read = rw read refl

read_record : (n : Notification) → n.is_read ≡ true → set_read n ≡ n
read_record n read = read_fields n.pk n.user n.title n.body n.is_read read

module _ ⦃orm : Orm⦄ (id : ℕ) (user : User) (db : Db) where
  -- Of the rows of a key, those that are a user's.
  owned_rows :
      orm.filter (owned_by id user) db.notifications
      ≡ select (notification_of user.pk) (orm.filter (with_notification_pk id) db.notifications)
  unfolding select
  owned_rows =
      rw (orm.filter_lem, orm.filter_lem)
        (sym (
          select-select (notification_of user.pk) (with_notification_pk id)
            (orm.all db.notifications)))

  -- The reply, the row and the other rows, where the key is that of a notification of the user.
  mark_own :
      (n : Notification)
      → orm.filter (with_notification_pk id) db.notifications ≡ n ∷ []
      → notification_of user.pk n ≡ true
      → let (r, db') = mark_read_view id user db in
        (r ≡ ok (reply 200 (set_read n)))
        × (orm.filter (with_notification_pk id) db'.notifications ≡ set_read n ∷ [])
        × ((g : Notification → Bool)
            → orm.filter (λ m. g m && not (with_notification_pk id m)) db'.notifications
              ≡ orm.filter (λ m. g m && not (with_notification_pk id m)) db.notifications)
        × (db' ≡ record db { notifications = db'.notifications })
  unfolding mark_read_view mark_read mark_found answer select
  mark_own n one mine =
      let owned : orm.filter (owned_by id user) db.notifications ≡ n ∷ [] =
        rw (owned_rows, one, mine) refl in
      let keyed : with_notification_pk id n ≡ true =
        select_pass (with_notification_pk id) (orm.all db.notifications) [] n
          (sym (orm.filter_lem (with_notification_pk id) db.notifications) ∙ one) in
      let same : n.pk ≡ id = ground arith in
      elim (Bool-cases n.is_read) [
        | inl read ↦
            rw (owned, read)
              (refl, one ∙ ap (λ m. m ∷ []) (sym (read_record n read)), λ g. refl, refl)
        | inr unread ↦
            rw (owned, unread)
              (
                refl,
                ap
                      (λ k.
                        orm.filter (with_notification_pk id)
                          (orm.save (with_notification_pk k) set_read db.notifications))
                      same
                    ∙ filter-save_self (with_notification_pk id) set_read (λ m. refl)
                        db.notifications
                    ∙ ap (map set_read) one,
                λ g.
                    ap
                      (λ k.
                        orm.filter (λ m. g m && not (with_notification_pk id m))
                          (orm.save (with_notification_pk k) set_read db.notifications))
                      same
                    ∙ filter-save_outside g (with_notification_pk id) set_read db.notifications
                        (λ m h. h),
                refl,
              )
      ]

  -- Where the one row of a key is read, no row of the key is unread.
  none_unread :
      (n : Notification) (t : orm.Table Notification)
      → orm.filter (with_notification_pk id) t ≡ set_read n ∷ []
      → orm.filter (λ m. with_notification_pk id m && not m.is_read) t ≡ []
  unfolding select
  none_unread n t one =
      filter-and (with_notification_pk id) (λ m. not m.is_read) t
      ∙ ap (select (λ m. not m.is_read)) one

  -- Where at most one notification has the key: if it is no notification of the user, be it that
  -- of another one, the reply is a 404 and nothing is written. Else the reply is the notification,
  -- read; it is stored as read, so that none with this key is unread; no other notification and no
  -- other table is written.
  pub mark_read_exact :
      length (orm.filter (with_notification_pk id) db.notifications) ≤ 1
      → let (r, db') = mark_read_view id user db in
        ((orm.filter (owned_by id user) db.notifications ≡ [])
          × (r ≡ ok (failure 404 notification_not_found))
          × (db' ≡ db))
        ⊎ ((n : Notification) × (orm.filter (with_notification_pk id) db.notifications ≡ n ∷ [])
            × (notification_of user.pk n ≡ true)
            × (r ≡ ok (reply 200 (set_read n)))
            × (orm.filter (with_notification_pk id) db'.notifications ≡ set_read n ∷ [])
            × (orm.filter (λ m. with_notification_pk id m && not m.is_read) db'.notifications ≡ [])
            × ((g : Notification → Bool)
                → orm.filter (λ m. g m && not (with_notification_pk id m)) db'.notifications
                  ≡ orm.filter (λ m. g m && not (with_notification_pk id m)) db.notifications)
            × (db' ≡ record db { notifications = db'.notifications }))
  unfolding mark_read_view mark_read mark_found answer select
  mark_read_exact single =
      elim (List-cases (orm.filter (with_notification_pk id) db.notifications)) [
        | inl missing ↦
            let none_owned : orm.filter (owned_by id user) db.notifications ≡ [] =
              rw (owned_rows, missing) refl in
            inl (none_owned, rw none_owned refl, rw none_owned refl)
        | inr (inl (n, one)) ↦ elim (Bool-cases (notification_of user.pk n)) [
          | inr other ↦
              let none_owned : orm.filter (owned_by id user) db.notifications ≡ [] =
                rw (owned_rows, one, other) refl in
              inl (none_owned, rw none_owned refl, rw none_owned refl)
          | inl mine ↦
              let (r, row, others, frame) = mark_own n one mine in
              inr (
                n,
                one,
                mine,
                r,
                row,
                none_unread n (mark_read_view id user db).1.notifications row,
                others,
                frame,
              )
        ]
        | inr (inr (n, n', l, more)) ↦ let k = rw more at single in absurd (omega arith)
      ]
