-- ===== src/Common/Restoring.antt =====
-- Soft deletion and restoring undo each other, and what the managers see of them.
use django_saas_kit.Orm.Queries.{filter-and, filter-save_self}
use django_saas_kit.Base.{
  ap, ◌∙◌, select, ℕ, Bool, Option, String, none, some, true, false, not, refl, ◌≡◌, [], ◌∷◌,
}
use django_saas_kit.Orm.{Orm}
use django_saas_kit.Common.SoftDelete.{
  Record, delete_record, restore_record, objects, all_objects, with_record_pk, deleted_instance,
  restored_instance, save_deletion,
}

clean_record :
    (pk : ℕ) (title : String) (deleted : Bool) (at by : Option ℕ)
    → deleted ≡ false
    → at ≡ none
    → by ≡ none
    → restored_instance
        (record { pk = pk; title = title; is_deleted = deleted; deleted_at = at; deleted_by = by })
      ≡ record { pk = pk; title = title; is_deleted = deleted; deleted_at = at; deleted_by = by }
clean_record pk title deleted at by active never nobody = rw (active, never, nobody) refl

hidden :
    (now : ℕ) (by : Option ℕ) (row : Record)
    → select (λ r. not r.is_deleted) (save_deletion (deleted_instance now by row) row ∷ []) ≡ []
unfolding select
hidden now none row = refl
hidden now (some user) row = refl

shown :
    (row : Record) → row.is_deleted ≡ false → select (λ r. not r.is_deleted) (row ∷ []) ≡ row ∷ []
unfolding select
shown row active = rw active refl

marked :
    (now : ℕ) (by : Option ℕ) (row : Record)
    → row.deleted_by ≡ none
    → save_deletion (deleted_instance now by row) row
      ≡ record row { is_deleted = true; deleted_at = some now; deleted_by = by }
marked now none row nobody = rw nobody refl
marked now (some user) row nobody = refl

restored_whole :
    (now : ℕ) (by : Option ℕ) (row : Record)
    → restored_instance (deleted_instance now by row) ≡ restored_instance row
restored_whole now none row = refl
restored_whole now (some user) row = refl

module _ ⦃orm : Orm⦄ where
  -- The row of an instance after its deletion columns were saved.
  saved_row :
      (self row : Record) (t : orm.Table Record)
      → orm.filter (with_record_pk row.pk) t ≡ row ∷ []
      → orm.filter (with_record_pk row.pk) (orm.save (with_record_pk row.pk) (save_deletion self) t)
        ≡ save_deletion self row ∷ []
  saved_row self row t stored =
      rw (filter-save_self (with_record_pk row.pk) (save_deletion self) (λ r. refl) t, stored) refl

  -- Of the rows of a key, the default manager shows those that are not deleted.
  shown_rows :
      (pk : ℕ) (t : orm.Table Record)
      → objects (with_record_pk pk) t
        ≡ select (λ r. not r.is_deleted) (orm.filter (with_record_pk pk) t)
  unfolding objects
  shown_rows pk t = filter-and (with_record_pk pk) (λ r. not r.is_deleted) t

  -- Deleting the one row of an active record, which no earlier deletion has marked, hides it from
  -- the default manager and keeps it, with the time and the user, for the other one; restoring it
  -- makes the row what it was.
  pub delete_restore :
      (now : ℕ) (by : Option ℕ) (row : Record) (t : orm.Table Record)
      → all_objects (with_record_pk row.pk) t ≡ row ∷ []
      → row.is_deleted ≡ false
      → row.deleted_at ≡ none
      → row.deleted_by ≡ none
      → let (self, t1) = delete_record now by row t in
        (objects (with_record_pk row.pk) t1 ≡ [])
        × (all_objects (with_record_pk row.pk) t1
            ≡ record row { is_deleted = true; deleted_at = some now; deleted_by = by } ∷ [])
        × (let (back, t2) = restore_record self t1 in
            (back ≡ row)
            × (objects (with_record_pk row.pk) t2 ≡ row ∷ [])
            × (all_objects (with_record_pk row.pk) t2 ≡ row ∷ []))
  unfolding delete_record restore_record
  delete_restore now by row t stored active never nobody =
      let gone = saved_row (deleted_instance now by row) row t stored in
      let t1 : orm.Table Record =
        orm.save (with_record_pk row.pk) (save_deletion (deleted_instance now by row)) t in
      let clean : restored_instance row ≡ row =
        clean_record row.pk row.title row.is_deleted row.deleted_at row.deleted_by active never
          nobody in
      let back =
        saved_row (restored_instance (deleted_instance now by row))
          (save_deletion (deleted_instance now by row) row) t1 gone in
      let whole : orm.filter (with_record_pk row.pk) (
            orm.save (with_record_pk row.pk)
              (save_deletion (restored_instance (deleted_instance now by row))) t1)
          ≡ row ∷ [] =
        back ∙ ap (λ r. r ∷ []) clean in
      (
        shown_rows row.pk t1 ∙ ap (select (λ r. not r.is_deleted)) gone ∙ hidden now by row,
        gone ∙ ap (λ r. r ∷ []) (marked now by row nobody),
        (
          restored_whole now by row ∙ clean,
          shown_rows row.pk _ ∙ ap (select (λ r. not r.is_deleted)) whole ∙ shown row active,
          whole,
        ),
      )
