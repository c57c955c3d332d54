-- ===== src/Common/SoftDelete.antt =====
-- apps/common/models.py: rows that are marked as deleted, the managers and the methods of `BaseModel`.
-- A method is called on an instance that was read before; it writes the columns of `update_fields`.
use django_saas_kit.Base.{
  ◌&&◌, length, ℕ, Bool, Option, String, none, some, true, false, not, ◌==◌, List,
}
use django_saas_kit.Orm.{Orm}

pub record Record : Type 0 where
  pub pk : ℕ
  pub title : String
  pub is_deleted : Bool
  pub deleted_at : Option ℕ
  pub deleted_by : Option ℕ

abbrev pub with_record_pk : ℕ → Record → Bool
with_record_pk pk r = r.pk == pk

-- `update_fields=["is_deleted", "deleted_at", "deleted_by"]`
abbrev pub save_deletion : Record → Record → Record
save_deletion self r = record r {
  is_deleted = self.is_deleted;
  deleted_at = self.deleted_at;
  deleted_by = self.deleted_by;
}

-- The assignments of `delete` and `restore` to the instance.
abbrev pub deleter : Option ℕ → Option ℕ → Option ℕ
deleter none before = before
deleter (some by) before = some by

abbrev pub deleted_instance : ℕ → Option ℕ → Record → Record
deleted_instance now by self = record self {
  is_deleted = true;
  deleted_at = some now;
  deleted_by = deleter by self.deleted_by;
}

abbrev pub restored_instance : Record → Record
restored_instance self = record self { is_deleted = false; deleted_at = none; deleted_by = none }

-- The columns that `update` of a queryset writes.
abbrev pub mark_deleted : ℕ → Record → Record
mark_deleted now r = record r { is_deleted = true; deleted_at = some now }

module _ ⦃orm : Orm⦄ where
  -- `SoftDeleteManager.get_queryset`, filtered
  unfoldable pub objects : (Record → Bool) → orm.Table Record → List Record
  objects p t = orm.filter (λ r. p r && not r.is_deleted) t

  -- `all_objects`, filtered
  abbrev pub all_objects : (Record → Bool) → orm.Table Record → List Record
  all_objects p t = orm.filter p t

  -- `SoftDeleteQuerySet.delete` on `objects.filter(...)`: the number of rows, and the table
  unfoldable pub queryset_delete : ℕ → (Record → Bool) → orm.Table Record → ℕ × orm.Table Record
  unfolding objects
  queryset_delete now p t =
      (length (objects p t), orm.save (λ r. p r && not r.is_deleted) (mark_deleted now) t)

  -- `BaseModel.delete`, `BaseModel.restore` and `BaseModel.hard_delete`: the instance and the table
  unfoldable pub delete_record :
      ℕ → Option ℕ → Record → orm.Table Record → Record × orm.Table Record
  delete_record now by self t =
      let self' = deleted_instance now by self in
      (self', orm.save (with_record_pk self.pk) (save_deletion self') t)

  unfoldable pub restore_record : Record → orm.Table Record → Record × orm.Table Record
  restore_record self t =
      let self' = restored_instance self in
      (self', orm.save (with_record_pk self.pk) (save_deletion self') t)

  unfoldable pub hard_delete_record : Record → orm.Table Record → orm.Table Record
  hard_delete_record self t = orm.delete (with_record_pk self.pk) t
