-- ===== src/Invitations/Lifecycle.antt =====
-- The states of an invitation over any calls: an open one ends at most once, as accepted, revoked or
-- expired, and an ended one never changes again.
use django_saas_kit.Base.{refl, ◌≡◌, [], ◌∷◌, sym, ◌∙◌, ap, false, List}
use django_saas_kit.Orm.{Orm}
use django_saas_kit.Models.{Db, TenantInvitation}
use django_saas_kit.Invitations.Service.{is_pending, set_expired, set_accepted, set_revoked}
use django_saas_kit.Invitations.Steps.{
  Op, send, accept, revoke, Evolves, stays, expires, accepts, revokes, IsFresh, run, Stored,
  run-Evolves,
}

module _ ⦃orm : Orm⦄ where
  -- Calls made one after the other, whatever each of them returns or raises.
  unfoldable pub run_all : List Op → Db → Db
  run_all [] db = db
  run_all (op ∷ ops) db = run_all ops (run op db)

  abbrev pub AllFresh : List Op → TenantInvitation → Type 0
  AllFresh [] i = Unit
  AllFresh (op ∷ ops) i = IsFresh op i × AllFresh ops i

  IsFresh-same : (op : Op) (i j : TenantInvitation) → i.pk ≡ j.pk → IsFresh op i → IsFresh op j
  IsFresh-same (send env tenant email role by) i j same h = λ e. h (e ∙ sym same)
  IsFresh-same (accept env token user) i j same h = h
  IsFresh-same (revoke id tenant by) i j same h = h

  AllFresh-same :
      (i j : TenantInvitation) (ops : List Op) → i.pk ≡ j.pk → AllFresh ops i → AllFresh ops j
  AllFresh-same i j [] same h = h
  AllFresh-same i j (op ∷ ops) same h =
      (IsFresh-same op i j same h.0, AllFresh-same i j ops same h.1)

  ended_same : (i j : TenantInvitation) → is_pending i.status ≡ false → Evolves i j → j ≡ i
  ended_same i j ended stays = refl
  ended_same i j ended (expires open_still) = cc
  ended_same i j ended (accepts user open_still) = cc
  ended_same i j ended (revokes open_still) = cc

  -- An invitation that was accepted, revoked or has expired is never changed again, by any calls.
  pub ended_stays :
      (i : TenantInvitation) (ops : List Op) (db : Db)
      → is_pending i.status ≡ false
      → AllFresh ops i
      → Stored i i db
      → Stored i i (run_all ops db)
  unfolding run_all
  ended_stays i [] db ended fresh stored = stored
  ended_stays i (op ∷ ops) db ended fresh stored =
      let (j, evolves, stored') = run-Evolves i op db fresh.0 stored in
      ended_stays i ops (run op db) ended fresh.1
        (stored' ∙ ap (λ k. k ∷ []) (ended_same i j ended evolves))

  ends :
      (i j : TenantInvitation) (ops : List Op) (db : Db)
      → AllFresh ops i
      → (Stored i i db → (k : TenantInvitation) × Evolves i k × Stored i k (run_all ops db))
      → Evolves i j
      → Stored i j db
      → (k : TenantInvitation) × Evolves i k × Stored i k (run_all ops db)
  ends i j ops db fresh rest stays stored = rest stored
  ends i j ops db fresh rest (expires h) stored = (
    set_expired i,
    expires h,
    ended_stays (set_expired i) ops db refl (AllFresh-same i (set_expired i) ops refl fresh) stored,
  )
  ends i j ops db fresh rest (accepts user h) stored = (
    set_accepted user i,
    accepts user h,
    ended_stays (set_accepted user i) ops db refl
        (AllFresh-same i (set_accepted user i) ops refl fresh) stored,
  )
  ends i j ops db fresh rest (revokes h) stored = (
    set_revoked i,
    revokes h,
    ended_stays (set_revoked i) ops db refl (AllFresh-same i (set_revoked i) ops refl fresh) stored,
  )

  -- Over any calls an invitation stays as it is, or ends once: it is set to accepted, revoked or
  -- expired, nothing else of it but the accepting user changes, and it keeps that end.
  pub run_all-Evolves :
      (i : TenantInvitation) (ops : List Op) (db : Db)
      → AllFresh ops i
      → Stored i i db
      → (j : TenantInvitation) × Evolves i j × Stored i j (run_all ops db)
  unfolding run_all
  run_all-Evolves i [] db fresh stored = (i, stays, stored)
  run_all-Evolves i (op ∷ ops) db fresh stored =
      let (j, evolves, stored') = run-Evolves i op db fresh.0 stored in
      ends i j ops (run op db) fresh.1 (run_all-Evolves i ops (run op db) fresh.1) evolves stored'
