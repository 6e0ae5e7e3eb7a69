-- ===== src/Nats/Crud/Redelivery.antt =====
-- internal/nats/crudproxy.go: a published operation that JetStream delivers twice.
use cali_go_stack.Base.{
  ◌≡◌, ◌≢◌, refl, String, Option, some, none, arith, eq_iff, ◌⊎◌, Option-cases, inl, inr,
}
use cali_go_stack.Store.App.{App, Laws, Record}
use cali_go_stack.Nats.Crud.{
  CrudData, CrudPayload, create, delete, consume, target, handle_create, handle_delete, replica,
}

module _ (a : App) (laws : Laws a) where
  open a use {Db, find_by_id}

  again_create :
      (user : String) (content : Option CrudData) (d : CrudData) (db : Db)
      → content ≡ some d
      → d.id ≢ ""
      → handle_create a user content (handle_create a user content db)
        ≡ handle_create a user content db
  unfolding handle_create
  again_create user content d db has named = elim (Option-cases (a.insert db (replica a user d))) [
    | inl failed ↦ ground (arith, has, failed)
    | inr ((stored, db'), inserted) ↦
        let first = (laws.insert_stores db db' (replica a user d) stored inserted).id named in
        elim (Option-cases (a.insert db' (replica a user d))) [
          | inl refused ↦ ground (arith, has, inserted, refused)
          | inr ((twin, db''), twice) ↦
              let second = (laws.insert_stores db' db'' (replica a user d) twin twice).id named in
              absurd (
                ground (
                  arith,
                  first,
                  second,
                  laws.insert_fresh db' db'' (replica a user d) twin twice,
                  laws.find_insert db db' (replica a user d) stored twin.id inserted,
                  eq_iff stored.id twin.id,
                ))
        ]
  ]

  target_deleted :
      (user : String) (db : Db) (content : Option CrudData) (t : Record) (db' : Db)
      → target a user content db ≡ some t
      → a.delete db t ≡ some db'
      → target a user content db' ≡ none
  unfolding target
  target_deleted user db none t db' touched deleted = refl
  target_deleted user db (some d) t db' touched deleted = elim (Option-cases (find_by_id db d.id)) [
    | inl missing ↦ absurd (ground (arith, missing))
    | inr (r, found) ↦ ground (
      arith,
      found,
      laws.find_id db d.id r found,
      laws.find_delete db db' t d.id deleted,
      eq_iff t.id d.id,
    )
  ]

  again_delete :
      (user : String) (content : Option CrudData) (db : Db)
      → handle_delete a user content (handle_delete a user content db)
        ≡ handle_delete a user content db
  unfolding handle_delete
  again_delete user content db = elim (Option-cases (target a user content db)) [
    | inl nothing ↦ ground (arith, nothing)
    | inr (t, touched) ↦ elim (Option-cases (a.delete db t)) [
      | inl failed ↦ ground (arith, touched, failed)
      | inr (db', deleted) ↦
          ground (arith, touched, deleted, target_deleted user db content t db' touched deleted)
    ]
  ]

  -- A create or a delete that names its record may change the table when it is delivered first:
  -- delivered a second time, right after, it changes nothing.
  pub redelivered :
      (p : CrudPayload) (d : CrudData) (db : Db)
      → p.content ≡ some d
      → d.id ≢ ""
      → (p.op ≡ create) ⊎ (p.op ≡ delete)
      → (consume a p (consume a p db).1).1 ≡ (consume a p db).1
  unfolding consume
  redelivered p d db has named kind = elim kind [
    | inl made ↦ ground (arith, made, again_create p.user p.content d db has named)
    | inr dropped ↦ ground (arith, dropped, again_delete p.user p.content db)
  ]
