-- ===== src/Collab/Sync/Unopened.antt =====
-- An op for a board that the instance has not opened.
use cali_go_stack.Base.{
  ◌≡◌, ◌∙◌, ap, suc, String, true, Option, none, some, List, arith, eq_iff, lookup, insert,
  lookup-insert,
}
use cali_go_stack.Queue.Chan.{Bytes}
use cali_go_stack.Collab.Shapes.{Shape, ShapeOp, Board, apply_shape_op}
use cali_go_stack.Collab.Sync.{
  Instance, Persister, Boards, BoardRecord, pocketbase_persister, apply_op, load_snapshot,
  get_or_create,
}

-- The record with its next version, and a snapshot in the place of its own.
abbrev pub saved_over : BoardRecord → Bytes → BoardRecord
saved_over r snapshot = record r { version = suc r.version; snapshot = snapshot }

module _ {F P : Type 0} (b : Board F) (per : Persister P)
    (update_event : (doc from : String) → Bytes → Bytes)
    (shapes_event : (doc from : String) → List (Shape F) → Bytes) where
  open b use {Doc}

  abbrev found : String → Instance Doc P → Doc × Instance Doc P
  found = get_or_create b per update_event shapes_event

  abbrev apply_to :
      String → String → ShapeOp F → Instance Doc P → Option (List (Shape F)) × Instance Doc P
  apply_to = apply_op b per update_event shapes_event

  abbrev opened_of : String → Instance Doc P → Instance Doc P
  opened_of doc i = (load_snapshot b per update_event shapes_event doc i).1

  persisted-get_or_create :
      (doc : String) (i : Instance Doc P) → (found doc i).1.persisted ≡ i.persisted
  unfolding get_or_create
  persisted-get_or_create doc i = ground arith

  -- An op that applies to the document in memory is saved with it.
  apply_op_saves :
      (i : Instance Doc P) (store : P) (doc from : String) (o : ShapeOp F) (ss : List (Shape F))
      (d0 d : Doc)
      → i.persisted ≡ some store
      → (found doc i).0 ≡ d0
      → apply_shape_op b o d0 ≡ (some ss, d)
      → ((apply_to doc from o i).0 ≡ some ss)
        × ((apply_to doc from o i).1.persisted
            ≡ some (per.save_snapshot doc (b.export_snapshot d) store).1)
  unfolding apply_op
  apply_op_saves i store doc from o ss d0 d kept at applied =
      let same = persisted-get_or_create doc i ∙ kept in (rw (at, applied), rw (at, applied, same))

  found_new :
      (doc : String) (i : Instance Doc P) → lookup doc i.docs ≡ none → (found doc i).0 ≡ b.new_doc
  unfolding get_or_create
  found_new doc i absent = ground (arith, absent)

  found_old :
      (doc : String) (i : Instance Doc P) (d : Doc)
      → lookup doc i.docs ≡ some d
      → (found doc i).0 ≡ d
  unfolding get_or_create
  found_old doc i d held = ground (arith, held)

  -- Opening a board that is not in memory: the saved snapshot is taken in.
  load_snapshot_lem :
      (i : Instance Doc P) (store : P) (doc : String) (old : Bytes) (d0 : Doc)
      → i.persisted ≡ some store
      → per.load_snapshot doc store ≡ some old
      → lookup doc i.docs ≡ none
      → b.import_update b.new_doc old ≡ some d0
      → ((opened_of doc i).persisted ≡ some store) × (lookup doc (opened_of doc i).docs ≡ some d0)
  unfolding load_snapshot get_or_create
  load_snapshot_lem i store doc old d0 kept held absent taken = (
    ground (arith, kept, held, absent, taken),
    ground (
      arith,
      kept,
      held,
      absent,
      taken,
      lookup-insert doc doc d0 (insert doc b.new_doc i.docs),
      eq_iff doc doc,
    ),
  )

module _ {F Db : Type 0} (b : Board F) (boards : Boards Db)
    (update_event : (doc from : String) → Bytes → Bytes)
    (shapes_event : (doc from : String) → List (Shape F) → Bytes) where
  open b use {Doc}

  abbrev per : Persister Db
  per = pocketbase_persister boards

  saved_next :
      (db db' : Db) (doc : String) (r : BoardRecord) (snapshot : Bytes)
      → boards.has_collection db ≡ true
      → boards.find_board db doc ≡ some r
      → boards.save_board db (saved_over r snapshot) ≡ some db'
      → (per.save_snapshot doc snapshot db).1 ≡ db'
  saved_next db db' doc r snapshot there held saved = ground (arith, there, held, saved)

  -- An op that arrives for a board with a saved record, on an instance that keeps its boards in
  -- PocketBase and has no document of this one in memory: if the op applies to an empty document, it
  -- is answered with the shapes of that document, and where PocketBase takes the record, what is
  -- saved is the record's next version with the snapshot of that document in the place of its own,
  -- whatever that held.
  pub unopened_overwritten :
      (i : Instance Doc Db) (db db' : Db) (doc from : String) (o : ShapeOp F) (r : BoardRecord)
      (alone : List (Shape F)) (d : Doc)
      → i.persisted ≡ some db
      → lookup doc i.docs ≡ none
      → boards.has_collection db ≡ true
      → boards.find_board db doc ≡ some r
      → apply_shape_op b o b.new_doc ≡ (some alone, d)
      → boards.save_board db (saved_over r (b.export_snapshot d)) ≡ some db'
      → let unopened = apply_op b per update_event shapes_event doc from o i in
        (unopened.0 ≡ some alone) × (unopened.1.persisted ≡ some db')
  unopened_overwritten i db db' doc from o r alone d kept absent there held applied saved =
      let (answer, stored) =
        apply_op_saves b per update_event shapes_event i db doc from o alone b.new_doc d kept
          (found_new b per update_event shapes_event doc i absent) applied in
      (answer, stored ∙ ap some (saved_next db db' doc r (b.export_snapshot d) there held saved))

  -- The same op where the board was opened first, and Loro takes the saved snapshot in: it is applied
  -- to what was saved, and the snapshot of the result is saved.
  pub opened_kept :
      (i : Instance Doc Db) (db db' : Db) (doc from : String) (o : ShapeOp F) (r : BoardRecord)
      (whole : List (Shape F)) (d0 d1 : Doc)
      → i.persisted ≡ some db
      → lookup doc i.docs ≡ none
      → boards.has_collection db ≡ true
      → boards.find_board db doc ≡ some r
      → per.load_snapshot doc db ≡ some r.snapshot
      → b.import_update b.new_doc r.snapshot ≡ some d0
      → apply_shape_op b o d0 ≡ (some whole, d1)
      → boards.save_board db (saved_over r (b.export_snapshot d1)) ≡ some db'
      → let at = load_snapshot b per update_event shapes_event doc i in
        let opened = apply_op b per update_event shapes_event doc from o at.1 in
        (opened.0 ≡ some whole) × (opened.1.persisted ≡ some db')
  opened_kept i db db' doc from o r whole d0 d1 kept absent there held loaded taken after saved =
      let (still, inside) =
        load_snapshot_lem b per update_event shapes_event i db doc r.snapshot d0 kept loaded absent
          taken in
      let at = opened_of b per update_event shapes_event doc i in
      let (answer, stored) =
        apply_op_saves b per update_event shapes_event at db doc from o whole d0 d1 still
          (found_old b per update_event shapes_event doc at d0 inside) after in
      (answer, stored ∙ ap some (saved_next db db' doc r (b.export_snapshot d1) there held saved))
