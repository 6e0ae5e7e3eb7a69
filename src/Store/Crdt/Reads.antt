-- ===== src/Store/Crdt/Reads.antt =====
-- What a create leaves to be read, and what becomes of one that is sent again.
use cali_go_stack.Base.{
  ℕ, ◌+◌, ◌%◌, ◌^◌, ◌≡◌, ◌⊎◌, refl, sym, ap, ◌∙◌, String, Bool, true, false, Option, some, none,
  List, [], ◌∷◌, arith, ◌==◌, eq_iff, lookup, Option-cases, inl, inr,
}
use cali_go_stack.Store.Entity.{Todo, ok, err, not_found, created_missing}
use cali_go_stack.Store.App.{App}
use cali_go_stack.Store.Loro.{Loro, LoroLaws, Field, Value, child, new_map, put_value}
use cali_go_stack.Store.Items.{
  find_item, item_fields, write_fields, todo_from_loro, stamp, or_else, item_of, todo_at,
}
use cali_go_stack.Store.Crdt.{Wired, Crdt, version, create, get, doc, create_in, created, create_op}
use cali_go_stack.Store.Crdt.Docs.{Held, doc-Held, doc_again, Wrote, read_back-Wrote}

module _ (a : App) (l : Loro) (e : Wired) where
  open l use {Doc}

  -- How a create that returned a todo went, once the document was found: the todo was there already,
  -- or it was written.
  abbrev pub Created : ℕ → Todo → String → Todo → Doc → Crdt a l → Crdt a l → Type 0
  Created now t owner out d s s' =
      ((find_item l d t.id ≡ some out) × (s' ≡ s))
      ⊎ ((d1 d2 : Doc) × (find_item l d t.id ≡ none)
          × (l.insert_map d t.id ≡ some d1)
          × (write_fields l t.id (item_fields now t) d1 ≡ (true, d2))
          × Wrote a l e owner t.id d2 out s s')

  pub create_in-Created :
      (now : ℕ) (t : Todo) (owner : String) (out : Todo) (d : Doc) (s s' : Crdt a l)
      → create_in a l e now owner t d s ≡ (ok out, s')
      → Created now t owner out d s s'
  create_in-Created now t owner out d s s' done = elim (Option-cases (find_item l d t.id)) [
    | inr (old, found) ↦ inl (ground (arith, found), ground (arith, found))
    | inl absent ↦ elim (Option-cases (l.insert_map d t.id)) [
      | inl failed ↦ absurd (ground (arith, absent, failed))
      | inr (d1, inserted) ↦
          go d1 absent inserted (write_fields l t.id (item_fields now t) d1) refl
            (ground (arith, absent, inserted))
    ]
  ]
    where
      go :
          (d1 : Doc)
          → find_item l d t.id ≡ none
          → l.insert_map d t.id ≡ some d1
          → (x : Bool × Doc) → write_fields l t.id (item_fields now t) d1 ≡ x
          → created a l e owner t x s ≡ (ok out, s')
          → Created now t owner out d s s'
      go d1 absent inserted (false, d2) was wrote = cc
      go d1 absent inserted (true, d2) was wrote = inr (
        d1,
        d2,
        absent,
        inserted,
        was,
        read_back-Wrote a l e owner t.id (create_op t.id) d2 created_missing out s s' wrote,
      )

  -- The whole of a create that returned a todo.
  create_ok :
      (now : ℕ) (t : Todo) (owner key : String) (out : Todo) (s s' : Crdt a l)
      → create a l e now t owner key s ≡ (ok out, s')
      → ((owner == "") ≡ false)
        × ((t.id == "") ≡ false)
        × (d : Doc) × (s1 : Crdt a l) × (doc a l e now owner s ≡ some (d, s1))
        × Created now t owner out d s1 s'
  unfolding create
  create_ok now t owner key out s s' done = elim (Option-cases (doc a l e now owner s)) [
    | inl failed ↦ absurd (ground (arith, failed))
    | inr ((d, s1), loaded) ↦
        let own : (owner == "") ≡ false = ground arith in
        let named : (t.id == "") ≡ false = ground arith in
        (
          own,
          named,
          d,
          s1,
          loaded,
          create_in-Created now t owner out d s1 s' (rw (own, named, loaded) at done),
        )
  ]

  -- After it the document in memory holds the todo.
  create-Held :
      (now : ℕ) (t : Todo) (owner key : String) (out : Todo) (s s' : Crdt a l)
      → create a l e now t owner key s ≡ (ok out, s')
      → (d : Doc) × Held a l e owner d s'
        × (find_item l d t.id ≡ some out)
        × ((owner == "") ≡ false)
        × ((t.id == "") ≡ false)
  create-Held now t owner key out s s' done =
      let (own, named, d, s1, loaded, how) = create_ok now t owner key out s s' done in
      elim how [
        | inl (found, same) ↦ (
          d,
          ap (λ (x : Crdt a l). lookup owner x.docs) same
              ∙ (doc-Held a l e now owner s s1 d loaded).0,
          found,
          own,
          named,
        )
        | inr (d1, d2, absent, inserted, wrote, w) ↦ (d2, w.held, w.found, own, named)
      ]

  -- A create that returned a todo has settled it: a create for the same owner under the same id,
  -- with any content and at any time, is answered with that todo and changes nothing, and
  -- reading the id answers with it too.
  pub create_settles :
      (now later : ℕ) (t again : Todo) (owner key other_key : String) (out : Todo) (s s' : Crdt a l)
      → again.id ≡ t.id
      → create a l e now t owner key s ≡ (ok out, s')
      → (get a l e later owner t.id s' ≡ (ok out, s'))
        × (create a l e later again owner other_key s' ≡ (ok out, s'))
  unfolding get create
  create_settles now later t again owner key other_key out s s' same done =
      let (d, held, found, own, named) = create-Held now t owner key out s s' done in
      let loaded = doc_again a l e later owner s' d held in
      (ground (arith, own, named, loaded, found), ground (arith, same, own, named, loaded, found))

-- A run of writes on what is under the key.
abbrev pub put_all : List Field → Option Value → Option Value
put_all [] v = v
put_all (f ∷ fs) v = put_all fs (put_value f v)

module _ (l : Loro) (laws : LoroLaws l) where
  pub find-write_fields :
      (id : String) (fs : List Field) (d d' : l.Doc)
      → write_fields l id fs d ≡ (true, d')
      → l.find d' id ≡ put_all fs (l.find d id)
  unfolding write_fields
  find-write_fields id [] d d' done = ap (λ (x : Bool × l.Doc). l.find x.1 id) (sym done)
  find-write_fields id (f ∷ fs) d d' done = elim (Option-cases (l.insert_any d id f)) [
    | inl failed ↦ absurd (ground (arith, failed))
    | inr (next, wrote) ↦
        let here : l.find next id ≡ put_value f (l.find d id) =
          laws.find_insert_any d next id id f wrote ∙ rw ((eq_iff id id).1 refl) refl in
        find-write_fields id fs next d' (ground (arith, wrote)) ∙ ap (put_all fs) here
  ]

  -- A new item reads as the todo that was written, its times to the second.
  pub written_item :
      (now : ℕ) (t : Todo) (d d1 d2 : l.Doc)
      → l.insert_map d t.id ≡ some d1
      → write_fields l t.id (item_fields now t) d1 ≡ (true, d2)
      → find_item l d2 t.id
        ≡ some (record {
          id = t.id;
          title = t.title;
          completed = t.completed;
          created = stamp now t.created;
          updated = stamp now t.updated;
        })
  unfolding find_item todo_from_loro
  written_item now t d d1 d2 inserted wrote =
      let empty : l.find d1 t.id ≡ some (child new_map) =
        laws.find_insert_map d d1 t.id t.id inserted ∙ rw ((eq_iff t.id t.id).1 refl) refl in
      ap (λ v. todo_at t.id (item_of v))
        (find-write_fields t.id (item_fields now t) d1 d2 wrote
          ∙ ap (put_all (item_fields now t)) empty)

module _ (a : App) (l : Loro) (laws : LoroLaws l) (e : Wired) where
  -- A create under an id that the owner did not have returns the todo that it was given, its times to
  -- the second, and the present time where it had none, and raises the version of the owner's document by one.
  pub create_fresh :
      (now : ℕ) (t out : Todo) (owner key : String) (s s1 s' : Crdt a l)
      → get a l e now owner t.id s ≡ (err not_found, s1)
      → create a l e now t owner key s ≡ (ok out, s')
      → (out ≡ record t { created = stamp now t.created; updated = stamp now t.updated })
        × (version owner s' ≡ (version owner s + 1) % 2 ^ 64)
  unfolding get
  create_fresh now t out owner key s s1 s' missing done =
      let (own, named, d, s2, loaded, how) = create_ok a l e now t owner key out s s' done in
      elim how [
        | inl (found, same) ↦ absurd (ground (arith, own, named, loaded, found))
        | inr (d1, d2, absent, inserted, wrote, w) ↦ (
          ground (arith, w.found, written_item l laws now t d d1 d2 inserted wrote),
          w.raised
              ∙ ap (λ v. (or_else 0 (lookup owner v) + 1) % 2 ^ 64)
                  (doc-Held a l e now owner s s2 d loaded).1,
        )
      ]
