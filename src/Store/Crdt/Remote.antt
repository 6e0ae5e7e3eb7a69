-- ===== src/Store/Crdt/Remote.antt =====
-- What a delete and an update from another instance leave.
use cali_go_stack.Base.{
  ℕ, ◌+◌, ◌%◌, ◌^◌, ◌≡◌, ◌≢◌, ◌||◌, refl, sym, ap, ◌∙◌, String, false, Option, some, none, [], ◌∷◌,
  arith, ◌==◌, eq_iff, lookup, insert, lookup-insert, Option-cases, inl, inr, nat_eq, length,
}
use cali_go_stack.Queue.Chan.{Bytes}
use cali_go_stack.Store.Entity.{Error, Result, ok, err, not_found}
use cali_go_stack.Store.App.{App}
use cali_go_stack.Store.Loro.{Loro, LoroLaws}
use cali_go_stack.Store.Items.{find_item, or_else}
use cali_go_stack.Store.Crdt.{
  Wired, OpId, Crdt, version, put_doc, bump_version, doc, persist, announce, delete_in, delete,
  applied, apply_remote_op, delete_op, get,
}
use cali_go_stack.Store.Crdt.Docs.{
  Held, doc-Held, doc_again, persist-Held, publish_op-keeps, stored_doc,
}

length_nil : (bs : Bytes) → bs ≢ [] → nat_eq (length bs) 0 ≡ false
length_nil [] ne = absurd (ne refl)
length_nil (b ∷ bs) ne = ground arith

module _ (a : App) (l : Loro) (e : Wired) where
  open l use {Doc}

  -- The document in memory, and the version raised by one.
  abbrev pub Raised : String → Doc → Crdt a l → Crdt a l → Type 0
  Raised owner d s s' = Held a l e owner d s' × (version owner s' ≡ (version owner s + 1) % 2 ^ 64)

  pub announce-Raised {ℓ} :
      {R : Type ℓ}
      → (r : R) (owner : String) (op : OpId) (d : Doc) (s s' : Crdt a l)
      → announce a l e r owner op d (persist a l e owner d (put_doc owner d s)) ≡ (ok r, s')
      → Raised owner d s s'
  announce-Raised {R = R} r owner op d s s' done =
      go (persist a l e owner d (put_doc owner d s)) refl done
    where
      go :
          (x : Option Error × Crdt a l)
          → persist a l e owner d (put_doc owner d s) ≡ x
          → announce a l e r owner op d x ≡ (ok r, s')
          → Raised owner d s s'
      go (some failed, s1) was ended = cc
      go (none, s1) was ended =
          let (held, raised, others) = persist-Held a l e owner d s in
          let kept = publish_op-keeps a l e owner op d s1 in
          let after = ap (λ (x : Result R × Crdt a l). x.1) ended in
          let from = ap (λ (x : Option Error × Crdt a l). x.1) was in
          (
            ap (λ (x : Crdt a l). lookup owner x.docs) (sym after)
                ∙ ap (lookup owner) kept.0
                ∙ ap (λ (x : Crdt a l). lookup owner x.docs) (sym from)
                ∙ held,
            ap (version owner) (sym after)
                ∙ ap (λ v. or_else 0 (lookup owner v)) kept.1
                ∙ ap (version owner) (sym from)
                ∙ raised,
          )

  -- A delete in a document that went well.
  pub delete_in_ok :
      (owner id : String) (d : Doc) (s s' : Crdt a l)
      → delete_in a l e owner id d s ≡ (ok tt, s')
      → (d' : Doc) × (l.delete d id ≡ some d') × Raised owner d' s s'
  delete_in_ok owner id d s s' done = elim (Option-cases (l.find d id)) [
    | inl absent ↦ absurd (ground (arith, absent))
    | inr (v, found) ↦ elim (Option-cases (l.delete d id)) [
      | inl failed ↦ absurd (ground (arith, found, failed))
      | inr (d', deleted) ↦ (
        d',
        deleted,
        announce-Raised {0} (tt {0}) owner (delete_op id) d' s s' (ground (arith, found, deleted)),
      )
    ]
  ]

  delete_ok :
      (now : ℕ) (owner id : String) (s s' : Crdt a l)
      → delete a l e now owner id s ≡ (ok tt, s')
      → (((owner == "") || (id == "")) ≡ false)
        × (d d' : Doc) × (l.delete d id ≡ some d')
        × Raised owner d' s s'
  unfolding delete
  delete_ok now owner id s s' done = elim (Option-cases (doc a l e now owner s)) [
    | inl failed ↦ absurd (ground (arith, failed))
    | inr ((d, s1), loaded) ↦
        let named : ((owner == "") || (id == "")) ≡ false = ground arith in
        let versions = (doc-Held a l e now owner s s1 d loaded).1 in
        let (d', deleted, (held, raised)) =
          delete_in_ok owner id d s1 s' (ground (arith, named, loaded)) in
        (
          named,
          d,
          d',
          deleted,
          (held, raised ∙ ap (λ v. (or_else 0 (lookup owner v) + 1) % 2 ^ 64) versions),
        )
  ]

  -- A todo that was deleted is not found any more, a second delete of it answers that it is not
  -- found and changes nothing, and the version of the document has been raised by one.
  pub get-delete :
      (laws : LoroLaws l) (now later : ℕ) (owner id : String) (s s' : Crdt a l)
      → delete a l e now owner id s ≡ (ok tt, s')
      → (get a l e later owner id s' ≡ (err not_found, s'))
        × (delete a l e later owner id s' ≡ (err not_found, s'))
        × (version owner s' ≡ (version owner s + 1) % 2 ^ 64)
  unfolding get delete find_item
  get-delete laws now later owner id s s' done =
      let (named, d, d', deleted, (held, raised)) = delete_ok now owner id s s' done in
      let gone : l.find d' id ≡ none =
        laws.find_delete d d' id id deleted ∙ rw ((eq_iff id id).1 refl) refl in
      let loaded = doc_again a l e later owner s' d' held in
      (ground (arith, named, loaded, gone), ground (arith, named, loaded, gone), raised)

  bump_version-raises :
      (owner : String) (d : Doc) (s : Crdt a l)
      → let s' = bump_version a l e owner (stored_doc a l e owner d s) in
        Held a l e owner d s' × (version owner s' ≡ ((version owner s + 1) % 2 ^ 64 + 1) % 2 ^ 64)
  unfolding bump_version
  bump_version-raises owner d s =
      let s1 = stored_doc a l e owner d s in
      let n = (version owner s1 + 1) % 2 ^ 64 in
      let (held, raised, others) = persist-Held a l e owner d s in
      let bumped : lookup owner (insert owner n s1.versions) ≡ some n =
        lookup-insert owner owner n s1.versions ∙ rw ((eq_iff owner owner).1 refl) refl in
      (held, ap (or_else 0) bumped ∙ ap (λ n. (n + 1) % 2 ^ 64) raised)

  -- An update from another instance that is applied without an error: the owner's document in memory is
  -- what Loro merges out of the one that was used before and the update. The version of the document
  -- is raised twice, although one update was applied.
  pub apply_remote_op_merges :
      (now : ℕ) (owner : String) (updates : Bytes) (d merged : Doc) (s s1 s' : Crdt a l)
      → updates ≢ []
      → doc a l e now owner s ≡ some (d, s1)
      → l.import_updates d updates ≡ some merged
      → apply_remote_op a l e now owner updates s ≡ (ok tt, s')
      → Held a l e owner merged s'
        × (version owner s' ≡ ((version owner s + 1) % 2 ^ 64 + 1) % 2 ^ 64)
  unfolding apply_remote_op
  apply_remote_op_merges now owner updates d merged s s1 s' some_updates loaded imported done =
      let versions = (doc-Held a l e now owner s s1 d loaded).1 in
      let (held, raised) =
        go (persist a l e owner merged (put_doc owner merged s1)) refl
          (ground (arith, length_nil updates, loaded, imported)) in
      (held, raised ∙ ap (λ v. ((or_else 0 (lookup owner v) + 1) % 2 ^ 64 + 1) % 2 ^ 64) versions)
    where
      go :
          (x : Option Error × Crdt a l)
          → persist a l e owner merged (put_doc owner merged s1) ≡ x
          → applied a l e owner x ≡ (ok tt, s')
          → Held a l e owner merged s'
            × (version owner s' ≡ ((version owner s1 + 1) % 2 ^ 64 + 1) % 2 ^ 64)
      go (some failed, s2) was ended = cc
      go (none, s2) was ended =
          let (held, raised) = bump_version-raises owner merged s1 in
          let same : bump_version a l e owner (stored_doc a l e owner merged s1) ≡ s' =
            ap (λ (x : Option Error × Crdt a l). bump_version a l e owner x.1) was
            ∙ ap (λ (x : Result (Unit {0}) × Crdt a l). x.1) ended in
          (
            ap (λ (x : Crdt a l). lookup owner x.docs) (sym same) ∙ held,
            ap (version owner) (sym same) ∙ raised,
          )
