-- ===== src/Store/Crdt/Docs.antt =====
-- The documents that the operations leave in memory, and their versions.
use cali_go_stack.Base.{
  ℕ, ◌+◌, ◌%◌, ◌^◌, ◌≡◌, ◌≢◌, refl, sym, ap, ◌∙◌, String, true, Option, some, none, [], ◌∷◌, arith,
  eq_iff, lookup, lookup-insert, Option-cases, inl, inr,
}
use cali_go_stack.Store.Entity.{Todo, Error, ok}
use cali_go_stack.Store.App.{App, owner_is}
use cali_go_stack.Store.Loro.{Loro}
use cali_go_stack.Store.Items.{find_item, rehydrate}
use cali_go_stack.Store.Projection.{page_size}
use cali_go_stack.Store.Crdt.{
  Wired, OpId, Crdt, version, put_doc, bump_version, publish_op, doc, persist, read_back,
}

module _ (a : App) (l : Loro) (e : Wired) where
  open l use {Doc}

  -- The document of an owner in memory.
  abbrev pub Held : String → Doc → Crdt a l → Type 0
  Held owner d s = lookup owner s.docs ≡ some d

  -- An operation finds the document in memory, or has loaded it; nothing else changes.
  pub doc-Held :
      (now : ℕ) (owner : String) (s s' : Crdt a l) (d : Doc)
      → doc a l e now owner s ≡ some (d, s')
      → Held owner d s'
        × (s'.versions ≡ s.versions)
        × (s'.db ≡ s.db)
        × ((other : String) → other ≢ owner → lookup other s'.docs ≡ lookup other s.docs)
  unfolding doc
  doc-Held now owner s s' d done = elim (Option-cases (lookup owner s.docs)) [
    | inr (d0, held) ↦ (
      ground (arith, held),
      ground (arith, held),
      ground (arith, held),
      λ other ne. ground (arith, held),
    )
    | inl absent ↦
        elim (Option-cases (a.find_page s.db (owner_is owner ∷ []) true (page_size a l))) [
          | inl failed ↦ absurd (ground (arith, absent, failed))
          | inr (rs, page) ↦ elim (Option-cases (rehydrate l now rs l.new_doc)) [
            | inl failed ↦ absurd (ground (arith, absent, page, failed))
            | inr (d0, loaded) ↦ (
              ground (
                arith,
                absent,
                page,
                loaded,
                lookup-insert owner owner d0 s.docs,
                eq_iff owner owner,
              ),
              ground (arith, absent, page, loaded),
              ground (arith, absent, page, loaded),
              λ other ne. ground (
                arith,
                absent,
                page,
                loaded,
                lookup-insert owner other d0 s.docs,
                eq_iff owner other,
              ),
            )
          ]
        ]
  ]

  -- A document in memory is the one that is used.
  pub doc_again :
      (now : ℕ) (owner : String) (s : Crdt a l) (d : Doc)
      → Held owner d s
      → doc a l e now owner s ≡ some (d, s)
  unfolding doc
  doc_again now owner s d held = ground (arith, held)

  -- What putting a document and persisting it does to the documents and the versions.
  pub persist-Held :
      (owner : String) (d : Doc) (s : Crdt a l)
      → let s' = (persist a l e owner d (put_doc owner d s)).1 in
        Held owner d s'
        × (version owner s' ≡ (version owner s + 1) % 2 ^ 64)
        × ((other : String)
            → other ≢ owner
            → (lookup other s'.docs ≡ lookup other s.docs)
              × (lookup other s'.versions ≡ lookup other s.versions))
  unfolding persist bump_version
  persist-Held owner d s = (
    ground (arith, lookup-insert owner owner d s.docs, eq_iff owner owner),
    rw
        (
          lookup-insert owner owner ((version owner s + 1) % 2 ^ 64) s.versions,
          (eq_iff owner owner).1 refl,
        )
        refl,
    λ other ne. (
      ground (arith, lookup-insert owner other d s.docs, eq_iff owner other),
      ground (
        arith,
        lookup-insert owner other ((version owner s + 1) % 2 ^ 64) s.versions,
        eq_iff owner other,
      ),
    ),
  )

  pub publish_op-keeps :
      (owner : String) (op : OpId) (d : Doc) (s : Crdt a l)
      → ((publish_op a l e owner op d s).docs ≡ s.docs)
        × ((publish_op a l e owner op d s).versions ≡ s.versions)
  unfolding publish_op
  publish_op-keeps owner op d s = elim (Option-cases (l.export_updates d)) [
    | inl failed ↦ (ground (arith, failed), ground (arith, failed))
    | inr (updates, exported) ↦ (ground (arith, exported), ground (arith, exported))
  ]

  -- What an operation that returned the todo `out` has left: the document `d` in memory with that
  -- todo under `id`, the version raised by one, and other owners as they were.
  pub record Wrote (owner id : String) (d : Doc) (out : Todo) (s s' : Crdt a l) : Type 0 where
    pub held : Held owner d s'
    pub found : find_item l d id ≡ some out
    pub raised : version owner s' ≡ (version owner s + 1) % 2 ^ 64
    pub docs_kept : (other : String) → other ≢ owner → lookup other s'.docs ≡ lookup other s.docs
    pub versions_kept :
        (other : String) → other ≢ owner → lookup other s'.versions ≡ lookup other s.versions

  -- The state that persisting a document leaves.
  abbrev pub stored_doc : String → Doc → Crdt a l → Crdt a l
  stored_doc owner d s = (persist a l e owner d (put_doc owner d s)).1

  -- Wrote for any state with the documents and versions that persisting leaves.
  stored_doc-Wrote :
      (owner id : String) (d : Doc) (out : Todo) (s s' : Crdt a l)
      → find_item l d id ≡ some out
      → s'.docs ≡ (stored_doc owner d s).docs
      → s'.versions ≡ (stored_doc owner d s).versions
      → Wrote owner id d out s s'
  stored_doc-Wrote owner id d out s s' found docs versions =
      let (held, raised, others) = persist-Held owner d s in
      record {
        held = ap (lookup owner) docs ∙ held;
        found = found;
        raised = rw versions raised;
        docs_kept = λ other ne. ap (lookup other) docs ∙ (others other ne).0;
        versions_kept = λ other ne. ap (lookup other) versions ∙ (others other ne).1;
      }

  pub read_back-Wrote :
      (owner id : String) (op : OpId) (d : Doc) (missing : Error) (out : Todo) (s s' : Crdt a l)
      → read_back a l e owner op id d missing (persist a l e owner d (put_doc owner d s))
        ≡ (ok out, s')
      → Wrote owner id d out s s'
  read_back-Wrote owner id op d missing out s s' done =
      go (persist a l e owner d (put_doc owner d s)) refl done
    where
      go :
          (x : Option Error × Crdt a l)
          → persist a l e owner d (put_doc owner d s) ≡ x
          → read_back a l e owner op id d missing x ≡ (ok out, s')
          → Wrote owner id d out s s'
      go (some failed, s1) was done = cc
      go (none, s1) was done = elim (Option-cases (find_item l d id)) [
        | inl absent ↦ absurd (ground (arith, absent))
        | inr (t, found) ↦
            let kept = publish_op-keeps owner op d s1 in
            let after : publish_op a l e owner op d s1 ≡ s' = ground (arith, found) in
            let same : t ≡ out = ground (arith, found) in
            stored_doc-Wrote owner id d out s s' (found ∙ ap some same)
              (ap (λ (x : Crdt a l). x.docs) (sym after)
                ∙ kept.0
                ∙ ap (λ (x : Option Error × Crdt a l). x.1.docs) (sym was))
              (ap (λ (x : Crdt a l). x.versions) (sym after)
                ∙ kept.1
                ∙ ap (λ (x : Option Error × Crdt a l). x.1.versions) (sym was))
      ]
