-- ===== src/Collab/Presence/Expiry.antt =====
-- Peers that fall silent leave the roster.
use cali_go_stack.Base.{
  ℕ, ◌+◌, ◌<◌, ◌≡◌, ◌≢◌, refl, sym, subst, ap, ◌∙◌, String, true, false, ◌⊎◌, inl, inr, Option,
  none, some, List, [], ◌∷◌, ◌++◌, ◌==◌, arith, eq_iff, Bool-cases, Assoc, lookup, lookup-insert,
  lookup-remove, Distinct, insert-Distinct, remove-Distinct,
}
use mathlib.Core.List.{append-nil}
use cali_go_stack.Queue.Chan.{Bytes}
use cali_go_stack.Store.App.{All}
use cali_go_stack.Collab.Presence.Sweep.{
  kept_entry, Told, Told-append, Told-behind, sweep-Told, lookup-sweep, sweep-Distinct,
}
use cali_go_stack.Collab.Presence.{
  PresenceMsg, Presence, milliseconds, own_event, publish_cursor, calls, merged, apply, stale, left,
  sweep, all_calls, expire_stale, Event, received, beat, expire, cursor, on_event, run,
}

module _ {F : Type 0} (zero_coordinate : F) where
  module _ (decode : Bytes → Option (PresenceMsg F)) (u : String) (m : PresenceMsg F)
      (p : Presence F) where
    -- The message is not the peer's.
    abbrev pub NotFrom : Option (PresenceMsg F) → Type 0
    NotFrom none = Unit
    NotFrom (some msg) = (msg.user == u) ≡ false

    -- Nothing from the peer.
    abbrev pub Silent : Event zero_coordinate → Type 0
    Silent (received message) = NotFrom (decode message)
    Silent (beat now) = Unit
    Silent (expire now) = Unit
    Silent (cursor x y now) = Unit

    -- The session of `p` some time later: the peer's entry is the same, or it is gone and the
    -- callbacks were told.
    record Later (q : Presence F) : Type 0 where
      same_doc : q.doc ≡ p.doc
      same_self : q.self ≡ p.self
      same_ttl : q.ttl ≡ p.ttl
      same_handlers : q.handlers ≡ p.handlers
      distinct : Distinct q.roster
      entry :
          (lookup u q.roster ≡ some m)
          ⊎ ((lookup u q.roster ≡ none) × Told zero_coordinate p u q.notified)

    Told-same :
        (q : Presence F)
        → Later q
        → (log : List (ℕ × PresenceMsg F)) → Told zero_coordinate q u log
        → Told zero_coordinate p u log
    unfolding left
    Told-same q l log (before, after, t, same) =
        (before, after, t, same ∙ rw (l.same_handlers, l.same_doc))

    -- A change of the roster that leaves the peer's entry, and more calls of the callbacks.
    entry_kept :
        (q : Presence F) (roster : Assoc (PresenceMsg F)) (log more : List (ℕ × PresenceMsg F))
        → log ≡ q.notified ++ more
        → lookup u roster ≡ lookup u q.roster
        → Later q
        → (lookup u roster ≡ some m) ⊎ ((lookup u roster ≡ none) × Told zero_coordinate p u log)
    entry_kept q roster log more grown same l = elim l.entry [
      | inl there ↦ inl (same ∙ there)
      | inr (absent, told) ↦ inr (
        same ∙ absent,
        subst (Told zero_coordinate p u) (sym grown)
            (Told-append zero_coordinate p u q.notified more told),
      )
    ]

    lookup-merged :
        (msg : PresenceMsg F) (roster : Assoc (PresenceMsg F))
        → (msg.user == u) ≡ false
        → lookup u (merged zero_coordinate msg roster) ≡ lookup u roster
    lookup-merged msg roster other =
        ground (arith, other, lookup-insert msg.user u msg roster, lookup-remove msg.user u roster)

    merged-Distinct :
        (msg : PresenceMsg F) (roster : Assoc (PresenceMsg F))
        → Distinct roster
        → Distinct (merged zero_coordinate msg roster)
    merged-Distinct msg roster d =
        ground (arith, insert-Distinct msg.user msg roster d, remove-Distinct msg.user roster d)

    apply-Later :
        (msg : PresenceMsg F) (q : Presence F)
        → (msg.user == u) ≡ false
        → Later q
        → Later (apply zero_coordinate msg q)
    unfolding apply
    apply-Later msg q other l = record {
      same_doc = l.same_doc;
      same_self = l.same_self;
      same_ttl = l.same_ttl;
      same_handlers = l.same_handlers;
      distinct = merged-Distinct msg q.roster l.distinct;
      entry =
          entry_kept q (merged zero_coordinate msg q.roster) _
            (calls zero_coordinate q.handlers msg) refl (lookup-merged msg q.roster other) l;
    }

    cursor-Later :
        (x y : F) (now : ℕ) (q : Presence F)
        → (u == p.self) ≡ false
        → Later q
        → Later (publish_cursor zero_coordinate x y now q)
    unfolding publish_cursor
    cursor-Later x y now q peer l = record {
      same_doc = l.same_doc;
      same_self = l.same_self;
      same_ttl = l.same_ttl;
      same_handlers = l.same_handlers;
      distinct = insert-Distinct _ _ q.roster l.distinct;
      entry =
          entry_kept q _ q.notified [] (sym (append-nil q.notified))
            (ground (
              arith,
              peer,
              l.same_self,
              eq_iff q.self u,
              eq_iff u p.self,
              lookup-insert q.self u
                  (record (own_event zero_coordinate "cursor" now q) { x = x; y = y }) q.roster,
            ))
            l;
    }

    -- A tick of the expiry that finds the entry: it stays, or it goes and the callbacks are told.
    expire_entry :
        (now : ℕ) (q : Presence F)
        → Later q
        → lookup u q.roster ≡ some m
        → let (kept, expired) = sweep zero_coordinate q now q.roster in
          (lookup u kept ≡ some m)
          ⊎ ((lookup u kept ≡ none)
              × Told zero_coordinate p u
                  (q.notified ++ all_calls zero_coordinate q.handlers expired))
    expire_entry now q l there =
        let swept =
          lookup-sweep zero_coordinate q now u q.roster l.distinct
          ∙ ap (kept_entry zero_coordinate q now u) there in
        elim (Bool-cases (stale zero_coordinate q now u m)) [
          | inl gone ↦ inr (
            swept ∙ rw gone refl,
            Told-behind zero_coordinate p u q.notified _
                (Told-same q l _ (sweep-Told zero_coordinate q now u m q.roster there gone)),
          )
          | inr fresh ↦ inl (swept ∙ rw fresh refl)
        ]

    expire-Later : (now : ℕ) (q : Presence F) → Later q → Later (expire_stale zero_coordinate now q)
    unfolding expire_stale
    expire-Later now q l = record {
      same_doc = l.same_doc;
      same_self = l.same_self;
      same_ttl = l.same_ttl;
      same_handlers = l.same_handlers;
      distinct = sweep-Distinct zero_coordinate q now q.roster l.distinct;
      entry = elim l.entry [
        | inl there ↦ expire_entry now q l there
        | inr (absent, told) ↦ inr (
          lookup-sweep zero_coordinate q now u q.roster l.distinct
              ∙ ap (kept_entry zero_coordinate q now u) absent,
          Told-append zero_coordinate p u q.notified _ told,
        )
      ];
    }

    received-Later :
        (o : Option (PresenceMsg F)) (q : Presence F)
        → NotFrom o
        → Later q
        → Later (elim o [ none ↦ q | some msg ↦ apply zero_coordinate msg q ])
    received-Later none q quiet l = l
    received-Later (some msg) q quiet l = apply-Later msg q quiet l

    on_event-Later :
        (e : Event zero_coordinate) (q : Presence F)
        → (u == p.self) ≡ false
        → Silent e
        → Later q
        → Later (on_event zero_coordinate decode e q)
    unfolding on_event
    on_event-Later (received message) q peer quiet l = received-Later (decode message) q quiet l
    on_event-Later (beat now) q peer quiet l = record {
      same_doc = l.same_doc;
      same_self = l.same_self;
      same_ttl = l.same_ttl;
      same_handlers = l.same_handlers;
      distinct = l.distinct;
      entry = l.entry;
    }
    on_event-Later (expire now) q peer quiet l = expire-Later now q l
    on_event-Later (cursor x y now) q peer quiet l = cursor-Later x y now q peer l

    run-Later :
        (es : List (Event zero_coordinate)) (q : Presence F)
        → (u == p.self) ≡ false
        → All Silent es
        → Later q
        → Later (run zero_coordinate decode es q)
    unfolding run
    run-Later [] q peer quiet l = l
    run-Later (e ∷ es) q peer quiet l =
        run-Later es _ peer quiet.1 (on_event-Later e q peer quiet.0 l)

    -- A peer in the roster, not the user, from whom nothing arrives any more, whatever else happens
    -- in the meantime: after the first tick of the expiry that comes later than the peer's last
    -- message by more than the lifetime, the peer is not in the roster, and every callback has been
    -- told of its leave, at that tick or before.
    pub quiet_peer_leaves :
        (es : List (Event zero_coordinate)) (now : ℕ)
        → Distinct p.roster
        → u ≢ p.self
        → lookup u p.roster ≡ some m
        → All Silent es
        → m.ts + milliseconds p.ttl < now
        → let q = on_event zero_coordinate decode (expire now) (run zero_coordinate decode es p) in
          (lookup u q.roster ≡ none) × Told zero_coordinate p u q.notified
    unfolding on_event expire_stale stale
    quiet_peer_leaves es now d peer there quiet late =
        let other : (u == p.self) ≡ false = ground (arith, eq_iff u p.self) in
        let start : Later p = record {
          same_doc = refl;
          same_self = refl;
          same_ttl = refl;
          same_handlers = refl;
          distinct = d;
          entry = inl there;
        } in
        let q = run zero_coordinate decode es p in
        let l = run-Later es p other quiet start in
        let gone : stale zero_coordinate q now u m ≡ true =
          ground (arith, other, l.same_self, l.same_ttl, late) in
        let swept = lookup-sweep zero_coordinate q now u q.roster l.distinct in
        let absent : lookup u (sweep zero_coordinate q now q.roster).0 ≡ none = elim l.entry [
          | inl held ↦ swept ∙ ap (kept_entry zero_coordinate q now u) held ∙ rw gone refl
          | inr (lost, told) ↦ swept ∙ ap (kept_entry zero_coordinate q now u) lost
        ] in
        elim (expire-Later now q l).entry [
          | inl still ↦ absurd (ground (arith, still, absent))
          | inr left_told ↦ left_told
        ]
