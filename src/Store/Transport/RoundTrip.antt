-- ===== src/Store/Transport/RoundTrip.antt =====
-- An update that one instance publishes is what the others apply, and what it skips itself.
use cali_go_stack.Base.{
  ◌≡◌, ◌≢◌, refl, sym, true, false, some, none, [], ◌∷◌, ◌++◌, arith, codes, bytes_eq, bytes_eq_iff,
  if◌then◌else◌,
}
use cali_go_stack.Queue.Chan.{Bytes}
use cali_go_stack.Store.Transport.{
  TransportConfig, Op, Message, is_empty, hex8, publisher_prefix, fingerprint, index_byte,
  split_publisher_prefix, message_of, publish, sent, read_op, on_message, wired,
}

-- A body that Publish builds under a publisher's id splits into that publisher's fingerprint and
-- the update, byte for byte, whatever bytes the update holds.
pub split_published :
    (id updates : Bytes)
    → id ≢ []
    → split_publisher_prefix (publisher_prefix id ++ (b':' ∷ updates))
      ≡ (fingerprint id, updates, true)
unfolding split_publisher_prefix fingerprint hex8 index_byte
split_published [] updates ne = absurd (ne refl)
split_published (b ∷ bs) updates ne = ground arith

read_published :
    (cfg : TransportConfig) (op : Op) (owner : Bytes)
    → cfg.publisher_id ≢ []
    → op.publisher_id ≡ []
    → read_op owner (message_of cfg op) ≡ record {
      id = op.id;
      publisher_id = fingerprint cfg.publisher_id;
      owner_id = owner;
      updates = op.updates;
    }
read_published cfg op owner ne e = rw (e, split_published cfg.publisher_id op.updates ne)

-- Only an op with an id and an owner is published, as the message that Publish builds.
publish_sent :
    (cfg : TransportConfig) (op : Op) (m : Message)
    → publish cfg op ≡ sent m
    → (m ≡ message_of cfg op) × (is_empty op.id ≡ false)
unfolding publish
publish_sent cfg op m h = ground arith

-- The fingerprint of a publisher's id is never empty.
fingerprint_shown : (id : Bytes) → id ≢ [] → is_empty (fingerprint id) ≡ false
unfolding fingerprint hex8
fingerprint_shown [] ne = absurd (ne refl)
fingerprint_shown (b ∷ bs) ne = refl

-- What a subscription does with a message that the publisher built.
on_message_published :
    (cfg peer : TransportConfig) (op : Op) (owner : Bytes)
    → cfg.publisher_id ≢ []
    → op.publisher_id ≡ []
    → is_empty op.id ≡ false
    → on_message peer owner (message_of cfg op) ≡ (
        if bytes_eq (fingerprint cfg.publisher_id) (fingerprint peer.publisher_id)
        then none
        else some (record {
          id = op.id;
          publisher_id = fingerprint cfg.publisher_id;
          owner_id = owner;
          updates = op.updates;
        }))
unfolding on_message
on_message_published cfg peer op owner ne e named =
    rw (read_published cfg op owner ne e, named, fingerprint_shown cfg.publisher_id ne)

-- What an instance with an id publishes, for an op that names no publisher of its own, reaches a
-- subscription for the op's owner on another instance with the op's id, that owner and exactly
-- the published update, marked by the publisher's fingerprint; an instance with the same
-- fingerprint skips it.
pub publish-on_message :
    (cfg peer : TransportConfig) (op : Op) (m : Message)
    → cfg.publisher_id ≢ []
    → op.publisher_id ≡ []
    → publish cfg op ≡ sent m
    → on_message peer op.owner_id m ≡ (
        if bytes_eq (fingerprint cfg.publisher_id) (fingerprint peer.publisher_id)
        then none
        else some (record {
          id = op.id;
          publisher_id = fingerprint cfg.publisher_id;
          owner_id = op.owner_id;
          updates = op.updates;
        }))
publish-on_message cfg peer op m ne e published =
    let (built, named) = publish_sent cfg op m published in
    rw built (on_message_published cfg peer op op.owner_id ne e named)

-- An instance with an id never hears what it published for an op that names no publisher of its
-- own, whichever owner it subscribed for.
pub own_ops_skipped :
    (cfg : TransportConfig) (op : Op) (m : Message) (owner : Bytes)
    → cfg.publisher_id ≢ []
    → op.publisher_id ≡ []
    → publish cfg op ≡ sent m
    → on_message cfg owner m ≡ none
own_ops_skipped cfg op m owner ne e published =
    let (built, named) = publish_sent cfg op m published in
    rw (
      built,
      on_message_published cfg cfg op owner ne e named,
      (bytes_eq_iff (fingerprint cfg.publisher_id) (fingerprint cfg.publisher_id)).1 refl,
    )

-- The wired subscription loses the owner: an op of an owner other than ">" that an instance with
-- an id publishes is handed on by an instance with another fingerprint under the owner ">",
-- which is not the owner that it was published for.
pub wired_loses_owner :
    (cfg peer : TransportConfig) (op : Op) (m : Message)
    → cfg.publisher_id ≢ []
    → op.publisher_id ≡ []
    → op.owner_id ≢ codes ">"
    → fingerprint cfg.publisher_id ≢ fingerprint peer.publisher_id
    → publish cfg op ≡ sent m
    → (owner : Bytes) × (read : Op) × (wired peer m ≡ some (owner, read)) × (owner ≢ op.owner_id)
unfolding wired
wired_loses_owner cfg peer op m ne e other differ published =
    let (built, named) = publish_sent cfg op m published in
    let read : Op = record {
      id = op.id;
      publisher_id = fingerprint cfg.publisher_id;
      owner_id = codes ">";
      updates = op.updates;
    } in
    let apart : bytes_eq (fingerprint cfg.publisher_id) (fingerprint peer.publisher_id) ≡ false =
      ground (arith, bytes_eq_iff (fingerprint cfg.publisher_id) (fingerprint peer.publisher_id)) in
    (
      codes ">",
      read,
      rw (built, wired) (rw (on_message_published cfg peer op (codes ">") ne e named, apart)),
      λ same. other (sym same),
    )
