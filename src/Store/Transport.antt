-- ===== src/Store/Transport.antt =====
-- features/store/crdtstore/transport.go and internal/server/crdtstore_wire.go: the wire format of
-- CRDT updates between instances, and the filter that keeps an instance from its own updates.
-- JetStream is a function: whether it accepts a message. Texts are bytes, as in Go. FNV-1a and
-- "%08x" are Go's standard library, and are written out.
pub mod RoundTrip
use Prim.Native.Nat.{bit_xor}
use cali_go_stack.Base.{
  ℕ, suc, ◌+◌, ◌*◌, ◌/◌, ◌%◌, ◌^◌, ◌≡◌, refl, Bool, true, false, not, ◌&&◌, ◌||◌, Option, none,
  some, List, [], ◌∷◌, ◌++◌, codes, bytes_eq, length, take, drop, ltb, nat_eq, if◌then◌else◌,
}
use cali_go_stack.Queue.Chan.{Bytes}

-- A message as JetStream carries it: its subject, its Nats-Msg-Id header and its body.
pub record Message : Type 0 where
  pub subject : Bytes
  pub msg_id : Bytes
  pub body : Bytes

-- A nil JetStream is `none`: single-process mode.
pub record TransportConfig : Type 0 where
  pub jet_stream : Option (Message → Bool)
  pub publisher_id : Bytes

pub record Op : Type 0 where
  pub id : Bytes
  pub publisher_id : Bytes
  pub owner_id : Bytes
  pub updates : Bytes

abbrev pub subject_prefix : Bytes
subject_prefix = codes "app.todo_crdt."

abbrev pub is_empty : Bytes → Bool
is_empty [] = true
is_empty (x ∷ xs) = false

-- NewTransport: `fresh` is the text of the new UUID.
unfoldable pub new_transport : Bytes → TransportConfig → TransportConfig
new_transport fresh cfg =
    if is_empty cfg.publisher_id then record cfg { publisher_id = fresh } else cfg

-- hash/fnv's New32a over the bytes.
fnv_loop : ℕ → Bytes → ℕ
fnv_loop hash [] = hash
fnv_loop hash (b ∷ bs) = fnv_loop ((bit_xor hash b * 16777619) % 2 ^ 32) bs

unfoldable pub fnv32a : Bytes → ℕ
unfolding fnv_loop
fnv32a = fnv_loop 2166136261

abbrev hex_digit : ℕ → ℕ
hex_digit d = if ltb d 10 then 48 + d else 87 + d

-- fmt.Sprintf("%08x", n) for n < 2^32: eight digits, the first the highest.
unfoldable pub hex8 : ℕ → Bytes
hex8 n =
    hex_digit (n / 2 ^ 28 % 16)
    ∷ hex_digit (n / 2 ^ 24 % 16)
    ∷ hex_digit (n / 2 ^ 20 % 16)
    ∷ hex_digit (n / 2 ^ 16 % 16)
    ∷ hex_digit (n / 2 ^ 12 % 16)
    ∷ hex_digit (n / 2 ^ 8 % 16)
    ∷ hex_digit (n / 2 ^ 4 % 16)
    ∷ hex_digit (n % 16)
    ∷ []

unfoldable pub publisher_prefix : Bytes → Bytes
publisher_prefix id = if is_empty id then [] else hex8 (fnv32a id)

unfoldable pub fingerprint : Bytes → Bytes
unfolding publisher_prefix
fingerprint id = publisher_prefix id

abbrev pub publisher_prefix_len : ℕ
publisher_prefix_len = 8

-- bytes.IndexByte
unfoldable pub index_byte : ℕ → Bytes → Option ℕ
index_byte c [] = none
index_byte c (b ∷ bs) =
    let later = index_byte c bs in
    if nat_eq b c then some 0 else elim later [ none ↦ none | some i ↦ some (suc i) ]

-- The result has the publisher's marker, the body, and whether the split succeeded.
unfoldable pub split_publisher_prefix : Bytes → Bytes × Bytes × Bool
split_publisher_prefix message =
    if ltb (length message) (publisher_prefix_len + 1)
    then ([], message, false)
    else elim (index_byte b':' (drop publisher_prefix_len message)) [
      | none ↦ ([], message, false)
      | some idx ↦
          (take publisher_prefix_len message, drop (publisher_prefix_len + idx + 1) message, true)
    ]

-- How Publish ends: no transport, an op without its ids, what JetStream accepted, or refused.
pub data Published : Type 0 where
  no_transport : Published
  ids_required : Published
  sent refused : Message → Published

abbrev pub message_of : TransportConfig → Op → Message
message_of cfg op =
    let publisher = if is_empty op.publisher_id then cfg.publisher_id else op.publisher_id in
    record {
      subject = subject_prefix ++ op.owner_id;
      msg_id = op.id;
      body = publisher_prefix publisher ++ (b':' ∷ op.updates);
    }

unfoldable pub publish : TransportConfig → Op → Published
publish cfg op = elim cfg.jet_stream [
  | none ↦ no_transport
  | some js ↦
      if is_empty op.id || is_empty op.owner_id
      then ids_required
      else if js (message_of cfg op)
      then sent (message_of cfg op)
      else refused (message_of cfg op)
]

-- The op that a message is read as, by the subscription for `owner`.
abbrev pub read_op : Bytes → Message → Op
read_op owner m =
    let (publisher, body, done) = split_publisher_prefix m.body in
    if done
    then record { id = m.msg_id; publisher_id = publisher; owner_id = owner; updates = body }
    else record { id = m.msg_id; publisher_id = []; owner_id = owner; updates = m.body }

-- The callback of Subscribe: `some op` where the handler is called, `none` where the message is
-- skipped, for want of an id or as this process's own.
unfoldable pub on_message : TransportConfig → Bytes → Message → Option Op
on_message cfg owner m =
    let op = read_op owner m in
    if is_empty op.id
    then none
    else if not (is_empty op.publisher_id)
        && bytes_eq op.publisher_id (fingerprint cfg.publisher_id)
    then none
    else some op

-- WireCRDTStoreTransport subscribes to all owners at once, and hands each op to ApplyRemoteOp with
-- the owner that the op names.
unfoldable pub wired : TransportConfig → Message → Option (Bytes × Op)
wired cfg m = elim (on_message cfg (codes ">") m) [ none ↦ none | some op ↦ some (op.owner_id, op) ]
