-- ===== src/Nats/Rooms.antt =====
-- internal/nats/presence.go and EnsureKeyValue, PublishEvent of jetstream.go: who is in a room. The bucket is a
-- map from keys to bytes, and what NATS answers is an input. An event is kept with its subject.
pub mod Users
use cali_go_stack.Base.{
  String, Bool, true, false, not, ◌&&◌, Option, none, some, List, [], ◌∷◌, ◌++◌, ◌>>=◌, Assoc,
  insert, remove, concat, if◌then◌else◌,
}
use cali_go_stack.Json.{Json, text, object, end, member, members, text_field, Codec}
use cali_go_stack.Queue.Chan.{Bytes}

-- JoinedAt is kept as the text of the time.
pub record UserInfo : Type 0 where
  pub id : String
  pub name : String
  pub status : String
  pub joined_at : String

unfoldable pub info_json : UserInfo → Json
info_json u = object (
    member "id" (text u.id) (
      member "name" (text u.name)
        (member "status" (text u.status) (member "joinedAt" (text u.joined_at) end))))

unfoldable pub info_of : Json → Option UserInfo
info_of v = do
  ms ← members v
  id ← text_field "id" ms
  name ← text_field "name" ms
  status ← text_field "status" ms
  joined ← text_field "joinedAt" ms
  some (record { id = id; name = name; status = status; joined_at = joined })

pub record Rooms : Type 0 where
  pub bucket : Assoc Bytes
  pub published : List (String × Bytes)

-- Whether the bucket is there, and whether the write to it and the publication succeed.
pub record Reached : Type 0 where
  pub bucket_ok : Bool
  pub write_ok : Bool
  pub publish_ok : Bool

abbrev pub user_key : (room id : String) → String
user_key room id = concat ("room." ∷ room ∷ ".user." ∷ id ∷ [])

abbrev join_event : (room id : String) → Json
join_event room id =
    object
      (member "roomID" (text room) (member "type" (text "join") (member "userID" (text id) end)))

abbrev leave_event : (room id : String) → Json
leave_event room id =
    object
      (member "roomID" (text room) (member "type" (text "leave") (member "userID" (text id) end)))

module _ (c : Codec) where
  abbrev published_as : Reached → (subject : String) → Json → Rooms → Rooms
  published_as r subject event s =
      if r.publish_ok
      then record s { published = s.published ++ (subject, c.marshal event) ∷ [] }
      else s

  -- The flag is whether nil is returned: an error of the write or of the publication is only logged.
  unfoldable pub user_join : Reached → (room : String) → UserInfo → Rooms → Bool × Rooms
  user_join r room info s = if not r.bucket_ok then (false, s) else (
    true,
    published_as r (concat ("presence." ∷ room ∷ ".join" ∷ [])) (join_event room info.id) (
        if r.write_ok
        then record s {
          bucket = insert (user_key room info.id) (c.marshal (info_json info)) s.bucket;
        }
        else s),
  )

  unfoldable pub user_leave : Reached → (room id : String) → Rooms → Bool × Rooms
  user_leave r room id s = if not r.bucket_ok then (false, s) else (
    true,
    published_as r (concat ("presence." ∷ room ∷ ".leave" ∷ [])) (leave_event room id)
        (if r.write_ok then record s { bucket = remove (user_key room id) s.bucket } else s),
  )

  -- An entry that is not read, or is no user, is left out.
  unfoldable pub users_in : Assoc Bytes → List UserInfo
  users_in [] = []
  users_in ((key, bytes) ∷ rest) =
      let others = users_in rest in
      elim (c.unmarshal bytes >>= info_of) [ none ↦ others | some u ↦ u ∷ others ]

  -- `keys_ok` is whether the keys can be listed; every key that is listed can be read.
  unfoldable pub get_room_users :
      Reached → (keys_ok : Bool) → (room : String) → Rooms → Option (List UserInfo)
  get_room_users r keys_ok room s =
      if r.bucket_ok && keys_ok then some (users_in s.bucket) else none
