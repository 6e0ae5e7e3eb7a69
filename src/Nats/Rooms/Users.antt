-- ===== src/Nats/Rooms/Users.antt =====
-- Who is listed for a room.
use mathlib.Core.Option.{none-ne-some}
use cali_go_stack.Base.{
  ◌≡◌, ◌⊎◌, inl, inr, refl, String, true, Option, none, some, List, [], ◌∷◌, ◌>>=◌, ◌==◌, Assoc,
  insert, arith, ap, ◌∙◌, Bool-cases,
}
use cali_go_stack.Json.{Codec, Json, field}
use cali_go_stack.Queue.Chan.{Bytes}
use cali_go_stack.Nats.Rooms.{
  UserInfo, info_json, info_of, Rooms, Reached, user_key, user_join, users_in, get_room_users,
}

-- The user is among them.
abbrev pub IsAmong : UserInfo → List UserInfo → Type 0
IsAmong u [] = ⊥
IsAmong u (v ∷ vs) = (v ≡ u) ⊎ IsAmong u vs

info_of-info_json : (u : UserInfo) → info_of (info_json u) ≡ some u
unfolding info_of info_json field
info_of-info_json u = refl

module _ (c : Codec)
    (read : (u : UserInfo) → c.unmarshal (c.marshal (info_json u)) ≡ some (info_json u)) where
  after_entry :
      (o : Option UserInfo) (u : UserInfo) (us : List UserInfo)
      → IsAmong u us
      → IsAmong u (elim o [ none ↦ us | some w ↦ w ∷ us ])
  after_entry none u us h = h
  after_entry (some w) u us h = inr h

  head_entry :
      (o : Option UserInfo) (u : UserInfo) (us : List UserInfo)
      → o ≡ some u
      → IsAmong u (elim o [ none ↦ us | some w ↦ w ∷ us ])
  head_entry none u us e = absurd (none-ne-some _ e)
  head_entry (some w) u us e = inl (cc (e))

  entry_read : (u : UserInfo) → (c.unmarshal (c.marshal (info_json u)) >>= info_of) ≡ some u
  entry_read u = ap (λ (o : Option Json). o >>= info_of) (read u) ∙ info_of-info_json u

  users_in-insert :
      (key : String) (u : UserInfo) (m : Assoc Bytes)
      → IsAmong u (users_in c (insert key (c.marshal (info_json u)) m))
  unfolding users_in insert
  users_in-insert key u [] = head_entry _ u [] (entry_read u)
  users_in-insert key u ((k, v) ∷ m) = elim (Bool-cases (k == key)) [
    | inl same ↦ rw same (head_entry _ u _ (entry_read u))
    | inr other ↦ rw other (after_entry (c.unmarshal v >>= info_of) u _ (users_in-insert key u m))
  ]

  -- A user who has joined a room, where NATS takes the entry, is among the users that are answered for
  -- every room, whichever is asked for.
  pub joined_everywhere :
      (r : Reached) (room asked : String) (u : UserInfo) (s : Rooms)
      → r.bucket_ok ≡ true
      → r.write_ok ≡ true
      → (us : List UserInfo) × (get_room_users c r true asked (user_join c r room u s).1 ≡ some us)
        × IsAmong u us
  unfolding get_room_users user_join
  joined_everywhere r room asked u s there written =
      let key = user_key room u.id in
      (
        users_in c (insert key (c.marshal (info_json u)) s.bucket),
        ground (arith, there, written),
        users_in-insert key u s.bucket,
      )
