-- ===== src/Handlers/Publisher.antt =====
-- internal/server/crdtstore_wire_publisher.go: the frame that tells a user's clients of a new version
-- of the document.
use cali_go_stack.Base.{ℕ, suc, String, Option, none, some}
use cali_go_stack.Json.{Json, text, number, object, end, member, Codec}
use cali_go_stack.Queue.Hub.{Hub, broadcast_to_user}

-- A nil hub is `none`. `count` is the counter of the calls.
pub record HubPublisher : Type 0 where
  pub hub : Option Hub
  pub count : ℕ

unfoldable pub doc_event : (owner : String) (version : ℕ) → Json
doc_event owner version = object (
    member "type" (text "doc-version-bumped")
      (member "version" (number version) (member "owner" (text owner) end)))

abbrev fanned : Codec → String → ℕ → Option Hub → Option Hub
fanned c owner version none = none
fanned c owner version (some h) =
    some (broadcast_to_user h (c.marshal (doc_event owner version)) owner "")

unfoldable pub publish_doc_event : Codec → String → ℕ → HubPublisher → HubPublisher
unfolding doc_event
publish_doc_event c owner version p = record {
  hub = fanned c owner version p.hub;
  count = suc p.count;
}
