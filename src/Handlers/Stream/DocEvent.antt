-- ===== src/Handlers/Stream/DocEvent.antt =====
-- The frames of a new document version on the clients' streams.
use cali_go_stack.Base.{ℕ, ◌≡◌, ◌≢◌, refl, String, some, lookup}
use cali_go_stack.Json.{Codec, field}
use cali_go_stack.Queue.Job.{job_of}
use cali_go_stack.Queue.Hub.{Hub}
use cali_go_stack.Queue.Hub.Invariant.{IsValid}
use cali_go_stack.Queue.Hub.Scope.{after_offer, broadcast_to_user_reaches}
use cali_go_stack.Store.Entity.{EntityStore}
use cali_go_stack.Handlers.Output.{failure}
use cali_go_stack.Handlers.Stream.{dispatch_stream_message, stream_doc_version_bumped}
use cali_go_stack.Handlers.Publisher.{doc_event, publish_doc_event}

module _ {S : Type 0} (st : EntityStore S) (c : Codec) (user : String) where
  refused :
      (owner : String) (version : ℕ) (s : S)
      → c.unmarshal (c.marshal (doc_event owner version)) ≡ some (doc_event owner version)
      → dispatch_stream_message st c user (c.marshal (doc_event owner version)) s ≡ (failure, s)
  unfolding dispatch_stream_message doc_event job_of stream_doc_version_bumped field
  refused owner version s reads = rw reads

  -- A new version of an owner's document puts one frame on the channel of each client of the
  -- owner that holds its channel alone, where there is room. The client's stream fails on that frame
  -- and writes nothing, wherever encoding/json reads back what it wrote: the frame has the version
  -- beside the type, and the stream looks for it in the payload, which is empty.
  pub doc_event_lost :
      (h : Hub) (count : ℕ) (owner id : String) (ch version : ℕ) (s : S)
      → IsValid h
      → lookup id h.clients ≡ some ch
      → lookup id h.user_of ≡ some owner
      → id ≢ ""
      → ((j : String) → lookup j h.clients ≡ some ch → j ≡ id)
      → c.unmarshal (c.marshal (doc_event owner version)) ≡ some (doc_event owner version)
      → let frame = c.marshal (doc_event owner version) in
        (h' : Hub) × ((publish_doc_event c owner version
            (record { hub = some h; count = count })).hub
          ≡ some h')
        × (h'.channels ch ≡ after_offer (h.channels ch) frame)
        × (dispatch_stream_message st c user frame s ≡ (failure, s))
  unfolding publish_doc_event
  doc_event_lost h count owner id ch version s valid held own named alone reads = (
    _,
    refl,
    broadcast_to_user_reaches h (c.marshal (doc_event owner version)) owner "" id ch valid held own
        named alone,
    refused owner version s reads,
  )
