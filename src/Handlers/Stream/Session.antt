-- ===== src/Handlers/Stream/Session.antt =====
-- features/todo/handlers/todo_sse.go: the life of one stream, from the registration of the client to
-- its removal. The session's user is given: LoadAppAuth and the logging are left out.
use cali_go_stack.Base.{
  ℕ, String, Bool, true, false, not, some, List, [], ◌∷◌, ◌++◌, ◌==◌, length, if◌then◌else◌,
}
use cali_go_stack.Json.{null, text, number, bool, object, end, member, Codec}
use cali_go_stack.Queue.Chan.{Bytes, update, receive}
use cali_go_stack.Queue.Job.{job_json}
use cali_go_stack.Queue.Hub.{
  Hub, Call, register, unregister_if_current, broadcast, stats, count_user_clients, step,
}
use cali_go_stack.Store.Entity.{Todo, Result, ok, err, EntityStore}
use cali_go_stack.Handlers.Output.{Output, merge_todos, heartbeat, Sent}
use cali_go_stack.Handlers.Stream.{dispatch_stream_message}

-- config.DefaultClientQueueSize
abbrev pub default_client_queue_size : ℕ
default_client_queue_size = 64

unfoldable pub broadcast_client_count : Codec → Hub → Hub
unfolding job_json
broadcast_client_count c h = broadcast h (
    c.marshal (
      job_json (record {
        kind = "clients";
        client_id = "";
        payload = some (object (member "count" (number (count_user_clients h)) end));
      })))

-- What the handler knows of its request and of the configuration: `channel` is the channel that it
-- makes, `fresh` the text of a new UUID.
pub record Connection : Type 0 where
  pub user : String
  pub client_id : String
  pub fresh : String
  pub channel : ℕ
  pub can_flush : Bool
  pub llm_enabled : Bool
  pub simulated_llm : Bool
  pub dagnats_enabled : Bool

abbrev pub client_of : Connection → String
client_of r = if r.client_id == "" then r.fresh else r.client_id

-- The hub and the strategy's state, which the streams share, and what this stream has written.
-- `running` is lost with the handler's return.
pub record Stream (S : Type 0) : Type 0 where
  pub hub : Hub
  pub state : S
  pub out : List Output
  pub running : Bool

module _ {S : Type 0} (st : EntityStore S) (c : Codec) (r : Connection) where
  -- The deferred function.
  unfoldable pub close_stream : Stream S → Stream S
  unfolding broadcast_client_count
  close_stream x = record x {
    hub = broadcast_client_count c (unregister_if_current x.hub (client_of r) r.channel);
    running = false;
  }

  -- todo.Signals as a client that has just connected gets it: every other field has its zero value.
  unfoldable pub first_signals : List Todo → Hub → Output
  first_signals todos h = merge_todos todos (
      ("newTitle", text "")
      ∷ ("filter", text "all")
      ∷ ("editingId", text "")
      ∷ ("editTitle", text "")
      ∷ ("loading", bool false)
      ∷ ("itemCount", number (length todos))
      ∷ ("confirmingDeleteId", text "")
      ∷ ("confirmingDeleteTitle", text "")
      ∷ ("deleting", bool false)
      ∷ ("techStep", text "")
      ∷ ("techDone", bool false)
      ∷ ("techPhase", text "")
      ∷ ("demoStep", number 0)
      ∷ ("aiStep", number 0)
      ∷ ("aiPending", bool false)
      ∷ ("aiPhase", text "")
      ∷ ("clientID", text (client_of r))
      ∷ ("llmEnabled", bool r.llm_enabled)
      ∷ ("simulatedLLM", bool r.simulated_llm)
      ∷ ("suggestions", null)
      ∷ ("suggestErr", text "")
      ∷ ("suggestPending", bool false)
      ∷ ("connectedClients", number (stats h).clients)
      ∷ ("lastItemSource", text "")
      ∷ ("dagNatsEnabled", bool r.dagnats_enabled)
      ∷ ("realtimeKind", text "")
      ∷ ("storeLabel", text "")
      ∷ ("offlineLabel", text "")
      ∷ ("sidebarTab", text "queue")
      ∷ ("onboardingActive", bool false)
      ∷ ("onboardingStep", number 0)
      ∷ ("onboardingTotal", number 0)
      ∷ ("onboardingPhase", text "")
      ∷ ("onboardingDetail", text "")
      ∷ ("workflowCompleted", bool false)
      ∷ [])

  abbrev after_list : Hub → Result (List Todo) × S → Stream S
  after_list h (err e, s) = close_stream (record { hub = h; state = s; out = []; running = true })
  after_list h (ok todos, s) = record {
    hub = broadcast_client_count c h;
    state = s;
    out = first_signals todos h ∷ [];
    running = true;
  }

  abbrev registered : Hub → Hub
  registered h =
      register
        (record h {
          channels =
              update h.channels r.channel
                (record { capacity = default_client_queue_size; pending = [] });
        })
        (client_of r) r.user r.channel

  unfoldable pub open_stream : Hub → S → Stream S
  unfolding close_stream first_signals
  open_stream h s = after_list (registered h) (st.list r.user "all" s)

  -- What wakes the loop of the handler, or happens on the hub in the meantime. Of a heartbeat the
  -- flag says whether the connection takes it.
  pub data Wake : Type 0 where
    context_done : Wake
    beat : (taken : Bool) → Wake
    frame : Wake
    elsewhere : Call → Wake

  abbrev dispatched : Hub → Stream S → Sent × S → Stream S
  dispatched h x (sent, s) = record x { hub = h; state = s; out = x.out ++ sent.out }

  abbrev on_frame : Stream S → List Bytes → Stream S
  on_frame x [] = x
  on_frame x (msg ∷ rest) =
      dispatched (record (x.hub) { channels = receive x.hub.channels r.channel }) x
        (dispatch_stream_message st c r.user msg x.state)

  -- One round of the loop; a dispatch that fails is logged, and the stream goes on.
  unfoldable pub wake : Wake → Stream S → Stream S
  unfolding close_stream
  wake context_done x = close_stream x
  wake (beat taken) x =
      if not r.can_flush
      then x
      else if taken
      then record x { out = x.out ++ heartbeat ∷ [] }
      else close_stream x
  wake frame x = on_frame x (x.hub.channels r.channel).pending
  wake (elsewhere call) x = record x { hub = step x.hub call }

  -- handleSSEStream: after its return only the others act.
  unfoldable pub serve : List Wake → Stream S → Stream S
  unfolding wake
  serve [] x = x
  serve (w ∷ ws) x = let rest = serve ws (wake w x) in if x.running then rest else x
