-- ===== src/Handlers/Stream.antt =====
-- features/todo/handlers/todo_sse.go: what a frame from the hub becomes on a client's stream. The time
-- stamp of docVersionSeen is left out.
pub mod Session
pub mod DocEvent
pub mod Button
use cali_go_stack.Base.{
  ℕ, suc, ◌+◌, String, Bool, true, false, not, ◌&&◌, ◌||◌, Option, none, some, List, [], ◌∷◌, ◌++◌,
  ◌==◌, ◌>>=◌, length, nat_eq, concat, decimal, if◌then◌else◌,
}
use cali_go_stack.Json.{
  Json, text, number, bool, texts, Members, Codec, members, text_field, number_field, texts_field,
  bool_field,
}
use cali_go_stack.Queue.Chan.{Bytes}
use cali_go_stack.Queue.Job.{Job, job_of}
use cali_go_stack.Store.Entity.{Todo, Result, ok, err, EntityStore}
use cali_go_stack.Handlers.Output.{
  Output, merge, toast, remove, todo_list, suggestion_list, Sent, sent, failure, emit_toast,
  RetryEvent, retry_status_success, retried, retry_signal_fields, retry_toast_message,
  apply_tech_step, apply_onboarding,
}

abbrev or_fail : Option Sent → Sent
or_fail none = failure
or_fail (some s) = s

-- json.Unmarshal of a payload into a struct: an empty payload is not JSON.
abbrev decoded : Option Json → Option Members
decoded none = none
decoded (some v) = members v

abbrev or_default : String → String → String
or_default default t = if t == "" then default else t

unfoldable pub stream_toast : Option Json → Sent
stream_toast payload = or_fail (do
  ms ← decoded payload
  kind ← text_field "toastType" ms
  message ← text_field "message" ms
  some (sent (emit_toast message (or_default "info" kind))))

abbrev raw_text : Codec → Option Json → String
raw_text c none = ""
raw_text c (some v) = c.text_of v

unfoldable pub stream_retry : Codec → Option Json → Sent
stream_retry c payload = or_fail (do
  ms ← decoded payload
  operation ← text_field "operation" ms
  attempt ← number_field "attempt" ms
  status ← text_field "status" ms
  error ← text_field "error" ms
  some (
      sent (
        retried (record {
          operation = operation;
          attempt = attempt;
          status = status;
          error = error;
          raw = raw_text c payload;
        }))))

unfoldable pub stream_clients : Option Json → Sent
stream_clients payload = or_fail (do
  ms ← decoded payload
  count ← number_field "count" ms
  some (sent (merge (("connectedClients", number count) ∷ []) ∷ [])))

-- A version of zero says nothing.
unfoldable pub stream_doc_version_bumped : Option Json → Sent
stream_doc_version_bumped payload = or_fail (do
  ms ← decoded payload
  version ← number_field "version" ms
  owner ← text_field "owner" ms
  some (sent (if nat_eq version 0 then [] else merge (("docVersion", number version) ∷ []) ∷ [])))

abbrev suggested : List String → String → List Output
suggested suggestions failed =
    merge (
      ("suggestions", texts suggestions)
      ∷ ("suggestErr", text failed)
      ∷ ("aiStep", number 3)
      ∷ ("aiPending", bool false)
      ∷ ("aiPhase", text (if failed == "" then "" else "error"))
      ∷ [])
    ∷ suggestion_list suggestions
    ∷ (if failed == ""
        then emit_toast (concat ("Got " ∷ decimal (length suggestions) ∷ " suggestions" ∷ []))
            retry_status_success
        else emit_toast (concat ("Suggest failed: " ∷ failed ∷ [])) "error")

unfoldable pub stream_suggest_result : Option Json → Sent
stream_suggest_result payload = or_fail (do
  ms ← decoded payload
  suggestions ← texts_field "suggestions" ms
  failed ← text_field "suggestErr" ms
  pending ← bool_field "suggestPending" ms
  some (sent (suggested suggestions failed)))

unfoldable pub stream_progress : Option Json → Sent
stream_progress payload = or_fail (do
  ms ← decoded payload
  step ← number_field "step" ms
  total ← number_field "total" ms
  phase ← text_field "phase" ms
  detail ← text_field "detail" ms
  some (
      sent (
        apply_onboarding step total phase detail (phase == "finalize") ∷ emit_toast detail "info")))

-- The payload of a todo event.
pub record TodoEvent : Type 0 where
  pub event : String
  pub id : String
  pub title : String
  pub finished : Bool

unfoldable pub todo_event : Option Json → Option TodoEvent
todo_event payload = do
  ms ← decoded payload
  event ← text_field "event" ms
  id ← text_field "id" ms
  title ← text_field "title" ms
  finished ← bool_field "done" ms
  some (record { event = event; id = id; title = title; finished = finished })

module _ {S : Type 0} (st : EntityStore S) (c : Codec) (user : String) where
  abbrev remote_count : ℕ → Output
  remote_count n = merge (("lastItemSource", text "remote") ∷ ("itemCount", number n) ∷ [])

  -- The full list takes the place of the client's.
  abbrev pub listed : ℕ → Result (List Todo) × S → Sent × S
  listed n (ok todos, s) = (sent (remote_count n ∷ todo_list todos ∷ []), s)
  listed n (err e, s) = (record { out = remote_count n ∷ []; failed = true }, s)

  abbrev pub counted : TodoEvent → Result ℕ × S → Sent × S
  counted evt (err e, s) = (failure, s)
  counted evt (ok n, s) =
      if evt.event == "deleted"
      then (sent (remote_count n ∷ remove (concat ("#todo-" ∷ evt.id ∷ [])) ∷ []), s)
      else listed n (st.list user "all" s)

  abbrev pub on_todo : Option TodoEvent → S → Sent × S
  on_todo none s = (failure, s)
  on_todo (some evt) s =
      if evt.event == "workflow-completed"
      then (
        sent (
            apply_onboarding 0 0 "completed" "Workflow completed" true
            ∷ emit_toast "Workflow completed — 3 example todos created" retry_status_success),
        s,
      )
      else counted evt (st.count user s)

  unfoldable pub stream_todo : Option Json → S → Sent × S
  stream_todo payload s = on_todo (todo_event payload) s

  -- The switch on the envelope's type.
  abbrev on_job : Json → Option Job → S → Sent × S
  on_job v none s = (failure, s)
  on_job v (some j) s =
      if j.kind == "toast"
      then (stream_toast j.payload, s)
      else if j.kind == "retry"
      then (stream_retry c j.payload, s)
      else if j.kind == "todo"
      then stream_todo j.payload s
      else if j.kind == "clients"
      then (stream_clients j.payload, s)
      else if j.kind == "suggest_result"
      then (stream_suggest_result j.payload, s)
      else if j.kind == "progress"
      then (stream_progress j.payload, s)
      else if j.kind == "doc-version-bumped"
      then (stream_doc_version_bumped j.payload, s)
      else (sent (merge (("lastJob", text (c.text_of v)) ∷ []) ∷ []), s)

  abbrev on_message : Option Json → S → Sent × S
  on_message none s = (failure, s)
  on_message (some v) s = on_job v (job_of v) s

  unfoldable pub dispatch_stream_message : Bytes → S → Sent × S
  unfolding job_of
  dispatch_stream_message msg s = on_message (c.unmarshal msg) s
