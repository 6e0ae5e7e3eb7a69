-- ===== src/Queue/Job.antt =====
-- internal/queue/handlers.go: the envelope of a job and of a message to the stream. The raw payload
-- is kept as the JSON value that it is the text of, and is `none` where the field is empty.
use cali_go_stack.Base.{String, Option, none, some, ◌>>=◌}
use cali_go_stack.Json.{Json, null, text, object, end, member, members, field, text_field}

pub record Job : Type 0 where
  pub kind : String
  pub client_id : String
  pub payload : Option Json

abbrev raw : Option Json → Json
raw none = null
raw (some v) = v

-- json.Marshal of a job.
unfoldable pub job_json : Job → Json
job_json j = object (
    member "type" (text j.kind)
      (member "clientID" (text j.client_id) (member "payload" (raw j.payload) end)))

-- json.Unmarshal into a job, which leaves out every other member.
unfoldable pub job_of : Json → Option Job
job_of v = do
  ms ← members v
  kind ← text_field "type" ms
  client ← text_field "clientID" ms
  some (record { kind = kind; client_id = client; payload = field "payload" ms })
