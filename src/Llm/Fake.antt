-- ===== src/Llm/Fake.antt =====
-- internal/llm/fakeserver/fakeserver.go: the server that stands in for a model. The bodies that it
-- writes are kept as the values that they encode; delays, headers and test logs are left out, and a
-- request that is cancelled while it waits.
use cali_go_stack.Base.{
  ℕ, zero, suc, Bool, true, false, not, Option, none, some, List, [], ◌∷◌, ◌++◌, nat_eq, codes,
  if◌then◌else◌, bytes_eq, is_nil,
}
use cali_go_stack.Llm.Reply.{Text, is_space}

pub record Options : Type 0 where
  pub canned_response : Text
  pub stream_chunks : List Text
  pub status_sequence : List ℕ
  pub accept_keys : List Text

pub record FakeServer : Type 0 where
  pub opts : Options
  pub call_count : ℕ

abbrev pub Opt : Type 0
Opt = Options → Options

abbrev pub with_response : Text → Opt
with_response s o = record o { canned_response = s }

abbrev pub with_stream_chunks : List Text → Opt
with_stream_chunks chunks o = record o { stream_chunks = chunks }

abbrev pub with_status_sequence : List ℕ → Opt
with_status_sequence statuses o = record o { status_sequence = statuses }

abbrev pub with_api_key : List Text → Opt
with_api_key allowed o = record o { accept_keys = allowed }

unfoldable pub apply : List Opt → Options → Options
apply [] o = o
apply (f ∷ fs) o = apply fs (f o)

unfoldable pub new_server : List Opt → FakeServer
unfolding apply
new_server opts = record {
  opts = apply opts (record {
    canned_response = codes "hello";
    stream_chunks = [];
    status_sequence = [];
    accept_keys = [];
  });
  call_count = 0;
}

-- What is read of a request: the key behind "Bearer ", and `stream` of the body; `none` where the body
-- is not read or is not JSON.
pub record FakeRequest : Type 0 where
  pub bearer : Text
  pub stream : Option Bool

pub data FakeReply : Type 0 where
  unauthorized : FakeReply
  bad_request : FakeReply
  forced : (status : ℕ) → FakeReply
  single : Text → FakeReply
  chunked : List Text → FakeReply

abbrev accepted : List Text → Text → Bool
accepted [] key = false
accepted (k ∷ ks) key = if bytes_eq k key then true else accepted ks key

unfoldable pub authorize : FakeServer → FakeRequest → Bool
authorize s r = elim s.opts.accept_keys [ [] ↦ true | k ∷ ks ↦ accepted (k ∷ ks) r.bearer ]

-- The status at the place `n`, 200 behind the end.
unfoldable pub status_at : List ℕ → ℕ → ℕ
status_at [] n = 200
status_at (c ∷ cs) zero = c
status_at (c ∷ cs) (suc n) = status_at cs n

-- strings.Fields: the parts between white space, with the one being read.
unfoldable pub fields_from : Text → Text → List Text
fields_from word [] = if is_nil word then [] else word ∷ []
fields_from word (c ∷ cs) =
    let next = fields_from [] cs in
    let longer = fields_from (word ++ c ∷ []) cs in
    if is_space c then (if is_nil word then next else word ∷ next) else longer

-- strings.Join by a blank
unfoldable pub joined : List Text → Text
joined [] = []
joined (w ∷ []) = w
joined (w ∷ v ∷ ws) = w ++ (32 ∷ joined (v ∷ ws))

abbrev in_two : List Text → List Text
in_two [] = []
in_two (w ∷ []) = w ∷ []
in_two (w ∷ v ∷ ws) = (w ++ 32 ∷ []) ∷ joined (v ∷ ws) ∷ []

unfoldable pub chunks_of : Options → List Text
chunks_of o = elim o.stream_chunks [
  | [] ↦ in_two (fields_from [] o.canned_response)
  | c ∷ cs ↦ c ∷ cs
]

abbrev answered : Options → (status : ℕ) → Bool → FakeReply
answered o status stream =
    if not (nat_eq status 200)
    then forced status
    else if stream
    then chunked (chunks_of o)
    else single o.canned_response

-- handle: the calls are counted from 1, and the first has the first status.
unfoldable pub handle : FakeServer → FakeRequest → FakeReply × FakeServer
handle s r =
    let s' = record s { call_count = suc s.call_count } in
    if not (authorize s r) then (unauthorized, s') else elim r.stream [
      | none ↦ (bad_request, s')
      | some stream ↦ (answered s.opts (status_at s.opts.status_sequence s.call_count) stream, s')
    ]
