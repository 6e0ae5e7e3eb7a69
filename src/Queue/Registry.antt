-- ===== src/Queue/Registry.antt =====
-- internal/queue/handlers.go: the handlers by the type of their jobs. A handler is a function of the
-- job and of the world that it changes, the hub among it; `none` is a nil error.
use cali_go_stack.Base.{String, Option, none, some, [], ◌∷◌, ◌>>=◌, Assoc, lookup, insert, concat}
use cali_go_stack.Json.{Codec}
use cali_go_stack.Queue.Chan.{Bytes}
use cali_go_stack.Queue.Job.{Job, job_of}
use cali_go_stack.Queue.Hub.{Hub}
use Prim.Native.Nat.{ℕ}

-- An error: its text, and the status code where it has an APIError of the LLM provider in its chain.
pub record Failure : Type 0 where
  pub message : String
  pub status : Option ℕ

-- The hub, and what else a handler reaches.
pub record Work (A : Type 0) : Type 0 where
  pub hub : Hub
  pub rest : A

abbrev pub Handler : Type 0 → Type 0
Handler A = Job → Work A → Option Failure × Work A

pub record HandlerRegistry (A : Type 0) : Type 0 where
  pub handlers : Assoc (Handler A)
  pub not_found_handler : Handler A

module _ {A : Type 0} where
  -- The handler that a registry starts with changes nothing. `quoted` is "%q".
  unfoldable pub new_handler_registry : (quoted : String → String) → HandlerRegistry A
  new_handler_registry quoted = record {
    handlers = [];
    not_found_handler = λ job w. (
      some (record {
        message = concat ("queue: no handler registered for type " ∷ quoted job.kind ∷ []);
        status = none;
      }),
      w,
    );
  }

  -- A second handler for a type panics.
  unfoldable pub register : String → Handler A → HandlerRegistry A → Option (HandlerRegistry A)
  register kind h r = elim (lookup kind r.handlers) [
    | some old ↦ none
    | none ↦ some (record r { handlers = insert kind h r.handlers })
  ]

  unfoldable pub handler_of : String → HandlerRegistry A → Handler A
  handler_of kind r = elim (lookup kind r.handlers) [ none ↦ r.not_found_handler | some h ↦ h ]

  unfoldable pub set_not_found_handler : Handler A → HandlerRegistry A → HandlerRegistry A
  set_not_found_handler h r = record r { not_found_handler = h }

unfoldable pub decode_job : Codec → Bytes → Option Job
decode_job c body = do v ← c.unmarshal body; job_of v
