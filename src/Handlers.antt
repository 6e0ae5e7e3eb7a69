-- ===== src/Handlers.antt =====
-- features/todo/handlers/todo_crud.go and todo_repo.go: the HTTP handlers of the todos, over any
-- strategy. A response is the value that the handler writes; that the writes themselves succeed is
-- taken for granted, and rendering, logging and the choice of a skin are left out.
pub mod Replay
pub mod Anonymous
pub mod Replication
pub mod Listing
pub mod Abstract
pub mod Output
pub mod Stream
pub mod Onboarding
pub mod Publisher
pub mod Suggest
pub mod RetryDemo
pub mod Page
use cali_go_stack.Base.{
  ℕ, suc, ◌+◌, String, Bool, true, false, not, Option, none, some, List, [], ◌∷◌, ◌++◌, ◌==◌,
  length, nat_eq, if◌then◌else◌,
}
use cali_go_stack.Store.Entity.{Todo, Error, not_found, Result, ok, err, completed, EntityStore}
use cali_go_stack.Nats.Crud.{
  CrudOp, CrudData, CrudPayload, create, toggle, delete, clear_completed, publish,
}

-- What the handlers read of a request. `user` is the id of the session's user, or empty where the
-- cookie is missing or not valid; `auth_failed` is an error of LoadAppAuth.
pub record Request : Type 0 where
  pub user : String
  pub auth_failed : Bool
  pub replayed : Bool
  pub form_ok : Bool
  pub id : String
  pub title : String
  pub idem_key : String
  pub filter : String

-- The toast that rides on a patch.
pub data Toast : Type 0 where
  added : Toast
  deleted : String → Toast
  nothing_to_clear : Toast
  cleared : ℕ → Toast

pub data Response : Type 0 where
  bad_request : Response
  missing : Response
  save_failed toggle_failed delete_failed clear_failed list_failed : Response
  to_login : Response
  replay_done : Response
  patched : List Todo → Option Toast → Response
  confirm : (id title : String) → Response
  page : (filter : String) → List Todo → (count : ℕ) → Response

-- The strategy's state, what was handed to the CRUD publisher, and the users whose onboarding was
-- resumed.
pub record World (S : Type 0) : Type 0 where
  pub state : S
  pub published : List CrudPayload
  pub resumed : List String

-- Whether the publisher and the onboarding are wired.
pub record Wiring : Type 0 where
  pub publisher : Bool
  pub onboarding : Bool

module _ {S : Type 0} (st : EntityStore S) (wiring : Wiring) where
  -- publishCrudOp
  abbrev publish_crud : CrudOp → String → Option CrudData → World S → World S
  publish_crud op user content w = record w {
    published = publish wiring.publisher op user content w.published;
  }

  abbrev listed : Option Toast → Result (List Todo) → Response
  listed toast (ok todos) = patched todos toast
  listed toast (err e) = list_failed

  abbrev resume : String → World S → World S
  resume user w = if wiring.onboarding then record w { resumed = w.resumed ++ user ∷ [] } else w

  -- The end of handleCreate, once the todo is saved.
  abbrev pub created : Request → Todo → World S → Response × World S
  created r t w =
      let w' = resume r.user (
        publish_crud create r.user
          (some (record { id = t.id; title = t.title; completed = t.completed })) w) in
      if r.replayed
      then (replay_done, w')
      else let (todos, s) = st.list r.user "all" w'.state in
        (listed (some added) todos, record w' { state = s })

  abbrev after_create : Request → World S → Result Todo × S → Response × World S
  after_create r w (ok t, s) = created r t (record w { state = s })
  after_create r w (err e, s) = (save_failed, record w { state = s })

  -- `fresh` is the text of a new UUID, `now` the time.
  unfoldable pub handle_create : String → ℕ → Request → World S → Response × World S
  unfolding publish
  handle_create fresh now r w =
      if not r.form_ok
      then (bad_request, w)
      else if r.title == ""
      then (bad_request, w)
      else let key = if r.idem_key == "" then fresh else r.idem_key in
        let item : Todo = record {
          id = key;
          title = r.title;
          completed = false;
          created = now;
          updated = now;
        } in
        after_create r w (st.create item r.user key w.state)

  -- The end of a handler whose mutation has succeeded: nothing more on a replay, and otherwise the
  -- list, the publication and the patch.
  abbrev patch_and_publish :
      Request
      → CrudOp
      → Option CrudData
      → Option Toast
      → Result (List Todo) × S
      → World S
      → Response × World S
  patch_and_publish r op content toast (ok todos, s) w =
      (patched todos toast, publish_crud op r.user content (record w { state = s }))
  patch_and_publish r op content toast (err e, s) w = (list_failed, record w { state = s })

  abbrev pub finish :
      Request → CrudOp → Option CrudData → Option Toast → World S → Response × World S
  finish r op content toast w =
      if r.replayed
      then (replay_done, w)
      else patch_and_publish r op content toast (st.list r.user "all" w.state) w

  abbrev after_toggle : Request → World S → Result Todo × S → Response × World S
  after_toggle r w (ok t, s) =
      finish r toggle (some (record { id = t.id; title = ""; completed = t.completed })) none
        (record w { state = s })
  after_toggle r w (err e, s) = (toggle_failed, record w { state = s })

  abbrev toggle_found : Request → World S → Result Todo × S → Response × World S
  toggle_found r w (ok current, s) =
      after_toggle r w (st.update r.user r.id (completed (not current.completed) ∷ []) s)
  toggle_found r w (err e, s) = (missing, record w { state = s })

  unfoldable pub handle_toggle : Request → World S → Response × World S
  unfolding publish
  handle_toggle r w = toggle_found r w (st.get r.user r.id w.state)

  abbrev confirm_found : World S → Result Todo × S → Response × World S
  confirm_found w (ok t, s) = (confirm t.id t.title, record w { state = s })
  confirm_found w (err e, s) = (missing, record w { state = s })

  unfoldable pub handle_confirm_delete : Request → World S → Response × World S
  handle_confirm_delete r w = confirm_found w (st.get r.user r.id w.state)

  -- A todo that is gone in the meantime counts as deleted.
  abbrev delete_ended : Result (Unit {0}) → Bool
  delete_ended (ok u) = true
  delete_ended (err not_found) = true
  delete_ended (err e) = false

  abbrev after_delete : Request → World S → Todo → Result (Unit {0}) × S → Response × World S
  after_delete r w t (result, s) =
      if delete_ended result
      then finish r delete (some (record { id = t.id; title = ""; completed = false }))
          (some (deleted t.title)) (record w { state = s })
      else (delete_failed, record w { state = s })

  abbrev delete_found : Request → World S → Result Todo × S → Response × World S
  delete_found r w (ok t, s) = after_delete r w t (st.delete r.user r.id s)
  delete_found r w (err e, s) = (missing, record w { state = s })

  unfoldable pub handle_delete : Request → World S → Response × World S
  unfolding publish
  handle_delete r w = delete_found r w (st.get r.user r.id w.state)

  abbrev after_clear : Request → World S → Result ℕ × S → Response × World S
  after_clear r w (ok n, s) =
      finish r clear_completed none (some (if nat_eq n 0 then nothing_to_clear else cleared n))
        (record w { state = s })
  after_clear r w (err e, s) = (clear_failed, record w { state = s })

  unfoldable pub handle_clear_completed : Request → World S → Response × World S
  unfolding publish
  handle_clear_completed r w = after_clear r w (st.clear_completed r.user w.state)

  abbrev filter_of : Request → String
  filter_of r = if r.filter == "" then "all" else r.filter

  abbrev counted : Request → List Todo → World S → Result ℕ × S → Response × World S
  counted r todos w (ok n, s) = (page (filter_of r) todos n, record w { state = s })
  counted r todos w (err e, s) = (page (filter_of r) todos (length todos), record w { state = s })

  abbrev list_found : Request → World S → Result (List Todo) × S → Response × World S
  list_found r w (ok todos, s) = counted r todos w (st.count r.user s)
  list_found r w (err e, s) = (list_failed, record w { state = s })

  -- handleList and handleListFragment: a guest is sent to the login, unless loading the session failed.
  unfoldable pub handle_list : Request → World S → Response × World S
  handle_list r w =
      let page_of = list_found r w (st.list r.user (filter_of r) w.state) in
      if r.auth_failed then page_of else if r.user == "" then (to_login, w) else page_of
