-- ===== src/Store/Contract.antt =====
-- features/store/store.go: what the interface promises, for one owner. The abstract state is a map
-- from ids to todos; a strategy refines it where every call answers by that map and changes the
-- strategy's state as the call changes the map.
pub mod Pb
pub mod Crdt
pub mod Listed
use cali_go_stack.Base.{
  ℕ, ◌≡◌, ◌≢◌, ◌⊎◌, String, Bool, true, false, not, length, Option, none, some, List, [], ◌∷◌, ◌==◌,
  if◌then◌else◌,
}
use cali_go_stack.Store.Entity.{
  Todo, not_found, Result, ok, err, Patch, title, completed, owner, unknown, EntityStore,
}
use cali_go_stack.Store.App.{All}

-- One owner's todos.
abbrev pub Todos : Type 0
Todos = String → Option Todo

abbrev pub put : Todo → Todos → Todos
put t m id = if t.id == id then some t else m id

abbrev pub without : String → Todos → Todos
without gone m id = if gone == id then none else m id

-- The answer of a read.
abbrev pub read : Option Todo → Result Todo
read none = err not_found
read (some t) = ok t

-- What the filter of a list lets through.
abbrev pub shown_by : (filter : String) → Todo → Bool
shown_by filter t =
    if filter == "active"
    then not t.completed
    else if filter == "completed"
    then t.completed
    else true

abbrev pub listed : String → List Todo → Bool
listed id [] = false
listed id (t ∷ ts) = if t.id == id then true else listed id ts

-- A todo with its title and flag as a patch sets them, in order.
abbrev pub edited : List Patch → Todo → Todo
edited [] t = t
edited (title s ∷ ps) t = edited ps (record t { title = s })
edited (completed b ∷ ps) t = edited ps (record t { completed = b })
edited (owner o ∷ ps) t = edited ps t
edited (unknown k ∷ ps) t = edited ps t

abbrev pub unless_completed : Option Todo → Option Todo
unless_completed none = none
unless_completed (some t) = if t.completed then none else some t

pub All-first : (P Q : Todo → Type 0) (ts : List Todo) → All (λ t. P t × Q t) ts → All P ts
All-first P Q [] s = tt
All-first P Q (t ∷ ts) s = (s.0.0, All-first P Q ts s.1)

-- What a create may answer: a todo that was there, as it was, or a new one as asked for.
abbrev pub Created : Todos → (asked answered : Todo) → Type 0
Created m e t =
    (m t.id ≡ some t) ⊎ ((m t.id ≡ none) × ((t.title ≡ e.title) × (t.completed ≡ e.completed)))

-- The patches that a client sends: of the title and of the flag.
abbrev pub Editable : Patch → Type 0
Editable (title t) = Unit
Editable (completed b) = Unit
Editable (owner o) = ⊥
Editable (unknown k) = ⊥

-- `R s m`: the owner's todos in the state `s` are those of `m`.
pub record Refines {S : Type 0} (st : EntityStore S) (user : String) (R : S → Todos → Type 0)
    : Type 0 where
  -- A read answers by the map and changes nothing.
  pub get :
      (s : S) (m : Todos) (id : String) → R s m → id ≢ "" → st.get user id s ≡ (read (m id), s)
  -- A list shows exactly the todos of the map that its filter lets through.
  pub list :
      (s s' : S) (m : Todos) (filter : String) (ts : List Todo)
      → R s m
      → st.list user filter s ≡ (ok ts, s')
      → R s' m
        × All (λ t. (m t.id ≡ some t) × (shown_by filter t ≡ true)) ts
        × ((id : String) (t : Todo)
            → m id ≡ some t
            → shown_by filter t ≡ true
            → listed id ts ≡ true)
  -- A create that succeeds has put the todo that it answers with.
  pub create :
      (s s' : S) (m : Todos) (e t : Todo) (key : String)
      → R s m
      → st.create e user key s ≡ (ok t, s')
      → R s' (put t m) × Created m e t
  -- So has an update, of a todo that was there, with the title and the flag of the patch.
  pub update :
      (s s' : S) (m : Todos) (id : String) (patch : List Patch) (t : Todo)
      → R s m
      → id ≢ ""
      → All Editable patch
      → st.update user id patch s ≡ (ok t, s')
      → R s' (put t m)
        × (t.id ≡ id)
        × ((old : Todo) × (m id ≡ some old)
            × (t.title ≡ (edited patch old).title)
            × (t.completed ≡ (edited patch old).completed))
  -- A patch of the flag sets it.
  pub flag :
      (s s' : S) (m : Todos) (id : String) (b : Bool) (t : Todo)
      → R s m
      → id ≢ ""
      → st.update user id (completed b ∷ []) s ≡ (ok t, s')
      → t.completed ≡ b
  -- A delete that succeeds has removed the todo.
  pub delete :
      (s s' : S) (m : Todos) (id : String)
      → R s m
      → st.delete user id s ≡ (ok tt, s')
      → R s' (without id m)
  -- An update or a delete of a todo that is not there says so.
  pub delete_missing :
      (s : S) (m : Todos) (id : String)
      → R s m
      → m id ≡ none
      → st.delete user id s ≡ (err not_found, s)
  -- A clear removes the completed todos, and answers with how many a list would have shown.
  pub clear_completed :
      (s s' : S) (m : Todos) (n : ℕ)
      → R s m
      → st.clear_completed user s ≡ (ok n, s')
      → R s' (λ id. unless_completed (m id))
        × ((ts : List Todo) → (st.list user "completed" s).0 ≡ ok ts → n ≡ length ts)
  -- A count changes nothing, and answers with how many a list shows.
  pub count :
      (s s' : S) (m : Todos) (n : ℕ)
      → R s m
      → st.count user s ≡ (ok n, s')
      → R s' m × ((ts : List Todo) → (st.list user "" s).0 ≡ ok ts → n ≡ length ts)
  pub update_missing :
      (s : S) (m : Todos) (id : String) (patch : List Patch)
      → R s m
      → m id ≡ none
      → st.update user id patch s ≡ (err not_found, s)
