-- ===== src/Handlers/Page.antt =====
-- features/todo/handlers/todo.go: the page of the todos, its skin and its labels. Rendering is left out.
pub mod Skin
use cali_go_stack.Base.{
  ℕ, String, Bool, true, false, not, ◌||◌, Option, none, some, List, [], ◌∷◌, ◌==◌, length,
  if◌then◌else◌,
}
use cali_go_stack.Store.Entity.{Todo, Result, ok, err, EntityStore}
use cali_go_stack.Queue.Hub.{Hub, count_user_clients}
use cali_go_stack.Handlers.Suggest.{Clients, llm_enabled, simulated_llm_enabled}

-- What the page reads of the configuration.
pub record PageConfig : Type 0 where
  pub skin : String
  pub entity_store : String
  pub nats_enabled : Bool
  pub dagnats_enabled : Bool
  pub offline_sync : Bool
  pub build_label : String
  pub build_commit : String

-- SkinMorpheus and SkinBasecoat
abbrev pub skin_morpheus : String
skin_morpheus = "morpheus"

abbrev pub skin_basecoat : String
skin_basecoat = "basecoat"

-- `asked` is the parameter `skin` of the query.
abbrev pub skin_asked : PageConfig → (asked : String) → String
skin_asked cfg asked = if asked == "" then cfg.skin else asked

unfoldable pub resolve_skin : PageConfig → (asked : String) → String
resolve_skin cfg asked =
    let name = skin_asked cfg asked in
    if (name == skin_morpheus) || (name == skin_basecoat) then name else "daisyui"

unfoldable pub store_label : PageConfig → String
store_label cfg =
    if (cfg.entity_store == "") || (cfg.entity_store == "pb")
    then "PocketBase records"
    else if cfg.entity_store == "crdt"
    then "Loro CRDT per-user + PB snapshot"
    else cfg.entity_store

unfoldable pub offline_label : PageConfig → String
offline_label cfg =
    if not cfg.offline_sync
    then "OFFLINE_SYNC_ENABLED=false — actions fail when network is down; offline mutations NOT queued"
    else if cfg.entity_store == "crdt"
    then "CRDT cross-instance sync via JetStream (NATS); SW queues browser mutations; mode = crdt"
    else if cfg.nats_enabled
    then "PBStore + NATS_ENABLED=true — SW queues browser mutations + JetStream (NATS) streams CRUD ops across replicas; mode = pb + nats"
    else "PBStore + NATS_ENABLED=false — SW queues browser mutations; no JetStream; no cross-instance sync; mode = pb"

unfoldable pub realtime_label : PageConfig → String
realtime_label cfg = if cfg.nats_enabled then "JetStream" else "in-memory"

-- The signals of the page that are not at their zero value.
pub record PageSignals : Type 0 where
  pub todos : List Todo
  pub filter : String
  pub item_count : ℕ
  pub llm_enabled : Bool
  pub simulated_llm : Bool
  pub dagnats_enabled : Bool
  pub connected_clients : ℕ
  pub realtime_kind : String
  pub store_label : String
  pub offline_label : String
  pub sidebar_tab : String

-- The template that renders the page, with the name of the skin that it is told.
pub data Page : Type 0 where
  to_login : Page
  morpheus_page : PageSignals → (email : String) → Page
  basecoat_page : PageSignals → (email : String) → Page
  layout_page : PageSignals → (email skin : String) → Page

unfoldable pub page_of : (skin : String) → PageSignals → (email : String) → Page
page_of skin s email =
    if skin == skin_morpheus
    then morpheus_page s email
    else if skin == skin_basecoat
    then basecoat_page s email
    else layout_page s email skin

-- A list that fails is empty on the page.
abbrev or_no_todos : Result (List Todo) → List Todo
or_no_todos (ok ts) = ts
or_no_todos (err e) = []

unfoldable pub page_signals : PageConfig → Clients → Hub → List Todo → PageSignals
unfolding realtime_label store_label offline_label
page_signals cfg cs hub todos = record {
  todos = todos;
  filter = "all";
  item_count = length todos;
  llm_enabled = llm_enabled cs;
  simulated_llm = simulated_llm_enabled cs;
  dagnats_enabled = cfg.dagnats_enabled;
  connected_clients = count_user_clients hub;
  realtime_kind = realtime_label cfg;
  store_label = store_label cfg;
  offline_label = offline_label cfg;
  sidebar_tab = "queue";
}

module _ {S : Type 0} (st : EntityStore S) where
  -- handleIndex; the user is the id and the email.
  unfoldable pub handle_index :
      PageConfig → Clients → Hub → Option (String × String) → (asked : String) → S → Page × S
  unfolding page_of page_signals
  handle_index cfg cs hub none asked s = (to_login, s)
  handle_index cfg cs hub (some (id, email)) asked s =
      let (todos, s') = st.list id "all" s in
      (page_of (skin_asked cfg asked) (page_signals cfg cs hub (or_no_todos todos)) email, s')
