-- ===== src/Lib.antt =====
-- cali-go-stack: a web application of todos on PocketBase, NATS and server-sent events.
--
-- A browser calls the handlers (`Handlers`), which read and write todos through a storage strategy
-- (`Store`), answer with a patch of the list, and hand the mutation to the CRUD publisher; the
-- consumer of another instance (`Nats`) writes it to its own PocketBase. Events reach the browser's
-- tabs through the SSE hub (`Queue`): the stream of a tab takes frames from its channel and turns
-- them into signals, toasts and patches. Frames come from the workers of the queue, which retry
-- their handlers, from the onboarding workflow through a broadcaster, and from the publisher of
-- new document versions. Boards (`Whiteboard`) share documents and presence (`Collab`) over a hub of
-- their own and over NATS.
--
-- Queue/Chan.antt, Queue/Hub.antt: internal/queue/ssehub.go. The hub is a record with the code's maps
--   as association lists, a heap of bounded channels and the calls of `onDrop`; each method is one
--   function. All but Send and SendBlocking hold the lock for all of it; a history (`Call`, `step`,
--   `run`) has these two in one step, or the parts that come after the lock was let go as steps of
--   their own. Frame, Offer, Invariant, Replay, Scope, Sending and Reconnect hold the proofs.
-- Json.antt: encoding/json as far as the program uses it: values, and the fields of a struct.
-- Queue/Job.antt, Queue/Registry.antt: internal/queue/handlers.go, the envelope and the registry.
-- Queue/Worker.antt: internal/queue/retry.go and workers.go, over retry-go as a parameter with laws;
--   Worker/Loop is a loop that has them, Worker/Attempts holds the proofs.
-- Store/Contract.antt: what features/store/store.go promises for one owner, over a map from ids to
--   todos; Contract/Pb and Contract/Crdt are about the two strategies.
-- Store/Entity.antt: features/store/store.go and features/todo/models.go, the contract of a strategy
--   as a record of state-passing operations.
-- Store/App.antt: PocketBase, third-party code, as a record of operations with laws; Store/App/Table.antt
--   is a table in memory that has the laws.
-- Store/Pb.antt: features/store/pbstore/pbstore.go, each method of PBStore; Isolation, Clear and
--   Effects hold the proofs.
-- Store/Hook.antt: db/idempotency_hook.go.
-- Db.antt: db/seed.go and db/idempotency_seed.go. The collections are a map by name, and PocketBase's
--   index and validation are parameters; Seed and Again hold the proofs.
-- Store/Transport.antt: features/store/crdtstore/transport.go and internal/server/crdtstore_wire.go.
--   JetStream is a function that accepts or refuses a message; texts are lists of bytes.
-- Store/Loro.antt: Loro, third-party code, as a record of operations on documents with laws;
--   Store/Loro/Plain.antt is a document in memory that has them.
-- Store/Items.antt, Store/Projection.antt, Store/Crdt.antt: features/store/crdtstore/crdtstore.go, the
--   items of a document, their projection onto records, and the operations of CRDTStore. What an
--   operation wrote before an error stays written, as in the code, where documents are shared. The
--   version counters wrap at 2^64. Docs, Reads, Scope, Remote and Sweep hold the proofs.
-- Store/Crdt/Watch.antt: of the same file, the versions and who is told of them: SetPublisher,
--   bumpVersion, Version, Watch with its goroutine and cancel, and Close, as steps in any order. The
--   goroutine reads a version, and sends it, in two steps. `none` is Go's panic on a closed channel.
--   Fan, Panics, Current, Latest, Closing and Full hold the proofs.
-- Config/Mask.antt, Config/Page.antt: features/config/mask.go and features/config/safe_view.go, the page
--   of the configuration as a value; Hiding holds the proofs.
-- Nats/Crud.antt: internal/nats/crudproxy.go, `publish` and the callback `consume`.
-- Handlers.antt: features/todo/handlers/todo_crud.go and todo_repo.go, and publishCrudOp of todo.go.
-- Nats/Realtime.antt: internal/nats/realtime.go and inmemory.go; Realtime/Relay holds the proofs.
-- Handlers/Output.antt, Handlers/Stream.antt: features/todo/handlers/todo_sse.go, what each frame
--   becomes; Stream/Session is the life of a stream, Stream/Button and Stream/DocEvent hold proofs.
-- Handlers/Onboarding.antt: features/todo/handlers/onboarding.go and todo_update_job_dagnats.go; the
--   answers of the workflow engine are inputs. Run and Outcome hold the proofs.
-- Handlers/Publisher.antt: internal/server/crdtstore_wire_publisher.go.
-- Handlers/Abstract.antt: the handlers over any strategy that keeps the contract.
-- Collab/Presence.antt, Collab/Presence/Web.antt: internal/collab/presence.go and presence_web.go;
--   Sweep and Expiry hold the proofs.
-- Collab/Shapes.antt, Collab/Sync.antt: internal/collab/collab.go, docstore.go, persist_pb.go, sync.go,
--   sync_web.go and publish.go, over Loro as a record of operations. Sync/Unopened holds the proofs.
-- Whiteboard.antt: features/whiteboard/handler.go, the streams and the peers of a board; Peers holds a proof.
-- Auth.antt: features/auth/auth.go and wiring.go, over PocketBase's accounts and tokens as a record with
--   laws; Auth/Login holds the proofs.
--   Auth/Guard is RequireAuthOrRedirect as handlers call it.
-- Secrets.antt: internal/secrets/secrets.go, over the machine and age as a record; Lines and Export hold
--   the proofs.
-- Config/Load.antt: config/config.go, after the secrets; Load/Fields holds the proofs. Config/Handler.antt:
--   features/config/handler.go.
-- Llm/Reply.antt, Llm/Fake.antt, Llm/Client.antt: internal/llm/streaming.go, fakeserver/fakeserver.go and
--   goai.go; texts are code points. Reply/Fence, Reply/Short and Client/Items hold the proofs.
-- Handlers/Suggest.antt: features/todo/handlers/llm_suggest.go; Suggest/Simulated follows a job from the
--   worker over the handler and the client to the server. Handlers/RetryDemo.antt, Handlers/Page.antt: the
--   demonstration of the queue, the page and its labels, of todo.go.
-- Nats/Connection.antt, Nats/Rooms.antt: internal/nats/embedded.go and presence.go, and cmd/web/nats.go.
-- Whiteboard/Pages.antt: the other handlers of features/whiteboard/handler.go; Pages/Guests holds a proof.
-- Base: shared names, and lemmas on lists, maps and bytes. Tests: runs on concrete inputs.
--
-- Every loop is a structural recursion, over the list that the code ranges over or over the events
-- that wake it, so no fuel is used, but for the decimal form of a number: it has as many steps as the
-- number and one more, and each divides by ten.
-- EnsureSchema of the CRDT strategy, which describes a collection to PocketBase, is not modelled.
-- Rendering, logging and network I/O are not modelled: they are third-party calls or carry no
-- state of the program. The order in which Go ranges over a map is that of the association list.
pub mod Auth
pub mod Base
pub mod Collab
pub mod Config
pub mod Db
pub mod Handlers
pub mod Json
pub mod Llm
pub mod Nats
pub mod Queue
pub mod Secrets
pub mod Store
pub mod Tests
pub mod Whiteboard
