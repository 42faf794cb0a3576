-- ===== src/Lib.antt =====
-- The workflow core of Homestar, a runtime for IPVM workflows: signed workflows of tasks that are
-- scheduled, run as wasm, and answered by receipts which are addressed by content.
--
-- The program's parts. homestar-core holds the data of workflows (pointers, promises, inputs,
-- instructions, tasks, receipts) and their forms in Ipld, the data model that is encoded and hashed.
-- homestar-runtime stores receipts and workflows in an SQLite database, resumes a workflow from what
-- is stored, and runs the rest. homestar-wasm runs one task, under limits. A workflow that comes in is
-- read from Ipld; its tasks form a schedule of batches; the scheduler looks up receipts of the last
-- batch that has run; promises in the inputs of later tasks are resolved against receipts; a receipt
-- that is made is committed to the database, joined to its workflow.
--
-- Which file models which part.
--   Core/Pointer: homestar-core/src/workflow/pointer.rs; `TryFrom<Ipld>` is `.._of_ipld` and
--     `From<..> for Ipld` is `.._to_ipld`, here and below
--   Core/InstructionResult, Nonce, Config, Instruction, Receipt, Error: the file of that name in
--     homestar-core/src/workflow
--   Core/Proof: workflow/prf.rs and ipld/link.rs; Core/Principal: workflow/issuer.rs and ability.rs
--   Core/Input: workflow/input.rs and input/parse.rs. Defs has the types and their conversions,
--     Resolve has `Args::resolve`, `Input::resolve` and `resolve_links`
--   Core/Task: workflow/task.rs, workflow/invocation.rs and homestar-core/src/workflow.rs
--   Runtime/Receipt: homestar-runtime/src/receipt.rs; Runtime/Store: db.rs; Runtime/Scheduler:
--     scheduler.rs; Runtime/Resources: the resources of workflow.rs; Runtime/Info: workflow/info.rs;
--     their modules Translate have the conversions
--   Runtime/Graph: `Builder` of workflow.rs, which makes a graph of a workflow's tasks
--   Runtime/Worker: worker.rs, with `resolve_cid` and the joining of tasks that have run; Queue has
--     `run_queue` and what a batch's tasks are spawned with, Start has `Worker::new` and `run`
--   Runtime/Record: event_handler/swarm_event/record.rs, the records that are found on the network
--   Runtime/Pubsub: network/pubsub/message.rs, the messages that nodes gossip
--   Runtime/Handler: event_handler.rs, the state of the event handler, with the types of libp2p. Its
--     modules Publish and Events have event_handler/event.rs, with `gossip_publish` of network/swarm.rs;
--     Kademlia, Requests, Peers and Swarming have event_handler/swarm_event.rs, and Swarming the loop
--     of `EventHandler::start`; Cache has event_handler/cache.rs
--   Runtime/Runner: runner.rs, the sets of running workers and tasks. Its module Launch has `run_worker`,
--     `shutdown` and `AckWorkflow::new` of runner/response.rs, Serve has `handle_command_message` and
--     the loop of `serve`
--   Runtime/Retrieve: `Info::init` and `retrieve` of workflow/info.rs
--   Wasm/Limits: homestar-wasm/src/wasmtime/limits.rs; Wasm/Io: homestar-wasm/src/io.rs
--   Wasm/Value: homestar-wasm/src/wasmtime/ipld.rs and error.rs: Read has `RuntimeVal::try_from`, Write
--     has `TryFrom<RuntimeVal> for Ipld`
--   Ipld, Foreign: the values and the parameters below; Prelude, Result: shared helpers
--   Sample, Tests: concrete parameters, and runs of the model
-- Modules below these (Laws, Links, Commit and others) hold the proofs.
--
-- Parameters. Code of other crates is a parameter: CIDs, floats, principals and URLs are types; the
-- serde of libipld is a record of functions (Ipld/Serde), with its documented behaviour as the record
-- IsSerde; texts, the DAG-CBOR codec, the hash and Unicode lowercase are in Foreign. The lookup of a
-- receipt, the fetch of resources and the database query that the scheduler makes are arguments, and
-- so are the order of a graph in batches and the answers of the network. The types and values of
-- wasmtime are data, and its checked constructors are in Wasm/Value/Component, with IsComponent.
-- The types of libp2p are the record Net; what it answers is the record Swarm, functions of the calls
-- that the handler has made of it so far; the encodings that both ends of a connection share are the
-- record Wire, with IsWire. The queue of expirations of tokio_util is the record DelayQueue, with
-- IsDelayQueue; whether a spawned task is finished is an argument, and so is whether wasmtime makes a
-- growth of a memory that it was allowed.
--
-- Concurrency. The tasks of a batch run at the same time. What they look up, and when they end, is a
-- list of actions, and what is shown of a run holds for each such list. The event handler takes the
-- events of its queue, of the swarm and of the cache as they come, which is a list of them; calls of the
-- swarm and messages to channels are kept in the order in which they are made. The arms of the runner's
-- loop are a list too, with what running workers do to the running tasks.
--
-- Representation. A BTreeMap of Ipld is its entries in the order of their keys; an SQL table is the list
-- of its rows; an i128 is an integer.
-- Machine integers keep their wrap-around (progress counts, the memory consumed). Errors keep their
-- variant and drop what is only displayed. No definition uses fuel: every loop is structural.
--
-- Not modelled: the set-up of the network and of the runner's servers, settings and the command line, the calls of wasmtime, and
-- the SQL and JSON encodings. The event handler and the worker are those of the build without the
-- features websocket-notify and ipfs: notifications, replayed receipts and the storing of receipts on
-- IPFS are left out.
pub mod Core
pub mod Foreign
pub mod Ipld
pub mod Prelude
pub mod Result
pub mod Runtime
pub mod Sample
pub mod Tests
pub mod Wasm
