-- ===== src/Lib.antt =====
-- dsh-chaos: shared Channels, Threads and Tasks for DSH Agents and one local Web User.
--
-- The program is a plugin with a browser panel over a native core. The browser sends calls and
-- reads a stream of changes (src/remote.ts); the panel keeps a projection of the core's ledger that
-- the stream invalidates (src/client/data/store.ts). The service (src/index.ts) holds the core,
-- publishes changes to the streams, and guards what is asked about an Agent and its workspace
-- (src/agent-workspace.ts). Agents run in Sessions that the runtime manager creates, replaces and
-- resumes (src/runtime.ts), a bridge wakes them when messages are pending (src/delivery.ts), and
-- their tools address the core (src/tools.ts).
--
-- Common.antt: Boolean tests on native numbers, lists, maps in insertion order, texts as
--   character recursions, splits and slices, code that throws, and code that throws on an outer
--   state (Common/Acts.antt).
-- Wire.antt: the records of src/native.ts. Sequences, versions and counts stay decimal texts.
-- Remote.antt: src/remote.ts. Payload has the argument checks on a parsed JSON value, Request the
--   calls of CollabRemoteApi, Dispatch the switch of dispatchRemote, Errors errorResult, Handler
--   createCollabRpcHandler over any API, Stream the loop of serveCollabEvents and Guards what stands
--   before it; Checks, Validity, Principal, Tags, Admission, Stream/Ledger and Stream/Replay are about them.
-- Client.antt: src/client/data/api.ts. Calls has the methods of ChaosClient with what they post and
--   how the envelopes are unwrapped, Meaning the call of the host that a method stands for and the
--   arguments that the host accepts; Agreement is about the browser and the host together. Feed is
--   src/client/data/events.ts, the event source and its sockets; Sockets is about it.
-- Runtime.antt: src/runtime.ts and src/preset-policy.ts. Host is the core and the DSH services as
--   operations on an outer state, and the monad of code that throws; Manager and Lifecycle have the
--   operations of RuntimeManager under their names; Frame has the rules for what a do block leaves
--   alone or ensures; Leases, Isolation, Outcomes and Fences are about the operations. Locks is
--   withAgentLock, the promises that serialise the operations on one Agent, as a step relation;
--   Queue, Held, Release, Exclusion and Turns are about its interleavings.
-- Service.antt: src/index.ts. Core is the native handle and the platform, State the fields of
--   CollabService, its guards and publishChange, Writes and Reads the operations that forward one
--   call, Agents those on Agents, their runtime and their workspace, Serve the service as the API
--   of Remote, Lifetime its start, cleanup, retention and listeners. The manager runs on the host
--   that the service is to it. Publication, Operations, Requests, Visibility, Creation, Deletion
--   and Shutdown are about them.
-- Workspace.antt: src/agent-workspace.ts. Files is the file system, Paths the segments, the
--   confinement and the listing, Preview the bounded read, Seeds the two files of a new workspace;
--   Confinement, Contents, Listing and Seeding are about them.
-- Store.antt: src/client/data/store.ts. Merge is mergeMessages, State the snapshot and the markers,
--   Activation, Channels, Changes and Reload the operations; an operation that awaits is cut at its
--   awaits, and its answer is a function of the load generation that was read before. Events puts
--   them together as one state machine, in which answers come in any order; Histories, Fences,
--   Retries, Paging and Removal are about its runs.
-- Delivery.antt: src/delivery.ts. Scan is scanOnce, Bridge the drain as a state machine; Wakes and
--   Levels are about them. Scan resolves an Agent by the runtime manager's resolve.
-- Tools.antt: src/tools.ts. Target reads a target reference, Resolve addresses it and runs the
--   tools, Reading has the tools that read, Prompt the text of src/agent-prompt.ts; Reference and
--   Inbox are about them.
-- The Tests modules hold runs at concrete values.
--
-- Bounds: a stream's connection takes a number of chunks and is then closed, and its loop runs over
-- a list of rounds, for every such number and list. The slices of thread summaries are at most as
-- many as the ids, which is the fuel given. The loop that fills a preview has one more round than
-- there are bytes to read, which is enough, since a round that goes on has read one. No other
-- definition has fuel.
--
-- Parameters: the core's operations, the Agent registry, the Preset roster, the platform, the file
-- system, the URL parser, the order of names and the browser's storage. Three have a named
-- contract. ReadsLedger: the stream's read of the ledger fails, or returns the first changes behind
-- the cursor. Delivers: a read of a file that does not change delivers bytes from the position on,
-- and none only at the end. IsNameOrder: localeCompare is total and transitive.
--
-- Not modelled: the interleaving of operations on different Agents in the manager, which here run in
-- turn, as do the concurrent parts of restore and close and the reads of a listing; the waiter of
-- the stream; the views of the browser; the loader of the native package; the scripts of the
-- release; the core in crates, which is another language.
pub mod Common
pub mod Wire
pub mod Remote
pub mod Runtime
pub mod Store
pub mod Delivery
pub mod Tools
pub mod Client
pub mod Service
pub mod Workspace
