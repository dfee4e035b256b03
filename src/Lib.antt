-- ===== src/Lib.antt =====
-- The core of the intent execution layer: intents, their registry and resolution, action sequences,
-- adapters, the event bus, the execution engine, the interaction graph, the execution contract and the
-- control runtime.
--
-- An intent (core/intent) names an action, a target and constraints. It comes from JSON
-- (Intent::Deserialize) or from a sequence text (ParseActionSequenceDsl), is validated, and is given to
-- the engine (core/execution), which picks an adapter from the registry or from its fast path, runs it
-- with retries and fallbacks, records the outcome and publishes events on the bus (core/event). The
-- macro executor runs the steps of a sequence through the engine. The intent registry (core/intent)
-- keeps the intents that the adapters offer, and resolves a target to one of them. The interaction
-- graph (core/interaction) is built from the UI elements of a snapshot: it says how each node is
-- revealed and acted on. The execution contract (core/execution) looks a node up in it, reveals it,
-- executes the intent and verifies the outcome. The control runtime takes events and queued intents,
-- and executes one intent in each frame within the frame's budget.
--
-- Common, Text, Float and Platform are shared: lists and signed integers over native numbers; texts
-- as lists of code units with the routines that the sources repeat per file (Trim, Split, LowerAscii,
-- ParseInt); floats as bit patterns, of which only the comparisons are computed, while the arithmetic
-- is a parameter (FloatOps); and what Windows and the C runtime do, as parameters (Platform).
-- Intent holds core/intent/include/Intent.h and core/intent/src/Intent.cpp: Intent/Action the names,
-- Intent/Valid validation, Intent/Json and below it the reader and the writer.
-- Sequence holds core/execution/src/ActionSequence.cpp: the tokens, Sequence/Parse the text of steps
-- and Sequence/Macro the executor, over a Runner that stands for engine, clock and sleep;
-- Sequence/OnEngine puts the engine there.
-- Registry holds the AdapterRegistry of core/execution/src/Adapter.cpp; an adapter is a record of its
-- virtual functions. Registry/Resolve is ResolveBest without its log line, Registry/Record is
-- RecordExecution.
-- Event holds core/event/src/EventBus.cpp. Engine holds core/execution/src/ExecutionEngine.cpp:
-- Engine/FastPath the cache, Engine/Recovery the retries, Engine/Execute the whole of an execution.
-- Interaction holds core/interaction/src/InteractionGraph.cpp: Interaction/Plan the plans and reveal
-- strategies, Interaction/Paths the labels and the paths of elements, Interaction/Build the graph,
-- Interaction/Delta the digests and the difference of two graphs, Interaction/Generate the intents.
-- Contract/Reveal holds core/execution/src/RevealExecutor.cpp and Contract/Execute
-- core/execution/src/ExecutionContract.cpp, over a Port that stands for engine, registry and file
-- system; Contract/OnEngine puts the engine and the intent registry there, which share an event bus
-- as main.cpp builds them (Contract/Shared).
-- Control holds core/execution/src/ControlRuntime.cpp: Control/Queue the three queues,
-- Control/Lifecycle the start, the stop and the events, Control/Decision the pass of the decision
-- thread, Control/Frame a frame over a FramePort, Control/Loop the loop, Control/Latency the histories,
-- and Control/Machine the sections of the threads as steps that alternate in any order, of which
-- frames and passes are sequences (Control/Frame/Sections).
-- Resolver holds core/intent/src/IntentResolver.cpp and Intents core/intent/src/IntentRegistry.cpp:
-- Intents/Refresh the refreshes and Intents/Resolve the cache.
-- Capability holds core/capability/src/CapabilityExtractor.cpp, its header, and
-- core/intent/src/IntentNormalizer.cpp, which makes an intent of a capability.
-- Ui, Execution, Outcome and Double hold the types that these share; Text/Dict the maps that are
-- lists of pairs.
--
-- Stateful code passes its state explicitly. In the engine the state is the world (clocks, adapters
-- and handlers act on it), the registry, the fast path, the trace counter and the list of effects: what
-- was told to the bus, the telemetry and the logger, in order. A record update stands for an
-- assignment, a result or a message for a return of false.
--
-- Most loops are structural recursions: over lists, over the repetitions or the rounds that are left
-- (maxRetries + 1 of them), over the digits of a number, of which there are no more than the number
-- is large, and over the 64 bits of an exclusive or. Three are on fuel. The path of an element goes up
-- its parents, and a set of the elements on the way breaks cycles: one step more than there are
-- elements with an id is enough (Interaction/Paths/Total). A free identity in the graph is found in one
-- round more than there are identities taken, if the tried ones differ (Interaction/Build/Free); if
-- hashes collide, the model takes the last one tried and the source tries on. The loop of the control
-- runtime needs one round for each frame that its limit leaves and one more (Control/Loop/Ends).
--
-- Not modelled: mutexes, and threads beyond the steps of Control/Machine; the overflow of time points,
-- of maxRetries + 1 and of sums of coordinates; handlers that change the bus or execute intents while
-- they are called; the order in which an unordered map keeps its entries; the concrete adapters; the
-- JSON of the graph and of the control runtime's snapshot; the capability graph; the telemetry beyond
-- the calls that are made to it; perception, the task interface, reflexes, the action interface, and the
-- server, the command line and the SDK, which are I/O around this core or wait for an extension.
pub mod Common
pub mod Text
pub mod Float
pub mod Platform
pub mod Intent
pub mod Outcome
pub mod Ui
pub mod Execution
pub mod Registry
pub mod Event
pub mod Double
pub mod Engine
pub mod Interaction
pub mod Contract
pub mod Control
pub mod Capability
pub mod Resolver
pub mod Intents
pub mod Sequence
pub mod Tests
