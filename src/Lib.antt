-- ===== src/Lib.antt =====
-- Verification of the AINE runtime (repository HookClose): the deterministic core of a platform that runs
-- software agents. Tasks come from a table, go through queues to workers, are executed in workspaces with
-- code that model providers write, and generate follow-up tasks or repairs from their outcomes.
--
-- Parts and files
-- * Prelude and its children: lists, texts, dictionaries, sorting and tests over the native numbers.
-- * Contracts (contracts/llm_provider.py): requests and responses of a language model. Events
--   (events/domain, events/schema.py): the events with their payloads, and the bus as the list of what was
--   published on it, if there is a bus.
-- * Providers (providers/): State, Base, Registry, Manager and Routing have the names of the source files.
--   State is the profile and the health of a provider; Base.complete is BaseProvider.complete with its
--   health state machine; Manager.manager_complete is ProviderManager.complete, which asks
--   Registry.for_capability for an order, screens it (candidates) and fails over along it (try_each);
--   Routing.decide is ComplexityRoutingEngine.decide; Implementations has the vendors' profiles and
--   Persistence the dictionary form of health and the store in Redis. Manager.Invariant says what outlasts
--   any sequence of requests.
-- * Adapters (adapters/llm/openai.py): the adapter to OpenAI's client, and the classes of its errors.
-- * Orchestration (orchestration/): Graph is graph.py, Chaining is chaining.py on top of it, Failures and
--   Healing are the two halves of self_healing.py.
-- * Tasks (tasks/): the task record, Repository (repository.py) and Executor (executor.py). Dispatch is the
--   polling loop of scheduler/main.py and the consuming loop of opencode-worker/main.py, one round a step,
--   over a state of table, queues and published notices; Dispatch.Engine is the listening loop of
--   workflow-engine/main.py, which records those notices.
-- * Workers (workers/): Contracts, Workspace, and Openclaw with Openclaw.Attempts and Openclaw.Draining
--   (openclaw.py); Architect with ArchitectPrompts and ReviewEnvelope (architect.py,
--   architect_prompts.py), and Codegen (codegen.py), both over the provider manager and over the JSON
--   values of Envelope. Keyless puts the worker, the generator and the composed runtime together.
-- * Workflows (workflows/machine.py, workflows/definitions): the declared state machines. Runtime is the
--   state of the build process in runtime/state.py, and Runtime.Store the file that keeps it, whose saving
--   is a step relation that may stop anywhere; Runtime.Composition (runtime/composition.py) builds the
--   registry that a configuration gives, and with it the manager that the workers use.
-- The modules below a part hold lemmas and theorems about it; the modules named Examples hold tests and the
-- concrete inputs.
--
-- How the code is read
-- * A method becomes a function that takes the object's state last and returns its result with the new
--   state. An exception is an error value, none, or the constructor of an error type, and the state beside
--   it is the one that the source leaves. Awaiting is calling: each component is used by one coroutine.
-- * A dict is an association list in insertion order, a set a list without repetition.
-- * What comes from outside is a parameter: clocks and vendors (Providers.Base.Platform, read call by call),
--   regular expressions, text methods and hashes (Orchestration.Failures.TextTools), ids and times that a
--   task draws (Tasks.Drawn), Python's str and int on JSON (Orchestration.Chaining.Conversions), Redis, the
--   schema of the database and whether its pool decodes JSON (Dispatch.Backends, Dispatch.Engine.Database), command runner, generator and
--   file system (Workers.Openclaw.Platform, Workers.Workspace.FileSystem), the SDK of OpenAI
--   (Adapters.Openai.Sdk), the JSON reader of the workers (Workers.Envelope.JsonReader), times, JSON and
--   Redis hashes (Providers.Persistence.Encodings and HashClient), whether a vendor's client can be made
--   (Adapters.Openai.Connects), and the model library that validates the state file
--   (Runtime.Store.StateTools).
-- * Numbers are natural. Costs, weights and scores are exact decimals in thousandths, hundredths and
--   millionths, so the rounding of binary floats is not modelled; Python's integers have no bound.
-- * The loops on fuel are those of _reaches in graph.py and of run_forever in openclaw.py. In the first each
--   round pops an entry of the stack, and each edge is pushed at most once, so two more rounds than there
--   are edges suffice (enough_fuel); the second takes a task a round, so one more round than there are
--   tasks suffices. The loop over the attempts of a task is a recursion on the rounds to go.
--
-- Not modelled: HTTP routes, logging, tracing, database and Redis drivers and process start-up are I/O
-- around the parts above; protocols and abstract classes have no behaviour. The command runners and the
-- registries by name of agents and runtime parts are left out.
mod Prelude
pub mod Contracts
pub mod Adapters
pub mod Events
pub mod Tasks
pub mod Dispatch
pub mod Orchestration
pub mod Providers
pub mod Workers
pub mod Workflows
pub mod Runtime
