-- ===== src/Lib.antt =====
-- Verification library of ironclaw-go, a personal assistant that runs tools for its users behind a
-- layer of safety checks and human approvals.
--
-- The program's core is a chain. The agent (internal/agent) keeps each user's threads and hands the
-- tool calls of an input or of a language model to the dispatcher (internal/tools/dispatch.go). The
-- dispatcher looks at its allow list and its registry, asks the rate limiter, takes an approval that
-- waits or asks the gates (internal/gate), runs the tool, sends its output through the safety layer
-- (internal/safety) and writes an audit record. A gate that pauses a call leaves a pending gate in the
-- store (internal/gate/store.go), which a user resolves or denies, and which a later call consumes.
--
-- Where each part is modelled:
--   Shared       names of the libraries, tests, lists, dictionaries, text, bytes, results, heaps
--   Gate         gate/gate.go; Gate/Approval: approval.go; Gate/Store: store.go; Gate/Risk: risk.go
--   Safety       safety/: RateLimit, Policy, Validator, Sanitizer, LeakDetector and Layer
--   Tools        tools/tool.go and registry.go; Tools/Dispatch: dispatch.go
--   Llm          llm/llm.go, the types of messages
--   Agent        agent/: Session: session.go; Router: router.go; Loop, Conversation and Commands: agent.go
--                (the tool loop, the exchange with the model, and ProcessMessage with the commands)
--   Hooks        hooks/hooks.go
--   Skills       skills/skill.go and registry.go; Skills/Attenuation: attenuation.go
--   Orchestrator orchestrator/orchestrator.go and token_store.go; Jobs: job_manager.go and reaper.go
--   Ownership    ownership/ownership.go; Ownership/Cache: cache.go
--   Db           db/db.go; Db/Memory: memory.go, whose pages are Db/Paging
--   Worker       worker/worker.go
--   Config       config/config.go; its records and their defaults in Settings
--   Extensions   extensions/extensions.go; Entries: registry.go and types.go
--   Registry     registry/manifest.go; Catalog: catalog.go
--   Secrets      secrets/secrets.go
--   Workspace    workspace/workspace.go; Clean: filepath.Clean and Join of Go's library
--   History      history/store.go; Sort and Snippet are two of its functions, Search proves a third
--   Auth         auth/auth.go
--   Channels     channels/channel.go; Manager: manager.go; EventHub: httpgw/events.go; Gateway: httpgw/httpgw.go,
--                with its handlers of gates and of chat in Gates and Chat
-- (all paths under internal/). A struct is a record with the source's fields, a map is an association
-- list (Shared/Dicts), a method is a function whose last argument is the state and whose result is
-- the new state with what the method returns. A mutex makes each method one step, and a history of
-- calls, in the order in which they take the lock, stands for the interleavings of goroutines.
--
-- Conventions. Times and durations are numbers of nanoseconds. A method that reads the clock takes the
-- reading as an argument `now`, and one that draws a UUID takes it as an argument. Strings that the
-- program cuts or scans by bytes are lists of bytes (Shared/Octets), other strings are native. An error is
-- a value of a result type. A loop over a map takes the order of the association list. Loops are
-- structural; the digits of a number are made on fuel (Safety/Sanitizer), one more than the number,
-- which is more than it has digits.
--
-- Parameters. What a tool does is a function that the tool's record holds, what a hook answers is a
-- function of its event, and the language model is a function of the messages and the tools that it is
-- shown. Compiled regular expressions are functions from a text to whether it matches or to what they
-- find. strings.ToLower in the history is a function on bytes, which may change lengths. The database
-- that the dispatcher writes its records to is a function too, which may fail. The ciphers, the drawing of nonces and base64 are functions with what their packages document
-- as hypotheses (Secrets/Laws). What the environment holds and what the toml package decodes are
-- functions too. The calls of package os are functions that act on a state, the files of the machine.
-- json.Unmarshal and strconv.Quote are functions that the agent's record holds.
--
-- Goroutines that share what they write are modelled by their steps (Worker, Channels/Manager): a
-- schedule or a list of moves says who acts, and the theorems hold for all of them.
--
-- Not modelled: the gRPC, websocket and terminal ends and the HTTP server itself, the clients of
-- language models, the SQL database, document extraction, generated code and the wiring in cmd and
-- internal/app, which are input and output; logging and metrics, on which no decision depends.
pub mod Shared
pub mod Gate
pub mod Safety
pub mod Tools
pub mod Worker
pub mod Workspace
pub mod Extensions
pub mod Registry
pub mod Config
pub mod Secrets
pub mod Llm
pub mod Agent
pub mod Auth
pub mod Channels
pub mod Db
pub mod History
pub mod Orchestrator
pub mod Ownership
pub mod Skills
pub mod Hooks
