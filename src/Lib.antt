-- ===== src/Lib.antt =====
-- Clawvival: a world in which agents have to survive, and the rules by which they do.
--
-- The program's parts. internal/domain/survival holds the rules: an agent's state, what it can
-- make and eat, and `SettlementService.Settle`, which charges an action for the minutes that it
-- took, lets it act, drains health, and reports all of it in events. internal/domain/world holds
-- the clock and the types of the world; internal/adapter/world/runtime generates the tiles, keeps
-- chunks in a store, and makes the snapshot that an agent sees. internal/app/shared derives what
-- the use cases need from a state and its events: the cooldowns, the status effects, an estimate
-- of the health that is about to be lost. The action engine in internal/app/action runs a request
-- in a transaction: a request that is known is answered as before; else it ends an action whose
-- time is over, takes a snapshot, checks the intent, settles it or begins an action that goes on,
-- and saves the outcome. internal/app/observe shows an agent what is around it,
-- internal/app/status how it is, and internal/app/replay what has happened to it;
-- internal/app/auth gives agents their keys and asks for them. internal/adapter/http stands in
-- front of the use cases: it asks for the key of an agent that acts, decodes the request, and
-- answers with what the use case returns or with the status and the code of its error.
-- internal/adapter/repo/gorm keeps what the ports ask for in the tables of a database, and
-- internal/adapter/metrics/inmemory counts the outcomes.
--
-- Which file models which part:
--   Survival/Types, Survival/Tuning     internal/domain/survival/types.go, tuning.go
--   Survival/Value                      the payloads of events, Go's `map[string]any`
--   Survival/State                      state_entity.go: `AddItem`, `ConsumeItem`, sessions
--   Survival/Rules, Survival/Production production.go: its tables, and `Craft`, `BuildObject`,
--                                       `PlantSeed`, `TickFarm`, `HarvestFarm`, `Eat`, ...
--   Survival/Drain                      service_settlement.go: `scaledInt`, `applyDualCap`
--   Survival/Payload                    service_settlement.go: reasons, deltas and summaries
--   Survival/Effect                     service_settlement.go: the `switch` over the actions
--   Survival/Settlement                 service_settlement.go: `Settle` from start to end
--   Survival/Costs, Survival/Tables     action_costs.go and production.go: what is published
--   World/Types, World/Clock            internal/domain/world
--   World/Terrain, World/Provider       internal/adapter/world/runtime/provider.go
--   Shared/Cooldown, Shared/Stateview   internal/app/shared/cooldown, internal/app/shared/stateview
--   Shared/Depletion                    internal/app/shared/resourcestate
--   Ports                               internal/app/ports: the stores, and the errors of the use cases
--   Action/Move                         internal/app/action/action_move.go: `resolveMoveIntent`
--   Action/Retreat                      internal/app/action/action_retreat.go: `resolveRetreatIntent`
--   Engine/Context, Engine/Intent       dto.go, engine_registry.go; `ValidateRequest`
--   Engine/Report, Engine/Finalize      engine_common.go: `finalizeOngoingAction`, the time windows
--   Engine/Objects, Engine/Checks       `prepareObjectAction`, `persistObjectAction`; the prechecks
--   Engine/Seeds, Engine/Settling       `applySeedPityIfNeeded`, `settleViaDomainOrInstant`
--   Engine/Handlers                     the handlers of all actions
--   Engine/Persist, Engine/Execute      engine_pipeline_steps.go, engine_usecase.go: `Execute`
--   Observe, Observe/Execute            internal/app/observe/usecase.go: the window; the use case
--   Status                              internal/app/status/usecase.go
--   Auth, Replay                        internal/app/auth/usecase.go, internal/app/replay/usecase.go
--   Gorm/Table, Gorm/Rows               the calls of `gorm.DB`; internal/adapter/repo/gorm/model
--   Gorm/States, Gorm/Credentials       state_repo.go, agent_credential_repo.go
--   Gorm/Records, Gorm/Objects          the executions, events, sessions; the objects and nodes
--   Gorm/Transactions                   tx_manager.go, context.go
--   Gorm/Chunks                         world_chunk_repo.go, world_clock_state_repo.go
--   Http/Errors                         internal/adapter/http/handler.go: `writeError`,
--                                       `writeActionRejectedFromErr`
--   Http/Requests, Http/Handlers        handler.go: what is read of a request, and the handlers
--   Http/Pages                          handler.go: replay, skills, counts, routes; cors.go;
--                                       internal/app/skills
--   Metrics                             internal/adapter/metrics/inmemory/recorder.go
-- The modules below these hold proofs, and are named for what they prove; Tests modules hold runs
-- and the theorems at inputs that meet their hypotheses. Base has the shared helpers: integers over
-- native numbers, maps, texts, doubles, durations and the monad of code that uses a store.
--
-- How the code is modelled. A method that changes its receiver returns the changed value. An
-- `int` is an integer without bounds, except in the counts of items, in boxes and inventories and
-- in what is asked for, in the slots in use, and in the seed of a tile, which wrap around at 64
-- bits: a client sends counts of any size. A time is the number of nanoseconds since Go's zero time; a duration between times stops
-- at the bounds of an `int64`, and durations wrap around. A map is an association list in the
-- order in which a `range` visits it, for any order; a nil map reads as an empty one. A `float64`
-- is computed exactly as rounding to nearest, ties to even, gives it. Texts are compared without
-- their outer spaces and case where the code trims and folds, for ASCII letters. The seconds to
-- the next phase are exact for phases of less than 97 days. The fuel of the search for a path is
-- two more than the cells, since each cell enters the queue at most once beside the origin, and a
-- last turn ends the search. The fuel in the rounding of doubles, 512, is above the bit length of
-- every product formed, and that for the digits of a number is above the number.
--
-- A use case is a record of the functions that it is built on, over a store of any type; a step
-- takes the store and returns an error, or a value and the store after it (Ports/Monad). The time
-- that a clock reads is an argument. Adding minutes to a time stops at the zero time. The whole
-- minutes of a duration are exact below 2 ^ 17 minutes, and what goes on is planned for less. The
-- zero `ResultCode`, which no step leaves in place, is `ok`. The event store is taken to be
-- there, since it is appended to without a test; the other stores may be nil where the code asks.
--
-- Parameters. The JSON of the states of objects and the `Sscanf` of a target are functions
-- (`Formats`, and an argument of the observed objects), and so are SHA-256 and the source of
-- random bytes (`Secrets`). `IsTransaction` asks of a transaction that an error undoes what was
-- written and that a commit returns the result or fails; `RemembersActions`, that the result
-- recorded of an action is found under its agent and key and that no other write touches it;
-- `RemembersCredentials` the same of a credential. The chunk store and the clock state store are
-- records of functions over a store's state for the provider of the world, and `IsFaithful` says
-- what is asked of a chunk store: it answers, and finds only chunks as they are generated;
-- `Remembers` asks of a clock state store that it finds what it found or saved last.
--
-- A table of the database is a record of the calls that the repositories make (`Table`), and
-- their rows are the structs of the code: a row stands for the condition that a struct given to
-- `Where` is, and a function on rows for the columns that an update sets. `IsTable` says what is
-- relied on: the first row that agrees is found, a row that is created is added, an update
-- changes the rows that agree and counts them. `HoldsStates` and `HoldsCredentials` add that a
-- field of a condition that is not zero has to agree, that an agent has at most one row, and that
-- the columns keep what is written, but for times, which a database may round. The JSON of an
-- inventory (`InventoryJson`), of results, events and payloads (`RecordJson`), of tiles
-- (`TileJson`) and of request bodies (`BodyJson`) are functions, and so are the use cases that
-- the handlers call (`Handler`). The time that a repository stamps a row with is an argument, and
-- a context that carries a transaction is the store that is passed.
--
-- Not modelled: the wiring of the parts and the reading of the environment in cmd/server, the
-- server itself, the opening of the database, and the reads of skill files below a directory,
-- which are calls of libraries; the columns of the tables that the code neither writes nor reads;
-- two JSON functions of the world's provider that nothing calls; the tables of rules in the
-- responses of the observe and status use cases, and the table of costs in that of the observe
-- use case, which are constants.
pub mod Base
pub mod Survival
pub mod World
pub mod Shared
pub mod Ports
pub mod Action
pub mod Engine
pub mod Auth
pub mod Replay
pub mod Observe
pub mod Status
pub mod Gorm
pub mod Http
pub mod Metrics
