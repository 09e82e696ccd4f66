-- ===== src/Lib.antt =====
-- Flux, the control plane of a serverless platform: an HTTP API in front of a fleet of agents that
-- run functions. Flux keeps its agents and functions in Redis, asks the agents for their load, and
-- starts and stops nodes of a cloud provider.
--
-- The parts, with their files here:
--   Models        pkg/models/models.go: agents, node metrics, functions, and the fit of a function
--   Config        pkg/config/config.go: the records of the configuration, Config/Parse its parsing, and
--                 Config/Global the variable that holds it
--   Memory        pkg/memory/storage.go: the interface of the store, and what the registry relies on
--   Memory/Redis  pkg/memory/redis.go: the store over a Redis client and a JSON codec, with its
--                 making in Memory/Redis/Connection, the entries that expire in Memory/Redis/Expiry, and a
--                 flushed store in Memory/Redis/Flushing and Memory/Redis/Blank
--   Registry      pkg/registry/registry.go: the agents and functions over the store, and
--                 Registry/Updates its updates as goroutines interleave them
--   Client        pkg/client/agent.go: the interface of the calls to an agent, and Client/Grpc its
--                 implementation, with the cache of connections
--   Pki           pkg/pki/pki.go: the certificate authority, the certificates and the SSH key
--   Scaler        pkg/resource: Scaler/Catalog is instance_catalog.go, Scaler/Provider provider.go,
--                 Scaler/NodeTypes, Scaler/Pressure and Scaler/Autoscaler are scaler.go,
--                 Scaler/Manager is providers_manager.go, with its constructor in
--                 Scaler/Manager/Providers, Scaler/Bootstrap is bootstrap.go, with what is sent
--                 to a node in Scaler/Bootstrap/Sent, and Scaler/Aws and Scaler/Gcp are aws.go
--                 and gcp.go, which share Scaler/Polling
--   Api           pkg/api/handlers.go: Api/Routing for ServeHTTP and authenticate, Api/Execute for
--                 the execution of functions, Api/Functions for registering and deploying them,
--                 Api/Executions for cancelling and reading executions, Api/Agents for the fleet,
--                 Api/Listing for the reports, and Api/Serve for a whole request, under withCORS
--                 of main.go
--   Health        main.go: checkAgentHealth, and Health/Polling the poller with its goroutines
--   Main          main.go: main, which puts the parts together, up to the server that listens, and
--                 Main/Process the running program
--   Base, Floats  lists, 64-bit integers, results, dictionaries, operations that change the world and
--                 may fail (Base/Action) with the rules for what they ensure (Base/Ensures), a list
--                 of jobs (Base/Jobs), steps of a start (Base/Startup), and the interface of float64
--
-- The autoscaler polls every agent through the client, writes what it hears into the registry,
-- keeps samples of the agents of its provider, decides from them, and then spawns a node, replaces
-- one, or drains and removes one. The registry reads and writes the store. The handlers of the API
-- call the registry and the agents. The manager makes a provider for each cloud in the
-- configuration, starts the fleet with it and takes it down; a provider launches instances and
-- installs the agent on them over SSH, with certificates that the PKI mints. Each child of a module
-- holds the proofs about it and is named for what they show.
--
-- State. What lies outside the program (the server of Redis, the agents, the cloud) is one type W,
-- which each operation takes and returns. A call that may fail returns `Result`, whose error is a
-- message, sometimes without the values that the source formats into it. The registry drops the
-- errors of the store, as the source does. The fields of `Autoscaler` that change are the record
-- `Autoscaler`; the others are parameters. A goroutine that an operation starts is a `Task` in its
-- result, and Scaler/Autoscaler/Drain has what it does. Readings of the clock are arguments, or
-- functions of W.
--
-- Concurrency. The goroutines of InitializeNodes, TerminateNodes and the health poller are lists of
-- jobs, each at the operation that it makes next; a schedule is a list of events, each a step of
-- one job or a change that something else makes. Callers of the agent client take turns at its
-- lock. In Main/Process a request is handled in one step, and an autoscaler is a change of the
-- world. The registry has no lock: Registry/Updates splits each update of an agent into its read
-- and its write.
--
-- Numbers. An int, int32 or int64 is a ℤ; where the source computes with one, the result wraps
-- (Base/Int). Instants are nanoseconds since the zero of time.Time, and their differences saturate
-- as time.Time.Sub does. A float64 is an element of a type F with the operations of `Floats`, and
-- theorems that order floats ask for the order of IEEE 754 on numbers (`FloatLaws`).
--
-- Requests. A handler returns a `Reply`: a status code with a message, or with the values of the
-- JSON body. The body of a request is an argument, as read and as decoded.
--
-- The parameters: the Redis package with its expiry, the JSON codec, the YAML decoder,
-- `sort.Slice`, the agents behind gRPC, TLS, the file system, the cryptography of the PKI, the SSH
-- client, the SDKs of the two clouds, and F. The parts other than the providers themselves take a
-- provider as a parameter. Loops over lists are structural recursion; the loop that waits for a
-- node to drain, and the one that tries to run a function again, recurse on the events that their
-- select receives, and the waits for addresses and for an operation of GCP on the answers that they
-- get, which are finitely many. The one use of fuel is the loop that dials a new node: 38 attempts,
-- one at the start and one after each of 37 ticks of five seconds, are past its deadline of three
-- minutes. The bootstrapper that a provider calls is an argument of its constructor.
--
-- Not modelled: logging, with logPressureSummary, whose result is only logged, the headers of
-- replies, the server of HTTP, of which Main/Process has the requests and the failure, the GCP provider of
-- a program without a PKI, whose SpawnNode panics and which is a parameter of Main, and the
-- generated code under proto. The world of Main holds the connections of the agent client; its
-- handlers are over that world, and how a scheduler runs the manager's two operations is a parameter
-- there.
pub mod Base
pub mod Floats
pub mod Models
pub mod Config
pub mod Memory
pub mod Client
pub mod Registry
pub mod Scaler
pub mod Api
pub mod Health
pub mod Pki
pub mod Main
mod Tests
