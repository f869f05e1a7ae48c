-- ===== src/Lib.antt =====
-- simple-api-server: an aggregated Kubernetes API server for Tasks, kept in memory.
--
-- A request reaches a method of REST or StatusREST (pkg/registry/tasks/task/storage.go), which
-- asks a strategy (strategy.go beside it) what the client may change, checks the version that the
-- client has read, and calls the store (pkg/storage/inmemory/store.go), whose mutex makes each of
-- its methods one step. REST and StatusREST share one store.
--
-- The files:
--   Prelude and below: shared names, Go strings as lists of bytes (Text), uint64 in decimal
--     (Decimal: strconv.FormatUint and ParseUint), int64 (Int64).
--   Kube and below: the k8s.io structs with the fields that the program uses (Meta), its errors as
--     values (Errors), results that may be an error or a panic (Outcome).
--   Api: pkg/apis/tasks/v1alpha1/types.go and register.go.
--   Store and below: store.go. Store.Items is Go's map, Store.Calls the methods as data,
--     Store.Invariant and Store.Writes what they keep and write, Store.Listing the method List,
--     Store.Refinement the contract of the store, on one call and (Traces) on sequences.
--   Rest: the interfaces and functions of k8s.io/apiserver that the program implements and calls,
--     as parameters; Rest.Laws states their documented behaviour.
--   Strategy, StatusStrategy: strategy.go, one file for each strategy; below them what specEqual,
--     PrepareForUpdate and validateStatusUpdate decide.
--   Handler: a request as Go code between calls of the store; Handler.Interleaving runs any number
--     of them at the same time.
--   Registry: storage.go and helpers.go; Registry.Checks and Registry.Accept are what happens
--     between two calls of the store, the other files below it are named for what they prove.
--   DeepCopy and below: pkg/apis/tasks/v1alpha1/zz_generated.deepcopy.go on a heap of arrays, whose
--     addresses stand for slices; DeepCopy.TaskLists is the copy of a list with its Tasks.
--   Memory and below: the store again with its objects in memory: it and its clients hold pointers,
--     and each of its methods makes the deep copies that store.go makes. Memory.Clients is what a
--     client can do, Memory.Privacy which pointers never meet, Memory.Refinement the way back to
--     Store, where objects are values, Memory.Unshared what the store shares with nobody.
--   Server: the route of a request to the storages that installTasksGroup of
--     pkg/apiserver/apiserver.go installs; Server.Serving is the server from its start,
--     Server.Progress how its requests come to an end (Handler.Progress for any handlers), Server.Filing
--     what its store holds (Handler.Keeping and Handler.Held for any handlers), Server.Listing what
--     List answers on it.
--   ApiServer and below: the rest of pkg/apiserver/apiserver.go, with pkg/apis/tasks/install and
--     addKnownTypes of register.go (Scheme), and the results of code that may fail or panic (Results).
--   Command: cmd/simple-apiserver, from the options to the server; Command.Flags is its command line
--     and main, Command.Authorizer and Command.Main are about the authorizer that it runs with.
--   GenCerts and below: hack/gen-certs/main.go, on a map of files and calls of the system that may
--     fail (Effects); GenCerts.Runs is about its runs, GenCerts.Interrupted about one that is cut off.
--   OpenApi and below: the published definitions of
--     pkg/generated/openapi/zz_generated.openapi.go as data (Schema has their types, Definitions
--     the table, Closed its completeness), without the descriptions.
--   Examples: a concrete library, requests and stores, and the theorems at them.
--
-- Numbers: uint64 counts modulo 2 ^ 64 and int64 is a bit pattern below 2 ^ 64. Theorems about
-- versions assume that the counter of the store has not run over; their statements say so. Loops
-- recurse on the list that they walk, and a handler is a finite tree of calls. One bound is set by
-- hand: FormatUint writes 20 digits at most, which the round trip with ParseUint shows to be enough
-- for every uint64.
--
-- Parameters of the model: the scheme, the generic server, the option groups and the validations of
-- k8s.io, cobra and pflag, and the cryptography, the clock and the PEM encoder of gen-certs.
--
-- Not modelled: pointers outside DeepCopy and Memory, which have them for Tasks; elsewhere an object is
-- a value. ObjectMeta is a value everywhere, so that two Tasks which share its labels map cannot be
-- told from two which do not; and BeforeUpdate, which also fills a missing creation time in on the
-- old object, leaves the copy that updateOnStore has got as it is. filepath.Join does not clean the
-- path that gen-certs is given. Metadata that the program neither reads nor writes is left out, as
-- are names generated from GenerateName, tables, and the codecs. The writers of the command, the log
-- lines of gen-certs, Kind of register.go, the descriptions of the OpenAPI definitions and the
-- harness of the integration tests (test/integration) have no counterpart.
pub mod Prelude
pub mod Kube
pub mod Api
pub mod Store
pub mod Rest
pub mod Strategy
pub mod StatusStrategy
pub mod Handler
pub mod Registry
pub mod Examples
pub mod OpenApi
pub mod Server
pub mod ApiServer
pub mod Command
pub mod DeepCopy
pub mod Memory
pub mod GenCerts
