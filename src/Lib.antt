-- ===== src/Lib.antt =====
-- datapm: package files, their comparison, upgrade and publication.
--
-- A package file describes a data package: its sources and the schemas of its records. The library
-- in lib/src compares two package files, rates the differences, computes the next version number and
-- upgrades files of older schema versions. The registry in backend/src uses all of these when a
-- package file is uploaded, and keeps what one request has loaded in a session cache. The client
-- library streams records through transforms.
--
-- Common: Boolean tests, `Result` (what a call returns or throws), lists, and lists with unique keys.
--
-- PackageFile (lib/src/PackageFile-v0.32.1.ts): `PackageFile` and its parts. PackageFile.PropertyTree
-- has the property trees, PackageFile.Json the values of the language that an old package file is.
--
-- Compare (lib/src/PackageUtil.ts): Compare.Difference has `diffCompatibility` (`diff_compatibility`) and
-- the enumerations; Compare.Schemas has `compareSchemas`, `compareSchema` and `compareProperties`, whose
-- loop over the new properties is the mutual block of `compare_objects`; Compare.Sources has
-- `compareSources`, `compareSource`, `compareStream`, `compareArrays`, `compareConfigObjects` and
-- `comparePackages`. `fast-deep-equal` is the parameter `DeepEqual`. The loops push to one array and stop
-- at a throw, as `for_each` does. Compare.Compatible, Severity, Unchanged, Reported and Additions have
-- the proofs.
--
-- Upgrade (lib/src/PackageUtil.ts, `upgradePackageFile`): Upgrade.Objects has reading, writing and loops on
-- objects of unknown shape, with the TypeErrors of the language; Early, Middle, ValueTypes and Late
-- have one function for each step of the chain, named for the version it starts from; Chain puts them
-- in order. Steps change objects in place: a function here returns the changed object, and where two
-- members share one object after the step from 0.5.0, a flag says so until the shared member has
-- been changed. `Number.parseFloat` and `Number.parseInt` are parameters. Upgrade.Reads, Documents and
-- Sources have the proofs.
--
-- Registry (backend/src/business/CreateVersion.ts): Registry.Versions has `createOrUpdateVersion` as a
-- transaction: its effects in order, or the error that rolls it back, given what the repositories and
-- the storage answer (`Answers`). `semver` is the parameter `SemVerPackage`. The cast of JSON to a package
-- file is the parameter `as_package_file`. Registry.Accepted has the proofs.
--
-- Registry, permissions (backend/src/directive): Registry.Records has the permissions, the entities' members
-- that decide and what the database answers (`Records`); Registry.Permissions the permissions of a user on a
-- package, with `getCatalogPackagePermissionsFromCacheOrDb` of
-- backend/src/resolvers/UserCatalogPermissionResolver.ts; Registry.Calls the monad of calls and the loads of
-- entities and of the permissions on catalogs, collections and groups (backend/src/resolvers). All loads go
-- through the session cache, which Calls holds as one session for each kind of value: the prefixes of
-- the keys tell the kinds apart. Registry.Directives.Package, Catalog, Collection and Group have the
-- directives with their proofs: a directive takes the resolver of a field as a call and gives back the
-- guarded call. Slugs has what they share, Registry.Granted the lemmas on lists of permissions.
--
-- SessionCache (backend/src/session-cache.ts): Keys has the keys, Store the map of promises and
-- `loadDataAsync`, Loads the operations by kind, Kept the proofs. A promise is given by what it settles
-- with, and the function that makes one changes a world, so that a call of it can be told.
--
-- Combine (client-lib/src/util/SchemaUtil.ts): `combineSchemas` and what it calls. Combine.Values has the
-- functions on single members, Labels content labels, string options and sample records, Trees
-- properties and value types, Schemas whole schemas. An order of numbers is the parameter `NumberOrder`.
-- Combine.Covers, Kept, Samples and Bounds have the proofs.
--
-- Deconflict (client-lib/src/util/SchemaUtil.ts): properties that were seen with several value types.
-- Choices has `getDeconflictChoices`, Conflicts `checkSchemaDataTypeConflicts`, Updates
-- `updateSchemaWithDeconflictOptions`, which changes the schema in place and keeps what it has changed
-- when it throws. Values has `discoverValueType` and `convertValueByValueType` on the values of records, Casts
-- `resolveConflict`, Records the transform that applies it to a stream, Sanitized the transform that
-- takes out hidden properties. The language's numbers, dates and
-- texts, `moment` and `is-number` are the parameter `Language`. What arrays and objects hold is a
-- parameter type. Resolved, Settled, CastTypes, Uncast and Deconflicted have the proofs.
--
-- Stats (client-lib/src/transforms/StatsTransform.ts): Updates has `updateValueTypeStats`, Types
-- `inspectValue` for values other than arrays and objects, whose statistics objects are members of the
-- value types; Options, Counts and Lost have the proofs. `stringOptions` is a plain object of the
-- language: the names of members that it inherits from `Object.prototype` are found in it. Text lengths and parts are the parameter `Measures`.
--
-- Mutex (client-lib/src/util/Mutex.ts): Mutex.Chain has the chain of promises that `lock` builds, with a
-- link for each call of `dispatch`, and the events that change it; Turns and Finish have the proofs.
--
-- Transforms (client-lib/src/transforms): ByteOffset is ByteCountOffsetTransform.ts, Batching is
-- BatchingTransform.ts, LineOffset is LineCountOffsetTransform.ts, RecordOffset is
-- RecordCountOffsetTransform.ts, ByteBatching is ByteBatchingTransform.ts. Chunks has the lemmas on lists,
-- Lines and Separated the proofs about lines and about batches of bytes. Node's stream machinery is given
-- by the sequence of chunks and timer events; a chunk of bytes is a list of natural numbers. The start
-- offset of -1 that RecordOffset is given when there is none acts as 0.
--
-- Groups (backend/src/resolvers/GroupResolver.ts): Groups.Rows has the tables of groups, members and the activity
-- log, `findGroup`, `ensureOtherManagers` and `addOrUpdateUserToGroup` of
-- backend/src/repository/GroupUserRepository.ts; Calls the calls of one transaction, which write after all that
-- can throw; Batch `addOrUpdateUserToGroup`, whose inner transactions are on another connection of the
-- database: they see and change what is committed, and wait for rows that the outer one has written. This is
-- what PostgreSQL does at its default level, READ COMMITTED. What the repository of users answers comes
-- with each of the `userPermissions`. Managed, Kept, Batched and Unmanaged have the proofs.
--
-- Fetch (client-lib/src/util/StreamToSinkUtil.ts, client-lib/src/util/SchemaUtil.ts): Fetch.Tables has objects read
-- by key, State the sink's state (lib/src/SinkState.ts) and the writes of
-- client-lib/src/util/transforms/SinkStateWritable.ts, Available `newRecordsAvailable` and what the handler of
-- `finish` commits, Switch `schemaSwitchingWritable`, Streams `moveToNextStream` of `streamRecords` and
-- client-lib/src/transforms/RecordStreamContextTransform.ts, Resume the transform that leaves out records
-- the sink has: the state it reads is the object that the writes change, so arrivals and writes are
-- events on one state. Offsets, Committed, Switched, Opened and Resumed have the proofs. A stream of the
-- sink, and how a stream of the source opens at each call, are parameters; offsets are natural numbers.
--
-- Tests: runs of the definitions, and each theorem applied at a concrete input.
--
-- Bounds: recursion is on the data that the program recurses on, with three exceptions. The loop of
-- `_flush` in Transforms.Batching has as many rounds as the buffer has items; for a size above 0
-- each round removes one item at least. The loop of `_transform` in Transforms.LineOffset has one round
-- more than the buffer has bytes; each round but the last removes a byte at least. The loop of
-- `combineSampleRecords` in Combine.Labels has as many rounds as the two lists together have records.
--
-- Keys: objects that are read by a name, other than `stringOptions`, are taken to be read by names that are
-- not inherited from `Object.prototype`.
--
-- Not modelled: parsing and validation of JSON text, files and dates of `massagePackageFile`, the
-- database, the other GraphQL resolvers behind the directives, e-mails, connectors, tasks, sockets, the command line
-- and the web front end; in client-lib/src/util/StreamToSinkUtil.ts progress, prompts and the signal handler; in
-- client-lib/src/util/SchemaUtil.ts the wiring and the waits of `streamRecords`, `inspectSourceConnection`,
-- `printSchema` and `discoverValueTypeFromString`; in StatsTransform.ts nested values and content labels. They
-- are I/O around third-party packages or regular expressions, or are left for later.
pub mod Common
pub mod PackageFile
pub mod Compare
pub mod Upgrade
pub mod SessionCache
pub mod Registry
pub mod Transforms
pub mod Tests
pub mod Combine
pub mod Deconflict
pub mod Mutex
pub mod Fetch
pub mod Groups
pub mod Stats
