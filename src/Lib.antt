-- ===== src/Lib.antt =====
-- IceHive collects items from external systems and stores them. Collectors
-- (services/collector-*) read a source and publish entities on a RabbitMQ topic exchange,
-- persisters (services/persister-*) consume them into a database or files, and the controller
-- (services/controller) keeps the configuration and shows what goes on. All of them reach the
-- exchange through services/common/pkg/amqpctl.
--
-- What is modelled where:
--   Prelude, Text, Dict, Sorting  shared: tests on numbers, results, lists, integers; strings as lists of
--                           bytes with what the sources use of Go's strings; maps as lists
--   Amqp                    services/common/pkg/amqpctl. Names: config.go. Broker: the library
--                           amqp091 as an interface with its documented laws. Client: client.go, the
--                           connection, the channel for publishing, and the retry. Consume: what a
--                           consumer does with each delivery. Client/Owns, Client/Publish and
--                           Consume/Settle hold the proofs.
--   ControllerUrl           services/common/pkg/controllerurl, the base URL and the /api prefix, with the
--                           proofs in Prefix.
--   Bootstrap               services/common/pkg/bootstrap/bootstrap.go, the settings that a worker
--                           fetches when it starts, with the proofs in Ready.
--   Github                  services/collector-github/spec.go, the source_spec of a GitHub source.
--                           Spec/Options, Spec/Sound and Spec/RoundTrip hold the proofs.
--                           IssueCache: issues_cache.go beside it, which issues of a repository are
--                           published, with the proof in IssueCache/Publish; IssueCache/Collect: a whole
--                           run, with the proof in Collect/Again.
--                           IssueList: issues.go, the listing page by page; the proof in
--                           IssueList/Pages. Packages: packages.go, the packages of a namespace, and
--                           in Packages/Repo those of a repository; the proofs in Packages/Loading,
--                           Packages/Listing and Packages/Repo/Capped.
--   Rss                     services/collector-rss/spec.go and rss_spec.go, the source_spec of a feed,
--                           with the proofs in Spec/Sound. Items: feed_items.go, the order of a
--                           feed's items and those that main.go publishes; the proof in
--                           Items/Newest. Entity: entity.go. Run: main.go, the run of a source and
--                           the poll of all, which publish through Amqp/Client; the proofs in
--                           Run/Publishing, Run/Reports and Run/Poll, what they state in
--                           Run/Outcome.
--   Controller/Activity     services/controller/internal/activity/ring.go, the ring of recent
--                           events. Slots, View, Ids, Throttle and Runs hold the proofs.
--   Controller/Db           services/controller/internal/db, the controller's tables. Meta: meta.go, the
--                           settings and the heartbeats. Sources: collection_sources.go. Schemas:
--                           source_schemas.go. Migrations: migrate.go, with the proof in
--                           Migrations/Order. Inversion and Sources/Steps take an action apart;
--                           Sources/Saving, Sources/Deleting, Sources/Runs and Meta/Sorting
--                           hold the proofs.
--   Controller/Health       services/controller/internal/healthmetrics/refresher.go, which sources are
--                           stale, with the proofs in Stale.
--   Controller/Server       services/controller/main.go and source_schema_handle.go, the handlers of the
--                           requests (Config, Sources) and of the consumed messages (Messages), and the
--                           loops that open the database and the broker (Opening). The handlers call
--                           Controller/Db, Amqp/Client, Controller/Activity and Controller/Health.
--                           Steps takes a handler apart; Config/Shown, Sources/Sent, Sources/Enqueue
--                           and Sources/Report hold the proofs.
--   Worker                  services/common/pkg/collector/run.go and services/common/pkg/persist/run.go,
--                           how a worker gets its settings and its connection. Retry: the loop that
--                           these and the controller's have in common. The proof is in Starts.
--   Collector               services/collector-rss/main.go, which sources a poll runs (collector-github and
--                           collector-jmap have the same functions); Due follows a report through
--                           the controller back to the collector.
--   Jmap                    services/collector-jmap/spec.go, the source_spec of a mailbox, with the
--                           proof in Named. Api: jmap_client.go, a call and its answer. Threads: the
--                           threads of a mailbox; the proofs in Threads/Order, Best, Digest
--                           and Listed. Entity: entity.go.
--   SourceSchema            services/common/pkg/sourceschema/schema.go, the documents that collectors
--                           announce; Agree compares one with the parser in Github/Spec.
--   PersisterMysql          services/persister-mysql/main.go. Names: the names of tables and
--                           columns. Sql: the statements, their text, the database as an interface.
--                           Table: the table of an entity type and the upsert of an entity, with the
--                           proofs in Table/Columns.
--   PersisterYaml           services/persister-yaml/store.go, an entity as a YAML file: its name, with
--                           the proof in Inside, and its write, with the proof in Whole. GitSync:
--                           git_commit.go beside it, the commit of new files and the push.
--
-- The correspondence. Functions keep their names, in small letters with underscores; a method takes
-- its receiver and returns it changed, next to its result. A Go function with several early returns
-- after calls of an interface is a chain of functions, one for each call (connect_dialed,
-- connect_opened and connect_declared are connectLocked); a comment above each names its source. A
-- section that a mutex guards runs as one step. A `(value, error)` is a Result, or an outcome with
-- the state behind the call where an error leaves one. The clock is an argument. A Go int or int64
-- is an unbounded integer (times are far from the bounds); the uint64 counter of ring.go keeps its
-- wrap-around.
--
-- The database. A function of services/controller/internal/db is an action on the tables, the clock of
-- the server and a list of faults, which says for each call of the driver whether it fails, with
-- which text, and whether the server has run the statement all the same; behind the end of the list
-- calls succeed. A
-- statement is written as what MySQL does: an INSERT on a duplicate key updates the columns that it
-- names, an UPDATE that changes no column affects no row (the driver is opened without
-- clientFoundRows) and does not move updated_at. How the server compares texts is a parameter, and so
-- is the text that a JSON column gives back. A handler is an action on the server's state, which
-- holds the database, the broker's client and the ring. Other parameters are the broker's library,
-- the cron parser, float64, the JSON library, the feed parser, go-github, golang-migrate and the git
-- command.
--
-- Bounds: four things run on fuel. The printing of a number has one more than the number itself, which
-- is at least its count of digits. The listing of issues has one unit for each page, which is enough
-- when the pages that the API answers with come to an end. The listing of packages has one unit for
-- each page of a type, and 101 are enough for any namespace without an empty page before another. The loops
-- that try until they succeed are given a number of rounds: they end by themselves only when an
-- attempt succeeds or the context is done, and the number is enough when that happens within it. All
-- other loops are structural.
--
-- What is not modelled: text beyond ASCII (Unicode spaces, cases and normalisation; a byte above 127
-- is a byte like any other), logging and metrics, a nil *Ring (each of its methods returns at once), a nil
-- *sql.DB, the errors of reading a row,
-- the generated protocol code, HTTP and the MCP server, the frontend, the JMAP session document, the
-- run of a GitHub or a JMAP source (what a run of a feed does with its entities stands for them), and
-- the services not named above. The outer loop of a consumer, which waits and calls the inner one again, is not modelled
-- but for the part that renews the connection.
pub mod Prelude
pub mod Text
pub mod Dict
pub mod Sorting
pub mod Amqp
pub mod Github
pub mod Controller
pub mod PersisterMysql
pub mod ControllerUrl
pub mod Bootstrap
pub mod PersisterYaml
pub mod Rss
pub mod Worker
pub mod Collector
pub mod Jmap
pub mod SourceSchema
