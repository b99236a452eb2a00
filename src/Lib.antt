-- ===== src/Lib.antt =====
-- LynxDNS is a DNS forwarder for routers: it answers a query from its cache, or sends it to a group
-- of upstream servers that its rules and geographic lists choose. This library models the parts of
-- the core program (lynxdns-core/internal) that decide what it does:
--
-- - Common: Boolean tests and lists over the native numbers, byte strings with the functions of
--   package strings that the program uses, and association lists for its maps.
-- - Upstream: internal/upstream. Upstream/Breaker is breaker.go: `Breaker` with NewBreaker,
--   AllowRequest, RecordSuccess, RecordFailure, trip and Snapshot, under the mutex; `allow_seen` is
--   AllowRequest with the state that its first, unlocked load saw, and Upstream/Breaker/Trace has
--   the interleavings of those operations. Upstream/Stats is stats.go.
-- - Rules: internal/rules/rules.go, `Engine` and `Rule` with all their methods. A `*Rule` that the
--   engine shares is a record in its list, since every change goes through the engine.
--   `regexp.Compile` is a parameter. Add is `add_begin`, what it does before the lock, then
--   `add_commit`; with Update and LoadFromConfig it stands in Rules/Change.
-- - Dns: the part of package github.com/miekg/dns that the program uses, as an interface record
--   that the other parts take, with the laws that they rely on; Dns/Sample is an instance.
-- - Cache: internal/cache/cache.go. The doubly linked list is a list of elements, each with a
--   reference, and the map leads from a key to a reference. Cache/Refine has the specification, one
--   list of entries in order of use, that Get, Set and Delete are proved to implement.
-- - Resolver: internal/resolver/resolver.go. Resolver/State has its data and the interfaces
--   `Upstreams`, of the client, and `Geo`, of the geographic lists; Resolver/Resolve is Resolve with
--   resolveWithRules, cut at the points where that goes from one kind of decision to the next, and
--   Resolver/Forward has the branches that it ends in; Resolver/Lookup is Lookup and the set-up of
--   the upstreams; Resolver/Journal is emitLog and the history; Resolver/Names and Resolver/Replies
--   are its pure functions.
-- - Client: internal/client/client.go. Client/Query has the map from an address to its configuration,
--   statistics and breaker, and the queries; the network and the libraries are the record `Net`.
--   Client/Address and Client/Base64 are its pure functions.
-- - Geodata: internal/geodata/geodata.go. Geodata/Manager has the matchers, their statuses, the
--   progress and the history, and `geo`, which fills the resolver's interface; Geodata/Text has the
--   parsers of the text forms; Geodata/Wire has the varints and the two readers of protobuf fields,
--   each a turn and a loop over turns, and Geodata/Protobuf the lists that are made of them;
--   Geodata/Address is net.IP.String; Geodata/Load is the loading of the files. A map to bool is an
--   association list with Boolean values.
-- - Server: internal/server/server.go, and of cmd/lynxdns/main.go the calls that the start, the
--   restarts and the end make of it. Server/Limit is the length of a reply over UDP, over the length
--   and Truncate of the dns library (`Sizes`); Server/Cycle is which sequences of Start and Stop end
--   in a panic. Listeners are what they are made with, since ListenAndServe is the library's.
-- - Updater: internal/updater/updater.go. Updater/Download is downloadWithProgress over a `World` of
--   the manager of the lists and the files; Updater/Failover is updateWithFailover, cut after the
--   download and after the loading, over the sources' `Attempt`s; Updater/Schedule is the
--   configuration, the schedule and the updates of the three lists; Updater/Messages has the texts.
--   `Loader` (Updater/Failover/Turn) is what the updater relies on of a function that loads a list,
--   and Updater/Failover/Loaders fills it with the three of Geodata/Load. `View`
--   (Updater/Failover/View) is a part of the manager that only the loading changes; Updater/Served
--   follows the list of sites from its source through the load to the rules' test.
-- - Log: internal/log/log.go. Log/Ansi is stripANSI, Log/Rotate the file that rotates, Log/Logger the
--   logger; its goroutine takes a line in one step and writes it in another, between which other
--   calls may come. The slice of the subscribers is kept with its array, which a slice that the
--   goroutine has read shares.
-- - Config: internal/config/config.go, the configuration, its defaults and its file.
-- - Main: cmd/lynxdns/main.go, the time zone that init reads.
--
-- Strings are lists of bytes, time is a number of nanoseconds, and counters do not wrap: a 64-bit
-- counter of events takes centuries to. The lengths of protobuf fields and the numbers of a time
-- zone do wrap, and int has 64 bits there, as on the 64-bit builds: on a 32-bit build the readers
-- of protobuf fields differ for lengths from 2^31 on. Floating-point results (the hit rate, the
-- percentiles' rank and the average) are kept as the numbers that they are computed from, or are
-- parameters; the speed of a download is rounded down. Errors that the code ignores when it
-- closes or removes a temporary file are left out.
--
-- Loops are recursive over the list that they range over, and need no fuel, but for these: the
-- digits of a number, where the number itself is enough; the size and the bytes of a varint, where
-- nine rounds before the last are enough for 64 bits; the readers of protobuf fields, where the
-- length of the data is enough, since a turn moves on by a byte (Geodata/Wire/Loops); and the turns
-- that Close waits for, one more than the lines in the queue.
--
-- What is outside of the sources, or of the program, is an argument: the answers of the network and
-- of the file system, random bytes, the packages yaml, cron, dns and regexp. A file's bytes come with
-- the capacity of their slice beyond its length, which one of the readers of fields may reach.
--
-- Not modelled: HTTP handlers (internal/api), flags and signals and the other calls of start-up
-- in cmd/lynxdns/main.go, sockets, and the LuCI application. Of the cache, Entries, a page of the
-- list for the web interface; of the resolver, the texts of a log line. A negative concurrency in
-- the configuration, which makes the client panic, is modelled in Client/Query and left out in
-- the resolver, where the concurrency is a natural number.
pub mod Common
pub mod Upstream
pub mod Rules
pub mod Dns
pub mod Cache
pub mod Resolver
pub mod Client
pub mod Geodata
pub mod Updater
pub mod Log
pub mod Config
pub mod Main
pub mod Server
