-- ===== src/Lib.antt =====
-- infiniband_exporter: a Prometheus exporter for InfiniBand fabrics. On each scrape it runs
-- `ibnetdiscover` to learn the switches and the HCAs of the fabric (or takes a cached answer),
-- then `perfquery` for each device, at most `--perfquery.max-concurrent` at a time, and turns what
-- the tools print into metrics.
--
-- The files, each with the code that it models:
--
-- Exec, Device: the ends of the external processes, as collectors/perfquery.go and
-- collectors/ibnetdiscover.go read them behind `runWithProcessGroup` (collectors/exec.go), and the
-- structs of the devices.
-- Perfquery/Counters, Perfquery/Parse: `PerfQueryCounters`, `initializeCounters` and
-- `perfqueryParse` of collectors/perfquery.go. Perfquery/Parse/Report describes the reports that
-- `perfquery` prints; Printing, Lines and RoundTrip lead to the theorem on them.
-- Perfquery/Retry, Perfquery/Command: `perfqueryWithRetry`, `perfqueryArgs`, `perfquery`. The
-- retry loop runs on fuel, one round more than `--perfquery.retries`; Perfquery/Retry/Laws shows
-- that the loop then settles.
-- Metrics, Metrics/PortCounters: descriptors and metrics, and collectors/port_counters.go.
-- Pool: the goroutines of `collect` in collectors/switch.go and collectors/hca.go: a channel
-- `limit` and a wait group around one goroutine for each device, as a step relation. A goroutine
-- is the list of the steps that others can see: additions to atomic counters, and writes under the
-- lock.
-- Collect/Worker, Collect/Events, Collect/Runs: the body of these goroutines, what their steps do
-- to the shared state, and the runs of `collect`. The two collectors have the same body but for
-- the names of their counters.
-- Switch, Hca, Collect/Closing: `NewSwitchCollector`, `NewHCACollector` and `Collect` of
-- collectors/switch.go and collectors/hca.go.
-- Discover/Names, Rate, Items, Sort, Parse: `ibnetdiscoverParse` of collectors/ibnetdiscover.go
-- and its helpers; its result is a topology, an error or a panic.
-- Discover/Cache: `GetPorts`, `collect` and `Collect` of the ibnetdiscover collector, its
-- process-wide cache and totals, its command line.
-- Discover/Cache/Concurrent: calls of `GetPorts` at the same time, as requests to `/metrics` make
-- them.
-- Metrics/Described: the descriptors that a collector describes, against the metrics that it
-- sends.
-- Ibswinfo: collectors/ibswinfo.go: Uptime and Full for `parse_ibswinfo`, Vitals for
-- `parseIbswinfoVitals`, Cache for the static cache, Worker for `collect` and its goroutines,
-- Collector for the descriptors and `Collect`. Full/Report and Vitals/Report describe the outputs
-- that the tool prints; the other files below Full and Vitals lead to the theorems on them.
-- Pool/Interchange: when the order of the steps of a pool does not matter, for the two kinds of
-- goroutines.
-- Exporter: infiniband_exporter.go: Setup for `setupGathers`, Textfile for `writeMetrics` over a
-- file system (a record of operations with the documented properties that the code relies on), Web
-- for `metricsHandler` and the other handlers, Run for `run` and `main`.
-- Tests: concrete inputs on which the theorems are applied.
-- Prelude, Text, Dict, Float: what the parts share. Text has the functions of `strings` that the
-- code calls, on lists of code points. Dict is Go's map. Float is an interface.
--
-- Parameters. The operations on float64 are those of a record with the few laws that the proofs
-- use (Float); the order in which `range` visits a map is any permutation of its keys, one for
-- each list of keys (Dict.RangeOrder); the answers of `perfquery` are a function of the query and
-- the attempt, those of `ibnetdiscover` an input of each scrape; the clock is an input. The file
-- system and `promhttp` are records of operations (Exporter/Textfile, Exporter/Web); what the
-- switch, the HCA and the ibswinfo collector keep between requests is the state of `promhttp`,
-- since it is there that they collect. A Go int that counts retries is a natural number, the flags
-- are integers, the atomic counters wrap around at 2 ^ 64.
--
-- Not modelled: logging, help texts, the sleep between retries, the process group of a child, the
-- wire format of HTTP and of the metrics, the command line parser, a negative limit of goroutines,
-- at which `make` panics, the registry of client_golang and its checks beyond the names; nor
-- `ReadFixture`, which reads the files of the tests.
pub mod Prelude
pub mod Text
pub mod Dict
pub mod Float
pub mod Device
pub mod Exec
pub mod Perfquery
pub mod Metrics
pub mod Pool
pub mod Collect
pub mod Switch
pub mod Hca
pub mod Discover
pub mod Ibswinfo
pub mod Exporter
pub mod Tests
