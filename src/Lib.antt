-- ===== src/Lib.antt =====
-- The core of the system agent: what it keeps in memory and how its state changes. The agent runs on
-- a host, collects performance data, is configured by a management service, and keeps an inventory of
-- resources that it sends upstream.
--
-- The parts, and the files that model them:
--
-- - RingBuffer: pkg/ringbuffer/ringbuffer.go. A ring buffer as its slice, head and size. RingBuffer.Valid
--   and RingBuffer.Window hold its invariant and its view as the last elements that were pushed.
-- - Metrics.Router: internal/metrics/router.go. Consumers register and get every event. Metrics.Buffer
--   and Metrics.Consumer: internal/metrics/consumers/otel/buffer.go and consumer.go. A consumer puts
--   events into a bounded buffer, in two steps, since `HandleEvent` locks the buffer once for its length
--   and once for the push; its loop drains the buffer in batches, on a notification or a tick. The
--   function that exports one event is a parameter.
-- - Kernel: pkg/kernel/version.go. CpuList: pkg/cpu/cpulist.go. Delta: pkg/performance/delta.go.
--   Versions and lists of processors are parsed from text; counters become deltas.
-- - Config: internal/config. Config.Types is types.go; Config.Parser is parser.go, where protobuf and the
--   registry of collectors are the record `Env`; Config.Subscriptions is subscription.go.
--   Config.TtlHeap is the heap of ams.go (`ttlHeap`) with the functions of container/heap that call its
--   methods; Config.Ams is the cache of ams.go with `processConfig` and one tick of
--   `manageConfigLifecyle`, which takes the heap's lock (`pop_expired`) and then the cache's
--   (`drop_expired`) with no step of another goroutine between; Config.Ams.Stream is what `recvMessages`, `ack` and `sendInitialRequest` make
--   of a response. A response is parsed, its configurations go into the cache if their versions are not
--   older, their times to live go into the heap, subscribers hear of them, and the reply names the errors.
--   Config.Fs is fs.go: the loader of files, with the file system and the decoders as arguments.
-- - Store: internal/resource/store/store.go and encode.go. Store.Key builds the keys, Store.Index the
--   values of the indexes, Store.Subscriber the filters and the event router, Store.Resources,
--   Store.Relationships and Store.Deletion the operations. badger is the interface Store.Database, with
--   its laws as the record `IsBadger`; protobuf and the hash are the record `Codec`.
-- - Intake: internal/intake/worker.go. The worker batches what the store's subscription brings and
--   sends the batches from a queue of client-go, the interface `Queue` with the laws `IsQueue`. The steps
--   of its goroutines are `Action`, and a schedule is a list of them. Intake.Conservation counts the deltas
--   on their way, Intake.Drain the batches that wait or are handed out, Intake.Bounds the deltas of a batch.
-- - Performance: pkg/performance and internal/perf/manager/manager.go. Performance.Collector is
--   collector.go, the wrappers that make a collector of points a continuous one; `Start` and its goroutine
--   are split where the other may step between. Performance.Capabilities is
--   pkg/performance/capabilities, Performance.Registry is registry.go, Performance.CollectionConfig the
--   configuration in types.go. Performance.Manager is the manager that starts a collector from the
--   registry for a configuration that a loader of Config sends, and stops it when that expires.
--   Performance.Network and Performance.System are network.go and system.go of
--   pkg/performance/collectors, which use Delta for their differences; a file under /proc is what a
--   scanner reads of it, with the scanner's error. Performance.Network.Reading is what a line gives,
--   Performance.Network.Listing what the file gives,
--   Performance.System.Stale a collector behind a gap.
-- - Containers: pkg/containers/discovery.go. Containers.Names reads IDs and runtimes from the names of
--   cgroups, Containers.Discovery scans a tree of directories for them.
-- - Prelude: lists, signed integers, texts as lists of bytes, Go maps as association lists, results with
--   errors, and computations that may panic.
--
-- Conventions. A method takes the state and returns the new one. A step of a goroutine is what it does
-- under its lock; an interleaving is a sequence of such steps. A channel is the list of what was sent on
-- it. The order of a Go map is that of the association list. An instant and a duration are integers.
-- An index out of range is `none`, or the failure `panicked` in the store. Machine words wrap where the
-- code relies on it (Delta).
--
-- Bounds. `up` of the heap has one round more than the index where it begins, and `down` as many as
-- there are nodes; the theorems on the heap say that a heap comes out, so they are enough. Batches have
-- one round for each event. The search in an index has one round more than there are keys, as the
-- interval shrinks; the splitting of an index has one for each byte. The other functions recurse on
-- their lists and trees.
--
-- Not modelled: connections and their retries, logging, the exporters of metrics, the collectors but
-- those of networks and of system activity, the metadata of containers, the discovery of hardware, the
-- Kubernetes agent and the merger of channels. Most are input and output, or copy data into messages;
-- the other collectors parse files under /proc as the two that are modelled. Errors of the watcher of
-- files, and directories that cannot be read, are not modelled.
pub mod Prelude
pub mod RingBuffer
pub mod Metrics
pub mod Performance
pub mod Kernel
pub mod CpuList
pub mod Delta
pub mod Config
pub mod Store
pub mod Intake
pub mod Containers
