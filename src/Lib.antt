-- ===== src/Lib.antt =====
-- clusterplex: one Plex server run as several pods. This library models the parts of it that
-- decide who does what, and states what makes them right.
--
-- The parts, by file (Go paths from the repository's root):
-- - Prelude, Dict, Sorted: what the others share. Go's strings are lists of bytes, its maps
--   association lists in an order that stands for any order of iteration.
-- - Hashring: pkg/hashring. Every pod builds a ring over the pods' names and asks it who owns a key;
--   `new_ring` is New, `locate` is Locate. Set has what New keeps, Build its loops, Stable what a
--   leaving member moves.
-- - Maintenance: pkg/maintenance. A CronJob's task is planned over the ring and dispatched; `plan`
--   and `run` are Fanout's methods, Table is the table of tasks.
-- - Slots: pkg/video/worker/slots.go, the conversions that a GPU pod runs at once.
-- - Scheduler: pkg/clustarrwatch/scheduler.go. Changes of clustarr's objects enqueue scans and
--   refreshes; `flush` sends those that are due, while more may be enqueued.
-- - Lease: the Kubernetes Leases. Elector is pkg/lease (which pod talks to plex.tv), Blocks is
--   pkg/plex/livetv/leases.go (who registers a Live TV block), Route is pkg/plex/route (where traffic
--   goes, an annotation of the same Lease). Each call reads the Lease and plans a write, a `Plan` or
--   a change. System has steps in which calls of any pods interleave, over the API server, which is
--   the interface `Server`: a write of a version that is not the current one is refused. Exclusion
--   takes what the calls, which are in Client, have in common from Lawful. Count is
--   pkg/video/lease, the pool's count of conversions, each manager's in an annotation of its own;
--   Counting relates what Renew writes to what Count reads.
-- - Grabs: pkg/plex/livetv/stalegrabs.go, `pass` over what Plex answers in a pass.
-- - Dispatch: pkg/remoteexec/dispatcher.go with RewriteArgs, and IsConversion of pkg/video, which
--   decide where a job that Plex starts runs.
-- - Segments: pkg/video/segment.go and the lister of pkg/video/relay/list.go, the segment list that
--   a relayed conversion posts to Plex.
-- - Relay: progress.go, throttle.go and placements.go of pkg/video/relay, what a relayed conversion
--   reports to Plex and how Plex's throttle holds it.
-- - Health: plexHealth of cmd/manager/elect.go.
-- - Video: pkg/video's Parse, which reads the job that a pool is to run from the arguments of Plex's
--   transcoder: filter.go in Filter, and of parse.go the tables in Options, the loop in Scan, the
--   outputs in Outputs, Streams, Burn and Numbers, the muxer in Muxer, and Parse itself in Parse. A refusal is
--   a constructor of `Refusal` for each of the code's messages. Dispatched relates Parse to
--   IsConversion, by which the dispatcher chooses the pool.
-- - Cache: pkg/remux/cache, the segments that a remux worker keeps on its disk. What the file system
--   does in a call (an append that fails after some bytes, a save that fails) is an argument of the
--   call, so that Kept covers every way the calls and restarts of the worker can go.
-- - Splitter: pkg/remux/fmp4.go, which cuts a muxer's output into an init and fragments; Chunks is
--   about the writes that the output comes in.
--
-- Bounds and fuel. Loops are structural recursions over what the code ranges over. The digits of
-- `itoa` are computed with the number itself as fuel, which is above the count of its digits, and
-- the publisher's retries with the number of attempts that client-go allows, a parameter. CRC-32 is
-- 32 bits wide and the dispatcher's counter 64, wrapped as in Go. Job ids of the slots, whose
-- counter has 64 bits, and times, whose range Go bounds, are unbounded numbers here. Durations that
-- a configuration may give as zero or negative are integers. A label of a filter graph is followed
-- for one round more than there are chains, as in the code, which Video/Loop and Rounds are about. The parser's
-- floats (strconv, float64's arithmetic) and url.Parse are interfaces, its ints 64 bits wide where a
-- text is read and where bitRate multiplies.
--
-- Not modelled: the Kubernetes, Plex and gRPC clients (arguments or interfaces here), contexts and
-- deadlines, logging, metrics, and the packages that are processes, sockets, SQL or libavcodec calls.
pub mod Prelude
pub mod Dict
pub mod Sorted
pub mod Hashring
pub mod Maintenance
pub mod Slots
pub mod Scheduler
pub mod Lease
pub mod Grabs
pub mod Dispatch
pub mod Segments
pub mod Relay
pub mod Health
pub mod Cache
pub mod Splitter
pub mod Video
