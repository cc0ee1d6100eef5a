-- ===== src/Video.antt =====
-- pkg/video's Parse: the job that Plex's arguments ask for. Strings has what it uses of Go's strings
-- and strconv, Job the result and the refusals, Filter the filter graph; Options, Scan, Numbers, Burn,
-- Outputs, Streams, Muxer and Parse are parse.go in its order. The other modules are about these.
pub mod Tied
pub mod Cut
pub mod Ready
pub mod Streams
pub mod Strings
pub mod Job
pub mod Filter
pub mod Decimals
pub mod Loop
pub mod Rounds
pub mod Options
pub mod Scan
pub mod Numbers
pub mod Burn
pub mod Outputs
pub mod Muxer
pub mod Parse
pub mod Recorded
pub mod Encodes
pub mod Converts
pub mod Conversion
pub mod Encoded
pub mod Accepted
pub mod Dispatched
pub mod Playable
pub mod WellFormed
pub mod Muxed
pub mod Tests
