-- ===== src/Lib.antt =====
-- newhatch is a live-traffic analyzer. A collector (crates/collector) captures packets, parses and
-- classifies them by the sources that are monitored; a wire protocol (crates/protocol) carries
-- them to the analyzer (crates/analyzer), whose workers reassemble the TCP streams, cut HTTP
-- messages out of them, pair requests with responses, and store the sessions in segment files.
--
-- The files and the code that they model:
--
-- - Common: names shared by all: Boolean tests, lists over the native numbers, Rust's Result and
--   `?`, signed integers, byte orders, a map with ascending keys (BTreeMap), UTF-8 text and its
--   trimming.
-- - Wire: crates/protocol/src/lib.rs. Wire/Messages has the types, Wire/Convert the conversions
--   between packets and messages, Wire/Frame read_frame and write_frame over a buffer that fails
--   after a number of bytes, and whose flush may fail. The protobuf library is a parameter: an
--   encoder and a decoder.
-- - Packet: crates/collector/src/packet.rs, parse_ip_tcp and classify. An index or slice out of
--   bounds is an outcome of its own.
-- - Storage/Record: crates/analyzer/src/storage/record.rs, append_record and read_record over
--   the bytes of a file; the checksum is a parameter.
-- - Domain: crates/analyzer/src/domain.rs, completed sessions, and their protocols and flag
--   directions with their names and numbers.
-- - Flow: crates/analyzer/src/flow.rs. Flow/Sequence has the arithmetic of sequence numbers,
--   Flow/Assembler the TcpAssembler (push, seed, fin), Flow/Stream the StreamAssembler, Flow/Probe
--   the Probe, Flow/Shard worker_index. Flow/State, Flow/Consume and Flow/Ingest have the
--   FlowState (new, is_new_connection, expired, consume, ingest, finish), Flow/Worker the
--   FlowWorker with StorageHandle::try_store; Flow/Consumed, Flow/Hidden, Flow/Renewal and the
--   modules below Flow/Worker are about them. The regular expression for flags, the instants and
--   the channel to the writer are parameters.
-- - Protocol: crates/analyzer/src/protocol.rs, classify. Protocol/Heads says what counts as a
--   head, without the code's reading of it; Protocol/Raw is about sessions without one.
-- - Http: crates/analyzer/src/http_sessions.rs. Http/Chunk has the framing of bodies,
--   Http/Framing the heads (with for_each_header of crates/analyzer/src/protocol.rs), Http/Decoder
--   the Decoder with feed, take and finish, Http/Sessions and Http/Feed the HttpSessions,
--   Http/Bounded, Http/Pairing and Http/Paired are about what it holds back and pairs. The library
--   httparse is a parameter, a record of its results.
-- - Payload: crates/analyzer/src/payload_text.rs and payload_search.rs. Payload/Percent and
--   Payload/Escapes decode text, Payload/Json and Payload/Display make the text that is shown of a
--   payload, Payload/Search has PayloadSearch. The library serde_json, and the text of a number,
--   are parameters. Common/Lossy has String::from_utf8_lossy.
-- - Rules: crates/analyzer/src/attack_rules.rs. Rules has the types, CompiledRule::new and
--   step_matches, Rules/Matching MatchState and find. The library of regular expressions and the
--   hash of a rule are parameters.
-- - Auth: crates/analyzer/src/auth.rs. Auth has the configuration and the layers before each
--   request, Auth/Store the BoundedStore; Auth/Expiration says what the texts of a configuration
--   stand for, and Auth/Passing is about the layers and the configuration; the password hash,
--   header values, URIs and the session's contents are parameters. Common/SortedMap has the maps.
-- - Collector: crates/analyzer/src/collector.rs. Collector has the registry,
--   Collector/Connection handle_connection over a list of events; the socket, the catalog, the
--   channels and the times are parameters.
-- - Tests: runs on concrete inputs, and the theorems at such inputs.
--
-- A packet takes this way: Packet makes it a ClassifiedPacket, Wire carries it, Flow/Shard chooses
-- the worker, Flow/Assembler puts its bytes in order and hands out slices, Flow/Stream keeps them
-- and Flow/Probe looks for a head (in the order that Flow/Consume and Flow/Ingest give), Http cuts
-- the messages, and Storage/Record stores what became a session.
--
-- A struct is a record with the source's fields, an enum a data type with its constructors, and a
-- method that changes `self` is a function from the old state to the new one and the result.
-- Exceptions are named at the definitions: a callback's calls are returned as a list, and so are
-- the exchanges that a call makes ready. Unsigned integers are natural numbers with the
-- wrap-around, the saturation or the range written out; `usize` has 64 bits.
--
-- Loops run on fuel where they are not structural. TcpAssembler and StreamAssembler remove a
-- waiting chunk in each round, so that the number of chunks is enough. Decoder::feed uses a byte
-- in each round or ends, but for a chunk of no data; it is given twice the number of bytes and two
-- more rounds, and what it would return where these run out is a parameter of the loop. The loops
-- of HttpSessions give a message's bytes to the decoder, which takes one at least, or end; the
-- loop over the buffered responses takes one out in each round. The decoding of escapes runs for
-- as many rounds as there are bytes. BoundedStore::create draws ids from a list; 1023 distinct
-- draws are enough.
--
-- Not modelled: the start of the workers' tasks, the log, rotation of segments, chains, the
-- catalog (SQL), the origins of a payload's displayed characters, the extraction of events for
-- attack rules and their highlights, the listener for collectors, transport, capture, the login
-- handler, the API and the frontend. The capacity of vectors and logging are left out everywhere.
pub mod Common
pub mod Wire
pub mod Packet
pub mod Storage
pub mod Flow
pub mod Domain
pub mod Http
pub mod Rules
pub mod Payload
pub mod Protocol
pub mod Auth
pub mod Collector
mod Tests
