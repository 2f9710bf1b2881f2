-- ===== src/Lib.antt =====
-- A verification library for prisma-pglite-bridge, the bridge that gives Prisma a PostgreSQL
-- connection to an in-process PGlite.
--
-- The program. node-postgres writes wire-protocol bytes into a duplex stream
-- (src/duplex/index.ts). The duplex collects them (src/duplex/frontend-buffer.ts), cuts them into
-- messages, gathers extended-query messages up to a Sync or a Flush and a COPY FROM STDIN up to
-- its terminator (src/duplex/copy-in.ts finds it), waits for its turn on the one PGlite session
-- (src/utils/session-lock.ts), makes one call of PGlite, and pushes the answer to the client
-- through a framer (src/duplex/backend-framer.ts) that holds spurious ReadyForQuery messages back
-- and widens catalog columns (src/duplex/row-description.ts). The pool runs named statements over
-- pg's connection (src/pool/fast-query.ts), drops what it knows of them where a command
-- deallocates them (src/pool/deallocate.ts), and names repeated statements
-- (src/utils/statement-names.ts). The pool, the schema tools, the snapshots, the TCP server and
-- the testing helpers stand on this core.
--
-- The files.
--   Prelude            library names, lists over native numbers, Boolean tests, results
--   Duplex/Bytes       byte sequences, big-endian words, subarray
--   Duplex/Constants   src/duplex/constants.ts
--   Duplex/FrontendBuffer   src/duplex/frontend-buffer.ts: push, clear, readUInt32BE (read_u32_be),
--     consume, compactChunks; Valid, Consume and Read are about each call and the waiting bytes,
--     Refine about the whole class and a plain byte sequence
--   Duplex/RowDescription   src/duplex/row-description.ts: rowDescriptionNeedsRewrite and
--     rewriteRowDescriptionInPlace; Gate and Rewrite relate the two, Fields
--     is about a frame as a list of columns
--   Duplex/BackendFramer   src/duplex/backend-framer.ts: the fields of BackendMessageFramer as the
--     record Framer, a callback as an Event, `write` as a loop over a Cursor with its fast path
--     (whole_message) and its slow one (begin_message, header_bytes, rfq_bytes, payload_bytes).
--     Steps reads the stream byte by byte (feed), which is the reference that Write sets `write`
--     against, with Invariant, Parts, Payload, Message, Progress and Start on the way to it;
--     Response says what a client is to be shown of a list of messages, Relay is about the client
--     and a whole response, Total about the rounds of the loop
--   Duplex/CopyIn      src/duplex/copy-in.ts: the scanner as rounds over a Place, the tokenizer and
--     the verdict; Outline describes a text by its pieces; Scan, Regions and Strip are about the
--     scanner on such a text
--   Duplex/PgliteDuplex   src/duplex/index.ts: the state of PGliteDuplex as the record Duplex, and as
--     the record Host what it is connected to. Protocol is one call (streamProtocol and what is
--     around it), Messages the framing and the dispatch (processPreStartup, processMessages,
--     flushPipeline, the copy capture, Terminate, rollback), Lifecycle the drain loop, _write,
--     _final, _destroy and the recovery of a portal. Calls, Kept, Frames and Guard are about
--     what may reach PGlite, View and Answer about what the client is shown of an answer
--   Utils/StatementNames   src/utils/statement-names.ts: the generator with its maps as lists of entries in
--     the order of insertion, the oldest first; Names is about what a name stands for, Bounds about
--     the sizes
--   Pool/Deallocate    src/pool/deallocate.ts: the decoder on suffixes of the text; Grammar is the grammar
--     in its comment as a family of types, Scan and Targets are about the scans, Sound and Complete
--     about the decoder and the grammar
--   Pool/FastArrayParsers   src/pool/fast-array-parsers.ts: which parser a type gets, Choice about
--     the array types of PostgreSQL
--   Pool/FastQuery     src/pool/fast-query.ts: the object with the map that it shares as the record
--     FastQuery, a message of the connection as a Message; Settle and Once are about the promise,
--     Rows, Plain and Warm about what it resolves to and what submit sends
--   Pool/QueryTrail    src/pool/query-trail.ts: the recorder as a record, an entry with an identity that
--     its handle shares; Preview is what an entry keeps of a query, Bounds about the ring, Runs about
--     any use of the recorder
--   Telemetry/BridgeStats   src/telemetry/bridge-stats.ts: the counters and the list of durations as a
--     record, with the size of the window as a parameter; Rank is about the percentiles, Window about
--     any calls and a snapshot
--   Schema/Migrations  src/schema/migrations.ts: Files is the directory and the choice of a source, History
--     the rows and validateHistory, the module itself the run over a Host; Valid, LineEnds and Plain are about
--     the checks,
--     Loop and Names about a run, Again and Second about a run after it, Failed about a failed script
--   Utils/Maps         Maps from texts, in the order of insertion
--   Utils/SessionLock   src/utils/session-lock.ts: the lock as its owner and its queue, a settled
--     promise as an Event; Claims, Fifo and Revoke are about who is served and when
-- Each Tests module runs the definitions on concrete bytes and applies the theorems to them.
--
-- What is a parameter. PGlite, the other duplexes, UTF-8 decoding and lower case are fields of
-- Host. So are the file system, SHA-256, the clock and randomUUID fields or arguments in
-- Schema/Migrations, and pg's connection and the types of a query in Pool/FastQuery, and the
-- parser of array literals in Pool/FastArrayParsers. No migration script is taken to write to
-- _prisma_migrations. The theorems assume nothing of them but what they name: in Answer that
-- PGlite is ready and answers with well-formed messages (IsWell: a length within the cap, a row
-- description that counts its fields), in Guard that a property of PGlite is kept by the calls
-- that IsCall allows.
--
-- Bounds and fuel. `write` has two rounds of fuel for each byte and two more: a round moves on by
-- a byte or closes a message that has been read. `consume` has a round for each byte it takes,
-- and each takes one at least. The scanner has a round for each character, and a round reads one
-- at least. The message loop and the drain loop have one round for each waiting byte and one
-- more. A byte is a number that the framer does not bound; lengths are compared with the caps of
-- the code.
--
-- What is not modelled. Promises and callbacks of Node streams: an asynchronous method runs to
-- its end, so that what arrives while it waits (a teardown during a call, a second recovery) is
-- left out. Clocks, diagnostics channels and warnings. Of the pool, the creation of clients and
-- their statement bookkeeping (src/pool/index.ts, src/pool/pg-bridge-client.ts), the text of a
-- trail (src/pool/query-trail-format.ts). The bridge and its snapshots (src/pglite-bridge), the
-- server (src/pglite-server), the calls of the schema engine and the rewriting of NOT NULL
-- (src/schema/index.ts, src/schema/pg18-not-null.ts), the testing helpers (src/testing) and the
-- benchmarks.
pub mod Duplex
pub mod Pool
pub mod Prelude
pub mod Schema
pub mod Telemetry
pub mod Utils
