-- ===== src/Duplex/PgliteDuplex.antt =====
-- src/duplex/index.ts: the class PGliteDuplex, its state, its options and what it is connected to.
-- An asynchronous method is a function here that runs to its end: the drain loop is single-flight
-- and awaits each call, so that a duplex makes one call at a time. What other duplexes do while this
-- one waits for its turn belongs to the host.
pub mod Protocol
pub mod Texts
pub mod Messages
pub mod Lifecycle
pub mod Calls
pub mod Kept
pub mod Frames
pub mod Guard
pub mod View
pub mod Answer
mod Tests
use prisma_pglite_bridge.Prelude.{
  ℕ, ◌+◌, ◌==◌, if◌then◌else◌, Bool, true, false, not, ◌&&◌, Option, none, some, List, [], ◌∷◌,
  ◌++◌, length,
}
use prisma_pglite_bridge.Duplex.Bytes.{Bytes}
use prisma_pglite_bridge.Duplex.FrontendBuffer.{FrontendMessageBuffer, BufferError, empty_buffer}
use prisma_pglite_bridge.Duplex.BackendFramer.{Framer, FramerError, new_framer}
use prisma_pglite_bridge.Utils.SessionLock.{SessionLock}

-- `PGliteDuplexOptions`, and the symbol that names the duplex.
pub record Options : Type 0 where
  pub duplex_id : ℕ
  pub telemetry : Bool
  pub rewrite_system_catalog_char_oids : Bool
  pub protocol_cleanup_needed : Bool
  pub copy_aggregate_cap_bytes : ℕ

-- PGlite, the other duplexes and the language.
pub record Host : Type 1 where
  pub World : Type 0
  pub options : Options
  -- `waitPGliteReady` returns.
  pub is_ready : World → Bool
  -- `execProtocolRawStream`: the chunks it hands to `onRawData`, and whether it throws after them.
  pub exec_protocol_raw_stream : World → Bytes → World × List Bytes × Bool
  -- `execProtocolStream` of a Terminate frame, absent in some versions, and whether it throws.
  pub exec_protocol_stream : Option (World → World × Bool)
  -- `query('ROLLBACK')`, and whether it throws.
  pub query_rollback : World → World × Bool
  -- What happens until the promise of a waiting `acquire` settles.
  pub wait_turn : World → SessionLock → World × SessionLock
  -- `toString('utf8')` and `toLowerCase()`.
  pub decode_utf8 : Bytes → List ℕ
  pub to_lower_case : List ℕ → List ℕ

pub data Phase : Type 0 where
  pre_startup ready terminated : Phase

abbrev pub is_terminated : Phase → Bool
is_terminated terminated = true
is_terminated pre_startup = false
is_terminated ready = false

pub data RfqMode : Type 0 where
  passthrough suppress flush_boundary copy_in : RfqMode

abbrev pub is_flush_boundary : RfqMode → Bool
is_flush_boundary flush_boundary = true
is_flush_boundary passthrough = false
is_flush_boundary suppress = false
is_flush_boundary copy_in = false

-- `push(chunk)` and `push(null)`.
pub data Pushed : Type 0 where
  pushed : Bytes → Pushed
  end_of_stream : Pushed

pub record CopyCapture : Type 0 where
  pub chunks : List Bytes
  pub total : ℕ
  pub discarding : Bool

pub data DuplexError : Type 0 where
  malformed_startup startup_too_long malformed_message message_too_long protocol_violation :
      ℕ → DuplexError
  buffer_error : BufferError → DuplexError
  framer_error : FramerError → DuplexError
  not_ready stream_failed out_of_fuel : DuplexError

-- `out` is what has been pushed to the client, `recorded` what `recordQuery` was told of success.
pub record Duplex (h : Host) : Type 0 where
  pub world : h.World
  pub session_lock : Option SessionLock
  pub input : FrontendMessageBuffer
  pub phase : Phase
  pub torn_down : Bool
  pub pipeline : List Bytes
  pub last_seen_rfq_status : Option ℕ
  pub portal_suspended : Bool
  pub portal_recovery_requested : Bool
  pub rollback_started : Bool
  pub pending_protocol_cleanup_bytes : ℕ
  pub pending_protocol_cleanup_calls : ℕ
  pub protocol_cleanup_unsupported : Bool
  pub framer : Framer
  pub err_seen : Bool
  pub rfq_seen_in_call : Bool
  pub copy_capture : Option CopyCapture
  pub out : List Pushed
  pub recorded : List Bool

-- What an asynchronous method ends with; what it did before it throws stays done.
pub data Flow (h : Host) : Type 0 where
  done : Duplex h → Flow h
  thrown : Duplex h → DuplexError → Flow h

infixl 5 ◌andthen◌
abbrev pub ◌andthen◌ : {h : Host} → Flow h → (Duplex h → Flow h) → Flow h
done d andthen next = next d
thrown d e andthen next = thrown d e

-- The state a method ends in, whether it throws or not.
abbrev pub final : {h : Host} → Flow h → Duplex h
final (done d) = d
final (thrown d e) = d

-- The constructor.
pub new_duplex : (h : Host) → h.World → Option SessionLock → Duplex h
new_duplex h w lock = record {
  world = w;
  session_lock = lock;
  input = empty_buffer;
  phase = pre_startup;
  torn_down = false;
  pipeline = [];
  last_seen_rfq_status = none;
  portal_suspended = false;
  portal_recovery_requested = false;
  rollback_started = false;
  pending_protocol_cleanup_bytes = 0;
  pending_protocol_cleanup_calls = 0;
  protocol_cleanup_unsupported = false;
  framer = new_framer false h.options.rewrite_system_catalog_char_oids;
  err_seen = false;
  rfq_seen_in_call = false;
  copy_capture = none;
  out = [];
  recorded = [];
}
