-- ===== src/Duplex/FrontendBuffer.antt =====
-- src/duplex/frontend-buffer.ts: the class FrontendMessageBuffer.
-- Lengths and offsets are not negative here, so that the guards against negative ones are gone.
-- A byte array that is allocated and then filled from its start is the list of what was written.
pub mod Valid
pub mod Consume
pub mod Read
pub mod Refine
mod Tests
use prisma_pglite_bridge.Prelude.{
  ℕ, zero, suc, ◌+◌, ◌-◌, ◌*◌, min, ltb, leb, ◌==◌, if◌then◌else◌, true, false, ◌&&◌, Option, none,
  some, List, [], ◌∷◌, ◌++◌, length, get_elem?, take, drop, Result, ok, err,
}
use prisma_pglite_bridge.Duplex.Bytes.{Bytes, byte_at, u32_at, subarray}

pub record FrontendMessageBuffer : Type 0 where
  pub chunks : List Bytes
  pub head_index : ℕ
  pub head_offset : ℕ
  pub total_length : ℕ

pub data BufferError : Type 0 where
  cannot_consume : ℕ → ℕ → BufferError
  underflow out_of_fuel : BufferError

unfoldable pub empty_buffer : FrontendMessageBuffer
empty_buffer = record { chunks = []; head_index = 0; head_offset = 0; total_length = 0 }

unfoldable pub push : FrontendMessageBuffer → Bytes → FrontendMessageBuffer
push b chunk =
    if length chunk == 0
    then b
    else record b { chunks = b.chunks ++ chunk ∷ []; total_length = b.total_length + length chunk }

pub clear : FrontendMessageBuffer → FrontendMessageBuffer
clear b = record { chunks = []; head_index = 0; head_offset = 0; total_length = 0 }

-- The loop over the chunks from the head on; the length of `bytes` is `writeOffset`.
pub gather : List Bytes → ℕ → Bytes → Bytes
gather [] remaining bytes = bytes
gather (chunk ∷ chunks) remaining bytes =
    let skipped = leb (length chunk) remaining in
    let copied = min (4 - length bytes) (length chunk - remaining) in
    let rest =
      gather chunks (if skipped then remaining - length chunk else 0)
        (if skipped then bytes else bytes ++ subarray chunk remaining (remaining + copied)) in
    if ltb (length bytes) 4 then rest else bytes

pub read_u32_be : FrontendMessageBuffer → ℕ → Option ℕ
unfolding gather
read_u32_be b offset =
    let start = b.head_offset + offset in
    let across = some (u32_at (gather (drop b.head_index b.chunks) start []) 0) in
    if ltb b.total_length (offset + 4) then none else elim (get_elem? b.chunks b.head_index) [
      | none ↦ across
      | some head ↦ if leb (start + 4) (length head) then some (u32_at head start) else across
    ]

pub compact_chunks : FrontendMessageBuffer → FrontendMessageBuffer
compact_chunks b =
    if b.head_index == length b.chunks
    then record b { chunks = []; head_index = 0 }
    else if leb 32 b.head_index && leb (length b.chunks) (b.head_index * 2)
    then record b { chunks = drop b.head_index b.chunks; head_index = 0 }
    else b

-- The head `chunk` gives up `n` bytes.
pub advance : FrontendMessageBuffer → Bytes → ℕ → FrontendMessageBuffer
unfolding compact_chunks
advance b chunk n =
    let head_offset = b.head_offset + n in
    let total_length = b.total_length - n in
    if head_offset == length chunk
    then compact_chunks
        (record b { head_index = b.head_index + 1; head_offset = 0; total_length = total_length })
    else record b { head_offset = head_offset; total_length = total_length }

-- `while (remaining > 0)`, with fuel.
pub consume_loop :
    ℕ → FrontendMessageBuffer → ℕ → Bytes → Result BufferError (Bytes × FrontendMessageBuffer)
unfolding advance
consume_loop zero b remaining result = if ltb 0 remaining then err out_of_fuel else ok (result, b)
consume_loop (suc fuel) b remaining result = elim (ltb 0 remaining) [
  | false ↦ ok (result, b)
  | true ↦ elim (get_elem? b.chunks b.head_index) [
    | none ↦ err underflow
    | some chunk ↦
        let n = min remaining (length chunk - b.head_offset) in
        consume_loop fuel (advance b chunk n) (remaining - n)
          (result ++ subarray chunk b.head_offset (b.head_offset + n))
  ]
]

pub consume : FrontendMessageBuffer → ℕ → Result BufferError (Bytes × FrontendMessageBuffer)
unfolding consume_loop advance
consume b n =
    let across = consume_loop n b n [] in
    if ltb b.total_length n
    then err (cannot_consume n b.total_length)
    else if n == 0
    then ok ([], b)
    else elim (get_elem? b.chunks b.head_index) [
      | none ↦ across
      | some head ↦
          if leb n (length head - b.head_offset)
          then ok (subarray head b.head_offset (b.head_offset + n), advance b head n)
          else across
    ]
