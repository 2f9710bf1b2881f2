-- ===== src/Duplex/FrontendBuffer/Refine.antt =====
-- src/duplex/frontend-buffer.ts: the whole class against a plain sequence of bytes.
use prisma_pglite_bridge.Prelude.{
  ℕ, ◌+◌, ltb, if◌then◌else◌, ◌≡◌, refl, ap, ◌∙◌, List, [], ◌∷◌, ◌++◌, length, take, drop, Option,
  none, some, Result, ok, err, inl, inr, lt→ltb, le→ltb,
}
use prisma_pglite_bridge.Duplex.Bytes.{Bytes, u32_at}
use prisma_pglite_bridge.Duplex.FrontendBuffer.{
  FrontendMessageBuffer, BufferError, cannot_consume, empty_buffer, push, clear, consume,
  read_u32_be,
}
use prisma_pglite_bridge.Duplex.FrontendBuffer.Valid.{
  IsValid, bytes, empty_buffer-IsValid, push_lem, clear_lem,
}
use prisma_pglite_bridge.Duplex.FrontendBuffer.Consume.{consume_lem}
use prisma_pglite_bridge.Duplex.FrontendBuffer.Read.{read_u32_be_lem}

-- A call of the buffer.
pub data Request : Type 0 where
  pushes : Bytes → Request
  consumes reads : ℕ → Request
  clears : Request

-- What the call gives its caller: nothing, bytes, a thrown error or a word.
pub data Answer : Type 0 where
  done : Answer
  taken : Bytes → Answer
  thrown : BufferError → Answer
  word : Option ℕ → Answer

abbrev taken_from :
    FrontendMessageBuffer
    → Result BufferError (Bytes × FrontendMessageBuffer)
    → Answer × FrontendMessageBuffer
taken_from b (ok (out, rest)) = (taken out, rest)
taken_from b (err e) = (thrown e, b)

abbrev pub serve : FrontendMessageBuffer → Request → Answer × FrontendMessageBuffer
serve b (pushes chunk) = (done, push b chunk)
serve b (consumes n) = taken_from b (consume b n)
serve b (reads offset) = (word (read_u32_be b offset), b)
serve b clears = (done, clear b)

-- The same of a byte sequence.
abbrev pub promise : Bytes → Request → Answer × Bytes
promise s (pushes chunk) = (done, s ++ chunk)
promise s (consumes n) =
    if ltb (length s) n
    then (thrown (cannot_consume n (length s)), s)
    else (taken (take n s), drop n s)
promise s (reads offset) =
    (word (if ltb (length s) (offset + 4) then none else some (u32_at s offset)), s)
promise s clears = (done, [])

unfoldable pub serve_all : FrontendMessageBuffer → List Request → List Answer
serve_all b [] = []
serve_all b (r ∷ rs) = (serve b r).0 ∷ serve_all (serve b r).1 rs

unfoldable pub promise_all : Bytes → List Request → List Answer
promise_all s [] = []
promise_all s (r ∷ rs) = (promise s r).0 ∷ promise_all (promise s r).1 rs

serve-promise :
    (b : FrontendMessageBuffer) (r : Request)
    → IsValid b
    → IsValid (serve b r).1
      × ((serve b r).0 ≡ (promise (bytes b) r).0)
      × (bytes (serve b r).1 ≡ (promise (bytes b) r).1)
serve-promise b (pushes chunk) v = ((push_lem b chunk v).0, refl, (push_lem b chunk v).1)
serve-promise b (consumes n) v = elim (consume_lem b n v) [
  | inl (h, (b', e, v', s)) ↦ rw (le→ltb n (length (bytes b)) h) (rw e (v', refl, s))
  | inr (h, e) ↦ rw (lt→ltb (length (bytes b)) n h) (rw e (v, refl, refl))
]
serve-promise b (reads offset) v = elim (read_u32_be_lem b offset v) [
  | inl (h, e) ↦ rw (le→ltb (offset + 4) (length (bytes b)) h) (v, ap word e, refl)
  | inr (h, e) ↦ rw (lt→ltb (length (bytes b)) (offset + 4) h) (v, ap word e, refl)
]
serve-promise b clears v = ((clear_lem b).0, refl, (clear_lem b).1)

serve_all-valid :
    (b : FrontendMessageBuffer) (rs : List Request)
    → IsValid b
    → serve_all b rs ≡ promise_all (bytes b) rs
unfolding serve_all promise_all
serve_all-valid b [] v = refl
serve_all-valid b (r ∷ rs) v =
    let (v', answer, rest) = serve-promise b r v in
    rw (answer, serve_all-valid (serve b r).1 rs v', rest)

-- A new buffer answers every sequence of calls as a plain byte sequence does: chunk boundaries,
-- head offsets and compaction show in no answer, and no call fails but a `consume` of more bytes
-- than wait.
pub serve_all_lem : (rs : List Request) → serve_all empty_buffer rs ≡ promise_all [] rs
serve_all_lem rs =
    serve_all-valid empty_buffer rs empty_buffer-IsValid ∙ unfold empty_buffer in refl
