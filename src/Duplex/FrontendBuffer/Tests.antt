-- ===== src/Duplex/FrontendBuffer/Tests.antt =====
-- Runs of src/duplex/frontend-buffer.ts on a message in two chunks.
use prisma_pglite_bridge.Prelude.{
  ◌+◌, ◌≤◌, ◌<◌, ◌≡◌, refl, some, none, List, [], ◌∷◌, ◌++◌, length, arith, ◌⊎◌, err,
}
use prisma_pglite_bridge.Duplex.Bytes.{u32_at}
use prisma_pglite_bridge.Duplex.FrontendBuffer.{
  FrontendMessageBuffer, cannot_consume, empty_buffer, push, consume, read_u32_be,
}
use prisma_pglite_bridge.Duplex.FrontendBuffer.Valid.{IsValid, bytes, push_lem}
use prisma_pglite_bridge.Duplex.FrontendBuffer.Consume.{Takes, consume_lem}
use prisma_pglite_bridge.Duplex.FrontendBuffer.Read.{read_u32_be_lem}
use prisma_pglite_bridge.Duplex.FrontendBuffer.Refine.{
  Request, pushes, consumes, reads, done, taken, thrown, word, serve_all, promise_all,
  serve_all_lem,
}

-- A Query message of five bytes, with its first byte taken and its header across two chunks.
abbrev waiting : FrontendMessageBuffer
waiting = record {
  chunks = (81 ∷ 0 ∷ 0 ∷ []) ∷ (0 ∷ 5 ∷ 0 ∷ []) ∷ [];
  head_index = 0;
  head_offset = 1;
  total_length = 5;
}

waiting-IsValid : IsValid waiting
waiting-IsValid = record {
  nonempty = (omega arith, (omega arith, tt));
  index = omega arith;
  inside = omega arith;
  counted = refl;
}

push_lem_example :
    IsValid (push waiting (7 ∷ [])) × (bytes (push waiting (7 ∷ [])) ≡ bytes waiting ++ 7 ∷ [])
push_lem_example = push_lem waiting (7 ∷ []) waiting-IsValid

consume_lem_example :
    ((4 ≤ length (bytes waiting)) × Takes waiting 4 [] (consume waiting 4))
    ⊎ ((length (bytes waiting) < 4)
        × (consume waiting 4 ≡ err (cannot_consume 4 (length (bytes waiting)))))
consume_lem_example = consume_lem waiting 4 waiting-IsValid

read_u32_be_lem_example :
    ((0 + 4 ≤ length (bytes waiting)) × (read_u32_be waiting 0 ≡ some (u32_at (bytes waiting) 0)))
    ⊎ ((length (bytes waiting) < 0 + 4) × (read_u32_be waiting 0 ≡ none))
read_u32_be_lem_example = read_u32_be_lem waiting 0 waiting-IsValid

abbrev requests : List Request
requests =
    pushes (81 ∷ 0 ∷ 0 ∷ [])
    ∷ pushes []
    ∷ reads 1
    ∷ pushes (0 ∷ 5 ∷ 0 ∷ [])
    ∷ reads 1
    ∷ consumes 6
    ∷ consumes 1
    ∷ []

promise_requests :
    promise_all [] requests
    ≡ done
      ∷ done
      ∷ word none
      ∷ done
      ∷ word (some 5)
      ∷ taken (81 ∷ 0 ∷ 0 ∷ 0 ∷ 5 ∷ 0 ∷ [])
      ∷ thrown (cannot_consume 1 0)
      ∷ []
unfolding promise_all
promise_requests = refl

serve_all_lem_example : serve_all empty_buffer requests ≡ promise_all [] requests
serve_all_lem_example = serve_all_lem requests
