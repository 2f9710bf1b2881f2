-- ===== src/Duplex/PgliteDuplex/Calls.antt =====
-- src/duplex/index.ts: the messages that may reach PGlite once the client has started.
use prisma_pglite_bridge.Prelude.{
  ℕ, ◌+◌, arith, ◌≤◌, ◌==◌, Bool, true, false, Option, none, some, List, [], ◌∷◌, ◌++◌, length,
  concat, All, ◌≡◌, refl, ◌⊎◌, inl,
}
use prisma_pglite_bridge.Duplex.Bytes.{Bytes, byte_at, u32_at}
use prisma_pglite_bridge.Duplex.Constants.{
  is_eqp_message, sync, flush, terminate, query, copy_data, copy_done, copy_fail,
  max_message_length,
}
use prisma_pglite_bridge.Duplex.CopyIn.{sniff_copy_in, capture, not_copy_in}
use prisma_pglite_bridge.Utils.SessionLock.{SessionLock}
use prisma_pglite_bridge.Duplex.PgliteDuplex.{Host, CopyCapture}
use prisma_pglite_bridge.Duplex.PgliteDuplex.Protocol.{sync_message}
use prisma_pglite_bridge.Duplex.PgliteDuplex.Messages.{query_text}

-- One whole message: its type, and as many bytes as its length word says.
abbrev pub IsFrame : Bytes → Type 0
IsFrame m = (length m ≡ 1 + u32_at m 1) × (4 ≤ u32_at m 1) × (u32_at m 1 ≤ max_message_length)

abbrev pub IsEqp : Bytes → Type 0
IsEqp m = IsFrame m × (is_eqp_message (byte_at m 0) ≡ true)

abbrev pub IsKind : ℕ → Bytes → Type 0
IsKind k m = (byte_at m 0 == k) ≡ true

abbrev pub IsMessage : ℕ → Bytes → Type 0
IsMessage k m = IsFrame m × IsKind k m

module _ (h : Host) where
  -- A Query that would begin a copy from the client.
  abbrev pub IsCopyQuery : Bytes → Type 0
  IsCopyQuery m = IsMessage query m × (sniff_copy_in h.to_lower_case (query_text h m) ≡ capture)

  -- What one call may consist of, in whole messages: extended-query messages up to a Sync or a
  -- Flush; a copy from its Query to its terminator, within the cap; or one other message that begins
  -- no copy and is no Terminate.
  pub data IsCall : Bytes → Type 0 where
    batch :
        (ms : List Bytes) (last : Bytes)
        → All IsEqp ms
        → IsMessage sync last ⊎ IsMessage flush last
        → IsCall (concat (ms ++ last ∷ []))
    copy :
        (q : Bytes) (ds : List Bytes) (last : Bytes)
        → IsCopyQuery q
        → All (IsMessage copy_data) ds
        → IsMessage copy_done last ⊎ IsMessage copy_fail last
        → length (concat (q ∷ (ds ++ last ∷ []))) ≤ h.options.copy_aggregate_cap_bytes
        → IsCall (concat (q ∷ (ds ++ last ∷ [])))
    single :
        (m : Bytes)
        → IsFrame m
        → (byte_at m 0 == terminate) ≡ false
        → is_eqp_message (byte_at m 0) ≡ false
        → (byte_at m 0 == sync) ≡ false
        → (byte_at m 0 == flush) ≡ false
        → (IsKind query m → sniff_copy_in h.to_lower_case (query_text h m) ≡ not_copy_in)
        → IsCall m

  -- A property of PGlite that such calls keep, and all else that the duplex does to it.
  pub record IsInvariant (Inv : h.World → Type 0) : Type 0 where
    pub on_call :
        (w : h.World) (m : Bytes) → IsCall m → Inv w → Inv (h.exec_protocol_raw_stream w m).0
    pub on_cleanup :
        (exec : h.World → h.World × Bool)
        → h.exec_protocol_stream ≡ some exec
        → (w : h.World) → Inv w
        → Inv (exec w).0
    pub on_rollback : (w : h.World) → Inv w → Inv (h.query_rollback w).0
    pub on_turn : (w : h.World) (l : SessionLock) → Inv w → Inv (h.wait_turn w l).0

  -- A capture that can be completed to a call, or that never will be.
  pub data IsCaptured (c : CopyCapture) : Type 0 where
    discarded : c.discarding ≡ true → IsCaptured c
    captured :
        (q : Bytes) (ds : List Bytes)
        → c.chunks ≡ q ∷ ds
        → IsCopyQuery q
        → All (IsMessage copy_data) ds
        → c.total ≡ length (concat c.chunks)
        → c.total ≤ h.options.copy_aggregate_cap_bytes
        → IsCaptured c

  abbrev pub MayCapture : Option CopyCapture → Type 0
  MayCapture none = Unit
  MayCapture (some c) = IsCaptured c

  pub recovery_call : IsCall sync_message
  recovery_call = batch [] sync_message tt (inl ((refl, omega arith, omega arith), refl))
