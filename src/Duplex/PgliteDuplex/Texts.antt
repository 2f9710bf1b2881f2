-- ===== src/Duplex/PgliteDuplex/Texts.antt =====
-- src/duplex/index.ts: the texts of the errors that the duplex answers itself, as bytes.
use prisma_pglite_bridge.Prelude.{ℕ, zero, suc, ◌+◌, ◌/◌, ◌%◌, ltb, true, false, [], ◌∷◌, ◌++◌}
use prisma_pglite_bridge.Duplex.Bytes.{Bytes}

-- The digits of `n`, with fuel: a number has no more digits than its value and one.
digits : ℕ → ℕ → Bytes
digits zero n = []
digits (suc fuel) n = elim (ltb n 10) [
  | true ↦ (48 + n) ∷ []
  | false ↦ digits fuel (n / 10) ++ (48 + n % 10) ∷ []
]

abbrev pub multi_statement_text : Bytes
multi_statement_text =
    67 ∷ 79 ∷ 80 ∷ 89 ∷ 32 ∷ 70 ∷ 82 ∷ 79 ∷ 77 ∷ 32 ∷ 83 ∷ 84 ∷ 68 ∷ 73 ∷ 78 ∷ 32 ∷ 105 ∷ 110 ∷ 32
    ∷ 97 ∷ 32 ∷ 109 ∷ 117 ∷ 108 ∷ 116 ∷ 105 ∷ 45 ∷ 115 ∷ 116 ∷ 97 ∷ 116 ∷ 101 ∷ 109 ∷ 101 ∷ 110
    ∷ 116 ∷ 32 ∷ 115 ∷ 105 ∷ 109 ∷ 112 ∷ 108 ∷ 101 ∷ 32 ∷ 113 ∷ 117 ∷ 101 ∷ 114 ∷ 121 ∷ 32 ∷ 105
    ∷ 115 ∷ 32 ∷ 110 ∷ 111 ∷ 116 ∷ 32 ∷ 115 ∷ 117 ∷ 112 ∷ 112 ∷ 111 ∷ 114 ∷ 116 ∷ 101 ∷ 100 ∷ 32
    ∷ 98 ∷ 121 ∷ 32 ∷ 112 ∷ 114 ∷ 105 ∷ 115 ∷ 109 ∷ 97 ∷ 45 ∷ 112 ∷ 103 ∷ 108 ∷ 105 ∷ 116 ∷ 101 ∷ 45
    ∷ 98 ∷ 114 ∷ 105 ∷ 100 ∷ 103 ∷ 101 ∷ 59 ∷ 32 ∷ 105 ∷ 115 ∷ 115 ∷ 117 ∷ 101 ∷ 32 ∷ 105 ∷ 116 ∷ 32
    ∷ 97 ∷ 115 ∷ 32 ∷ 97 ∷ 32 ∷ 115 ∷ 105 ∷ 110 ∷ 103 ∷ 108 ∷ 101 ∷ 32 ∷ 115 ∷ 116 ∷ 97 ∷ 116 ∷ 101
    ∷ 109 ∷ 101 ∷ 110 ∷ 116 ∷ []

pub cap_exceeded_text : ℕ → Bytes
unfolding digits
cap_exceeded_text cap =
    (67 ∷ 79 ∷ 80 ∷ 89 ∷ 32 ∷ 70 ∷ 82 ∷ 79 ∷ 77 ∷ 32 ∷ 83 ∷ 84 ∷ 68 ∷ 73 ∷ 78 ∷ 32 ∷ 112 ∷ 97 ∷ 121
      ∷ 108 ∷ 111 ∷ 97 ∷ 100 ∷ 32 ∷ 101 ∷ 120 ∷ 99 ∷ 101 ∷ 101 ∷ 100 ∷ 101 ∷ 100 ∷ 32 ∷ 116 ∷ 104
      ∷ 101 ∷ 32 ∷ 97 ∷ 103 ∷ 103 ∷ 114 ∷ 101 ∷ 103 ∷ 97 ∷ 116 ∷ 101 ∷ 32 ∷ 99 ∷ 97 ∷ 112 ∷ 32 ∷ 111
      ∷ 102 ∷ 32 ∷ [])
    ++ (digits (suc cap) cap
        ++ (32 ∷ 98 ∷ 121 ∷ 116 ∷ 101 ∷ 115 ∷ 59 ∷ 32 ∷ 116 ∷ 104 ∷ 101 ∷ 32 ∷ 99 ∷ 111 ∷ 112 ∷ 121
            ∷ 32 ∷ 119 ∷ 97 ∷ 115 ∷ 32 ∷ 110 ∷ 111 ∷ 116 ∷ 32 ∷ 101 ∷ 120 ∷ 101 ∷ 99 ∷ 117 ∷ 116
            ∷ 101 ∷ 100 ∷ []))
