-- ===== src/Pool/QueryTrail/Tests.antt =====
-- Runs of src/pool/query-trail.ts with room for two entries.
use prisma_pglite_bridge.Prelude.{◌≡◌, refl, none, some, List, [], ◌∷◌, arith}
use prisma_pglite_bridge.Duplex.CopyIn.{Text}
use prisma_pglite_bridge.Pool.QueryTrail.Preview.{
  null, bytes, other, preview_param, decimal_loop, derive_kind, strip_noise, strip_leading_noise,
  skip_line_comment, skip_block_comment, rollback_to, cap_sql, preview_error,
}
use prisma_pglite_bridge.Pool.QueryTrail.{
  QueryTrailOptions, new_recorder, begin, settle, settle_ring, clear, register_client, push,
  disable, render_values, Ending,
}
use prisma_pglite_bridge.Pool.QueryTrail.Bounds.{IsTrail, seqs}
use prisma_pglite_bridge.Pool.QueryTrail.Runs.{
  Op, register, begin_query, settle_query, step, run, overflows, dropping_periods, run-IsTrail,
  settle-settle,
}

abbrev upper : Text → Text
upper cs = cs

abbrev two : QueryTrailOptions
two = record { max_entries = some 2; max_param_chars = none; redact_params = none }

abbrev done : Ending
done = record { row_count = some 1; error = none }

-- Three queries, then one with a value that cannot be read.
abbrev ops : List Op
ops =
    register
    ∷ begin_query 10 0 (0x41 ∷ []) (some (null ∷ bytes 12 ∷ []))
    ∷ begin_query 20 0 (0x42 ∷ []) none
    ∷ settle_query (some 1) 90 done
    ∷ begin_query 30 0 (0x43 ∷ []) none
    ∷ begin_query 40 0 (0x44 ∷ []) (some (other none ∷ []))
    ∷ begin_query 50 0 (0x45 ∷ []) none
    ∷ []

trail : seqs (run upper (new_recorder two 5) ops).ring ≡ 2 ∷ 3 ∷ []
unfolding run step new_recorder register_client begin settle settle_ring clear push disable
    render_values preview_param decimal_loop derive_kind strip_noise strip_leading_noise cap_sql
    preview_error
trail = refl

-- `<bytes:12>`, and `/*x*/--y` and a line end before `ROLLBACK TO`.
previews :
    (preview_param (bytes 12) 3
      ≡ some (0x3c ∷ 0x62 ∷ 0x79 ∷ 0x74 ∷ 0x65 ∷ 0x73 ∷ 0x3a ∷ 0x31 ∷ 0x32 ∷ 0x3e ∷ []))
    × (derive_kind upper (
          0x2f ∷ 0x2a ∷ 0x78 ∷ 0x2a ∷ 0x2f ∷ 0x2d ∷ 0x2d ∷ 0x79 ∷ 0x0a ∷ 0x52 ∷ 0x4f ∷ 0x4c ∷ 0x4c
          ∷ 0x42 ∷ 0x41 ∷ 0x43 ∷ 0x4b ∷ 0x20 ∷ 0x54 ∷ 0x4f ∷ [])
        ≡ rollback_to)
unfolding preview_param decimal_loop derive_kind strip_noise strip_leading_noise skip_line_comment
    skip_block_comment
previews = (refl, refl)

run-IsTrail_example :
    IsTrail (run upper (new_recorder two 5) ops)
    × (overflows (run upper (new_recorder two 5) ops).stderr
        ≡ dropping_periods upper (new_recorder two 5) ops)
unfolding new_recorder
run-IsTrail_example = run-IsTrail upper two 5 ops (omega arith)

settle-settle_example :
    let r = run upper (new_recorder two 5) ops in
    let s = settle r (some 2) 70 done in
    (settle s (some 2) 80 (record { row_count = none; error = none }) ≡ s)
    × (seqs s.ring ≡ seqs r.ring)
    × (s.dropped_count ≡ r.dropped_count)
    × (s.next_seq ≡ r.next_seq)
settle-settle_example =
    settle-settle (run upper (new_recorder two 5) ops) (some 2) 70 80 done
      (record { row_count = none; error = none })
