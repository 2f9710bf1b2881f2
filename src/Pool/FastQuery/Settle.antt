-- ===== src/Pool/FastQuery/Settle.antt =====
-- When the promise of a FastQuery is settled (src/pool/fast-query.ts).
use prisma_pglite_bridge.Prelude.{
  ◌+◌, ◌≡◌, refl, ◌∙◌, inl, inr, Bool, true, false, Option, none, some, List, [], ◌∷◌, ◌++◌, length,
  length-append, Result, ok, err, Option-cases, Result-cases, if◌then◌else◌, All, arith,
}
use prisma_pglite_bridge.Duplex.CopyIn.{Text}
use prisma_pglite_bridge.Utils.Maps.{get, put}
use prisma_pglite_bridge.Pool.FastQuery.{
  FastQuery, Message, Fault, settle, settle_first, handle, handle_all, handle_row_description,
  handle_data_row, handle_command_complete, handle_portal_suspended, handle_error,
  handle_ready_for_query, parse_row, resolve_parsers, command_tag, submit, submit_bound, with_tag,
  with_counts, row_description, data_row, command_complete, empty_query, portal_suspended,
  copy_in_response, copy_data, ready_for_query, error, apply_fields, push_row, finish, or_fault,
  note_no_data,
}

-- ReadyForQuery and a fatal error settle; nothing else does.
abbrev pub settles : Message → Bool
settles ready_for_query = true
settles (error fault) = true
settles _ = false

module _ {V : Type 0} where
  -- Nothing of the promise has been touched, or it has been settled once.
  abbrev IsSingle : FastQuery V → Type 0
  IsSingle q = length q.settlements ≡ (if q.settled then 1 else 0)

  -- `settled` and the promise, as a step leaves them.
  abbrev pub Keeps : FastQuery V → FastQuery V → Type 0
  Keeps q r = (r.settled ≡ q.settled) × (r.settlements ≡ q.settlements)

  apply_fields-Keeps :
      (q : FastQuery V) (fields : List _) (r : Result Fault _) (b : Option Fault)
      → Keeps q (apply_fields q fields r b)
  apply_fields-Keeps q fields (ok ps) b = (refl, refl)
  apply_fields-Keeps q fields (err f) b = (refl, refl)

  push_row-Keeps : (q : FastQuery V) (r : Result Fault _) → Keeps q (push_row q r)
  push_row-Keeps q (ok row) = (refl, refl)
  push_row-Keeps q (err f) = (refl, refl)

  handle_data_row-Keeps : (q : FastQuery V) (cells : List _) → Keeps q (handle_data_row q cells)
  unfolding handle_data_row
  handle_data_row-Keeps q cells = ground (arith, push_row-Keeps q (parse_row q.parsers cells))

  with_counts-Keeps : (q : FastQuery V) (a b : Option Text) → Keeps q (with_counts q a b)
  with_counts-Keeps q none none = (refl, refl)
  with_counts-Keeps q none (some b) = (refl, refl)
  with_counts-Keeps q (some a) none = (refl, refl)
  with_counts-Keeps q (some a) (some b) = (refl, refl)

  with_tag-Keeps : (q : FastQuery V) (t : Option _) → Keeps q (with_tag q t)
  with_tag-Keeps q none = (refl, refl)
  with_tag-Keeps q (some t) =
      with_counts-Keeps (record q { command = some t.word }) t.second t.third

  settle_first-settled : (q : FastQuery V) (f : Option Fault) → (settle_first q f).settled ≡ true
  settle_first-settled q none = refl
  settle_first-settled q (some f) = refl

  settle-settled : (q : FastQuery V) (f : Option Fault) → (settle q f).settled ≡ true
  unfolding settle
  settle-settled q f = ground (arith, settle_first-settled q f)

  settle-Keeps : (q : FastQuery V) (f : Option Fault) → q.settled ≡ true → Keeps q (settle q f)
  unfolding settle
  settle-Keeps q f h = ground arith

  length-settle_first :
      (q : FastQuery V) (f : Option Fault)
      → length (settle_first q f).settlements ≡ length q.settlements + 1
  length-settle_first q none = length-append q.settlements _
  length-settle_first q (some f) = length-append q.settlements _

  IsSingle-settle : (q : FastQuery V) (f : Option Fault) → IsSingle q → IsSingle (settle q f)
  unfolding settle
  IsSingle-settle q f h = ground (arith, length-settle_first q f, settle_first-settled q f)

  note_no_data-Keeps : (q : FastQuery V) → Keeps q (note_no_data q)
  note_no_data-Keeps q = ground arith

  pub handle_silent : (q : FastQuery V) (m : Message) → settles m ≡ false → Keeps q (handle q m).0
  unfolding handle handle_row_description handle_data_row handle_command_complete
      handle_portal_suspended
  handle_silent q (row_description fields) h =
      apply_fields-Keeps
        (record q { fields_received = true; fields_cache = put q.name fields q.fields_cache })
        fields (resolve_parsers q.types fields) q.buffered_error
  handle_silent q (data_row cells) h = handle_data_row-Keeps q cells
  handle_silent q (command_complete text) h = with_tag-Keeps q (command_tag text)
  handle_silent q empty_query h = (refl, refl)
  handle_silent q portal_suspended h = (refl, refl)
  handle_silent q copy_in_response h = (refl, refl)
  handle_silent q copy_data h = (refl, refl)
  handle_silent q ready_for_query h = cc
  handle_silent q (error fault) h = cc

  finish-settled : (q : FastQuery V) (f : Option Fault) → (finish q f).settled ≡ true
  finish-settled q (some f) = settle-settled q (some f)
  finish-settled q none = settle-settled (note_no_data q) none

  finish-Keeps : (q : FastQuery V) (f : Option Fault) → q.settled ≡ true → Keeps q (finish q f)
  finish-Keeps q (some f) h = settle-Keeps q (some f) h
  finish-Keeps q none h =
      let k = note_no_data-Keeps q in
      let s = settle-Keeps (note_no_data q) none (k.0 ∙ h) in (s.0 ∙ k.0, s.1 ∙ k.1)

  length-finish :
      (q : FastQuery V) (f : Option Fault)
      → q.settled ≡ false
      → length (finish q f).settlements ≡ length q.settlements + 1
  unfolding settle
  length-finish q (some f) h = rw h (length-settle_first q (some f))
  length-finish q none h =
      let k = note_no_data-Keeps q in
      let first = length-settle_first (note_no_data q) none in ground (arith, first, k)

  pub handle-settled :
      (q : FastQuery V) (m : Message) → settles m ≡ true → (handle q m).0.settled ≡ true
  unfolding handle handle_error handle_ready_for_query
  handle-settled q ready_for_query h = finish-settled q q.buffered_error
  handle-settled q (error fault) h = settle-settled q (some (or_fault q.buffered_error fault))
  handle-settled q (row_description fields) h = cc
  handle-settled q (data_row cells) h = cc
  handle-settled q (command_complete text) h = cc
  handle-settled q empty_query h = cc
  handle-settled q portal_suspended h = cc
  handle-settled q copy_in_response h = cc
  handle-settled q copy_data h = cc

  handle-Keeps : (q : FastQuery V) (m : Message) → q.settled ≡ true → Keeps q (handle q m).0
  unfolding handle handle_error handle_ready_for_query
  handle-Keeps q ready_for_query h = finish-Keeps q q.buffered_error h
  handle-Keeps q (error fault) h = settle-Keeps q (some (or_fault q.buffered_error fault)) h
  handle-Keeps q (row_description fields) h = handle_silent q (row_description fields) refl
  handle-Keeps q (data_row cells) h = handle_silent q (data_row cells) refl
  handle-Keeps q (command_complete text) h = handle_silent q (command_complete text) refl
  handle-Keeps q empty_query h = handle_silent q empty_query refl
  handle-Keeps q portal_suspended h = handle_silent q portal_suspended refl
  handle-Keeps q copy_in_response h = handle_silent q copy_in_response refl
  handle-Keeps q copy_data h = handle_silent q copy_data refl

  pub handle_all-Keeps :
      (q : FastQuery V) (ms : List Message) → q.settled ≡ true → Keeps q (handle_all q ms)
  unfolding handle_all
  handle_all-Keeps q [] h = (refl, refl)
  handle_all-Keeps q (m ∷ ms) h =
      let k = handle-Keeps q m h in
      let r = handle_all-Keeps (handle q m).0 ms (k.0 ∙ h) in (r.0 ∙ k.0, r.1 ∙ k.1)

  pub handle_all_silent :
      (q : FastQuery V) (ms : List Message)
      → All (λ m. settles m ≡ false) ms
      → Keeps q (handle_all q ms)
  unfolding handle_all
  handle_all_silent q [] h = (refl, refl)
  handle_all_silent q (m ∷ ms) h =
      let k = handle_silent q m h.0 in
      let r = handle_all_silent (handle q m).0 ms h.1 in (r.0 ∙ k.0, r.1 ∙ k.1)

  pub handle_all-append :
      (q : FastQuery V) (ms ns : List Message)
      → handle_all q (ms ++ ns) ≡ handle_all (handle_all q ms) ns
  unfolding handle_all
  handle_all-append q [] ns = refl
  handle_all-append q (m ∷ ms) ns = handle_all-append (handle q m).0 ms ns

  submit_bound-Keeps :
      (q : FastQuery V) (binding : Result Fault _) → Keeps q (submit_bound q binding).0
  submit_bound-Keeps q (err f) = (refl, refl)
  submit_bound-Keeps q (ok values) = elim (Option-cases (get q.name q.fields_cache)) [
    | inl n ↦ rw n (refl, refl)
    | inr (fields, e) ↦ elim (Result-cases (resolve_parsers q.types fields)) [
      | inl (ps, r) ↦ rw e (rw r (refl, refl))
      | inr (f, r) ↦ rw e (rw r (refl, refl))
    ]
  ]

  pub submit-Keeps :
      (q : FastQuery V) (previous : Option Text) (binding : Result Fault _)
      → Keeps q (submit q previous binding).0
  unfolding submit
  submit-Keeps q previous binding = ground (arith, submit_bound-Keeps q binding)

  pub length-handle :
      (q : FastQuery V) (m : Message)
      → q.settled ≡ false
      → settles m ≡ true
      → length (handle q m).0.settlements ≡ length q.settlements + 1
  unfolding handle handle_error handle_ready_for_query settle
  length-handle q ready_for_query u h = length-finish q q.buffered_error u
  length-handle q (error fault) u h =
      rw u (length-settle_first q (some (or_fault q.buffered_error fault)))
  length-handle q (row_description fields) u h = cc
  length-handle q (data_row cells) u h = cc
  length-handle q (command_complete text) u h = cc
  length-handle q empty_query u h = cc
  length-handle q portal_suspended u h = cc
  length-handle q copy_in_response u h = cc
  length-handle q copy_data u h = cc
