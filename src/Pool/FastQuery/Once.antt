-- ===== src/Pool/FastQuery/Once.antt =====
-- The promise of a FastQuery is settled once, and by the first fault (src/pool/fast-query.ts).
use prisma_pglite_bridge.Prelude.{
  ◌+◌, ◌≡◌, refl, ap, ◌∙◌, true, false, Option, none, some, List, [], ◌∷◌, ◌++◌, length, Result, ok,
  err, All, arith,
}
use prisma_pglite_bridge.Duplex.CopyIn.{Text}
use prisma_pglite_bridge.Utils.Maps.{Map, put}
use prisma_pglite_bridge.Pool.FastQuery.{
  FastQuery, Field, Message, Fault, Settlement, rejected, Types, submit, new_query, settle, handle,
  handle_all, handle_row_description, handle_data_row, handle_command_complete,
  handle_portal_suspended, handle_error, handle_ready_for_query, resolve_parsers, command_tag,
  apply_fields, with_tag, with_counts, row_description, data_row, command_complete, empty_query,
  portal_suspended, copy_in_response, copy_data, ready_for_query, error,
}
use prisma_pglite_bridge.Pool.FastQuery.Settle.{
  settles, handle-settled, handle_all-Keeps, handle_all_silent, submit-Keeps, length-handle,
  handle_all-append,
}

one_element {ℓ} : {A : Type ℓ} (xs : List A) → length xs ≡ 1 → (x : A) × (xs ≡ x ∷ [])
one_element [] h = absurd (omega (arith, h))
one_element (x ∷ []) h = (x, refl)
one_element (x ∷ y ∷ xs) h = absurd (omega (arith, h))

module _ {V : Type 0} where
  -- What follows a settling message adds nothing to it.
  settlements_at :
      (q : FastQuery V) (before after : List Message) (m : Message)
      → settles m ≡ true
      → (handle_all q (before ++ m ∷ after)).settlements
        ≡ (handle (handle_all q before) m).0.settlements
  unfolding handle_all
  settlements_at q before after m h =
      let r = handle_all q before in
      ap (λ (x : FastQuery V). x.settlements) (handle_all-append q before (m ∷ after))
      ∙ (handle_all-Keeps (handle r m).0 after (handle-settled r m h)).1

  -- Whatever submit makes of it and whatever the connection delivers after it: until ReadyForQuery
  -- or a fatal error the promise is untouched, the first of these resolves or rejects it, and
  -- nothing that follows touches it again.
  pub settles_once :
      (name text : Text) (types : Types V) (cache : Map (List Field)) (previous : Option Text)
      (binding : Result Fault (List (Option Text))) (before after : List Message) (m : Message)
      → All (λ k. settles k ≡ false) before
      → settles m ≡ true
      → let q = (submit (new_query name text types cache) previous binding).0 in
        ((handle_all q before).settlements ≡ [])
        × (s : Settlement V) × ((handle_all q (before ++ m ∷ [])).settlements ≡ s ∷ [])
        × ((handle_all q (before ++ m ∷ after)).settlements ≡ s ∷ [])
  unfolding new_query
  settles_once name text types cache previous binding before after m silent h =
      let q = (submit (new_query name text types cache) previous binding).0 in
      let k = submit-Keeps (new_query name text types cache) previous binding in
      let b = handle_all_silent q before silent in
      let empty : (handle_all q before).settlements ≡ [] = b.1 ∙ k.1 in
      let one : length (handle (handle_all q before) m).0.settlements ≡ 1 =
        length-handle (handle_all q before) m (b.0 ∙ k.0) h ∙ ap (λ l. length l + 1) empty in
      let (s, e) = one_element (handle (handle_all q before) m).0.settlements one in
      (empty, s, settlements_at q before [] m h ∙ e, settlements_at q before after m h ∙ e)

  -- A fault that is there stays the fault.
  apply_fields_fault :
      (q : FastQuery V) (fields : List Field) (r : Result Fault _) (f : Fault)
      → q.buffered_error ≡ some f
      → (apply_fields q fields r q.buffered_error).buffered_error ≡ some f
  apply_fields_fault q fields (ok ps) f h = h
  apply_fields_fault q fields (err g) f h = rw h

  with_counts_fault :
      (q : FastQuery V) (a b : Option Text) → (with_counts q a b).buffered_error ≡ q.buffered_error
  with_counts_fault q none none = refl
  with_counts_fault q none (some b) = refl
  with_counts_fault q (some a) none = refl
  with_counts_fault q (some a) (some b) = refl

  with_tag_fault :
      (q : FastQuery V) (t : Option _) → (with_tag q t).buffered_error ≡ q.buffered_error
  with_tag_fault q none = refl
  with_tag_fault q (some t) =
      with_counts_fault (record q { command = some t.word }) t.second t.third

  handle_fault :
      (q : FastQuery V) (m : Message) (f : Fault)
      → settles m ≡ false
      → q.buffered_error ≡ some f
      → (handle q m).0.buffered_error ≡ some f
  unfolding handle handle_row_description handle_data_row handle_command_complete
      handle_portal_suspended
  handle_fault q (row_description fields) f h e =
      apply_fields_fault
        (record q { fields_received = true; fields_cache = put q.name fields q.fields_cache })
        fields (resolve_parsers q.types fields) f e
  handle_fault q (data_row cells) f h e = ground arith
  handle_fault q (command_complete text) f h e = with_tag_fault q (command_tag text) ∙ e
  handle_fault q empty_query f h e = e
  handle_fault q portal_suspended f h e = ground arith
  handle_fault q copy_in_response f h e = e
  handle_fault q copy_data f h e = e
  handle_fault q ready_for_query f h e = cc
  handle_fault q (error fault) f h e = cc

  handle_all_fault :
      (q : FastQuery V) (ms : List Message) (f : Fault)
      → All (λ m. settles m ≡ false) ms
      → q.buffered_error ≡ some f
      → (handle_all q ms).buffered_error ≡ some f
  unfolding handle_all
  handle_all_fault q [] f h e = e
  handle_all_fault q (m ∷ ms) f h e =
      handle_all_fault (handle q m).0 ms f h.1 (handle_fault q m f h.0 e)

  settle_fault :
      (q : FastQuery V) (m : Message) (f : Fault)
      → q.settled ≡ false
      → q.buffered_error ≡ some f
      → settles m ≡ true
      → (handle q m).0.settlements ≡ q.settlements ++ rejected f ∷ []
  unfolding handle handle_error handle_ready_for_query settle
  settle_fault q ready_for_query f u e h = ground arith
  settle_fault q (error fault) f u e h = ground arith
  settle_fault q (row_description fields) f u e h = cc
  settle_fault q (data_row cells) f u e h = cc
  settle_fault q (command_complete text) f u e h = cc
  settle_fault q empty_query f u e h = cc
  settle_fault q portal_suspended f u e h = cc
  settle_fault q copy_in_response f u e h = cc
  settle_fault q copy_data f u e h = cc

  -- The first fault wins: with a fault buffered and nothing settled, whatever is delivered until
  -- ReadyForQuery or a fatal error and after it, the promise is rejected with that fault, also by a
  -- fatal error that brings its own.
  pub first_fault_wins :
      (q : FastQuery V) (f : Fault) (before after : List Message) (m : Message)
      → q.settled ≡ false
      → q.settlements ≡ []
      → q.buffered_error ≡ some f
      → All (λ k. settles k ≡ false) before
      → settles m ≡ true
      → (handle_all q (before ++ m ∷ after)).settlements ≡ rejected f ∷ []
  first_fault_wins q f before after m u none_yet e silent h =
      let b = handle_all_silent q before silent in
      settlements_at q before after m h
      ∙ settle_fault (handle_all q before) m f (b.0 ∙ u) (handle_all_fault q before f silent e) h
      ∙ ap (λ l. l ++ rejected f ∷ []) (b.1 ∙ none_yet)
