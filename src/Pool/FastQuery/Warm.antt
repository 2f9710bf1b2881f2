-- ===== src/Pool/FastQuery/Warm.antt =====
-- A statement's first execution and its later ones, and what submit sends (src/pool/fast-query.ts).
use prisma_pglite_bridge.Prelude.{
  ◌≢◌, ℕ, suc, ◌≡◌, refl, ap, ◌∙◌, Bool, true, false, Option, none, some, List, [], ◌∷◌, ◌++◌,
  Result, ok, err, Option-cases, Result-cases, Bool-cases, All, inl, inr, ◌⊎◌, arith,
}
use prisma_pglite_bridge.Duplex.CopyIn.{Text, same}
use prisma_pglite_bridge.Utils.Maps.{Map, get, put, get-put_self, same_self, same→eq}
use prisma_pglite_bridge.Pool.FastQuery.{
  FastQuery, Field, Row, Fault, Types, Tag, Call, cork, uncork, parse, bind, describe, execute,
  sync, copy_fail, not_unique, submit, submit_bound, parse_calls, clashes, new_query, settle,
  handle, handle_all, handle_row_description, handle_data_row, handle_command_complete,
  handle_ready_for_query, resolve_parsers, parse_row, command_tag, apply_fields, push_row, with_tag,
  with_counts, finish, row_description,
}
use prisma_pglite_bridge.Pool.FastQuery.Settle.{handle_all-append}
use prisma_pglite_bridge.Pool.FastQuery.Plain.{plain_result, plain_result_lem}
use prisma_pglite_bridge.Pool.FastQuery.Rows.{
  IsFresh, applied_lem, result, settlement, row_messages, ending,
}

-- No Parse and no Describe.
abbrev pub asks : Call → Bool
asks (parse name text) = true
asks describe = true
asks _ = false

abbrev pub AsksNothing : List Call → Type 0
AsksNothing calls = All (λ c. asks c ≡ false) calls

module _ {V : Type 0} where
  -- The fields have been received, and the cache is left alone.
  abbrev KeepsCache : FastQuery V → FastQuery V → Type 0
  KeepsCache q r = (r.fields_received ≡ q.fields_received) × (r.fields_cache ≡ q.fields_cache)

  push_row_cache : (q : FastQuery V) (r : Result Fault (Row V)) → KeepsCache q (push_row q r)
  push_row_cache q (ok row) = (refl, refl)
  push_row_cache q (err f) = (refl, refl)

  handle_data_row_cache :
      (q : FastQuery V) (cells : List (Option Text)) → KeepsCache q (handle_data_row q cells)
  unfolding handle_data_row
  handle_data_row_cache q cells = ground (arith, push_row_cache q (parse_row q.parsers cells))

  rows_cache :
      (q : FastQuery V) (cells : List (List (Option Text)))
      → KeepsCache q (handle_all q (row_messages cells))
  unfolding handle_all handle
  rows_cache q [] = (refl, refl)
  rows_cache q (c ∷ cells) =
      let a = handle_data_row_cache q c in
      let b = rows_cache (handle_data_row q c) cells in (b.0 ∙ a.0, b.1 ∙ a.1)

  with_counts_cache : (q : FastQuery V) (a b : Option Text) → KeepsCache q (with_counts q a b)
  with_counts_cache q none none = (refl, refl)
  with_counts_cache q none (some b) = (refl, refl)
  with_counts_cache q (some a) none = (refl, refl)
  with_counts_cache q (some a) (some b) = (refl, refl)

  with_tag_cache : (q : FastQuery V) (t : Option Tag) → KeepsCache q (with_tag q t)
  with_tag_cache q none = (refl, refl)
  with_tag_cache q (some t) =
      with_counts_cache (record q { command = some t.word }) t.second t.third

  finish_cache :
      (q : FastQuery V) (f : Option Fault)
      → q.fields_received ≡ true
      → (finish q f).fields_cache ≡ q.fields_cache
  unfolding settle
  finish_cache q none h = ground arith
  finish_cache q (some f) h = ground arith

  answer_cache :
      (q : FastQuery V) (cells : List (List (Option Text))) (text : Text)
      → q.fields_received ≡ true
      → (handle_all q (row_messages cells ++ ending text)).fields_cache ≡ q.fields_cache
  unfolding handle_all handle handle_command_complete handle_ready_for_query
  answer_cache q cells text h =
      let r = handle_all q (row_messages cells) in
      let a = rows_cache q cells in
      let b = with_tag_cache r (command_tag text) in
      let t = with_tag r (command_tag text) in
      ap (λ (s : FastQuery V). s.fields_cache)
        (handle_all-append q (row_messages cells) (ending text))
      ∙ finish_cache t t.buffered_error (b.0 ∙ a.0 ∙ h)
      ∙ b.1
      ∙ a.1

  -- The first execution of a statement, whose fields are described.
  abbrev pub first_run :
      Text
      → Text
      → Types V
      → Map (List Field)
      → List (Option Text)
      → List Field
      → List (List (Option Text))
      → Text
      → FastQuery V
  first_run name text types cache values fields cells tag =
      handle_all (submit (new_query name text types cache) none (ok values)).0
        (row_description fields ∷ (row_messages cells ++ ending tag))

  IsFresh-received :
      {q : FastQuery V} (cache : Map (List Field))
      → IsFresh q
      → IsFresh (record q { fields_received = true; fields_cache = cache })
  IsFresh-received cache fresh = record {
    unsettled = fresh.unsettled;
    unfaulted = fresh.unfaulted;
    no_settlements = fresh.no_settlements;
    no_rows = fresh.no_rows;
    no_count = fresh.no_count;
    no_command = fresh.no_command;
    no_oid = fresh.no_oid;
  }

  apply_fields_cache :
      (q : FastQuery V) (fields : List Field) (r : Result Fault _) (b : Option Fault)
      → KeepsCache q (apply_fields q fields r b)
  apply_fields_cache q fields (ok ps) b = (refl, refl)
  apply_fields_cache q fields (err f) b = (refl, refl)

  described_lem :
      (q : FastQuery V) (fields : List Field) (cells : List (List (Option Text))) (tag : Text)
      → IsFresh q
      → let r = handle_all q (row_description fields ∷ (row_messages cells ++ ending tag)) in
        (r.settlements ≡ settlement (result q.types fields cells tag) ∷ [])
        × (r.fields_cache ≡ put q.name fields q.fields_cache)
  unfolding handle_all handle handle_row_description
  described_lem q fields cells tag fresh =
      let cache = put q.name fields q.fields_cache in
      let q1 = record q { fields_received = true; fields_cache = cache } in
      let ps = resolve_parsers q.types fields in
      let rest = row_messages cells ++ ending tag in
      let k = apply_fields_cache q1 fields ps q.buffered_error in
      (
        ap (λ b. (handle_all (apply_fields q1 fields ps b) rest).settlements) fresh.unfaulted
            ∙ applied_lem q1 fields cells tag (IsFresh-received cache fresh),
        answer_cache (apply_fields q1 fields ps q.buffered_error) cells tag k.0 ∙ k.1,
      )

  new_query-IsFresh :
      (name text : Text) (types : Types V) (cache : Map (List Field))
      → IsFresh (new_query name text types cache)
  unfolding new_query
  new_query-IsFresh name text types cache = record {
    unsettled = refl;
    unfaulted = refl;
    no_settlements = refl;
    no_rows = refl;
    no_count = refl;
    no_command = refl;
    no_oid = refl;
  }

  IsFresh-described : {q : FastQuery V} → IsFresh q → IsFresh (record q { describe_sent = true })
  IsFresh-described fresh = record {
    unsettled = fresh.unsettled;
    unfaulted = fresh.unfaulted;
    no_settlements = fresh.no_settlements;
    no_rows = fresh.no_rows;
    no_count = fresh.no_count;
    no_command = fresh.no_command;
    no_oid = fresh.no_oid;
  }

  submit_cold :
      (q : FastQuery V) (values : List (Option Text))
      → get q.name q.fields_cache ≡ none
      → (submit q none (ok values)).0 ≡ record q { describe_sent = true }
  unfolding submit
  submit_cold q values h = rw h

  submit_warm_lem :
      (q : FastQuery V) (values : List (Option Text)) (fields : List Field)
      → get q.name q.fields_cache ≡ some fields
      → (submit q (some q.text) (ok values)).0
        ≡ apply_fields q fields (resolve_parsers q.types fields) none
  unfolding submit
  submit_warm_lem q values fields h = elim (Result-cases (resolve_parsers q.types fields)) [
    | inl (ps, r) ↦ rw same_self (rw h (rw r))
    | inr (f, r) ↦ rw same_self (rw h (rw r))
  ]

  submit_calls :
      (q : FastQuery V) (values : List (Option Text)) (fields : List Field)
      → get q.name q.fields_cache ≡ some fields
      → AsksNothing (submit q (some q.text) (ok values)).1
  unfolding submit
  submit_calls q values fields h = elim (Result-cases (resolve_parsers q.types fields)) [
    | inl (ps, r) ↦ rw same_self (rw h (rw r (refl, (refl, (refl, (refl, (refl, tt)))))))
    | inr (f, r) ↦ rw same_self (rw h (rw r (refl, (refl, (refl, (refl, tt))))))
  ]

  -- A statement's first execution, with its fields described, resolves to its rows, each cell parsed
  -- by its column's parser and null kept, with the described fields and the numbers of the command
  -- tag, or rejects with the first fault, of a
  -- column that has no parser or else of a cell; and it leaves the fields in the shared map.
  -- Then a later execution, with types, values and rows of its own, sends neither Parse nor
  -- Describe and resolves or rejects just as if its fields had been described. This holds where the
  -- map has no entry for the name before, and pg's bind takes the values.
  pub later_execution :
      (name text : Text) (types types' : Types V) (cache : Map (List Field))
      (values values' : List (Option Text)) (fields : List Field)
      (cells cells' : List (List (Option Text))) (tag tag' : Text)
      → get name cache ≡ none
      → let first = first_run name text types cache values fields cells tag in
        let q = new_query name text types' first.fields_cache in
        let later =
          handle_all (submit q (some text) (ok values')).0 (row_messages cells' ++ ending tag') in
        (first.settlements ≡ settlement (plain_result types fields cells tag) ∷ [])
        × (get name first.fields_cache ≡ some fields)
        × (later.settlements ≡ settlement (plain_result types' fields cells' tag') ∷ [])
        × AsksNothing (submit q (some text) (ok values')).1
  unfolding new_query
  later_execution name text types types' cache values values' fields cells cells' tag tag' h =
      let q0 = new_query name text types cache in
      let d =
        described_lem (record q0 { describe_sent = true }) fields cells tag
          (IsFresh-described (new_query-IsFresh name text types cache)) in
      let run = λ (s : FastQuery V).
        handle_all s (row_description fields ∷ (row_messages cells ++ ending tag)) in
      let c = submit_cold q0 values h in
      let first = first_run name text types cache values fields cells tag in
      let cached : get name first.fields_cache ≡ some fields =
        ap (λ s. get name (run s).fields_cache) c
        ∙ ap (get name) d.1
        ∙ get-put_self name fields cache in
      let q = new_query name text types' first.fields_cache in
      (
        ap (λ s. (run s).settlements) c
            ∙ d.0
            ∙ ap (λ r. settlement r ∷ []) (plain_result_lem types fields cells tag),
        cached,
        ap (λ s. (handle_all s (row_messages cells' ++ ending tag')).settlements)
              (submit_warm_lem q values' fields cached)
            ∙ applied_lem q fields cells' tag'
                (new_query-IsFresh name text types' first.fields_cache)
            ∙ ap (λ r. settlement r ∷ []) (plain_result_lem types' fields cells' tag'),
        submit_calls q values' fields cached,
      )

abbrev pub syncs : List Call → ℕ
syncs [] = 0
syncs (sync ∷ calls) = suc (syncs calls)
syncs (cork ∷ calls) = syncs calls
syncs (uncork ∷ calls) = syncs calls
syncs (parse name text ∷ calls) = syncs calls
syncs (bind name values ∷ calls) = syncs calls
syncs (describe ∷ calls) = syncs calls
syncs (execute ∷ calls) = syncs calls
syncs (copy_fail reason ∷ calls) = syncs calls

syncs-parse_calls :
    (previous : Option Text) (name text : Text) (calls : List Call)
    → syncs (parse_calls previous name text ++ calls) ≡ syncs calls
syncs-parse_calls none name text calls = refl
syncs-parse_calls (some p) name text calls = ground arith

-- The name stands for another text at the connection.
abbrev pub StandsForOther : Option Text → Text → Type 0
StandsForOther previous text = (p : Text) × (previous ≡ some p) × (p ≢ text)

abbrev pub StandsForText : Option Text → Text → Type 0
StandsForText previous text = (previous ≡ none) ⊎ (previous ≡ some text)

clashes-cases :
    (previous : Option Text) (text : Text)
    → ((clashes previous text ≡ true) × StandsForOther previous text)
      ⊎ ((clashes previous text ≡ false) × StandsForText previous text)
clashes-cases none text = inr (refl, inl refl)
clashes-cases (some p) text = elim (Bool-cases (same p text)) [
  | inl y ↦ inr (rw y refl, inr (ap some (same→eq p text y)))
  | inr n ↦ inl (rw n refl, (p, refl, λ e. cc (ap (same p) e, same_self p, n)))
]

module _ {V : Type 0} where
  syncs-submit_bound :
      (q : FastQuery V) (binding : Result Fault (List (Option Text)))
      → syncs ((submit_bound q binding).1 ++ uncork ∷ []) ≡ 1
  syncs-submit_bound q (err f) = refl
  syncs-submit_bound q (ok values) = elim (Option-cases (get q.name q.fields_cache)) [
    | inl n ↦ rw n
    | inr (fields, e) ↦ elim (Result-cases (resolve_parsers q.types fields)) [
      | inl (ps, r) ↦ rw e (rw r)
      | inr (f, r) ↦ rw e (rw r)
    ]
  ]

  -- A name that stands for another text at the connection is refused, with nothing sent and the
  -- query as it was. In every other case, where it stands for none or for this one, nothing is
  -- refused and exactly one Sync is sent, also where the values do not serialise or the types throw,
  -- so that the backend comes to ReadyForQuery.
  pub syncs-submit :
      (q : FastQuery V) (previous : Option Text) (binding : Result Fault (List (Option Text)))
      → (StandsForOther previous q.text
          × (submit q previous binding ≡ (q, [], some (not_unique q.name))))
        ⊎ (StandsForText previous q.text
            × ((submit q previous binding).2 ≡ none)
            × (syncs (submit q previous binding).1 ≡ 1))
  unfolding submit
  syncs-submit q previous binding = elim (clashes-cases previous q.text) [
    | inl (y, other) ↦ inl (other, rw y)
    | inr (n, own) ↦ inr (
      own,
      rw n,
      rw n (
          syncs-parse_calls previous q.name q.text ((submit_bound q binding).1 ++ uncork ∷ [])
          ∙ syncs-submit_bound q binding),
    )
  ]
