-- ===== src/Pool/FastQuery/Rows.antt =====
-- What a FastQuery resolves to (src/pool/fast-query.ts).
use prisma_pglite_bridge.Prelude.{
  ℕ, ◌≡◌, refl, sym, ap, ◌∙◌, false, Option, none, some, List, [], ◌∷◌, ◌++◌, append_assoc,
  append-nil, map, Result, ok, err, ◌>>=◌, Result-cases, All, All-append, >>=-eq-ok, inl, inr,
  arith,
}
use prisma_pglite_bridge.Duplex.CopyIn.{Text}
use prisma_pglite_bridge.Pool.FastQuery.{
  FastQuery, FastQueryResult, Field, Row, Parser, Message, Fault, Settlement, resolved, rejected,
  Types, Tag, settle, handle, handle_all, handle_data_row, handle_command_complete,
  handle_ready_for_query, resolve_parsers, parse_row, command_tag, parse_int, apply_fields,
  push_row, with_tag, with_counts, data_row, command_complete, ready_for_query,
}
use prisma_pglite_bridge.Pool.FastQuery.Settle.{settles, handle_all-append}
use prisma_pglite_bridge.Pool.FastQuery.Once.{first_fault_wins}

-- The number of rows in a tag, which is its last number, and the oid before it.
abbrev pub count_of : Option Tag → Option ℕ
count_of none = none
count_of (some t) = elim t.third [
  | some digits ↦ some (parse_int digits)
  | none ↦ elim t.second [ some digits ↦ some (parse_int digits) | none ↦ none ]
]

abbrev pub oid_of : Option Tag → Option ℕ
oid_of none = none
oid_of (some t) = elim t.third [
  | none ↦ none
  | some digits ↦ elim t.second [ some first ↦ some (parse_int first) | none ↦ none ]
]

abbrev pub word_of : Option Tag → Option Text
word_of none = none
word_of (some t) = some t.word

abbrev pub row_messages : List (List (Option Text)) → List Message
row_messages cells = map data_row cells

row_messages_silent : (cells : List _) → All (λ m. settles m ≡ false) (row_messages cells)
row_messages_silent [] = tt
row_messages_silent (c ∷ cells) = (refl, row_messages_silent cells)

-- The end of an answer.
abbrev pub ending : Text → List Message
ending text = command_complete text ∷ ready_for_query ∷ []

module _ {V : Type 0} where
  unfoldable pub parse_rows :
      List (Parser V) → List (List (Option Text)) → Result Fault (List (Row V))
  parse_rows ps [] = ok []
  parse_rows ps (c ∷ cs) = do row ← parse_row ps c; rows ← parse_rows ps cs; ok (row ∷ rows)

  -- A statement's result: its rows, each cell by its column's parser, or the first fault.
  unfoldable pub result :
      Types V → List Field → List (List (Option Text)) → Text → Result Fault (FastQueryResult V)
  unfolding parse_rows
  result types fields cells text = do
    ps ← resolve_parsers types fields
    rows ← parse_rows ps cells
    ok (record {
      rows = rows;
      fields = fields;
      row_count = count_of (command_tag text);
      command = word_of (command_tag text);
      oid = oid_of (command_tag text);
    })

  abbrev pub settlement : Result Fault (FastQueryResult V) → Settlement V
  settlement (ok r) = resolved r
  settlement (err f) = rejected f

  -- Nothing has come yet.
  pub record IsFresh (q : FastQuery V) : Type 0 where
    pub unsettled : q.settled ≡ false
    pub unfaulted : q.buffered_error ≡ none
    pub no_settlements : q.settlements ≡ []
    pub no_rows : q.rows ≡ []
    pub no_count : q.row_count ≡ none
    pub no_command : q.command ≡ none
    pub no_oid : q.oid ≡ none

  handle_data_row_lem :
      (q : FastQuery V) (cells : List (Option Text))
      → q.settled ≡ false
      → q.buffered_error ≡ none
      → handle_data_row q cells ≡ push_row q (parse_row q.parsers cells)
  unfolding handle_data_row
  handle_data_row_lem q cells u e = ground arith

  rows_ok :
      (q : FastQuery V) (cells : List (List (Option Text))) (rs : List (Row V))
      → q.settled ≡ false
      → q.buffered_error ≡ none
      → parse_rows q.parsers cells ≡ ok rs
      → handle_all q (row_messages cells) ≡ record q { rows = q.rows ++ rs }
  unfolding parse_rows handle_all handle
  rows_ok q [] rs u e h =
      let none_left : [] ≡ rs = ground arith in
      ap (λ l. record q { rows = l }) (sym (append-nil q.rows) ∙ ap (◌++◌ q.rows) none_left)
  rows_ok q (c ∷ cells) rs u e h =
      let (row, e1, h1) = >>=-eq-ok (parse_row q.parsers c) _ h in
      let (rest, e2, h2) = >>=-eq-ok (parse_rows q.parsers cells) _ h1 in
      let whole : row ∷ rest ≡ rs = ground arith in
      let step : handle_data_row q c ≡ record q { rows = q.rows ++ row ∷ [] } =
        handle_data_row_lem q c u e ∙ ap (push_row q) e1 in
      ap (λ (r : FastQuery V). handle_all r (row_messages cells)) step
      ∙ rows_ok (record q { rows = q.rows ++ row ∷ [] }) cells rest u e e2
      ∙ ap (λ l. record q { rows = l })
          (append_assoc q.rows (row ∷ []) rest ∙ ap (◌++◌ q.rows) whole)

  parse_rows_err :
      (ps : List (Parser V)) (c : List (Option Text)) (cells : List (List (Option Text)))
      (row : Row V) (f : Fault)
      → parse_row ps c ≡ ok row
      → parse_rows ps (c ∷ cells) ≡ err f
      → parse_rows ps cells ≡ err f
  unfolding parse_rows
  parse_rows_err ps c cells row f e h = elim (Result-cases (parse_rows ps cells)) [
    | inl (rs, r) ↦ ground arith
    | inr (g, r) ↦ ground arith
  ]

  faulted_lem :
      (q : FastQuery V) (cells : List (List (Option Text))) (f : Fault) (text : Text)
      → q.settled ≡ false
      → q.settlements ≡ []
      → q.buffered_error ≡ some f
      → (handle_all q (row_messages cells ++ ending text)).settlements ≡ rejected f ∷ []
  faulted_lem q cells f text u n e =
      let before = row_messages cells ++ command_complete text ∷ [] in
      let split : row_messages cells ++ ending text ≡ before ++ ready_for_query ∷ [] =
        sym (append_assoc (row_messages cells) (command_complete text ∷ []) _) in
      ap (λ ms. (handle_all q ms).settlements) split
      ∙ first_fault_wins q f before [] ready_for_query u n e
          (All-append _ (row_messages cells) (command_complete text ∷ [])
            (row_messages_silent cells) (refl, tt))
          refl

  rows_err :
      (q : FastQuery V) (cells : List (List (Option Text))) (f : Fault) (text : Text)
      → q.settled ≡ false
      → q.buffered_error ≡ none
      → q.settlements ≡ []
      → parse_rows q.parsers cells ≡ err f
      → (handle_all q (row_messages cells ++ ending text)).settlements ≡ rejected f ∷ []
  unfolding handle_all handle parse_rows
  rows_err q [] f text u e n h = cc
  rows_err q (c ∷ cells) f text u e n h = elim (Result-cases (parse_row q.parsers c)) [
    | inl (row, r) ↦
        let q' = record q { rows = q.rows ++ row ∷ [] } in
        let step : handle_data_row q c ≡ q' = handle_data_row_lem q c u e ∙ ap (push_row q) r in
        ap (λ (s : FastQuery V). (handle_all s (row_messages cells ++ ending text)).settlements)
          step
        ∙ rows_err q' cells f text u e n (parse_rows_err q.parsers c cells row f r h)
    | inr (g, r) ↦
        let q' = record q { buffered_error = some g } in
        let step : handle_data_row q c ≡ q' = handle_data_row_lem q c u e ∙ ap (push_row q) r in
        let first : g ≡ f = ground arith in
        ap (λ (s : FastQuery V). (handle_all s (row_messages cells ++ ending text)).settlements)
          step
        ∙ faulted_lem q' cells g text u n refl
        ∙ ap (λ x. rejected x ∷ []) first
  ]

  counted_by :
      (q : FastQuery V) (w : Text) (a b : Option Text)
      → q.row_count ≡ none
      → q.oid ≡ none
      → let t : Tag = record { word = w; second = a; third = b } in
        with_counts (record q { command = some w }) a b
        ≡ record q { row_count = count_of (some t); command = some w; oid = oid_of (some t) }
  counted_by q w none none r o = ground arith
  counted_by q w none (some b) r o = ground arith
  counted_by q w (some a) none r o = ground arith
  counted_by q w (some a) (some b) r o = ground arith

  counted :
      (q : FastQuery V) (t : Option Tag)
      → q.row_count ≡ none
      → q.command ≡ none
      → q.oid ≡ none
      → with_tag q t ≡ record q { row_count = count_of t; command = word_of t; oid = oid_of t }
  counted q none r c o = ground arith
  counted q (some t) r c o = counted_by q t.word t.second t.third r o

  finish_lem :
      (q : FastQuery V)
      → q.settled ≡ false
      → q.buffered_error ≡ none
      → q.settlements ≡ []
      → (handle_ready_for_query q).settlements
        ≡ resolved (record {
          rows = q.rows;
          fields = q.fields;
          row_count = q.row_count;
          command = q.command;
          oid = q.oid;
        })
          ∷ []
  unfolding handle_ready_for_query settle
  finish_lem q u e n = ground arith

  ending_lem :
      (q : FastQuery V) (text : Text)
      → q.settled ≡ false
      → q.buffered_error ≡ none
      → q.settlements ≡ []
      → q.row_count ≡ none
      → q.command ≡ none
      → q.oid ≡ none
      → (handle_all q (ending text)).settlements
        ≡ resolved (record {
          rows = q.rows;
          fields = q.fields;
          row_count = count_of (command_tag text);
          command = word_of (command_tag text);
          oid = oid_of (command_tag text);
        })
          ∷ []
  unfolding handle_all handle handle_command_complete
  ending_lem q text u e n r c o =
      let t = command_tag text in
      let q' = record q { row_count = count_of t; command = word_of t; oid = oid_of t } in
      ap (λ (s : FastQuery V). (handle_ready_for_query s).settlements) (counted q t r c o)
      ∙ finish_lem q' u e n

  shown :
      (q : FastQuery V) (cells : List (List (Option Text))) (rs : List (Row V)) (text : Text)
      → IsFresh q
      → parse_rows q.parsers cells ≡ ok rs
      → (handle_all q (row_messages cells ++ ending text)).settlements
        ≡ resolved (record {
          rows = rs;
          fields = q.fields;
          row_count = count_of (command_tag text);
          command = word_of (command_tag text);
          oid = oid_of (command_tag text);
        })
          ∷ []
  shown q cells rs text fresh e =
      let q' = record q { rows = rs } in
      let parsed : handle_all q (row_messages cells) ≡ q' =
        rows_ok q cells rs fresh.unsettled fresh.unfaulted e
        ∙ ap (λ l. record q { rows = l ++ rs }) fresh.no_rows in
      ap (λ (s : FastQuery V). s.settlements)
        (handle_all-append q (row_messages cells) (ending text))
      ∙ ap (λ (s : FastQuery V). (handle_all s (ending text)).settlements) parsed
      ∙ ending_lem q' text fresh.unsettled fresh.unfaulted fresh.no_settlements fresh.no_count
          fresh.no_command fresh.no_oid

  IsFresh-applied :
      {q : FastQuery V} (fields : List Field) (ps : List (Parser V))
      → IsFresh q
      → IsFresh (record q { fields = fields; parsers = ps })
  IsFresh-applied fields ps fresh = record {
    unsettled = fresh.unsettled;
    unfaulted = fresh.unfaulted;
    no_settlements = fresh.no_settlements;
    no_rows = fresh.no_rows;
    no_count = fresh.no_count;
    no_command = fresh.no_command;
    no_oid = fresh.no_oid;
  }

  -- Once the fields are applied, by Describe or from the cache.
  pub applied_lem :
      (q : FastQuery V) (fields : List Field) (cells : List (List (Option Text))) (text : Text)
      → IsFresh q
      → (handle_all
          (apply_fields q fields (resolve_parsers q.types fields) none)
          (row_messages cells ++ ending text)).settlements
        ≡ settlement (result q.types fields cells text) ∷ []
  unfolding result
  applied_lem q fields cells text fresh = elim (Result-cases (resolve_parsers q.types fields)) [
    | inr (f, r) ↦ rw r (
        faulted_lem (record q { fields = fields; parsers = []; buffered_error = some f }) cells f
          text fresh.unsettled fresh.no_settlements refl)
    | inl (ps, r) ↦ elim (Result-cases (parse_rows ps cells)) [
      | inr (f, e) ↦ rw r (
          rw e (
            rows_err (record q { fields = fields; parsers = ps }) cells f text fresh.unsettled
              fresh.unfaulted fresh.no_settlements e))
      | inl (rs, e) ↦ rw r (
          rw e (
            shown (record q { fields = fields; parsers = ps }) cells rs text
              (IsFresh-applied fields ps fresh) e))
    ]
  ]
