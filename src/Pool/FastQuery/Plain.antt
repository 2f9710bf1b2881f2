-- ===== src/Pool/FastQuery/Plain.antt =====
-- The result of a statement, cell by cell (src/pool/fast-query.ts).
use prisma_pglite_bridge.Prelude.{
  ◌≡◌, refl, ap, ◌∙◌, Option, none, some, List, [], ◌∷◌, Result, ok, err, ◌>>=◌, Result-cases,
  >>=-eq-ok, inl, inr, arith,
}
use prisma_pglite_bridge.Duplex.CopyIn.{Text}
use prisma_pglite_bridge.Pool.FastQuery.{
  FastQueryResult, Field, Row, Parser, Fault, thrown, Types, resolve_parsers, parse_row,
  command_tag, format_or_text,
}
use prisma_pglite_bridge.Pool.FastQuery.Rows.{count_of, oid_of, word_of, parse_rows, result}

abbrev pub later_fields : List Field → List Field
later_fields [] = []
later_fields (f ∷ fs) = fs

abbrev pub unless_fault : {A : Type 0} → Option Fault → Result Fault A → Result Fault A
unless_fault none r = r
unless_fault (some fault) r = err fault

module _ {V : Type 0} where
  -- The parser that a column's type has in the column's format.
  abbrev pub parser_of : Types V → Field → Result Fault (Parser V)
  parser_of types f = types f.data_type_id (format_or_text f.format)

  -- The first column whose type has no parser.
  abbrev pub fault_at : Result Fault (Parser V) → Option Fault → Option Fault
  fault_at (ok p) rest = rest
  fault_at (err fault) rest = some fault

  abbrev pub columns_fault : Types V → List Field → Option Fault
  columns_fault types [] = none
  columns_fault types (f ∷ fs) = fault_at (parser_of types f) (columns_fault types fs)

  -- Null is kept, and a text is parsed by its column's parser; one without a column is refused.
  abbrev pub cell_value : Types V → List Field → Option Text → Result Fault (Option V)
  cell_value types fs none = ok none
  cell_value types [] (some raw) = err (thrown [])
  cell_value types (f ∷ fs) (some raw) = do p ← parser_of types f; v ← p raw; ok (some v)

  unfoldable pub row_values : Types V → List Field → List (Option Text) → Result Fault (Row V)
  row_values types fs [] = ok []
  row_values types fs (c ∷ cs) = do
    v ← cell_value types fs c
    row ← row_values types (later_fields fs) cs
    ok (v ∷ row)

  unfoldable pub rows_values :
      Types V → List Field → List (List (Option Text)) → Result Fault (List (Row V))
  unfolding row_values
  rows_values types fs [] = ok []
  rows_values types fs (c ∷ cs) = do
    row ← row_values types fs c
    rows ← rows_values types fs cs
    ok (row ∷ rows)

  -- The rows, one value for each cell, with the fields and what the tag says.
  unfoldable pub plain_result :
      Types V → List Field → List (List (Option Text)) → Text → Result Fault (FastQueryResult V)
  unfolding rows_values
  plain_result types fields cells text = unless_fault (columns_fault types fields) (do
    rows ← rows_values types fields cells
    ok (record {
      rows = rows;
      fields = fields;
      row_count = count_of (command_tag text);
      command = word_of (command_tag text);
      oid = oid_of (command_tag text);
    }))

  -- The parsers of the columns, where they all have one.
  resolved_first :
      (types : Types V) (f : Field) (fs : List Field) (ps : List (Parser V))
      → resolve_parsers types (f ∷ fs) ≡ ok ps
      → (p : Parser V) × (qs : List (Parser V)) × (parser_of types f ≡ ok p)
        × (resolve_parsers types fs ≡ ok qs)
        × (p ∷ qs ≡ ps)
  unfolding resolve_parsers
  resolved_first types f fs ps h =
      let (p, e, h1) = >>=-eq-ok (parser_of types f) _ h in
      let (qs, e1, h2) = >>=-eq-ok (resolve_parsers types fs) _ h1 in (p, qs, e, e1, cc)

  resolved_none :
      (types : Types V) (ps : List (Parser V)) → resolve_parsers types [] ≡ ok ps → [] ≡ ps
  unfolding resolve_parsers
  resolved_none types ps h = cc

  columns_ok :
      (types : Types V) (fs : List Field) (ps : List (Parser V))
      → resolve_parsers types fs ≡ ok ps
      → columns_fault types fs ≡ none
  columns_ok types [] ps h = refl
  columns_ok types (f ∷ fs) ps h =
      let (p, qs, e, e1, e2) = resolved_first types f fs ps h in
      ap (λ r. fault_at r (columns_fault types fs)) e ∙ columns_ok types fs qs e1

  columns_bad :
      (types : Types V) (fs : List Field) (fault : Fault)
      → resolve_parsers types fs ≡ err fault
      → columns_fault types fs ≡ some fault
  unfolding resolve_parsers
  columns_bad types [] fault h = cc
  columns_bad types (f ∷ fs) fault h = elim (Result-cases (parser_of types f)) [
    | inl (p, e) ↦ elim (Result-cases (resolve_parsers types fs)) [
      | inl (ps, r) ↦ ground arith
      | inr (g, r) ↦
          let same_fault : g ≡ fault = ground arith in
          ap (λ q. fault_at q (columns_fault types fs)) e
          ∙ columns_bad types fs g r
          ∙ ap some same_fault
    ]
    | inr (g, e) ↦
        let same_fault : g ≡ fault = ground arith in
        ap (λ q. fault_at q (columns_fault types fs)) e ∙ ap some same_fault
  ]

  row_values_step :
      (types : Types V) (f : Field) (fs : List Field) (p : Parser V) (qs : List (Parser V))
      (c : Option Text) (cs : List (Option Text))
      → parser_of types f ≡ ok p
      → row_values types fs cs ≡ parse_row qs cs
      → row_values types (f ∷ fs) (c ∷ cs) ≡ parse_row (p ∷ qs) (c ∷ cs)
  unfolding row_values parse_row
  row_values_step types f fs p qs none cs e h = rw h refl
  row_values_step types f fs p qs (some raw) cs e h = elim (Result-cases (p raw)) [
    | inl (v, r) ↦ rw (e, h) (rw r refl)
    | inr (g, r) ↦ rw (e, h) (rw r refl)
  ]

  row_values_bare :
      (types : Types V) (cs : List (Option Text)) → row_values types [] cs ≡ parse_row [] cs
  unfolding row_values parse_row
  row_values_bare types [] = refl
  row_values_bare types (none ∷ cs) = rw (row_values_bare types cs) refl
  row_values_bare types (some raw ∷ cs) = refl

  row_values_lem :
      (types : Types V) (fs : List Field) (ps : List (Parser V)) (cs : List (Option Text))
      → resolve_parsers types fs ≡ ok ps
      → row_values types fs cs ≡ parse_row ps cs
  row_values_lem types [] ps cs h =
      row_values_bare types cs ∙ ap (λ q. parse_row q cs) (resolved_none types ps h)
  row_values_lem types (f ∷ fs) ps [] h = unfold row_values parse_row in refl
  row_values_lem types (f ∷ fs) ps (c ∷ cs) h =
      let (p, qs, e, e1, e2) = resolved_first types f fs ps h in
      row_values_step types f fs p qs c cs e (row_values_lem types fs qs cs e1)
      ∙ ap (λ q. parse_row q (c ∷ cs)) e2

  rows_values_lem :
      (types : Types V) (fs : List Field) (ps : List (Parser V)) (cells : List (List (Option Text)))
      → resolve_parsers types fs ≡ ok ps
      → rows_values types fs cells ≡ parse_rows ps cells
  unfolding rows_values parse_rows
  rows_values_lem types fs ps [] h = refl
  rows_values_lem types fs ps (c ∷ cells) h =
      rw (row_values_lem types fs ps c h, rows_values_lem types fs ps cells h) refl

  pub plain_result_lem :
      (types : Types V) (fields : List Field) (cells : List (List (Option Text))) (text : Text)
      → result types fields cells text ≡ plain_result types fields cells text
  unfolding result plain_result
  plain_result_lem types fields cells text = elim (Result-cases (resolve_parsers types fields)) [
    | inl (ps, r) ↦
        rw (columns_ok types fields ps r) (rw r (rw (rows_values_lem types fields ps cells r) refl))
    | inr (g, r) ↦ rw (columns_bad types fields g r) (rw r refl)
  ]
