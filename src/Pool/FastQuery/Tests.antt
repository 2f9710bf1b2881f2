-- ===== src/Pool/FastQuery/Tests.antt =====
-- Runs of src/pool/fast-query.ts with two columns of text.
use prisma_pglite_bridge.Prelude.{
  ◌≡◌, ◌⊎◌, refl, Option, none, some, List, [], ◌∷◌, ◌++◌, ok, err, ◌==◌, ◌&&◌, if◌then◌else◌,
}
use prisma_pglite_bridge.Duplex.CopyIn.{Text, same}
use prisma_pglite_bridge.Utils.Maps.{get}
use prisma_pglite_bridge.Pool.FastQuery.{
  FastQuery, Field, thrown, Types, Settlement, rejected, submit, new_query, handle_all,
  resolve_parsers, parse_row, command_tag, span, row_description, ready_for_query, portal_suspended,
  error, not_unique,
}
use prisma_pglite_bridge.Pool.FastQuery.Once.{settles_once, first_fault_wins}
use prisma_pglite_bridge.Pool.FastQuery.Rows.{result, parse_rows, settlement, row_messages, ending}
use prisma_pglite_bridge.Pool.FastQuery.Plain.{plain_result}
use prisma_pglite_bridge.Pool.FastQuery.Warm.{
  later_execution, first_run, AsksNothing, syncs, StandsForOther, StandsForText, syncs-submit,
}

-- The second column's parser refuses an empty text.
abbrev types : Types Text
types oid format = ok (λ raw. if oid == 23 && same raw [] then err (thrown (0x21 ∷ [])) else ok raw)

abbrev columns : List Field
columns =
    record { name = 0x61 ∷ []; data_type_id = 25; format = none }
    ∷ record { name = 0x62 ∷ []; data_type_id = 23; format = none }
    ∷ []

-- `SELECT 2`
abbrev select_2 : Text
select_2 = 0x53 ∷ 0x45 ∷ 0x4c ∷ 0x45 ∷ 0x43 ∷ 0x54 ∷ 0x20 ∷ 0x32 ∷ []

abbrev s1 : Text
s1 = 0x73 ∷ []

abbrev good : List (List (Option Text))
good = (some s1 ∷ none ∷ []) ∷ (none ∷ some s1 ∷ []) ∷ []

abbrev bad : List (List (Option Text))
bad = (some s1 ∷ none ∷ []) ∷ (none ∷ some [] ∷ []) ∷ []

command_tag-tests :
    (command_tag select_2
      ≡ some (record {
        word = 0x53 ∷ 0x45 ∷ 0x4c ∷ 0x45 ∷ 0x43 ∷ 0x54 ∷ [];
        second = some (0x32 ∷ []);
        third = none;
      }))
    × (command_tag (0x20 ∷ select_2) ≡ none)
unfolding command_tag span
command_tag-tests = (refl, refl)

result-bad : result types columns bad select_2 ≡ err (thrown (0x21 ∷ []))
unfolding result parse_rows resolve_parsers parse_row
result-bad = refl

later_execution_example :
    let first = first_run s1 select_2 types [] [] columns good select_2 in
    let q = new_query s1 select_2 types first.fields_cache in
    let later =
      handle_all (submit q (some select_2) (ok [])).0 (row_messages bad ++ ending select_2) in
    (first.settlements ≡ settlement (plain_result types columns good select_2) ∷ [])
    × (get s1 first.fields_cache ≡ some columns)
    × (later.settlements ≡ settlement (plain_result types columns bad select_2) ∷ [])
    × AsksNothing (submit q (some select_2) (ok [])).1
unfolding get
later_execution_example =
    later_execution s1 select_2 types types [] [] [] columns good bad select_2 select_2 refl

settles_once_example :
    let q = (submit (new_query s1 select_2 types []) none (ok [])).0 in
    let fatal = error (thrown []) in
    ((handle_all q (row_description columns ∷ [])).settlements ≡ [])
    × (s : Settlement Text) × ((handle_all q
          ((row_description columns ∷ []) ++ fatal ∷ [])).settlements
        ≡ s ∷ [])
    × ((handle_all q ((row_description columns ∷ []) ++ fatal ∷ ready_for_query ∷ [])).settlements
        ≡ s ∷ [])
settles_once_example =
    settles_once s1 select_2 types [] none (ok []) (row_description columns ∷ [])
      (ready_for_query ∷ []) (error (thrown [])) (refl, tt) refl

abbrev refused : FastQuery Text
refused = (submit (new_query s1 select_2 types []) none (err (thrown (0x21 ∷ [])))).0

first_fault_wins_example :
    (handle_all refused
      ((portal_suspended ∷ []) ++ error (thrown []) ∷ ready_for_query ∷ [])).settlements
    ≡ rejected (thrown (0x21 ∷ [])) ∷ []
unfolding submit new_query
first_fault_wins_example =
    first_fault_wins refused (thrown (0x21 ∷ [])) (portal_suspended ∷ []) (ready_for_query ∷ [])
      (error (thrown [])) refl refl refl (refl, tt) refl

syncs-submit_example :
    let q = new_query s1 select_2 types [] in
    (StandsForOther none q.text × (submit q none (ok []) ≡ (q, [], some (not_unique q.name))))
    ⊎ (StandsForText none q.text
        × ((submit q none (ok [])).2 ≡ none)
        × (syncs (submit q none (ok [])).1 ≡ 1))
syncs-submit_example = syncs-submit (new_query s1 select_2 types []) none (ok [])
