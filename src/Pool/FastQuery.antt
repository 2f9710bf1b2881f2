-- ===== src/Pool/FastQuery.antt =====
-- src/pool/fast-query.ts: a named statement that is run over pg's connection, as a state machine.
-- The parsed value of a column is a parameter. A call that may throw returns a result: its error is a
-- Fault. What a method does on the connection is the list of its calls, in order.

pub mod Settle
pub mod Plain
pub mod Warm
pub mod Rows
pub mod Once
mod Tests
use prisma_pglite_bridge.Prelude.{
  ℕ, zero, suc, ◌+◌, ◌*◌, ◌-◌, not, ◌==◌, ◌&&◌, ◌||◌, if◌then◌else◌, Bool, true, false, Option,
  none, some, List, [], ◌∷◌, ◌++◌, map, Result, ok, err, ◌>>=◌,
}
use prisma_pglite_bridge.Duplex.CopyIn.{Text, same, is_upper, is_lower, is_digit}
use prisma_pglite_bridge.Utils.Maps.{Map, get, put}

-- What was thrown, or an Error of this class's own.
pub data Fault : Type 0 where
  thrown : Text → Fault
  not_unique : Text → Fault
  unexpected_portal_suspended : Fault

pub record Field : Type 0 where
  pub name : Text
  pub data_type_id : ℕ
  pub format : Option Text

-- `text`
abbrev pub text_format : Text
text_format = 0x74 ∷ 0x65 ∷ 0x78 ∷ 0x74 ∷ []

abbrev pub format_or_text : Option Text → Text
format_or_text none = text_format
format_or_text (some format) = format

pub data Call : Type 0 where
  cork uncork : Call
  parse : Text → Text → Call
  bind : Text → List (Option Text) → Call
  describe execute sync : Call
  copy_fail : Text → Call

-- Letters, or digits, from here on and what follows them.
pub span : (ℕ → Bool) → Text → Text × Text
span p [] = ([], [])
span p (c ∷ cs) = let (word, rest) = span p cs in if p c then (c ∷ word, rest) else ([], c ∷ cs)

abbrev pub is_letter : ℕ → Bool
is_letter c = is_upper c || is_lower c

-- `Number.parseInt(digits, 10)`
pub parse_int_loop : ℕ → Text → ℕ
parse_int_loop n [] = n
parse_int_loop n (c ∷ cs) = parse_int_loop (n * 10 + (c - 0x30)) cs

abbrev pub parse_int : Text → ℕ
parse_int = parse_int_loop 0

abbrev pub nonempty : Text × Text → Option (Text × Text)
nonempty ([], rest) = none
nonempty (c ∷ cs, rest) = some (c ∷ cs, rest)

-- `(?: (\d+))?`: the digits, if they are there, and what follows.
abbrev pub group : Text → Option (Text × Text)
group [] = none
group (c ∷ cs) = elim (c == 0x20) [ true ↦ nonempty (span is_digit cs) | false ↦ none ]

-- The groups of `COMMAND_TAG`.
pub record Tag : Type 0 where
  pub word : Text
  pub second : Option Text
  pub third : Option Text

abbrev pub digits_of : Option (Text × Text) → Option Text
digits_of none = none
digits_of (some (digits, rest)) = some digits

abbrev pub only_word : Text → Option (Text × Text) → Tag
only_word w none = record { word = w; second = none; third = none }
only_word w (some (digits, rest)) = record {
  word = w;
  second = some digits;
  third = digits_of (group rest);
}

abbrev pub tag_of : Option (Text × Text) → Option Tag
tag_of none = none
tag_of (some (w, rest)) = some (only_word w (group rest))

pub command_tag : Text → Option Tag
unfolding span
command_tag text = tag_of (nonempty (span is_letter text))

abbrev pub Parser : Type 0 → Type 0
Parser V = Text → Result Fault V

-- `types.getTypeParser`
abbrev pub Types : Type 0 → Type 0
Types V = ℕ → Text → Result Fault (Parser V)

-- A row's cell is null or parsed.
abbrev pub Row : Type 0 → Type 0
Row V = List (Option V)

pub record FastQueryResult (V : Type 0) : Type 0 where
  pub rows : List (Row V)
  pub fields : List Field
  pub row_count : Option ℕ
  pub command : Option Text
  pub oid : Option ℕ

pub data Settlement (V : Type 0) : Type 0 where
  resolved : FastQueryResult V → Settlement V
  rejected : Fault → Settlement V

-- The object, the map that it shares with the client's other queries, and the calls of the promise's
-- resolve and reject so far.
pub record FastQuery (V : Type 0) : Type 0 where
  pub name : Text
  pub text : Text
  pub types : Types V
  pub fields_cache : Map (List Field)
  pub fields : List Field
  pub parsers : List (Parser V)
  pub rows : List (Row V)
  pub row_count : Option ℕ
  pub command : Option Text
  pub oid : Option ℕ
  pub describe_sent : Bool
  pub fields_received : Bool
  pub buffered_error : Option Fault
  pub settled : Bool
  pub settlements : List (Settlement V)

-- What the connection delivers.
pub data Message : Type 0 where
  row_description : List Field → Message
  data_row : List (Option Text) → Message
  command_complete : Text → Message
  empty_query portal_suspended copy_in_response copy_data ready_for_query : Message
  error : Fault → Message

-- `No source stream defined`
abbrev pub no_source : Text
no_source =
    0x4e ∷ 0x6f ∷ 0x20 ∷ 0x73 ∷ 0x6f ∷ 0x75 ∷ 0x72 ∷ 0x63 ∷ 0x65 ∷ 0x20 ∷ 0x73 ∷ 0x74 ∷ 0x72 ∷ 0x65
    ∷ 0x61 ∷ 0x6d ∷ 0x20 ∷ 0x64 ∷ 0x65 ∷ 0x66 ∷ 0x69 ∷ 0x6e ∷ 0x65 ∷ 0x64 ∷ []

-- `previous !== undefined && previous !== this.text`
abbrev pub clashes : Option Text → Text → Bool
clashes none text = false
clashes (some previous) text = not (same previous text)

abbrev pub parse_calls : Option Text → Text → Text → List Call
parse_calls none name text = parse name text ∷ []
parse_calls (some previous) name text = if same previous text then [] else parse name text ∷ []

abbrev pub is_some {ℓ} : {A : Type ℓ} → Option A → Bool
is_some none = false
is_some (some a) = true

-- `??`
abbrev pub or_fault : Option Fault → Fault → Fault
or_fault none fault = fault
or_fault (some first) fault = first

module _ {V : Type 0} where
  pub new_query : Text → Text → Types V → Map (List Field) → FastQuery V
  new_query name text types cache = record {
    name = name;
    text = text;
    types = types;
    fields_cache = cache;
    fields = [];
    parsers = [];
    rows = [];
    row_count = none;
    command = none;
    oid = none;
    describe_sent = false;
    fields_received = false;
    buffered_error = none;
    settled = false;
    settlements = [];
  }

  -- The parsers in the fields' order; those before a throw stand in the array, but no row is parsed
  -- by them.
  pub resolve_parsers : Types V → List Field → Result Fault (List (Parser V))
  resolve_parsers types [] = ok []
  resolve_parsers types (f ∷ fs) = do
    p ← types f.data_type_id (format_or_text f.format)
    ps ← resolve_parsers types fs
    ok (p ∷ ps)

  -- `applyFields` and the handler around it. What it throws is buffered, unless there is a fault.
  abbrev pub apply_fields :
      FastQuery V → List Field → Result Fault (List (Parser V)) → Option Fault → FastQuery V
  apply_fields q fields (ok parsers) buffered = record q { fields = fields; parsers = parsers }
  apply_fields q fields (err fault) buffered = record q {
    fields = fields;
    parsers = [];
    buffered_error = some (or_fault buffered fault);
  }

  abbrev pub settle_first : FastQuery V → Option Fault → FastQuery V
  settle_first q (some fault) = record q {
    settled = true;
    rows = [];
    settlements = q.settlements ++ rejected fault ∷ [];
  }
  settle_first q none = record q {
    settled = true;
    settlements =
        q.settlements
        ++ resolved (record {
          rows = q.rows;
          fields = q.fields;
          row_count = q.row_count;
          command = q.command;
          oid = q.oid;
        })
          ∷ [];
  }

  -- The single settlement point.
  pub settle : FastQuery V → Option Fault → FastQuery V
  settle q fault = if q.settled then q else settle_first q fault

  pub handle_row_description : FastQuery V → List Field → FastQuery V
  unfolding resolve_parsers
  handle_row_description q fields =
      apply_fields
        (record q { fields_received = true; fields_cache = put q.name fields q.fields_cache })
        fields (resolve_parsers q.types fields) q.buffered_error

  -- The index `i` of the loop runs along both lists; a missing parser is undefined, and calling it
  -- throws.
  pub parse_row : List (Parser V) → List (Option Text) → Result Fault (Row V)
  parse_row ps [] = ok []
  parse_row [] (none ∷ cells) = do row ← parse_row [] cells; ok (none ∷ row)
  parse_row (p ∷ ps) (none ∷ cells) = do row ← parse_row ps cells; ok (none ∷ row)
  parse_row [] (some raw ∷ cells) = err (thrown [])
  parse_row (p ∷ ps) (some raw ∷ cells) = do v ← p raw; row ← parse_row ps cells; ok (some v ∷ row)

  abbrev pub push_row : FastQuery V → Result Fault (Row V) → FastQuery V
  push_row q (ok row) = record q { rows = q.rows ++ row ∷ [] }
  push_row q (err fault) = record q { buffered_error = some fault }

  pub handle_data_row : FastQuery V → List (Option Text) → FastQuery V
  unfolding parse_row
  handle_data_row q cells =
      if q.settled || is_some q.buffered_error then q else push_row q (parse_row q.parsers cells)

  abbrev pub with_counts : FastQuery V → Option Text → Option Text → FastQuery V
  with_counts q (some a) (some b) = record q {
    oid = some (parse_int a);
    row_count = some (parse_int b);
  }
  with_counts q none (some b) = record q { row_count = some (parse_int b) }
  with_counts q (some a) none = record q { row_count = some (parse_int a) }
  with_counts q none none = q

  abbrev pub with_tag : FastQuery V → Option Tag → FastQuery V
  with_tag q none = q
  with_tag q (some t) = with_counts (record q { command = some t.word }) t.second t.third

  pub handle_command_complete : FastQuery V → Text → FastQuery V
  unfolding command_tag
  handle_command_complete q text = with_tag q (command_tag text)

  pub handle_portal_suspended : FastQuery V → FastQuery V
  handle_portal_suspended q = record q {
    buffered_error = some (or_fault q.buffered_error unexpected_portal_suspended);
  }

  pub handle_error : FastQuery V → Fault → FastQuery V
  unfolding settle
  handle_error q fault = settle q (some (or_fault q.buffered_error fault))

  -- NoData is remembered as no fields.
  abbrev pub note_no_data : FastQuery V → FastQuery V
  note_no_data q =
      if q.describe_sent && not q.fields_received && not q.settled
      then record q { fields_cache = put q.name [] q.fields_cache }
      else q

  abbrev pub finish : FastQuery V → Option Fault → FastQuery V
  finish q (some fault) = settle q (some fault)
  finish q none = settle (note_no_data q) none

  pub handle_ready_for_query : FastQuery V → FastQuery V
  unfolding settle
  handle_ready_for_query q = finish q q.buffered_error

  -- pg's client hands a message to its handler.
  pub handle : FastQuery V → Message → FastQuery V × List Call
  unfolding handle_row_description handle_data_row handle_command_complete handle_portal_suspended
      handle_error handle_ready_for_query
  handle q (row_description fields) = (handle_row_description q fields, [])
  handle q (data_row cells) = (handle_data_row q cells, [])
  handle q (command_complete text) = (handle_command_complete q text, [])
  handle q empty_query = (q, [])
  handle q portal_suspended = (handle_portal_suspended q, [])
  handle q copy_in_response = (q, copy_fail no_source ∷ [])
  handle q copy_data = (q, [])
  handle q (error fault) = (handle_error q fault, [])
  handle q ready_for_query = (handle_ready_for_query q, [])

  pub handle_all : FastQuery V → List Message → FastQuery V
  handle_all q [] = q
  handle_all q (m ∷ ms) = handle_all (handle q m).0 ms

  abbrev pub submit_warm :
      FastQuery V → List Field → Result Fault (List (Parser V)) → FastQuery V × List Call
  submit_warm q fields (ok parsers) = (apply_fields q fields (ok parsers) none, execute ∷ sync ∷ [])
  submit_warm q fields (err fault) = (apply_fields q fields (err fault) none, sync ∷ [])

  abbrev pub submit_fields : FastQuery V → Option (List Field) → FastQuery V × List Call
  submit_fields q none = (record q { describe_sent = true }, describe ∷ execute ∷ sync ∷ [])
  submit_fields q (some fields) = submit_warm q fields (resolve_parsers q.types fields)

  abbrev pub submit_bound :
      FastQuery V → Result Fault (List (Option Text)) → FastQuery V × List Call
  submit_bound q (err fault) = (record q { buffered_error = some fault }, sync ∷ [])
  submit_bound q (ok values) =
      let (q', calls) = submit_fields q (get q.name q.fields_cache) in
      (q', bind q.name values ∷ calls)

  -- `previous` is the connection's entry for the name; `binding` is what pg's bind makes of the
  -- values.
  pub submit :
      FastQuery V
      → Option Text
      → Result Fault (List (Option Text))
      → FastQuery V × List Call × Option Fault
  unfolding resolve_parsers
  submit q previous binding =
      if clashes previous q.text
      then (q, [], some (not_unique q.name))
      else let (q', calls) = submit_bound q binding in
        (q', cork ∷ (parse_calls previous q.name q.text ++ (calls ++ uncork ∷ [])), none)
