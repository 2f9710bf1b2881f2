-- ===== src/Duplex/Constants.antt =====
-- src/duplex/constants.ts
use prisma_pglite_bridge.Prelude.{ℕ, Bool, ◌||◌, ◌==◌}

abbrev pub flush : ℕ
flush = 0x48

abbrev pub sync : ℕ
sync = 0x53

abbrev pub terminate : ℕ
terminate = 0x58

abbrev pub query : ℕ
query = 0x51

abbrev pub copy_data : ℕ
copy_data = 0x64

abbrev pub copy_done : ℕ
copy_done = 0x63

abbrev pub copy_fail : ℕ
copy_fail = 0x66

abbrev pub ready_for_query : ℕ
ready_for_query = 0x5a

abbrev pub error_response : ℕ
error_response = 0x45

abbrev pub row_description : ℕ
row_description = 0x54

abbrev pub copy_in_response : ℕ
copy_in_response = 0x47

abbrev pub rfq_status_idle : ℕ
rfq_status_idle = 0x49

abbrev pub rfq_status_in_transaction : ℕ
rfq_status_in_transaction = 0x54

abbrev pub rfq_status_failed : ℕ
rfq_status_failed = 0x45

abbrev pub pg_type_oid_char : ℕ
pg_type_oid_char = 18

abbrev pub pg_type_oid_text : ℕ
pg_type_oid_text = 25

abbrev pub pg_first_user_oid : ℕ
pg_first_user_oid = 16384

-- `EQP_MESSAGES.has(type)`: Parse, Bind, Describe, Execute, Close.
abbrev pub is_eqp_message : ℕ → Bool
is_eqp_message t = t == 0x50 || t == 0x42 || t == 0x44 || t == 0x45 || t == 0x43

abbrev pub max_message_length : ℕ
max_message_length = 1073741824

abbrev pub max_copy_aggregate_bytes : ℕ
max_copy_aggregate_bytes = 268435456
