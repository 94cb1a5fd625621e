-- ===== src/Rasp/Names.antt =====
-- The names of protocol/rasp/kfrasp_string.c, and the tables of commands of kfrasp.c.
use jklibs.Common.{ℕ, Bool, List, [], ◌∷◌, Option, none, some, ◌==◌, if◌then◌else◌, take}
use jklibs.Common.Text.{codes}

abbrev pub rasp_key : List ℕ
rasp_key = codes "09d08113-74b4-4ada-a04e-17358b6d0203"

abbrev pub m_head : List ℕ
m_head = codes "MsgHead"

abbrev pub m_cmd : List ℕ
m_cmd = codes "ServiceCode"

abbrev pub m_subcmd : List ℕ
m_subcmd = codes "SrcSysID"

abbrev pub m_tm : List ℕ
m_tm = codes "transactionID"

abbrev pub m_sign : List ℕ
m_sign = codes "SrcSysSign"

abbrev pub m_body : List ℕ
m_body = codes "MsgBody"

abbrev pub m_result : List ℕ
m_result = codes "result"

abbrev pub m_result_code : List ℕ
m_result_code = codes "resultCode"

abbrev pub m_result_data : List ℕ
m_result_data = codes "resultData"

abbrev pub m_operation : List ℕ
m_operation = codes "operation"

abbrev pub m_ccmd : List ℕ
m_ccmd = codes "cmd"

abbrev pub m_source : List ℕ
m_source = codes "source"

abbrev pub m_desc : List ℕ
m_desc = codes "desc"

-- KF_JSON_STRING: a point before the name, in 64 bytes.
abbrev pub json_name : List ℕ → List ℕ
json_name name = b'.' ∷ take 62 name

-- RaspCmd
abbrev pub cmd_table : List (ℕ × List ℕ)
cmd_table = (1, codes "query") ∷ ((2, codes "control") ∷ ((3, codes "notify") ∷ []))

-- RaspSubCmd
abbrev pub subcmd_table : List (ℕ × List ℕ)
subcmd_table =
    (1, codes "register")
    ∷ ((2, codes "bindRequest")
        ∷ ((3, codes "connectAuthority")
            ∷ ((5, codes "bindLists") ∷ ((6, codes "unbindRequest") ∷ []))))

-- kf_rasp_cmd_int_str, kf_rasp_subcmd_int_str: the name of a number.
unfoldable pub int_str : List (ℕ × List ℕ) → ℕ → Option (List ℕ)
int_str [] n = none
int_str ((m, name) ∷ table) n = if n == m then some name else int_str table n

-- kf_rasp_cmd_str_int, kf_rasp_subcmd_str_int: the number of a name, 0 for a name that is not in
-- the table. `same` tells whether kf_string_compare gives 0.
unfoldable pub str_int : (List ℕ → List ℕ → Bool) → List (ℕ × List ℕ) → List ℕ → ℕ
str_int same [] s = 0
str_int same ((m, name) ∷ table) s = if same s name then m else str_int same table s
