-- ===== src/Server/Paging.antt =====
-- Page tokens of internal/server/paging.go, and ListWorkflows of internal/server/server.go. The encoding of
-- tokens, Go's base64 and strconv, is a parameter.
pub mod Pages
use chronos_engine.Prelude.{
  ℕ, ◌+◌, ℤ, pos, pos_part, ltb, ltb_ℤ, leb_ℤ, String, Option, none, some, List, [], ◌∷◌, map,
  length, Bool, true, false, ◌&&◌, ◌||◌, ◌==◌, nat_eq, string_eq, if◌then◌else◌, take, drop,
}
use chronos_engine.Messages.{Bytes, WorkflowStatus, WorkflowExecution}
use chronos_engine.Store.Tables.{Db}
use chronos_engine.Store.Workflows.{ExecutionView, Scan, list_workflows}
use chronos_engine.Server.{Metrics, Reply, replies, rejects, Code, internal, to_proto_execution}

-- `base64.RawURLEncoding` and `strconv`.
pub record TokenText : Type 0 where
  pub encode_to_string : Bytes → String
  pub decode_string : String → Option Bytes
  pub itoa : ℤ → Bytes
  pub atoi : Bytes → Option ℤ

unfoldable pub encode_offset : TokenText → ℤ → String
encode_offset text offset = text.encode_to_string (text.itoa offset)

-- A number that is read, unless it is negative.
abbrev pub valid_offset : Option ℤ → ℤ
valid_offset none = pos 0
valid_offset (some n) = if ltb_ℤ n (pos 0) then pos 0 else n

abbrev pub read_offset : TokenText → Option Bytes → ℤ
read_offset text none = pos 0
read_offset text (some raw) = valid_offset (text.atoi raw)

unfoldable pub decode_offset : TokenText → String → ℤ
decode_offset text token =
    if token == "" then pos 0 else read_offset text (text.decode_string token)

pub record ListResponse : Type 0 where
  pub executions : List WorkflowExecution
  pub next_page_token : String

-- `offset` is what `decodeOffset` returns.
unfoldable pub next_token : TokenText → ℤ → ℤ → List ExecutionView → String
next_token text limit offset execs =
    if ltb 0 (length execs) && (leb_ℤ limit (pos 0) || length execs == pos_part limit)
    then encode_offset text (pos (pos_part offset + length execs))
    else ""

abbrev pub list_response : TokenText → ℤ → ℤ → Option (List ExecutionView) → Reply ListResponse
list_response text limit offset none = rejects internal
list_response text limit offset (some execs) = replies (record {
  executions = map to_proto_execution execs;
  next_page_token = next_token text limit offset execs;
})

-- A call reads, and raises no counter.
unfoldable pub serve_list_workflows :
    TokenText → Scan → WorkflowStatus → ℤ → String → Db → Reply ListResponse
serve_list_workflows text scan status_filter page_size page_token db =
    let offset = decode_offset text page_token in
    list_response text page_size offset (list_workflows scan status_filter page_size offset db)
