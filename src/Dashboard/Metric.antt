-- ===== src/Dashboard/Metric.antt =====
-- cmd/vortex-dashboard/main.go: `pollNode` and `parseNodeTargets`. The field with the lag is never
-- set, and is left out.
use Prim.Native.Nat.{◌+◌}
use vortex_kv_cache.Base.{
  ℕ, ◌==◌, if◌then◌else◌, Option, none, some, ◌||◌, List, [], ◌∷◌, ◌++◌, Bytes, bytes, ◌≟◌,
}
use vortex_kv_cache.Base.Int.{ℤ, pos}
use vortex_kv_cache.Store.{Outcome, panic, returns}
use vortex_kv_cache.Resp.Value.{Value, value, slice, end, cons, new_bulk_string_from_string}
use vortex_kv_cache.Resp.Decimal.{format_nat}
use vortex_kv_cache.Resp.Writer.{write_array}
use vortex_kv_cache.Resp.Reader.{ok, fail, panics, no_fuel, read_value}
use vortex_kv_cache.Server.Conn.{error_text}
use vortex_kv_cache.Dashboard.Strings.{
  trim_space, split, cut_at, has_prefix, after_index, before_byte, parse_number,
}

pub record NodeMetric : Type 0 where
  pub name : Bytes
  pub addr : Bytes
  pub status : Bytes
  pub role : Bytes
  pub keys : ℤ
  pub uptime_sec : ℤ
  pub master_host : Bytes
  pub link_status : Bytes
  pub offset : ℤ
  pub error_message : Bytes

unfoldable pub down_metric : Bytes → Bytes → NodeMetric
down_metric name addr = record {
  name = name;
  addr = addr;
  status = bytes "DOWN";
  role = bytes "unknown";
  keys = pos 0;
  uptime_sec = pos 0;
  master_host = [];
  link_status = [];
  offset = pos 0;
  error_message = [];
}

-- the case `db0`
unfoldable pub set_keys : Bytes → NodeMetric → NodeMetric
unfolding after_index before_byte parse_number
set_keys v m = elim (after_index (bytes "keys=") v) [
  | none ↦ m
  | some sub ↦ record m { keys = parse_number (before_byte b',' sub) }
]

-- the cases of the loop
unfoldable pub set_field : Bytes → Bytes → NodeMetric → NodeMetric
unfolding ◌≟◌ parse_number set_keys
set_field k v m =
    if k ≟ bytes "role"
    then record m { role = v }
    else if k ≟ bytes "master_host"
    then record m { master_host = v }
    else if k ≟ bytes "master_link_status"
    then record m { link_status = v }
    else if k ≟ bytes "uptime_in_seconds"
    then record m { uptime_sec = parse_number v }
    else if (k ≟ bytes "slave_repl_offset") || (k ≟ bytes "master_repl_offset")
    then record m { offset = parse_number v }
    else if k ≟ bytes "db0"
    then set_keys v m
    else m

-- a line without the space around it
unfoldable pub read_trimmed : Bytes → NodeMetric → NodeMetric
unfolding ◌≟◌ cut_at trim_space set_field
read_trimmed line m =
    if has_prefix (bytes "#") line || (line ≟ []) then m else elim (cut_at b':' line) [
      | none ↦ m
      | some (k, v) ↦ set_field (trim_space k) (trim_space v) m
    ]

unfoldable pub read_info_line : Bytes → NodeMetric → NodeMetric
unfolding trim_space read_trimmed
read_info_line line m = read_trimmed (trim_space line) m

-- the loop
unfoldable pub read_lines : List Bytes → NodeMetric → NodeMetric
unfolding read_info_line
read_lines [] m = m
read_lines (line ∷ lines) m = read_lines lines (read_info_line line m)

unfoldable pub read_info : Bytes → NodeMetric → NodeMetric
unfolding split read_lines
read_info info_str m = read_lines (split 10 info_str) m

-- what the node answers with: `res.Bulk`, or `res.Str` if that is empty
abbrev pub answer_text : Value → Bytes
answer_text (value typ str num bulk array nil) = elim bulk [
  | none ↦ str
  | some b ↦ elim b [ [] ↦ str | c ∷ s ↦ c ∷ s ]
]

-- what is sent to a node
unfoldable pub info_command : Bytes
unfolding write_array new_bulk_string_from_string
info_command = write_array (slice (cons (new_bulk_string_from_string (bytes "INFO")) end))

-- `failed` is the text of an error of dialing or sending, and `input` what the node sends before
-- the connection ends.
unfoldable pub poll_node : ℕ → ℕ → Bytes → Bytes → Option Bytes → Bytes → Outcome NodeMetric
unfolding down_metric read_value error_text read_info
poll_node bulk_limit array_limit name addr failed input =
    let metric = down_metric name addr in
    elim failed [
      | some text ↦ returns (record metric { error_message = text })
      | none ↦ elim (read_value bulk_limit array_limit input) [
        | ok res rest ↦
            returns (read_info (answer_text res) (record metric { status = bytes "UP" }))
        | fail e ↦ returns (record metric { error_message = error_text e })
        | panics ↦ panic
        | no_fuel ↦ returns metric
      ]
    ]

pub record NodeTarget : Type 0 where
  pub name : Bytes
  pub addr : Bytes

-- the name of the part `i`
abbrev pub default_name : ℕ → Bytes
unfolding format_nat
default_name i = if i == 0 then bytes "vortex-master" else bytes "vortex-replica-" ++ format_nat i

-- a part without the space around it
unfoldable pub target_of : ℕ → Bytes → NodeTarget
unfolding cut_at format_nat
target_of i p = elim (cut_at b'=' p) [
  | some (name, addr) ↦ record { name = name; addr = addr }
  | none ↦ record { name = default_name i; addr = p }
]

-- the loop, from the part `i` on
unfoldable pub targets_from : ℕ → List Bytes → List NodeTarget
unfolding trim_space target_of ◌≟◌
targets_from i [] = []
targets_from i (p ∷ ps) =
    let rest = targets_from (i + 1) ps in
    if trim_space p ≟ [] then rest else target_of i (trim_space p) ∷ rest

unfoldable pub parse_node_targets : Bytes → List NodeTarget
unfolding split targets_from
parse_node_targets raw = targets_from 0 (split b',' raw)
