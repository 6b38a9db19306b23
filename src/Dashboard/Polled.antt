-- ===== src/Dashboard/Polled.antt =====
-- What `INFO` says of a node (internal/server/handler.go), the dashboard
-- (cmd/vortex-dashboard/main.go) reads back: the whole text, and the poll of a node.
use vortex_kv_cache.Base.{
  ℕ, ◌≡◌, ◌==◌, ◌∙◌, ◌≤◌, ◌<◌, ◌^◌, refl, ap, sym, append_nil, false, some, none, [], ◌∷◌, ◌++◌,
  Bytes, bytes, ◌≟◌, All, Option, arith, length,
}
use vortex_kv_cache.Base.Int.{ℤ, pos, IsInt64}
use vortex_kv_cache.Eviction.{EvictionPolicy}
use vortex_kv_cache.Store
use vortex_kv_cache.Store.{Store, returns}
use vortex_kv_cache.Resp.Value.{new_bulk_string_from_string, new_bulk_string_bytes}
use vortex_kv_cache.Resp.Decimal.{format_nat, format_int, IsDigit, All-format_nat}
use vortex_kv_cache.Resp.Writer.{crlf, write_value}
use vortex_kv_cache.Resp.Frames
use vortex_kv_cache.Resp.Reader.{ok, read_value}
use vortex_kv_cache.Resp.RoundTrip.{read-write}
use vortex_kv_cache.Resp.Frames.{IsLine, format_nat-IsLine, format_int-IsLine}
use vortex_kv_cache.Server.Dispatch.{Process, stats, info_text}
use vortex_kv_cache.Replication.Manager.{
  Node, Role, role_master, role_replica, role_text, info, replication,
}
use vortex_kv_cache.Dashboard.Strings.{
  trim_space, trim_front, trim_end, cut_at, after_index, before_byte,
}
use vortex_kv_cache.Dashboard.Trimmed.{ends_visible-append, format_nat-visible}
use vortex_kv_cache.Dashboard.Numbers.{parse_number-format}
use vortex_kv_cache.Dashboard.Metric.{
  NodeMetric, set_field, set_keys, read_trimmed, read_info, poll_node, down_metric, answer_text,
}
use vortex_kv_cache.Dashboard.Reading.{
  Reads, Reads-append, line-Reads, field-Reads, read_info_lem, IsValue,
}
use vortex_kv_cache.Dashboard.Info.{
  number-IsValue, count-IsValue, blank-Reads, Reads-same, master-Reads, replica-Reads,
  master_fields, replica_fields, lag_of, link_text,
}

append-IsLine : (s t : Bytes) → IsLine s → IsLine t → IsLine (s ++ t)
append-IsLine [] t h k = k
append-IsLine (c ∷ s) t h k = (h.0, append-IsLine s t h.1 k)

before_byte_lem : (s rest : Bytes) → All IsDigit s → before_byte b',' (s ++ (b',' ∷ rest)) ≡ s
unfolding before_byte
before_byte_lem [] rest h = refl
before_byte_lem (c ∷ s) rest h =
    let other : (c == b',') ≡ false = ground (arith, h.0) in rw (other, before_byte_lem s rest h.1)

server-Reads : Reads (bytes "# Server" ++ crlf) (λ m. m)
unfolding read_trimmed ◌≟◌
server-Reads = Reads-same _ _ (line-Reads (bytes "# Server") (ground arith) refl refl) (λ m. refl)

version-Reads : Reads (bytes "vortex_version:0.1.0" ++ crlf) (λ m. m)
unfolding set_field ◌≟◌
version-Reads =
    Reads-same _ _
      (field-Reads b'v' (bytes "ortex_version") (bytes "0.1.0") refl (ground arith, refl, refl))
      (λ m. refl)

go-Reads : (v : Bytes) → IsValue v → Reads ((bytes "go_version:" ++ v) ++ crlf) (λ m. m)
unfolding set_field ◌≟◌
go-Reads v h = Reads-same _ _ (field-Reads b'g' (bytes "o_version") v refl h) (λ m. refl)

id-Reads : (n : ℕ) → Reads ((bytes "process_id:" ++ format_nat n) ++ crlf) (λ m. m)
unfolding set_field ◌≟◌
id-Reads n =
    Reads-same _ _ (field-Reads b'p' (bytes "rocess_id") _ refl (count-IsValue n)) (λ m. refl)

replication-Reads : Reads (bytes "# Replication" ++ crlf) (λ m. m)
unfolding read_trimmed ◌≟◌
replication-Reads =
    Reads-same _ _ (line-Reads (bytes "# Replication") (ground arith) refl refl) (λ m. refl)

keyspace-Reads : Reads (bytes "# Keyspace" ++ crlf) (λ m. m)
unfolding read_trimmed ◌≟◌
keyspace-Reads =
    Reads-same _ _ (line-Reads (bytes "# Keyspace") (ground arith) refl refl) (λ m. refl)

stats_text : ℤ → ℤ → ℕ → Bytes
stats_text a b n =
    bytes "Shards: "
    ++ format_int a
    ++ bytes ", MaxKeysPerShard: "
    ++ format_int b
    ++ bytes ", Keys: "
    ++ format_nat n

stats-Reads : (a b : ℤ) (n : ℕ) → Reads (stats_text a b n ++ crlf) (λ m. m)
unfolding stats_text read_trimmed set_field ◌≟◌ cut_at trim_space trim_front trim_end
stats-Reads a b n =
    let x = bytes "Shards: " ++ format_int a in
    let y = x ++ bytes ", MaxKeysPerShard: " in
    let z = y ++ format_int b ++ bytes ", Keys: " in
    let h = append-IsLine (bytes "Shards: ") (format_int a) (ground arith) (format_int-IsLine a) in
    let k = append-IsLine x (bytes ", MaxKeysPerShard: ") h (ground arith) in
    let l = append-IsLine y (format_int b) k (format_int-IsLine b) in
    let q = append-IsLine (y ++ format_int b) (bytes ", Keys: ") l (ground arith) in
    Reads-same _ _
      (line-Reads (stats_text a b n) (append-IsLine z (format_nat n) q (format_nat-IsLine n)) refl
        (ends_visible-append z (format_nat n) (format_nat-visible n).1))
      (λ m. refl)

keys_text : ℕ → Bytes
keys_text n = bytes "keys=" ++ format_nat n ++ bytes ",expires=0"

keys-Reads :
    (n : ℕ)
    → Reads
        ((bytes "db0:keys=" ++ format_nat n ++ bytes ",expires=0") ++ crlf)
        (set_field (bytes "db0") (keys_text n))
unfolding keys_text
keys-Reads n =
    let lines =
      append-IsLine (bytes "keys=" ++ format_nat n) (bytes ",expires=0")
        (append-IsLine (bytes "keys=") (format_nat n) (ground arith) (format_nat-IsLine n))
        (ground arith) in
    field-Reads b'd' (bytes "b0") (keys_text n) refl
      (lines, refl, ends_visible-append (bytes "keys=" ++ format_nat n) (bytes ",expires=0") refl)

-- what the dashboard shows of the replication of a node
abbrev repl_fields : Role → ℤ → Node → NodeMetric → NodeMetric
repl_fields role_master now n = master_fields n.manager.master_offset
repl_fields role_replica now n =
    replica_fields n.manager.master_addr (link_text n.manager.master_link_up) (lag_of now n)
      n.manager.master_offset

repl-Reads :
    (now : ℤ) (n : Node) (r : Role)
    → n.manager.role ≡ r
    → (r ≡ role_replica → IsValue n.manager.master_addr)
    → Reads (info now n ++ crlf) (repl_fields r now n)
repl-Reads now n role_master e v = master-Reads now n e
repl-Reads now n role_replica e v = replica-Reads now n e (v refl)

abbrev pub host_of : Role → Node → Bytes
host_of role_master n = []
host_of role_replica n = n.manager.master_addr

abbrev pub link_of : Role → Node → Bytes
link_of role_master n = []
link_of role_replica n = link_text n.manager.master_link_up

-- what the dashboard is to show of a node at `addr`, at its number of keys and the seconds it is up
abbrev pub shown : Role → ℕ → ℤ → Node → Bytes → Bytes → NodeMetric
shown r keys uptime n name addr = record {
  name = name;
  addr = addr;
  status = bytes "UP";
  role = role_text r;
  keys = pos keys;
  uptime_sec = uptime;
  master_host = host_of r n;
  link_status = link_of r n;
  offset = n.manager.master_offset;
  error_message = [];
}

abbrev with_keys : ℕ → NodeMetric → NodeMetric
with_keys keys m = record m { keys = pos keys }

keys_lem :
    (keys : ℕ) (m : NodeMetric)
    → keys < 2 ^ 63
    → set_field (bytes "db0") (keys_text keys) m ≡ with_keys keys m
unfolding set_field set_keys ◌≟◌ after_index keys_text format_int
keys_lem keys m h = rw (
  before_byte_lem (format_nat keys) (bytes "expires=0") (All-format_nat keys),
  parse_number-format (pos keys) (h, omega arith),
)

fields_lem :
    (r : Role) (now uptime : ℤ) (n : Node) (name addr : Bytes)
    → IsInt64 uptime
    → IsInt64 n.manager.master_offset
    → repl_fields r now n (
        set_field
          (bytes "uptime_in_seconds")
          (format_int uptime)
          (record (down_metric name addr) { status = bytes "UP" }))
      ≡ shown r 0 uptime n name addr
unfolding down_metric set_field ◌≟◌ role_text
fields_lem role_master now uptime n name addr u o =
    rw (parse_number-format uptime u, parse_number-format n.manager.master_offset o)
fields_lem role_replica now uptime n name addr u o =
    rw (parse_number-format uptime u, parse_number-format n.manager.master_offset o)

answer_text_lem : (b : Bytes) → answer_text (new_bulk_string_from_string b) ≡ b
unfolding new_bulk_string_from_string
answer_text_lem [] = refl
answer_text_lem (c ∷ b) = refl

poll_node_lem :
    (bulk_limit array_limit : ℕ) (name addr b : Bytes)
    → read_value bulk_limit array_limit (write_value (new_bulk_string_from_string b))
      ≡ ok (new_bulk_string_from_string b) []
    → poll_node bulk_limit array_limit name addr none (write_value (new_bulk_string_from_string b))
      ≡ returns (read_info b (record (down_metric name addr) { status = bytes "UP" }))
unfolding poll_node
poll_node_lem bulk_limit array_limit name addr b e = rw (e, poll_node, answer_text_lem b)

module _ (P : EvictionPolicy) (hash : Bytes → ℕ) (clock : ℕ → ℤ)
    (register : Option (ℤ → Store P Node → Node → Node)) (process : Process) (s : Store P Node)
    (n : Node) where
  abbrev pub text : Bytes
  text = info_text P Node hash clock (some replication) register process s n

  text-Reads :
      IsValue process.go_version
      → (n.manager.role ≡ role_replica → IsValue n.manager.master_addr)
      → Reads text (λ m. set_field (bytes "db0") (keys_text (Store.len P Node (clock 0) s)) (
          repl_fields n.manager.role
            (clock 1)
            n
            (set_field (bytes "uptime_in_seconds") (format_int process.uptime) m)))
  unfolding info_text stats stats_text
  text-Reads g v =
      Reads-append _ _ _ _
        (Reads-append _ _ _ _
          (Reads-append _ _ _ _
            (Reads-append _ _ _ _
              (Reads-append _ _ _ _
                (Reads-append _ _ _ _
                  (Reads-append _ _ _ _
                    (Reads-append _ _ _ _
                      (Reads-append _ _ _ _
                        (Reads-append _ _ _ _ (Reads-append _ _ _ _ server-Reads version-Reads)
                          (go-Reads process.go_version g))
                        (id-Reads process.process_id))
                      (field-Reads b'u' (bytes "ptime_in_seconds") _ refl
                        (number-IsValue process.uptime)))
                    blank-Reads)
                  replication-Reads)
                (repl-Reads (clock 1) n n.manager.role refl v))
              blank-Reads)
            keyspace-Reads)
          (stats-Reads s.cfg.shard_count s.cfg.max_keys_per_shard (Store.len P Node (clock 2) s)))
        (keys-Reads (Store.len P Node (clock 0) s))

  -- If the texts of a node, its Go version and for a replica the address of its master, are not
  -- empty, visible at both ends and without a newline, the seconds that it is up, its offset and
  -- its number of keys are int64 values, and the text of its `INFO` is within the limit of the
  -- reader and below 2^63, then the dashboard that gets this text as the reply of the node shows
  -- the node as up, with its role, its number of keys, the seconds that it is up and its offset,
  -- and for a replica with the address of its master and the state of its link.
  pub poll_node-info :
      (bulk_limit array_limit : ℕ) (name addr : Bytes)
      → IsValue process.go_version
      → (n.manager.role ≡ role_replica → IsValue n.manager.master_addr)
      → IsInt64 process.uptime
      → IsInt64 n.manager.master_offset
      → Store.len P Node (clock 0) s < 2 ^ 63
      → length text ≤ bulk_limit
      → length text < 2 ^ 63
      → poll_node bulk_limit array_limit name addr none
          (write_value (new_bulk_string_from_string text))
        ≡ returns (shown n.manager.role (Store.len P Node (clock 0) s) process.uptime n name addr)
  unfolding new_bulk_string_bytes new_bulk_string_from_string
  poll_node-info bulk_limit array_limit name addr g v u o k fits small =
      let first : NodeMetric = record (down_metric name addr) { status = bytes "UP" } in
      let frame = Frames.IsFrame.bulk text fits small in
      let keys = Store.len P Node (clock 0) s in
      let back : read_value bulk_limit array_limit (write_value (new_bulk_string_from_string text))
          ≡ ok (new_bulk_string_from_string text) [] =
        ap (read_value bulk_limit array_limit) (sym (append_nil _))
        ∙ read-write bulk_limit array_limit (new_bulk_string_from_string text) [] frame in
      poll_node_lem bulk_limit array_limit name addr text back
      ∙ ap returns (
          read_info_lem _ text first (text-Reads g v)
          ∙ keys_lem keys _ k
          ∙ ap (with_keys keys)
              (fields_lem n.manager.role (clock 1) process.uptime n name addr u o))
