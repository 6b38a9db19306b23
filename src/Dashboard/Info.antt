-- ===== src/Dashboard/Info.antt =====
-- What `INFO` says of a node (internal/server/handler.go), the dashboard
-- (cmd/vortex-dashboard/main.go) reads back.
use vortex_kv_cache.Base.{
  ℕ, ◌≡◌, ◌∙◌, refl, ap, if◌then◌else◌, Bool, true, false, ◌++◌, Bytes, bytes, ◌≟◌, arith,
  append_assoc,
}
use vortex_kv_cache.Base.Int.{ℤ, pos, ltb_ℤ, ◌-ℤ◌}
use vortex_kv_cache.Server.Args.{seconds}
use vortex_kv_cache.Resp.Decimal.{format_nat, format_int}
use vortex_kv_cache.Resp.Writer.{crlf}
use vortex_kv_cache.Resp.Frames.{format_nat-IsLine, format_int-IsLine}
use vortex_kv_cache.Replication.Manager.{Node, role_master, role_replica, role_text, info}
use vortex_kv_cache.Dashboard.Strings.{split, trim_space, trim_front, trim_end}
use vortex_kv_cache.Dashboard.Trimmed.{format_nat-visible, format_int-visible}
use vortex_kv_cache.Dashboard.Metric.{
  NodeMetric, set_field, read_trimmed, read_info_line, read_lines, read_info,
}
use vortex_kv_cache.Dashboard.Reading.{Reads, Reads-text, field-Reads, IsValue}

pub number-IsValue : (z : ℤ) → IsValue (format_int z)
number-IsValue z = (format_int-IsLine z, (format_int-visible z).0, (format_int-visible z).1)

pub count-IsValue : (n : ℕ) → IsValue (format_nat n)
count-IsValue n = (format_nat-IsLine n, (format_nat-visible n).0, (format_nat-visible n).1)

pub blank-Reads : Reads crlf (λ m. m)
unfolding read_info split read_lines read_info_line read_trimmed trim_space trim_end trim_front ◌≟◌
blank-Reads = record { reads = λ b m. refl }

-- lines that say nothing to the dashboard
pub Reads-same :
    (a : Bytes) (f : NodeMetric → NodeMetric)
    → Reads a f
    → ((m : NodeMetric) → f m ≡ m)
    → Reads a (λ m. m)
Reads-same a f r h = record { reads = λ b m. r.reads b m ∙ ap (read_info b) (h m) }

-- a block, and a line in two parts
Reads-pair :
    (f g : NodeMetric → NodeMetric) (a k v : Bytes)
    → Reads a f
    → Reads ((k ++ v) ++ crlf) g
    → Reads (((a ++ k) ++ v) ++ crlf) (λ m. g (f m))
Reads-pair f g a k v r q = record {
  reads = λ c m.
      ap (λ u. read_info ((u ++ crlf) ++ c) m) (append_assoc a k v)
      ∙ (Reads-text f g a (k ++ v) r q).reads c m;
}

-- what a master says of the replication
abbrev pub master_fields : ℤ → NodeMetric → NodeMetric
master_fields offset m =
    set_field (bytes "master_repl_offset") (format_int offset) (
      set_field (bytes "connected_slaves") (bytes "0")
        (set_field (bytes "role") (bytes "master") m))

pub master-Reads :
    (now : ℤ) (n : Node)
    → n.manager.role ≡ role_master
    → Reads (info now n ++ crlf) (master_fields n.manager.master_offset)
unfolding info role_text
master-Reads now n e =
    rw (e, info)
      (rw e (
        Reads-pair _ _ _ (bytes "master_repl_offset:") _
          (Reads-text _ _ _ (bytes "connected_slaves:0")
            (field-Reads b'r' (bytes "ole") (bytes "master") refl (ground arith, refl, refl))
            (field-Reads b'c' (bytes "onnected_slaves") (bytes "0") refl
              (ground arith, refl, refl)))
          (field-Reads b'm' (bytes "aster_repl_offset") _ refl
            (number-IsValue n.manager.master_offset))))

-- what a replica says of the replication
abbrev pub replica_fields : Bytes → Bytes → ℤ → ℤ → NodeMetric → NodeMetric
replica_fields host link lag offset m = set_field (bytes "slave_repl_offset") (format_int offset) (
    set_field (bytes "master_last_io_seconds_ago") (format_int lag) (
      set_field (bytes "master_link_status") link
        (set_field (bytes "master_host") host (set_field (bytes "role") (bytes "slave") m))))

abbrev pub link_text : Bool → Bytes
link_text up = if up then bytes "up" else bytes "down"

link-IsValue : (up : Bool) → IsValue (link_text up)
link-IsValue true = (ground arith, refl, refl)
link-IsValue false = (ground arith, refl, refl)

abbrev pub lag_of : ℤ → Node → ℤ
lag_of now n =
    if ltb_ℤ (pos 0) n.manager.last_master_ack
    then seconds (now -ℤ n.manager.last_master_ack)
    else pos 0

pub replica-Reads :
    (now : ℤ) (n : Node)
    → n.manager.role ≡ role_replica
    → IsValue n.manager.master_addr
    → Reads (info now n ++ crlf) (
        replica_fields n.manager.master_addr
          (link_text n.manager.master_link_up)
          (lag_of now n)
          n.manager.master_offset)
unfolding info role_text
replica-Reads now n e v =
    rw (e, info)
      (rw e (
        Reads-pair _ _ _ (bytes "slave_repl_offset:") _
          (Reads-pair _ _ _ (bytes "master_last_io_seconds_ago:") _
            (Reads-pair _ _ _ (bytes "master_link_status:") _
              (Reads-pair _ _ _ (bytes "master_host:") _
                (field-Reads b'r' (bytes "ole") (bytes "slave") refl (ground arith, refl, refl))
                (field-Reads b'm' (bytes "aster_host") n.manager.master_addr refl v))
              (field-Reads b'm' (bytes "aster_link_status") _ refl
                (link-IsValue n.manager.master_link_up)))
            (field-Reads b'm' (bytes "aster_last_io_seconds_ago") _ refl
              (number-IsValue (lag_of now n))))
          (field-Reads b's' (bytes "lave_repl_offset") _ refl
            (number-IsValue n.manager.master_offset))))
