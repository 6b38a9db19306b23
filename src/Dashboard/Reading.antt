-- ===== src/Dashboard/Reading.antt =====
-- cmd/vortex-dashboard/main.go: the loop over the lines of an INFO text, block by block.
use vortex_kv_cache.Base.{
  ℕ, ◌==◌, ◌≡◌, ◌∙◌, refl, ap, sym, Bool, true, false, ◌&&◌, not, some, ◌≟◌, [], ◌∷◌, ◌++◌, Bytes,
  arith, append_assoc, append_nil,
}
use vortex_kv_cache.Resp.Writer.{crlf}
use vortex_kv_cache.Resp.Frames.{IsLine}
use vortex_kv_cache.Dashboard.Strings.{split, trim_space, trim_end, cut_at}
use vortex_kv_cache.Dashboard.Trimmed.{
  visible, starts_visible, ends_visible, trim_space_lem, trim_space-same, ends_visible-append,
}
use vortex_kv_cache.Dashboard.Metric.{
  NodeMetric, set_field, read_trimmed, read_info_line, read_lines, read_info,
}

-- A block of whole lines, and what the loop makes of it.
pub record Reads (a : Bytes) (f : NodeMetric → NodeMetric) : Type 0 where
  pub reads : (b : Bytes) (m : NodeMetric) → read_info (a ++ b) m ≡ read_info b (f m)

split_lem :
    (t rest : Bytes) → IsLine t → split 10 ((t ++ crlf) ++ rest) ≡ (t ++ (13 ∷ [])) ∷ split 10 rest
unfolding split
split_lem [] rest h = refl
split_lem (c ∷ t) rest h = rw (h.0, split_lem t rest h.1)

-- a line with visible ends
pub line-Reads :
    (t : Bytes)
    → IsLine t
    → starts_visible t ≡ true
    → ends_visible t ≡ true
    → Reads (t ++ crlf) (read_trimmed t)
unfolding read_info read_lines read_info_line trim_end
line-Reads t h s e = record {
  reads = λ b m.
      rw (split_lem t b h) (
        ap (λ u. read_lines (split 10 b) (read_trimmed u m)) (trim_space_lem t (13 ∷ []) s e refl));
}

-- two blocks
pub Reads-append :
    (f g : NodeMetric → NodeMetric) (a b : Bytes)
    → Reads a f
    → Reads b g
    → Reads (a ++ b) (λ m. g (f m))
Reads-append f g a b r q = record {
  reads =
      λ c m. ap (λ t. read_info t m) (append_assoc a b c) ∙ r.reads (b ++ c) m ∙ q.reads c (f m);
}

-- a block and the text of a line
pub Reads-text :
    (f g : NodeMetric → NodeMetric) (a t : Bytes)
    → Reads a f
    → Reads (t ++ crlf) g
    → Reads ((a ++ t) ++ crlf) (λ m. g (f m))
Reads-text f g a t r q = record {
  reads = λ c m.
      ap (λ u. read_info (u ++ c) m) (append_assoc a t crlf)
      ∙ (Reads-append f g a (t ++ crlf) r q).reads c m;
}

nothing : (m : NodeMetric) → read_info [] m ≡ m
unfolding read_info split read_lines read_info_line read_trimmed trim_space trim_end
nothing m = refl

-- a whole text
pub read_info_lem :
    (f : NodeMetric → NodeMetric) (a : Bytes) (m : NodeMetric) → Reads a f → read_info a m ≡ f m
read_info_lem f a m r = ap (λ t. read_info t m) (sym (append_nil a)) ∙ r.reads [] m ∙ nothing (f m)

-- a key as the nodes write it
abbrev pub is_key : Bytes → Bool
is_key [] = true
is_key (c ∷ k) = visible c && not (c == b':') && not (c == b'#') && is_key k

-- a value as the nodes write it
abbrev pub IsValue : Bytes → Type 0
IsValue v = IsLine v × (starts_visible v ≡ true) × (ends_visible v ≡ true)

cut_at_lem : (k v : Bytes) → is_key k ≡ true → cut_at b':' (k ++ (b':' ∷ v)) ≡ some (k, v)
unfolding cut_at
cut_at_lem [] v h = refl
cut_at_lem (c ∷ k) v h =
    let other : (c == b':') ≡ false = ground arith in
    let rest : is_key k ≡ true = ground arith in rw (cut_at_lem k v rest, other)

key-visible : (c : ℕ) (k : Bytes) → is_key (c ∷ k) ≡ true → ends_visible (c ∷ k) ≡ true
key-visible c [] h = ground arith
key-visible c (d ∷ k) h = key-visible d k (ground arith)

key-IsLine : (k v : Bytes) → is_key k ≡ true → IsLine v → IsLine (k ++ (b':' ∷ v))
key-IsLine [] v h l = (refl, l)
key-IsLine (c ∷ k) v h l = (ground arith, key-IsLine k v (ground arith) l)

-- a line with a key and a value
read_trimmed_lem :
    (c : ℕ) (k v : Bytes) (m : NodeMetric)
    → is_key (c ∷ k) ≡ true
    → starts_visible v ≡ true
    → ends_visible v ≡ true
    → read_trimmed (c ∷ k ++ (b':' ∷ v)) m ≡ set_field (c ∷ k) v m
unfolding read_trimmed ◌≟◌
read_trimmed_lem c k v m h s e =
    let no_comment : (b'#' == c) ≡ false = ground arith in
    let name = trim_space-same (c ∷ k) (ground arith) (key-visible c k h) in
    rw (no_comment, cut_at_lem (c ∷ k) v h, name, trim_space-same v s e)

pub field-Reads :
    (c : ℕ) (k v : Bytes)
    → is_key (c ∷ k) ≡ true
    → IsValue v
    → Reads ((c ∷ k ++ (b':' ∷ v)) ++ crlf) (set_field (c ∷ k) v)
field-Reads c k v h (l, s, e) = record {
  reads = λ b m.
      let ends = ends_visible-append (c ∷ k) (b':' ∷ v) (ends_visible-append (b':' ∷ []) v e) in
      (line-Reads (c ∷ k ++ (b':' ∷ v)) (key-IsLine (c ∷ k) v h l) (ground arith) ends).reads b m
      ∙ ap (read_info b) (read_trimmed_lem c k v m h s e);
}
