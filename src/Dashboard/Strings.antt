-- ===== src/Dashboard/Strings.antt =====
-- The functions of Go's `strings` and `strconv` that cmd/vortex-dashboard/main.go calls.
use Prim.Native.Nat.{◌+◌, ◌-◌, ◌*◌}
use vortex_kv_cache.Base.{
  ℕ, zero, suc, ◌^◌, ◌==◌, ltb, leb, if◌then◌else◌, Option, none, some, Bool, true, false, ◌&&◌,
  ◌||◌, List, [], ◌∷◌, Bytes, length, drop,
}
use vortex_kv_cache.Base.Int.{ℤ, pos, negsuc}

-- How many bytes the space takes that a text starts with, and 0 if it starts with none: a space of
-- ASCII, or one of the other white space characters in UTF-8.
abbrev pub space_length : Bytes → ℕ
space_length [] = 0
space_length (c ∷ s) = if (leb 9 c && leb c 13) || (c == 32) then 1 else wide c s
  where
    three : ℕ → ℕ → ℕ → ℕ
    three c d e =
        if (c == 225) && (d == 154) && (e == 128)
        then 3
        else if (c == 226) && (d == 128) && (leb 128 e && leb e 138)
        then 3
        else if (c == 226) && (d == 128) && ((e == 168) || (e == 169) || (e == 175))
        then 3
        else if (c == 226) && (d == 129) && (e == 159)
        then 3
        else if (c == 227) && (d == 128) && (e == 128)
        then 3
        else 0

    wide : ℕ → Bytes → ℕ
    wide c [] = 0
    wide c (d ∷ s) = if (c == 194) && ((d == 133) || (d == 160)) then 2 else last c d s
      where
        last : ℕ → ℕ → Bytes → ℕ
        last c d [] = 0
        last c d (e ∷ s) = three c d e

-- `fuel` is the number of bytes
unfoldable pub trim_front : ℕ → Bytes → Bytes
trim_front zero s = s
trim_front (suc fuel) s = elim (space_length s) [
  | zero ↦ s
  | suc n ↦ trim_front fuel (drop (suc n) s)
]

-- a text that is one space, and nothing else
abbrev pub is_space : Bytes → Bool
is_space s = leb 1 (length s) && (space_length s == length s)

unfoldable pub trim_end : Bytes → Bytes
trim_end [] = []
trim_end (c ∷ s) = let rest = trim_end s in if is_space (c ∷ rest) then [] else c ∷ rest

-- `strings.TrimSpace`
unfoldable pub trim_space : Bytes → Bytes
unfolding trim_front trim_end
trim_space s = trim_end (trim_front (length s) s)

-- `strings.Split` at a byte
unfoldable pub split : ℕ → Bytes → List Bytes
split sep [] = [] ∷ []
split sep (c ∷ s) = let rest = split sep s in if c == sep then [] ∷ rest else add c rest
  where
    add : ℕ → List Bytes → List Bytes
    add c [] = (c ∷ []) ∷ []
    add c (t ∷ ts) = (c ∷ t) ∷ ts

-- `strings.SplitN` at a byte, into two parts at most; `none` is no part but the whole
unfoldable pub cut_at : ℕ → Bytes → Option (Bytes × Bytes)
cut_at sep [] = none
cut_at sep (c ∷ s) =
    let rest = cut_at sep s in
    if c == sep then some ([], s) else elim rest [ none ↦ none | some (a, b) ↦ some (c ∷ a, b) ]

abbrev pub has_prefix : Bytes → Bytes → Bool
has_prefix [] s = true
has_prefix (c ∷ p) [] = false
has_prefix (c ∷ p) (d ∷ s) = (c == d) && has_prefix p s

-- What stands behind the first `sub` in a text: `s[strings.Index(s, sub) + len(sub):]`, or `none`
-- if there is none.
unfoldable pub after_index : Bytes → Bytes → Option Bytes
after_index sub [] = if has_prefix sub [] then some [] else none
after_index sub (c ∷ s) =
    let rest = after_index sub s in
    if has_prefix sub (c ∷ s) then some (drop (length sub) (c ∷ s)) else rest

-- the text before the first `sep`, or the whole text
unfoldable pub before_byte : ℕ → Bytes → Bytes
before_byte sep [] = []
before_byte sep (c ∷ s) = let rest = before_byte sep s in if c == sep then [] else c ∷ rest

-- The loop of `strconv.ParseUint`: it stops at what is no digit, and at 2^64.
unfoldable pub scan_uint : Bytes → ℕ → Option ℕ
scan_uint [] n = some n
scan_uint (c ∷ s) n =
    let m = n * 10 + (c - b'0') in
    let rest = scan_uint s m in
    if ltb c b'0' || ltb b'9' c then none else if leb (2 ^ 64) m then some (2 ^ 64) else rest

abbrev pub clamp_pos : Option ℕ → ℤ
clamp_pos none = pos 0
clamp_pos (some n) = if ltb n (2 ^ 63) then pos n else pos (2 ^ 63 - 1)

abbrev pub clamp_neg : Option ℕ → ℤ
clamp_neg none = pos 0
clamp_neg (some zero) = pos 0
clamp_neg (some (suc n)) = if ltb n (2 ^ 63) then negsuc n else negsuc (2 ^ 63 - 1)

abbrev pub scan_digits_uint : Bytes → Option ℕ
unfolding scan_uint
scan_digits_uint [] = none
scan_digits_uint (c ∷ s) = scan_uint (c ∷ s) 0

-- The number that `strconv.ParseInt(s, 10, 64)` returns beside an error: 0 for an error of syntax,
-- the next int64 for one of range.
unfoldable pub parse_number : Bytes → ℤ
unfolding scan_uint
parse_number [] = pos 0
parse_number (c ∷ s) =
    if c == b'+'
    then clamp_pos (scan_digits_uint s)
    else if c == b'-'
    then clamp_neg (scan_digits_uint s)
    else clamp_pos (scan_digits_uint (c ∷ s))
