-- ===== src/Resp/Progress.antt =====
-- internal/resp/reader.go ends on every input: the fuel of the model is enough, and a value takes
-- at least one byte. What a frame with too large a length does.
use vortex_kv_cache.Base.{
  ℕ, zero, suc, ◌-◌, ◌≤◌, ◌<◌, ◌^◌, ◌==◌, leb, if◌then◌else◌, Bool, true, false, ◌≡◌, [], ◌∷◌, ◌++◌,
  Bytes, bytes, length, take, drop, length-drop, arith, Bool-cases, Option-cases, inl, inr,
}
use vortex_kv_cache.Base.Int.{ℤ, pos, negsuc}
use vortex_kv_cache.Resp.Value.{
  Value, nil_slice, slice, end, cons, new_null_bulk_string, new_array, type_array, type_bulk_string,
  type_simple_string, type_error, type_integer,
}
use vortex_kv_cache.Resp.Decimal.{format_nat, parse_int}
use vortex_kv_cache.Resp.Writer.{crlf}
use vortex_kv_cache.Resp.Reader.{
  Result, ReadError, eof, unexpected_eof, Reader, ok, fail, panics, pure, and_then, ◌>>=◌, make,
  is_crlf, ends_in_cr, read_line, read_bytes, parse_or, read_full, read_elements, read_data,
  read_bulk, read_array, read_case, read_byte, read_frame, read_value,
}
use vortex_kv_cache.Resp.Frames.{read_line_lem, format_nat-IsLine, parse_nat_lem}

-- A value with at most `n` bytes behind it, an error or a panic.
pub data Within {A : Type 0} (n : ℕ) : Result A → Type 0 where
  ok_within : (a : A) (r : Bytes) → length r ≤ n → Within n (ok a r)
  fail_within : (e : ReadError) → Within n (fail e)
  panic_within : Within n panics

widen : {A : Type 0} {r : Result A} (n m : ℕ) → n ≤ m → Within n r → Within m r
widen n m h (ok_within a r k) = ok_within a r (omega arith)
widen n m h (fail_within e) = fail_within e
widen n m h panic_within = panic_within

-- a reader that ends on at most `k` bytes
abbrev Ends : {A : Type 0} → ℕ → Reader A → Type 0
Ends k m = (s : Bytes) → length s ≤ k → Within (length s) (m s)

and_then-Within :
    {A B : Type 0} {x : Result A} {f : A → Reader B} (n : ℕ)
    → Within n x
    → ((a : A) (r : Bytes) → length r ≤ n → Within (length r) (f a r))
    → Within n (and_then x f)
and_then-Within n (ok_within a r k) h = widen (length r) n k (h a r k)
and_then-Within n (fail_within e) h = fail_within e
and_then-Within n panic_within h = panic_within

bind-Ends :
    {A B : Type 0} {m : Reader A} {f : A → Reader B} (k : ℕ)
    → Ends k m
    → ((a : A) → Ends k (f a))
    → Ends k (m >>= f)
bind-Ends k e h s le = and_then-Within (length s) (e s le) (λ a r l. h a r (omega arith))

if-Ends :
    {A : Type 0} (b : Bool) (x y : Reader A) (k : ℕ)
    → Ends k x
    → Ends k y
    → Ends k (if b then x else y)
if-Ends true x y k e f = e
if-Ends false x y k e f = f

pure-Ends : {A : Type 0} (k : ℕ) (a : A) → Ends k (pure a)
pure-Ends k a s le = ok_within a s (omega arith)

read_bytes-Ends : (k : ℕ) → Ends k read_bytes
unfolding read_bytes
read_bytes-Ends k [] le = fail_within _
read_bytes-Ends k (c ∷ s) le = elim (Bool-cases (c == 10)) [
  | inl newline ↦ rw newline (ok_within (c ∷ []) s (omega arith))
  | inr other ↦ rw other (
      widen (length s) (suc (length s)) (omega arith) (
        and_then-Within (length s) (read_bytes-Ends k s (omega arith))
          (λ l r h. ok_within (c ∷ l) r (omega arith))))
]

read_line-Ends : (k : ℕ) → Ends k read_line
unfolding read_line
read_line-Ends k =
    bind-Ends k (read_bytes-Ends k)
      (λ line. if-Ends (ends_in_cr line) _ _ k (pure-Ends k _) (λ s le. fail_within _))

parse_or-Ends : (k : ℕ) (what line : Bytes) → Ends k (parse_or what line)
unfolding parse_or
parse_or-Ends k what line s le = elim (Option-cases (parse_int line)) [
  | inl bad ↦ rw (bad, parse_or) (fail_within _)
  | inr (n, good) ↦ rw (good, parse_or) (ok_within n s (omega arith))
]

if_fail :
    {A : Type 0} (b : Bool) (e f : ReadError) (n : ℕ)
    → Within {A = A} n (if b then fail e else fail f)
if_fail true e f n = fail_within e
if_fail false e f n = fail_within f

read_full-Ends : (k n : ℕ) → Ends k (read_full n)
unfolding read_full
read_full-Ends k n s le = elim (Bool-cases (leb n (length s))) [
  | inl fits ↦ rw fits (ok_within (take n s) (drop n s) (omega (arith, length-drop n s)))
  | inr short ↦ rw short (if_fail (length s == 0) eof unexpected_eof (length s))
]

make-Ends :
    {A : Type 0} (k limit n : ℕ) (next : Reader A) → Ends k next → Ends k (make limit n next)
make-Ends k limit n next e s le = elim (Bool-cases (leb n limit)) [
  | inl fits ↦ rw (fits, make) (e s le)
  | inr large ↦ rw (large, make) panic_within
]

read_elements-Ends :
    (k : ℕ) (read : Reader Value) (n : ℕ) → Ends k read → Ends k (read_elements read n)
unfolding read_elements
read_elements-Ends k read zero e = pure-Ends k end
read_elements-Ends k read (suc n) e =
    bind-Ends k e (λ v. bind-Ends k (read_elements-Ends k read n e) (λ vs. pure-Ends k (cons v vs)))

sign-Ends :
    {A : Type 0} (k : ℕ) (n : ℤ) (f g : ℕ → Reader A)
    → ((m : ℕ) → Ends k (f m))
    → ((m : ℕ) → Ends k (g m))
    → Ends k (elim n [ pos m ↦ f m | negsuc m ↦ g m ])
sign-Ends k (pos m) f g e d = e m
sign-Ends k (negsuc m) f g e d = d m

module _ (bulk_limit array_limit : ℕ) where
  read_data-Ends : (k n : ℕ) → Ends k (read_data bulk_limit array_limit n)
  unfolding read_data
  read_data-Ends k n = make-Ends k bulk_limit n _ (
      bind-Ends k (read_full-Ends k n) (λ buf.
        bind-Ends k (read_full-Ends k 2)
          (λ ends. if-Ends (is_crlf ends) _ _ k (pure-Ends k _) (λ s le. fail_within _))))

  read_bulk-Ends : (k : ℕ) → Ends k (read_bulk bulk_limit array_limit)
  unfolding read_bulk
  read_bulk-Ends k = bind-Ends k (read_line-Ends k) (λ line.
      bind-Ends k (parse_or-Ends k _ line) (λ n.
        sign-Ends k n (read_data bulk_limit array_limit) (λ m. pure new_null_bulk_string)
          (read_data-Ends k) (λ m. pure-Ends k _)))

  read_array-Ends :
      (k : ℕ) (read : Reader Value) → Ends k read → Ends k (read_array bulk_limit array_limit read)
  unfolding read_array
  read_array-Ends k read e = bind-Ends k (read_line-Ends k) (λ line.
      bind-Ends k (parse_or-Ends k _ line) (λ n.
        sign-Ends k n
          (λ m. make array_limit m do vals ← read_elements read m; pure (new_array (slice vals)))
          (λ m. pure (new_array nil_slice))
          (λ m.
            make-Ends k array_limit m _
              (bind-Ends k (read_elements-Ends k read m e) (λ vs. pure-Ends k _)))
          (λ m. pure-Ends k _)))

  read_case-Ends :
      (k : ℕ) (read : Reader Value) (prefix : ℕ)
      → Ends k read
      → Ends k (read_case bulk_limit array_limit read prefix)
  unfolding read_case
  read_case-Ends k read prefix e =
      if-Ends (prefix == type_simple_string) _ _ k
        (bind-Ends k (read_line-Ends k) (λ line. pure-Ends k _))
        (if-Ends (prefix == type_error) _ _ k
          (bind-Ends k (read_line-Ends k) (λ line. pure-Ends k _))
          (if-Ends (prefix == type_integer) _ _ k
            (bind-Ends k (read_line-Ends k)
              (λ line. bind-Ends k (parse_or-Ends k _ line) (λ n. pure-Ends k _)))
            (if-Ends (prefix == type_bulk_string) _ _ k (read_bulk-Ends k) (
              if-Ends (prefix == type_array) _ _ k (read_array-Ends k read e)
                (λ s le. fail_within _)))))

  read_frame-Within :
      (k : ℕ) (s : Bytes)
      → length s ≤ k
      → Within (length s - 1) (read_frame bulk_limit array_limit (suc k) s)
  unfolding read_frame read_byte
  read_frame-Within k [] le = fail_within _
  read_frame-Within zero (c ∷ s) le = absurd (omega arith)
  read_frame-Within (suc k) (c ∷ s) le = widen (length s) (suc (length s) - 1) (omega arith) (
      read_case-Ends k (read_frame bulk_limit array_limit (suc k)) c
        (λ t l. widen (length t - 1) (length t) (omega arith) (read_frame-Within k t l)) s
        (omega arith))

  -- On any bytes the reader ends, without running out of fuel: with an error, with a panic, or
  -- with a value, and then fewer bytes are left than it was given.
  pub read_value_ends : (s : Bytes) → Within (length s - 1) (read_value bulk_limit array_limit s)
  unfolding read_value
  read_value_ends s = read_frame-Within (length s) s (omega arith)

  -- If the length that a bulk string declares is above the limit of `make` and below 2^63, then
  -- reading it panics, whatever bytes follow.
  pub read_value_panics :
      (n : ℕ) (rest : Bytes)
      → bulk_limit < n
      → n < 2 ^ 63
      → read_value bulk_limit array_limit (type_bulk_string ∷ ((format_nat n ++ crlf) ++ rest))
        ≡ panics
  unfolding read_value read_frame read_byte read_case read_bulk read_data
  read_value_panics n rest large small =
      let over : leb n bulk_limit ≡ false = ground arith in
      rw (read_line_lem (format_nat n) rest (format_nat-IsLine n), read_bulk)
        (rw (parse_nat_lem (bytes "invalid bulk length") rest n small) (rw (over, read_data)))
