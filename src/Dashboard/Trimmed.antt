-- ===== src/Dashboard/Trimmed.antt =====
-- `strings.TrimSpace` on texts whose first and last byte are visible characters of ASCII.
use vortex_kv_cache.Base.{
  ℕ, suc, leb, ◌≡◌, ◌∙◌, refl, ap, Bool, true, false, ◌&&◌, [], ◌∷◌, ◌++◌, Bytes, length, arith,
  All, append_nil, sym,
}
use vortex_kv_cache.Base.Int.{ℤ, pos, negsuc}
use vortex_kv_cache.Resp.Decimal
use vortex_kv_cache.Resp.Decimal.{
  format_nat, format_int, IsDigit, StartsDigit, format_nat-StartsDigit, All-format_nat,
}
use vortex_kv_cache.Dashboard.Strings.{space_length, trim_front, is_space, trim_end, trim_space}

abbrev pub visible : ℕ → Bool
visible c = leb 33 c && leb c 126

abbrev pub starts_visible : Bytes → Bool
starts_visible [] = false
starts_visible (c ∷ s) = visible c

abbrev pub ends_visible : Bytes → Bool
ends_visible [] = false
ends_visible (c ∷ []) = visible c
ends_visible (c ∷ d ∷ s) = ends_visible (d ∷ s)

space_length-visible : (c : ℕ) (s : Bytes) → visible c ≡ true → space_length (c ∷ s) ≡ 0
space_length-visible c [] h = ground arith
space_length-visible c (d ∷ []) h = ground arith
space_length-visible c (d ∷ e ∷ s) h = ground arith

trim_front_lem : (s : Bytes) → starts_visible s ≡ true → trim_front (length s) s ≡ s
unfolding trim_front
trim_front_lem [] h = refl
trim_front_lem (c ∷ s) h = rw (space_length-visible c s h, trim_front)

is_space_lem : (s : Bytes) → ends_visible s ≡ true → is_space s ≡ false
is_space_lem [] h = refl
is_space_lem (c ∷ []) h = ground arith
is_space_lem (c ∷ d ∷ []) h = ground arith
is_space_lem (c ∷ d ∷ e ∷ []) h = ground arith
is_space_lem (c ∷ d ∷ e ∷ f ∷ s) h = ground arith

trim_end_lem : (s t : Bytes) → ends_visible s ≡ true → trim_end t ≡ [] → trim_end (s ++ t) ≡ s
unfolding trim_end
trim_end_lem [] t h e = cc
trim_end_lem (c ∷ []) t h e = rw (e, is_space_lem (c ∷ []) h)
trim_end_lem (c ∷ d ∷ s) t h e = rw (trim_end_lem (d ∷ s) t h e, is_space_lem (c ∷ d ∷ s) h)

starts_visible-append : (s t : Bytes) → starts_visible s ≡ true → starts_visible (s ++ t) ≡ true
starts_visible-append [] t h = cc
starts_visible-append (c ∷ s) t h = h

pub ends_visible-append : (s t : Bytes) → ends_visible t ≡ true → ends_visible (s ++ t) ≡ true
ends_visible-append [] t h = h
ends_visible-append (c ∷ []) [] h = cc
ends_visible-append (c ∷ []) (d ∷ t) h = h
ends_visible-append (c ∷ d ∷ s) t h = ends_visible-append (d ∷ s) t h

-- the text keeps its visible ends, and loses the space behind it
pub trim_space_lem :
    (s t : Bytes)
    → starts_visible s ≡ true
    → ends_visible s ≡ true
    → trim_end t ≡ []
    → trim_space (s ++ t) ≡ s
unfolding trim_space
trim_space_lem s t h k e =
    rw (trim_front_lem (s ++ t) (starts_visible-append s t h)) (trim_end_lem s t k e)

pub trim_space-same :
    (s : Bytes) → starts_visible s ≡ true → ends_visible s ≡ true → trim_space s ≡ s
unfolding trim_end
trim_space-same s h k = ap trim_space (sym (append_nil s)) ∙ trim_space_lem s [] h k refl

pub digits-visible : (s : Bytes) → All IsDigit s → starts_visible s ≡ true → ends_visible s ≡ true
digits-visible [] d h = cc
digits-visible (c ∷ []) d h = h
digits-visible (c ∷ e ∷ s) d h = digits-visible (e ∷ s) d.1 (ground (arith, d.1.0))

pub format_nat-visible :
    (n : ℕ) → (starts_visible (format_nat n) ≡ true) × (ends_visible (format_nat n) ≡ true)
format_nat-visible n =
    let s = starts (format_nat n) (format_nat-StartsDigit n) in
    (s, digits-visible (format_nat n) (All-format_nat n) s)
  where
    starts : (s : Bytes) → StartsDigit s → starts_visible s ≡ true
    starts s (Decimal.StartsDigit.starts c rest d) = ground arith

pub format_int-visible :
    (z : ℤ) → (starts_visible (format_int z) ≡ true) × (ends_visible (format_int z) ≡ true)
unfolding format_int
format_int-visible (pos n) = format_nat-visible n
format_int-visible (negsuc n) =
    (refl, ends_visible-append (b'-' ∷ []) (format_nat (suc n)) (format_nat-visible (suc n)).1)
