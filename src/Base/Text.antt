-- ===== src/Base/Text.antt =====
-- Go strings and byte slices as lists of bytes.
use Prim.Native.Nat.{ℕ, ◌-◌}
use Prim.Native.Char.{code}
use Prim.Native.String.{String}
use mathlib.Core.Path.{◌≡◌, refl}
use mathlib.Core.Logic.{◌↔◌}
use mathlib.Core.Bool.{Bool, true, false, ◌&&◌}
use mathlib.Core.List.{List, [], ◌∷◌}
use native.Mathlib.Omega.{arith}
use vortex_kv_cache.Base.Tests.{leb, ◌==◌, if◌then◌else◌}

abbrev pub Bytes : Type 0
Bytes = List ℕ

-- The bytes of an ASCII literal.
abbrev pub bytes : String → Bytes
bytes String.[] = []
bytes (String.◌∷◌ c s) = code c ∷ bytes s

-- Equality of strings.
infix 50 ◌≟◌
unfoldable pub ◌≟◌ : Bytes → Bytes → Bool
[] ≟ [] = true
[] ≟ (y ∷ ys) = false
(x ∷ xs) ≟ [] = false
(x ∷ xs) ≟ (y ∷ ys) = (x == y) && (xs ≟ ys)

eq_of_≟ : (a b : Bytes) → (a ≟ b) ≡ true → a ≡ b
unfolding ◌≟◌
eq_of_≟ [] [] h = refl
eq_of_≟ [] (y ∷ ys) h = cc
eq_of_≟ (x ∷ xs) [] h = cc
eq_of_≟ (x ∷ xs) (y ∷ ys) h = ground (arith, eq_of_≟ xs ys)

pub ≟_refl : (a : Bytes) → (a ≟ a) ≡ true
unfolding ◌≟◌
≟_refl [] = refl
≟_refl (x ∷ xs) = ground (arith, ≟_refl xs)

pub ≟_iff : (a b : Bytes) → ((a ≟ b) ≡ true) ↔ (a ≡ b)
≟_iff a b = (eq_of_≟ a b, λ p. ground (arith, ≟_refl a))

pub ≟_sym : (a b : Bytes) → (a ≟ b) ≡ (b ≟ a)
≟_sym a b = ground (arith, ≟_iff a b, ≟_iff b a)

upper : ℕ → ℕ
upper c = if leb b'a' c && leb c b'z' then c - 32 else c

-- a byte before the others: `ſ` is 197 191 in UTF-8, and `ı` is 196 177
upper_pair : ℕ → Bytes → Bytes
upper_pair c [] = upper c ∷ []
upper_pair c (d ∷ rest) =
    if (c == 197) && (d == 191)
    then b'S' ∷ rest
    else if (c == 196) && (d == 177)
    then b'I' ∷ rest
    else upper c ∷ d ∷ rest

-- `strings.ToUpper`, as far as its result may be equal to a text in ASCII: `ſ` and `ı` are the only
-- characters beyond ASCII with a capital letter in it. Others stay here, while Go also writes their
-- capitals, and a replacement for bytes that are no UTF-8; none of these is ASCII.
unfoldable pub to_upper : Bytes → Bytes
unfolding upper upper_pair
to_upper [] = []
to_upper (c ∷ cs) = upper_pair c (to_upper cs)
