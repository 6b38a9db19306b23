-- ===== src/Base/Dict.antt =====
-- Go maps with string keys as association lists. A store to a key that is there replaces its
-- value; `delete` of a key that is not there changes nothing.
use Prim.Native.Nat.{◌+◌}
use mathlib.Core.Path.{◌≡◌, refl, ◌∙◌}
use mathlib.Core.Option.{Option, none, some}
use mathlib.Core.List.{List, [], ◌∷◌, ◌++◌, map}
use native.Mathlib.Omega.{arith}
use vortex_kv_cache.Base.Tests.{if◌then◌else◌}
use vortex_kv_cache.Base.Lists.{length}
use vortex_kv_cache.Base.Text.{Bytes, ◌≟◌, ≟_iff}

abbrev pub Dict {ℓ} : Type ℓ → Type ℓ
Dict V = List (Bytes × V)

module _ {ℓ} {V : Type ℓ} where
  unfoldable pub lookup : Bytes → Dict V → Option V
  lookup k [] = none
  lookup k ((j, v) ∷ m) = if j ≟ k then some v else lookup k m

  unfoldable pub insert : Bytes → V → Dict V → Dict V
  insert k v [] = (k, v) ∷ []
  insert k v ((j, w) ∷ m) = if j ≟ k then (k, v) ∷ m else (j, w) ∷ insert k v m

  unfoldable pub delete : Bytes → Dict V → Dict V
  delete k [] = []
  delete k ((j, w) ∷ m) = let rest = delete k m in if j ≟ k then rest else (j, w) ∷ rest

  abbrev pub keys : Dict V → List Bytes
  keys = map (λ e. e.0)

  -- no key twice
  abbrev pub Distinct : Dict V → Type ℓ
  Distinct [] = Unit
  Distinct ((k, v) ∷ m) = (lookup k m ≡ none) × Distinct m

  pub lookup-insert :
      (k j : Bytes) (v : V) (m : Dict V)
      → lookup j (insert k v m) ≡ (if k ≟ j then some v else lookup j m)
  unfolding lookup insert
  lookup-insert k j v [] = refl
  lookup-insert k j v ((i, w) ∷ m) =
      ground (arith, ≟_iff k j, ≟_iff i k, ≟_iff i j, lookup-insert k j v m)

  pub lookup-delete :
      (k j : Bytes) (m : Dict V) → lookup j (delete k m) ≡ (if k ≟ j then none else lookup j m)
  unfolding lookup delete
  lookup-delete k j [] = ground arith
  lookup-delete k j ((i, w) ∷ m) =
      ground (arith, ≟_iff k j, ≟_iff i k, ≟_iff i j, lookup-delete k j m)

  pub insert-Distinct : (k : Bytes) (v : V) (m : Dict V) → Distinct m → Distinct (insert k v m)
  unfolding lookup insert
  insert-Distinct k v [] d = (refl, tt)
  insert-Distinct k v ((i, w) ∷ m) d =
      ground (arith, ≟_iff i k, ≟_iff k i, lookup-insert k i v m, insert-Distinct k v m d.1)

  pub delete-Distinct : (k : Bytes) (m : Dict V) → Distinct m → Distinct (delete k m)
  unfolding delete
  delete-Distinct k [] d = tt
  delete-Distinct k ((i, w) ∷ m) d = ground (arith, lookup-delete k i m, delete-Distinct k m d.1)

  pub delete_absent : (k : Bytes) (m : Dict V) → lookup k m ≡ none → delete k m ≡ m
  unfolding lookup delete
  delete_absent k [] h = refl
  delete_absent k ((i, w) ∷ m) h = ground (arith, delete_absent k m)

  pub length-insert_present :
      (k : Bytes) (v w : V) (m : Dict V) → lookup k m ≡ some w → length (insert k v m) ≡ length m
  unfolding lookup insert
  length-insert_present k v w [] h = cc
  length-insert_present k v w ((i, u) ∷ m) h = ground (arith, length-insert_present k v w m)

  pub length-insert_absent :
      (k : Bytes) (v : V) (m : Dict V) → lookup k m ≡ none → length (insert k v m) ≡ length m + 1
  unfolding lookup insert
  length-insert_absent k v [] h = omega arith
  length-insert_absent k v ((i, u) ∷ m) h = ground (arith, length-insert_absent k v m)

  pub length-delete_present :
      (k : Bytes) (w : V) (m : Dict V)
      → Distinct m
      → lookup k m ≡ some w
      → length (delete k m) + 1 ≡ length m
  unfolding lookup delete
  length-delete_present k w [] d h = cc
  length-delete_present k w ((i, u) ∷ m) d h =
      ground (arith, ≟_iff i k, delete_absent k m, length-delete_present k w m d.1)

  pub lookup-append_absent :
      (k : Bytes) (m n : Dict V) → lookup k m ≡ none → lookup k (m ++ n) ≡ lookup k n
  unfolding lookup
  lookup-append_absent k [] n h = refl
  lookup-append_absent k ((j, v) ∷ m) n h = ground (arith, lookup-append_absent k m n)

  pub lookup-append_present :
      (k : Bytes) (v : V) (m n : Dict V) → lookup k m ≡ some v → lookup k (m ++ n) ≡ some v
  unfolding lookup
  lookup-append_present k v [] n h = cc
  lookup-append_present k v ((j, w) ∷ m) n h = ground (arith, lookup-append_present k v m n)

  -- two maps without a common key
  pub append-Distinct :
      (m n : Dict V)
      → Distinct m
      → Distinct n
      → ((k : Bytes) (v : V) → lookup k m ≡ some v → lookup k n ≡ none)
      → Distinct (m ++ n)
  unfolding lookup
  append-Distinct [] n d e h = e
  append-Distinct ((j, v) ∷ m) n d e h = (
    lookup-append_absent j m n d.0 ∙ h j v (ground (arith, ≟_iff j j)),
    append-Distinct m n d.1 e (λ k w hit. h k w (ground (arith, ≟_iff j k, d.0, hit))),
  )
