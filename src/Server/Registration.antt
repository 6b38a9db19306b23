-- ===== src/Server/Registration.antt =====
-- internal/server/handler.go: the commands that start the registration of a replica, and the others.
use vortex_kv_cache.Base.{
  ℕ, ◌==◌, ◌≡◌, refl, Option, none, Bool, false, ◌||◌, ◌&&◌, List, [], ◌∷◌, Bytes, bytes, ◌≟◌,
  to_upper, Bool-cases, inl, inr,
}
use vortex_kv_cache.Base.Int.{ℤ}
use vortex_kv_cache.Eviction.{EvictionPolicy}
use vortex_kv_cache.Store.{Store}
use vortex_kv_cache.Resp.Value.{Value, value, type_array}
use vortex_kv_cache.Server.Args.{elements, extract_string}
use vortex_kv_cache.Server.Dispatch.{Replication, Process, run_command, run_words, dispatch}

abbrev is_sync : Bytes → Bool
is_sync name = (name ≟ bytes "PSYNC") || (name ≟ bytes "SYNC")

abbrev pub asks_words : List Value → Bool
asks_words [] = false
asks_words (name ∷ args) =
    (to_upper (extract_string name) ≟ bytes "PSYNC")
    || (to_upper (extract_string name) ≟ bytes "SYNC")

-- whether `Dispatch` calls `handlePSync`
abbrev pub asks_sync : Value → Bool
asks_sync (value typ str num bulk array nil) = (typ == type_array) && asks_words (elements array)

module _ (P : EvictionPolicy) (W : Type 0) (hash : Bytes → ℕ) (clock : ℕ → ℤ)
    (repl : Option (Replication W)) (register : Option (ℤ → Store P W → W → W))
    (process : Process) where
  run_command-other :
      (name : Bytes) (args : List Value) (s : Store P W) (w : W)
      → is_sync name ≡ false
      → run_command P W hash clock repl register process name args s w
        ≡ run_command P W hash clock repl none process name args s w
  unfolding run_command
  run_command-other name args s w h = rw h

  run_words-other :
      (words : List Value) (s : Store P W) (w : W)
      → asks_words words ≡ false
      → run_words P W hash clock repl register process words s w
        ≡ run_words P W hash clock repl none process words s w
  unfolding run_words
  run_words-other [] s w h = refl
  run_words-other (name ∷ args) s w h =
      run_command-other (to_upper (extract_string name)) args s w h

  -- any other command is answered without the registration
  pub dispatch-other :
      (cmd : Value) (s : Store P W) (w : W)
      → asks_sync cmd ≡ false
      → dispatch P W hash clock repl register process cmd s w
        ≡ dispatch P W hash clock repl none process cmd s w
  unfolding dispatch
  dispatch-other (value typ str num bulk array nil) s w h = elim (Bool-cases (typ == type_array)) [
    | inl is_array ↦ rw is_array (run_words-other (elements array) s w (rw is_array at h))
    | inr other ↦ rw other
  ]
