-- ===== src/Component/Signals.antt =====
-- Which functions of a component a signal runs.
use module_oriented_software.Common.{
  ◌≡◌, refl, ◌==◌, List, [], ◌∷◌, String, Option, some, ℕ, arith, if◌then◌else◌,
}
use module_oriented_software.Sha256.{Hash}
use module_oriented_software.Port.{PortBase}
use module_oriented_software.Component.{
  RuntimeFunction, component, run_signal, runtime_list, call_signal, setenv, update_info,
}

-- The functions that were given for the signals with the hash of one.
abbrev pub functions_of :
    {W : Type 0}
    → (String → Hash)
    → String
    → List (String × String × RuntimeFunction W)
    → List (RuntimeFunction W)
functions_of compute signal [] = []
functions_of compute signal ((name, s, f) ∷ rs) =
    if compute s == compute signal
    then f ∷ functions_of compute signal rs
    else functions_of compute signal rs

abbrev pub run_in_turn : {W : Type 0} → List (RuntimeFunction W) → List String → Option ℕ → W → W
run_in_turn [] argv env w = w
run_in_turn (f ∷ fs) argv env w = run_in_turn fs argv env (f argv env w)

module _ {W : Type 0} (compute : String → Hash) where
  run_signal-runtime_list :
      (signal : String) (env : Option ℕ) (rs : List (String × String × RuntimeFunction W))
      (argv : List String) (w : W)
      → run_signal (compute signal) env (runtime_list compute rs) argv w
        ≡ run_in_turn (functions_of compute signal rs) argv env w
  unfolding run_signal runtime_list
  run_signal-runtime_list signal env [] argv w = refl
  run_signal-runtime_list signal env ((name, s, f) ∷ rs) argv w = ground (
    arith,
    run_signal-runtime_list signal env rs argv (f argv env w),
    run_signal-runtime_list signal env rs argv w,
  )

  -- A signal to a component in an environment runs the functions that were given for signals with the hash
  -- of its name, in their order, each on the state that the one before leaves, and no other.
  pub call_signal-component :
      (name type_name signal : String) (ports : List (PortBase W)) (env : ℕ)
      (rs : List (String × String × RuntimeFunction W)) (argv : List String) (w : W)
      → call_signal compute signal
          (setenv env (component compute name type_name ports (runtime_list compute rs)))
          argv
          w
        ≡ run_in_turn (functions_of compute signal rs) argv (some env) w
  unfolding call_signal setenv component update_info
  call_signal-component name type_name signal ports env rs argv w =
      run_signal-runtime_list signal (some env) rs argv w
