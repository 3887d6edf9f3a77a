-- ===== src/Plugins/Control.antt =====
-- Exclusive control of the device (fairmq/PluginServices.cxx).
use Prim.Native.String.{String}
use text.Mathlib.Text.{◌==◌ as str_eq}
use text.Mathlib.TextEquality.{eq_iff}
use fair_mq.Prelude.{
  ◌≡◌, refl, ◌≢◌, ◌⊎◌, inl, inr, none, some, List, [], ◌∷◌, arith, Option-cases, Bool-cases,
}
use fair_mq.States.{Transition}
use fair_mq.Fsm.{Engine}
use fair_mq.Fsm.Request.{change_state}
use fair_mq.Plugins.{
  PluginServices, returned, device_control_error, change_device_state, take_device_control,
  steal_device_control, release_device_control, Call, steal_control, call, calls,
}

-- A plugin changes the device's state exactly when nobody or itself is in control; it is in control
-- afterwards, and the reply and the machine are those of ChangeState. Otherwise the call throws and
-- changes nothing.
pub change_device_state_exclusive :
    (eng : Engine) (k : String) (e : Transition) (s : PluginServices)
    → (((s.controller ≡ none) ⊎ (s.controller ≡ some k))
        × (change_device_state eng k e s ≡ (
          record { controller = some k; fsm = (change_state eng e s.fsm).0 },
          returned (change_state eng e s.fsm).1,
        )))
      ⊎ (((c : String) × (s.controller ≡ some c) × (c ≢ k))
          × (change_device_state eng k e s ≡ (s, device_control_error)))
unfolding change_device_state
change_device_state_exclusive eng k e s = elim (Option-cases s.controller) [
  | inl free ↦ inl (inl free, ground (arith, free, eq_iff k k))
  | inr (c, held) ↦ elim (Bool-cases (str_eq c k)) [
    | inl same ↦
        let own : c ≡ k = (eq_iff c k).0 same in
        inl (inr (ground (arith, held, own)), ground (arith, held, own, eq_iff k k))
    | inr other ↦
        inr ((c, held, λ q. ground (arith, other, eq_iff c k, q)), ground (arith, held, other))
  ]
]

-- A call by another plugin that does not steal control.
abbrev Foreign : String → List (String × Call) → Type 0
Foreign c [] = Unit
Foreign c ((k, op) ∷ cs) = (c ≢ k) × (op ≢ steal_control) × Foreign c cs

call_foreign :
    (eng : Engine) (c k : String) (op : Call) (s : PluginServices)
    → s.controller ≡ some c
    → c ≢ k
    → op ≢ steal_control
    → (call eng k op s).0 ≡ s
unfolding call change_device_state take_device_control steal_device_control release_device_control
call_foreign eng c k op s h n m = ground (arith, h, n, m, eq_iff c k)

-- While a plugin is in control, no sequence of calls by others changes the device or takes control
-- away, unless one of them steals it.
pub control_is_exclusive :
    (eng : Engine) (c : String) (cs : List (String × Call)) (s : PluginServices)
    → s.controller ≡ some c
    → Foreign c cs
    → calls eng cs s ≡ s
unfolding calls
control_is_exclusive eng c [] s h w = refl
control_is_exclusive eng c ((k, op) ∷ cs) s h w =
    rw (call_foreign eng c k op s h w.0 w.1) (control_is_exclusive eng c cs s h w.2)
