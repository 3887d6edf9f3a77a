-- ===== src/States/Names.antt =====
-- fairmq/States.cxx: the name tables, the lookups by value and by name, and their round trips.
use Prim.Native.String.{String}
use text.Mathlib.Text.{◌==◌ as str_eq}
use text.Mathlib.TextEquality.{eq_iff}
use mathlib.Core.Path.{subst₂}
use fair_mq.Prelude.{
  ◌≡◌, refl, ◌↔◌, inl, inr, Bool-cases, List, [], ◌∷◌, Option, none, some, if◌then◌else◌, get_elem?,
  arith,
}
use fair_mq.States.{
  State, Transition, undefined, ok, error, idle, initializing_device, initialized, binding, bound,
  connecting, device_ready, initializing_task, ready, running, resetting_task, resetting_device,
  exiting, auto, init_device, complete_init, bind, connect, init_task, run, stop, reset_task,
  reset_device, end, error_found, state_to_int, transition_to_int,
}

-- array<string, 16> stateNames
pub state_names : List String
state_names =
    "UNDEFINED" ∷ "OK" ∷ "ERROR" ∷ "IDLE" ∷ "INITIALIZING DEVICE" ∷ "INITIALIZED" ∷ "BINDING"
    ∷ "BOUND" ∷ "CONNECTING" ∷ "DEVICE READY" ∷ "INITIALIZING TASK" ∷ "READY" ∷ "RUNNING"
    ∷ "RESETTING TASK" ∷ "RESETTING DEVICE" ∷ "EXITING" ∷ []

-- unordered_map<string, State> states
pub states : List (String × State)
states =
    ("UNDEFINED", undefined)
    ∷ ("OK", ok)
    ∷ ("ERROR", error)
    ∷ ("IDLE", idle)
    ∷ ("INITIALIZING DEVICE", initializing_device)
    ∷ ("INITIALIZED", initialized)
    ∷ ("BINDING", binding)
    ∷ ("BOUND", bound)
    ∷ ("CONNECTING", connecting)
    ∷ ("DEVICE READY", device_ready)
    ∷ ("INITIALIZING TASK", initializing_task)
    ∷ ("READY", ready)
    ∷ ("RUNNING", running)
    ∷ ("RESETTING TASK", resetting_task)
    ∷ ("RESETTING DEVICE", resetting_device)
    ∷ ("EXITING", exiting)
    ∷ []

-- array<string, 12> transitionNames
pub transition_names : List String
transition_names =
    "AUTO" ∷ "INIT DEVICE" ∷ "COMPLETE INIT" ∷ "BIND" ∷ "CONNECT" ∷ "INIT TASK" ∷ "RUN" ∷ "STOP"
    ∷ "RESET TASK" ∷ "RESET DEVICE" ∷ "END" ∷ "ERROR FOUND" ∷ []

-- unordered_map<string, Transition> transitions
pub transitions : List (String × Transition)
transitions =
    ("AUTO", auto)
    ∷ ("INIT DEVICE", init_device)
    ∷ ("COMPLETE INIT", complete_init)
    ∷ ("BIND", bind)
    ∷ ("CONNECT", connect)
    ∷ ("INIT TASK", init_task)
    ∷ ("RUN", run)
    ∷ ("STOP", stop)
    ∷ ("RESET TASK", reset_task)
    ∷ ("RESET DEVICE", reset_device)
    ∷ ("END", end)
    ∷ ("ERROR FOUND", error_found)
    ∷ []

-- The `at` of a map with text keys; `none` is std::out_of_range.
pub at_key {ℓ} : {V : Type ℓ} → List (String × V) → String → Option V
at_key [] k = none
at_key ((j, v) ∷ m) k = if str_eq j k then some v else at_key m k

-- stateNames.at(i): `none` is std::out_of_range.
pub get_state_name : State → Option String
unfolding state_names state_to_int
get_state_name s = get_elem? state_names (state_to_int s)

pub get_transition_name : Transition → Option String
unfolding transition_names transition_to_int
get_transition_name t = get_elem? transition_names (transition_to_int t)

pub get_state : String → Option State
unfolding states at_key
get_state name = at_key states name

pub get_transition : String → Option Transition
unfolding transitions at_key
get_transition name = at_key transitions name

-- Every state has a name, and looking that name up gives the state back.
pub get_state-get_state_name :
    (s : State) → (name : String) × (get_state_name s ≡ some name) × (get_state name ≡ some s)
unfolding get_state get_state_name
get_state-get_state_name undefined = ("UNDEFINED", refl, refl)
get_state-get_state_name ok = ("OK", refl, refl)
get_state-get_state_name error = ("ERROR", refl, refl)
get_state-get_state_name idle = ("IDLE", refl, refl)
get_state-get_state_name initializing_device = ("INITIALIZING DEVICE", refl, refl)
get_state-get_state_name initialized = ("INITIALIZED", refl, refl)
get_state-get_state_name binding = ("BINDING", refl, refl)
get_state-get_state_name bound = ("BOUND", refl, refl)
get_state-get_state_name connecting = ("CONNECTING", refl, refl)
get_state-get_state_name device_ready = ("DEVICE READY", refl, refl)
get_state-get_state_name initializing_task = ("INITIALIZING TASK", refl, refl)
get_state-get_state_name ready = ("READY", refl, refl)
get_state-get_state_name running = ("RUNNING", refl, refl)
get_state-get_state_name resetting_task = ("RESETTING TASK", refl, refl)
get_state-get_state_name resetting_device = ("RESETTING DEVICE", refl, refl)
get_state-get_state_name exiting = ("EXITING", refl, refl)

-- What holds of every entry of a table holds of what a lookup returns.
abbrev Entries {ℓ} : {V : Type ℓ} → (String → V → Type 0) → List (String × V) → Type 0
Entries P [] = Unit
Entries P ((j, v) ∷ m) = P j v × Entries P m

Entries-at_key {ℓ} :
    {V : Type ℓ} (P : String → V → Type 0) (m : List (String × V)) (k : String) (v : V)
    → Entries P m
    → at_key m k ≡ some v
    → P k v
unfolding at_key
Entries-at_key P [] k v all e = cc
Entries-at_key P ((j, w) ∷ m) k v all e = elim (Bool-cases (str_eq j k)) [
  | inl same ↦
      let key : j ≡ k = (eq_iff j k).0 same in
      let value : w ≡ v = ground (arith, same) in subst₂ P key value all.0
  | inr other ↦ Entries-at_key P m k v all.1 (rw other at e)
]

get_state_name-get_state :
    (name : String) (s : State) → get_state name ≡ some s → get_state_name s ≡ some name
unfolding get_state get_state_name
get_state_name-get_state name s e =
    Entries-at_key (λ k v. get_state_name v ≡ some k) states name s (search) e

-- GetState and GetStateName are inverse: a text is the name of a state exactly when it is looked up
-- to that state.
pub get_state_iff :
    (name : String) (s : State) → (get_state name ≡ some s) ↔ (get_state_name s ≡ some name)
get_state_iff name s = (
  get_state_name-get_state name s,
  λ e.
      let (n, named, found) = get_state-get_state_name s in
      let same : name ≡ n = cc in rw same found,
)

get_transition-get_transition_name :
    (t : Transition)
    → (name : String) × (get_transition_name t ≡ some name) × (get_transition name ≡ some t)
unfolding get_transition get_transition_name
get_transition-get_transition_name auto = ("AUTO", refl, refl)
get_transition-get_transition_name init_device = ("INIT DEVICE", refl, refl)
get_transition-get_transition_name complete_init = ("COMPLETE INIT", refl, refl)
get_transition-get_transition_name bind = ("BIND", refl, refl)
get_transition-get_transition_name connect = ("CONNECT", refl, refl)
get_transition-get_transition_name init_task = ("INIT TASK", refl, refl)
get_transition-get_transition_name run = ("RUN", refl, refl)
get_transition-get_transition_name stop = ("STOP", refl, refl)
get_transition-get_transition_name reset_task = ("RESET TASK", refl, refl)
get_transition-get_transition_name reset_device = ("RESET DEVICE", refl, refl)
get_transition-get_transition_name end = ("END", refl, refl)
get_transition-get_transition_name error_found = ("ERROR FOUND", refl, refl)

get_transition_name-get_transition :
    (name : String) (t : Transition)
    → get_transition name ≡ some t
    → get_transition_name t ≡ some name
unfolding get_transition get_transition_name
get_transition_name-get_transition name t e =
    Entries-at_key (λ k v. get_transition_name v ≡ some k) transitions name t (search) e

-- GetTransition and GetTransitionName are inverse: a text is the name of a transition exactly when
-- it is looked up to that transition.
pub get_transition_iff :
    (name : String) (t : Transition)
    → (get_transition name ≡ some t) ↔ (get_transition_name t ≡ some name)
get_transition_iff name t = (
  get_transition_name-get_transition name t,
  λ e.
      let (n, named, found) = get_transition-get_transition_name t in
      let same : name ≡ n = cc in rw same found,
)
