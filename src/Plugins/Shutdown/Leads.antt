-- ===== src/Plugins/Shutdown/Leads.antt =====
-- Where the requests of Control::RunShutdownSequence (fairmq/plugins/control/Control.cxx) lead.
use mathlib.Core.Path.{subst}
use fair_mq.Prelude.{
  ℕ, suc, ◌≡◌, ◌⊎◌, refl, sym, ap, ◌∙◌, inl, inr, Option, none, some, Bool, true, false,
}
use fair_mq.States.{
  State, Transition, undefined, ok, error, idle, initializing_device, initialized, binding, bound,
  connecting, device_ready, initializing_task, ready, running, resetting_task, resetting_device,
  exiting, auto, end, complete_init, reset_device, reset_task, stop,
}
use fair_mq.Fsm.{row}
use fair_mq.Plugins.Shutdown.{request}

-- The states of the device's region of the machine.
unfoldable pub normal : State → Bool
normal undefined = false
normal ok = false
normal error = false
normal _ = true

-- How many changes of state lead from a state to EXITING.
unfoldable pub rank : State → ℕ
rank idle = 1
rank resetting_device = 2
rank initialized = 3
rank bound = 3
rank device_ready = 3
rank initializing_device = 4
rank binding = 4
rank connecting = 4
rank resetting_task = 4
rank ready = 5
rank running = 6
rank initializing_task = 6
rank _ = 0

-- What the device does by itself or on request leads on.
pub record Onward (s t : State) : Type 0 where
  pub nearer : rank s ≡ suc (rank t)
  pub normal_too : normal t ≡ true

leads :
    (s u t : State) → rank s ≡ suc (rank u) → normal u ≡ true → Option.some u ≡ some t → Onward s t
leads s u t r n h =
    let e : u ≡ t = cc h in subst (Onward s) e (record { nearer = r; normal_too = n })

pub auto-Onward : (s t : State) → row s auto ≡ some t → Onward s t
unfolding row rank normal
auto-Onward undefined t h = cc h
auto-Onward ok t h = cc h
auto-Onward error t h = cc h
auto-Onward idle t h = cc h
auto-Onward initializing_device t h = cc h
auto-Onward initialized t h = cc h
auto-Onward binding t h = leads binding bound t refl refl h
auto-Onward bound t h = cc h
auto-Onward connecting t h = leads connecting device_ready t refl refl h
auto-Onward device_ready t h = cc h
auto-Onward initializing_task t h = leads initializing_task ready t refl refl h
auto-Onward ready t h = cc h
auto-Onward running t h = cc h
auto-Onward resetting_task t h = leads resetting_task device_ready t refl refl h
auto-Onward resetting_device t h = leads resetting_device idle t refl refl h
auto-Onward exiting t h = cc h

asked :
    (s : State) (a : Transition) (u : State) (e : Transition)
    → Option.some a ≡ some e
    → row s a ≡ some u
    → rank s ≡ suc (rank u)
    → normal u ≡ true
    → (t : State) × ((row s e ≡ some t) × Onward s t)
asked s a u e h r k n =
    let q : a ≡ e = cc h in (u, (ap (row s) (sym q) ∙ r, record { nearer = k; normal_too = n }))

-- The controller's requests are rows of the table.
pub requested :
    (s : State) (e : Transition)
    → request s ≡ some e
    → (t : State) × ((row s e ≡ some t) × Onward s t)
unfolding request row rank normal
requested undefined e h = cc h
requested ok e h = cc h
requested error e h = cc h
requested idle e h = asked idle end exiting e h refl refl refl
requested initializing_device e h =
    asked initializing_device complete_init initialized e h refl refl refl
requested initialized e h = asked initialized reset_device resetting_device e h refl refl refl
requested binding e h = cc h
requested bound e h = asked bound reset_device resetting_device e h refl refl refl
requested connecting e h = cc h
requested device_ready e h = asked device_ready reset_device resetting_device e h refl refl refl
requested initializing_task e h = cc h
requested ready e h = asked ready reset_task resetting_task e h refl refl refl
requested running e h = asked running stop ready e h refl refl refl
requested resetting_task e h = cc h
requested resetting_device e h = cc h
requested exiting e h = cc h

-- A state of the device in which the controller asks for nothing is left by itself.
pub unasked :
    (s : State)
    → normal s ≡ true
    → request s ≡ none
    → (s ≡ exiting) ⊎ ((t : State) × (row s auto ≡ some t))
unfolding request row normal
unasked undefined n h = cc n
unasked ok n h = cc n
unasked error n h = cc n
unasked idle n h = cc h
unasked initializing_device n h = cc h
unasked initialized n h = cc h
unasked binding n h = inr (bound, refl)
unasked bound n h = cc h
unasked connecting n h = inr (device_ready, refl)
unasked device_ready n h = cc h
unasked initializing_task n h = inr (ready, refl)
unasked ready n h = cc h
unasked running n h = cc h
unasked resetting_task n h = inr (device_ready, refl)
unasked resetting_device n h = inr (idle, refl)
unasked exiting n h = inl refl

-- Where the controller asks for something the device waits.
pub asked_waits : (s : State) (e : Transition) → request s ≡ some e → row s auto ≡ none
unfolding request row
asked_waits undefined e h = refl
asked_waits ok e h = refl
asked_waits error e h = refl
asked_waits idle e h = refl
asked_waits initializing_device e h = refl
asked_waits initialized e h = refl
asked_waits binding e h = cc h
asked_waits bound e h = refl
asked_waits connecting e h = cc h
asked_waits device_ready e h = refl
asked_waits initializing_task e h = cc h
asked_waits ready e h = refl
asked_waits running e h = refl
asked_waits resetting_task e h = cc h
asked_waits resetting_device e h = cc h
asked_waits exiting e h = refl

pub auto_normal : (s t : State) → row s auto ≡ some t → normal s ≡ true
unfolding row normal
auto_normal undefined t h = cc h
auto_normal ok t h = cc h
auto_normal error t h = cc h
auto_normal idle t h = refl
auto_normal initializing_device t h = refl
auto_normal initialized t h = refl
auto_normal binding t h = refl
auto_normal bound t h = refl
auto_normal connecting t h = refl
auto_normal device_ready t h = refl
auto_normal initializing_task t h = refl
auto_normal ready t h = refl
auto_normal running t h = refl
auto_normal resetting_task t h = refl
auto_normal resetting_device t h = refl
auto_normal exiting t h = refl

-- What the device does by itself.
abbrev pub MovesItself : State → State → Type 0
MovesItself s t = (row s auto ≡ some t) ⊎ ((s ≡ running) × (t ≡ ready))

pub itself-Onward : (s t : State) → MovesItself s t → Onward s t
unfolding rank normal
itself-Onward s t (inl h) = auto-Onward s t h
itself-Onward s t (inr (a, b)) = record {
  nearer = ap rank a ∙ ap (λ y. suc (rank y)) (sym b);
  normal_too = ap normal b;
}

pub itself_normal : (s t : State) → MovesItself s t → normal s ≡ true
unfolding normal
itself_normal s t (inl h) = auto_normal s t h
itself_normal s t (inr (a, b)) = ap normal a

pub ready_stays : (t : State) → ¬ MovesItself ready t
unfolding row
ready_stays t (inl h) = cc h
ready_stays t (inr (a, b)) = cc a

-- Where the controller asks for something the device waits, or RUNNING may come to its end.
pub asked_itself :
    (s t : State) (e : Transition)
    → request s ≡ some e
    → MovesItself s t
    → (s ≡ running) × (t ≡ ready)
asked_itself s t e h (inl r) = cc (asked_waits s e h, r)
asked_itself s t e h (inr p) = p
