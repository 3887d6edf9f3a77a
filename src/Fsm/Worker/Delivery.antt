-- ===== src/Fsm/Worker/Delivery.antt =====
-- What becomes of an accepted request, and how a device comes to its end.
use mathlib.Core.Path.{subst}
use fair_mq.Prelude.{◌≡◌, refl, sym, ◌∙◌, ◌≢◌, true, false, some, List, [], ◌∷◌}
use fair_mq.States.{
  State, Transition, undefined, ok, error, idle, initializing_device, initialized, binding, bound,
  connecting, device_ready, initializing_task, ready, running, resetting_task, resetting_device,
  exiting, auto, complete_init, stop, reset_task, reset_device, end, error_found,
}
use fair_mq.Fsm.{Fsm, Engine, row, default_fct}
use fair_mq.Fsm.Request.{change_state, change_state_accepts, change_state_busy}
use fair_mq.Fsm.Worker.{take_new_state}

-- Requests one after the other, with no step of the worker between them.
pub request_all : Engine → List Transition → Fsm → Fsm
request_all eng [] f = f
request_all eng (e ∷ es) f = request_all eng es (change_state eng e f).0

abbrev Without : Transition → List Transition → Type 0
Without e [] = Unit
Without e (x ∷ xs) = (x ≢ e) × Without e xs

request_all_busy :
    (eng : Engine) (es : List Transition) (f : Fsm)
    → Without error_found es
    → f.new_state_pending ≡ true
    → request_all eng es f ≡ f
unfolding request_all
request_all_busy eng [] f w p = refl
request_all_busy eng (e ∷ es) f w p =
    rw (change_state_busy eng e f w.0 p) (request_all_busy eng es f w.1 p)

-- A request that the table accepts is carried out: whatever else but ErrorFound is requested before
-- the worker's next round, that round shows the accepted target and clears the pending flag.
pub accepted_is_carried_out :
    (eng : Engine) (e : Transition) (es : List Transition) (f : Fsm) (t : State)
    → f.health ≡ ok
    → e ≢ error_found
    → f.new_state_pending ≡ false
    → row f.device e ≡ some t
    → Without error_found es
    → let g = (take_new_state (request_all eng es (change_state eng e f).0)).0 in
      (g.state ≡ t) × (g.device ≡ t) × (g.new_state_pending ≡ false)
unfolding take_new_state default_fct
accepted_is_carried_out eng e es f t h ne p r w = rw (change_state_accepts eng e f t h ne p r) (
    rw (request_all_busy eng es (record (default_fct e t f) { device = t }) w refl)
      (refl, refl, refl))

-- A request and the round of the worker that answers it.
pub drive : Engine → List Transition → Fsm → Fsm
drive eng [] f = f
drive eng (e ∷ es) f = drive eng es (take_new_state (change_state eng e f).0).0

-- The transitions that lead from a state to EXITING.
abbrev pub way_out : State → List Transition
way_out idle = end ∷ []
way_out initializing_device = complete_init ∷ reset_device ∷ auto ∷ end ∷ []
way_out initialized = reset_device ∷ auto ∷ end ∷ []
way_out binding = auto ∷ reset_device ∷ auto ∷ end ∷ []
way_out bound = reset_device ∷ auto ∷ end ∷ []
way_out connecting = auto ∷ reset_device ∷ auto ∷ end ∷ []
way_out device_ready = reset_device ∷ auto ∷ end ∷ []
way_out initializing_task = auto ∷ reset_task ∷ auto ∷ reset_device ∷ auto ∷ end ∷ []
way_out ready = reset_task ∷ auto ∷ reset_device ∷ auto ∷ end ∷ []
way_out running = stop ∷ reset_task ∷ auto ∷ reset_device ∷ auto ∷ end ∷ []
way_out resetting_task = auto ∷ reset_device ∷ auto ∷ end ∷ []
way_out resetting_device = auto ∷ end ∷ []
way_out _ = []

-- The states that the rows lead through.
abbrev Follows : List Transition → State → State → Type 0
Follows [] s t = s ≡ t
Follows (e ∷ es) s t = (e ≢ error_found) × ((m : State) × (row s e ≡ some m) × Follows es m t)

by_reset_device :
    (s : State)
    → row s reset_device ≡ some resetting_device
    → Follows (reset_device ∷ auto ∷ end ∷ []) s exiting
unfolding row
by_reset_device s r = (λ q. cc, (_, r, (λ q. cc, (_, refl, (λ q. cc, (_, refl, refl))))))

by_device_ready :
    (s : State)
    → row s auto ≡ some device_ready
    → Follows (auto ∷ reset_device ∷ auto ∷ end ∷ []) s exiting
unfolding row
by_device_ready s r = (λ q. cc, (_, r, by_reset_device device_ready refl))

by_reset_task :
    (s : State)
    → row s reset_task ≡ some resetting_task
    → Follows (reset_task ∷ auto ∷ reset_device ∷ auto ∷ end ∷ []) s exiting
unfolding row
by_reset_task s r = (λ q. cc, (_, r, by_device_ready resetting_task refl))

way_out-Follows : (s : State) → s ≢ ok → s ≢ error → s ≢ undefined → Follows (way_out s) s exiting
unfolding row
way_out-Follows undefined _ _ n = absurd (n refl)
way_out-Follows ok n _ _ = absurd (n refl)
way_out-Follows error _ n _ = absurd (n refl)
way_out-Follows exiting _ _ _ = refl
way_out-Follows idle _ _ _ = (λ q. cc, (_, refl, refl))
way_out-Follows initializing_device _ _ _ = (λ q. cc, (_, refl, by_reset_device initialized refl))
way_out-Follows initialized _ _ _ = by_reset_device initialized refl
way_out-Follows binding _ _ _ = (λ q. cc, (_, refl, by_reset_device bound refl))
way_out-Follows bound _ _ _ = by_reset_device bound refl
way_out-Follows connecting _ _ _ = by_device_ready connecting refl
way_out-Follows device_ready _ _ _ = by_reset_device device_ready refl
way_out-Follows initializing_task _ _ _ = (λ q. cc, (_, refl, by_reset_task ready refl))
way_out-Follows ready _ _ _ = by_reset_task ready refl
way_out-Follows running _ _ _ = (λ q. cc, (_, refl, by_reset_task ready refl))
way_out-Follows resetting_task _ _ _ = by_device_ready resetting_task refl
way_out-Follows resetting_device _ _ _ = (λ q. cc, (_, refl, (λ q. cc, (_, refl, refl))))

drive_lem :
    (eng : Engine) (es : List Transition) (f : Fsm) (t : State)
    → f.health ≡ ok
    → f.new_state_pending ≡ false
    → f.state ≡ f.device
    → Follows es f.device t
    → ((drive eng es f).state ≡ t) × ((drive eng es f).device ≡ t)
unfolding drive take_new_state default_fct
drive_lem eng [] f t h p q w = (q ∙ w, w)
drive_lem eng (e ∷ es) f t h p q (ne, (m, r, w)) =
    subst (λ x. let g = drive eng es (take_new_state x.0).0 in (g.state ≡ t) × (g.device ≡ t))
      (sym (change_state_accepts eng e f m h ne p r))
      (drive_lem eng es (take_new_state (record (default_fct e m f) { device = m })).0 t h refl refl
        w)

-- From every state that a device can settle in, a fixed list of requests, each answered by the
-- worker, brings the machine to EXITING.
pub way_out_exits :
    (eng : Engine) (f : Fsm)
    → f.health ≡ ok
    → f.new_state_pending ≡ false
    → f.state ≡ f.device
    → f.device ≢ ok
    → f.device ≢ error
    → f.device ≢ undefined
    → (drive eng (way_out f.device) f).state ≡ exiting
way_out_exits eng f h p q a b c =
    (drive_lem eng (way_out f.device) f exiting h p q (way_out-Follows f.device a b c)).0
