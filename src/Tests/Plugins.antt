-- ===== src/Tests/Plugins.antt =====
-- Plugins that compete for a device, and the shutdown by the control plugin, on concrete values.
use fair_mq.Plugins.Shutdown.{Shutdown, Step, reading, deciding, awaiting}
use fair_mq.Plugins.Shutdown.Leads.{normal}
use fair_mq.Plugins.Shutdown.Ending.{Finishes, Steps, shutdown-Finishes, shutdown_stuck}
use Prim.Native.String.{String}
use text.Mathlib.TextEquality.{eq_iff}
use fair_mq.Prelude.{◌≡◌, refl, some, List, [], ◌∷◌}
use fair_mq.States.{init_device, idle, running, resetting_device}
use fair_mq.Plugins.{PluginServices, Call, change, take_control, release_control, calls}
use fair_mq.Plugins.Control.{control_is_exclusive}
use fair_mq.Tests.Engine.{engine, fresh}

abbrev controlled : PluginServices
controlled = record { controller = some "control"; fsm = fresh }

abbrev attempts : List (String × Call)
attempts = ("dds", change init_device) ∷ ("dds", take_control) ∷ ("odc", release_control) ∷ []

control_is_exclusive_example : calls engine attempts controlled ≡ controlled
control_is_exclusive_example = control_is_exclusive engine "control" attempts controlled refl (
  (λ q. cc ((eq_iff "control" "dds").1 q)),
  (λ q. cc),
  (
    (λ q. cc ((eq_iff "control" "dds").1 q)),
    (λ q. cc),
    ((λ q. cc ((eq_iff "control" "odc").1 q)), (λ q. cc), tt),
  ),
)

shutdown-Finishes_example :
    Finishes (record { device = running; unpushed = []; queue = []; phase = deciding running })
unfolding normal
shutdown-Finishes_example = shutdown-Finishes running refl

shutdown_stuck_example :
    Steps
      (record { device = resetting_device; unpushed = []; queue = []; phase = reading })
      (record { device = idle; unpushed = []; queue = []; phase = awaiting resetting_device })
    × ((y : Shutdown)
        → ¬ Step
            (record { device = idle; unpushed = []; queue = []; phase = awaiting resetting_device })
            y)
shutdown_stuck_example = shutdown_stuck []
