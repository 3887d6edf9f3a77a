-- ===== src/Config.antt =====
-- The options and properties of a device (fairmq/ProgOptions.h, fairmq/ProgOptions.cxx), with the
-- conversion of values (fairmq/Properties.h). Each operation holds the mutex while it touches the
-- map, and sends its events after that.
pub mod Refine
pub mod Update
pub mod AddChannel
pub mod Parser
use Prim.Native.String.{String}
use fair_mq.Prelude.{Bool, true, false, Option, none, some, List, [], ◌∷◌, ◌++◌, find, put, erase}
use fair_mq.Channel.FromProperties.{Any}

-- PropertyChange with a value, and PropertyChangeAsString
pub data Event : Type 0 where
  change : String → Any → Event
  change_as_string : String → String → Event

-- `vars` is fVarMap, `events` what was sent to the subscribers so far, the first event first.
pub record Config : Type 0 where
  pub vars : List (String × Any)
  pub events : List Event

-- How a call ends: it returns (true, where it returns a bool), it returns false, or it throws.
pub data Reply : Type 0 where
  done refused thrown : Reply

-- fVarMap.count(k)
unfoldable pub count : String → List (String × Any) → Bool
unfolding find
count k m = elim (find k m) [ none ↦ false | some v ↦ true ]

unfoldable pub emit : Event → Config → Config
emit e c = record c { events = c.events ++ (e ∷ []) }

unfoldable pub set_var : String → Any → Config → Config
set_var k v c = record c { vars = put k v c.vars }

unfoldable pub put_all : List (String × Any) → List (String × Any) → List (String × Any)
put_all [] m = m
put_all ((k, v) ∷ input) m = put_all input (put k v m)

-- The first loop of UpdateProperties, false where it returns.
unfoldable pub all_there : List (String × Any) → List (String × Any) → Bool
all_there [] m = true
all_there ((k, v) ∷ input) m = elim (count k m) [ true ↦ all_there input m | false ↦ false ]

unfoldable pub delete_property : String → Config → Config
delete_property k c = record c { vars = erase k c.vars }

-- `to_text` is the table of the types that properties can have: GetPropertyInfo of a value, none
-- for a type that is not in it. AddType adds types to it. The table of the emitters has the same
-- types.
module _ (to_text : Any → Option String) where
  -- ConvertVarValToString
  unfoldable pub to_string : Any → String
  to_string v = elim (to_text v) [ none ↦ "[unidentified_type]" | some s ↦ s ]

  -- GetPropertyAsString(key), none where it throws
  unfoldable pub get_property_as_string : String → Config → Option String
  get_property_as_string k c = elim (find k c.vars) [ none ↦ none | some v ↦ some (to_string v) ]

  -- The two Emit calls of SetProperty and UpdateProperty.
  unfoldable pub emit_property : String → Any → Config → Config × Reply
  emit_property k v c =
      let d = emit (change k v) c in
      elim (get_property_as_string k d) [
        | none ↦ (d, thrown)
        | some s ↦ (emit (change_as_string k s) d, done)
      ]

  unfoldable pub set_property : String → Any → Config → Config × Reply
  set_property k v c = emit_property k v (set_var k v c)

  unfoldable pub update_property : String → Any → Config → Config × Reply
  update_property k v c = elim (count k c.vars) [
    | true ↦ emit_property k v (set_var k v c)
    | false ↦ (c, refused)
  ]

  -- The loop over the events of SetProperties and UpdateProperties: `at` throws for a type that is
  -- not in the table.
  unfoldable pub emit_all : List (String × Any) → Config → Config × Reply
  emit_all [] c = (c, done)
  emit_all ((k, v) ∷ input) c = elim (to_text v) [
    | none ↦ (c, thrown)
    | some s ↦ emit_all input (emit (change_as_string k s) (emit (change k v) c))
  ]

  unfoldable pub set_properties : List (String × Any) → Config → Config × Reply
  set_properties input c = emit_all input (record c { vars = put_all input c.vars })

  unfoldable pub update_properties : List (String × Any) → Config → Config × Reply
  update_properties input c = elim (all_there input c.vars) [
    | true ↦ emit_all input (record c { vars = put_all input c.vars })
    | false ↦ (c, refused)
  ]
