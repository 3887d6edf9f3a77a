-- ===== src/Device/Connect.antt =====
-- Device::BindWrapper and Device::ConnectWrapper (fairmq/Device.cxx): the attempts to attach the
-- channels, without the calls of the user's Bind and Connect after them.
pub mod Ends
use Prim.Native.String.{String}
use mathlib.Core.Path.{subst}
use text.Mathlib.Text.{◌==◌ as str_eq}
use fair_mq.Prelude.{
  ℕ, zero, suc, ◌+◌, ◌*◌, ◌/◌, ◌≤◌, ◌<◌, ◌≡◌, ◌⊎◌, refl, sym, ap, ◌∙◌, inl, inr, Bool, true, false,
  ◌||◌, Bool-cases, Option, Option-cases, none, some, List, [], ◌∷◌, ◌++◌, length, length-append,
  if◌then◌else◌, ltb, arith, tests, ltb→lt,
}
use fair_mq.Channel.{Channel, update, Update}
use fair_mq.Device.Attach.{Pass, attach_channels}
use fair_mq.Device.Attach.Passes.{attach_channels_total}

-- empty() of a container
unfoldable pub is_empty : List Channel → Bool
is_empty [] = true
is_empty (c ∷ cs) = false

-- BindWrapper: one pass, none where it throws.
unfoldable pub bind_wrapper : (List Channel → Pass) → List Channel → Option (List Channel)
unfolding is_empty
bind_wrapper pass cs =
    let p = pass cs in
    if p.threw then none else if is_empty p.remaining then some p.attached else none

-- The address of each channel that is left is read again, none where the property is not there.
unfoldable pub update_addresses : (Channel → Option String) → List Channel → Option (List Channel)
update_addresses config [] = some []
update_addresses config (c ∷ cs) =
    let rest = update_addresses config cs in
    elim (config c) [
      | none ↦ none
      | some a ↦ elim rest [
        | none ↦ none
        | some ds ↦ some ((if str_eq a c.address then c else update (Update.address a) c) ∷ ds)
      ]
    ]

-- fInitializationTimeoutInS * 1000 / sleepTimeInMS
unfoldable pub max_attempts : ℕ → ℕ
max_attempts seconds = seconds * 1000 / 50

-- How ConnectWrapper goes on to Connect(): what is not attached, what is; or that it throws.
pub data Connected : Type 0 where
  attached : List Channel → List Channel → Connected
  threw : Connected

-- `pass n` is AttachChannels as the n-th pass, `config n` reads the addresses before the pass n + 1, and
-- `pending n` is NewStatePending() after the n-th pass.
module _ (pass : ℕ → List Channel → Pass) (config : ℕ → Channel → Option String)
    (pending : ℕ → Bool) (max : ℕ) where
  -- The loop, with numAttempts.
  unfoldable pub retry : ℕ → ℕ → List Channel → List Channel → Option Connected
  unfolding is_empty
  retry zero n left done = none
  retry (suc fuel) n left done =
      if is_empty left || pending n
      then some (attached left done)
      else elim (update_addresses (config n) left) [
        | none ↦ some threw
        | some cs ↦
            let p = pass (suc n) cs in
            let rest = retry fuel (suc n) p.remaining (done ++ p.attached) in
            if ltb max n then some threw else if p.threw then some threw else rest
      ]

  unfoldable pub connect_wrapper : ℕ → List Channel → Option Connected
  connect_wrapper fuel cs =
      let p = pass 1 cs in
      let rest = retry fuel 1 p.remaining p.attached in if p.threw then some threw else rest
