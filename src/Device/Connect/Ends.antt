-- ===== src/Device/Connect/Ends.antt =====
-- How Device::ConnectWrapper (fairmq/Device.cxx) ends.
use Prim.Native.String.{String}
use text.Mathlib.Text.{◌==◌ as str_eq}
use fair_mq.Prelude.{ℕ, suc, ◌+◌, ◌≤◌, ◌≡◌, Bool, true, false, Option, none, some, List, []}
use fair_mq.Channel.{Channel}
use fair_mq.Device.Connect.{Connected, attached, threw, update_addresses, is_empty}
use fair_mq.Device.Attach.{Pass}
use fair_mq.Device.Attach.Passes.{weigh, All}

module _ (pass : ℕ → List Channel → Pass) (config : ℕ → Channel → Option String)
    (pending : ℕ → Bool) (max : ℕ) (P : Channel → Type 0) (cs : List Channel) where
  -- No channel is lost, by the names.
  pub NoneLost : List Channel → List Channel → Type 0
  NoneLost left done = (f : String → ℕ) → weigh f left + weigh f done ≡ weigh f cs

  -- How ConnectWrapper can end. It throws where a channel is not valid in one of the first max + 1
  -- passes, where an address is no longer configured after one of these, or where after all of them
  -- some channel is left and no new state pending; or all channels are attached, or a new state was
  -- pending after one of the passes. No channel is lost then, and P holds for those that are attached.
  pub data Ends : Option Connected → Type 0 where
    not_valid :
        (k : ℕ) (ds : List Channel) → k ≤ suc max → (pass k ds).threw ≡ true → Ends (some threw)
    no_address :
        (k : ℕ) (left : List Channel)
        → k ≤ suc max
        → pending k ≡ false
        → update_addresses (config k) left ≡ none
        → Ends (some threw)
    too_late :
        (left done : List Channel)
        → is_empty left ≡ false
        → pending (suc max) ≡ false
        → NoneLost left done
        → Ends (some threw)
    all_attached :
        (done : List Channel) → NoneLost [] done → All P done → Ends (some (attached [] done))
    left_early :
        (k : ℕ) (left done : List Channel)
        → k ≤ suc max
        → pending k ≡ true
        → NoneLost left done
        → All P done
        → Ends (some (attached left done))

module _ (pass : ℕ → List Channel → Pass) (config : ℕ → Channel → Option String)
    (pending : ℕ → Bool) (max : ℕ) (P : Channel → Type 0)
    (total : (f : String → ℕ) (n : ℕ) (cs : List Channel)
      → weigh f (pass n cs).remaining + weigh f (pass n cs).attached ≡ weigh f cs)
    (good : (n : ℕ) (cs : List Channel) → All P (pass n cs).attached) where
  EndsFrom : List Channel → Option Connected → Type 0
  EndsFrom cs = Ends pass config pending max P cs
