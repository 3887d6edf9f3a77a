-- ===== src/Device/Attach/Direction.antt =====
-- Attaching a channel keeps the direction of its endpoints (fairmq/Device.cxx).
use Prim.Native.String.{String, [], ◌∷◌}
use fair_mq.Prelude.{◌≡◌, refl, ◌∙◌, Bool, true, false, arith}
use text.Mathlib.Text.{◌==◌ as str_eq}
use fair_mq.Channel.Endpoint.{has_modifier, without_first}
use fair_mq.Device.Attach.{begins_with, target_of, endpoint_of}

plain_target :
    (e : String)
    → has_modifier e ≡ false
    → (begins_with "+" e ≡ false) × ((begins_with ">" e ≡ false) × (begins_with "@" e ≡ false))
unfolding has_modifier begins_with
plain_target [] h = (refl, (refl, refl))
plain_target (c ∷ s) h = ground arith

-- The three forms that a round puts back.
plain_form :
    (method a : String)
    → has_modifier a ≡ false
    → target_of method a ≡ record { bind = str_eq method "bind"; modifier = false; address = a }
unfolding target_of
plain_form method a h = let (p, (q, r)) = plain_target a h in rw (p, q, r) refl

connect_form :
    (method a : String)
    → target_of method ("+" ∷ a) ≡ record { bind = false; modifier = true; address = a }
unfolding target_of begins_with without_first
connect_form method a = refl

bind_form :
    (method a : String)
    → target_of method ("@" ∷ a) ≡ record { bind = true; modifier = true; address = a }
unfolding target_of begins_with without_first
bind_form method a = refl

unmodified :
    (method e : String)
    → (target_of method e).modifier ≡ false
    → (target_of method e).bind ≡ str_eq method "bind"
unfolding target_of
unmodified method e h = ground arith

put_back :
    (method a b : String) (x m : Bool)
    → (m ≡ false → (x ≡ str_eq method "bind") × (has_modifier a ≡ false))
    → target_of method (endpoint_of (record { bind = x; modifier = m; address = b }) a)
      ≡ record { bind = x; modifier = m; address = a }
unfolding endpoint_of
put_back method a b true true h = bind_form method a
put_back method a b false true h = connect_form method a
put_back method a b x false h = let (p, q) = h refl in plain_form method a q ∙ cc p

-- What a round of AttachChannel puts in the place of an endpoint is read again with the same direction
-- and the address that was used, provided that an address used without a modifier does not begin with
-- one.
pub target_of-endpoint_of :
    (method e a : String)
    → ((target_of method e).modifier ≡ false → has_modifier a ≡ false)
    → target_of method (endpoint_of (target_of method e) a) ≡ record {
      bind = (target_of method e).bind;
      modifier = (target_of method e).modifier;
      address = a;
    }
target_of-endpoint_of method e a h =
    let t = target_of method e in
    put_back method a t.address t.bind t.modifier (λ m. (unmodified method e m, h m))
