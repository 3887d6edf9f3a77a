-- ===== src/Channel/Compatibility.antt =====
-- Channel::CheckSendCompatibility and CheckReceiveCompatibility (fairmq/Channel.h): messages of another
-- transport are replaced before a transfer.
use mathlib.Core.Path.{subst}
use fair_mq.Prelude.{
  ℕ, ◌≡◌, refl, sym, ap, ◌∙◌, ◌≢◌, ◌⊎◌, inl, inr, true, false, Bool-cases, List, [], ◌∷◌,
  if◌then◌else◌, ltb, arith,
}
use mathlib.Core.Logic.{ite, if_pos, if_neg}
use fair_mq.Channel.{Transport}

pub Transport-discrete : Discrete Transport
Transport-discrete = hlevel

-- A message: of this transport and size, or a wrapper whose data is the data of another message, which
-- is deleted with it.
pub data Message : Type 0 where
  message : Transport → ℕ → Message
  wrapper : Transport → ℕ → Message → Message

-- GetType
unfoldable pub type_of : Message → Transport
type_of (message t n) = t
type_of (wrapper t n m) = t

-- GetSize
unfoldable pub size_of : Message → ℕ
size_of (message t n) = n
size_of (wrapper t n m) = n

-- The message that holds the data.
unfoldable pub holder : Message → Message
holder (message t n) = message t n
holder (wrapper t n m) = holder m

-- CheckSendCompatibility(MessagePtr&): `own` is the channel's transport, `made` that of the messages
-- which its factory makes.
unfoldable pub check_send : Transport → Transport → Message → Message
check_send own made m =
    ite (Transport-discrete own (type_of m)) m
      (if ltb 0 (size_of m) then wrapper made (size_of m) m else message made 0)

-- CheckSendCompatibility(Parts::container&)
unfoldable pub check_send_all : Transport → Transport → List Message → List Message
check_send_all own made [] = []
check_send_all own made (m ∷ ms) = check_send own made m ∷ check_send_all own made ms

-- CheckReceiveCompatibility(MessagePtr&)
unfoldable pub check_receive : Transport → Transport → Message → Message
check_receive own made m = ite (Transport-discrete own (type_of m)) m (message made 0)

-- CheckReceiveCompatibility(Parts::container&)
unfoldable pub check_receive_all : Transport → Transport → List Message → List Message
check_receive_all own made [] = []
check_receive_all own made (m ∷ ms) = check_receive own made m ∷ check_receive_all own made ms

-- What a channel sends in place of `m`.
pub record Sendable (own : Transport) (m n : Message) : Type 0 where
  pub own_type : type_of n ≡ own
  pub same_size : size_of n ≡ size_of m
  pub same_data : (size_of m ≡ 0) ⊎ (holder n ≡ holder m)

module _ (own : Transport) (m : Message) where
  same_kept : own ≡ type_of m → check_send own own m ≡ m
  unfolding check_send
  same_kept e =
      if_pos (Transport-discrete own (type_of m)) e m
        (if ltb 0 (size_of m) then wrapper own (size_of m) m else message own 0)

  other_wrapped :
      own ≢ type_of m → ltb 0 (size_of m) ≡ true → check_send own own m ≡ wrapper own (size_of m) m
  unfolding check_send
  other_wrapped n h =
      if_neg (Transport-discrete own (type_of m)) n m
        (if ltb 0 (size_of m) then wrapper own (size_of m) m else message own 0)
      ∙ ap (λ b. if b then wrapper own (size_of m) m else message own 0) h

  empty_replaced :
      own ≢ type_of m → ltb 0 (size_of m) ≡ false → check_send own own m ≡ message own 0
  unfolding check_send
  empty_replaced n h =
      if_neg (Transport-discrete own (type_of m)) n m
        (if ltb 0 (size_of m) then wrapper own (size_of m) m else message own 0)
      ∙ ap (λ b. if b then wrapper own (size_of m) m else message own 0) h

zero_of_not_ltb : (n : ℕ) → ltb 0 n ≡ false → n ≡ 0
zero_of_not_ltb n h = ground arith

check_send-Sendable : (own : Transport) (m : Message) → Sendable own m (check_send own own m)
unfolding type_of size_of holder
check_send-Sendable own m = elim (Transport-discrete own (type_of m)) [
  | yes e ↦
      subst (Sendable own m) (sym (same_kept own m e))
        (record { own_type = sym e; same_size = refl; same_data = inr refl })
  | no n ↦ elim (Bool-cases (ltb 0 (size_of m))) [
    | inl h ↦
        subst (Sendable own m) (sym (other_wrapped own m n h))
          (record { own_type = refl; same_size = refl; same_data = inr refl })
    | inr h ↦
        let z = zero_of_not_ltb (size_of m) h in
        subst (Sendable own m) (sym (empty_replaced own m n h))
          (record { own_type = refl; same_size = sym z; same_data = inl z })
  ]
]

pub data AllSendable (own : Transport) : List Message → List Message → Type 0 where
  none : AllSendable own [] []
  also :
      {m n : Message} {ms ns : List Message}
      → Sendable own m n
      → AllSendable own ms ns
      → AllSendable own (m ∷ ms) (n ∷ ns)

-- If the factory makes messages of the channel's transport, each message of a multipart is replaced by
-- one of that transport, of the same size and with the same data.
pub check_send_all-Sendable :
    (own : Transport) (ms : List Message) → AllSendable own ms (check_send_all own own ms)
unfolding check_send_all
check_send_all-Sendable own [] = none
check_send_all-Sendable own (m ∷ ms) =
    also (check_send-Sendable own m) (check_send_all-Sendable own ms)
