-- ===== src/Zmq/Message/Aligned.antt =====
-- Aligned buffers (AllocateAligned and Realign of fairmq/zeromq/Message.h).
use native.Mathlib.Nat.{mod-lt}
use mathlib.Core.Path.{subst}
use fair_mq.Prelude.{
  Bool, true, false, ℕ, ◌+◌, ◌-◌, ◌%◌, ◌<◌, ◌≤◌, ◌≡◌, ◌⊎◌, inl, inr, ◌==◌, Bool-cases, ltb, refl,
  sym, ap, ◌∙◌, Option, none, some, arith,
}
use fair_mq.Shmem.Header.{next_multiple}
use fair_mq.Shmem.Socket.{plus_64}
use fair_mq.Zmq.Message.{
  ZmqMsg, ZmqMessage, get_size, get_data, allocate_aligned, move_aligned, realign,
  close_zmq_message, rebuild_of_data,
}

-- What malloc gives holds as many bytes as it was asked for: the block ends before the address 2^64.
unfoldable pub Fits : (ℕ → Option ℕ) → Type 0
Fits malloc = (n p : ℕ) → malloc n ≡ some p → p + n < 18446744073709551616

-- The aligned part of a block, as it should be: aligned, and inside of the block.
pub record IsAligned (size alignment block part : ℕ) : Type 0 where
  pub aligned : part % alignment ≡ 0
  pub behind : block < part
  pub inside : part + size ≤ block + (size + alignment)

-- Where a block of the size and the alignment is at p: what allocate_aligned gives.
module _ (size alignment p : ℕ) (positive : 0 < alignment) where
  pub part_of : ℕ
  part_of = plus_64 p (alignment - p % alignment)

  part_fits :
      p + (size + alignment) < 18446744073709551616 → part_of ≡ p + (alignment - p % alignment)
  unfolding part_of
  part_fits h = omega arith

  part-IsAligned :
      p + (size + alignment) < 18446744073709551616 → IsAligned size alignment p part_of
  part-IsAligned h = record {
    aligned = ap (λ n. n % alignment) (part_fits h) ∙ next_multiple p alignment positive;
    behind = omega (arith, part_fits h, mod-lt p {m = alignment} positive);
    inside = omega (arith, part_fits h);
  }

allocated :
    (malloc : ℕ → Option ℕ) (size alignment : ℕ) {block part : ℕ}
    → allocate_aligned malloc size alignment ≡ some (block, part)
    → size + alignment < 18446744073709551616
    → (malloc (size + alignment) ≡ some block)
      × (part ≡ plus_64 block (alignment - block % alignment))
unfolding allocate_aligned
allocated malloc size alignment e b =
    let q : plus_64 size alignment ≡ size + alignment = omega arith in ground arith

-- AllocateAligned, where the size and the alignment add up to a size_t: the aligned part is at a
-- multiple of the alignment, and as many bytes as the size from there on lie in the block.
pub allocate_aligned-IsAligned :
    (malloc : ℕ → Option ℕ) (size alignment block part : ℕ)
    → Fits malloc
    → 0 < alignment
    → size + alignment < 18446744073709551616
    → allocate_aligned malloc size alignment ≡ some (block, part)
    → IsAligned size alignment block part
unfolding Fits part_of
allocate_aligned-IsAligned malloc size alignment block part f a b e =
    let (given, at_part) = allocated malloc size alignment e b in
    subst (IsAligned size alignment block) (sym at_part)
      (part-IsAligned size alignment block a (f (size + alignment) block given))

-- How Realign leaves a message.
pub data Realigned (malloc : ℕ → Option ℕ) (ok : Bool) (blank : ZmqMsg) (m m' : ZmqMessage)
    : Type 0 where
  kept :
      m' ≡ m
      → (m.alignment ≡ 0) ⊎ ((get_size m ≡ 0) ⊎ (m.msg.address % m.alignment ≡ 0))
      → Realigned malloc ok blank m m'
  moved :
      {block : ℕ}
      → m'.msg.bytes ≡ m.msg.bytes
      → m'.msg.hint ≡ some block
      → ok ≡ true
      → malloc (get_size m + m.alignment) ≡ some block
      → IsAligned (get_size m) m.alignment block m'.msg.address
      → m'.alignment ≡ 0
      → Realigned malloc ok blank m m'
  lost : ok ≡ false → m'.msg ≡ blank → m'.alignment ≡ 0 → Realigned malloc ok blank m m'

allocation_cases :
    (r : Option (ℕ × ℕ)) → (r ≡ none) ⊎ ((block : ℕ) × (part : ℕ) × (r ≡ some (block, part)))
allocation_cases none = inl refl
allocation_cases (some (block, part)) = inr (block, part, refl)

-- Where Realign moves the data.
MustMove : ZmqMessage → Type 0
MustMove m = (0 < m.alignment) × (0 < get_size m) × (0 < m.msg.address % m.alignment)

realign_cases :
    (malloc : ℕ → Option ℕ) (ok : Bool) (blank : ZmqMsg) (m : ZmqMessage)
    → ((realign malloc ok blank m ≡ some m)
        × ((m.alignment ≡ 0) ⊎ ((get_size m ≡ 0) ⊎ (m.msg.address % m.alignment ≡ 0))))
      ⊎ (MustMove m × (realign malloc ok blank m ≡ move_aligned malloc ok blank m))
unfolding realign get_data MustMove
realign_cases malloc ok blank m = elim (Bool-cases (m.alignment == 0)) [
  | inl a ↦ inl (ground arith, inl (ground arith))
  | inr a ↦ elim (Bool-cases (ltb 0 (get_size m))) [
    | inr b ↦ inl (ground arith, inr (inl (ground arith)))
    | inl b ↦ elim (Bool-cases (m.msg.address % m.alignment == 0)) [
      | inl c ↦ inl (ground arith, inr (inr (ground arith)))
      | inr c ↦ inr ((ground arith, ground arith, ground arith), ground arith)
    ]
  ]
]

move_aligned-alignment :
    (malloc : ℕ → Option ℕ) (ok : Bool) (blank : ZmqMsg) (m m' : ZmqMessage)
    → move_aligned malloc ok blank m ≡ some m'
    → m'.alignment ≡ 0
unfolding move_aligned rebuild_of_data close_zmq_message
move_aligned-alignment malloc ok blank m m' e =
    elim (allocation_cases (allocate_aligned malloc (get_size m) m.alignment)) [
      | inl q ↦ cc (e, q)
      | inr (block, part, q) ↦ ground arith
    ]

-- A message that Realign moved has lost its alignment: whatever is received into it afterwards stays
-- where libzmq puts it.
pub realign_forgets :
    (malloc : ℕ → Option ℕ) (ok : Bool) (blank : ZmqMsg) (m m' : ZmqMessage)
    → 0 < m.alignment
    → 0 < get_size m
    → 0 < m.msg.address % m.alignment
    → realign malloc ok blank m ≡ some m'
    → (incoming : ZmqMsg)
    → realign malloc ok blank (record m' { msg = incoming }) ≡ some (record m' { msg = incoming })
unfolding realign
realign_forgets malloc ok blank m m' a s u e incoming = elim (realign_cases malloc ok blank m) [
  | inl (_, inl z) ↦ absurd (omega (arith, z))
  | inl (_, inr (inl z)) ↦ absurd (omega (arith, z))
  | inl (_, inr (inr z)) ↦ absurd (omega (arith, z))
  | inr (_, q) ↦ rw (move_aligned-alignment malloc ok blank m m' (sym q ∙ e)) refl
]
