-- ===== src/Shmem/Header.antt =====
-- ShmHeader (fairmq/shmem/Common.h): where the header and the user's part of a managed buffer lie.
-- Addresses are numbers. Hdr has two 16-bit fields: its size is 4 and its alignment is 2.
use native.Mathlib.Nat.{mod-add-mod, mod_self, mod-lt}
use fair_mq.Prelude.{ℕ, ◌+◌, ◌-◌, ◌%◌, ◌≤◌, ◌<◌, ◌≡◌, sym, ap, ◌∙◌, arith, ◌⊎◌, inl, inr}

abbrev size_of_offset : ℕ
size_of_offset = 2

abbrev align_of_hdr : ℕ
align_of_hdr = 2

abbrev size_of_hdr : ℕ
size_of_hdr = 4

-- What Construct writes: the offset of the Hdr, and the two fields of the Hdr.
pub record Header : Type 0 where
  pub hdr_offset : ℕ
  pub user_offset : ℕ
  pub ref_count : ℕ

-- HdrPartSize
abbrev pub hdr_part_size : ℕ
hdr_part_size = size_of_offset + align_of_hdr + size_of_hdr

-- Construct. Both offsets are stored in 16 bits.
unfoldable pub construct : ℕ → ℕ → Header
construct ptr alignment = record {
  hdr_offset = (align_of_hdr - (ptr + size_of_offset) % align_of_hdr) % 65536;
  user_offset = (alignment - (ptr + hdr_part_size) % alignment) % 65536;
  ref_count = 1;
}

-- HdrPtr, UserOffset and UserPtr read the header that was constructed at the address.
unfoldable pub hdr_ptr : ℕ → Header → ℕ
hdr_ptr ptr h = ptr + size_of_offset + h.hdr_offset

unfoldable pub user_offset_of : Header → ℕ
user_offset_of h = (hdr_part_size + h.user_offset) % 65536

unfoldable pub user_ptr : ℕ → Header → ℕ
user_ptr ptr h = ptr + hdr_part_size + h.user_offset

-- FullSize, a sum of numbers of 64 bits
unfoldable pub full_size : ℕ → ℕ → ℕ
full_size size alignment = (hdr_part_size + alignment + size) % 18446744073709551616

-- The next multiple after an address.
pub next_multiple : (x a : ℕ) → 1 ≤ a → (x + (a - x % a)) % a ≡ 0
next_multiple x a h =
    sym (mod-add-mod x a (a - x % a))
    ∙ ap (λ n. n % a) (omega (arith, mod-lt x {m = a} h))
    ∙ mod_self a

-- An offset that is stored in 16 bits is kept, or it was 65536.
wrap_small : (n : ℕ) → n ≤ 65536 → (n ≡ 65536) ⊎ (n % 65536 ≡ n)
wrap_small n h = grind arith

module _ (ptr alignment size : ℕ) (even : ptr % 2 ≡ 0)
    (fits : hdr_part_size + alignment + size < 18446744073709551616) where
  -- At an even address, where the sizes of the parts add up to a number of 64 bits, the parts lie in
  -- their order and apart, and the whole lies in the size that is allocated for it; the Hdr is aligned.
  pub construct_layout :
      (ptr + 2 ≤ hdr_ptr ptr (construct ptr alignment))
      × ((hdr_ptr ptr (construct ptr alignment) + 4 ≤ user_ptr ptr (construct ptr alignment))
          × ((user_ptr ptr (construct ptr alignment) + size ≤ ptr + full_size size alignment)
              × (hdr_ptr ptr (construct ptr alignment) % 2 ≡ 0)))
  unfolding construct hdr_ptr user_ptr full_size
  construct_layout =
      (omega (arith, even), (omega (arith, even), (omega (arith, fits), omega (arith, even))))

module _ (ptr alignment : ℕ) where
  -- With an alignment of at most 65536 the user's part is aligned.
  pub user_ptr-construct :
      1 ≤ alignment → alignment ≤ 65536 → user_ptr ptr (construct ptr alignment) % alignment ≡ 0
  unfolding construct user_ptr
  user_ptr-construct p h =
      let x = ptr + hdr_part_size in
      let n = alignment - x % alignment in
      elim (wrap_small n (omega (arith, h))) [
        | inl e ↦
            let full : alignment ≡ 65536 = omega (arith, e, h) in
            let none : x % alignment ≡ 0 = omega (arith, e, h) in
            ap (λ k. k % alignment) (omega (arith, e)) ∙ none
        | inr e ↦ ap (λ k. (x + k) % alignment) e ∙ next_multiple x alignment p
      ]
