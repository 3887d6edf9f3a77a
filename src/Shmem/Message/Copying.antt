-- ===== src/Shmem/Message/Copying.antt =====
-- Copying a message (fairmq/shmem/Message.h: Copy): both messages refer to one buffer afterwards,
-- and its count says so.
use mathlib.Core.Path.{subst, ap₂}
use native.Mathlib.Nat.{zero-add}
use fair_mq.Prelude.{
  ℕ, zero, suc, ◌+◌, ◌<◌, ◌≡◌, refl, ap, ◌∙◌, sym, ◌⊎◌, true, false, Option, none, some, List, ◌∷◌,
  is_negative, arith, length, inl, inr, Option-cases,
}
use fair_mq.Shmem.Store.{Key, buffer, region_count, Store, Error, put}
use fair_mq.Shmem.Message.{Message, Chunk, share, copy_meta, copy, close_if_open}
use fair_mq.Shmem.Message.References.{
  key_of, one_at, one_at?, holders, count_for, holders-le-length, increment_lem, put_counts,
  one_at_self, one_at_other, Describes,
}
use fair_mq.Shmem.Message.Counting.{Known, AllKnown, Counted, key_of_negative}
use fair_mq.Shmem.Message.Closing.{is_idle, close_if_open_lem}
use fair_mq.Shmem.Message.Sharing.{
  share_of_key, First, First-of_key, share_nothing, holder, key_of-holder, share-First,
}

-- What an allocator promises of a new object: its handle is no error value, and nothing is counted
-- there yet.
abbrev pub IsNew : Option Chunk → ℕ → ℕ → Store → Type 0
IsNew got segment region w =
    (c : Chunk)
    → got ≡ some c
    → (is_negative c.handle ≡ false)
      × (w.count (buffer segment c.handle) ≡ none)
      × (w.count (region_count region c.handle) ≡ none)

count_for-none : (n : ℕ) → count_for n ≡ none → n ≡ 0
count_for-none zero e = refl
count_for-none (suc n) e = cc

key_of_copy :
    (rc : ℕ → Option ℕ) (t o : Message)
    → t.queued ≡ false
    → o.queued ≡ false
    → key_of rc (copy_meta t o) ≡ key_of rc o
unfolding key_of copy_meta
key_of_copy rc t o q q' = rw (q, q')

holder_new :
    (segment n : ℕ) (c : Chunk) (o : Message) (w : Store)
    → w.count (buffer segment c.handle) ≡ none
    → w.count (region_count o.region_id c.handle) ≡ none
    → w.count (holder segment n c o).1 ≡ none
unfolding holder
holder_new segment n c o w b r = ground arith

holder-Known :
    (w : Store) (segment n : ℕ) (c : Chunk) (t o : Message)
    → First w o n
    → Known w.rc_segment_size (holder segment n c o).0
      × Known w.rc_segment_size (copy_meta t (holder segment n c o).0)
      × ((holder segment n c o).0.queued ≡ o.queued)
unfolding First holder copy_meta
holder-Known w segment n c t o (_, _, found) =
    (λ _. (n, ground (arith, found)), λ _. (n, ground (arith, found)), ground arith)

-- The counts once two messages refer to `k`, where `h` counts the other references.
recount :
    (w' : Store) (rc : ℕ → Option ℕ) (x y : Message) (ms : List Message) (k : Key)
    → w'.rc_segment_size ≡ rc
    → key_of rc x ≡ some k
    → key_of rc y ≡ some k
    → ((j : Key) → w'.count j ≡ count_for (one_at k j + (one_at k j + holders rc ms j)))
    → AllKnown rc (x ∷ y ∷ ms)
    → Counted w' (x ∷ y ∷ ms)
recount w' rc x y ms k r ex ey counts known = record {
  counts = λ j.
      counts j
      ∙ sym (
          ap count_for {x = holders w'.rc_segment_size (x ∷ y ∷ ms) j} (
            ap (λ f. holders f (x ∷ y ∷ ms) j) r
            ∙ ap₂ (λ a b. one_at? a j + (one_at? b j + holders rc ms j)) ex ey));
  known = subst (λ f. AllKnown f (x ∷ y ∷ ms)) (sym r) known;
}

module _ (t o : Message) (ms : List Message) (w : Store) (b : length ms < 65533)
    (c : Counted w (t ∷ o ∷ ms)) (t_idle : is_negative t.handle ≡ true) (t_here : t.queued ≡ false)
    (o_here : o.queued ≡ false) where
  -- The counts without the empty message.
  others : (j : Key) → w.count j ≡ count_for (holders w.rc_segment_size (o ∷ ms) j)
  others j =
      c.counts j
      ∙ ap (λ a. count_for (one_at? a j + holders w.rc_segment_size (o ∷ ms) j))
          (key_of_negative w.rc_segment_size t t_idle)
      ∙ ap count_for (zero-add (holders w.rc_segment_size (o ∷ ms) j))

  copies_known : AllKnown w.rc_segment_size (copy_meta t o ∷ o ∷ ms)
  unfolding copy_meta
  copies_known = (c.known.1.0, c.known.1)

  share-Counted :
      (got : Option Chunk) (k : Key)
      → key_of w.rc_segment_size o ≡ some k
      → let r = share t.segment_id got o w in
        (r.1 ≡ none) × (r.0.0 ≡ o) × Counted r.0.1 (copy_meta t o ∷ o ∷ ms)
  unfolding put
  share-Counted got k e =
      let rest = holders w.rc_segment_size ms in
      let refs : (j : Key) → holders w.rc_segment_size (o ∷ ms) j ≡ one_at k j + rest j =
        λ j. ap (λ a. one_at? a j + rest j) e in
      let (inc, counts) =
        increment_lem k w (λ j. one_at k j + rest j) (omega (arith, one_at_self k))
          (omega (arith, one_at_self k, holders-le-length w.rc_segment_size ms k, b))
          (λ j. others j ∙ ap count_for (refs j)) in
      rw (share_of_key t.segment_id got o w k e, inc)
        (
          refl,
          refl,
          recount (put k (count_for (1 + (one_at k k + rest k))) w) w.rc_segment_size
              (copy_meta t o) o ms k refl (key_of_copy w.rc_segment_size t o t_here o_here ∙ e) e
              counts copies_known,
        )

  -- A region message's first copy, with the new count holder.
  First-Counted :
      (n : ℕ) (got : Chunk)
      → First w o n
      → is_idle o ≡ false
      → is_negative got.handle ≡ false
      → w.count (buffer t.segment_id got.handle) ≡ none
      → w.count (region_count o.region_id got.handle) ≡ none
      → key_of w.rc_segment_size o ≡ none
      → let r = share t.segment_id (some got) o w in
        (r.1 ≡ none) × Counted r.0.1 (copy_meta t r.0.0 ∷ r.0.0 ∷ ms)
  unfolding First
  First-Counted n got first live good new_buffer new_count e =
      let rc = w.rc_segment_size in
      let rest = holders rc ms in
      let (o', k) = holder t.segment_id n got o in
      let (w', shares, counts, regions) = share-First t.segment_id got o w n first in
      let (known, known', here) = holder-Known w t.segment_id n got t o first in
      let refs : (j : Key) → holders rc (o ∷ ms) j ≡ rest j =
        λ j. ap (λ a. one_at? a j + rest j) e ∙ zero-add (rest j) in
      let unused : rest k ≡ 0 = count_for-none (rest k) (
        ap count_for (sym (refs k))
        ∙ sym (others k)
        ∙ holder_new t.segment_id n got o w new_buffer new_count) in
      let key = key_of-holder rc t.segment_id n got o first.0 first.2 live good in
      rw shares (
        refl,
        recount w' rc (copy_meta t o') o' ms k regions
            (key_of_copy rc t o' t_here (here ∙ o_here) ∙ key) key
            (λ j.
              counts j
              ∙ put_counts k w 2 (holders rc (o ∷ ms)) (λ i. one_at k i + (one_at k i + rest i))
                  others (omega (arith, one_at_self k, unused))
                  (λ i m. omega (arith, refs i, one_at_other k i m)) j)
            (known', (known, c.known.1.1)),
      )

  -- What sharing the other's buffer leaves, given an allocator that returns new objects or none.
  shared-Counted :
      (got : Option Chunk)
      → is_negative o.handle ≡ false
      → IsNew got t.segment_id o.region_id w
      → let r = share t.segment_id got o w in
        ((r.1 ≡ none) × Counted r.0.1 (copy_meta t r.0.0 ∷ r.0.0 ∷ ms))
        ⊎ ((got ≡ none) × (((x : Error) × (r.1 ≡ some x)) × (r.0 ≡ (o, w))))
  unfolding is_idle
  shared-Counted got o_live is_new = elim (Option-cases (key_of w.rc_segment_size o)) [
    | inr (k, e) ↦
        let (fine, same, counted) = share-Counted got k e in
        inl (
          fine,
          subst (λ x. Counted (share t.segment_id got o w).0.1 (copy_meta t x ∷ x ∷ ms)) (sym same)
              counted,
        )
    | inl e ↦
        let live : is_idle o ≡ false = ground arith in
        let (n, first) = First-of_key w o e live c.known.1.0 in
        elim (Option-cases got) [
          | inl no_object ↦
              let (x, threw) = share_nothing t.segment_id o w n first in
              inr (no_object, rw (no_object, threw) ((x, refl), refl))
          | inr (g, object) ↦
              let (good, new_buffer, new_count) = is_new g object in
              inl (rw object (First-Counted n g first live good new_buffer new_count e))
        ]
  ]

pub key_of_managed :
    (rc : ℕ → Option ℕ) (m : Message)
    → m.queued ≡ false
    → is_negative m.handle ≡ false
    → m.managed ≡ true
    → key_of rc m ≡ some (buffer m.segment_id m.handle)
unfolding key_of
key_of_managed rc m p q r = rw (p, q, r)

pub copy_keeps_queued : (t o : Message) → t.queued ≡ true → (copy_meta t o).queued ≡ true
unfolding copy_meta
copy_keeps_queued t o q = q

-- Copy of a message that refers to a buffer, neither of the two sent before: the counts stay right,
-- and either both messages have the same size, hint, handle, count, region, segment and kind, and
-- this one is not marked as sent, or there was no memory for a new count, the call threw, this message
-- is empty and the other is as it was. Fewer than 65533 others are alive, and the allocator returns
-- new objects.
pub copy_lem :
    (got : Option Chunk) (t o : Message) (ms : List Message) (w : Store)
    → length ms < 65533
    → t.queued ≡ false
    → o.queued ≡ false
    → is_negative o.handle ≡ false
    → IsNew got t.segment_id o.region_id (close_if_open t w).store
    → Counted w (t ∷ o ∷ ms)
    → let r = copy got t o w in
      Counted r.store (r.this ∷ r.other ∷ ms)
      × (((r.error ≡ none) × Describes r.this r.other × (r.this.queued ≡ false))
          ⊎ ((got ≡ none)
              × (((x : Error) × (r.error ≡ some x))
                  × ((is_negative r.this.handle ≡ true) × (r.other ≡ o)))))
unfolding copy copy_meta
copy_lem got t o ms w b t_here o_here o_live is_new c =
    let a = close_if_open t w in
    let (fine, empty, counted, same, segment) = close_if_open_lem t (o ∷ ms) w (omega arith) c in
    let done =
      shared-Counted a.message o ms a.store b counted empty (same ∙ t_here) o_here got o_live
        (subst (λ s. IsNew got s o.region_id a.store) (sym segment) is_new) in
    elim done [
      | inl (ok, after) ↦
          rw (o_live, fine, ok, copy)
            (after, inl (refl, (refl, refl, refl, refl, refl, refl, refl), same ∙ t_here))
      | inr (none_left, ((x, threw), unchanged)) ↦
          rw (o_live, fine, threw, unchanged, copy)
            (counted, inr (none_left, ((x, refl), (empty, refl))))
    ]

-- Copy where sharing the buffer succeeds.
pub copy_fine :
    (got : Option Chunk) (t o o' : Message) (w w' : Store)
    → is_negative o.handle ≡ false
    → (close_if_open t w).error ≡ none
    → share (close_if_open t w).message.segment_id got o (close_if_open t w).store
      ≡ ((o', w'), none)
    → copy got t o w ≡ record {
      this = copy_meta (close_if_open t w).message o';
      other = o';
      store = w';
      error = none;
    }
unfolding copy
copy_fine got t o o' w w' live fine shared = ground arith
