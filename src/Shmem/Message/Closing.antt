-- ===== src/Shmem/Message/Closing.antt =====
-- Closing a message (fairmq/shmem/Message.h: Deallocate, CloseMessage, ReleaseUnmanagedRegionBlock):
-- the last reference frees the buffer, and gives the block of a region message back.
use mathlib.Core.Path.{subst, fun_ext}
use native.Mathlib.Nat.{zero-add}
use fair_mq.Prelude.{
  ℕ, ◌+◌, ◌<◌, ◌≡◌, refl, ap, ◌∙◌, sym, Bool, true, false, not, ◌&&◌, ◌||◌, Option, none, some,
  List, [], ◌∷◌, ◌++◌, is_negative, if◌then◌else◌, ◌==◌, arith, length, inl, inr, minus_one,
  Bool-cases, Option-cases,
}
use fair_mq.Shmem.Store.{Key, Block, Store, Error, put, release_block}
use fair_mq.Shmem.Message.{
  Message, release, release_shared, block_of, deallocate, close_message, close_if_open,
}
use fair_mq.Shmem.Message.Counting.{Known, Counted, Counted-cons, key_of_negative}
use fair_mq.Shmem.Message.References.{
  key_of, one_at?, holders, count_for, holders-le-length, decrement_lem,
}

-- Whether closing `m` gives a block back: `m` is a live region message, and none of `ms` shares its
-- block with it.
unfoldable pub is_last : (ℕ → Option ℕ) → Message → List Message → Bool
is_last rc m ms =
    not (is_negative m.handle || m.queued)
    && not m.managed
    && elim (key_of rc m) [ none ↦ true | some k ↦ holders rc ms k == 0 ]

release_block_count : (b : Block) (w : Store) (k : Key) → (release_block b w).count k ≡ w.count k
unfolding release_block
release_block_count b w k = ground arith

release_block_rc : (b : Block) (w : Store) → (release_block b w).rc_segment_size ≡ w.rc_segment_size
unfolding release_block
release_block_rc b w = fun_ext (λ i. ground arith)

release_block_released :
    (b : Block) (w : Store) (n : ℕ)
    → w.rc_segment_size b.region ≡ some n
    → (release_block b w).released ≡ w.released ++ b ∷ []
unfolding release_block
release_block_released b w n e = ground arith

-- What `release` must achieve when `ms` are the messages that stay.
record Released (m : Message) (ms : List Message) (w : Store) (r : Store × Option Error)
    : Type 0 where
  no_error : r.1 ≡ none
  counts : (k : Key) → r.0.count k ≡ count_for (holders w.rc_segment_size ms k)
  same_regions : r.0.rc_segment_size ≡ w.rc_segment_size
  released :
      r.0.released
      ≡ (if is_last w.rc_segment_size m ms then w.released ++ block_of m ∷ [] else w.released)

module _ (m : Message) (ms : List Message) (w w' : Store) (known : Known w.rc_segment_size m) where
  give_back :
      (b : Bool)
      → ((k : Key) → w'.count k ≡ count_for (holders w.rc_segment_size ms k))
      → w'.rc_segment_size ≡ w.rc_segment_size
      → w'.released ≡ w.released
      → is_last w.rc_segment_size m ms ≡ b
      → (b ≡ true → m.managed ≡ false)
      → Released m ms w (if b then release_block (block_of m) w' else w', none)
  unfolding block_of
  give_back true e r l q u =
      let (n, found) = known (u refl) in
      record {
        no_error = refl;
        counts = λ k. release_block_count (block_of m) w' k ∙ e k;
        same_regions = release_block_rc (block_of m) w' ∙ r;
        released = rw q (
            release_block_released (block_of m) w' n (ap (λ f. f m.region_id) r ∙ found)
            ∙ ap (λ l. l ++ block_of m ∷ []) l);
      }
  give_back false e r l q u = record {
    no_error = refl;
    counts = e;
    same_regions = r;
    released = rw q l;
  }

release_shared_lem :
    (k : Key) (m : Message) (ms : List Message) (w : Store)
    → key_of w.rc_segment_size m ≡ some k
    → (is_negative m.handle || m.queued) ≡ false
    → length ms < 65535
    → Counted w (m ∷ ms)
    → Released m ms w (release_shared k m w)
unfolding release_shared put is_last
release_shared_lem k m ms w e live b c =
    let h = holders w.rc_segment_size ms in
    let (dec, after) =
      decrement_lem k w h (omega (arith, holders-le-length w.rc_segment_size ms k, b))
        (λ j. c.counts j ∙ ap (λ o. count_for (one_at? o j + h j)) e) in
    rw dec (
      give_back m ms w (put k (count_for (h k)) w) c.known.0 ((h k == 0) && not m.managed) after
        refl refl (ground (arith, e, live)) (λ q. ground arith))

unfoldable pub is_idle : Message → Bool
is_idle m = is_negative m.handle || m.queued

release_of_key :
    (m : Message) (w : Store) (k : Key)
    → key_of w.rc_segment_size m ≡ some k
    → (release m w ≡ release_shared k m w) × (is_idle m ≡ false)
unfolding release key_of is_idle
release_of_key m w k e = ground arith

release_idle : (m : Message) (w : Store) → is_idle m ≡ true → release m w ≡ (w, none)
unfolding release is_idle
release_idle m w e = ground arith

release_alone :
    (m : Message) (w : Store)
    → key_of w.rc_segment_size m ≡ none
    → is_idle m ≡ false
    → Known w.rc_segment_size m
    → (release m w ≡ (release_block (block_of m) w, none)) × (m.managed ≡ false)
unfolding release key_of is_idle
release_alone m w e live known =
    let reg : m.managed ≡ false = ground arith in
    let (n, found) = known reg in (ground (arith, reg, found), reg)

-- Closing a live or empty message never fails, leaves the counts right for the messages that stay,
-- and gives a block back exactly if this was the last message to share it.
release_lem :
    (m : Message) (ms : List Message) (w : Store)
    → length ms < 65535
    → Counted w (m ∷ ms)
    → Released m ms w (release m w)
unfolding is_last is_idle
release_lem m ms w b c = elim (Option-cases (key_of w.rc_segment_size m)) [
  | inr (k, e) ↦
      let (shared, live) = release_of_key m w k e in
      subst (Released m ms w) (sym shared) (release_shared_lem k m ms w e live b c)
  | inl e ↦
      let counts : (k : Key) → w.count k ≡ count_for (holders w.rc_segment_size ms k) = λ k.
        c.counts k
        ∙ ap (λ o. count_for (one_at? o k + holders w.rc_segment_size ms k)) e
        ∙ ap count_for (zero-add (holders w.rc_segment_size ms k)) in
      elim (Bool-cases (is_idle m)) [
        | inl idle ↦
            subst (Released m ms w) (sym (release_idle m w idle))
              (give_back m ms w w c.known.0 false counts refl refl (ground (arith, idle)) (λ q. cc))
        | inr live ↦
            let (eq, reg) = release_alone m w e live c.known.0 in
            subst (Released m ms w) (sym eq) (
              give_back m ms w w c.known.0 true counts refl refl (ground (arith, live, e))
                (λ _. reg))
      ]
]

abbrev pub closed : Message → Message
closed m = record m { local_ptr = 0; size = 0; handle = minus_one }

close_message_eq :
    (m : Message) (w : Store)
    → (release m w).1 ≡ none
    → close_message m w ≡ record { message = closed m; store = (release m w).0; error = none }
unfolding close_message deallocate
close_message_eq m w e = rw (e, close_message, deallocate)

closed_fields :
    (m : Message) (w : Store) → (release m w).1 ≡ none → (close_message m w).message ≡ closed m
closed_fields m w e = rw (close_message_eq m w e)

-- Closing a message: whatever the message and the others refer to, if the counts are right and fewer
-- than 65535 others are alive, the call succeeds, the message is empty, the counts are right again,
-- and a block goes back to its region exactly if the message was the last to refer to it.
pub close_message_lem :
    (m : Message) (ms : List Message) (w : Store)
    → length ms < 65535
    → Counted w (m ∷ ms)
    → let a = close_message m w in
      (a.error ≡ none)
      × (is_negative a.message.handle ≡ true)
      × Counted a.store (a.message ∷ ms)
      × (a.store.released
          ≡ (if is_last w.rc_segment_size m ms then w.released ++ block_of m ∷ [] else w.released))
close_message_lem m ms w b c =
    let r = release_lem m ms w b c in
    rw (close_message_eq m w r.no_error) (
      refl,
      refl,
      Counted-cons (release m w).0 (closed m) ms w.rc_segment_size r.same_regions r.counts
          (key_of_negative w.rc_segment_size (closed m) refl) c.known,
      r.released,
    )

-- It loses its buffer, and keeps its other fields.
pub close_message-closed :
    (m : Message) (ms : List Message) (w : Store)
    → length ms < 65535
    → Counted w (m ∷ ms)
    → (close_message m w).message ≡ closed m
close_message-closed m ms w b c = closed_fields m w (release_lem m ms w b c).no_error

-- So too where Copy closes a message that is open.
pub close_if_open_lem :
    (m : Message) (ms : List Message) (w : Store)
    → length ms < 65535
    → Counted w (m ∷ ms)
    → let a = close_if_open m w in
      (a.error ≡ none)
      × (is_negative a.message.handle ≡ true)
      × Counted a.store (a.message ∷ ms)
      × (a.message.queued ≡ m.queued)
      × (a.message.segment_id ≡ m.segment_id)
unfolding close_if_open
close_if_open_lem m ms w b c = elim (Bool-cases (is_negative m.handle)) [
  | inl empty ↦ rw (empty, close_if_open) (refl, empty, c, refl, refl)
  | inr open' ↦
      let (fine, negative, counted, _) = close_message_lem m ms w b c in
      let same = close_message-closed m ms w b c in
      rw (open', close_if_open)
        (fine, negative, counted, ap (λ x. x.queued) same, ap (λ x. x.segment_id) same)
]
