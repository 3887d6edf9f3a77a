-- ===== src/Shmem/Message/Leaks.antt =====
-- Four uses of a message that lose a reference, or take one too many (fairmq/shmem/Message.h, and
-- fairmq/shmem/Socket.h for Receive).
use fair_mq.Prelude.{
  ℕ, ◌+◌, ◌<◌, ◌≡◌, refl, ap, ◌∙◌, sym, true, false, Option, none, some, List, ◌∷◌, is_negative,
  arith, ◌==◌, length,
}
use fair_mq.Shmem.Store.{Key, buffer, Store, put}
use fair_mq.Shmem.Message.{
  Message, Chunk, rebuild, rebuild_size, copy, copy_meta, close_if_open, header_of, set_meta,
  mark_queued,
}
use fair_mq.Shmem.Message.References.{
  key_of, one_at, holders, count_for, one_at_self, holders_one, holders_two, count_for_injective,
  count-put_self, key_of_queued, increment_lem, holders-le-length,
}
use fair_mq.Shmem.Message.Counting.{Counted, Counted-rest, key_of_negative}
use fair_mq.Shmem.Message.Closing.{close_if_open_lem}
use fair_mq.Shmem.Message.Sharing.{share_of_key}
use fair_mq.Shmem.Message.Copying.{copy_fine, key_of_managed}
use fair_mq.Shmem.Message.Creating.{rebuilt, rebuild_lem, initialize_chunk-some}
use fair_mq.Shmem.Message.Transfer.{key_of-set_meta}

key_of_unshared :
    (rc : ℕ → Option ℕ) (m : Message)
    → m.managed ≡ false
    → is_negative m.shared ≡ true
    → key_of rc m ≡ none
unfolding key_of
key_of_unshared rc m p q = ground arith

-- A new count with no message that refers to it.
orphan :
    (x : Message) (ms : List Message) (w : Store) (k : Key)
    → key_of w.rc_segment_size x ≡ none
    → w.count k ≡ none
    → w.count k ≡ count_for (holders w.rc_segment_size ms k)
    → ¬ Counted (put k (some 1) w) (x ∷ ms)
unfolding put
orphan x ms w k e unused others d =
    let rest = holders w.rc_segment_size ms k in
    let zero_refs : rest ≡ 0 = count_for_injective rest 0 (sym others ∙ unused) in
    let now : 1 ≡ 0 + rest = count_for_injective 1 (0 + rest) (
      sym (count-put_self k (some 1) w)
      ∙ d.counts k
      ∙ ap count_for (holders_one w.rc_segment_size x ms none k e)) in
    omega (arith, zero_refs, now)

-- Rebuild(size) of a region message that was never copied: the message stays marked as a region
-- message, so that its new buffer is counted for a reference that no message holds.
pub rebuild_size_region_leaks :
    (size : ℕ) (got : Chunk) (m : Message) (ms : List Message) (w : Store)
    → length ms < 65535
    → (size == 0) ≡ false
    → m.managed ≡ false
    → is_negative m.shared ≡ true
    → (rebuild m w).store.count (buffer m.segment_id got.handle) ≡ none
    → Counted w (m ∷ ms)
    → let a = rebuild_size size (some got) m w in
      (a.error ≡ none) × ¬ Counted a.store (a.message ∷ ms)
unfolding rebuild_size
rebuild_size_region_leaks size got m ms w b z p q unused c =
    let (fine, same, counted) = rebuild_lem m ms w b c in
    rw (fine, same, rebuild_size)
      (rw (initialize_chunk-some size got (rebuilt m) (rebuild m w).store z) (
        refl,
        orphan
            (record m {
              local_ptr = got.user_ptr;
              size = size;
              handle = got.handle;
              queued = false;
            })
            ms (rebuild m w).store (buffer m.segment_id got.handle)
            (key_of_unshared (rebuild m w).store.rc_segment_size
              (record m {
                local_ptr = got.user_ptr;
                size = size;
                handle = got.handle;
                queued = false;
              })
              p q)
            unused
            (Counted-rest (rebuild m w).store (rebuilt m) ms
              (key_of_negative (rebuild m w).store.rc_segment_size (rebuilt m) refl) counted
              (buffer m.segment_id got.handle)),
      ))

-- Receiving into a message that still refers to a buffer loses that reference: the counts are wrong
-- afterwards.
pub set_meta_leaks :
    (t m : Message) (ms : List Message) (w : Store) (k : Key)
    → t.queued ≡ false
    → m.queued ≡ false
    → key_of w.rc_segment_size t ≡ some k
    → Counted w (t ∷ m ∷ ms)
    → ¬ Counted w (set_meta (header_of m) t ∷ mark_queued m ∷ ms)
unfolding mark_queued
set_meta_leaks t m ms w k p q e c d =
    let same =
      count_for_injective (holders w.rc_segment_size (t ∷ m ∷ ms) k)
        (holders w.rc_segment_size (set_meta (header_of m) t ∷ mark_queued m ∷ ms) k)
        (sym (c.counts k) ∙ d.counts k) in
    omega (
      arith,
      same,
      one_at_self k,
      holders_one w.rc_segment_size t (m ∷ ms) _ k e,
      holders_two w.rc_segment_size (set_meta (header_of m) t) (mark_queued m) ms _ _ k
          (key_of-set_meta w.rc_segment_size t m p q)
          (key_of_queued w.rc_segment_size (mark_queued m) refl),
    )

-- Copy into a message that was sent before: it takes a reference to a managed buffer that no message
-- gives up again, so the counts are wrong afterwards.
pub copy_into_sent_leaks :
    (got : Option Chunk) (t o : Message) (ms : List Message) (w : Store)
    → length ms < 65533
    → t.queued ≡ true
    → o.queued ≡ false
    → is_negative o.handle ≡ false
    → o.managed ≡ true
    → Counted w (t ∷ o ∷ ms)
    → let r = copy got t o w in (r.error ≡ none) × ¬ Counted r.store (r.this ∷ r.other ∷ ms)
unfolding put copy_meta
copy_into_sent_leaks got t o ms w b t_sent o_here o_live o_managed c =
    let a = close_if_open t w in
    let (fine, empty, counted, same, segment) = close_if_open_lem t (o ∷ ms) w (omega arith) c in
    let rc = a.store.rc_segment_size in
    let k = buffer o.segment_id o.handle in
    let h = holders rc (o ∷ ms) in
    let others =
      Counted-rest a.store a.message (o ∷ ms) (key_of_negative rc a.message empty) counted in
    let e = key_of_managed rc o o_here o_live o_managed in
    let refs = holders_one rc o ms (some k) k e in
    let (inc, counts) =
      increment_lem k a.store h (omega (arith, refs, one_at_self k))
        (omega (arith, refs, one_at_self k, holders-le-length rc ms k, b)) others in
    let w' = put k (count_for (1 + h k)) a.store in
    let shares = share_of_key a.message.segment_id got o a.store k e in
    rw (copy_fine got t o o w w' o_live fine (rw (shares, inc) refl)) (
      refl,
      λ d. omega (
        arith,
        one_at_self k,
        count_for_injective (one_at k k + h k) (holders rc (copy_meta a.message o ∷ o ∷ ms) k)
            (sym (counts k) ∙ d.counts k),
        holders_one rc (copy_meta a.message o) (o ∷ ms) none k
            (key_of_queued rc (copy_meta a.message o) (same ∙ t_sent)),
      ),
    )
