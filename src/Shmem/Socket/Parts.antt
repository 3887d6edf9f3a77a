-- ===== src/Shmem/Socket/Parts.antt =====
-- Several messages through a socket (fairmq/shmem/Socket.h): what arrives is what was sent.
use fair_mq.Prelude.{
  ℕ, ◌≡◌, refl, ap, ◌∙◌, sym, Bool, true, false, Option, some, List, [], ◌∷◌, ◌++◌, map, arith, ◌+◌,
}
use fair_mq.Shmem.Store.{Key, Store}
use fair_mq.Shmem.Message.{MetaHeader, Message, header_of, from_header, mark_queued}
use fair_mq.Shmem.Message.References.{key_of, one_at?, holders, count_for, key_of_queued, Describes}
use fair_mq.Shmem.Message.Counting.{Counted, AllKnown}
use fair_mq.Shmem.Message.Transfer.{key_of_received}
use fair_mq.Shmem.Socket.{
  Traffic, arrived, transferred, headers, mark_parts, total_parts, total_headers, parts_sent,
  send_parts, receive_parts, plus_64, parts_received, PartsReceived,
}

headers-map : (ms : List Message) → headers (map some ms) ≡ some (map header_of ms)
unfolding headers
headers-map [] = refl
headers-map (m ∷ ms) = rw (headers-map ms) refl

mark_parts-map : (ms : List Message) → mark_parts (map some ms) ≡ map some (map mark_queued ms)
unfolding mark_parts
mark_parts-map [] = refl
mark_parts-map (m ∷ ms) = ap (λ x. some (mark_queued m) ∷ x) (mark_parts-map ms)

total-map :
    (n : ℕ) (ms : List Message) → total_parts n (map some ms) ≡ total_headers n (map header_of ms)
unfolding total_parts total_headers header_of from_header
total-map n [] = refl
total-map n (m ∷ ms) = total-map (plus_64 n m.size) ms

-- None of the messages was sent before.
unfoldable pub Unsent : List Message → Type 0
Unsent [] = Unit {0}
Unsent (m ∷ ms) = (m.queued ≡ false) × Unsent ms

-- The messages that are made of the headers, and the sent ones, marked.
abbrev pub arrive : List Message → List Message
arrive ms = map (λ m. from_header (header_of m)) ms

module _ (rc : ℕ → Option ℕ) where
  holders-append :
      (xs ys : List Message) (k : Key) → holders rc (xs ++ ys) k ≡ holders rc xs k + holders rc ys k
  holders-append [] ys k = omega arith
  holders-append (x ∷ xs) ys k = omega (arith, holders-append xs ys k)

  holders-arrive :
      (ms : List Message) (k : Key) → Unsent ms → holders rc (arrive ms) k ≡ holders rc ms k
  unfolding Unsent
  holders-arrive [] k u = refl
  holders-arrive (m ∷ ms) k (q, u) =
      ap (λ o. one_at? o k + holders rc (arrive ms) k) (key_of_received rc m q)
      ∙ ap (λ n. one_at? (key_of rc m) k + n) (holders-arrive ms k u)

  holders-marked : (ms : List Message) (k : Key) → holders rc (map mark_queued ms) k ≡ 0
  unfolding mark_queued
  holders-marked [] k = refl
  holders-marked (m ∷ ms) k =
      ap (λ o. one_at? o k + holders rc (map mark_queued ms) k)
        (key_of_queued rc (mark_queued m) refl)
      ∙ omega (arith, holders-marked ms k)

  known-append : (xs ys : List Message) → AllKnown rc xs → AllKnown rc ys → AllKnown rc (xs ++ ys)
  known-append [] ys p q = q
  known-append (x ∷ xs) ys p q = (p.0, known-append xs ys p.1 q)

  known-split : (xs ys : List Message) → AllKnown rc (xs ++ ys) → AllKnown rc xs × AllKnown rc ys
  known-split [] ys p = (tt, p)
  known-split (x ∷ xs) ys p = let (a, b) = known-split xs ys p.1 in ((p.0, a), b)

  known-arrive : (ms : List Message) → AllKnown rc ms → AllKnown rc (arrive ms)
  unfolding from_header header_of
  known-arrive [] p = p
  known-arrive (m ∷ ms) p = (p.0, known-arrive ms p.1)

  known-marked : (ms : List Message) → AllKnown rc ms → AllKnown rc (map mark_queued ms)
  unfolding mark_queued
  known-marked [] p = p
  known-marked (m ∷ ms) p = (p.0, known-marked ms p.1)

map-map :
    (ms : List Message) → map (λ h. some (from_header h)) (map header_of ms) ≡ map some (arrive ms)
map-map [] = refl
map-map (m ∷ ms) = ap (λ x. some (from_header (header_of m)) ∷ x) (map-map ms)

send_parts-sent :
    (ms : List Message) (t : Traffic)
    → send_parts arrived (map some ms) t ≡ parts_sent arrived (map some ms) (map header_of ms) t
unfolding send_parts
send_parts-sent ms t = rw (send_parts, headers-map ms) refl

moves :
    (w : Store) (ms rest : List Message)
    → Unsent ms
    → Counted w (ms ++ rest)
    → Counted w (arrive ms ++ (map mark_queued ms ++ rest))
moves w ms rest u c =
    let rc = w.rc_segment_size in
    let (a, b) = known-split rc ms rest c.known in
    record {
      counts = λ k.
          c.counts k
          ∙ ap count_for (
              omega (
                arith,
                holders-append rc ms rest k,
                holders-append rc (arrive ms) (map mark_queued ms ++ rest) k,
                holders-append rc (map mark_queued ms) rest k,
                holders-arrive rc ms k u,
                holders-marked rc ms k,
              ));
      known =
          known-append rc (arrive ms) (map mark_queued ms ++ rest) (known-arrive rc ms a)
            (known-append rc (map mark_queued ms) rest (known-marked rc ms a) b);
    }

-- The messages that arrive describe those that were sent, in their order, and are not marked as sent.
abbrev pub AllDescribe : List Message → List Message → Type 0
AllDescribe [] [] = Unit {0}
AllDescribe [] (m ∷ ms) = ⊥
AllDescribe (x ∷ xs) [] = ⊥
AllDescribe (x ∷ xs) (m ∷ ms) = (Describes x m × (x.queued ≡ false)) × AllDescribe xs ms

arrive-AllDescribe : (ms : List Message) → AllDescribe (arrive ms) ms
unfolding from_header header_of
arrive-AllDescribe [] = tt
arrive-AllDescribe (m ∷ ms) =
    (((refl, refl, refl, refl, refl, refl, refl), refl), arrive-AllDescribe ms)

received_all :
    (asserting : Bool) (m : Message) (ms : List Message) (parts : List (Option Message))
    (t : Traffic)
    → receive_parts asserting arrived (map header_of (m ∷ ms)) parts t
      ≡ some (parts_received (map header_of (m ∷ ms)) parts t)
unfolding receive_parts
received_all true m ms parts t = refl
received_all false m ms parts t = refl

-- One or more messages that were not sent before, sent together and received from what was written:
-- as many messages arrive behind those in the container, in the same order, each with the size, hint,
-- handle, count, region, segment and kind of the one that was sent. Both calls return the same size,
-- the sent messages are marked, and counts that agreed with the live messages before agree with all
-- of them.
pub receive_parts-send_parts :
    (asserting : Bool) (m : Message) (ms rest : List Message) (w : Store)
    (parts : List (Option Message)) (t t' : Traffic)
    → Unsent (m ∷ ms)
    → Counted w ((m ∷ ms) ++ rest)
    → let sent = send_parts arrived (map some (m ∷ ms)) t in
      (hs : List MetaHeader) × (xs : List Message) × (r : PartsReceived) × (sent.wire ≡ some hs)
      × (sent.parts ≡ map some (map mark_queued (m ∷ ms)))
      × (receive_parts asserting arrived hs parts t' ≡ some r)
      × (r.parts ≡ parts ++ map some xs)
      × AllDescribe xs (m ∷ ms)
      × (r.result ≡ sent.result)
      × Counted w (xs ++ (map mark_queued (m ∷ ms) ++ rest))
unfolding parts_sent parts_received
receive_parts-send_parts asserting m ms rest w parts t t' u c = (
  map header_of (m ∷ ms),
  arrive (m ∷ ms),
  parts_received (map header_of (m ∷ ms)) parts t',
  ap (λ x. x.wire) (send_parts-sent (m ∷ ms) t),
  ap (λ x. x.parts) (send_parts-sent (m ∷ ms) t) ∙ mark_parts-map (m ∷ ms),
  received_all asserting m ms parts t',
  ap (λ x. parts ++ x) (map-map (m ∷ ms)),
  arrive-AllDescribe (m ∷ ms),
  sym (ap (λ x. x.result) (send_parts-sent (m ∷ ms) t) ∙ ap transferred (total-map 0 (m ∷ ms))),
  moves w (m ∷ ms) rest u c,
)
