-- ===== src/Zmq/Peers.antt =====
-- The number of connected peers (updateNumberOfConnectedPeers of fairmq/zeromq/Common.h), by the
-- events that the monitor socket of libzmq has pending.
use fair_mq.Prelude.{ℕ, ◌+◌, ◌-◌, ◌<◌, ◌≤◌, ◌≡◌, ltb, if◌then◌else◌, List, [], ◌∷◌, arith}
use fair_mq.Shmem.Socket.{plus_64}

pub data MonitorEvent : Type 0 where
  connected accepted disconnected another : MonitorEvent

unfoldable pub update_peer : MonitorEvent → ℕ → ℕ
update_peer connected n = plus_64 n 1
update_peer accepted n = plus_64 n 1
update_peer disconnected n = if ltb 0 n then n - 1 else n
update_peer another n = n

unfoldable pub update_peers : List MonitorEvent → ℕ → ℕ
update_peers [] n = n
update_peers (e ∷ es) n = update_peers es (update_peer e n)

abbrev pub comes : MonitorEvent → ℕ
comes connected = 1
comes accepted = 1
comes disconnected = 0
comes another = 0

abbrev pub goes : MonitorEvent → ℕ
goes connected = 0
goes accepted = 0
goes disconnected = 1
goes another = 0

abbrev pub total_by : (MonitorEvent → ℕ) → List MonitorEvent → ℕ
total_by f [] = 0
total_by f (e ∷ es) = f e + total_by f es

-- From n peers on, no more have gone at any time than were there and had come.
abbrev pub NoneMissed : ℕ → List MonitorEvent → Type 0
NoneMissed n [] = Unit {0}
NoneMissed n (e ∷ es) = (goes e ≤ n + comes e) × NoneMissed (n + comes e - goes e) es

one_peer :
    (e : MonitorEvent) (n : ℕ)
    → goes e ≤ n + comes e
    → n + 1 < 18446744073709551616
    → update_peer e n ≡ n + comes e - goes e
unfolding update_peer
one_peer connected n h b = omega arith
one_peer accepted n h b = omega arith
one_peer disconnected n h b = ground arith
one_peer another n h b = omega arith

-- If no event was missed, those who have come and not gone are counted.
pub update_peers_lem :
    (es : List MonitorEvent) (n : ℕ)
    → NoneMissed n es
    → n + total_by comes es + 1 < 18446744073709551616
    → update_peers es n + total_by goes es ≡ n + total_by comes es
unfolding update_peers
update_peers_lem [] n m b = omega arith
update_peers_lem (e ∷ es) n (h, m) b =
    let q = one_peer e n h (omega arith) in
    rw q (omega (arith, update_peers_lem es (n + comes e - goes e) m (omega arith)))
