-- ===== src/Shmem/Monitor/Watch/Dead.antt =====
-- The monitor's loops (fairmq/shmem/Monitor.cxx) over a session whose devices are gone.
use fair_mq.Prelude.{
  ℕ, ◌+◌, ◌≤◌, ◌<◌, ◌≡◌, ◌⊎◌, inl, inr, true, false, not, ◌||◌, none, some, List, [], ◌∷◌, arith,
  ltb, lt→ltb, Bool-cases, ◌==◌,
}
use fair_mq.Shmem.Monitor.Watch.{
  segment, Monitor, World, duration, take_time, decide_segment, decide_nothing, decide, check,
  Event, time_passes, checks, looks, decides, happen, happens,
}

-- The timeout is `k`. The heartbeats are those that the monitor has seen, the last time at `l`; nothing was cleaned
-- since there were `c` cleanups.
pub record Pending (k h l c : ℕ) (w : World) (m : Monitor) : Type 0 where
  pub timeout : m.timeout ≡ k
  pub opened : w.opened ≡ true
  pub heartbeats : w.heartbeats ≡ some h
  pub local_hb : m.local_hb ≡ h
  pub running : m.terminating ≡ false
  pub triggered : m.heartbeat_triggered ≡ true
  pub last : m.last_heartbeat ≡ l
  pub cleanups : m.cleanups ≡ c
  pub reached : l ≤ w.clock
  pub now : (m.now ≡ none) ⊎ ((t : ℕ) × (m.now ≡ some (segment, t)))

-- Something was cleaned, and a monitor that destroys itself ends.
pub record Cleaned (c : ℕ) (m : Monitor) : Type 0 where
  pub more : c < m.cleanups
  pub ends : (not m.self_destruct || m.terminating) ≡ true

check-Pending :
    (k h l c : ℕ) (w : World) (m : Monitor) → Pending k h l c w m → Pending k h l c w (check w m)
unfolding check
check-Pending k h l c w m p = ground arith

take_time-Pending :
    (k h l c : ℕ) (w : World) (m : Monitor)
    → Pending k h l c w m
    → Pending k h l c w (take_time w m)
unfolding take_time
take_time-Pending k h l c w m p = ground arith

-- Either, for what an event leaves
abbrev pub Goes : ℕ → ℕ → ℕ → ℕ → World × Monitor → Type 0
Goes k h l c (w, m) = Pending k h l c w m ⊎ Cleaned c m

decide_segment-Goes :
    (k h l c t : ℕ) (w : World) (m : Monitor)
    → Pending k h l c w m
    → Goes k h l c (decide_segment t w m)
unfolding decide_segment
decide_segment-Goes k h l c t w m p =
    elim (Bool-cases (ltb m.timeout (duration t m.last_heartbeat))) [
      | inl e ↦ ground arith
      | inr e ↦ ground arith
    ]

decide-Goes :
    (k h l c : ℕ) (w : World) (m : Monitor) → Pending k h l c w m → Goes k h l c (decide w m)
unfolding decide
decide-Goes k h l c w m p = elim p.now [
  | inl e ↦ ground arith
  | inr (t, e) ↦ ground (arith, decide_segment-Goes k h l c t w m p)
]

happen-Cleaned :
    (c : ℕ) (e : Event) (w : World) (m : Monitor) → Cleaned c m → Cleaned c (happen e w m).1
unfolding happen check take_time decide decide_segment decide_nothing
happen-Cleaned c (time_passes t) w m p = p
happen-Cleaned c checks w m p = ground arith
happen-Cleaned c looks w m p = ground arith
happen-Cleaned c decides w m p = ground arith

happen-Goes :
    (k h l c : ℕ) (e : Event) (w : World) (m : Monitor)
    → Pending k h l c w m
    → Goes k h l c (happen e w m)
unfolding happen
happen-Goes k h l c (time_passes t) w m p = inl (ground arith)
happen-Goes k h l c checks w m p = inl (check-Pending k h l c w m p)
happen-Goes k h l c looks w m p = inl (take_time-Pending k h l c w m p)
happen-Goes k h l c decides w m p = decide-Goes k h l c w m p

happens-Cleaned :
    (c : ℕ) (es : List Event) (w : World) (m : Monitor) → Cleaned c m → Cleaned c (happens es w m).1
unfolding happens
happens-Cleaned c [] w m p = p
happens-Cleaned c (e ∷ es) w m p =
    happens-Cleaned c es (happen e w m).0 (happen e w m).1 (happen-Cleaned c e w m p)

happens-Goes :
    (k h l c : ℕ) (es : List Event) (w : World) (m : Monitor)
    → Pending k h l c w m
    → Goes k h l c (happens es w m)
unfolding happens
happens-Goes k h l c [] w m p = inl p
happens-Goes k h l c (e ∷ es) w m p = elim (happen-Goes k h l c e w m p) [
  | inl q ↦ happens-Goes k h l c es (happen e w m).0 (happen e w m).1 q
  | inr q ↦ inr (happens-Cleaned c es (happen e w m).0 (happen e w m).1 q)
]

duration-small : (now l : ℕ) → l ≤ now → now < l + 4294967296 → duration now l + l ≡ now
unfolding duration
duration-small now l a b = omega (arith, a, b)

-- A pass of Watch once the timeout has passed
late_pass :
    (k h l c : ℕ) (w : World) (m : Monitor)
    → Pending k h l c w m
    → l + k < w.clock
    → w.clock < l + 4294967296
    → Cleaned c (happens (looks ∷ decides ∷ []) w m).1
unfolding happens happen take_time decide decide_segment
late_pass k h l c w m p a b =
    let late : ltb m.timeout (duration w.clock m.last_heartbeat) ≡ true =
      lt→ltb m.timeout (duration w.clock m.last_heartbeat)
        (ground (arith, duration-small w.clock l p.reached b)) in
    ground arith

-- If the monitor has seen all heartbeats of a session that is still there, the last at time `l`, and
-- no device beats any more: whatever the two threads do meanwhile, once the timeout `k` has passed the
-- next pass of Watch leaves the session cleaned up, by itself or before it, and a monitor that
-- destroys itself terminating. The clock is less than 2^32 milliseconds ahead of `l`.
pub dead_session-Cleaned :
    (k h l c : ℕ) (es : List Event) (w : World) (m : Monitor)
    → Pending k h l c w m
    → l + k < (happens es w m).0.clock
    → (happens es w m).0.clock < l + 4294967296
    → Cleaned c (happens (looks ∷ decides ∷ []) (happens es w m).0 (happens es w m).1).1
dead_session-Cleaned k h l c es w m p a b = elim (happens-Goes k h l c es w m p) [
  | inl q ↦ late_pass k h l c (happens es w m).0 (happens es w m).1 q a b
  | inr q ↦ happens-Cleaned c (looks ∷ decides ∷ []) (happens es w m).0 (happens es w m).1 q
]

duration-late : (n t : ℕ) → 1 ≤ t → t ≤ 2147483648 → duration n (n + t) + t ≡ 4294967296
unfolding duration
duration-late n t a b = omega (arith, a, b)

-- Watch takes the time before it reads the time of the last heartbeat. If CheckHeartbeats runs
-- between the two and sees a heartbeat at a later millisecond, the difference wraps around: with a
-- timeout of less than 2^31 the session is cleaned up although the heartbeat was seen just now.
pub fresh_heartbeat_is_cleaned :
    (t g : ℕ) (w : World) (m : Monitor)
    → m.terminating ≡ false
    → w.opened ≡ true
    → w.heartbeats ≡ some g
    → (m.local_hb == g) ≡ false
    → m.timeout < 2147483648
    → 1 ≤ t
    → t ≤ 2147483648
    → (happens (looks ∷ time_passes t ∷ checks ∷ []) w m).1.last_heartbeat ≡ w.clock + t
      × ((happens (looks ∷ time_passes t ∷ checks ∷ decides ∷ []) w m).1.cleanups ≡ m.cleanups + 1)
unfolding happens happen take_time check decide decide_segment
fresh_heartbeat_is_cleaned t g w m run o hb new a b d =
    let wraps : ltb m.timeout (duration w.clock (w.clock + t)) ≡ true =
      lt→ltb m.timeout (duration w.clock (w.clock + t))
        (omega (arith, duration-late w.clock t b d, a, d)) in
    (ground arith, ground arith)
