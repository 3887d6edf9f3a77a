-- ===== src/Shmem/Monitor/Watch.antt =====
-- The loops of the monitor (fairmq/shmem/Monitor.cxx, Watch and CheckHeartbeats), beside the devices
-- of the session. Times are in milliseconds.
pub mod Dead
use fair_mq.Prelude.{
  ℕ, ◌+◌, ◌-◌, ◌*◌, ◌%◌, Bool, true, false, Option, none, some, List, [], ◌∷◌, if◌then◌else◌, ltb,
  ◌==◌,
}

-- What a pass of Watch has found before it looks at the time: the management segment, or none
pub data Found : Type 0 where
  segment nothing : Found

-- The fields of Monitor that the loops use, `local_hb` of CheckHeartbeats, the time that a pass of
-- Watch has taken and not yet used, and how often Cleanup was called.
pub record Monitor : Type 0 where
  pub self_destruct : Bool
  pub timeout : ℕ
  pub terminating : Bool
  pub seen_once : Bool
  pub heartbeat_triggered : Bool
  pub last_heartbeat : ℕ
  pub local_hb : ℕ
  pub now : Option (Found × ℕ)
  pub cleanups : ℕ

-- The clock, and the counter of heartbeats in the management segment, if that can be opened and
-- has one.
pub record World : Type 0 where
  pub clock : ℕ
  pub opened : Bool
  pub heartbeats : Option ℕ

-- now - fLastHeartbeat as an unsigned int
unfoldable pub duration : ℕ → ℕ → ℕ
duration now last = (now + 4294967296 - last % 4294967296) % 4294967296

-- A pass of Watch up to the time that it takes.
unfoldable pub take_time : World → Monitor → Monitor
take_time w m =
    if m.terminating
    then m
    else if w.opened
    then record m { seen_once = true; now = some (segment, w.clock) }
    else if m.self_destruct
    then if m.seen_once
      then record m { heartbeat_triggered = false; terminating = true; now = none }
      else record m { heartbeat_triggered = false; now = some (nothing, w.clock) }
    else record m { heartbeat_triggered = false; now = none }

-- The same pass from there. Cleanup removes the management segment.
unfoldable pub decide_segment : ℕ → World → Monitor → World × Monitor
unfolding duration
decide_segment now w m =
    let m' = record m { now = none } in
    elim m.heartbeat_triggered [
      | false ↦ (w, m')
      | true ↦
          if ltb m.timeout (duration now m.last_heartbeat)
          then (
            record w { opened = false; heartbeats = none },
            record m' {
              heartbeat_triggered = false;
              terminating = if m.self_destruct then true else m.terminating;
              cleanups = m.cleanups + 1;
            },
          )
          else (w, m')
    ]

unfoldable pub decide_nothing : ℕ → World → Monitor → World × Monitor
unfolding duration
decide_nothing now w m =
    let m' = record m { now = none } in
    if ltb (m.timeout * 2 % 4294967296) (duration now m.last_heartbeat)
    then (
      record w { opened = false; heartbeats = none },
      record m' { terminating = true; cleanups = m.cleanups + 1 },
    )
    else (w, m')

unfoldable pub decide : World → Monitor → World × Monitor
decide w m = elim m.now [
  | none ↦ (w, m)
  | some (segment, now) ↦ decide_segment now w m
  | some (nothing, now) ↦ decide_nothing now w m
]

-- A pass of CheckHeartbeats.
unfoldable pub check : World → Monitor → Monitor
check w m = elim m.terminating [
  | true ↦ m
  | false ↦ elim w.heartbeats [
    | none ↦ m
    | some global_hb ↦
        if m.local_hb == global_hb
        then m
        else record m { heartbeat_triggered = true; last_heartbeat = w.clock; local_hb = global_hb }
  ]
]

-- What happens in a session without devices that beat: time goes by, and the two threads go on.
pub data Event : Type 0 where
  time_passes : ℕ → Event
  checks looks decides : Event

unfoldable pub happen : Event → World → Monitor → World × Monitor
happen (time_passes t) w m = (record w { clock = w.clock + t }, m)
happen checks w m = (w, check w m)
happen looks w m = (w, take_time w m)
happen decides w m = decide w m

unfoldable pub happens : List Event → World → Monitor → World × Monitor
happens [] w m = (w, m)
happens (e ∷ es) w m = let (w', m') = happen e w m in happens es w' m'
