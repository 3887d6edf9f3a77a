-- ===== src/Tests/Monitor.antt =====
-- The monitor of the shared memory (fairmq/shmem/Monitor.cxx) on a small session.
use mathlib.Core.Path.{fun_ext, subst}
use Prim.Native.String.{String, ◌++◌ as append}
use text.Mathlib.Text.{◌==◌ as str_eq}
use text.Mathlib.TextEquality.{eq_iff}
use fair_mq.Prelude.{
  ℕ, ◌+◌, ◌≡◌, ◌≢◌, refl, sym, ap, inl, inr, Bool, true, false, Bool-cases, none, some, List, [],
  ◌∷◌, if◌then◌else◌, arith, eq_self,
}
use fair_mq.Shmem.Monitor.{
  object, NamedObject, Management, Os, Documented, make_shm_name, make_shm_name_at, cleanup,
  rbtree_best_fit,
}
use fair_mq.Shmem.Monitor.Removed.{SessionGone, Unlisted, cleanup_lem}
use mathlib.Core.List.{Memᴰ}
use mathlib.Core.List.Memᴰ.{head, tail}
use fair_mq.Shmem.Monitor.Watch.{
  Monitor, World, Event, time_passes, checks, looks, decides, happen, happens, take_time, check,
  decide, decide_segment, duration,
}
use fair_mq.Shmem.Monitor.Watch.Dead.{
  Pending, Cleaned, dead_session-Cleaned, fresh_heartbeat_is_cleaned,
}

-- A system that has what a set of names says, and removes it.
abbrev taken : String → (String → Bool) → String → Bool
taken n w k = if str_eq n k then false else w k

abbrev small_session : Management
small_session = record {
  regions = some ((1024, "") ∷ []);
  segments = some ((0, rbtree_best_fit) ∷ []);
}

abbrev names_os : Os (String → Bool)
names_os = record {
  remove = λ t w. (taken t.name w, w t.name);
  present = λ t w. w t.name;
  management = λ n w. if w n then some small_session else none;
}

names-Documented : Documented names_os
names-Documented = record {
  gone = λ t w e. rw (eq_self t.name) refl;
  refused = λ t w e. fun_ext (λ k. elim (Bool-cases (str_eq t.name k)) [
    | inl p ↦ cc (p, e, (eq_iff t.name k).0 p)
    | inr p ↦ cc p
  ]);
  others = λ t u w n. elim (Bool-cases (str_eq t.name u.name)) [
    | inl p ↦ absurd (n ((eq_iff t.name u.name).0 p))
    | inr p ↦ cc p
  ];
  none_comes =
      λ t u w e. elim (Bool-cases (str_eq t.name u.name)) [ inl p ↦ cc p | inr p ↦ cc (p, e) ];
  not_opened = λ n w e. cc e;
}

abbrev digits : ℕ → String
digits n = "7"

abbrev everything : String → Bool
everything n = true

abbrev foreign : NamedObject
foreign = record { kind = object; name = "other" }

differ : (a b : String) → str_eq a b ≡ false → a ≢ b
differ a b e p = cc (e, (eq_iff a b).1 p)

only_region :
    (id : ℕ) (path : String) → Memᴰ {A = ℕ × String} (id, path) ((1024, "") ∷ []) → path ≡ ""
only_region id path (head e) = ap (λ (p : ℕ × String). p.1) e
only_region id path (tail m) = elim m [ ]

foreign-Unlisted : Unlisted digits "1a" small_session "other"
unfolding make_shm_name make_shm_name_at
foreign-Unlisted = record {
  no_region = λ rs id path e i.
      let q : rs ≡ (1024, "") ∷ [] = cc e in
      let p = only_region id path (subst (Memᴰ {A = ℕ × String} (id, path)) q i) in
      (
        differ "fmq_1a_rg_7" "other" refl,
        subst (λ x. append x "fmq_1a_rg_7" ≢ "other") (sym p) (differ "fmq_1a_rg_7" "other" refl),
        differ "fmq_1a_rgq_7" "other" refl,
        differ "fmq_1a_rrc_7" "other" refl,
      );
  no_segment = λ ss id a e i. differ "fmq_1a_m_7" "other" refl;
  no_management = differ "fmq_1a_mng" "other" refl;
}

cleanup_lem_example :
    SessionGone names_os digits "1a" small_session
      (cleanup names_os digits "1a" everything).0
      (cleanup names_os digits "1a" everything).1
    × (names_os.present foreign (cleanup names_os digits "1a" everything).0
        ≡ names_os.present foreign everything)
cleanup_lem_example =
    cleanup_lem names_os names-Documented digits "1a" everything small_session foreign refl
      foreign-Unlisted

-- A monitor that has seen the 41st heartbeat at time 1000
abbrev watching : Monitor
watching = record {
  self_destruct = true;
  timeout = 2000;
  terminating = false;
  seen_once = true;
  heartbeat_triggered = true;
  last_heartbeat = 1000;
  local_hb = 41;
  now = none;
  cleanups = 0;
}

abbrev session_at : ℕ → ℕ → World
session_at t h = record { clock = t; opened = true; heartbeats = some h }

watching-Pending : Pending 2000 41 1000 0 (session_at 1000 41) watching
watching-Pending = record {
  timeout = refl;
  opened = refl;
  heartbeats = refl;
  local_hb = refl;
  running = refl;
  triggered = refl;
  last = refl;
  cleanups = refl;
  reached = omega arith;
  now = inl refl;
}

abbrev quiet_time : List Event
quiet_time = checks ∷ looks ∷ time_passes 1500 ∷ decides ∷ checks ∷ time_passes 700 ∷ []

dead_session-Cleaned_example :
    Cleaned 0
      (happens
        (looks ∷ decides ∷ [])
        (happens quiet_time (session_at 1000 41) watching).0
        (happens quiet_time (session_at 1000 41) watching).1).1
unfolding happens happen take_time check decide decide_segment duration
dead_session-Cleaned_example =
    dead_session-Cleaned 2000 41 1000 0 quiet_time (session_at 1000 41) watching watching-Pending
      (omega arith) (omega arith)

fresh_heartbeat_is_cleaned_example :
    ((happens (looks ∷ time_passes 3 ∷ checks ∷ []) (session_at 1100 42) watching).1.last_heartbeat
      ≡ (session_at 1100 42).clock + 3)
    × ((happens
          (looks ∷ time_passes 3 ∷ checks ∷ decides ∷ [])
          (session_at 1100 42)
          watching).1.cleanups
        ≡ watching.cleanups + 1)
fresh_heartbeat_is_cleaned_example =
    fresh_heartbeat_is_cleaned 3 42 (session_at 1100 42) watching refl refl refl refl (omega arith)
      (omega arith) (omega arith)
