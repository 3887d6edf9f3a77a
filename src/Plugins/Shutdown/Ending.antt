-- ===== src/Plugins/Shutdown/Ending.antt =====
-- Whether Control::RunShutdownSequence (fairmq/plugins/control/Control.cxx) brings the device to EXITING.
use fair_mq.Prelude.{
  ℕ, zero, suc, ◌<◌, ◌≡◌, ◌≢◌, ◌⊎◌, refl, sym, ap, ◌∙◌, inl, inr, Option, Option-cases, none, some,
  List, [], ◌∷◌, ◌++◌, arith, true,
}
use fair_mq.States.{
  State, Transition, running, ready, stop, error, idle, resetting_device, exiting, auto,
}
use fair_mq.Fsm.{row}
use fair_mq.Plugins.Shutdown.{
  Shutdown, Phase, reading, clearing, deciding, awaiting, finished, Step, goes_on, stops, pushes,
  reads, clears, leaves, asks, refused, ignores, takes, request,
}
use fair_mq.Plugins.Shutdown.Leads.{normal, requested, unasked, itself_normal}
use fair_mq.Plugins.Shutdown.Better.{
  Trail, Fits, at_test, ignoring, over, no_reading, no_clearing, measure, Good, Better, at_phase,
  by_going_on, by_pushing, Trail-asked, by_leaving, by_asking, by_refusal, by_ignoring, by_taking,
}

step-Better : (x y : Shutdown) → Good x → Step x y → Better x y
step-Better x _ g (goes_on t h) = by_going_on x g t (inl h)
step-Better x _ g (stops h) = by_going_on x g ready (inr (h, refl))
step-Better x _ g (pushes t u h) = by_pushing x g t u h
step-Better x _ g (reads h) =
    absurd (no_reading (x.queue ++ x.unpushed) x.device (at_phase x g reading h))
step-Better x _ g (clears s h n) =
    absurd (no_clearing s (x.queue ++ x.unpushed) x.device (at_phase x g (clearing s) h))
step-Better x _ g (leaves s h e) = by_leaving x g s h e
step-Better x _ g (asks s e t h r k) = by_asking x g s e t h r k
step-Better x _ g (refused s e h r k) = by_refusal x g s e h r k
step-Better x _ g (ignores s h r n m) = by_ignoring x g s h r n
step-Better x _ g (takes s t q h k) = by_taking x g s t q h k

normal-error : (s : State) → normal s ≡ true → s ≢ error
unfolding normal
normal-error s n e = cc (ap normal e, n)

-- A first state of a trail is a state of the device's region.
Trail-normal : (s d : State) (q : List State) → normal d ≡ true → Trail s q d → normal s ≡ true
unfolding Trail normal row
Trail-normal s d [] n e = ap normal e ∙ n
Trail-normal s d (t ∷ q) n (r, k) = itself_normal s t r

exiting_stays : (s t : State) → row s auto ≡ some t → s ≢ exiting
unfolding row
exiting_stays s t h e = cc (ap (λ y. row y auto) e, h)

late_refused :
    (s d : State) (e : Transition) → s ≡ running → request s ≡ some e → d ≡ ready → row d e ≡ none
unfolding request row
late_refused s d e a r q =
    let is_stop : Option.some stop ≡ some e = sym (ap request a) ∙ r in
    let same : e ≡ stop = sym (cc is_stop) in λ i. row (q i) (same i)

-- Some step is possible until the controller has left the loop.
progress :
    (x : Shutdown)
    → Good x
    → ((x.phase ≡ finished) × (x.device ≡ exiting)) ⊎ ((y : Shutdown) × Step x y)
unfolding Trail
progress x g = go x.phase x.queue x.unpushed x.device refl refl refl refl g.normal_device g.fits
  where
    go :
        (p : Phase) (q u : List State) (d : State)
        → x.phase ≡ p
        → x.queue ≡ q
        → x.unpushed ≡ u
        → x.device ≡ d
        → normal d ≡ true
        → Fits p (q ++ u) d
        → ((x.phase ≡ finished) × (x.device ≡ exiting)) ⊎ ((y : Shutdown) × Step x y)
    go reading q u d a b v c n f = absurd (no_reading (q ++ u) d f)
    go (clearing s) q u d a b v c n f = absurd (no_clearing s (q ++ u) d f)
    go finished q u d a b v c n over = inl (a, c)
    go (awaiting s) (t ∷ q) u d a b v c n f = inr (_, takes s t q a b)
    go (awaiting s) [] (t ∷ u) d a b v c n f = inr (_, pushes t u v)
    go (awaiting s) [] [] d a b v c n (ignoring r m k) = elim (unasked s (ap normal k ∙ n) r) [
      | inl e ↦ absurd (m e)
      | inr (t, h) ↦ inr (_, goes_on t (ap (λ y. row y auto) (c ∙ sym k) ∙ h))
    ]
    go (deciding s) q u d a b v c n (at_test k) = elim (Option-cases (request s)) [
      | inr (e, r) ↦ elim (Trail-asked s d (q ++ u) e r k) [
        | inl (_, w) ↦
            let (t, (h, o)) = requested s e r in
            inr (_, asks s e t a r (ap (λ y. row y e) (c ∙ sym w) ∙ h))
        | inr (w, _, m) ↦ inr (_, refused s e a r (ap (λ y. row y e) c ∙ late_refused s d e w r m))
      ]
      | inl r ↦ elim (unasked s (Trail-normal s d (q ++ u) n k) r) [
        | inl e ↦ inr (_, leaves s a (inl e))
        | inr (t, h) ↦ inr (
          _,
          ignores s a r (exiting_stays s t h) (normal-error s (Trail-normal s d (q ++ u) n k)),
        )
      ]
    ]

-- Every run comes to its end, and there the controller has left the loop and the device is in EXITING.
pub data Finishes : Shutdown → Type 0 where
  finished_here : {x : Shutdown} → x.phase ≡ finished → x.device ≡ exiting → Finishes x
  goes_further :
      {x : Shutdown}
      → ((y : Shutdown) × Step x y)
      → ((y : Shutdown) → Step x y → Finishes y)
      → Finishes x

finishes : (n : ℕ) (x : Shutdown) → measure x < n → Good x → Finishes x
finishes zero x l g = let none_less : ¬ (measure x < 0) = omega arith in absurd (none_less l)
finishes (suc n) x l g = elim (progress x g) [
  | inl (a, b) ↦ finished_here a b
  | inr s ↦
      goes_further s
        (λ y t. let b = step-Better x y g t in finishes n y (omega (arith, l, b.less)) b.good)
]

-- If the device is still in the state that was read when the queue is cleared, and has pushed it, the
-- shutdown comes to its end in whatever order the device, which may end its run by itself, its pushes
-- and the controller go on: no run is without end, none gets
-- stuck, and at the end the device is in EXITING.
pub shutdown-Finishes :
    (s : State)
    → normal s ≡ true
    → Finishes (record { device = s; unpushed = []; queue = []; phase = deciding s })
unfolding Trail
shutdown-Finishes s n =
    let x : Shutdown = record { device = s; unpushed = []; queue = []; phase = deciding s } in
    finishes (suc (measure x)) x (omega arith) (record { normal_device = n; fits = at_test refl })

-- One step after the other.
pub data Steps : Shutdown → Shutdown → Type 0 where
  stay : {x : Shutdown} → Steps x x
  more : {x y z : Shutdown} → Step x y → Steps y z → Steps x z

stuck :
    (y : Shutdown)
    → ¬ Step
        (record { device = idle; unpushed = []; queue = []; phase = awaiting resetting_device })
        y
unfolding row
stuck y (goes_on t h) = cc h
stuck y (stops h) = cc h
stuck y (pushes t u h) = cc h
stuck y (reads h) = cc h
stuck y (clears s h n) = cc h
stuck y (leaves s h e) = cc h
stuck y (asks s e t h r k) = cc h
stuck y (refused s e h r k) = cc h
stuck y (ignores s h r n m) = cc h
stuck y (takes s t q h k) = cc k

-- RESETTING DEVICE is read, the device goes on to IDLE and pushes it, and then the queue is cleared: the controller
-- waits for a state, the device waits in IDLE, and no step is possible.
pub shutdown_stuck :
    (q : List State)
    → Steps
        (record { device = resetting_device; unpushed = []; queue = q; phase = reading })
        (record { device = idle; unpushed = []; queue = []; phase = awaiting resetting_device })
      × ((y : Shutdown)
          → ¬ Step
              (record {
                device = idle;
                unpushed = [];
                queue = [];
                phase = awaiting resetting_device;
              })
              y)
unfolding row request
shutdown_stuck q = (
  more (reads refl) (
      more (goes_on idle refl) (
        more (pushes idle [] refl) (
          more (clears resetting_device refl (λ e. cc e))
            (more (ignores resetting_device refl refl (λ e. cc e) (λ e. cc e)) stay)))),
  stuck,
)
