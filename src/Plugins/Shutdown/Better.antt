-- ===== src/Plugins/Shutdown/Better.antt =====
-- Each step of Control::RunShutdownSequence (fairmq/plugins/control/Control.cxx) brings the device on.
use mathlib.Core.Path.{subst}
use fair_mq.Prelude.{
  ℕ, suc, ◌+◌, ◌*◌, ◌<◌, ◌≡◌, ◌≢◌, ◌⊎◌, refl, sym, ap, ◌∙◌, inl, inr, Option, none, some, List, [],
  ◌∷◌, ◌++◌, length, length-append, arith, true,
}
use mathlib.Core.List.{append_assoc}
use fair_mq.States.{State, Transition, error, exiting, running, ready, stop}
use fair_mq.Fsm.{row}
use fair_mq.Plugins.Shutdown.{
  Shutdown, Phase, reading, clearing, deciding, awaiting, finished, request,
}
use fair_mq.Plugins.Shutdown.Leads.{
  normal, rank, requested, MovesItself, itself-Onward, itself_normal, ready_stays, asked_itself,
}

-- States that the device goes through by itself, from the first state to the last.
unfoldable pub Trail : State → List State → State → Type 0
Trail s [] d = s ≡ d
Trail s (t ∷ q) d = MovesItself s t × Trail t q d

-- How the queue and the device fit the controller's phase after the queue was cleared in time.
pub data Fits : Phase → List State → State → Type 0 where
  at_test : {s d : State} {q : List State} → Trail s q d → Fits (deciding s) q d
  ignoring :
      {s d : State} {q : List State}
      → request s ≡ none
      → s ≢ exiting
      → Trail s q d
      → Fits (awaiting s) q d
  answered : {s t d : State} {q : List State} → Trail t q d → Fits (awaiting s) (t ∷ q) d
  over : {q : List State} → Fits finished q exiting

Trail-more :
    (s d t : State) (q : List State) → Trail s q d → MovesItself d t → Trail s (q ++ t ∷ []) t
unfolding Trail
Trail-more s d t [] e h = (subst (λ x. MovesItself x t) (sym e) h, refl)
Trail-more s d t (u ∷ q) (r, k) h = (r, Trail-more u d t q k h)

pub Trail-stays :
    (s d : State) (q : List State)
    → ((t : State) → ¬ MovesItself s t)
    → Trail s q d
    → (q ≡ []) × (s ≡ d)
unfolding Trail
Trail-stays s d [] h e = (refl, e)
Trail-stays s d (t ∷ q) h (r, k) = absurd (h t r)

-- In a state in which the controller asks for something: the device is there, or its run has ended.
pub Trail-asked :
    (s d : State) (q : List State) (e : Transition)
    → request s ≡ some e
    → Trail s q d
    → ((q ≡ []) × (s ≡ d)) ⊎ ((s ≡ running) × (q ≡ ready ∷ []) × (d ≡ ready))
unfolding Trail
Trail-asked s d [] e h k = inl (refl, k)
Trail-asked s d (t ∷ q) e h (r, k) =
    let (a, b) = asked_itself s t e h r in
    let (n, m) = Trail-stays t d q (λ u o. ready_stays u (subst (λ y. MovesItself y u) b o)) k in
    inr (a, (λ i. b i ∷ n i), sym m ∙ b)

Fits-more :
    (p : Phase) (q : List State) (d t : State)
    → Fits p q d
    → MovesItself d t
    → Fits p (q ++ t ∷ []) t
unfolding row
Fits-more p q d t (at_test k) h = at_test (Trail-more _ d t q k h)
Fits-more p q d t (ignoring r n k) h = ignoring r n (Trail-more _ d t q k h)
Fits-more p (_ ∷ q) d t (answered k) h = answered (Trail-more _ d t q k h)
Fits-more p q d t over (inl h) = cc h
Fits-more p q d t over (inr (a, b)) = cc a

Fits-deciding : (s d : State) (q : List State) → Fits (deciding s) q d → Trail s q d
Fits-deciding s d q (at_test k) = k

Fits-taken : (s t d : State) (q : List State) → Fits (awaiting s) (t ∷ q) d → Trail t q d
unfolding Trail
Fits-taken s t d q (ignoring r n k) = k.1
Fits-taken s t d q (answered k) = k

pub no_reading : (q : List State) (d : State) → ¬ Fits reading q d
no_reading q d f = elim f [ ]

pub no_clearing : (s : State) (q : List State) (d : State) → ¬ Fits (clearing s) q d
no_clearing s q d f = elim f [ ]

unfoldable pub weight : Phase → ℕ
weight (deciding s) = 1
weight _ = 0

-- What each step makes less.
unfoldable pub measure : Shutdown → ℕ
measure x = 6 * rank x.device + (3 * length x.unpushed + (2 * length x.queue + weight x.phase))

pub record Good (x : Shutdown) : Type 0 where
  pub normal_device : normal x.device ≡ true
  pub fits : Fits x.phase (x.queue ++ x.unpushed) x.device

-- A step keeps the fit and makes the measure less.
pub record Better (x y : Shutdown) : Type 0 where
  pub good : Good y
  pub less : measure y < measure x

exiting_left : (t : State) → ¬ MovesItself exiting t
unfolding row
exiting_left t (inl h) = cc h
exiting_left t (inr (a, b)) = cc a

-- A request that comes after the end of the run is not in the table.
asked_late :
    (s d : State) (e : Transition) (t : State)
    → s ≡ running
    → request s ≡ some e
    → d ≡ ready
    → row d e ≢ some t
unfolding request row
asked_late s d e t a r q k =
    let is_stop : Option.some stop ≡ some e = sym (ap request a) ∙ r in
    let same : stop ≡ e = cc is_stop in
    let found : row ready stop ≡ some t = (λ i. row (sym q i) (same i)) ∙ k in cc found

module _ (x : Shutdown) (g : Good x) where
  pub at_phase : (p : Phase) → x.phase ≡ p → Fits p (x.queue ++ x.unpushed) x.device
  at_phase p h = subst (λ r. Fits r (x.queue ++ x.unpushed) x.device) h g.fits

  weighs : (p : Phase) (n : ℕ) → x.phase ≡ p → weight p ≡ n → weight x.phase ≡ n
  weighs p n h k = ap weight h ∙ k

  trail : (s : State) → x.phase ≡ deciding s → Trail s (x.queue ++ x.unpushed) x.device
  trail s h = Fits-deciding s x.device (x.queue ++ x.unpushed) (at_phase (deciding s) h)

  pub by_going_on :
      (t : State)
      → MovesItself x.device t
      → Better x (record x { device = t; unpushed = x.unpushed ++ t ∷ [] })
  unfolding measure
  by_going_on t h =
      let o = itself-Onward x.device t h in
      record {
        good = record {
          normal_device = o.normal_too;
          fits =
              subst (λ q. Fits x.phase q t) (append_assoc x.queue x.unpushed (t ∷ []))
                (Fits-more x.phase (x.queue ++ x.unpushed) x.device t g.fits h);
        };
        less = omega (arith, o.nearer, length-append x.unpushed (t ∷ []));
      }

  pub by_pushing :
      (t : State) (u : List State)
      → x.unpushed ≡ t ∷ u
      → Better x (record x { unpushed = u; queue = x.queue ++ t ∷ [] })
  unfolding measure
  by_pushing t u h = record {
    good = record {
      normal_device = g.normal_device;
      fits =
          subst (λ q. Fits x.phase q x.device)
            (ap (λ l. x.queue ++ l) h ∙ sym (append_assoc x.queue (t ∷ []) u)) g.fits;
    };
    less = omega (arith, ap length h, length-append x.queue (t ∷ []));
  }

  pub by_leaving :
      (s : State)
      → x.phase ≡ deciding s
      → (s ≡ exiting) ⊎ (s ≡ error)
      → Better x (record x { phase = finished })
  unfolding measure row normal weight
  by_leaving s h (inl e) =
      let stays : (t : State) → ¬ MovesItself s t =
        λ t o. exiting_left t (subst (λ y. MovesItself y t) e o) in
      let k = Trail-stays s x.device (x.queue ++ x.unpushed) stays (trail s h) in
      record {
        good = record {
          normal_device = g.normal_device;
          fits = subst (λ d. Fits finished (x.queue ++ x.unpushed) d) (sym e ∙ k.1) over;
        };
        less = omega (arith, weighs (deciding s) 1 h refl);
      }
  by_leaving s h (inr e) =
      let stays : (t : State) → ¬ MovesItself s t = λ t o. cc (itself_normal s t o, ap normal e) in
      let k = Trail-stays s x.device (x.queue ++ x.unpushed) stays (trail s h) in
      cc (ap normal (sym k.1 ∙ e), g.normal_device)

  pub by_asking :
      (s : State) (e : Transition) (t : State)
      → x.phase ≡ deciding s
      → request s ≡ some e
      → row x.device e ≡ some t
      → Better x (record x { device = t; unpushed = x.unpushed ++ t ∷ []; phase = awaiting s })
  unfolding measure Trail weight
  by_asking s e t h r k = elim (Trail-asked s x.device (x.queue ++ x.unpushed) e r (trail s h)) [
    | inr (a, n, d) ↦ absurd (asked_late s x.device e t a r d k)
    | inl (n, u) ↦
        let (t', (a, o)) = requested s e r in
        let same : t' ≡ t = cc (a, k, u) in
        let near : rank x.device ≡ suc (rank t) =
          ap rank (sym u) ∙ o.nearer ∙ ap (λ y. suc (rank y)) same in
        record {
          good = record {
            normal_device = ap normal (sym same) ∙ o.normal_too;
            fits =
                subst (λ q. Fits (awaiting s) q t)
                  (sym (ap (λ q. q ++ t ∷ []) n) ∙ append_assoc x.queue x.unpushed (t ∷ []))
                  (answered refl);
          };
          less =
              omega (arith, near, length-append x.unpushed (t ∷ []), weighs (deciding s) 1 h refl);
        }
  ]

  pub by_refusal :
      (s : State) (e : Transition)
      → x.phase ≡ deciding s
      → request s ≡ some e
      → row x.device e ≡ none
      → Better x (record x { phase = awaiting s })
  unfolding measure weight Trail
  by_refusal s e h r k = elim (Trail-asked s x.device (x.queue ++ x.unpushed) e r (trail s h)) [
    | inl (n, u) ↦ let (t', (a, o)) = requested s e r in cc (a, k, u)
    | inr (a, n, d) ↦ record {
      good = record {
        normal_device = g.normal_device;
        fits = subst (λ q. Fits (awaiting s) q x.device) (sym n) (answered (sym d));
      };
      less = omega (arith, weighs (deciding s) 1 h refl);
    }
  ]

  pub by_ignoring :
      (s : State)
      → x.phase ≡ deciding s
      → request s ≡ none
      → s ≢ exiting
      → Better x (record x { phase = awaiting s })
  unfolding measure weight
  by_ignoring s h r n = record {
    good = record { normal_device = g.normal_device; fits = ignoring r n (trail s h) };
    less = omega (arith, weighs (deciding s) 1 h refl);
  }

  pub by_taking :
      (s t : State) (q : List State)
      → x.phase ≡ awaiting s
      → x.queue ≡ t ∷ q
      → Better x (record x { queue = q; phase = deciding t })
  unfolding measure weight
  by_taking s t q h k = record {
    good = record {
      normal_device = g.normal_device;
      fits = at_test (
          Fits-taken s t x.device (q ++ x.unpushed) (
            subst (λ l. Fits (awaiting s) l x.device) (ap (λ l. l ++ x.unpushed) k)
              (at_phase (awaiting s) h)));
    };
    less = omega (arith, ap length k, weighs (awaiting s) 0 h refl);
  }
