-- ===== src/Fsm/Subscriptions.antt =====
-- SubscribeToStateChange and UnsubscribeFromStateChange, with those for new transitions
-- (fairmq/StateMachine.cxx). Each call holds the mutex of the subscriptions.
use Prim.Native.String.{String}
use text.Mathlib.Text.{◌==◌ as str_eq}
use fair_mq.Prelude.{
  ◌≡◌, refl, ap, ◌∙◌, Bool-cases, inl, inr, none, some, List, [], ◌∷◌, find, erase, eq_self,
}

-- boost::signals2 is not part of the repository: `connect` gives the signal with the callback and a
-- connection, `disconnect` takes the callback of a connection away.
module _ {S C F : Type 0} (connect : F → S → S × C) (disconnect : C → S → S) where
  -- The signal, and the map from keys to connections.
  abbrev pub Subscriptions : Type 0
  Subscriptions = S × List (String × C)

  -- map::insert changes nothing if the key is there.
  unfoldable pub insert : String → C → List (String × C) → List (String × C)
  insert k c m = elim (find k m) [ some d ↦ m | none ↦ (k, c) ∷ m ]

  unfoldable pub subscribe : String → F → S × List (String × C) → S × List (String × C)
  subscribe k f (s, m) = let (s', c) = connect f s in (s', insert k c m)

  unfoldable pub unsubscribe : String → S × List (String × C) → S × List (String × C)
  unsubscribe k (s, m) = elim (find k m) [ none ↦ (s, m) | some c ↦ (disconnect c s, erase k m) ]

  erase_absent : (k : String) (m : List (String × C)) → find k m ≡ none → erase k m ≡ m
  unfolding find erase
  erase_absent k [] h = refl
  erase_absent k ((j, c) ∷ m) h = elim (Bool-cases (str_eq j k)) [
    | inl e ↦ cc (h, e)
    | inr e ↦ cc (e, erase_absent k m (cc (h, e)))
  ]

  erase_head :
      (k : String) (c : C) (m : List (String × C)) → find k m ≡ none → erase k ((k, c) ∷ m) ≡ m
  unfolding erase
  erase_head k c m h = rw (eq_self k) (erase_absent k m h)

  find_head : (k : String) (c : C) (m : List (String × C)) → find k ((k, c) ∷ m) ≡ some c
  unfolding find
  find_head k c m = rw (eq_self k) refl

  subscribe_new :
      (k : String) (f : F) (s : S) (m : List (String × C))
      → find k m ≡ none
      → subscribe k f (s, m) ≡ ((connect f s).0, (k, (connect f s).1) ∷ m)
  unfolding subscribe insert
  subscribe_new k f s m h = rw (subscribe, insert, h) refl

  subscribe_old :
      (k : String) (f : F) (s : S) (d : C) (m : List (String × C))
      → find k m ≡ some d
      → subscribe k f (s, m) ≡ ((connect f s).0, m)
  unfolding subscribe insert
  subscribe_old k f s d m h = rw (subscribe, insert, h) refl

  unsubscribe_none :
      (k : String) (s : S) (m : List (String × C)) → find k m ≡ none → unsubscribe k (s, m) ≡ (s, m)
  unfolding unsubscribe
  unsubscribe_none k s m h = rw (unsubscribe, h) refl

  unsubscribe_head :
      (k : String) (s : S) (c : C) (m : List (String × C))
      → find k m ≡ none
      → unsubscribe k (s, (k, c) ∷ m) ≡ (disconnect c s, m)
  unfolding unsubscribe
  unsubscribe_head k s c m h =
      rw (unsubscribe, find_head k c m) (ap (λ l. (disconnect c s, l)) (erase_head k c m h))

  -- A subscription under a new key is undone by its cancellation: the callback is disconnected, and
  -- the map is what it was.
  pub unsubscribe-subscribe :
      (k : String) (f : F) (s : S) (m : List (String × C))
      → find k m ≡ none
      → unsubscribe k (subscribe k f (s, m)) ≡ (disconnect (connect f s).1 (connect f s).0, m)
  unsubscribe-subscribe k f s m h =
      ap (unsubscribe k) (subscribe_new k f s m h)
      ∙ unsubscribe_head k (connect f s).0 (connect f s).1 m h

  -- After a second subscription under a new key both callbacks are connected, the first cancellation
  -- disconnects the first one, and a further cancellation changes nothing.
  pub unsubscribe_twice :
      (k : String) (f g : F) (s : S) (m : List (String × C))
      → find k m ≡ none
      → unsubscribe k (unsubscribe k (subscribe k g (subscribe k f (s, m))))
        ≡ (disconnect (connect f s).1 (connect g (connect f s).0).0, m)
  unsubscribe_twice k f g s m h =
      let (s₁, c) = connect f s in
      let s₂ = (connect g s₁).0 in
      ap (λ x. unsubscribe k (unsubscribe k (subscribe k g x))) (subscribe_new k f s m h)
      ∙ ap (λ x. unsubscribe k (unsubscribe k x))
          (subscribe_old k g s₁ c ((k, c) ∷ m) (find_head k c m))
      ∙ ap (unsubscribe k) (unsubscribe_head k s₂ c m h)
      ∙ unsubscribe_none k (disconnect c s₂) m h
