-- ===== src/Evolution/Events.antt =====
-- The webhook events between two states of the database: no event that was received is forgotten.
use chargeflow.Prelude.{
  ℕ, String, Bool, true, false, ◌≡◌, ◌⊎◌, inl, inr, some, [], ◌∷◌, ◌++◌, Table, lookup, put, add,
  fresh, any_entry, arith, ◌||◌, refl, eq_iff, ◌==◌, Bool-cases,
}
use chargeflow.Schema.{WebhookEvent}
use chargeflow.Payments.Webhook.{is_event}

-- What was received is still received.
pub record EventsLe (t u : Table WebhookEvent) : Type 0 where
  pub received :
      (provider event_id : String)
      → any_entry (is_event provider event_id) t ≡ true
      → any_entry (is_event provider event_id) u ≡ true

pub EventsLe-refl : (t : Table WebhookEvent) → EventsLe t t
EventsLe-refl t = record { received = λ p e h. h }

pub EventsLe-trans : {t u v : Table WebhookEvent} → EventsLe t u → EventsLe u v → EventsLe t v
EventsLe-trans p q = record { received = λ n e h. q.received n e (p.received n e h) }

any_entry-append :
    {A : Type 0} (q : ℕ → A → Bool) (k : ℕ) (v : A) (t : Table A)
    → any_entry q (t ++ (k, v) ∷ []) ≡ (any_entry q t || q k v)
unfolding any_entry
any_entry-append q k v [] = ground arith
any_entry-append q k v ((j, w) ∷ t) = ground (arith, any_entry-append q k v t)

-- The INSERT of an event.
pub add-received :
    (e : WebhookEvent) (t : Table WebhookEvent)
    → any_entry (is_event e.provider e.provider_event_id) (add e t) ≡ true
unfolding add
add-received e t = ground (
  arith,
  any_entry-append (is_event e.provider e.provider_event_id) (fresh t) e t,
  (eq_iff e.provider e.provider).1 refl,
  (eq_iff e.provider_event_id e.provider_event_id).1 refl,
)

pub EventsLe-add : (e : WebhookEvent) (t : Table WebhookEvent) → EventsLe t (add e t)
unfolding add
EventsLe-add e t = record {
  received = λ p n h. ground (arith, any_entry-append (is_event p n) (fresh t) e t);
}

any_entry-put :
    {A : Type 0} (q : ℕ → A → Bool) (k : ℕ) (a b : A) (t : Table A)
    → lookup k t ≡ some a
    → ((j : ℕ) → q j a ≡ q j b)
    → any_entry q t ≡ any_entry q (put k b t)
unfolding any_entry lookup put
any_entry-put q k a b [] found same = ground arith
any_entry-put q k a b ((j, w) ∷ t) found same =
    by_key (λ e. any_entry-put q k a b t e same) (Bool-cases (j == k))
  where
    by_key :
        (lookup k t ≡ some a → any_entry q t ≡ any_entry q (put k b t))
        → ((j == k) ≡ true) ⊎ ((j == k) ≡ false)
        → any_entry q ((j, w) ∷ t) ≡ any_entry q (put k b ((j, w) ∷ t))
    by_key _ (inl here) =
        let wa : w ≡ a = ground arith in let kept = same j in rw (wa, here) (ground arith)
    by_key later (inr other) = let below = later (ground arith) in ground arith

-- An UPDATE that leaves the event's name.
pub EventsLe-put :
    (k : ℕ) (a b : WebhookEvent) (t : Table WebhookEvent)
    → lookup k t ≡ some a
    → b.provider ≡ a.provider
    → b.provider_event_id ≡ a.provider_event_id
    → EventsLe t (put k b t)
EventsLe-put k a b t found provider event_id = record {
  received = λ p n h.
      let kept = any_entry-put (is_event p n) k a b t found (λ j. rw (provider, event_id) refl) in
      ground arith;
}
