-- ===== src/Evolution/Subscriptions.antt =====
-- The relation for subscriptions/domain/models.py and subscriptions/application/services.py.
use chargeflow.Prelude.{
  ℕ, true, not, ◌≡◌, refl, some, lookup, put, any_entry, arith, lookup-put_self,
}
use chargeflow.Calendar.{DateTime}
use chargeflow.Schema.{
  SubscriptionStatus, Subscription, subscription_transitions, subscription_status_in,
  same_subscription_status, same_subscription_status_eq,
}
use chargeflow.Db.{Db, ok, pure, ◌>>◌, Error}
use chargeflow.Subscriptions.{save, stamp, compare_and_set, transition_to}
use chargeflow.Subscriptions.Services.{mark_overdue, is_arrear_of, reactivate, or_keep_newer}
use chargeflow.Evolution.Rows.{SubscriptionLe, here, step}
use chargeflow.Evolution.Writes.{update_subscription-Evolves}
use chargeflow.Evolution.Rules.{
  Evolves, Evolves-refl, Grows, Grows-bind, Grows-if, Grows-if_result, Grows-option, Grows-get_bind,
  Grows-handle, Grows-intro,
}

stamp-SubscriptionLe :
    (new : SubscriptionStatus) (now : DateTime) (s : Subscription)
    → subscription_status_in new (subscription_transitions s.status) ≡ true
    → SubscriptionLe s (stamp new now s)
unfolding stamp
stamp-SubscriptionLe new now s h = record {
  organization = refl;
  customer = refl;
  plan = refl;
  path = step here h;
  canceled = λ e. absurd (no_move (rw e at h));
}
  where
    no_move :
        subscription_status_in new (subscription_transitions SubscriptionStatus.canceled) ≡ true → ⊥
    no_move e = unfold subscription_status_in subscription_transitions in cc e

written :
    (pk : ℕ) (new : SubscriptionStatus) (now : DateTime) (db : Db) (row : Subscription)
    → lookup pk db.subscriptions ≡ some row
    → subscription_status_in new (subscription_transitions row.status) ≡ true
    → Evolves db (record db { subscriptions = put pk (stamp new now row) db.subscriptions })
written pk new now db row e h =
    update_subscription-Evolves db pk row (stamp new now row) e (stamp-SubscriptionLe new now row h)

compare_and_set-Grows :
    (pk : ℕ) (self : Subscription) (new : SubscriptionStatus) (now : DateTime) (db : Db)
    → subscription_status_in new (subscription_transitions self.status) ≡ true
    → Grows db (compare_and_set pk self new now db)
unfolding compare_and_set
compare_and_set-Grows pk self new now db h =
    Grows-option (lookup pk db.subscriptions) _ _ db (λ _. tt)
      λ row e.
        Grows-if_result (same_subscription_status row.status self.status) _ _ db
          (λ same.
            written pk new now db row e
              (rw (same_subscription_status_eq row.status self.status same) h))
          (λ _. tt)

pub transition_to-Grows :
    (pk : ℕ) (self : Subscription) (new : SubscriptionStatus) (now : DateTime) (db : Db)
    → Grows db (transition_to pk self new now db)
unfolding transition_to
transition_to-Grows pk self new now db =
    Grows-if (subscription_status_in new (subscription_transitions self.status)) _ _ db
      (compare_and_set-Grows pk self new now db) (λ _. tt)

-- A transition that went through left the stored row in the new state, if it began from the stored row.
pub transition_to-stored :
    (pk : ℕ) (s : Subscription) (new : SubscriptionStatus) (now : DateTime) (db : Db)
    → lookup pk db.subscriptions ≡ some s
    → {t : Subscription} {db' : Db} → transition_to pk s new now db ≡ ok (t, db')
    → (t ≡ stamp new now s) × (lookup pk db'.subscriptions ≡ some (stamp new now s))
unfolding transition_to compare_and_set
transition_to-stored pk s new now db e h =
    ground (arith, lookup-put_self pk (stamp new now s) s db.subscriptions e)

-- A `save` that went through has written its columns into the stored row and nothing else.
pub save-eq-ok :
    (pk : ℕ) (self : Subscription) (write : Subscription → Subscription) (db : Db)
    (row : Subscription)
    → lookup pk db.subscriptions ≡ some row
    → {u : Unit {0}} {db' : Db} → save pk self write db ≡ ok (u, db')
    → db' ≡ record db { subscriptions = put pk (write row) db.subscriptions }
unfolding save
save-eq-ok pk self write db row e h = ground arith

pub save-Grows :
    (pk : ℕ) (self : Subscription) (write : Subscription → Subscription) (db : Db)
    (row : Subscription)
    → lookup pk db.subscriptions ≡ some row
    → SubscriptionLe row (write row)
    → Grows db (save pk self write db)
save-Grows pk self write db row e h = Grows-intro db _ λ u db' saved.
    rw (save-eq-ok pk self write db row e saved)
      (update_subscription-Evolves db pk row (write row) e h)

pub mark_overdue-Grows : (pk : ℕ) (now : DateTime) (db : Db) → Grows db (mark_overdue pk now db)
unfolding mark_overdue
mark_overdue-Grows pk now db =
    Grows-get_bind (λ db. db.subscriptions) pk _ db
      λ s e.
        Grows-if (not (same_subscription_status s.status SubscriptionStatus.active)) _ _ db
          (λ _. Evolves-refl db)
          (λ _.
            Grows-bind (transition_to pk s SubscriptionStatus.overdue now) _ db
              (transition_to-Grows pk s SubscriptionStatus.overdue now db)
              (λ _ db' _. Evolves-refl db'))

or_keep_newer-Grows : (e : Error) (db : Db) → Grows db (or_keep_newer e db)
or_keep_newer-Grows Error.invalid_status_transition db = Evolves-refl db
or_keep_newer-Grows _ db = tt

pub reactivate-Grows : (pk : ℕ) (now : DateTime) (db : Db) → Grows db (reactivate pk now db)
unfolding reactivate
reactivate-Grows pk now db =
    Grows-get_bind (λ db. db.subscriptions) pk _ db
      λ s e.
        Grows-if (not (same_subscription_status s.status SubscriptionStatus.overdue)) _ _ db
          (λ _. Evolves-refl db)
          (λ _.
            Grows-if (any_entry (is_arrear_of pk) db.invoices) _ _ db (λ _. Evolves-refl db)
              (λ _.
                Grows-handle (transition_to pk s SubscriptionStatus.active now >> pure tt)
                  or_keep_newer db
                  (Grows-bind (transition_to pk s SubscriptionStatus.active now) _ db
                    (transition_to-Grows pk s SubscriptionStatus.active now db)
                    (λ _ db' _. Evolves-refl db'))
                  (λ e _. or_keep_newer-Grows e db)))
