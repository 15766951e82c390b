-- ===== src/Evolution/Catalog.antt =====
-- The relation for the writes of plans and customers, the parents of the subscriptions.
use chargeflow.Prelude.{
  ℕ, Bool, true, false, ◌&&◌, ◌≡◌, refl, ◌⊎◌, inl, inr, Option, none, some, lookup, store, add,
  remove, any_entry, any_entry-lookup, arith, ◌==◌,
}
use chargeflow.Schema.{Customer, Plan, Subscription}
use chargeflow.Db.{Db, ok}
use chargeflow.Api.Catalog.{
  uses_plan, uses_customer, is_moved_parent, clean_plan, save_plan, clean_customer, save_customer,
  insert_plan, insert_customer, delete_plan,
}
use chargeflow.Evolution.Growth.{AllRows, AllRows-map}
use chargeflow.Evolution.Sound.{SubscriptionIsSound, IsSound}
use chargeflow.Evolution.Parents.{
  store-HasParent, add-HasParent, remove-HasParent, kept_organization, parents_evolve,
}
use chargeflow.Evolution.Rules.{Grows, Grows-intro, Grows-if_result}

-- What `clean` of a parent has tested.
and-eq-false : (b c : Bool) → b && c ≡ false → (b ≡ false) ⊎ (c ≡ false)
and-eq-false true c h = inr h
and-eq-false false c h = inl refl

module _ (pk : ℕ) (db : Db) (h : IsSound db) where
  unused_plan :
      (k : ℕ) (s : Subscription)
      → lookup k db.subscriptions ≡ some s
      → any_entry (uses_plan pk) db.subscriptions ≡ false
      → (pk == s.plan) ≡ false
  unused_plan k s e unused =
      let other = any_entry-lookup (uses_plan pk) k s db.subscriptions e unused in ground arith

  removed_plan_rows :
      any_entry (uses_plan pk) db.subscriptions ≡ false
      → AllRows (SubscriptionIsSound db.customers (remove pk db.plans)) db.subscriptions
  removed_plan_rows unused = record {
    at = λ k s e.
        let old = h.subscriptions.at k s e in
        record {
          customer = old.customer;
          plan =
              remove-HasParent (λ (q : Plan). q.organization) db.plans s.plan s.organization
                old.plan pk (unused_plan k s e unused);
        };
  }

module _ (pk : ℕ) (p : Plan) (db : Db) (h : IsSound db) where
  plan_kept :
      (is_moved_parent (λ (q : Plan). q.organization) pk p.organization db.plans ≡ false)
        ⊎ (any_entry (uses_plan pk) db.subscriptions ≡ false)
      → (k : ℕ) (s : Subscription) → lookup k db.subscriptions ≡ some s
      → (pk == s.plan) ≡ true
      → p.organization ≡ s.organization
  plan_kept (inl unmoved) k s e same =
      kept_organization (λ (q : Plan). q.organization) db.plans s.plan s.organization
        (h.subscriptions.at k s e).plan pk p unmoved same
  plan_kept (inr unused) k s e same =
      let other = unused_plan pk db h k s e unused in absurd (ground arith)

  saved_plan_rows :
      (is_moved_parent (λ (q : Plan). q.organization) pk p.organization db.plans ≡ false)
        ⊎ (any_entry (uses_plan pk) db.subscriptions ≡ false)
      → AllRows (SubscriptionIsSound db.customers (store pk p db.plans)) db.subscriptions
  saved_plan_rows clean = record {
    at = λ k s e.
        let old = h.subscriptions.at k s e in
        record {
          customer = old.customer;
          plan =
              store-HasParent (λ (q : Plan). q.organization) db.plans s.plan s.organization old.plan
                pk p (plan_kept clean k s e);
        };
  }

module _ (pk : ℕ) (c : Customer) (db : Db) (h : IsSound db) where
  customer_kept :
      (is_moved_parent (λ (d : Customer). d.organization) pk c.organization db.customers ≡ false)
        ⊎ (any_entry (uses_customer pk) db.subscriptions ≡ false)
      → (k : ℕ) (s : Subscription) → lookup k db.subscriptions ≡ some s
      → (pk == s.customer) ≡ true
      → c.organization ≡ s.organization
  customer_kept (inl unmoved) k s e same =
      kept_organization (λ (d : Customer). d.organization) db.customers s.customer s.organization
        (h.subscriptions.at k s e).customer pk c unmoved same
  customer_kept (inr unused) k s e same =
      let other = any_entry-lookup (uses_customer pk) k s db.subscriptions e unused in
      absurd (ground arith)

  saved_customer_rows :
      (is_moved_parent (λ (d : Customer). d.organization) pk c.organization db.customers ≡ false)
        ⊎ (any_entry (uses_customer pk) db.subscriptions ≡ false)
      → AllRows (SubscriptionIsSound (store pk c db.customers) db.plans) db.subscriptions
  saved_customer_rows clean = record {
    at = λ k s e.
        let old = h.subscriptions.at k s e in
        record {
          customer =
              store-HasParent (λ (d : Customer). d.organization) db.customers s.customer
                s.organization old.customer pk c (customer_kept clean k s e);
          plan = old.plan;
        };
  }

save_plan-eq-ok :
    (pk : ℕ) (p : Plan) (db : Db) {u : Unit {0}} {db' : Db}
    → save_plan pk p db ≡ ok (u, db')
    → (is_moved_parent (λ (q : Plan). q.organization) pk p.organization db.plans
          && any_entry (uses_plan pk) db.subscriptions
        ≡ false)
      × (db' ≡ record db { plans = store pk p db.plans })
unfolding save_plan clean_plan
save_plan-eq-ok pk p db h = ground arith

pub save_plan-Grows : (pk : ℕ) (p : Plan) (db : Db) → Grows db (save_plan pk p db)
save_plan-Grows pk p db = Grows-intro db _ λ u db' saved.
    let (clean, same) = save_plan-eq-ok pk p db saved in
    rw same (
      parents_evolve db db.customers (store pk p db.plans)
        (λ h. saved_plan_rows pk p db h (and-eq-false _ _ clean)))

save_customer-eq-ok :
    (pk : ℕ) (c : Customer) (db : Db) {u : Unit {0}} {db' : Db}
    → save_customer pk c db ≡ ok (u, db')
    → (is_moved_parent (λ (d : Customer). d.organization) pk c.organization db.customers
          && any_entry (uses_customer pk) db.subscriptions
        ≡ false)
      × (db' ≡ record db { customers = store pk c db.customers })
unfolding save_customer clean_customer
save_customer-eq-ok pk c db h = ground arith

pub save_customer-Grows : (pk : ℕ) (c : Customer) (db : Db) → Grows db (save_customer pk c db)
save_customer-Grows pk c db = Grows-intro db _ λ u db' saved.
    let (clean, same) = save_customer-eq-ok pk c db saved in
    rw same (
      parents_evolve db (store pk c db.customers) db.plans
        (λ h. saved_customer_rows pk c db h (and-eq-false _ _ clean)))

pub delete_plan-Grows : (pk : ℕ) (db : Db) → Grows db (delete_plan pk db)
unfolding delete_plan
delete_plan-Grows pk db =
    Grows-if_result (any_entry (uses_plan pk) db.subscriptions) _ _ db (λ _. tt)
      (λ unused.
        parents_evolve db db.customers (remove pk db.plans) (λ h. removed_plan_rows pk db h unused))

pub insert_plan-Grows : (row : ℕ → Plan) (o : Option ℕ) (db : Db) → Grows db (insert_plan row o db)
insert_plan-Grows row none db = tt
insert_plan-Grows row (some o) db = parents_evolve db db.customers (add (row o) db.plans) λ h.
    AllRows-map
      (λ s old. record {
        customer = old.customer;
        plan =
            add-HasParent (λ (q : Plan). q.organization) db.plans s.plan s.organization old.plan
              (row o);
      })
      h.subscriptions

pub insert_customer-Grows :
    (row : ℕ → Customer) (o : Option ℕ) (db : Db) → Grows db (insert_customer row o db)
insert_customer-Grows row none db = tt
insert_customer-Grows row (some o) db = parents_evolve db (add (row o) db.customers) db.plans λ h.
    AllRows-map
      (λ s old. record {
        customer =
            add-HasParent (λ (d : Customer). d.organization) db.customers s.customer s.organization
              old.customer (row o);
        plan = old.plan;
      })
      h.subscriptions
