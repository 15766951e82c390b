-- ===== src/Evolution/Parents.antt =====
-- Parents of the subscriptions that are changed, added or removed.
use chargeflow.Prelude.{
  ℕ, true, false, ◌≡◌, sym, ◌∙◌, ◌⊎◌, inl, inr, some, Table, lookup, store, add, remove,
  lookup-store, lookup-add, lookup-fresh, lookup-remove, arith, ◌==◌, ==_eq, Bool-cases,
}
use chargeflow.Schema.{Customer, Plan}
use chargeflow.Db.{Db}
use chargeflow.Api.Catalog.{is_moved_parent}
use chargeflow.Evolution.Rows.{InvoiceLe-refl, SubscriptionLe-refl, AttemptLe-refl}
use chargeflow.Evolution.Growth.{TableLe-refl, AllRows}
use chargeflow.Evolution.Sound.{HasParent, SubscriptionIsSound, IsSound}
use chargeflow.Evolution.Events.{EventsLe-refl}
use chargeflow.Evolution.Rules.{Evolves}

module _ {A : Type 0} (organization : A → ℕ) (t : Table A) (k o : ℕ)
    (h : HasParent organization t k o) where
  -- A save of a parent that does not move it.
  pub store-HasParent :
      (pk : ℕ) (a : A)
      → ((pk == k) ≡ true → organization a ≡ o)
      → HasParent organization (store pk a t) k o
  store-HasParent pk a kept = by_key (Bool-cases (pk == k))
    where
      by_key : ((pk == k) ≡ true) ⊎ ((pk == k) ≡ false) → HasParent organization (store pk a t) k o
      by_key (inl same) = record {
        parent = a;
        stored = let s = h.stored in ground (arith, lookup-store k pk a t);
        same_organization = kept same;
      }
      by_key (inr other) = record {
        parent = h.parent;
        stored = let s = h.stored in ground (arith, lookup-store k pk a t);
        same_organization = h.same_organization;
      }

  pub add-HasParent : (a : A) → HasParent organization (add a t) k o
  add-HasParent a = record {
    parent = h.parent;
    stored = let s = h.stored in ground (arith, lookup-add k a t, lookup-fresh t);
    same_organization = h.same_organization;
  }

  pub remove-HasParent : (pk : ℕ) → (pk == k) ≡ false → HasParent organization (remove pk t) k o
  remove-HasParent pk other = record {
    parent = h.parent;
    stored = let s = h.stored in ground (arith, lookup-remove k pk t);
    same_organization = h.same_organization;
  }

  -- A parent that is not moved to another organization keeps the organization of its children.
  pub kept_organization :
      (pk : ℕ) (a : A)
      → is_moved_parent organization pk (organization a) t ≡ false
      → (pk == k) ≡ true
      → organization a ≡ o
  kept_organization pk a unmoved same =
      let s = h.stored in
      let so = h.same_organization in
      let at : pk ≡ k = ==_eq pk k same in
      let s' : lookup pk t ≡ some h.parent = rw at s in
      let equal : (organization h.parent == organization a) ≡ true = ground arith in
      sym (==_eq (organization h.parent) (organization a) equal) ∙ so

-- The tables of plans and customers alone change.
pub parents_evolve :
    (db : Db) (customers : Table Customer) (plans : Table Plan)
    → (IsSound db → AllRows (SubscriptionIsSound customers plans) db.subscriptions)
    → Evolves db (record db { customers = customers; plans = plans })
parents_evolve db customers plans rows = record {
  invoices = TableLe-refl InvoiceLe-refl db.invoices;
  subscriptions = TableLe-refl SubscriptionLe-refl db.subscriptions;
  attempts = TableLe-refl AttemptLe-refl db.attempts;
  one_success = λ h. h;
  events = EventsLe-refl db.events;
  sound = λ h. record {
    subscriptions = rows h;
    invoices = h.invoices;
    lines = h.lines;
    attempts = h.attempts;
    unique = h.unique;
    keyed_subscriptions = h.keyed_subscriptions;
    keyed_invoices = h.keyed_invoices;
  };
}
