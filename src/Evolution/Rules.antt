-- ===== src/Evolution/Rules.antt =====
-- The relation between the database before and after a transaction, and the rules that carry it
-- through `do` blocks.
use chargeflow.Prelude.{
  ℕ, Bool, true, false, ◌≡◌, refl, Option, none, some, [], ◌∷◌, ◌++◌, List, Table, lookup, arith,
  if◌then◌else◌,
}
use chargeflow.Schema.{WebhookEvent, MockChargeReceipt}
use chargeflow.Db.{Db, Error, Result, ok, err, M, ◌>>=◌, handle, get, hand_off}
use chargeflow.Evolution.Unique.{HasOneSuccess}
use chargeflow.Evolution.Growth.{TableLe, TableLe-refl, TableLe-trans}
use chargeflow.Evolution.Events.{EventsLe, EventsLe-refl, EventsLe-trans}
use chargeflow.Evolution.Sound.{IsSound}
use chargeflow.Evolution.Rows.{
  InvoiceLe, InvoiceLe-refl, InvoiceLe-trans, SubscriptionLe, SubscriptionLe-refl,
  SubscriptionLe-trans, AttemptLe, AttemptLe-refl, AttemptLe-trans,
}

-- One transaction, or several, lead from `db` to `db'`.
pub record Evolves (db db' : Db) : Type 0 where
  pub invoices : TableLe InvoiceLe db.invoices db'.invoices
  pub subscriptions : TableLe SubscriptionLe db.subscriptions db'.subscriptions
  pub attempts : TableLe AttemptLe db.attempts db'.attempts
  pub one_success : HasOneSuccess db.attempts → HasOneSuccess db'.attempts
  pub sound : IsSound db → IsSound db'
  pub events : EventsLe db.events db'.events

pub Evolves-refl : (db : Db) → Evolves db db
Evolves-refl db = record {
  invoices = TableLe-refl InvoiceLe-refl db.invoices;
  subscriptions = TableLe-refl SubscriptionLe-refl db.subscriptions;
  attempts = TableLe-refl AttemptLe-refl db.attempts;
  one_success = λ h. h;
  sound = λ h. h;
  events = EventsLe-refl db.events;
}

pub Evolves-trans : {a b c : Db} → Evolves a b → Evolves b c → Evolves a c
Evolves-trans p q = record {
  invoices = TableLe-trans (λ x y z. InvoiceLe-trans) p.invoices q.invoices;
  subscriptions = TableLe-trans (λ x y z. SubscriptionLe-trans) p.subscriptions q.subscriptions;
  attempts = TableLe-trans (λ x y z. AttemptLe-trans) p.attempts q.attempts;
  one_success = λ h. q.one_success (p.one_success h);
  sound = λ h. q.sound (p.sound h);
  events = EventsLe-trans p.events q.events;
}

-- What a transaction from `db` may return.
abbrev pub Grows : {A : Type 0} → Db → Result (A × Db) → Type 0
Grows db (ok (a, db')) = Evolves db db'
Grows db (err e) = Unit

pub Grows-extend :
    {A : Type 0} {db db' : Db} → Evolves db db' → (r : Result (A × Db)) → Grows db' r → Grows db r
Grows-extend p (ok (a, db'')) q = Evolves-trans p q
Grows-extend p (err e) q = tt

module _ {A B : Type 0} where
  pub Grows-bind :
      (m : M A) (f : A → M B) (db : Db)
      → Grows db (m db)
      → ((a : A) (db' : Db) → m db ≡ ok (a, db') → Grows db' (f a db'))
      → Grows db ((m >>= f) db)
  Grows-bind m f db g k = after (m db) g k
    where
      after :
          (r : Result (A × Db))
          → Grows db r
          → ((a : A) (db' : Db) → r ≡ ok (a, db') → Grows db' (f a db'))
          → Grows db (elim r [ ok (a, db') ↦ f a db' | err e ↦ err e ])
      after (ok (a, db')) p k = Grows-extend p (f a db') (k a db' refl)
      after (err e) p k = tt

module _ {A : Type 0} where
  pub Grows-if :
      (b : Bool) (m n : M A) (db : Db)
      → (b ≡ true → Grows db (m db))
      → (b ≡ false → Grows db (n db))
      → Grows db ((if b then m else n) db)
  Grows-if true m n db p q = p refl
  Grows-if false m n db p q = q refl

  -- A handler starts from the database of the block's begin.
  pub Grows-handle :
      (m : M A) (f : Error → M A) (db : Db)
      → Grows db (m db)
      → ((e : Error) → m db ≡ err e → Grows db (f e db))
      → Grows db (handle m f db)
  Grows-handle m f db g k = after (m db) g k
    where
      after :
          (r : Result (A × Db))
          → Grows db r
          → ((e : Error) → r ≡ err e → Grows db (f e db))
          → Grows db (elim r [ ok x ↦ ok x | err e ↦ f e db ])
      after (ok x) p k = p
      after (err e) p k = k e refl

module _ {A : Type 0} where
  pub Grows-if_result :
      (b : Bool) (x y : Result (A × Db)) (db : Db)
      → (b ≡ true → Grows db x)
      → (b ≡ false → Grows db y)
      → Grows db (if b then x else y)
  Grows-if_result true x y db p q = p refl
  Grows-if_result false x y db p q = q refl

  pub Grows-option :
      {C : Type 0} (o : Option C) (x : Result (A × Db)) (f : C → Result (A × Db)) (db : Db)
      → (o ≡ none → Grows db x)
      → ((c : C) → o ≡ some c → Grows db (f c))
      → Grows db (elim o [ none ↦ x | some c ↦ f c ])
  Grows-option none x f db p q = p refl
  Grows-option (some c) x f db p q = q c refl

-- A change of the tables of the events, the receipts and the hand-offs alone.
pub others-IsSound :
    (db : Db) (events : Table WebhookEvent) (receipts : Table MockChargeReceipt) (queue : List ℕ)
    → IsSound db
    → IsSound (record db { events = events; receipts = receipts; queue = queue })
others-IsSound db events receipts queue h = record {
  subscriptions = h.subscriptions;
  invoices = h.invoices;
  lines = h.lines;
  attempts = h.attempts;
  unique = h.unique;
  keyed_subscriptions = h.keyed_subscriptions;
  keyed_invoices = h.keyed_invoices;
}

pub others_evolve :
    (db : Db) (events : Table WebhookEvent) (receipts : Table MockChargeReceipt) (queue : List ℕ)
    → EventsLe db.events events
    → Evolves db (record db { events = events; receipts = receipts; queue = queue })
others_evolve db events receipts queue le = record {
  invoices = TableLe-refl InvoiceLe-refl db.invoices;
  subscriptions = TableLe-refl SubscriptionLe-refl db.subscriptions;
  attempts = TableLe-refl AttemptLe-refl db.attempts;
  one_success = λ h. h;
  sound = others-IsSound db events receipts queue;
  events = le;
}

pub Grows-hand_off : (pk : ℕ) (db : Db) → Grows db (hand_off pk db)
unfolding hand_off
Grows-hand_off pk db =
    others_evolve db db.events db.receipts (db.queue ++ pk ∷ []) (EventsLe-refl db.events)

pub Grows-get : {A : Type 0} (table : Db → Table A) (k : ℕ) (db : Db) → Grows db (get table k db)
Grows-get table k db = Grows-option (lookup k (table db)) _ _ db (λ _. tt) (λ c _. Evolves-refl db)

-- A read row is the stored one, and reading changes nothing.
pub get-eq-ok :
    {A : Type 0} (table : Db → Table A) (k : ℕ) (db : Db) {r : A} {db' : Db}
    → get table k db ≡ ok (r, db')
    → (lookup k (table db) ≡ some r) × (db' ≡ db)
get-eq-ok table k db h = ground arith

-- Reading a row, and the rest of the block with what was read.
pub Grows-get_bind :
    {A B : Type 0} (table : Db → Table A) (k : ℕ) (f : A → M B) (db : Db)
    → ((r : A) → lookup k (table db) ≡ some r → Grows db (f r db))
    → Grows db ((get table k >>= f) db)
Grows-get_bind table k f db h =
    Grows-bind (get table k) f db (Grows-get table k db)
      λ r db' e. let (found, same) = get-eq-ok table k db e in rw same (h r found)

-- It is enough to look at the runs that do not raise.
pub Grows-intro :
    {A : Type 0} (db : Db) (r : Result (A × Db))
    → ((a : A) (db' : Db) → r ≡ ok (a, db') → Evolves db db')
    → Grows db r
Grows-intro db (ok (a, db')) h = h a db' refl
Grows-intro db (err e) h = tt
