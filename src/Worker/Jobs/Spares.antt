-- ===== src/Worker/Jobs/Spares.antt =====
-- Jobs that call no watched agent and validate nothing, and what holds of the values they return.
use atoms_platform.Common.{◌≡◌, refl, ◌∙◌, Bool, true, false, List, keep, if◌then◌else◌}
use atoms_platform.Store.{Agent, Db, Outcome, ok, thrown, Tx}
use atoms_platform.Worker.Errors.{ErrorNode}
use atoms_platform.Worker.Jobs.{
  World, Result, returned, raised, Job, from_result, give, raise, then_do, ◌>>=◌, handle, catching,
  Connections, settle, transact,
}

module _ (watched : Agent → Bool) where
  abbrev pub SameCalls : World → World → Type 0
  SameCalls w w' = (keep watched w'.calls ≡ keep watched w.calls) × (w'.validations ≡ w.validations)

  SameCalls-trans : (u v w : World) → SameCalls u v → SameCalls v w → SameCalls u w
  SameCalls-trans u v w (a, b) (c, d) = (c ∙ a, d ∙ b)

  abbrev pub Ends : {A : Type 0} → (A → Type 0) → World → Result A × World → Type 0
  Ends post w (returned a, w') = SameCalls w w' × post a
  Ends post w (raised e, w') = SameCalls w w'

  pub record Spares {A : Type 0} (m : Job A) (post : A → Type 0) : Type 0 where
    pub runs : (w : World) → Ends post w (m w)

  Ends-before :
      {B : Type 0} (w w' : World) (o : Result B × World) (q : B → Type 0)
      → SameCalls w w'
      → Ends q w' o
      → Ends q w o
  Ends-before w w' (returned b, w'') q same (h, k) = (SameCalls-trans w w' w'' same h, k)
  Ends-before w w' (raised e, w'') q same h = SameCalls-trans w w' w'' same h

  Ends-then :
      {A B : Type 0} (w : World) (o : Result A × World) (f : A → Job B) (p : A → Type 0)
      (q : B → Type 0)
      → Ends p w o
      → ((a : A) → p a → Spares (f a) q)
      → Ends q w (then_do f o)
  Ends-then w (returned a, w') f p q (same, h) k =
      Ends-before w w' (f a w') q same ((k a h).runs w')
  Ends-then w (raised e, w') f p q h k = h

  Ends-handle :
      {A : Type 0} (w : World) (o : Result A × World) (h : List ErrorNode → Job A) (p : A → Type 0)
      → Ends p w o
      → ((e : List ErrorNode) → Spares (h e) p)
      → Ends p w (handle h o)
  Ends-handle w (returned a, w') h p k rescue = k
  Ends-handle w (raised e, w') h p k rescue = Ends-before w w' (h e w') p k ((rescue e).runs w')

  Ends-weaken :
      {A : Type 0} (w : World) (o : Result A × World) (p q : A → Type 0)
      → Ends p w o
      → ((a : A) → p a → q a)
      → Ends q w o
  Ends-weaken w (returned a, w') p q (same, h) k = (same, k a h)
  Ends-weaken w (raised e, w') p q h k = h

  pub weaken-Spares :
      {A : Type 0} (m : Job A) (p q : A → Type 0) → Spares m p → ((a : A) → p a → q a) → Spares m q
  weaken-Spares m p q h k = record { runs = λ w. Ends-weaken w (m w) p q (h.runs w) k }

  pub give-Spares : {A : Type 0} (a : A) (p : A → Type 0) → p a → Spares (give a) p
  unfolding give
  give-Spares a p h = record { runs = λ w. ((refl, refl), h) }

  pub raise-Spares : {A : Type 0} (e : List ErrorNode) (p : A → Type 0) → Spares (raise e) p
  unfolding raise
  raise-Spares e p = record { runs = λ w. (refl, refl) }

  pub from_result-Spares :
      {A : Type 0} (r : Result A) (p : A → Type 0) → ((a : A) → p a) → Spares (from_result r) p
  unfolding from_result
  from_result-Spares (returned a) p h = record { runs = λ w. ((refl, refl), h a) }
  from_result-Spares (raised e) p h = record { runs = λ w. (refl, refl) }

  pub bind-Spares :
      {A B : Type 0} (m : Job A) (f : A → Job B) (p : A → Type 0) (q : B → Type 0)
      → Spares m p
      → ((a : A) → p a → Spares (f a) q)
      → Spares (m >>= f) q
  unfolding ◌>>=◌
  bind-Spares m f p q h k = record { runs = λ w. Ends-then w (m w) f p q (h.runs w) k }

  pub catching-Spares :
      {A : Type 0} (m : Job A) (h : List ErrorNode → Job A) (p : A → Type 0)
      → Spares m p
      → ((e : List ErrorNode) → Spares (h e) p)
      → Spares (catching m h) p
  unfolding catching
  catching-Spares m h p k rescue = record { runs = λ w. Ends-handle w (m w) h p (k.runs w) rescue }

  pub if-Spares :
      {A : Type 0} (b : Bool) (m n : Job A) (p : A → Type 0)
      → (b ≡ true → Spares m p)
      → (b ≡ false → Spares n p)
      → Spares (if b then m else n) p
  if-Spares true m n p h k = h refl
  if-Spares false m n p h k = k refl

  settle-Ends :
      {A : Type 0} (c : Connections) (w : World) (db : Db) (o : Outcome (A × Db)) (p : A → Type 0)
      → ((a : A) → p a)
      → Ends p w (settle c w db o)
  settle-Ends c w db (ok (a, db')) p h = ((refl, refl), h a)
  settle-Ends c w db (thrown e) p h = (refl, refl)

  pub transact-Spares :
      {A : Type 0} (c : Connections) (m : Tx A) (p : A → Type 0)
      → ((a : A) → p a)
      → Spares (transact c m) p
  unfolding transact
  transact-Spares c m p h = record {
    runs = λ w. settle-Ends c w (c.others w.tick w.db) (m (c.others w.tick w.db)) p h;
  }
