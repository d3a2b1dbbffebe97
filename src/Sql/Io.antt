-- ===== src/Sql/Io.antt =====
-- Code that reads and writes a database and the world outside it, and may throw. `D` is the
-- database, `E` everything else that a callback can reach (queues, providers).
use cloudtalk_tech_task.Base.{◌≡◌, refl, ◌⊎◌, inl, inr}
use cloudtalk_tech_task.Kernel.Value.{Value}

pub data Outcome {ℓ} (A : Type ℓ) : Type ℓ where
  ok : A → Outcome A
  threw : Value → Outcome A

pub record World (D E : Type 0) : Type 0 where
  pub db : D
  pub ext : E

abbrev pub Io : Type 0 → Type 0 → Type 0 → Type 0
Io D E A = World D E → Outcome A × World D E

module _ {D E : Type 0} where
  abbrev pub continue :
      {A B : Type 0} → Outcome A × World D E → (A → Io D E B) → Outcome B × World D E
  continue (ok a, w) f = f a w
  continue (threw e, w) f = (threw e, w)

  abbrev pub return : {A : Type 0} → A → Io D E A
  return a w = (ok a, w)

  abbrev pub throw : {A : Type 0} → Value → Io D E A
  throw e w = (threw e, w)

  -- a check that throws before anything is done
  abbrev pub lift : {A : Type 0} → Outcome A → Io D E A
  lift (ok a) = return a
  lift (threw e) = throw e

  -- a SELECT
  abbrev pub query : {A : Type 0} → (D → A) → Io D E A
  query f w = (ok (f w.db), w)

  -- a statement with no rows to return
  abbrev pub execute : (D → D) → Io D E (Unit {0})
  execute f w = (ok tt, record w { db = f w.db })

  abbrev pub settle : {A : Type 0} → D → Outcome A × World D E → Outcome A × World D E
  settle before (ok a, w) = (ok a, w)
  settle before (threw e, w) = (threw e, record w { db = before })

  -- `db.transaction().execute(body)`: a throw rolls the database back and goes on.
  abbrev pub transaction : {A : Type 0} → Io D E A → Io D E A
  transaction body w = settle w.db (body w)

  -- what a `catch` does with the error
  abbrev pub rescue :
      {A : Type 0} → Outcome A × World D E → (Value → Io D E A) → Outcome A × World D E
  rescue (ok a, w) handler = (ok a, w)
  rescue (threw e, w) handler = handler e w

infixl 5 ◌>>=◌ ◌>>◌
abbrev pub ◌>>=◌ : {D E A B : Type 0} → Io D E A → (A → Io D E B) → Io D E B
◌>>=◌ m f w = continue (m w) f

abbrev pub ◌>>◌ : {D E B : Type 0} → Io D E (Unit {0}) → Io D E B → Io D E B
◌>>◌ m k w = continue (m w) (λ _. k)

abbrev pub try_catch : {D E A : Type 0} → Io D E A → (Value → Io D E A) → Io D E A
try_catch m handler w = rescue (m w) handler

pub Outcome-cases {ℓ} :
    {A : Type ℓ} (o : Outcome A) → ((a : A) × (o ≡ ok a)) ⊎ ((e : Value) × (o ≡ threw e))
Outcome-cases (ok a) = inl (a, refl)
Outcome-cases (threw e) = inr (e, refl)
