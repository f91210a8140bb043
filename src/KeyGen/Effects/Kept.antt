-- ===== src/KeyGen/Effects/Kept.antt =====
-- Functions of the monad of Effects with a proof that every run goes from a state to a related one.
use oprf_service.Base.{Option, none, some, Result, ok, err}
use oprf_service.KeyGen.Effects.{M, after, convert_error, call, lift, lift_panic, within}

-- A relation that every sequence of related states is in.
pub record IsClosed {St : Type 0} (R : St → St → Type 0) : Type 0 where
  pub reflexive : (a : St) → R a a
  pub transitive : (a b c : St) → R a b → R b c → R a c

abbrev pub Keeps : {St E A : Type 0} → (St → St → Type 0) → M St E A → Type 0
Keeps {St} R m = (s : St) → R s (m s).1

pub record Kept {St : Type 0} (R : St → St → Type 0) (E A : Type 0) : Type 0 where
  pub run : M St E A
  pub keeps : Keeps R run

pub convert_error-state :
    {St E E' A : Type 0} (R : St → St → Type 0) (f : E → E') (s : St)
    (out : Option (Result E A) × St)
    → R s out.1
    → R s (convert_error f out).1
convert_error-state R f s (none, s') r = r
convert_error-state R f s (some r', s') r = r

module _ {St : Type 0} {R : St → St → Type 0} ⦃closed : IsClosed R⦄ where
  pub after-Keeps :
      {E A B : Type 0} (f : A → Kept R E B) (s : St) (out : Option (Result E A) × St)
      → R s out.1
      → R s (after (λ a. (f a).run) out).1
  after-Keeps f s (none, s') r = r
  after-Keeps f s (some (err e), s') r = r
  after-Keeps f s (some (ok a), s') r = closed.transitive s s' ((f a).run s').1 r ((f a).keeps s')

  infixl 5 ◌>>=◌ ◌>>◌
  abbrev pub ◌>>=◌ : {E A B : Type 0} → Kept R E A → (A → Kept R E B) → Kept R E B
  m >>= f = record {
    run = λ s. after (λ a. (f a).run) (m.run s);
    keeps = λ s. after-Keeps f s (m.run s) (m.keeps s);
  }

  abbrev pub ◌>>◌ : {E A B : Type 0} → Kept R E A → Kept R E B → Kept R E B
  m >> n = m >>= (λ _. n)

  abbrev pub pure : {E A : Type 0} → A → Kept R E A
  pure a = record { run = λ s. (some (ok a), s); keeps = closed.reflexive }

  abbrev pub lifted : {E A : Type 0} → Result E A → Kept R E A
  lifted r = record { run = lift r; keeps = closed.reflexive }

  abbrev pub lifted_panic : {E A : Type 0} → Option (Result E A) → Kept R E A
  lifted_panic r = record { run = lift_panic r; keeps = closed.reflexive }

  -- A call that keeps the relation.
  abbrev pub called :
      {E E' A : Type 0} (f : E → E') (op : St → Result E A × St)
      → ((s : St) → R s (op s).1)
      → Kept R E' A
  called f op h = record { run = call f op; keeps = h }

  -- A call whose result is looked at.
  abbrev pub seen :
      {E X A : Type 0} (op : St → Result X A × St)
      → ((s : St) → R s (op s).1)
      → Kept R E (Result X A)
  seen op h = record { run = λ s. (some (ok (op s).0), (op s).1); keeps = h }

  abbrev pub inside : {E E' A : Type 0} → (E → E') → Kept R E A → Kept R E' A
  inside f m = record {
    run = within f m.run;
    keeps = λ s. convert_error-state R f s (m.run s) (m.keeps s);
  }
