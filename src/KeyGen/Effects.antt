-- ===== src/KeyGen/Effects.antt =====
-- Rust's async functions that change a state, may fail and may panic: the state that is left, and a
-- result that is `none` for a panic.
pub mod Kept
use oprf_service.Base.{◌≡◌, ap, Option, none, some, Result, ok, err, map_err}

abbrev pub M : Type 0 → Type 0 → Type 0 → Type 0
M St E A = St → Option (Result E A) × St

-- What comes after a result.
abbrev pub after :
    {St E A B : Type 0} → (A → M St E B) → Option (Result E A) × St → Option (Result E B) × St
after f (none, s) = (none, s)
after f (some (err e), s) = (some (err e), s)
after f (some (ok a), s) = f a s

-- `?` of the first, and then the second.
infixl 5 ◌>>=◌ ◌>>◌
abbrev pub ◌>>=◌ : {St E A B : Type 0} → M St E A → (A → M St E B) → M St E B
m >>= f = λ s. after f (m s)

abbrev pub ◌>>◌ : {St E A B : Type 0} → M St E A → M St E B → M St E B
m >> n = m >>= λ _. n

abbrev pub pure : {St E A : Type 0} → A → M St E A
pure a = λ s. (some (ok a), s)

abbrev pub fail : {St E A : Type 0} → E → M St E A
fail e = λ s. (some (err e), s)

-- A value that is computed without the state.
abbrev pub lift : {St E A : Type 0} → Result E A → M St E A
lift r = λ s. (some r, s)

abbrev pub lift_panic : {St E A : Type 0} → Option (Result E A) → M St E A
lift_panic r = λ s. (r, s)

-- A call of a service that does not panic, with its error converted.
abbrev pub convert : {St E E' A : Type 0} → (E → E') → Result E A × St → Option (Result E' A) × St
convert f (r, s) = (some (map_err f r), s)

abbrev pub call : {St E E' A : Type 0} → (E → E') → (St → Result E A × St) → M St E' A
call f op = λ s. convert f (op s)

-- `From` of an error.
abbrev pub convert_error :
    {St E E' A : Type 0} → (E → E') → Option (Result E A) × St → Option (Result E' A) × St
convert_error f (none, s) = (none, s)
convert_error f (some r, s) = (some (map_err f r), s)

abbrev pub within : {St E E' A : Type 0} → (E → E') → M St E A → M St E' A
within f m = λ s. convert_error f (m s)

pub >>=-run :
    {St E A B : Type 0} (m : M St E A) (f : A → M St E B) {s s' : St} {a : A}
    → m s ≡ (some (ok a), s')
    → (m >>= f) s ≡ f a s'
>>=-run m f e = ap (after f) e

pub call-run :
    {St E E' A : Type 0} (f : E → E') (op : St → Result E A × St) {s s' : St} {a : A}
    → op s ≡ (ok a, s')
    → call f op s ≡ (some (ok a), s')
call-run f op e = ap (convert f) e
