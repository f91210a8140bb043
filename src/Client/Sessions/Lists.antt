-- ===== src/Client/Sessions/Lists.antt =====
-- The lists of the sessions: what `position` finds, and lists that grow at their ends.
use oprf_service.Base.{
  ℕ, suc, ◌<◌, ◌≡◌, refl, sym, subst, ap, ◌∙◌, ◌≢◌, List, [], ◌∷◌, ◌++◌, length, Option, none, some,
  arith, All, Distinct, length-append, get_elem?, zero,
}
use oprf_service.Client.Sessions.{position}

pub position-none : (id : ℕ) (ids : List ℕ) → position id ids ≡ none → All (λ other. other ≢ id) ids
unfolding position
position-none id [] h = tt
position-none id (hay ∷ rest) h = ground (arith, position-none id rest)

Below : ℕ → Option ℕ → Type 0
Below n none = Unit
Below n (some i) = i < n

position-Below : (id : ℕ) (ids : List ℕ) → Below (length ids) (position id ids)
unfolding position Below
position-Below id [] = tt
position-Below id (hay ∷ rest) = ground (arith, position-Below id rest)

pub position-lt : (id : ℕ) (ids : List ℕ) (i : ℕ) → position id ids ≡ some i → i < length ids
unfolding Below
position-lt id ids i e = subst (Below (length ids)) e (position-Below id ids)

pub get_elem?-lt {ℓ} :
    {A : Type ℓ} (xs : List A) (i : ℕ) → i < length xs → (x : A) × (get_elem? xs i ≡ some x)
get_elem?-lt [] i h = absurd (omega (arith, h))
get_elem?-lt (x ∷ xs) zero h = (x, refl)
get_elem?-lt (x ∷ xs) (suc i) h = get_elem?-lt xs i (omega (arith, h))

pub All-snoc {ℓ κ} :
    {A : Type ℓ} (P : A → Type κ) (xs : List A) (x : A) → All P xs → P x → All P (xs ++ (x ∷ []))
All-snoc P [] x h p = (p, tt)
All-snoc P (y ∷ ys) x (q, h) p = (q, All-snoc P ys x h p)

pub Distinct-snoc :
    (ids : List ℕ) (id : ℕ)
    → Distinct ids
    → All (λ other. other ≢ id) ids
    → Distinct (ids ++ (id ∷ []))
Distinct-snoc [] id h a = (tt, tt)
Distinct-snoc (x ∷ xs) id (ne, h) (e, a) =
    (All-snoc (λ y. x ≢ y) xs id ne e, Distinct-snoc xs id h a)

length-snoc {ℓ} : {A : Type ℓ} (xs : List A) (x : A) → length (xs ++ (x ∷ [])) ≡ suc (length xs)
length-snoc xs x = omega (arith, length-append xs (x ∷ []))

pub grow {ℓ κ} :
    {A : Type ℓ} {B : Type κ} (xs : List A) (x : A) (ys : List B) (y : B)
    → length xs ≡ length ys
    → length (xs ++ (x ∷ [])) ≡ length (ys ++ (y ∷ []))
grow xs x ys y e = length-snoc xs x ∙ ap suc e ∙ sym (length-snoc ys y)
