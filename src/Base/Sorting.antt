-- ===== src/Base/Sorting.antt =====
-- `sort_unstable`, `dedup` and `is_sorted` of Rust's slices, on numbers.
use Prim.Native.Nat.{ℕ, suc, ◌≤◌, ◌<◌}
use mathlib.Core.Path.{◌≡◌, refl, ap}
use mathlib.Core.Logic.{◌≢◌, inl, inr}
use mathlib.Core.Bool.{Bool, true, ◌&&◌}
use mathlib.Core.List.{List, [], ◌∷◌}
use native.Mathlib.Omega.{arith}
use oprf_service.Base.Tests.{leb, ◌==◌, if◌then◌else◌, Bool-cases}
use oprf_service.Base.Lists.{length, All}

unfoldable pub insert_sorted : ℕ → List ℕ → List ℕ
insert_sorted x [] = x ∷ []
insert_sorted x (y ∷ ys) = if leb x y then x ∷ y ∷ ys else y ∷ insert_sorted x ys

unfoldable pub sort_unstable : List ℕ → List ℕ
unfolding insert_sorted
sort_unstable [] = []
sort_unstable (x ∷ xs) = insert_sorted x (sort_unstable xs)

-- Drops an entry that equals the one before it, which is `prev`.
unfoldable pub dedup_after : ℕ → List ℕ → List ℕ
dedup_after prev [] = []
dedup_after prev (x ∷ xs) = let rest = dedup_after x xs in if prev == x then rest else x ∷ rest

unfoldable pub dedup : List ℕ → List ℕ
unfolding dedup_after
dedup [] = []
dedup (x ∷ xs) = x ∷ dedup_after x xs

unfoldable pub is_sorted_after : ℕ → List ℕ → Bool
is_sorted_after prev [] = true
is_sorted_after prev (x ∷ xs) = leb prev x && is_sorted_after x xs

unfoldable pub is_sorted : List ℕ → Bool
unfolding is_sorted_after
is_sorted [] = true
is_sorted (x ∷ xs) = is_sorted_after x xs

-- Every entry is above the one before it.
abbrev pub AscendsFrom : ℕ → List ℕ → Type 0
AscendsFrom prev [] = Unit
AscendsFrom prev (x ∷ xs) = (prev < x) × AscendsFrom x xs

abbrev pub Ascends : List ℕ → Type 0
Ascends [] = Unit
Ascends (x ∷ xs) = AscendsFrom x xs

-- No entry occurs twice.
abbrev pub Distinct {ℓ} : {A : Type ℓ} → List A → Type ℓ
Distinct [] = Unit
Distinct (x ∷ xs) = All (λ y. x ≢ y) xs × Distinct xs

length-dedup_after_le : (prev : ℕ) (xs : List ℕ) → length (dedup_after prev xs) ≤ length xs
unfolding dedup_after
length-dedup_after_le prev [] = omega arith
length-dedup_after_le prev (x ∷ xs) = ground (arith, length-dedup_after_le x xs)

dedup_after-Ascends :
    (prev : ℕ) (xs : List ℕ)
    → is_sorted_after prev xs ≡ true
    → length (dedup_after prev xs) ≡ length xs
    → AscendsFrom prev xs
unfolding is_sorted_after dedup_after
dedup_after-Ascends prev [] s h = tt
dedup_after-Ascends prev (x ∷ xs) s h =
    ground (arith, length-dedup_after_le x xs, dedup_after-Ascends x xs)

-- A sorted list that loses nothing to `dedup` ascends strictly.
pub Ascends-of_dedup :
    (xs : List ℕ) → is_sorted xs ≡ true → length (dedup xs) ≡ length xs → Ascends xs
unfolding is_sorted dedup
Ascends-of_dedup [] s h = tt
Ascends-of_dedup (x ∷ xs) s h = dedup_after-Ascends x xs s (omega arith)

dedup_after_of_Ascends : (prev : ℕ) (xs : List ℕ) → AscendsFrom prev xs → dedup_after prev xs ≡ xs
unfolding dedup_after
dedup_after_of_Ascends prev [] h = refl
dedup_after_of_Ascends prev (x ∷ xs) h = ground (arith, dedup_after_of_Ascends x xs)

pub dedup_of_Ascends : (xs : List ℕ) → Ascends xs → dedup xs ≡ xs
unfolding dedup
dedup_of_Ascends [] h = refl
dedup_of_Ascends (x ∷ xs) h = ap (λ t. x ∷ t) (dedup_after_of_Ascends x xs h)

is_sorted_after_of_Ascends :
    (prev : ℕ) (xs : List ℕ) → AscendsFrom prev xs → is_sorted_after prev xs ≡ true
unfolding is_sorted_after
is_sorted_after_of_Ascends prev [] h = refl
is_sorted_after_of_Ascends prev (x ∷ xs) h = ground (arith, is_sorted_after_of_Ascends x xs)

pub is_sorted_of_Ascends : (xs : List ℕ) → Ascends xs → is_sorted xs ≡ true
unfolding is_sorted
is_sorted_of_Ascends [] h = refl
is_sorted_of_Ascends (x ∷ xs) h = is_sorted_after_of_Ascends x xs h

AscendsFrom-ne : (a b : ℕ) (xs : List ℕ) → a ≤ b → AscendsFrom b xs → All (λ y. a ≢ y) xs
AscendsFrom-ne a b [] l h = tt
AscendsFrom-ne a b (x ∷ xs) l h = ((omega arith), AscendsFrom-ne a x xs (omega arith) h.1)

AscendsFrom-Distinct : (a : ℕ) (xs : List ℕ) → AscendsFrom a xs → Distinct xs
AscendsFrom-Distinct a [] h = tt
AscendsFrom-Distinct a (x ∷ xs) h =
    (AscendsFrom-ne x x xs (omega arith) h.1, AscendsFrom-Distinct x xs h.1)

pub Ascends-Distinct : (xs : List ℕ) → Ascends xs → Distinct xs
Ascends-Distinct [] h = tt
Ascends-Distinct (x ∷ xs) h = (AscendsFrom-ne x x xs (omega arith) h, AscendsFrom-Distinct x xs h)

insert_sorted-AscendsFrom :
    (prev x : ℕ) (xs : List ℕ)
    → prev < x
    → All (λ y. x ≢ y) xs
    → AscendsFrom prev xs
    → AscendsFrom prev (insert_sorted x xs)
unfolding insert_sorted
insert_sorted-AscendsFrom prev x [] l a h = (l, tt)
insert_sorted-AscendsFrom prev x (y ∷ ys) l a h = ground (arith, insert_sorted-AscendsFrom y x ys)

insert_sorted-Ascends :
    (x : ℕ) (xs : List ℕ) → All (λ y. x ≢ y) xs → Ascends xs → Ascends (insert_sorted x xs)
unfolding insert_sorted
insert_sorted-Ascends x [] a h = tt
insert_sorted-Ascends x (y ∷ ys) a h = ground (arith, insert_sorted-AscendsFrom y x ys)

insert_sorted-All {κ} :
    (P : ℕ → Type κ) (x : ℕ) (xs : List ℕ) → P x → All P xs → All P (insert_sorted x xs)
unfolding insert_sorted
insert_sorted-All P x [] p h = (p, tt)
insert_sorted-All P x (y ∷ ys) p h = elim (Bool-cases (leb x y)) [
  | inl e ↦ rw e (p, h)
  | inr e ↦ rw e (h.0, insert_sorted-All P x ys p h.1)
]

sort_unstable-All {κ} : (P : ℕ → Type κ) (xs : List ℕ) → All P xs → All P (sort_unstable xs)
unfolding sort_unstable
sort_unstable-All P [] h = tt
sort_unstable-All P (x ∷ xs) h =
    insert_sorted-All P x (sort_unstable xs) h.0 (sort_unstable-All P xs h.1)

length-insert_sorted : (x : ℕ) (xs : List ℕ) → length (insert_sorted x xs) ≡ suc (length xs)
unfolding insert_sorted
length-insert_sorted x [] = refl
length-insert_sorted x (y ∷ ys) = ground (arith, length-insert_sorted x ys)

pub length-sort_unstable : (xs : List ℕ) → length (sort_unstable xs) ≡ length xs
unfolding sort_unstable
length-sort_unstable [] = refl
length-sort_unstable (x ∷ xs) =
    omega (arith, length-insert_sorted x (sort_unstable xs), length-sort_unstable xs)

pub sort_unstable-Ascends : (xs : List ℕ) → Distinct xs → Ascends (sort_unstable xs)
unfolding sort_unstable
sort_unstable-Ascends [] h = tt
sort_unstable-Ascends (x ∷ xs) h =
    insert_sorted-Ascends x (sort_unstable xs) (sort_unstable-All (λ y. x ≢ y) xs h.0)
      (sort_unstable-Ascends xs h.1)
