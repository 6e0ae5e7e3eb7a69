-- ===== src/Base/Scan.antt =====
-- Texts as lists of bytes or of code points: trimming, and cutting at a separator.
use Prim.Native.Nat.{ℕ}
use mathlib.Core.Path.{◌≡◌, refl}
use mathlib.Core.Bool.{Bool, true, false, ◌&&◌, ◌||◌}
use mathlib.Core.Option.{Option, none, some}
use mathlib.Core.List.{List, [], ◌∷◌, ◌++◌}
use native.Mathlib.Omega.{arith}
use cali_go_stack.Base.Tests.{nat_eq, if◌then◌else◌}

abbrev pub is_nil {ℓ} : {A : Type ℓ} → List A → Bool
is_nil [] = true
is_nil (c ∷ cs) = false

-- Without the first characters that the test holds of, and without the last.
unfoldable pub trim_left : (ℕ → Bool) → List ℕ → List ℕ
trim_left p [] = []
trim_left p (c ∷ cs) = let rest = trim_left p cs in if p c then rest else c ∷ cs

unfoldable pub trim_right : (ℕ → Bool) → List ℕ → List ℕ
trim_right p [] = []
trim_right p (c ∷ cs) = let rest = trim_right p cs in if is_nil rest && p c then [] else c ∷ rest

abbrev pub trim : (ℕ → Bool) → List ℕ → List ℕ
trim p s = trim_right p (trim_left p s)

-- What stands before and after the first `c`.
unfoldable pub cut : (c : ℕ) → List ℕ → Option (List ℕ × List ℕ)
cut c [] = none
cut c (d ∷ ds) =
    let rest = cut c ds in
    if nat_eq d c
    then some ([], ds)
    else elim rest [ none ↦ none | some (before, after) ↦ some (d ∷ before, after) ]

-- A test of the first character, and of the last.
abbrev pub first_is : (ℕ → Bool) → List ℕ → Bool
first_is p [] = false
first_is p (c ∷ cs) = p c

abbrev pub last_is : (ℕ → Bool) → List ℕ → Bool
last_is p [] = false
last_is p (c ∷ []) = p c
last_is p (c ∷ d ∷ ds) = last_is p (d ∷ ds)

-- The test holds neither of the first character nor of the last.
abbrev pub IsTrimmed : (ℕ → Bool) → List ℕ → Type 0
IsTrimmed p s = (first_is p s ≡ false) × (last_is p s ≡ false)

-- `c` does not occur.
abbrev pub Without : ℕ → List ℕ → Type 0
Without c [] = Unit
Without c (b ∷ bs) = (nat_eq b c ≡ false) × Without c bs

pub Without-append : (c : ℕ) (xs ys : List ℕ) → Without c xs → Without c ys → Without c (xs ++ ys)
Without-append c [] ys h k = k
Without-append c (x ∷ xs) ys (h, hs) k = (h, Without-append c xs ys hs k)

pub cut-append : (c : ℕ) (xs ys : List ℕ) → Without c xs → cut c (xs ++ (c ∷ ys)) ≡ some (xs, ys)
unfolding cut
cut-append c [] ys h = ground arith
cut-append c (x ∷ xs) ys (h, hs) = rw (h, cut-append c xs ys hs) refl

pub trim_left_lem : (p : ℕ → Bool) (s : List ℕ) → first_is p s ≡ false → trim_left p s ≡ s
unfolding trim_left
trim_left_lem p [] h = refl
trim_left_lem p (c ∷ cs) h = rw h

pub trim_right_lem : (p : ℕ → Bool) (s : List ℕ) → last_is p s ≡ false → trim_right p s ≡ s
unfolding trim_right
trim_right_lem p [] h = refl
trim_right_lem p (c ∷ []) h = rw h
trim_right_lem p (c ∷ d ∷ ds) h = rw (trim_right_lem p (d ∷ ds) h)

pub trim_lem : (p : ℕ → Bool) (s : List ℕ) → IsTrimmed p s → trim p s ≡ s
trim_lem p s (first, last) = rw (trim_left_lem p s first) (trim_right_lem p s last)

pub last_is-append :
    (p : ℕ → Bool) (xs : List ℕ) (y : ℕ) (ys : List ℕ)
    → last_is p (xs ++ (y ∷ ys)) ≡ last_is p (y ∷ ys)
last_is-append p [] y ys = refl
last_is-append p (x ∷ []) y ys = refl
last_is-append p (x ∷ z ∷ zs) y ys = last_is-append p (z ∷ zs) y ys

-- A last character that the test holds of goes.
pub trim_right-append :
    (p : ℕ → Bool) (s : List ℕ) (c : ℕ)
    → last_is p s ≡ false
    → p c ≡ true
    → trim_right p (s ++ c ∷ []) ≡ s
unfolding trim_right
trim_right-append p [] c h k = rw k
trim_right-append p (d ∷ []) c h k = rw (k, h)
trim_right-append p (d ∷ e ∷ es) c h k = rw (trim_right-append p (e ∷ es) c h k)

abbrev pub occurs : ℕ → List ℕ → Bool
occurs c [] = false
occurs c (b ∷ bs) = nat_eq b c || occurs c bs

pub occurs-Without : (c : ℕ) (s : List ℕ) → occurs c s ≡ false → Without c s
occurs-Without c [] h = tt
occurs-Without c (b ∷ bs) h = (ground (arith, h), occurs-Without c bs (ground (arith, h)))
