-- ===== src/Llm/Reply/Short.antt =====
-- How many items are kept, and which.
use cali_go_stack.Base.{
  ℕ, zero, suc, ◌≡◌, ◌≤◌, refl, List, [], ◌∷◌, map, length, take, arith, is_nil, if◌then◌else◌,
}
use cali_go_stack.Llm.Reply.{Text, keep}

-- The items that are not empty.
unfoldable pub filled : List Text → List Text
filled [] = []
filled (t ∷ ts) = if is_nil t then filled ts else t ∷ filled ts

pub keep_lem : (f : Text → Text) (n : ℕ) (ts : List Text) → keep f n ts ≡ take n (filled (map f ts))
unfolding keep filled
keep_lem f zero ts = refl
keep_lem f (suc n) [] = refl
keep_lem f (suc n) (t ∷ ts) = ground (arith, keep_lem f (suc n) ts, keep_lem f n ts)

pub length-take : {A : Type 0} (n : ℕ) (xs : List A) → length (take n xs) ≤ n
length-take zero xs = omega arith
length-take (suc n) [] = omega arith
length-take (suc n) (x ∷ xs) = omega (arith, length-take n xs)
