-- ===== src/Cache/Sums.antt =====
-- Sums over lists of the records of cache/cache.go.
use mathlib.Core.List.{Perm, foldr}
use mathlib.Core.List.Perm
use native.Mathlib.Nat.{ℕ_set}
use knighttour.Prelude.{ℕ, ◌+◌, ◌==◌, ltb, if◌then◌else◌, ◌&&◌, List, [], ◌∷◌, ◌++◌, length}
use knighttour.Prelude.{◌≡◌, refl, sym, ◌∙◌, arith}
use knighttour.State.{State}
use knighttour.Cache.{Entry}

unfoldable pub sum_over : (Entry → ℕ) → List Entry → ℕ
sum_over f es = foldr (λ e acc. f e + acc) 0 es

pub sum_over-Perm :
    (f : Entry → ℕ) (es ds : List Entry) → Perm es ds → sum_over f es ≡ sum_over f ds
unfolding sum_over
sum_over-Perm f es ds p = Perm.foldr-eq ℕ_set (λ e acc. f e + acc) (λ a b c. omega arith) p 0

pub sum_over-ones : (es : List Entry) → sum_over (λ _. 1) es ≡ length es
unfolding sum_over
sum_over-ones [] = refl
sum_over-ones (e ∷ es) = omega (arith, sum_over-ones es)

pub length-Perm : (es ds : List Entry) → Perm es ds → length es ≡ length ds
length-Perm es ds p = sym (sum_over-ones es) ∙ sum_over-Perm (λ _. 1) es ds p ∙ sum_over-ones ds

pub sum_over-append :
    (f : Entry → ℕ) (es ds : List Entry) → sum_over f (es ++ ds) ≡ sum_over f es + sum_over f ds
unfolding sum_over
sum_over-append f [] ds = omega arith
sum_over-append f (e ∷ es) ds = omega (arith, sum_over-append f es ds)

-- The weight of a record, if it is of the mask and of the class.
abbrev pub share : State → ℕ → Entry → ℕ
share key rep e = if e.mask == key && e.rep == rep then e.weight else 0

-- 1 for a record whose class is no cell of a board.
abbrev pub stray : Entry → ℕ
stray e = if ltb e.rep 64 then 0 else 1

-- Two lists have the same records, as often.
abbrev pub SameSums : List Entry → List Entry → Type 0
SameSums es ds = (f : Entry → ℕ) → sum_over f es ≡ sum_over f ds
