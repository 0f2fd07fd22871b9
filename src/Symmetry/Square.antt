-- ===== src/Symmetry/Square.antt =====
-- symmetry/symmetry.go, `NewSymmetry`: the tables as the symmetries of a square, a swap of the
-- coordinates followed by a reflection of each.
use native.Mathlib.Nat.{
  mul-le-mul, mul-le-mul_right, suc-mul, div-lt_iff_lt-mul, mod-lt, mod-eq_of_lt, mul-add-div_right,
  div-eq_of_lt, add-zero, mul-add-mod_self_right,
}
use knighttour.Prelude.{
  ℕ, zero, suc, ◌+◌, ◌-◌, ◌*◌, ◌/◌, ◌%◌, ◌≤◌, ◌<◌, if◌then◌else◌, Bool, true, false, not, get_or,
  get_or-map_upto,
}
use knighttour.Prelude.{◌≡◌, refl, ap, ◌∙◌, arith}
use knighttour.Symmetry.{new_symmetry, perm_row, byte, transform_cell}

pub data Turn : Type 0 where
  turn : Bool → Bool → Bool → Turn

abbrev pub flip : Bool → ℕ → ℕ → ℕ
flip true x s = s - 1 - x
flip false x s = x

-- The image of a cell's coordinates.
abbrev pub act : Turn → ℕ → ℕ → ℕ → ℕ × ℕ
act (turn swap fx fy) x y s = (flip fx (if swap then y else x) s, flip fy (if swap then x else y) s)

flip-lt : (n : ℕ) (b : Bool) (x : ℕ) → x < n → flip b x n < n
flip-lt n true x lt = omega arith
flip-lt n false x lt = lt

-- The place of a symmetry in the table.
abbrev pub index : Turn → ℕ
index (turn false false false) = 0
index (turn true false true) = 1
index (turn false true true) = 2
index (turn true true false) = 3
index (turn false false true) = 4
index (turn false true false) = 5
index (turn true false false) = 6
index (turn true true true) = 7

pub turn_of : (t : ℕ) → t < 8 → (g : Turn) × (index g ≡ t)
turn_of zero lt = (turn false false false, refl)
turn_of (suc zero) lt = (turn true false true, refl)
turn_of (suc (suc zero)) lt = (turn false true true, refl)
turn_of (suc (suc (suc zero))) lt = (turn true true false, refl)
turn_of (suc (suc (suc (suc zero)))) lt = (turn false false true, refl)
turn_of (suc (suc (suc (suc (suc zero))))) lt = (turn false true false, refl)
turn_of (suc (suc (suc (suc (suc (suc zero)))))) lt = (turn true false false, refl)
turn_of (suc (suc (suc (suc (suc (suc (suc zero))))))) lt = (turn true true true, refl)
turn_of (suc (suc (suc (suc (suc (suc (suc (suc n)))))))) lt = absurd (omega arith)

pub index-lt : (g : Turn) → index g < 8
index-lt (turn false false false) = omega arith
index-lt (turn true false true) = omega arith
index-lt (turn false true true) = omega arith
index-lt (turn true true false) = omega arith
index-lt (turn false false true) = omega arith
index-lt (turn false true false) = omega arith
index-lt (turn true false false) = omega arith
index-lt (turn true true true) = omega arith

perm_row-at :
    (n c : ℕ) (f : ℕ → ℕ → ℕ → ℕ × ℕ)
    → c < n * n
    → get_or (perm_row n f) c 0 ≡ byte ((f (c / n) (c % n) n).0 * n + (f (c / n) (c % n) n).1)
unfolding perm_row
perm_row-at n c f lt =
    let image = λ (p : ℕ). byte ((f (p / n) (p % n) n).0 * n + (f (p / n) (p % n) n).1) in
    get_or-map_upto image 0 (n * n) c lt

act-lt :
    (n : ℕ) (g : Turn) (x y : ℕ) → x < n → y < n → ((act g x y n).0 < n) × ((act g x y n).1 < n)
act-lt n (turn false fx fy) x y hx hy = (flip-lt n fx x hx, flip-lt n fy y hy)
act-lt n (turn true fx fy) x y hx hy = (flip-lt n fx y hy, flip-lt n fy x hx)

module _ (n : ℕ) where
  abbrev pub on_cell : Turn → ℕ → ℕ
  on_cell g c = transform_cell (new_symmetry n) (index g) c

  on_cell-byte :
      (g : Turn) (c : ℕ)
      → c < n * n
      → on_cell g c ≡ byte ((act g (c / n) (c % n) n).0 * n + (act g (c / n) (c % n) n).1)
  unfolding transform_cell new_symmetry
  on_cell-byte (turn false false false) c lt = perm_row-at n c _ lt
  on_cell-byte (turn true false true) c lt = perm_row-at n c _ lt
  on_cell-byte (turn false true true) c lt = perm_row-at n c _ lt
  on_cell-byte (turn true true false) c lt = perm_row-at n c _ lt
  on_cell-byte (turn false false true) c lt = perm_row-at n c _ lt
  on_cell-byte (turn false true false) c lt = perm_row-at n c _ lt
  on_cell-byte (turn true false false) c lt = perm_row-at n c _ lt
  on_cell-byte (turn true true true) c lt = perm_row-at n c _ lt

cell_lt : (n x y : ℕ) → x < n → y < n → x * n + y < n * n
cell_lt n x y hx hy =
    let row = mul-le-mul_right n hx in let next : suc x * n ≡ x * n + n = suc-mul x n in omega arith

positive : (n c : ℕ) → c < n * n → 0 < n
positive zero c lt = absurd (omega arith)
positive (suc n) c lt = omega arith

coords : (n c : ℕ) → c < n * n → (c / n < n) × (c % n < n)
coords n c lt = let pos = positive n c lt in ((div-lt_iff_lt-mul pos).1 lt, mod-lt c pos)

pub square_lt : (n : ℕ) → n ≤ 8 → n * n ≤ 64
square_lt n h = mul-le-mul h h

module _ (n : ℕ) (small : n ≤ 8) where
  -- The image of a cell, without the wrap-around.
  pub on_cell-eq :
      (g : Turn) (c : ℕ)
      → c < n * n
      → on_cell n g c ≡ (act g (c / n) (c % n) n).0 * n + (act g (c / n) (c % n) n).1
  on_cell-eq g c lt =
      let (hx, hy) = coords n c lt in
      let (ax, ay) = act-lt n g (c / n) (c % n) hx hy in
      let inside = cell_lt n _ _ ax ay in
      on_cell-byte n g c lt ∙ mod-eq_of_lt (omega (arith, inside, square_lt n small))

  on_cell-at :
      (g : Turn) (x y : ℕ)
      → x < n
      → y < n
      → on_cell n g (x * n + y) ≡ (act g x y n).0 * n + (act g x y n).1
  on_cell-at g x y hx hy =
      let pos : 0 < n = omega arith in
      let dx : (x * n + y) / n ≡ x =
        mul-add-div_right pos x y ∙ ap (λ d. x + d) (div-eq_of_lt hy) ∙ add-zero x in
      let my : (x * n + y) % n ≡ y = mul-add-mod_self_right x n y ∙ mod-eq_of_lt hy in
      let e = on_cell-eq g (x * n + y) (cell_lt n x y hx hy) in rw (dx, my) at e

  pub on_cell-lt : (g : Turn) (c : ℕ) → c < n * n → on_cell n g c < n * n
  on_cell-lt g c lt =
      let (hx, hy) = coords n c lt in
      let (ax, ay) = act-lt n g (c / n) (c % n) hx hy in
      rw (on_cell-eq g c lt) (cell_lt n _ _ ax ay)

-- Two symmetries one after the other, the second argument first.
abbrev xor : Bool → Bool → Bool
xor true b = not b
xor false b = b

abbrev pub after : Turn → Turn → Turn
after (turn swap fx fy) (turn swap2 fx2 fy2) =
    turn (xor swap swap2) (xor fx (if swap then fy2 else fx2)) (xor fy (if swap then fx2 else fy2))

-- The symmetry that stands before `h` in `g`.
abbrev pub over : Turn → Turn → Turn
over (turn swap fx fy) (turn swap2 fx2 fy2) =
    turn (xor swap swap2) (xor fx (if xor swap swap2 then fy2 else fx2))
      (xor fy (if xor swap swap2 then fx2 else fy2))

xor_twice : (a b : Bool) → xor (xor a b) b ≡ a
xor_twice true true = refl
xor_twice true false = refl
xor_twice false true = refl
xor_twice false false = refl

turn_eq : {a b c d e f : Bool} → a ≡ d → b ≡ e → c ≡ f → turn a b c ≡ turn d e f
turn_eq p q r = cc (p, q, r)

pub after-over : (g h : Turn) → after (over g h) h ≡ g
after-over (turn swap fx fy) (turn swap2 fx2 fy2) =
    turn_eq (xor_twice swap swap2) (xor_twice fx _) (xor_twice fy _)

flip-flip : (n : ℕ) (a b : Bool) (x : ℕ) → x < n → flip a (flip b x n) n ≡ flip (xor a b) x n
flip-flip n true true x lt = omega arith
flip-flip n true false x lt = refl
flip-flip n false true x lt = refl
flip-flip n false false x lt = refl

act-after :
    (n : ℕ) (g h : Turn) (x y : ℕ)
    → x < n
    → y < n
    → act g (act h x y n).0 (act h x y n).1 n ≡ act (after g h) x y n
act-after n (turn false fx fy) (turn false fx2 fy2) x y hx hy =
    cc (flip-flip n fx fx2 x hx, flip-flip n fy fy2 y hy)
act-after n (turn false fx fy) (turn true fx2 fy2) x y hx hy =
    cc (flip-flip n fx fx2 y hy, flip-flip n fy fy2 x hx)
act-after n (turn true fx fy) (turn false fx2 fy2) x y hx hy =
    cc (flip-flip n fx fy2 y hy, flip-flip n fy fx2 x hx)
act-after n (turn true fx fy) (turn true fx2 fy2) x y hx hy =
    cc (flip-flip n fx fy2 x hx, flip-flip n fy fx2 y hy)

module _ (n : ℕ) (small : n ≤ 8) where
  pub on_cell-after :
      (g h : Turn) (c : ℕ) → c < n * n → on_cell n g (on_cell n h c) ≡ on_cell n (after g h) c
  on_cell-after g h c lt =
      let (hx, hy) = coords n c lt in
      let (ax, ay) = act-lt n h (c / n) (c % n) hx hy in
      rw
        (
          on_cell-eq n small h c lt,
          on_cell-eq n small (after g h) c lt,
          on_cell-at n small g _ _ ax ay,
          act-after n g h (c / n) (c % n) hx hy,
        )
        refl
