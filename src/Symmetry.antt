-- ===== src/Symmetry.antt =====
-- symmetry/symmetry.go: the eight symmetries of the square acting on cells and on masks, by tables.
-- Cells and table indices are non-negative; a `uint8` keeps its wrap-around.
pub mod Frame
pub mod Square
pub mod Canonical
pub mod Stabilizer
pub mod Compose
pub mod Fixing
pub mod Class
pub mod Orbits
pub mod Distinct
pub mod Turns
pub mod OrbitSize
pub mod Groups
pub mod Starts
pub mod Members
use knighttour.Prelude.{
  ℕ, zero, suc, ◌+◌, ◌-◌, ◌*◌, ◌/◌, ◌%◌, ◌^◌, ◌==◌, ltb, if◌then◌else◌, Bool, true, false, ◌&&◌,
}
use knighttour.Prelude.{List, [], ◌∷◌, ◌++◌, map, length, get_or, drop, range}
use Prim.Native.Nat.{bit_and, bit_or}
use knighttour.Words.{trailing_zeros}
use knighttour.State.{State, new_state, visit, all_visited}

abbrev pub num_transforms : ℕ
num_transforms = 8

abbrev pub byte : ℕ → ℕ
byte n = n % 2 ^ 8

-- `GetSymmetries`: the coordinates of a cell's image on a board of side `s`.
abbrev pub get_symmetries : List (ℕ → ℕ → ℕ → ℕ × ℕ)
get_symmetries =
    (λ x y s. (x, y))
    ∷ (λ x y s. (y, s - 1 - x))
    ∷ (λ x y s. (s - 1 - x, s - 1 - y))
    ∷ (λ x y s. (s - 1 - y, x))
    ∷ (λ x y s. (x, s - 1 - y))
    ∷ (λ x y s. (s - 1 - x, y))
    ∷ (λ x y s. (y, x))
    ∷ (λ x y s. (s - 1 - y, s - 1 - x))
    ∷ []

pub record CanonicalGroup : Type 0 where
  pub positions : List ℕ
  pub canonical : ℕ
  pub orbit_size : ℕ

pub record Symmetry : Type 0 where
  pub canonical : List ℕ
  pub orbit_sizes : List ℕ
  pub groups : List CanonicalGroup
  pub size : ℕ
  pub perms : List (List ℕ)
  pub compose : List (List ℕ)

-- `perms[t][cell]`; the rest of a row of the array is 0.
abbrev pub perm : List (List ℕ) → ℕ → ℕ → ℕ
perm perms t cell = get_or (get_or perms t []) cell 0

-- A row of the table: the images of all cells under one closure.
unfoldable pub perm_row : ℕ → (ℕ → ℕ → ℕ → ℕ × ℕ) → List ℕ
perm_row size f =
    map (λ pos. let (nx, ny) = f (pos / size) (pos % size) size in byte (nx * size + ny))
      (range 0 (size * size))

-- `composedEqual`, over the cells that are left.
unfoldable pub composed_equal : List (List ℕ) → ℕ → ℕ → ℕ → List ℕ → Bool
composed_equal perms i j k [] = true
composed_equal perms i j k (c ∷ cs) =
    perm perms k c == perm perms i (perm perms j c) && composed_equal perms i j k cs

-- The loop of `indexOfComposition`, over the indices that are left.
unfoldable pub index_of_composition : List (List ℕ) → ℕ → ℕ → ℕ → List ℕ → ℕ
index_of_composition perms size i j [] = 0
index_of_composition perms size i j (k ∷ ks) =
    if composed_equal perms i j k (range 0 (size * size))
    then k
    else index_of_composition perms size i j ks

unfoldable pub build_compose : List (List ℕ) → ℕ → List (List ℕ)
build_compose perms size =
    map
      (λ i.
        map (λ j. index_of_composition perms size i j (range 0 num_transforms))
          (range 0 num_transforms))
      (range 0 num_transforms)

-- `getCanonicalPosition`: the least image, from `best`, over the transforms that are left.
unfoldable pub best_position : List (List ℕ) → ℕ → List ℕ → ℕ → ℕ
best_position perms cell [] best = best
best_position perms cell (t ∷ ts) best =
    best_position perms cell ts (if ltb (perm perms t cell) best then perm perms t cell else best)

-- `seen[v] = true`, for a set as the list of its members.
abbrev pub insert_new : ℕ → List ℕ → List ℕ
insert_new v [] = v ∷ []
insert_new v (x ∷ xs) = if x == v then x ∷ xs else x ∷ insert_new v xs

-- The loop of `computeOrbitSize`.
unfoldable pub images : List (List ℕ) → ℕ → List ℕ → List ℕ → List ℕ
images perms cell [] seen = seen
images perms cell (t ∷ ts) seen = images perms cell ts (insert_new (perm perms t cell) seen)

unfoldable pub compute_orbit_size : List (List ℕ) → ℕ → ℕ
unfolding images
compute_orbit_size perms cell = length (images perms cell (range 0 num_transforms) [])

-- `groupsMap[canonical].Positions = append(…, pos)`, for the map as an association list.
unfoldable pub add_position : ℕ → ℕ → List CanonicalGroup → List CanonicalGroup
add_position key cell [] = record { positions = cell ∷ []; canonical = key; orbit_size = 0 } ∷ []
add_position key cell (x ∷ xs) =
    let rest = add_position key cell xs in
    if x.canonical == key then record x { positions = x.positions ++ cell ∷ [] } ∷ xs else x ∷ rest

-- The insertion into a slice that `sort.Slice` orders by the canonical position.
unfoldable pub insert_group : CanonicalGroup → List CanonicalGroup → List CanonicalGroup
insert_group g [] = g ∷ []
insert_group g (x ∷ xs) =
    let rest = insert_group g xs in if ltb x.canonical g.canonical then x ∷ rest else g ∷ x ∷ xs

unfoldable pub insert_int : ℕ → List ℕ → List ℕ
insert_int n [] = n ∷ []
insert_int n (x ∷ xs) = let rest = insert_int n xs in if ltb x n then x ∷ rest else n ∷ x ∷ xs

-- `sort.Ints`.
unfoldable pub sort_ints : List ℕ → List ℕ
sort_ints [] = []
sort_ints (x ∷ xs) = insert_int x (sort_ints xs)

unfoldable pub group_cells : List ℕ → List ℕ → List CanonicalGroup → List CanonicalGroup
group_cells canonical [] groups = groups
group_cells canonical (pos ∷ rest) groups =
    group_cells canonical rest (add_position (get_or canonical pos 0) pos groups)

-- The second loop and the sort of `buildCanonicalGroups`.
unfoldable pub finish_groups : List CanonicalGroup → List CanonicalGroup
finish_groups [] = []
finish_groups (g ∷ gs) =
    insert_group (record g { orbit_size = length g.positions; positions = sort_ints g.positions })
      (finish_groups gs)

unfoldable pub build_canonical_groups : List ℕ → ℕ → List CanonicalGroup
build_canonical_groups canonical size =
    finish_groups (group_cells canonical (range 0 (size * size)) [])

-- The array has eight rows of 64 cells, so that a side above 8 panics: the model is of a side of at
-- most 8, where the cells of a row beyond the board are 0.
unfoldable pub new_symmetry : ℕ → Symmetry
new_symmetry size =
    let perms = map (perm_row size) get_symmetries in
    let canonical =
      map (λ pos. best_position perms pos (range 0 num_transforms) pos) (range 0 (size * size)) in
    record {
      canonical = canonical;
      orbit_sizes = map (compute_orbit_size perms) (range 0 (size * size));
      groups = build_canonical_groups canonical size;
      size = size;
      perms = perms;
      compose = build_compose perms size;
    }

unfoldable pub get_canonical_position : Symmetry → ℕ → ℕ
get_canonical_position s pos = get_or s.canonical pos 0

unfoldable pub is_canonical_position : Symmetry → ℕ → Bool
unfolding get_canonical_position
is_canonical_position s pos = get_canonical_position s pos == pos

unfoldable pub get_orbit_size : Symmetry → ℕ → ℕ
get_orbit_size s pos = get_or s.orbit_sizes pos 0

abbrev pub get_canonical_groups : Symmetry → List CanonicalGroup
get_canonical_groups s = s.groups

unfoldable pub transform_cell : Symmetry → ℕ → ℕ → ℕ
transform_cell s t cell = perm s.perms t cell

unfoldable pub move_cells : Symmetry → ℕ → List ℕ → State → State
move_cells s t [] result = result
move_cells s t (pos ∷ rest) result = move_cells s t rest (visit result (perm s.perms t pos))

unfoldable pub transform_state : Symmetry → ℕ → State → State
unfolding move_cells
transform_state s t st = move_cells s t (all_visited st) (new_state [])

-- The loop over the images that takes the least, and the first index that reaches it.
unfoldable pub least_image : List State → ℕ → State → ℕ → State × ℕ
least_image [] t k frame = (k, frame)
least_image (img ∷ imgs) t k frame =
    if ltb img k then least_image imgs (t + 1) img t else least_image imgs (t + 1) k frame

-- `stab |= 1 << t` for the transforms that fix the canonical mask.
unfoldable pub stab_loop : Symmetry → List State → State → ℕ → List ℕ → ℕ → ℕ
stab_loop s imgs k frame [] stab = stab
stab_loop s imgs k frame (t ∷ ts) stab = stab_loop s imgs k frame ts (
    if get_or imgs (get_or (get_or s.compose t []) frame 0) 0 == k
    then bit_or stab (byte (2 ^ t))
    else stab)

pub record MaskFrame : Type 0 where
  pub mask : State
  pub frame : ℕ
  pub stab : ℕ

unfoldable pub canonical_mask_frame : Symmetry → State → MaskFrame
canonical_mask_frame s st =
    let imgs = map (λ t. transform_state s t st) (range 0 num_transforms) in
    let (k, frame) = least_image (drop 1 imgs) 1 (get_or imgs 0 0) 0 in
    record { mask = k; frame = frame; stab = stab_loop s imgs k frame (range 0 num_transforms) 0 }

-- The loops over the ones of `stab`, which `m &= m - 1` clears from the lowest: 8 rounds are enough.
unfoldable pub class_loop : Symmetry → ℕ → ℕ → ℕ → ℕ → ℕ
class_loop s zero m cell rep = rep
class_loop s (suc fuel) m cell rep =
    let c = perm s.perms (trailing_zeros 8 m) cell in
    let rest = class_loop s fuel (bit_and m (m - 1)) cell (if ltb c rep then c else rep) in
    if m == 0 then rep else rest

unfoldable pub class_rep : Symmetry → ℕ → ℕ → ℕ
class_rep s stab cell = class_loop s 8 stab cell (byte cell)

unfoldable pub fixed_loop : Symmetry → ℕ → ℕ → ℕ → ℕ → ℕ
fixed_loop s zero m cell fixed = fixed
fixed_loop s (suc fuel) m cell fixed =
    let hit = perm s.perms (trailing_zeros 8 m) cell == byte cell in
    let rest = fixed_loop s fuel (bit_and m (m - 1)) cell (if hit then fixed + 1 else fixed) in
    if m == 0 then fixed else rest

-- A stabilizer contains the identity, so the divisor is not 0.
unfoldable pub cell_orbit_size : Symmetry → ℕ → ℕ → ℕ
cell_orbit_size s stab cell = num_transforms / fixed_loop s 8 stab cell 0

pub record MaskClass : Type 0 where
  pub mask : State
  pub rep : ℕ
  pub orbit_size : ℕ

unfoldable pub canonical_class : Symmetry → State → ℕ → MaskClass
canonical_class s st end =
    let f = canonical_mask_frame s st in
    let c = transform_cell s f.frame end in
    record { mask = f.mask; rep = class_rep s f.stab c; orbit_size = cell_orbit_size s f.stab c }
