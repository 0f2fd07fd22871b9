-- ===== src/Cache/Keys.antt =====
-- cache/cache.go: the masks of a shard's map, each once.
use knighttour.Prelude.{ℕ, ◌+◌, ◌≤◌, ◌==◌, if◌then◌else◌, max, none, [], ◌∷◌}
use knighttour.Prelude.{◌≡◌, refl, inl, inr, arith, Bool-cases, ==→≡}
use knighttour.State.{State}
use knighttour.Cache.{Data, find, store}

-- The number of entries of a mask.
unfoldable pub key_count : State → Data → ℕ
key_count k [] = 0
key_count k ((j, w) ∷ d) = (if j == k then 1 else 0) + key_count k d

-- A map in which only the entry of `key` may be new.
abbrev pub KeysKept : State → Data → Data → Type 0
KeysKept key d d' =
    (k : State) → key_count k d' ≤ (if key == k then max 1 (key_count k d) else key_count k d)

pub store-KeysKept : (key v : ℕ) (d : Data) → KeysKept key d (store key v d)
unfolding key_count store
store-KeysKept key v [] k = ground arith
store-KeysKept key v ((j, w) ∷ d) k = elim (Bool-cases (j == key)) [
  | inl here ↦ rw here (rw (==→≡ j key here) (ground arith))
  | inr later ↦ rw later (ground (arith, store-KeysKept key v d k, ==→≡ key k))
]

pub same-KeysKept : (key : ℕ) (d : Data) → KeysKept key d d
same-KeysKept key d k = ground arith

pub find-absent : (k : ℕ) (d : Data) → key_count k d ≡ 0 → find k d ≡ none
unfolding key_count find
find-absent k [] e = refl
find-absent k ((j, w) ∷ d) e = elim (Bool-cases (j == k)) [
  | inl here ↦ absurd (ground arith)
  | inr later ↦ rw later (find-absent k d (ground (arith, e)))
]
