-- ===== src/Pruner/Frontier.antt =====
-- pruner/pruner.go, `globalCheck`: one round of the flood fill on a remainder that a path covers.
use knighttour.Prelude.{ℕ, suc, ◌+◌, ◌<◌, ◌==◌, ltb, if◌then◌else◌, false, ◌||◌}
use knighttour.Prelude.{
  ◌≡◌, refl, sym, ◌∙◌, ◌⊎◌, inl, inr, List, [], ◌∷◌, ◌∈◌, arith, Bool-cases, ==→≡, ==_self, ||-true,
}
use knighttour.State.{State, is_visited, visit, intersect, union, count_bits}
use knighttour.State.Bits.{
  IsWord, intersect-IsWord, union-IsWord, is_visited-intersect, is_visited-union, is_visited-visit,
}
use knighttour.State.Cells.{In, AscendsFrom}
use knighttour.State.Count.{count_zero, count_one}
use knighttour.Graph.{Graph, get_neighbor_mask}
use knighttour.Graph.Masks.{IsBoard}
use knighttour.Pruner.{Flood, done, scan_cell, scan}
use knighttour.Pruner.Path.{
  Completes, Adjacent, Internal, last_of, ends_or_Internal, has_neighbour, last_of-ne, last_of-In,
}

abbrev pub indicator : State → ℕ → ℕ
indicator s p = if is_visited s p then 1 else 0

-- A member of an ascending list is not below its start.
beyond : (lo : ℕ) (xs : List ℕ) (q : ℕ) → AscendsFrom lo xs → q ∈ xs → ¬ (q < lo)
beyond lo [] q up m lt = m
beyond lo (x ∷ xs) q up (inl e) lt = omega arith
beyond lo (x ∷ xs) q up (inr m) lt = beyond (suc x) xs q up.1 m (omega arith)

pub absent : (s q : ℕ) → q < 64 → ¬ In s q → is_visited s q ≡ false
absent s q hq out = elim (Bool-cases (is_visited s q)) [ inl e ↦ absurd (out (hq, e)) | inr e ↦ e ]

module _ (g : Graph) (b : IsBoard g) (u : State) (w : IsWord u) where
  -- The unvisited neighbours of a cell.
  abbrev pub nbrs : ℕ → State
  nbrs q = intersect (get_neighbor_mask g q) u

  pub nbrs-IsWord : (q : ℕ) → IsWord (nbrs q)
  nbrs-IsWord q = intersect-IsWord u (get_neighbor_mask g q) w

  pub nbrs-In : (q r : ℕ) → In (nbrs q) r → In u r × Adjacent g q r
  nbrs-In q r (hr, v) =
      let e = sym (is_visited-intersect (get_neighbor_mask g q) u r hr) ∙ v in
      ((hr, ground arith), ground arith)

  pub In-nbrs : (q r : ℕ) → In u r → Adjacent g q r → In (nbrs q) r
  In-nbrs q r (hr, v) a = (hr, is_visited-intersect (get_neighbor_mask g q) u r hr ∙ ground arith)

  -- A cell with exactly one unvisited neighbour is not inside a path.
  not_Internal : (q : ℕ) → count_bits (nbrs q) ≡ 1 → ¬ Internal g u q
  not_Internal q e i = i.apart (
      count_one (nbrs q) (nbrs-IsWord q) e i.one i.other (In-nbrs q i.one i.one_in i.to_one)
        (In-nbrs q i.other i.other_in i.to_other))

  module _ (last n m : ℕ) (p : List ℕ) (path : Completes g last u (n ∷ m ∷ p)) where
    abbrev pub end : ℕ
    end = last_of m p

    -- The degree-1 cells counted so far are ends of the path.
    abbrev pub Counts : Flood → Type 0
    Counts f = f.deg1_count ≡ indicator f.deg1_mask n + indicator f.deg1_mask end

    pub record CellOk (q : ℕ) (f : Flood) : Type 0 where
      pub out : Flood
      pub returns : scan_cell g u q f ≡ done out
      pub next_eq : out.next ≡ union f.next (nbrs q)
      pub deg1 : (out.deg1_mask ≡ f.deg1_mask) ⊎ (out.deg1_mask ≡ visit f.deg1_mask q)
      pub counts : Counts out

    first_In : In u n
    first_In = unfold Completes in path.0

    end-In : In u end
    end-In = unfold last_of in last_of-In g b last u n (m ∷ p) path

    -- Marking one more end of the path.
    counts_up :
        (D q : ℕ)
        → (q ≡ n) ⊎ (q ≡ end)
        → ¬ In D q
        → indicator (visit D q) n + indicator (visit D q) end ≡ indicator D n + indicator D end + 1
    counts_up D q (inl e) fresh =
        let apart = last_of-ne g b last u n m p path in
        let off : is_visited D n ≡ false = absent D n first_In.0 (rw (← e) fresh) in
        rw
          (
            e,
            is_visited-visit D n n first_In.0 first_In.0,
            is_visited-visit D n end first_In.0 end-In.0,
          )
          (ground (arith, off, ==_self n, apart))
    counts_up D q (inr e) fresh =
        let apart = last_of-ne g b last u n m p path in
        let off : is_visited D end ≡ false = absent D end end-In.0 (rw (← e) fresh) in
        rw
          (
            e,
            is_visited-visit D end n end-In.0 first_In.0,
            is_visited-visit D end end end-In.0 end-In.0,
          )
          (ground (arith, off, ==_self end, apart))

    few_ends :
        (D q c : ℕ)
        → indicator (visit D q) n + indicator (visit D q) end ≡ indicator D n + indicator D end + 1
        → c ≡ indicator D n + indicator D end
        → ltb 2 (c + 1) ≡ false
    few_ends D q c up e = ground arith

    is_end : (q : ℕ) → In u q → count_bits (nbrs q) ≡ 1 → (q ≡ n) ⊎ (q ≡ end)
    unfolding last_of
    is_end q i e = elim (ends_or_Internal g b last u n (m ∷ p) w path q i) [
      | inl h ↦ inl h
      | inr (inl h) ↦ inr h
      | inr (inr inner) ↦ absurd (not_Internal q e inner)
    ]

    scan_cell-CellOk : (q : ℕ) (f : Flood) → In u q → ¬ In f.deg1_mask q → Counts f → CellOk q f
    unfolding scan_cell
    scan_cell-CellOk q f i fresh c = elim (Bool-cases (count_bits (nbrs q) == 0)) [
      | inl isolated ↦
          let (r, inside, edge) = has_neighbour g b last u n m p path w q i in
          absurd
            (count_zero (nbrs q) (nbrs-IsWord q) (==→≡ _ 0 isolated) r (In-nbrs q r inside edge))
      | inr some_left ↦ elim (Bool-cases (count_bits (nbrs q) == 1)) [
        | inr many ↦ record {
          out = record f { next = union f.next (nbrs q) };
          returns = rw (some_left, many);
          next_eq = refl;
          deg1 = inl refl;
          counts = c;
        }
        | inl lone ↦
            let up = counts_up f.deg1_mask q (is_end q i (==→≡ _ 1 lone)) fresh in
            let few : ltb 2 (f.deg1_count + 1) ≡ false = few_ends f.deg1_mask q f.deg1_count up c in
            record {
              out = record {
                deg1_mask = visit f.deg1_mask q;
                deg1_count = f.deg1_count + 1;
                next = union f.next (nbrs q);
              };
              returns = rw (some_left, lone, few);
              next_eq = refl;
              deg1 = inr refl;
              counts = omega arith;
            }
      ]
    ]

    -- What a round over the cells `us` leaves.
    pub record ScanOk (us : List ℕ) (f : Flood) : Type 0 where
      pub out : Flood
      pub returns : scan g u us f ≡ done out
      pub counts : Counts out
      pub only : (q : ℕ) → In out.next q → In f.next q ⊎ In u q
      pub keeps : (q : ℕ) → In f.next q → In out.next q
      pub adds : (x y : ℕ) → x ∈ us → In u y → Adjacent g x y → In out.next y
      pub word : IsWord out.next
      pub marked : (q : ℕ) → q < 64 → In out.deg1_mask q → In f.deg1_mask q ⊎ (q ∈ us)

    -- `next` and the marks after one cell.
    cell_next :
        (q : ℕ) (f : Flood) (k : CellOk q f) (y : ℕ)
        → y < 64
        → is_visited k.out.next y ≡ (is_visited f.next y || is_visited (nbrs q) y)
    cell_next q f k y hy = rw k.next_eq (is_visited-union f.next (nbrs q) y hy)

    cell_marks :
        (q : ℕ) (f : Flood) (k : CellOk q f) (y : ℕ)
        → q < 64
        → y < 64
        → In k.out.deg1_mask y
        → In f.deg1_mask y ⊎ (y ≡ q)
    cell_marks q f k y hq hy i = elim k.deg1 [
      | inl e ↦ inl (rw e at i)
      | inr e ↦
          let v = sym (is_visited-visit f.deg1_mask q y hq hy) ∙ (rw e at i).1 in
          elim (||-true (q == y) (is_visited f.deg1_mask y) v) [
            | inl same ↦ inr (sym (==→≡ q y same))
            | inr old ↦ inl (hy, old)
          ]
    ]

    pub scan-ScanOk :
        (us : List ℕ) (lo : ℕ) (f : Flood)
        → AscendsFrom lo us
        → ((q : ℕ) → q ∈ us → In u q × ¬ In f.deg1_mask q)
        → Counts f
        → IsWord f.next
        → ScanOk us f
    unfolding scan
    scan-ScanOk [] lo f up inside c wn = record {
      out = f;
      returns = refl;
      counts = c;
      only = λ q i. inl i;
      keeps = λ q i. i;
      adds = λ x y nowhere. absurd nowhere;
      word = wn;
      marked = λ q hq i. inl i;
    }
    scan-ScanOk (x ∷ xs) lo f up inside c wn =
        let here = inside x (inl refl) in
        let k = scan_cell-CellOk x f here.0 here.1 c in
        let rest =
          scan-ScanOk xs (suc x) k.out up.1
            (λ q later. (
              (inside q (inr later)).0,
              λ i. elim (cell_marks x f k q here.0.0 i.0 i) [
                | inl old ↦ (inside q (inr later)).1 old
                | inr e ↦ beyond (suc x) xs q up.1 later (omega arith)
              ],
            ))
            k.counts (rw k.next_eq (union-IsWord f.next (nbrs x) wn (nbrs-IsWord x))) in
        record {
          out = rest.out;
          returns = rw k.returns rest.returns;
          counts = rest.counts;
          only = λ q i. elim (rest.only q i) [
            | inr e ↦ inr e
            | inl e ↦ elim (||-true _ _ (sym (cell_next x f k q e.0) ∙ e.1)) [
              | inl old ↦ inl (e.0, old)
              | inr new ↦ inr (nbrs-In x q (e.0, new)).0
            ]
          ];
          keeps = λ q i. rest.keeps q (i.0, cell_next x f k q i.0 ∙ ground arith);
          adds = λ a y mem iy edge. elim mem [
            | inl e ↦
                let near = In-nbrs x y iy (rw e at edge) in
                rest.keeps y (iy.0, cell_next x f k y iy.0 ∙ ground arith)
            | inr later ↦ rest.adds a y later iy edge
          ];
          word = rest.word;
          marked = λ q hq i. elim (rest.marked q hq i) [
            | inl e ↦ elim (cell_marks x f k q here.0.0 hq e) [
              | inl old ↦ inl old
              | inr same ↦ inr (inl same)
            ]
            | inr later ↦ inr (inr later)
          ];
        }
