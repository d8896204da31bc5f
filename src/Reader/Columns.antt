-- ===== src/Reader/Columns.antt =====
-- The iterator of Benchmarks/WisentBenchmarks.cpp, over the cells of a block.
use wisent.Prelude.{
  ok_inj, ℕ, zero, suc, ◌+◌, ◌-◌, ◌%◌, ◌^◌, bit_and, ◌≤◌, ◌<◌, ◌≡◌, refl, ◌∙◌, sym, ap, Bool, true,
  false, List, [], ◌∷◌, Result, ok, out_of_bounds, or_fail, some, ◌>>=◌, >>=-eq-ok, bind_assoc,
  if◌then◌else◌, ◌==◌, ltb, length, arith, Bool-cases, inl, inr,
}
use wisent.Helpers.{Root, rle_bit, type_at, load_word}
use wisent.Helpers.Access.{IsSized, type_of, load-type}
use wisent.Helpers.Cells.{CellsAt}
use wisent.Reader.{
  Iterator, type_mask, update_valid_index_end, make_iterator, increment, valid_from,
}
use wisent.Serializer.Tree.{Forest, size, child_cells}
use wisent.Serializer.Stored.{length-child_cells}
use wisent.Reader.Cells.{refresh, next_cell, valid_cells}
use wisent.Reader.Types.{types_are, rle_cells-Valid}

-- The iterator over the cells of a block does what it does over their list.
module _ {root : Root} (is : IsSized root) (expected : ℕ) where
  loads :
      (i x : ℕ)
      → i < root.argument_count
      → type_of root i ≡ some x
      → load_word root (type_at root i) ≡ ok x
  loads i x inside at = load-type is i inside ∙ ap (λ w. or_fail w out_of_bounds) at

  abbrev at_end : (i end : ℕ) → Iterator
  at_end i end = record { index = i; valid_index_end = end }

  -- What an update at `i` leaves, where `k'` positions are then valid.
  abbrev Updated : (i k' end' : ℕ) → Result Iterator → Type 0
  Updated i k' end' run = (run ≡ ok (at_end i end')) × (end' - i ≡ k')

  refresh_known : (k x k' : ℕ) (xs : List ℕ) → 1 ≤ k → refresh expected k x xs ≡ ok k' → k ≡ k'
  unfolding refresh
  refresh_known zero x k' xs some_known h = absurd (omega arith)
  refresh_known (suc k) x k' xs some_known h = ok_inj h

  updates_unknown :
      (i end x k' : ℕ) (xs : List ℕ)
      → CellsAt root i (x ∷ xs)
      → i + length (x ∷ xs) ≤ root.argument_count
      → end ≤ i
      → refresh expected 0 x xs ≡ ok k'
      → (end' : ℕ) × Updated i k' end' (update_valid_index_end root expected (at_end i end))
  unfolding update_valid_index_end refresh
  updates_unknown i end x k' xs (at, rest) inside over h =
      let unknown : ltb i end ≡ false = ground (arith, over) in
      let loaded : load_word root (type_at root i) ≡ ok x = loads i x (omega (arith, inside)) at in
      let (end', u) =
        choose (bit_and x rle_bit == 0) (x == expected) (bit_and x type_mask == expected) xs rest
          inside h in
      (end', (rw (unknown, loaded) u.0, u.1))
    where
      choose :
          (plain same flagged : Bool) (xs : List ℕ)
          → CellsAt root (suc i) xs
          → i + suc (length xs) ≤ root.argument_count
          → (if plain
              then ok (if same then 1 else 0)
              else if flagged
              then (do n ← next_cell xs; ok (n % 2 ^ 32))
              else ok 0)
            ≡ ok k'
          → (end' : ℕ) × Updated i k' end' (
              if plain
              then ok (if same then at_end i (suc i) else at_end i end)
              else if flagged
              then (do n ← load_word root (type_at root (i + 1)); ok (at_end i (i + n % 2 ^ 32)))
              else ok (at_end i end))
      choose true true flagged xs rest inside h =
          let k = ok_inj h in (suc i, (refl, omega (arith, k)))
      choose true false flagged xs rest inside h =
          let k = ok_inj h in (end, (refl, omega (arith, k, over)))
      choose false same true [] rest inside h = cc
      choose false same true (y ∷ ys) (next, rest) inside h =
          let k = ok_inj h in
          let loaded : load_word root (type_at root (i + 1)) ≡ ok y =
            loads (i + 1) y (omega (arith, inside))
              (ap (type_of root) (let e : i + 1 ≡ suc i = omega arith in e) ∙ next) in
          (i + y % 2 ^ 32, (rw loaded refl, omega (arith, k)))
      choose false same false xs rest inside h =
          let k = ok_inj h in (end, (refl, omega (arith, k, over)))

  updates :
      (i end x k' : ℕ) (xs : List ℕ)
      → CellsAt root i (x ∷ xs)
      → i + length (x ∷ xs) ≤ root.argument_count
      → refresh expected (end - i) x xs ≡ ok k'
      → (end' : ℕ) × Updated i k' end' (update_valid_index_end root expected (at_end i end))
  unfolding update_valid_index_end
  updates i end x k' xs at inside h = elim (Bool-cases (ltb i end)) [
    | inl known ↦
        let more : 1 ≤ end - i = ground (arith, known) in
        (end, (known_updated known, refresh_known (end - i) x k' xs more h))
    | inr unknown ↦
        let none_left : end - i ≡ 0 = ground (arith, unknown) in
        updates_unknown i end x k' xs at inside (ground (arith, unknown))
          (ap (λ k. refresh expected k x xs) (sym none_left) ∙ h)
  ]
    where
      known_updated :
          ltb i end ≡ true → update_valid_index_end root expected (at_end i end) ≡ ok (at_end i end)
      known_updated known = rw known refl

  positive_left : (i end k : ℕ) → end - i ≡ k → ltb i end ≡ ltb 0 k
  positive_left i end k left = ground (arith, left)

  -- One position, given the next ones.
  more :
      (i end k n : ℕ) (rest flags : List Bool)
      → ltb i end ≡ ltb 0 k
      → (update_valid_index_end root expected (at_end (suc i) end) >>= λ it.
          valid_from root expected it (suc n))
        ≡ ok rest
      → ok (ltb 0 k ∷ rest) ≡ ok flags
      → valid_from root expected (at_end i end) (suc (suc n)) ≡ ok flags
  unfolding valid_from increment
  more i end k n rest flags here next h =
      ap
        (λ b. increment root expected (at_end i end) >>= λ it.
          valid_from root expected it (suc n) >>= λ rest. ok (b ∷ rest))
        here
      ∙ (sym (
            bind_assoc (increment root expected (at_end i end))
              (λ it. valid_from root expected it (suc n)) (λ rest. ok (ltb 0 k ∷ rest)))
          ∙ (ap (λ m. m >>= λ rest. ok (ltb 0 k ∷ rest)) next ∙ h))

  iterates :
      (i end x : ℕ) (xs : List ℕ) (flags : List Bool)
      → CellsAt root i (x ∷ xs)
      → i + length (x ∷ xs) ≤ root.argument_count
      → valid_cells expected (end - i) (x ∷ xs) ≡ ok flags
      → (update_valid_index_end root expected (at_end i end) >>= λ it.
          valid_from root expected it (suc (length xs)))
        ≡ ok flags
  unfolding valid_cells valid_from increment
  iterates i end x [] flags at inside h =
      let (k', e, h1) = >>=-eq-ok (refresh expected (end - i) x []) _ h in
      let (end', u) = updates i end x k' [] at inside e in
      let here : ltb i end' ≡ ltb 0 k' = positive_left i end' k' u.1 in rw u.0 (rw here h1)
  iterates i end x (y ∷ ys) flags at inside h =
      let (k', e, h1) = >>=-eq-ok (refresh expected (end - i) x (y ∷ ys)) _ h in
      let (rest, e2, h2) = >>=-eq-ok (valid_cells expected (k' - 1) (y ∷ ys)) _ h1 in
      let (end', u) = updates i end x k' (y ∷ ys) at inside e in
      let here : ltb i end' ≡ ltb 0 k' = positive_left i end' k' u.1 in
      let further : end' - suc i ≡ k' - 1 = omega (arith, u.1) in
      let next =
        iterates (suc i) end' y ys rest at.1 (omega (arith, inside))
          (ap (λ k. valid_cells expected k (y ∷ ys)) further ∙ e2) in
      rw u.0 (more i end' k' (length ys) rest flags here next h2)

  starts :
      (c n : ℕ) (cells : List ℕ) (flags : List Bool)
      → length cells ≡ n
      → 1 ≤ n
      → CellsAt root c cells
      → c + n ≤ root.argument_count
      → valid_cells expected 0 cells ≡ ok flags
      → (make_iterator root expected c >>= λ it. valid_from root expected it n) ≡ ok flags
  unfolding make_iterator
  starts c n [] flags size some_cell at inside h = absurd (omega arith)
  starts c n (x ∷ xs) flags size some_cell at inside h =
      let begun : c - c ≡ 0 = omega arith in
      rw (sym size) (
        iterates c c x xs flags at (omega (arith, size, inside))
          (ap (λ k. valid_cells expected k (x ∷ xs)) begun ∙ h))

-- For an expression with 1 to 128 arguments, whose cells the encoder has written: the iterator over the
-- arguments of a type (integers, doubles or strings) is valid at the arguments of that type, and at no
-- others, whether the cells are run-length encoded or not.
pub valid_from-types_are :
    {root : Root} (d : Bool) (c expected : ℕ) (ts : Forest)
    → IsSized root
    → CellsAt root c (child_cells d ts)
    → c + size ts ≤ root.argument_count
    → 1 ≤ size ts
    → size ts < 129
    → 1 ≤ expected
    → expected < 5
    → (make_iterator root expected c >>= λ it. valid_from root expected it (size ts))
      ≡ ok (types_are expected ts)
unfolding child_cells
valid_from-types_are {root} d c expected ts is at inside some_argument few some_type type =
    starts is expected c (size ts) (child_cells d ts) (types_are expected ts)
      (length-child_cells d ts) some_argument at inside
      (rle_cells-Valid expected some_type type d 0 0 ts (omega arith) (omega (arith, few))
        (λ e. refl))
