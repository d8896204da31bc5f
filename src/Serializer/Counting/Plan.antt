-- ===== src/Serializer/Counting/Plan.antt =====
-- Source/WisentSerializer.cpp: the counts of the first traversal are what the encoder needs.
use wisent.Prelude.{
  ok_inj, ℕ, suc, ◌+◌, ◌*◌, ◌^◌, ◌≤◌, ◌<◌, ◌≡◌, refl, ap, List, [], ◌∷◌, arith, length, ok, Bytes,
}
use wisent.Serializer.JsonToWisent.{partial_sum, last}
use wisent.Serializer.Tree.{Forest, expression, depth, advance, expressions}
use wisent.Serializer.Layers.{Layered, advance-Grown, Grown-length}
use wisent.Serializer.Encode.{Planned}
use wisent.Serializer.Counting.{
  counted, counted_forest, present, entry, entry-counted, entry-advance, length-counted,
}

length-partial_sum : (total : ℕ) (xs : List ℕ) → length (partial_sum total xs) ≡ length xs
unfolding partial_sum
length-partial_sum total [] = refl
length-partial_sum total (x ∷ xs) = ap suc (length-partial_sum (total + x) xs)

-- If layer `k` grows by the arguments counted in the next, it ends where the next begins.
sums-Layered :
    (low total x argument_count : ℕ) (xs cs : List ℕ)
    → last (partial_sum total (x ∷ xs)) ≡ ok argument_count
    → low ≤ total + x
    → length cs ≡ suc (length xs)
    → ((k : ℕ) → k ≤ length xs → entry cs k ≡ entry (partial_sum total (x ∷ xs)) k + entry xs k)
    → Layered low argument_count (partial_sum total (x ∷ xs)) cs
unfolding partial_sum last
sums-Layered low total x a xs [] l h same grows = absurd (omega arith)
sums-Layered low total x a [] (c ∷ []) l h same grows =
    let e : total + x ≡ a = ok_inj l in
    (h, omega (arith, grows 0 (omega arith)), omega (arith, grows 0 (omega arith), e))
sums-Layered low total x a [] (c ∷ d ∷ cs) l h same grows = absurd (omega arith)
sums-Layered low total x a (y ∷ ys) (c ∷ cs) l h same grows = (
  h,
  omega (arith, grows 0 (omega arith)),
  sums-Layered c (total + x) y a ys cs l (omega (arith, grows 0 (omega arith))) (omega arith)
      (λ k u. grows (suc k) (omega arith)),
)

-- For a tree that is an expression, the counts of the first traversal are a plan for the second, if the
-- sizes are in range.
pub counted-Planned :
    (head : Bytes) (ts : Forest) (argument_count : ℕ)
    → last (partial_sum 0 (counted (expression head ts) [])) ≡ ok argument_count
    → depth (expression head ts) + 1 < 2 ^ 64
    → argument_count < 2 ^ 32
    → 16 * argument_count + 24 * expressions (expression head ts) < 2 ^ 64
    → Planned
        (expressions (expression head ts))
        argument_count
        (counted (expression head ts) [])
        (expression head ts)
counted-Planned head ts a l few small fits =
    let t = expression head ts in
    let cs = partial_sum 0 (counted t []) in
    record {
      total = l;
      layered =
          sums-Layered 1 0 1 a (present (counted_forest ts [])) (advance t cs) l (omega arith)
            (omega (
              arith,
              Grown-length cs (advance t cs) (advance-Grown t cs),
              length-partial_sum 0 (counted t []),
            ))
            (λ k u. omega (
              arith,
              entry-advance t cs k (omega (arith, length-partial_sum 0 (counted t []))),
              entry-counted t [] (suc k),
            ));
      layers = omega (arith, length-partial_sum 0 (counted t []), length-counted t []);
      expressions = omega arith;
      some_expression = omega arith;
      few = omega (arith, length-partial_sum 0 (counted t []), length-counted t []);
      small = small;
      fits = fits;
    }
