-- ===== src/Helpers/Members.antt =====
-- Source/WisentHelpers.h: writing a whole expression through `makeExpression`.
use wisent.Prelude.{ℕ, suc, ◌<◌, ◌≡◌, some, arith, ok}
use wisent.Helpers.Defs.{Root, store_expression}
use wisent.Helpers.Access.{
  IsSized, put, put-IsSized, member_index, member_of, store-member, member_of-put,
}
use wisent.Helpers.Frame.{Frame, Nothing, Frame-trans, put_member-Frame}

module _ {root : Root} (is : IsSized root) (i a b c : ℕ) (known : i < root.expression_count) where
  root1 : Root
  root1 = put root (member_index root i 0) a

  root2 : Root
  unfolding root1
  root2 = put root1 (member_index root i 1) b

  -- The root with expression `i` written.
  unfoldable pub expressed : Root
  unfolding root2
  expressed = put root2 (member_index root i 2) c

  sized1 : IsSized root1
  unfolding root1
  sized1 = put-IsSized is _ a

  sized2 : IsSized root2
  unfolding root2
  sized2 = put-IsSized sized1 _ b

  pub store_expression-expressed :
      store_expression root i
        (record { symbol_name_offset = a; start_child_offset = b; end_child_offset = c })
      ≡ ok expressed
  unfolding store_expression expressed
  store_expression-expressed =
      rw (store-member is i 0 a known (omega arith), store-member sized1 i 1 b known (omega arith))
        (store-member sized2 i 2 c known (omega arith))

  pub expressed-Frame : Frame root expressed Nothing Nothing i (suc i)
  unfolding expressed
  expressed-Frame =
      Frame-trans (put_member-Frame is i 0 a known (omega arith))
        (Frame-trans {lo = i} {hi = suc i} (put_member-Frame sized1 i 1 b known (omega arith))
          (put_member-Frame sized2 i 2 c known (omega arith)) (λ j e. e, λ j e. e)
          (λ j e. e, λ j e. e) (omega arith))
        (λ j e. e, λ j e. e) (λ j e. e, λ j e. e) (omega arith)

  pub member_of-expressed :
      (member_of expressed i 0 ≡ some a)
      × (member_of expressed i 1 ≡ some b)
      × (member_of expressed i 2 ≡ some c)
  unfolding expressed
  member_of-expressed = (
    ground (
      arith,
      member_of-put sized2 i 2 i 0 c,
      member_of-put sized1 i 1 i 0 b,
      member_of-put is i 0 i 0 a,
    ),
    ground (arith, member_of-put sized2 i 2 i 1 c, member_of-put sized1 i 1 i 1 b),
    ground (arith, member_of-put sized2 i 2 i 2 c),
  )
