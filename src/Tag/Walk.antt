-- ===== src/Tag/Walk.antt =====
-- The walk over the tag index of src/tag.c: its loop with an explicit stack against a recursion.
use cik.Prelude.{
  ℕ, suc, ◌+◌, ◌-◌, ◌<◌, ◌≡◌, inl, inr, refl, ap, Option, none, some, List, [], ◌∷◌, ◌++◌,
  if◌then◌else◌, arith, Option-cases,
}
use cik.Tag.{
  walk_all_tags, TagNode, null, node, M, crash, pure, ◌>>=◌, ◌>>◌, reserve, release, descend, visit,
  right_of, walk_loop, is_empty,
}
use cik.Bytes.{Bytes}
use cik.Memory.{Memory, reserve_memory, release_memory}

unfoldable pub num_nodes : TagNode → ℕ
num_nodes null = 0
num_nodes (node a t keys n left right) = num_nodes left + suc (num_nodes right)

-- The tags with keys, left to right.
unfoldable pub tags_in_order : TagNode → List Bytes
tags_in_order null = []
tags_in_order (node a t keys n left right) =
    tags_in_order left ++ (if is_empty keys then tags_in_order right else t ∷ tags_in_order right)

module _ {S : Type 0} (callback : Bytes → S → Option S) where
  -- The walk by recursion: a node's stack element is there while its left side is walked.
  unfoldable pub walk_in_order : TagNode → S → M S
  walk_in_order null s = pure s
  walk_in_order (node a t keys n left right) s = do
    found ← reserve 16
    elim found [
      | none ↦ crash
      | some address ↦ do
        s₁ ← walk_in_order left s
        release address
        elim (if is_empty keys then some s₁ else callback t s₁) [
          | none ↦ crash
          | some s₂ ↦ walk_in_order right s₂
        ]
    ]

  from_descent : ℕ → TagNode → List (ℕ × TagNode) → S → M S
  from_descent fuel tree stack s = do stack' ← descend tree stack; walk_loop callback fuel stack' s

  from_descent-in_order :
      (tree : TagNode) (total fuel : ℕ) (stack : List (ℕ × TagNode)) (s : S) (m : Memory)
      → total ≡ num_nodes tree + fuel
      → from_descent total tree stack s m
        ≡ (walk_in_order tree s >>= λ s'. walk_loop callback fuel stack s') m
  unfolding from_descent descend walk_loop walk_in_order num_nodes visit right_of
  from_descent-in_order null total fuel stack s m h =
      ap (λ k. walk_loop callback k stack s m) (omega (arith, h))
  from_descent-in_order (node a t keys n left right) total fuel stack s m h =
      let after = suc (num_nodes right + fuel) in
      let enough : total ≡ num_nodes left + after = omega (arith, h) in
      elim (Option-cases (reserve_memory 16 m).0) [
        | inl e ↦ ground (arith, e)
        | inr (address, e) ↦
            let m₁ = (reserve_memory 16 m).1 in
            let stack₁ = (address, node a t keys n left right) ∷ stack in
            let down = from_descent-in_order left total after stack₁ s m₁ enough in
            elim (Option-cases (walk_in_order left s m₁)) [
              | inl e₁ ↦ ground (arith, e, e₁, down)
              | inr ((s₁, m₂), e₁) ↦ elim (Option-cases (release_memory address m₂)) [
                | inl e₂ ↦ ground (arith, e, e₁, e₂, down)
                | inr (m₃, e₂) ↦
                    elim (Option-cases (if is_empty keys then some s₁ else callback t s₁)) [
                      | inl e₃ ↦ ground (arith, e, e₁, e₂, e₃, down)
                      | inr (s₂, e₃) ↦
                          let on =
                            from_descent-in_order right (num_nodes right + fuel) fuel stack s₂ m₃
                              refl in
                          ground (arith, e, e₁, e₂, e₃, down, on)
                    ]
              ]
            ]
      ]

  -- With more fuel than nodes, `walk_all_tags` is the walk by recursion: it hands the callback the
  -- same tags in the same order, takes and gives back the same buckets, and ends as the other does.
  pub walk_all_tags-in_order :
      (fuel : ℕ) (tree : TagNode) (s : S) (m : Memory)
      → num_nodes tree < fuel
      → walk_all_tags callback fuel tree s m ≡ walk_in_order tree s m
  unfolding walk_all_tags from_descent walk_loop
  walk_all_tags-in_order fuel tree s m h =
      let rest = fuel - suc (num_nodes tree) in
      let split : fuel ≡ num_nodes tree + suc rest = omega (arith, h) in
      let loop = from_descent-in_order tree fuel (suc rest) [] s m split in
      elim (Option-cases (walk_in_order tree s m)) [
        | inl e ↦ ground (arith, e, loop)
        | inr ((s', m'), e) ↦ ground (arith, e, loop)
      ]

  unfoldable pub fold_tags : List Bytes → S → Option S
  fold_tags [] s = some s
  fold_tags (t ∷ ts) s = elim (callback t s) [ none ↦ none | some s' ↦ fold_tags ts s' ]

  fold-append :
      (ts us : List Bytes) (s s' : S)
      → fold_tags ts s ≡ some s'
      → fold_tags (ts ++ us) s ≡ fold_tags us s'
  unfolding fold_tags
  fold-append [] us s s' h = ground arith
  fold-append (t ∷ ts) us s s' h = elim (Option-cases (callback t s)) [
    | inl e ↦ ground (arith, e)
    | inr (s₁, e) ↦ ground (arith, e, fold-append ts us s₁ s')
  ]

  pub walk_in_order-folds :
      (tree : TagNode) (s s' : S) (m m' : Memory)
      → walk_in_order tree s m ≡ some (s', m')
      → fold_tags (tags_in_order tree) s ≡ some s'
  unfolding walk_in_order tags_in_order fold_tags
  walk_in_order-folds null s s' m m' h = ground arith
  walk_in_order-folds (node a t keys n left right) s s' m m' h =
      elim (Option-cases (reserve_memory 16 m).0) [
        | inl e ↦ ground (arith, e)
        | inr (address, e) ↦
            let m₁ = (reserve_memory 16 m).1 in
            elim (Option-cases (walk_in_order left s m₁)) [
              | inl e₁ ↦ ground (arith, e, e₁)
              | inr ((s₁, m₂), e₁) ↦
                  let before = walk_in_order-folds left s s₁ m₁ m₂ e₁ in
                  let here =
                    fold-append (tags_in_order left)
                      (if is_empty keys then tags_in_order right else t ∷ tags_in_order right) s s₁
                      before in
                  elim (Option-cases (release_memory address m₂)) [
                    | inl e₂ ↦ ground (arith, e, e₁, e₂)
                    | inr (m₃, e₂) ↦
                        elim (Option-cases (if is_empty keys then some s₁ else callback t s₁)) [
                          | inl e₃ ↦ ground (arith, e, e₁, e₂, e₃)
                          | inr (s₂, e₃) ↦
                              let after = walk_in_order-folds right s₂ s' m₃ m' in
                              ground (arith, e, e₁, e₂, e₃, after, here)
                        ]
                  ]
            ]
      ]
