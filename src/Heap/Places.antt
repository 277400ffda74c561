-- ===== src/Heap/Places.antt =====
-- About kmalloc of src/mm/virt/heap.c: where the blocks in use lie.
use noxis.Prelude.{
  ℕ, ◌+◌, ◌≤◌, ◌≡◌, refl, sym, ap, ◌∙◌, ◌⊎◌, inl, inr, arith, false, Option, some, List, [], ◌∷◌,
  none≢some,
}
use noxis.Prelude.{ltb, ◌||◌, not, Bool-cases}
use mathlib.Core.Option.{some-injective}
use mathlib.Core.Bool.{true≢false}
use noxis.Heap.{Block, header, heap_base, heap_size, splits, take_block, alloc_in}
use noxis.Heap.Tiling.{Tiles, Tiles-le, passed_over, hit, hit_free}

-- A block in use begins in front of p and has n bytes or more.
unfoldable pub Used : ℕ → ℕ → List Block → Type 0
Used p n [] = ⊥
Used p n (b ∷ bs) = (b.free ≡ false) × (p ≡ b.addr + header) × (n ≤ b.size) ⊎ Used p n bs

pub Used-le :
    (p n a : ℕ) (h : List Block)
    → Tiles a h
    → Used p n h
    → (a + 32 ≤ p) × (p + n ≤ heap_base + heap_size)
unfolding Used Tiles
Used-le p n a [] t u = absurd u
Used-le p n a (b ∷ bs) (t0, t1, t2, t3) (inl (f, e, l)) =
    (omega (arith, t0, e), omega (arith, t0, e, l, Tiles-le (a + 32 + b.size) bs t3))
Used-le p n a (b ∷ bs) (t0, t1, t2, t3) (inr u) =
    let (low, top) = Used-le p n (a + 32 + b.size) bs t3 u in (omega (arith, low), top)

take_block-Used :
    (want p n : ℕ) (b : Block) (bs : List Block) → Used p n bs → Used p n (take_block want b bs)
unfolding Used take_block
take_block-Used want p n b bs u = elim (Bool-cases (splits want b)) [
  | inl e ↦ rw (e, take_block) (inr (inr u))
  | inr e ↦ rw (e, take_block) (inr u)
]

take_block-here :
    (want : ℕ) (b : Block) (bs : List Block)
    → want ≤ b.size
    → Used (b.addr + header) want (take_block want b bs)
unfolding Used take_block
take_block-here want b bs l = elim (Bool-cases (splits want b)) [
  | inl e ↦ rw (e, take_block) (inl (refl, refl, omega arith))
  | inr e ↦ rw (e, take_block) (inl (refl, refl, l))
]

-- What kmalloc does to the blocks in use: it keeps them, and takes a place apart from them.
pub record Taken (want q : ℕ) (h r : List Block) : Type 0 where
  pub here : Used q want r
  pub kept : (p n : ℕ) → Used p n h → Used p n r
  pub apart : (p n : ℕ) → Used p n h → (p + n ≤ q) ⊎ (q + want ≤ p)

pub alloc_in-Taken :
    (want q a : ℕ) (h r : List Block)
    → Tiles a h
    → alloc_in want h ≡ (some q, r)
    → (a + 32 ≤ q) × Taken want q h r
unfolding Used Tiles alloc_in
alloc_in-Taken want q a [] r t e = absurd (none≢some (ap (λ x. x.0) e))
alloc_in-Taken want q a (b ∷ bs) r (t0, t1, t2, t3) e =
    elim (Bool-cases (not b.free || ltb b.size want)) [
      | inl o ↦
          let e' = sym (passed_over want b bs o) ∙ e in
          let found : (alloc_in want bs).0 ≡ some q = ap (λ x. x.0) e' in
          let left : b ∷ (alloc_in want bs).1 ≡ r = ap (λ x. x.1) e' in
          let (low, k) =
            alloc_in-Taken want q (a + 32 + b.size) bs (alloc_in want bs).1 t3
              (ap (λ (x : Option ℕ). (x, (alloc_in want bs).1)) found) in
          (
            omega (arith, low),
            rw (sym left) (record {
              here = inr k.here;
              kept = λ p n u. elim u [ inl v ↦ inl v | inr v ↦ inr (k.kept p n v) ];
              apart = λ p n u. elim u [
                | inl (f, at_b, l) ↦ inl (omega (arith, t0, at_b, l, low))
                | inr v ↦ k.apart p n v
              ];
            }),
          )
      | inr o ↦
          let e' = sym (hit want b bs o) ∙ e in
          let at_q : b.addr + header ≡ q = some-injective _ _ (ap (λ x. x.0) e') in
          let left : take_block want b bs ≡ r = ap (λ x. x.1) e' in
          let (is_free, l) = hit_free want b o in
          (
            omega (arith, t0, at_q),
            rw (sym left, sym at_q)
                (record {
                  here = take_block-here want b bs l;
                  kept = λ p n u. elim u [
                    | inl (f, at_b, m) ↦ absurd (true≢false (sym is_free ∙ f))
                    | inr v ↦ take_block-Used want p n b bs v
                  ];
                  apart = λ p n u. elim u [
                    | inl (f, at_b, m) ↦ absurd (true≢false (sym is_free ∙ f))
                    | inr v ↦ inr (omega (arith, t0, l, (Used-le p n (a + 32 + b.size) bs t3 v).0))
                  ];
                }),
          )
    ]
