-- ===== src/Heap/Returned.antt =====
-- About kfree of what kmalloc returned, in src/mm/virt/heap.c.
use noxis.Prelude.{
  ℕ, zero, suc, ◌+◌, ◌-◌, ◌≤◌, ◌≡◌, ◌≢◌, refl, sym, ap, ◌∙◌, inl, inr, arith, Bool, true, false,
  none, some, none≢some, List, [], ◌∷◌,
}
use noxis.Prelude.{ltb, ◌==◌, ◌&&◌, ◌||◌, not, ==-self, ==-ne, Bool-cases}
use mathlib.Core.Path.{subst, ap₂}
use mathlib.Core.Option.{some-injective}
use noxis.Heap.{
  Block, header, heap_base, align16, splits, take_block, alloc_in, kmalloc, merge_next, merge_prev,
  free_behind, kfree,
}
use noxis.Heap.Tiling.{
  Tiles, Coalesced, tail-Coalesced, IsHeap, passed_over, hit, hit_free, splits-le, apart,
}
use noxis.Heap.Kept.{kmalloc_align, kmalloc_null}
use noxis.Heap.Freed.{
  next_free, next_used, prev_used, free_here, free_later, kfree_first, kfree_behind,
}

-- What became of a block that was taken, and how it is put together again.
record Undone (b : Block) (bs r : List Block) : Type 0 where
  head : Block
  rest : List Block
  is_list : head ∷ rest ≡ r
  same_addr : head.addr ≡ b.addr
  merged : merge_next head rest ≡ b ∷ bs

whole :
    (b : Block) (bs : List Block)
    → b.free ≡ true
    → Coalesced (b ∷ bs)
    → merge_next (record b { free = false }) bs ≡ b ∷ bs
unfolding merge_next
whole b [] f c = ap (λ z. record b { free = z } ∷ []) (sym f)
whole b (x ∷ xs) f c =
    let used : x.free ≡ false = ap (λ z. z && x.free) (sym f) ∙ apart b x xs c in
    next_used (record b { free = false }) x xs used
    ∙ ap (λ z. record b { free = z } ∷ x ∷ xs) (sym f)

take_block-Undone :
    (want a : ℕ) (b : Block) (bs : List Block)
    → b.free ≡ true
    → want ≤ b.size
    → Tiles a (b ∷ bs)
    → Coalesced (b ∷ bs)
    → Undone b bs (take_block want b bs)
unfolding take_block
take_block-Undone want a b bs f l t c =
    let taken : Block = record b { size = want; free = false } in
    let left : Block = record {
      addr = b.addr + header + want;
      size = b.size - want - header;
      free = true;
    } in
    elim (Bool-cases (splits want b)) [
      | inl e ↦
          let room = splits-le want a b bs t l e in
          let sum : want + header + (b.size - want - header) ≡ b.size = omega (arith, room) in
          record {
            head = taken;
            rest = left ∷ bs;
            is_list = rw (e) refl;
            same_addr = refl;
            merged =
                next_free taken left bs refl
                ∙ ap₂ (λ n z. record b { size = n; free = z } ∷ bs) sum (sym f);
          }
      | inr e ↦ record {
        head = record b { free = false };
        rest = bs;
        is_list = rw (e) refl;
        same_addr = refl;
        merged = whole b bs f c;
      }
    ]

-- The pointer lies behind a header, at or above the start.
alloc_in-above :
    (want a p : ℕ) (bs r : List Block) → Tiles a bs → alloc_in want bs ≡ (some p, r) → a + 32 ≤ p
unfolding alloc_in Tiles
alloc_in-above want a p [] r t e = absurd (none≢some (ap (λ x. x.0) e))
alloc_in-above want a p (b ∷ bs) r (t0, t1, t2, t3) e =
    elim (Bool-cases (not b.free || ltb b.size want)) [
      | inl f ↦
          let g = sym (passed_over want b bs f) ∙ e in
          let up =
            alloc_in-above want (a + 32 + b.size) p bs (alloc_in want bs).1 t3
              (ap (λ o. (o, (alloc_in want bs).1)) (ap (λ x. x.0) g)) in
          omega (arith, up)
      | inr f ↦
          let q = some-injective _ _ (ap (λ x. x.0) (sym (hit want b bs f) ∙ e)) in
          omega (arith, q, t0)
    ]

and_left : (x y : Bool) → (x && y) ≡ false → y ≡ true → x ≡ false
and_left true y e f = sym f ∙ e
and_left false y e f = refl

found_at : (a b : ℕ) → a ≡ b → (a + header == b + header) ≡ true
found_at a b e = ap (λ z. a + header == z + header) (sym e) ∙ ==-self (a + header)

alloc_in_pair :
    (want p : ℕ) (bs : List Block)
    → (alloc_in want bs).0 ≡ some p
    → alloc_in want bs ≡ (some p, (alloc_in want bs).1)
alloc_in_pair want p bs e = ap (λ o. (o, (alloc_in want bs).1)) e

undo_behind :
    (a b : Block) (bs r : List Block)
    → b.free ≡ true
    → Coalesced (a ∷ b ∷ bs)
    → Undone b bs r
    → free_behind (b.addr + header) a r ≡ some (a ∷ b ∷ bs)
undo_behind a b bs r f c u =
    subst (λ h. free_behind (b.addr + header) a h ≡ some (a ∷ b ∷ bs)) u.is_list
      (free_here (b.addr + header) a u.head u.rest (found_at u.head.addr b.addr u.same_addr)
        ∙ ap (λ m. some (merge_prev a m)) u.merged
        ∙ ap some (prev_used a b bs (and_left a.free b.free (apart a b bs c) f)))

undo_first :
    (b : Block) (bs r : List Block) → Undone b bs r → kfree (b.addr + header) r ≡ some (b ∷ bs)
undo_first b bs r u =
    subst (λ h. kfree (b.addr + header) h ≡ some (b ∷ bs)) u.is_list
      (kfree_first (b.addr + header) u.head u.rest (found_at u.head.addr b.addr u.same_addr)
        ∙ ap some u.merged)

free_behind-alloc_in :
    (want lo p : ℕ) (a : Block) (bs r : List Block)
    → Tiles lo (a ∷ bs)
    → Coalesced (a ∷ bs)
    → alloc_in want bs ≡ (some p, r)
    → free_behind p a r ≡ some (a ∷ bs)
unfolding alloc_in Tiles
free_behind-alloc_in want lo p a [] r t c e = absurd (none≢some (ap (λ x. x.0) e))
free_behind-alloc_in want lo p a (b ∷ bs) r (t0, t1, t2, t3) c e =
    elim (Bool-cases (not b.free || ltb b.size want)) [
      | inl f ↦
          let g = sym (passed_over want b bs f) ∙ e in
          let tail = alloc_in_pair want p bs (ap (λ x. x.0) g) in
          let above =
            alloc_in-above want (lo + 32 + a.size + 32 + b.size) p bs (alloc_in want bs).1 (t3.3)
              tail in
          let ne : b.addr + header ≢ p = λ z. absurd (omega (arith, z, above, t3.0)) in
          subst (λ h. free_behind p a h ≡ some (a ∷ b ∷ bs)) (ap (λ x. x.1) g)
            (free_later p a b (alloc_in want bs).1 (==-ne (b.addr + header) p ne)
              ∙ ap (λ o. elim o [ none ↦ none | some q ↦ some (a ∷ q) ])
                  (free_behind-alloc_in want (lo + 32 + a.size) p b bs (alloc_in want bs).1 t3
                    (tail-Coalesced a (b ∷ bs) c) tail))
      | inr f ↦
          let g = sym (hit want b bs f) ∙ e in
          let q = some-injective _ _ (ap (λ x. x.0) g) in
          let (free, large) = hit_free want b f in
          let undone =
            take_block-Undone want (lo + 32 + a.size) b bs free large t3
              (tail-Coalesced a (b ∷ bs) c) in
          subst (λ h. free_behind p a h ≡ some (a ∷ b ∷ bs)) (ap (λ x. x.1) g)
            (ap (λ z. free_behind z a (take_block want b bs)) (sym q)
              ∙ undo_behind a b bs (take_block want b bs) free c undone)
    ]

kfree-alloc_in :
    (want p : ℕ) (h r : List Block) → IsHeap h → alloc_in want h ≡ (some p, r) → kfree p r ≡ some h
unfolding alloc_in Tiles
kfree-alloc_in want p [] r v e = absurd (none≢some (ap (λ x. x.0) e))
kfree-alloc_in want p (b ∷ bs) r v e = elim (Bool-cases (not b.free || ltb b.size want)) [
  | inl f ↦
      let g = sym (passed_over want b bs f) ∙ e in
      let tail = alloc_in_pair want p bs (ap (λ x. x.0) g) in
      let above =
        alloc_in-above want (heap_base + 32 + b.size) p bs (alloc_in want bs).1 v.tiles.3 tail in
      let ne : b.addr + header ≢ p = λ z. absurd (omega (arith, z, above, v.tiles.0)) in
      subst (λ h. kfree p h ≡ some (b ∷ bs)) (ap (λ x. x.1) g)
        (kfree_behind p b (alloc_in want bs).1 (==-ne (b.addr + header) p ne)
          ∙ free_behind-alloc_in want heap_base p b bs (alloc_in want bs).1 v.tiles v.coalesced
              tail)
  | inr f ↦
      let g = sym (hit want b bs f) ∙ e in
      let q = some-injective _ _ (ap (λ x. x.0) g) in
      let (free, large) = hit_free want b f in
      let undone = take_block-Undone want heap_base b bs free large v.tiles v.coalesced in
      subst (λ h. kfree p h ≡ some (b ∷ bs)) (ap (λ x. x.1) g)
        (ap (λ z. kfree z (take_block want b bs)) (sym q)
          ∙ undo_first b bs (take_block want b bs) undone)
]

-- On a heap whose blocks lie one behind the other and whose free blocks are not neighbours, kfree of
-- the pointer that kmalloc returned gives back exactly the heap from before the call, whether the block
-- was split or not.
pub kfree-kmalloc :
    (want p : ℕ) (h r : List Block) → IsHeap h → kmalloc want h ≡ (some p, r) → kfree p r ≡ some h
kfree-kmalloc zero p h r v e = absurd (none≢some (ap (λ x. x.0) (sym (kmalloc_null h) ∙ e)))
kfree-kmalloc (suc want) p h r v e =
    kfree-alloc_in (align16 (suc want)) p h r v (sym (kmalloc_align (suc want) h (omega arith)) ∙ e)
