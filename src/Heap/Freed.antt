-- ===== src/Heap/Freed.antt =====
-- About kfree of src/mm/virt/heap.c: the blocks stay in place.
use noxis.Prelude.{
  ℕ, ◌+◌, ◌≡◌, refl, sym, ap, ◌∙◌, inl, inr, arith, Bool, true, false, none, some, none≢some, List,
  [], ◌∷◌,
}
use noxis.Prelude.{bound, ◌==◌, ◌&&◌, Bool-cases}
use mathlib.Core.Path.{subst}
use mathlib.Core.Option.{some-injective}
use noxis.Heap.{Block, header, heap_base, merge_next, merge_prev, free_behind, kfree}
use noxis.Heap.Tiling.{Tiles, Coalesced, tail-Coalesced, IsHeap, recolor, join, apart}

merge_next-Tiles :
    (a : ℕ) (b : Block) (bs : List Block) → Tiles a (b ∷ bs) → Tiles a (merge_next b bs)
unfolding merge_next Tiles
merge_next-Tiles a b [] t = t
merge_next-Tiles a b (c ∷ cs) (t0, t1, t2, (u0, u1, u2, u3)) = elim (Bool-cases c.free) [
  | inl e ↦
      let ends : a + 32 + b.size + 32 + c.size ≡ a + 32 + (b.size + header + c.size) =
        omega arith in
      rw (e) (t0, omega (arith, t1, u1), omega (arith, t2), rw ends at u3)
  | inr e ↦
      let rest : Tiles (a + 32 + b.size) (c ∷ cs) = (u0, u1, u2, u3) in rw (e) (t0, t1, t2, rest)
]

merge_prev-Tiles :
    (a : ℕ) (b : Block) (bs : List Block) → Tiles a (b ∷ bs) → Tiles a (merge_prev b bs)
unfolding merge_prev Tiles
merge_prev-Tiles a b [] t = t
merge_prev-Tiles a b (c ∷ cs) (t0, t1, t2, (u0, u1, u2, u3)) = elim (Bool-cases b.free) [
  | inl e ↦
      let ends : a + 32 + b.size + 32 + c.size ≡ a + 32 + (b.size + header + c.size) =
        omega arith in
      rw (e) (t0, omega (arith, t1, u1), omega (arith, t2), rw ends at u3)
  | inr e ↦
      let rest : Tiles (a + 32 + b.size) (c ∷ cs) = (u0, u1, u2, u3) in rw (e) (t0, t1, t2, rest)
]

-- The steps of the search of kfree.
pub free_here :
    (p : ℕ) (a b : Block) (bs : List Block)
    → (b.addr + header == p) ≡ true
    → free_behind p a (b ∷ bs) ≡ some (merge_prev a (merge_next b bs))
unfolding free_behind
free_here p a b bs e = ground (arith, e)

pub free_later :
    (p : ℕ) (a b : Block) (bs : List Block)
    → (b.addr + header == p) ≡ false
    → free_behind p a (b ∷ bs) ≡ (elim (free_behind p b bs) [ none ↦ none | some r ↦ some (a ∷ r) ])
unfolding free_behind
free_later p a b bs e = ground (arith, e)

no_block : (p : ℕ) (a : Block) → free_behind p a [] ≡ none
unfolding free_behind
no_block p a = refl

free_behind-Tiles :
    (p a : ℕ) (b : Block) (bs r : List Block)
    → Tiles a (b ∷ bs)
    → free_behind p b bs ≡ some r
    → Tiles a r
unfolding Tiles
free_behind-Tiles p a b [] r t e = absurd (none≢some (sym (no_block p b) ∙ e))
free_behind-Tiles p a b (c ∷ cs) r (t0, t1, t2, t3) e = elim (Bool-cases (c.addr + header == p)) [
  | inl f ↦
      let merged =
        merge_prev-Tiles a b (merge_next c cs)
          (t0, t1, t2, merge_next-Tiles (a + 32 + b.size) c cs t3) in
      let same = some-injective _ _ (sym (free_here p b c cs f) ∙ e) in rw same at merged
  | inr f ↦
      let (x, g, i) =
        bound (free_behind p c cs) (λ r. some (b ∷ r)) r (sym (free_later p b c cs f) ∙ e) in
      let same = some-injective _ _ i in
      let t : Tiles a (b ∷ x) = (t0, t1, t2, free_behind-Tiles p (a + 32 + b.size) c cs x t3 g) in
      subst (Tiles a) same t
]

-- A list that starts with a block that is free, or with one that is not.
Starts : Bool → List Block → Type 0
Starts f [] = ⊥
Starts f (b ∷ bs) = b.free ≡ f

pub next_free :
    (b c : Block) (cs : List Block)
    → c.free ≡ true
    → merge_next b (c ∷ cs) ≡ record b { size = b.size + header + c.size; free = true } ∷ cs
unfolding merge_next
next_free b c cs e = ground (arith, e)

pub next_used :
    (b c : Block) (cs : List Block)
    → c.free ≡ false
    → merge_next b (c ∷ cs) ≡ record b { free = true } ∷ c ∷ cs
unfolding merge_next
next_used b c cs e = ground (arith, e)

pub prev_free :
    (a b : Block) (bs : List Block)
    → a.free ≡ true
    → merge_prev a (b ∷ bs) ≡ record a { size = a.size + header + b.size } ∷ bs
unfolding merge_prev
prev_free a b bs e = ground (arith, e)

pub prev_used :
    (a b : Block) (bs : List Block) → a.free ≡ false → merge_prev a (b ∷ bs) ≡ a ∷ b ∷ bs
unfolding merge_prev
prev_used a b bs e = ground (arith, e)

merge_next-Starts : (b : Block) (bs : List Block) → Starts true (merge_next b bs)
unfolding merge_next Starts
merge_next-Starts b [] = refl
merge_next-Starts b (c ∷ cs) = elim (Bool-cases c.free) [
  | inl e ↦ rw (next_free b c cs e) refl
  | inr e ↦ rw (next_used b c cs e) refl
]

merge_next-Coalesced :
    (b : Block) (bs : List Block) → Coalesced (b ∷ bs) → Coalesced (merge_next b bs)
unfolding merge_next Coalesced
merge_next-Coalesced b [] c = tt
merge_next-Coalesced b (x ∷ xs) (c, cs) = elim (Bool-cases x.free) [
  | inl e ↦
      rw (next_free b x xs e)
        (recolor x (record b { size = b.size + header + x.size; free = true }) xs (inl (sym e)) cs)
  | inr e ↦ rw (next_used b x xs e) (e, cs)
]

merge_prev-Coalesced :
    (a : Block) (h : List Block)
    → Starts true h
    → Coalesced h
    → Coalesced (merge_prev a h) × Starts a.free (merge_prev a h)
unfolding Starts
merge_prev-Coalesced a [] v c = absurd v
merge_prev-Coalesced a (b ∷ bs) v c = elim (Bool-cases a.free) [
  | inl e ↦
      rw (prev_free a b bs e)
        (recolor b (record a { size = a.size + header + b.size }) bs (inl (e ∙ sym v)) c, refl)
  | inr e ↦ rw (prev_used a b bs e) (join a b bs (ap (λ z. z && b.free) e) c, refl)
]

join-Starts :
    (a : Block) (f : Bool) (h : List Block)
    → Starts f h
    → (a.free && f) ≡ false
    → Coalesced h
    → Coalesced (a ∷ h)
unfolding Starts
join-Starts a f [] v e c = absurd v
join-Starts a f (b ∷ bs) v e c = join a b bs (ap (λ z. a.free && z) v ∙ e) c

head_status : (a : Block) (h : List Block) → Starts a.free (a ∷ h)
unfolding Starts
head_status a h = refl

free_behind-Coalesced :
    (p : ℕ) (a : Block) (bs r : List Block)
    → Coalesced (a ∷ bs)
    → free_behind p a bs ≡ some r
    → Coalesced r × Starts a.free r
free_behind-Coalesced p a [] r c e = absurd (none≢some (sym (no_block p a) ∙ e))
free_behind-Coalesced p a (b ∷ bs) r c e = elim (Bool-cases (b.addr + header == p)) [
  | inl f ↦
      let same = some-injective _ _ (sym (free_here p a b bs f) ∙ e) in
      subst (λ h. Coalesced h × Starts a.free h) same
        (merge_prev-Coalesced a (merge_next b bs) (merge_next-Starts b bs)
          (merge_next-Coalesced b bs (tail-Coalesced a (b ∷ bs) c)))
  | inr f ↦
      let (x, g, i) =
        bound (free_behind p b bs) (λ r. some (a ∷ r)) r (sym (free_later p a b bs f) ∙ e) in
      let (cx, sx) = free_behind-Coalesced p b bs x (tail-Coalesced a (b ∷ bs) c) g in
      subst (λ h. Coalesced h × Starts a.free h) (some-injective _ _ i)
        (join-Starts a b.free x sx (apart a b bs c) cx, head_status a x)
]

pub kfree_first :
    (p : ℕ) (b : Block) (bs : List Block)
    → (b.addr + header == p) ≡ true
    → kfree p (b ∷ bs) ≡ some (merge_next b bs)
unfolding kfree
kfree_first p b bs e = ground (arith, e)

pub kfree_behind :
    (p : ℕ) (b : Block) (bs : List Block)
    → (b.addr + header == p) ≡ false
    → kfree p (b ∷ bs) ≡ free_behind p b bs
unfolding kfree
kfree_behind p b bs e = ground (arith, e)

kfree_empty : (p : ℕ) → kfree p [] ≡ none
unfolding kfree
kfree_empty p = refl

-- kfree of the pointer of any block, one that is free already too, keeps the heap: the blocks fill it
-- one behind the other, with sizes that are multiples of 16, and no two neighbours are free.
pub kfree-IsHeap : (p : ℕ) (h r : List Block) → IsHeap h → kfree p h ≡ some r → IsHeap r
kfree-IsHeap p [] r v e = absurd (none≢some (sym (kfree_empty p) ∙ e))
kfree-IsHeap p (b ∷ bs) r v e = elim (Bool-cases (b.addr + header == p)) [
  | inl f ↦ subst IsHeap (some-injective _ _ (sym (kfree_first p b bs f) ∙ e)) (record {
    tiles = merge_next-Tiles heap_base b bs v.tiles;
    coalesced = merge_next-Coalesced b bs v.coalesced;
  })
  | inr f ↦
      let g = sym (kfree_behind p b bs f) ∙ e in
      record {
        tiles = free_behind-Tiles p heap_base b bs r v.tiles g;
        coalesced = (free_behind-Coalesced p b bs r v.coalesced g).0;
      }
]
