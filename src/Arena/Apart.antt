-- ===== src/Arena/Apart.antt =====
-- About src/mm/arena.c: what arena_alloc hands out is apart from all that was handed out before.
use noxis.Prelude.{
  ℕ, zero, suc, ◌+◌, ◌%◌, ◌^◌, ◌<◌, ◌≤◌, ◌≡◌, refl, ap, ◌∙◌, ◌⊎◌, inl, inr, arith, none, some, List,
  [], ◌∷◌, All,
}
use noxis.Prelude.{update, update_self, update_ne}
use noxis.Heap.{Block, align16, heap_base, heap_size}
use noxis.Heap.Tiling.{IsHeap}
use noxis.Heap.Places.{Used, Used-le, alloc_in-Taken}
use noxis.Arena.{
  Chunk, Arena, large_thresh, data_of, chunk_header, zero_bytes, bump, with_fresh, alloc_fresh,
}
use noxis.Arena.Chunks.{NewChunk, block_new_cases}

-- A chunk lies in a block in use of the heap, and its used part in the chunk.
pub record Fits (h : List Block) (c : Chunk) : Type 0 where
  pub in_use : Used c.place (c.cap + chunk_header) h
  pub used_le : c.used ≤ c.cap

-- Two chunks do not overlap.
abbrev pub Disjoint : Chunk → Chunk → Type 0
Disjoint c d = (data_of c + c.cap ≤ d.place) ⊎ (data_of d + d.cap ≤ c.place)

abbrev pub AllDisjoint : List Chunk → Type 0
AllDisjoint [] = Unit
AllDisjoint (c ∷ cs) = All (Disjoint c) cs × AllDisjoint cs

pub record IsArena (a : Arena) : Type 0 where
  pub good : IsHeap a.heap
  pub fits : All (Fits a.heap) a.blocks
  pub disjoint : AllDisjoint a.blocks

-- n bytes at p are apart from the header of a chunk and from what it handed out.
abbrev pub Clear : ℕ → ℕ → Chunk → Type 0
Clear n p c = (p + n ≤ c.place) ⊎ (data_of c + c.used ≤ p)

-- n bytes at p are in the part of a chunk that is handed out.
abbrev pub Inside : ℕ → ℕ → List Chunk → Type 0
Inside n p [] = ⊥
Inside n p (c ∷ cs) = (data_of c ≤ p) × (p + n ≤ data_of c + c.used) ⊎ Inside n p cs

-- What an allocation of n bytes at p does to an arena.
pub record Allocates (n p : ℕ) (a a' : Arena) : Type 0 where
  pub keeps : IsArena a'
  pub all_clear : All (Clear n p) a.blocks
  pub inside : Inside n p a'.blocks
  pub kept : (m q : ℕ) → Inside m q a.blocks → Inside m q a'.blocks
  pub zeroed : (i : ℕ) → i < n → a'.bytes (p + i) ≡ 0
  pub same : (j : ℕ) → (j < p) ⊎ (p + n ≤ j) → a'.bytes j ≡ a.bytes j

pub zero_bytes_out :
    (n p : ℕ) (m : ℕ → ℕ) (j : ℕ) → (j < p) ⊎ (p + n ≤ j) → zero_bytes n p m j ≡ m j
unfolding zero_bytes
zero_bytes_out zero p m j o = refl
zero_bytes_out (suc n) p m j o =
    zero_bytes_out n (p + 1) (update m p 0) j
      (elim o [ inl l ↦ inl (omega (arith, l)) | inr l ↦ inr (omega (arith, l)) ])
    ∙ update_ne m p j 0 (omega (arith, o))

pub zero_bytes_in : (n p i : ℕ) (m : ℕ → ℕ) → i < n → zero_bytes n p m (p + i) ≡ 0
unfolding zero_bytes
zero_bytes_in zero p i m l = absurd (omega (arith, l))
zero_bytes_in (suc n) p zero m l =
    let here : p + 0 ≡ p = omega arith in
    zero_bytes_out n (p + 1) (update m p 0) (p + 0) (inl (omega arith))
    ∙ ap (update m p 0) here
    ∙ update_self m p 0
zero_bytes_in (suc n) p (suc i) m l =
    let next : p + suc i ≡ p + 1 + i = omega arith in
    ap (zero_bytes n (p + 1) (update m p 0)) next
    ∙ zero_bytes_in n (p + 1) i (update m p 0) (omega (arith, l))

All-map : {P Q : Chunk → Type 0} (cs : List Chunk) → ((c : Chunk) → P c → Q c) → All P cs → All Q cs
All-map [] f a = tt
All-map (c ∷ cs) f a = (f c a.0, All-map cs f a.1)

pub All-map2 :
    {P Q R : Chunk → Type 0} (cs : List Chunk)
    → ((c : Chunk) → P c × Q c → R c)
    → All P cs
    → All Q cs
    → All R cs
All-map2 [] f a b = tt
All-map2 (c ∷ cs) f a b = (f c (a.0, b.0), All-map2 cs f a.1 b.1)

-- A chunk is at most as large as the heap.
pub cap-lt : (h : List Block) (c : Chunk) → IsHeap h → Fits h c → c.cap < heap_size
cap-lt h c v f = omega (arith, Used-le c.place (c.cap + chunk_header) heap_base h v.tiles f.in_use)

Clear-rest :
    (n : ℕ) (h : List Block) (c : Chunk) (ds : List Chunk)
    → c.used + n ≤ c.cap
    → All (Disjoint c) ds
    → All (Fits h) ds
    → All (Clear n (data_of c + c.used)) ds
Clear-rest n h c [] l d f = tt
Clear-rest n h c (x ∷ xs) l d f = (
  elim d.0 [ inl e ↦ inl (omega (arith, l, e)) | inr e ↦ inr (omega (arith, e, f.0.used_le)) ],
  Clear-rest n h c xs l d.1 f.1,
)

pub bump-Allocates :
    (n : ℕ) (a : Arena) (c : Chunk) (cs : List Chunk)
    → IsArena (record a { blocks = c ∷ cs })
    → c.used + n ≤ c.cap
    → Allocates n (data_of c + c.used) (record a { blocks = c ∷ cs }) (bump n a c cs).1
bump-Allocates n a c cs v l =
    let size = cap-lt a.heap c v.good v.fits.0 in
    let exact : (c.used + n) % 2 ^ 32 ≡ c.used + n = omega (arith, size, l) in
    record {
      keeps = record {
        good = v.good;
        fits = (record { in_use = v.fits.0.in_use; used_le = omega (arith, exact, l) }, v.fits.1);
        disjoint = v.disjoint;
      };
      all_clear = (inr (omega arith), Clear-rest n a.heap c cs l v.disjoint.0 v.fits.1);
      inside = inl (omega arith, omega (arith, exact));
      kept = λ m q u. elim u [ inl (b, e) ↦ inl (b, omega (arith, e, exact)) | inr w ↦ inr w ];
      zeroed = λ i o. zero_bytes_in n (data_of c + c.used) i a.bytes o;
      same = λ j o. zero_bytes_out n (data_of c + c.used) a.bytes j o;
    }

-- The blocks of an arena after a call of _block_new for it.
pub record Extended (a : Arena) (r : List Block) (b : Chunk) : Type 0 where
  pub good : IsHeap r
  pub old : All (Fits r) a.blocks
  pub in_use : Used b.place (b.cap + chunk_header) r
  pub apart : All (Disjoint b) a.blocks

Used-le_of_le : (p m n : ℕ) (h : List Block) → m ≤ n → Used p n h → Used p m h
unfolding Used
Used-le_of_le p m n [] l u = u
Used-le_of_le p m n (b ∷ bs) l (inl (f, e, k)) = inl (f, e, omega (arith, l, k))
Used-le_of_le p m n (b ∷ bs) l (inr u) = inr (Used-le_of_le p m n bs l u)

pub extended :
    (n : ℕ) (a : Arena) (r : List Block) (b : Chunk)
    → IsArena a
    → NewChunk n a.heap r b
    → Extended a r b
extended n a r b v new =
    let want = align16 (b.cap + chunk_header) in
    let large : b.cap + chunk_header ≤ want = omega (arith, new.small) in
    let (low, t) = alloc_in-Taken want b.place heap_base a.heap r v.good.tiles new.taken in
    record {
      good = new.good;
      old =
          All-map a.blocks
            (λ c f. record {
              in_use = t.kept c.place (c.cap + chunk_header) f.in_use;
              used_le = f.used_le;
            })
            v.fits;
      in_use = Used-le_of_le b.place (b.cap + chunk_header) want r large t.here;
      apart =
          All-map a.blocks
            (λ c f. elim (t.apart c.place (c.cap + chunk_header) f.in_use) [
              | inl l ↦ inr (omega (arith, l))
              | inr l ↦ inl (omega (arith, l, large))
            ])
            v.fits;
    }

pub alloc_fresh-Allocates :
    (n : ℕ) (a : Arena)
    → n ≤ large_thresh
    → IsArena a
    → (alloc_fresh n a ≡ (none, a))
      ⊎ ((p : ℕ) × (a' : Arena) × (alloc_fresh n a ≡ (some p, a')) × Allocates n p a a')
unfolding alloc_fresh
alloc_fresh-Allocates n a s v = elim (block_new_cases 0 a.heap (omega arith) v.good) [
  | inl e ↦ inl (ap (with_fresh n a) e)
  | inr (b, r, e, new) ↦
      let x = extended 0 a r b v new in
      let a1 : Arena = record a { n_blocks = (a.n_blocks + 1) % 2 ^ 32; heap = r } in
      let start = new.empty in
      let fits : Fits r b = record { in_use = x.in_use; used_le = omega (arith, start) } in
      let y =
        bump-Allocates n a1 b a.blocks
          (record { good = x.good; fits = (fits, x.old); disjoint = (x.apart, v.disjoint) })
          (omega (arith, start, s, new.page)) in
      inr (
        data_of b + b.used,
        (bump n a1 b a.blocks).1,
        ap (with_fresh n a) e,
        record {
          keeps = y.keeps;
          all_clear = y.all_clear.1;
          inside = y.inside;
          kept = λ m q u. y.kept m q (inr u);
          zeroed = y.zeroed;
          same = y.same;
        },
      )
]
