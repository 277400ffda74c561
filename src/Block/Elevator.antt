-- ===== src/Block/Elevator.antt =====
-- About `elevator_insert`, the order of a device's queue in src/drivers/block/block.c.
use noxis.Prelude.{ℕ, zero, suc, ◌≤◌, ◌<◌, ◌≡◌, ◌≢◌, refl, sym, ◌∙◌, inl, inr, arith}
use noxis.Prelude.{
  true, false, List, [], ◌∷◌, length, All, Option, none, some, leb, leb→le, Bool-cases, none≢some,
}
use noxis.Block.{Blk, Request, link, insert_from, elevator_insert, blk_nr_request}

abbrev pub IsLinked : (ℕ → Request) → Option ℕ → List ℕ → Type 0
IsLinked pool h [] = h ≡ none
IsLinked pool h (x ∷ xs) = (h ≡ some x) × IsLinked pool ((pool x).next) xs

abbrev pub IsOutside : ℕ → List ℕ → Type 0
IsOutside p = All (λ x. p ≢ x)

abbrev pub IsDistinct : List ℕ → Type 0
IsDistinct [] = Unit
IsDistinct (x ∷ xs) = IsOutside x xs × IsDistinct xs

-- Where the request goes: behind the slots whose address is not larger.
unfoldable pub sorted_insert : (ℕ → ℕ) → ℕ → List ℕ → List ℕ
sorted_insert lba r [] = r ∷ []
sorted_insert lba r (c ∷ cs) = elim (leb (lba c) (lba r)) [
  | true ↦ c ∷ sorted_insert lba r cs
  | false ↦ r ∷ c ∷ cs
]

abbrev pub Above : (ℕ → ℕ) → ℕ → List ℕ → Type 0
Above lba x = All (λ y. lba x ≤ lba y)

abbrev pub IsSorted : (ℕ → ℕ) → List ℕ → Type 0
IsSorted lba [] = Unit
IsSorted lba (x ∷ xs) = Above lba x xs × IsSorted lba xs

-- `pp` is not the link of the new slot or of one of the list.
abbrev IsBefore : Option ℕ → ℕ → List ℕ → Type 0
IsBefore none r q = Unit
IsBefore (some b) r q = (b ≢ r) × IsOutside b q

abbrev IsAt : Option ℕ → ℕ → Type 0
IsAt none x = Unit
IsAt (some b) x = b ≢ x

IsLinked-same :
    (pool pool' : ℕ → Request) (q : List ℕ) (h : Option ℕ)
    → All (λ x. (pool' x).next ≡ (pool x).next) q
    → IsLinked pool h q
    → IsLinked pool' h q
IsLinked-same pool pool' [] h a l = l
IsLinked-same pool pool' (x ∷ xs) h (a, rest) (e, l) =
    (e, rw a (IsLinked-same pool pool' xs _ rest l))

IsBefore-nil : (pp : Option ℕ) (r : ℕ) (q : List ℕ) → IsBefore pp r q → IsBefore pp r []
IsBefore-nil none r q b = tt
IsBefore-nil (some b) r q (ne, _) = (ne, tt)

module _ {W : Type 0} where
  abbrev pub lbas : Blk W → ℕ → ℕ
  lbas s x = (s.pool x).lba

  -- What `*pp` holds.
  abbrev read_link : ℕ → Option ℕ → Blk W → Option ℕ
  read_link d none s = s.queue d
  read_link d (some b) s = (s.pool b).next

  link_reads :
      (d : ℕ) (pp c : Option ℕ) (r : ℕ) (s : Blk W) → read_link d pp (link d pp c r s) ≡ some r
  unfolding link
  link_reads d none c r s = ground arith
  link_reads d (some b) c r s = ground arith

  link_new :
      (d : ℕ) (pp c : Option ℕ) (r : ℕ) (s : Blk W)
      → IsBefore pp r []
      → ((link d pp c r s).pool r).next ≡ c
  unfolding link
  link_new d none c r s _ = ground arith
  link_new d (some b) c r s (ne, _) = ground (arith, ne)

  link_other :
      (d : ℕ) (pp c : Option ℕ) (r x : ℕ) (s : Blk W)
      → IsAt pp x
      → r ≢ x
      → ((link d pp c r s).pool x).next ≡ (s.pool x).next
  unfolding link
  link_other d none c r x s _ h = ground (arith, h)
  link_other d (some b) c r x s ne h = ground (arith, h, ne)

  -- What the walk leaves alone: the links of other slots, and the head unless it is `*pp`.
  record Walked (d : ℕ) (pp : Option ℕ) (r : ℕ) (q : List ℕ) (s s' : Blk W) : Type 0 where
    others : (x : ℕ) → r ≢ x → IsOutside x q → IsAt pp x → (s'.pool x).next ≡ (s.pool x).next
    head : (b : ℕ) → pp ≡ some b → s'.queue d ≡ s.queue d
    linked : IsLinked s'.pool (read_link d pp s') (sorted_insert (lbas s) r q)

  link_head :
      (d b : ℕ) (c : Option ℕ) (r : ℕ) (s : Blk W) → (link d (some b) c r s).queue d ≡ s.queue d
  unfolding link
  link_head d b c r s = refl

  All-other :
      (d : ℕ) (pp c : Option ℕ) (r : ℕ) (s : Blk W) (q : List ℕ)
      → IsBefore pp r q
      → IsOutside r q
      → All (λ x. ((link d pp c r s).pool x).next ≡ (s.pool x).next) q
  All-other d pp c r s [] b o = tt
  All-other d none c r s (x ∷ xs) b (ne, o) =
      (link_other d none c r x s tt ne, All-other d none c r s xs tt o)
  All-other d (some b) c r s (x ∷ xs) (h, (h', hs)) (ne, o) =
      (link_other d (some b) c r x s h' ne, All-other d (some b) c r s xs (h, hs) o)

  -- The slot is linked in front of the list `q`.
  link-Walked :
      (d : ℕ) (pp c : Option ℕ) (r : ℕ) (q : List ℕ) (s : Blk W)
      → IsLinked s.pool c q
      → IsBefore pp r q
      → IsOutside r q
      → sorted_insert (lbas s) r q ≡ r ∷ q
      → Walked d pp r q s (link d pp c r s)
  link-Walked d pp c r q s l b o e = record {
    others = λ x h h' at_x. link_other d pp c r x s at_x h;
    head = λ b' is. head_of pp is;
    linked = rw e (
      link_reads d pp c r s,
      rw (link_new d pp c r s (IsBefore-nil pp r q b))
          (IsLinked-same s.pool ((link d pp c r s).pool) q c (All-other d pp c r s q b o) l),
    );
  }
    where
      head_of : (pp : Option ℕ) {b' : ℕ} → pp ≡ some b' → (link d pp c r s).queue d ≡ s.queue d
      head_of none is = absurd (none≢some is)
      head_of (some b') is = link_head d b' c r s

  insert_end :
      (n d : ℕ) (pp : Option ℕ) (r : ℕ) (s : Blk W)
      → insert_from (suc n) d pp none r s ≡ link d pp none r s
  unfolding insert_from
  insert_end n d pp r s = refl

  insert_here :
      (n d : ℕ) (pp : Option ℕ) (c r : ℕ) (s : Blk W)
      → leb (lbas s c) (lbas s r) ≡ false
      → insert_from (suc n) d pp (some c) r s ≡ link d pp (some c) r s
  unfolding insert_from
  insert_here n d pp c r s e = rw (e, insert_from) refl

  insert_on :
      (n d : ℕ) (pp : Option ℕ) (c r : ℕ) (s : Blk W)
      → leb (lbas s c) (lbas s r) ≡ true
      → insert_from (suc n) d pp (some c) r s ≡ insert_from n d (some c) ((s.pool c).next) r s
  unfolding insert_from
  insert_on n d pp c r s e = rw (e, insert_from) refl

sorted_insert_here :
    (lba : ℕ → ℕ) (c r : ℕ) (q : List ℕ)
    → leb (lba c) (lba r) ≡ false
    → sorted_insert lba r (c ∷ q) ≡ r ∷ c ∷ q
unfolding sorted_insert
sorted_insert_here lba c r q e = rw (e, sorted_insert) refl

sorted_insert_on :
    (lba : ℕ → ℕ) (c r : ℕ) (q : List ℕ)
    → leb (lba c) (lba r) ≡ true
    → sorted_insert lba r (c ∷ q) ≡ c ∷ sorted_insert lba r q
unfolding sorted_insert
sorted_insert_on lba c r q e = rw (e, sorted_insert) refl

-- The walk, from the list behind `*pp` on.
insert_from-Walked :
    {W : Type 0} (n d : ℕ) (pp c : Option ℕ) (r : ℕ) (q : List ℕ) (s : Blk W)
    → length q < n
    → IsLinked s.pool c q
    → read_link d pp s ≡ c
    → IsBefore pp r q
    → IsOutside r q
    → IsDistinct q
    → Walked d pp r q s (insert_from n d pp c r s)
unfolding sorted_insert
insert_from-Walked zero d pp c r q s h l at_c b o u = absurd (omega arith)
insert_from-Walked (suc n) d pp c r [] s h l at_c b o u =
    rw (l, insert_end n d pp r s) (link-Walked d pp none r [] s refl b o refl)
insert_from-Walked (suc n) d pp c r (x ∷ xs) s h (e, l) at_c b (ne, o) (x_out, u) =
    elim (Bool-cases (leb (lbas s x) (lbas s r))) [
      | inl on ↦
          let w =
            insert_from-Walked n d (some x) ((s.pool x).next) r xs s (omega arith) l refl
              ((λ k. ne (sym k)), x_out) o u in
          rw (e, insert_on n d pp x r s on)
            (record {
              others = λ y h1 (h2, h3) at_y. w.others y h1 h3 (λ k. h2 (sym k));
              head = λ b' is. w.head x refl;
              linked = rw (sorted_insert_on (lbas s) x r xs on) (
                kept pp b (insert_from n d (some x) ((s.pool x).next) r s) w ∙ at_c ∙ e,
                w.linked,
              );
            })
      | inr here ↦
          rw (e, insert_here n d pp x r s here)
            (link-Walked d pp (some x) r (x ∷ xs) s (refl, l) b (ne, o)
              (sorted_insert_here (lbas s) x r xs here))
    ]
  where
    kept :
        (pp : Option ℕ)
        → IsBefore pp r (x ∷ xs)
        → (s' : _) → Walked d (some x) r xs s s'
        → read_link d pp s' ≡ read_link d pp s
    kept none b s' w = w.head x refl
    kept (some b') (h1, (h2, h3)) s' w = w.others b' (λ k. h1 (sym k)) h3 (λ k. h2 (sym k))

Above-insert :
    (lba : ℕ → ℕ) (x r : ℕ) (q : List ℕ)
    → Above lba x q
    → lba x ≤ lba r
    → Above lba x (sorted_insert lba r q)
unfolding sorted_insert
Above-insert lba x r [] a h = (h, tt)
Above-insert lba x r (c ∷ cs) (a, rest) h = elim (Bool-cases (leb (lba c) (lba r))) [
  | inl on ↦ rw (sorted_insert_on lba c r cs on) (a, Above-insert lba x r cs rest h)
  | inr here ↦ rw (sorted_insert_here lba c r cs here) (h, (a, rest))
]

Above-less : (lba : ℕ → ℕ) (x y : ℕ) (q : List ℕ) → lba x ≤ lba y → Above lba y q → Above lba x q
Above-less lba x y [] h a = tt
Above-less lba x y (c ∷ cs) h (a, rest) = (omega arith, Above-less lba x y cs h rest)

sorted_insert-IsSorted :
    (lba : ℕ → ℕ) (r : ℕ) (q : List ℕ) → IsSorted lba q → IsSorted lba (sorted_insert lba r q)
unfolding sorted_insert
sorted_insert-IsSorted lba r [] v = (tt, tt)
sorted_insert-IsSorted lba r (c ∷ cs) (a, v) = elim (Bool-cases (leb (lba c) (lba r))) [
  | inl on ↦
      rw (sorted_insert_on lba c r cs on)
        (Above-insert lba c r cs a (leb→le _ _ on), sorted_insert-IsSorted lba r cs v)
  | inr here ↦
      let less : lba r ≤ lba c = ground (arith, here) in
      rw (sorted_insert_here lba c r cs here) ((less, Above-less lba r c cs less a), (a, v))
]

-- A slot that is not in a device's queue, of at most 15 distinct slots, joins it, at its place by block address and behind those
-- with the same one; a sorted queue stays sorted.
pub elevator_insert-IsSorted :
    {W : Type 0} (d r : ℕ) (q : List ℕ) (s : Blk W)
    → IsLinked s.pool (s.queue d) q
    → IsOutside r q
    → IsDistinct q
    → length q < blk_nr_request
    → IsSorted (lbas s) q
    → let s' = elevator_insert d r s in
      IsLinked s'.pool (s'.queue d) (sorted_insert (lbas s) r q)
      × IsSorted (lbas s) (sorted_insert (lbas s) r q)
unfolding elevator_insert
elevator_insert-IsSorted d r q s l o u h v =
    let w = insert_from-Walked blk_nr_request d none (s.queue d) r q s h l refl tt o u in
    (w.linked, sorted_insert-IsSorted (lbas s) r q v)
