-- ===== src/Buffers/Chains.antt =====
-- The hash chains: which buffers a chain of links holds, and what a look-up and a removal do to it.
use noxis.Prelude.{
  ℕ, zero, suc, ◌≤◌, ◌<◌, ◌≡◌, ◌≢◌, ◌⊎◌, inl, inr, refl, sym, ap, ◌∙◌, true, false, List, [], ◌∷◌,
  Option, none, some, arith,
}
use mathlib.Core.Path.{subst}
use noxis.Prelude.{◌==◌, update_self, update_ne, length, Bool-cases, ==-cases}
use noxis.Buffers.{
  Cache, Slot, bucket, link, read_slot, write_slot, unlink_from, lookup_from, is_block, erase,
}

abbrev pub In : ℕ → List ℕ → Type 0
In p [] = ⊥
In p (x ∷ xs) = (p ≡ x) ⊎ In p xs

abbrev pub Distinct : List ℕ → Type 0
Distinct [] = Unit
Distinct (x ∷ xs) = (¬ In x xs) × Distinct xs

-- The links from `o` on lead through `l` and end.
abbrev pub Links : (ℕ → Option ℕ) → Option ℕ → List ℕ → Type 0
Links next o [] = o ≡ none
Links next o (x ∷ xs) = (o ≡ some x) × Links next (next x) xs

pub Links-agree :
    (next next' : ℕ → Option ℕ) (o : Option ℕ) (l : List ℕ)
    → ((q : ℕ) → In q l → next' q ≡ next q)
    → Links next o l
    → Links next' o l
Links-agree next next' o [] same h = h
Links-agree next next' o (x ∷ xs) same h =
    (h.0, rw (same x (inl refl)) (Links-agree next next' (next x) xs (λ q m. same q (inr m)) h.1))

pub In-erase : (p q : ℕ) (l : List ℕ) → In q (erase p l) → In q l
In-erase p q [] m = m
In-erase p q (x ∷ xs) m = elim (Bool-cases (x == p)) [
  | inl e ↦ inr (rw e at m)
  | inr e ↦ elim (rw e at m) [ inl s ↦ inl s | inr n ↦ inr (In-erase p q xs n) ]
]

pub In-erase_ne : (p q : ℕ) (l : List ℕ) → q ≢ p → In q l → In q (erase p l)
In-erase_ne p q [] h m = m
In-erase_ne p q (x ∷ xs) h m = elim (==-cases x p) [
  | inl (s, e) ↦ rw e (elim m [ inl t ↦ absurd (h (t ∙ s)) | inr n ↦ n ])
  | inr (s, e) ↦ rw e (elim m [ inl t ↦ inl t | inr n ↦ inr (In-erase_ne p q xs h n) ])
]

pub Distinct-erase : (p : ℕ) (l : List ℕ) → Distinct l → Distinct (erase p l)
Distinct-erase p [] d = d
Distinct-erase p (x ∷ xs) d = elim (Bool-cases (x == p)) [
  | inl e ↦ rw e d.1
  | inr e ↦ rw e ((λ m. d.0 (In-erase p x xs m)), Distinct-erase p xs d.1)
]

pub not-In-erase : (p : ℕ) (l : List ℕ) → Distinct l → ¬ In p (erase p l)
not-In-erase p [] d m = m
not-In-erase p (x ∷ xs) d m = elim (==-cases x p) [
  | inl (s, e) ↦ d.0 (rw (← s) at (rw e at m))
  | inr (s, e) ↦ elim (rw e at m) [ inl t ↦ s (sym t) | inr n ↦ not-In-erase p xs d.1 n ]
]

-- Different numbers below k are at most k.
pub length-le_of_below :
    (k : ℕ) (l : List ℕ) → ((q : ℕ) → In q l → q < k) → Distinct l → length l ≤ k
length-le_of_below zero [] h d = omega arith
length-le_of_below zero (x ∷ xs) h d = absurd (omega (arith, h x (inl refl)))
length-le_of_below (suc k) l h d =
    let small : (q : ℕ) → In q (erase k l) → q < k =
      λ q m. below q (h q (In-erase k q l m)) (λ e. not-In-erase k l d (rw e at m)) in
    omega (arith, length-erase k l, length-le_of_below k (erase k l) small (Distinct-erase k l d))
  where
    below : (q : ℕ) → q < suc k → q ≢ k → q < k
    below q p n = omega arith

    length-erase : (p : ℕ) (l : List ℕ) → length l ≤ suc (length (erase p l))
    length-erase p [] = omega arith
    length-erase p (x ∷ xs) = ground (arith, length-erase p xs)

-- A look-up along a chain finds the first buffer of the block, or that there is none.
pub lookup_lem :
    (n d b : ℕ) (c : Cache) (o : Option ℕ) (l : List ℕ)
    → length l ≤ n
    → Links c.hash_next o l
    → (lookup_from n o d b c ≡ none) × ((p : ℕ) → In p l → is_block d b p c ≡ false)
      ⊎ ((p : ℕ) × (lookup_from n o d b c ≡ some p) × In p l × (is_block d b p c ≡ true))
unfolding lookup_from
lookup_lem zero d b c o [] f h = inl (refl, λ p m. absurd m)
lookup_lem zero d b c o (x ∷ xs) f h = absurd (omega arith)
lookup_lem (suc n) d b c o [] f h = inl (rw h refl, λ p m. absurd m)
lookup_lem (suc n) d b c o (x ∷ xs) f h = elim (Bool-cases (is_block d b x c)) [
  | inl e ↦ inr (x, rw (h.0, lookup_from) (rw e refl), inl refl, e)
  | inr e ↦ elim (lookup_lem n d b c (c.hash_next x) xs (omega arith) h.1) [
    | inl (miss, all) ↦
        inl (rw (h.0, lookup_from) (rw e miss), λ p m. elim m [ inl s ↦ rw s e | inr t ↦ all p t ])
    | inr (p, found, m, t) ↦ inr (p, rw (h.0, lookup_from) (rw e found), inr m, t)
  ]
]

-- The slot is not inside the chain that it leads to.
abbrev pub Outside : Slot → List ℕ → Type 0
Outside s l = (q : ℕ) → s ≡ link q → ¬ In q l

-- The chain behind a slot without `p`: nothing but that chain and the slot changes.
pub record Unlinked (s : Slot) (l : List ℕ) (p : ℕ) (c c' : Cache) : Type 0 where
  pub left : Links c'.hash_next (read_slot s c') (erase p l)
  pub next_kept : (q : ℕ) → ¬ In q l → s ≢ link q → c'.hash_next q ≡ c.hash_next q
  pub bucket_kept : (h : ℕ) → s ≢ bucket h → c'.buckets h ≡ c.buckets h
  pub rest_kept : c' ≡ record c { hash_next = c'.hash_next; buckets = c'.buckets }

read-write_slot : (s : Slot) (o : Option ℕ) (c : Cache) → read_slot s (write_slot s o c) ≡ o
unfolding read_slot write_slot
read-write_slot (bucket h) o c = update_self c.buckets h o
read-write_slot (link q) o c = update_self c.hash_next q o

write_slot-next :
    (s : Slot) (o : Option ℕ) (c : Cache) (q : ℕ)
    → s ≢ link q
    → (write_slot s o c).hash_next q ≡ c.hash_next q
unfolding write_slot
write_slot-next (bucket h) o c q n = refl
write_slot-next (link r) o c q n = update_ne c.hash_next r q o (λ e. n (ap link e))

write_slot-bucket :
    (s : Slot) (o : Option ℕ) (c : Cache) (h : ℕ)
    → s ≢ bucket h
    → (write_slot s o c).buckets h ≡ c.buckets h
unfolding write_slot
write_slot-bucket (bucket g) o c h n = update_ne c.buckets g h o (λ e. n (ap bucket e))
write_slot-bucket (link q) o c h n = refl

write_slot-rest :
    (s : Slot) (o : Option ℕ) (c : Cache)
    → write_slot s o c
      ≡ record c { hash_next = (write_slot s o c).hash_next; buckets = (write_slot s o c).buckets }
unfolding write_slot
write_slot-rest (bucket h) o c = refl
write_slot-rest (link q) o c = refl

link_injective : {a b : ℕ} → link a ≡ link b → a ≡ b
link_injective e = cc

slot_kept :
    (s : Slot) (x p : ℕ) (xs : List ℕ) (c c' : Cache)
    → Outside s (x ∷ xs)
    → Unlinked (link x) xs p c c'
    → read_slot s c' ≡ read_slot s c
unfolding read_slot
slot_kept (bucket h) x p xs c c' o u = u.bucket_kept h (λ e. ground (arith, e))
slot_kept (link q) x p xs c c' o u =
    u.next_kept q (λ m. o q refl (inr m)) (λ e. o q refl (inl (sym (link_injective e))))

unlinked_head :
    (s : Slot) (x p : ℕ) (xs : List ℕ) (c : Cache)
    → x ≡ p
    → ((q : ℕ) → In q xs → s ≢ link q)
    → Links c.hash_next (c.hash_next x) xs
    → Links
        (write_slot s (c.hash_next p) c).hash_next
        (read_slot s (write_slot s (c.hash_next p) c))
        xs
unlinked_head s x p xs c same apart h =
    let kept =
      Links-agree c.hash_next (write_slot s (c.hash_next p) c).hash_next (c.hash_next x) xs
        (λ q m. write_slot-next s (c.hash_next p) c q (apart q m)) h in
    rw (read-write_slot s (c.hash_next p) c)
      (subst (λ y. Links (write_slot s (c.hash_next p) c).hash_next (c.hash_next y) xs) same kept)

pub unlink_lem :
    (n : ℕ) (s : Slot) (p : ℕ) (c : Cache) (l : List ℕ)
    → length l ≤ n
    → Links c.hash_next (read_slot s c) l
    → Distinct l
    → Outside s l
    → Unlinked s l p c (unlink_from n s p c)
unfolding unlink_from read_slot
unlink_lem zero s p c [] f h d o = record {
  left = h;
  next_kept = λ q m k. refl;
  bucket_kept = λ g k. refl;
  rest_kept = refl;
}
unlink_lem zero s p c (x ∷ xs) f h d o = absurd (omega arith)
unlink_lem (suc n) s p c [] f h d o =
    rw (h, unlink_from)
      (record { left = h; next_kept = λ q m k. refl; bucket_kept = λ g k. refl; rest_kept = refl })
unlink_lem (suc n) s p c (x ∷ xs) f h d o = elim (==-cases x p) [
  | inl (same, t) ↦
      rw (h.0, unlink_from)
        (rw t (record {
          left = rw t (unlinked_head s x p xs c same (λ q m e. o q e (inr m)) h.1);
          next_kept = λ q m k. write_slot-next s (c.hash_next p) c q k;
          bucket_kept = λ g k. write_slot-bucket s (c.hash_next p) c g k;
          rest_kept = write_slot-rest s (c.hash_next p) c;
        }))
  | inr (other, t) ↦
      let u =
        unlink_lem n (link x) p c xs (omega arith) h.1 d.1
          (λ q e m. d.0 (rw (← link_injective e) at m)) in
      rw (h.0, unlink_from)
        (rw t (record {
          left = rw t ((slot_kept s x p xs c (unlink_from n (link x) p c) o u ∙ h.0), u.left);
          next_kept =
              λ q m k. u.next_kept q (λ i. m (inr i)) (λ e. m (inl (sym (link_injective e))));
          bucket_kept = λ g k. u.bucket_kept g (λ e. cc);
          rest_kept = u.rest_kept;
        }))
]
