-- ===== src/Tools/Sort/Order.antt =====
-- About insertion_sort of src/bin/sort/sort.c.
use noxis.Prelude.{
  ℕ, zero, suc, ◌+◌, ◌-◌, ◌≤◌, ◌<◌, ◌≡◌, refl, sym, ap, ◌∙◌, ◌⊎◌, inl, inr, arith, Bool, true,
  false, ltb, List, [], ◌∷◌,
}
use noxis.Prelude.{
  update_self, update_ne, ◌==◌, ==-cases, ==-self, ==-ne, Bool-cases, update, if◌then◌else◌,
}
use mathlib.Core.Path.{subst, ap₂}
use mathlib.Core.List.{Permᴰ}
use mathlib.Core.List.Permᴰ
use noxis.Paths.{Str}
use noxis.Tools.Text.{stop_bytes, str_gt}
use noxis.Tools.Sort.{Lines, moves, shift, sort_from, insertion_sort}

-- The first `n` lines, the last of them first.
pub below : (ℕ → Str) → ℕ → List Str
below a zero = []
below a (suc n) = a n ∷ below a n

below-ext : (n : ℕ) (a b : ℕ → Str) → ((k : ℕ) → k < n → a k ≡ b k) → below a n ≡ below b n
unfolding below
below-ext zero a b h = refl
below-ext (suc n) a b h = ap₂ ◌∷◌ (h n (omega arith)) (below-ext n a b (λ k p. h k (omega arith)))

-- The key goes behind the first line, from the last on, that does not move.
insert : Bool → Str → List Str → List Str
insert rev key [] = key ∷ []
insert rev key (x ∷ xs) = if moves rev x key then x ∷ insert rev key xs else key ∷ x ∷ xs

shift_on :
    (rev : Bool) (j : ℕ) (key : Str) (a : ℕ → Str)
    → moves rev (a j) key ≡ true
    → shift rev (suc j) key a ≡ shift rev j key (update a (suc j) (a j))
unfolding shift
shift_on rev j key a e = ground (arith, e)

shift_stop :
    (rev : Bool) (j : ℕ) (key : Str) (a : ℕ → Str)
    → moves rev (a j) key ≡ false
    → shift rev (suc j) key a ≡ update a (suc j) key
unfolding shift
shift_stop rev j key a e = ground (arith, e)

insert_on :
    (rev : Bool) (key x : Str) (xs : List Str)
    → moves rev x key ≡ true
    → insert rev key (x ∷ xs) ≡ x ∷ insert rev key xs
unfolding insert
insert_on rev key x xs e = ground (arith, e)

insert_stop :
    (rev : Bool) (key x : Str) (xs : List Str)
    → moves rev x key ≡ false
    → insert rev key (x ∷ xs) ≡ key ∷ x ∷ xs
unfolding insert
insert_stop rev key x xs e = ground (arith, e)

-- Nothing above the place changes.
shift_above : (rev : Bool) (j k : ℕ) (key : Str) (a : ℕ → Str) → j < k → shift rev j key a k ≡ a k
unfolding shift
shift_above rev zero k key a h = update_ne a 0 k key (λ e. absurd (omega (arith, e)))
shift_above rev (suc j) k key a h = elim (Bool-cases (moves rev (a j) key)) [
  | inl e ↦
      ap (λ f. f k) (shift_on rev j key a e)
      ∙ shift_above rev j k key _ (omega arith)
      ∙ update_ne a (suc j) k (a j) (λ z. absurd (omega (arith, z)))
  | inr e ↦
      ap (λ f. f k) (shift_stop rev j key a e)
      ∙ update_ne a (suc j) k key (λ z. absurd (omega (arith, z)))
]

below-shift :
    (rev : Bool) (j : ℕ) (key : Str) (a : ℕ → Str)
    → below (shift rev j key a) (suc j) ≡ insert rev key (below a j)
unfolding below insert shift
below-shift rev zero key a = ap (λ x. x ∷ []) (update_self a 0 key)
below-shift rev (suc j) key a = elim (Bool-cases (moves rev (a j) key)) [
  | inl e ↦
      let b = update a (suc j) (a j) in
      let top = shift_above rev j (suc j) key b (omega arith) ∙ update_self a (suc j) (a j) in
      let rest =
        below-shift rev j key b
        ∙ ap (insert rev key) (
            below-ext j b a
              (λ k p. update_ne a (suc j) k (a j) (λ z. absurd (omega (arith, z))))) in
      ap (λ f. f (suc j) ∷ f j ∷ below f j) (shift_on rev j key a e)
      ∙ ap₂ ◌∷◌ top rest
      ∙ sym (insert_on rev key (a j) (below a j) e)
  | inr e ↦
      ap (λ f. f (suc j) ∷ f j ∷ below f j) (shift_stop rev j key a e)
      ∙ ap₂ ◌∷◌ (update_self a (suc j) key) (
          below-ext (suc j) (update a (suc j) key) a
            (λ k p. update_ne a (suc j) k key (λ z. absurd (omega (arith, z)))))
      ∙ sym (insert_stop rev key (a j) (below a j) e)
]

-- The two bytes at which strcmp stops, with the arguments swapped.
stop_bytes-swap : (a b : Str) → stop_bytes b a ≡ ((stop_bytes a b).1, (stop_bytes a b).0)
unfolding stop_bytes
stop_bytes-swap [] [] = refl
stop_bytes-swap [] (y ∷ ys) = refl
stop_bytes-swap (x ∷ xs) [] = refl
stop_bytes-swap (x ∷ xs) (y ∷ ys) = elim (==-cases x y) [
  | inl (e, b) ↦ let f : (y == x) ≡ true = rw e (==-self y) in rw (b, f) (stop_bytes-swap xs ys)
  | inr (ne, b) ↦ let f : (y == x) ≡ false = ==-ne y x (λ e. ne (sym e)) in rw (b, f) refl
]

moves-swap : (rev : Bool) (a b : Str) → moves rev a b ≡ true → moves rev b a ≡ false
unfolding moves
moves-swap true a b e = rw (stop_bytes-swap a b) (ground (arith, e))
moves-swap false a b e = rw (stop_bytes-swap a b) (ground (arith, e))

-- Every two neighbours are in order, the later one first.
Chain : Bool → List Str → Type 0
Chain rev [] = Unit
Chain rev (x ∷ []) = Unit
Chain rev (x ∷ y ∷ ys) = (moves rev y x ≡ false) × Chain rev (y ∷ ys)

insert_behind-Chain :
    (rev : Bool) (key x : Str) (xs : List Str)
    → Chain rev (x ∷ xs)
    → moves rev key x ≡ false
    → Chain rev (x ∷ insert rev key xs)
unfolding Chain insert
insert_behind-Chain rev key x [] c h = (h, tt)
insert_behind-Chain rev key x (y ∷ ys) (c, cs) h = elim (Bool-cases (moves rev y key)) [
  | inl e ↦
      rw (insert_on rev key y ys e)
        (c, insert_behind-Chain rev key y ys cs (moves-swap rev y key e))
  | inr e ↦ rw (insert_stop rev key y ys e) (h, (e, cs))
]

insert-Chain :
    (rev : Bool) (key : Str) (xs : List Str) → Chain rev xs → Chain rev (insert rev key xs)
unfolding Chain insert
insert-Chain rev key [] c = tt
insert-Chain rev key (x ∷ xs) c = elim (Bool-cases (moves rev x key)) [
  | inl e ↦
      rw (insert_on rev key x xs e) (insert_behind-Chain rev key x xs c (moves-swap rev x key e))
  | inr e ↦ rw (insert_stop rev key x xs e) (e, c)
]

insert-Perm : (rev : Bool) (key : Str) (xs : List Str) → Permᴰ (insert rev key xs) (key ∷ xs)
unfolding insert
insert-Perm rev key [] = Permᴰ.refl (key ∷ [])
insert-Perm rev key (x ∷ xs) = elim (Bool-cases (moves rev x key)) [
  | inl e ↦
      rw (insert_on rev key x xs e)
        (Permᴰ.trans (Permᴰ.cons refl (insert-Perm rev key xs)) (Permᴰ.swap refl refl))
  | inr e ↦ rw (insert_stop rev key x xs e) (Permᴰ.refl (key ∷ x ∷ xs))
]

step_at : (i n : ℕ) → i + 1 + n ≡ i + suc n
step_at i n = omega arith

start_at : (i : ℕ) → i + 0 ≡ i
start_at i = omega arith

suc_at : (m n : ℕ) → m + suc n ≡ suc (m + n)
suc_at m n = omega arith

next : (i : ℕ) → suc i ≡ i + 1
next i = omega arith

-- Lines above a place stay, and those below are permuted.
below-Perm :
    (m n : ℕ) (a b : ℕ → Str)
    → Permᴰ (below a m) (below b m)
    → ((k : ℕ) → m ≤ k → a k ≡ b k)
    → Permᴰ (below a (m + n)) (below b (m + n))
unfolding below
below-Perm m zero a b p h = rw (start_at m) p
below-Perm m (suc n) a b p h =
    rw (suc_at m n) (Permᴰ.cons (h (m + n) (omega arith)) (below-Perm m n a b p h))

sort_from-Chain :
    (rev : Bool) (n i : ℕ) (a : ℕ → Str)
    → Chain rev (below a i)
    → Chain rev (below (sort_from rev n i a) (i + n))
unfolding sort_from
sort_from-Chain rev zero i a c = rw (start_at i) c
sort_from-Chain rev (suc n) i a c =
    let b = shift rev i (a i) a in
    let placed =
      subst (Chain rev) (sym (below-shift rev i (a i) a)) (insert-Chain rev (a i) (below a i) c) in
    rw (sym (step_at i n))
      (sort_from-Chain rev n (i + 1) b (subst (λ k. Chain rev (below b k)) (next i) placed))

sort_from-Perm :
    (rev : Bool) (n i : ℕ) (a : ℕ → Str)
    → Permᴰ (below (sort_from rev n i a) (i + n)) (below a (i + n))
unfolding sort_from below
sort_from-Perm rev zero i a = Permᴰ.refl (below a (i + 0))
sort_from-Perm rev (suc n) i a =
    let b = shift rev i (a i) a in
    let placed =
      subst (λ xs. Permᴰ xs (below a (suc i))) (sym (below-shift rev i (a i) a))
        (insert-Perm rev (a i) (below a i)) in
    let rest =
      below-Perm (i + 1) n b a (subst (λ k. Permᴰ (below b k) (below a k)) (next i) placed)
        (λ k p. shift_above rev i k (a i) a (omega arith)) in
    rw (sym (step_at i n)) (Permᴰ.trans (sort_from-Perm rev n (i + 1) b) rest)

Chain-index :
    (rev : Bool) (n k : ℕ) (a : ℕ → Str)
    → Chain rev (below a n)
    → suc k < n
    → moves rev (a k) (a (suc k)) ≡ false
unfolding Chain below
Chain-index rev zero k a c h = absurd (omega arith)
Chain-index rev (suc zero) k a c h = absurd (omega arith)
Chain-index rev (suc (suc n)) k a (c, cs) h = elim (==-cases k n) [
  | inl (e, _) ↦ rw e c
  | inr (ne, _) ↦ Chain-index rev (suc n) k a cs (omega (arith, h, ne))
]

one : (rev : Bool) (a : ℕ → Str) → Chain rev (below a 1)
unfolding Chain below
one rev a = tt

none_at : (n : ℕ) (a b : ℕ → Str) → n ≡ 0 → Permᴰ (below a n) (below b n)
unfolding below
none_at n a b e = rw e Permᴰ.nil

-- The order of C strings by their bytes: the first comes before the second or is the same. A byte 0 is
-- the end of a string.
pub Precedes : Str → Str → Type 0
Precedes [] b = Unit
Precedes (x ∷ xs) [] = x ≡ 0
Precedes (x ∷ xs) (y ∷ ys) = (x < y) ⊎ (x ≡ y) × Precedes xs ys

pub InOrder : Bool → Str → Str → Type 0
InOrder false a b = Precedes a b
InOrder true a b = Precedes b a

not_greater : (a b : Str) → str_gt a b ≡ false → Precedes a b
unfolding Precedes stop_bytes
not_greater [] b e = tt
not_greater (x ∷ xs) [] e = ground (arith, e)
not_greater (x ∷ xs) (y ∷ ys) e = elim (==-cases x y) [
  | inl (same, t) ↦ inr (same, not_greater xs ys (rw t at e))
  | inr (ne, t) ↦ let f : ltb y x ≡ false = rw t at e in inl (ground (arith, ne, f))
]

moves-InOrder : (rev : Bool) (a b : Str) → moves rev a b ≡ false → InOrder rev a b
unfolding moves InOrder
moves-InOrder false a b e = not_greater a b e
moves-InOrder true a b e = not_greater b a (rw (stop_bytes-swap a b) e)

-- The lines of `m` are those of `l`, in order.
pub record IsSorted (rev : Bool) (l m : Lines) : Type 0 where
  pub same_count : m.nlines ≡ l.nlines
  pub same_lines : Permᴰ (below m.line l.nlines) (below l.line l.nlines)
  pub in_order : (k : ℕ) → suc k < l.nlines → InOrder rev (m.line k) (m.line (suc k))

-- insertion_sort keeps the lines, up to their order, and puts them in the order of their bytes: each line
-- comes before the one after it or is the same; with -r, each comes behind the one after it or is the
-- same.
pub insertion_sort-IsSorted : (rev : Bool) (l : Lines) → IsSorted rev l (insertion_sort rev l)
unfolding insertion_sort
insertion_sort-IsSorted rev l = elim (==-cases l.nlines 0) [
  | inl (e, _) ↦ record {
    same_count = refl;
    same_lines = none_at l.nlines _ _ e;
    in_order = λ k h. absurd (omega (arith, e, h));
  }
  | inr (ne, _) ↦
      let whole : 1 + (l.nlines - 1) ≡ l.nlines = omega (arith, ne) in
      let chain = sort_from-Chain rev (l.nlines - 1) 1 l.line (one rev l.line) in
      record {
        same_count = refl;
        same_lines = rw whole at (sort_from-Perm rev (l.nlines - 1) 1 l.line);
        in_order =
            λ k h. moves-InOrder rev _ _ (Chain-index rev l.nlines k _ (rw whole at chain) h);
      }
]
