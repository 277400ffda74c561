-- ===== src/Noxfs/Dir/Removed.antt =====
-- About the removal of an entry from a directory, in src/fs/noxfs/noxfs.c.
use noxis.Prelude.{
  ℕ, zero, suc, ◌+◌, ◌*◌, ◌≤◌, ◌<◌, ◌≡◌, refl, sym, ap, ◌∙◌, arith, Bool, true, false, Option, none,
  some, length,
}
use noxis.Prelude.{◌!=◌, ◌&&◌}
use mathlib.Core.Path.{ap₂}
use noxis.Paths.{Str}
use noxis.Noxfs.Layout.{Bytes}
use noxis.Noxfs.Layout.Agree.{get32_eq}
use noxis.Noxfs.Dir.{is_named, ent_inode, find_entry, matches, compacted}
use noxis.Noxfs.Dir.Entries.{inode_named, matches-Agree}

-- The value at the first index from `i` on that passes a test.
value : ℕ → ℕ → (ℕ → Bool) → (ℕ → ℕ) → Option ℕ
value zero i f v = none
value (suc n) i f v = elim (f i) [ true ↦ some (v i) | false ↦ value n (i + 1) f v ]

inode_at : Bytes → Option ℕ → Option ℕ
inode_at d o = elim o [ none ↦ none | some i ↦ some (ent_inode d i) ]

find_entry-value :
    (n i : ℕ) (d : Bytes) (name : Str)
    → inode_at d (find_entry n i d name) ≡ value n i (is_named d name) (ent_inode d)
unfolding find_entry value inode_at
find_entry-value zero i d name = refl
find_entry-value (suc n) i d name =
    under (is_named d name i) (find_entry n (i + 1) d name)
    ∙ ap (λ o. elim (is_named d name i) [ true ↦ some (ent_inode d i) | false ↦ o ])
        (find_entry-value n (i + 1) d name)
  where
    under :
        (b : Bool) (o : Option ℕ)
        → inode_at d (elim b [ true ↦ some i | false ↦ o ])
          ≡ (elim b [ true ↦ some (ent_inode d i) | false ↦ inode_at d o ])
    under true o = refl
    under false o = refl

-- A list that starts one index later.
value-later :
    (n i : ℕ) (p q : ℕ → Bool) (u v : ℕ → ℕ)
    → ((j : ℕ) → i ≤ j → j < i + n → (p j ≡ q (j + 1)) × (u j ≡ v (j + 1)))
    → value n i p u ≡ value n (i + 1) q v
unfolding value
value-later zero i p q u v h = refl
value-later (suc n) i p q u v h =
    let (a, b) = h i (omega arith) (omega arith) in
    ap₂ (λ c x. elim c [ true ↦ some x | false ↦ value n (i + 1) p u ]) a b
    ∙ ap (λ o. elim (q (i + 1)) [ true ↦ some (v (i + 1)) | false ↦ o ])
        (value-later n (i + 1) p q u v (λ j x y. h j (omega arith) (omega arith)))

-- A list without one index that does not pass.
value_miss :
    (n i : ℕ) (q : ℕ → Bool) (v : ℕ → ℕ) → q i ≡ false → value (suc n) i q v ≡ value n (i + 1) q v
unfolding value
value_miss n i q v e = ap (λ c. elim c [ true ↦ some (v i) | false ↦ value n (i + 1) q v ]) e

value-without :
    (k n i : ℕ) (p q : ℕ → Bool) (u v : ℕ → ℕ)
    → ((j : ℕ) → j < i + k → (p j ≡ q j) × (u j ≡ v j))
    → ((j : ℕ) → i + k ≤ j → j < i + k + n → (p j ≡ q (j + 1)) × (u j ≡ v (j + 1)))
    → q (i + k) ≡ false
    → value (k + n) i p u ≡ value (k + suc n) i q v
unfolding value
value-without zero n i p q u v h g e =
    let at_i : i + 0 ≡ i = omega arith in
    ap (λ z. value z i p u) {x = 0 + n} {y = n} (omega arith)
    ∙ value-later n i p q u v (λ j x y. g j (omega arith) (omega arith))
    ∙ sym (value_miss n i q v (sym (ap q at_i) ∙ e))
    ∙ ap (λ z. value z i q v) {x = suc n} {y = 0 + suc n} (omega arith)
value-without (suc k) n i p q u v h g e =
    let (a, b) = h i (omega arith) in
    let at_k : i + suc k ≡ i + 1 + k = omega arith in
    ap (λ z. value z i p u) {x = suc k + n} {y = suc (k + n)} (omega arith)
    ∙ ap₂ (λ c x. elim c [ true ↦ some x | false ↦ value (k + n) (i + 1) p u ]) a b
    ∙ ap (λ o. elim (q i) [ true ↦ some (v i) | false ↦ o ])
        (value-without k n (i + 1) p q u v (λ j x. h j (omega arith))
          (λ j x y. g j (omega arith) (omega arith)) (sym (ap q at_k) ∙ e))
    ∙ ap (λ z. value z i q v) {x = suc (k + suc n)} {y = suc k + suc n} (omega arith)

-- A byte of the directory without entry `f`.
front_byte : (f i b : ℕ) (d : Bytes) → i < f → b < 32 → compacted f d (32 * i + b) ≡ d (32 * i + b)
unfolding compacted
front_byte f i b d h g = ground (arith, h, g)

back_byte :
    (f i b : ℕ) (d : Bytes) → f ≤ i → b < 32 → compacted f d (32 * i + b) ≡ d (32 * (i + 1) + b)
unfolding compacted
back_byte f i b d h g =
    let e : 32 * i + b + 32 ≡ 32 * (i + 1) + b = omega arith in ground (arith, h, g, ap d e)

-- Two entries with the same bytes.
entry_same :
    (i j : ℕ) (d e : Bytes) (name : Str)
    → length name ≤ 23
    → ((b : ℕ) → b < 32 → d (32 * i + b) ≡ e (32 * j + b))
    → (is_named d name i ≡ is_named e name j) × (ent_inode d i ≡ ent_inode e j)
entry_same i j d e name s h =
    let start : d (32 * i) ≡ e (32 * j) =
      ap d (begins i) ∙ h 0 (omega arith) ∙ ap e (sym (begins j)) in
    let inode =
      get32_eq d e (32 * i) (32 * j) start (h 1 (omega arith)) (h 2 (omega arith))
        (h 3 (omega arith)) in
    let same =
      matches-Agree (e (32 * j + 6)) (32 * i + 8) (32 * j + 8) d e name
        (λ b p. ap d (behind i b) ∙ h (8 + b) (omega arith) ∙ ap e (sym (behind j b))) in
    (
      ap₂ (λ a c. a != 0 && c) inode
          (ap (λ c. matches c (32 * i + 8) d name) (h 6 (omega arith)) ∙ same),
      inode,
    )
  where
    begins : (k : ℕ) → 32 * k ≡ 32 * k + 0
    begins k = omega arith

    behind : (k b : ℕ) → 32 * k + 8 + b ≡ 32 * k + (8 + b)
    behind k b = omega arith

inode_named-value :
    (n : ℕ) (d : Bytes) (name : Str)
    → inode_named n d name ≡ value n 0 (is_named d name) (ent_inode d)
unfolding inode_named inode_at
inode_named-value n d name = find_entry-value n 0 d name

-- A directory from which entry `f` is removed gives for a name of at most 23 bytes, which is not the name of
-- that entry, what it gave before.
pub inode_named-compacted :
    (f n : ℕ) (d : Bytes) (other : Str)
    → length other ≤ 23
    → is_named d other f ≡ false
    → inode_named (f + n) (compacted f d) other ≡ inode_named (f + suc n) d other
inode_named-compacted f n d other s e =
    inode_named-value (f + n) (compacted f d) other
    ∙ value-without f n 0 (is_named (compacted f d) other) (is_named d other)
        (ent_inode (compacted f d)) (ent_inode d)
        (λ j x.
          entry_same j j (compacted f d) d other s (λ b p. front_byte f j b d (omega arith) p))
        (λ j x y.
          entry_same j (j + 1) (compacted f d) d other s (λ b p. back_byte f j b d (omega arith) p))
        (ap (is_named d other) {x = 0 + f} {y = f} (omega arith) ∙ e)
    ∙ sym (inode_named-value (f + suc n) d other)
