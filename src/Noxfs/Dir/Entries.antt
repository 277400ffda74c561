-- ===== src/Noxfs/Dir/Entries.antt =====
-- About the entries of a directory in src/fs/noxfs/noxfs.c.
use noxis.Prelude.{
  ℕ, zero, suc, ◌+◌, ◌-◌, ◌*◌, ◌^◌, ◌≤◌, ◌<◌, ◌≡◌, refl, sym, ap, ◌∙◌, inl, inr, arith, Bool, true,
  false, Option, none, some, none≢some, [], ◌∷◌, length, take, get_or,
}
use noxis.Prelude.{◌==◌, ◌!=◌, ◌&&◌, Bool-cases, if◌then◌else◌}
use mathlib.Core.Path.{ap₂}
use mathlib.Core.Option.{some-injective}
use noxis.Paths.{Str}
use noxis.Noxfs.Layout.{Bytes, byte}
use noxis.Noxfs.Layout.Codec.{start_at, get32-byte}
use noxis.Noxfs.Layout.Agree.{get32_eq}
use noxis.Noxfs.Dir.{is_named, ent_inode, find_entry, matches, entry_bytes, appended}

step_at : (o j : ℕ) → o + 1 + j ≡ o + suc j
step_at o j = omega arith

-- Two names are the same.
pub same_name : Str → Str → Bool
same_name [] [] = true
same_name [] (c ∷ cs) = false
same_name (x ∷ xs) [] = false
same_name (x ∷ xs) (c ∷ cs) = elim (x == c) [ true ↦ same_name xs cs | false ↦ false ]

-- The bytes from `o` on are those of a name.
abbrev Spells : Str → ℕ → Bytes → Type 0
Spells name o d = (j : ℕ) → j < length name → d (o + j) ≡ get_or name j 0

matches-Spells :
    (name other : Str) (o : ℕ) (d : Bytes)
    → Spells name o d
    → matches (length name) o d other ≡ same_name name other
unfolding matches same_name
matches-Spells [] [] o d h = refl
matches-Spells [] (c ∷ cs) o d h = refl
matches-Spells (x ∷ xs) [] o d h = refl
matches-Spells (x ∷ xs) (c ∷ cs) o d h =
    let here : d o ≡ x = ap d (start_at o) ∙ h 0 (omega arith) in
    let rest =
      matches-Spells xs cs (o + 1) d (λ j p. ap d (step_at o j) ∙ h (suc j) (omega arith)) in
    ap₂ (λ z r. elim (z == c) [ true ↦ r | false ↦ false ]) here rest

-- The comparison reads at most as many bytes as the name has.
pub matches-Agree :
    (n o p : ℕ) (d e : Bytes) (name : Str)
    → ((j : ℕ) → j < length name → d (o + j) ≡ e (p + j))
    → matches n o d name ≡ matches n p e name
unfolding matches
matches-Agree zero o p d e [] h = refl
matches-Agree zero o p d e (c ∷ cs) h = refl
matches-Agree (suc n) o p d e [] h = refl
matches-Agree (suc n) o p d e (c ∷ cs) h =
    let here : d o ≡ e p = ap d (start_at o) ∙ h 0 (omega arith) ∙ ap e (sym (start_at p)) in
    let rest =
      matches-Agree n (o + 1) (p + 1) d e cs
        (λ j q. ap d (step_at o j) ∙ h (suc j) (omega arith) ∙ ap e (sym (step_at p j))) in
    ap₂ (λ z r. elim (z == c) [ true ↦ r | false ↦ false ]) here rest

-- The first index from `i` on that passes a test.
first : ℕ → ℕ → (ℕ → Bool) → Option ℕ
first zero i f = none
first (suc n) i f = elim (f i) [ true ↦ some i | false ↦ first n (i + 1) f ]

find_entry-first :
    (n i : ℕ) (d : Bytes) (name : Str) → find_entry n i d name ≡ first n i (is_named d name)
unfolding find_entry first
find_entry-first zero i d name = refl
find_entry-first (suc n) i d name =
    ap (λ o. elim (is_named d name i) [ true ↦ some i | false ↦ o ])
      (find_entry-first n (i + 1) d name)

-- The first result that is one.
unfoldable pub or_else : Option ℕ → Option ℕ → Option ℕ
or_else (some i) o = some i
or_else none o = o

first_none : (i : ℕ) (f : ℕ → Bool) → first 0 i f ≡ none
unfolding first
first_none i f = refl

first_hit : (n i : ℕ) (f : ℕ → Bool) → f i ≡ true → first (suc n) i f ≡ some i
unfolding first
first_hit n i f t = ground (arith, t)

first_miss : (n i : ℕ) (f : ℕ → Bool) → f i ≡ false → first (suc n) i f ≡ first n (i + 1) f
unfolding first
first_miss n i f t = ground (arith, t)

first-snoc :
    (n i : ℕ) (f : ℕ → Bool)
    → first (suc n) i f ≡ or_else (first n i f) (if f (i + n) then some (i + n) else none)
unfolding or_else
first-snoc zero i f = elim (Bool-cases (f i)) [
  | inl t ↦ rw (first_hit 0 i f t, first_none i f, sym (start_at i), t) refl
  | inr t ↦ rw (first_miss 0 i f t, first_none (i + 1) f, first_none i f, sym (start_at i), t) refl
]
first-snoc (suc n) i f = elim (Bool-cases (f i)) [
  | inl t ↦ rw (first_hit (suc n) i f t, first_hit n i f t) refl
  | inr t ↦
      rw (first_miss (suc n) i f t, first_miss n i f t, sym (step_at i n)) (first-snoc n (i + 1) f)
]

first-ext :
    (n i : ℕ) (f g : ℕ → Bool) → ((k : ℕ) → k < i + n → f k ≡ g k) → first n i f ≡ first n i g
unfolding first
first-ext zero i f g h = refl
first-ext (suc n) i f g h =
    ap₂ (λ b o. elim b [ true ↦ some i | false ↦ o ]) (h i (omega arith))
      (first-ext n (i + 1) f g (λ k p. h k (omega arith)))

take-all : (n : ℕ) (xs : Str) → length xs ≤ n → take n xs ≡ xs
take-all zero [] h = refl
take-all zero (x ∷ xs) h = absurd (omega arith)
take-all (suc n) [] h = refl
take-all (suc n) (x ∷ xs) h = ap (λ ys. x ∷ ys) (take-all n xs (omega arith))

first-lt : (n i k : ℕ) (f : ℕ → Bool) → first n i f ≡ some k → k < i + n
first-lt zero i k f e = absurd (none≢some (sym (first_none i f) ∙ e))
first-lt (suc n) i k f e = elim (Bool-cases (f i)) [
  | inl t ↦ let same = some-injective _ _ (sym (first_hit n i f t) ∙ e) in omega (arith, same)
  | inr t ↦
      let later = first-lt n (i + 1) k f (sym (first_miss n i f t) ∙ e) in omega (arith, later)
]

-- The inode of the first of `n` entries with a name: what _dir_lookup_name takes from the data.
unfoldable pub inode_named : ℕ → Bytes → Str → Option ℕ
inode_named n d name = elim (find_entry n 0 d name) [ none ↦ none | some i ↦ some (ent_inode d i) ]

module _ (n ino file_type : ℕ) (name : Str) (old junk : Bytes) (short : length name ≤ 23)
    (fits : ino < 2 ^ 32) where
  abbrev new : Bytes
  new = appended (32 * n) old junk ino file_type name

  -- The bytes in front are those of the old directory.
  old_byte : (b : ℕ) → b < 32 * n → new b ≡ old b
  unfolding appended
  old_byte b h = ground (arith, h)

  new_byte :
      (j : ℕ)
      → new (32 * n + j) ≡ entry_bytes ino file_type (take 23 name) (λ k. junk (32 * n + k)) j
  unfolding appended
  new_byte j =
      let e : 32 * n + j - 32 * n ≡ j = omega arith in
      ground (arith, ap (entry_bytes ino file_type (take 23 name) (λ k. junk (32 * n + k))) e)

  is_named_old :
      (other : Str) (i : ℕ)
      → length other ≤ 23
      → i < n
      → is_named new other i ≡ is_named old other i
  is_named_old other i s h =
      let inode =
        get32_eq new old (32 * i) (32 * i) (old_byte (32 * i) (omega arith))
          (old_byte (32 * i + 1) (omega arith)) (old_byte (32 * i + 2) (omega arith))
          (old_byte (32 * i + 3) (omega arith)) in
      let same =
        matches-Agree (old (32 * i + 6)) (32 * i + 8) (32 * i + 8) new old other
          (λ j p. old_byte (32 * i + 8 + j) (omega arith)) in
      ap₂ (λ a b. a != 0 && b) inode
        (ap (λ c. matches c (32 * i + 8) new other) (old_byte (32 * i + 6) (omega arith)) ∙ same)

  word_byte : (j : ℕ) → j < 4 → new (32 * n + j) ≡ byte ino j
  unfolding entry_bytes
  word_byte j h = new_byte j ∙ ground (arith, h)

  size_byte : new (32 * n + 6) ≡ length name
  unfolding entry_bytes
  size_byte = new_byte 6 ∙ ap length (take-all 23 name short)

  name_byte : (j : ℕ) → j < length name → new (32 * n + 8 + j) ≡ get_or name j 0
  unfolding entry_bytes
  name_byte j h =
      let e : 32 * n + 8 + j ≡ 32 * n + (8 + j) = omega arith in
      let f : 8 + j - 8 ≡ j = omega arith in
      ap new e ∙ new_byte (8 + j) ∙ rw (take-all 23 name short, f) (ground (arith, h, short))

  ent_inode-new : ent_inode new n ≡ ino
  ent_inode-new =
      get32-byte ino (32 * n) new fits (ap new (start_at (32 * n)) ∙ word_byte 0 (omega arith))
        (word_byte 1 (omega arith)) (word_byte 2 (omega arith)) (word_byte 3 (omega arith))

  is_named-new :
      (other : Str) → length other ≤ 23 → 0 < ino → is_named new other n ≡ same_name name other
  is_named-new other s h =
      let spelt = matches-Spells name other (32 * n + 8) new name_byte in
      ap₂ (λ a b. a != 0 && b) ent_inode-new
        (ap (λ c. matches c (32 * n + 8) new other) size_byte ∙ spelt)
      ∙ ground (arith, h)

  old_inode : (i : ℕ) → i < n → ent_inode new i ≡ ent_inode old i
  old_inode i h =
      get32_eq new old (32 * i) (32 * i) (old_byte (32 * i) (omega arith))
        (old_byte (32 * i + 1) (omega arith)) (old_byte (32 * i + 2) (omega arith))
        (old_byte (32 * i + 3) (omega arith))

  named :
      (b : Bool)
      → (elim (if b then some n else none) [ none ↦ none | some i ↦ some (ent_inode new i) ])
        ≡ (if b then some ino else none)
  named true = ap some ent_inode-new
  named false = refl

  combined :
      (o : Option ℕ) (b : Bool)
      → ((i : ℕ) → o ≡ some i → i < 0 + n)
      → (elim (or_else o (if b then some n else none)) [
        | none ↦ none
        | some i ↦ some (ent_inode new i)
      ])
        ≡ or_else
            (elim o [ none ↦ none | some i ↦ some (ent_inode old i) ])
            (if b then some ino else none)
  unfolding or_else
  combined none b h = named b
  combined (some i) b h = ap some (old_inode i (omega (arith, h i refl)))

  find-appended :
      (other : Str)
      → length other ≤ 23
      → 0 < ino
      → find_entry (suc n) 0 new other
        ≡ or_else (find_entry n 0 old other) (if same_name name other then some n else none)
  find-appended other s h =
      find_entry-first (suc n) 0 new other
      ∙ first-snoc n 0 (is_named new other)
      ∙ ap₂ or_else
          (first-ext n 0 (is_named new other) (is_named old other)
              (λ k p. is_named_old other k s (omega arith))
            ∙ sym (find_entry-first n 0 old other))
          (let e : 0 + n ≡ n = omega arith in rw (e, is_named-new other s h) refl)

  -- A directory of `n` entries to which an entry is appended, whose name has at most 23 bytes and whose
  -- inode is neither 0 nor too large, gives for a name of at most 23 bytes what it gave before, and if it
  -- gave nothing and the name is that of the new entry, the new inode.
  pub inode_named-appended :
      (other : Str)
      → length other ≤ 23
      → 0 < ino
      → inode_named (suc n) new other
        ≡ or_else (inode_named n old other) (if same_name name other then some ino else none)
  unfolding inode_named or_else
  inode_named-appended other s h =
      ap (λ o. elim o [ none ↦ none | some i ↦ some (ent_inode new i) ]) (find-appended other s h)
      ∙ combined (find_entry n 0 old other) (same_name name other)
          (λ i e. first-lt n 0 i (is_named old other) (sym (find_entry-first n 0 old other) ∙ e))
