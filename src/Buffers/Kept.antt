-- ===== src/Buffers/Kept.antt =====
-- What a good cache is, and what its look-up finds.
use noxis.Prelude.{
  ℕ, ◌≤◌, ◌<◌, ◌≡◌, ◌≢◌, ◌⊎◌, inl, inr, refl, sym, ap, ◌∙◌, Bool, true, false, List, none, some,
  arith,
}
use noxis.Prelude.{update, update_self, update_ne, length, Bool-cases, ==-cases}
use noxis.Buffers.{Cache, nbuf, hash, hash_lookup, bwrite, write_block, is_block}
use mathlib.Core.Path.{subst, ap₂}
use noxis.Buffers.Chains.{In, Distinct, Links, length-le_of_below, lookup_lem}

-- `chain h` is what bucket h leads to: the valid buffers with that hash. No two of them hold one block,
-- a valid buffer that is not dirty holds what is on the disk, and only a valid one is dirty.
pub record IsCache (c : Cache) (chain : ℕ → List ℕ) : Type 0 where
  pub linked : (h : ℕ) → Links c.hash_next (c.buckets h) (chain h)
  pub distinct : (h : ℕ) → Distinct (chain h)
  pub sound :
      (h p : ℕ)
      → In p (chain h)
      → (p < nbuf) × (c.valid p ≡ true) × (hash (c.dev p) (c.blockno p) ≡ h)
  pub complete : (p : ℕ) → p < nbuf → c.valid p ≡ true → In p (chain (hash (c.dev p) (c.blockno p)))
  pub unique :
      (p q : ℕ)
      → p < nbuf
      → q < nbuf
      → c.valid p ≡ true
      → c.valid q ≡ true
      → c.dev p ≡ c.dev q
      → c.blockno p ≡ c.blockno q
      → p ≡ q
  pub clean :
      (p : ℕ)
      → p < nbuf
      → c.valid p ≡ true
      → c.dirty p ≡ false
      → (i : ℕ) → c.bytes p i ≡ c.disk (c.dev p) (c.blockno p) i
  pub dirtied : (p : ℕ) → p < nbuf → c.dirty p ≡ true → c.valid p ≡ true
  pub in_lru : (p : ℕ) → In p c.lru → p < nbuf

-- Buffer p holds block b of device d.
pub record Holds (c : Cache) (d b p : ℕ) : Type 0 where
  pub small : p < nbuf
  pub is_valid : c.valid p ≡ true
  pub on_dev : c.dev p ≡ d
  pub at_block : c.blockno p ≡ b

-- What a block holds: the bytes of its buffer, or those on the disk.
pub view : Cache → ℕ → ℕ → ℕ → ℕ
view c d b i = elim (hash_lookup d b c) [ none ↦ c.disk d b i | some p ↦ c.bytes p i ]

is_block_holds :
    (d b p : ℕ) (c : Cache) → is_block d b p c ≡ true → (c.dev p ≡ d) × (c.blockno p ≡ b)
is_block_holds d b p c h = (ground arith, ground arith)

holds_is_block : (d b p : ℕ) (c : Cache) → c.dev p ≡ d → c.blockno p ≡ b → is_block d b p c ≡ true
holds_is_block d b p c h k = ground arith

module _ (c : Cache) (chain : ℕ → List ℕ) (good : IsCache c chain) where
  pub hash_lookup_lem :
      (d b : ℕ)
      → (hash_lookup d b c ≡ none) × ((p : ℕ) → ¬ Holds c d b p)
        ⊎ ((p : ℕ) × (hash_lookup d b c ≡ some p) × Holds c d b p)
  unfolding hash_lookup
  hash_lookup_lem d b = elim (lookup_lem nbuf d b c (c.buckets h) (chain h) short (good.linked h)) [
    | inl (miss, all) ↦ inl (
      miss,
      λ p k. false≢true (sym (all p (member p k)) ∙ holds_is_block d b p c k.on_dev k.at_block),
    )
    | inr (p, found, m, t) ↦ inr (
      p,
      found,
      record {
        small = (good.sound h p m).0;
        is_valid = (good.sound h p m).1;
        on_dev = (is_block_holds d b p c t).0;
        at_block = (is_block_holds d b p c t).1;
      },
    )
  ]
    where
      h : ℕ
      h = hash d b

      short : length (chain h) ≤ nbuf
      short = length-le_of_below nbuf (chain h) (λ q m. (good.sound h q m).0) (good.distinct h)

      member : (p : ℕ) → Holds c d b p → In p (chain h)
      member p k =
          subst (λ g. In p (chain g)) (ap₂ hash k.on_dev k.at_block)
            (good.complete p k.small k.is_valid)

      false≢true : false ≢ true
      false≢true e = cc

  pub only_holder : (d b p q : ℕ) → Holds c d b p → Holds c d b q → p ≡ q
  only_holder d b p q h k =
      good.unique p q h.small k.small h.is_valid k.is_valid (h.on_dev ∙ sym k.on_dev)
        (h.at_block ∙ sym k.at_block)

  pub view_held : (d b p i : ℕ) → Holds c d b p → view c d b i ≡ c.bytes p i
  unfolding view
  view_held d b p i h = elim (hash_lookup_lem d b) [
    | inl (miss, all) ↦ absurd (all p h)
    | inr (q, found, k) ↦ rw (found, view) (ap (λ r. c.bytes r i) (only_holder d b q p k h))
  ]

  pub view_absent : (d b i : ℕ) → ((p : ℕ) → ¬ Holds c d b p) → view c d b i ≡ c.disk d b i
  unfolding view
  view_absent d b i h = elim (hash_lookup_lem d b) [
    | inl (miss, all) ↦ rw (miss, view) refl
    | inr (q, found, k) ↦ absurd (h q k)
  ]

  pub held-cases : (d b : ℕ) → ((p : ℕ) → ¬ Holds c d b p) ⊎ ((p : ℕ) × Holds c d b p)
  held-cases d b = elim (hash_lookup_lem d b) [
    | inl (miss, all) ↦ inl all
    | inr (q, found, k) ↦ inr (q, k)
  ]

-- bwrite of a buffer keeps a good cache and what every block holds.
module _ (works : ℕ → ℕ → Bool) (always : (d b : ℕ) → works d b ≡ true) (c : Cache)
    (chain : ℕ → List ℕ) (good : IsCache c chain) (p : ℕ) (small : p < nbuf) where
  abbrev written : Cache
  written = record c {
    disk = write_block c.disk (c.dev p) (c.blockno p) (c.bytes p);
    dirty = update c.dirty p false;
  }

  bwrite_lem :
      (c.dirty p ≡ true) × (bwrite works p c ≡ written)
      ⊎ (c.dirty p ≡ false) × (bwrite works p c ≡ c)
  unfolding bwrite
  bwrite_lem = elim (Bool-cases (c.dirty p)) [
    | inl e ↦ inl (e, rw e (rw (always (c.dev p) (c.blockno p))))
    | inr e ↦ inr (e, rw e)
  ]

  -- What is at another block than that of a buffer that is written.
  elsewhere :
      (d b i : ℕ)
      → ¬ ((c.dev p ≡ d) × (c.blockno p ≡ b))
      → write_block c.disk (c.dev p) (c.blockno p) (c.bytes p) d b i ≡ c.disk d b i
  elsewhere d b i h = elim (Bool-cases (is_block d b p c)) [
    | inl e ↦ absurd (h (is_block_holds d b p c e))
    | inr e ↦ rw e refl
  ]

  written-IsCache : c.dirty p ≡ true → IsCache written chain
  written-IsCache e = record {
    linked = good.linked;
    distinct = good.distinct;
    sound = good.sound;
    complete = good.complete;
    unique = good.unique;
    clean = λ q k v t i. elim (==-cases p q) [
      | inl (same, u) ↦
          subst (λ r. c.bytes r i ≡ written.disk (c.dev r) (c.blockno r) i) same
            (rw (holds_is_block (c.dev p) (c.blockno p) p c refl refl) refl)
      | inr (ne, u) ↦
          good.clean q k v (sym (update_ne c.dirty p q false ne) ∙ t) i
          ∙ sym (
              elsewhere (c.dev q) (c.blockno q) i
                (λ both. ne (good.unique p q small k (good.dirtied p small e) v both.0 both.1)))
    ];
    dirtied = λ q k t. elim (==-cases p q) [
      | inl (same, u) ↦ subst (λ r. c.valid r ≡ true) same (good.dirtied p small e)
      | inr (ne, u) ↦ good.dirtied q k (sym (update_ne c.dirty p q false ne) ∙ t)
    ];
    in_lru = good.in_lru;
  }

  as_before : (d b q : ℕ) → Holds written d b q → Holds c d b q
  as_before d b q h = record {
    small = h.small;
    is_valid = h.is_valid;
    on_dev = h.on_dev;
    at_block = h.at_block;
  }

  view-written : c.dirty p ≡ true → (d b i : ℕ) → view written d b i ≡ view c d b i
  view-written e d b i = elim (held-cases c chain good d b) [
    | inl all ↦
        view_absent written chain (written-IsCache e) d b i (λ q h. all q (as_before d b q h))
        ∙ elsewhere d b i (λ both. all p (record {
          small = small;
          is_valid = good.dirtied p small e;
          on_dev = both.0;
          at_block = both.1;
        }))
        ∙ sym (view_absent c chain good d b i all)
    | inr (q, h) ↦
        view_held written chain (written-IsCache e) d b q i (record {
          small = h.small;
          is_valid = h.is_valid;
          on_dev = h.on_dev;
          at_block = h.at_block;
        })
        ∙ sym (view_held c chain good d b q i h)
  ]

  pub bwrite-IsCache : IsCache (bwrite works p c) chain
  bwrite-IsCache = elim bwrite_lem [
    | inl (e, f) ↦ rw f (written-IsCache e)
    | inr (e, f) ↦ rw f good
  ]

  -- After bwrite every block holds what it held, and the buffer is not dirty.
  pub view-bwrite : (d b i : ℕ) → view (bwrite works p c) d b i ≡ view c d b i
  view-bwrite d b i = elim bwrite_lem [
    | inl (e, f) ↦ rw f (view-written e d b i)
    | inr (e, f) ↦ rw f refl
  ]

  pub dirty-bwrite : (bwrite works p c).dirty p ≡ false
  dirty-bwrite = elim bwrite_lem [
    | inl (e, f) ↦ rw f (update_self c.dirty p false)
    | inr (e, f) ↦ rw f e
  ]

  pub held-bwrite : (d b q : ℕ) → Holds (bwrite works p c) d b q → Holds c d b q
  held-bwrite d b q h = elim bwrite_lem [
    | inl (e, f) ↦ as_before d b q (rw f at h)
    | inr (e, f) ↦ rw f at h
  ]
