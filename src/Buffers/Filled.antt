-- ===== src/Buffers/Filled.antt =====
-- A buffer that is given to another block: it is read from the disk, and joins the chain of the new block.
use noxis.Prelude.{
  ℕ, ◌<◌, ◌≡◌, ◌≢◌, ◌⊎◌, inl, inr, refl, sym, ap, ◌∙◌, Bool, true, false, List, ◌∷◌, Option, some,
}
use noxis.Prelude.{◌==◌, if◌then◌else◌, update, update_self, update_ne, update-update, ==-cases}
use mathlib.Core.Path.{subst, ap₂}
use noxis.Buffers.{Cache, nbuf, hash, erase, enlist, mark, fetch, assign, hash_insert}
use noxis.Buffers.Chains.{
  In, Distinct, Links, Links-agree, In-erase, In-erase_ne, Distinct-erase, not-In-erase,
}
use noxis.Buffers.Kept.{IsCache, Holds, view, view_held, view_absent, held-cases, only_holder}

module _ (d b p : ℕ) (c : Cache) where
  -- The cache with buffer p given to block b of device d.
  abbrev pub filled : Cache
  filled = record c {
    dev = update c.dev p d;
    blockno = update c.blockno p b;
    valid = update c.valid p true;
    dirty = update c.dirty p false;
    busy = update c.busy p true;
    bytes = update c.bytes p (c.disk d b);
    hash_next = update c.hash_next p (c.buckets (hash d b));
    buckets = update c.buckets (hash d b) (some p);
    lru = p ∷ erase p c.lru;
  }

  pub fill_lem :
      (works : ℕ → ℕ → Bool)
      → ((d b : ℕ) → works d b ≡ true)
      → enlist p (mark p (fetch works p (assign d b p c))) ≡ filled
  unfolding fetch hash_insert
  fill_lem works always = rw (always (update c.dev p d p) (update c.blockno p b p)) (λ i. record {
    dev = update c.dev p d;
    blockno = update c.blockno p b;
    valid = update-update c.valid p false true i;
    dirty = update-update c.dirty p false false i;
    busy = update-update c.busy p false true i;
    bytes = update c.bytes p (c.disk (new_dev i) (new_block i));
    hash_next = update c.hash_next p (c.buckets (hash (new_dev i) (new_block i)));
    buckets = update c.buckets (hash (new_dev i) (new_block i)) (some p);
    lru = p ∷ erase p c.lru;
    disk = c.disk;
  })
    where
      new_dev : update c.dev p d p ≡ d
      new_dev = update_self c.dev p d

      new_block : update c.blockno p b p ≡ b
      new_block = update_self c.blockno p b

-- A clean buffer, which no chain holds any more, is given to a block that no buffer holds.
module _ (c : Cache) (chain : ℕ → List ℕ) (good : IsCache c chain) (d b p : ℕ) (small : p < nbuf)
    (idle : c.dirty p ≡ false) (absent : (q : ℕ) → ¬ Holds c d b q) (next' buckets' : ℕ → Option ℕ)
    (links : (h : ℕ) → Links next' (buckets' h) (erase p (chain h))) where
  abbrev pub spare : Cache
  spare = record c { hash_next = next'; buckets = buckets' }

  abbrev pub after : Cache
  after = filled d b p spare

  abbrev pub new_chain : ℕ → List ℕ
  new_chain h = if hash d b == h then p ∷ erase p (chain h) else erase p (chain h)

  not_p : (h : ℕ) → ¬ In p (erase p (chain h))
  not_p h = not-In-erase p (chain h) (good.distinct h)

  In-new : (h q : ℕ) → In q (new_chain h) → (p ≡ q) × (hash d b ≡ h) ⊎ (p ≢ q) × In q (chain h)
  In-new h q m = elim (==-cases (hash d b) h) [
    | inl (same, t) ↦ elim (rw t at m) [
      | inl e ↦ inl (sym e, same)
      | inr n ↦ inr ((λ e. not_p h (rw (← e) at n)), In-erase p q (chain h) n)
    ]
    | inr (ne, t) ↦
        let n = rw t at m in inr ((λ e. not_p h (rw (← e) at n)), In-erase p q (chain h) n)
  ]

  kept-Links : (h : ℕ) → Links after.hash_next (buckets' h) (erase p (chain h))
  kept-Links h =
      Links-agree next' after.hash_next (buckets' h) (erase p (chain h))
        (λ q m. update_ne next' p q (buckets' (hash d b)) (λ e. not_p h (rw (← e) at m))) (links h)

  after-Links : (h : ℕ) → Links after.hash_next (after.buckets h) (new_chain h)
  after-Links h = elim (==-cases (hash d b) h) [
    | inl (same, t) ↦ rw t (
      refl,
      subst (λ o. Links after.hash_next o (erase p (chain h)))
          (sym (update_self next' p (buckets' (hash d b)) ∙ ap buckets' same)) (kept-Links h),
    )
    | inr (ne, t) ↦ rw t (kept-Links h)
  ]

  pub on_p : (q : ℕ) → p ≡ q → Holds after d b q
  on_p q e = subst (Holds after d b) e (record {
    small = small;
    is_valid = update_self c.valid p true;
    on_dev = update_self c.dev p d;
    at_block = update_self c.blockno p b;
  })

  on_other :
      (q : ℕ)
      → p ≢ q
      → (after.valid q ≡ c.valid q)
        × (after.dev q ≡ c.dev q)
        × (after.blockno q ≡ c.blockno q)
        × (after.dirty q ≡ c.dirty q)
  on_other q n = (
    update_ne c.valid p q true n,
    update_ne c.dev p q d n,
    update_ne c.blockno p q b n,
    update_ne c.dirty p q false n,
  )

  -- Who holds a block afterwards.
  held_after :
      (d' b' q : ℕ)
      → Holds after d' b' q
      → (p ≡ q) × (d ≡ d') × (b ≡ b') ⊎ (p ≢ q) × Holds c d' b' q
  held_after d' b' q h = elim (==-cases p q) [
    | inl (e, t) ↦
        inl (e, sym ((on_p q e).on_dev) ∙ h.on_dev, sym ((on_p q e).at_block) ∙ h.at_block)
    | inr (n, t) ↦
        let (v, x, y, z) = on_other q n in
        inr (
          n,
          record {
            small = h.small;
            is_valid = sym v ∙ h.is_valid;
            on_dev = sym x ∙ h.on_dev;
            at_block = sym y ∙ h.at_block;
          },
        )
  ]

  still_held : (d' b' q : ℕ) → p ≢ q → Holds c d' b' q → Holds after d' b' q
  still_held d' b' q n h =
      let (v, x, y, z) = on_other q n in
      record {
        small = h.small;
        is_valid = v ∙ h.is_valid;
        on_dev = x ∙ h.on_dev;
        at_block = y ∙ h.at_block;
      }

  after_sound :
      (h q : ℕ)
      → In q (new_chain h)
      → (q < nbuf) × (after.valid q ≡ true) × (hash (after.dev q) (after.blockno q) ≡ h)
  after_sound h q m = elim (In-new h q m) [
    | inl (same, e) ↦ let k = on_p q same in (k.small, k.is_valid, ap₂ hash k.on_dev k.at_block ∙ e)
    | inr (ne, n) ↦
        let (v, x, y, z) = on_other q ne in
        let (s, w, g) = good.sound h q n in (s, v ∙ w, ap₂ hash x y ∙ g)
  ]

  In-chain : (h q : ℕ) → p ≢ q → In q (chain h) → In q (new_chain h)
  In-chain h q n m =
      let k = In-erase_ne p q (chain h) (λ e. n (sym e)) m in
      elim (==-cases (hash d b) h) [ inl (same, t) ↦ rw t (inr k) | inr (ne, t) ↦ rw t k ]

  p-In : (h : ℕ) → hash d b ≡ h → In p (new_chain h)
  p-In h e = elim (==-cases (hash d b) h) [
    | inl (same, t) ↦ rw t (inl refl)
    | inr (ne, t) ↦ absurd (ne e)
  ]

  after_complete :
      (q : ℕ)
      → q < nbuf
      → after.valid q ≡ true
      → In q (new_chain (hash (after.dev q) (after.blockno q)))
  after_complete q k v = elim (==-cases p q) [
    | inl (e, t) ↦
        subst (λ r. In r (new_chain (hash (after.dev q) (after.blockno q)))) e
          (p-In (hash (after.dev q) (after.blockno q))
            (sym (ap₂ hash ((on_p q e).on_dev) ((on_p q e).at_block))))
    | inr (n, t) ↦
        let (w, x, y, z) = on_other q n in
        In-chain (hash (after.dev q) (after.blockno q)) q n
          (subst (λ h. In q (chain h)) (sym (ap₂ hash x y)) (good.complete q k (sym w ∙ v)))
  ]

  after-Distinct : (h : ℕ) → Distinct (new_chain h)
  after-Distinct h = elim (==-cases (hash d b) h) [
    | inl (same, t) ↦ rw t (not_p h, Distinct-erase p (chain h) (good.distinct h))
    | inr (ne, t) ↦ rw t (Distinct-erase p (chain h) (good.distinct h))
  ]

  after_unique : (d' b' q r : ℕ) → Holds after d' b' q → Holds after d' b' r → q ≡ r
  after_unique d' b' q r h k = elim (held_after d' b' q h) [
    | inl (e, x, y) ↦ elim (held_after d' b' r k) [
      | inl (f, z, z') ↦ sym e ∙ f
      | inr (n, m) ↦ absurd (absent r (rw (x, y) m))
    ]
    | inr (n, m) ↦ elim (held_after d' b' r k) [
      | inl (f, x, y) ↦ absurd (absent q (rw (x, y) m))
      | inr (n', m') ↦ only_holder c chain good d' b' q r m m'
    ]
  ]

  pub shows_disk : (q i : ℕ) → p ≡ q → after.bytes q i ≡ c.disk d b i
  shows_disk q i s =
      subst (λ r. after.bytes r i ≡ c.disk d b i) s
        (ap (λ (f : ℕ → ℕ). f i) (update_self c.bytes p (c.disk d b)))

  after-clean :
      (q : ℕ)
      → q < nbuf
      → after.valid q ≡ true
      → after.dirty q ≡ false
      → (i : ℕ) → after.bytes q i ≡ c.disk (after.dev q) (after.blockno q) i
  after-clean q k v e i = elim (==-cases p q) [
    | inl (s, t) ↦
        shows_disk q i s ∙ sym (ap₂ (λ x y. c.disk x y i) ((on_p q s).on_dev) ((on_p q s).at_block))
    | inr (n, t) ↦
        let (w, x, y, z) = on_other q n in
        ap (λ (f : ℕ → ℕ). f i) (update_ne c.bytes p q (c.disk d b) n)
        ∙ good.clean q k (sym w ∙ v) (sym z ∙ e) i
        ∙ sym (ap₂ (λ x' y'. c.disk x' y' i) x y)
  ]

  after-dirtied : (q : ℕ) → q < nbuf → after.dirty q ≡ true → after.valid q ≡ true
  after-dirtied q k e = elim (==-cases p q) [
    | inl (s, t) ↦ (on_p q s).is_valid
    | inr (n, t) ↦ let (w, x, y, z) = on_other q n in w ∙ good.dirtied q k (sym z ∙ e)
  ]

  pub filled-IsCache : IsCache after new_chain
  filled-IsCache = record {
    linked = after-Links;
    distinct = after-Distinct;
    sound = after_sound;
    complete = after_complete;
    unique = λ q r k l v w x y.
        after_unique (after.dev q) (after.blockno q) q r
          (record { small = k; is_valid = v; on_dev = refl; at_block = refl })
          (record { small = l; is_valid = w; on_dev = sym x; at_block = sym y });
    clean = after-clean;
    dirtied = after-dirtied;
    in_lru = λ q m. elim m [ inl e ↦ rw e small | inr n ↦ good.in_lru q (In-erase p q c.lru n) ];
  }

  bytes-other : (q i : ℕ) → p ≢ q → after.bytes q i ≡ c.bytes q i
  bytes-other q i n = ap (λ (f : ℕ → ℕ). f i) (update_ne c.bytes p q (c.disk d b) n)

  -- A block that no other buffer held is shown as it is on the disk.
  view-disk :
      (d' b' i : ℕ) → ((q : ℕ) → p ≢ q → ¬ Holds c d' b' q) → view after d' b' i ≡ c.disk d' b' i
  view-disk d' b' i alone = elim (held-cases after new_chain filled-IsCache d' b') [
    | inl none_held ↦ view_absent after new_chain filled-IsCache d' b' i none_held
    | inr (q, h) ↦ elim (held_after d' b' q h) [
      | inl (e, x, y) ↦
          view_held after new_chain filled-IsCache d' b' q i h
          ∙ shows_disk q i e
          ∙ ap₂ (λ x' y'. c.disk x' y' i) x y
      | inr (n, m) ↦ absurd (alone q n m)
    ]
  ]

  pub view-filled : (d' b' i : ℕ) → view after d' b' i ≡ view c d' b' i
  view-filled d' b' i = elim (held-cases c chain good d' b') [
    | inl none_held ↦
        view-disk d' b' i (λ q n m. none_held q m)
        ∙ sym (view_absent c chain good d' b' i none_held)
    | inr (q, h) ↦ elim (==-cases p q) [
      | inl (e, t) ↦
          view-disk d' b' i (λ r n m. n (e ∙ only_holder c chain good d' b' q r h m))
          ∙ sym (
              view_held c chain good d' b' q i h
              ∙ good.clean q h.small h.is_valid (subst (λ r. c.dirty r ≡ false) e idle) i
              ∙ ap₂ (λ x y. c.disk x y i) h.on_dev h.at_block)
      | inr (n, t) ↦
          view_held after new_chain filled-IsCache d' b' q i (still_held d' b' q n h)
          ∙ bytes-other q i n
          ∙ sym (view_held c chain good d' b' q i h)
    ]
  ]
