-- ===== src/Buffers/Disk.antt =====
-- bread against the disk that the cache stands for: the buffer it returns holds the block, and every
-- block still holds what it held.
use noxis.Prelude.{
  ℕ, zero, suc, ◌<◌, ◌≡◌, ◌⊎◌, inl, inr, refl, sym, ap, ◌∙◌, Bool, true, false, not, List, [], ◌∷◌,
  ◌++◌, Option, none, some, arith,
}
use noxis.Prelude.{◌&&◌, update, update_self, Bool-cases, ==-cases}
use mathlib.Core.Path.{fun_ext}
use mathlib.Core.List.{reverse, reverse-cons}
use mathlib.Core.Bool.{false≢true}
use noxis.Buffers.{
  Cache, nbuf, erase, enlist, mark, fetch, assign, forget, hit, bread, evict, first_clean,
  first_idle, bwrite, heads, buf_init,
}
use noxis.Buffers.Chains.{In, In-erase}
use noxis.Buffers.Kept.{
  IsCache, Holds, view, view_held, view_absent, held-cases, hash_lookup_lem, bwrite-IsCache,
  view-bwrite, dirty-bwrite, held-bwrite,
}
use noxis.Buffers.Forgotten.{forget-Forgotten}
use noxis.Buffers.Filled.{
  filled, fill_lem, filled-IsCache, view-filled, new_chain, on_p, shows_disk,
}

In-append : (p : ℕ) (xs ys : List ℕ) → In p (xs ++ ys) → In p xs ⊎ In p ys
In-append p [] ys m = inr m
In-append p (x ∷ xs) ys (inl e) = inl (inl e)
In-append p (x ∷ xs) ys (inr m) = elim (In-append p xs ys m) [ inl a ↦ inl (inr a) | inr b ↦ inr b ]

In-append_left : (p : ℕ) (xs ys : List ℕ) → In p xs → In p (xs ++ ys)
In-append_left p (x ∷ xs) ys (inl e) = inl e
In-append_left p (x ∷ xs) ys (inr m) = inr (In-append_left p xs ys m)
In-append_left p [] ys m = absurd m

In-append_right : (p : ℕ) (xs ys : List ℕ) → In p ys → In p (xs ++ ys)
In-append_right p [] ys m = m
In-append_right p (x ∷ xs) ys m = inr (In-append_right p xs ys m)

In-reverse : (p : ℕ) (l : List ℕ) → In p (reverse l) → In p l
In-reverse p [] m = m
In-reverse p (x ∷ xs) m = elim (In-append p (reverse xs) (x ∷ []) (rw (reverse-cons x xs) at m)) [
  | inl a ↦ inr (In-reverse p xs a)
  | inr b ↦ elim b [ inl e ↦ inl e | inr n ↦ absurd n ]
]

In-reversed : (p : ℕ) (l : List ℕ) → In p l → In p (reverse l)
In-reversed p [] m = m
In-reversed p (x ∷ xs) m = rw (reverse-cons x xs) (elim m [
  | inl e ↦ In-append_right p (reverse xs) (x ∷ []) (inl e)
  | inr n ↦ In-append_left p (reverse xs) (x ∷ []) (In-reversed p xs n)
])

first_clean_lem :
    (ps : List ℕ) (c : Cache)
    → (first_clean ps c ≡ none)
      ⊎ ((p : ℕ) × (first_clean ps c ≡ some p) × In p ps × (c.dirty p ≡ false))
unfolding first_clean
first_clean_lem [] c = inl refl
first_clean_lem (p ∷ ps) c = elim (Bool-cases (not (c.busy p) && not (c.dirty p))) [
  | inl e ↦ inr (p, rw e refl, inl refl, ground arith)
  | inr e ↦ elim (first_clean_lem ps c) [
    | inl f ↦ inl (rw e f)
    | inr (q, f, m, g) ↦ inr (q, rw e f, inr m, g)
  ]
]

first_idle_lem :
    (ps : List ℕ) (c : Cache)
    → (first_idle ps c ≡ none) × ((p : ℕ) → In p ps → c.busy p ≡ true)
      ⊎ ((p : ℕ) × (first_idle ps c ≡ some p) × In p ps)
unfolding first_idle
first_idle_lem [] c = inl (refl, λ p m. absurd m)
first_idle_lem (p ∷ ps) c = elim (Bool-cases (c.busy p)) [
  | inr e ↦ inr (p, rw e refl, inl refl)
  | inl e ↦ elim (first_idle_lem ps c) [
    | inl (f, all) ↦ inl (rw e f, λ q m. elim m [ inl s ↦ rw s e | inr n ↦ all q n ])
    | inr (q, f, m) ↦ inr (q, rw e f, inr m)
  ]
]

module _ (works : ℕ → ℕ → Bool) (always : (d b : ℕ) → works d b ≡ true) (c : Cache)
    (chain : ℕ → List ℕ) (good : IsCache c chain) where
  -- The buffer of evict is clean, whether it was or was written first.
  record Evicts (p : ℕ) : Type 0 where
    found : (evict works c).1 ≡ some p
    small : p < nbuf
    keeps : IsCache (evict works c).0 chain
    clean : (evict works c).0.dirty p ≡ false
    same_view : (d b i : ℕ) → view (evict works c).0 d b i ≡ view c d b i
    no_more : (d b q : ℕ) → Holds (evict works c).0 d b q → Holds c d b q

  abbrev AllBusy : Type 0
  AllBusy = (p : ℕ) → In p c.lru → c.busy p ≡ true

  evict_lem : (evict works c ≡ (c, none)) × AllBusy ⊎ ((p : ℕ) × Evicts p)
  unfolding evict
  evict_lem = elim (first_clean_lem (reverse c.lru) c) [
    | inr (p, e, m, k) ↦ inr (
      p,
      record {
        found = rw (e, evict) refl;
        small = good.in_lru p (In-reverse p c.lru m);
        keeps = rw (e, evict) good;
        clean = rw (e, evict) k;
        same_view = λ d b i. rw (e, evict) refl;
        no_more = λ d b q h. rw (e, evict) at h;
      },
    )
    | inl e ↦ elim (first_idle_lem (reverse c.lru) c) [
      | inl (f, all) ↦ inl (rw (e, evict) (rw f refl), λ p m. all p (In-reversed p c.lru m))
      | inr (p, f, m) ↦
          let small = good.in_lru p (In-reverse p c.lru m) in
          let same : evict works c ≡ (bwrite works p c, some p) = rw (e, evict) (rw f refl) in
          inr (
            p,
            record {
              found = ap (λ r. r.1) same;
              small = small;
              keeps = rw same (bwrite-IsCache works always c chain good p small);
              clean = rw same (dirty-bwrite works always c chain good p small);
              same_view = λ d b i. rw same (view-bwrite works always c chain good p small d b i);
              no_more =
                  λ d b q h. held-bwrite works always c chain good p small d b q (rw same at h);
            },
          )
    ]
  ]

-- What bread gives: NULL, with the cache as it was, where every buffer of the LRU list is busy; or a
-- busy buffer that holds the block with the bytes of the block, in a good cache in which every block
-- of every device holds what it held.
pub record Returned (c c' : Cache) (d b p : ℕ) : Type 0 where
  pub chain : ℕ → List ℕ
  pub good : IsCache c' chain
  pub holds : Holds c' d b p
  pub is_busy : c'.busy p ≡ true
  pub shows : (i : ℕ) → c'.bytes p i ≡ view c d b i
  pub all_kept : (d' b' i : ℕ) → view c' d' b' i ≡ view c d' b' i

abbrev pub IsRead : Cache → ℕ → ℕ → Cache × Option ℕ → Type 0
IsRead c d b (c', none) = (c' ≡ c) × ((p : ℕ) → In p c.lru → c.busy p ≡ true)
IsRead c d b (c', some p) = Returned c c' d b p

module _ (works : ℕ → ℕ → Bool) (always : (d b : ℕ) → works d b ≡ true) (c : Cache)
    (chain : ℕ → List ℕ) (good : IsCache c chain) (d b : ℕ) where
  abbrev touched : ℕ → Cache
  touched p = record c { lru = p ∷ erase p c.lru; busy = update c.busy p true }

  hit_lem : (p : ℕ) → c.valid p ≡ true → hit works p c ≡ touched p
  unfolding hit
  hit_lem p v = rw v (λ i. record (touched p) { valid = as_it_was i })
    where
      as_it_was : update c.valid p true ≡ c.valid
      as_it_was = fun_ext λ j. elim (==-cases p j) [
        | inl (e, t) ↦ rw t (sym v ∙ ap c.valid e)
        | inr (n, t) ↦ rw t refl
      ]

  touched-IsCache : (p : ℕ) → p < nbuf → IsCache (touched p) chain
  touched-IsCache p k = record {
    linked = good.linked;
    distinct = good.distinct;
    sound = good.sound;
    complete = good.complete;
    unique = good.unique;
    clean = good.clean;
    dirtied = good.dirtied;
    in_lru = λ q m. elim m [ inl e ↦ rw e k | inr n ↦ good.in_lru q (In-erase p q c.lru n) ];
  }

  touched-Holds : (p d' b' q : ℕ) → Holds c d' b' q → Holds (touched p) d' b' q
  touched-Holds p d' b' q h = record {
    small = h.small;
    is_valid = h.is_valid;
    on_dev = h.on_dev;
    at_block = h.at_block;
  }

  view-touched : (p : ℕ) → p < nbuf → (d' b' i : ℕ) → view (touched p) d' b' i ≡ view c d' b' i
  view-touched p k d' b' i = elim (held-cases c chain good d' b') [
    | inl all ↦
        view_absent (touched p) chain (touched-IsCache p k) d' b' i (λ q h. all q (record {
          small = h.small;
          is_valid = h.is_valid;
          on_dev = h.on_dev;
          at_block = h.at_block;
        }))
        ∙ sym (view_absent c chain good d' b' i all)
    | inr (q, h) ↦
        view_held (touched p) chain (touched-IsCache p k) d' b' q i (touched-Holds p d' b' q h)
        ∙ sym (view_held c chain good d' b' q i h)
  ]

  hit-Returned : (p : ℕ) → Holds c d b p → Returned c (hit works p c) d b p
  hit-Returned p h = rw (hit_lem p h.is_valid) (record {
    chain = chain;
    good = touched-IsCache p h.small;
    holds = touched-Holds p d b p h;
    is_busy = update_self c.busy p true;
    shows = λ i. sym (view_held c chain good d b p i h);
    all_kept = view-touched p h.small;
  })

  miss-Returned :
      (p : ℕ)
      → ((q : ℕ) → ¬ Holds c d b q)
      → Evicts works always c chain good p
      → Returned c
          (enlist p (mark p (fetch works p (assign d b p (forget p (evict works c).0)))))
          d
          b
          p
  miss-Returned p absent e =
      let c1 = (evict works c).0 in
      let f = forget-Forgotten c1 chain e.keeps p e.small in
      let gone : (q : ℕ) → ¬ Holds c1 d b q = λ q h. absent q (e.no_more d b q h) in
      let next' = (forget p c1).hash_next in
      let buckets' = (forget p c1).buckets in
      let same : enlist p (mark p (fetch works p (assign d b p (forget p c1))))
          ≡ filled d b p (record c1 { hash_next = next'; buckets = buckets' }) =
        ap (λ s. enlist p (mark p (fetch works p (assign d b p s)))) f.rest
        ∙ fill_lem d b p (record c1 { hash_next = next'; buckets = buckets' }) works always in
      rw same (record {
        chain = new_chain c1 chain e.keeps d b p e.small e.clean gone next' buckets' f.links;
        good = filled-IsCache c1 chain e.keeps d b p e.small e.clean gone next' buckets' f.links;
        holds = on_p c1 chain e.keeps d b p e.small e.clean gone next' buckets' f.links p refl;
        is_busy = update_self c1.busy p true;
        shows = λ i.
            shows_disk c1 chain e.keeps d b p e.small e.clean gone next' buckets' f.links p i refl
            ∙ sym (view_absent c1 chain e.keeps d b i gone)
            ∙ e.same_view d b i;
        all_kept = λ d' b' i.
            view-filled c1 chain e.keeps d b p e.small e.clean gone next' buckets' f.links d' b' i
            ∙ e.same_view d' b' i;
      })

  -- On a good cache (the LRU list holds buffers, each chain links the valid buffers of its hash, no
  -- block is in two of them, a valid buffer that is not dirty has the bytes of the disk, a dirty one is
  -- valid), where every transfer succeeds, bread gives NULL, with the cache as it was, only if every buffer of the LRU list is busy.
  -- Otherwise it gives a busy buffer that holds the block, with the bytes that the block had (on the disk,
  -- or in its buffer if it was cached), in a good cache in which every block of every device has the
  -- bytes it had: no byte of a dirty buffer is lost.
  pub bread-IsRead : IsRead c d b (bread works d b c)
  unfolding bread
  bread-IsRead = elim (hash_lookup_lem c chain good d b) [
    | inr (p, found, h) ↦ rw (found, bread) (hit-Returned p h)
    | inl (miss, absent) ↦ elim (evict_lem works always c chain good) [
      | inl (e, all) ↦ rw (miss, bread) (rw (ap (λ r. r.1) e) (ap (λ r. r.0) e, all))
      | inr (p, e) ↦ rw (miss, bread) (rw e.found (miss-Returned p absent e))
    ]
  ]

heads-lt : (n p : ℕ) → In p (heads n) → p < n
heads-lt zero p m = absurd m
heads-lt (suc n) p (inl e) = omega arith
heads-lt (suc n) p (inr m) = omega (arith, heads-lt n p m)

-- The cache after buf_init is good: its chains are empty.
pub buf_init-IsCache : (c : Cache) → IsCache (buf_init c) (λ h. [])
unfolding buf_init
buf_init-IsCache c = record {
  linked = λ h. refl;
  distinct = λ h. tt;
  sound = λ h p m. absurd m;
  complete = λ p k v. absurd (false≢true v);
  unique = λ p q k l v w x y. absurd (false≢true v);
  clean = λ p k v. absurd (false≢true v);
  dirtied = λ p k v. absurd (false≢true v);
  in_lru = λ p m. heads-lt nbuf p m;
}
