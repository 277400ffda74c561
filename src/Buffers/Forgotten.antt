-- ===== src/Buffers/Forgotten.antt =====
-- A buffer that is given to another block: it leaves its chain.
use noxis.Prelude.{ℕ, ◌<◌, ◌≡◌, ◌≢◌, inl, inr, refl, sym, ap, ◌∙◌, true, List, [], ◌∷◌}
use noxis.Prelude.{Bool-cases, ==-cases, ==-ne}
use mathlib.Core.Bool.{false≢true}
use mathlib.Core.Path.{subst}
use noxis.Buffers.{Cache, nbuf, hash, erase, forget, hash_remove, bucket, link, read_slot}
use noxis.Buffers.Chains.{In, Links, Links-agree, length-le_of_below, unlink_lem}
use noxis.Buffers.Kept.{IsCache}

erase_absent : (p : ℕ) (l : List ℕ) → ¬ In p l → erase p l ≡ l
erase_absent p [] h = refl
erase_absent p (x ∷ xs) h =
    rw (==-ne x p (λ e. h (inl (sym e)))) (ap (x ∷◌) (erase_absent p xs (λ m. h (inr m))))

bucket_injective : {a b : ℕ} → bucket a ≡ bucket b → a ≡ b
bucket_injective e = cc

bucket≢link : {h q : ℕ} → bucket h ≢ link q
bucket≢link e = cc

-- No chain holds buffer p any more, and nothing but the links has changed.
pub record Forgotten (c : Cache) (chain : ℕ → List ℕ) (p : ℕ) (c' : Cache) : Type 0 where
  pub links : (h : ℕ) → Links c'.hash_next (c'.buckets h) (erase p (chain h))
  pub rest : c' ≡ record c { hash_next = c'.hash_next; buckets = c'.buckets }

module _ (c : Cache) (chain : ℕ → List ℕ) (good : IsCache c chain) (p : ℕ) (small : p < nbuf) where
  abbrev own : ℕ
  own = hash (c.dev p) (c.blockno p)

  removed-Forgotten : c.valid p ≡ true → Forgotten c chain p (hash_remove p c)
  unfolding hash_remove read_slot
  removed-Forgotten v =
      let short =
        length-le_of_below nbuf (chain own) (λ q m. (good.sound own q m).0) (good.distinct own) in
      let u =
        unlink_lem nbuf (bucket own) p c (chain own) short (good.linked own) (good.distinct own)
          (λ q e. absurd (bucket≢link e)) in
      record {
        links = λ h. elim (==-cases own h) [
          | inl (same, t) ↦
              subst
                (λ g.
                  Links (hash_remove p c).hash_next ((hash_remove p c).buckets g)
                    (erase p (chain g)))
                same u.left
          | inr (ne, t) ↦ rw (erase_absent p (chain h) (λ m. ne ((good.sound h p m).2))) (
              rw (u.bucket_kept h (λ e. ne (bucket_injective e))) (
                Links-agree c.hash_next (hash_remove p c).hash_next (c.buckets h) (chain h)
                  (λ q m.
                    u.next_kept q (λ n. ne (sym ((good.sound own q n).2) ∙ (good.sound h q m).2))
                      (λ e. bucket≢link e))
                  (good.linked h)))
        ];
        rest = u.rest_kept;
      }

  pub forget-Forgotten : Forgotten c chain p (forget p c)
  forget-Forgotten = elim (Bool-cases (c.valid p)) [
    | inl v ↦ rw v (removed-Forgotten v)
    | inr v ↦ rw v (record {
      links = λ h.
          rw (erase_absent p (chain h) (λ m. false≢true (sym v ∙ (good.sound h p m).1)))
            (good.linked h);
      rest = refl;
    })
  ]
