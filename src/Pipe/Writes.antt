-- ===== src/Pipe/Writes.antt =====
-- About what pipe_write of src/proc/pipe.c puts into the ring.
use noxis.Prelude.{ℕ, zero, suc, ◌+◌, ◌≤◌, ◌<◌, ◌≡◌, ◌≢◌, refl, sym, ap, ◌∙◌, ◌⊎◌, inl, inr}
use noxis.Prelude.{List, [], ◌∷◌, ◌++◌, length, take, arith, ==-cases, length-append}
use mathlib.Core.List.{append-nil, append_assoc}
use noxis.Pipe.{
  Pipe, pipe_cap, put_byte, pipe_write, WriteResult, Outcome, done, broken, blocked, put_one_more,
}
use noxis.Pipe.Fifo.{IsValid, contents, length-contents, put_byte-IsValid}

-- What other processes do while a write waits: how many bytes they read, and what
-- becomes of the count of readers.
pub record Demand : Type 0 where
  pub taken : ℕ
  pub readers : ℕ → ℕ

-- The step does that to a full pipe.
abbrev pub Demands : (Pipe → Pipe) → Demand → Type 0
Demands f a =
    (p : Pipe)
    → IsValid p
    → p.count ≡ pipe_cap
    → (gone : List ℕ) × IsValid (f p)
      × (contents p ≡ gone ++ contents (f p))
      × (length gone ≡ a.taken)
      × ((f p).readers ≡ a.readers p.readers)

abbrev pub DemandsAll : List (Pipe → Pipe) → List Demand → Type 0
DemandsAll [] [] = Unit
DemandsAll [] (a ∷ steps) = ⊥
DemandsAll (f ∷ fs) [] = ⊥
DemandsAll (f ∷ fs) (a ∷ steps) = Demands f a × DemandsAll fs steps

-- How many bytes the first `k` steps read, and the readers left behind them.
abbrev pub taken_by : ℕ → List Demand → ℕ
taken_by zero steps = 0
taken_by (suc k) [] = 0
taken_by (suc k) (a ∷ steps) = a.taken + taken_by k steps

abbrev pub readers_after : ℕ → ℕ → List Demand → ℕ
readers_after w zero steps = w
readers_after w (suc k) [] = w
readers_after w (suc k) (a ∷ steps) = readers_after (a.readers w) k steps

-- What a write of `xs` to `p` has done, after `yields` steps of the others. It waited only while its bytes
-- did not fit behind what was left, with a reader.
pub record Writes (xs : List ℕ) (steps : List Demand) (p : Pipe) (r : WriteResult) : Type 0 where
  pub valid : IsValid r.pipe
  pub yields : ℕ
  pub at_most : yields ≤ length steps
  pub gone : List ℕ
  pub order : contents p ++ take r.put xs ≡ gone ++ contents r.pipe
  pub only_read : length gone ≡ taken_by yields steps
  pub waited :
      (j : ℕ)
      → j < yields
      → (pipe_cap + taken_by j steps < length (contents p) + length xs)
        × (readers_after p.readers j steps ≢ 0)
  pub ended :
      (r.outcome ≡ done) × (r.put ≡ length xs)
      ⊎ (r.outcome ≡ broken) × (r.put < length xs) × (readers_after p.readers yields steps ≡ 0)
      ⊎ (r.outcome ≡ blocked)
        × (r.put < length xs)
        × (length (contents r.pipe) ≡ pipe_cap)
        × (readers_after p.readers yields steps ≢ 0)
        × (yields ≡ length steps)

Writes-put :
    {xs : List ℕ} {p q : Pipe} {steps : List Demand} (x : ℕ) (r : WriteResult)
    → contents q ≡ contents p ++ (x ∷ [])
    → q.readers ≡ p.readers
    → Writes xs steps q r
    → Writes (x ∷ xs) steps p (put_one_more r)
unfolding put_one_more
Writes-put {xs} {p} {q} {steps} x r e w i =
    let longer : length (contents q) ≡ length (contents p) + 1 =
      ap length e ∙ length-append (contents p) (x ∷ []) in
    let one : r.put + 1 ≡ suc r.put = omega arith in
    record {
      valid = i.valid;
      yields = i.yields;
      at_most = i.at_most;
      gone = i.gone;
      order = rw one (
          sym (append_assoc (contents p) (x ∷ []) (take r.put xs))
          ∙ ap (λ l. l ++ take r.put xs) (sym e)
          ∙ i.order);
      only_read = i.only_read;
      waited = λ j l.
          let (few, heard) = i.waited j l in
          (omega (arith, few, longer), λ z. heard (ap (λ k. readers_after k j steps) w ∙ z));
      ended = elim i.ended [
        | inl (d, l) ↦ inl (d, omega (arith, l))
        | inr (inl (d, l, z)) ↦
            inr (inl (d, omega (arith, l), ap (λ k. readers_after k i.yields steps) (sym w) ∙ z))
        | inr (inr (d, l, c, z, y)) ↦ inr (
            inr (
              d,
              omega (arith, l),
              c,
              (λ o. z (ap (λ k. readers_after k i.yields steps) w ∙ o)),
              y,
            ))
      ];
    }

Writes-yield :
    {xs : List ℕ} {p q : Pipe} {a : Demand} {steps : List Demand} (r : WriteResult) (gone : List ℕ)
    → length (contents p) ≡ pipe_cap
    → 0 < length xs
    → p.readers ≢ 0
    → contents p ≡ gone ++ contents q
    → length gone ≡ a.taken
    → q.readers ≡ a.readers p.readers
    → Writes xs steps q r
    → Writes xs (a ∷ steps) p r
Writes-yield {xs} {p} {q} {a} {steps} r gone full some_bytes some_reader e count w i = record {
  valid = i.valid;
  yields = suc i.yields;
  at_most = omega (arith, i.at_most);
  gone = gone ++ i.gone;
  order =
      ap (λ l. l ++ take r.put xs) e
      ∙ append_assoc gone (contents q) (take r.put xs)
      ∙ ap (λ l. gone ++ l) i.order
      ∙ sym (append_assoc gone i.gone (contents r.pipe));
  only_read = omega (arith, length-append gone i.gone, count, i.only_read);
  waited = before;
  ended = elim i.ended [
    | inl e ↦ inl e
    | inr (inl (d, l, z)) ↦ inr (inl (d, l, ap (λ k. readers_after k i.yields steps) (sym w) ∙ z))
    | inr (inr (d, l, c, z, y)) ↦
        inr (inr (d, l, c, (λ o. z (ap (λ k. readers_after k i.yields steps) w ∙ o)), ap suc y))
  ];
}
  where
    before :
        (j : ℕ)
        → j < suc i.yields
        → (pipe_cap + taken_by j (a ∷ steps) < length (contents p) + length xs)
          × (readers_after p.readers j (a ∷ steps) ≢ 0)
    before zero l = (omega (arith, full, some_bytes), some_reader)
    before (suc j) l =
        let (few, heard) = i.waited j (omega (arith, l)) in
        let shorter : length (contents p) ≡ length gone + length (contents q) =
          ap length e ∙ length-append gone (contents q) in
        (omega (arith, few, shorter, count), λ z. heard (ap (λ k. readers_after k j steps) w ∙ z))

-- A write that ends without a byte.
Writes-stop :
    (xs : List ℕ) {p : Pipe} (steps : List Demand) (o : Outcome)
    → IsValid p
    → (o ≡ done) × (0 ≡ length xs)
      ⊎ (o ≡ broken) × (0 < length xs) × (p.readers ≡ 0)
      ⊎ (o ≡ blocked)
        × (0 < length xs)
        × (length (contents p) ≡ pipe_cap)
        × (p.readers ≢ 0)
        × (0 ≡ length steps)
    → Writes xs steps p (record { outcome = o; put = 0; pipe = p })
Writes-stop xs {p} steps o v why = record {
  valid = v;
  yields = 0;
  at_most = omega arith;
  gone = [];
  order = append-nil (contents p);
  only_read = refl;
  waited = λ j l. absurd (omega (arith, l));
  ended = why;
}

same_readers : (x : ℕ) (p : Pipe) → (put_byte x p).readers ≡ p.readers
unfolding put_byte
same_readers x p = refl

-- `pipe_write` on a valid pipe, where at each yield the others read a known count of bytes and
-- change the count of readers in a known way. What the pipe held and then the bytes put are, in order, those that the others
-- read at the yields, no more, and then those in the pipe: nothing is overwritten. It yields only while
-- its bytes do not fit and a reader is left. It returns with all bytes put, or with fewer when no reader
-- is left; it stays blocked only with a full pipe that has a reader, when no step of the others is left.
pub pipe_write-Writes :
    (xs : List ℕ) (env : List (Pipe → Pipe)) (steps : List Demand) (p : Pipe)
    → IsValid p
    → DemandsAll env steps
    → Writes xs steps p (pipe_write xs env p)
unfolding pipe_write
pipe_write-Writes [] env steps p v w = Writes-stop [] steps done v (inl (refl, refl))
pipe_write-Writes (x ∷ xs) [] (a ∷ steps) p v w = absurd w
pipe_write-Writes (x ∷ xs) (others ∷ env) [] p v w = absurd w
pipe_write-Writes (x ∷ xs) [] [] p v w = elim (==-cases p.readers 0) [
  | inl (alone, e) ↦
      rw (e, pipe_write) (Writes-stop (x ∷ xs) [] broken v (inr (inl (refl, omega arith, alone))))
  | inr (heard, e) ↦ elim (==-cases p.count pipe_cap) [
    | inl (full, f) ↦
        rw (e, f, pipe_write)
          (Writes-stop (x ∷ xs) [] blocked v
            (inr (inr (refl, omega arith, length-contents p ∙ full, heard, refl))))
    | inr (room, f) ↦
        let (v', e') = put_byte-IsValid x v (omega (arith, v.count_in)) in
        rw (e, f, pipe_write)
          (Writes-put x _ e' (same_readers x p) (pipe_write-Writes xs [] [] (put_byte x p) v' w))
  ]
]
pipe_write-Writes (x ∷ xs) (others ∷ env) (a ∷ steps) p v w = elim (==-cases p.readers 0) [
  | inl (alone, e) ↦
      rw (e, pipe_write)
        (Writes-stop (x ∷ xs) (a ∷ steps) broken v (inr (inl (refl, omega arith, alone))))
  | inr (heard, e) ↦ elim (==-cases p.count pipe_cap) [
    | inl (full, f) ↦
        let (gone, v', left, count, readers) = w.0 p v full in
        rw (e, f, pipe_write)
          (Writes-yield _ gone (length-contents p ∙ full) (omega arith) heard left count readers
            (pipe_write-Writes (x ∷ xs) env steps (others p) v' w.1))
    | inr (room, f) ↦
        let (v', e') = put_byte-IsValid x v (omega (arith, v.count_in)) in
        rw (e, f, pipe_write)
          (Writes-put x _ e' (same_readers x p)
            (pipe_write-Writes xs (others ∷ env) (a ∷ steps) (put_byte x p) v' w))
  ]
]
