-- ===== src/Pipe/Reads.antt =====
-- About the order of the bytes that pipe_read of src/proc/pipe.c returns.
use noxis.Prelude.{ℕ, zero, suc, ◌≤◌, ◌<◌, ◌≡◌, ◌≢◌, refl, sym, ap, ◌∙◌, ◌⊎◌, inl, inr}
use noxis.Prelude.{List, [], ◌∷◌, ◌++◌, length, arith, ==-cases}
use noxis.Prelude.Ring.{window}
use mathlib.Core.List.{append-nil}
use noxis.Pipe.{Pipe, pipe_cap, get_byte, pipe_read, ReadResult, Outcome, done, blocked, got_byte}
use noxis.Pipe.Fifo.{IsValid, contents, get_byte-IsValid}

-- What other processes do while a read waits: the bytes that they write, and what
-- becomes of the count of writers.
pub record Supply : Type 0 where
  pub bytes : List ℕ
  pub writers : ℕ → ℕ

-- The step does that to an empty pipe.
abbrev pub Supplies : (Pipe → Pipe) → Supply → Type 0
Supplies f a =
    (p : Pipe)
    → IsValid p
    → contents p ≡ []
    → IsValid (f p) × (contents (f p) ≡ a.bytes) × ((f p).writers ≡ a.writers p.writers)

abbrev pub SuppliesAll : List (Pipe → Pipe) → List Supply → Type 0
SuppliesAll [] [] = Unit
SuppliesAll [] (a ∷ steps) = ⊥
SuppliesAll (f ∷ fs) [] = ⊥
SuppliesAll (f ∷ fs) (a ∷ steps) = Supplies f a × SuppliesAll fs steps

-- All that the first `k` steps write, and the writers left behind them.
abbrev pub written : ℕ → List Supply → List ℕ
written zero steps = []
written (suc k) [] = []
written (suc k) (a ∷ steps) = a.bytes ++ written k steps

abbrev pub writers_after : ℕ → ℕ → List Supply → ℕ
writers_after w zero steps = w
writers_after w (suc k) [] = w
writers_after w (suc k) (a ∷ steps) = writers_after (a.writers w) k steps

-- What a read of `n` bytes from `p` has done, after `yields` steps of the others. It waited only with
-- less than `n` bytes there and a writer left.
pub record Reads (n : ℕ) (steps : List Supply) (p : Pipe) (r : ReadResult) : Type 0 where
  pub valid : IsValid r.pipe
  pub yields : ℕ
  pub at_most : yields ≤ length steps
  pub order : r.bytes ++ contents r.pipe ≡ contents p ++ written yields steps
  pub waited :
      (j : ℕ)
      → j < yields
      → (length (contents p ++ written j steps) < n) × (writers_after p.writers j steps ≢ 0)
  pub ended :
      (r.outcome ≡ done) × (length r.bytes ≡ n)
      ⊎ (r.outcome ≡ done)
        × (length r.bytes < n)
        × (contents r.pipe ≡ [])
        × (writers_after p.writers yields steps ≡ 0)
      ⊎ (r.outcome ≡ blocked)
        × (length r.bytes < n)
        × (contents r.pipe ≡ [])
        × (writers_after p.writers yields steps ≢ 0)
        × (yields ≡ length steps)

empty_contents : (p : Pipe) → p.count ≡ 0 → contents p ≡ []
empty_contents p e = ap (window pipe_cap p.buf p.head) e

Reads-got :
    {n : ℕ} {p q : Pipe} {steps : List Supply} (x : ℕ) (r : ReadResult)
    → contents p ≡ x ∷ contents q
    → q.writers ≡ p.writers
    → Reads n steps q r
    → Reads (suc n) steps p (got_byte x r)
unfolding got_byte
Reads-got {n} {p} {q} {steps} x r e w i = record {
  valid = i.valid;
  yields = i.yields;
  at_most = i.at_most;
  order = ap (λ l. x ∷ l) i.order ∙ ap (λ l. l ++ written i.yields steps) (sym e);
  waited = λ j l.
      let (few, open_end) = i.waited j l in
      (rw e (omega (arith, few)), λ z. open_end (ap (λ k. writers_after k j steps) w ∙ z));
  ended = elim i.ended [
    | inl (d, l) ↦ inl (d, ap suc l)
    | inr (inl (d, l, c, z)) ↦
        inr (inl (d, omega (arith, l), c, ap (λ k. writers_after k i.yields steps) (sym w) ∙ z))
    | inr (inr (d, l, c, z, y)) ↦
        inr (
          inr
            (d, omega (arith, l), c, (λ o. z (ap (λ k. writers_after k i.yields steps) w ∙ o)), y))
  ];
}

Reads-yield :
    {n : ℕ} {p q : Pipe} {a : Supply} {steps : List Supply} (r : ReadResult)
    → contents p ≡ []
    → p.writers ≢ 0
    → contents q ≡ a.bytes
    → q.writers ≡ a.writers p.writers
    → Reads (suc n) steps q r
    → Reads (suc n) (a ∷ steps) p r
Reads-yield {n} {p} {q} {a} {steps} r none_there some_writer c w i = record {
  valid = i.valid;
  yields = suc i.yields;
  at_most = omega (arith, i.at_most);
  order =
      i.order
      ∙ ap (λ l. l ++ written i.yields steps) c
      ∙ ap (λ l. l ++ (a.bytes ++ written i.yields steps)) (sym none_there);
  waited = before;
  ended = elim i.ended [
    | inl e ↦ inl e
    | inr (inl (d, l, e, z)) ↦
        inr (inl (d, l, e, ap (λ k. writers_after k i.yields steps) (sym w) ∙ z))
    | inr (inr (d, l, e, z, y)) ↦
        inr (inr (d, l, e, (λ o. z (ap (λ k. writers_after k i.yields steps) w ∙ o)), ap suc y))
  ];
}
  where
    before :
        (j : ℕ)
        → j < suc i.yields
        → (length (contents p ++ written j (a ∷ steps)) < suc n)
          × (writers_after p.writers j (a ∷ steps) ≢ 0)
    before zero l = (rw none_there (omega arith), some_writer)
    before (suc j) l =
        let (few, open_end) = i.waited j (omega (arith, l)) in
        let same : contents p ++ (a.bytes ++ written j steps) ≡ contents q ++ written j steps =
          ap (λ l. l ++ (a.bytes ++ written j steps)) none_there
          ∙ ap (λ l. l ++ written j steps) (sym c) in
        (rw same few, λ z. open_end (ap (λ k. writers_after k j steps) w ∙ z))

-- A read that ends without a byte.
Reads-stop :
    (n : ℕ) {p : Pipe} (steps : List Supply) (o : Outcome)
    → IsValid p
    → (o ≡ done) × (0 ≡ n)
      ⊎ (o ≡ done) × (0 < n) × (p.count ≡ 0) × (p.writers ≡ 0)
      ⊎ (o ≡ blocked) × (0 < n) × (p.count ≡ 0) × (p.writers ≢ 0) × (0 ≡ length steps)
    → Reads n steps p (record { outcome = o; bytes = []; pipe = p })
Reads-stop n {p} steps o v why = record {
  valid = v;
  yields = 0;
  at_most = omega arith;
  order = sym (append-nil (contents p));
  waited = λ j l. absurd (omega (arith, l));
  ended = elim why [
    | inl e ↦ inl e
    | inr (inl (d, l, c, w)) ↦ inr (inl (d, l, empty_contents p c, w))
    | inr (inr (d, l, c, w, y)) ↦ inr (inr (d, l, empty_contents p c, w, y))
  ];
}

same_writers : (p : Pipe) → (get_byte p).1.writers ≡ p.writers
unfolding get_byte
same_writers p = refl

-- `pipe_read` on a valid pipe, where at each yield the others write known bytes and change the
-- count of writers in a known way. The bytes that it returns and then those left in the pipe are those that the pipe held and
-- then all that was written at the yields, in order. It yields only while there are less than `n` bytes
-- and a writer is left. It returns with `n` bytes, or with fewer and an empty pipe without a writer; it
-- stays blocked only with an empty pipe that has a writer, when no step of the others is left.
pub pipe_read-Reads :
    (n : ℕ) (env : List (Pipe → Pipe)) (steps : List Supply) (p : Pipe)
    → IsValid p
    → SuppliesAll env steps
    → Reads n steps p (pipe_read n env p)
unfolding pipe_read
pipe_read-Reads zero env steps p v w = Reads-stop zero steps done v (inl (refl, refl))
pipe_read-Reads (suc n) [] (a ∷ steps) p v w = absurd w
pipe_read-Reads (suc n) (others ∷ env) [] p v w = absurd w
pipe_read-Reads (suc n) [] [] p v w = elim (==-cases p.count 0) [
  | inl (empty, e) ↦
      rw (e, pipe_read)
        (elim (==-cases p.writers 0) [
          | inl (quiet, q) ↦
              rw q (Reads-stop (suc n) [] done v (inr (inl (refl, omega arith, empty, quiet))))
          | inr (loud, q) ↦
              rw q
                (Reads-stop (suc n) [] blocked v (inr (inr (refl, omega arith, empty, loud, refl))))
        ])
  | inr (some_left, e) ↦
      let (v', head, less) = get_byte-IsValid v some_left in
      rw (e, pipe_read)
        (Reads-got _ _ head (same_writers p) (pipe_read-Reads n [] [] (get_byte p).1 v' w))
]
pipe_read-Reads (suc n) (others ∷ env) (a ∷ steps) p v w = elim (==-cases p.count 0) [
  | inl (empty, e) ↦ elim (==-cases p.writers 0) [
    | inl (quiet, q) ↦
        rw (e, q, pipe_read)
          (Reads-stop (suc n) (a ∷ steps) done v (inr (inl (refl, omega arith, empty, quiet))))
    | inr (loud, q) ↦
        let nothing = empty_contents p empty in
        let (v', came, left) = w.0 p v nothing in
        rw (e, q, pipe_read)
          (Reads-yield _ nothing loud came left
            (pipe_read-Reads (suc n) env steps (others p) v' w.1))
  ]
  | inr (some_left, e) ↦
      let (v', head, less) = get_byte-IsValid v some_left in
      rw (e, pipe_read)
        (Reads-got _ _ head (same_writers p)
          (pipe_read-Reads n (others ∷ env) (a ∷ steps) (get_byte p).1 v' w))
]
