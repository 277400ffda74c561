-- ===== src/Sched/Queue.antt =====
-- About the ready list of src/proc/scheduler.c: the list of processes that its links spell.
use noxis.Prelude.{
  ℕ, ◌≡◌, ◌≢◌, refl, sym, ap, ◌∙◌, List, [], ◌∷◌, ◌++◌, Option, none, some, All, arith,
}
use mathlib.Core.Option.{some-injective}
use noxis.Prelude.{none≢some}
use noxis.Sched.{Sched, Proc, set_next, scheduler_add, dequeue}

-- The links from `h` on are those of the list.
abbrev pub IsLinked : (ℕ → Proc) → Option ℕ → List ℕ → Type 0
IsLinked procs h [] = h ≡ none
IsLinked procs h (x ∷ xs) = (h ≡ some x) × IsLinked procs ((procs x).next) xs

abbrev pub last_of : List ℕ → Option ℕ
last_of [] = none
last_of (x ∷ []) = some x
last_of (x ∷ y ∷ ys) = last_of (y ∷ ys)

abbrev pub IsOutside : ℕ → List ℕ → Type 0
IsOutside p = All (λ x. p ≢ x)

-- The ready list is `q`, first to last.
pub record IsQueue (q : List ℕ) (s : Sched) : Type 0 where
  pub linked : IsLinked s.procs s.ready_head q
  pub last : s.ready_tail ≡ last_of q

-- The link of a process outside the list does not matter, nor does any other field.
pub IsLinked-same :
    (procs procs' : ℕ → Proc) (q : List ℕ) (h : Option ℕ)
    → All (λ x. (procs' x).next ≡ (procs x).next) q
    → IsLinked procs h q
    → IsLinked procs' h q
IsLinked-same procs procs' [] h a l = l
IsLinked-same procs procs' (x ∷ xs) h (a, rest) (e, l) =
    (e, rw a (IsLinked-same procs procs' xs _ rest l))

last-next :
    (procs : ℕ → Proc) {t : ℕ} (q : List ℕ) (h : Option ℕ)
    → IsLinked procs h q
    → last_of q ≡ some t
    → (procs t).next ≡ none
last-next procs [] h l e = absurd (none≢some e)
last-next procs (x ∷ []) h (_, l) e = ap (λ k. (procs k).next) (sym (some-injective _ _ e)) ∙ l
last-next procs (x ∷ y ∷ ys) h (_, l) e = last-next procs (y ∷ ys) _ l e

set_next_self : (p : ℕ) (v : Option ℕ) (procs : ℕ → Proc) → (set_next p v procs p).next ≡ v
unfolding set_next
set_next_self p v procs = ground arith

set_next_ne :
    (p x : ℕ) (v : Option ℕ) (procs : ℕ → Proc)
    → p ≢ x
    → (set_next p v procs x).next ≡ (procs x).next
unfolding set_next
set_next_ne p x v procs h = ground arith

-- The two writes of scheduler_add, on a list that is not empty.
append-IsLinked :
    (procs : ℕ → Proc) {t : ℕ} (p : ℕ) (q : List ℕ) (h : Option ℕ)
    → IsLinked procs h q
    → last_of q ≡ some t
    → IsOutside p q
    → IsLinked (set_next t (some p) (set_next p none procs)) h (q ++ (p ∷ []))
append-IsLinked procs p [] h l e o = absurd (none≢some e)
append-IsLinked procs {t = t} p (x ∷ []) h (e, l) same (ne, _) =
    let x_is : x ≡ t = some-injective _ _ same in
    (
      e,
      (
        rw x_is (set_next_self t (some p) (set_next p none procs)),
        set_next_ne t p (some p) (set_next p none procs) (λ b. ne (sym b ∙ sym x_is))
            ∙ set_next_self p none procs,
      ),
    )
append-IsLinked procs {t = t} p (x ∷ y ∷ ys) h (e, l) same (ne, o) =
    let ends = last-next procs (y ∷ ys) _ l same in
    let inner : t ≢ x = λ b. none≢some (sym ends ∙ ap (λ k. (procs k).next) b ∙ l.0) in
    let kept =
      set_next_ne t x (some p) (set_next p none procs) inner ∙ set_next_ne p x none procs ne in
    (e, rw kept (append-IsLinked procs p (y ∷ ys) _ l same o))

last_of-append : (q : List ℕ) (p : ℕ) → last_of (q ++ (p ∷ [])) ≡ some p
last_of-append [] p = refl
last_of-append (x ∷ []) p = refl
last_of-append (x ∷ y ∷ ys) p = last_of-append (y ∷ ys) p

last_of-cons : (x : ℕ) (xs : List ℕ) → (t : ℕ) × (last_of (x ∷ xs) ≡ some t)
last_of-cons x [] = (x, refl)
last_of-cons x (y ∷ ys) = last_of-cons y ys

add_empty :
    (p : ℕ) (s : Sched)
    → s.ready_tail ≡ none
    → scheduler_add p s
      ≡ record s { procs = set_next p none s.procs; ready_head = some p; ready_tail = some p }
unfolding scheduler_add
add_empty p s e = rw (e, scheduler_add) refl

add_behind :
    (p t : ℕ) (s : Sched)
    → s.ready_tail ≡ some t
    → scheduler_add p s
      ≡ record s { procs = set_next t (some p) (set_next p none s.procs); ready_tail = some p }
unfolding scheduler_add
add_behind p t s e = rw (e, scheduler_add) refl

-- scheduler_add of a process that is not in the ready list puts it at the end of the list.
pub scheduler_add-IsQueue :
    {q : List ℕ} {s : Sched} (p : ℕ)
    → IsQueue q s
    → IsOutside p q
    → IsQueue (q ++ (p ∷ [])) (scheduler_add p s)
scheduler_add-IsQueue {q = []} {s = s} p v o =
    rw (add_empty p s v.last)
      (record { linked = (refl, set_next_self p none s.procs); last = refl })
scheduler_add-IsQueue {q = x ∷ xs} {s = s} p v o =
    let (t, e) = last_of-cons x xs in
    rw (add_behind p t s (v.last ∙ e)) (record {
      linked = append-IsLinked s.procs p (x ∷ xs) s.ready_head v.linked e o;
      last = sym (last_of-append (x ∷ xs) p);
    })

-- Taking the first process of the list.
pub dequeue-IsQueue : {n : ℕ} {q : List ℕ} {s : Sched} → IsQueue (n ∷ q) s → IsQueue q (dequeue n s)
unfolding dequeue
dequeue-IsQueue {n = n} {q = []} {s = s} v = record {
  linked = v.linked.1;
  last = rw (v.linked.1) refl;
}
dequeue-IsQueue {n = n} {q = y ∷ ys} {s = s} v = record {
  linked = v.linked.1;
  last = rw (v.linked.1.0) v.last;
}
