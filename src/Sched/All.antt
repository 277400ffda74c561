-- ===== src/Sched/All.antt =====
-- About the list of all processes of src/proc/scheduler.c: find and remove.
use noxis.Prelude.{ℕ, zero, suc, ◌<◌, ◌≡◌, refl, sym, ap, ◌∙◌, inl, inr, arith}
use noxis.Prelude.{
  true, false, List, [], ◌∷◌, length, All, Option, none, some, ◌==◌, ==-cases, Bool-cases,
  none≢some,
}
use mathlib.Core.Option.{some-injective}
use noxis.Sched.{Sched, Proc, find_from, scheduler_find, store_link, remove_from, scheduler_remove}
use noxis.Sched.Queue.{IsOutside}
use noxis.Sched.Turns.{IsDistinct}

abbrev pub IsChain : (ℕ → Proc) → Option ℕ → List ℕ → Type 0
IsChain procs h [] = h ≡ none
IsChain procs h (x ∷ xs) = (h ≡ some x) × IsChain procs ((procs x).all_next) xs

-- The first process of the list with this pid, and the list without one process.
unfoldable pub first_pid : (ℕ → Proc) → ℕ → List ℕ → Option ℕ
first_pid procs pid [] = none
first_pid procs pid (x ∷ xs) = elim ((procs x).pid == pid) [
  | true ↦ some x
  | false ↦ first_pid procs pid xs
]

unfoldable pub without : ℕ → List ℕ → List ℕ
without p [] = []
without p (x ∷ xs) = elim (x == p) [ true ↦ xs | false ↦ x ∷ without p xs ]

find_from_lem :
    (n pid : ℕ) (h : Option ℕ) (q : List ℕ) (procs : ℕ → Proc)
    → length q < n
    → IsChain procs h q
    → find_from n pid h procs ≡ first_pid procs pid q
unfolding find_from first_pid
find_from_lem zero pid h q procs l c = absurd (omega arith)
find_from_lem (suc n) pid h [] procs l c = rw c refl
find_from_lem (suc n) pid h (x ∷ xs) procs l (e, c) = elim (Bool-cases ((procs x).pid == pid)) [
  | inl here ↦ rw e (rw (here, find_from, first_pid) refl)
  | inr on ↦ rw e (
      rw (on, find_from, first_pid)
        (find_from_lem n pid ((procs x).all_next) xs procs (omega arith) c))
]

-- With more rounds than there are processes, scheduler_find returns the first process of the list with
-- the pid, and NULL if there is none.
pub scheduler_find-first_pid :
    (n pid : ℕ) (q : List ℕ) (s : Sched)
    → length q < n
    → IsChain s.procs s.all_head q
    → scheduler_find n pid s ≡ first_pid s.procs pid q
unfolding scheduler_find
scheduler_find-first_pid n pid q s l c = find_from_lem n pid s.all_head q s.procs l c

abbrev read_link : Option ℕ → Sched → Option ℕ
read_link none s = s.all_head
read_link (some b) s = (s.procs b).all_next

abbrev IsBefore : Option ℕ → List ℕ → Type 0
IsBefore none q = Unit
IsBefore (some b) q = IsOutside b q

IsChain-same :
    (procs procs' : ℕ → Proc) (q : List ℕ) (h : Option ℕ)
    → All (λ x. (procs' x).all_next ≡ (procs x).all_next) q
    → IsChain procs h q
    → IsChain procs' h q
IsChain-same procs procs' [] h a c = c
IsChain-same procs procs' (x ∷ xs) h (a, rest) (e, c) =
    (e, rw a (IsChain-same procs procs' xs _ rest c))

-- What the walk leaves alone, and the list that it leaves.
record Unlinked (pp : Option ℕ) (p : ℕ) (q : List ℕ) (s s' : Sched) : Type 0 where
  others :
      (x : ℕ) → IsOutside x q → (pp ≡ some x → ⊥) → (s'.procs x).all_next ≡ (s.procs x).all_next
  head : (b : ℕ) → pp ≡ some b → s'.all_head ≡ s.all_head
  chain : IsChain s'.procs (read_link pp s') (without p q)

store_link_reads : (pp q : Option ℕ) (s : Sched) → read_link pp (store_link pp q s) ≡ q
unfolding store_link
store_link_reads none q s = refl
store_link_reads (some b) q s = ground arith

store_link_other :
    (pp q : Option ℕ) (x : ℕ) (s : Sched)
    → (pp ≡ some x → ⊥)
    → ((store_link pp q s).procs x).all_next ≡ (s.procs x).all_next
unfolding store_link
store_link_other none q x s h = refl
store_link_other (some b) q x s h = elim (==-cases b x) [
  | inl (e, _) ↦ absurd (h (ap (λ k. some k) e))
  | inr (ne, t) ↦ rw t refl
]

store_link_head :
    (b : ℕ) (pp q : Option ℕ) (s : Sched) → pp ≡ some b → (store_link pp q s).all_head ≡ s.all_head
unfolding store_link
store_link_head b none q s e = absurd (none≢some e)
store_link_head b (some b') q s e = refl

All-kept :
    (pp q : Option ℕ) (s : Sched) (xs : List ℕ)
    → IsBefore pp xs
    → All (λ x. ((store_link pp q s).procs x).all_next ≡ (s.procs x).all_next) xs
All-kept pp q s [] b = tt
All-kept none q s (x ∷ xs) b =
    (store_link_other none q x s (λ e. none≢some e), All-kept none q s xs tt)
All-kept (some k) q s (x ∷ xs) (ne, b) =
    (store_link_other (some k) q x s (λ e. ne (some-injective _ _ e)), All-kept (some k) q s xs b)

IsBefore-tail : (pp : Option ℕ) (x : ℕ) (xs : List ℕ) → IsBefore pp (x ∷ xs) → IsBefore pp xs
IsBefore-tail none x xs b = tt
IsBefore-tail (some k) x xs (_, b) = b

remove_here :
    (n : ℕ) (pp : Option ℕ) (x p : ℕ) (s : Sched)
    → (x == p) ≡ true
    → remove_from (suc n) pp (some x) p s ≡ store_link pp ((s.procs p).all_next) s
unfolding remove_from
remove_here n pp x p s e = rw (e, remove_from) refl

remove_on :
    (n : ℕ) (pp : Option ℕ) (x p : ℕ) (s : Sched)
    → (x == p) ≡ false
    → remove_from (suc n) pp (some x) p s ≡ remove_from n (some x) ((s.procs x).all_next) p s
unfolding remove_from
remove_on n pp x p s e = rw (e, remove_from) refl

without-here : (x p : ℕ) (xs : List ℕ) → (x == p) ≡ true → without p (x ∷ xs) ≡ xs
unfolding without
without-here x p xs e = rw (e, without) refl

without-on : (x p : ℕ) (xs : List ℕ) → (x == p) ≡ false → without p (x ∷ xs) ≡ x ∷ without p xs
unfolding without
without-on x p xs e = rw (e, without) refl

remove_from-Unlinked :
    (n : ℕ) (pp c : Option ℕ) (p : ℕ) (q : List ℕ) (s : Sched)
    → length q < n
    → IsChain s.procs c q
    → read_link pp s ≡ c
    → IsBefore pp q
    → IsDistinct q
    → Unlinked pp p q s (remove_from n pp c p s)
unfolding remove_from without
remove_from-Unlinked zero pp c p q s l h at_c b d = absurd (omega arith)
remove_from-Unlinked (suc n) pp c p [] s l h at_c b d =
    rw h (record { others = λ x o ne. refl; head = λ k e. refl; chain = at_c ∙ h })
remove_from-Unlinked (suc n) pp c p (x ∷ xs) s l (e, h) at_c b (x_out, d) = elim (==-cases x p) [
  | inl (same, t) ↦
      let next : (s.procs p).all_next ≡ (s.procs x).all_next =
        ap (λ k. (s.procs k).all_next) (sym same) in
      rw (e, remove_here n pp x p s t)
        (record {
          others = λ y o ne. store_link_other pp ((s.procs p).all_next) y s ne;
          head = λ k at_k. store_link_head k pp ((s.procs p).all_next) s at_k;
          chain =
              rw (without-here x p xs t, store_link_reads pp ((s.procs p).all_next) s, next)
                (IsChain-same s.procs ((store_link pp ((s.procs x).all_next) s).procs) xs _
                  (All-kept pp ((s.procs x).all_next) s xs (IsBefore-tail pp x xs b)) h);
        })
  | inr (_, t) ↦
      let w =
        remove_from-Unlinked n (some x) ((s.procs x).all_next) p xs s (omega arith) h refl x_out
          d in
      rw (e, remove_on n pp x p s t)
        (record {
          others = λ y o ne. w.others y (o.1) (λ k. o.0 (sym (some-injective _ _ k)));
          head = λ k at_k. w.head x refl;
          chain =
              rw (without-on x p xs t) (
                kept pp b (remove_from n (some x) ((s.procs x).all_next) p s) w ∙ at_c ∙ e,
                w.chain,
              );
        })
]
  where
    kept :
        (pp : Option ℕ)
        → IsBefore pp (x ∷ xs)
        → (s' : Sched) → Unlinked (some x) p xs s s'
        → read_link pp s' ≡ read_link pp s
    kept none b s' w = w.head x refl
    kept (some k) (ne, o) s' w = w.others k o (λ i. ne (sym (some-injective _ _ i)))

-- With more rounds than there are processes, scheduler_remove of a process from a list without
-- repetition leaves the list without that process, in the same order.
pub scheduler_remove-without :
    (n p : ℕ) (q : List ℕ) (s : Sched)
    → length q < n
    → IsChain s.procs s.all_head q
    → IsDistinct q
    → IsChain (scheduler_remove n p s).procs ((scheduler_remove n p s).all_head) (without p q)
unfolding scheduler_remove
scheduler_remove-without n p q s l h d =
    let w = remove_from-Unlinked n none s.all_head p q s l h refl tt d in w.chain
