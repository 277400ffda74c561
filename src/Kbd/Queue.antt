-- ===== src/Kbd/Queue.antt =====
-- About the ring of src/drivers/kbd.c and a bounded queue of characters.
use noxis.Prelude.{ℕ, suc, ◌+◌, ◌-◌, ◌%◌, ◌<◌, ◌≡◌, refl, sym, ap, ◌∙◌, inl, inr}
use noxis.Prelude.{
  false, List, [], ◌∷◌, ◌++◌, length, arith, ==-cases, Option, none, some, ltb, update, ◌==◌,
  if◌then◌else◌,
}
use noxis.Prelude.Ring.{window, length-window, window-append}
use noxis.Kbd.{Kbd, kbd_buf, buf_push, kbd_poll}

pub record IsValid (k : Kbd) : Type 0 where
  pub head_in : k.head < kbd_buf
  pub tail_in : k.tail < kbd_buf

-- How many characters wait.
abbrev pub waiting : Kbd → ℕ
waiting k = (k.head + kbd_buf - k.tail) % kbd_buf

abbrev pub contents : Kbd → List ℕ
contents k = window kbd_buf k.buf k.tail (waiting k)

-- The queue that a reader sees.
pub data Op : Type 0 where
  key : ℕ → Op
  poll : Op

pub queue_push : ℕ → List ℕ → List ℕ
queue_push c q = if ltb (length q) 255 then q ++ (c ∷ []) else q

pub queue_poll : List ℕ → Option ℕ × List ℕ
queue_poll [] = (none, [])
queue_poll (c ∷ q) = (some c, q)

-- What each call of a sequence returns; a key returns nothing.
unfoldable pub run : Kbd → List Op → List (Option ℕ)
run k [] = []
run k (key c ∷ ops) = run (buf_push c k) ops
run k (poll ∷ ops) = let (o, k') = kbd_poll k in o ∷ run k' ops

pub queue_run : List ℕ → List Op → List (Option ℕ)
queue_run q [] = []
queue_run q (key c ∷ ops) = queue_run (queue_push c q) ops
queue_run q (poll ∷ ops) = let (o, q') = queue_poll q in o ∷ queue_run q' ops

length-contents : (k : Kbd) → length (contents k) ≡ waiting k
length-contents k = length-window kbd_buf k.buf k.tail (waiting k)

pushed :
    (c : ℕ) (k : Kbd)
    → ((k.head + 1) % kbd_buf == k.tail) ≡ false
    → buf_push c k ≡ record k { buf = update k.buf k.head c; head = (k.head + 1) % kbd_buf }
unfolding buf_push
pushed c k e = ground (arith, e)

queue_push-room : (c : ℕ) (q : List ℕ) → length q < 255 → queue_push c q ≡ q ++ (c ∷ [])
unfolding queue_push
queue_push-room c q h = ground arith

buf_push-refines :
    {k : Kbd} (c : ℕ)
    → IsValid k
    → IsValid (buf_push c k) × (contents (buf_push c k) ≡ queue_push c (contents k))
unfolding buf_push queue_push
buf_push-refines {k} c v = elim (==-cases ((k.head + 1) % kbd_buf) k.tail) [
  | inl (full, e) ↦
      let n : waiting k ≡ 255 = omega (arith, v.head_in, v.tail_in) in
      (ground arith, ground (arith, length-contents k))
  | inr (room, e) ↦
      let more : (((k.head + 1) % kbd_buf + kbd_buf - k.tail) % kbd_buf) ≡ suc (waiting k) =
        omega (arith, v.head_in, v.tail_in) in
      let fits : waiting k < 255 = omega (arith, v.head_in, v.tail_in) in
      let here : k.head ≡ (k.tail + waiting k) % kbd_buf = omega (arith, v.head_in, v.tail_in) in
      (
        ground (arith, v.head_in, v.tail_in),
        ap contents (pushed c k e)
            ∙ ap (window kbd_buf (update k.buf k.head c) k.tail) more
            ∙ window-append kbd_buf k.buf (waiting k) k.tail k.head c v.tail_in (omega arith) here
            ∙ sym (queue_push-room c (contents k) (omega (arith, length-contents k))),
      )
]

kbd_poll-refines :
    {k : Kbd}
    → IsValid k
    → let (o, k') = kbd_poll k in IsValid k' × ((o, contents k') ≡ queue_poll (contents k))
unfolding kbd_poll queue_poll
kbd_poll-refines {k} v = elim (==-cases k.tail k.head) [
  | inl (empty, e) ↦
      let none_wait : waiting k ≡ 0 = omega (arith, v.head_in, v.tail_in) in
      (rw e v, rw e (rw none_wait))
  | inr (some_wait, e) ↦
      let fewer : waiting k ≡ suc ((k.head + kbd_buf - (k.tail + 1) % kbd_buf) % kbd_buf) =
        omega (arith, v.head_in, v.tail_in) in
      (rw e (omega (arith, v.head_in, v.tail_in)), rw e (rw fewer))
]

-- From a ring whose two indices are in range, every sequence of characters pushed and polls returns
-- what a queue of at most 255 characters returns, in which a character that finds 255 is lost.
pub run-queue_run : (ops : List Op) (k : Kbd) → IsValid k → run k ops ≡ queue_run (contents k) ops
unfolding run queue_run
run-queue_run [] k v = refl
run-queue_run (key c ∷ ops) k v =
    let (v', e) = buf_push-refines c v in
    run-queue_run ops (buf_push c k) v' ∙ ap (λ q. queue_run q ops) e
run-queue_run (poll ∷ ops) k v =
    let (v', e) = kbd_poll-refines v in
    ap (λ l. (kbd_poll k).0 ∷ l) (run-queue_run ops (kbd_poll k).1 v')
    ∙ ap (λ (r : Option ℕ × List ℕ). r.0 ∷ queue_run r.1 ops) e
