-- ===== src/Pipe/Returns.antt =====
-- About the ends of `pipe_read` and `pipe_write` of src/proc/pipe.c.
use noxis.Prelude.{ℕ, zero, suc, ◌+◌, ◌≤◌, ◌≡◌, ◌≢◌, refl, ◌⊎◌, arith}
use noxis.Prelude.{List, [], ◌∷◌, length, some}
use noxis.Pipe.{
  Pipe, pipe_cap, get_byte, put_byte, pipe_read, pipe_write, done, got_byte, put_one_more,
  write_return,
}

-- `pipe_read` returns, whatever runs at its yields, when the pipe has no writer or at least as many
-- bytes as are wanted.
pub pipe_read-done :
    (n : ℕ) (env : List (Pipe → Pipe)) (p : Pipe)
    → (p.writers ≡ 0) ⊎ (n ≤ p.count)
    → (pipe_read n env p).outcome ≡ done
unfolding pipe_read get_byte got_byte
pipe_read-done zero env p h = refl
pipe_read-done (suc n) [] p h = ground (arith, h, pipe_read-done n [] (get_byte p).1)
pipe_read-done (suc n) (others ∷ env) p h =
    ground (arith, h, pipe_read-done n (others ∷ env) (get_byte p).1)

-- `pipe_write` puts all its bytes, whatever runs at its yields, when the pipe has a reader and room for
-- them.
pub pipe_write-done :
    (xs : List ℕ) (env : List (Pipe → Pipe)) (p : Pipe)
    → p.readers ≢ 0
    → p.count + length xs ≤ pipe_cap
    → ((pipe_write xs env p).outcome ≡ done)
      × (write_return (pipe_write xs env p) ≡ some (length xs))
unfolding pipe_write put_byte put_one_more write_return
pipe_write-done [] env p h room = (refl, refl)
pipe_write-done (x ∷ xs) [] p h room =
    ground (arith, h, pipe_write-done xs [] (put_byte x p) h (omega arith))
pipe_write-done (x ∷ xs) (others ∷ env) p h room =
    ground (arith, h, pipe_write-done xs (others ∷ env) (put_byte x p) h (omega arith))
