-- ===== src/Pipe/Examples.antt =====
-- Runs of a pipe whose ring has gone round.
use noxis.Prelude.{◌++◌, length, ◌∙◌, ap, ◌%◌, ◌≡◌, refl, sym, true, [], ◌∷◌, arith}
use noxis.Pipe.{Pipe, pipe_read, pipe_write, get_byte, put_byte, got_byte, done}
use noxis.Pipe.Fifo.{length-contents, put_byte-IsValid, get_byte-IsValid}
use noxis.Pipe.Reads.{Supply, Supplies, Reads, pipe_read-Reads}
use noxis.Pipe.Writes.{Demand, Demands, Writes, pipe_write-Writes}
use noxis.Prelude.{◌≢◌, inr, some}
use noxis.Pipe.{write_return}
use noxis.Pipe.Returns.{pipe_read-done, pipe_write-done}

-- Two bytes, the second at the start of the ring.
abbrev wrapped : Pipe
wrapped = record {
  buf = λ i. i % 256;
  head = 4095;
  tail = 1;
  count = 2;
  readers = 1;
  writers = 1;
  used = true;
}

-- Others that write a byte, and others that read one.
abbrev write_seven : Pipe → Pipe
write_seven p = put_byte 7 p

abbrev supply : Supply
supply = record { bytes = 7 ∷ []; writers = λ w. w }

write_seven-Supplies : Supplies write_seven supply
unfolding put_byte
write_seven-Supplies p v e =
    let none_there : p.count ≡ 0 = sym (length-contents p) ∙ ap length e in
    let (v', added) = put_byte-IsValid 7 v (omega (arith, none_there)) in
    (v', added ∙ ap (λ l. l ++ (7 ∷ [])) e, refl)

abbrev read_one : Pipe → Pipe
read_one p = (get_byte p).1

abbrev demand : Demand
demand = record { taken = 1; readers = λ w. w }

read_one-Demands : Demands read_one demand
unfolding get_byte
read_one-Demands p v full =
    let (v', head, less) = get_byte-IsValid v (omega (arith, full)) in
    ((get_byte p).0 ∷ [], v', head, refl, refl)

read_both : (pipe_read 2 [] wrapped).bytes ≡ 255 ∷ 0 ∷ []
unfolding pipe_read get_byte got_byte
read_both = refl

pipe_read-Reads_example : Reads 3 (supply ∷ []) wrapped (pipe_read 3 (write_seven ∷ []) wrapped)
pipe_read-Reads_example =
    pipe_read-Reads 3 (write_seven ∷ []) (supply ∷ []) wrapped (omega arith)
      (write_seven-Supplies, tt)

pipe_write-Writes_example :
    Writes (8 ∷ 9 ∷ []) (demand ∷ []) wrapped (pipe_write (8 ∷ 9 ∷ []) (read_one ∷ []) wrapped)
pipe_write-Writes_example =
    pipe_write-Writes (8 ∷ 9 ∷ []) (read_one ∷ []) (demand ∷ []) wrapped (omega arith)
      (read_one-Demands, tt)

pipe_read-done_example : (pipe_read 2 (write_seven ∷ []) wrapped).outcome ≡ done
pipe_read-done_example = pipe_read-done 2 (write_seven ∷ []) wrapped (inr (omega arith))

one_reader : wrapped.readers ≢ 0
one_reader = omega arith

pipe_write-done_run :
    ((pipe_write (8 ∷ 9 ∷ []) [] wrapped).outcome ≡ done)
    × (write_return (pipe_write (8 ∷ 9 ∷ []) [] wrapped) ≡ some 2)
pipe_write-done_run = pipe_write-done (8 ∷ 9 ∷ []) [] wrapped one_reader (omega arith)
