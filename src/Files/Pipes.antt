-- ===== src/Files/Pipes.antt =====
-- Pipes carry bytes in order, within their capacity (kernel/src/fs/vfs.rs).
use mathlib.Core.List.{append-nil, append_assoc}
use pickle_os.Base.{
  length-append, length-take, length-drop, ℕ, ◌+◌, ◌-◌, ◌≤◌, Bool, true, false, ◌≡◌, sym, ap, ◌∙◌,
  Option, none, some, List, [], ◌∷◌, ◌++◌, arith, ◌==◌, if◌then◌else◌, Option-cases, inl, inr,
  length, take-append-drop, take, drop, min,
}
use pickle_os.Base.Maps
use pickle_os.Base.Maps.{nat_key, contains_key, lookup-insert}
use pickle_os.Files.{
  Pipe, PipeTable, pipe_capacity, read_round, write_round, WriteRound, stops, full, wrote,
  pipe_dup_end,
}

abbrev pub buffered : ℕ → PipeTable → List ℕ
buffered id pipes = elim (Maps.lookup id pipes) [ none ↦ [] | some p ↦ p.buf ]

-- What tasks do with pipes that stay open, in any order.
pub data Op : Type 0 where
  reads : ℕ → ℕ → Op
  writes : ℕ → List ℕ → Op
  dups : ℕ → Bool → Op

abbrev pub step : PipeTable → Op → PipeTable
step pipes (reads id n) = (read_round id n pipes).0
step pipes (writes id left) = (write_round id left pipes).0
step pipes (dups id is_write) = pipe_dup_end id is_write pipes

abbrev pub run : PipeTable → List Op → PipeTable
run pipes [] = pipes
run pipes (o ∷ os) = run (step pipes o) os

abbrev delivered : Option (List ℕ) → List ℕ
delivered none = []
delivered (some l) = l

-- The bytes that a round's result says were taken from what was left to write.
abbrev accepted : WriteRound → List ℕ → List ℕ
accepted stops left = []
accepted full left = []
accepted (wrote n) left = take n left

-- The bytes that one operation takes out of a pipe, and those that it puts in.
abbrev pub out_by : ℕ → PipeTable → Op → List ℕ
out_by id pipes (reads i n) = if i == id then delivered (read_round i n pipes).1 else []
out_by id pipes (writes i left) = []
out_by id pipes (dups i is_write) = []

abbrev pub in_by : ℕ → PipeTable → Op → List ℕ
in_by id pipes (reads i n) = []
in_by id pipes (writes i left) = if i == id then accepted (write_round i left pipes).1 left else []
in_by id pipes (dups i is_write) = []

abbrev pub out_of : ℕ → PipeTable → List Op → List ℕ
out_of id pipes [] = []
out_of id pipes (o ∷ os) = out_by id pipes o ++ out_of id (step pipes o) os

abbrev pub into : ℕ → PipeTable → List Op → List ℕ
into id pipes [] = []
into id pipes (o ∷ os) = in_by id pipes o ++ into id (step pipes o) os

same_pipe : (i id : ℕ) (pipes : PipeTable) → i ≡ id → Maps.lookup i pipes ≡ Maps.lookup id pipes
same_pipe i id pipes e = ap (λ j. Maps.lookup j pipes) e

step-buffered :
    (id : ℕ) (pipes : PipeTable) (o : Op)
    → out_by id pipes o ++ buffered id (step pipes o) ≡ buffered id pipes ++ in_by id pipes o
unfolding read_round write_round pipe_dup_end
step-buffered id pipes (reads i n) = elim (Option-cases (Maps.lookup i pipes)) [
  | inl e ↦ rw (e, read_round) (ground (arith, append-nil (buffered id pipes)))
  | inr (p, e) ↦
      (let l = lookup-insert i id (record p { buf = drop n p.buf }) pipes in
        rw (e, read_round)
          (ground (
            arith,
            same_pipe i id pipes,
            append-nil (buffered id pipes),
            take-append-drop n p.buf,
          )))
]
step-buffered id pipes (writes i left) = elim (Option-cases (Maps.lookup i pipes)) [
  | inl e ↦ rw (e, write_round) (ground (arith, append-nil (buffered id pipes)))
  | inr (p, e) ↦
      (let k = min (pipe_capacity - length p.buf) (length left) in
        let l = lookup-insert i id (record p { buf = p.buf ++ take k left }) pipes in
        rw (e, write_round) (ground (arith, same_pipe i id pipes, append-nil (buffered id pipes))))
]
step-buffered id pipes (dups i is_write) = elim (Option-cases (Maps.lookup i pipes)) [
  | inl e ↦ rw (e, pipe_dup_end) (sym (append-nil (buffered id pipes)))
  | inr (p, e) ↦ dup_case p e is_write
]
  where
    dup_case :
        (p : Pipe)
        → Maps.lookup i pipes ≡ some p
        → (w : Bool) → buffered id (pipe_dup_end i w pipes) ≡ buffered id pipes ++ []
    dup_case p e true =
        let l = lookup-insert i id (record p { write_ends = p.write_ends + 1 }) pipes in
        rw (e, pipe_dup_end) (ground (arith, same_pipe i id pipes, append-nil (buffered id pipes)))
    dup_case p e false =
        let l = lookup-insert i id (record p { read_ends = p.read_ends + 1 }) pipes in
        rw (e, pipe_dup_end) (ground (arith, same_pipe i id pipes, append-nil (buffered id pipes)))

-- A pipe is first in, first out: over any history of rounds of reads and writes on all pipes, the
-- bytes read from a pipe, followed by those it still holds, are the bytes it held at first followed
-- by those that the writes reported as written.
pub pipe_fifo :
    (id : ℕ) (pipes : PipeTable) (os : List Op)
    → out_of id pipes os ++ buffered id (run pipes os) ≡ buffered id pipes ++ into id pipes os
pipe_fifo id pipes [] = sym (append-nil (buffered id pipes))
pipe_fifo id pipes (o ∷ os) =
    let ih = pipe_fifo id (step pipes o) os in
    append_assoc (out_by id pipes o) (out_of id (step pipes o) os) _
    ∙ ap (◌++◌ (out_by id pipes o)) ih
    ∙ sym
        (append_assoc (out_by id pipes o) (buffered id (step pipes o)) (into id (step pipes o) os))
    ∙ ap (λ l. l ++ into id (step pipes o) os) (step-buffered id pipes o)
    ∙ append_assoc (buffered id pipes) (in_by id pipes o) (into id (step pipes o) os)

round_fits :
    (left buf : List ℕ)
    → length buf ≤ pipe_capacity
    → length (buf ++ take (min (pipe_capacity - length buf) (length left)) left) ≤ pipe_capacity
round_fits left buf h = omega (
  arith,
  length-append buf (take (min (pipe_capacity - length buf) (length left)) left),
  length-take (min (pipe_capacity - length buf) (length left)) left,
)

-- A pipe that is within its capacity of 4096 bytes stays within it, whatever is done to pipes.
step-bounded :
    (id : ℕ) (pipes : PipeTable) (o : Op)
    → length (buffered id pipes) ≤ pipe_capacity
    → length (buffered id (step pipes o)) ≤ pipe_capacity
unfolding read_round write_round pipe_dup_end
step-bounded id pipes (reads i n) h = elim (Option-cases (Maps.lookup i pipes)) [
  | inl e ↦ rw (e, step, read_round) h
  | inr (p, e) ↦
      (let l = lookup-insert i id (record p { buf = drop n p.buf }) pipes in
        rw (e, step, read_round) (ground (arith, same_pipe i id pipes, length-drop n p.buf)))
]
step-bounded id pipes (writes i left) h = elim (Option-cases (Maps.lookup i pipes)) [
  | inl e ↦ rw (e, step, write_round) h
  | inr (p, e) ↦
      (let k = min (pipe_capacity - length p.buf) (length left) in
        let l = lookup-insert i id (record p { buf = p.buf ++ take k left }) pipes in
        rw (e, step, write_round) (ground (arith, same_pipe i id pipes, round_fits left p.buf)))
]
step-bounded id pipes (dups i is_write) h = omega (arith, same_length)
  where
    same_length : length (buffered id (pipe_dup_end i is_write pipes)) ≡ length (buffered id pipes)
    same_length =
        ap length (step-buffered id pipes (dups i is_write) ∙ append-nil (buffered id pipes))
