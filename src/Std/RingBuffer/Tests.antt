-- ===== src/Std/RingBuffer/Tests.antt =====
-- Runs on a ring of four cells that has wrapped around.
use plum_os.Prelude.{ℕ, ◌≡◌, refl, [], ◌∷◌, arith}
use plum_os.Std.RingBuffer.{RingBuffer}
use plum_os.Std.RingBuffer.Queue
use plum_os.Std.RingBuffer.Queue.{Call, put, get}
use plum_os.Std.RingBuffer.Refine.{IsValid, contents, serve, serve_refines}

-- Two values: 8 in the last cell, 9 in the first.
abbrev wrapped : RingBuffer ℕ
wrapped = record { cells = 9 ∷ 5 ∷ 6 ∷ 8 ∷ []; head = 1; tail = 3 }

wrapped-IsValid : IsValid 4 wrapped
wrapped-IsValid = record {
  word = omega arith;
  storage = refl;
  head_in = omega arith;
  tail_in = omega arith;
}

contents-wrapped : contents 4 0 wrapped ≡ 8 ∷ 9 ∷ []
contents-wrapped = refl

serve_refines_example :
    serve 4 0 wrapped (put 7 ∷ put 6 ∷ get ∷ get ∷ get ∷ get ∷ [])
    ≡ Queue.serve 3 (contents 4 0 wrapped) (put 7 ∷ put 6 ∷ get ∷ get ∷ get ∷ get ∷ [])
serve_refines_example =
    serve_refines 4 0 (put 7 ∷ put 6 ∷ get ∷ get ∷ get ∷ get ∷ []) {r = wrapped} wrapped-IsValid
