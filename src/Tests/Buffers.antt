-- ===== src/Tests/Buffers.antt =====
-- Tests of Buffer.
use network_library_baseon_c.Base.{[], ◌∷◌, arith}
use network_library_baseon_c.Buffer.{Buffer, append}
use network_library_baseon_c.Buffer.Invariant.{IsValid}
use network_library_baseon_c.Buffer.Queue.{Appended, append-Appended}
use network_library_baseon_c.Buffer.Trace.{put, get, get_all, run, queue_run, Agrees, run_refines}

-- Twelve bytes of storage, which hold 7, 8.
abbrev two_bytes : Buffer
two_bytes = record {
  storage = 0 ∷ 0 ∷ 0 ∷ 0 ∷ 0 ∷ 0 ∷ 0 ∷ 0 ∷ 7 ∷ 8 ∷ 0 ∷ 0 ∷ [];
  reader_index = 8;
  writer_index = 10;
}

two_bytes-IsValid : IsValid two_bytes
two_bytes-IsValid = record {
  prepend = omega arith;
  ordered = omega arith;
  within = omega arith;
  small = omega arith;
}

run_refines_example :
    Agrees
      (queue_run (7 ∷ 8 ∷ []) (put (1 ∷ 2 ∷ 3 ∷ []) ∷ get 4 ∷ put (4 ∷ []) ∷ get_all ∷ []))
      (run two_bytes (put (1 ∷ 2 ∷ 3 ∷ []) ∷ get 4 ∷ put (4 ∷ []) ∷ get_all ∷ []))
run_refines_example =
    run_refines two_bytes (put (1 ∷ 2 ∷ 3 ∷ []) ∷ get 4 ∷ put (4 ∷ []) ∷ get_all ∷ [])
      two_bytes-IsValid (omega arith, tt) (omega arith)

append-Appended_example : Appended two_bytes (1 ∷ 2 ∷ 3 ∷ []) (append two_bytes (1 ∷ 2 ∷ 3 ∷ []))
append-Appended_example = append-Appended two_bytes (1 ∷ 2 ∷ 3 ∷ []) two_bytes-IsValid (omega arith)
