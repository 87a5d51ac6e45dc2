-- ===== src/Buffer/Trace.antt =====
-- Sequences of calls on a buffer, against a queue of bytes.
use network_library_baseon_c.Base.{
  ℕ, ◌+◌, ◌≤◌, ◌≡◌, refl, ap, sym, ◌∙◌, List, [], ◌∷◌, ◌++◌, arith, Outcome, ok, err, ◌>>=◌, length,
  take, drop, take-all, drop-all,
}
use network_library_baseon_c.Buffer.{
  Buffer, max_size, retrieve, retrieve_as_string, retrieve_all_as_string, append, readable_bytes,
}
use network_library_baseon_c.Buffer.Invariant.{IsValid, content, length-content, readable_bytes_lem}
use network_library_baseon_c.Buffer.Queue.{append_ok, retrieve_lem, retrieve_as_string_lem}

-- The calls of a user of a buffer.
pub data Call : Type 0 where
  put : List ℕ → Call
  skip : ℕ → Call
  get : ℕ → Call
  get_all : Call

-- The strings that the calls return, and the buffer that they leave.
unfoldable pub run : Buffer → List Call → Outcome (List (List ℕ) × Buffer)
run b [] = ok ([], b)
run b (put bytes ∷ cs) = do b' ← append b bytes; run b' cs
run b (skip n ∷ cs) = run (retrieve b n) cs
run b (get n ∷ cs) = do (s, b') ← retrieve_as_string b n; (ss, b'') ← run b' cs; ok (s ∷ ss, b'')
run b (get_all ∷ cs) = do
  (s, b') ← retrieve_all_as_string b
  (ss, b'') ← run b' cs
  ok (s ∷ ss, b'')

-- The same calls on a queue of bytes.
abbrev pub queue_run : List ℕ → List Call → List (List ℕ) × List ℕ
queue_run q [] = ([], q)
queue_run q (put bytes ∷ cs) = queue_run (q ++ bytes) cs
queue_run q (skip n ∷ cs) = queue_run (drop n q) cs
queue_run q (get n ∷ cs) = let (ss, q') = queue_run (drop n q) cs in (take n q ∷ ss, q')
queue_run q (get_all ∷ cs) = let (ss, q') = queue_run [] cs in (q ∷ ss, q')

-- No `get` asks for more than the queue holds.
abbrev pub Fits : List ℕ → List Call → Type 0
Fits q [] = Unit {0}
Fits q (put bytes ∷ cs) = Fits (q ++ bytes) cs
Fits q (skip n ∷ cs) = Fits (drop n q) cs
Fits q (get n ∷ cs) = (n ≤ length q) × Fits (drop n q) cs
Fits q (get_all ∷ cs) = Fits [] cs

-- The bytes that the calls put.
abbrev pub total : List Call → ℕ
total [] = 0
total (put bytes ∷ cs) = length bytes + total cs
total (skip n ∷ cs) = total cs
total (get n ∷ cs) = total cs
total (get_all ∷ cs) = total cs

-- The run returned, with the strings and the queue of `out`.
abbrev pub Agrees : List (List ℕ) × List ℕ → Outcome (List (List ℕ) × Buffer) → Type 0
Agrees out (ok (ss, b)) = (ss ≡ out.0) × IsValid b × (content b ≡ out.1)
Agrees out (err e) = ⊥

Agrees-cons :
    (s s' : List ℕ) (ss : List (List ℕ)) (q : List ℕ) (r : Outcome (List (List ℕ) × Buffer))
    → s ≡ s'
    → Agrees (ss, q) r
    → Agrees (s' ∷ ss, q) (r >>= λ out. ok (s ∷ out.0, out.1))
Agrees-cons s s' ss q (ok (ts, b)) e a = (cc (e, a.0), a.1, a.2)
Agrees-cons s s' ss q (err x) e a = a

pub retrieve_all_as_string_lem :
    (b : Buffer)
    → IsValid b
    → retrieve_all_as_string b ≡ ok (content b, retrieve b (length (content b)))
unfolding retrieve_all_as_string
retrieve_all_as_string_lem b v =
    let e : readable_bytes b ≡ length (content b) = readable_bytes_lem v ∙ sym (length-content v) in
    rw (
      e,
      retrieve_as_string_lem b (length (content b)) v (omega arith),
      take-all (length (content b)) (content b) (omega arith),
    )

run-queue_run :
    (b : Buffer) (q : List ℕ) (cs : List Call)
    → IsValid b
    → content b ≡ q
    → Fits q cs
    → b.writer_index + total cs ≤ max_size
    → Agrees (queue_run q cs) (run b cs)
unfolding run
run-queue_run b q [] v e f h = (refl, v, e)
run-queue_run b q (put bytes ∷ cs) v e f h =
    let (b', returns, x) = append_ok b bytes v (omega arith) in
    rw returns (
      run-queue_run b' (q ++ bytes) cs x.valid (x.extended ∙ ap (λ t. t ++ bytes) e) f
        (omega (arith, x.reach)))
run-queue_run b q (skip n ∷ cs) v e f h =
    let (v', c, reach) = retrieve_lem b n v in
    run-queue_run (retrieve b n) (drop n q) cs v' (c ∙ ap (drop n) e) f (omega (arith, reach))
run-queue_run b q (get n ∷ cs) v e f h =
    let (v', c, reach) = retrieve_lem b n v in
    rw (retrieve_as_string_lem b n v (rw e (f.0))) (
      Agrees-cons (take n (content b)) (take n q) _ _ (run (retrieve b n) cs) (ap (take n) e) (
        run-queue_run (retrieve b n) (drop n q) cs v' (c ∙ ap (drop n) e) f.1
          (omega (arith, reach))))
run-queue_run b q (get_all ∷ cs) v e f h =
    let n = length (content b) in
    let (v', c, reach) = retrieve_lem b n v in
    rw (retrieve_all_as_string_lem b v) (
      Agrees-cons (content b) q _ _ (run (retrieve b n) cs) e (
        run-queue_run (retrieve b n) [] cs v' (c ∙ drop-all n (content b) (omega arith)) f
          (omega (arith, reach))))

-- Any sequence of calls of append, retrieve, retrieveAsString and retrieveAllAsString on a valid
-- buffer returns the strings that a queue of bytes returns, and leaves a valid buffer with the
-- bytes of that queue: as long as no retrieveAsString asks for more than there is, and the bytes
-- put stay within the vector's max_size().
pub run_refines :
    (b : Buffer) (cs : List Call)
    → IsValid b
    → Fits (content b) cs
    → b.writer_index + total cs ≤ max_size
    → Agrees (queue_run (content b) cs) (run b cs)
run_refines b cs v f h = run-queue_run b (content b) cs v refl f h
