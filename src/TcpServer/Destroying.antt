-- ===== src/TcpServer/Destroying.antt =====
-- The destructor of the server where its connections belong to the loops of other threads.
use network_library_baseon_c.Base.{
  ℕ, ◌≡◌, refl, sym, ap, ◌∙◌, subst, inl, inr, Bool, true, false, List, [], ◌∷◌, ◌++◌, append-nil,
  append_assoc, arith, ok, ◌==◌, Bool-cases, if◌then◌else◌,
}
use network_library_baseon_c.Sys.{Sys}
use network_library_baseon_c.EventLoop.{EventLoop, is_in_loop_thread}
use network_library_baseon_c.TcpConnection.{TcpConnection, Task, connect_destroyed, conn}
use network_library_baseon_c.TcpConnection.Handling.{Handlers, connect_destroyed_now}
use network_library_baseon_c.TcpServer.{Net, enter, queue_in, server_handlers}
use network_library_baseon_c.TcpServer.ByName.{ConnectionMap}
use network_library_baseon_c.TcpServer.Lifetime.{destroy_connections}
use network_library_baseon_c.TcpServer.Loops.{QueuedIn, queue_in-QueuedIn, in_loop_away}

-- What a loop gets to do for the connections of a map, in the order of the map.
pub tasks_of : (ℕ → TcpConnection) → ℕ → ConnectionMap → List Task
tasks_of f i [] = []
tasks_of f i ((n, c) ∷ m) =
    let rest = tasks_of f i m in if (f c).loop == i then connect_destroyed c ∷ rest else rest

module _ (sys : Sys) {U : Type 0} where
  abbrev pub pending_of : ℕ → Net sys U → List Task
  pending_of i r = (enter sys i r).loop.pending_functors

  -- The thread is that of none of the connections' loops.
  abbrev pub AllAway : ℕ → ConnectionMap → Net sys U → Type 0
  AllAway tid [] r = Unit {0}
  AllAway tid ((n, c) ∷ m) r =
      (is_in_loop_thread sys tid (enter sys (conn sys c r).loop r) ≡ false) × AllAway tid m r

  -- Each loop has its tasks behind those that it had; the connections are as they were.
  pub record AllQueued (m : ConnectionMap) (r r' : Net sys U) : Type 0 where
    pub pending : (i : ℕ) → pending_of i r' ≡ pending_of i r ++ tasks_of r.app.connections i m
    pub connections : r'.app.connections ≡ r.app.connections

  queued_pending :
      (io i : ℕ) (task : Task) (r r' : Net sys U)
      → QueuedIn sys io task r r'
      → pending_of i r' ≡ pending_of i r ++ (if io == i then task ∷ [] else [])
  queued_pending io i task r r' q = elim (Bool-cases (io == i)) [
    | inl same ↦
        let e : io ≡ i = ground arith in
        rw same (
          subst (λ j. pending_of j r' ≡ pending_of j r ++ (task ∷ [])) e
            (ap (λ (l : EventLoop Task). l.pending_functors) q.loop))
    | inr other ↦ rw other (
        ap (λ (l : EventLoop Task). l.pending_functors) (q.others i other)
        ∙ sym (append-nil (pending_of i r)))
  ]

  queued_thread :
      (io i : ℕ) (task : Task) (r r' : Net sys U)
      → QueuedIn sys io task r r'
      → (enter sys i r').loop.thread_id ≡ (enter sys i r).loop.thread_id
  queued_thread io i task r r' q = elim (Bool-cases (io == i)) [
    | inl same ↦
        let e : io ≡ i = ground arith in
        subst (λ j. (enter sys j r').loop.thread_id ≡ (enter sys j r).loop.thread_id) e
          (ap (λ (l : EventLoop Task). l.thread_id) q.loop)
    | inr other ↦ ap (λ (l : EventLoop Task). l.thread_id) (q.others i other)
  ]

  queued-AllAway :
      (tid io : ℕ) (task : Task) (m : ConnectionMap) (r r' : Net sys U)
      → QueuedIn sys io task r r'
      → AllAway tid m r
      → AllAway tid m r'
  unfolding is_in_loop_thread
  queued-AllAway tid io task [] r r' q a = tt
  queued-AllAway tid io task ((n, c) ∷ m) r r' q (away, rest) = (
    subst (λ (f : ℕ → TcpConnection). ((enter sys (f c).loop r').loop.thread_id == tid) ≡ false)
        (sym q.connections) (rw (queued_thread io (conn sys c r).loop task r r' q) away),
    queued-AllAway tid io task m r r' q rest,
  )

  module _ (user : Handlers (Net sys U)) where
    -- The destructor's loop over the connections, in a thread that is that of none of their loops: it
    -- returns, and each loop has a connectDestoryed more for each of its own connections and none
    -- for others, in the order of the map and behind the functors that it had.
    pub destroy_connections-AllQueued :
        (tid : ℕ) (m : ConnectionMap) (r : Net sys U)
        → AllAway tid m r
        → (r' : Net sys U) × (destroy_connections sys user tid m r ≡ ok r') × AllQueued m r r'
    unfolding destroy_connections tasks_of
    destroy_connections-AllQueued tid [] r a =
        (r, refl, record { pending = λ i. sym (append-nil (pending_of i r)); connections = refl })
    destroy_connections-AllQueued tid ((n, c) ∷ m) r (away, rest) =
        let io = (conn sys c r).loop in
        let task = connect_destroyed c in
        let r1 = queue_in sys io tid task r in
        let q = queue_in-QueuedIn sys io tid task r away in
        let now = connect_destroyed_now sys (server_handlers sys user) c in
        let (r2, e, v) =
          destroy_connections-AllQueued tid m r1 (queued-AllAway tid io task m r r1 q rest) in
        (
          r2,
          rw (in_loop_away sys io tid task now r away) e,
          record {
            pending = λ i.
                v.pending i
                ∙ ap (λ t. t ++ tasks_of r1.app.connections i m) (queued_pending io i task r r1 q)
                ∙ ap
                    (λ (f : ℕ → TcpConnection).
                      (pending_of i r ++ (if io == i then task ∷ [] else [])) ++ tasks_of f i m)
                    q.connections
                ∙ append_assoc (pending_of i r) (if io == i then task ∷ [] else [])
                    (tasks_of r.app.connections i m)
                ∙ ap (◌++◌ (pending_of i r))
                    (first_task (io == i) task (tasks_of r.app.connections i m));
            connections = v.connections ∙ q.connections;
          },
        )
      where
        first_task :
            (b : Bool) (task : Task) (rest : List Task)
            → (if b then task ∷ [] else []) ++ rest ≡ (if b then task ∷ rest else rest)
        first_task true task rest = refl
        first_task false task rest = refl
