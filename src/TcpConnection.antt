-- ===== src/TcpConnection.antt =====
-- src/TcpConnection.h and src/TcpConnection.cc: a connection in the thread of its loop.
-- The connections are values by number in the state `app` of the reactor, as are the strings of
-- the program that send() takes by reference. A std::bind that is handed to the loop is a `Task`.
-- Logging is left out. The functions that call the callbacks stand in Handling.
pub mod Handling
pub mod Ready
pub mod Writing
pub mod Switching
pub mod Arming
pub mod Opening
pub mod Draining
pub mod Flushing
pub mod Stream
pub mod States
pub mod Delivery
pub mod Reading
pub mod Polled
pub mod Apart
pub mod Frame
pub mod Many
use network_library_baseon_c.Base.{
  ℕ, zero, suc, ◌+◌, ◌-◌, ◌*◌, Bool, true, false, not, ◌&&◌, ◌||◌, List, [], ◌∷◌, Option, none,
  some, Outcome, ok, err, bad_function_call, dangling, ◌>>=◌, length, drop, update, ltb, leb, ◌==◌,
  if◌then◌else◌,
}
use network_library_baseon_c.Sys.{Sys, CountResult, count, failed}
use network_library_baseon_c.Buffer.{
  Buffer, readable_bytes, retrieve, append, read_fd, write_fd, new_buffer, initial_size, read_at,
}
use network_library_baseon_c.Channel.{
  Channel, Callbacks, is_writing, tie, handle_event, new_channel,
}
use network_library_baseon_c.EventLoop.{
  Reactor, EventLoop, queue_in_loop, run_in_loop, is_in_loop_thread, enable_reading, enable_writing,
  disable_writing, disable_all, remove_channel,
}

-- StateE, with the values of its enumerators.
pub data State : Type 0 where
  disconnected connecting connected disconnecting : State

abbrev pub state_value : State → ℕ
state_value disconnected = 0
state_value connecting = 1
state_value connected = 2
state_value disconnecting = 3

-- `state_ == s`
abbrev pub is_state : State → State → Bool
is_state s t = state_value s == state_value t

pub record TcpConnection : Type 0 where
  pub loop : ℕ  -- the address of its EventLoop
  pub name : List ℕ
  pub state : State
  pub fd : ℕ
  pub channel : ℕ  -- its address
  pub input : Buffer
  pub output : Buffer
  pub high_water_mark : ℕ
  pub has_write_complete : Bool  -- writeCompleteCallback_ is set
  pub has_high_water : Bool  -- highWaterMarkCallback_ is set

-- What is bound and handed to a loop, with the number of the connection. The data of
-- `send_in_loop` is the address of a string, and a length.
pub data Task : Type 0 where
  connect_established : ℕ → Task
  connect_destroyed : ℕ → Task
  send_in_loop : ℕ → ℕ → ℕ → Task
  shutdown_in_loop : ℕ → Task
  write_complete : ℕ → Task
  high_water : ℕ → ℕ → Task
  remove_connection : ℕ → Task
  listen : Task

pub record App (U : Type 0) : Type 0 where
  pub connections : ℕ → TcpConnection
  pub strings : ℕ → Option (List ℕ)
  pub user : U

abbrev pub ewouldblock : ℕ
ewouldblock = 11

abbrev pub epipe : ℕ
epipe = 32

abbrev pub econnreset : ℕ
econnreset = 104

-- The members that the constructor sets, for a loop, a name and an fd; the channel is made at address
-- `channel`.
unfoldable pub new_connection : ℕ → List ℕ → ℕ → ℕ → TcpConnection
new_connection loop name fd channel = record {
  loop = loop;
  name = name;
  state = connecting;
  fd = fd;
  channel = channel;
  input = new_buffer initial_size;
  output = new_buffer initial_size;
  high_water_mark = 64 * 1024 * 1024;
  has_write_complete = false;
  has_high_water = false;
}

abbrev pub World : Sys → Type 0 → Type 0
World sys U = Reactor sys Task (App U)

module _ (sys : Sys) {U : Type 0} where
  abbrev pub conn : ℕ → World sys U → TcpConnection
  conn c r = r.app.connections c

  abbrev pub chan : ℕ → World sys U → Channel
  chan c r = r.channels (conn c r).channel

  abbrev pub set_conn : ℕ → TcpConnection → World sys U → World sys U
  set_conn c t r = record r { app = record (r.app) { connections = update r.app.connections c t } }

  abbrev pub set_state : ℕ → State → World sys U → World sys U
  set_state c s r = set_conn c (record (conn c r) { state = s }) r

  abbrev pub set_output : ℕ → Buffer → World sys U → World sys U
  set_output c b r = set_conn c (record (conn c r) { output = b }) r

  abbrev pub set_input : ℕ → Buffer → World sys U → World sys U
  set_input c b r = set_conn c (record (conn c r) { input = b }) r

  -- queueInLoop from the loop's own thread.
  abbrev pub queue_here : Task → World sys U → World sys U
  queue_here t r = queue_in_loop sys r.loop.thread_id t r

  -- The write of sendInLoop: how many bytes it took, and whether the peer is gone.
  pub after_write : ℕ → ℕ → CountResult → World sys U → ℕ × Bool × World sys U
  after_write c len (count zero) r = (
    0,
    not (sys.errno r.kernel == ewouldblock)
        && (sys.errno r.kernel == epipe || sys.errno r.kernel == econnreset),
    r,
  )
  after_write c len (failed errno) r =
      (0, not (errno == ewouldblock) && (errno == epipe || errno == econnreset), r)
  after_write c len (count (suc n)) r = (
    suc n,
    false,
    if len - suc n == 0 && (conn c r).has_write_complete
        then queue_here (write_complete c) r
        else r,
  )

  pub try_write : ℕ → List ℕ → World sys U → ℕ × Bool × World sys U
  try_write c bytes r =
      let (res, k) = sys.write r.kernel (chan c r).fd bytes in
      if not (is_writing (chan c r)) && readable_bytes (conn c r).output == 0
      then after_write c (length bytes) res (record r { kernel = k })
      else (0, false, r)

  -- EPOLLOUT is asked for, unless it is already.
  pub arm : ℕ → World sys U → Outcome (World sys U)
  arm c r = if not (is_writing (chan c r)) then enable_writing sys (conn c r).channel r else ok r

  pub store : ℕ → List ℕ → World sys U → Outcome (World sys U)
  store c rest r = append (conn c r).output rest >>= λ output. arm c (set_output c output r)

  -- The bytes that were not written go to the output buffer.
  pub keep_rest : ℕ → List ℕ → World sys U → Outcome (World sys U)
  keep_rest c rest r =
      let old_len = readable_bytes (conn c r).output in
      let mark = (conn c r).high_water_mark in
      if leb mark (old_len + length rest) && ltb old_len mark && (conn c r).has_high_water
      then store c rest (queue_here (high_water c (old_len + length rest)) r)
      else store c rest r

  pub send_rest : ℕ → List ℕ → ℕ × Bool × World sys U → Outcome (World sys U)
  send_rest c bytes (nwrote, fault, r) =
      if not fault && ltb 0 (length bytes - nwrote) then keep_rest c (drop nwrote bytes) r else ok r

  -- `if (state_ = kDisconnected)` stores, and tests what it has stored.
  pub send_bytes_in_loop : ℕ → List ℕ → World sys U → Outcome (World sys U)
  send_bytes_in_loop c bytes r =
      let r1 = set_state c disconnected r in
      if not (state_value disconnected == 0)
      then ok r1
      else send_rest c bytes (try_write c bytes r1)

  -- sendInLoop(data, len), where `data` points into the string at `ptr`.
  unfoldable pub send_string_in_loop : ℕ → ℕ → ℕ → World sys U → Outcome (World sys U)
  send_string_in_loop c ptr len r = elim (r.app.strings ptr) [
    | none ↦ err dangling
    | some text ↦ read_at text 0 len >>= λ bytes. send_bytes_in_loop c bytes r
  ]

  -- send(buf), for the string at `ptr` with its bytes.
  unfoldable pub send : ℕ → ℕ → ℕ → List ℕ → World sys U → Outcome (World sys U)
  send tid c ptr bytes r =
      if is_state (conn c r).state connected
      then (if is_in_loop_thread sys tid r
          then send_string_in_loop c ptr (length bytes) r
          else run_in_loop sys tid (send_in_loop c ptr (length bytes))
              (send_string_in_loop c ptr (length bytes)) r)
      else ok r

  unfoldable pub shutdown_write_in_loop : ℕ → World sys U → World sys U
  shutdown_write_in_loop c r =
      if not (is_writing (chan c r))
      then record r { kernel = (sys.shutdown_write r.kernel (conn c r).fd).1 }
      else r

  unfoldable pub shutdown : ℕ → ℕ → World sys U → Outcome (World sys U)
  shutdown tid c r =
      if is_state (conn c r).state disconnected
      then run_in_loop sys tid (shutdown_in_loop c) (λ s. ok (shutdown_write_in_loop c s))
          (set_state c disconnecting r)
      else ok r

  -- handleWrite, where all that was to be written has been.
  pub drained : ℕ → World sys U → Outcome (World sys U)
  drained c r = do
    r1 ← disable_writing sys (conn c r).channel r
    let r2 = if (conn c r1).has_write_complete then queue_here (write_complete c) r1 else r1
    ok (if is_state (conn c r2).state disconnecting then shutdown_write_in_loop c r2 else r2)

  pub after_write_fd : ℕ → CountResult → World sys U → Outcome (World sys U)
  after_write_fd c (failed errno) r = ok r
  after_write_fd c (count zero) r = ok r
  after_write_fd c (count (suc n)) r =
      let r1 = set_output c (retrieve (conn c r).output (suc n)) r in
      if readable_bytes (conn c r1).output == 0 then drained c r1 else ok r1

  pub handle_write : ℕ → World sys U → Outcome (World sys U)
  handle_write c r =
      if is_writing (chan c r)
      then (write_fd sys (conn c r).output r.kernel (chan c r).fd >>= λ out.
          after_write_fd c out.0 (record r { kernel = out.1 }))
      else ok r

  -- The error is only logged.
  pub handle_error : ℕ → World sys U → World sys U
  handle_error c r = record r { kernel = (sys.socket_error r.kernel (chan c r).fd).1 }
