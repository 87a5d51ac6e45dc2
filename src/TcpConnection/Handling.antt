-- ===== src/TcpConnection/Handling.antt =====
-- src/TcpConnection.cc: the handlers that call the callbacks of a connection, and connectEstablished
-- and connectDestoryed. The user's callbacks and the close callback are the parameter `Handlers`; an
-- empty one is `none`, and to call it is the exception bad_function_call.
use network_library_baseon_c.Base.{
  ℕ, zero, suc, Option, none, some, Outcome, ok, err, bad_function_call, ◌>>=◌, update,
  if◌then◌else◌,
}
use network_library_baseon_c.Sys.{Sys, CountResult, count, failed}
use network_library_baseon_c.Buffer.{read_fd}
use network_library_baseon_c.Channel.{Callbacks, tie}
use network_library_baseon_c.EventLoop.{enable_reading, disable_all, remove_channel}
use network_library_baseon_c.TcpConnection.{
  disconnected, connected, is_state, World, conn, chan, set_state, set_input, handle_write,
  handle_error,
}

-- The callbacks of a connection: those of the user, and TcpServer::removeConnection.
pub record Handlers (W : Type 0) : Type 0 where
  pub connection_callback : Option (ℕ → W → Outcome W)
  pub message_callback : Option (ℕ → ℕ → W → Outcome W)
  pub close_callback : Option (ℕ → W → Outcome W)
  pub write_complete_callback : Option (ℕ → W → Outcome W)
  pub high_water_callback : Option (ℕ → ℕ → W → Outcome W)

-- The call of a std::function.
abbrev pub call_callback : {W : Type 0} → Option (ℕ → W → Outcome W) → ℕ → W → Outcome W
call_callback none c w = err bad_function_call
call_callback (some f) c w = f c w

abbrev pub call_with : {W : Type 0} → Option (ℕ → ℕ → W → Outcome W) → ℕ → ℕ → W → Outcome W
call_with none c n w = err bad_function_call
call_with (some f) c n w = f c n w

module _ (sys : Sys) {U : Type 0} (handlers : Handlers (World sys U)) where
  unfoldable pub handle_close : ℕ → World sys U → Outcome (World sys U)
  handle_close c r = do
    r1 ← disable_all sys (conn sys c r).channel (set_state sys c disconnected r)
    r2 ← call_callback handlers.connection_callback c r1
    call_callback handlers.close_callback c r2

  unfoldable pub after_read_fd : ℕ → ℕ → CountResult → World sys U → Outcome (World sys U)
  unfolding handle_close
  after_read_fd c time (count zero) r = handle_close c r
  after_read_fd c time (count (suc n)) r = call_with handlers.message_callback c time r
  after_read_fd c time (failed errno) r = ok (handle_error sys c r)

  unfoldable pub handle_read : ℕ → ℕ → World sys U → Outcome (World sys U)
  unfolding after_read_fd
  handle_read c time r = do
    (n, input, k) ← read_fd sys (conn sys c r).input r.kernel (chan sys c r).fd
    after_read_fd c time n (set_input sys c input (record r { kernel = k }))

  unfoldable pub connect_established_now : ℕ → World sys U → Outcome (World sys U)
  connect_established_now c r = do
    let r1 = set_state sys c connected r
    let ptr = (conn sys c r1).channel
    r2 ←
        enable_reading sys ptr
          (record r1 { channels = update r1.channels ptr (tie (r1.channels ptr)) })
    call_callback handlers.connection_callback c r2

  unfoldable pub connect_destroyed_now : ℕ → World sys U → Outcome (World sys U)
  connect_destroyed_now c r = do
    r1 ←
        if is_state (conn sys c r).state connected
        then disable_all sys (conn sys c r).channel (set_state sys c disconnected r)
        else ok r
    remove_channel sys (conn sys c r1).channel r1

  -- The callbacks that the constructor sets on the channel.
  abbrev pub channel_callbacks : ℕ → Callbacks (World sys U)
  channel_callbacks c = record {
    read_callback = some (handle_read c);
    write_callback = some (handle_write sys c);
    close_callback = some (handle_close c);
    error_callback = some (λ r. ok (handle_error sys c r));
  }
