-- ===== src/InetAddress.antt =====
-- src/InetAddress.h and src/InetAddress.cc: the address of a socket, and its texts.
-- htons, ntohs, inet_addr and inet_ntop are the parameter `Inet`. A text that leaves its buffer of
-- 64 bytes is the fault `out_of_bounds`.
pub mod RoundTrip
use network_library_baseon_c.Base.{
  ℕ, ◌+◌, ◌^◌, ◌≤◌, ◌<◌, ◌≡◌, List, [], ◌∷◌, ◌++◌, Bool, true, Option, none, some, Outcome, ok, err,
  out_of_bounds, length, ltb, if◌then◌else◌,
}
use network_library_baseon_c.Sys.{SockAddr}
use network_library_baseon_c.Text.{decimal}

-- The conversions of arpa/inet.h. `inet_ntop` takes the size of its buffer, and `is_address` says
-- which texts are dotted decimals as inet_ntop writes them.
pub record Inet : Type 0 where
  pub htons : ℕ → ℕ
  pub ntohs : ℕ → ℕ
  pub inet_addr : List ℕ → ℕ
  pub inet_ntop : ℕ → ℕ → Option (List ℕ)
  pub is_address : List ℕ → Bool

-- ntohs undoes htons; inet_ntop writes at most 15 bytes, and undoes inet_addr on a dotted decimal
-- where the buffer is large enough.
pub record InetLaw (inet : Inet) : Type 0 where
  pub ntohs_htons : (port : ℕ) → port < 2 ^ 16 → inet.ntohs (inet.htons port) ≡ port
  pub ntohs_small : (port : ℕ) → inet.ntohs port < 2 ^ 16
  pub ntop_addr :
      (ip : List ℕ) (size : ℕ)
      → inet.is_address ip ≡ true
      → 15 < size
      → inet.inet_ntop (inet.inet_addr ip) size ≡ some ip
  pub ntop_short :
      (addr size : ℕ) (ip : List ℕ) → inet.inet_ntop addr size ≡ some ip → length ip ≤ 15

abbrev pub af_inet : ℕ
af_inet = 2

abbrev pub buf_size : ℕ
buf_size = 64

-- What the zeroed buffer holds behind inet_ntop.
pub text_of : Option (List ℕ) → List ℕ
text_of none = []
text_of (some text) = text

module _ (inet : Inet) where
  -- The constructor of a port and a text.
  pub new_inet_address : ℕ → List ℕ → SockAddr
  new_inet_address port ip = record {
    family = af_inet;
    port = inet.htons port;
    addr = inet.inet_addr ip;
  }

  pub to_ip : SockAddr → List ℕ
  unfolding text_of
  to_ip a = text_of (inet.inet_ntop a.addr buf_size)

  pub to_port : SockAddr → ℕ
  to_port a = inet.ntohs a.port

  -- sprintf behind the address does not look at the size of the buffer.
  pub to_ip_port : SockAddr → Outcome (List ℕ)
  unfolding text_of
  to_ip_port a =
      let text = text_of (inet.inet_ntop a.addr buf_size) ++ (58 ∷ decimal (inet.ntohs a.port)) in
      if ltb (length text) buf_size then ok text else err out_of_bounds
