-- ===== src/InetAddress/RoundTrip.antt =====
-- The texts of an address, against what it was made of.
use network_library_baseon_c.Base.{
  ℕ, ◌^◌, ◌≤◌, ◌<◌, ◌≡◌, refl, ap, ◌∙◌, List, ◌∷◌, ◌++◌, true, Option, none, some, arith, ok,
  length, length-append,
}
use network_library_baseon_c.Sys.{SockAddr}
use network_library_baseon_c.Text.{decimal}
use network_library_baseon_c.Text.Digits.{length-decimal}
use network_library_baseon_c.InetAddress.{
  Inet, InetLaw, buf_size, text_of, new_inet_address, to_ip, to_port, to_ip_port,
}

module _ (inet : Inet) (law : InetLaw inet) where
  length-text_of : (addr : ℕ) → length (text_of (inet.inet_ntop addr buf_size)) ≤ 15
  unfolding text_of
  length-text_of addr = of_result (inet.inet_ntop addr buf_size) (law.ntop_short addr buf_size)
    where
      of_result :
          (o : Option (List ℕ))
          → ((ip : List ℕ) → o ≡ some ip → length ip ≤ 15)
          → length (text_of o) ≤ 15
      of_result none h = omega arith
      of_result (some ip) h = h ip refl

  -- toIpPort writes at most 21 bytes, so that its sprintf stays within the buffer of 64, for every
  -- address: it returns the dotted address, a colon and the port.
  pub to_ip_port-Bounded :
      (a : SockAddr)
      → (text : List ℕ) × (to_ip_port inet a ≡ ok text)
        × (length text ≤ 21)
        × (text ≡ to_ip inet a ++ (58 ∷ decimal (to_port inet a)))
  unfolding to_ip_port to_ip to_port
  to_ip_port-Bounded a =
      let ip = text_of (inet.inet_ntop a.addr buf_size) in
      let port = decimal (inet.ntohs a.port) in
      let short : length (ip ++ (58 ∷ port)) ≤ 21 = omega (
        arith,
        length-append ip (58 ∷ port),
        length-text_of a.addr,
        length-decimal 4 (inet.ntohs a.port) (omega (arith, law.ntohs_small a.port)),
      ) in
      (ip ++ (58 ∷ port), ground arith, short, refl)

  -- An address that is made of a port of 16 bits and a dotted decimal gives both back.
  pub new_inet_address_round_trip :
      (port : ℕ) (ip : List ℕ)
      → port < 2 ^ 16
      → inet.is_address ip ≡ true
      → (to_port inet (new_inet_address inet port ip) ≡ port)
        × (to_ip inet (new_inet_address inet port ip) ≡ ip)
        × (to_ip_port inet (new_inet_address inet port ip) ≡ ok (ip ++ (58 ∷ decimal port)))
  unfolding to_ip to_port new_inet_address text_of
  new_inet_address_round_trip port ip small dotted =
      let p = law.ntohs_htons port small in
      let i = law.ntop_addr ip buf_size dotted (omega arith) in
      let (text, e, _, f) = to_ip_port-Bounded (new_inet_address inet port ip) in
      (p, rw i refl, e ∙ ap (λ t. ok t) (f ∙ rw (p, i) refl))
