-- ===== src/Tests/Texts.antt =====
-- Tests of InetAddress, Timestamp and Logger: one address that inet_ntop knows.
use network_library_baseon_c.Base.{
  ℕ, ◌%◌, ◌≤◌, ◌≡◌, refl, ap, subst, Bool, true, false, List, [], ◌∷◌, ◌++◌, Option, none, some,
  arith, ok, length, ltb, if◌then◌else◌,
}
use network_library_baseon_c.Sys.{SockAddr}
use network_library_baseon_c.Text.{decimal}
use network_library_baseon_c.InetAddress.{
  Inet, InetLaw, new_inet_address, to_ip, to_port, to_ip_port,
}
use network_library_baseon_c.InetAddress.RoundTrip.{to_ip_port-Bounded, new_inet_address_round_trip}
use network_library_baseon_c.Timestamp.{Timestamp, Tm, to_string}
use network_library_baseon_c.Timestamp.Format.{IsTm, written, to_string_whole}
use network_library_baseon_c.TcpServer.ByName.{same_text, same_text-eq, same_text_refl}
use network_library_baseon_c.Logger.{Logger, info, error, fatal}
use network_library_baseon_c.Logger.Lines.{Call, run_calls, lines, run_calls_lem}

-- "1.2.3.4"
abbrev pub dotted : List ℕ
dotted = 49 ∷ 46 ∷ 50 ∷ 46 ∷ 51 ∷ 46 ∷ 52 ∷ []

abbrev pub inet : Inet
inet = record {
  htons = λ port. port;
  ntohs = λ port. port % 65536;
  inet_addr = λ ip. 1;
  inet_ntop = λ addr size. if ltb 15 size then some dotted else none;
  is_address = λ ip. same_text ip dotted;
}

text_in : Option (List ℕ) → List ℕ
text_in none = []
text_in (some text) = text

short_text :
    (room : Bool) (ip : List ℕ) → (if room then some dotted else none) ≡ some ip → length ip ≤ 15
unfolding text_in
short_text true ip e = subst (λ t. length t ≤ 15) (ap text_in e) (omega arith)
short_text false ip e = cc

pub inet-InetLaw : InetLaw inet
inet-InetLaw = record {
  ntohs_htons = λ port small. omega arith;
  ntohs_small = λ port. omega arith;
  ntop_addr = λ ip size is large. ground (arith, same_text-eq ip dotted is);
  ntop_short = λ addr size ip e. short_text (ltb 15 size) ip e;
}

abbrev address : SockAddr
address = new_inet_address inet 8000 dotted

to_ip_port-Bounded_example :
    (text : List ℕ) × (to_ip_port inet address ≡ ok text)
    × (length text ≤ 21)
    × (text ≡ to_ip inet address ++ (58 ∷ decimal (to_port inet address)))
to_ip_port-Bounded_example = to_ip_port-Bounded inet inet-InetLaw address

new_inet_address_round_trip_example :
    (to_port inet (new_inet_address inet 8000 dotted) ≡ 8000)
    × (to_ip inet (new_inet_address inet 8000 dotted) ≡ dotted)
    × (to_ip_port inet (new_inet_address inet 8000 dotted) ≡ ok (dotted ++ (58 ∷ decimal 8000)))
new_inet_address_round_trip_example =
    new_inet_address_round_trip inet inet-InetLaw 8000 dotted (omega arith) (same_text_refl dotted)

abbrev noon : Tm
noon = record { tm_year = 123; tm_mon = 4; tm_mday = 9; tm_hour = 12; tm_min = 0; tm_sec = 7 }

abbrev at_noon : Timestamp
at_noon = record { micro_seconds_since_epoch = 1683633607 }

noon-IsTm : IsTm noon
noon-IsTm = record {
  year = omega arith;
  month = omega arith;
  day = omega arith;
  hour = omega arith;
  minute = omega arith;
  second = omega arith;
}

to_string_whole_example : to_string (λ t. noon) at_noon ≡ written 2023 5 9 12 0 7
to_string_whole_example = to_string_whole (λ t. noon) at_noon noon refl noon-IsTm

abbrev calls : List Call
calls =
    record { level = info; time = 49 ∷ []; msg = 97 ∷ [] }
    ∷ record { level = fatal; time = 50 ∷ []; msg = 98 ∷ [] }
    ∷ record { level = error; time = 51 ∷ []; msg = 99 ∷ [] }
    ∷ []

abbrev logger : Logger
logger = record { log_level = 3; printed = []; exited = false }

run_calls_lem_example : (run_calls false calls logger).printed ≡ lines false calls
run_calls_lem_example = run_calls_lem false calls logger refl
