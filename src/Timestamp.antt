-- ===== src/Timestamp.antt =====
-- src/Timestamp.h and src/Timestamp.cc: a time in the unit of time(), and its text. localtime is the
-- parameter `local`. A time before 1970 is left out.
pub mod Format
use network_library_baseon_c.Base.{ℕ, ◌+◌, List, [], ◌∷◌, ◌++◌}
use network_library_baseon_c.Sys.{Sys}
use network_library_baseon_c.Text.{decimal, padded, cut_to, digit_0}

pub record Timestamp : Type 0 where
  pub micro_seconds_since_epoch : ℕ

-- The members of a struct tm that are read.
pub record Tm : Type 0 where
  pub tm_year : ℕ
  pub tm_mon : ℕ
  pub tm_mday : ℕ
  pub tm_hour : ℕ
  pub tm_min : ℕ
  pub tm_sec : ℕ

abbrev pub no_time : Timestamp
no_time = record { micro_seconds_since_epoch = 0 }

-- Timestamp::now(), from time(NULL).
pub now : (sys : Sys) → sys.Kernel → Timestamp
now sys k = record { micro_seconds_since_epoch = sys.time k }

-- %02d
abbrev pub two : ℕ → List ℕ
two n = padded digit_0 2 (decimal n)

-- "%4d/%02d/%02d  %02d:%02d:%02d"
pub format : Tm → List ℕ
format t =
    padded 32 4 (decimal (t.tm_year + 1900))
    ++ (47
        ∷ (two (t.tm_mon + 1)
            ++ (47
                ∷ (two t.tm_mday
                    ++ (32
                        ∷ 32
                        ∷ (two t.tm_hour ++ (58 ∷ (two t.tm_min ++ (58 ∷ two t.tm_sec)))))))))

pub to_string : (ℕ → Tm) → Timestamp → List ℕ
unfolding format
to_string local t = cut_to 128 (format (local t.micro_seconds_since_epoch))
