-- ===== src/Tests/DnsRuns.antt =====
-- Runs of the functions of dns.c.
use x_wizchip_io_library_dri.Base.{
  ℕ, ◌+◌, ◌^◌, ◌<◌, ◌≤◌, ◌≡◌, arith, false, some, List, [], ◌∷◌, length, All,
}
use x_wizchip_io_library_dri.Chip.Rules.{Returns}
use x_wizchip_io_library_dri.Dns.Name.{ok, parse_name}
use x_wizchip_io_library_dri.Dns.Name.Bounds.{Ends, parse_name-Ends}
use x_wizchip_io_library_dri.Dns.Name.RoundTrip.{IsLabel}
use x_wizchip_io_library_dri.Dns.Message.Layout.{Asked, in_full, pointed, Answer, host, alias}
use x_wizchip_io_library_dri.Dns.Query.{dns_makequery}
use x_wizchip_io_library_dri.Dns.Query.RoundTrip.{parse_name-dns_makequery}
use x_wizchip_io_library_dri.Dns.Client.{dns_wait}
use x_wizchip_io_library_dri.Dns.Client.Silence.{dns_wait-GivenUp, GivenUp}
use x_wizchip_io_library_dri.Tests.{deaf, world_with}
use x_wizchip_io_library_dri.Tests.ToyAnswers.{toy_chip-Answers, deaf_silent}

-- "ab.c"
abbrev ab : List ℕ
ab = 97 ∷ 98 ∷ []

abbrev cd : List ℕ
cd = 99 ∷ []

names : All IsLabel (ab ∷ cd ∷ [])
names = (
  (omega arith, omega arith, ((λ e. ground arith), ((λ e. ground arith), tt))),
  ((omega arith, omega arith, ((λ e. ground arith), tt)), tt),
)

parse_name-dns_makequery_example :
    (msg : List ℕ) × (dns_makequery 0x1123 0 (97 ∷ 98 ∷ 46 ∷ 99 ∷ []) ≡ some msg)
    × (parse_name msg 12 24 ≡ ok (6, 97 ∷ 98 ∷ 46 ∷ 99 ∷ 46 ∷ 0 ∷ []))
parse_name-dns_makequery_example =
    parse_name-dns_makequery 0x1123 0 ab (cd ∷ []) names (omega arith)

parse_name-Ends_example :
    Ends
      (λ r. (1 + r.0 ≤ 5) × (0 < length r.1) × (length r.1 ≤ 25))
      (parse_name (0 ∷ 2 ∷ 97 ∷ 98 ∷ 0 ∷ []) 1 24)
parse_name-Ends_example = parse_name-Ends (0 ∷ 2 ∷ 97 ∷ 98 ∷ 0 ∷ []) 1 24 (omega arith)

-- The question for "ab.c", the name "c" for it and the address of "c"
abbrev some_asked : List Asked
some_asked = record { name = ab ∷ cd ∷ []; fixed = 0 ∷ 1 ∷ 0 ∷ 1 ∷ [] } ∷ []

abbrev some_fixed : List ℕ
some_fixed = 0 ∷ 1 ∷ 0 ∷ 0 ∷ 0 ∷ 60 ∷ 0 ∷ 4 ∷ []

abbrev some_answers : List Answer
some_answers =
    alias pointed some_fixed (in_full (cd ∷ []))
    ∷ host (in_full (cd ∷ [])) some_fixed (10 ∷ 0 ∷ 0 ∷ 7 ∷ [])
    ∷ []

-- The timer has run in nine passes, and not in another.
abbrev ten_passes : List ℕ
ten_passes = 1 ∷ 1 ∷ 0 ∷ 1 ∷ 1 ∷ 1 ∷ 1 ∷ 1 ∷ 1 ∷ 1 ∷ []

small_ticks : All (λ n. n < 2 ^ 31) ten_passes
small_ticks = (
  omega arith,
  (
    omega arith,
    (
      omega arith,
      (
        omega arith,
        (
          omega arith,
          (omega arith, (omega arith, (omega arith, (omega arith, (omega arith, tt))))),
        ),
      ),
    ),
  ),
)

dns_wait-GivenUp_example : Returns GivenUp (
    dns_wait deaf 5 1
      (8 ∷ 8 ∷ 8 ∷ 8 ∷ [])
      ten_passes
      (record { dns_1s_tick = 0; retry_count = 0 })
      (1 ∷ 2 ∷ [])
      (world_with 2 0x22 []))
dns_wait-GivenUp_example =
    dns_wait-GivenUp deaf 5 1 (omega arith) (toy_chip-Answers false) deaf_silent
      (8 ∷ 8 ∷ 8 ∷ 8 ∷ []) ten_passes (record { dns_1s_tick = 0; retry_count = 0 }) (1 ∷ 2 ∷ [])
      (world_with 2 0x22 []) (omega arith, omega arith) small_ticks (omega arith)
