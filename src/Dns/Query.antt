-- ===== src/Dns/Query.antt =====
-- dns.c: dns_makequery().
pub mod RoundTrip
use x_wizchip_io_library_dri.Base.{
  ℕ, zero, suc, ◌+◌, ◌*◌, ◌%◌, ◌==◌, ltb, bit_or, if◌then◌else◌, true, false, Option, none, some,
  List, [], ◌∷◌, ◌++◌, length,
}
use x_wizchip_io_library_dri.Dns.Name.{put16, max_cname}

-- The component in front of the next dot (strchr), and what stands behind that dot.
unfoldable pub component : List ℕ → List ℕ
component [] = []
component (x ∷ xs) = if x == 46 then [] else x ∷ component xs

unfoldable pub behind_dot : List ℕ → Option (List ℕ)
behind_dot [] = none
behind_dot (x ∷ xs) = if x == 46 then some xs else behind_dot xs

-- The loop over the components; `none` when it is cut off.
unfoldable pub write_name : ℕ → List ℕ → Option (List ℕ)
write_name zero dname = none
write_name (suc n) dname = elim (length (component dname) == 0) [
  | true ↦ some (0 ∷ [])
  | false ↦ elim (behind_dot dname) [
    | none ↦ some (length (component dname) % 256 ∷ component dname ++ 0 ∷ [])
    | some rest ↦ elim (write_name n rest) [
      | none ↦ none
      | some bytes ↦ some (length (component dname) % 256 ∷ component dname ++ bytes)
    ]
  ]
]

-- `name` without its terminating 0. `none`: it does not fit into `sname`, or the loop was cut off.
-- The result is the message, with `id` the value of DNS_MSGID behind the increment.
unfoldable pub dns_makequery : ℕ → ℕ → List ℕ → Option (List ℕ)
dns_makequery id op name = elim (ltb (length name) max_cname) [
  | false ↦ none
  | true ↦ elim (write_name (suc (length name)) name) [
    | none ↦ none
    | some bytes ↦ some (
        put16 id
        ++ put16 (bit_or (op * 2048 % 65536) 0x0100)
        ++ put16 1
        ++ put16 0
        ++ put16 0
        ++ put16 0
        ++ bytes
        ++ put16 1
        ++ put16 1)
  ]
]
