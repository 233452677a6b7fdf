-- ===== src/Dns/Query/RoundTrip.antt =====
-- Queries of dns_makequery(), read by parse_name() and parseDNSMSG().
use x_wizchip_io_library_dri.Base.{
  ℕ, suc, ◌+◌, ◌*◌, ◌/◌, ◌%◌, ◌<◌, ◌≡◌, refl, ap, ◌∙◌, ltb, bit_or, true, false, some, List, [],
  ◌∷◌, ◌++◌, length, All, arith,
}
use x_wizchip_io_library_dri.Dns.Name.{ok, parse_name, name_end, max_cname}
use x_wizchip_io_library_dri.Dns.Name.RoundTrip.{
  IsLabel, dotted, wire, dots, append_assoc, parse_wire, write_name-wire, room-dotted,
  labels-le-room,
}
use x_wizchip_io_library_dri.Dns.Message.{Dhdr}
use x_wizchip_io_library_dri.Dns.Query.{dns_makequery}

-- The fixed head of a query.
abbrev pub query_head : ℕ → ℕ → List ℕ
query_head id op =
    id / 256 % 256
    ∷ id % 256
    ∷ bit_or (op * 2048 % 65536) 0x0100 / 256 % 256
    ∷ bit_or (op * 2048 % 65536) 0x0100 % 256
    ∷ 0
    ∷ 1
    ∷ 0
    ∷ 0
    ∷ 0
    ∷ 0
    ∷ 0
    ∷ 0
    ∷ []

end_of_names : (n : ℕ) → 0 < n → name_end n ≡ 0 ∷ []
unfolding name_end
end_of_names n h = ground arith

module _ (id op : ℕ) (l : List ℕ) (ls : List (List ℕ)) (names : All IsLabel (l ∷ ls))
    (short : length (dotted l ls) < 24) where
  -- The query for a.b.c.
  pub dns_makequery-wire :
      dns_makequery id op (dotted l ls)
      ≡ some (query_head id op ++ (wire (l ∷ ls) ++ (0 ∷ 1 ∷ 0 ∷ 1 ∷ [])))
  unfolding dns_makequery
  dns_makequery-wire =
      let fits : ltb (length (dotted l ls)) max_cname ≡ true = ground arith in
      let written =
        write_name-wire (suc (length (dotted l ls))) l ls names
          (omega (arith, room-dotted l ls, labels-le-room ls)) in
      rw (fits, written, dns_makequery)
        (ap (λ xs. some (query_head id op ++ xs))
          (append_assoc (wire (l ∷ ls)) (0 ∷ 1 ∷ []) (0 ∷ 1 ∷ [])))

  pub parse_name-wire :
      (post : List ℕ)
      → parse_name (query_head id op ++ (wire (l ∷ ls) ++ post)) 12 24
        ≡ ok (length (wire (l ∷ ls)), dots (l ∷ ls) ++ (0 ∷ []))
  unfolding parse_name
  parse_name-wire post =
      let parsed =
        parse_wire (l ∷ ls) (query_head id op ++ (wire (l ∷ ls) ++ post)) (query_head id op) post 25
          0 0 24 names refl (omega (arith, room-dotted l ls))
          (omega (arith, room-dotted l ls, labels-le-room ls)) in
      let zero_plus : 0 + length (wire (l ∷ ls)) ≡ length (wire (l ∷ ls)) = omega arith in
      parsed ∙ rw (zero_plus, end_of_names (0 + suc (length ls)) (omega arith)) refl

  -- For a name of components that are not empty, shorter than 64 and without a dot, of fewer than 24
  -- characters in all, a query is made, and parse_name() reads from its offset 12 the name with a dot
  -- behind each component and a 0, and the length that the name has in the query.
  pub parse_name-dns_makequery :
      (msg : List ℕ) × (dns_makequery id op (dotted l ls) ≡ some msg)
      × (parse_name msg 12 24 ≡ ok (length (wire (l ∷ ls)), dots (l ∷ ls) ++ (0 ∷ [])))
  parse_name-dns_makequery = (_, dns_makequery-wire, parse_name-wire _)

-- The header of a query, as it is read.
abbrev pub query_dhdr : ℕ → Dhdr
query_dhdr id = record {
  id = id % 65536;
  qr = false;
  opcode = 0;
  aa = false;
  tc = false;
  rd = true;
  ra = false;
  rcode = 0;
  qdcount = 1;
  ancount = 0;
  nscount = 0;
  arcount = 0;
}
