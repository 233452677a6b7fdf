-- ===== src/Dhcp/Messages/Written.antt =====
-- The client with its addresses written out, byte by byte.
use x_wizchip_io_library_dri.Base.{ℕ, ◌≡◌, sym, subst, List, [], ◌∷◌, length, four_of, six_of}
use x_wizchip_io_library_dri.Dhcp.State.{Dhcp}

-- The hardware address, the allocated address and the server of `d` replaced.
abbrev pub written : (m0 m1 m2 m3 m4 m5 i0 i1 i2 i3 s0 s1 s2 s3 : ℕ) → Dhcp → Dhcp
written m0 m1 m2 m3 m4 m5 i0 i1 i2 i3 s0 s1 s2 s3 d = record d {
  chaddr = m0 ∷ m1 ∷ m2 ∷ m3 ∷ m4 ∷ m5 ∷ [];
  allocated_ip = i0 ∷ i1 ∷ i2 ∷ i3 ∷ [];
  learned = record d.learned { sip = s0 ∷ s1 ∷ s2 ∷ s3 ∷ [] };
}

abbrev pub HasSizes : Dhcp → Type 0
HasSizes d = (length d.chaddr ≡ 6) × (length d.allocated_ip ≡ 4) × (length d.learned.sip ≡ 4)

-- What holds with the addresses written out holds of all addresses of these sizes.
pub by_bytes :
    (P : Dhcp → List ℕ → Type 0)
    → ((m0 m1 m2 m3 m4 m5 i0 i1 i2 i3 s0 s1 s2 s3 c0 c1 c2 c3 : ℕ) (d : Dhcp)
        → P (written m0 m1 m2 m3 m4 m5 i0 i1 i2 i3 s0 s1 s2 s3 d) (c0 ∷ c1 ∷ c2 ∷ c3 ∷ []))
    → (d : Dhcp) (ciaddr : List ℕ) → HasSizes d
    → length ciaddr ≡ 4
    → P d ciaddr
by_bytes P h d ciaddr (six, four, sip) ci =
    let (m0, m1, m2, m3, m4, m5, em) = six_of d.chaddr six in
    let (i0, i1, i2, i3, ei) = four_of d.allocated_ip four in
    let (s0, s1, s2, s3, es) = four_of d.learned.sip sip in
    let (c0, c1, c2, c3, ec) = four_of ciaddr ci in
    let same : d ≡ written m0 m1 m2 m3 m4 m5 i0 i1 i2 i3 s0 s1 s2 s3 d = λ i. record d {
      chaddr = em i;
      allocated_ip = ei i;
      learned = record d.learned { sip = es i };
    } in
    subst (λ (p : Dhcp × List ℕ). P p.0 p.1) (sym (λ i. (same i, ec i)))
      (h m0 m1 m2 m3 m4 m5 i0 i1 i2 i3 s0 s1 s2 s3 c0 c1 c2 c3 d)
