-- ===== src/Dhcp/Options/Bounds.antt =====
-- The rounds of parseDHCPMSG(), and the addresses learned.
use x_wizchip_io_library_dri.Base.{
  ℕ, zero, suc, ◌+◌, ◌<◌, ◌≤◌, ◌≡◌, refl, ◌==◌, ltb, not, ◌&&◌, Bool, true, false, List, [], ◌∷◌,
  length, arith, Bool-cases, inl, inr, ◌⊎◌,
}
use x_wizchip_io_library_dri.Dns.Name.{ok, ◌>>=◌, byte_at, bytes_at}
use x_wizchip_io_library_dri.Dns.Name.Bounds.{Ends, Ends->>=, byte_at-Ends, bytes_at-Ends}
use x_wizchip_io_library_dri.Dhcp.Options.{
  Learned, Arrived, OptionCode, end_option, pad_option, dhcp_message_type, subnet_mask,
  routers_on_subnet, dns, dhcp_ip_addr_lease_time, dhcp_server_identifier, other_option,
  option_code, At, parse_option, parse_options, same_bytes, parse_body, parse_dhcp_msg,
}

-- Every address that is learned has four bytes.
pub record IsLearned (l : Learned) : Type 0 where
  pub sip : length l.sip ≡ 4
  pub real_sip : length l.real_sip ≡ 4
  pub allocated_sn : length l.allocated_sn ≡ 4
  pub allocated_gw : length l.allocated_gw ≡ 4
  pub allocated_dns : length l.allocated_dns ≡ 4

-- A round goes on behind the option, or stands at the end.
abbrev Onwards : ℕ → At → At → Type 0
Onwards e s s' = ((s.p < s'.p) ⊎ (s'.p ≡ e)) × IsLearned s'.learned

module _ (msg svr_addr : List ℕ) (e : ℕ) (four : length svr_addr ≡ 4) where
  parse_option-Onwards :
      (code : OptionCode) (s : At)
      → IsLearned s.learned
      → Ends (Onwards e s) (parse_option msg svr_addr e code s)
  unfolding parse_option
  parse_option-Onwards end_option s l = (inr refl, l)
  parse_option-Onwards pad_option s l = (inl (omega arith), l)
  parse_option-Onwards dhcp_message_type s l =
      Ends->>= _ _ (byte_at msg (s.p + 2)) _ (byte_at-Ends msg (s.p + 2))
        λ type _. (inl (omega arith), l)
  parse_option-Onwards subnet_mask s l =
      Ends->>= _ _ (bytes_at msg (s.p + 2) 4) _ (bytes_at-Ends msg (s.p + 2) 4) λ sn h. ground arith
  parse_option-Onwards routers_on_subnet s l =
      Ends->>= _ _ (byte_at msg (s.p + 1)) _ (byte_at-Ends msg (s.p + 1)) λ opt_len _.
        Ends->>= _ _ (bytes_at msg (s.p + 2) 4) _ (bytes_at-Ends msg (s.p + 2) 4)
          λ gw h. ground arith
  parse_option-Onwards dns s l =
      Ends->>= _ _ (byte_at msg (s.p + 1)) _ (byte_at-Ends msg (s.p + 1)) λ opt_len _.
        Ends->>= _ _ (bytes_at msg (s.p + 2) 4) _ (bytes_at-Ends msg (s.p + 2) 4)
          λ ip h. ground arith
  parse_option-Onwards dhcp_ip_addr_lease_time s l =
      Ends->>= _ _ (byte_at msg (s.p + 1)) _ (byte_at-Ends msg (s.p + 1)) λ opt_len _.
        Ends->>= _ _ (bytes_at msg (s.p + 2) 4) _ (bytes_at-Ends msg (s.p + 2) 4)
          λ time h. ground arith
  parse_option-Onwards dhcp_server_identifier s l =
      Ends->>= _ _ (byte_at msg (s.p + 1)) _ (byte_at-Ends msg (s.p + 1)) λ opt_len _.
        Ends->>= _ _ (bytes_at msg (s.p + 2) 4) _ (bytes_at-Ends msg (s.p + 2) 4)
          λ ip h. ground arith
  parse_option-Onwards other_option s l =
      Ends->>= _ _ (byte_at msg (s.p + 1)) _ (byte_at-Ends msg (s.p + 1))
        λ opt_len _. (inl (omega arith), l)

  parse_options-Ends :
      (fuel : ℕ) (s : At)
      → IsLearned s.learned
      → e ≤ s.p + fuel
      → Ends (λ s'. IsLearned s'.learned × (e ≤ s'.p)) (parse_options fuel msg svr_addr e s)
  unfolding parse_options
  parse_options-Ends zero s l enough = elim (Bool-cases (ltb s.p e)) [
    | inl more ↦ absurd (ground arith)
    | inr over ↦ rw (over, Ends, parse_options) (l, ground arith)
  ]
  parse_options-Ends (suc n) s l enough = elim (Bool-cases (ltb s.p e)) [
    | inr over ↦ rw (over, Ends, parse_options) (l, ground arith)
    | inl more ↦
        rw (more, parse_options)
          (Ends->>= _ _ (byte_at msg s.p) _ (byte_at-Ends msg s.p) λ b _.
            Ends->>= _ _ (parse_option msg svr_addr e (option_code b) s) _
              (parse_option-Onwards (option_code b) s l)
              λ s' (on, l'). parse_options-Ends n s' l' (ground arith))
  ]

-- For a server's address of four bytes and addresses of four bytes learned before, parseDHCPMSG()
-- ends on every message; where it stays inside the message, the addresses learned have four bytes.
pub parse_dhcp_msg-Ends :
    (chaddr : List ℕ) (m : Arrived) (learned : Learned)
    → length m.svr_addr ≡ 4
    → IsLearned learned
    → Ends (λ r. IsLearned r.1) (parse_dhcp_msg chaddr m learned)
unfolding parse_dhcp_msg parse_body
parse_dhcp_msg-Ends chaddr m learned four l = elim (Bool-cases (m.svr_port == 67)) [
  | inr other ↦ rw (other, Ends, parse_dhcp_msg) l
  | inl server ↦
      rw (server, parse_dhcp_msg)
        (Ends->>= _ _ (bytes_at m.bytes 28 6) _ (bytes_at-Ends m.bytes 28 6) λ addressee _.
          elim (Bool-cases (same_bytes addressee chaddr)) [
            | inr other ↦ rw other l
            | inl mine ↦ rw mine (known _ refl)
          ])
]
  where
    known :
        (b : Bool)
        → (not (same_bytes learned.sip (0 ∷ 0 ∷ 0 ∷ 0 ∷ []))
            && (not (same_bytes m.svr_addr learned.sip)
                && not (same_bytes m.svr_addr learned.real_sip)))
          ≡ b
        → Ends
            (λ (r : ℕ × Learned). IsLearned r.1)
            (elim b [
              | true ↦ ok (0, learned)
              | false ↦ (parse_body m learned >>= λ s. ok (s.type, s.learned))
            ])
    known true e = l
    known false e =
        Ends->>= _ _ (parse_body m learned) _
          (parse_options-Ends m.bytes m.svr_addr m.len four m.len
            (record { p = 240; type = 0; learned = learned }) l (omega arith))
          λ s h. h.0
