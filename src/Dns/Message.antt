-- ===== src/Dns/Message.antt =====
-- dns.c: dns_question(), dns_answer() and parseDNSMSG().
pub mod Layout
pub mod Records
pub mod Replies
use x_wizchip_io_library_dri.Base.{
  ℕ, zero, suc, ◌+◌, ◌/◌, ◌==◌, not, bit_and, if◌then◌else◌, Bool, Option, none, some, List,
}
use x_wizchip_io_library_dri.Dns.Name.{
  Parsed, ok, ◌>>=◌, byte_at, bytes_at, get16, parse_name, max_cname,
}

-- The offset of the next record. `too_long` is the source's null pointer.
unfoldable pub dns_question : List ℕ → ℕ → Parsed ℕ
dns_question msg cp = do name ← parse_name msg cp max_cname; ok (cp + name.0 + 2 + 2)

-- The name at `cp` is skipped.
unfoldable pub skip_name : List ℕ → ℕ → Parsed ℕ
skip_name msg cp = do name ← parse_name msg cp max_cname; ok (cp + name.0)

-- The types of resource records that dns_answer() tells apart.
pub data RecordType : Type 0 where
  type_a one_name type_hinfo type_mx type_soa other_type : RecordType

-- The cases of the switch: CNAME, MB, MG, MR, NS and PTR share one.
unfoldable pub record_type : ℕ → RecordType
record_type type =
    if type == 1
    then type_a
    else if type == 5
    then one_name
    else if type == 7
    then one_name
    else if type == 8
    then one_name
    else if type == 9
    then one_name
    else if type == 2
    then one_name
    else if type == 12
    then one_name
    else if type == 13
    then type_hinfo
    else if type == 15
    then type_mx
    else if type == 6
    then type_soa
    else other_type

-- The body of the switch, with `cp` behind the fixed part of the record: the offset behind what is
-- parsed, and the address where one is written to `ip_from_dns`.
unfoldable pub answer_data : List ℕ → ℕ → RecordType → Parsed (ℕ × Option (List ℕ))
answer_data msg cp type_a = do ip ← bytes_at msg cp 4; ok (cp + 4, some ip)
answer_data msg cp one_name = do cp1 ← skip_name msg cp; ok (cp1, none)
answer_data msg cp type_hinfo = do
  len ← byte_at msg cp
  len' ← byte_at msg (cp + 1 + len)
  ok (cp + 1 + len + 1 + len', none)
answer_data msg cp type_mx = do cp1 ← skip_name msg (cp + 2); ok (cp1, none)
answer_data msg cp type_soa = do
  cp1 ← skip_name msg cp
  cp2 ← skip_name msg cp1
  ok (cp2 + 4 + 4 + 4 + 4 + 4, none)
answer_data msg cp other_type = ok (cp, none)

unfoldable pub dns_answer : List ℕ → ℕ → Parsed (ℕ × Option (List ℕ))
dns_answer msg cp = do
  name ← parse_name msg cp max_cname
  type ← get16 msg (cp + name.0)
  answer_data msg (cp + name.0 + 2 + 2 + 4 + 2) (record_type type)

unfoldable pub questions : ℕ → List ℕ → ℕ → Parsed ℕ
questions zero msg cp = ok cp
questions (suc n) msg cp = do cp' ← dns_question msg cp; questions n msg cp'

-- A later address takes the place of an earlier one.
unfoldable pub answers : ℕ → List ℕ → ℕ → Option (List ℕ) → Parsed (Option (List ℕ))
answers zero msg cp ip = ok ip
answers (suc n) msg cp ip = do
  r ← dns_answer msg cp
  answers n msg r.0 (elim r.1 [ none ↦ ip | some ip' ↦ some ip' ])

-- struct dhdr
pub record Dhdr : Type 0 where
  pub id : ℕ
  pub qr : Bool
  pub opcode : ℕ
  pub aa : Bool
  pub tc : Bool
  pub rd : Bool
  pub ra : Bool
  pub rcode : ℕ
  pub qdcount : ℕ
  pub ancount : ℕ
  pub nscount : ℕ
  pub arcount : ℕ

unfoldable pub parse_header : List ℕ → Parsed Dhdr
parse_header msg = do
  id ← get16 msg 0
  tmp ← get16 msg 2
  qdcount ← get16 msg 4
  ancount ← get16 msg 6
  nscount ← get16 msg 8
  arcount ← get16 msg 10
  ok (record {
    id = id;
    qr = not (bit_and tmp 0x8000 == 0);
    opcode = bit_and (tmp / 2048) 0xf;
    aa = not (bit_and tmp 0x0400 == 0);
    tc = not (bit_and tmp 0x0200 == 0);
    rd = not (bit_and tmp 0x0100 == 0);
    ra = not (bit_and tmp 0x0080 == 0);
    rcode = bit_and tmp 0xf;
    qdcount = qdcount;
    ancount = ancount;
    nscount = nscount;
    arcount = arcount;
  })

-- What parseDNSMSG() gives where it does not return -1: the header, the address that it wrote, and
-- its result, 1 or 0.
pub record Reply : Type 0 where
  pub dhdr : Dhdr
  pub ip_from_dns : Option (List ℕ)
  pub ret : ℕ

unfoldable pub parse_dns_msg : List ℕ → Parsed Reply
parse_dns_msg msg = do
  h ← parse_header msg
  cp ← questions h.qdcount msg 12
  ip ← answers h.ancount msg cp none
  ok (record { dhdr = h; ip_from_dns = ip; ret = if h.rcode == 0 then 1 else 0 })
