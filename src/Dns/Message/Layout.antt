-- ===== src/Dns/Message/Layout.antt =====
-- The layout of a reply of a DNS server: the head, the questions and the answers.
use x_wizchip_io_library_dri.Base.{
  ℕ, ◌/◌, ◌%◌, ◌≤◌, ◌≡◌, ◌==◌, Option, some, List, [], ◌∷◌, ◌++◌, length, All,
}
use x_wizchip_io_library_dri.Base.Bits.{bit}
use x_wizchip_io_library_dri.Dns.Name.{put16}
use x_wizchip_io_library_dri.Dns.Name.RoundTrip.{IsLabel, wire, room}
use x_wizchip_io_library_dri.Dns.Message.{Dhdr}

-- A name of labels that fits the 24 bytes of the reader, with a dot behind each label.
abbrev pub IsName : List (List ℕ) → Type 0
IsName ls = All IsLabel ls × (room ls ≤ 24)

-- A question: a name, and the four bytes of its type and class.
pub record Asked : Type 0 where
  pub name : List (List ℕ)
  pub fixed : List ℕ

abbrev pub IsAsked : Asked → Type 0
IsAsked q = IsName q.name × (length q.fixed ≡ 4)

abbrev pub asked_text : Asked → List ℕ
asked_text q = wire q.name ++ q.fixed

abbrev pub asked_texts : List Asked → List ℕ
asked_texts [] = []
asked_texts (q ∷ qs) = asked_text q ++ asked_texts qs

-- A name in an answer: in full, or as a pointer to offset 12, where the first question has its name.
pub data Spelling : Type 0 where
  in_full : List (List ℕ) → Spelling
  pointed : Spelling

abbrev pub spelt : Spelling → List ℕ
spelt (in_full ls) = wire ls
spelt pointed = 192 ∷ 12 ∷ []

abbrev pub IsSpelled : List Asked → Spelling → Type 0
IsSpelled qs (in_full ls) = IsName ls
IsSpelled [] pointed = ⊥
IsSpelled (q ∷ qs) pointed = Unit {0}

-- An answer: a name, the eight bytes of the class, the time to live and the length of the data, and
-- the data, an address for the type A and a name for the type CNAME.
pub data Answer : Type 0 where
  host : Spelling → List ℕ → List ℕ → Answer
  alias : Spelling → List ℕ → Spelling → Answer

abbrev pub IsAnswer : List Asked → Answer → Type 0
IsAnswer qs (host s fixed ip) = IsSpelled qs s × (length fixed ≡ 8) × (length ip ≡ 4)
IsAnswer qs (alias s fixed target) = IsSpelled qs s × (length fixed ≡ 8) × IsSpelled qs target

abbrev pub answer_text : Answer → List ℕ
answer_text (host s fixed ip) = spelt s ++ (0 ∷ 1 ∷ (fixed ++ ip))
answer_text (alias s fixed target) = spelt s ++ (0 ∷ 5 ∷ (fixed ++ spelt target))

abbrev pub answer_texts : List Answer → List ℕ
answer_texts [] = []
answer_texts (r ∷ rs) = answer_text r ++ answer_texts rs

-- The address of the last answer that has one, or the one before them.
abbrev pub last_address : Option (List ℕ) → List Answer → Option (List ℕ)
last_address ip [] = ip
last_address ip (host s fixed new ∷ rs) = last_address (some new) rs
last_address ip (alias s fixed target ∷ rs) = last_address ip rs

-- The twelve bytes in front.
abbrev pub reply_head : ℕ → ℕ → ℕ → ℕ → ℕ → ℕ → List ℕ
reply_head id flags qd an ns ar =
    put16 id ++ (put16 flags ++ (put16 qd ++ (put16 an ++ (put16 ns ++ put16 ar))))

-- The header with its numbers and its flags, bit by bit.
abbrev pub dhdr_of : ℕ → ℕ → ℕ → ℕ → ℕ → ℕ → Dhdr
dhdr_of id flags qd an ns ar = record {
  id = id;
  qr = bit 15 flags == 1;
  opcode = flags / 2048 % 16;
  aa = bit 10 flags == 1;
  tc = bit 9 flags == 1;
  rd = bit 8 flags == 1;
  ra = bit 7 flags == 1;
  rcode = flags % 16;
  qdcount = qd;
  ancount = an;
  nscount = ns;
  arcount = ar;
}
