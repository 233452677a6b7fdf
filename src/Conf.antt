-- ===== src/Conf.antt =====
-- Ethernet/wizchip_conf.c, for the W5500: what the functions of its children share.
pub mod Net
pub mod Phy
pub mod Interrupts
pub mod Init
pub mod Callbacks
pub mod Control
pub mod Steady
use x_wizchip_io_library_dri.Base.{ℕ, List}

-- wiz_NetInfo; the arrays have 6 and 4 entries.
pub record WizNetInfo : Type 0 where
  pub mac : List ℕ
  pub ip : List ℕ
  pub sn : List ℕ
  pub gw : List ℕ
  pub dns : List ℕ
  pub dhcp : ℕ

pub record WizNetTimeout : Type 0 where
  pub retry_cnt : ℕ
  pub time_100us : ℕ

pub record WizPhyConf : Type 0 where
  pub by : ℕ
  pub mode : ℕ
  pub speed : ℕ
  pub duplex : ℕ

-- The chip, and the file-scope variables _DNS_ and _DHCP_.
pub record Network (S : Type 0) : Type 0 where
  pub chip : S
  pub dns : List ℕ
  pub dhcp : ℕ
