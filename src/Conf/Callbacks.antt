-- ===== src/Conf/Callbacks.antt =====
-- wizchip_conf.c: the functions of the user that WIZCHIP holds, and their registration.
use x_wizchip_io_library_dri.Base.{
  ℕ, ◌+◌, ◌==◌, if◌then◌else◌, bit_and, Option, none, some, List, [], ◌∷◌,
}

-- The functions of the file by their names, and the user's by a number.
pub data Callback : Type 0 where
  wizchip_cris_enter : Callback
  wizchip_cris_exit : Callback
  wizchip_cs_select : Callback
  wizchip_cs_deselect : Callback
  wizchip_bus_readdata : Callback
  wizchip_bus_writedata : Callback
  wizchip_spi_readbyte : Callback
  wizchip_spi_writebyte : Callback
  wizchip_spi_readburst : Callback
  wizchip_spi_writeburst : Callback
  user : ℕ → Callback

abbrev pub wizchip_io_mode_bus : ℕ
wizchip_io_mode_bus = 0x0100

abbrev pub wizchip_io_mode_spi : ℕ
wizchip_io_mode_spi = 0x0200

-- _WIZCHIP. IF is a union: its first two pointers are BUS._read_data and BUS._write_data, and also
-- SPI._read_byte and SPI._write_byte.
pub record Wizchip : Type 0 where
  pub if_mode : ℕ
  pub id : List ℕ
  pub enter : Callback
  pub exit : Callback
  pub select : Callback
  pub deselect : Callback
  pub read : Callback
  pub write : Callback
  pub read_burst : Option Callback
  pub write_burst : Option Callback

-- The initial value; `id` is "W5500" with its terminating zeros.
abbrev pub wizchip_initial : Wizchip
wizchip_initial = record {
  if_mode = wizchip_io_mode_spi + 1;
  id = 0x57 ∷ 0x35 ∷ 0x35 ∷ 0x30 ∷ 0x30 ∷ 0 ∷ 0 ∷ [];
  enter = wizchip_cris_enter;
  exit = wizchip_cris_exit;
  select = wizchip_cs_select;
  deselect = wizchip_cs_deselect;
  read = wizchip_bus_readdata;
  write = wizchip_bus_writedata;
  read_burst = none;
  write_burst = none;
}

-- `!a || !b`, the defaults in that case
abbrev pub pair_or : Callback × Callback → Option Callback → Option Callback → Callback × Callback
pair_or defaults none g = defaults
pair_or defaults (some f) none = defaults
pair_or defaults (some f) (some g) = (f, g)

unfoldable pub reg_wizchip_cris_cbfunc : Option Callback → Option Callback → Wizchip → Wizchip
reg_wizchip_cris_cbfunc f g w =
    let (enter, exit) = pair_or (wizchip_cris_enter, wizchip_cris_exit) f g in
    record w { enter = enter; exit = exit }

unfoldable pub reg_wizchip_cs_cbfunc : Option Callback → Option Callback → Wizchip → Wizchip
reg_wizchip_cs_cbfunc f g w =
    let (select, deselect) = pair_or (wizchip_cs_select, wizchip_cs_deselect) f g in
    record w { select = select; deselect = deselect }

-- `none`: the loop on if_mode does not end.
unfoldable pub reg_wizchip_bus_cbfunc : Option Callback → Option Callback → Wizchip → Option Wizchip
reg_wizchip_bus_cbfunc f g w =
    let (read, write) = pair_or (wizchip_bus_readdata, wizchip_bus_writedata) f g in
    if bit_and w.if_mode wizchip_io_mode_bus == 0
    then none
    else some (record w { read = read; write = write })

unfoldable pub reg_wizchip_spi_cbfunc : Option Callback → Option Callback → Wizchip → Option Wizchip
reg_wizchip_spi_cbfunc f g w =
    let (read, write) = pair_or (wizchip_spi_readbyte, wizchip_spi_writebyte) f g in
    if bit_and w.if_mode wizchip_io_mode_spi == 0
    then none
    else some (record w { read = read; write = write })

unfoldable pub reg_wizchip_spiburst_cbfunc :
    Option Callback → Option Callback → Wizchip → Option Wizchip
reg_wizchip_spiburst_cbfunc f g w =
    let (read, write) = pair_or (wizchip_spi_readburst, wizchip_spi_writeburst) f g in
    if bit_and w.if_mode wizchip_io_mode_spi == 0
    then none
    else some (record w { read_burst = some read; write_burst = some write })
