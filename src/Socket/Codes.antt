-- ===== src/Socket/Codes.antt =====
-- The numbers of socket.h and w5500.h: results, flags, modes, states, commands and interrupts.
use x_wizchip_io_library_dri.Base.{ℕ}
use x_wizchip_io_library_dri.Base.Int.{ℤ, pos, negsuc}

abbrev pub wizchip_sock_num : ℕ
wizchip_sock_num = 8

abbrev pub sock_ok : ℤ
sock_ok = pos 1

abbrev pub sock_busy : ℤ
sock_busy = pos 0

abbrev pub sockerr_socknum : ℤ
sockerr_socknum = negsuc 0

abbrev pub sockerr_sockopt : ℤ
sockerr_sockopt = negsuc 1

abbrev pub sockerr_sockinit : ℤ
sockerr_sockinit = negsuc 2

abbrev pub sockerr_sockclosed : ℤ
sockerr_sockclosed = negsuc 3

abbrev pub sockerr_sockmode : ℤ
sockerr_sockmode = negsuc 4

abbrev pub sockerr_sockflag : ℤ
sockerr_sockflag = negsuc 5

abbrev pub sockerr_sockstatus : ℤ
sockerr_sockstatus = negsuc 6

abbrev pub sockerr_arg : ℤ
sockerr_arg = negsuc 9

abbrev pub sockerr_portzero : ℤ
sockerr_portzero = negsuc 10

abbrev pub sockerr_ipinvalid : ℤ
sockerr_ipinvalid = negsuc 11

abbrev pub sockerr_timeout : ℤ
sockerr_timeout = negsuc 12

abbrev pub sockerr_datalen : ℤ
sockerr_datalen = negsuc 13

abbrev pub sockfatal_packlen : ℤ
sockfatal_packlen = negsuc 1000

-- Sn_MR: protocols and option bits
abbrev pub mr_tcp : ℕ
mr_tcp = 0x01

abbrev pub mr_udp : ℕ
mr_udp = 0x02

abbrev pub mr_ipraw : ℕ
mr_ipraw = 0x03

abbrev pub mr_macraw : ℕ
mr_macraw = 0x04

abbrev pub sf_io_nonblock : ℕ
sf_io_nonblock = 0x01

abbrev pub sf_tcp_nodelay : ℕ
sf_tcp_nodelay = 0x20

abbrev pub sf_igmp_ver2 : ℕ
sf_igmp_ver2 = 0x20

abbrev pub sf_multi_enable : ℕ
sf_multi_enable = 0x80

abbrev pub sf_uni_block : ℕ
sf_uni_block = 0x10

-- Sn_SR
abbrev pub sock_closed : ℕ
sock_closed = 0x00

abbrev pub sock_init : ℕ
sock_init = 0x13

abbrev pub sock_listen : ℕ
sock_listen = 0x14

abbrev pub sock_established : ℕ
sock_established = 0x17

abbrev pub sock_close_wait : ℕ
sock_close_wait = 0x1c

abbrev pub sock_udp : ℕ
sock_udp = 0x22

abbrev pub sock_ipraw : ℕ
sock_ipraw = 0x32

abbrev pub sock_macraw : ℕ
sock_macraw = 0x42

-- Sn_CR
abbrev pub cr_open : ℕ
cr_open = 0x01

abbrev pub cr_listen : ℕ
cr_listen = 0x02

abbrev pub cr_connect : ℕ
cr_connect = 0x04

abbrev pub cr_discon : ℕ
cr_discon = 0x08

abbrev pub cr_close : ℕ
cr_close = 0x10

abbrev pub cr_send : ℕ
cr_send = 0x20

abbrev pub cr_send_keep : ℕ
cr_send_keep = 0x22

abbrev pub cr_recv : ℕ
cr_recv = 0x40

-- Sn_IR
abbrev pub ir_sendok : ℕ
ir_sendok = 0x10

abbrev pub ir_timeout : ℕ
ir_timeout = 0x08

-- sock_pack_info
abbrev pub pack_first : ℕ
pack_first = 0x80

abbrev pub pack_remained : ℕ
pack_remained = 0x01

abbrev pub pack_completed : ℕ
pack_completed = 0x00

abbrev pub sock_any_port_num : ℕ
sock_any_port_num = 0xE000
