-- ===== src/Lib.antt =====
-- The WIZnet ioLibrary driver: the socket API over a W5500, the DNS and DHCP clients and the HTTP and
-- FTP servers on top of it, and the AT commands.
--
-- The program is a driver in C for Ethernet chips of WIZnet. Ethernet/W5500/w5500.h names the
-- registers of the chip and gives macros that read and write them over a bus; Ethernet/W5500/w5500.c
-- moves data to and from the chip's socket buffers; Ethernet/socket.c offers calls in the manner of
-- BSD sockets and keeps a few variables of its own; the protocols under Internet/ use these calls.
-- The model is of the configuration that Ethernet/wizchip_conf.h selects: a W5500 with 8 sockets.
--
-- Chip models the chip behind its bus as an interface: reads and writes of one byte and of a buffer,
-- on a state that nothing is known of but that a read gives bytes and fills its buffer. A read may
-- change the state, so the chip changes by itself between any two accesses. Computations of the
-- driver run on a World, the chip with the variables of socket.c, and have an Outcome: done, hung (a
-- loop that polls the chip used up the polls it is allowed), or fault (an access outside an array).
-- Chip.Rules has the rules to reason about them: Safe for runs that do not fault, and Returns for
-- runs that return.
--
-- W5500.Regs and W5500.Common have the registers of the sockets and the common ones, and the macros
-- of w5500.h under the macros' names (getSn_MR is get_sn_mr). W5500.Spi has WIZCHIP_READ(),
-- WIZCHIP_WRITE() and their _BUF kin over a record of the bus functions that the user registers;
-- W5500.Spi.Device says what is relied on behind them: the frames of the datasheet, and burst
-- functions that carry their bytes. W5500.Spi.Frames makes a Chip of such a bus. W5500.Buffers has
-- getSn_TX_FSR(), getSn_RX_RSR(), wiz_send_data(), wiz_recv_data() and wiz_recv_ignore().
--
-- Conf is Ethernet/wizchip_conf.c: Conf.Net the addresses, the mode, the timeouts and
-- wizchip_sw_reset(), Conf.Phy the wizphy_ functions, Conf.Interrupts the interrupts and their mask,
-- Conf.Init wizchip_init(), Conf.Callbacks the registration of the bus functions, Conf.Control
-- ctlwizchip() and ctlnetwork(), whose argument is a code with what its pointer carries in.
-- Conf.Steady says what is relied on of the chip: the read/write registers keep what the host writes,
-- but for a reset through MR.
--
-- Socket.Codes has the constants, Socket.State the variables and the waiting loop that all calls
-- share, Socket.Open socket() and close(), Socket.Tcp listen(), connect(), disconnect(), send() and
-- recv(), Socket.Udp sendto() and recvfrom(), Socket.Options ctlsocket(), setsockopt() and
-- getsockopt(). A macro such as CHECK_SOCKNUM that returns from its caller is a function of the rest
-- of the caller. Buffers of the caller are lists: what a call writes to one is part of its result.
--
-- Dns.Name has get16(), put16() and parse_name() of Internet/DNS/dns.c, Dns.Message dns_question(),
-- dns_answer() and parseDNSMSG(), Dns.Query dns_makequery(), Dns.Client check_DNS_timeout(),
-- DNS_time_handler() and DNS_run(). A pointer into the message is an offset, and a read behind the
-- message's end is the result `outside`. Dns.Message.Layout has the layout of a server's reply.
--
-- Dhcp.Options has parseDHCPMSG() of Internet/DHCP/dhcp.c, Dhcp.State the variables, Dhcp.Messages
-- makeDHCPMSG(), send_DHCP_DISCOVER(), send_DHCP_REQUEST() and send_DHCP_DECLINE(), Dhcp.Machine
-- DHCP_run(), check_DHCP_timeout(), check_DHCP_leasedIP() and DHCP_stop(), Dhcp.Init DHCP_init(), the
-- default handlers on the chip, their registration and the getters. A run gives the new variables,
-- the result, and the calls with an effect outside as a list of values, a sendto() with its address,
-- port and bytes; whether the socket is open, what has arrived, and whether the probe of
-- check_DHCP_leasedIP() timed out are inputs.
--
-- Http is Internet/httpServer/httpParser.c as it is without _OLD_: Http.Url unescape_http_url(),
-- C2D(), replacetochar() and get_http_uri_name(), Http.Numbers ATOI() and inet_addr_(), Http.Pages
-- find_http_uri_type() and make_http_response_head(), Http.Request parse_http_request(), mid() and
-- get_http_param_value(), and Http.Text what they call of string.h. A string is the list of its bytes
-- before the 0. Http.Content is the part of Internet/httpServer/httpServer.c, without _USE_SDCARD_
-- and _USE_FLASH_, that keeps the table of pages and sends them, with the bytes given to send() as a
-- result; the passes of httpServer_run() that go on sending are the relation Runs of
-- Http.Content.Transfer. `none` is an access outside an array or through NULL, but for searches,
-- where it is that nothing was found.
--
-- Http.Response has the heads and the CGI responses, with the handlers of
-- Internet/httpServer/httpUtil.c, and Http.Server http_process_handler() and httpServer_run(): a pass
-- takes the entries of HTTPSock_Num and HTTPSock_Status and what it finds at the socket, a Pass, and
-- gives the new entries and the calls that leave the server as a list of values. Http.Server.Start
-- has httpServer_init(). Services has the states of a socket in which the servers act.
--
-- Ftp is Internet/FTPServer/ftpd.c without F_FILESYSTEM: Ftp.State the types of ftpd.h, the variables
-- and ftpd_init(), Ftp.Commands the table of commands and how a line is taken apart, Ftp.Port pport()
-- and the address that PASV writes, Ftp.Replies the texts, Ftp.Process proc_ftpd() and ftplogin(),
-- with one function for each case of the switch that is longer than a reply, and Ftp.Daemon
-- ftpd_run(). A pass takes the states of the two sockets, the line that arrives and which calls of
-- the socket API succeed, and gives the variables and the calls. `none` is a text that runs over its
-- array, or an access through NULL.
--
-- Atc is the front of Internet/ATcmd/atcmd.c: Atc.State the variables and the parts of a command,
-- Atc.History cmd_set_prev(), a ring of the last commands, Atc.Divide strsep_ex() of
-- Internet/ATcmd/library/util.c and cmd_divide(), and Atc.Run cmd_resp(), cmd_assign() and atc_run()
-- on one character. UART_write() and the handlers are values in the order of the calls. `none` is a
-- text that runs over its array, an access through NULL, or CRITICAL_ERR(), which does not return.
--
-- Bounds. Every loop that polls the chip takes the number of polls as a parameter; for the calls that
-- are shown to return, Socket.State.Progress says what a chip does within that many polls, and Tests
-- has a chip that does. The loop of parse_name() takes one round more than the buffer has bytes,
-- which is enough since a segment takes two. The loop of dns_makequery() takes one round more than
-- the name has characters. The option loop of parseDHCPMSG() takes as many rounds as the message has
-- bytes, each of which goes on by one byte at least. The loop of DNS_run() takes a list that says how
-- often the timer's interrupt has run before each pass. The loops of cmd_set_prev() take as many
-- rounds as there are entries, since each round takes one away.
--
-- Not modelled: the default bus functions of wizchip_conf.c, which call the HAL of one board, the
-- other chips, the debug output, DNS_init(), the variants of the servers with a file system, and the
-- rest of the repository: the FTP client, the handlers of the AT commands, the configuration files,
-- the demonstration programs, and the copy of the Paho MQTT client.
mod Base
pub mod Chip
pub mod W5500
pub mod Conf
pub mod Socket
pub mod Dns
pub mod Dhcp
pub mod Http
pub mod Services
pub mod Ftp
pub mod Atc
mod Tests
