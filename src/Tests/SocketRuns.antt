-- ===== src/Tests/SocketRuns.antt =====
-- Runs of the calls of socket.c.
use x_wizchip_io_library_dri.Base.{◌≡◌, refl, arith, true, [], ◌∷◌, none, some, inl, if◌then◌else◌}
use x_wizchip_io_library_dri.Base.Int.{pos, negsuc}
use x_wizchip_io_library_dri.Base.{ℕ, ◌≢◌, ◌<◌}
use x_wizchip_io_library_dri.Base.Bits.{bit}
use x_wizchip_io_library_dri.Chip.{◌>>=◌}
use x_wizchip_io_library_dri.Socket.Codes.{sock_ok}
use x_wizchip_io_library_dri.Socket.Options.{ctlsocket, cs_set_iomode, cs_get_iomode, num}
use x_wizchip_io_library_dri.Socket.Options.IoMode.{ctlsocket-io_mode}
use x_wizchip_io_library_dri.Chip.{World}
use x_wizchip_io_library_dri.Chip.Rules.{Returns}
use x_wizchip_io_library_dri.W5500.Regs.{
  read16, write16, get_sn_mr, get_sn_sr, get_sn_cr, set_sn_cr, get_sn_rx_rd, set_sn_rx_rd, sn_reg,
}
use x_wizchip_io_library_dri.W5500.Buffers.{get_sn_rx_rsr, read_stable, wiz_recv_data}
use x_wizchip_io_library_dri.Socket.State.{
  driver_init, branch, command, wait_while, set_remained, get_remained, set_pack_info,
  get_pack_info,
}
use x_wizchip_io_library_dri.Socket.Open.{socket, close, flag_error}
use x_wizchip_io_library_dri.Socket.Open.Flags.{flag_error-accepts, accepts}
use x_wizchip_io_library_dri.Socket.Open.Closing.{Closed}
use x_wizchip_io_library_dri.Socket.Open.Progress.{close-Returns, socket-Returns}
use x_wizchip_io_library_dri.Socket.Tcp.Progress.{send-Returns}
use x_wizchip_io_library_dri.Socket.Udp.Progress.{recvfrom-Returns}
use x_wizchip_io_library_dri.Tests.ToyAnswers.{toy_chip-Answers}
use x_wizchip_io_library_dri.Socket.Open.Opening.{OpenedOr}
use x_wizchip_io_library_dri.Socket.Tcp.{send, recv}
use x_wizchip_io_library_dri.Socket.Tcp.Receiving.{recv-Returns, RecvdResult}
use x_wizchip_io_library_dri.Socket.Tcp.Sending.{SendResult}
use x_wizchip_io_library_dri.Socket.Udp.{
  recvfrom, nothing, recvfrom_after, recvfrom_mode, recvfrom_udp, recvfrom_wait, read_head, deliver,
}
use x_wizchip_io_library_dri.Socket.Udp.Accounting.{RecvResult}
use x_wizchip_io_library_dri.Tests.{toy, world, world_with, result, Memory}

-- A datagram of five bytes from 10.0.0.7, port 53.
abbrev datagram : World Memory
datagram = world_with 2 0x22 (10 ∷ 0 ∷ 0 ∷ 7 ∷ 0 ∷ 53 ∷ 0 ∷ 5 ∷ 1 ∷ 2 ∷ 3 ∷ 4 ∷ 5 ∷ [])

-- The same on a socket that does not block.
abbrev nonblocking : World Memory
nonblocking = record datagram { driver = record driver_init { sock_io_mode = 2 } }

two_of_five :
    (result (nothing (negsuc 0)) (recvfrom toy 5 1 2 datagram))
    ≡ record { ret = pos 2; bytes = 1 ∷ 2 ∷ []; addr = some (10 ∷ 0 ∷ 0 ∷ 7 ∷ []); port = some 53 }
unfolding recvfrom recvfrom_after recvfrom_mode recvfrom_udp recvfrom_wait read_head deliver branch
    command wait_while set_remained get_remained set_pack_info get_pack_info get_sn_rx_rsr
    read_stable read16 write16 wiz_recv_data get_sn_mr get_sn_sr get_sn_cr set_sn_cr get_sn_rx_rd
    set_sn_rx_rd sn_reg
two_of_five = refl

recvfrom-Returns_example :
    Returns (RecvResult toy 5 1 2 nonblocking) (recvfrom toy 5 1 2 nonblocking)
recvfrom-Returns_example =
    recvfrom-Returns toy 5 1 2 (omega arith) (toy_chip-Answers true) nonblocking (omega arith)
      (inl refl)

abbrev connected : World Memory
connected = record (world_with 1 0x17 []) { driver = nonblocking.driver }

send-Returns_example :
    Returns
      (SendResult toy 5 1 (1 ∷ 2 ∷ 3 ∷ []) 3 nonblocking.driver)
      (send toy 5 1 (1 ∷ 2 ∷ 3 ∷ []) 3 connected)
send-Returns_example =
    send-Returns toy 5 1 (omega arith) (toy_chip-Answers true) (1 ∷ 2 ∷ 3 ∷ []) 3 connected refl

socket-Returns_example : Returns (OpenedOr toy 5 1 2 0 1 world) (socket toy 5 1 2 0 1 world)
socket-Returns_example =
    socket-Returns toy 5 1 (omega arith) (toy_chip-Answers true) 2 0 1 world (omega arith)
      (omega arith, omega arith)

close-Returns_example : Returns (Closed toy 5 1 datagram) (close toy 5 1 datagram)
close-Returns_example = close-Returns toy 5 1 (omega arith) (toy_chip-Answers true) datagram

flag_error-accepts_example : flag_error 2 0x20 ≡ (if accepts 2 0x20 then none else some (negsuc 5))
flag_error-accepts_example = flag_error-accepts 2 0x20 (omega arith)

ctlsocket-io_mode_example :
    Returns
      (λ r w'.
        (r ≡ (sock_ok, some (num 1)))
        × (w'.chip ≡ datagram.chip)
        × ((j : ℕ) → j < 8 → j ≢ 1 → bit j w'.driver.sock_io_mode ≡ bit j 0))
      ((ctlsocket toy 5 1 cs_set_iomode 1 >>= λ _. ctlsocket toy 5 1 cs_get_iomode 0) datagram)
ctlsocket-io_mode_example = ctlsocket-io_mode toy 5 1 (omega arith) 1 0 datagram (omega arith)

-- Five bytes have arrived, and the caller has room for three.
abbrev arrived : World Memory
arrived = record (world_with 1 0x17 (1 ∷ 2 ∷ 3 ∷ 4 ∷ 5 ∷ [])) { driver = nonblocking.driver }

recv-Returns_example : Returns (RecvdResult toy 5 1 3 nonblocking.driver) (recv toy 5 1 3 arrived)
recv-Returns_example = recv-Returns toy 5 1 (omega arith) (toy_chip-Answers true) 3 arrived refl
