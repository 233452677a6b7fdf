-- ===== src/Services.antt =====
-- What the servers find when they look at a socket: Sn_SR, with `other` for the states in which they
-- do nothing.
pub data SocketState : Type 0 where
  established close_wait closed init other : SocketState
