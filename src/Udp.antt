-- ===== src/Udp.antt =====
-- server/udp-proto/src/lib.rs: `UdpWithBuf`, a socket with a buffer of a fixed size. How a message is
-- encoded and decoded is the parameter `Proto`, with what its documentation says: what was encoded is
-- decoded as it was. An error of the socket is an input.
pub mod Sent
mod Examples
use voices.Common.{
  ℕ, zero, suc, ◌≡◌, Bool, true, false, Option, none, some, List, [], ◌∷◌, ◌++◌, length, leb,
  if◌then◌else◌,
}

pub record Proto : Type 1 where
  pub Message : Type 0
  pub encode : Message → List ℕ
  pub decode : List ℕ → Option Message
  pub decode-encode : (m : Message) → decode (encode m) ≡ some m

-- The kinds of an error of the socket that `fatal` tells apart.
pub data ErrorKind : Type 0 where
  not_found permission_denied addr_in_use connection_refused other : ErrorKind

pub data UdpError : Type 0 where
  io_error : ErrorKind → UdpError
  decode_error encode_error : UdpError

pub data Result (A : Type 0) : Type 0 where
  ok : A → Result A
  err : UdpError → Result A

-- `UdpError::fatal`
unfoldable pub fatal : UdpError → Bool
fatal (io_error other) = false
fatal e = true

-- `UdpWithBuf::DEFAULT_BUF_SIZE`
abbrev pub default_buf_size : ℕ
default_buf_size = 1600

-- `buf[..n]`
unfoldable pub take : ℕ → List ℕ → List ℕ
take zero buf = []
take (suc n) [] = []
take (suc n) (b ∷ buf) = b ∷ take n buf

-- Bytes are written over the start of a buffer; what does not fit is left out.
unfoldable pub overwrite : List ℕ → List ℕ → List ℕ
overwrite [] buf = buf
overwrite (x ∷ xs) [] = []
overwrite (x ∷ xs) (b ∷ buf) = x ∷ overwrite xs buf

-- What a call gives, and the buffer after it.
abbrev pub Called : Type 0 → Type 0
Called A = Result A × List ℕ

-- The datagram, unless the socket fails.
abbrev pub sent_by : Option ErrorKind → List ℕ → Result (List ℕ)
sent_by none bytes = ok bytes
sent_by (some k) bytes = err (io_error k)

module _ (proto : Proto) where
  open proto use {Message, encode, decode}

  -- `send` and `send_to`: an encoding that does not fit into the buffer is an error.
  unfoldable pub send : Option ErrorKind → Message → List ℕ → Called (List ℕ)
  unfolding take overwrite
  send fails m buf =
      let bytes = encode m in
      let buf' = overwrite bytes buf in
      if leb (length bytes) (length buf)
      then (sent_by fails (take (length bytes) buf'), buf')
      else (err encode_error, buf)

  abbrev pub decoded_as : Option Message → Result Message
  decoded_as none = err decode_error
  decoded_as (some m) = ok m

  abbrev pub min : ℕ → ℕ → ℕ
  min a b = if leb a b then a else b

  -- `recv` and `recv_proto_from`, on a datagram that arrives or an error.
  unfoldable pub recv : Result (List ℕ) → List ℕ → Called Message
  unfolding take overwrite
  recv (err e) buf = (err e, buf)
  recv (ok bytes) buf =
      let buf' = overwrite bytes buf in
      (decoded_as (decode (take (min (length bytes) (length buf)) buf')), buf')
