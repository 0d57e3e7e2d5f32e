-- ===== src/Relay.antt =====
-- proto/relay_support.{h,cpp}: the messages of the relay protocol as bytes, which are numbers below
-- 256. Reads of a word are behind a test of the length; past the end they would give 0 here.
pub mod Reader
pub mod Pending
pub mod Words
pub mod Messages
pub mod Framing
pub mod Prefix
use syncspirit.Prelude.{
  ℕ, zero, suc, ◌+◌, ◌-◌, ◌*◌, ◌/◌, ◌%◌, ◌^◌, Bool, true, false, not, ◌||◌, List, [], ◌∷◌, ◌++◌,
  Option, none, some, if◌then◌else◌, ltb, ◌==◌, length, take, drop, replicate,
}

pub data Message : Type 0 where
  ping pong join_relay_request : Message
  join_session_request : (key : List ℕ) → Message
  response : (code : ℕ) (details : List ℕ) → Message
  connect_request : (device_id : List ℕ) → Message
  session_invitation :
      (sender key : List ℕ) (address : Option ℕ) (port : ℕ) (server_socket : Bool) → Message

pub data ParseResult : Type 0 where
  incomplete protocol_error : ParseResult
  wrapped : (size : ℕ) (message : Message) → ParseResult

abbrev pub header_sz : ℕ
header_sz = 12

abbrev pub max_packet_sz : ℕ
max_packet_sz = 1400

abbrev pub magic : ℕ
magic = 0x9E79BC40

-- `native_to_big` of a value that is narrowed to 32 bits.
unfoldable pub write32_be : ℕ → List ℕ
write32_be v = v / 2 ^ 24 % 256 ∷ v / 2 ^ 16 % 256 ∷ v / 2 ^ 8 % 256 ∷ v % 256 ∷ []

unfoldable pub read32_be : List ℕ → ℕ
read32_be (a ∷ b ∷ c ∷ d ∷ rest) = ((a * 256 + b) * 256 + c) * 256 + d
read32_be _ = 0

-- `type_t`, by number.
abbrev pub type_of : Message → ℕ
type_of ping = 0
type_of pong = 1
type_of join_relay_request = 2
type_of (join_session_request key) = 3
type_of (response code details) = 4
type_of (connect_request device_id) = 5
type_of (session_invitation sender key address port server_socket) = 6

unfoldable pub serialize_header : ℕ → ℕ → List ℕ
unfolding write32_be
serialize_header type payload_sz = write32_be magic ++ write32_be type ++ write32_be payload_sz

abbrev pub address_raw : Option ℕ → ℕ
address_raw none = 0
address_raw (some address) = address

abbrev pub flag : Bool → ℕ
flag true = 1
flag false = 0

abbrev pub sized : List ℕ → List ℕ → List ℕ
sized bytes rest = write32_be (length bytes) ++ (bytes ++ rest)

-- What `serialize` writes after the header.
unfoldable pub payload : Message → List ℕ
payload ping = []
payload pong = []
payload join_relay_request = []
payload (join_session_request key) = write32_be (length key) ++ key
payload (response code details) = write32_be code ++ (write32_be (length details) ++ details)
payload (connect_request device_id) = write32_be (length device_id) ++ device_id
payload (session_invitation sender key address port server_socket) = sized sender (
    sized key (
      sized (write32_be (address_raw address))
        (write32_be port ++ write32_be (flag server_socket))))

unfoldable pub payload_sz : Message → ℕ
payload_sz ping = 0
payload_sz pong = 0
payload_sz join_relay_request = 0
payload_sz (join_session_request key) = 4 + length key
payload_sz (response code details) = 4 + 4 + length details
payload_sz (connect_request device_id) = 4 + length device_id
payload_sz (session_invitation sender key address port server_socket) =
    4 * 6 + length sender + length key + 4

-- `out.resize(sz)`
abbrev pub resize : ℕ → List ℕ → List ℕ
resize sz out = take sz out ++ replicate (sz - length out) 0

-- The bytes are written over the front of the buffer, and what stands behind them stays.
abbrev pub write_over : List ℕ → List ℕ → List ℕ
write_over bytes out = bytes ++ drop (length bytes) out

-- The buffer afterwards, and the size that is returned.
unfoldable pub serialize : Message → List ℕ → List ℕ × ℕ
serialize msg out =
    let sz = header_sz + payload_sz msg in
    (
      write_over (serialize_header (type_of msg) (payload_sz msg) ++ payload msg) (resize sz out),
      sz,
    )

unfoldable pub parse_join_session_request : List ℕ → ParseResult
unfolding read32_be
parse_join_session_request bytes =
    if ltb (length bytes) 4
    then protocol_error
    else if ltb (length bytes) (read32_be bytes + 4)
    then protocol_error
    else wrapped (header_sz + length bytes) (join_session_request (drop 4 bytes))

unfoldable pub parse_response : List ℕ → ParseResult
unfolding read32_be
parse_response bytes =
    if ltb (length bytes) (4 * 2)
    then protocol_error
    else let sz = read32_be (drop 4 bytes) in
      if ltb (length bytes) (sz + 4 * 2)
      then protocol_error
      else wrapped (header_sz + length bytes) (response (read32_be bytes) (take sz (drop 8 bytes)))

unfoldable pub parse_connect_request : List ℕ → ParseResult
unfolding read32_be
parse_connect_request bytes =
    if ltb (length bytes) 4
    then protocol_error
    else if not (read32_be bytes + 4 == length bytes)
    then protocol_error
    else wrapped (header_sz + length bytes) (connect_request (drop 4 bytes))

-- A word of the data, and what follows it.
unfoldable pub take_word : List ℕ → Option (ℕ × List ℕ)
unfolding read32_be
take_word bytes = if ltb (length bytes) 4 then none else some (read32_be bytes, drop 4 bytes)

-- Bytes behind their number, and what follows them.
unfoldable pub take_sized : List ℕ → Option (List ℕ × List ℕ)
unfolding take_word
take_sized bytes = elim (take_word bytes) [
  | none ↦ none
  | some (sz, rest) ↦ if ltb (length rest) sz then none else some (take sz rest, drop sz rest)
]

unfoldable pub parse_address : List ℕ → Option ℕ
unfolding read32_be
parse_address addr =
    if length addr == 4 then if read32_be addr == 0 then none else some (read32_be addr) else none

infixl 5 ◌>>=◌
abbrev pub ◌>>=◌ : {A B : Type 0} → Option A → (A → Option B) → Option B
none >>= f = none
some a >>= f = f a

unfoldable pub invitation : List ℕ → Option Message
invitation bytes = do
  (sender, after_sender) ← take_sized bytes
  (key, after_key) ← take_sized after_sender
  (addr, after_addr) ← take_sized after_key
  (port, after_port) ← take_word after_addr
  (server_socket, rest) ← take_word after_port
  some (session_invitation sender key (parse_address addr) port (not (server_socket == 0)))

unfoldable pub parse_session_invitation : List ℕ → ParseResult
parse_session_invitation bytes = elim (invitation bytes) [
  | none ↦ protocol_error
  | some message ↦ wrapped (header_sz + length bytes) message
]

unfoldable pub parse_payload : ℕ → List ℕ → ParseResult
unfolding parse_join_session_request parse_response parse_connect_request parse_session_invitation
parse_payload type tail =
    if type == 0
    then wrapped header_sz ping
    else if type == 1
    then wrapped header_sz pong
    else if type == 2
    then wrapped header_sz join_relay_request
    else if type == 3
    then parse_join_session_request tail
    else if type == 4
    then parse_response tail
    else if type == 5
    then parse_connect_request tail
    else if type == 6
    then parse_session_invitation tail
    else protocol_error

-- The tail is all that follows the header, also beyond the announced length.
unfoldable pub parse : List ℕ → ParseResult
unfolding read32_be parse_payload
parse bytes =
    if ltb (length bytes) header_sz
    then incomplete
    else if not (read32_be bytes == magic)
    then protocol_error
    else let type = read32_be (drop 4 bytes) in
      if ltb 6 type
      then protocol_error
      else let sz = read32_be (drop 8 bytes) in
        if ltb max_packet_sz sz
        then protocol_error
        else if ltb (length bytes) (header_sz + sz)
        then incomplete
        else parse_payload type (drop header_sz bytes)
