-- ===== src/Bep.antt =====
-- proto/bep_support.cpp: the messages of the Block Exchange Protocol as bytes. What protobuf and LZ4 do
-- is an argument, `Codec`; of a message only its type and its bytes matter here.
pub mod Framing
pub mod Hello
use syncspirit.Prelude.{
  ℕ, zero, suc, ◌+◌, ◌-◌, ◌*◌, ◌/◌, ◌%◌, ◌^◌, ◌<◌, ◌≤◌, ◌≡◌, Bool, true, false, not, ◌&&◌, List, [],
  ◌∷◌, ◌++◌, Option, none, some, if◌then◌else◌, ltb, ◌==◌, length, take, drop, replicate,
}
use syncspirit.Prelude.Find.{All}
use syncspirit.File.Wire.{same_text}
use syncspirit.Relay.{write32_be, read32_be}

-- The libraries: `decode` is absent where bytes are left over, `decompress` gives what was written
-- into a buffer of the size, unless the bytes are refused.
pub record Codec (M : Type 0) : Type 0 where
  pub type_of : M → ℕ
  pub encode : M → List ℕ
  pub decode : ℕ → List ℕ → Option M
  pub encode_header : ℕ → ℕ → List ℕ
  pub decode_header : List ℕ → Option (ℕ × ℕ)
  pub encode_hello : List ℕ → List ℕ
  pub decode_hello : List ℕ → Option (List ℕ)
  pub compress : List ℕ → List ℕ
  pub decompress : List ℕ → ℕ → Option (List ℕ)

pub data Error : Type 0 where
  protobuf_err lz4_decoding : Error

-- `incomplete` is the message that has consumed nothing, `beyond` a read behind the bytes that are
-- there, and `aborted` the end of the program.
pub data Parsed (M : Type 0) : Type 0 where
  incomplete beyond aborted : Parsed M
  refused : Error → Parsed M
  hello : (device_name : List ℕ) (consumed : ℕ) → Parsed M
  wrapped : (message : M) (consumed : ℕ) → Parsed M

pub data Compression : Type 0 where
  metadata never always : Compression

abbrev pub compression_threshold : ℕ
compression_threshold = 128

-- 0x2EA7D90B
abbrev pub bep_magic : List ℕ
bep_magic = 0x2E ∷ 0xA7 ∷ 0xD9 ∷ 0x0B ∷ []

unfoldable pub write16_be : ℕ → List ℕ
write16_be v = v / 2 ^ 8 % 256 ∷ v % 256 ∷ []

unfoldable pub read16_be : List ℕ → ℕ
read16_be (a ∷ b ∷ rest) = a * 256 + b
read16_be _ = 0

module _ {M : Type 0} (c : Codec M) where
  unfoldable pub make_hello_message : List ℕ → List ℕ
  unfolding write16_be
  make_hello_message device_name =
      let msg = c.encode_hello device_name in bep_magic ++ (write16_be (length msg) ++ msg)

  -- With `buff` behind the magic number; the difference is one of 64 bits.
  unfoldable pub parse_hello : List ℕ → Parsed M
  unfolding read16_be
  parse_hello buff =
      let msg_sz = read16_be buff in
      let src = drop 2 buff in
      if ltb (length buff) 2
      then beyond
      else if ltb msg_sz (length buff - 2)
      then incomplete
      else if ltb (length src) msg_sz
      then beyond
      else elim (c.decode_hello (take msg_sz src)) [
        | none ↦ refused protobuf_err
        | some device_name ↦ hello device_name (msg_sz + 6)
      ]

  -- The switch over the types, and `parse`.
  unfoldable pub parse_msg : ℕ → List ℕ → ℕ → Parsed M
  parse_msg type buff consumed = if ltb 7 type then aborted else elim (c.decode type buff) [
    | none ↦ refused protobuf_err
    | some item ↦ wrapped item (consumed + length buff)
  ]

  -- The size of a compressed message is that of the compressed bytes.
  abbrev pub with_size : ℕ → Parsed M → Parsed M
  with_size size incomplete = incomplete
  with_size size beyond = beyond
  with_size size aborted = aborted
  with_size size (refused e) = refused e
  with_size size (hello device_name consumed) = hello device_name size
  with_size size (wrapped message consumed) = wrapped message size

  unfoldable pub parse_compressed : ℕ → ℕ → ℕ → ℕ → List ℕ → Parsed M
  unfolding parse_msg
  parse_compressed consumed type message_sz uncompr_sz block =
      elim (c.decompress block uncompr_sz) [
        | none ↦ refused lz4_decoding
        | some written ↦
            with_size (consumed + message_sz)
              (parse_msg type (written ++ replicate (uncompr_sz - length written) 0) 0)
      ]

  -- From the size of the message on. A compressed message without its own size is read behind its end.
  unfoldable pub parse_body : ℕ → ℕ → ℕ → ℕ → List ℕ → Parsed M
  unfolding parse_compressed read32_be
  parse_body consumed type compression message_sz buff =
      if ltb (length buff) message_sz
      then incomplete
      else if compression == 0
      then parse_msg type (take message_sz buff) consumed
      else if ltb message_sz 4
      then beyond
      else parse_compressed consumed type message_sz (read32_be buff)
          (take (message_sz - 4) (drop 4 buff))

  -- From the end of the header on.
  unfoldable pub parse_sized : ℕ → ℕ → ℕ → List ℕ → Parsed M
  unfolding parse_body
  parse_sized header_sz type compression buff =
      if ltb (length buff) 4
      then beyond
      else parse_body (2 + header_sz + 4) type compression (read32_be buff) (drop 4 buff)

  -- From the start of the header on.
  unfoldable pub parse_framed : ℕ → List ℕ → Parsed M
  unfolding parse_sized
  parse_framed header_sz buff =
      if ltb (length buff) header_sz
      then incomplete
      else elim (c.decode_header (take header_sz buff)) [
        | none ↦ refused protobuf_err
        | some (type, compression) ↦ parse_sized header_sz type compression (drop header_sz buff)
      ]

  unfoldable pub parse_bep : List ℕ → Parsed M
  unfolding parse_framed parse_hello
  parse_bep buff =
      if ltb (length buff) 4
      then incomplete
      else if same_text (take 4 buff) bep_magic
      then parse_hello (drop 4 buff)
      else parse_framed (read16_be buff) (drop 2 buff)

  abbrev pub is_response : ℕ → Bool
  is_response type = type == 4

  -- Whether a message of the size is compressed.
  unfoldable pub is_compressed : Compression → ℕ → ℕ → Bool
  is_compressed metadata type message_sz =
      ltb compression_threshold message_sz && not (is_response type)
  is_compressed never type message_sz = false
  is_compressed always type message_sz = ltb compression_threshold message_sz

  abbrev pub frame : List ℕ → ℕ → List ℕ → List ℕ
  frame header message_sz body =
      write16_be (length header) ++ (header ++ (write32_be message_sz ++ body))

  unfoldable pub serialize : M → Compression → List ℕ
  unfolding is_compressed write16_be write32_be
  serialize message compression =
      let bytes = c.encode message in
      let block = c.compress bytes in
      if is_compressed compression (c.type_of message) (length bytes)
      then frame (c.encode_header (c.type_of message) 1) (length block + 4)
          (write32_be (length bytes) ++ block)
      else frame (c.encode_header (c.type_of message) 0) (length bytes) bytes

abbrev pub AreBytes : List ℕ → Type 0
AreBytes = All (λ b. b < 256)

-- LZ4_MAX_INPUT_SIZE
abbrev pub lz4_max_input_size : ℕ
lz4_max_input_size = 0x7E000000

-- What is documented of the libraries: what is encoded is decoded, the eight types and the two kinds
-- of compression take a header of four bytes at most, a name of bytes is encoded, and what is
-- compressed, up to LZ4_MAX_INPUT_SIZE bytes, is restored in a buffer of its size and is at most as
-- large as LZ4_COMPRESSBOUND says.
pub record IsLawful {M : Type 0} (c : Codec M) : Type 0 where
  pub message_law : (m : M) → c.decode (c.type_of m) (c.encode m) ≡ some m
  pub message_bytes : (m : M) → AreBytes (c.encode m)
  pub type_law : (m : M) → c.type_of m < 8
  pub header_law :
      (type compression : ℕ)
      → type < 8
      → compression < 2
      → c.decode_header (c.encode_header type compression) ≡ some (type, compression)
  pub header_size :
      (type compression : ℕ)
      → type < 8
      → compression < 2
      → length (c.encode_header type compression) ≤ 4
  pub hello_law :
      (device_name : List ℕ)
      → AreBytes device_name
      → c.decode_hello (c.encode_hello device_name) ≡ some device_name
  pub block_law :
      (bytes : List ℕ)
      → AreBytes bytes
      → length bytes ≤ lz4_max_input_size
      → c.decompress (c.compress bytes) (length bytes) ≡ some bytes
  pub block_size :
      (bytes : List ℕ)
      → AreBytes bytes
      → length bytes ≤ lz4_max_input_size
      → length (c.compress bytes) ≤ length bytes + length bytes / 255 + 16
