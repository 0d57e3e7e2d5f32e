-- ===== src/Bep/Framing.antt =====
-- proto/bep_support.cpp: `parse_bep` after `serialize`, with whatever bytes follow the message.
use syncspirit.Prelude.{
  ℕ, suc, ◌+◌, ◌*◌, ◌/◌, ◌%◌, ◌^◌, ◌<◌, ◌≤◌, ◌≡◌, refl, sym, ap, ◌∙◌, true, false, List, [], ◌++◌,
  Option, none, some, ltb, ◌==◌, length, drop, length-append, arith,
}
use syncspirit.Relay.{write32_be}
use syncspirit.Relay.Words.{
  read32_be-write32_be, take-length-append, drop-length-append, length-word, drop-word,
  append_assoc, append_nil,
}
use syncspirit.Bep.{
  Codec, IsLawful, protobuf_err, Parsed, incomplete, beyond, refused, write16_be, read16_be,
  parse_body, parse_sized, parse_framed, parse_bep, frame,
}

module _ {M : Type 0} (c : Codec M) (laws : IsLawful c) where
  parse_sized-word :
      (header_sz type compression message_sz : ℕ) (rest : List ℕ)
      → message_sz < 2 ^ 32
      → parse_sized c header_sz type compression (write32_be message_sz ++ rest)
        ≡ parse_body c (2 + header_sz + 4) type compression message_sz rest
  unfolding parse_sized
  parse_sized-word header_sz type compression message_sz rest fits =
      let there : ltb (length (write32_be message_sz ++ rest)) 4 ≡ false =
        ground (arith, length-word message_sz rest) in
      let word = write32_be message_sz ++ rest in
      let go : ℕ → List ℕ → Parsed M =
        λ n l. parse_body c (2 + header_sz + 4) type compression n l in
      rw there (
        ap (λ n. go n (drop 4 word)) (read32_be-write32_be message_sz rest fits)
        ∙ ap (go message_sz) (drop-word message_sz rest))

  parse_framed-header :
      (type compression : ℕ) (rest : List ℕ)
      → type < 8
      → compression < 2
      → parse_framed c
          (length (c.encode_header type compression))
          (c.encode_header type compression ++ rest)
        ≡ parse_sized c (length (c.encode_header type compression)) type compression rest
  unfolding parse_framed
  parse_framed-header type compression rest t z =
      let header = c.encode_header type compression in
      let there : ltb (length (header ++ rest)) (length header) ≡ false =
        ground (arith, length-append header rest) in
      let tail = drop (length header) (header ++ rest) in
      let go : Option (ℕ × ℕ) → Parsed M = λ o. elim o [
        | none ↦ refused protobuf_err
        | some (t, z) ↦ parse_sized c (length header) t z tail
      ] in
      rw there (
        ap (λ l. go (c.decode_header l)) (take-length-append header rest)
        ∙ (ap go (laws.header_law type compression t z)
            ∙ ap (parse_sized c (length header) type compression) (drop-length-append header rest)))

  -- A header is no beginning of the magic number.
  parse_bep-short :
      (header_sz : ℕ) (rest : List ℕ)
      → header_sz ≤ 4
      → 2 ≤ length rest
      → parse_bep c (write16_be header_sz ++ rest) ≡ parse_framed c header_sz rest
  unfolding parse_bep write16_be read16_be
  parse_bep-short header_sz rest short long =
      let there : ltb (suc (suc (length rest))) 4 ≡ false = ground arith in
      let zero_first : header_sz / 256 % 256 ≡ 0 = omega (arith, short) in
      let not_magic : (header_sz / 256 % 256 == 0x2E) ≡ false = rw zero_first refl in
      let size : header_sz / 256 % 256 * 256 + header_sz % 256 ≡ header_sz = omega (arith, short) in
      rw (there, not_magic) (ap (λ n. parse_framed c n rest) size)

  -- A frame is parsed from its body on.
  pub parse_bep-frame :
      (type compression message_sz : ℕ) (body more : List ℕ)
      → type < 8
      → compression < 2
      → message_sz < 2 ^ 32
      → parse_bep c (frame c (c.encode_header type compression) message_sz body ++ more)
        ≡ parse_body c
            (2 + length (c.encode_header type compression) + 4)
            type
            compression
            message_sz
            (body ++ more)
  unfolding write16_be
  parse_bep-frame type compression message_sz body more t z fits =
      let header = c.encode_header type compression in
      let word = write32_be message_sz ++ (body ++ more) in
      let assoc : (header ++ (write32_be message_sz ++ body)) ++ more ≡ header ++ word =
        append_assoc header (write32_be message_sz ++ body) more
        ∙ ap (λ l. header ++ l) (append_assoc (write32_be message_sz) body more) in
      ap (λ l. parse_bep c (write16_be (length header) ++ l)) assoc
      ∙ (parse_bep-short (length header) (header ++ word) (laws.header_size type compression t z)
            (omega (arith, length-append header word, length-word message_sz (body ++ more)))
          ∙ (parse_framed-header type compression word t z
              ∙ parse_sized-word (length header) type compression message_sz (body ++ more) fits))

  -- Of a message of which only the header is there and less than four bytes of its size, the size is
  -- read all the same, if header and rest have two bytes at least, without which the message is
  -- taken for incomplete.
  pub parse_bep-beyond :
      (type compression : ℕ) (rest : List ℕ)
      → type < 8
      → compression < 2
      → length rest < 4
      → 2 ≤ length (c.encode_header type compression) + length rest
      → parse_bep c (
          write16_be (length (c.encode_header type compression))
          ++ (c.encode_header type compression ++ rest))
        ≡ beyond
  unfolding parse_sized
  parse_bep-beyond type compression rest t z few long =
      let header = c.encode_header type compression in
      let cut : ltb (length rest) 4 ≡ true = ground arith in
      parse_bep-short (length header) (header ++ rest) (laws.header_size type compression t z)
        (omega (arith, length-append header rest, long))
      ∙ (parse_framed-header type compression rest t z ∙ rw cut refl)

  -- A frame with a header of a known type and compression, and of which the body is shorter than its
  -- size of 32 bits says, has to wait for more bytes.
  pub parse_bep-incomplete :
      (type compression message_sz : ℕ) (body : List ℕ)
      → type < 8
      → compression < 2
      → message_sz < 2 ^ 32
      → length body < message_sz
      → parse_bep c (frame c (c.encode_header type compression) message_sz body) ≡ incomplete
  unfolding parse_body
  parse_bep-incomplete type compression message_sz body t z fits cut =
      let missing : ltb (length (body ++ [])) message_sz ≡ true =
        ground (arith, length-append body []) in
      ap (parse_bep c)
        (sym (append_nil (frame c (c.encode_header type compression) message_sz body)))
      ∙ (parse_bep-frame type compression message_sz body [] t z fits ∙ rw missing refl)
