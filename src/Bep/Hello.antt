-- ===== src/Bep/Hello.antt =====
-- proto/bep_support.cpp: the hello message.
use syncspirit.Prelude.{
  ℕ, suc, ◌+◌, ◌-◌, ◌*◌, ◌/◌, ◌%◌, ◌^◌, ◌<◌, ◌≡◌, refl, ap, ◌∙◌, true, false, List, ◌++◌, Option,
  none, some, if◌then◌else◌, ltb, ◌==◌, length, take, length-append, arith, Bool-cases, inl, inr,
}
use syncspirit.Relay.Words.{take-length-append}
use syncspirit.Bep.{
  Codec, AreBytes, IsLawful, protobuf_err, Parsed, incomplete, beyond, refused, hello, write16_be,
  read16_be, make_hello_message, parse_hello, parse_bep,
}

module _ {M : Type 0} (c : Codec M) (laws : IsLawful c) where
  parse_hello-sized :
      (device_name more : List ℕ)
      → AreBytes device_name
      → length (c.encode_hello device_name) < 2 ^ 16
      → parse_hello c
          (write16_be (length (c.encode_hello device_name)) ++ (c.encode_hello device_name ++ more))
        ≡ (if length more == 0
            then hello device_name (length (c.encode_hello device_name) + 6)
            else incomplete)
  unfolding parse_hello write16_be read16_be
  parse_hello-sized device_name more bytes fits =
      let msg = c.encode_hello device_name in
      let all = msg ++ more in
      let go : ℕ → Parsed M = λ n.
        if ltb n (suc (suc (length all)) - 2)
        then incomplete
        else if ltb (length all) n
        then beyond
        else elim (c.decode_hello (take n all)) [
          | none ↦ refused protobuf_err
          | some name ↦ hello name (n + 6)
        ] in
      let there : ltb (suc (suc (length all))) 2 ≡ false = ground arith in
      let size : length msg / 256 % 256 * 256 + length msg % 256 ≡ length msg =
        omega (arith, fits) in
      let full : ltb (length all) (length msg) ≡ false = ground (arith, length-append msg more) in
      let read : Option (List ℕ) → Parsed M =
        λ o. elim o [ none ↦ refused protobuf_err | some name ↦ hello name (length msg + 6) ] in
      rw there (
        ap go size ∙ elim (Bool-cases (length more == 0)) [
          | inl none_left ↦
              let exact : ltb (length msg) (suc (suc (length all)) - 2) ≡ false =
                ground (arith, length-append msg more) in
              rw (none_left, exact, full)
                (ap (λ l. read (c.decode_hello l)) (take-length-append msg more)
                  ∙ ap read (laws.hello_law device_name bytes))
          | inr some_left ↦
              let longer : ltb (length msg) (suc (suc (length all)) - 2) ≡ true =
                ground (arith, length-append msg more) in
              rw (some_left, longer) refl
        ])

  -- A hello message of less than 2 ^ 16 bytes, with a device name of bytes, is parsed as the hello of
  -- the device if nothing follows it, and exactly its bytes are consumed; as soon as a byte of the next
  -- message follows, it is taken for incomplete.
  pub parse_bep-make_hello_message :
      (device_name more : List ℕ)
      → AreBytes device_name
      → length (c.encode_hello device_name) < 2 ^ 16
      → parse_bep c (make_hello_message c device_name ++ more) ≡ (
          if length more == 0
          then hello device_name (length (make_hello_message c device_name))
          else incomplete)
  unfolding parse_bep make_hello_message write16_be
  parse_bep-make_hello_message device_name more bytes fits =
      let msg = c.encode_hello device_name in
      let there : ltb (length (make_hello_message c device_name ++ more)) 4 ≡ false =
        ground arith in
      let size : length msg + 6 ≡ length (make_hello_message c device_name) = omega arith in
      rw there (
        parse_hello-sized device_name more bytes fits
        ∙ ap (λ n. if length more == 0 then hello device_name n else incomplete) size)
