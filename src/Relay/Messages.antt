-- ===== src/Relay/Messages.antt =====
-- proto/relay_support.cpp: what each parser makes of the payload of its message, and of what
-- follows it.
use syncspirit.Prelude.{
  ℕ, suc, ◌+◌, ◌*◌, ◌^◌, ◌<◌, ◌≡◌, refl, ap, sym, ◌∙◌, Bool, true, false, not, List, [], ◌∷◌, ◌++◌,
  Option, none, some, arith, if◌then◌else◌, ltb, ◌==◌, length, drop, length-append,
}
use syncspirit.Relay.{
  join_session_request, response, connect_request, session_invitation, protocol_error, wrapped,
  read32_be, write32_be, payload, sized, parse_join_session_request, parse_response,
  parse_connect_request, invitation, parse_address, address_raw, flag,
}
use syncspirit.Relay.Words.{
  read32_be-write32_be, take-length-append, append_assoc, append_nil, length-word, drop-word,
  take_word-write32_be, take_sized_lem,
}

drop_eight : (xs : List ℕ) → drop 8 xs ≡ drop 4 (drop 4 xs)
drop_eight [] = refl
drop_eight (a ∷ []) = refl
drop_eight (a ∷ b ∷ []) = refl
drop_eight (a ∷ b ∷ c ∷ []) = refl
drop_eight (a ∷ b ∷ c ∷ d ∷ xs) = refl

pub join_session_lem :
    (key more : List ℕ)
    → length key < 2 ^ 32
    → parse_join_session_request (write32_be (length key) ++ (key ++ more))
      ≡ wrapped (12 + (4 + (length key + length more))) (join_session_request (key ++ more))
unfolding parse_join_session_request
join_session_lem key more l =
    let d = write32_be (length key) ++ (key ++ more) in
    let n : length d ≡ 4 + (length key + length more) =
      omega (arith, length-word (length key) (key ++ more), length-append key more) in
    let long : ltb (length d) 4 ≡ false = ground (arith, n) in
    let fits : ltb (length d) (length key + 4) ≡ false = ground (arith, n) in
    rw
      (
        long,
        read32_be-write32_be (length key) (key ++ more) l,
        fits,
        n,
        drop-word (length key) (key ++ more),
      )
      refl

pub response_lem :
    (code : ℕ) (details more : List ℕ)
    → code < 2 ^ 32
    → length details < 2 ^ 32
    → parse_response (write32_be code ++ (write32_be (length details) ++ (details ++ more)))
      ≡ wrapped (12 + (4 + (4 + (length details + length more)))) (response code details)
unfolding parse_response
response_lem code details more c l =
    let inner = write32_be (length details) ++ (details ++ more) in
    let d = write32_be code ++ inner in
    let n : length d ≡ 4 + (4 + (length details + length more)) = omega (
      arith,
      length-word code inner,
      length-word (length details) (details ++ more),
      length-append details more,
    ) in
    let long : ltb (length d) (4 * 2) ≡ false = ground (arith, n) in
    let fits : ltb (length d) (length details + 4 * 2) ≡ false = ground (arith, n) in
    let rest : drop 8 d ≡ details ++ more =
      drop_eight d
      ∙ ap (drop 4) (drop-word code inner)
      ∙ drop-word (length details) (details ++ more) in
    rw
      (
        long,
        drop-word code inner,
        read32_be-write32_be (length details) (details ++ more) l,
        fits,
        n,
        read32_be-write32_be code inner c,
        rest,
        take-length-append details more,
      )
      refl

pub connect_lem :
    (device_id more : List ℕ)
    → length device_id < 2 ^ 32
    → parse_connect_request (write32_be (length device_id) ++ (device_id ++ more)) ≡ (
        if length more == 0
        then wrapped (12 + (4 + length device_id)) (connect_request device_id)
        else protocol_error)
unfolding parse_connect_request
connect_lem device_id [] l =
    let d = write32_be (length device_id) ++ (device_id ++ []) in
    let n : length d ≡ 4 + length device_id =
      omega (arith, length-word (length device_id) (device_id ++ []), length-append device_id []) in
    let long : ltb (length d) 4 ≡ false = ground (arith, n) in
    let fits : (length device_id + 4 == length d) ≡ true = ground (arith, n) in
    rw
      (
        long,
        read32_be-write32_be (length device_id) (device_id ++ []) l,
        fits,
        n,
        drop-word (length device_id) (device_id ++ []),
        append_nil device_id,
      )
      refl
connect_lem device_id (x ∷ more) l =
    let d = write32_be (length device_id) ++ (device_id ++ x ∷ more) in
    let n : length d ≡ 4 + (length device_id + suc (length more)) = omega (
      arith,
      length-word (length device_id) (device_id ++ x ∷ more),
      length-append device_id (x ∷ more),
    ) in
    let long : ltb (length d) 4 ≡ false = ground (arith, n) in
    let fits : (length device_id + 4 == length d) ≡ false = ground (arith, n) in
    let other : (suc (length more) == 0) ≡ false = ground arith in
    rw (long, read32_be-write32_be (length device_id) (device_id ++ x ∷ more) l, fits, other) refl

sized-append : (xs rest more : List ℕ) → sized xs rest ++ more ≡ sized xs (rest ++ more)
sized-append xs rest more =
    append_assoc (write32_be (length xs)) (xs ++ rest) more
    ∙ ap (λ zs. write32_be (length xs) ++ zs) (append_assoc xs rest more)

-- An address that is not 0 is read as it was written, and 0 as none.
abbrev pub IsAddress : Option ℕ → Type 0
IsAddress none = Unit
IsAddress (some address) = (0 < address) × (address < 2 ^ 32)

raw_below : (address : Option ℕ) → IsAddress address → address_raw address < 2 ^ 32
raw_below none h = omega arith
raw_below (some address) h = h.1

length_word : (v : ℕ) → length (write32_be v) ≡ 4
unfolding write32_be
length_word v = refl

read_word : (v : ℕ) → v < 2 ^ 32 → read32_be (write32_be v) ≡ v
read_word v l = ap read32_be (sym (append_nil (write32_be v))) ∙ read32_be-write32_be v [] l

parse_address-write32_be :
    (address : Option ℕ)
    → IsAddress address
    → parse_address (write32_be (address_raw address)) ≡ address
unfolding parse_address
parse_address-write32_be none h = rw (read_word 0 (omega arith), length_word 0) refl
parse_address-write32_be (some address) h =
    let other : (address == 0) ≡ false = ground (arith, h.0) in
    rw (read_word address h.1, length_word address, other) refl

flag_lem : (b : Bool) → (flag b < 2 ^ 32) × (not (flag b == 0) ≡ b)
flag_lem true = (omega arith, refl)
flag_lem false = (omega arith, refl)

module _ (sender key : List ℕ) (address : Option ℕ) (port : ℕ) (server_socket : Bool) (e : List ℕ)
    (a : length sender < 2 ^ 32) (b : length key < 2 ^ 32) (c : IsAddress address)
    (d : port < 2 ^ 32) where
  words : List ℕ
  words = write32_be port ++ (write32_be (flag server_socket) ++ e)

  shifted :
      payload (session_invitation sender key address port server_socket) ++ e
      ≡ sized sender (sized key (sized (write32_be (address_raw address)) words))
  unfolding payload words
  shifted =
      let last = write32_be port ++ write32_be (flag server_socket) in
      let raw = write32_be (address_raw address) in
      sized-append sender (sized key (sized raw last)) e
      ∙ ap (sized sender) (sized-append key (sized raw last) e)
      ∙ ap (λ zs. sized sender (sized key zs)) (sized-append raw last e)
      ∙ ap (λ zs. sized sender (sized key (sized raw zs)))
          (append_assoc (write32_be port) (write32_be (flag server_socket)) e)

  pub invitation_lem :
      invitation (payload (session_invitation sender key address port server_socket) ++ e)
      ≡ some (session_invitation sender key address port server_socket)
  unfolding invitation words
  invitation_lem =
      let raw = write32_be (address_raw address) in
      let last = write32_be (flag server_socket) ++ e in
      rw
        (
          shifted,
          take_sized_lem sender (sized key (sized raw words)) a,
          take_sized_lem key (sized raw words) b,
          take_sized_lem raw words (omega (arith, length_word (address_raw address))),
          take_word-write32_be port last d,
          take_word-write32_be (flag server_socket) e (flag_lem server_socket).0,
          parse_address-write32_be address c,
          (flag_lem server_socket).1,
        )
        refl
