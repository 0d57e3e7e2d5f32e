-- ===== src/Relay/Framing.antt =====
-- proto/relay_support.cpp: `parse` after `serialize`, with whatever bytes follow the message.
use syncspirit.Prelude.{
  ℕ, ◌+◌, ◌-◌, ◌^◌, ◌<◌, ◌≤◌, ◌≡◌, refl, ap, sym, ◌∙◌, Bool, false, List, [], ◌∷◌, ◌++◌, Option,
  arith, if◌then◌else◌, ltb, ◌==◌, length, take, drop, replicate, length-append, length-take,
  length-drop, length-replicate,
}
use syncspirit.Relay.{
  Message, ping, pong, join_relay_request, join_session_request, response, connect_request,
  session_invitation, ParseResult, incomplete, protocol_error, wrapped, write32_be, payload,
  payload_sz, type_of, serialize_header, serialize, resize, parse_payload, parse,
  parse_session_invitation, parse_join_session_request, parse_response, parse_connect_request,
  address_raw, flag, sized,
}
use syncspirit.Relay.Words.{length-word, append_assoc, append_nil, parse-serialize_header}
use syncspirit.Relay.Messages.{
  IsAddress, join_session_lem, response_lem, connect_lem, invitation_lem,
}

-- The words of a message are words of 32 bits.
abbrev pub InRange : Message → Type 0
InRange ping = Unit
InRange pong = Unit
InRange join_relay_request = Unit
InRange (join_session_request key) = Unit
InRange (response code details) = code < 2 ^ 32
InRange (connect_request device_id) = Unit
InRange (session_invitation sender key address port server_socket) =
    IsAddress address × (port < 2 ^ 32)

-- What a message is taken for when `more` follows it.
abbrev pub with_more : Message → List ℕ → ParseResult
with_more ping more = wrapped 12 ping
with_more pong more = wrapped 12 pong
with_more join_relay_request more = wrapped 12 join_relay_request
with_more (join_session_request key) more =
    wrapped (12 + (4 + length key) + length more) (join_session_request (key ++ more))
with_more (response code details) more =
    wrapped (12 + (8 + length details) + length more) (response code details)
with_more (connect_request device_id) more =
    if length more == 0
    then wrapped (12 + (4 + length device_id)) (connect_request device_id)
    else protocol_error
with_more (session_invitation sender key address port server_socket) more =
    wrapped (12 + (28 + length sender + length key) + length more)
      (session_invitation sender key address port server_socket)

-- What `serialize` leaves of the buffer behind the payload.
pub pad : Message → List ℕ → List ℕ
pad msg out =
    drop (length (serialize_header (type_of msg) (payload_sz msg) ++ payload msg))
      (resize (12 + payload_sz msg) out)

pub length-header : (type sz : ℕ) → length (serialize_header type sz) ≡ 12
unfolding serialize_header write32_be
length-header type sz = refl

length-resize : (sz : ℕ) (out : List ℕ) → length (resize sz out) ≡ sz
length-resize sz out = omega (
  arith,
  length-append (take sz out) (replicate (sz - length out) 0),
  length-take sz out,
  length-replicate {A = ℕ} (sz - length out) 0,
)

length-sized : (xs rest : List ℕ) → length (sized xs rest) ≡ 4 + (length xs + length rest)
length-sized xs rest = omega (arith, length-word (length xs) (xs ++ rest), length-append xs rest)

-- The invitation announces 4 bytes more than are written.
surplus : Message → ℕ
surplus (session_invitation sender key address port server_socket) = 4
surplus _ = 0

length-payload : (msg : Message) → length (payload msg) + surplus msg ≡ payload_sz msg
unfolding payload payload_sz surplus
length-payload ping = refl
length-payload pong = refl
length-payload join_relay_request = refl
length-payload (join_session_request key) = omega (arith, length-word (length key) key)
length-payload (response code details) = omega (
  arith,
  length-word code (write32_be (length details) ++ details),
  length-word (length details) details,
)
length-payload (connect_request device_id) = omega (arith, length-word (length device_id) device_id)
length-payload (session_invitation sender key address port server_socket) =
    let last = write32_be port ++ write32_be (flag server_socket) in
    let raw = write32_be (address_raw address) in
    omega (
      arith,
      length-sized sender (sized key (sized raw last)),
      length-sized key (sized raw last),
      length-sized raw last,
      length-word (address_raw address) [],
      ap length (append_nil raw),
      length-word port (write32_be (flag server_socket)),
      length-word (flag server_socket) [],
      ap length (append_nil (write32_be (flag server_socket))),
    )

length-pad : (msg : Message) (out : List ℕ) → length (pad msg out) ≡ surplus msg
unfolding pad
length-pad msg out =
    let h = serialize_header (type_of msg) (payload_sz msg) in
    omega (
      arith,
      length-drop (length (h ++ payload msg)) (resize (12 + payload_sz msg) out),
      length-resize (12 + payload_sz msg) out,
      length-append h (payload msg),
      length-header (type_of msg) (payload_sz msg),
      length-payload msg,
    )

session_lem :
    (sender key : List ℕ) (address : Option ℕ) (port : ℕ) (server_socket : Bool) (t : List ℕ)
    → length sender < 2 ^ 32
    → length key < 2 ^ 32
    → IsAddress address
    → port < 2 ^ 32
    → parse_session_invitation
        (payload (session_invitation sender key address port server_socket) ++ t)
      ≡ wrapped
          (12 + length (payload (session_invitation sender key address port server_socket) ++ t))
          (session_invitation sender key address port server_socket)
unfolding parse_session_invitation
session_lem sender key address port server_socket t a b c d =
    rw (invitation_lem sender key address port server_socket t a b c d, parse_session_invitation)
      refl

-- The parser of a message gets its payload, the surplus `e` and `more`.
parse_payload_lem :
    (msg : Message) (e more : List ℕ)
    → payload_sz msg ≤ 1400
    → InRange msg
    → length e ≡ surplus msg
    → parse_payload (type_of msg) (payload msg ++ (e ++ more)) ≡ with_more msg more
unfolding parse_payload payload payload_sz surplus
parse_payload_lem ping e more l r n = refl
parse_payload_lem pong e more l r n = refl
parse_payload_lem join_relay_request e more l r n = refl
parse_payload_lem (join_session_request key) [] more l r n =
    ap parse_join_session_request (append_assoc (write32_be (length key)) key more)
    ∙ join_session_lem key more (omega (arith, l))
    ∙ ap (λ size. wrapped size (join_session_request (key ++ more))) (omega arith)
parse_payload_lem (join_session_request key) (x ∷ e) more l r n = absurd (omega (arith, n))
parse_payload_lem (response code details) [] more l r n =
    ap parse_response (
      append_assoc (write32_be code) (write32_be (length details) ++ details) more
      ∙ ap (λ zs. write32_be code ++ zs) (append_assoc (write32_be (length details)) details more))
    ∙ response_lem code details more r (omega (arith, l))
    ∙ ap (λ size. wrapped size (response code details)) (omega arith)
parse_payload_lem (response code details) (x ∷ e) more l r n = absurd (omega (arith, n))
parse_payload_lem (connect_request device_id) [] more l r n =
    ap parse_connect_request (append_assoc (write32_be (length device_id)) device_id more)
    ∙ connect_lem device_id more (omega (arith, l))
parse_payload_lem (connect_request device_id) (x ∷ e) more l r n = absurd (omega (arith, n))
parse_payload_lem (session_invitation sender key address port server_socket) e more l r n =
    let msg = session_invitation sender key address port server_socket in
    session_lem sender key address port server_socket (e ++ more) (omega (arith, l))
      (omega (arith, l)) r.0 r.1
    ∙ ap (λ size. wrapped size msg)
        (omega (
          arith,
          length-append (payload msg) (e ++ more),
          length-append e more,
          length-payload msg,
          n,
        ))

pub type_of_le : (msg : Message) → type_of msg ≤ 6
type_of_le msg = ground arith

pub written_append :
    (msg : Message) (out more : List ℕ)
    → (serialize msg out).0 ++ more
      ≡ serialize_header (type_of msg) (payload_sz msg) ++ (payload msg ++ (pad msg out ++ more))
unfolding serialize pad
written_append msg out more =
    let h = serialize_header (type_of msg) (payload_sz msg) in
    append_assoc (h ++ payload msg) (pad msg out) more
    ∙ append_assoc h (payload msg) (pad msg out ++ more)

whole :
    (msg : Message) (out more : List ℕ)
    → ltb (length (payload msg ++ (pad msg out ++ more))) (payload_sz msg) ≡ false
whole msg out more = ground (
  arith,
  length-append (payload msg) (pad msg out ++ more),
  length-append (pad msg out) more,
  length-pad msg out,
  length-payload msg,
)

with_none : (msg : Message) (out : List ℕ) → with_more msg [] ≡ wrapped (serialize msg out).1 msg
unfolding serialize payload_sz
with_none ping out = refl
with_none pong out = refl
with_none join_relay_request out = refl
with_none (join_session_request key) out =
    ap (λ zs. wrapped (12 + (4 + length key) + 0) (join_session_request zs)) (append_nil key)
    ∙ ap (λ size. wrapped size (join_session_request key)) (omega arith)
with_none (response code details) out =
    ap (λ size. wrapped size (response code details)) (omega arith)
with_none (connect_request device_id) out = refl
with_none (session_invitation sender key address port server_socket) out =
    ap (λ size. wrapped size (session_invitation sender key address port server_socket))
      (omega arith)

-- What `parse` makes of a written message and of the bytes that follow it: of ping, pong and
-- join_relay_request it takes the header; the key of a join_session_request swallows the bytes; a
-- response and an invitation are read right, but the bytes are counted as theirs; and a
-- connect_request is refused unless it stands alone. The payload has at most 1400 bytes, and the
-- words are in range.
pub parse-append :
    (msg : Message) (out more : List ℕ)
    → payload_sz msg ≤ 1400
    → InRange msg
    → parse ((serialize msg out).0 ++ more) ≡ with_more msg more
unfolding serialize pad
parse-append msg out more l r =
    let h = serialize_header (type_of msg) (payload_sz msg) in
    let tail = payload msg ++ (pad msg out ++ more) in
    ap parse (written_append msg out more)
    ∙ parse-serialize_header (type_of msg) (payload_sz msg) tail (type_of_le msg) l
    ∙ ap (λ b. if b then incomplete else parse_payload (type_of msg) tail) (whole msg out more)
    ∙ parse_payload_lem msg (pad msg out) more l r (length-pad msg out)

-- A written message alone is read as it was, with the size that `serialize` gave. The payload has
-- at most 1400 bytes, and the words are in range.
pub parse-serialize :
    (msg : Message) (out : List ℕ)
    → payload_sz msg ≤ 1400
    → InRange msg
    → parse (serialize msg out).0 ≡ wrapped (serialize msg out).1 msg
unfolding serialize payload_sz
parse-serialize msg out l r =
    ap parse (sym (append_nil (serialize msg out).0))
    ∙ parse-append msg out [] l r
    ∙ with_none msg out
