-- ===== src/Tests/Relaying.antt =====
-- Runs of proto/relay_support.cpp and of the reader in net/relay_actor.cpp.
use syncspirit.Prelude.{ℕ, ◌≡◌, Bool, true, List, [], ◌∷◌, ◌++◌, some, arith, replicate}
use syncspirit.Relay.{
  Message, session_invitation, join_session_request, parse, serialize, payload_sz,
}
use syncspirit.Relay.Reader.{Reader, on_read}
use syncspirit.Relay.Framing.{with_more, parse-append}
use syncspirit.Relay.Pending.{pending, LeavesFirst, on_read-LeavesFirst}

abbrev invited : Message
invited = session_invitation (1 ∷ 2 ∷ []) (3 ∷ []) (some 0x7F000001) 22067 true

abbrev joined : Message
joined = join_session_request (7 ∷ 8 ∷ [])

parse-append_example : parse ((serialize joined []).0 ++ 9 ∷ []) ≡ with_more joined (9 ∷ [])
unfolding payload_sz
parse-append_example = parse-append joined [] (9 ∷ []) (omega arith) tt

-- A ping and the first byte of what follows it.
abbrev ping_and_more : List ℕ
ping_and_more = 158 ∷ 121 ∷ 188 ∷ 64 ∷ 0 ∷ 0 ∷ 0 ∷ 0 ∷ 0 ∷ 0 ∷ 0 ∷ 0 ∷ 9 ∷ []

abbrev empty_reader : Reader (List Message)
empty_reader = record { rx_buff = replicate 20 0; rx_idx = 0; actor = [] }

abbrev collect : List Message → Message → List Message × Bool
collect messages message = (message ∷ messages, true)

on_read-LeavesFirst_example :
    LeavesFirst collect
      (λ messages. messages)
      []
      (pending empty_reader ++ ping_and_more)
      (on_read collect (λ messages. messages) ping_and_more empty_reader)
on_read-LeavesFirst_example =
    on_read-LeavesFirst collect (λ messages. messages) ping_and_more empty_reader (omega arith)
