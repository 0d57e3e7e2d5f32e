-- ===== src/DeviceState.antt =====
-- model/device_state.cpp and model/device_state.h: where a connection with a device stands. A failed
-- `assert` and the use of an absent url are `none`.
pub mod Life
use syncspirit.Prelude.{
  ℕ, zero, suc, ◌+◌, ◌%◌, ◌^◌, Bool, true, false, ◌&&◌, ◌||◌, List, [], ◌∷◌, Option, none, some,
  if◌then◌else◌, ltb, leb, ◌==◌,
}
use syncspirit.File.Wire.{same_text}
use syncspirit.FilePath.{starts_with}

pub data ConnectionState : Type 0 where
  offline : ConnectionState
  unknown : ConnectionState
  discovering : ConnectionState
  connecting : ConnectionState
  connected : ConnectionState
  online : ConnectionState

-- The place of a state in the enumeration, by which the code compares states.
unfoldable pub rank : ConnectionState → ℕ
rank offline = 0
rank unknown = 1
rank discovering = 2
rank connecting = 3
rank connected = 4
rank online = 5

-- What the code reads of a parsed url: its scheme, its port and the text that equality compares.
pub record Url : Type 0 where
  pub scheme : List ℕ
  pub port_number : ℕ
  pub text : List ℕ

-- "tcp" and "relay".
abbrev pub tcp : List ℕ
tcp = 116 ∷ 99 ∷ 112 ∷ []

abbrev pub relay : List ℕ
relay = 114 ∷ 101 ∷ 108 ∷ 97 ∷ 121 ∷ []

unfoldable pub is_tcp : Url → Bool
is_tcp url = starts_with tcp url.scheme

unfoldable pub is_relay : Url → Bool
is_relay url = starts_with relay url.scheme

pub record DeviceState : Type 0 where
  pub token : ℕ
  pub connection_state : ConnectionState
  pub online_url : Option Url

-- The counter of tokens is a global 32-bit variable.
unfoldable pub make_offline : ℕ → ℕ × DeviceState
make_offline next_token_id =
    let token = (next_token_id + 1) % 2 ^ 32 in
    (token, record { token = token; connection_state = offline; online_url = none })

unfoldable pub less_url : Url → Url → Bool
unfolding is_tcp is_relay
less_url a b =
    if is_relay a && is_tcp b
    then true
    else (if is_tcp a && is_relay b then false else ltb a.port_number b.port_number)

unfoldable pub less_online : Option Url → Option Url → Option Bool
unfolding less_url
less_online (some a) (some b) = some (less_url a b)
less_online (some a) none = none
less_online none b = none

-- `operator<`
unfoldable pub less : DeviceState → DeviceState → Option Bool
unfolding less_online rank
less a b =
    if rank b.connection_state == rank a.connection_state && rank a.connection_state == rank online
    then less_online a.online_url b.online_url
    else some (ltb (rank a.connection_state) (rank b.connection_state))

unfoldable pub same_url : Option Url → Option Url → Option Bool
same_url (some a) (some b) = some (same_text a.text b.text)
same_url (some a) none = some false
same_url none (some b) = some false
same_url none none = none

-- `operator==`
unfoldable pub same_state : DeviceState → DeviceState → Option Bool
unfolding same_url rank
same_state a b =
    if a.token == b.token && rank a.connection_state == rank b.connection_state
    then if rank a.connection_state == rank online
      then same_url a.online_url b.online_url
      else some true
    else some false

unfoldable pub can_roollback_to : DeviceState → DeviceState → Option Bool
unfolding less
can_roollback_to self other = if other.token == self.token then less other self else some false

-- The state with the token kept, if the assertion on the present state holds.
unfoldable pub moved : ConnectionState → ConnectionState → DeviceState → Option DeviceState
unfolding rank
moved from target self =
    if rank self.connection_state == rank from
    then some (record { token = self.token; connection_state = target; online_url = none })
    else none

-- The operations that give the next state.
pub data Move : Type 0 where
  to_offline : Move
  to_unknown : Move
  to_discover : Move
  to_connecting : Move
  to_connected : Move
  to_online : (url : Url) → Move
  to_clone : Move

unfoldable pub move_online : Url → DeviceState → Option DeviceState
unfolding rank is_tcp is_relay
move_online url self =
    if rank self.connection_state == rank connected && (is_tcp url || is_relay url)
    then some (record { token = self.token; connection_state = online; online_url = some url })
    else none

unfoldable pub run : Move → DeviceState → Option DeviceState
unfolding moved move_online
run to_offline self =
    some (record { token = self.token; connection_state = offline; online_url = none })
run to_unknown self = moved offline unknown self
run to_discover self = moved unknown discovering self
run to_connecting self = moved offline connecting self
run to_connected self = moved connecting connected self
run (to_online url) self = move_online url self
run to_clone self = some (record {
  token = self.token;
  connection_state = self.connection_state;
  online_url = self.online_url;
})
