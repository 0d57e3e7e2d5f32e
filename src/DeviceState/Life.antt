-- ===== src/DeviceState/Life.antt =====
-- model/device_state.cpp: the order of the states of a connection, and the moves between them.
use syncspirit.Prelude.{
  ℕ, ◌+◌, ◌<◌, ◌≡◌, refl, ap, sym, ◌∙◌, true, false, ◌||◌, List, [], ◌∷◌, Option, none, some, arith,
  if◌then◌else◌, ltb, ◌==◌, Bool-cases, inl, inr,
}
use syncspirit.FilePath.{starts_with}
use syncspirit.DeviceState.{
  ConnectionState, offline, unknown, discovering, connecting, connected, online, rank, Url, tcp,
  relay, is_tcp, is_relay, DeviceState, make_offline, less_url, less_online, less, can_roollback_to,
  moved, Move, to_offline, to_unknown, to_discover, to_connecting, to_connected, to_online,
  to_clone, move_online, run,
}

-- A state has a url exactly if it is online, and then one of the two schemes.
abbrev pub HasUrl : ConnectionState → Option Url → Type 0
HasUrl online (some url) = (is_tcp url || is_relay url) ≡ true
HasUrl online none = ⊥
HasUrl offline url = url ≡ none
HasUrl unknown url = url ≡ none
HasUrl discovering url = url ≡ none
HasUrl connecting url = url ≡ none
HasUrl connected url = url ≡ none

abbrev pub IsSound : DeviceState → Type 0
IsSound s = HasUrl s.connection_state s.online_url

-- The place of a state in one line: relays before direct connections, then by port.
unfoldable pub url_weight : Option Url → ℕ
url_weight none = 0
url_weight (some url) = (if is_relay url then 0 else 65536) + url.port_number

unfoldable pub weight : DeviceState → ℕ
unfolding url_weight
weight s =
    if rank s.connection_state == 5 then 5 + url_weight s.online_url else rank s.connection_state

abbrev pub HasPort : Option Url → Type 0
HasPort none = Unit
HasPort (some url) = url.port_number < 65536

schemes-apart : (s : List ℕ) → starts_with tcp s ≡ true → starts_with relay s ≡ true → ⊥
unfolding starts_with
schemes-apart [] h k = ground (arith, h)
schemes-apart (c ∷ cs) h k = ground (arith, h, k)

less_url-weight :
    (a b : Url)
    → (is_tcp a || is_relay a) ≡ true
    → (is_tcp b || is_relay b) ≡ true
    → a.port_number < 65536
    → b.port_number < 65536
    → less_url a b ≡ ltb (url_weight (some a)) (url_weight (some b))
unfolding less_url url_weight is_tcp is_relay
less_url-weight a b h k p q = ground (arith, schemes-apart a.scheme, schemes-apart b.scheme)

ltb-shift : (k a b : ℕ) → ltb a b ≡ ltb (k + a) (k + b)
ltb-shift k a b = ground arith

less_at :
    (m n : ℕ) (c d : ConnectionState) (u v : Option Url)
    → HasUrl c u
    → HasUrl d v
    → HasPort u
    → HasPort v
    → (less
        (record { token = m; connection_state = c; online_url = u })
        (record { token = n; connection_state = d; online_url = v }))
      ≡ some (
          ltb
            (weight (record { token = m; connection_state = c; online_url = u }))
            (weight (record { token = n; connection_state = d; online_url = v })))
unfolding less weight rank less_online
less_at m n online online (some u) (some v) s t p q =
    rw (less_url-weight u v s t p q)
      (ap some (ltb-shift 5 (url_weight (some u)) (url_weight (some v))))
less_at m n offline d u v s t p q = ground arith
less_at m n unknown d u v s t p q = ground arith
less_at m n discovering d u v s t p q = ground arith
less_at m n connecting d u v s t p q = ground arith
less_at m n connected d u v s t p q = ground arith
less_at m n online d u v s t p q = ground arith

-- The comparison of two states never uses an absent url, and it is the order of their weights: by
-- the stage of the connection first, and online states by relay before direct, then by port.
pub less-weight :
    (a b : DeviceState)
    → IsSound a
    → IsSound b
    → HasPort a.online_url
    → HasPort b.online_url
    → less a b ≡ some (ltb (weight a) (weight b))
less-weight a b s t p q =
    less_at a.token b.token a.connection_state b.connection_state a.online_url b.online_url s t p q

-- What a move asks of the state that it starts from.
abbrev pub Allows : Move → DeviceState → Type 0
Allows to_offline s = Unit
Allows to_unknown s = s.connection_state ≡ offline
Allows to_discover s = s.connection_state ≡ unknown
Allows to_connecting s = s.connection_state ≡ offline
Allows to_connected s = s.connection_state ≡ connecting
Allows (to_online url) s = (s.connection_state ≡ connected) × ((is_tcp url || is_relay url) ≡ true)
Allows to_clone s = Unit

moved-IsSound :
    (from target : ConnectionState) (s t : DeviceState)
    → HasUrl target none
    → moved from target s ≡ some t
    → IsSound t × (t.token ≡ s.token)
unfolding moved
moved-IsSound from target s t u h = elim (Bool-cases (rank s.connection_state == rank from)) [
  | inl fits ↦ ground (arith, h, u, fits)
  | inr other ↦ ground (arith, h, other)
]

move_online-IsSound :
    (url : Url) (s t : DeviceState) → move_online url s ≡ some t → IsSound t × (t.token ≡ s.token)
unfolding move_online
move_online-IsSound url s t h = ground (arith, h)

same-IsSound : (s t : DeviceState) → IsSound s → some s ≡ some t → IsSound t × (t.token ≡ s.token)
same-IsSound s t u h = let e : s ≡ t = cc in (rw (sym e) u, cc)

run-IsSound :
    (m : Move) (s t : DeviceState) → IsSound s → run m s ≡ some t → IsSound t × (t.token ≡ s.token)
unfolding run
run-IsSound to_offline s t u h =
    same-IsSound (record { token = s.token; connection_state = offline; online_url = none }) t refl
      h
run-IsSound to_unknown s t u h = moved-IsSound offline unknown s t refl h
run-IsSound to_discover s t u h = moved-IsSound unknown discovering s t refl h
run-IsSound to_connecting s t u h = moved-IsSound offline connecting s t refl h
run-IsSound to_connected s t u h = moved-IsSound connecting connected s t refl h
run-IsSound (to_online url) s t u h = move_online-IsSound url s t h
run-IsSound to_clone s t u h = same-IsSound s t u h

-- The states that moves lead to.
pub data Reachable : DeviceState → DeviceState → Type 0 where
  start : (s : DeviceState) → Reachable s s
  step : (s t u : DeviceState) (m : Move) → Reachable s t → run m t ≡ some u → Reachable s u

Reachable-kept : (s t : DeviceState) → Reachable s t → IsSound s → IsSound t × (t.token ≡ s.token)
Reachable-kept s t (start _) h = (h, refl)
Reachable-kept s u (step _ t _ m r e) h =
    let (sound, same) = Reachable-kept s t r h in
    let (sound_next, same_next) = run-IsSound m t u sound e in (sound_next, same_next ∙ same)

-- Every state that moves reach from a fresh one has a url exactly if it is online, then one with
-- the scheme of a relay or of a direct connection, and keeps the token of the fresh one.
pub Reachable-IsSound :
    (next_token_id : ℕ) (t : DeviceState)
    → Reachable (make_offline next_token_id).1 t
    → IsSound t × (t.token ≡ (make_offline next_token_id).1.token)
unfolding make_offline
Reachable-IsSound next_token_id t r = Reachable-kept (make_offline next_token_id).1 t r refl

-- A move forward.
abbrev pub IsForward : Move → Type 0
IsForward to_offline = ⊥
IsForward to_unknown = Unit
IsForward to_discover = Unit
IsForward to_connecting = Unit
IsForward to_connected = Unit
IsForward (to_online url) = Unit
IsForward to_clone = ⊥

moved-can_roollback_to :
    (from target : ConnectionState) (s t : DeviceState)
    → rank from < rank target
    → (rank from < 5)
    → moved from target s ≡ some t
    → (can_roollback_to t s ≡ some true) × (can_roollback_to s t ≡ some false)
unfolding moved can_roollback_to less
moved-can_roollback_to from target s t l b h = ground (arith, h)

online-can_roollback_to :
    (url : Url) (s t : DeviceState)
    → move_online url s ≡ some t
    → (can_roollback_to t s ≡ some true) × (can_roollback_to s t ≡ some false)
unfolding move_online can_roollback_to less
online-can_roollback_to url s t h = ground (arith, h)

-- A move forward from a state can be rolled back to that state, and not the other way round.
pub run-can_roollback_to :
    (m : Move) (s t : DeviceState)
    → IsForward m
    → run m s ≡ some t
    → (can_roollback_to t s ≡ some true) × (can_roollback_to s t ≡ some false)
unfolding run
run-can_roollback_to to_offline s t f h = absurd f
run-can_roollback_to to_unknown s t f h =
    moved-can_roollback_to offline unknown s t (omega arith) (omega arith) h
run-can_roollback_to to_discover s t f h =
    moved-can_roollback_to unknown discovering s t (omega arith) (omega arith) h
run-can_roollback_to to_connecting s t f h =
    moved-can_roollback_to offline connecting s t (omega arith) (omega arith) h
run-can_roollback_to to_connected s t f h =
    moved-can_roollback_to connecting connected s t (omega arith) (omega arith) h
run-can_roollback_to (to_online url) s t f h = online-can_roollback_to url s t h
run-can_roollback_to to_clone s t f h = absurd f
