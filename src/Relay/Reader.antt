-- ===== src/Relay/Reader.antt =====
-- net/relay_actor.cpp: how the actor reads the messages of a relay. The handlers of a message and of
-- a protocol error are arguments, over the rest `S` of the state of the actor. The socket writes what it
-- receives into the buffer, behind the bytes that are there. The marks of the resources are left out.
use syncspirit.Prelude.{
  ℕ, zero, suc, ◌+◌, ◌-◌, Bool, true, false, List, ◌++◌, Option, none, some, if◌then◌else◌, ◌==◌,
  length, take, drop,
}
use syncspirit.Relay.{Message, ParseResult, incomplete, protocol_error, wrapped, parse}

-- `process_t`
pub data ProcessOp : Type 0 where
  stop more incomplete_op : ProcessOp

pub record Reader (S : Type 0) : Type 0 where
  pub rx_buff : List ℕ
  pub rx_idx : ℕ
  pub actor : S

abbrev pub goes_on : ProcessOp → Bool
goes_on stop = false
goes_on more = true
goes_on incomplete_op = true

module _ {S : Type 0} (on : S → Message → S × Bool) (fail : S → S) where
  -- The step for a parsed message, and for the two other results.
  unfoldable pub handle :
      (S → ℕ → Option (S × (ℕ × ProcessOp))) → S → ℕ → ParseResult → Option (S × (ℕ × ProcessOp))
  handle rest s from incomplete = some (s, (from, incomplete_op))
  handle rest s from protocol_error = some (fail s, (from, stop))
  handle rest s from (wrapped size message) =
      let (t, ok) = on s message in
      if ok then rest t (from + size) else some (t, (from + size, stop))

  -- The loop of `on_read` on `count` bytes of the buffer, with the index `from`.
  unfoldable pub process : ℕ → List ℕ → ℕ → S → ℕ → Option (S × (ℕ × ProcessOp))
  process zero buff count s from = none
  process (suc fuel) buff count s from =
      if count - from == 0
      then some (s, (from, more))
      else handle (process fuel buff count) s from (parse (take (count - from) (drop from buff)))

  -- The state afterwards, and whether `read_master` is called.
  unfoldable pub on_read : List ℕ → Reader S → Option (Reader S × Bool)
  on_read received r =
      let buff =
        take r.rx_idx r.rx_buff ++ (received ++ drop (r.rx_idx + length received) r.rx_buff) in
      let count = r.rx_idx + length received in
      elim (process (suc count) buff count r.actor 0) [
        | none ↦ none
        | some (s, (from, op)) ↦
            some (record { rx_buff = buff; rx_idx = count - from; actor = s }, goes_on op)
      ]
