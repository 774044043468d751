-- ===== src/Memory/Slot.antt =====
-- `SlotState` and `Slot` of src/memory/mod.rs.
use ring_buffer.Prelude.{ℕ, Bool, true, false, ◌==◌, if◌then◌else◌}

pub data SlotState : Type 0 where
  empty reserved ready consumed : SlotState

pub SlotState-discrete : Discrete SlotState
SlotState-discrete = hlevel

-- `state as u8`.
unfoldable pub as_u8 : SlotState → ℕ
as_u8 empty = 0
as_u8 reserved = 1
as_u8 ready = 2
as_u8 consumed = 3

-- The match in `Slot::state`: any other number is `Empty`.
unfoldable pub from_u8 : ℕ → SlotState
from_u8 n =
    if n == 0
    then empty
    else if n == 1
    then reserved
    else if n == 2
    then ready
    else if n == 3
    then consumed
    else empty

-- The field `state` holds the number of a state.
pub record Slot : Type 0 where
  pub code : ℕ
  pub seq : ℕ

unfoldable pub new : Slot
unfolding as_u8
new = record { code = as_u8 empty; seq = 0 }

unfoldable pub set_state : Slot → SlotState → Slot
unfolding as_u8
set_state s state = record s { code = as_u8 state }

unfoldable pub state : Slot → SlotState
unfolding from_u8
state s = from_u8 s.code

-- A compare-and-exchange of the code: the slot after it, and whether it was made.
unfoldable pub try_transition : Slot → SlotState → SlotState → Bool × Slot
unfolding as_u8
try_transition s from to =
    if s.code == as_u8 from then (true, record s { code = as_u8 to }) else (false, s)

abbrev pub set_seq : Slot → ℕ → Slot
set_seq s seq = record s { seq = seq }
