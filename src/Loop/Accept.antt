-- ===== src/Loop/Accept.antt =====
-- rust/crates/thttpd-core/src/eventloop.rs: new connections.
use thttpd_rs.Base.{ℕ, ◌+◌, Bool, some, List, [], ◌∷◌, if◌then◌else◌, leb, length}
use thttpd_rs.Conn
use thttpd_rs.Conn.{reading}
use thttpd_rs.Slot.{ConnSlot, new_slot}
use thttpd_rs.Watch.{conn_token}
use thttpd_rs.Loop.{PollCall, register, readable}

abbrev pub max_connections : ℕ
max_connections = 4096

abbrev pub Conns : Type 0
Conns = List (ℕ × ConnSlot)

pub record Listening : Type 0 where
  pub conns : Conns
  pub draining : Bool
  pub connections : ℕ
  pub polls : List PollCall

-- What `accept` answers: a stream with its peer, and whether the poll will register it; no more
-- connections; or another error.
pub data Accepted : Type 0 where
  pair : ℕ → ℕ → Bool → Accepted
  would_block failed : Accepted

-- The slot of a new connection.
unfoldable pub accepted_slot : ℕ → ℕ → ConnSlot
accepted_slot stream peer = record new_slot {
  state = reading;
  stream = some stream;
  http = Conn.new;
  peer_addr = some peer;
}

-- A registration that fails takes the slot out again.
unfoldable pub insert_conn : (Conns → ℕ) → ℕ → ℕ → Bool → Listening → Listening
unfolding accepted_slot
insert_conn vacant_key stream peer registers l =
    let key = vacant_key l.conns in
    let polls = register stream (conn_token key) readable ∷ l.polls in
    if registers
    then record l {
      conns = (key, accepted_slot stream peer) ∷ l.conns;
      connections = l.connections + 1;
      polls = polls;
    }
    else record l { polls = polls }

-- The loop over the answers of `accept`; `vacant_key` is the key that the table gives out.
unfoldable pub accept_all : (Conns → ℕ) → List Accepted → Listening → Listening
unfolding insert_conn
accept_all vacant_key [] l = l
accept_all vacant_key (would_block ∷ _) l = l
accept_all vacant_key (failed ∷ _) l = l
accept_all vacant_key (pair stream peer registers ∷ rest) l =
    if leb max_connections (length l.conns)
    then accept_all vacant_key rest l
    else accept_all vacant_key rest (insert_conn vacant_key stream peer registers l)

unfoldable pub handle_accept : (Conns → ℕ) → List Accepted → Listening → Listening
unfolding accept_all
handle_accept vacant_key answers l = if l.draining then l else accept_all vacant_key answers l
