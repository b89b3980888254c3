-- ===== src/Server.antt =====
-- `HiSLIPServer` of pynq_instrument/hislip_server.py: the ids of the sessions and the table of those
-- that run. Both sections that change them hold `_session_lock`, and each is one step.
pub mod Ids
pub mod Channels
pub mod Held
pub mod Exclusive
use pynq_sdk.Prelude.{ℕ, suc, zero, ◌+◌, ◌%◌, List, [], ◌∷◌}
use pynq_sdk.Python.Dict
use pynq_sdk.Python.Dict.{Dict, nat_key}
use pynq_sdk.Session.{Session, new_session}

pub record HislipServer : Type 0 where
  pub sessions : Dict ℕ Session
  pub next_session_id : ℕ

unfoldable pub new_server : HislipServer
new_server = record { sessions = []; next_session_id = 1 }

-- the first section of `_handle_sync`: the id that is used, and the server with the next one
unfoldable pub take_id : HislipServer → ℕ × HislipServer
take_id v =
    let session_id = v.next_session_id in
    (session_id, record v { next_session_id = (session_id % 0xFFFF) + 1 })

-- `_handle_sync` up to `session.run()`
unfoldable pub accept : HislipServer → ℕ × HislipServer
unfolding take_id
accept v =
    let (session_id, v') = take_id v in
    (session_id, record v' { sessions = Dict.put session_id (new_session session_id) v'.sessions })

-- the end of `_handle_sync`
unfoldable pub forget : ℕ → HislipServer → HislipServer
forget session_id v = record v { sessions = Dict.remove session_id v.sessions }
