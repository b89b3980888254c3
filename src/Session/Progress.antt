-- ===== src/Session/Progress.antt =====
-- What the invariant of a session is for.
use pynq_sdk.Prelude.{ℕ, ◌≡◌, Option, List}
use pynq_sdk.World.{Types, World, Externals}
use pynq_sdk.Session.{Item, waiting, Session}
use pynq_sdk.Session.Loops.{resume, take_item, finish_item}
use pynq_sdk.Session.Steps.{Step}

module _ {t : Types} (x : Externals t) where
  -- A session that is not idle: its receive loop can go on, or its dispatch loop can.
  pub data CanGoOn (s : Session) (w : World t) : Type 0 where
    by_receiver : (e : ℕ) → s.receiver ≡ waiting e → Step x (s, w) (resume s, w) → CanGoOn s w
    by_queue :
        (item : Option Item) (q : List (Option Item))
        → Step x (s, w) (take_item item (record s { cmd_queue = q }), w)
        → CanGoOn s w
    by_command : (item : Item) → Step x (s, w) (finish_item x item (s, w)) → CanGoOn s w
