-- ===== src/Examples/Connection.antt =====
-- A session at concrete inputs.
use Prim.Native.Nat.{bit_and}
use pynq_sdk.Prelude.{
  ◌≡◌, ◌≢◌, ltb, leb, ◌&&◌, if◌then◌else◌, ◌%◌, ◌^◌, refl, ℕ, zero, suc, Bool, true, false, [], ◌∷◌,
  ◌++◌, arith,
}
use pynq_sdk.Python.Text.{lit}
use pynq_sdk.Python.Exception.{Exception, ok, raised, incomplete_read}
use pynq_sdk.Hislip.{Message}
use pynq_sdk.Hislip.Codes.{msg_initialize, msg_data_end}
use pynq_sdk.Hislip.Codec.{IsSendable}
use pynq_sdk.Status.{truthy}
use pynq_sdk.World.{World}
use pynq_sdk.Session.{Session, new_session, handshake, reading, stopped, send_payload, send_raw}
use pynq_sdk.Session.Loops.{
  begin_run, State, receive_step, on_message, on_data_end, enqueue_overlap,
}
use pynq_sdk.Session.Steps.{received, Reachable, started, next}
use pynq_sdk.Session.Invariant.{core, IsSound}
use pynq_sdk.Session.Invariant.Kept.{Reachable-IsSound}
use pynq_sdk.Session.Orphaned.{disconnect_full}
use pynq_sdk.Session.Steps.{now}
use pynq_sdk.Session.Handshake.{handshake_initialize, version_of, session_of}
use Prim.Native.Nat.{min}
use pynq_sdk.Prelude.{◌+◌, List}
use pynq_sdk.Python.Struct.{be, of_be}
use pynq_sdk.Hislip.{max_payload}
use pynq_sdk.Hislip.Codes.{msg_async_max_msg_size}
use pynq_sdk.Session.Channel.{handle}
use pynq_sdk.Session.Sizes.{handle_max_msg_size}
use pynq_sdk.Server.{new_server, accept}
use pynq_sdk.Server.Ids.{
  ServerOp, accept_op, forget_op, run_server, accepted, accept-run_server, accept-distinct,
}
use pynq_sdk.Prelude.{map, some, none}
use pynq_sdk.Session.{Item, Dispatcher}
use pynq_sdk.Session.Order.{answers, outcome, rounds, queue-answers}
use pynq_sdk.Session.Steps.{Runs}
use pynq_sdk.Examples.Listing.{client, outside, idle}

abbrev hello : Message
hello = record {
  msg_type = msg_initialize;
  control_code = 1;
  msg_param = 0x01004142;
  payload = lit "hislip0";
}

handshake_initialize_example :
    (response : Message) × (handshake (ok hello) (new_session 7) ≡ (
      true,
      record (new_session 7) {
        overlap_mode = truthy (bit_and 1 1);
        sent = (new_session 7).sent ++ response ∷ [];
      },
    ))
    × IsSendable response
    × (session_of response ≡ (new_session 7).session_id % 2 ^ 16)
    × (version_of response ≡ (
        if ltb 0 (version_of hello) && leb (version_of hello) 0x100
        then version_of hello
        else 0x100))
handshake_initialize_example = handshake_initialize hello (new_session 7) refl (omega arith)

abbrev identify : Message
identify = record {
  msg_type = msg_data_end;
  control_code = 0;
  msg_param = 2;
  payload = lit "*IDN?";
}

-- the INITIALIZE of a client that wants overlapped commands, or does not
abbrev greeting : Bool → Message
greeting overlap = record hello { control_code = if overlap then 1 else 0 }

-- A session after `n` commands that were sent at once.
abbrev flooded : Bool → ℕ → State outside
flooded overlap zero = ((handshake (ok (greeting overlap)) (begin_run (new_session 7))).1, idle)
flooded overlap (suc n) = receive_step outside (ok identify) (flooded overlap n)

keeps_reading :
    (s : Session) (w : World client)
    → s.overlap_mode ≡ true
    → s.receiver ≡ reading
    → ((receive_step outside (ok identify) (s, w)).0.overlap_mode ≡ true)
      × ((receive_step outside (ok identify) (s, w)).0.receiver ≡ reading)
unfolding receive_step on_message on_data_end enqueue_overlap send_payload
keeps_reading s w overlap r = (ground (arith, overlap, r), ground (arith, overlap, r))

flooded_reads :
    (n : ℕ) → ((flooded true n).0.overlap_mode ≡ true) × ((flooded true n).0.receiver ≡ reading)
flooded_reads zero = unfold new_session begin_run handshake send_raw in (refl, refl)
flooded_reads (suc n) =
    let (overlap, r) = flooded_reads n in
    keeps_reading (flooded true n).0 (flooded true n).1 overlap r

flooded-Reachable : (n : ℕ) → Reachable outside (flooded true n)
flooded-Reachable zero = started 7 (ok (greeting true)) idle (unfold handshake in refl)
flooded-Reachable (suc n) = next (flooded-Reachable n) (received (ok identify) (flooded_reads n).1)

Reachable-IsSound_example : IsSound (core (flooded true 3).0)
Reachable-IsSound_example = Reachable-IsSound outside (flooded-Reachable 3)

abbrev one : State outside
one = flooded false 1

abbrev gone : Exception
gone = record { kind = incomplete_read; message = [] }

disconnect_full_example :
    (receive_step outside (raised gone) (flooded true 8)).0.dispatcher ≢ stopped
disconnect_full_example =
    disconnect_full outside gone (flooded-Reachable 8) (flooded_reads 8).1
      (unfold receive_step on_message on_data_end enqueue_overlap new_session begin_run handshake
          send_raw in
        omega arith)
      now

abbrev proposal : Message
proposal = record {
  msg_type = msg_async_max_msg_size;
  control_code = 0;
  msg_param = 0;
  payload = be 8 1048576;
}

handle_max_msg_size_example :
    (answer : Message) × (handle proposal (new_session 7)
      ≡ record (new_session 7) { async_sent = (new_session 7).async_sent ++ answer ∷ [] })
    × IsSendable answer
    × (of_be answer.payload ≡ min 1048576 max_payload)
handle_max_msg_size_example =
    handle_max_msg_size proposal (new_session 7) 1048576 refl refl (omega arith)

abbrev visits : List ServerOp
visits = accept_op ∷ accept_op ∷ forget_op 1 ∷ accept_op ∷ []

accept-run_server_example : (accept (run_server visits new_server)).0 ≡ accepted visits % 0xFFFF + 1
accept-run_server_example = accept-run_server visits

accept-distinct_example :
    (accept (run_server visits (accept (run_server visits new_server)).1)).0
    ≢ (accept (run_server visits new_server)).0
accept-distinct_example = accept-distinct visits visits (unfold accepted in omega arith)

abbrev two_items : List Item
two_items =
    (record { msg_param = 2; cmd_str = lit "led?"; done_event = none })
    ∷ (record { msg_param = 4; cmd_str = lit "foo"; done_event = some 0 })
    ∷ []

abbrev queued : Session
queued = record (new_session 7) { cmd_queue = map some two_items }

queue-answers_example :
    (s' : Session) × Runs outside
      (rounds two_items)
      (queued, idle)
      (s', outcome outside two_items idle)
    × (s'.cmd_queue ≡ [])
    × (s'.dispatcher ≡ Dispatcher.idle)
    × (s'.sent ≡ queued.sent ++ answers outside two_items idle)
unfolding new_session
queue-answers_example = queue-answers outside two_items queued idle refl refl refl
