-- ===== src/Lib.antt =====
-- The PYNQ instrument SDK: a SCPI instrument on a PYNQ board, served over HiSLIP.
--
-- A client sends HiSLIP messages (pynq_instrument/hislip.py). The payload of a message is a command
-- line; the session splits it (scpi_parser.py), looks the mnemonic up (command_registry.py), checks
-- the hardware (hardware_backend.py, overlay_manager.py), converts the arguments (param_parser.py)
-- and calls the handler: one of the user's, or a built-in one (scpi_standard.py, scpi_system.py,
-- scpi_overlay.py). Errors go to a queue that the client reads (errors.py).
--
-- Files, and the code they model:
--   Prelude, Python/*   native lists and numbers; what the source uses of Python: text of ASCII code
--                       points, int, exceptions as results, dict, struct, os.path, json.dumps
--   Errors, Response    pynq_instrument/errors.py, response_helpers.py
--   Scpi, Params        scpi_parser.py, param_parser.py
--   Registry            command_registry.py
--   Hislip              hislip.py; a reader is the list of the bytes that will arrive
--   Status              the registers and the status byte of scpi_standard.py
--   Overlay, Backend    overlay_manager.py, hardware_backend.py; Backend/Dma has the DMA buffers of both
--                       backends and dma_buffer.py
--   Python/Json         json.dumps, and json.loads (Scan, Numbers, Loads)
--   System              the JSON listing of scpi_system.py
--   World               the state that all sessions of an instrument share
--   Builtins            the handlers of scpi_standard.py, scpi_system.py and scpi_overlay.py;
--                       Builtins/Commands registers them, as instrument.py does
--   Instrument          the overlay methods of instrument.py; Instrument/Start its constructor and
--                       start_async
--   Dispatch            HiSLIPSession._dispatch_command of hislip_session.py
--   Session             HiSLIPSession of hislip_session.py: Session (state, handshake), Session/Loops (the
--                       two loops, device clear), Session/Steps (what can happen next),
--                       Session/Exchange (one command), Session/Cleared and Session/Interrupted (device
--                       clear), Session/Ended (the end of a session)
--   Session/Channel     async_channel.py
--   Server              the session table of hislip_server.py; Server/Channels its _handle_async
--                       (Held and Exclusive have its theorems)
--   Discovery           discovery.py; Discovery/Service registers and withdraws the service
--   Cli                 cli.py, from the parsed arguments to the start of the server
--   Profile             tools/generate_profile.py: Profile (build_profile), Profile/Client (the HiSLIP
--                       client), Profile/Main (main_async), Profile/Dialogue and Profile/Program (run
--                       against a session)
--   Examples            the theorems at concrete inputs
-- A definition has the name of the function it models, a leading underscore left out; a method takes
-- its object last and returns it changed. A function that can raise returns a `Result`.
--
-- A session is concurrent: its receive loop, its dispatch loop and its asynchronous channel run on one
-- event loop. Each function of Session/Loops is what a task does between two waits, and Session.Steps
-- lets them follow one another in any order. An asyncio.Event is a number, which is in a list once
-- the event is set. A send is one step and its frames are recorded; a command takes effect when it is
-- done. `Runs` names the steps that were taken, and in it nothing else happens in between. In
-- Server/Channels a connection that was acknowledged and the start of its channel are two steps, since
-- others may come while the acknowledgement is sent.
--
-- Loops are recursion on the list they run over. Only json.loads, whose calls follow the brackets of
-- the text, has fuel: twice the text's length and one, since a call takes a character off the text, or
-- the call inside it does (Python/Json/Total). Numbers are native naturals; the fields of a header are
-- checked against 2^8, 2^32 and 2^64 as struct does.
--
-- Parameters: the packages `pynq`, `numpy`, `zeroconf` and `yaml`, what the machine's sockets and its
-- file system answer, the user's handlers with their signatures, and floats (`float`, their order,
-- their truth and their text). A user handler may change anything that the instrument shares.
--
-- Not modelled: the sockets (HiSLIPServer.start and what asyncio does with a stream), log lines, the
-- parsing of the arguments by argparse, and the end of a program by KeyboardInterrupt.
pub mod Prelude
pub mod Python
pub mod Errors
pub mod Response
pub mod Scpi
pub mod Params
pub mod Registry
pub mod Hislip
pub mod Status
pub mod Overlay
pub mod Backend
pub mod System
pub mod World
pub mod Builtins
pub mod Dispatch
pub mod Instrument
pub mod Session
pub mod Profile
pub mod Server
pub mod Discovery
pub mod Cli
pub mod Examples
