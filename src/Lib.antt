-- ===== src/Lib.antt =====
-- screen-airdrop sends files over a visible screen: a sender shows frames, and a receiver grabs
-- them. Both sides share an information layer. This library is about that layer, the bytes of the
-- frames, the receiver's shared-memory slots, and the machine that keeps the frame's geometry.
--
-- A session's bytes are cut into chunks, and the chunks into generations. A generation's chunks are
-- its source symbols; each is sent as a systematic unit, and coded units carry combinations of them
-- over GF(256) that a seed determines. A receiver's solver keeps, for each generation, the symbols
-- and the equations that have arrived, and recovers the missing symbols by elimination; its assembler
-- gives the units to the solver and puts the chunks together.
--
-- The files, and the code under src/screen_airdrop that they model:
--   Prelude    what the modules share: tests, lists, exclusive or, dictionaries, exceptions
--   Coding     common/information/coding.py: Tables (the tables of powers and logarithms), Gf256
--              (gf256_add, _mul, _inv, _div), Payload (gf256_scale_payload, gf256_linear_combine,
--              xor_payloads), Equation (expand_equation_terms and what it calls)
--   Units      common/information/units.py and identities.py
--   Solver     receiver/information/solver_state.py: Rows (_terms_to_map, _map_to_terms,
--              _subtract_rows), Reduce (_normalize_row, _reduce_row), Solve (_solve), State
--              (SolverState, ingest_systematic, ingest_coded)
--   Sender     sender/information: Builder (unit_builder.py, generation_builder.py,
--              coded_builder.py); Packing (common/packing.py: chunk_bytes); Schedule
--              (common/scheduling/interfaces.py, sender/scheduling)
--   Receiver   receiver/information: Store (generation_store.py, unit_acceptor.py), Decoder
--              (decoder.py), Assembler (assembler.py and common/control_plane.py); Locator
--              (receiver/locator/state_machine.py)
--   Runtime    receiver/runtime/slot_manager.py: Slots (SlotManager and the slots' states)
--   Envelope   common/transport/coded_payload.py: encode_coded_payload, decode_coded_payload
--   Wire       the little-endian formats of Python's struct, and the two checksums
--   Protocol   common/transport: Bits and Basic (protocol_basic.py), Gray4 (protocol_gray4.py),
--              Layered (protocol_layered.py), Layout (layout_basic.py); ReedSolomon
--              (common/ecc_rs.py)
--   Examples   concrete inputs
--
-- How the code is translated. Bytes and integers are natural numbers; a payload is the list of its
-- bytes. A dict is an association list in insertion order (Prelude/Dict). A function that may raise
-- returns a Result. An object's methods take the state and return the new one; what is left behind
-- by an operation that raises is not modelled. Python's random.Random, which is not part of the
-- repository, is the record Random of Coding/Equation, with the documented laws of sample and
-- randrange.
--
-- Loops that are not over a list run on fuel, and running out is the fault `stuck`: `select` has a
-- round for each index wanted, `reduce_loop` one more than there are pivot rows, `solve_loop` one
-- more than there are terms in the stored equations, `build_plans_from` one for each chunk:
-- a round adds an index, uses up a pivot, recovers a symbol or takes a chunk.
--
-- `slices` and `decode_blocks` have fuel for the bytes, of which each round takes at least one.
--
-- Further parameters: the Reed-Solomon codec of the package reedsolo (RsCodec, with the laws
-- IsCodec), the locator of the geometry machine (Locator), and the decoding of the JSON control
-- items (ControlCodec).
--
-- Not modelled: images, processes, files and reports, and the receiver's pipelines around them; they
-- work on arrays of pixels by cv2 and numpy, or only compose the parts above.
pub mod Prelude
pub mod Coding
pub mod Units
pub mod Sender
pub mod Solver
pub mod Receiver
pub mod Envelope
pub mod Wire
pub mod Protocol
pub mod Runtime
pub mod Examples
