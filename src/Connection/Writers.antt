-- ===== src/Connection/Writers.antt =====
-- Threads that call `writeMessage` on one connection (lsp/connection.cpp), while its stream takes what
-- is written. The write mutex is held from `writeMessageData` on; the stream may take the bytes of a
-- frame in any pieces.
pub mod Invariant
pub mod Reader
use lsp_framework_noec.Base.{
  ℕ, false, ◌≡◌, ◌≢◌, List, [], ◌∷◌, ◌++◌, some, Bytes, get_elem?, set, replicate,
}
use lsp_framework_noec.Json.Floats.{Floats}
use lsp_framework_noec.Json.Printer.{stringify}
use lsp_framework_noec.Connection.Message.{MessageOrBatch, message_json, framed}

-- Who holds `m_writeMutex`, and the bytes of the frame that the stream has not taken yet.
pub data Turn : Type 0 where
  unlocked : Turn
  sending : ℕ → Bytes → Turn

module _ (F : Floats) where
  open F use {Double}

  -- The bytes of a message on the stream.
  abbrev pub frame : MessageOrBatch Double → Bytes
  frame m = framed (stringify F (message_json m) false)

  pub record Writers : Type 0 where
    -- What each thread has still to write.
    pub pending : List (List (MessageOrBatch Double))
    pub turn : Turn
    -- What the stream has taken.
    pub output : Bytes
    -- The messages in the order in which their writers got the mutex, with the threads.
    pub log : List (ℕ × MessageOrBatch Double)

  abbrev pub starting : List (List (MessageOrBatch Double)) → Writers
  starting pending = record { pending = pending; turn = unlocked; output = []; log = [] }

  pub data WriterStep (p q : Writers) : Type 0 where
    lock :
        (i : ℕ) (m : MessageOrBatch Double) (ms : List (MessageOrBatch Double))
        → p.turn ≡ unlocked
        → get_elem? p.pending i ≡ some (m ∷ ms)
        → q ≡ record p {
          pending = set p.pending i ms;
          turn = sending i (frame m);
          log = p.log ++ (i, m) ∷ [];
        }
        → WriterStep p q
    send :
        (i : ℕ) (piece rest : Bytes)
        → p.turn ≡ sending i (piece ++ rest)
        → piece ≢ []
        → q ≡ record p { turn = sending i rest; output = p.output ++ piece }
        → WriterStep p q
    unlock : (i : ℕ) → p.turn ≡ sending i [] → q ≡ record p { turn = unlocked } → WriterStep p q

  pub data Reachable (messages : List (List (MessageOrBatch Double))) : Writers → Type 0 where
    start : Reachable messages (starting messages)
    next : {p q : Writers} → Reachable messages p → WriterStep p q → Reachable messages q
