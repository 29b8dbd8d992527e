-- ===== src/ConnectionWitnesses.antt =====
-- Two threads that write on one connection, one message each.
use lsp_framework_noec.Base.{◌≢◌, ℤ, ap, sym, false, refl, [], ◌∷◌, ◌++◌, List, append-nil}
use lsp_framework_noec.Json.Tests.{no_floats}
use lsp_framework_noec.Io.{Stream}
use lsp_framework_noec.Connection.Header.{message_header_string}
use lsp_framework_noec.Connection.Message.{framed, MessageOrBatch, message}
use lsp_framework_noec.Connection.Writers.{
  Writers, unlocked, sending, frame, lock, send, unlock, Reachable, start, next,
}
use lsp_framework_noec.Connection.Writers.Reader.{Reads, messages_of, Reachable-Reads}
use lsp_framework_noec.HandlerWitnesses.{query, reply1, query-Passes, reply1-Passes}

abbrev queue : List (List (MessageOrBatch ℤ))
queue = (message query ∷ []) ∷ (message reply1 ∷ []) ∷ []

abbrev idle : Stream
idle = record {
  input = [];
  input_breaks = false;
  input_error = false;
  output = [];
  output_broken = false;
}

-- The second thread is first at the mutex.
abbrev locked : Writers no_floats
locked = record {
  pending = (message query ∷ []) ∷ [] ∷ [];
  turn = sending 1 (frame no_floats (message reply1));
  output = [];
  log = (1, message reply1) ∷ [];
}

abbrev written : Writers no_floats
written = record locked { turn = sending 1 []; output = frame no_floats (message reply1) }

abbrev released : Writers no_floats
released = record written { turn = unlocked }

frame-ne : frame no_floats (message reply1) ≢ []
unfolding framed message_header_string
frame-ne e = cc e

released-Reachable : Reachable no_floats queue released
released-Reachable =
    next
      (next (next start (lock 1 (message reply1) [] refl refl refl)) (
        send 1 (frame no_floats (message reply1)) []
          (ap (sending 1) (sym (append-nil (frame no_floats (message reply1))))) frame-ne refl))
      (unlock 1 refl refl)

Reachable-Reads_example :
    Reads no_floats
      (record idle { input = released.output ++ [] })
      (messages_of no_floats released.log)
      (record idle { input = [] })
Reachable-Reads_example =
    Reachable-Reads no_floats idle [] ((query-Passes, tt), ((reply1-Passes, tt), tt))
      released-Reachable refl
