-- ===== src/Connection/Writers/Reader.antt =====
-- What the reader at the other end makes of the writers' output.
use lsp_framework_noec.Base.{
  ℕ, zero, suc, false, ◌≡◌, refl, sym, ap, ◌∙◌, List, [], ◌∷◌, ◌++◌, append_assoc, append-nil, ok,
  some, Bytes, get_elem?, set, All, All-append,
}
use lsp_framework_noec.Json.Floats.{Floats}
use lsp_framework_noec.Io.{Stream}
use lsp_framework_noec.Io
use lsp_framework_noec.Connection.Message.{
  MessageOrBatch, write_message, write_message_data, read_message,
}
use lsp_framework_noec.Connection.RoundTrip.Messages.{Passes, read_message-write_message}
use lsp_framework_noec.Connection.Writers.{
  unlocked, frame, Writers, lock, send, unlock, Reachable, start, next,
}
use lsp_framework_noec.Connection.Writers.Invariant.{frames, unsent, Reachable-frames}

module _ (F : Floats) where
  open F use {Double}

  -- Calls of `readMessage` in a row give these messages.
  pub data Reads : Stream → List (MessageOrBatch Double) → Stream → Type 0 where
    done : {s : Stream} → Reads s [] s
    more :
        {r s t : Stream} {m : MessageOrBatch Double} {ms : List (MessageOrBatch Double)}
        → read_message F r ≡ (ok m, s)
        → Reads s ms t
        → Reads r (m ∷ ms) t

  abbrev pub messages_of : List (ℕ × MessageOrBatch Double) → List (MessageOrBatch Double)
  messages_of [] = []
  messages_of ((i, m) ∷ log) = m ∷ messages_of log

  abbrev no_output : Stream
  no_output = record {
    input = [];
    input_breaks = false;
    input_error = false;
    output = [];
    output_broken = false;
  }

  read_message-frame :
      (m : MessageOrBatch Double) (s : Stream) (rest : Bytes)
      → Passes F m
      → read_message F (record s { input = frame F m ++ rest }) ≡ (ok m, record s { input = rest })
  unfolding write_message write_message_data Io.write
  read_message-frame m s rest p =
      (read_message-write_message F m no_output s rest refl refl p.sendable p.prints p.short).1

  frames-Reads :
      (log : List (ℕ × MessageOrBatch Double)) (s : Stream) (rest : Bytes)
      → All (λ e. Passes F e.1) log
      → Reads
          (record s { input = frames F log ++ rest })
          (messages_of log)
          (record s { input = rest })
  frames-Reads [] s rest h = done
  frames-Reads ((i, m) ∷ log) s rest (p, h) =
      more
        (ap (λ o. read_message F (record s { input = o }))
            (append_assoc (frame F m) (frames F log) rest)
          ∙ read_message-frame m s (frames F log ++ rest) p)
        (frames-Reads log s rest h)

  module _ (P : MessageOrBatch Double → Type 0) where
    head_All :
        (pending : List (List (MessageOrBatch Double))) (i : ℕ) (m : MessageOrBatch Double)
        (ms : List (MessageOrBatch Double))
        → All (All P) pending
        → get_elem? pending i ≡ some (m ∷ ms)
        → P m × All (All P) (set pending i ms)
    head_All [] i m ms h e = absurd (cc e)
    head_All ((n ∷ ns) ∷ pending) zero m ms ((p, ps), h) e =
        let one : n ≡ m = cc e in
        let others : ns ≡ ms = cc e in (rw (sym one) p, (rw (sym others) ps, h))
    head_All ([] ∷ pending) zero m ms h e = absurd (cc e)
    head_All (own ∷ pending) (suc i) m ms (p, h) e =
        let (q, k) = head_All pending i m ms h e in (q, (p, k))

    -- What holds of all messages of the threads holds of those in the log and of those still to come.
    Reachable-All :
        {messages : List (List (MessageOrBatch Double))} {p : Writers F}
        → All (All P) messages
        → Reachable F messages p
        → All (λ e. P e.1) p.log × All (All P) p.pending
    Reachable-All h start = (tt, h)
    Reachable-All h (next {p} r (lock i m ms free e same)) =
        let (before, left) = Reachable-All h r in
        let (now, later) = head_All p.pending i m ms left e in
        rw same (All-append (λ e. P e.1) p.log ((i, m) ∷ []) before (now, tt), later)
    Reachable-All h (next r (send i piece rest e some_bytes same)) = rw same (Reachable-All h r)
    Reachable-All h (next r (unlock i e same)) = rw same (Reachable-All h r)

  -- While threads write messages that pass through a connection (`Passes`: sound, printable and short
  -- enough) on a stream that takes what is written: whenever no thread holds the mutex, the reader at the other end of the connection reads the
  -- messages that were written so far, each whole and in the order in which their writers got the
  -- mutex, and what stands behind them is left.
  pub Reachable-Reads :
      {messages : List (List (MessageOrBatch Double))} {p : Writers F} (s : Stream) (rest : Bytes)
      → All (All (Passes F)) messages
      → Reachable F messages p
      → p.turn ≡ unlocked
      → Reads
          (record s { input = p.output ++ rest })
          (messages_of p.log)
          (record s { input = rest })
  Reachable-Reads {p = p} s rest h r free =
      let whole : p.output ≡ frames F p.log =
        sym (append-nil p.output)
        ∙ ap (λ t. p.output ++ unsent t) (sym free)
        ∙ Reachable-frames F r in
      rw whole (frames-Reads p.log s rest (Reachable-All (Passes F) h r).0)
