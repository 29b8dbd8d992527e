-- ===== src/Connection/Writers/Invariant.antt =====
-- Frames of different threads are not mixed up, and each thread's messages keep their order.
use lsp_framework_noec.Base.{
  ℕ, ◌≡◌, refl, sym, ap, ◌∙◌, List, [], ◌∷◌, ◌++◌, append_assoc, append-nil, some, Bytes, get_elem?,
  get_elem?-set, ◌==◌, if◌then◌else◌, arith, inl, inr, Bool-cases,
}
use lsp_framework_noec.Json.Floats.{Floats}
use lsp_framework_noec.Connection.Message.{MessageOrBatch}
use lsp_framework_noec.Connection.Writers.{
  Turn, unlocked, sending, frame, Writers, lock, send, unlock, Reachable, start, next,
}

abbrev pub unsent : Turn → Bytes
unsent unlocked = []
unsent (sending i rest) = rest

module _ (F : Floats) where
  open F use {Double}

  abbrev pub frames : List (ℕ × MessageOrBatch Double) → Bytes
  frames [] = []
  frames ((i, m) ∷ log) = frame F m ++ frames log

  -- The messages of a thread in a log.
  abbrev pub of_thread : ℕ → List (ℕ × MessageOrBatch Double) → List (MessageOrBatch Double)
  of_thread i [] = []
  of_thread i ((j, m) ∷ log) = let rest = of_thread i log in if j == i then m ∷ rest else rest

  frames-append :
      (log : List (ℕ × MessageOrBatch Double)) (i : ℕ) (m : MessageOrBatch Double)
      → frames (log ++ (i, m) ∷ []) ≡ frames log ++ frame F m
  frames-append [] i m = append-nil (frame F m)
  frames-append ((j, n) ∷ log) i m =
      ap (λ r. frame F n ++ r) (frames-append log i m)
      ∙ sym (append_assoc (frame F n) (frames log) (frame F m))

  of_thread-append :
      (i j : ℕ) (m : MessageOrBatch Double) (log : List (ℕ × MessageOrBatch Double))
      → of_thread i (log ++ (j, m) ∷ []) ≡ of_thread i log ++ (if j == i then m ∷ [] else [])
  of_thread-append i j m [] = ground arith
  of_thread-append i j m ((k, n) ∷ log) = elim (Bool-cases (k == i)) [
    | inl e ↦ rw e (ap (◌∷◌ n) (of_thread-append i j m log))
    | inr e ↦ rw e (of_thread-append i j m log)
  ]

  -- Whoever writes, the output with the rest of the frame that is being written is a row of whole
  -- frames, those of the log.
  pub Reachable-frames :
      {messages : List (List (MessageOrBatch Double))} {p : Writers F}
      → Reachable F messages p
      → p.output ++ unsent p.turn ≡ frames p.log
  Reachable-frames start = refl
  Reachable-frames (next {p} r (lock i m ms free e same)) =
      let before : p.output ++ [] ≡ frames p.log =
        ap (λ t. p.output ++ unsent t) (sym free) ∙ Reachable-frames r in
      rw same (
        ap (λ o. o ++ frame F m) (sym (append-nil p.output) ∙ before)
        ∙ sym (frames-append p.log i m))
  Reachable-frames (next {p} r (send i piece rest e some_bytes same)) =
      let before : p.output ++ (piece ++ rest) ≡ frames p.log =
        ap (λ t. p.output ++ unsent t) (sym e) ∙ Reachable-frames r in
      rw same (append_assoc p.output piece rest ∙ before)
  Reachable-frames (next {p} r (unlock i e same)) =
      rw same (ap (λ t. p.output ++ unsent t) (sym e) ∙ Reachable-frames r)

  -- The messages of a thread are in the log in the thread's order, and before those that it has still
  -- to write.
  pub Reachable-of_thread :
      {messages : List (List (MessageOrBatch Double))} {p : Writers F} (i : ℕ)
      (own : List (MessageOrBatch Double))
      → Reachable F messages p
      → get_elem? messages i ≡ some own
      → (left : List (MessageOrBatch Double)) × (get_elem? p.pending i ≡ some left)
        × (own ≡ of_thread i p.log ++ left)
  Reachable-of_thread i own start e = (own, e, refl)
  Reachable-of_thread i own (next {p} {q} r (lock j m ms free e same)) g =
      let (left, at, split) = Reachable-of_thread i own r g in
      let more = of_thread-append i j m p.log in
      let moved = get_elem?-set p.pending j i (m ∷ ms) ms e in
      elim (Bool-cases (j == i)) [
        | inl y ↦
            let here : j ≡ i = ground (arith, y) in
            let head : left ≡ m ∷ ms = cc (at, e, ap (get_elem? p.pending) here) in
            (
              ms,
              rw same (moved ∙ rw y refl),
              split
                  ∙ ap (λ l. of_thread i p.log ++ l) head
                  ∙ sym (
                      rw same (
                        ap (λ l. l ++ ms) (more ∙ rw y refl)
                        ∙ append_assoc (of_thread i p.log) (m ∷ []) ms)),
            )
        | inr n ↦ (
          left,
          rw same (moved ∙ rw n at),
          split
              ∙ sym (rw same (ap (λ l. l ++ left) (more ∙ rw n (append-nil (of_thread i p.log))))),
        )
      ]
  Reachable-of_thread i own (next {p} {q} r (send j piece rest e some_bytes same)) g =
      rw same (Reachable-of_thread i own r g)
  Reachable-of_thread i own (next {p} {q} r (unlock j e same)) g =
      rw same (Reachable-of_thread i own r g)
