-- ===== src/Boot/Tftp/Transfer/Complete.antt =====
-- What a transfer promises: it ends, and a completed one has handed over the whole file.
use rescriptum.Prelude.{
  ℕ, zero, suc, ◌+◌, ◌*◌, ◌/◌, ◌≤◌, ◌<◌, Bool, true, false, [], ◌++◌, Bytes, length, drop, ◌≡◌,
  refl, sym, ap, ◌∙◌, arith, drop_all, append_assoc, append-nil, Option, some,
}
use mathlib.Core.Path.{subst}
use rescriptum.Boot.Tftp.Ack.{Address, Ack, Wait, wait_for_ack}
use rescriptum.Boot.Tftp.Transfer.{
  Network, completed, Progress, Report, Step, stop, next, after_ack, after_send, send_round,
  start_at, block_end, chunk, is_last, pushed, waited, advanced, send_loop, rounds,
}
use rescriptum.Boot.Tftp.Transfer.Blocks.{
  received, received-concat, chunk-drop, last_chunk, full_chunk,
}

enough_rounds : (n size : ℕ) → 0 < size → n < (n / size + 1) * size + 0
enough_rounds n size pos = grind arith

module _ (net : Network) (peer : Address) (size : ℕ) (contents : Bytes) where
  -- the receiver's bytes and what is still to be sent make the contents
  abbrev InStep : Progress → Type 0
  InStep p = (p.sent ≤ length contents) × (received p.packets ++ drop p.sent contents ≡ contents)

  advanced-InStep :
      (p : Progress) (w : Wait)
      → InStep p
      → is_last size contents p.sent ≡ false
      → InStep (advanced size contents (waited (pushed size contents p) w))
  advanced-InStep p w (inside, e) h = (
    (full_chunk size contents p.sent inside h).1,
    ap (λ x. x ++ drop (block_end size contents p.sent) contents)
          (received-concat p.packets p.block (chunk size contents p.sent))
        ∙ append_assoc (received p.packets) (chunk size contents p.sent)
            (drop (block_end size contents p.sent) contents)
        ∙ ap (λ x. received p.packets ++ x) (chunk-drop size contents p.sent inside)
        ∙ e,
  )

  completed-received :
      (p : Progress)
      → InStep p
      → is_last size contents p.sent ≡ true
      → received (pushed size contents p).packets ≡ contents
  completed-received p (inside, e) h =
      let at_end : drop (block_end size contents p.sent) contents ≡ [] =
        drop_all (block_end size contents p.sent) contents
          (omega (arith, last_chunk size contents p.sent inside h)) in
      received-concat p.packets p.block (chunk size contents p.sent)
      ∙ ap (λ x. received p.packets ++ x)
          (sym (append-nil (chunk size contents p.sent))
            ∙ ap (λ x. chunk size contents p.sent ++ x) (sym at_end)
            ∙ chunk-drop size contents p.sent inside)
      ∙ e

  -- A report of completion comes with the whole contents, and not more.
  abbrev Delivered : Report → Type 0
  Delivered r = r.outcome ≡ completed → received r.last.packets ≡ contents

  -- what a round promises
  abbrev Good : Progress → Step → Type 0
  Good p (stop r) = Delivered r
  Good p (next q) = InStep q × (p.sent + size ≡ q.sent)

  after_ack-Good :
      (p : Progress) (w : Wait) (ack : Ack) (last : Bool)
      → InStep p
      → is_last size contents p.sent ≡ last
      → Good p (after_ack size contents (waited (pushed size contents p) w) ack last)
  unfolding after_ack
  after_ack-Good p w Ack.ok true h e = λ _. completed-received p h e
  after_ack-Good p w Ack.ok false h e =
      (advanced-InStep p w h e, sym (full_chunk size contents p.sent h.0 e).0)
  after_ack-Good p w Ack.cancelled last h e = λ impossible. cc
  after_ack-Good p w Ack.silent last h e = λ impossible. cc

  after_send-Good :
      (p : Progress) (w : Wait) (sendable : Bool)
      → InStep p
      → Good p (after_send size contents p w sendable)
  after_send-Good p w false h = λ impossible. cc
  after_send-Good p w true h = after_ack-Good p w w.ack _ h refl

  send_round-Good : (p : Progress) → InStep p → Good p (send_round net peer size contents p)
  unfolding send_round
  send_round-Good p h =
      after_send-Good p (wait_for_ack net.events p.block peer p.reply_to p.read)
        (net.sendable (length p.packets)) h

  -- the loop with enough fuel gives a report, and that is a good one
  Reports : Option Report → Type 0
  Reports o = (r : Report) × (o ≡ some r) × Delivered r

  follow :
      (fuel : ℕ) (p : Progress) (s : Step)
      → Good p s
      → ((q : Progress)
          → InStep q
          → p.sent + size ≡ q.sent
          → Reports (send_loop fuel net peer size contents q))
      → Reports (elim s [ stop r ↦ some r | next q ↦ send_loop fuel net peer size contents q ])
  unfolding Reports
  follow fuel p (stop r) good ih = (r, refl, good)
  follow fuel p (next q) (h, e) ih = ih q h e

  send_loop-Reports :
      (fuel : ℕ) (p : Progress)
      → 0 < size
      → InStep p
      → length contents < fuel * size + p.sent
      → Reports (send_loop fuel net peer size contents p)
  unfolding send_loop
  send_loop-Reports zero p pos h enough = absurd (omega arith)
  send_loop-Reports (suc fuel) p pos h enough =
      follow fuel p (send_round net peer size contents p) (send_round-Good p h)
        (λ q hq e. send_loop-Reports fuel q pos hq (grind arith))

ends_and_delivers :
    (net : Network) (peer : Address) (size : ℕ) (contents : Bytes) (reply_to : Address) (read : ℕ)
    → 0 < size
    → (r : Report) × (send_loop
          (rounds size contents)
          net
          peer
          size
          contents
          (start_at reply_to read)
        ≡ some r)
      × (r.outcome ≡ completed → received r.last.packets ≡ contents)
ends_and_delivers net peer size contents reply_to read pos =
    unfold Reports in
    send_loop-Reports net peer size contents (rounds size contents) (start_at reply_to read) pos
      (omega arith, refl) (enough_rounds (length contents) size pos)

-- Whatever the network does, the loop over the blocks ends with a report: the rounds provided are
-- enough for every file and every positive block size.
pub send_loop_ends :
    (net : Network) (peer : Address) (size : ℕ) (contents : Bytes) (reply_to : Address) (read : ℕ)
    → 0 < size
    → (r : Report) × (send_loop
          (rounds size contents)
          net
          peer
          size
          contents
          (start_at reply_to read)
        ≡ some r)
send_loop_ends net peer size contents reply_to read pos =
    let (r, e, delivered) = ends_and_delivers net peer size contents reply_to read pos in (r, e)

-- For a positive block size, where the loop reports completion, the payloads of the data packets that it sent, in their order,
-- are exactly the contents of the file, whatever the network did and however often packets were
-- sent again.
pub send_loop-delivers :
    (net : Network) (peer : Address) (size : ℕ) (contents : Bytes) (reply_to : Address) (read : ℕ)
    {r : Report}
    → 0 < size
    → send_loop (rounds size contents) net peer size contents (start_at reply_to read) ≡ some r
    → r.outcome ≡ completed
    → received r.last.packets ≡ contents
send_loop-delivers net peer size contents reply_to read {r} pos e done =
    let (r2, e2, delivered) = ends_and_delivers net peer size contents reply_to read pos in
    let same : r2 ≡ r = cc in
    subst (λ x. received x.last.packets ≡ contents) same
      (delivered (ap (λ x. x.outcome) same ∙ done))
