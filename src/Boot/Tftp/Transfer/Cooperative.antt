-- ===== src/Boot/Tftp/Transfer/Cooperative.antt =====
-- A transfer to a client that acknowledges every block.
use rescriptum.Prelude.{
  ℕ, zero, suc, ◌+◌, ◌%◌, ◌<◌, Bool, true, false, some, Bytes, ◌==◌, ==_iff, length, ◌≡◌, refl, sym,
  ap, ◌∙◌, arith,
}
use mathlib.Core.Path.{subst}
use rescriptum.Boot.Tftp.Packet.{op_ack}
use rescriptum.Boot.Tftp.Ack
use rescriptum.Boot.Tftp.Ack.{
  Address, Event, Verdict, finish, judge, of_words, on_event, wait_loop, wait_for_ack,
}
use rescriptum.Boot.Tftp.Ack.Laws.{Acknowledges}
use rescriptum.Boot.Tftp.Transfer.{
  Network, completed, Progress, Report, Step, stop, next, after_ack, send_round, start_at, is_last,
  send_loop, rounds,
}
use rescriptum.Boot.Tftp.Transfer.Blocks.{received}
use rescriptum.Boot.Tftp.Transfer.Complete.{send_loop_ends, send_loop-delivers}

judge_same : (block : ℕ) → judge block op_ack block ≡ finish Ack.ok
unfolding judge
judge_same block = ground arith

on_event-Acknowledges :
    (e : Event) (block : ℕ) (peer reply_to from : Address)
    → Acknowledges peer block from e
    → on_event block peer reply_to e ≡ (finish Ack.ok, from, false)
unfolding on_event
on_event-Acknowledges e block peer reply_to from a =
    let same : (from.ip == peer.ip) ≡ true = (==_iff from.ip peer.ip).1 a.same_machine in
    ap (on_event block peer reply_to) a.is_datagram
    ∙ ap (λ o. of_words o block peer reply_to from) a.says_so
    ∙ (rw same (ap (λ v. (v, from, false)) (judge_same block)))

wait_for_ack-Acknowledges :
    (events : ℕ → Event) (block : ℕ) (peer reply_to from : Address) (read : ℕ)
    → Acknowledges peer block from (events read)
    → wait_for_ack events block peer reply_to read
      ≡ record { ack = Ack.ok; reply_to = from; resent = 0; read = read + 1 }
unfolding wait_for_ack
wait_for_ack-Acknowledges events block peer reply_to from read a =
    rw (on_event-Acknowledges (events read) block peer reply_to from a, wait_loop) refl

-- From the event `base` on the client acknowledges one block after the other, and packets can be sent.
pub record Cooperative (net : Network) (peer : Address) (base : ℕ) : Type 0 where
  pub acknowledges :
      (i : ℕ) → (from : Address) × Acknowledges peer ((i + 1) % 65536) from (net.events (base + i))
  pub sends : (n : ℕ) → net.sendable n ≡ true

module _ (net : Network) (peer : Address) (size : ℕ) (contents : Bytes) (base : ℕ)
    (good : Cooperative net peer base) where
  -- the next event acknowledges the block that is sent next
  abbrev InTurn : Progress → Type 0
  InTurn p = (i : ℕ) × (p.read ≡ base + i) × (p.block ≡ (i + 1) % 65536)

  -- what a round comes to
  abbrev Goes : Step → Type 0
  Goes (stop r) = r.outcome ≡ completed
  Goes (next q) = InTurn q

  after_ack-Goes :
      (p : Progress) (last : Bool) (i : ℕ)
      → p.read ≡ base + i + 1
      → p.block ≡ (i + 1) % 65536
      → Goes (after_ack size contents p Ack.ok last)
  unfolding after_ack
  after_ack-Goes p true i r b = refl
  after_ack-Goes p false i r b = (i + 1, omega (arith, r), omega (arith, b))

  send_round-Goes : (p : Progress) → InTurn p → Goes (send_round net peer size contents p)
  unfolding send_round
  send_round-Goes p (i, at, turn) =
      let (from, a) = good.acknowledges i in
      let here : Acknowledges peer p.block from (net.events p.read) =
        subst (λ b. Acknowledges peer b from (net.events p.read)) (sym turn)
          (subst (λ n. Acknowledges peer ((i + 1) % 65536) from (net.events n)) (sym at) a) in
      let waiting = wait_for_ack-Acknowledges net.events p.block peer p.reply_to from p.read here in
      rw (waiting, good.sends (length p.packets))
        (after_ack-Goes _ (is_last size contents p.sent) i (omega (arith, at)) turn)

  follow :
      (fuel : ℕ) (s : Step) {r : Report}
      → Goes s
      → ((q : Progress)
          → InTurn q
          → send_loop fuel net peer size contents q ≡ some r
          → r.outcome ≡ completed)
      → (elim s [ stop x ↦ some x | next q ↦ send_loop fuel net peer size contents q ]) ≡ some r
      → r.outcome ≡ completed
  follow fuel (stop x) {r} done ih h =
      let e : x ≡ r = cc in subst (λ y. y.outcome ≡ completed) e done
  follow fuel (next q) turn ih h = ih q turn h

  send_loop-completed :
      (fuel : ℕ) (p : Progress) {r : Report}
      → InTurn p
      → send_loop fuel net peer size contents p ≡ some r
      → r.outcome ≡ completed
  unfolding send_loop
  send_loop-completed zero p {r} turn h = cc
  send_loop-completed (suc fuel) p turn h =
      follow fuel (send_round net peer size contents p) (send_round-Goes p turn)
        (λ q t e. send_loop-completed fuel q t e) h

-- To a client that acknowledges every block, in turn and from its own machine, over a network on
-- which packets can be sent, every file is delivered in blocks of a positive size: the transfer
-- ends, reports completion, and the payloads it sent are the contents.
pub send_loop_completes :
    (net : Network) (peer : Address) (size : ℕ) (contents : Bytes) (reply_to : Address) (base : ℕ)
    → 0 < size
    → Cooperative net peer base
    → (r : Report) × (send_loop
          (rounds size contents)
          net
          peer
          size
          contents
          (start_at reply_to base)
        ≡ some r)
      × (r.outcome ≡ completed)
      × (received r.last.packets ≡ contents)
send_loop_completes net peer size contents reply_to base pos good =
    let (r, e) = send_loop_ends net peer size contents reply_to base pos in
    let done =
      send_loop-completed net peer size contents base good (rounds size contents)
        (start_at reply_to base) (0, omega arith, refl) e in
    (r, e, done, send_loop-delivers net peer size contents reply_to base pos e done)
