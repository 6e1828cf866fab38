-- ===== src/Boot/Tftp/Transfer.antt =====
-- The data phase of `transfer` in src/boot/tftp.rs: one block, one acknowledgement.
pub mod Blocks
pub mod Complete
pub mod Cooperative
use rescriptum.Prelude.{
  ℕ, zero, suc, ◌+◌, ◌-◌, ◌/◌, ◌%◌, Bool, true, false, not, List, [], ◌∷◌, ◌++◌, Option, none, some,
  Bytes, ltb, if◌then◌else◌, length, take, drop, min, Str,
}
use rescriptum.Boot.Tftp.Ack
use rescriptum.Boot.Tftp.Ack.{Address, Event, Ack, Wait, wait_for_ack}
use rescriptum.Boot.Tftp.Packet.{data_packet, oack_packet}
use rescriptum.Boot.Tftp.Options.{Agreed}

-- What the network does: the events that the socket delivers, and whether the n-th data packet
-- could be sent.
pub record Network : Type 0 where
  pub events : ℕ → Event
  pub sendable : ℕ → Bool

pub data Outcome : Type 0 where
  completed cancelled gone silent : Outcome

-- the variables of the loop, and the data packets that were sent, one for each round
pub record Progress : Type 0 where
  pub block : ℕ
  pub sent : ℕ
  pub reply_to : Address
  pub read : ℕ
  pub packets : List Bytes

pub record Report : Type 0 where
  pub outcome : Outcome
  pub last : Progress

abbrev pub start_at : Address → ℕ → Progress
start_at reply_to read = record {
  block = 1;
  sent = 0;
  reply_to = reply_to;
  read = read;
  packets = [];
}

-- where the block that starts at `sent` ends, and what it holds
abbrev pub block_end : ℕ → Bytes → ℕ → ℕ
block_end size contents sent = min (sent + size) (length contents)

abbrev pub chunk : ℕ → Bytes → ℕ → Bytes
chunk size contents sent = take (block_end size contents sent - sent) (drop sent contents)

-- the last block is short, which includes empty
abbrev pub is_last : ℕ → Bytes → ℕ → Bool
is_last size contents sent = ltb (length (chunk size contents sent)) size

-- after a packet was sent, and after its acknowledgement
abbrev pub pushed : ℕ → Bytes → Progress → Progress
pushed size contents p = record p {
  packets = p.packets ++ data_packet p.block (chunk size contents p.sent) ∷ [];
}

abbrev pub waited : Progress → Wait → Progress
waited p w = record p { reply_to = w.reply_to; read = w.read }

abbrev pub advanced : ℕ → Bytes → Progress → Progress
advanced size contents p = record p {
  block = (p.block + 1) % 65536;
  sent = block_end size contents p.sent;
}

pub data Step : Type 0 where
  stop : Report → Step
  next : Progress → Step

-- what the wait for the acknowledgement decides; the flag is `last`
unfoldable pub after_ack : ℕ → Bytes → Progress → Ack → Bool → Step
after_ack size contents r Ack.ok true =
    stop (record { outcome = completed; last = record r { sent = block_end size contents r.sent } })
after_ack size contents r Ack.ok false = next (advanced size contents r)
after_ack size contents r Ack.cancelled last = stop (record { outcome = cancelled; last = r })
after_ack size contents r Ack.silent last = stop (record { outcome = silent; last = r })

abbrev pub after_send : ℕ → Bytes → Progress → Wait → Bool → Step
after_send size contents p w false = stop (record { outcome = gone; last = p })
after_send size contents p w true =
    after_ack size contents (waited (pushed size contents p) w) w.ack (is_last size contents p.sent)

-- one round: the packet is sent, and its acknowledgement is waited for
unfoldable pub send_round : Network → Address → ℕ → Bytes → Progress → Step
unfolding wait_for_ack after_ack
send_round net peer size contents p =
    after_send size contents p (wait_for_ack net.events p.block peer p.reply_to p.read)
      (net.sendable (length p.packets))

-- The loop; `none` means that the fuel ran out.
unfoldable pub send_loop : ℕ → Network → Address → ℕ → Bytes → Progress → Option Report
unfolding send_round
send_loop zero net peer size contents p = none
send_loop (suc fuel) net peer size contents p = elim (send_round net peer size contents p) [
  | stop r ↦ some r
  | next q ↦ send_loop fuel net peer size contents q
]

-- as many rounds as the contents have blocks, with the short one
abbrev pub rounds : ℕ → Bytes → ℕ
rounds size contents = length contents / size + 1

-- The handshake: an option reply, if an option was accepted, is acknowledged with block 0. The
-- flag says whether the reply could be sent.
pub data Handshake : Type 0 where
  agreed : Address → ℕ → Handshake
  refused : Handshake

unfoldable pub handshake : Network → Bool → Address → List (Str × Str) → Handshake
unfolding wait_for_ack
handshake net sendable peer [] = agreed peer 0
handshake net sendable peer (_ ∷ _) =
    let w = wait_for_ack net.events 0 peer peer 0 in
    elim sendable [
      | false ↦ refused
      | true ↦ elim w.ack [
        | Ack.ok ↦ agreed w.reply_to w.read
        | Ack.cancelled ↦ refused
        | Ack.silent ↦ refused
      ]
    ]

-- the handshake and the data phase; `none` inside means that no data was sent
unfoldable pub serve_contents : Network → Bool → Address → Agreed → Bytes → Option (Option Report)
unfolding handshake send_loop
serve_contents net sendable peer options contents =
    elim (handshake net sendable peer options.accepted) [
      | refused ↦ some none
      | agreed reply_to read ↦
          elim (send_loop (rounds options.block_size contents) net peer options.block_size contents
            (start_at reply_to read)) [ none ↦ none | some report ↦ some (some report) ]
    ]
