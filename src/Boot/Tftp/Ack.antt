-- ===== src/Boot/Tftp/Ack.antt =====
-- `wait_for_ack` of src/boot/tftp.rs. What the socket delivers is a stream of events; the state
-- says how far it was read.
pub mod Laws
use rescriptum.Prelude.{
  ℕ, zero, suc, ◌+◌, Bool, true, false, not, ◌&&◌, List, [], ◌∷◌, Option, none, some, Bytes, ◌==◌,
  if◌then◌else◌,
}
use rescriptum.Boot.Tftp.Packet.{op_ack, op_error, words}

pub record Address : Type 0 where
  pub ip : ℕ
  pub port : ℕ

-- what one `timeout(RETRY, recv_from)` gives: a datagram, an error, or silence, after which the
-- packet is sent again and that succeeds or not
pub data Event : Type 0 where
  datagram : Address → Bytes → Event
  failed : Event
  silence : Bool → Event

pub data Ack : Type 0 where
  ok cancelled silent : Ack

pub record Wait : Type 0 where
  pub ack : Ack
  pub reply_to : Address
  -- how often the packet was sent again, and how many events were read
  pub resent : ℕ
  pub read : ℕ

abbrev pub max_retries : ℕ
max_retries = 6

-- what a datagram from the peer's address means
pub data Verdict : Type 0 where
  finish : Ack → Verdict
  ignore : Verdict

unfoldable pub judge : ℕ → ℕ → ℕ → Verdict
judge block opcode acked =
    if opcode == op_error
    then finish cancelled
    else if opcode == op_ack && acked == block
    then finish ok
    else ignore

-- one event: the verdict, where replies go from now on, and whether the packet was sent again
abbrev pub of_words : Option (ℕ × ℕ) → ℕ → Address → Address → Address → Verdict × Address × Bool
of_words none block peer reply_to from = (ignore, reply_to, false)
of_words (some (opcode, acked)) block peer reply_to from =
    if from.ip == peer.ip
    then (judge block opcode acked, from, false)
    else (ignore, reply_to, false)

unfoldable pub on_event : ℕ → Address → Address → Event → Verdict × Address × Bool
unfolding judge
on_event block peer reply_to (datagram from bytes) = of_words (words bytes) block peer reply_to from
on_event block peer reply_to failed = (finish silent, reply_to, false)
on_event block peer reply_to (silence sent) =
    (if sent then ignore else finish silent, reply_to, sent)

abbrev count_if : Bool → ℕ → ℕ
count_if true n = n + 1
count_if false n = n

-- the wait ends, or goes on with the next event
pub data Outcome : Type 0 where
  stop : Ack → Address → Bool → Outcome
  carry_on : Address → Bool → Outcome

abbrev settled : Verdict × Address × Bool → Outcome
settled (finish ack, to, again) = stop ack to again
settled (ignore, to, again) = carry_on to again

-- the loop `for _ in 0..MAX_RETRIES`
unfoldable pub wait_loop : ℕ → (ℕ → Event) → ℕ → Address → Address → ℕ → ℕ → Wait
unfolding on_event
wait_loop zero events block peer reply_to resent read = record {
  ack = silent;
  reply_to = reply_to;
  resent = resent;
  read = read;
}
wait_loop (suc n) events block peer reply_to resent read =
    elim (settled (on_event block peer reply_to (events read))) [
      | stop ack to again ↦ record {
        ack = ack;
        reply_to = to;
        resent = count_if again resent;
        read = read + 1;
      }
      | carry_on to again ↦ wait_loop n events block peer to (count_if again resent) (read + 1)
    ]

unfoldable pub wait_for_ack : (ℕ → Event) → ℕ → Address → Address → ℕ → Wait
unfolding wait_loop
wait_for_ack events block peer reply_to read =
    wait_loop max_retries events block peer reply_to 0 read
