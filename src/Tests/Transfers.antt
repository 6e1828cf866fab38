-- ===== src/Tests/Transfers.antt =====
-- Inputs for the TFTP server.
use rescriptum.Prelude.{
  ◌+◌, ◌/◌, ◌%◌, ap, ℕ, zero, suc, Bool, true, false, List, [], ◌∷◌, none, some, Str, Bytes, codes,
  ◌≡◌, refl, arith,
}
use rescriptum.Boot.Tftp.Ack
use rescriptum.Boot.Tftp.Ack.{Address, Event, datagram, silence, ok, wait_for_ack, max_retries}
use rescriptum.Boot.Tftp.Ack.Laws.{
  Acknowledges, Acknowledged, Reads, wait_for_ack-Acknowledged, wait_for_ack-Reads,
  wait_for_ack-Stray,
}
use rescriptum.Boot.Tftp.Options.{tftp_blksize, negotiate}
use rescriptum.Boot.Tftp.Options.Bounds.{Within, negotiate-Within}
use rescriptum.Boot.Tftp.Packet.{data_packet, op_ack, words}
use rescriptum.Boot.Tftp.Path.{FilePath, FileSystem, resolve}
use rescriptum.Boot.Tftp.Path.Inside.{Inside, resolve-Inside}
use rescriptum.Boot.Tftp.Admission.{State, receive, end_transfer, idle}
use rescriptum.Boot.Tftp.Admission.Invariant.{
  Invariant, Reached, from_idle, received, ended, Reached-Invariant,
}
use rescriptum.Boot.Tftp.Transfer.{Network, Report, completed, send_loop, rounds, start_at}
use rescriptum.Boot.Tftp.Transfer.Blocks
use rescriptum.Boot.Tftp.Transfer.Cooperative.{Cooperative, send_loop_completes}
use rescriptum.Boot.Tftp.Transfer.Complete.{send_loop_ends, send_loop-delivers}

abbrev client : Address
client = record { ip = 10; port = 2000 }

abbrev stranger : Address
stranger = record { ip = 11; port = 2000 }

-- a silence first, and then the acknowledgements of the blocks 1, 2, ...
abbrev acks : ℕ → Event
acks zero = silence true
acks (suc n) = datagram client (0 ∷ 4 ∷ 0 ∷ suc n ∷ [])

abbrev noise : ℕ → Event
noise n = datagram stranger (0 ∷ 4 ∷ 0 ∷ 1 ∷ [])

acknowledged : (wait_for_ack acks 1 client client 0).ack ≡ ok
unfolding wait_for_ack
acknowledged = refl

wait_for_ack-Acknowledged_example :
    Acknowledged acks 1 client 0 max_retries (wait_for_ack acks 1 client client 0)
wait_for_ack-Acknowledged_example = wait_for_ack-Acknowledged acks 1 client client 0 acknowledged

wait_for_ack-Reads_example : Reads acks 0 0 max_retries (wait_for_ack acks 1 client client 0)
wait_for_ack-Reads_example = wait_for_ack-Reads acks 1 client client 0

wait_for_ack-Stray_example :
    wait_for_ack noise 1 client client 0
    ≡ record { ack = Ack.silent; reply_to = client; resent = 0; read = 6 }
wait_for_ack-Stray_example =
    wait_for_ack-Stray noise 1 client client 0
      (λ i. (stranger, 0 ∷ 4 ∷ 0 ∷ 1 ∷ [], refl, ground arith))

abbrev asked : List (Str × Str)
asked = (codes "blksize", codes "9000") ∷ (codes "windowsize", codes "4") ∷ []

capped : (negotiate (tftp_blksize none) 100 asked).block_size ≡ 1468
unfolding negotiate tftp_blksize
capped = refl

negotiate-Within_example :
    Within (tftp_blksize (some 1024)) (negotiate (tftp_blksize (some 1024)) 100 asked)
negotiate-Within_example = negotiate-Within (some 1024) 100 asked

abbrev root : FilePath
root = codes "srv" ∷ codes "boot" ∷ []

-- a file system without symbolic links, in which everything is a file
abbrev plain_files : FileSystem
plain_files = record { canonicalize = λ p. some p; is_file = λ p. true }

abbrev loader : FilePath
loader = codes "srv" ∷ codes "boot" ∷ codes "efi" ∷ codes "ipxe.efi" ∷ []

loader_resolves : resolve plain_files root (codes "/./efi//ipxe.efi") ≡ some loader
unfolding resolve
loader_resolves = refl

resolve-Inside_example : Inside plain_files root loader
resolve-Inside_example = resolve-Inside plain_files root (codes "/./efi//ipxe.efi") loader_resolves

climbing : resolve plain_files root (codes "../etc/passwd") ≡ none
unfolding resolve
climbing = refl

abbrev unicast : ℕ → Bool
unicast ip = false

abbrev anyone : ℕ → Bool
anyone ip = true

abbrev read_request : Bytes
read_request = 0 ∷ 1 ∷ codes "a"

abbrev after_two : State
after_two =
    end_transfer 0
      (receive unicast anyone (receive unicast anyone idle 10 read_request).0 11 read_request).0

two_reads : Reached unicast anyone after_two
two_reads = ended 0 (received 11 read_request (received 10 read_request from_idle))

Reached-Invariant_example : Invariant after_two
Reached-Invariant_example = Reached-Invariant two_reads

abbrev network : Network
network = record { events = acks; sendable = λ n. true }

-- what the transfer of five bytes in blocks of two reports
abbrev sent_all : Report
sent_all = record {
  outcome = completed;
  last = record {
    block = 3;
    sent = 5;
    reply_to = client;
    read = 4;
    packets =
        (0 ∷ 3 ∷ 0 ∷ 1 ∷ 7 ∷ 8 ∷ [])
        ∷ (0 ∷ 3 ∷ 0 ∷ 2 ∷ 9 ∷ 10 ∷ [])
        ∷ (0 ∷ 3 ∷ 0 ∷ 3 ∷ 11 ∷ [])
        ∷ [];
  };
}

abbrev five : Bytes
five = 7 ∷ 8 ∷ 9 ∷ 10 ∷ 11 ∷ []

reported : send_loop (rounds 2 five) network client 2 five (start_at client 0) ≡ some sent_all
unfolding send_loop data_packet
reported = refl

send_loop_ends_example :
    (r : Report) × (send_loop (rounds 2 five) network client 2 five (start_at client 0) ≡ some r)
send_loop_ends_example = send_loop_ends network client 2 five client 0 (ground arith)

send_loop-delivers_example : Blocks.received sent_all.last.packets ≡ five
send_loop-delivers_example =
    send_loop-delivers network client 2 five client 0 (ground arith) reported refl

-- the i-th event acknowledges the block after the i-th
abbrev ack_of : ℕ → Bytes
ack_of block = 0 ∷ 4 ∷ block / 256 ∷ block % 256 ∷ []

abbrev steady : ℕ → Event
steady i = datagram client (ack_of ((i + 1) % 65536))

abbrev steady_network : Network
steady_network = record { events = steady; sendable = λ n. true }

words-ack_of : (block : ℕ) → words (ack_of block) ≡ some (op_ack, block)
words-ack_of block = ap (λ b. some (op_ack, b)) (omega arith)

steady-Acknowledges :
    (i : ℕ) → (from : Address) × Acknowledges client ((i + 1) % 65536) from (steady (0 + i))
steady-Acknowledges i = (
  client,
  record {
    bytes = ack_of ((i + 1) % 65536);
    is_datagram = ap steady (omega arith);
    same_machine = refl;
    says_so = words-ack_of ((i + 1) % 65536);
  },
)

steady_Cooperative : Cooperative steady_network client 0
steady_Cooperative = record { acknowledges = steady-Acknowledges; sends = λ n. refl }

send_loop_completes_example :
    (r : Report) × (send_loop (rounds 2 five) steady_network client 2 five (start_at client 0)
      ≡ some r)
    × (r.outcome ≡ completed)
    × (Blocks.received r.last.packets ≡ five)
send_loop_completes_example =
    send_loop_completes steady_network client 2 five client 0 (ground arith) steady_Cooperative
