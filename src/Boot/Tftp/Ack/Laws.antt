-- ===== src/Boot/Tftp/Ack/Laws.antt =====
-- What the wait for an acknowledgement promises.
use rescriptum.Prelude.{
  ℕ, zero, suc, ◌+◌, ◌≤◌, ◌<◌, Bool, true, false, Option, none, some, Bytes, ◌==◌, ==_iff, ◌≡◌, ◌≢◌,
  refl, ap, ◌∙◌, arith, inl, inr, Bool-cases,
}
use rescriptum.Boot.Tftp.Packet.{op_ack, words}
use rescriptum.Boot.Tftp.Ack.{
  Address, Event, datagram, failed, silence, ok, silent, Wait, Verdict, finish, ignore, judge,
  of_words, on_event, count_if, wait_loop, wait_for_ack, max_retries,
}

-- The acknowledgement of `block`, from the machine that asked.
pub record Acknowledges (peer : Address) (block : ℕ) (from : Address) (e : Event) : Type 0 where
  pub bytes : Bytes
  pub is_datagram : e ≡ datagram from bytes
  pub same_machine : from.ip ≡ peer.ip
  pub says_so : words bytes ≡ some (op_ack, block)

-- how many of `n` events from the place `i` on are silences after which the packet was sent again
abbrev resend : Event → ℕ
resend (silence true) = 1
resend (silence false) = 0
resend (datagram _ _) = 0
resend failed = 0

abbrev pub resends : (ℕ → Event) → ℕ → ℕ → ℕ
resends events i zero = 0
resends events i (suc n) = resend (events i) + resends events (i + 1) n

-- what the outcome of one event says
abbrev Explains : ℕ → Address → Address → Event → Verdict × Address × Bool → Type 0
Explains block peer reply_to e (verdict, to, again) =
    (verdict ≡ finish ok → Acknowledges peer block to e)
    × (reply_to.ip ≡ peer.ip → to.ip ≡ peer.ip)
    × (count_if again 0 ≡ resend e)

judge_ok :
    (block opcode acked : ℕ)
    → judge block opcode acked ≡ finish ok
    → (opcode ≡ op_ack) × (acked ≡ block)
unfolding judge
judge_ok block opcode acked h = ground arith

of_words-Explains :
    (o : Option (ℕ × ℕ)) (block : ℕ) (peer reply_to from : Address) (bytes : Bytes)
    → words bytes ≡ o
    → Explains block peer reply_to (datagram from bytes) (of_words o block peer reply_to from)
of_words-Explains none block peer reply_to from bytes e = (λ h. cc, λ h. h, refl)
of_words-Explains (some (opcode, acked)) block peer reply_to from bytes e =
    elim (Bool-cases (from.ip == peer.ip)) [
      | inr other ↦ rw other (λ h. cc, λ h. h, refl)
      | inl same ↦ rw same (
        λ h. record {
          bytes = bytes;
          is_datagram = refl;
          same_machine = (==_iff from.ip peer.ip).0 same;
          says_so = let (is_ack, is_block) = judge_ok block opcode acked h in cc;
        },
        λ h. (==_iff from.ip peer.ip).0 same,
        refl,
      )
    ]

on_event-Explains :
    (e : Event) (block : ℕ) (peer reply_to : Address)
    → Explains block peer reply_to e (on_event block peer reply_to e)
unfolding on_event
on_event-Explains (datagram from bytes) block peer reply_to =
    of_words-Explains (words bytes) block peer reply_to from bytes refl
on_event-Explains failed block peer reply_to = (λ h. cc, λ h. h, refl)
on_event-Explains (silence true) block peer reply_to = (λ h. cc, λ h. h, refl)
on_event-Explains (silence false) block peer reply_to = (λ h. cc, λ h. h, refl)

-- What a whole wait says, from the place `start` on, with `resent` packets sent again before.
pub record Reads (events : ℕ → Event) (start resent n : ℕ) (w : Wait) : Type 0 where
  pub seen : ℕ
  pub read_is : w.read ≡ start + seen
  pub seen_le : seen ≤ n
  pub resent_is : w.resent ≡ resent + resends events start seen

count_if_add : (b : Bool) (n : ℕ) → count_if b n ≡ n + count_if b 0
count_if_add true n = ground arith
count_if_add false n = ground arith

after_event-Reads :
    (o : Verdict × Address × Bool) (n : ℕ) (events : ℕ → Event) (block : ℕ)
    (peer reply_to : Address) (resent read : ℕ)
    → on_event block peer reply_to (events read) ≡ o
    → ((to : Address) (again : ℕ)
        → Reads events (read + 1) again n (wait_loop n events block peer to again (read + 1)))
    → Reads events read resent (suc n) (wait_loop (suc n) events block peer reply_to resent read)
unfolding wait_loop
after_event-Reads (finish ack, to, again) n events block peer reply_to resent read e ih =
    let (a, b, counted) = rw e at (on_event-Explains (events read) block peer reply_to) in
    rw (e, wait_loop)
      (record {
        seen = 1;
        read_is = refl;
        seen_le = ground arith;
        resent_is = count_if_add again resent ∙ (ground (arith));
      })
after_event-Reads (ignore, to, again) n events block peer reply_to resent read e ih =
    let (a, b, counted) = rw e at (on_event-Explains (events read) block peer reply_to) in
    let rest = ih to (count_if again resent) in
    let more = count_if_add again resent in
    rw (e, wait_loop)
      (record {
        seen = suc rest.seen;
        read_is = rest.read_is ∙ (ground arith);
        seen_le = (ground (arith, rest.seen_le));
        resent_is = rest.resent_is ∙ (ground arith);
      })

wait_loop-Reads :
    (n : ℕ) (events : ℕ → Event) (block : ℕ) (peer reply_to : Address) (resent read : ℕ)
    → Reads events read resent n (wait_loop n events block peer reply_to resent read)
unfolding wait_loop
wait_loop-Reads zero events block peer reply_to resent read = record {
  seen = 0;
  read_is = ground arith;
  seen_le = ground arith;
  resent_is = ground arith;
}
wait_loop-Reads (suc n) events block peer reply_to resent read =
    after_event-Reads (on_event block peer reply_to (events read)) n events block peer reply_to
      resent read refl (λ to again. wait_loop-Reads n events block peer to again (read + 1))

-- However the events fall, the wait reads at most six of them, and the packet is sent again once
-- for each silence among the events read after which sending succeeds, and for nothing else: no
-- datagram is answered with the packet.
pub wait_for_ack-Reads :
    (events : ℕ → Event) (block : ℕ) (peer reply_to : Address) (read : ℕ)
    → Reads events read 0 max_retries (wait_for_ack events block peer reply_to read)
unfolding wait_for_ack
wait_for_ack-Reads events block peer reply_to read =
    wait_loop-Reads max_retries events block peer reply_to 0 read

-- Where a wait ended with the acknowledgement: the event at `place` was it.
pub record Acknowledged (events : ℕ → Event) (block : ℕ) (peer : Address) (read n : ℕ) (w : Wait)
    : Type 0 where
  pub place : ℕ
  pub read_is : w.read ≡ place + 1
  pub not_before : read ≤ place
  pub in_time : place < read + n
  pub event : Acknowledges peer block w.reply_to (events place)

after_event-Acknowledged :
    (o : Verdict × Address × Bool) (n : ℕ) (events : ℕ → Event) (block : ℕ)
    (peer reply_to : Address) (resent read : ℕ)
    → on_event block peer reply_to (events read) ≡ o
    → (wait_loop (suc n) events block peer reply_to resent read).ack ≡ ok
    → ((to : Address) (again : ℕ)
        → (wait_loop n events block peer to again (read + 1)).ack ≡ ok
        → Acknowledged events block peer
            (read + 1)
            n
            (wait_loop n events block peer to again (read + 1)))
    → Acknowledged events block peer read
        (suc n)
        (wait_loop (suc n) events block peer reply_to resent read)
unfolding wait_loop
after_event-Acknowledged (finish ack, to, again) n events block peer reply_to resent read e h ih =
    let (says, same, counted) = rw e at (on_event-Explains (events read) block peer reply_to) in
    let is_ok : ack ≡ ok = rw (e, wait_loop) at h in
    rw (e, wait_loop)
      (record {
        place = read;
        read_is = refl;
        not_before = ground arith;
        in_time = ground arith;
        event = says (ap finish is_ok);
      })
after_event-Acknowledged (ignore, to, again) n events block peer reply_to resent read e h ih =
    let rest = ih to (count_if again resent) (rw (e, wait_loop) at h) in
    rw (e, wait_loop)
      (record {
        place = rest.place;
        read_is = rest.read_is;
        not_before = ground (arith, rest.not_before);
        in_time = ground (arith, rest.in_time);
        event = rest.event;
      })

wait_loop-Acknowledged :
    (n : ℕ) (events : ℕ → Event) (block : ℕ) (peer reply_to : Address) (resent read : ℕ)
    → (wait_loop n events block peer reply_to resent read).ack ≡ ok
    → Acknowledged events block peer read n (wait_loop n events block peer reply_to resent read)
unfolding wait_loop
wait_loop-Acknowledged zero events block peer reply_to resent read h = cc
wait_loop-Acknowledged (suc n) events block peer reply_to resent read h =
    after_event-Acknowledged (on_event block peer reply_to (events read)) n events block peer
      reply_to resent read refl h
      (λ to again. wait_loop-Acknowledged n events block peer to again (read + 1))

-- A wait that reports the acknowledgement has read, among its at most six events and as the last
-- of them, an ACK of exactly the block it waited for, from the machine of the peer; replies then
-- go to the address that ACK came from.
pub wait_for_ack-Acknowledged :
    (events : ℕ → Event) (block : ℕ) (peer reply_to : Address) (read : ℕ)
    → (wait_for_ack events block peer reply_to read).ack ≡ ok
    → Acknowledged events block peer read max_retries (wait_for_ack events block peer reply_to read)
unfolding wait_for_ack
wait_for_ack-Acknowledged events block peer reply_to read h =
    wait_loop-Acknowledged max_retries events block peer reply_to 0 read h

-- a datagram from another machine
abbrev pub Stray : Address → Event → Type 0
Stray peer e = (from : Address) × (bytes : Bytes) × (e ≡ datagram from bytes) × (from.ip ≢ peer.ip)

of_words-stray :
    (o : Option (ℕ × ℕ)) (block : ℕ) (peer reply_to from : Address)
    → from.ip ≢ peer.ip
    → of_words o block peer reply_to from ≡ (ignore, reply_to, false)
of_words-stray none block peer reply_to from h = refl
of_words-stray (some (opcode, acked)) block peer reply_to from h =
    let other : (from.ip == peer.ip) ≡ false = ground arith in rw other refl

on_event-Stray :
    (e : Event) (block : ℕ) (peer reply_to : Address)
    → Stray peer e
    → on_event block peer reply_to e ≡ (ignore, reply_to, false)
unfolding on_event
on_event-Stray e block peer reply_to (from, bytes, is_datagram, other) =
    ap (on_event block peer reply_to) is_datagram
    ∙ of_words-stray (words bytes) block peer reply_to from other

wait_loop-Stray :
    (n : ℕ) (events : ℕ → Event) (block : ℕ) (peer reply_to : Address) (resent read : ℕ)
    → ((i : ℕ) → Stray peer (events i))
    → wait_loop n events block peer reply_to resent read
      ≡ record { ack = silent; reply_to = reply_to; resent = resent; read = read + n }
unfolding wait_loop
wait_loop-Stray zero events block peer reply_to resent read stray =
    ap (λ x. record { ack = silent; reply_to = reply_to; resent = resent; read = x }) (ground arith)
wait_loop-Stray (suc n) events block peer reply_to resent read stray =
    rw (on_event-Stray (events read) block peer reply_to (stray read), wait_loop)
      (wait_loop-Stray n events block peer reply_to resent (read + 1) stray
        ∙ ap (λ x. record { ack = silent; reply_to = reply_to; resent = resent; read = x })
            (ground arith))

-- If every event is a datagram from another machine, so that there is no silence among the events,
-- a wait ends as silent after six of them with the packet sent again not once: stray datagrams use
-- up the retries.
pub wait_for_ack-Stray :
    (events : ℕ → Event) (block : ℕ) (peer reply_to : Address) (read : ℕ)
    → ((i : ℕ) → Stray peer (events i))
    → wait_for_ack events block peer reply_to read
      ≡ record { ack = silent; reply_to = reply_to; resent = 0; read = read + 6 }
unfolding wait_for_ack
wait_for_ack-Stray events block peer reply_to read stray =
    wait_loop-Stray max_retries events block peer reply_to 0 read stray
