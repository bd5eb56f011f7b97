-- ===== src/Ping.antt =====
-- icmpecho.c: an ICMP echo request, its checksum, and the state of the wait for its reply. The calls of
-- the system are arguments: what they return.
pub mod Checksum
use icmond.Prelude.{
  ℕ, zero, suc, ◌+◌, ◌*◌, ◌-◌, ◌/◌, ◌%◌, ◌^◌, Bool, true, false, if◌then◌else◌, ltb, List, [], ◌∷◌,
  ◌++◌, Option, none, some, ℤ, pos, ◌+ℤ◌, ◌-ℤ◌, ltb_ℤ, Run, ok, exited, ◌>>=◌,
}

-- `sum += ...` on a 32-bit unsigned int, over the 16-bit words of a little-endian machine and the last
-- byte of an odd length
unfoldable pub sum_words : ℕ → List ℕ → ℕ
sum_words sum [] = sum
sum_words sum (byte ∷ []) = (sum + byte) % 2 ^ 32
sum_words sum (low ∷ (high ∷ more)) = sum_words ((sum + (low + 256 * high)) % 2 ^ 32) more

-- The two lines that add the upper half to the lower one.
abbrev pub fold_carry : ℕ → ℕ
fold_carry sum = let once = sum / 65536 + sum % 65536 in (once + once / 65536) % 2 ^ 32

-- checksum(): the complement, as an unsigned short
unfoldable pub checksum : List ℕ → ℕ
unfolding sum_words
checksum bytes = (2 ^ 32 - 1 - fold_carry (sum_words 0 bytes)) % 65536

-- ICMP_ECHO
abbrev pub icmp_echo : ℕ
icmp_echo = 8

-- the two bytes of a field of the header
abbrev pub low_byte : ℕ → ℕ
low_byte n = n % 256

abbrev pub high_byte : ℕ → ℕ
high_byte n = n / 256 % 256

-- `payload[i] = i + '0'`, from an index on
unfoldable pub fill : ℕ → ℕ → List ℕ
fill zero i = []
fill (suc n) i = (i + b'0') % 256 ∷ fill n (i + 1)

-- ICMPECHO_PACKETSIZE - sizeof(struct icmphdr)
abbrev pub payload_size : ℕ
payload_size = 56

-- The bytes of struct packet_t, with its type, checksum, id and sequence number and its payload.
unfoldable pub packet : ℕ → ℕ → List ℕ
unfolding fill
packet check pid =
    icmp_echo
    ∷ (0
        ∷ (low_byte check
            ∷ (high_byte check
                ∷ (low_byte pid
                    ∷ (high_byte pid ∷ (1 ∷ (0 ∷ (fill (payload_size - 1) 0 ++ 0 ∷ []))))))))

-- The packet that icmp_prepare() makes: the checksum of the one whose checksum is zero is put into it.
unfoldable pub prepared_packet : ℕ → List ℕ
unfolding packet checksum
prepared_packet pid = packet (checksum (packet 0 pid)) pid

-- struct timespec
pub record Timespec : Type 0 where
  pub sec : ℤ
  pub nsec : ℤ

-- struct icmpecho_t, without its address
pub record Icmp : Type 0 where
  pub sendfd : ℕ
  pub recvfd : ℕ
  pub timeoutfd : ℕ
  pub timeoutspec : ℕ × ℕ
  pub sent_and_listening : Bool
  pub timesent : Timespec
  pub timerecv : Timespec
  pub packet_bytes : List ℕ

abbrev pub no_time : Timespec
no_time = record { sec = pos 0; nsec = pos 0 }

-- What the calls of icmp_prepare() return: the descriptors, if they can be made, and whether the host is
-- found and the two options can be set.
pub record Prepared : Type 0 where
  pub timerfd : Option ℕ
  pub host_found : Bool
  pub send_socket : Option ℕ
  pub ttl_set : Bool
  pub nonblocking_set : Bool
  pub recv_socket : Option ℕ

-- A value, or the process exits.
abbrev pub got {ℓ} : {A : Type ℓ} → Option A → Run A
got none = exited
got (some a) = ok a

abbrev pub need : Bool → Run Bool
need holds = if holds then ok true else exited

-- it_value for a timeout in milliseconds
abbrev pub ping_timeout : ℕ → ℕ × ℕ
ping_timeout timeout = (timeout / 1000, timeout % 1000 * 1000000)

-- icmp_prepare()
unfoldable pub icmp_prepare : Prepared → ℕ → ℕ → Run Icmp
unfolding prepared_packet
icmp_prepare s pid timeout = do
  timeoutfd ← got s.timerfd
  found ← need s.host_found
  sendfd ← got s.send_socket
  ttl ← need s.ttl_set
  nonblocking ← need s.nonblocking_set
  recvfd ← got s.recv_socket
  ok record {
    sendfd = sendfd;
    recvfd = recvfd;
    timeoutfd = timeoutfd;
    timeoutspec = ping_timeout timeout;
    sent_and_listening = false;
    timesent = no_time;
    timerecv = no_time;
    packet_bytes = prepared_packet pid;
  }

-- icmp_send(), at a time, where `sent` is whether sendto() sends something
unfoldable pub icmp_send : Timespec → Bool → Icmp → Run Icmp
icmp_send now sent icmp =
    let listening = record icmp { timesent = now; sent_and_listening = true } in
    if sent then ok listening else exited

-- icmp_receive(), at a time, where `received` is whether recvfrom() receives something
unfoldable pub icmp_receive : Timespec → Bool → Icmp → Run Icmp
icmp_receive now received icmp =
    let closed = record icmp {
      timerecv = now;
      sent_and_listening = false;
      sendfd = 0;
      recvfd = 0;
    } in
    if received then ok closed else exited

-- icmp_cancel()
unfoldable pub icmp_cancel : Icmp → Icmp
icmp_cancel icmp = record icmp {
  sent_and_listening = false;
  timesent = no_time;
  sendfd = 0;
  recvfd = 0;
}

-- icmp_getelapsed(), in nanoseconds, which the source divides into milliseconds
unfoldable pub icmp_getelapsed : Icmp → ℤ
icmp_getelapsed icmp =
    let seconds : ℤ → ℤ = λ s. scale s in
    if ltb_ℤ icmp.timerecv.nsec icmp.timesent.nsec
    then seconds (icmp.timerecv.sec -ℤ icmp.timesent.sec -ℤ pos 1)
      +ℤ (pos 1000000000 -ℤ (icmp.timesent.nsec -ℤ icmp.timerecv.nsec))
    else seconds (icmp.timerecv.sec -ℤ icmp.timesent.sec)
      +ℤ (icmp.timerecv.nsec -ℤ icmp.timesent.nsec)
  where
    scale : ℤ → ℤ
    scale (pos n) = pos (n * 1000000000)
    scale (ℤ.negsuc n) = ℤ.negsuc ((n + 1) * 1000000000 - 1)
