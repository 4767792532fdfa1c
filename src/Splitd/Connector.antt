-- ===== src/Splitd/Connector.antt =====
-- splitd/src/proc_events.rs: the frames of the kernel's process connector. The order of the bytes of a
-- number is that of the machine (`from_ne_bytes`): a parameter.
use proton_vpn_omarchy_core.Base.{
  ℕ, zero, suc, ◌+◌, ◌*◌, ◌/◌, ◌%◌, Bool, true, false, ◌&&◌, ◌||◌, ◌==◌, List, [], ◌∷◌, ◌++◌,
  Option, none, some, length, take, leb, ltb, map_some, unwrap_or, if◌then◌else◌,
}
use proton_vpn_omarchy_core.Splitd.Engine.{ProcessEvent, fork, exec, exit}

abbrev pub proc_event_fork : ℕ
proc_event_fork = 1

abbrev pub proc_event_exec : ℕ
proc_event_exec = 2

abbrev pub proc_event_exit : ℕ
proc_event_exit = 0x80000000

abbrev pub nlmsg_header : ℕ
nlmsg_header = 16

abbrev pub cn_header : ℕ
cn_header = 20

abbrev pub Bytes : Type 0
Bytes = List ℕ

abbrev pub drop : ℕ → Bytes → Bytes
drop zero b = b
drop (suc n) [] = []
drop (suc n) (x ∷ b) = drop n b

-- `get(offset..offset + width)`.
unfoldable pub slice : Bytes → ℕ → ℕ → Option Bytes
slice b offset width =
    if leb (offset + width) (length b) then some (take width (drop offset b)) else none

module _ (little : Bool) where
  -- `u16::from_ne_bytes` and `u32::from_ne_bytes`, and their inverses.
  unfoldable pub u16_of : Bytes → ℕ
  u16_of (a ∷ b ∷ []) = if little then a + 256 * b else b + 256 * a
  u16_of _ = 0

  unfoldable pub u32_of : Bytes → ℕ
  u32_of (a ∷ b ∷ c ∷ d ∷ []) =
      if little then a + 256 * (b + 256 * (c + 256 * d)) else d + 256 * (c + 256 * (b + 256 * a))
  u32_of _ = 0

  unfoldable pub u16_bytes : ℕ → Bytes
  u16_bytes n =
      if little then (n % 256) ∷ (n / 256 % 256) ∷ [] else (n / 256 % 256) ∷ (n % 256) ∷ []

  unfoldable pub u32_bytes : ℕ → Bytes
  u32_bytes n =
      if little
      then (n % 256) ∷ (n / 256 % 256) ∷ (n / 65536 % 256) ∷ (n / 16777216 % 256) ∷ []
      else (n / 16777216 % 256) ∷ (n / 65536 % 256) ∷ (n / 256 % 256) ∷ (n % 256) ∷ []

  unfoldable pub get_u16 : Bytes → ℕ → Option ℕ
  unfolding slice u16_of
  get_u16 b offset = map_some u16_of (slice b offset 2)

  unfoldable pub get_u32 : Bytes → ℕ → Option ℕ
  unfolding slice u32_of
  get_u32 b offset = map_some u32_of (slice b offset 4)

  abbrev pub u32_at : Bytes → ℕ → ℕ
  u32_at b offset = unwrap_or (get_u32 b offset) 0

  -- The event at `payload`, if it is one of the three kinds.
  unfoldable pub event_at : Bytes → ℕ → Option ProcessEvent
  unfolding get_u32
  event_at b payload =
      let what = u32_at b payload in
      let data_ = payload + 16 in
      if what == proc_event_fork
      then some (fork (u32_at b (data_ + 4)) (u32_at b (data_ + 12)))
      else if what == proc_event_exec
      then some (exec (u32_at b (data_ + 4)))
      else if what == proc_event_exit
      then some (exit (u32_at b (data_ + 4)))
      else none

  -- The event of the message of `length` bytes at `offset`, if the connector's part holds one.
  unfoldable pub message_event : Bytes → ℕ → ℕ → Option ProcessEvent
  unfolding get_u16 event_at
  message_event b offset len =
      let payload = offset + nlmsg_header + cn_header in
      let cn_length = unwrap_or (get_u16 b (offset + nlmsg_header + 16)) 0 in
      if leb 16 cn_length && leb (payload + cn_length) (offset + len)
      then event_at b payload
      else none

  abbrev pub with_event : Option ProcessEvent → List ProcessEvent → List ProcessEvent
  with_event none events = events
  with_event (some e) events = e ∷ events

  -- `(length + 3) & !3`.
  abbrev pub aligned : ℕ → ℕ
  aligned n = (n + 3) / 4 * 4

  -- The loop, in so many rounds at most: nothing is given if they are not enough.
  unfoldable pub parse_from : Bytes → ℕ → ℕ → Option (List ProcessEvent)
  unfolding get_u32 message_event
  parse_from b zero offset = none
  parse_from b (suc fuel) offset =
      let len = u32_at b offset in
      let rest = parse_from b fuel (offset + aligned len) in
      if leb (offset + nlmsg_header + cn_header) (length b)
      then (if ltb len (nlmsg_header + cn_header) || ltb (length b) (offset + len)
          then some []
          else map_some (with_event (message_event b offset len)) rest)
      else some []

  -- More rounds than there are bytes are always enough (Parsing).
  unfoldable pub parse_messages : Bytes → List ProcessEvent
  unfolding parse_from
  parse_messages b = unwrap_or (parse_from b (suc (length b)) 0) []

-- What `recv` gives: bytes, or an error, which may be that nothing came in time.
pub data Received : Type 0 where
  datagram : Bytes → Received
  nothing_came broken : Received

-- The channel to the engine, and the flag that asks for a scan of all processes.
pub record Receiver : Type 0 where
  pub queue : List ProcessEvent
  pub capacity : ℕ
  pub closed : Bool
  pub reconciliation_needed : Bool

abbrev pub buffer_size : ℕ
buffer_size = 16384

abbrev pub with_scan : Receiver → Receiver
with_scan r = record r { reconciliation_needed = true }

-- `try_send` to an open channel.
abbrev pub queued : ProcessEvent → Receiver → Receiver
queued e r =
    if ltb (length r.queue) r.capacity then record r { queue = r.queue ++ e ∷ [] } else with_scan r

-- `try_send` of each event in turn, and whether the loop is left.
unfoldable pub send_events : List ProcessEvent → Receiver → Receiver × Bool
send_events [] r = (r, false)
send_events (e ∷ es) r = elim r.closed [ true ↦ (r, true) | false ↦ send_events es (queued e r) ]

-- One round of `receive_loop`.
unfoldable pub receive : Bool → Received → Receiver → Receiver × Bool
unfolding parse_messages send_events
receive little nothing_came r = (r, false)
receive little broken r = (with_scan r, false)
receive little (datagram b) r =
    send_events (parse_messages little b) (if length b == buffer_size then with_scan r else r)
