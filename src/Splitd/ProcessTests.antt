-- ===== src/Splitd/ProcessTests.antt =====
-- splitd/src/proc_events.rs and procfs.rs: runs on concrete frames and texts, and the theorems on them.
use proton_vpn_omarchy_core.Base.{
  some, ℕ, zero, suc, ◌<◌, ◌^◌, ◌%◌, true, false, List, [], ◌∷◌, ◌++◌, String, ◌≡◌, refl, inl, All,
  arith, length, all_chars,
}
use Prim.Native.String.{◌++◌ as append}
use proton_vpn_omarchy_core.Io.{ok}
use proton_vpn_omarchy_core.Splitd.Engine.{ProcessEvent, fork, exec, exit}
use proton_vpn_omarchy_core.Splitd.Connector.{
  Bytes, Receiver, datagram, receive, parse_from, parse_messages, u16_bytes, u32_bytes,
}
use proton_vpn_omarchy_core.Splitd.Frames.{
  Message, Told, event, other, HasNumbers, IsMessage, connector_part, encode_all,
}
use proton_vpn_omarchy_core.Splitd.Parsing.{parse_messages-encode_all, parse_from-parse_messages}
use proton_vpn_omarchy_core.Splitd.Lossless.{IsLossless, receive-IsLossless}
use proton_vpn_omarchy_core.Splitd.Procfs.{parse_uid, parse_ppid, parse_u32, behind_last}
use proton_vpn_omarchy_core.Splitd.Parents.{parse_ppid-stat}

abbrev zeros : ℕ → Bytes
zeros zero = []
zeros (suc n) = 0 ∷ zeros n

abbrev message : Told → Bytes → Message
message told tail = record {
  told = told;
  headers = zeros 28;
  flags = zeros 2;
  stamp = zeros 12;
  first_thread = 7 ∷ zeros 3;
  second_thread = 8 ∷ zeros 3;
  tail = tail;
}

abbrev some_messages : List Message
some_messages =
    message (event (exec 4242)) []
    ∷ message (event (fork 4242 4300)) (zeros 4)
    ∷ message (other 5) (zeros 8)
    ∷ message (event (exit 4300)) (zeros 8)
    ∷ []

abbrev some_events : List ProcessEvent
some_events = exec 4242 ∷ fork 4242 4300 ∷ exit 4300 ∷ []

message-IsMessage :
    (told : Told) (tail : Bytes)
    → HasNumbers told
    → length (connector_part true (message told tail)) < 2 ^ 16
    → length (connector_part true (message told tail)) % 4 ≡ 0
    → IsMessage true (message told tail)
message-IsMessage told tail n l a = record {
  headers_fit = refl;
  flags_fit = refl;
  stamp_fits = refl;
  first_fits = refl;
  second_fits = refl;
  numbers_fit = n;
  length_fits = l;
  ends_aligned = a;
}

some_messages-IsMessage : All (IsMessage true) some_messages
unfolding u32_bytes
some_messages-IsMessage = (
  message-IsMessage (event (exec 4242)) [] (omega arith) (omega arith) refl,
  (
    message-IsMessage (event (fork 4242 4300)) (zeros 4) (omega arith, omega arith) (omega arith)
        refl,
    (
      message-IsMessage (other 5) (zeros 8) (omega arith, refl, refl, refl) (omega arith) refl,
      (message-IsMessage (event (exit 4300)) (zeros 8) (omega arith) (omega arith) refl, tt),
    ),
  ),
)

parse_messages-encode_all_example :
    parse_messages true (encode_all true some_messages ++ zeros 5) ≡ some_events
parse_messages-encode_all_example =
    parse_messages-encode_all true some_messages (zeros 5) some_messages-IsMessage (omega arith)

abbrev some_bytes : Bytes
some_bytes = 255 ∷ 255 ∷ 0 ∷ 0 ∷ zeros 60

parse_from-parse_messages_example :
    parse_from true some_bytes 100 0 ≡ some (parse_messages true some_bytes)
parse_from-parse_messages_example = parse_from-parse_messages true some_bytes 100 (omega arith)

abbrev receiver : Receiver
receiver = record { queue = []; capacity = 2; closed = false; reconciliation_needed = false }

receive-IsLossless_example :
    IsLossless receiver some_events
      (receive true (datagram (encode_all true some_messages ++ zeros 5)) receiver).0
receive-IsLossless_example =
    receive-IsLossless true some_messages (zeros 5) receiver some_messages-IsMessage refl
      (inl (omega arith))

-- The frame of the test in the source.
exec_frame :
    parse_messages true (
      u32_bytes true 60
      ++ (zeros 28
          ++ (u16_bytes true 24
              ++ (zeros 2 ++ (u32_bytes true 2 ++ (zeros 16 ++ u32_bytes true 4242))))))
    ≡ exec 4242 ∷ []
unfolding parse_messages u32_bytes u16_bytes
exec_frame = refl

-- A thread of process 4242 ends, and the process goes on: it is taken for the end of the process.
thread_end_taken :
    parse_messages true (
      u32_bytes true 76
      ++ (zeros 28
          ++ (u16_bytes true 40
              ++ (zeros 2
                  ++ (u32_bytes true 0x80000000
                      ++ (zeros 12
                          ++ (u32_bytes true 4243 ++ (u32_bytes true 4242 ++ zeros 16))))))))
    ≡ exit 4242 ∷ []
unfolding parse_messages u32_bytes u16_bytes
thread_end_taken = refl

odd_name : parse_ppid "42 (odd ) name) S 17 0 0 0" ≡ ok 17
unfolding parse_ppid
odd_name = refl

uid_read : parse_uid "Name:\tcat\nUid:\t1000\t1000\t1000\t1000\n" ≡ ok 1000
unfolding parse_uid
uid_read = refl

parse_ppid-stat_example :
    parse_ppid (
      append "42 (odd ) name" (
        String.◌∷◌ ")"
          (String.◌∷◌ " " (append "S" (String.◌∷◌ " " (append "17" (String.◌∷◌ " " "0 0 0")))))))
    ≡ ok 17
unfolding behind_last parse_u32 all_chars
parse_ppid-stat_example =
    parse_ppid-stat "42 (odd ) name" "S" "17" "0 0 0" 17 (refl, refl) (refl, refl) refl refl
