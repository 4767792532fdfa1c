-- ===== src/Splitd/Lossless.antt =====
-- splitd/src/proc_events.rs: no event is lost without a scan being asked for.
use proton_vpn_omarchy_core.Base.{
  ◌<◌, Bool, true, false, List, [], ◌∷◌, ◌++◌, append-nil, append_assoc, ◌≡◌, refl, sym, subst, ◌∙◌,
  ◌⊎◌, inl, inr, All, length, ltb, ◌==◌, if◌then◌else◌, if-both, ==_iff,
}
use proton_vpn_omarchy_core.Splitd.Engine.{ProcessEvent}
use proton_vpn_omarchy_core.Splitd.Connector.{
  Bytes, Receiver, send_events, queued, receive, datagram, with_scan, buffer_size, parse_messages,
}
use proton_vpn_omarchy_core.Splitd.Frames.{Message, IsMessage, encode_all, events_of}
use proton_vpn_omarchy_core.Splitd.Parsing.{parse_messages-encode_all}

-- A scan is asked for, or the events stand in the queue, in order, behind those before.
abbrev pub IsLossless : Receiver → List ProcessEvent → Receiver → Type 0
IsLossless r es s = (s.reconciliation_needed ≡ true) ⊎ (s.queue ≡ r.queue ++ es)

send_events-flagged :
    (es : List ProcessEvent) (r : Receiver)
    → r.reconciliation_needed ≡ true
    → (send_events es r).0.reconciliation_needed ≡ true
unfolding send_events
send_events-flagged [] r h = h
send_events-flagged (e ∷ es) r h =
    elim r.closed
      as (λ c.
        (elim c as (λ _. Receiver × Bool) [
          | true ↦ (r, true)
          | false ↦ send_events es (queued e r)
        ]).0.reconciliation_needed
        ≡ true) [
          | true ↦ h
          | false ↦ send_events-flagged es (queued e r) (
              if-both (λ s. s.reconciliation_needed ≡ true) (ltb (length r.queue) r.capacity)
                (record r { queue = r.queue ++ e ∷ [] }) (with_scan r) h refl)
        ]

send_events-IsLossless :
    (es : List ProcessEvent) (r : Receiver)
    → r.closed ≡ false
    → IsLossless r es (send_events es r).0
unfolding send_events
send_events-IsLossless [] r c = inr (sym (append-nil r.queue))
send_events-IsLossless (e ∷ es) r c =
    subst
      (λ b.
        IsLossless r (e ∷ es)
          (elim b as (λ _. Receiver × Bool) [
            | true ↦ (r, true)
            | false ↦ send_events es (queued e r)
          ]).0)
      (sym c)
      (elim (ltb (length r.queue) r.capacity)
        as (λ room.
          IsLossless r (e ∷ es)
            (send_events es
              (if room then record r { queue = r.queue ++ e ∷ [] } else with_scan r)).0) [
                | false ↦ inl (send_events-flagged es (with_scan r) refl)
                | true ↦
                    elim (send_events-IsLossless es (record r { queue = r.queue ++ e ∷ [] }) c) [
                      | inl flagged ↦ inl flagged
                      | inr sent ↦ inr (sent ∙ append_assoc r.queue (e ∷ []) es)
                    ]
              ])

-- While the channel is open, a datagram of messages of the kernel is taken as a whole or a scan of all
-- processes is asked for: when the queue is full, and when the datagram fills the buffer, so that it
-- may have been cut off.
pub receive-IsLossless :
    (little : Bool) (ms : List Message) (rest : Bytes) (r : Receiver)
    → All (IsMessage little) ms
    → r.closed ≡ false
    → (length rest < 36) ⊎ (length (encode_all little ms ++ rest) ≡ buffer_size)
    → IsLossless r (events_of ms) (receive little (datagram (encode_all little ms ++ rest)) r).0
unfolding receive
receive-IsLossless little ms rest r h open_ (inr full) =
    let cut : (length (encode_all little ms ++ rest) == buffer_size) ≡ true =
      (==_iff (length (encode_all little ms ++ rest)) buffer_size).1 full in
    inl (
      rw cut (
        send_events-flagged (parse_messages little (encode_all little ms ++ rest)) (with_scan r)
          refl))
receive-IsLossless little ms rest r h open_ (inl few) =
    rw (parse_messages-encode_all little ms rest h few)
      (of_full (length (encode_all little ms ++ rest) == buffer_size))
  where
    of_full :
        (b : Bool)
        → IsLossless r (events_of ms) (send_events (events_of ms) (if b then with_scan r else r)).0
    of_full true = inl (send_events-flagged (events_of ms) (with_scan r) refl)
    of_full false = send_events-IsLossless (events_of ms) r open_
