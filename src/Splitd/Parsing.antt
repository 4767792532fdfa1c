-- ===== src/Splitd/Parsing.antt =====
-- splitd/src/proc_events.rs: what `parse_messages` makes of the messages of the kernel, and that its
-- loop ends.
use proton_vpn_omarchy_core.Base.{
  ℕ, zero, suc, ◌+◌, ◌≤◌, ◌<◌, Bool, true, false, ◌||◌, List, [], ◌∷◌, ◌++◌, append_assoc, ◌≡◌,
  refl, sym, ap, ◌∙◌, inl, inr, Bool-cases, All, arith, length, leb, ltb, if-both, some, unwrap_or,
  map_some,
}
use proton_vpn_omarchy_core.Splitd.Engine.{ProcessEvent}
use proton_vpn_omarchy_core.Splitd.Connector.{
  Bytes, u32_at, message_event, aligned, with_event, parse_from, parse_messages, nlmsg_header,
  cn_header,
}
use proton_vpn_omarchy_core.Splitd.Frames.{
  length-append, Told, event, other, Message, connector_part, encode, encode_all, events_of,
  IsMessage,
}
use proton_vpn_omarchy_core.Splitd.Reading.{
  encode-append, length-encode, parse_from-step, told_event, message_onto,
}

module _ (little : Bool) where
  -- Too few bytes for a message.
  parse_from-short :
      (fuel : ℕ) (before b : Bytes)
      → length b < 36
      → parse_from little (before ++ b) (suc fuel) (length before) ≡ some []
  unfolding parse_from
  parse_from-short fuel before b h =
      let none_fits : leb (length before + nlmsg_header + cn_header) (length (before ++ b))
          ≡ false =
        too_short (length before) (length b) (length (before ++ b)) h (length-append before b) in
      rw none_fits refl
    where
      too_short : (o k n : ℕ) → k < 36 → n ≡ o + k → leb (o + nlmsg_header + cn_header) n ≡ false
      too_short o k n h e = ground arith

  parse_from-messages :
      (ms : List Message) (fuel : ℕ) (before rest : Bytes)
      → All (IsMessage little) ms
      → length ms < fuel
      → length rest < 36
      → parse_from little (before ++ (encode_all little ms ++ rest)) fuel (length before)
        ≡ some (events_of ms)
  unfolding encode_all
  parse_from-messages [] zero before rest h enough few = absurd (omega arith)
  parse_from-messages [] (suc fuel) before rest h enough few = parse_from-short fuel before rest few
  parse_from-messages (m ∷ ms) zero before rest h enough few = absurd (omega arith)
  parse_from-messages (m ∷ ms) (suc fuel) before rest h enough few =
      let b : Bytes = encode_all little ms ++ rest in
      let opened : before ++ ((encode little m ++ encode_all little ms) ++ rest)
          ≡ before ++ message_onto little m b =
        ap (λ t. before ++ t)
          (append_assoc (encode little m) (encode_all little ms) rest ∙ encode-append little m b) in
      let next : Bytes = before ++ encode little m in
      let joined : next ++ b ≡ before ++ message_onto little m b =
        append_assoc before (encode little m) b
        ∙ ap (λ t. before ++ t) (encode-append little m b) in
      let further : length next ≡ length before + (36 + length (connector_part little m)) =
        length-append before (encode little m)
        ∙ ap (λ n. length before + n) (length-encode little m h.0) in
      ap (λ t. parse_from little t (suc fuel) (length before)) opened
      ∙ parse_from-step little before m h.0 b fuel
      ∙ ap
          (λ o.
            map_some (with_event little (told_event little m.told))
              (parse_from little (before ++ message_onto little m b) fuel o))
          (sym further)
      ∙ ap
          (λ t.
            map_some (with_event little (told_event little m.told))
              (parse_from little t fuel (length next)))
          (sym joined)
      ∙ ap (map_some (with_event little (told_event little m.told)))
          (parse_from-messages ms fuel next rest h.1 (omega arith) few)
      ∙ ap some (of_told m.told)
    where
      of_told :
          (t : Told)
          → with_event little (told_event little t) (events_of ms)
            ≡ elim t [ event e ↦ e ∷ events_of ms | other what ↦ events_of ms ]
      of_told (event e) = refl
      of_told (other what) = refl

  length-encode_all-le :
      (ms : List Message) → All (IsMessage little) ms → length ms ≤ length (encode_all little ms)
  unfolding encode_all
  length-encode_all-le [] h = omega arith
  length-encode_all-le (m ∷ ms) h = omega (
    arith,
    length-append (encode little m) (encode_all little ms),
    length-encode little m h.0,
    length-encode_all-le ms h.1,
  )

-- Whatever the machine's order of bytes: of messages of the kernel one after the other, with fewer than
-- 36 bytes behind them, `parse_messages` gives the events that they tell of, in order, and leaves out
-- those of other kinds.
pub parse_messages-encode_all :
    (little : Bool) (ms : List Message) (rest : Bytes)
    → All (IsMessage little) ms
    → length rest < 36
    → parse_messages little (encode_all little ms ++ rest) ≡ events_of ms
unfolding parse_messages
parse_messages-encode_all little ms rest h few =
    ap (λ o. unwrap_or o [])
      (parse_from-messages little ms (suc (length (encode_all little ms ++ rest))) [] rest h
        (omega (arith, length-append (encode_all little ms) rest, length-encode_all-le little ms h))
        few)

holds : (o n : ℕ) → leb (o + nlmsg_header + cn_header) n ≡ true → o + 36 ≤ n
holds o n e = ground arith

moves :
    (little : Bool) (len o n : ℕ)
    → (ltb len (nlmsg_header + cn_header) || ltb n (o + len)) ≡ false
    → o + 36 ≤ o + aligned little len
moves little len o n e = let enough : 36 ≤ len = ground arith in omega arith

module _ (little : Bool) (b : Bytes) where
  -- From `offset` on the loop gives these events, whenever it has rounds enough to reach the end.
  abbrev Gives : ℕ → List ProcessEvent → Type 0
  Gives offset events =
      (fuel : ℕ)
      → 0 < fuel
      → length b < offset + fuel
      → parse_from little b fuel offset ≡ some events

  stops_short :
      (offset : ℕ) → leb (offset + nlmsg_header + cn_header) (length b) ≡ false → Gives offset []
  unfolding parse_from
  stops_short offset over zero some_left enough = absurd (omega arith)
  stops_short offset over (suc fuel) some_left enough = rw over refl

  stops_bad :
      (offset : ℕ)
      → (ltb (u32_at little b offset) (nlmsg_header + cn_header)
          || ltb (length b) (offset + u32_at little b offset))
        ≡ true
      → Gives offset []
  unfolding parse_from
  stops_bad offset bad zero some_left enough = absurd (omega arith)
  stops_bad offset bad (suc fuel) some_left enough = rw bad (
      if-both (λ o. o ≡ some []) (leb (offset + nlmsg_header + cn_header) (length b)) (some [])
        (some []) refl refl)

  goes_on :
      (offset : ℕ) (events : List ProcessEvent)
      → leb (offset + nlmsg_header + cn_header) (length b) ≡ true
      → (ltb (u32_at little b offset) (nlmsg_header + cn_header)
          || ltb (length b) (offset + u32_at little b offset))
        ≡ false
      → Gives (offset + aligned little (u32_at little b offset)) events
      → Gives offset
          (with_event little (message_event little b offset (u32_at little b offset)) events)
  unfolding parse_from
  goes_on offset events fits good rest zero some_left enough = absurd (omega arith)
  goes_on offset events fits good rest (suc fuel) some_left enough =
      let len = u32_at little b offset in
      let room = holds offset (length b) fits in
      let far = moves little len offset (length b) good in
      rw (fits, good)
        (ap (map_some (with_event little (message_event little b offset len)))
          (rest fuel (omega arith) (omega arith)))

  -- Each round that is not the last goes on by 36 bytes at least, so that `left` rounds are enough
  -- where fewer bytes than that are left.
  ends :
      (left offset : ℕ)
      → length b < offset + left
      → (events : List ProcessEvent) × Gives offset events
  ends zero offset h = ([], stops_short offset (beyond offset (length b) (omega arith)))
    where
      beyond : (o n : ℕ) → n < o → leb (o + nlmsg_header + cn_header) n ≡ false
      beyond o n e = ground arith
  ends (suc left) offset h =
      let len = u32_at little b offset in
      elim (Bool-cases (leb (offset + nlmsg_header + cn_header) (length b))) [
        | inr over ↦ ([], stops_short offset over)
        | inl fits ↦
            elim (Bool-cases
              (ltb len (nlmsg_header + cn_header) || ltb (length b) (offset + len))) [
                | inl bad ↦ ([], stops_bad offset bad)
                | inr good ↦
                    let far = moves little len offset (length b) good in
                    let (events, rest) = ends left (offset + aligned little len) (omega arith) in
                    (
                      with_event little (message_event little b offset len) events,
                      goes_on offset events fits good rest,
                    )
              ]
      ]

-- On any bytes, well formed or not, the loop of `parse_messages` comes to its end, with the events that
-- `parse_messages` gives, if it may make more rounds than there are bytes, however many.
pub parse_from-parse_messages :
    (little : Bool) (b : Bytes) (fuel : ℕ)
    → length b < fuel
    → parse_from little b fuel 0 ≡ some (parse_messages little b)
unfolding parse_messages
parse_from-parse_messages little b fuel h =
    let (events, given) = ends little b (suc (length b)) 0 (omega arith) in
    let first = given (suc (length b)) (omega arith) (omega arith) in
    given fuel (omega arith) (omega arith) ∙ sym (ap (λ o. some (unwrap_or o [])) first)
