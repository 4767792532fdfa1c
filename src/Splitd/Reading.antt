-- ===== src/Splitd/Reading.antt =====
-- splitd/src/proc_events.rs: how the loop of `parse_messages` reads one message of the kernel.
use proton_vpn_omarchy_core.Base.{
  map_some, ℕ, suc, ◌+◌, ◌%◌, ◌^◌, ◌≤◌, ◌<◌, Bool, true, false, ◌||◌, List, [], ◌∷◌, ◌++◌,
  append_assoc, Option, none, some, ◌≡◌, refl, sym, ap, ◌∙◌, arith, length, leb, ltb, unwrap_or,
}
use proton_vpn_omarchy_core.Splitd.Engine.{ProcessEvent, fork, exec, exit}
use proton_vpn_omarchy_core.Splitd.Connector.{
  Bytes, slice, u16_bytes, u32_bytes, get_u16, get_u32, u32_at, event_at, message_event, aligned,
  with_event, parse_from, nlmsg_header, cn_header, proc_event_fork, proc_event_exec,
  proc_event_exit,
}
use proton_vpn_omarchy_core.Splitd.Frames.{
  onto, total, length-append, slice-here, slice-onto, u32_of-u32_bytes, u16_of-u16_bytes,
  length-u32_bytes, length-u16_bytes, Told, event, other, Message, what_of, told_part,
  connector_part, encode, HasNumbers, IsMessage,
}

seven_parts :
    (a b c d e f t x : Bytes)
    → (a ++ (b ++ (c ++ (d ++ (e ++ (f ++ t)))))) ++ x
      ≡ a ++ (b ++ (c ++ (d ++ (e ++ (f ++ (t ++ x))))))
seven_parts a b c d e f t x = simp append_assoc refl

length_of_four :
    (a b c d e : Bytes)
    → length a ≡ 4
    → length b ≡ 28
    → length c ≡ 2
    → length d ≡ 2
    → length (a ++ (b ++ (c ++ (d ++ e)))) ≡ 36 + length e
length_of_four a b c d e ha hb hc hd = omega (
  arith,
  length-append a (b ++ (c ++ (d ++ e))),
  length-append b (c ++ (d ++ e)),
  length-append c (d ++ e),
  length-append d e,
)

module _ (little : Bool) where
  u32_at-onto :
      (segments : List Bytes) (n : ℕ) (b : Bytes) (i : ℕ)
      → i ≡ total segments
      → n < 2 ^ 32
      → u32_at little (onto segments (u32_bytes little n ++ b)) i ≡ n
  unfolding get_u32
  u32_at-onto segments n b i e h =
      let found : slice (onto segments (u32_bytes little n ++ b)) i 4 ≡ some (u32_bytes little n) =
        slice-onto segments (u32_bytes little n ++ b) i 4 0 (omega arith)
        ∙ slice-here (u32_bytes little n) b 4 (length-u32_bytes little n) in
      rw found (u32_of-u32_bytes little n h)

  u16_at-onto :
      (segments : List Bytes) (n : ℕ) (b : Bytes) (i : ℕ)
      → i ≡ total segments
      → n < 2 ^ 16
      → unwrap_or (get_u16 little (onto segments (u16_bytes little n ++ b)) i) 0 ≡ n
  unfolding get_u16
  u16_at-onto segments n b i e h =
      let found : slice (onto segments (u16_bytes little n ++ b)) i 2 ≡ some (u16_bytes little n) =
        slice-onto segments (u16_bytes little n ++ b) i 2 0 (omega arith)
        ∙ slice-here (u16_bytes little n) b 2 (length-u16_bytes little n) in
      rw found (u16_of-u16_bytes little n h)

  -- A message before the rest of a buffer, part by part.
  abbrev told_onto : Message → Told → Bytes → Bytes
  told_onto m (event (fork parent child)) b =
      m.first_thread
      ++ (u32_bytes little parent ++ (m.second_thread ++ (u32_bytes little child ++ (m.tail ++ b))))
  told_onto m (event (exec pid)) b = m.first_thread ++ (u32_bytes little pid ++ (m.tail ++ b))
  told_onto m (event (exit pid)) b = m.first_thread ++ (u32_bytes little pid ++ (m.tail ++ b))
  told_onto m (other what) b = m.tail ++ b

  told_part-append :
      (m : Message) (t : Told) (b : Bytes) → told_part little m t ++ b ≡ told_onto m t b
  told_part-append m (event (fork parent child)) b = simp append_assoc refl
  told_part-append m (event (exec pid)) b = simp append_assoc refl
  told_part-append m (event (exit pid)) b = simp append_assoc refl
  told_part-append m (other what) b = refl

  abbrev pub message_onto : Message → Bytes → Bytes
  message_onto m b =
      u32_bytes little (36 + length (connector_part little m))
      ++ (m.headers
          ++ (u16_bytes little (length (connector_part little m))
              ++ (m.flags
                  ++ (u32_bytes little (what_of m.told) ++ (m.stamp ++ told_onto m m.told b)))))

  pub encode-append : (m : Message) (b : Bytes) → encode little m ++ b ≡ message_onto m b
  unfolding encode
  encode-append m b =
      seven_parts (u32_bytes little (36 + length (connector_part little m))) m.headers
        (u16_bytes little (length (connector_part little m))) m.flags
        (u32_bytes little (what_of m.told)) m.stamp (told_part little m m.told) b
      ∙ ap
          (λ t.
            u32_bytes little (36 + length (connector_part little m))
            ++ (m.headers
                ++ (u16_bytes little (length (connector_part little m))
                    ++ (m.flags ++ (u32_bytes little (what_of m.told) ++ (m.stamp ++ t))))))
          (told_part-append m m.told b)

  pub length-encode :
      (m : Message)
      → IsMessage little m
      → length (encode little m) ≡ 36 + length (connector_part little m)
  unfolding encode
  length-encode m h =
      length_of_four (u32_bytes little (36 + length (connector_part little m))) m.headers
        (u16_bytes little (length (connector_part little m))) m.flags (connector_part little m)
        (length-u32_bytes little (36 + length (connector_part little m))) h.headers_fit
        (length-u16_bytes little (length (connector_part little m))) h.flags_fit

  -- The event at the place of its number in a buffer.
  abbrev pub told_event : Told → Option ProcessEvent
  told_event (event e) = some e
  told_event (other what) = none

  module _ (before : Bytes) (m : Message) (h : IsMessage little m) (b : Bytes) where
    -- The parts up to the connector's own.
    abbrev head_parts : List Bytes → List Bytes
    head_parts more =
        before
        ∷ u32_bytes little (36 + length (connector_part little m))
        ∷ m.headers
        ∷ u16_bytes little (length (connector_part little m))
        ∷ m.flags
        ∷ more

    head_total : (more : List Bytes) → total (head_parts more) ≡ length before + (36 + total more)
    head_total more = omega (
      arith,
      length-u32_bytes little (36 + length (connector_part little m)),
      length-u16_bytes little (length (connector_part little m)),
      h.headers_fit,
      h.flags_fit,
    )

    abbrev told_buffer : Told → Bytes
    told_buffer t =
        onto (head_parts []) (u32_bytes little (what_of t) ++ (m.stamp ++ told_onto m t b))

    what_read :
        (t : Told)
        → what_of t < 2 ^ 32
        → u32_at little (told_buffer t) (length before + nlmsg_header + cn_header) ≡ what_of t
    what_read t fits =
        u32_at-onto (head_parts []) (what_of t) (m.stamp ++ told_onto m t b)
          (length before + nlmsg_header + cn_header) (omega (arith, head_total [])) fits

    -- The process's number behind that of its thread.
    first_read :
        (w pid : ℕ) (rest : Bytes)
        → pid < 2 ^ 32
        → u32_at little
            (onto
              (head_parts (u32_bytes little w ∷ m.stamp ∷ m.first_thread ∷ []))
              (u32_bytes little pid ++ rest))
            (length before + nlmsg_header + cn_header + 16 + 4)
          ≡ pid
    first_read w pid rest fits =
        u32_at-onto (head_parts (u32_bytes little w ∷ m.stamp ∷ m.first_thread ∷ [])) pid rest
          (length before + nlmsg_header + cn_header + 16 + 4)
          (omega (
            arith,
            head_total (u32_bytes little w ∷ m.stamp ∷ m.first_thread ∷ []),
            length-u32_bytes little w,
            h.stamp_fits,
            h.first_fits,
          ))
          fits

    second_read :
        (w parent child : ℕ) (rest : Bytes)
        → child < 2 ^ 32
        → u32_at little
            (onto
              (head_parts (
                u32_bytes little w
                ∷ m.stamp
                ∷ m.first_thread
                ∷ u32_bytes little parent
                ∷ m.second_thread
                ∷ []))
              (u32_bytes little child ++ rest))
            (length before + nlmsg_header + cn_header + 16 + 12)
          ≡ child
    second_read w parent child rest fits =
        let more : List Bytes =
          u32_bytes little w
          ∷ m.stamp
          ∷ m.first_thread
          ∷ u32_bytes little parent
          ∷ m.second_thread
          ∷ [] in
        u32_at-onto (head_parts more) child rest
          (length before + nlmsg_header + cn_header + 16 + 12)
          (omega (
            arith,
            head_total more,
            length-u32_bytes little w,
            length-u32_bytes little parent,
            h.stamp_fits,
            h.first_fits,
            h.second_fits,
          ))
          fits

    told_read :
        (t : Told)
        → HasNumbers t
        → event_at little (told_buffer t) (length before + nlmsg_header + cn_header) ≡ told_event t
    unfolding event_at
    told_read (event (fork parent child)) n =
        rw
          (
            what_read (event (fork parent child)) (omega arith),
            first_read proc_event_fork parent _ n.0,
            second_read proc_event_fork parent child _ n.1,
          )
          refl
    told_read (event (exec pid)) n =
        rw
          (
            what_read (event (exec pid)) (omega arith),
            first_read proc_event_exec pid (m.tail ++ b) n,
          )
          refl
    told_read (event (exit pid)) n =
        rw
          (
            what_read (event (exit pid)) (omega arith),
            first_read proc_event_exit pid (m.tail ++ b) n,
          )
          refl
    told_read (other what) n = rw (what_read (other what) n.0, n.1, n.2, n.3) refl

    abbrev part_length : ℕ
    part_length = length (connector_part little m)

    abbrev buffer : Bytes
    buffer = told_buffer m.told

    part_length-le : 16 ≤ part_length
    part_length-le = omega (
      arith,
      length-append (u32_bytes little (what_of m.told)) (m.stamp ++ told_part little m m.told),
      length-append m.stamp (told_part little m m.told),
      length-u32_bytes little (what_of m.told),
      h.stamp_fits,
    )

    length-buffer : length buffer ≡ length before + (36 + part_length + length b)
    length-buffer =
        length-append before (message_onto m b)
        ∙ ap (λ n. length before + n)
            (ap length (sym (encode-append m b))
              ∙ length-append (encode little m) b
              ∙ ap (λ n. n + length b) (length-encode m h))

    part_read :
        unwrap_or (get_u16 little buffer (length before + nlmsg_header + 16)) 0 ≡ part_length
    part_read =
        u16_at-onto (before ∷ u32_bytes little (36 + part_length) ∷ m.headers ∷ []) part_length
          (m.flags ++ (u32_bytes little (what_of m.told) ++ (m.stamp ++ told_onto m m.told b)))
          (length before + nlmsg_header + 16)
          (omega (arith, length-u32_bytes little (36 + part_length), h.headers_fit)) h.length_fits

    length_read : u32_at little buffer (length before) ≡ 36 + part_length
    length_read =
        u32_at-onto (before ∷ []) (36 + part_length)
          (m.headers
            ++ (u16_bytes little part_length
                ++ (m.flags
                    ++ (u32_bytes little (what_of m.told) ++ (m.stamp ++ told_onto m m.told b)))))
          (length before) (omega arith) (omega (arith, h.length_fits))

    message_event-found :
        message_event little buffer (length before) (36 + part_length) ≡ told_event m.told
    unfolding message_event
    message_event-found =
        rw (part_read, full part_length part_length-le, ends (length before) part_length)
          (told_read m.told h.numbers_fit)
      where
        full : (n : ℕ) → 16 ≤ n → leb 16 n ≡ true
        full n k = ground arith

        ends : (o n : ℕ) → leb (o + nlmsg_header + cn_header + n) (o + (36 + n)) ≡ true
        ends o n = ground arith

    pub parse_from-step :
        (fuel : ℕ)
        → parse_from little buffer (suc fuel) (length before)
          ≡ map_some
              (with_event little (told_event m.told))
              (parse_from little buffer fuel (length before + (36 + part_length)))
    unfolding parse_from
    parse_from-step fuel =
        rw
          (
            length_read,
            message_event-found,
            length-buffer,
            room (length before) part_length (length b),
            whole (length before) part_length (length b),
            aligned_part part_length h.ends_aligned,
          )
          refl
      where
        room : (o n k : ℕ) → leb (o + nlmsg_header + cn_header) (o + (36 + n + k)) ≡ true
        room o n k = ground arith

        whole :
            (o n k : ℕ)
            → (ltb (36 + n) (nlmsg_header + cn_header) || ltb (o + (36 + n + k)) (o + (36 + n)))
              ≡ false
        whole o n k = ground arith

        aligned_part : (n : ℕ) → n % 4 ≡ 0 → aligned little (36 + n) ≡ 36 + n
        aligned_part n e = omega arith
