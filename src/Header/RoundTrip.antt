-- ===== src/Header/RoundTrip.antt =====
-- Printing a header, framing it as the LoRa module does, and parsing it.
mod Slices
mod Fields
mod Message
mod Values
use lora_multihop.Prelude.{
  ℕ, suc, ◌+◌, ◌-◌, ◌<◌, Text, true, [], ◌∷◌, ◌++◌, ℤ, pos, negsuc, ◌≡◌, ◌≢◌, refl, ok, arith,
  length, take, length-append, take-append_length, ap, ◌∙◌, eq_ℤ, append-nil,
}
use lora_multihop.Variables.{header_delimiter, lora_module_delimiter}
use lora_multihop.Python.Split.{Lacks}
use lora_multihop.Python.Number.{int, str_ℕ, str_ℤ, format_06d}
use lora_multihop.Python.Number.RoundTrip.{int-str_ℤ}
use lora_multihop.Header.{
  Body, route_request, message, message_acknowledge, Packet, flag_of, values, get_header_str,
}
use lora_multihop.Header.Parse.{
  create_header_obj_from_raw_message, read_header, is_available, index_to_value,
}
use lora_multihop.Header.Sendable.{front, IsAddr, IsSendable, Fits, received, line}
use lora_multihop.Header.Parse.{message_fields, check_int_field}
use Message.{
  packet_of, text_of, get_header_str-text_of, arrived, positions, read-message, cut-spelled,
  digit-Lacks, payload-ne-nil,
}
use Fields.{check_addr, check_int-str_ℤ}
use Values.{
  create-line, cut-values, read-body, fields-body, str_ℕ-Lacks, str_ℤ-Lacks, values-Lacks,
  format_06d-Lacks,
}

-- The frame of a received line, as the module writes it.
pub record IsFrame (start from size : Text) : Type 0 where
  pub start_lacks : Lacks lora_module_delimiter start
  pub from_lacks : Lacks lora_module_delimiter from
  pub size_lacks : Lacks lora_module_delimiter size
  pub from_addr : length from ≡ 4

module _ (start from size tail : Text) (frame : IsFrame start from size)
    (tail_lacks : Lacks header_delimiter tail) where
  parse-other :
      (source : Text) (ttl : ℤ) (body : Body)
      → flag_of body ≢ 1
      → IsAddr source
      → Fits ttl body
      → create_header_obj_from_raw_message (
          line start from size
            (get_header_str (record { source = source; ttl = ttl; body = body }) ++ tail))
        ≡ index_to_value (
            read_header from
              (get_header_str (record { source = source; ttl = ttl; body = body }) ++ tail)
              (source ∷ str_ℕ (flag_of body) ∷ str_ℤ ttl ∷ values body))
  unfolding get_header_str
  parse-other source ttl body n addr h =
      create-line start from size _ _ frame.start_lacks frame.from_lacks frame.size_lacks
        frame.from_addr
        (cut-values (source ∷ str_ℕ (flag_of body) ∷ str_ℤ ttl ∷ values body) tail
          (addr.1, (str_ℕ-Lacks (flag_of body), (str_ℤ-Lacks ttl, values-Lacks ttl body n h)))
          tail_lacks)

  parse-acknowledge :
      (source : Text) (ttl : ℤ) (destination message_id : Text)
      → IsAddr source
      → Fits ttl (message_acknowledge destination message_id)
      → create_header_obj_from_raw_message (
          line start from size (
            get_header_str (record {
              source = source;
              ttl = ttl;
              body = message_acknowledge destination message_id;
            })
            ++ tail))
        ≡ ok (record {
          received_from = from;
          packet = record {
            source = source;
            ttl = ttl;
            body = message_acknowledge destination message_id;
          };
        })
  unfolding read_header message_fields eq_ℤ
  parse-acknowledge source ttl destination message_id addr h =
      let flag : int (str_ℕ 2) ≡ ok (pos 2) = unfold str_ℤ in int-str_ℤ (pos 2) in
      let flag_field : check_int_field (str_ℕ 2) ≡ ok tt =
        unfold str_ℤ in check_int-str_ℤ (pos 2) in
      rw (parse-other source ttl (message_acknowledge destination message_id) (omega arith) addr h)
        (rw (check_addr source addr.0, flag_field, flag, check_int-str_ℤ ttl, int-str_ℤ ttl, h.1)
          refl)

  parse-message :
      (source destination next_node : Text) (t id : ℕ) (payload : Text)
      → IsAddr source
      → IsAddr destination
      → IsAddr next_node
      → t < 10
      → id < 1000000
      → is_available destination ≡ true
      → create_header_obj_from_raw_message (
          line start from size
            (get_header_str (packet_of source destination next_node t id payload tail) ++ tail))
        ≡ ok (arrived source destination next_node t id payload tail from)
  parse-message source destination next_node t id payload hs hd hn ht hi available =
      let text = text_of source destination next_node t id payload tail in
      let (more, cut) =
        cut-spelled source destination next_node (format_06d (pos id)) (payload ++ b'|' ∷ tail) b'1'
          (b'0' + t)
          (
            hs.1,
            (
              digit-Lacks 1 (omega arith),
              (digit-Lacks t ht, (hd.1, (hn.1, (format_06d-Lacks id, tt)))),
            ),
          ) in
      rw (
        get_header_str-text_of source destination next_node t id payload tail ht,
        create-line start from size text _ frame.start_lacks frame.from_lacks frame.size_lacks
            frame.from_addr cut,
        read-message from text source destination t _ hs.0 ht available,
        positions from source destination next_node (payload ++ b'|' ∷ tail) t id hs.0 hd.0 hn.0 ht
            hi (payload-ne-nil payload tail),
      )

  parse-body :
      (source : Text) (ttl : ℤ) (body : Body)
      → 2 < flag_of body
      → IsAddr source
      → Fits ttl body
      → create_header_obj_from_raw_message (
          line start from size
            (get_header_str (record { source = source; ttl = ttl; body = body }) ++ tail))
        ≡ ok (record {
          received_from = from;
          packet = record { source = source; ttl = ttl; body = body };
        })
  parse-body source ttl body big hs h = rw (
    parse-other source ttl body (λ e. omega arith) hs h,
    read-body from _ source (flag_of body) ttl (values body) body hs.0 big (
        fields-body source (str_ℕ (flag_of body)) (str_ℤ ttl) ttl body (λ e. omega arith)
          (λ e. omega arith) h),
  )

  parse-sendable :
      (source : Text) (ttl : ℤ) (body : Body)
      → IsAddr source
      → Fits ttl body
      → create_header_obj_from_raw_message (
          line start from size
            (get_header_str (record { source = source; ttl = ttl; body = body }) ++ tail))
        ≡ ok (record {
          received_from = from;
          packet = record { source = source; ttl = ttl; body = received tail body };
        })
  parse-sendable source (pos t) (message destination next_node (pos id) payload) hs h =
      parse-message source destination next_node t id payload hs h.0 h.1 h.3 h.2 h.4
  parse-sendable source (pos t) (message destination next_node (negsuc id) payload) hs h =
      absurd h.2
  parse-sendable source (negsuc t) (message destination next_node id payload) hs h = absurd h.3
  parse-sendable source ttl (message_acknowledge destination message_id) hs h =
      parse-acknowledge source ttl destination message_id hs h
  parse-sendable source ttl body hs h = parse-body source ttl body (omega arith) hs h

  -- Every header that the format can carry is parsed from its own text, in any frame. Behind the
  -- last delimiter may stand a tail without delimiters, as a line end: it changes nothing but a
  -- payload, which takes in the last delimiter and all of the tail but its last character.
  pub parse-print_tail :
      (p : Packet)
      → IsSendable p
      → create_header_obj_from_raw_message (line start from size (get_header_str p ++ tail))
        ≡ ok (record { received_from = from; packet = record p { body = received tail p.body } })
  parse-print_tail p h = parse-sendable p.source p.ttl p.body h.source_addr h.fits

front-delimiter : (s : Text) → front (s ++ header_delimiter ∷ []) ≡ s
front-delimiter [] = refl
front-delimiter (c ∷ s) =
    rw length-append (ground (arith, take-append_length s (header_delimiter ∷ [])))

received-nil : (body : Body) → received [] body ≡ body
received-nil (message destination next_node message_id payload) =
    ap (λ text. message destination next_node message_id text) (front-delimiter payload)
received-nil (route_request _ _) = refl
received-nil _ = refl

-- Parsing undoes printing: a header that the format can carry, printed by `get_header_str` and
-- framed by the module with the sender's address, is read back unchanged.
pub parse-print :
    (start from size : Text) (p : Packet)
    → IsFrame start from size
    → IsSendable p
    → create_header_obj_from_raw_message (line start from size (get_header_str p))
      ≡ ok (record { received_from = from; packet = p })
parse-print start from size p frame h =
    rw (← append-nil (get_header_str p))
      (parse-print_tail start from size [] frame tt p h ∙ rw (received-nil p.body))
