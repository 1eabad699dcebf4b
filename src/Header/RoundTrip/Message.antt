-- ===== src/Header/RoundTrip/Message.antt =====
-- Parsing a framed message.
use lora_multihop.Prelude.{
  ℕ, ◌+◌, ◌<◌, Text, true, List, [], ◌∷◌, ◌++◌, append_assoc, pos, ◌≡◌, ◌≢◌, refl, ok, arith, All,
  length, ap, ◌∙◌, eq_ℤ,
}
use lora_multihop.Variables.{header_delimiter}
use lora_multihop.Python.Split.{Lacks, rest_of, split, split-ne-nil}
use lora_multihop.Python.Number.{int, str_ℕ, str_ℤ, format_06d}
use lora_multihop.Python.Number.RoundTrip.{
  int-str_ℤ, int-format_06d, length-format_06d, str_ℕ_digit,
}
use lora_multihop.Header.{message, Packet, Header, delimited, create_header_str, get_header_str}
use lora_multihop.Header.Parse.{
  create_message_header_obj, del_last, message_fields, read_header, is_available, check_int_field,
}
use lora_multihop.Header.Sendable.{front}
use lora_multihop.Header.RoundTrip.Slices.{length-Four, length-Six, create_message-slices}
use lora_multihop.Header.RoundTrip.Fields.{
  split-delimited, rest_of-split, del_last-cons, check_addr,
}

-- the text behind the first delimiter, bracketed to the right
abbrev pub spelled : Text → ℕ → ℕ → Text → Text → Text → Text → Text
spelled source f t destination next_node id rest =
    source
    ++ b'|'
      ∷ f
      ∷ b'|'
      ∷ t
      ∷ b'|'
      ∷ (destination ++ b'|' ∷ (next_node ++ b'|' ∷ (id ++ b'|' ∷ rest)))

spelled-delimited :
    (source destination next_node id payload tail : Text) (f t : ℕ)
    → delimited (source ∷ (f ∷ []) ∷ (t ∷ []) ∷ destination ∷ next_node ∷ id ∷ payload ∷ []) ++ tail
      ≡ spelled source f t destination next_node id (payload ++ b'|' ∷ tail)
spelled-delimited source destination next_node id payload tail f t = simp append_assoc

spelled-six :
    (source destination next_node id rest : Text) (f t : ℕ)
    → spelled source f t destination next_node id rest
      ≡ delimited (source ∷ (f ∷ []) ∷ (t ∷ []) ∷ destination ∷ next_node ∷ id ∷ []) ++ rest
spelled-six source destination next_node id rest f t = simp append_assoc

-- The fields that a message is cut into start with the six before the payload.
pub cut-spelled :
    (source destination next_node id rest : Text) (f t : ℕ)
    → All
        (Lacks header_delimiter)
        (source ∷ (f ∷ []) ∷ (t ∷ []) ∷ destination ∷ next_node ∷ id ∷ [])
    → (more : List Text) × (del_last (
          rest_of (
            split header_delimiter
              (header_delimiter ∷ spelled source f t destination next_node id rest)))
        ≡ ok (source ∷ (f ∷ []) ∷ (t ∷ []) ∷ destination ∷ next_node ∷ id ∷ more))
cut-spelled source destination next_node id rest f t h =
    let (p, ps, e) = split-ne-nil header_delimiter rest in
    let (more, cut) = del_last-cons p ps in
    (
      more,
      rw (
        rest_of-split (spelled source f t destination next_node id rest),
        spelled-six source destination next_node id rest f t,
        split-delimited (source ∷ (f ∷ []) ∷ (t ∷ []) ∷ destination ∷ next_node ∷ id ∷ []) rest h,
        e,
        cut,
      ),
    )

module _ (source destination next_node : Text) (t id : ℕ) (payload tail : Text) where
  abbrev pub packet_of : Packet
  packet_of = record {
    source = source;
    ttl = pos t;
    body = message destination next_node (pos id) payload;
  }

  -- the message text, with its delimiter in front
  abbrev pub text_of : Text
  text_of =
      header_delimiter
      ∷ spelled source b'1' (b'0' + t) destination next_node (format_06d (pos id))
          (payload ++ b'|' ∷ tail)

  pub get_header_str-text_of : t < 10 → get_header_str packet_of ++ tail ≡ text_of
  unfolding get_header_str create_header_str
  get_header_str-text_of small =
      let ttl : str_ℤ (pos t) ≡ str_ℕ t = unfold str_ℤ in refl in
      rw (ttl, str_ℕ_digit 1 (omega arith), str_ℕ_digit t small)
        (ap (◌∷◌ header_delimiter) (
          spelled-delimited source destination next_node (format_06d (pos id)) payload tail b'1'
            (b'0' + t)))

  abbrev pub arrived : Text → Header
  arrived from = record {
    received_from = from;
    packet = record {
      source = source;
      ttl = pos t;
      body = message destination next_node (pos id) (front (payload ++ header_delimiter ∷ tail));
    };
  }

one_digit : (t : ℕ) → t < 10 → int ((b'0' + t) ∷ []) ≡ ok (pos t)
unfolding str_ℤ
one_digit t h = rw (← str_ℕ_digit t h) (int-str_ℤ (pos t))

-- A text with something behind the id is read by position.
pub positions :
    (from source destination next_node rest : Text) (t id : ℕ)
    → length source ≡ 4
    → length destination ≡ 4
    → length next_node ≡ 4
    → t < 10
    → id < 1000000
    → rest ≢ []
    → create_message_header_obj from (
        header_delimiter
        ∷ spelled source b'1' (b'0' + t) destination next_node (format_06d (pos id)) rest)
      ≡ ok (record {
        received_from = from;
        packet = record {
          source = source;
          ttl = pos t;
          body = message destination next_node (pos id) (front rest);
        };
      })
positions from source destination next_node [] t id _ _ _ _ _ n = absurd (n refl)
positions from source destination next_node (r ∷ rs) t id hs hd hn ht hi _ =
    create_message-slices from source destination next_node (format_06d (pos id)) b'1' (b'0' + t) r
      rs (length-Four source hs) (length-Four destination hd) (length-Four next_node hn)
      (length-Six (format_06d (pos id)) (length-format_06d id hi))
    ∙ rw (one_digit t ht, int-format_06d (pos id))

-- The fields of a message select the reading by position.
pub read-message :
    (from text source destination : Text) (t : ℕ) (more : List Text)
    → length source ≡ 4
    → t < 10
    → is_available destination ≡ true
    → read_header from text (source ∷ (b'1' ∷ []) ∷ ((b'0' + t) ∷ []) ∷ destination ∷ more)
      ≡ create_message_header_obj from text
unfolding read_header message_fields eq_ℤ check_int_field
read-message from text source destination t more hs ht available =
    let flag : int (b'1' ∷ []) ≡ ok (pos 1) = one_digit 1 (omega arith) in
    rw (check_addr source hs, flag, one_digit t ht, available)

pub digit-Lacks : (t : ℕ) → t < 10 → Lacks header_delimiter ((b'0' + t) ∷ [])
digit-Lacks t h = ((λ e. omega arith), tt)

-- what a payload and a delimiter make is not empty
pub payload-ne-nil : (payload tail : Text) → (payload ++ b'|' ∷ tail) ≢ []
payload-ne-nil [] tail = ground arith
payload-ne-nil (c ∷ payload) tail = ground arith
