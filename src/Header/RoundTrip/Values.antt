-- ===== src/Header/RoundTrip/Values.antt =====
-- The values between the delimiters of a header, printed and read.
use lora_multihop.Prelude.{
  ℕ, suc, ◌<◌, Text, text_eq, true, false, List, [], ◌∷◌, ◌++◌, ℤ, pos, negsuc, ◌≡◌, ◌≢◌, refl, ok,
  arith, All, length, eq_ℤ,
}
use lora_multihop.Variables.{header_delimiter, lora_module_delimiter}
use lora_multihop.Python.Split.{Lacks, rest_of, split, split_last}
use lora_multihop.Python.Number.{int, str_ℕ, str_ℤ, format_06d}
use lora_multihop.Python.Number.RoundTrip.{IsDigit, int-str_ℤ, str_ℕ-IsDigit, format_06d-IsDigit}
use lora_multihop.Header.{
  Body, route_request, route_reply, message, route_error, message_acknowledge, registration,
  connect_request, disconnect_request, flag_of, delimited, values, create_header_str,
}
use lora_multihop.Header.Parse.{create_header_obj_from_raw_message, read_header, index_to_value}
use lora_multihop.Header.Sendable.{Fits, line}
use lora_multihop.Header.Parse.{
  del_last, body_fields, route_fields, route_error_fields, registration_fields, connect_fields,
  disconnect_fields, check_int_field,
}
use lora_multihop.Header.RoundTrip.Fields.{
  split-delimited, rest_of-split, del_last-concat, check_addr, check_int-str_ℤ, split_max-line,
}

-- A framed line is read as its text is.
pub create-line :
    (start from size text : Text) (fields : List Text)
    → Lacks lora_module_delimiter start
    → Lacks lora_module_delimiter from
    → Lacks lora_module_delimiter size
    → length from ≡ 4
    → del_last (rest_of (split header_delimiter text)) ≡ ok fields
    → create_header_obj_from_raw_message (line start from size text)
      ≡ index_to_value (read_header from text fields)
unfolding create_header_obj_from_raw_message
create-line start from size text fields hs hf hz addr cut =
    rw (split_max-line start from size text hs hf hz, check_addr from addr, cut)

-- The values between the delimiters, where none of them holds a delimiter.
pub cut-values :
    (vs : List Text) (tail : Text)
    → All (Lacks header_delimiter) vs
    → Lacks header_delimiter tail
    → del_last (rest_of (split header_delimiter (create_header_str vs ++ tail))) ≡ ok vs
unfolding create_header_str
cut-values vs tail h t = rw (
  rest_of-split (delimited vs ++ tail),
  split-delimited vs tail h,
  split_last header_delimiter tail t,
  del_last-concat vs tail,
)

pub read-body :
    (from text source : Text) (k : ℕ) (ttl : ℤ) (vs : List Text) (body : Body)
    → length source ≡ 4
    → 2 < k
    → body_fields (pos k) (source ∷ str_ℕ k ∷ str_ℤ ttl ∷ vs) ≡ ok body
    → read_header from text (source ∷ str_ℕ k ∷ str_ℤ ttl ∷ vs)
      ≡ ok (record {
        received_from = from;
        packet = record { source = source; ttl = ttl; body = body };
      })
unfolding read_header eq_ℤ
read-body from text source k ttl vs body addr big h =
    let flag : int (str_ℕ k) ≡ ok (pos k) = unfold str_ℤ in int-str_ℤ (pos k) in
    let flag_field : check_int_field (str_ℕ k) ≡ ok tt = unfold str_ℤ in check_int-str_ℤ (pos k) in
    rw (check_addr source addr, flag_field, flag, check_int-str_ℤ ttl, int-str_ℤ ttl)
      (ground (arith, h))

pub fields-body :
    (source flag ttl_str : Text) (ttl : ℤ) (body : Body)
    → flag_of body ≢ 1
    → flag_of body ≢ 2
    → Fits ttl body
    → body_fields (pos (flag_of body)) (source ∷ flag ∷ ttl_str ∷ values body) ≡ ok body
unfolding body_fields eq_ℤ
fields-body source flag ttl_str ttl (route_request hops end_node) _ _ h =
    unfold route_fields in rw (check_int-str_ℤ hops, check_addr end_node h.0, int-str_ℤ hops)
fields-body source flag ttl_str ttl (route_reply hops end_node next_node) _ _ h =
    unfold route_fields in
    rw (check_int-str_ℤ hops, check_addr end_node h.0.0, check_addr next_node h.1.0, int-str_ℤ hops)
fields-body source flag ttl_str ttl (message _ _ _ _) n _ h = absurd (n refl)
fields-body source flag ttl_str ttl (message_acknowledge _ _) _ n h = absurd (n refl)
fields-body source flag ttl_str ttl (route_error broken_node) _ _ h =
    unfold route_error_fields in rw (check_addr broken_node h.0)
fields-body source flag ttl_str ttl (registration true []) _ _ h = absurd (h.0 refl)
fields-body source flag ttl_str ttl (registration false []) _ _ h = absurd (h.0 refl)
fields-body source flag ttl_str ttl (registration true (c ∷ s)) _ _ h =
    unfold registration_fields text_eq in ground arith
fields-body source flag ttl_str ttl (registration false (c ∷ s)) _ _ h =
    unfold registration_fields text_eq in ground arith
fields-body source flag ttl_str ttl (connect_request end_node next_node _ _ _) _ _ h =
    unfold connect_fields in rw (check_addr end_node h.0.0, check_addr next_node h.1.0)
fields-body source flag ttl_str ttl (disconnect_request end_node next_node _ _) _ _ h =
    unfold disconnect_fields in rw (check_addr end_node h.0.0, check_addr next_node h.1.0)

pub digits-Lacks : (s : Text) → All IsDigit s → Lacks header_delimiter s
digits-Lacks [] h = tt
digits-Lacks (c ∷ s) h = ((λ e. omega arith), digits-Lacks s h.1)

pub str_ℕ-Lacks : (n : ℕ) → Lacks header_delimiter (str_ℕ n)
str_ℕ-Lacks n = digits-Lacks (str_ℕ n) (str_ℕ-IsDigit n)

pub str_ℤ-Lacks : (z : ℤ) → Lacks header_delimiter (str_ℤ z)
unfolding str_ℤ
str_ℤ-Lacks (pos n) = str_ℕ-Lacks n
str_ℤ-Lacks (negsuc n) = ((λ e. omega arith), str_ℕ-Lacks (suc n))

pub values-Lacks :
    (ttl : ℤ) (body : Body)
    → flag_of body ≢ 1
    → Fits ttl body
    → All (Lacks header_delimiter) (values body)
values-Lacks ttl (route_request hops end_node) n h = (str_ℤ-Lacks hops, (h.1, tt))
values-Lacks ttl (route_reply hops end_node next_node) n h =
    (str_ℤ-Lacks hops, (h.0.1, (h.1.1, tt)))
values-Lacks ttl (message _ _ _ _) n h = absurd (n refl)
values-Lacks ttl (message_acknowledge destination message_id) n h = (h.0, (h.2, tt))
values-Lacks ttl (route_error broken_node) n h = (h.1, tt)
values-Lacks ttl (registration true peer_id) n h = (omega arith, (h.1, tt))
values-Lacks ttl (registration false peer_id) n h = (omega arith, (h.1, tt))
values-Lacks ttl (connect_request _ _ _ _ _) n h = (h.0.1, (h.1.1, (h.2, (h.3, (h.4, tt)))))
values-Lacks ttl (disconnect_request _ _ _ _) n h = (h.0.1, (h.1.1, (h.2, (h.3, tt))))

pub format_06d-Lacks : (id : ℕ) → Lacks header_delimiter (format_06d (pos id))
format_06d-Lacks id = digits-Lacks (format_06d (pos id)) (format_06d-IsDigit id)
