-- ===== src/Header/Debug.antt =====
-- src/lora_multihop/header.py: `__str__` of the header classes, which the program uses for debugging.
use lora_multihop.Prelude.{
  ℕ, Text, codes, Bool, true, false, List, [], ◌∷◌, ◌++◌, ℤ, Result, ok, raised, type_error, ◌≡◌,
  refl, if◌then◌else◌,
}
use lora_multihop.Python.Number.{str_ℤ}
use lora_multihop.Header.{
  Body, route_request, route_reply, connect_request, disconnect_request, Header, flag_of,
}

-- What is added to a text: `flag` is a number in the source.
pub data Operand : Type 0 where
  text : Text → Operand
  number : ℕ → Operand

-- `sum + " " + operand + ...`, from the left: a number raises a `TypeError`.
unfoldable pub concatenate : Text → List Operand → Result Text
concatenate sum [] = ok sum
concatenate sum (text s ∷ later) = concatenate (sum ++ codes " " ++ s) later
concatenate sum (number _ ∷ later) = raised type_error

abbrev texts : List Text → List Operand
texts [] = []
texts (s ∷ later) = text s ∷ texts later

-- `self.source + " " + self.flag + " " + str(self.ttl)`, and then the attributes of the class
abbrev joined : Header → List Text → Result Text
joined h attributes =
    concatenate h.source (number (flag_of h.body) ∷ text (str_ℤ h.ttl) ∷ texts attributes)

unfoldable pub route_request_str : Header → ℤ → Text → Result Text
route_request_str h hops end_node = joined h (str_ℤ hops ∷ end_node ∷ [])

unfoldable pub route_reply_str : Header → ℤ → Text → Text → Result Text
route_reply_str h hops end_node next_node = joined h (str_ℤ hops ∷ end_node ∷ next_node ∷ [])

unfoldable pub connect_request_str : Header → Text → Text → Text → Text → Text → Result Text
connect_request_str h end_node next_node source_peer_id target_peer_id timeout =
    joined h (end_node ∷ next_node ∷ source_peer_id ∷ target_peer_id ∷ timeout ∷ [])

unfoldable pub disconnect_request_str : Header → Text → Text → Text → Text → Result Text
disconnect_request_str h end_node next_node source_peer_id target_peer_id =
    joined h (end_node ∷ next_node ∷ source_peer_id ∷ target_peer_id ∷ [])

-- `str(header_obj)`; `object_str` is the text that Python gives an object without a `__str__`.
abbrev pub str_header : (Header → Text) → Header → Body → Result Text
str_header object_str h (route_request hops end_node) = route_request_str h hops end_node
str_header object_str h (route_reply hops end_node next_node) =
    route_reply_str h hops end_node next_node
str_header object_str h (connect_request end_node next_node source target timeout) =
    connect_request_str h end_node next_node source target timeout
str_header object_str h (disconnect_request end_node next_node source target) =
    disconnect_request_str h end_node next_node source target
str_header object_str h _ = ok (object_str h)

-- whether the class has a `__str__` of its own
abbrev pub has_str : Body → Bool
has_str (route_request _ _) = true
has_str (route_reply _ _ _) = true
has_str (connect_request _ _ _ _ _) = true
has_str (disconnect_request _ _ _ _) = true
has_str _ = false

-- Every `__str__` of a header class raises.
pub str_header-raises :
    (object_str : Header → Text) (h : Header) (body : Body)
    → str_header object_str h body ≡ (if has_str body then raised type_error else ok (object_str h))
unfolding route_request_str route_reply_str connect_request_str disconnect_request_str concatenate
str_header-raises object_str h (route_request _ _) = refl
str_header-raises object_str h _ = refl
